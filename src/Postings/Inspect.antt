-- ===== src/Postings/Inspect.antt =====
-- `inspect_postings_blocks` of crates/surch-codec/src/postings_block.rs, which summarises a flat payload
-- by blocks of 128 postings, and the skip list that is built from the summaries.
use surch.Base.{ℕ, zero, suc, ◌+◌, ◌-◌, min, max, Bool, true, false}
use surch.Base.{List, [], ◌∷◌, map, ok, ◌>>=◌}
use surch.Postings.Varint.{BlockResult, read_varint_u32}
use surch.Postings.Flat.{read_delta}
use surch.Postings.BlockEncode.{for_block_size}
use surch.Postings.Skip.{BlockSkipEntry, BlockSkipList, from_block_ranges}

pub record PostingsBlockMeta : Type 0 where
  pub block_index : ℕ
  pub posting_count : ℕ
  pub min_doc_id : ℕ
  pub max_doc_id : ℕ
  pub max_term_freq : ℕ
  pub doc_ids_byte_start : ℕ
  pub doc_ids_byte_end : ℕ
  pub freqs_byte_start : ℕ
  pub freqs_byte_end : ℕ

-- What the loop over the slots of a block carries. `max_doc_id` is also the doc id before the next.
pub record Slots : Type 0 where
  pub min_doc_id : ℕ
  pub max_doc_id : ℕ
  pub position : ℕ

-- The later slots of a block: their deltas are not the first one of the payload.
unfoldable pub read_later_slots : List ℕ → ℕ → Slots → BlockResult Slots
read_later_slots bytes zero slots = ok slots
read_later_slots bytes (suc n) slots = do
  (value, next) ← read_delta bytes true slots.max_doc_id slots.position
  read_later_slots bytes n
      record { min_doc_id = slots.min_doc_id; max_doc_id = value; position = next }

-- A block of `suc later` slots, after `previous`.
unfoldable pub read_slots : List ℕ → ℕ → ℕ → Bool → ℕ → BlockResult Slots
unfolding read_later_slots
read_slots bytes later previous started position = do
  (value, next) ← read_delta bytes started previous position
  read_later_slots bytes later record { min_doc_id = value; max_doc_id = value; position = next }

-- The loop over the blocks of `remaining` doc ids, for `rounds` blocks at most.
unfoldable pub inspect_doc_ids :
    ℕ → List ℕ → ℕ → ℕ → ℕ → Bool → ℕ → BlockResult (List PostingsBlockMeta × ℕ)
unfolding read_slots
inspect_doc_ids zero bytes remaining block_index previous started position = ok ([], position)
inspect_doc_ids (suc rounds) bytes zero block_index previous started position = ok ([], position)
inspect_doc_ids (suc rounds) bytes (suc remaining) block_index previous started position = do
  let posting_count = min (suc remaining) for_block_size
  slots ← read_slots bytes (posting_count - 1) previous started position
  (metas, end) ←
      inspect_doc_ids rounds bytes (suc remaining - posting_count) (block_index + 1)
        slots.max_doc_id true slots.position
  let meta : PostingsBlockMeta = record {
    block_index = block_index;
    posting_count = posting_count;
    min_doc_id = slots.min_doc_id;
    max_doc_id = slots.max_doc_id;
    max_term_freq = 0;
    doc_ids_byte_start = position;
    doc_ids_byte_end = slots.position;
    freqs_byte_start = 0;
    freqs_byte_end = 0;
  }
  ok (meta ∷ metas, end)

-- The greatest of `n` frequencies.
unfoldable pub read_max_freq : List ℕ → ℕ → ℕ → ℕ → BlockResult (ℕ × ℕ)
read_max_freq bytes zero max_term_freq position = ok (max_term_freq, position)
read_max_freq bytes (suc n) max_term_freq position = do
  (freq, next) ← read_varint_u32 bytes position
  read_max_freq bytes n (max max_term_freq freq) next

unfoldable pub inspect_freqs :
    List ℕ → List PostingsBlockMeta → ℕ → BlockResult (List PostingsBlockMeta)
unfolding read_max_freq
inspect_freqs bytes [] position = ok []
inspect_freqs bytes (meta ∷ metas) position = do
  (max_term_freq, end) ← read_max_freq bytes meta.posting_count 0 position
  later ← inspect_freqs bytes metas end
  let filled : PostingsBlockMeta = record {
    block_index = meta.block_index;
    posting_count = meta.posting_count;
    min_doc_id = meta.min_doc_id;
    max_doc_id = meta.max_doc_id;
    max_term_freq = max_term_freq;
    doc_ids_byte_start = meta.doc_ids_byte_start;
    doc_ids_byte_end = meta.doc_ids_byte_end;
    freqs_byte_start = position;
    freqs_byte_end = end;
  }
  ok (filled ∷ later)

unfoldable pub inspect_postings_blocks : List ℕ → BlockResult (List PostingsBlockMeta)
unfolding inspect_doc_ids inspect_freqs
inspect_postings_blocks bytes = do
  (length, position) ← read_varint_u32 bytes 0
  (metas, end) ← inspect_doc_ids length bytes length 0 0 false position
  inspect_freqs bytes metas end

unfoldable pub entry_of_meta : PostingsBlockMeta → BlockSkipEntry
entry_of_meta meta = record {
  block_index = meta.block_index;
  min_doc_id = meta.min_doc_id;
  max_doc_id = meta.max_doc_id;
}

unfoldable pub from_block_metas : List PostingsBlockMeta → BlockResult BlockSkipList
unfolding entry_of_meta
from_block_metas metas = from_block_ranges (map entry_of_meta metas)
