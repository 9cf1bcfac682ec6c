-- ===== src/Postings/BlockEncode.antt =====
-- The encoder of blocks of crates/surch-codec/src/postings_block.rs.
use surch.Base.{
  ℕ, zero, suc, ◌+◌, ◌-◌, ◌*◌, ◌%◌, ◌^◌, min, max, bit_or, ltb, leb, ◌==◌, ◌&&◌, if◌then◌else◌,
  Bool, true,
}
use surch.Base.{List, [], ◌∷◌, ◌++◌, length, take, drop, ok, ◌>>=◌, ◌>>◌, guard}
use surch.Postings.Varint.{BlockResult, not_monotonic, write_varint_u32}
use surch.Postings.Flat.{validate_strictly_increasing, write_varints}
use surch.Postings.Packing.{bit_width, varint_len_for_bits, packed_len, pack_bits}
use surch.Postings.BlockPlan.{
  DocPlan, varint, packed, patched, collect_deltas, no_deltas, plan_doc_channel,
}

abbrev pub for_block_size : ℕ
for_block_size = 128

pub record BlockedEncodeStats : Type 0 where
  pub blocks : ℕ
  pub doc_id_bytes : ℕ
  pub freq_bytes : ℕ
  pub freq_omitted_blocks : ℕ

-- `u64::saturating_add`
unfoldable pub saturating_add : ℕ → ℕ → ℕ
saturating_add a b = min (a + b) (2 ^ 64 - 1)

unfoldable pub merge : BlockedEncodeStats → BlockedEncodeStats → BlockedEncodeStats
unfolding saturating_add
merge stats other = record {
  blocks = saturating_add stats.blocks other.blocks;
  doc_id_bytes = saturating_add stats.doc_id_bytes other.doc_id_bytes;
  freq_bytes = saturating_add stats.freq_bytes other.freq_bytes;
  freq_omitted_blocks = saturating_add stats.freq_omitted_blocks other.freq_omitted_blocks;
}

unfoldable pub max_width : List ℕ → ℕ
max_width [] = 0
max_width (freq ∷ freqs) = max (bit_width freq) (max_width freqs)

unfoldable pub all_ones : List ℕ → Bool
all_ones [] = true
all_ones (freq ∷ freqs) = freq == 1 && all_ones freqs

-- `freq_chunk.windows(2).all(|pair| pair[0] == pair[1])`
unfoldable pub all_equal : List ℕ → Bool
all_equal [] = true
all_equal (freq ∷ []) = true
all_equal (freq ∷ next ∷ freqs) = freq == next && all_equal (next ∷ freqs)

unfoldable pub varint_cost_of : List ℕ → ℕ
varint_cost_of [] = 0
varint_cost_of (freq ∷ freqs) = varint_len_for_bits (bit_width freq) + varint_cost_of freqs

-- `FREQ_MODE_ALL_ONES` is 0, `FREQ_MODE_CONSTANT` 1, `FREQ_MODE_PACKED` 2, `FREQ_MODE_VARINT` 3.
unfoldable pub freq_mode_of : List ℕ → ℕ → ℕ
unfolding all_ones all_equal varint_cost_of
freq_mode_of freqs freq_width =
    if all_ones freqs
    then 0
    else if all_equal freqs
    then 1
    else if ltb (varint_cost_of freqs) (1 + packed_len (length freqs) freq_width)
    then 3
    else 2

-- `DOC_MODE_VARINT` is 0, `DOC_MODE_PACKED` 1, `DOC_MODE_PATCHED` 2.
unfoldable pub doc_mode_of : DocPlan → ℕ
doc_mode_of varint = 0
doc_mode_of (packed width) = 1
doc_mode_of (patched width exceptions) = 2

-- The loop that takes the deltas from `threshold` on out of the packed ones, from `index` on.
unfoldable pub take_exceptions : ℕ → ℕ → List ℕ → List ℕ × List (ℕ × ℕ)
take_exceptions threshold index [] = ([], [])
take_exceptions threshold index (delta ∷ deltas) =
    let (packed_deltas, exceptions) = take_exceptions threshold (index + 1) deltas in
    if leb threshold delta
    then (0 ∷ packed_deltas, (index % 256, delta) ∷ exceptions)
    else (delta ∷ packed_deltas, exceptions)

unfoldable pub write_exceptions : List ℕ → List (ℕ × ℕ) → List ℕ
write_exceptions out [] = out
write_exceptions out ((index, delta) ∷ exceptions) =
    write_exceptions (write_varint_u32 (out ++ index ∷ []) delta) exceptions

unfoldable pub write_doc_channel : List ℕ → List ℕ → DocPlan → List ℕ
unfolding write_exceptions take_exceptions
write_doc_channel out deltas varint = write_varints out deltas
write_doc_channel out deltas (packed width) = pack_bits (out ++ (width % 256) ∷ []) deltas width
write_doc_channel out deltas (patched width exceptions) =
    let (packed_deltas, listed) = take_exceptions (2 ^ width) 0 deltas in
    write_exceptions
      (pack_bits (out ++ (width % 256) ∷ (exceptions % 256) ∷ []) packed_deltas width) listed

-- `freq_chunk[0]`
unfoldable pub first_of : List ℕ → ℕ
first_of [] = 0
first_of (freq ∷ freqs) = freq

unfoldable pub write_freq_channel : List ℕ → List ℕ → ℕ → ℕ → List ℕ
unfolding first_of
write_freq_channel out freqs freq_width freq_mode =
    if freq_mode == 1
    then write_varint_u32 out (first_of freqs)
    else if freq_mode == 2
    then pack_bits (out ++ (freq_width % 256) ∷ []) freqs freq_width
    else if freq_mode == 3
    then write_varints out freqs
    else out

-- The payload with one more block, and the counters of the block.
unfoldable pub encode_block_into : List ℕ → List ℕ → List ℕ → List ℕ × BlockedEncodeStats
unfolding write_doc_channel write_freq_channel max_width freq_mode_of doc_mode_of
encode_block_into out doc_chunk freq_chunk =
    let found = collect_deltas no_deltas doc_chunk in
    let plan = plan_doc_channel found.histogram (length found.scratch) found.varint_cost in
    let freq_width = max (max_width freq_chunk) 1 in
    let freq_mode = freq_mode_of freq_chunk freq_width in
    let header = out ++ bit_or (doc_mode_of plan) (freq_mode * 2 ^ 2 % 256) ∷ [] in
    let with_docs =
      write_doc_channel (write_varint_u32 header (first_of doc_chunk)) found.scratch plan in
    let with_freqs = write_freq_channel with_docs freq_chunk freq_width freq_mode in
    (
      with_freqs,
      record {
        blocks = 1;
        doc_id_bytes = length with_docs - length out;
        freq_bytes = length with_freqs - length with_docs;
        freq_omitted_blocks = if freq_mode == 0 then 1 else 0;
      },
    )

pub record BlockDirEntry : Type 0 where
  pub byte_offset_in_term_payload : ℕ
  pub count : ℕ
  pub max_doc_id : ℕ

pub record BlockedEncodeOutput : Type 0 where
  pub payload : List ℕ
  pub directory : List BlockDirEntry
  pub stats : BlockedEncodeStats

-- `*doc_chunk.last()` of a chunk, which is not empty
unfoldable pub last_of : List ℕ → ℕ
last_of [] = 0
last_of (doc_id ∷ []) = doc_id
last_of (doc_id ∷ next ∷ doc_ids) = last_of (next ∷ doc_ids)

unfoldable pub add_block : BlockedEncodeOutput → List ℕ → List ℕ → BlockedEncodeOutput
unfolding encode_block_into last_of merge
add_block output doc_chunk freq_chunk =
    let (payload, block_stats) = encode_block_into output.payload doc_chunk freq_chunk in
    record {
      payload = payload;
      directory =
          output.directory
          ++ record {
            byte_offset_in_term_payload = length output.payload % 2 ^ 32;
            count = length doc_chunk % 2 ^ 16;
            max_doc_id = last_of doc_chunk;
          }
            ∷ [];
      stats = merge output.stats block_stats;
    }

-- The loop over `doc_ids.chunks(FOR_BLOCK_SIZE).zip(freqs.chunks(FOR_BLOCK_SIZE))`, for `rounds`
-- chunks at most: it ends with the shorter list.
unfoldable pub encode_chunks : ℕ → BlockedEncodeOutput → List ℕ → List ℕ → BlockedEncodeOutput
unfolding add_block
encode_chunks zero output doc_ids freqs = output
encode_chunks (suc rounds) output [] freqs = output
encode_chunks (suc rounds) output doc_ids [] = output
encode_chunks (suc rounds) output (doc_id ∷ doc_ids) (freq ∷ freqs) =
    encode_chunks rounds
      (add_block output (take for_block_size (doc_id ∷ doc_ids))
        (take for_block_size (freq ∷ freqs)))
      (drop for_block_size (doc_id ∷ doc_ids)) (drop for_block_size (freq ∷ freqs))

abbrev pub no_blocks : BlockedEncodeOutput
no_blocks = record {
  payload = [];
  directory = [];
  stats = record { blocks = 0; doc_id_bytes = 0; freq_bytes = 0; freq_omitted_blocks = 0 };
}

-- A chunk takes a doc id at least, so that there are at most as many chunks as doc ids.
unfoldable pub encode_postings_blocked_with_directory :
    List ℕ → List ℕ → BlockResult BlockedEncodeOutput
unfolding encode_chunks
encode_postings_blocked_with_directory doc_ids freqs = do
  guard (length doc_ids == length freqs) not_monotonic
  validate_strictly_increasing doc_ids
  ok (encode_chunks (length doc_ids) no_blocks doc_ids freqs)

unfoldable pub encode_postings_blocked : List ℕ → List ℕ → BlockResult (List ℕ)
encode_postings_blocked doc_ids freqs = do
  output ← encode_postings_blocked_with_directory doc_ids freqs
  ok output.payload
