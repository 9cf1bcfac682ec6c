-- ===== src/Postings/Runs.antt =====
-- Concrete runs of crates/surch-codec/src/postings_block.rs.
use surch.Base.{ℕ, suc, ◌+◌, ◌*◌, ◌≤◌, ◌≡◌, refl, arith, List, [], ◌∷◌, drop, some, ok, err, ◌>>=◌}
use surch.Postings.Varint.{
  not_monotonic, unexpected_eof, varint_overflow, next_byte, read_varint_loop, read_varint_u32,
  write_varint_loop, write_varint_u32,
}
use surch.Postings.Flat.{
  read_delta, read_deltas, checked_add_u32, encode_doc_ids_delta_varint,
  decode_doc_ids_delta_varint, encode_postings_doc_id_freq, decode_postings_doc_id_freq,
}
use surch.Postings.FlatRoundTrip.{
  decode-encode_doc_ids_delta_varint, decode-encode_postings_doc_id_freq,
}
use surch.Postings.Cursor.{new_cursor, drain, new_cursor-drain}
use surch.Postings.Skip.{BlockSkipEntry, BlockSkipList, from_block_ranges, advance_to}
use surch.Postings.SkipSearch.{walk}
use surch.Postings.SkipAdvance.{seen, advance_to-walk, advance_to-visits}
use surch.Base.{◌^◌, take, Bool, true, ltb, ◌&&◌, Bool-cases, inl, inr, ltb→lt}
use surch.Postings.FlatRoundTrip.{AllU32}
use mathlib.Core.Bool.{false≢true}
use surch.SmallFloat.Defs.{num_bits}
use surch.Postings.Flat.{validate_strictly_increasing, write_varints}
use surch.Postings.Packing.{bit_width, varint_len_for_bits, packed_len, pack_bits}
use surch.Postings.BlockPlan.{collect_deltas, plan_doc_channel}
use surch.Postings.BlockEncode.{
  BlockedEncodeOutput, encode_postings_blocked_with_directory, take_exceptions,
}
use surch.Postings.BlockDecode.{decode_block, decode_postings_blocked, block_directory}
use surch.Postings.BlockedRoundTrip.{decode-encode_postings_blocked, block_directory-directory}
use surch.Base.{◌⊎◌}
use surch.Postings.EncodeOutcome.{IsAcceptable, encode_postings_blocked_with_directory-outcome}
use surch.Base.{length, ◌≤◌}
use surch.Postings.BlockPlan.{no_deltas}
use surch.Postings.BlockEncode.{write_doc_channel}
use surch.Postings.ChannelCost.{write_doc_channel-le}
use surch.Postings.Inspect.{PostingsBlockMeta, inspect_postings_blocks, from_block_metas}
use surch.Base.{map}
use surch.Postings.Inspect.{entry_of_meta}
use surch.Postings.InspectChain.{from_block_metas-inspect_postings_blocks}
use surch.Postings.BlockAccess.{decode_block-directory}

abbrev three_docs : List ℕ
three_docs = 0 ∷ 7 ∷ 300 ∷ []

abbrev three_freqs : List ℕ
three_freqs = 1 ∷ 200 ∷ 3 ∷ []

abbrev doc_bytes : List ℕ
doc_bytes = 3 ∷ 0 ∷ 7 ∷ 165 ∷ 2 ∷ []

abbrev posting_bytes : List ℕ
posting_bytes = 3 ∷ 0 ∷ 7 ∷ 165 ∷ 2 ∷ 1 ∷ 200 ∷ 1 ∷ 3 ∷ []

three_docs_encoded : encode_doc_ids_delta_varint three_docs ≡ ok doc_bytes
unfolding encode_doc_ids_delta_varint write_varint_u32 write_varint_loop
three_docs_encoded = refl

three_postings_encoded : encode_postings_doc_id_freq three_docs three_freqs ≡ ok posting_bytes
unfolding encode_postings_doc_id_freq write_varint_u32 write_varint_loop
three_postings_encoded = refl

repeated_id_refused : decode_doc_ids_delta_varint (2 ∷ 4 ∷ 0 ∷ []) ≡ err not_monotonic
unfolding decode_doc_ids_delta_varint read_varint_u32 read_varint_loop next_byte read_deltas
    read_delta checked_add_u32
repeated_id_refused = refl

truncated_refused : decode_doc_ids_delta_varint (2 ∷ 4 ∷ 128 ∷ []) ≡ err unexpected_eof
unfolding decode_doc_ids_delta_varint read_varint_u32 read_varint_loop next_byte read_deltas
    read_delta checked_add_u32
truncated_refused = refl

sixth_byte_refused : read_varint_u32 (255 ∷ 255 ∷ 255 ∷ 255 ∷ 143 ∷ 1 ∷ []) 0 ≡ err varint_overflow
unfolding read_varint_u32 read_varint_loop next_byte
sixth_byte_refused = refl

three_docs_decoded : decode_doc_ids_delta_varint doc_bytes ≡ ok three_docs
three_docs_decoded =
    decode-encode_doc_ids_delta_varint three_docs (omega arith)
      (omega arith, (omega arith, (omega arith, tt))) three_docs_encoded

decode-encode_postings_doc_id_freq_example :
    decode_postings_doc_id_freq posting_bytes ≡ ok (three_docs, three_freqs)
decode-encode_postings_doc_id_freq_example =
    decode-encode_postings_doc_id_freq three_docs (omega arith)
      (omega arith, (omega arith, (omega arith, tt)))
      (omega arith, (omega arith, (omega arith, tt))) three_postings_encoded

new_cursor-drain_example :
    (new_cursor posting_bytes >>= λ cursor.
    drain (suc cursor.remaining) cursor >>= λ (doc_ids, last). ok doc_ids)
    ≡ decode_doc_ids_delta_varint posting_bytes
new_cursor-drain_example = new_cursor-drain posting_bytes

abbrev entry_of : ℕ → BlockSkipEntry
entry_of index = record {
  block_index = index;
  min_doc_id = index * 10;
  max_doc_id = index * 10 + 9;
}

abbrev eleven_blocks : List BlockSkipEntry
eleven_blocks =
    entry_of 0
    ∷ entry_of 1
    ∷ entry_of 2
    ∷ entry_of 3
    ∷ entry_of 4
    ∷ entry_of 5
    ∷ entry_of 6
    ∷ entry_of 7
    ∷ entry_of 8
    ∷ entry_of 9
    ∷ entry_of 10
    ∷ []

abbrev eleven_skips : BlockSkipList
eleven_skips = record { bottom = eleven_blocks; top = entry_of 0 ∷ entry_of 8 ∷ [] }

eleven_built : from_block_ranges eleven_blocks ≡ ok eleven_skips
unfolding from_block_ranges
eleven_built = refl

advance_to-walk_example :
    seen (advance_to record { skip_list = eleven_skips; position = 1; blocks_visited = 0 } 95)
    ≡ walk (drop 1 eleven_blocks) 95 1
advance_to-walk_example = advance_to-walk eleven_blocks 95 1 0 eleven_built

advance_to-visits_example :
    (advance_to
      record { skip_list = eleven_skips; position = 1; blocks_visited = 0 }
      95).0.blocks_visited
    ≤ 0 + 9
advance_to-visits_example = advance_to-visits eleven_blocks 95 1 0 eleven_built

-- Two entries are visited to move over eight blocks.
eleven_jumped :
    advance_to record { skip_list = eleven_skips; position = 1; blocks_visited = 0 } 95
    ≡ (record { skip_list = eleven_skips; position = 9; blocks_visited = 2 }, some (entry_of 9))
unfolding advance_to
eleven_jumped = refl

-- One block with an exception among the doc ids and packed frequencies.
abbrev twelve_docs : List ℕ
twelve_docs = 5 ∷ 6 ∷ 7 ∷ 9 ∷ 10 ∷ 12 ∷ 13 ∷ 14 ∷ 1014 ∷ 1015 ∷ 1017 ∷ 1018 ∷ []

abbrev twelve_freqs : List ℕ
twelve_freqs = 1 ∷ 2 ∷ 3 ∷ 1 ∷ 1 ∷ 2 ∷ 2 ∷ 3 ∷ 1 ∷ 1 ∷ 2 ∷ 3 ∷ []

abbrev twelve_output : BlockedEncodeOutput
twelve_output = record {
  payload = 10 ∷ 5 ∷ 2 ∷ 1 ∷ 101 ∷ 22 ∷ 25 ∷ 7 ∷ 232 ∷ 7 ∷ 2 ∷ 121 ∷ 233 ∷ 229 ∷ [];
  directory = record { byte_offset_in_term_payload = 0; count = 12; max_doc_id = 1018 } ∷ [];
  stats = record { blocks = 1; doc_id_bytes = 10; freq_bytes = 4; freq_omitted_blocks = 0 };
}

twelve_encoded : encode_postings_blocked_with_directory twelve_docs twelve_freqs ≡ ok twelve_output
unfolding encode_postings_blocked_with_directory write_varint_u32 write_varint_loop bit_width
    num_bits varint_len_for_bits packed_len pack_bits write_varints collect_deltas plan_doc_channel
    take_exceptions validate_strictly_increasing
twelve_encoded = refl

-- Numbers of 32 bits, by a test that computes.
abbrev are_u32 : List ℕ → Bool
are_u32 [] = true
are_u32 (x ∷ xs) = ltb x (2 ^ 32) && are_u32 xs

are_u32-AllU32 : (xs : List ℕ) → are_u32 xs ≡ true → AllU32 xs
are_u32-AllU32 [] e = tt
are_u32-AllU32 (x ∷ xs) e = elim (Bool-cases (ltb x (2 ^ 32))) [
  | inl small ↦ (ltb→lt x (2 ^ 32) small, are_u32-AllU32 xs (rw small at e))
  | inr large ↦ absurd (false≢true (rw large at e))
]

decode-encode_postings_blocked_example :
    decode_postings_blocked twelve_output.payload 12 ≡ ok (twelve_docs, twelve_freqs)
decode-encode_postings_blocked_example =
    decode-encode_postings_blocked twelve_docs twelve_freqs (are_u32-AllU32 twelve_docs refl)
      (are_u32-AllU32 twelve_freqs refl) (omega arith) twelve_encoded

block_directory-directory_example :
    block_directory twelve_output.payload 12 ≡ ok twelve_output.directory
block_directory-directory_example =
    block_directory-directory twelve_docs twelve_freqs (are_u32-AllU32 twelve_docs refl)
      (are_u32-AllU32 twelve_freqs refl) (omega arith) twelve_encoded

decode_block-directory_example :
    decode_block (drop 0 twelve_output.payload) 12
    ≡ ok (take 128 (drop 0 twelve_docs), take 128 (drop 0 twelve_freqs))
decode_block-directory_example =
    decode_block-directory twelve_docs twelve_freqs (are_u32-AllU32 twelve_docs refl)
      (are_u32-AllU32 twelve_freqs refl) 0 (omega arith) twelve_encoded refl

encode_postings_blocked_with_directory-outcome_example :
    (IsAcceptable three_docs three_docs
      × (output : BlockedEncodeOutput) × (encode_postings_blocked_with_directory three_docs
            three_docs
          ≡ ok output))
    ⊎ (¬ IsAcceptable three_docs three_docs
        × (encode_postings_blocked_with_directory three_docs three_docs ≡ err not_monotonic))
encode_postings_blocked_with_directory-outcome_example =
    encode_postings_blocked_with_directory-outcome three_docs three_docs

write_doc_channel-le_example :
    (let found = collect_deltas no_deltas twelve_docs in
      length (
        write_doc_channel [] found.scratch
          (plan_doc_channel found.histogram (length found.scratch) found.varint_cost))
      ≤ length (write_varints [] found.scratch))
write_doc_channel-le_example =
    write_doc_channel-le [] twelve_docs (are_u32-AllU32 twelve_docs refl) (omega arith)

abbrev three_meta : PostingsBlockMeta
three_meta = record {
  block_index = 0;
  posting_count = 3;
  min_doc_id = 0;
  max_doc_id = 300;
  max_term_freq = 200;
  doc_ids_byte_start = 1;
  doc_ids_byte_end = 5;
  freqs_byte_start = 5;
  freqs_byte_end = 9;
}

three_inspected : inspect_postings_blocks posting_bytes ≡ ok (three_meta ∷ [])
unfolding inspect_postings_blocks read_varint_u32 read_varint_loop next_byte read_delta
    checked_add_u32
three_inspected = refl

three_skipped :
    from_block_metas (three_meta ∷ [])
    ≡ ok record {
      bottom = record { block_index = 0; min_doc_id = 0; max_doc_id = 300 } ∷ [];
      top = [];
    }
unfolding from_block_metas from_block_ranges
three_skipped = refl

from_block_metas-inspect_postings_blocks_example :
    (skip_list : BlockSkipList) × (from_block_metas (three_meta ∷ []) ≡ ok skip_list)
    × (skip_list.bottom ≡ map entry_of_meta (three_meta ∷ []))
from_block_metas-inspect_postings_blocks_example =
    from_block_metas-inspect_postings_blocks posting_bytes (three_meta ∷ []) three_inspected
