-- ===== src/Postings/BlockDecode.antt =====
-- The decoder of blocks of crates/surch-codec/src/postings_block.rs.
use surch.Base.{
  ℕ, zero, suc, ◌-◌, ◌/◌, ◌%◌, ◌^◌, min, bit_and, ltb, leb, ◌==◌, ◌||◌, not, if◌then◌else◌, Bool,
  false,
}
use surch.Base.{List, [], ◌∷◌, ◌++◌, length, Option, none, some, ok, err, ◌>>=◌, ◌>>◌, guard, ok_or}
use surch.Postings.Varint.{BlockResult, not_monotonic, malformed_block, next_byte, read_varint_u32}
use surch.Postings.Flat.{checked_add_u32, read_varints}
use surch.Postings.Packing.{unpack_bits}
use surch.Postings.BlockPlan.{value_at}
use surch.Postings.BlockEncode.{BlockDirEntry, for_block_size, last_of}

unfoldable pub read_width : List ℕ → ℕ → BlockResult (ℕ × ℕ)
read_width bytes position = do
  (width, next) ← next_byte bytes position
  guard (not (width == 0 || ltb 32 width)) malformed_block
  ok (width, next)

-- `deltas[index] = value`
unfoldable pub set_at : List ℕ → ℕ → ℕ → List ℕ
set_at [] index value = []
set_at (delta ∷ deltas) zero value = value ∷ deltas
set_at (delta ∷ deltas) (suc index) value = delta ∷ set_at deltas index value

-- `previous_index.is_some_and(|prev| index <= prev)`
unfoldable pub not_after : Option ℕ → ℕ → Bool
not_after none index = false
not_after (some prev) index = leb index prev

-- The loop over `n` exceptions.
unfoldable pub read_exceptions : List ℕ → ℕ → ℕ → Option ℕ → List ℕ → ℕ → BlockResult (List ℕ × ℕ)
unfolding set_at not_after
read_exceptions bytes threshold zero previous_index deltas position = ok (deltas, position)
read_exceptions bytes threshold (suc n) previous_index deltas position = do
  (index, after_index) ← next_byte bytes position
  guard (not (leb (length deltas) index || not_after previous_index index)) malformed_block
  (value, after_value) ← read_varint_u32 bytes after_index
  guard (not (ltb value threshold || not (value_at deltas index == 0))) malformed_block
  read_exceptions bytes threshold n (some index) (set_at deltas index value) after_value

unfoldable pub read_patched : List ℕ → ℕ → ℕ → BlockResult (List ℕ × ℕ)
unfolding read_exceptions read_width
read_patched bytes delta_count position = do
  (width, after_width) ← read_width bytes position
  guard (not (leb 32 width)) malformed_block
  (exceptions, after_count) ← next_byte bytes after_width
  guard (not (exceptions == 0 || ltb delta_count exceptions)) malformed_block
  (deltas, after_deltas) ← unpack_bits bytes after_count delta_count width
  read_exceptions bytes (2 ^ width) exceptions none deltas after_deltas

unfoldable pub read_packed : List ℕ → ℕ → ℕ → BlockResult (List ℕ × ℕ)
unfolding read_width
read_packed bytes count position = do
  (width, after_width) ← read_width bytes position
  unpack_bits bytes after_width count width

-- `match doc_mode`
unfoldable pub read_doc_channel : List ℕ → ℕ → ℕ → ℕ → BlockResult (List ℕ × ℕ)
unfolding read_patched read_packed
read_doc_channel bytes doc_mode delta_count position =
    if doc_mode == 0
    then read_varints bytes delta_count position
    else if doc_mode == 1
    then read_packed bytes delta_count position
    else if doc_mode == 2
    then read_patched bytes delta_count position
    else err malformed_block

-- The loop that adds the deltas up.
unfoldable pub add_deltas : ℕ → List ℕ → BlockResult (List ℕ)
add_deltas previous [] = ok []
add_deltas previous (delta ∷ deltas) = do
  guard (not (delta == 0)) not_monotonic
  value ← ok_or (checked_add_u32 previous delta) not_monotonic
  values ← add_deltas value deltas
  ok (value ∷ values)

-- `vec![value; count]`
unfoldable pub repeated : ℕ → ℕ → List ℕ
repeated value zero = []
repeated value (suc count) = value ∷ repeated value count

unfoldable pub read_constant : List ℕ → ℕ → ℕ → BlockResult (List ℕ × ℕ)
unfolding repeated
read_constant bytes count position = do
  (constant, next) ← read_varint_u32 bytes position
  guard (not (constant == 1)) malformed_block
  ok (repeated constant count, next)

-- `match freq_mode`
unfoldable pub read_freq_channel : List ℕ → ℕ → ℕ → ℕ → BlockResult (List ℕ × ℕ)
unfolding read_constant read_packed repeated
read_freq_channel bytes freq_mode count position =
    if freq_mode == 0
    then ok (repeated 1 count, position)
    else if freq_mode == 1
    then read_constant bytes count position
    else if freq_mode == 2
    then read_packed bytes count position
    else if freq_mode == 3
    then read_varints bytes count position
    else err malformed_block

-- A block of `suc delta_count` postings.
unfoldable pub read_block : List ℕ → ℕ → ℕ → BlockResult (List ℕ × List ℕ × ℕ)
unfolding read_doc_channel add_deltas read_freq_channel
read_block bytes delta_count position = do
  (header, after_header) ← next_byte bytes position
  guard (bit_and header 0xf0 == 0) malformed_block
  (first, after_first) ← read_varint_u32 bytes after_header
  (deltas, after_deltas) ← read_doc_channel bytes (bit_and header 0x03) delta_count after_first
  later ← add_deltas first deltas
  (freqs, end) ←
      read_freq_channel bytes (bit_and (header / 2 ^ 2) 0x03) (suc delta_count) after_deltas
  ok (first ∷ later, freqs, end)

unfoldable pub decode_block_at : List ℕ → ℕ → ℕ → BlockResult (List ℕ × List ℕ × ℕ)
unfolding read_block
decode_block_at bytes zero position = ok ([], [], position)
decode_block_at bytes (suc delta_count) position = read_block bytes delta_count position

unfoldable pub decode_block : List ℕ → ℕ → BlockResult (List ℕ × List ℕ)
unfolding decode_block_at
decode_block bytes count = do
  (doc_ids, freqs, end) ← decode_block_at bytes count 0
  ok (doc_ids, freqs)

-- The loop over the blocks of `remaining` postings, for `rounds` blocks at most.
unfoldable pub decode_blocks : ℕ → List ℕ → ℕ → ℕ → BlockResult (List ℕ × List ℕ)
unfolding decode_block_at
decode_blocks zero bytes remaining position = ok ([], [])
decode_blocks (suc rounds) bytes zero position = ok ([], [])
decode_blocks (suc rounds) bytes (suc remaining) position = do
  let block_count = min (suc remaining) for_block_size
  (block_doc_ids, block_freqs, next) ← decode_block_at bytes block_count position
  (doc_ids, freqs) ← decode_blocks rounds bytes (suc remaining - block_count) next
  ok (block_doc_ids ++ doc_ids, block_freqs ++ freqs)

-- A block takes a posting at least.
unfoldable pub decode_postings_blocked : List ℕ → ℕ → BlockResult (List ℕ × List ℕ)
unfolding decode_blocks
decode_postings_blocked bytes total_count = decode_blocks total_count bytes total_count 0

unfoldable pub directory_blocks : ℕ → List ℕ → ℕ → ℕ → BlockResult (List BlockDirEntry)
unfolding decode_block_at
directory_blocks zero bytes remaining position = ok []
directory_blocks (suc rounds) bytes zero position = ok []
directory_blocks (suc rounds) bytes (suc remaining) position = do
  let block_count = min (suc remaining) for_block_size
  (doc_ids, freqs, next) ← decode_block_at bytes block_count position
  entries ← directory_blocks rounds bytes (suc remaining - block_count) next
  let entry : BlockDirEntry = record {
    byte_offset_in_term_payload = position % 2 ^ 32;
    count = block_count % 2 ^ 16;
    max_doc_id = last_of doc_ids;
  }
  ok (entry ∷ entries)

unfoldable pub block_directory : List ℕ → ℕ → BlockResult (List BlockDirEntry)
unfolding directory_blocks
block_directory bytes total_count = directory_blocks total_count bytes total_count 0
