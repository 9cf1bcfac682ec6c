-- ===== src/Postings/Flat.antt =====
-- The delta coding of crates/surch-codec/src/postings_block.rs: `encode_doc_ids_delta_varint`,
-- `encode_postings_doc_id_freq` and their decoders.
use surch.Base.{
  ℕ, zero, suc, ◌+◌, ◌-◌, ◌%◌, ◌^◌, ltb, leb, ◌==◌, ◌&&◌, not, if◌then◌else◌, Bool, true, false,
}
use surch.Base.{List, [], ◌∷◌, length, Option, none, some, ok, err, ◌>>=◌, ◌>>◌, guard, ok_or}
use surch.Postings.Varint.{BlockResult, not_monotonic, write_varint_u32, read_varint_u32}

unfoldable pub validate_strictly_increasing : List ℕ → BlockResult (Unit {0})
validate_strictly_increasing [] = ok tt
validate_strictly_increasing (x ∷ []) = ok tt
validate_strictly_increasing (x ∷ y ∷ rest) =
    let more = validate_strictly_increasing (y ∷ rest) in
    if leb y x then err not_monotonic else more

-- `u32::checked_add`
unfoldable pub checked_add_u32 : ℕ → ℕ → Option ℕ
checked_add_u32 a b = if ltb (a + b) (2 ^ 32) then some (a + b) else none

-- The loop over the doc ids, each written as its distance from the one before.
unfoldable pub write_deltas : List ℕ → ℕ → List ℕ → List ℕ
write_deltas out previous [] = out
write_deltas out previous (value ∷ values) =
    write_deltas (write_varint_u32 out (value - previous)) value values

unfoldable pub write_varints : List ℕ → List ℕ → List ℕ
write_varints out [] = out
write_varints out (value ∷ values) = write_varints (write_varint_u32 out value) values

unfoldable pub encode_doc_ids_delta_varint : List ℕ → BlockResult (List ℕ)
unfolding validate_strictly_increasing write_deltas
encode_doc_ids_delta_varint sorted = do
  validate_strictly_increasing sorted
  ok (write_deltas (write_varint_u32 [] (length sorted % 2 ^ 32)) 0 sorted)

unfoldable pub encode_postings_doc_id_freq : List ℕ → List ℕ → BlockResult (List ℕ)
unfolding validate_strictly_increasing write_deltas write_varints
encode_postings_doc_id_freq doc_ids freqs = do
  guard (length doc_ids == length freqs) not_monotonic
  validate_strictly_increasing doc_ids
  ok (write_varints (write_deltas (write_varint_u32 [] (length doc_ids % 2 ^ 32)) 0 doc_ids) freqs)

-- The doc id at `position`, after `previous`: only the first delta may be zero.
unfoldable pub read_delta : List ℕ → Bool → ℕ → ℕ → BlockResult (ℕ × ℕ)
read_delta bytes started previous position = do
  (delta, next) ← read_varint_u32 bytes position
  guard (not (started && delta == 0)) not_monotonic
  value ← ok_or (checked_add_u32 previous delta) not_monotonic
  ok (value, next)

-- The loop of the decoders over `n` more doc ids.
unfoldable pub read_deltas : List ℕ → ℕ → Bool → ℕ → ℕ → BlockResult (List ℕ × ℕ)
read_deltas bytes zero started previous position = ok ([], position)
read_deltas bytes (suc n) started previous position = do
  (value, next) ← read_delta bytes started previous position
  (values, end) ← read_deltas bytes n true value next
  ok (value ∷ values, end)

unfoldable pub read_varints : List ℕ → ℕ → ℕ → BlockResult (List ℕ × ℕ)
read_varints bytes zero position = ok ([], position)
read_varints bytes (suc n) position = do
  (value, next) ← read_varint_u32 bytes position
  (values, end) ← read_varints bytes n next
  ok (value ∷ values, end)

unfoldable pub decode_doc_ids_delta_varint : List ℕ → BlockResult (List ℕ)
decode_doc_ids_delta_varint bytes = do
  (length, position) ← read_varint_u32 bytes 0
  (doc_ids, end) ← read_deltas bytes length false 0 position
  ok doc_ids

unfoldable pub decode_postings_doc_id_freq : List ℕ → BlockResult (List ℕ × List ℕ)
decode_postings_doc_id_freq bytes = do
  (length, position) ← read_varint_u32 bytes 0
  (doc_ids, middle) ← read_deltas bytes length false 0 position
  (freqs, end) ← read_varints bytes length middle
  ok (doc_ids, freqs)
