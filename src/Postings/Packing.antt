-- ===== src/Postings/Packing.antt =====
-- The bit packing of crates/surch-codec/src/postings_block.rs: numbers at a fixed width, the low
-- bits first.
use surch.Base.{
  ℕ, zero, suc, ◌+◌, ◌-◌, ◌*◌, ◌/◌, ◌%◌, ◌^◌, min, bit_and, bit_or, ltb, leb, ◌==◌, if◌then◌else◌,
}
use surch.Base.{List, [], ◌∷◌, ◌++◌, length, ok, ◌>>=◌, ok_or}
use surch.Bytes.{slice}
use surch.SmallFloat.Defs.{num_bits}
use surch.Postings.Varint.{BlockResult, unexpected_eof}

-- `u32::BITS - value.leading_zeros()`
unfoldable pub bit_width : ℕ → ℕ
bit_width value = num_bits 32 value

unfoldable pub varint_len_for_bits : ℕ → ℕ
varint_len_for_bits bits =
    if leb bits 7
    then 1
    else if leb bits 14
    then 2
    else if leb bits 21
    then 3
    else if leb bits 28
    then 4
    else 5

unfoldable pub packed_len : ℕ → ℕ → ℕ
packed_len count width = (count * width + 7) / 8

-- `out[index] |= bits`
unfoldable pub or_at : List ℕ → ℕ → ℕ → List ℕ
or_at [] index bits = []
or_at (byte ∷ out) zero bits = bit_or byte bits ∷ out
or_at (byte ∷ out) (suc index) bits = byte ∷ or_at out index bits

-- The loop over one value, which takes a bit at least in each of its rounds: the bytes and the bit
-- cursor after it.
unfoldable pub put_bits : ℕ → List ℕ → ℕ → ℕ → ℕ → ℕ → List ℕ × ℕ
unfolding or_at
put_bits zero out start bit_cursor remaining rest = (out, bit_cursor)
put_bits (suc rounds) out start bit_cursor remaining rest =
    let byte_index = start + bit_cursor / 8 in
    let bit_in_byte = bit_cursor % 8 in
    let taken = min remaining (8 - bit_in_byte) in
    let chunk = bit_and rest (2 ^ taken - 1) % 256 in
    let out' = or_at out byte_index (chunk * 2 ^ bit_in_byte % 256) in
    let more =
      put_bits rounds out' start (bit_cursor + taken) (remaining - taken) (rest / 2 ^ taken) in
    if remaining == 0 then (out, bit_cursor) else more

unfoldable pub put_values : List ℕ → ℕ → ℕ → List ℕ → ℕ → List ℕ
unfolding put_bits
put_values out start bit_cursor [] width = out
put_values out start bit_cursor (value ∷ values) width =
    let (out', bit_cursor') = put_bits width out start bit_cursor width value in
    put_values out' start bit_cursor' values width

-- The zeros that `resize` appends.
unfoldable pub zeros : ℕ → List ℕ
zeros zero = []
zeros (suc n) = 0 ∷ zeros n

unfoldable pub pack_bits : List ℕ → List ℕ → ℕ → List ℕ
unfolding put_values zeros packed_len
pack_bits out [] width = out
pack_bits out (value ∷ values) width =
    if width == 0
    then out
    else put_values (out ++ zeros (packed_len (suc (length values)) width)) (length out) 0
        (value ∷ values) width

-- `slice[index]`, where the slice has the byte
unfoldable pub byte_at : List ℕ → ℕ → ℕ
byte_at [] index = 0
byte_at (byte ∷ bytes) zero = byte
byte_at (byte ∷ bytes) (suc index) = byte_at bytes index

-- The loop that collects one value, and the bit cursor after it.
unfoldable pub take_bits : ℕ → List ℕ → ℕ → ℕ → ℕ → ℕ → ℕ × ℕ
unfolding byte_at
take_bits zero bytes bit_cursor value collected width = (value, bit_cursor)
take_bits (suc rounds) bytes bit_cursor value collected width =
    let byte = byte_at bytes (bit_cursor / 8) in
    let bit_in_byte = bit_cursor % 8 in
    let taken = min (width - collected) (8 - bit_in_byte) in
    let mask = (2 ^ taken - 1) % 256 in
    let value' = bit_or value (bit_and (byte / 2 ^ bit_in_byte) mask * 2 ^ collected % 2 ^ 32) in
    let more = take_bits rounds bytes (bit_cursor + taken) value' (collected + taken) width in
    if ltb collected width then more else (value, bit_cursor)

unfoldable pub take_values : List ℕ → ℕ → ℕ → ℕ → List ℕ
unfolding take_bits
take_values bytes bit_cursor zero width = []
take_values bytes bit_cursor (suc count) width =
    let (value, bit_cursor') = take_bits width bytes bit_cursor 0 0 width in
    value ∷ take_values bytes bit_cursor' count width

-- The values that `unpack_bits` pushes, and the position after them.
unfoldable pub unpack_bits : List ℕ → ℕ → ℕ → ℕ → BlockResult (List ℕ × ℕ)
unfolding take_values packed_len
unpack_bits bytes position count width =
    let read : BlockResult (List ℕ × ℕ) =
      ok_or (slice bytes position (position + packed_len count width)) unexpected_eof >>= λ packed.
      ok (take_values packed 0 count width, position + packed_len count width) in
    if count == 0 then ok ([], position) else read
