-- ===== src/DataIo/Defs.antt =====
-- The readers and writers of crates/surch-store/src/data_io.rs, on `ByteArrayDataInput` and
-- `ByteArrayDataOutput`. An `i32` and an `i64` are their two's complement words.
use surch.Base.{
  ℕ, zero, suc, ◌+◌, ◌-◌, ◌*◌, ◌/◌, ◌%◌, ◌^◌, ltb, leb, ◌==◌, if◌then◌else◌, bit_and, bit_or,
  bit_xor,
}
use surch.Base.{List, [], ◌∷◌, ◌++◌, length, get_elem?, Result, ok, err, ◌>>=◌, ok_or}
use surch.Bytes.{write_groups, high_bits, is_utf8}
use surch.Codec.{step_by_seven}

pub data Kind : Type 0 where
  vint vlong : Kind

pub data DataIoError : Type 0 where
  unexpected_eof : ℕ → DataIoError
  invalid_varint_encoding : Kind → DataIoError
  invalid_utf8 : DataIoError
  negative_length : ℕ → DataIoError
  length_overflow : ℕ → DataIoError
  negative_vlong : ℕ → DataIoError

abbrev pub DataResult : Type 0 → Type 0
DataResult A = Result DataIoError A

-- A reader takes the bytes and the position, and returns its value and the position after it.
unfoldable pub read_byte : List ℕ → ℕ → DataResult (ℕ × ℕ)
read_byte bytes position = do
  byte ← ok_or (get_elem? bytes position) (unexpected_eof position)
  ok (byte, position + 1)

-- `for byte in target { *byte = self.read_byte()?; }`, for a target of `n` bytes.
unfoldable pub read_bytes : ℕ → List ℕ → ℕ → DataResult (List ℕ × ℕ)
read_bytes zero bytes position = ok ([], position)
read_bytes (suc n) bytes position = do
  (byte, next) ← read_byte bytes position
  (rest, end) ← read_bytes n bytes next
  ok (byte ∷ rest, end)

-- `value |= u64::from(byte & 0x7f) << shift`, in a word of `width` bits.
abbrev pub or_group : ℕ → ℕ → ℕ → ℕ → ℕ
or_group width value byte shift = bit_or value (bit_and byte 0x7f * 2 ^ shift % 2 ^ width)

-- The loop that `read_vint` and `read_vlong` share, up to the width of the word and the last shift.
unfoldable pub read_groups : Kind → ℕ → ℕ → List ℕ → ℕ → List ℕ → ℕ → DataResult (ℕ × ℕ)
read_groups kind width last [] value bytes position = err (invalid_varint_encoding kind)
read_groups kind width last (shift ∷ shifts) value bytes position = do
  (byte, next) ← read_byte bytes position
  let value' = or_group width value byte shift
  let more = read_groups kind width last shifts value' bytes next
  if bit_and byte 0x80 == 0
      then ok (value', next)
      else if leb last shift
      then err (invalid_varint_encoding kind)
      else more

-- `(0..32).step_by(7)` has five elements.
unfoldable pub read_vint : List ℕ → ℕ → DataResult (ℕ × ℕ)
read_vint bytes position = read_groups vint 32 28 (step_by_seven 5 0) 0 bytes position

-- `(0..64).step_by(7)` has ten elements.
unfoldable pub read_vlong : List ℕ → ℕ → DataResult (ℕ × ℕ)
read_vlong bytes position = read_groups vlong 64 63 (step_by_seven 10 0) 0 bytes position

-- `value >> 63` is arithmetic: all ones if the value is negative, else zero.
abbrev pub sign_word : ℕ → ℕ
sign_word value = if ltb value (2 ^ 63) then 0 else 2 ^ 64 - 1

unfoldable pub zig_zag_encode_i64 : ℕ → ℕ
zig_zag_encode_i64 value = bit_xor (value * 2 % 2 ^ 64) (sign_word value)

-- `-((value & 1) as i64)` wraps.
unfoldable pub zig_zag_decode_i64 : ℕ → ℕ
zig_zag_decode_i64 value = bit_xor (value / 2) ((2 ^ 64 - bit_and value 1) % 2 ^ 64)

unfoldable pub read_zlong : List ℕ → ℕ → DataResult (ℕ × ℕ)
read_zlong bytes position = do
  (value, next) ← read_vlong bytes position
  ok (zig_zag_decode_i64 value, next)

-- `usize::try_from` of an `i32`.
unfoldable pub checked_vint_length : ℕ → DataResult ℕ
checked_vint_length length = if ltb length (2 ^ 31) then ok length else err (negative_length length)

-- `i32::try_from` of a `usize`.
unfoldable pub checked_usize_length : ℕ → DataResult ℕ
checked_usize_length length =
    if ltb length (2 ^ 31) then ok length else err (length_overflow length)

unfoldable pub read_string : List ℕ → ℕ → DataResult (List ℕ × ℕ)
read_string bytes position = do
  (bits, next) ← read_vint bytes position
  length ← checked_vint_length bits
  (value, end) ← read_bytes length bytes next
  if is_utf8 value then ok (value, end) else err invalid_utf8

unfoldable pub write_byte : List ℕ → ℕ → List ℕ
write_byte output byte = output ++ byte ∷ []

unfoldable pub write_bytes : List ℕ → List ℕ → List ℕ
unfolding write_byte
write_bytes output [] = output
write_bytes output (byte ∷ bytes) = write_bytes (write_byte output byte) bytes

-- A 32-bit word takes five groups at most.
unfoldable pub write_vint : List ℕ → ℕ → List ℕ
write_vint output value = write_groups 5 (high_bits 25) output value

-- A 64-bit word takes ten groups at most.
unfoldable pub write_signed_vlong : List ℕ → ℕ → List ℕ
write_signed_vlong output value = write_groups 10 (high_bits 57) output value

unfoldable pub write_vlong : List ℕ → ℕ → DataResult (List ℕ)
write_vlong output value =
    if leb (2 ^ 63) value then err (negative_vlong value) else ok (write_signed_vlong output value)

unfoldable pub write_zlong : List ℕ → ℕ → List ℕ
unfolding write_signed_vlong
write_zlong output value = write_signed_vlong output (zig_zag_encode_i64 value)

unfoldable pub write_string : List ℕ → List ℕ → DataResult (List ℕ)
write_string output value = do
  length ← checked_usize_length (length value)
  ok (write_bytes (write_vint output length) value)
