-- ===== src/Codec/Defs.antt =====
-- The functions of crates/surch-codec/src/codec_util.rs.
use surch.Base.{ℕ, zero, suc, ◌+◌, ◌-◌, ◌*◌, ◌/◌, ◌%◌, ◌^◌, bit_and, bit_or, bit_xor}
use surch.Base.{ltb, leb, ◌==◌, if◌then◌else◌, Bool, true, false, not, ◌&&◌, ◌||◌}
use surch.Base.{List, [], ◌∷◌, ◌++◌, length, get_elem?, take, drop}
use surch.Base.{Result, ok, err, ◌>>=◌, ◌>>◌, guard, ok_or}
use surch.Bytes.{checked_add, to_be_bytes, from_be_bytes, write_groups, is_utf8, is_ascii}

pub data CodecUtilError : Type 0 where
  invalid_codec_name : List ℕ → CodecUtilError
  unexpected_eof : CodecUtilError
  header_mismatch : ℕ → ℕ → CodecUtilError
  codec_mismatch : List ℕ → List ℕ → CodecUtilError
  version_too_old version_too_new : ℕ → ℕ → ℕ → CodecUtilError
  invalid_utf8 : CodecUtilError
  footer_too_short : ℕ → CodecUtilError
  footer_mismatch : ℕ → ℕ → CodecUtilError
  unknown_checksum_algorithm : ℕ → CodecUtilError
  illegal_checksum : ℕ → CodecUtilError
  checksum_mismatch : ℕ → ℕ → CodecUtilError

abbrev pub CodecResult : Type 0 → Type 0
CodecResult A = Result CodecUtilError A

pub record CheckedHeader : Type 0 where
  pub version : ℕ
  pub length : ℕ

abbrev pub codec_magic : ℕ
codec_magic = 0x3fd7_6c17

-- `!CODEC_MAGIC`
abbrev pub footer_magic : ℕ
footer_magic = 0xffff_ffff - codec_magic

-- `a < b` on `i32`.
abbrev pub i32_lt : ℕ → ℕ → Bool
i32_lt a b = ltb ((a + 2 ^ 31) % 2 ^ 32) ((b + 2 ^ 31) % 2 ^ 32)

abbrev pub bytes_eq : List ℕ → List ℕ → Bool
bytes_eq [] [] = true
bytes_eq [] (y ∷ ys) = false
bytes_eq (x ∷ xs) [] = false
bytes_eq (x ∷ xs) (y ∷ ys) = x == y && bytes_eq xs ys

unfoldable pub header_length : List ℕ → ℕ
header_length codec = 9 + length codec

abbrev pub footer_length : ℕ
footer_length = 16

unfoldable pub validate_codec_name : List ℕ → CodecResult (Unit {0})
validate_codec_name codec =
    if not (is_ascii codec) || leb 128 (length codec) then err (invalid_codec_name codec) else ok tt

unfoldable pub write_be_i32 : List ℕ → ℕ → List ℕ
write_be_i32 output value = output ++ to_be_bytes 4 value

unfoldable pub write_be_u64 : List ℕ → ℕ → List ℕ
write_be_u64 output value = output ++ to_be_bytes 8 value

-- A `u32` takes five groups at most.
unfoldable pub write_vint : List ℕ → ℕ → List ℕ
write_vint output value = write_groups 5 0xffff_ff80 output value

unfoldable pub write_string : List ℕ → List ℕ → List ℕ
write_string output value = write_vint output (length value % 2 ^ 32) ++ value

unfoldable pub write_header : List ℕ → List ℕ → ℕ → CodecResult (List ℕ)
unfolding validate_codec_name
write_header output codec version = do
  validate_codec_name codec
  ok (write_be_i32 (write_string (write_be_i32 output codec_magic) codec) version)

-- A reader returns its value and the moved cursor.
unfoldable pub read_byte : List ℕ → ℕ → CodecResult (ℕ × ℕ)
read_byte input position = do
  byte ← ok_or (get_elem? input position) unexpected_eof
  ok (byte, position + 1)

unfoldable pub read_array : ℕ → List ℕ → ℕ → CodecResult (List ℕ × ℕ)
read_array n input position = do
  end ← ok_or (checked_add position n) unexpected_eof
  guard (leb end (length input)) unexpected_eof
  ok (take (end - position) (drop position input), end)

unfoldable pub read_be_i32 : List ℕ → ℕ → CodecResult (ℕ × ℕ)
read_be_i32 input position = do
  (bytes, end) ← read_array 4 input position
  ok (from_be_bytes bytes, end)

unfoldable pub read_be_u64 : List ℕ → ℕ → CodecResult (ℕ × ℕ)
read_be_u64 input position = do
  (bytes, end) ← read_array 8 input position
  ok (from_be_bytes bytes, end)

-- `(shift..).step_by(7)`, of `n` elements.
abbrev pub step_by_seven : ℕ → ℕ → List ℕ
step_by_seven zero shift = []
step_by_seven (suc n) shift = shift ∷ step_by_seven n (shift + 7)

-- `value |= u32::from(byte & 0x7f) << shift`
abbrev pub or_group : ℕ → ℕ → ℕ → ℕ
or_group value byte shift = bit_or value (bit_and byte 0x7f * 2 ^ shift % 2 ^ 32)

unfoldable pub read_vint_loop : List ℕ → ℕ → List ℕ → ℕ → CodecResult (ℕ × ℕ)
read_vint_loop [] value input position = ok (value, position)
read_vint_loop (shift ∷ shifts) value input position = do
  (byte, next) ← read_byte input position
  let value' = or_group value byte shift
  let more = read_vint_loop shifts value' input next
  if bit_and byte 0x80 == 0 then ok (value', next) else more

-- `(0..32).step_by(7)` has five elements.
unfoldable pub read_vint : List ℕ → ℕ → CodecResult (ℕ × ℕ)
unfolding read_vint_loop
read_vint input position = read_vint_loop (step_by_seven 5 0) 0 input position

unfoldable pub read_string : List ℕ → ℕ → CodecResult (List ℕ × ℕ)
read_string input position = do
  (length', start) ← read_vint input position
  end ← ok_or (checked_add start length') unexpected_eof
  guard (leb end (length input)) unexpected_eof
  let value = take (end - start) (drop start input)
  guard (is_utf8 value) invalid_utf8
  ok (value, end)

unfoldable pub check_header : List ℕ → List ℕ → ℕ → ℕ → CodecResult CheckedHeader
check_header input codec min_version max_version = do
  (actual_header, p) ← read_be_i32 input 0
  guard (actual_header == codec_magic) (header_mismatch actual_header codec_magic)
  (actual_codec, q) ← read_string input p
  guard (bytes_eq actual_codec codec) (codec_mismatch actual_codec codec)
  (actual_version, end) ← read_be_i32 input q
  guard (not (i32_lt actual_version min_version))
      (version_too_old actual_version min_version max_version)
  guard (not (i32_lt max_version actual_version))
      (version_too_new actual_version min_version max_version)
  ok (record { version = actual_version; length = end })

-- One round of `for _ in 0..8`: `mask` is all ones if the lowest bit is set.
unfoldable pub crc_round : ℕ → ℕ
crc_round crc =
    let mask = (2 ^ 32 - bit_and crc 1) % 2 ^ 32 in bit_xor (crc / 2) (bit_and 0xedb8_8320 mask)

unfoldable pub crc_rounds : ℕ → ℕ → ℕ
crc_rounds zero crc = crc
crc_rounds (suc n) crc = crc_rounds n (crc_round crc)

unfoldable pub crc_byte : ℕ → ℕ → ℕ
unfolding crc_rounds crc_round
crc_byte crc byte = crc_rounds 8 (bit_xor crc byte)

unfoldable pub crc_bytes : ℕ → List ℕ → ℕ
unfolding crc_byte
crc_bytes crc [] = crc
crc_bytes crc (byte ∷ input) = crc_bytes (crc_byte crc byte) input

unfoldable pub crc32_zlib : List ℕ → ℕ
unfolding crc_bytes
crc32_zlib input = 0xffff_ffff - crc_bytes 0xffff_ffff input

unfoldable pub write_footer : List ℕ → List ℕ
write_footer output =
    let framed = write_be_i32 (write_be_i32 output footer_magic) 0 in
    write_be_u64 framed (crc32_zlib framed)

unfoldable pub validate_footer : List ℕ → CodecResult ℕ
validate_footer input = do
  guard (not (ltb (length input) footer_length)) (footer_too_short (length input))
  (actual_footer, p) ← read_be_i32 input (length input - footer_length)
  guard (actual_footer == footer_magic) (footer_mismatch actual_footer footer_magic)
  (algorithm_id, q) ← read_be_i32 input p
  guard (algorithm_id == 0) (unknown_checksum_algorithm algorithm_id)
  (checksum, end) ← read_be_u64 input q
  guard (bit_and checksum 0xffff_ffff_0000_0000 == 0) (illegal_checksum checksum)
  ok checksum

unfoldable pub retrieve_checksum : List ℕ → CodecResult ℕ
retrieve_checksum input = do checksum ← validate_footer input; ok (checksum % 2 ^ 32)

unfoldable pub check_footer : List ℕ → CodecResult ℕ
check_footer input = do
  expected ← retrieve_checksum input
  let actual = crc32_zlib (take (length input - 8) input)
  guard (expected == actual) (checksum_mismatch expected actual)
  ok actual

unfoldable pub checksum_entire_file : List ℕ → CodecResult ℕ
checksum_entire_file input = check_footer input
