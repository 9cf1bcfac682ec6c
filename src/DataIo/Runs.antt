-- ===== src/DataIo/Runs.antt =====
-- Runs of crates/surch-store/src/data_io.rs on concrete values.
use surch.Base.{ℕ, ◌≡◌, ◌^◌, ◌-◌, refl, arith, true, List, [], ◌∷◌, ◌++◌, length, ok, err}
use surch.Bytes.{is_utf8, write_groups}
use surch.DataIo.Defs.{
  read_vint, write_vint, read_vlong, write_vlong, write_signed_vlong, read_zlong, write_zlong,
  zig_zag_encode_i64,
}
use surch.DataIo.Defs.{
  read_string, write_string, write_bytes, write_byte, checked_usize_length, read_groups, read_byte,
  invalid_varint_encoding, vint,
}
use surch.DataIo.Numbers.{read_vint-write_vint, read_vlong-write_vlong, read_zlong-write_zlong}
use surch.DataIo.Strings.{read_string-write_string}

-- `read_vint_rejects_non_canonical_encoding` of the source's tests.
non_canonical :
    read_vint (0x80 ∷ 0x80 ∷ 0x80 ∷ 0x80 ∷ 0x80 ∷ 0x01 ∷ []) 0 ≡ err (invalid_varint_encoding vint)
unfolding read_vint read_groups read_byte
non_canonical = refl

read_vint-write_vint_example :
    read_vint (write_vint (9 ∷ []) 300 ++ 7 ∷ []) 1 ≡ ok (300, length (write_vint (9 ∷ []) 300))
unfolding write_vint write_groups
read_vint-write_vint_example =
    read_vint-write_vint (9 ∷ []) (7 ∷ []) 300 (omega arith) (omega arith)

vlong_written : write_vlong [] 300 ≡ ok (172 ∷ 2 ∷ [])
unfolding write_vlong write_signed_vlong write_groups
vlong_written = refl

read_vlong-write_vlong_example : read_vlong ((172 ∷ 2 ∷ []) ++ []) 0 ≡ ok (300, 2)
read_vlong-write_vlong_example =
    read_vlong-write_vlong [] [] (172 ∷ 2 ∷ []) 300 (omega arith) vlong_written (omega arith)

-- The word of -3.
abbrev minus_three : ℕ
minus_three = 2 ^ 64 - 3

read_zlong-write_zlong_example :
    read_zlong (write_zlong [] minus_three ++ []) 0
    ≡ ok (minus_three, length (write_zlong [] minus_three))
unfolding write_zlong write_signed_vlong write_groups zig_zag_encode_i64
read_zlong-write_zlong_example =
    read_zlong-write_zlong [] [] minus_three (omega arith) (omega arith)

-- "ab"
abbrev ab_text : List ℕ
ab_text = b'a' ∷ b'b' ∷ []

ab_text-valid : is_utf8 ab_text ≡ true
unfolding is_utf8
ab_text-valid = refl

ab_written : write_string [] ab_text ≡ ok (2 ∷ ab_text)
unfolding write_string checked_usize_length write_vint write_groups write_bytes write_byte
ab_written = refl

read_string-write_string_example : read_string ((2 ∷ ab_text) ++ []) 0 ≡ ok (ab_text, 3)
read_string-write_string_example =
    read_string-write_string [] [] ab_text (2 ∷ ab_text) ab_text-valid ab_written (omega arith)
