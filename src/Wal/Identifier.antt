-- ===== src/Wal/Identifier.antt =====
-- `WalError` and `validate_identifier` of crates/surch-store/src/wal.rs.
use surch.Base.{ℕ, ◌==◌, if◌then◌else◌, Bool, true, false, ◌&&◌, ◌||◌, leb, List, [], ◌∷◌}
use surch.Base.{Result, ok, err}
use surch.Codec.{CodecUtilError}

-- The names that the messages give to fields.
pub data Field : Type 0 where
  index doc_id source prefixed_data document_id : Field

-- The messages of `WalError::Corrupt`.
pub data Corruption : Type 0 where
  unexpected_end cursor_overflow length_overflow invalid_utf8 : Corruption
  unknown_op : ℕ → Corruption
  sequence_zero sequence_not_increasing too_small_for_footer trailing_bytes : Corruption

-- The messages of `WalError::Io`: a file-system call failed with an error number, or the clock
-- stands before the epoch.
pub data IoFailure : Type 0 where
  system_call : ℕ → IoFailure
  clock_before_epoch : IoFailure

-- `stuck` is no error of the program: the loop of `read_file` ran out of fuel.
pub data WalError : Type 0 where
  io : IoFailure → WalError
  corrupt : Corruption → WalError
  field_too_large : Field → ℕ → ℕ → WalError
  invalid_identifier : Field → List ℕ → WalError
  codec_util : CodecUtilError → WalError
  stuck : WalError

abbrev pub WalResult {ℓ} : Type ℓ → Type ℓ
WalResult A = Result WalError A

-- How the bytes of a white-space character may go on.
pub data Blank : Type 0 where
  at_char after_c2 after_e1 after_e1_9a after_e2 after_e2_80 after_e2_81 after_e3 after_e3_80 :
      Blank
  not_blank : Blank

first_blank : ℕ → Blank
first_blank b =
    if leb 9 b && leb b 13 || b == 32
    then at_char
    else if b == 0xc2
    then after_c2
    else if b == 0xe1
    then after_e1
    else if b == 0xe2
    then after_e2
    else if b == 0xe3
    then after_e3
    else not_blank

blank_if : Bool → Blank → Blank
blank_if true next = next
blank_if false next = not_blank

blank_step : Blank → ℕ → Blank
blank_step at_char b = first_blank b
blank_step after_c2 b = blank_if (b == 0x85 || b == 0xa0) at_char
blank_step after_e1 b = blank_if (b == 0x9a) after_e1_9a
blank_step after_e1_9a b = blank_if (b == 0x80) at_char
blank_step after_e2 b = if b == 0x80 then after_e2_80 else blank_if (b == 0x81) after_e2_81
blank_step after_e2_80 b =
    blank_if (leb 0x80 b && leb b 0x8a || b == 0xa8 || b == 0xa9 || b == 0xaf) at_char
blank_step after_e2_81 b = blank_if (b == 0x9f) at_char
blank_step after_e3 b = blank_if (b == 0x80) after_e3_80
blank_step after_e3_80 b = blank_if (b == 0x80) at_char
blank_step not_blank b = not_blank

blank_from : Blank → List ℕ → Bool
blank_from at_char [] = true
blank_from s [] = false
blank_from s (b ∷ value) = blank_from (blank_step s b) value

-- `value.trim().is_empty()`: every character is Unicode white space.
unfoldable pub is_blank : List ℕ → Bool
unfolding blank_from blank_step first_blank blank_if
is_blank value = blank_from at_char value

-- A NUL, a slash or a backslash.
unfoldable pub has_forbidden_byte : List ℕ → Bool
has_forbidden_byte [] = false
has_forbidden_byte (b ∷ value) = (b == 0 || b == b'/' || b == 0x5c) || has_forbidden_byte value

unfoldable pub validate_identifier : List ℕ → Field → WalResult (Unit {0})
validate_identifier value field =
    if is_blank value
    then err (invalid_identifier field value)
    else if has_forbidden_byte value
    then err (invalid_identifier field value)
    else ok tt
