-- ===== src/DataIo/Strings.antt =====
-- The strings of crates/surch-store/src/data_io.rs are read back.
use surch.Base.{◌^◌, ◌<◌, ◌≡◌, ◌≤◌, ◌+◌, ℕ, refl, sym, ap, ◌∙◌, arith, true}
use surch.Base.{List, [], ◌∷◌, ◌++◌, length, ok, err, length-append, lt→ltb, le→ltb}
use surch.Bytes.{At, At-cons, At-append, groups, is_utf8, usize_mod}
use surch.DataIo.Defs.{read_bytes, read_string, write_byte, write_bytes, write_string, write_vint}
use surch.DataIo.Defs.{checked_vint_length, checked_usize_length, length_overflow}
use surch.DataIo.Numbers.{read_byte-At, read_vint-At, write_vint-groups, after_output}
use native.Mathlib.Decide.{dec_lt}
use mathlib.Core.Logic.{◌≢◌}
use surch.DataIo.Defs.{DataResult}
use mathlib.Core.List.{append_assoc, append-nil}

write_bytes-append : (output bytes : List ℕ) → write_bytes output bytes ≡ output ++ bytes
unfolding write_bytes write_byte
write_bytes-append output [] = sym (append-nil output)
write_bytes-append output (b ∷ bytes) =
    write_bytes-append (output ++ b ∷ []) bytes ∙ append_assoc output (b ∷ []) bytes

read_bytes-At :
    (front rest : List ℕ) {bytes : List ℕ} {p : ℕ}
    → At bytes p (front ++ rest)
    → read_bytes (length front) bytes p ≡ ok (front, p + length front)
unfolding read_bytes
read_bytes-At [] rest at = ground arith
read_bytes-At (b ∷ front) rest {bytes} {p} at =
    rw (read_byte-At at, read_bytes-At front rest ((At-cons at).1)) (ground arith)

-- The bytes of a string: its length and itself.
abbrev pub string_bytes : List ℕ → List ℕ
string_bytes value = groups 5 (length value) ++ value

write_string-string_bytes :
    (output value : List ℕ)
    → length value < 2 ^ 31
    → write_string output value ≡ ok (output ++ string_bytes value)
unfolding write_string checked_usize_length
write_string-string_bytes output value short = rw (lt→ltb (length value) (2 ^ 31) short) (
    rw
      (
        write_bytes-append (write_vint output (length value)) value,
        write_vint-groups output (length value) (omega arith),
      )
      (ap (λ (t : List ℕ). ok t) (append_assoc output (groups 5 (length value)) value)))

-- A text that is too long is refused.
write_string-overflow :
    (output value : List ℕ)
    → 2 ^ 31 ≤ length value
    → write_string output value ≡ err (length_overflow (length value))
unfolding write_string checked_usize_length
write_string-overflow output value long = rw (le→ltb (length value) (2 ^ 31) long) refl

read_string-At :
    {bytes : List ℕ} {p : ℕ} (value rest : List ℕ)
    → is_utf8 value ≡ true
    → length value < 2 ^ 31
    → At bytes p (string_bytes value ++ rest)
    → read_string bytes p ≡ ok (value, p + length (string_bytes value))
unfolding read_string checked_vint_length
read_string-At {bytes} {p} value rest valid short at =
    let prefix = groups 5 (length value) in
    let at1 : At bytes p (prefix ++ (value ++ rest)) = rw (append_assoc prefix value rest) at at in
    rw
      (
        read_vint-At (length value) (value ++ rest) (omega arith) at1,
        lt→ltb (length value) (2 ^ 31) short,
      )
      (rw (read_bytes-At value rest (At-append prefix at1), valid)
        (ap (λ (end : ℕ). ok (value, end)) (omega (arith, length-append prefix value))))

-- When write_string accepts a valid UTF-8 text and the input stays below 2^64 bytes, read_string,
-- from where the text was written, answers with the text and the position behind it.
pub read_string-write_string :
    (output rest value written : List ℕ)
    → is_utf8 value ≡ true
    → write_string output value ≡ ok written
    → length (written ++ rest) < usize_mod
    → read_string (written ++ rest) (length output) ≡ ok (value, length written)
read_string-write_string output rest value written valid e small =
    elim (dec_lt (length value) (2 ^ 31)) [
      | no long ↦ absurd (refused (sym (write_string-overflow output value (omega arith)) ∙ e))
      | yes short ↦
          let same : output ++ string_bytes value ≡ written =
            ok-injective (sym (write_string-string_bytes output value short) ∙ e) in
          let at = after_output output (string_bytes value) rest (rw (← same) at small) in
          rw (← same, length-append output (string_bytes value))
            (read_string-At value rest valid short at)
    ]
  where
    refused : ◌≢◌ {A = DataResult (List ℕ)} (err (length_overflow (length value))) (ok written)
    refused h = cc

    ok-injective : {a b : List ℕ} → ◌≡◌ {A = DataResult (List ℕ)} (ok a) (ok b) → a ≡ b
    ok-injective h = cc
