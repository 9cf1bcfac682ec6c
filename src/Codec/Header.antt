-- ===== src/Codec/Header.antt =====
-- Reading back what the writers of codec_util.rs wrote.
use surch.Base.{◌+◌, ◌*◌, ◌/◌, ℕ, zero, suc, ◌%◌, ◌^◌, ◌≤◌, ◌<◌, ◌≡◌, refl}
use surch.Base.{arith, List, [], ◌∷◌, ◌++◌, length, length-append}
use surch.Base.{ok, err, true}
use surch.Base.{lt→leb, if◌then◌else◌, not}
use mathlib.Core.Path.{subst}
use surch.Base.Bits.{bit_or_fields}
use surch.Bytes.{
  At, At-cons, At-append, At-start, checked_add-At, fits-At, take-At, to_be_bytes,
  length-to_be_bytes,
}
use surch.Bytes.{
  from_be_bytes-to_be_bytes, groups, write_groups-groups, low_group, top_clear, top_set,
  groups-last, groups-more, group_fits, shift_fits,
}
use surch.Bytes.{is_utf8, is_ascii, is_ascii-is_utf8, usize_mod}
use surch.Codec.Defs.{
  read_byte, read_array, read_be_i32, read_be_u64, read_vint_loop, read_vint, read_string,
}
use surch.Codec.Defs.{
  step_by_seven, or_group, bytes_eq, i32_lt, write_header, write_string, write_vint,
}
use surch.Codec.Defs.{check_header, codec_magic, header_length, write_be_i32}
use surch.Codec.Defs.{CodecResult, CheckedHeader, version_too_old, version_too_new, codec_mismatch}
use mathlib.Core.List.{append_assoc}
use native.Mathlib.Nat.{mod-eq_of_lt, pow-suc}
use native.Mathlib.Decide.{dec_lt}

module _ {input : List ℕ} {p : ℕ} where
  read_byte-At : {b : ℕ} {rest : List ℕ} → At input p (b ∷ rest) → read_byte input p ≡ ok (b, p + 1)
  unfolding read_byte
  read_byte-At at = rw ((At-cons at).0)

  pub read_array-At :
      (front rest : List ℕ)
      → At input p (front ++ rest)
      → read_array (length front) input p ≡ ok (front, p + length front)
  unfolding read_array
  read_array-At front rest at =
      rw (checked_add-At front rest at, fits-At front rest at, take-At front rest at)

module _ {input : List ℕ} {p : ℕ} where
  pub read_be_i32-At :
      (v : ℕ) (rest : List ℕ)
      → v < 2 ^ 32
      → At input p (to_be_bytes 4 v ++ rest)
      → read_be_i32 input p ≡ ok (v, p + 4)
  unfolding read_be_i32
  read_be_i32-At v rest h at =
      let bytes : read_array 4 input p ≡ ok (to_be_bytes 4 v, p + 4) =
        rw (length-to_be_bytes 4 v) at (read_array-At (to_be_bytes 4 v) rest at) in
      rw bytes (rw (from_be_bytes-to_be_bytes 4 v h))

  pub read_be_u64-At :
      (v : ℕ) (rest : List ℕ)
      → v < 2 ^ 64
      → At input p (to_be_bytes 8 v ++ rest)
      → read_be_u64 input p ≡ ok (v, p + 8)
  unfolding read_be_u64
  read_be_u64-At v rest h at =
      let bytes : read_array 8 input p ≡ ok (to_be_bytes 8 v, p + 8) =
        rw (length-to_be_bytes 8 v) at (read_array-At (to_be_bytes 8 v) rest at) in
      rw bytes (rw (from_be_bytes-to_be_bytes 8 v h))

-- One round of the loop, on a byte `b` whose group fits the word above `acc`.
or_group-eq :
    (acc b s : ℕ)
    → acc < 2 ^ s
    → b % 128 * 2 ^ s < 2 ^ 32
    → or_group acc b s ≡ acc + b % 128 * 2 ^ s
or_group-eq acc b s ha fits = rw (low_group b, mod-eq_of_lt fits) (bit_or_fields s acc (b % 128) ha)

module _ (shift acc : ℕ) (shifts : List ℕ) {input : List ℕ} {p b : ℕ} {rest : List ℕ} where
  last_byte :
      b < 128
      → acc < 2 ^ shift
      → b * 2 ^ shift < 2 ^ 32
      → At input p (b ∷ rest)
      → read_vint_loop (shift ∷ shifts) acc input p ≡ ok (acc + b * 2 ^ shift, p + 1)
  unfolding read_vint_loop
  last_byte hb ha fits at =
      let low : b % 128 ≡ b = omega arith in
      rw (read_byte-At at, top_clear b hb, or_group-eq acc b shift ha (rw low fits), low)

  more_bytes :
      128 ≤ b
      → b < 256
      → acc < 2 ^ shift
      → b % 128 * 2 ^ shift < 2 ^ 32
      → At input p (b ∷ rest)
      → read_vint_loop (shift ∷ shifts) acc input p
        ≡ read_vint_loop shifts (acc + b % 128 * 2 ^ shift) input (p + 1)
  unfolding read_vint_loop
  more_bytes lo hi ha fits at =
      rw (read_byte-At at, top_set b lo hi, or_group-eq acc b shift ha fits)

-- The loop adds the groups of `v` to what it has read.
read_vint_loop-groups :
    (n s v acc : ℕ) {input : List ℕ} {p : ℕ} (rest : List ℕ)
    → v < 128 ^ n
    → acc < 2 ^ s
    → acc + v * 2 ^ s < 2 ^ 32
    → At input p (groups n v ++ rest)
    → read_vint_loop (step_by_seven n s) acc input p ≡ ok (acc + v * 2 ^ s, p + length (groups n v))
read_vint_loop-groups zero s zero acc rest hv ha fits at =
    unfold read_vint_loop groups in ground arith
read_vint_loop-groups zero s (suc v) acc rest hv ha fits at = absurd (omega arith)
read_vint_loop-groups (suc n) s v acc {p = p} rest hv ha fits at = elim (dec_lt v 128) [
  | yes last ↦
      let at' = rw (groups-last n v last) at at in
      rw (groups-last n v last)
        (last_byte s acc (step_by_seven n (s + 7)) last ha (omega (arith, fits)) at')
  | no more ↦
      let big : 128 ≤ v = omega arith in
      let at' = rw (groups-more n v big) at at in
      let b = v % 128 + 128 in
      let low : b % 128 ≡ v % 128 = omega arith in
      let (group, total) = group_fits v s acc (2 ^ 32) fits in
      let next =
        read_vint_loop-groups n (s + 7) (v / 128) (acc + v % 128 * 2 ^ s) rest
          (omega (arith, pow-suc 128 n)) (shift_fits acc (v % 128) s ha (omega arith))
          (rw total fits) ((At-cons at').1) in
      rw (groups-more n v big) (
        rw
          (
            more_bytes s acc (step_by_seven n (s + 7)) (omega arith) (omega arith) ha (rw low group)
                at',
            low,
            next,
            total,
          )
          (ground arith))
]

read_vint-At :
    {input : List ℕ} {p : ℕ} (v : ℕ) (rest : List ℕ)
    → v < 2 ^ 32
    → At input p (groups 5 v ++ rest)
    → read_vint input p ≡ ok (v, p + length (groups 5 v))
unfolding read_vint
read_vint-At v rest h at =
    rw (read_vint_loop-groups 5 0 v 0 rest (omega arith) (omega arith) (omega arith) at)
      (ground arith)

write_vint-groups :
    (output : List ℕ) (v : ℕ) → v < 2 ^ 32 → write_vint output v ≡ output ++ groups 5 v
unfolding write_vint
write_vint-groups output v h = write_groups-groups 5 25 output v h

-- A string that is valid UTF-8 is read back.
read_string-At :
    {input : List ℕ} {p : ℕ} (value rest : List ℕ)
    → length value < 2 ^ 32
    → is_utf8 value ≡ true
    → At input p (groups 5 (length value) ++ (value ++ rest))
    → read_string input p ≡ ok (value, p + length (groups 5 (length value)) + length value)
unfolding read_string
read_string-At {input} value rest h valid at =
    let at' = At-append (groups 5 (length value)) at in
    rw (
      read_vint-At (length value) (value ++ rest) h at,
      checked_add-At value rest at',
      fits-At value rest at',
      take-At value rest at',
      valid,
    )

pub bytes_eq_refl : (xs : List ℕ) → bytes_eq xs xs ≡ true
bytes_eq_refl [] = refl
bytes_eq_refl (x ∷ xs) = ground (arith, bytes_eq_refl xs)

pub bytes_eq-eq : (xs ys : List ℕ) → bytes_eq xs ys ≡ true → xs ≡ ys
bytes_eq-eq [] [] h = refl
bytes_eq-eq [] (y ∷ ys) h = cc
bytes_eq-eq (x ∷ xs) [] h = cc
bytes_eq-eq (x ∷ xs) (y ∷ ys) h = ground (arith, bytes_eq-eq xs ys)

-- The bytes of a header.
unfoldable pub header_bytes : List ℕ → ℕ → List ℕ
header_bytes codec version =
    to_be_bytes 4 codec_magic ++ (groups 5 (length codec) ++ (codec ++ to_be_bytes 4 version))

-- `write_header` accepts short ASCII names, and appends the header's bytes.
pub write_header-header_bytes :
    (output codec : List ℕ) (version : ℕ)
    → is_ascii codec ≡ true
    → length codec < 128
    → write_header output codec version ≡ ok (output ++ header_bytes codec version)
unfolding write_header write_be_i32 write_string header_bytes
write_header-header_bytes output codec version ascii short =
    let magic = to_be_bytes 4 codec_magic in
    let size : length codec % 2 ^ 32 ≡ length codec = omega arith in
    rw
      (
        ascii,
        lt→leb 128 (length codec) short,
        size,
        write_vint-groups (output ++ magic) (length codec) (omega arith),
      )
      (simp append_assoc)

pub length-header_bytes :
    (codec : List ℕ) (version : ℕ)
    → length codec < 128
    → length (header_bytes codec version) ≡ header_length codec
unfolding header_bytes header_length
length-header_bytes codec version short = rw (groups-last 4 (length codec) short) (
    omega (
      arith,
      length-append (to_be_bytes 4 codec_magic) (length codec ∷ (codec ++ to_be_bytes 4 version)),
      length-append codec (to_be_bytes 4 version),
      length-to_be_bytes 4 codec_magic,
      length-to_be_bytes 4 version,
    ))

-- What a checker that expects `expected` and a range of versions says of a header.
unfoldable pub header_verdict : List ℕ → ℕ → List ℕ → ℕ → ℕ → CodecResult CheckedHeader
header_verdict codec version expected min_version max_version =
    if not (bytes_eq codec expected)
    then err (codec_mismatch codec expected)
    else if i32_lt version min_version
    then err (version_too_old version min_version max_version)
    else if i32_lt max_version version
    then err (version_too_new version min_version max_version)
    else ok (record { version = version; length = header_length codec })

module _ (codec rest : List ℕ) (version : ℕ) (ascii : is_ascii codec ≡ true)
    (short : length codec < 128) (fits : version < 2 ^ 32)
    (small : length (header_bytes codec version ++ rest) < usize_mod) where
  start_At : At (header_bytes codec version ++ rest) 0 (
      to_be_bytes 4 codec_magic
      ++ (groups 5 (length codec) ++ (codec ++ (to_be_bytes 4 version ++ rest))))
  unfolding header_bytes
  start_At =
      let shape : header_bytes codec version ++ rest
          ≡ to_be_bytes 4 codec_magic
            ++ (groups 5 (length codec) ++ (codec ++ (to_be_bytes 4 version ++ rest))) =
        simp append_assoc in
      subst (At (header_bytes codec version ++ rest) 0) shape
        (At-start (header_bytes codec version ++ rest) small)

  name_At :
      At
        (header_bytes codec version ++ rest)
        4
        (groups 5 (length codec) ++ (codec ++ (to_be_bytes 4 version ++ rest)))
  name_At =
      rw (length-to_be_bytes 4 codec_magic) at (At-append (to_be_bytes 4 codec_magic) start_At)

  version_At :
      At (header_bytes codec version ++ rest) (4 + 1 + length codec) (to_be_bytes 4 version ++ rest)
  version_At =
      rw (groups-last 4 (length codec) short) at
        (At-append codec (At-append (groups 5 (length codec)) name_At))

  name_read : read_string (header_bytes codec version ++ rest) 4 ≡ ok (codec, 4 + 1 + length codec)
  name_read = rw (groups-last 4 (length codec) short) at (
      read_string-At codec (to_be_bytes 4 version ++ rest) (omega arith)
        (is_ascii-is_utf8 codec ascii) name_At)

  -- On the header of an ASCII name shorter than 128 bytes and a 32-bit version, with less than
  -- 2^64 bytes in all, check_header answers for every expected name and range of versions: a name
  -- mismatch first, then a version too old, then a version too new, else the version and the
  -- length of the header.
  pub check_header-header_bytes :
      (expected : List ℕ) (min_version max_version : ℕ)
      → check_header (header_bytes codec version ++ rest) expected min_version max_version
        ≡ header_verdict codec version expected min_version max_version
  unfolding check_header header_verdict header_length
  check_header-header_bytes expected min_version max_version =
      rw
        (
          read_be_i32-At codec_magic _ (omega arith) start_At,
          name_read,
          read_be_i32-At version rest fits version_At,
        )
        (ground arith)
