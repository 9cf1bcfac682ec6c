-- ===== src/Segments/Name.antt =====
-- The file names of crates/surch-store/src/segment_store.rs: `next_segment_name` and
-- `parse_segment_id`.
use surch.Base.{ℕ, zero, suc, ◌+◌, ◌-◌, ◌*◌, ◌/◌, ◌%◌, ◌^◌, ◌<◌, ◌≤◌, ◌≡◌, refl, ap, ◌∙◌, arith}
use surch.Base.{ltb, leb, ◌==◌, if◌then◌else◌, Bool, true, false, ◌&&◌, List, [], ◌∷◌, ◌++◌, max}
use surch.Base.{
  Option, none, some, length, length-append, take-append_length, drop-append_length, take, drop,
}
use surch.Codec.{bytes_eq}
use surch.Base.{All, append-All, Bool-cases, inl, inr, ==_iff, ne→==, le→leb, lt→ltb}
use surch.Codec.Header.{bytes_eq_refl}
use mathlib.Core.List.{append_assoc, append-nil}
use native.Mathlib.Nat.{pow-suc, pow-le-pow_right}

-- "segment_"
abbrev pub segment_prefix : List ℕ
segment_prefix = b's' ∷ b'e' ∷ b'g' ∷ b'm' ∷ b'e' ∷ b'n' ∷ b't' ∷ b'_' ∷ []

-- ".json"
abbrev pub segment_suffix : List ℕ
segment_suffix = b'.' ∷ b'j' ∷ b's' ∷ b'o' ∷ b'n' ∷ []

abbrev is_some : Option (List ℕ) → Bool
is_some none = false
is_some (some a) = true

-- The last `width` decimal digits of a number, as text.
decimal : ℕ → ℕ → List ℕ
decimal zero v = []
decimal (suc width) v = decimal width (v / 10) ++ (b'0' + v % 10) ∷ []

-- A `u64` has twenty digits at most.
digit_count : ℕ → ℕ → ℕ
digit_count zero v = 0
digit_count (suc fuel) v = if v == 0 then 0 else suc (digit_count fuel (v / 10))

-- `{:012}`: twelve digits, or more where the number has more.
unfoldable pub padded : ℕ → List ℕ
unfolding decimal digit_count
padded id = decimal (max 12 (digit_count 20 id)) id

-- `format!("{SEGMENT_PREFIX}{:012}{SEGMENT_SUFFIX}", id)`
unfoldable pub segment_name : ℕ → List ℕ
segment_name id = segment_prefix ++ (padded id ++ segment_suffix)

-- `str::strip_prefix`
unfoldable pub strip_prefix : List ℕ → List ℕ → Option (List ℕ)
strip_prefix [] name = some name
strip_prefix (p ∷ ps) [] = none
strip_prefix (p ∷ ps) (c ∷ name) = if c == p then strip_prefix ps name else none

-- `str::strip_suffix`
unfoldable pub strip_suffix : List ℕ → List ℕ → Option (List ℕ)
strip_suffix suffix name =
    let kept = length name - length suffix in
    if leb (length suffix) (length name) && bytes_eq (drop kept name) suffix
    then some (take kept name)
    else none

-- The digits of `str::parse::<u64>`: `none` on another character or past `u64::MAX`.
parse_digits : ℕ → List ℕ → Option ℕ
parse_digits acc [] = if ltb acc (2 ^ 64) then some acc else none
parse_digits acc (c ∷ cs) =
    if leb b'0' c && leb c b'9' then parse_digits (acc * 10 + (c - b'0')) cs else none

-- `str::parse::<u64>`: a digit at least, behind at most one plus sign.
unfoldable pub parse_u64 : List ℕ → Option ℕ
unfolding parse_digits
parse_u64 [] = none
parse_u64 (c ∷ []) = parse_digits 0 (c ∷ [])
parse_u64 (c ∷ cs) = if c == b'+' then parse_digits 0 cs else parse_digits 0 (c ∷ cs)

-- `none` stands for `SegmentStoreError::InvalidSegmentFile`, which carries the name.
unfoldable pub parse_segment_id : List ℕ → Option ℕ
parse_segment_id name = elim (strip_prefix segment_prefix name) [
  | none ↦ none
  | some remainder ↦ elim (strip_suffix segment_suffix remainder) [
    | none ↦ none
    | some digits ↦ parse_u64 digits
  ]
]

-- `name.starts_with(SEGMENT_PREFIX) && name.ends_with(SEGMENT_SUFFIX)`; the extension of such a
-- name is "json".
unfoldable pub is_segment_file : List ℕ → Bool
is_segment_file name =
    is_some (strip_prefix segment_prefix name) && is_some (strip_suffix segment_suffix name)

digit_count-enough : (fuel v : ℕ) → v < 10 ^ fuel → v < 10 ^ digit_count fuel v
unfolding digit_count
digit_count-enough zero v h = h
digit_count-enough (suc fuel) v h = elim (Bool-cases (v == 0)) [
  | inl e ↦ rw e (omega (arith, (==_iff v 0).0 e))
  | inr e ↦ rw e (
      omega (
        arith,
        pow-suc 10 (digit_count fuel (v / 10)),
        digit_count-enough fuel (v / 10) (omega (arith, pow-suc 10 fuel)),
      ))
]

abbrev IsDigit : ℕ → Type 0
IsDigit c = (48 ≤ c) × (c ≤ 57)

parse_digit :
    (acc d : ℕ) (rest : List ℕ)
    → d < 10
    → parse_digits acc ((48 + d) ∷ rest) ≡ parse_digits (acc * 10 + d) rest
unfolding parse_digits
parse_digit acc d rest h =
    let back : 48 + d - 48 ≡ d = omega arith in
    rw (le→leb 48 (48 + d) (omega arith), le→leb (48 + d) 57 (omega arith), back)

parse_digits-decimal :
    (width acc v : ℕ) (rest : List ℕ)
    → v < 10 ^ width
    → parse_digits acc (decimal width v ++ rest) ≡ parse_digits (acc * 10 ^ width + v) rest
unfolding decimal
parse_digits-decimal zero acc v rest h =
    let none_left : acc * 10 ^ 0 + v ≡ acc = omega arith in rw none_left
parse_digits-decimal (suc width) acc v rest h =
    let digit = 48 + v % 10 in
    rw (append_assoc (decimal width (v / 10)) (digit ∷ []) rest) (
      rw (parse_digits-decimal width acc (v / 10) (digit ∷ rest) (omega (arith, pow-suc 10 width)))
        (parse_digit (acc * 10 ^ width + v / 10) (v % 10) rest (omega arith)
          ∙ ap (λ (n : ℕ). parse_digits n rest)
              (omega (arith, pow-suc 10 width, ap (λ (t : ℕ). acc * t) (pow-suc 10 width)))))

decimal-digits : (width v : ℕ) → All IsDigit (decimal width v)
unfolding decimal
decimal-digits zero v = tt
decimal-digits (suc width) v =
    append-All IsDigit (decimal width (v / 10)) ((48 + v % 10) ∷ []) (decimal-digits width (v / 10))
      ((omega arith, omega arith), tt)

length-decimal : (width v : ℕ) → length (decimal width v) ≡ width
unfolding decimal
length-decimal zero v = refl
length-decimal (suc width) v = omega (
  arith,
  length-append {0} (decimal width (v / 10)) ((48 + v % 10) ∷ []),
  length-decimal width (v / 10),
)

parse_u64-digits : (cs : List ℕ) → 1 ≤ length cs → All IsDigit cs → parse_u64 cs ≡ parse_digits 0 cs
unfolding parse_u64
parse_u64-digits [] h d = absurd (omega arith)
parse_u64-digits (c ∷ []) h d = refl
parse_u64-digits (c ∷ b ∷ cs) h ((lo, hi), d) = rw (ne→== c 43 (λ e. absurd (omega arith)))

padded_fits : (id : ℕ) → id < 2 ^ 64 → id < 10 ^ max 12 (digit_count 20 id)
padded_fits id h = omega (
  arith,
  digit_count-enough 20 id (omega arith),
  pow-le-pow_right {n = 10} (omega arith) {i = digit_count 20 id} {j = max 12 (digit_count 20 id)}
      (omega arith),
)

parse_digits-nil : (v : ℕ) → v < 2 ^ 64 → parse_digits v [] ≡ some v
unfolding parse_digits
parse_digits-nil v h = rw (lt→ltb v (2 ^ 64) h)

parse_digits-decimal_end :
    (width v : ℕ) → v < 10 ^ width → v < 2 ^ 64 → parse_digits 0 (decimal width v) ≡ some v
parse_digits-decimal_end width v fits h =
    let read : parse_digits 0 (decimal width v) ≡ parse_digits (0 * 10 ^ width + v) [] =
      rw append-nil at (parse_digits-decimal width 0 v [] fits) in
    let total : 0 * 10 ^ width + v ≡ v = omega arith in rw (read, total) (parse_digits-nil v h)

parse_u64-padded : (id : ℕ) → id < 2 ^ 64 → parse_u64 (padded id) ≡ some id
unfolding padded
parse_u64-padded id h = unpad (max 12 (digit_count 20 id)) (omega arith) (padded_fits id h)
  where
    unpad : (width : ℕ) → 1 ≤ width → id < 10 ^ width → parse_u64 (decimal width id) ≡ some id
    unpad width some_digits fits =
        rw
          (parse_u64-digits (decimal width id) (omega (arith, length-decimal width id))
            (decimal-digits width id))
          (parse_digits-decimal_end width id fits h)

strip_suffix-append : (suffix name : List ℕ) → strip_suffix suffix (name ++ suffix) ≡ some name
unfolding strip_suffix
strip_suffix-append suffix name =
    let kept : length (name ++ suffix) - length suffix ≡ length name =
      omega (arith, length-append name suffix) in
    rw (
      le→leb (length suffix) (length (name ++ suffix)) (omega (arith, length-append name suffix)),
      kept,
      drop-append_length name suffix,
      bytes_eq_refl suffix,
      take-append_length name suffix,
    )

strip_prefix-name :
    (rest : List ℕ) → strip_prefix segment_prefix (segment_prefix ++ rest) ≡ some rest
unfolding strip_prefix
strip_prefix-name rest = refl

parse_segment_id-parts :
    (name remainder digits : List ℕ)
    → strip_prefix segment_prefix name ≡ some remainder
    → strip_suffix segment_suffix remainder ≡ some digits
    → parse_segment_id name ≡ parse_u64 digits
unfolding parse_segment_id
parse_segment_id-parts name remainder digits e f =
    rw (e, parse_segment_id) (rw (f, parse_segment_id) refl)

-- Every 64-bit identifier is read back from the file name that next_segment_name makes of it.
pub parse_segment_id-segment_name :
    (id : ℕ) → id < 2 ^ 64 → parse_segment_id (segment_name id) ≡ some id
parse_segment_id-segment_name id h =
    parse_segment_id-parts (segment_name id) (padded id ++ segment_suffix) (padded id)
      (unfold segment_name in strip_prefix-name (padded id ++ segment_suffix))
      (strip_suffix-append segment_suffix (padded id))
    ∙ parse_u64-padded id h

-- Two 64-bit identifiers with the same file name are equal.
pub segment_name-injective :
    (i j : ℕ) → i < 2 ^ 64 → j < 2 ^ 64 → segment_name i ≡ segment_name j → i ≡ j
segment_name-injective i j hi hj e = ground (
  arith,
  parse_segment_id-segment_name i hi,
  parse_segment_id-segment_name j hj,
  ap parse_segment_id e,
)
