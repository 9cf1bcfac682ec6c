-- ===== src/SmallFloat/Bucket.antt =====
-- What the byte of crates/surch-search/src/small_float.rs keeps of a length.
use surch.Base.{
  ℕ, zero, suc, ◌+◌, ◌-◌, ◌*◌, ◌/◌, ◌%◌, ◌^◌, ◌≤◌, ◌<◌, ◌≡◌, refl, ◌∙◌, arith, bit_and, bit_or,
}
use surch.Base.{lt→ltb, le→ltb, ne→==}
use surch.Base.Bits.{bit_and_mask, bit_or_fields, two_pow_suc, two_pow_pos}
use surch.SmallFloat.Defs.{num_bits, pack, long_to_int4, int4_to_long}
use native.Mathlib.Decide.{dec_lt}
use native.Mathlib.Nat.{
  div-mul-le_self, le-div_iff_mul-le, div-lt_iff_lt-mul, div-add-mod, mod-lt, mul_comm,
  pow-le-pow_right,
}

num_bits-suc : (fuel v : ℕ) → 1 ≤ v → num_bits (suc fuel) v ≡ suc (num_bits fuel (v / 2))
unfolding num_bits
num_bits-suc fuel v h = rw (ne→== v 0 (λ e. absurd (omega arith))) refl

pub num_bits-zero : (fuel : ℕ) → num_bits fuel 0 ≡ 0
unfolding num_bits
num_bits-zero zero = refl
num_bits-zero (suc fuel) = refl

pub num_bits-le : (fuel v : ℕ) → num_bits fuel v ≤ fuel
unfolding num_bits
num_bits-le zero v = omega arith
num_bits-le (suc fuel) v = ground (arith, num_bits-le fuel (v / 2))

-- The bits of a number that is not zero: the leading one, and the others.
pub num_bits-bounds :
    (fuel v : ℕ)
    → 1 ≤ v
    → v < 2 ^ fuel
    → (1 ≤ num_bits fuel v) × (2 ^ (num_bits fuel v - 1) ≤ v) × (v < 2 ^ num_bits fuel v)
num_bits-bounds zero v h k = absurd (omega arith)
num_bits-bounds (suc fuel) v h k = elim (dec_lt v 2) [
  | yes one ↦
      let half : v / 2 ≡ 0 = omega arith in
      rw (num_bits-suc fuel v h, half, num_bits-zero fuel) (omega arith, omega arith, omega arith)
  | no more ↦
      let n = num_bits fuel (v / 2) in
      let (some_bits, low, high) =
        num_bits-bounds fuel (v / 2) (omega arith) (omega (arith, two_pow_suc fuel)) in
      let shape : suc n - 1 ≡ suc (n - 1) = omega arith in
      rw (num_bits-suc fuel v h, shape)
        (omega arith, omega (arith, two_pow_suc (n - 1)), omega (arith, two_pow_suc n))
]

-- The leading four bits of a number, above a shift.
abbrev IsLeading : ℕ → ℕ → Type 0
IsLeading value shift = (8 * 2 ^ shift ≤ value) × (value < 16 * 2 ^ shift)

leading :
    (value shift : ℕ) → IsLeading value shift → (8 ≤ value / 2 ^ shift) × (value / 2 ^ shift < 16)
leading value shift (low, high) =
    let positive : 0 < 2 ^ shift = omega (arith, two_pow_pos shift) in
    ((le-div_iff_mul-le positive).1 low, (div-lt_iff_lt-mul positive).1 high)

pack-eq :
    (value shift : ℕ)
    → IsLeading value shift
    → pack value shift ≡ value / 2 ^ shift - 8 + (shift + 1) * 8
pack-eq value shift h =
    let (low, high) = leading value shift h in
    let word : value / 2 ^ shift % 2 ^ 32 ≡ value / 2 ^ shift = omega arith in
    rw (word, bit_and_mask 3 (value / 2 ^ shift))
      (bit_or_fields 3 (value / 2 ^ shift % 8) (shift + 1) (omega arith) ∙ omega arith)

-- A packed number is read back as its leading four bits.
int4_to_long-pack :
    (value shift : ℕ)
    → value < 2 ^ 64
    → shift < 64
    → IsLeading value shift
    → int4_to_long (pack value shift) ≡ value / 2 ^ shift * 2 ^ shift
unfolding int4_to_long
int4_to_long-pack value shift fits room h =
    let q = value / 2 ^ shift in
    let (low, high) = leading value shift h in
    let e = q - 8 + (shift + 1) * 8 in
    let exponent : e / 8 ≡ suc shift = omega arith in
    let mantissa : bit_and e 0x07 ≡ q - 8 = bit_and_mask 3 e ∙ omega arith in
    let one : bit_or (q - 8) 0x08 ≡ q = bit_or_fields 3 (q - 8) 1 (omega arith) ∙ omega arith in
    let less : (suc shift - 1) % 64 ≡ shift = omega arith in
    let word : q * 2 ^ shift % 2 ^ 64 ≡ q * 2 ^ shift =
      omega (arith, div-mul-le_self value (2 ^ shift)) in
    rw
      (
        pack-eq value shift h,
        exponent,
        ne→== (suc shift) 0 (λ z. absurd (omega arith)),
        mantissa,
        one,
        less,
        word,
      )
      refl

bucket :
    (value shift : ℕ)
    → IsLeading value shift
    → (value / 2 ^ shift * 2 ^ shift ≤ value)
      × (8 * (value - value / 2 ^ shift * 2 ^ shift) ≤ value)
bucket value shift (low, high) =
    let p = 2 ^ shift in
    let rest : value % p < p = mod-lt value (omega (arith, two_pow_pos shift)) in
    (div-mul-le_self value p, omega (arith, low, rest, div-add-mod value p, mul_comm (value / p) p))

num_bits-IsLeading :
    (value shift : ℕ)
    → 1 ≤ value
    → value < 2 ^ 64
    → num_bits 64 value ≡ shift + 4
    → IsLeading value shift
num_bits-IsLeading value shift some_bits fits e =
    let (_, low, high) = num_bits-bounds 64 value some_bits fits in
    let three : num_bits 64 value - 1 ≡ suc (suc (suc shift)) = omega (arith, e) in
    let four : num_bits 64 value ≡ suc (suc (suc (suc shift))) = omega (arith, e) in
    let low' : 2 ^ suc (suc (suc shift)) ≤ value = rw three at low in
    let high' : value < 2 ^ suc (suc (suc (suc shift))) = rw four at high in
    let p1 = two_pow_suc shift in
    let p2 = two_pow_suc (suc shift) in
    let p3 = two_pow_suc (suc (suc shift)) in
    (
      omega (arith, low', p1, p2, p3),
      omega (arith, high', p1, p2, p3, two_pow_suc (suc (suc (suc shift)))),
    )

num_bits-small : (value : ℕ) → value < 2 ^ 64 → num_bits 64 value < 4 → value < 8
num_bits-small zero fits few = omega arith
num_bits-small (suc value) fits few =
    let (_, _, high) = num_bits-bounds 64 (suc value) (omega arith) fits in
    let most : 2 ^ num_bits 64 (suc value) ≤ 2 ^ 3 =
      pow-le-pow_right {n = 2} (omega arith) {j = 3} (omega arith) in
    omega (arith, high, most)

int4_to_long-small : (value : ℕ) → value < 8 → int4_to_long value ≡ value
unfolding int4_to_long
int4_to_long-small value few =
    let none : value / 8 ≡ 0 = omega arith in rw (none, bit_and_mask 3 value) (omega arith)

long_to_int4-small : (value : ℕ) → value < 8 → num_bits 64 value < 4 → long_to_int4 value ≡ value
unfolding long_to_int4
long_to_int4-small value few short = rw (lt→ltb (num_bits 64 value) 4 short) (omega arith)

long_to_int4-pack :
    (value shift : ℕ) → num_bits 64 value ≡ shift + 4 → long_to_int4 value ≡ pack value shift
unfolding long_to_int4
long_to_int4-pack value shift e =
    let less : shift + 4 - 4 ≡ shift = omega arith in
    rw (e, le→ltb (shift + 4) 4 (omega arith), less) refl

-- A 64-bit number, encoded by long_to_int4 and decoded by int4_to_long, comes back as a number
-- that is not larger and lies within an eighth of it.
pub int4_to_long-long_to_int4 :
    (value : ℕ)
    → value < 2 ^ 64
    → (int4_to_long (long_to_int4 value) ≤ value)
      × (8 * (value - int4_to_long (long_to_int4 value)) ≤ value)
int4_to_long-long_to_int4 value fits = elim (dec_lt (num_bits 64 value) 4) [
  | yes short ↦
      let few = num_bits-small value fits short in
      rw (long_to_int4-small value few short, int4_to_long-small value few)
        (omega arith, omega arith)
  | no long ↦
      let shift = num_bits 64 value - 4 in
      let e : num_bits 64 value ≡ shift + 4 = omega arith in
      let positive : 1 ≤ value = nonzero value (omega arith) in
      let h = num_bits-IsLeading value shift positive fits e in
      rw
        (
          long_to_int4-pack value shift e,
          int4_to_long-pack value shift fits (omega (arith, e, num_bits-le 64 value)) h,
        )
        (bucket value shift h)
]
  where
    nonzero : (v : ℕ) → 4 ≤ num_bits 64 v → 1 ≤ v
    nonzero zero h = absurd (omega (arith, num_bits-zero 64))
    nonzero (suc v) h = omega arith
