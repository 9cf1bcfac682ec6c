-- ===== src/Base/Bits.antt =====
-- The bit operations on machine words as arithmetic, at every width.
use Prim.Native.Nat.{ℕ, zero, suc, ◌+◌, ◌-◌, ◌*◌, ◌/◌, ◌%◌, ◌^◌, ◌≤◌, ◌<◌, min, max, differ}
use Prim.Native.Nat.{bit_and, bit_or, bit_xor, digits}
use Prim.Native.Nat.{bit_and-bitwise, bit_or-bitwise, bit_xor-bitwise}
use mathlib.Core.Path.{◌≡◌, refl, ap, sym, ◌∙◌}
use native.Mathlib.Omega.{arith}
use native.Mathlib.Nat.{pow-suc, one-le-pow, div-div-eq-div-mul, mod-add-div}

-- Two amounts of fuel that both suffice give the same digits.
module _ (z : ℕ → ℕ) (f : ℕ → ℕ → ℕ) where
  digits-enough :
      (rounds spare v w : ℕ) → v ≤ rounds → v ≤ spare → digits z f rounds v w ≡ digits z f spare v w
  digits-enough zero zero v w h k = refl
  digits-enough zero (suc spare) zero w h k = refl
  digits-enough (suc rounds) zero zero w h k = refl
  digits-enough (suc rounds) (suc spare) zero w h k = refl
  digits-enough zero (suc spare) (suc v) w h k = absurd (omega arith)
  digits-enough (suc rounds) zero (suc v) w h k = absurd (omega arith)
  digits-enough (suc rounds) (suc spare) (suc v) w h k =
      ap (λ (t : ℕ). t * 2 + f (suc v % 2) (w % 2))
        (digits-enough rounds spare (suc v / 2) (w / 2) (omega arith) (omega arith))

  lowest_digit :
      (v w : ℕ)
      → digits z f (suc v) (suc v) w
        ≡ digits z f (suc v / 2) (suc v / 2) (w / 2) * 2 + f (suc v % 2) (w % 2)
  lowest_digit v w =
      ap (λ (t : ℕ). t * 2 + f (suc v % 2) (w % 2))
        (digits-enough v (suc v / 2) (suc v / 2) (w / 2) (omega arith) (omega arith))

differ_parity : (v w : ℕ) → differ (v % 2) (w % 2) ≡ (v + w) % 2
differ_parity v w = go (v % 2) (w % 2) (omega arith) (omega arith) ∙ omega arith
  where
    go : (x y : ℕ) → x < 2 → y < 2 → differ x y ≡ (x + y) % 2
    go zero zero h k = refl
    go zero (suc zero) h k = refl
    go (suc zero) zero h k = refl
    go (suc zero) (suc zero) h k = refl
    go (suc (suc x)) y h k = absurd (omega arith)
    go zero (suc (suc y)) h k = absurd (omega arith)
    go (suc zero) (suc (suc y)) h k = absurd (omega arith)

pub bit_and_halves : (v w : ℕ) → bit_and v w ≡ bit_and (v / 2) (w / 2) * 2 + min (v % 2) (w % 2)
bit_and_halves zero w = omega (arith, bit_and-bitwise 0 w, bit_and-bitwise 0 (w / 2))
bit_and_halves (suc v) w = simp bit_and-bitwise (lowest_digit (λ y. 0) min v w)

pub bit_or_halves : (v w : ℕ) → bit_or v w ≡ bit_or (v / 2) (w / 2) * 2 + max (v % 2) (w % 2)
bit_or_halves zero w = omega (arith, bit_or-bitwise 0 w, bit_or-bitwise 0 (w / 2))
bit_or_halves (suc v) w = simp bit_or-bitwise (lowest_digit (λ y. y) max v w)

pub bit_xor_halves : (v w : ℕ) → bit_xor v w ≡ bit_xor (v / 2) (w / 2) * 2 + (v + w) % 2
bit_xor_halves zero w = omega (arith, bit_xor-bitwise 0 w, bit_xor-bitwise 0 (w / 2))
bit_xor_halves (suc v) w =
    rw (← differ_parity (suc v) w) (simp bit_xor-bitwise (lowest_digit (λ y. y) differ v w))

pub two_pow_suc : (k : ℕ) → 2 ^ suc k ≡ 2 * 2 ^ k
two_pow_suc k = omega (arith, pow-suc 2 k)

pub two_pow_pos : (k : ℕ) → 1 ≤ 2 ^ k
two_pow_pos k = one-le-pow k 2 (omega arith)

mul_two_pow_suc : (g k : ℕ) → g * 2 ^ suc k ≡ 2 * (g * 2 ^ k)
mul_two_pow_suc g k = omega (arith, ap (λ (t : ℕ). g * t) (pow-suc 2 k))

bit_and_zero_le : (n a : ℕ) → a ≤ n → bit_and a 0 ≡ 0
bit_and_zero_le zero zero h = refl
bit_and_zero_le zero (suc a) h = absurd (omega arith)
bit_and_zero_le (suc n) a h =
    omega (arith, bit_and_halves a 0, bit_and_zero_le n (a / 2) (omega arith))

bit_or_zero_le : (n a : ℕ) → a ≤ n → bit_or a 0 ≡ a
bit_or_zero_le zero zero h = refl
bit_or_zero_le zero (suc a) h = absurd (omega arith)
bit_or_zero_le (suc n) a h =
    omega (arith, bit_or_halves a 0, bit_or_zero_le n (a / 2) (omega arith))

pub div_two_pow_suc : (a k : ℕ) → a / 2 ^ suc k ≡ a / 2 / 2 ^ k
div_two_pow_suc a k = rw (two_pow_suc k) (sym (div-div-eq-div-mul a 2 (2 ^ k)))

pub mod_two_pow_suc : (a k : ℕ) → a % 2 ^ suc k ≡ a / 2 % 2 ^ k * 2 + a % 2
mod_two_pow_suc a k = omega (
  arith,
  mod-add-div a (2 ^ suc k),
  mod-add-div (a / 2) (2 ^ k),
  two_pow_suc k,
  ap (λ (t : ℕ). t * (a / 2 ^ suc k)) (two_pow_suc k),
  ap (λ (t : ℕ). 2 ^ k * t) (div_two_pow_suc a k),
)

-- A mask of `k` ones keeps the remainder by `2 ^ k`.
pub bit_and_mask : (k a : ℕ) → bit_and a (2 ^ k - 1) ≡ a % 2 ^ k
bit_and_mask zero a = rw (bit_and_zero_le a a (omega arith)) (omega arith)
bit_and_mask (suc k) a = ground (
  arith,
  bit_and_halves a (2 ^ suc k - 1),
  two_pow_suc k,
  two_pow_pos k,
  mod_two_pow_suc a k,
  bit_and_mask k (a / 2),
)

-- A mask of ones above bit `k` keeps the bits from `k` on.
pub bit_and_shifted : (k a m : ℕ) → bit_and a (m * 2 ^ k) ≡ bit_and (a / 2 ^ k) m * 2 ^ k
bit_and_shifted zero a m = ground arith
bit_and_shifted (suc k) a m = ground (
  arith,
  bit_and_halves a (m * 2 ^ suc k),
  mul_two_pow_suc m k,
  mul_two_pow_suc (bit_and (a / 2 ^ suc k) m) k,
  div_two_pow_suc a k,
  bit_and_shifted k (a / 2) m,
)

-- Fields that do not overlap are joined by addition.
pub bit_or_fields : (k low g : ℕ) → low < 2 ^ k → bit_or low (g * 2 ^ k) ≡ low + g * 2 ^ k
bit_or_fields zero low g h = ground (arith, bit_or-bitwise 0 g)
bit_or_fields (suc k) low g h = ground (
  arith,
  bit_or_halves low (g * 2 ^ suc k),
  mul_two_pow_suc g k,
  two_pow_suc k,
  bit_or_fields k (low / 2) g,
)

module _ (k : ℕ) where
  half_fits : (a : ℕ) → a < 2 ^ suc k → a / 2 < 2 ^ k
  half_fits a h = omega (arith, two_pow_suc k)

pub bit_xor-lt : (k a b : ℕ) → a < 2 ^ k → b < 2 ^ k → bit_xor a b < 2 ^ k
bit_xor-lt zero zero zero h h' = omega arith
bit_xor-lt zero zero (suc b) h h' = absurd (omega arith)
bit_xor-lt zero (suc a) b h h' = absurd (omega arith)
bit_xor-lt (suc k) a b h h' = omega (
  arith,
  bit_xor_halves a b,
  two_pow_suc k,
  bit_xor-lt k (a / 2) (b / 2) (half_fits k a h) (half_fits k b h'),
)

-- `^ c` is one-to-one.
pub bit_xor_cancel : (k a b c : ℕ) → a < 2 ^ k → b < 2 ^ k → bit_xor a c ≡ bit_xor b c → a ≡ b
bit_xor_cancel zero a b c h h' e = omega arith
bit_xor_cancel (suc k) a b c h h' e =
    let halves : bit_xor (a / 2) (c / 2) ≡ bit_xor (b / 2) (c / 2) =
      omega (arith, bit_xor_halves a c, bit_xor_halves b c) in
    omega (
      arith,
      bit_xor_halves a c,
      bit_xor_halves b c,
      bit_xor_cancel k (a / 2) (b / 2) (c / 2) (half_fits k a h) (half_fits k b h') halves,
    )

pub bit_xor_comm : (k a b : ℕ) → a < 2 ^ k → b < 2 ^ k → bit_xor a b ≡ bit_xor b a
bit_xor_comm zero zero zero h h' = refl
bit_xor_comm zero zero (suc b) h h' = absurd (omega arith)
bit_xor_comm zero (suc a) b h h' = absurd (omega arith)
bit_xor_comm (suc k) a b h h' = omega (
  arith,
  bit_xor_halves a b,
  bit_xor_halves b a,
  bit_xor_comm k (a / 2) (b / 2) (half_fits k a h) (half_fits k b h'),
)

-- `^` with all ones is the complement.
pub bit_xor_ones : (k a : ℕ) → a < 2 ^ k → bit_xor a (2 ^ k - 1) ≡ 2 ^ k - 1 - a
bit_xor_ones zero zero h = refl
bit_xor_ones zero (suc a) h = absurd (omega arith)
bit_xor_ones (suc k) a h = ground (
  arith,
  bit_xor_halves a (2 ^ suc k - 1),
  two_pow_suc k,
  two_pow_pos k,
  bit_xor_ones k (a / 2) (half_fits k a h),
)

-- The bits from `k` on are combined by themselves.
pub bit_xor-shift : (k a b : ℕ) → bit_xor a b / 2 ^ k ≡ bit_xor (a / 2 ^ k) (b / 2 ^ k)
bit_xor-shift zero a b = ground arith
bit_xor-shift (suc k) a b =
    let half : bit_xor a b / 2 ≡ bit_xor (a / 2) (b / 2) = omega (arith, bit_xor_halves a b) in
    ground (
      arith,
      half,
      div_two_pow_suc (bit_xor a b) k,
      div_two_pow_suc a k,
      div_two_pow_suc b k,
      bit_xor-shift k (a / 2) (b / 2),
    )

pub bit_xor-zero : (k a : ℕ) → a < 2 ^ k → bit_xor a 0 ≡ a
bit_xor-zero k a h = bit_xor_comm k a 0 h (two_pow_pos k) ∙ bit_xor-bitwise 0 a
