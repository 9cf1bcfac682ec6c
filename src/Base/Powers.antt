-- ===== src/Base/Powers.antt =====
-- Numbers cut into fields at powers of two.
use Prim.Native.Nat.{ℕ, zero, suc, ◌+◌, ◌*◌, ◌/◌, ◌%◌, ◌^◌, ◌<◌}
use mathlib.Core.Path.{◌≡◌, ap, sym, ◌∙◌}
use native.Mathlib.Omega.{arith}
use native.Mathlib.Nat.{
  mul_comm, mul_assoc, mul-le-mul_right, div-div-eq-div-mul, div-eq_of_lt, add-mul-div_right,
  add-mul-mod_self_right, mod-eq_of_lt,
}
use surch.Base.Bits.{two_pow_suc, two_pow_pos, div_two_pow_suc, mod_two_pow_suc}

pub two_pow_add : (m n : ℕ) → 2 ^ (m + n) ≡ 2 ^ m * 2 ^ n
two_pow_add zero n = ground arith
two_pow_add (suc m) n =
    let shift : suc m + n ≡ suc (m + n) = omega arith in
    rw shift (
      omega (
        arith,
        two_pow_suc (m + n),
        two_pow_suc m,
        two_pow_add m n,
        mul_assoc 2 (2 ^ m) (2 ^ n),
        ap (λ (t : ℕ). t * 2 ^ n) (two_pow_suc m),
      ))

pub div_two_pow_add : (a m n : ℕ) → a / 2 ^ (m + n) ≡ a / 2 ^ m / 2 ^ n
div_two_pow_add a m n = rw (two_pow_add m n) (sym (div-div-eq-div-mul a (2 ^ m) (2 ^ n)))

pub mod_two_pow_add : (a m n : ℕ) → a % 2 ^ (m + n) ≡ a % 2 ^ m + a / 2 ^ m % 2 ^ n * 2 ^ m
mod_two_pow_add a zero n = ground arith
mod_two_pow_add a (suc m) n =
    let shift : suc m + n ≡ suc (m + n) = omega arith in
    let x = a / 2 / 2 ^ m % 2 ^ n in
    rw (shift, mod_two_pow_suc a (m + n), mod_two_pow_suc a m, div_two_pow_suc a m)
      (omega (
        arith,
        mod_two_pow_add (a / 2) m n,
        two_pow_suc m,
        mul_comm x (2 ^ m),
        mul_comm x (2 ^ suc m),
        ap (λ (t : ℕ). x * t) (two_pow_suc m),
      ))

-- A field of `r` bits above `c` bits stays below `2 ^ (c + r)`.
pub field_lt : (a c x r : ℕ) → a < 2 ^ c → x < 2 ^ r → a + x * 2 ^ c < 2 ^ (c + r)
field_lt a c x r ha hx = omega (
  arith,
  ha,
  two_pow_add c r,
  mul_comm (2 ^ c) (2 ^ r),
  mul-le-mul_right {m = x + 1} {n = 2 ^ r} (2 ^ c) (omega (arith, hx)),
)

-- What stands above the low field, and the low field.
pub field_div : (a c x : ℕ) → a < 2 ^ c → (a + x * 2 ^ c) / 2 ^ c ≡ x
field_div a c x ha =
    add-mul-div_right a x {z = 2 ^ c} (two_pow_pos c)
    ∙ omega (arith, div-eq_of_lt {n = a} {m = 2 ^ c} ha)

pub field_mod : (a c x : ℕ) → a < 2 ^ c → (a + x * 2 ^ c) % 2 ^ c ≡ a
field_mod a c x ha = add-mul-mod_self_right a x (2 ^ c) ∙ mod-eq_of_lt ha
