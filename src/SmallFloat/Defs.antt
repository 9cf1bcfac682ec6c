-- ===== src/SmallFloat/Defs.antt =====
-- The functions of crates/surch-search/src/small_float.rs.
use surch.Base.{
  ℕ, zero, suc, ◌+◌, ◌-◌, ◌*◌, ◌/◌, ◌%◌, ◌^◌, ◌==◌, ltb, if◌then◌else◌, min, bit_and, bit_or,
}

abbrev pub num_free_values : ℕ
num_free_values = 24

-- `64 - value.leading_zeros()`, the number of binary digits: `fuel` of them at most.
unfoldable pub num_bits : ℕ → ℕ → ℕ
num_bits zero value = 0
num_bits (suc fuel) value =
    let rest = num_bits fuel (value / 2) in if value == 0 then 0 else suc rest

-- What is above the free mantissas: three bits behind the leading one, and the exponent.
abbrev pub pack : ℕ → ℕ → ℕ
pack value shift = bit_or (bit_and (value / 2 ^ shift % 2 ^ 32) 0x07) ((shift + 1) * 2 ^ 3)

unfoldable pub long_to_int4 : ℕ → ℕ
unfolding num_bits
long_to_int4 value =
    let bits = num_bits 64 value in if ltb bits 4 then value % 2 ^ 32 else pack value (bits - 4)

-- The amount of the shift is reduced to six bits (a release build).
unfoldable pub int4_to_long : ℕ → ℕ
int4_to_long encoded =
    let bits = bit_and encoded 0x07 in
    let exp = encoded / 2 ^ 3 in
    if exp == 0 then bits else bit_or bits 0x08 * 2 ^ ((exp - 1) % 64) % 2 ^ 64

unfoldable pub int_to_byte4 : ℕ → ℕ
unfolding long_to_int4
int_to_byte4 value =
    if ltb value num_free_values
    then value % 256
    else (num_free_values + long_to_int4 (value - num_free_values)) % 256

unfoldable pub byte4_to_int : ℕ → ℕ
unfolding int4_to_long
byte4_to_int byte =
    if ltb byte num_free_values
    then byte
    else min (num_free_values + int4_to_long (byte - num_free_values)) (2 ^ 32 - 1)
