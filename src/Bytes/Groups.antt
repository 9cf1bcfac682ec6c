-- ===== src/Bytes/Groups.antt =====
-- Variable-length integers: groups of seven bits, the lowest first, with the top bit set on every
-- byte but the last. The loop that writes them is the same in `write_vint` of
-- crates/surch-codec/src/codec_util.rs and `write_vint`, `write_signed_vlong` of
-- crates/surch-store/src/data_io.rs, up to the width of the word.
use surch.Base.{ℕ, zero, suc, ◌+◌, ◌-◌, ◌*◌, ◌/◌, ◌%◌, ◌^◌, ◌≤◌, ◌<◌, ◌≡◌, sym, ap, ◌∙◌}
use surch.Base.{
  lt→ltb, le→ltb, true, false, Bool-cases, inl, inr, arith, ltb, ◌==◌, if◌then◌else◌, bit_and,
  bit_or, true, false, List, [], ◌∷◌, ◌++◌, length,
}
use surch.Base.Bits.{bit_and_mask, bit_and_shifted, bit_or_fields}
use surch.Bytes.Cursor.{IsBytes}
use mathlib.Core.List.{append-nil, append_assoc}
use native.Mathlib.Nat.{div-add-mod, mod-eq_of_lt}
use native.Mathlib.Numerals.{towards_suc}

-- `while bits & high != 0 { push((bits & 0x7f) | 0x80); bits >>= 7; } push(bits)`, for `rounds`
-- bytes at most.
unfoldable pub write_groups : ℕ → ℕ → List ℕ → ℕ → List ℕ
write_groups zero high output bits = output
write_groups (suc rounds) high output bits =
    if bit_and bits high == 0
    then output ++ (bits % 256) ∷ []
    else write_groups rounds high (output ++ (bit_or (bit_and bits 0x7f) 0x80 % 256) ∷ [])
        (bits / 128)

-- The same bytes in plain arithmetic.
unfoldable pub groups : ℕ → ℕ → List ℕ
groups zero v = []
groups (suc k) v = if ltb v 128 then v ∷ [] else (v % 128 + 128) ∷ groups k (v / 128)

-- `!0x7f` in a word of `w + 7` bits.
abbrev pub high_bits : ℕ → ℕ
high_bits w = (2 ^ w - 1) * 2 ^ 7

pub two_pow_add_seven : (w : ℕ) → 2 ^ (w + 7) ≡ 128 * 2 ^ w
two_pow_add_seven w = simp towards_suc (omega arith)

high_bits_test : (w v : ℕ) → v < 2 ^ (w + 7) → (bit_and v (high_bits w) == 0) ≡ ltb v 128
high_bits_test w v h = ground (
  arith,
  bit_and_shifted 7 v (2 ^ w - 1),
  bit_and_mask w (v / 128),
  two_pow_add_seven w,
  mod-eq_of_lt {n = v / 128} {m = 2 ^ w} (omega (arith, two_pow_add_seven w)),
)

pub group_byte : (v : ℕ) → bit_or (bit_and v 0x7f) 0x80 % 256 ≡ v % 128 + 128
group_byte v = rw (bit_and_mask 7 v) (rw (bit_or_fields 7 (v % 128) 1 (omega arith)) (omega arith))

pub low_group : (b : ℕ) → bit_and b 0x7f ≡ b % 128
low_group b = bit_and_mask 7 b

pub top_bit : (b : ℕ) → bit_and b 0x80 ≡ b / 128 % 2 * 128
top_bit b = bit_and_shifted 7 b 1 ∙ ap (λ (t : ℕ). t * 128) (bit_and_mask 1 (b / 128))

pub write_groups-groups :
    (k w : ℕ) (output : List ℕ) (v : ℕ)
    → v < 2 ^ (w + 7)
    → write_groups k (high_bits w) output v ≡ output ++ groups k v
unfolding write_groups groups
write_groups-groups zero w output v h = sym (append-nil output)
write_groups-groups (suc k) w output v h = elim (Bool-cases (ltb v 128)) [
  | inl last ↦ rw (high_bits_test w v h, last) (ground arith)
  | inr more ↦
      rw (high_bits_test w v h, more, group_byte)
        (write_groups-groups k w (output ++ (v % 128 + 128) ∷ []) (v / 128) (omega (arith, h))
          ∙ append_assoc output ((v % 128 + 128) ∷ []) (groups k (v / 128)))
]

pub groups-IsBytes : (k v : ℕ) → IsBytes (groups k v)
unfolding groups
groups-IsBytes zero v = tt
groups-IsBytes (suc k) v = ground (arith, groups-IsBytes k (v / 128))

pub length-groups : (k v : ℕ) → length (groups k v) ≤ k
unfolding groups
length-groups zero v = omega arith
length-groups (suc k) v = ground (arith, length-groups k (v / 128))

-- The lowest group of `v` and the rest, as the reader adds them up.
pub split_group : (v s : ℕ) → v * 2 ^ s ≡ v % 128 * 2 ^ s + v / 128 * 2 ^ (s + 7)
split_group v s = omega (
  arith,
  ap (λ (t : ℕ). t * 2 ^ s) (div-add-mod v 128),
  ap (λ (t : ℕ). v / 128 * t) (two_pow_add_seven s),
)

-- The test that ends the readers' loops.
pub top_clear : (b : ℕ) → b < 128 → (bit_and b 0x80 == 0) ≡ true
top_clear b h = ground (arith, top_bit b)

pub top_set : (b : ℕ) → 128 ≤ b → b < 256 → (bit_and b 0x80 == 0) ≡ false
top_set b lo hi = ground (arith, top_bit b)

pub groups-last : (k v : ℕ) → v < 128 → groups (suc k) v ≡ v ∷ []
unfolding groups
groups-last k v h = rw (lt→ltb v 128 h)

pub groups-more : (k v : ℕ) → 128 ≤ v → groups (suc k) v ≡ (v % 128 + 128) ∷ groups k (v / 128)
unfolding groups
groups-more k v h = rw (le→ltb v 128 h)

-- The parts of a number that fits below a bound fit below it too.
pub group_fits :
    (v s acc bound : ℕ)
    → acc + v * 2 ^ s < bound
    → (v % 128 * 2 ^ s < bound) × (acc + v % 128 * 2 ^ s + v / 128 * 2 ^ (s + 7) ≡ acc + v * 2 ^ s)
group_fits v s acc bound h = omega (arith, split_group v s)

pub shift_fits : (acc g s : ℕ) → acc < 2 ^ s → g < 128 → acc + g * 2 ^ s < 2 ^ (s + 7)
shift_fits acc g s ha hg = grind (arith, two_pow_add_seven s)
