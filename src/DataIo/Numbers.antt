-- ===== src/DataIo/Numbers.antt =====
-- The variable-length numbers of crates/surch-store/src/data_io.rs are read back.
use surch.Base.{◌*◌, ◌/◌, ◌%◌, ◌^◌, ◌<◌, ◌≤◌, ◌≡◌, ◌+◌, ◌-◌, ℕ, zero, suc, refl, ap, ◌∙◌, arith}
use surch.Base.{lt→ltb, le→ltb, lt→leb, List, ◌∷◌, ◌++◌, length, ok}
use surch.Base.{bit_and, length-append}
use surch.Base.Bits.{bit_or_fields, bit_xor_ones, bit_xor-zero, bit_and_mask}
use surch.Bytes.{
  At, At-cons, At-append, At-start, groups, groups-last, groups-more, low_group, top_clear, top_set,
  group_fits, shift_fits,
}
use surch.Bytes.{write_groups-groups, usize_mod}
use surch.Codec.{step_by_seven}
use surch.DataIo.Defs.{
  Kind, vint, vlong, read_byte, or_group, read_groups, read_vint, read_vlong, read_zlong,
}
use surch.DataIo.Defs.{
  write_vint, write_signed_vlong, write_vlong, write_zlong, zig_zag_encode_i64, zig_zag_decode_i64,
}
use native.Mathlib.Decide.{dec_lt}
use mathlib.Core.Path.{subst}
use mathlib.Core.List.{append_assoc}
use native.Mathlib.Nat.{zero-add, pow-suc, mod-eq_of_lt}

pub read_byte-At :
    {bytes : List ℕ} {p b : ℕ} {rest : List ℕ}
    → At bytes p (b ∷ rest)
    → read_byte bytes p ≡ ok (b, p + 1)
unfolding read_byte
read_byte-At at = rw ((At-cons at).0) refl

or_group-eq :
    (width value byte shift : ℕ)
    → value < 2 ^ shift
    → byte % 128 * 2 ^ shift < 2 ^ width
    → or_group width value byte shift ≡ value + byte % 128 * 2 ^ shift
or_group-eq width value byte shift h fits =
    rw (low_group byte, mod-eq_of_lt fits) (bit_or_fields shift value (byte % 128) h)

module _ (kind : Kind) (width last : ℕ) where
  module _ (shift value : ℕ) (shifts : List ℕ) {bytes : List ℕ} {p b : ℕ} {rest : List ℕ} where
    read_groups-last :
        b < 128
        → value < 2 ^ shift
        → b * 2 ^ shift < 2 ^ width
        → At bytes p (b ∷ rest)
        → read_groups kind width last (shift ∷ shifts) value bytes p
          ≡ ok (value + b * 2 ^ shift, p + 1)
    unfolding read_groups
    read_groups-last hb hv fits at =
        let low : b % 128 ≡ b = omega arith in
        rw (read_byte-At at, top_clear b hb, or_group-eq width value b shift hv (rw low fits), low)

    read_groups-more :
        128 ≤ b
        → b < 256
        → shift < last
        → value < 2 ^ shift
        → b % 128 * 2 ^ shift < 2 ^ width
        → At bytes p (b ∷ rest)
        → read_groups kind width last (shift ∷ shifts) value bytes p
          ≡ read_groups kind width last shifts (value + b % 128 * 2 ^ shift) bytes (p + 1)
    unfolding read_groups
    read_groups-more lo hi before hv fits at = rw (
      read_byte-At at,
      top_set b lo hi,
      lt→leb last shift before,
      or_group-eq width value b shift hv fits,
    )

  -- The loop adds the groups of `v` to what it has read, if the shifts end at the last one.
  read_groups-groups :
      (n s v acc : ℕ) {bytes : List ℕ} {p : ℕ} (rest : List ℕ)
      → s + 7 * n ≡ last + 7
      → v < 128 ^ n
      → acc < 2 ^ s
      → acc + v * 2 ^ s < 2 ^ width
      → 1 ≤ n
      → At bytes p (groups n v ++ rest)
      → read_groups kind width last (step_by_seven n s) acc bytes p
        ≡ ok (acc + v * 2 ^ s, p + length (groups n v))
  read_groups-groups zero s v acc rest ends hv ha fits some_groups at = absurd (omega arith)
  read_groups-groups (suc n) s v acc {p = p} rest ends hv ha fits some_groups at =
      elim (dec_lt v 128) [
        | yes small ↦
            let at' = rw (groups-last n v small) at at in
            rw (groups-last n v small)
              (read_groups-last s acc (step_by_seven n (s + 7)) small ha (omega (arith, fits)) at')
        | no large ↦
            let big : 128 ≤ v = omega arith in
            let some_more : 1 ≤ n = positive n v big hv in
            let at' = rw (groups-more n v big) at at in
            let b = v % 128 + 128 in
            let low : b % 128 ≡ v % 128 = omega arith in
            let (group, total) = group_fits v s acc (2 ^ width) fits in
            let next =
              read_groups-groups n (s + 7) (v / 128) (acc + v % 128 * 2 ^ s) rest
                (omega (arith, ends)) (omega (arith, pow-suc 128 n))
                (shift_fits acc (v % 128) s ha (omega arith)) (rw total fits) some_more
                ((At-cons at').1) in
            rw (groups-more n v big) (
              rw
                (
                  read_groups-more s acc (step_by_seven n (s + 7)) (omega arith) (omega arith)
                      (omega (arith, ends, some_more)) ha (rw low group) at',
                  low,
                  next,
                  total,
                )
                (ground arith))
      ]
    where
      positive : (n v : ℕ) → 128 ≤ v → v < 128 ^ suc n → 1 ≤ n
      positive zero v h k = absurd (omega arith)
      positive (suc n) v h k = omega arith

pub read_vint-At :
    {bytes : List ℕ} {p : ℕ} (v : ℕ) (rest : List ℕ)
    → v < 2 ^ 32
    → At bytes p (groups 5 v ++ rest)
    → read_vint bytes p ≡ ok (v, p + length (groups 5 v))
unfolding read_vint
read_vint-At v rest h at =
    rw
      (read_groups-groups vint 32 28 5 0 v 0 rest (omega arith) (omega arith) (omega arith)
        (omega arith) (omega arith) at)
      (ground arith)

pub read_vlong-At :
    {bytes : List ℕ} {p : ℕ} (v : ℕ) (rest : List ℕ)
    → v < 2 ^ 64
    → At bytes p (groups 10 v ++ rest)
    → read_vlong bytes p ≡ ok (v, p + length (groups 10 v))
unfolding read_vlong
read_vlong-At v rest h at =
    rw
      (read_groups-groups vlong 64 63 10 0 v 0 rest (omega arith) (omega arith) (omega arith)
        (omega arith) (omega arith) at)
      (ground arith)

pub write_vint-groups :
    (output : List ℕ) (v : ℕ) → v < 2 ^ 32 → write_vint output v ≡ output ++ groups 5 v
unfolding write_vint
write_vint-groups output v h = write_groups-groups 5 25 output v h

pub write_signed_vlong-groups :
    (output : List ℕ) (v : ℕ) → v < 2 ^ 64 → write_signed_vlong output v ≡ output ++ groups 10 v
unfolding write_signed_vlong
write_signed_vlong-groups output v h = write_groups-groups 10 57 output v h

-- The place behind what was already written.
pub after_output :
    (output added rest : List ℕ)
    → length ((output ++ added) ++ rest) < usize_mod
    → At ((output ++ added) ++ rest) (length output) (added ++ rest)
after_output output added rest small =
    let whole : (output ++ added) ++ rest ≡ output ++ (added ++ rest) =
      append_assoc output added rest in
    rw zero-add at (
      At-append output (
        subst (At ((output ++ added) ++ rest) 0) whole
          (At-start ((output ++ added) ++ rest) small)))

-- Every 32-bit word that write_vint wrote is read back by read_vint from where it was written,
-- with the position behind it, in an input below 2^64 bytes.
pub read_vint-write_vint :
    (output rest : List ℕ) (v : ℕ)
    → v < 2 ^ 32
    → length (write_vint output v ++ rest) < usize_mod
    → read_vint (write_vint output v ++ rest) (length output) ≡ ok (v, length (write_vint output v))
read_vint-write_vint output rest v h small =
    let added = groups 5 v in
    let at = after_output output added rest (rw (write_vint-groups output v h) at small) in
    rw (write_vint-groups output v h, length-append output added) (read_vint-At v rest h at)

zig_zag_encode_i64_low : (v : ℕ) → v < 2 ^ 63 → zig_zag_encode_i64 v ≡ v * 2
unfolding zig_zag_encode_i64
zig_zag_encode_i64_low v h =
    let word : v * 2 % 2 ^ 64 ≡ v * 2 = omega arith in
    rw (lt→ltb v (2 ^ 63) h, word) (bit_xor-zero 64 (v * 2) (omega arith))

zig_zag_encode_i64_high :
    (v : ℕ) → 2 ^ 63 ≤ v → v < 2 ^ 64 → zig_zag_encode_i64 v ≡ 2 ^ 65 - 1 - v * 2
unfolding zig_zag_encode_i64
zig_zag_encode_i64_high v lo h =
    let word : v * 2 % 2 ^ 64 ≡ v * 2 - 2 ^ 64 = omega arith in
    rw (le→ltb v (2 ^ 63) lo, word) (bit_xor_ones 64 (v * 2 - 2 ^ 64) (omega arith) ∙ omega arith)

zig_zag_decode_i64_even : (v : ℕ) → v < 2 ^ 63 → zig_zag_decode_i64 (v * 2) ≡ v
unfolding zig_zag_decode_i64
zig_zag_decode_i64_even v h =
    let half : v * 2 / 2 ≡ v = omega arith in
    let clear : (2 ^ 64 - bit_and (v * 2) 1) % 2 ^ 64 ≡ 0 = omega (arith, bit_and_mask 1 (v * 2)) in
    rw (half, clear) (bit_xor-zero 64 v (omega arith))

zig_zag_decode_i64_odd : (v : ℕ) → v < 2 ^ 64 → zig_zag_decode_i64 (2 ^ 65 - 1 - v * 2) ≡ v
unfolding zig_zag_decode_i64
zig_zag_decode_i64_odd v h =
    let e = 2 ^ 65 - 1 - v * 2 in
    let half : e / 2 ≡ 2 ^ 64 - 1 - v = omega arith in
    let set : (2 ^ 64 - bit_and e 1) % 2 ^ 64 ≡ 2 ^ 64 - 1 = omega (arith, bit_and_mask 1 e) in
    rw (half, set) (bit_xor_ones 64 (2 ^ 64 - 1 - v) (omega arith) ∙ omega arith)

-- Zig-zag codes each 64-bit word and decodes it.
pub zig_zag_decode_i64-zig_zag_encode_i64 :
    (v : ℕ) → v < 2 ^ 64 → zig_zag_decode_i64 (zig_zag_encode_i64 v) ≡ v
zig_zag_decode_i64-zig_zag_encode_i64 v h = elim (dec_lt v (2 ^ 63)) [
  | yes low ↦ rw (zig_zag_encode_i64_low v low) (zig_zag_decode_i64_even v low)
  | no high ↦ rw (zig_zag_encode_i64_high v (omega arith) h) (zig_zag_decode_i64_odd v h)
]

zig_zag_encode_i64-fits : (v : ℕ) → v < 2 ^ 64 → zig_zag_encode_i64 v < 2 ^ 64
zig_zag_encode_i64-fits v h = elim (dec_lt v (2 ^ 63)) [
  | yes low ↦ omega (arith, zig_zag_encode_i64_low v low)
  | no high ↦ omega (arith, zig_zag_encode_i64_high v (omega arith) h)
]

read_vlong-write_signed_vlong :
    (output rest : List ℕ) (v : ℕ)
    → v < 2 ^ 64
    → length (write_signed_vlong output v ++ rest) < usize_mod
    → read_vlong (write_signed_vlong output v ++ rest) (length output)
      ≡ ok (v, length (write_signed_vlong output v))
read_vlong-write_signed_vlong output rest v h small =
    let added = groups 10 v in
    let at = after_output output added rest (rw (write_signed_vlong-groups output v h) at small) in
    rw (write_signed_vlong-groups output v h, length-append output added)
      (read_vlong-At v rest h at)

-- Every 64-bit word, positive or negative, that write_zlong wrote is read back by read_zlong from
-- where it was written, with the position behind it, in an input below 2^64 bytes.
pub read_zlong-write_zlong :
    (output rest : List ℕ) (v : ℕ)
    → v < 2 ^ 64
    → length (write_zlong output v ++ rest) < usize_mod
    → read_zlong (write_zlong output v ++ rest) (length output)
      ≡ ok (v, length (write_zlong output v))
unfolding write_zlong read_zlong
read_zlong-write_zlong output rest v h small =
    rw
      (read_vlong-write_signed_vlong output rest (zig_zag_encode_i64 v)
        (zig_zag_encode_i64-fits v h) small)
      (ap (λ (t : ℕ). ok (t, length (write_signed_vlong output (zig_zag_encode_i64 v))))
        (zig_zag_decode_i64-zig_zag_encode_i64 v h))

-- Every 64-bit word that write_vlong accepts is read back by read_vlong from where it was written,
-- with the position behind it, in an input below 2^64 bytes.
pub read_vlong-write_vlong :
    (output rest written : List ℕ) (v : ℕ)
    → v < 2 ^ 64
    → write_vlong output v ≡ ok written
    → length (written ++ rest) < usize_mod
    → read_vlong (written ++ rest) (length output) ≡ ok (v, length written)
unfolding write_vlong
read_vlong-write_vlong output rest written v h e small =
    let same : write_signed_vlong output v ≡ written = ground (arith, e) in
    rw same at (read_vlong-write_signed_vlong output rest v h (rw (← same) at small))
