-- ===== src/Postings/PackedRoundTrip.antt =====
-- What `unpack_bits` of crates/surch-codec/src/postings_block.rs makes of packed values.
use surch.Base.{ℕ, zero, suc, ◌+◌, ◌/◌, ◌^◌, ◌≤◌, ◌≡◌, refl, sym, ap, ◌∙◌, arith}
use surch.Base.{◌==◌, Bool-cases, inl, inr, ne→==}
use surch.Base.{List, [], ◌∷◌, ◌++◌, length, ok}
use surch.Bytes.{At, slice-At, IsBytes}
use surch.Postings.Packing.{packed_len, or_at, put_bits, put_values, zeros, pack_bits, unpack_bits}
use surch.Postings.PackedBits.{
  le_value, fields, AllBelow, Packed, put_values-Packed, take_values-fields,
}
use mathlib.Core.List.{append-nil}
use native.Mathlib.Nat.{div-one, mul_comm}

-- Bytes in front of the packed ones stay as they are.
or_at-append :
    (front out : List ℕ) (i bits : ℕ)
    → or_at (front ++ out) (length front + i) bits ≡ front ++ or_at out (0 + i) bits
unfolding or_at
or_at-append [] out i bits = refl
or_at-append (byte ∷ front) out i bits =
    let shift : suc (length front) + i ≡ suc (length front + i) = omega arith in
    rw shift (ap (λ rest. byte ∷ rest) (or_at-append front out i bits))

behind : List ℕ → List ℕ × ℕ → List ℕ × ℕ
behind front (out, cursor) = (front ++ out, cursor)

put_bits-append :
    (rounds : ℕ) (front out : List ℕ) (cursor width value : ℕ)
    → put_bits rounds (front ++ out) (length front) cursor width value
      ≡ behind front (put_bits rounds out 0 cursor width value)
unfolding put_bits behind
put_bits-append zero front out cursor width value = refl
put_bits-append (suc rounds) front out cursor width value = elim (Bool-cases (width == 0)) [
  | inl done ↦ rw done refl
  | inr more ↦ rw (more, or_at-append front out) (put_bits-append rounds front _ _ _ _)
]

put_values-append :
    (front : List ℕ) (out : List ℕ) (cursor width : ℕ) (values : List ℕ)
    → put_values (front ++ out) (length front) cursor values width
      ≡ front ++ put_values out 0 cursor values width
unfolding put_values behind
put_values-append front out cursor width [] = refl
put_values-append front out cursor width (value ∷ values) =
    rw (put_bits-append width front out cursor width value) (
      put_values-append front (put_bits width out 0 cursor width value).0
        (put_bits width out 0 cursor width value).1 width values)

-- The bytes of packed values.
unfoldable pub packed_bytes : ℕ → List ℕ → List ℕ
packed_bytes width [] = []
packed_bytes width (value ∷ values) =
    put_values (zeros (packed_len (suc (length values)) width)) 0 0 (value ∷ values) width

pub pack_bits-packed_bytes :
    (out values : List ℕ) (width : ℕ)
    → 1 ≤ width
    → pack_bits out values width ≡ out ++ packed_bytes width values
unfolding pack_bits packed_bytes
pack_bits-packed_bytes out [] width wide = sym (append-nil out)
pack_bits-packed_bytes out (value ∷ values) width wide =
    rw (ne→== width 0 (λ e. absurd (omega (arith, wide, e)))) (
      put_values-append out (zeros (packed_len (suc (length values)) width)) 0 width
        (value ∷ values))

length-zeros : (n : ℕ) → length (zeros n) ≡ n
unfolding zeros
length-zeros zero = refl
length-zeros (suc n) = omega (arith, length-zeros n)

zeros-IsBytes : (n : ℕ) → IsBytes (zeros n)
unfolding zeros
zeros-IsBytes zero = tt
zeros-IsBytes (suc n) = (omega arith, zeros-IsBytes n)

le_value-zeros : (n : ℕ) → le_value (zeros n) ≡ 0
unfolding zeros
le_value-zeros zero = refl
le_value-zeros (suc n) = omega (arith, le_value-zeros n)

packed_bytes-Packed :
    (width value : ℕ) (values : List ℕ)
    → AllBelow width (value ∷ values)
    → Packed
        (zeros (packed_len (suc (length values)) width))
        0
        width
        (value ∷ values)
        (packed_bytes width (value ∷ values))
unfolding packed_bytes packed_len
packed_bytes-Packed width value values below =
    let n = packed_len (suc (length values)) width in
    put_values-Packed (zeros n) 0 width (value ∷ values) (zeros-IsBytes n)
      (omega (arith, le_value-zeros n)) below
      (omega (arith, length-zeros n, mul_comm width (suc (length values))))

pub length-packed_bytes :
    (width : ℕ) (values : List ℕ)
    → AllBelow width values
    → length (packed_bytes width values) ≡ packed_len (length values) width
unfolding packed_bytes packed_len
length-packed_bytes width [] below = omega arith
length-packed_bytes width (value ∷ values) below =
    (packed_bytes-Packed width value values below).size
    ∙ length-zeros (packed_len (suc (length values)) width)

packed_bytes_nil : (width : ℕ) → packed_bytes width [] ≡ []
unfolding packed_bytes
packed_bytes_nil width = refl

-- Values that were packed are read back.
pub unpack_bits-At :
    {bytes : List ℕ} {p : ℕ} (width : ℕ) (values rest : List ℕ)
    → width ≤ 32
    → AllBelow width values
    → At bytes p (packed_bytes width values ++ rest)
    → unpack_bits bytes p (length values) width
      ≡ ok (values, p + length (packed_bytes width values))
unfolding unpack_bits
unpack_bits-At {p = p} width [] rest wide below at =
    ap (λ (end : ℕ). ok ([], end)) (omega (arith, ap length (packed_bytes_nil width)))
unpack_bits-At {bytes} {p} width (value ∷ values) rest wide below at =
    let all = value ∷ values in
    let packed = packed_bytes width all in
    let holds = packed_bytes-Packed width value values below in
    let n = packed_len (suc (length values)) width in
    let total : le_value packed / 2 ^ 0 ≡ fields width all =
      div-one (le_value packed) ∙ omega (arith, holds.total, le_value-zeros n) in
    rw
      (
        ne→== (suc (length values)) 0 (λ e. absurd (omega arith)),
        ← length-packed_bytes width all below,
        slice-At packed rest at,
        take_values-fields packed width wide holds.all_bytes all 0 below total,
      )
      refl
