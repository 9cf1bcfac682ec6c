-- ===== src/Postings/FreqChannel.antt =====
-- The channel of the frequencies of a block of crates/surch-codec/src/postings_block.rs: what is
-- written, and that it is read back.
use surch.Base.{ℕ, zero, suc, ◌+◌, ◌^◌, ◌≤◌, ◌<◌, max, ◌≡◌, refl, sym, ap, ◌∙◌, arith}
use surch.Base.{ltb, ◌==◌, if◌then◌else◌, true, false, Bool-cases, inl, inr, ne→==, ==_iff}
use surch.Base.{List, [], ◌∷◌, ◌++◌, length, ok}
use surch.Bytes.{At, groups}
use surch.SmallFloat.Bucket.{num_bits-bounds, num_bits-le}
use surch.Postings.Varint.{read_varint_u32-At, write_varint_u32-groups}
use surch.Postings.FlatRoundTrip.{
  AllU32, varints_bytes, write_varints-varints_bytes, read_varints-At,
}
use surch.Postings.Packing.{bit_width, packed_len}
use surch.Postings.PackedBits.{AllBelow}
use surch.Postings.PackedRoundTrip.{packed_bytes, pack_bits-packed_bytes}
use surch.Postings.BlockEncode.{
  max_width, all_ones, all_equal, varint_cost_of, freq_mode_of, first_of, write_freq_channel,
}
use surch.Postings.BlockDecode.{repeated, read_constant, read_freq_channel}
use surch.Base.Bits.{two_pow_pos}
use mathlib.Core.List.{append_assoc, append-nil}
use mathlib.Core.Path.{ap₂, subst}
use mathlib.Core.Bool.{false≢true}
use native.Mathlib.Nat.{mod-eq_of_lt, pow-le-pow_right}
use surch.Postings.DocChannel.{read_packed-At}

-- The bytes of the frequencies' channel.
unfoldable pub freq_channel_bytes : List ℕ → ℕ → ℕ → List ℕ
freq_channel_bytes freqs freq_width freq_mode =
    if freq_mode == 1
    then groups 5 (first_of freqs)
    else if freq_mode == 2
    then freq_width ∷ packed_bytes freq_width freqs
    else if freq_mode == 3
    then varints_bytes freqs
    else []

pub write_freq_channel-bytes :
    (out freqs : List ℕ) (freq_width freq_mode : ℕ)
    → AllU32 freqs
    → 1 ≤ freq_width
    → freq_width ≤ 32
    → write_freq_channel out freqs freq_width freq_mode
      ≡ out ++ freq_channel_bytes freqs freq_width freq_mode
unfolding write_freq_channel freq_channel_bytes first_of
write_freq_channel-bytes out freqs freq_width freq_mode h low high =
    elim (Bool-cases (freq_mode == 1)) [
      | inl constant ↦
          rw constant (write_varint_u32-groups out (first_of freqs) (first_of-U32 freqs h))
      | inr other ↦ elim (Bool-cases (freq_mode == 2)) [
        | inl fixed ↦
            rw
              (
                other,
                fixed,
                mod-eq_of_lt {n = freq_width} {m = 256} (omega (arith, high)),
                pack_bits-packed_bytes (out ++ freq_width ∷ []) freqs freq_width low,
              )
              (append_assoc out (freq_width ∷ []) (packed_bytes freq_width freqs))
        | inr another ↦ elim (Bool-cases (freq_mode == 3)) [
          | inl each ↦ rw (other, another, each) (write_varints-varints_bytes out freqs h)
          | inr absent ↦ rw (other, another, absent) (sym (append-nil out))
        ]
      ]
    ]
  where
    first_of-U32 : (freqs : List ℕ) → AllU32 freqs → first_of freqs < 2 ^ 32
    first_of-U32 [] h = omega arith
    first_of-U32 (freq ∷ freqs) (h, hs) = h

-- The width of a channel of frequencies.
abbrev pub freq_width_of : List ℕ → ℕ
freq_width_of freqs = max (max_width freqs) 1

max_width-le : (freqs : List ℕ) → max_width freqs ≤ 32
unfolding max_width bit_width
max_width-le [] = omega arith
max_width-le (freq ∷ freqs) = omega (arith, num_bits-le 32 freq, max_width-le freqs)

pub freq_width_of-le : (freqs : List ℕ) → freq_width_of freqs ≤ 32
freq_width_of-le freqs = omega (arith, max_width-le freqs)

bit_width-lt : (v width : ℕ) → v < 2 ^ 32 → bit_width v ≤ width → v < 2 ^ width
unfolding bit_width
bit_width-lt zero width h le = two_pow_pos width
bit_width-lt (suc v) width h le =
    let (_, _, high) = num_bits-bounds 32 (suc v) (omega arith) h in
    omega
      (arith, high, pow-le-pow_right {n = 2} (omega arith) {i = bit_width (suc v)} {j = width} le)

max_width-AllBelow :
    (width : ℕ) (freqs : List ℕ) → AllU32 freqs → max_width freqs ≤ width → AllBelow width freqs
unfolding max_width
max_width-AllBelow width [] h le = tt
max_width-AllBelow width (freq ∷ freqs) (h, hs) le = (
  bit_width-lt freq width h (omega (arith, le)),
  max_width-AllBelow width freqs hs (omega (arith, le)),
)

all_ones-repeated : (freqs : List ℕ) → all_ones freqs ≡ true → repeated 1 (length freqs) ≡ freqs
unfolding all_ones repeated
all_ones-repeated [] e = refl
all_ones-repeated (freq ∷ freqs) e = elim (Bool-cases (freq == 1)) [
  | inl one ↦
      ap₂ (λ (v : ℕ) vs. v ∷ vs) (sym ((==_iff freq 1).0 one))
        (all_ones-repeated freqs (rw one at e))
  | inr other ↦ absurd (false≢true (rw other at e))
]

all_equal-repeated :
    (freq : ℕ) (freqs : List ℕ)
    → all_equal (freq ∷ freqs) ≡ true
    → repeated freq (length freqs) ≡ freqs
unfolding all_equal repeated
all_equal-repeated freq [] e = refl
all_equal-repeated freq (next ∷ freqs) e = elim (Bool-cases (freq == next)) [
  | inr other ↦ absurd (false≢true (rw other at e))
  | inl same ↦
      let equal : freq ≡ next = (==_iff freq next).0 same in
      ap₂ (λ (v : ℕ) vs. v ∷ vs) equal
        (subst (λ (v : ℕ). repeated v (length freqs) ≡ freqs) (sym equal)
          (all_equal-repeated next freqs (rw same at e)))
]

all_equal-ones : (freqs : List ℕ) → all_equal (1 ∷ freqs) ≡ true → all_ones (1 ∷ freqs) ≡ true
unfolding all_equal all_ones
all_equal-ones [] e = refl
all_equal-ones (next ∷ freqs) e = elim (Bool-cases (1 == next)) [
  | inr other ↦ absurd (false≢true (rw other at e))
  | inl same ↦
      let equal : 1 ≡ next = (==_iff 1 next).0 same in
      let e' : all_equal (next ∷ freqs) ≡ true = rw same at e in
      subst (λ (v : ℕ). all_ones (1 ∷ v ∷ freqs) ≡ true) equal
        (all_equal-ones freqs (subst (λ (v : ℕ). all_equal (v ∷ freqs) ≡ true) (sym equal) e'))
]

module _ (bytes : List ℕ) (p : ℕ) (freq : ℕ) (freqs rest : List ℕ) where
  abbrev pub Reads : ℕ → ℕ → Type 0
  Reads width mode =
      At bytes p (freq_channel_bytes (freq ∷ freqs) width mode ++ rest)
      → read_freq_channel bytes mode (length (freq ∷ freqs)) p
        ≡ ok ((freq ∷ freqs), p + length (freq_channel_bytes (freq ∷ freqs) width mode))

  Reads-ones : (width : ℕ) → all_ones (freq ∷ freqs) ≡ true → Reads width 0
  unfolding read_freq_channel freq_channel_bytes
  Reads-ones width ones at =
      ap₂ (λ values (end : ℕ). ok (values, end)) (all_ones-repeated (freq ∷ freqs) ones)
        (omega arith)

  Reads-constant :
      (width : ℕ)
      → freq < 2 ^ 32
      → all_ones (freq ∷ freqs) ≡ false
      → all_equal (freq ∷ freqs) ≡ true
      → Reads width 1
  unfolding read_freq_channel freq_channel_bytes read_constant first_of
  Reads-constant width h mixed equal at =
      rw
        (
          read_varint_u32-At freq rest h at,
          ne→== freq 1 (λ one. false≢true (
              sym mixed
              ∙ subst (λ (v : ℕ). all_ones (v ∷ freqs) ≡ true) (sym one)
                  (all_equal-ones freqs
                    (subst (λ (v : ℕ). all_equal (v ∷ freqs) ≡ true) one equal)))),
          all_equal-repeated freq freqs equal,
        )
        refl

  Reads-packed :
      (width : ℕ) → 1 ≤ width → width ≤ 32 → AllBelow width (freq ∷ freqs) → Reads width 2
  unfolding read_freq_channel freq_channel_bytes
  Reads-packed width low high below at =
      read_packed-At width (freq ∷ freqs) rest low high below at
      ∙ ap (λ (end : ℕ). ok ((freq ∷ freqs), end)) (omega arith)

  Reads-varints : (width : ℕ) → AllU32 (freq ∷ freqs) → Reads width 3
  unfolding read_freq_channel freq_channel_bytes
  Reads-varints width h at = read_varints-At (freq ∷ freqs) rest h at

  pub read_freq_channel-At :
      AllU32 (freq ∷ freqs)
      → Reads
          (freq_width_of (freq ∷ freqs))
          (freq_mode_of (freq ∷ freqs) (freq_width_of (freq ∷ freqs)))
  unfolding freq_mode_of
  read_freq_channel-At h =
      let width = freq_width_of (freq ∷ freqs) in
      let fits = max_width-AllBelow width (freq ∷ freqs) h (omega arith) in
      elim (Bool-cases (all_ones (freq ∷ freqs))) [
        | inl ones ↦ rw ones (Reads-ones width ones)
        | inr mixed ↦ elim (Bool-cases (all_equal (freq ∷ freqs))) [
          | inl equal ↦ rw (mixed, equal) (Reads-constant width h.0 mixed equal)
          | inr differ ↦
              elim (Bool-cases (
                ltb (varint_cost_of (freq ∷ freqs))
                  (1 + packed_len (length (freq ∷ freqs)) width))) [
                    | inl cheaper ↦ rw (mixed, differ, cheaper) (Reads-varints width h)
                    | inr dearer ↦
                        rw (mixed, differ, dearer)
                          (Reads-packed width (omega arith) (freq_width_of-le (freq ∷ freqs)) fits)
                  ]
        ]
      ]
