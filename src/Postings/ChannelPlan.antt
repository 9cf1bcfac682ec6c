-- ===== src/Postings/ChannelPlan.antt =====
-- Why the plan that crates/surch-codec/src/postings_block.rs chooses for the doc ids of a block fits
-- the deltas of the block.
use surch.Base.{ℕ, zero, suc, ◌+◌, ◌-◌, ◌^◌, ◌≤◌, ◌<◌, ◌≡◌, refl, ap, ◌∙◌, arith}
use surch.Base.{
  ltb, leb, ◌==◌, if◌then◌else◌, true, false, Bool-cases, inl, inr, lt→ltb, le→ltb, ltb→lt, lt→leb,
  le→leb, ==_iff,
}
use surch.Base.{List, [], ◌∷◌, Option, none, some}
use surch.Base.Bits.{two_pow_pos}
use surch.SmallFloat.Bucket.{num_bits-zero, num_bits-bounds}
use surch.Postings.Packing.{bit_width, packed_len}
use surch.Postings.PackedBits.{AllBelow}
use surch.Postings.BlockPlan.{DocPlan, varint, packed, patched, value_at}
use surch.Postings.BlockPlan.{find_width, add_exceptions, try_widths, plan_widths, plan_doc_channel}
use native.Mathlib.Decide.{dec_lt}
use native.Mathlib.Nat.{pow-le-pow_right}

-- A number has more than `w` binary digits when it reaches `2 ^ w`.
pub leb-bit_width : (w v : ℕ) → v < 2 ^ 32 → leb (2 ^ w) v ≡ ltb w (bit_width v)
unfolding bit_width
leb-bit_width w zero h =
    rw (num_bits-zero 32, lt→leb (2 ^ w) 0 (two_pow_pos w), le→ltb w 0 (omega arith)) refl
leb-bit_width w (suc v) h =
    let (some_bits, low, high) = num_bits-bounds 32 (suc v) (omega arith) h in
    elim (dec_lt w (bit_width (suc v))) [
      | yes more ↦ rw (lt→ltb w (bit_width (suc v)) more) (
          le→leb (2 ^ w) (suc v) (
            omega (
              arith,
              low,
              pow-le-pow_right {n = 2} (omega arith) {i = w} {j = bit_width (suc v) - 1}
                  (omega (arith, more)),
            )))
      | no fewer ↦ rw (le→ltb w (bit_width (suc v)) (omega arith)) (
          lt→leb (2 ^ w) (suc v) (
            omega (
              arith,
              high,
              pow-le-pow_right {n = 2} (omega arith) {i = bit_width (suc v)} {j = w}
                  (omega (arith, fewer)),
            )))
    ]

-- How many deltas need more than `w` bits, and how many need `bits`.
abbrev pub exceeding : ℕ → List ℕ → ℕ
exceeding w [] = 0
exceeding w (delta ∷ deltas) = (if leb (2 ^ w) delta then 1 else 0) + exceeding w deltas

abbrev pub of_width : ℕ → List ℕ → ℕ
of_width bits [] = 0
of_width bits (delta ∷ deltas) = (if bit_width delta == bits then 1 else 0) + of_width bits deltas

exceeding-suc :
    (w : ℕ) (deltas : List ℕ)
    → AllBelow 32 deltas
    → exceeding w deltas ≡ of_width (w + 1) deltas + exceeding (w + 1) deltas
exceeding-suc w [] h = refl
exceeding-suc w (delta ∷ deltas) (h, hs) =
    rw (leb-bit_width w delta h, leb-bit_width (w + 1) delta h, exceeding-suc w deltas hs)
      (ground arith)

exceeding_mono :
    (w n : ℕ) (deltas : List ℕ) → AllBelow 32 deltas → exceeding (w + n) deltas ≤ exceeding w deltas
exceeding_mono w zero deltas h = ground arith
exceeding_mono w (suc n) deltas h =
    let shift : w + suc n ≡ w + n + 1 = omega arith in
    rw shift (omega (arith, exceeding-suc (w + n) deltas h, exceeding_mono w n deltas h))

pub exceeding-AllBelow : (w : ℕ) (deltas : List ℕ) → exceeding w deltas ≡ 0 → AllBelow w deltas
exceeding-AllBelow w [] e = tt
exceeding-AllBelow w (delta ∷ deltas) e = elim (Bool-cases (leb (2 ^ w) delta)) [
  | inl large ↦ absurd (ground (arith, e, large))
  | inr small ↦ (ground (arith, small), exceeding-AllBelow w deltas (ground (arith, e, small)))
]

pub AllBelow-exceeding : (w : ℕ) (deltas : List ℕ) → AllBelow w deltas → exceeding w deltas ≡ 0
AllBelow-exceeding w [] h = refl
AllBelow-exceeding w (delta ∷ deltas) (h, hs) =
    rw (lt→leb (2 ^ w) delta h) (omega (arith, AllBelow-exceeding w deltas hs))

-- A plan by which the deltas can be written and read back: the widths are those of 32-bit numbers,
-- the deltas fit the width, or the number of those that do not is the one of the plan, and not zero.
abbrev pub PlanFits : List ℕ → DocPlan → Type 0
PlanFits deltas varint = Unit
PlanFits deltas (packed width) = (1 ≤ width) × (width ≤ 32) × AllBelow width deltas
PlanFits deltas (patched width exceptions) =
    (1 ≤ width) × (width < 32) × (exceptions ≡ exceeding width deltas) × (1 ≤ exceptions)

-- A histogram counts the deltas by their widths.
abbrev pub Counts : List ℕ → List ℕ → Type 0
Counts histogram deltas = (bits : ℕ) → bits ≤ 32 → value_at histogram bits ≡ of_width bits deltas

module _ (histogram deltas : List ℕ) (h : AllBelow 32 deltas)
    (counts : Counts histogram deltas) where
  add_exceptions-exceeding :
      (n w exceptions exception_bytes : ℕ)
      → w + n ≤ 32
      → (add_exceptions n histogram (w + 1) exceptions exception_bytes).0 + exceeding (w + n) deltas
        ≡ exceptions + exceeding w deltas
  unfolding add_exceptions
  add_exceptions-exceeding zero w exceptions exception_bytes le =
      ap (λ (v : ℕ). exceptions + exceeding v deltas) (omega arith)
  add_exceptions-exceeding (suc n) w exceptions exception_bytes le =
      let count = counts (w + 1) (omega (arith, le)) in
      let next : w + suc n ≡ w + 1 + n = omega arith in
      let step : exceeding w deltas ≡ of_width (w + 1) deltas + exceeding (w + 1) deltas =
        exceeding-suc w deltas h in
      elim (Bool-cases (value_at histogram (w + 1) == 0)) [
        | inl unused ↦
            rw (unused, next)
              (omega (
                arith,
                add_exceptions-exceeding n (w + 1) exceptions exception_bytes (omega (arith, le)),
                step,
                count,
                (==_iff (value_at histogram (w + 1)) 0).0 unused,
              ))
        | inr used ↦
            rw (used, next)
              (omega (
                arith,
                add_exceptions-exceeding n (w + 1) (exceptions + value_at histogram (w + 1)) _
                    (omega (arith, le)),
                step,
                count,
              ))
      ]

  pub find_width-widest :
      (w : ℕ) {width_max : ℕ}
      → w ≤ 32
      → exceeding w deltas ≡ 0
      → find_width w histogram ≡ some width_max
      → (1 ≤ width_max)
        × (width_max ≤ w)
        × (exceeding width_max deltas ≡ 0)
        × (1 ≤ exceeding (width_max - 1) deltas)
  unfolding find_width
  find_width-widest zero le none_above e = cc
  find_width-widest (suc w) {width_max} le none_above e =
      elim (Bool-cases (ltb 0 (value_at histogram (suc w)))) [
        | inl used ↦
            let found : ◌≡◌ {A = Option ℕ} (some (suc w)) (some width_max) = rw used at e in
            let widest : suc w ≡ width_max = cc in
            let before : suc w - 1 ≡ w = omega arith in
            let at_w : suc w ≡ w + 1 = omega arith in
            rw (← widest, before)
              (
                omega arith,
                omega arith,
                none_above,
                omega (
                  arith,
                  exceeding-suc w deltas h,
                  rw at_w at (counts (suc w) le),
                  rw at_w at (ltb→lt 0 (value_at histogram (suc w)) used),
                ),
              )
        | inr unused ↦
            let at_w : suc w ≡ w + 1 = omega arith in
            let none_at : value_at histogram (suc w) ≡ 0 = ground (arith, unused) in
            let (low, high, above, some_at) =
              find_width-widest w (omega (arith, le))
                (exceeding-suc w deltas h
                  ∙ omega (
                    arith,
                    rw at_w at (counts (suc w) le),
                    rw at_w at none_at,
                    rw at_w at none_above,
                  ))
                (rw unused at e) in
            (low, omega (arith, high), above, some_at)
      ]

  module _ (width_max : ℕ) (wide : width_max ≤ 32) (none_above : exceeding width_max deltas ≡ 0)
      (some_at : 1 ≤ exceeding (width_max - 1) deltas) where
    patched-PlanFits :
        (width : ℕ)
        → 1 ≤ width
        → width < width_max
        → PlanFits deltas
            (patched width (add_exceptions (width_max - width) histogram (width + 1) 0 0).0)
    patched-PlanFits width low high =
        let all_widths : width + (width_max - width) ≡ width_max = omega arith in
        let before : width + (width_max - 1 - width) ≡ width_max - 1 = omega arith in
        let counted =
          rw all_widths at
            (add_exceptions-exceeding (width_max - width) width 0 0 (omega (arith, wide))) in
        let more = rw before at (exceeding_mono width (width_max - 1 - width) deltas h) in
        (
          low,
          omega (arith, high, wide),
          omega (arith, counted, none_above),
          omega (arith, counted, none_above, some_at, more),
        )

    try_widths-PlanFits :
        (n delta_count width : ℕ) (best_plan : DocPlan) (best_cost : ℕ)
        → 1 ≤ width
        → width + n ≤ width_max
        → PlanFits deltas best_plan
        → PlanFits deltas (try_widths n histogram delta_count width_max width best_plan best_cost).0
    unfolding try_widths
    try_widths-PlanFits zero delta_count width best_plan best_cost low le fits = fits
    try_widths-PlanFits (suc n) delta_count width best_plan best_cost low le fits =
        let found = add_exceptions (width_max - width) histogram (width + 1) 0 0 in
        let cost = 2 + packed_len delta_count width + found.1 in
        elim (Bool-cases (ltb cost best_cost)) [
          | inl better ↦ rw better (
              try_widths-PlanFits n delta_count (width + 1) (patched width found.0) cost
                (omega arith) (omega (arith, le)) (patched-PlanFits width low (omega (arith, le))))
          | inr kept ↦ rw kept (
              try_widths-PlanFits n delta_count (width + 1) best_plan best_cost (omega arith)
                (omega (arith, le)) fits)
        ]

    plan_widths-PlanFits :
        (delta_count varint_cost : ℕ)
        → 1 ≤ width_max
        → PlanFits deltas (plan_widths histogram delta_count varint_cost width_max)
    unfolding plan_widths
    plan_widths-PlanFits delta_count varint_cost low =
        let best =
          try_widths (width_max - 1) histogram delta_count width_max 1 varint varint_cost in
        elim (Bool-cases (ltb (1 + packed_len delta_count width_max) best.1)) [
          | inl cheaper ↦ rw cheaper (low, wide, exceeding-AllBelow width_max deltas none_above)
          | inr kept ↦ rw kept (
              try_widths-PlanFits (width_max - 1) delta_count 1 varint varint_cost (omega arith)
                (omega (arith, low)) tt)
        ]

  pub plan_doc_channel-PlanFits :
      (delta_count varint_cost : ℕ)
      → PlanFits deltas (plan_doc_channel histogram delta_count varint_cost)
  unfolding plan_doc_channel
  plan_doc_channel-PlanFits delta_count varint_cost =
      elim (delta_count == 0)
        as (λ empty. PlanFits deltas (elim empty [
          | true ↦ varint
          | false ↦ elim (find_width 32 histogram) [
            | none ↦ varint
            | some width_max ↦ plan_widths histogram delta_count varint_cost width_max
          ]
        ])) [ true ↦ tt | false ↦ by_widest (find_width 32 histogram) refl ]
    where
      by_widest :
          (widest : Option ℕ)
          → find_width 32 histogram ≡ widest
          → PlanFits deltas (elim widest [
            | none ↦ varint
            | some width_max ↦ plan_widths histogram delta_count varint_cost width_max
          ])
      by_widest none e = tt
      by_widest (some width_max) e =
          let (low, high, none_above, some_at) =
            find_width-widest 32 (omega arith) (AllBelow-exceeding 32 deltas h) e in
          plan_widths-PlanFits width_max high none_above some_at delta_count varint_cost low
