-- ===== src/Postings/ChannelCost.antt =====
-- That the coding which crates/surch-codec/src/postings_block.rs chooses for the doc ids of a block is
-- never longer than one varint for each.
use surch.Base.{ℕ, zero, suc, ◌+◌, ◌-◌, ◌*◌, ◌^◌, ◌≤◌, ◌<◌, ◌≡◌, refl, sym, ap, ◌∙◌, arith}
use surch.Base.{ltb, leb, ◌==◌, if◌then◌else◌, true, false, Bool-cases, inl, inr, ltb→lt, ==_iff}
use surch.Base.{List, [], ◌∷◌, ◌++◌, length, length-append, Option, none, some}
use surch.Bytes.{groups}
use surch.Postings.FlatRoundTrip.{varints_bytes}
use surch.Postings.Packing.{bit_width, packed_len, varint_len_for_bits}
use surch.Postings.PackedBits.{AllBelow}
use surch.Postings.PackedRoundTrip.{packed_bytes, length-packed_bytes}
use surch.Postings.BlockPlan.{
  DocPlan, varint, patched, value_at, find_width, add_exceptions, try_widths, plan_widths,
  plan_doc_channel,
}
use surch.Postings.BlockEncode.{take_exceptions}
use surch.Postings.ChannelPlan.{
  find_width-widest, AllBelow-exceeding, exceeding-AllBelow, leb-bit_width, exceeding, of_width,
  Counts,
}
use surch.Postings.Exceptions.{
  kept, listed, exception_bytes, exception_first, packed_first, take_exceptions-Split,
}
use surch.Postings.DocChannel.{doc_channel_bytes, write_doc_channel-bytes}
use surch.Postings.BlockPlan.{Deltas, collect_deltas, no_deltas, add_one}
use surch.Postings.BlockEncode.{write_doc_channel}
use surch.Postings.Flat.{write_varints}
use surch.Postings.FlatRoundTrip.{AllU32, write_varints-varints_bytes}
use surch.Postings.ChannelDeltas.{gaps, chunk_deltas, chunk-Counts, chunk_PlanFits}
use surch.Postings.BlockRoundTrip.{gaps-AllBelow, length-gaps}

-- The bytes of a varint, by the width of the number.
length-varint : (v : ℕ) → v < 2 ^ 32 → length (groups 5 v) ≡ varint_len_for_bits (bit_width v)
unfolding groups varint_len_for_bits
length-varint v h =
    ground
      (arith, leb-bit_width 7 v h, leb-bit_width 14 v h, leb-bit_width 21 v h, leb-bit_width 28 v h)

-- The bytes of the exceptions above a width.
abbrev weight : ℕ → List ℕ → ℕ
weight w [] = 0
weight w (delta ∷ deltas) =
    (if leb (2 ^ w) delta then 1 + varint_len_for_bits (bit_width delta) else 0) + weight w deltas

weight-suc :
    (w : ℕ) (deltas : List ℕ)
    → AllBelow 32 deltas
    → weight w deltas
      ≡ of_width (w + 1) deltas * (1 + varint_len_for_bits (w + 1)) + weight (w + 1) deltas
weight-suc w [] h = omega arith
weight-suc w (delta ∷ deltas) (h, hs) = elim (Bool-cases (bit_width delta == w + 1)) [
  | inl same ↦
      let equal : bit_width delta ≡ w + 1 = (==_iff (bit_width delta) (w + 1)).0 same in
      rw (leb-bit_width w delta h, leb-bit_width (w + 1) delta h, weight-suc w deltas hs, equal)
        (ground arith)
  | inr other ↦
      rw (leb-bit_width w delta h, leb-bit_width (w + 1) delta h, weight-suc w deltas hs, other)
        (ground (arith, other))
]

weight-exceeding : (w : ℕ) (deltas : List ℕ) → exceeding w deltas ≡ 0 → weight w deltas ≡ 0
weight-exceeding w [] e = refl
weight-exceeding w (delta ∷ deltas) e = elim (Bool-cases (leb (2 ^ w) delta)) [
  | inl large ↦ absurd (ground (arith, e, large))
  | inr small ↦ rw small (omega (arith, weight-exceeding w deltas (ground (arith, e, small))))
]

none_listed : (w index : ℕ) → length (exception_bytes (listed w index [])) ≡ 0
unfolding take_exceptions
none_listed w index = refl

length-exception_bytes :
    (w index : ℕ) (deltas : List ℕ)
    → AllBelow 32 deltas
    → length (exception_bytes (listed w index deltas)) ≡ weight w deltas
length-exception_bytes w index [] h = none_listed w index
length-exception_bytes w index (delta ∷ deltas) (h, hs) = elim (Bool-cases (leb (2 ^ w) delta)) [
  | inl large ↦
      ap (λ parts. length (exception_bytes parts.1)) (exception_first w index delta deltas large)
      ∙ rw large (
          omega (
            arith,
            length-varint delta h,
            length-append (groups 5 delta) (exception_bytes (listed w (index + 1) deltas)),
            length-exception_bytes w (index + 1) deltas hs,
          ))
  | inr small ↦
      ap (λ parts. length (exception_bytes parts.1)) (packed_first w index delta deltas small)
      ∙ rw small (omega (arith, length-exception_bytes w (index + 1) deltas hs))
]

module _ (histogram deltas : List ℕ) (h : AllBelow 32 deltas)
    (counts : Counts histogram deltas) where
  add_exceptions-weight :
      (n w exceptions exception_size : ℕ)
      → w + n ≤ 32
      → (add_exceptions n histogram (w + 1) exceptions exception_size).1 + weight (w + n) deltas
        ≡ exception_size + weight w deltas
  unfolding add_exceptions
  add_exceptions-weight zero w exceptions exception_size le =
      ap (λ (v : ℕ). exception_size + weight v deltas) (omega arith)
  add_exceptions-weight (suc n) w exceptions exception_size le =
      let count = counts (w + 1) (omega (arith, le)) in
      let next : w + suc n ≡ w + 1 + n = omega arith in
      let step = weight-suc w deltas h in
      elim (Bool-cases (value_at histogram (w + 1) == 0)) [
        | inl unused ↦
            let none_of : of_width (w + 1) deltas ≡ 0 =
              sym count ∙ (==_iff (value_at histogram (w + 1)) 0).0 unused in
            rw (unused, next)
              (omega (
                arith,
                add_exceptions-weight n (w + 1) exceptions exception_size (omega (arith, le)),
                rw none_of at step,
              ))
        | inr used ↦
            rw (used, next)
              (omega (
                arith,
                add_exceptions-weight n (w + 1) (exceptions + value_at histogram (w + 1))
                    (exception_size
                      + value_at histogram (w + 1) * (1 + varint_len_for_bits (w + 1)))
                    (omega (arith, le)),
                rw (← count) at step,
              ))
      ]

  -- A plan that costs what it writes, and not more than the varints.
  abbrev Costs : DocPlan → ℕ → ℕ → Type 0
  Costs plan cost bound = (length (doc_channel_bytes deltas plan) ≡ cost) × (cost ≤ bound)

  module _ (width_max bound : ℕ) (wide : width_max ≤ 32)
      (none_above : exceeding width_max deltas ≡ 0) where
    try_widths-Costs :
        (n width : ℕ) (best_plan : DocPlan) (best_cost : ℕ)
        → 1 ≤ width
        → width + n ≤ width_max
        → Costs best_plan best_cost bound
        → (let (plan, cost) =
              try_widths n histogram (length deltas) width_max width best_plan best_cost in
            Costs plan cost bound)
    unfolding try_widths
    try_widths-Costs zero width best_plan best_cost low le costs = costs
    try_widths-Costs (suc n) width best_plan best_cost low le costs =
        let found = add_exceptions (width_max - width) histogram (width + 1) 0 0 in
        let cost = 2 + packed_len (length deltas) width + found.1 in
        elim (Bool-cases (ltb cost best_cost)) [
          | inr same ↦ rw same (
              try_widths-Costs n (width + 1) best_plan best_cost (omega arith) (omega (arith, le))
                costs)
          | inl better ↦
              let all_widths : width + (width_max - width) ≡ width_max = omega (arith, le) in
              let weighed =
                rw all_widths at
                  (add_exceptions-weight (width_max - width) width 0 0 (omega (arith, le, wide))) in
              let split = take_exceptions-Split width 0 deltas h in
              let size = length-packed_bytes width (kept width 0 deltas) split.below in
              rw better (
                try_widths-Costs n (width + 1) (patched width found.0) cost (omega arith)
                  (omega (arith, le))
                  (
                    omega (
                      arith,
                      length-append (packed_bytes width (kept width 0 deltas))
                          (exception_bytes (listed width 0 deltas)),
                      rw split.size at size,
                      length-exception_bytes width 0 deltas h,
                      weighed,
                      weight-exceeding width_max deltas none_above,
                    ),
                    omega (arith, ltb→lt cost best_cost better, costs.1),
                  ))
        ]

    plan_widths-Costs :
        1 ≤ width_max
        → Costs varint bound bound
        → length (doc_channel_bytes deltas (plan_widths histogram (length deltas) bound width_max))
          ≤ bound
    unfolding plan_widths
    plan_widths-Costs low plain =
        let best = try_widths (width_max - 1) histogram (length deltas) width_max 1 varint bound in
        let (written, le) =
          try_widths-Costs (width_max - 1) 1 varint bound (omega arith) (omega (arith, low))
            plain in
        let size =
          length-packed_bytes width_max deltas (exceeding-AllBelow width_max deltas none_above) in
        elim (Bool-cases (ltb (1 + packed_len (length deltas) width_max) best.1)) [
          | inl cheaper ↦ rw cheaper (
              omega
                (arith, size, le, ltb→lt (1 + packed_len (length deltas) width_max) best.1 cheaper))
          | inr kept_plan ↦ rw kept_plan (omega (arith, written, le))
        ]

  pub plan_doc_channel-cost :
      length (
        doc_channel_bytes deltas
          (plan_doc_channel histogram (length deltas) (length (varints_bytes deltas))))
      ≤ length (varints_bytes deltas)
  unfolding plan_doc_channel
  plan_doc_channel-cost =
      let bound = length (varints_bytes deltas) in
      elim (length deltas == 0)
        as (λ empty.
          length (
            doc_channel_bytes deltas (elim empty [
              | true ↦ varint
              | false ↦ elim (find_width 32 histogram) [
                | none ↦ varint
                | some width_max ↦ plan_widths histogram (length deltas) bound width_max
              ]
            ]))
          ≤ bound) [ true ↦ omega arith | false ↦ by_widest (find_width 32 histogram) refl ]
    where
      by_widest :
          (widest : Option ℕ)
          → find_width 32 histogram ≡ widest
          → length (
              doc_channel_bytes deltas (elim widest [
                | none ↦ varint
                | some width_max ↦
                    plan_widths histogram (length deltas) (length (varints_bytes deltas)) width_max
              ]))
            ≤ length (varints_bytes deltas)
      by_widest none e = omega arith
      by_widest (some width_max) e =
          let (low, high, none_above, some_at) =
            find_width-widest histogram deltas h counts 32 (omega arith)
              (AllBelow-exceeding 32 deltas h) e in
          plan_widths-Costs width_max (length (varints_bytes deltas)) high none_above low
            (refl, omega arith)

-- The cost of the varints, as the encoder adds it up.
collect_deltas-cost :
    (found : Deltas) (doc_ids : List ℕ)
    → AllBelow 32 (gaps doc_ids)
    → (collect_deltas found doc_ids).varint_cost
      ≡ found.varint_cost + length (varints_bytes (gaps doc_ids))
unfolding collect_deltas
collect_deltas-cost found [] h = omega arith
collect_deltas-cost found (doc_id ∷ []) h = omega arith
collect_deltas-cost found (doc_id ∷ next ∷ doc_ids) (hd, h) =
    let delta = next - doc_id in
    let bits = bit_width delta in
    collect_deltas-cost
      record {
        histogram = add_one found.histogram bits;
        varint_cost = found.varint_cost + varint_len_for_bits bits;
        scratch = found.scratch ++ delta ∷ [];
      }
      (next ∷ doc_ids) h
    ∙ omega (
      arith,
      length-varint delta hd,
      length-append (groups 5 delta) (varints_bytes (gaps (next ∷ doc_ids))),
    )

length-gaps_le : (doc_ids : List ℕ) → length (gaps doc_ids) ≤ length doc_ids - 1
length-gaps_le [] = omega arith
length-gaps_le (doc_id ∷ doc_ids) = omega (arith, length-gaps doc_id doc_ids)

-- For a chunk of at most 256 doc ids of 32 bits, the deltas written by the plan that the encoder
-- chooses from its histogram take no more bytes than a varint for each delta.
pub write_doc_channel-le :
    (out doc_ids : List ℕ)
    → AllU32 doc_ids
    → length doc_ids ≤ 256
    → (let found = collect_deltas no_deltas doc_ids in
        length (
          write_doc_channel out found.scratch
            (plan_doc_channel found.histogram (length found.scratch) found.varint_cost))
        ≤ length (write_varints out found.scratch))
write_doc_channel-le out doc_ids h short =
    let found = collect_deltas no_deltas doc_ids in
    let deltas = gaps doc_ids in
    let below = gaps-AllBelow doc_ids h in
    let cost : found.varint_cost ≡ length (varints_bytes deltas) =
      collect_deltas-cost no_deltas doc_ids below ∙ omega arith in
    let few : length deltas < 256 = omega (arith, short, length-gaps_le doc_ids) in
    let fits = chunk_PlanFits doc_ids below (length deltas) (length (varints_bytes deltas)) in
    let bytes =
      doc_channel_bytes deltas
        (plan_doc_channel found.histogram (length deltas) (length (varints_bytes deltas))) in
    rw
      (
        cost,
        chunk_deltas doc_ids below,
        write_doc_channel-bytes out deltas _ fits below few,
        write_varints-varints_bytes out deltas below,
      )
      (omega (
        arith,
        length-append out bytes,
        length-append out (varints_bytes deltas),
        plan_doc_channel-cost found.histogram deltas below (chunk-Counts doc_ids below),
      ))
