-- ===== src/Postings/BlockPlan.antt =====
-- How crates/surch-codec/src/postings_block.rs chooses the coding of a block's doc ids: by the exact
-- cost of each candidate, from a histogram of the widths of the deltas.
use surch.Base.{ℕ, zero, suc, ◌+◌, ◌-◌, ◌*◌, ltb, ◌==◌, if◌then◌else◌, true, false}
use surch.Base.{List, [], ◌∷◌, ◌++◌, Option, none, some}
use surch.Postings.Packing.{bit_width, varint_len_for_bits, packed_len, zeros}

pub data DocPlan : Type 0 where
  varint : DocPlan
  packed : (width : ℕ) → DocPlan
  patched : (width exceptions : ℕ) → DocPlan

-- `values[index]`, an index that the array has, and `histogram[bits] += 1`
unfoldable pub value_at : List ℕ → ℕ → ℕ
value_at [] index = 0
value_at (value ∷ values) zero = value
value_at (value ∷ values) (suc index) = value_at values index

unfoldable pub add_one : List ℕ → ℕ → List ℕ
add_one [] bits = []
add_one (count ∷ counts) zero = (count + 1) ∷ counts
add_one (count ∷ counts) (suc bits) = count ∷ add_one counts bits

-- What the loop over the pairs of neighbours has collected.
pub record Deltas : Type 0 where
  pub histogram : List ℕ
  pub varint_cost : ℕ
  pub scratch : List ℕ

unfoldable pub collect_deltas : Deltas → List ℕ → Deltas
unfolding add_one
collect_deltas found [] = found
collect_deltas found (doc_id ∷ []) = found
collect_deltas found (doc_id ∷ next ∷ doc_ids) =
    let delta = next - doc_id in
    let bits = bit_width delta in
    collect_deltas
      record {
        histogram = add_one found.histogram bits;
        varint_cost = found.varint_cost + varint_len_for_bits bits;
        scratch = found.scratch ++ delta ∷ [];
      }
      (next ∷ doc_ids)

-- `[0usize; 33]` and no deltas
abbrev pub no_deltas : Deltas
no_deltas = record { histogram = zeros 33; varint_cost = 0; scratch = [] }

-- The widest width that occurs, of `width` at most.
unfoldable pub find_width : ℕ → List ℕ → Option ℕ
unfolding value_at
find_width zero histogram = none
find_width (suc width) histogram =
    let narrower = find_width width histogram in
    if ltb 0 (value_at histogram (suc width)) then some (suc width) else narrower

-- The exceptions of `n` widths from `bits` on, and the bytes that they take.
unfoldable pub add_exceptions : ℕ → List ℕ → ℕ → ℕ → ℕ → ℕ × ℕ
unfolding value_at
add_exceptions zero histogram bits exceptions exception_bytes = (exceptions, exception_bytes)
add_exceptions (suc n) histogram bits exceptions exception_bytes =
    let count = value_at histogram bits in
    let skipped = add_exceptions n histogram (bits + 1) exceptions exception_bytes in
    let added =
      add_exceptions n histogram (bits + 1) (exceptions + count)
        (exception_bytes + count * (1 + varint_len_for_bits bits)) in
    if count == 0 then skipped else added

-- The loop over `n` widths from `width` on: the best plan and its cost.
unfoldable pub try_widths : ℕ → List ℕ → ℕ → ℕ → ℕ → DocPlan → ℕ → DocPlan × ℕ
unfolding add_exceptions
try_widths zero histogram delta_count width_max width best_plan best_cost = (best_plan, best_cost)
try_widths (suc n) histogram delta_count width_max width best_plan best_cost =
    let (exceptions, exception_bytes) =
      add_exceptions (width_max - width) histogram (width + 1) 0 0 in
    let cost = 2 + packed_len delta_count width + exception_bytes in
    let better =
      try_widths n histogram delta_count width_max (width + 1) (patched width exceptions) cost in
    let kept = try_widths n histogram delta_count width_max (width + 1) best_plan best_cost in
    if ltb cost best_cost then better else kept

-- The plan when `width_max` is the widest width.
unfoldable pub plan_widths : List ℕ → ℕ → ℕ → ℕ → DocPlan
unfolding try_widths
plan_widths histogram delta_count varint_cost width_max =
    let (best_plan, best_cost) =
      try_widths (width_max - 1) histogram delta_count width_max 1 varint varint_cost in
    let packed_cost = 1 + packed_len delta_count width_max in
    if ltb packed_cost best_cost then packed width_max else best_plan

unfoldable pub plan_doc_channel : List ℕ → ℕ → ℕ → DocPlan
unfolding find_width plan_widths
plan_doc_channel histogram delta_count varint_cost = elim (delta_count == 0) [
  | true ↦ varint
  | false ↦ elim (find_width 32 histogram) [
    | none ↦ varint
    | some width_max ↦ plan_widths histogram delta_count varint_cost width_max
  ]
]
