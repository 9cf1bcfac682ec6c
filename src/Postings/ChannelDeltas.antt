-- ===== src/Postings/ChannelDeltas.antt =====
-- The deltas and the histogram that crates/surch-codec/src/postings_block.rs collects from a chunk.
use surch.Base.{ℕ, zero, suc, ◌+◌, ◌-◌, ◌≤◌, ◌<◌, ◌≡◌, refl, sym, ◌∙◌, arith}
use surch.Base.{◌==◌, if◌then◌else◌}
use surch.Base.{List, [], ◌∷◌, ◌++◌, length}
use surch.SmallFloat.Bucket.{num_bits-le}
use surch.Postings.Packing.{bit_width, varint_len_for_bits, zeros}
use surch.Postings.PackedBits.{AllBelow}
use surch.Postings.BlockPlan.{value_at, add_one, Deltas, collect_deltas, no_deltas}
use surch.Postings.BlockPlan.{plan_doc_channel}
use mathlib.Core.List.{append_assoc, append-nil}
use surch.Postings.ChannelPlan.{Counts, PlanFits, of_width, plan_doc_channel-PlanFits}

-- The distances between neighbours.
abbrev pub gaps : List ℕ → List ℕ
gaps [] = []
gaps (doc_id ∷ []) = []
gaps (doc_id ∷ next ∷ doc_ids) = (next - doc_id) ∷ gaps (next ∷ doc_ids)

value_at-add_one :
    (histogram : List ℕ) (bits i : ℕ)
    → bits < length histogram
    → value_at (add_one histogram bits) i ≡ (if bits == i then 1 else 0) + value_at histogram i
unfolding value_at add_one
value_at-add_one [] bits i lt = absurd (omega (arith, lt))
value_at-add_one (count ∷ counts) zero zero lt = omega arith
value_at-add_one (count ∷ counts) zero (suc i) lt = ground arith
value_at-add_one (count ∷ counts) (suc bits) zero lt = ground arith
value_at-add_one (count ∷ counts) (suc bits) (suc i) lt =
    ground (arith, value_at-add_one counts bits i (omega (arith, lt)))

length-add_one :
    (histogram : List ℕ) (bits : ℕ) → length (add_one histogram bits) ≡ length histogram
unfolding add_one
length-add_one [] bits = refl
length-add_one (count ∷ counts) zero = refl
length-add_one (count ∷ counts) (suc bits) = omega (arith, length-add_one counts bits)

bit_width-le : (v : ℕ) → bit_width v ≤ 32
unfolding bit_width
bit_width-le v = num_bits-le 32 v

-- What the encoder collects from a chunk.
record Collected (found : Deltas) (doc_ids : List ℕ) (after : Deltas) : Type 0 where
  deltas : after.scratch ≡ found.scratch ++ gaps doc_ids
  counted :
      (bits : ℕ)
      → value_at after.histogram bits ≡ of_width bits (gaps doc_ids) + value_at found.histogram bits

collect_deltas-Collected :
    (found : Deltas) (doc_ids : List ℕ)
    → AllBelow 32 (gaps doc_ids)
    → length found.histogram ≡ 33
    → Collected found doc_ids (collect_deltas found doc_ids)
unfolding collect_deltas
collect_deltas-Collected found [] h size = record {
  deltas = sym (append-nil found.scratch);
  counted = λ bits. omega arith;
}
collect_deltas-Collected found (doc_id ∷ []) h size = record {
  deltas = sym (append-nil found.scratch);
  counted = λ bits. omega arith;
}
collect_deltas-Collected found (doc_id ∷ next ∷ doc_ids) (hd, h) size =
    let bits = bit_width (next - doc_id) in
    let rest =
      collect_deltas-Collected
        record {
          histogram = add_one found.histogram bits;
          varint_cost = found.varint_cost + varint_len_for_bits bits;
          scratch = found.scratch ++ (next - doc_id) ∷ [];
        }
        (next ∷ doc_ids) h (length-add_one found.histogram bits ∙ size) in
    record {
      deltas =
          rest.deltas ∙ append_assoc found.scratch ((next - doc_id) ∷ []) (gaps (next ∷ doc_ids));
      counted = λ i.
          rest.counted i
          ∙ omega (
            arith,
            value_at-add_one found.histogram bits i
                (omega (arith, size, bit_width-le (next - doc_id))),
          );
    }

value_at-zeros : (n bits : ℕ) → value_at (zeros n) bits ≡ 0
unfolding value_at zeros
value_at-zeros zero bits = refl
value_at-zeros (suc n) zero = refl
value_at-zeros (suc n) (suc bits) = value_at-zeros n bits

module _ (doc_ids : List ℕ) (h : AllBelow 32 (gaps doc_ids)) where
  chunk_Collected : Collected no_deltas doc_ids (collect_deltas no_deltas doc_ids)
  unfolding zeros
  chunk_Collected = collect_deltas-Collected no_deltas doc_ids h refl

  -- The deltas of a chunk, and a plan for them.
  pub chunk_deltas : (collect_deltas no_deltas doc_ids).scratch ≡ gaps doc_ids
  chunk_deltas = chunk_Collected.deltas

  pub chunk-Counts : Counts (collect_deltas no_deltas doc_ids).histogram (gaps doc_ids)
  chunk-Counts bits le = chunk_Collected.counted bits ∙ omega (arith, value_at-zeros 33 bits)

  pub chunk_PlanFits :
      (delta_count varint_cost : ℕ)
      → PlanFits
          (gaps doc_ids)
          (plan_doc_channel (collect_deltas no_deltas doc_ids).histogram delta_count varint_cost)
  chunk_PlanFits =
      plan_doc_channel-PlanFits (collect_deltas no_deltas doc_ids).histogram (gaps doc_ids) h
        chunk-Counts
