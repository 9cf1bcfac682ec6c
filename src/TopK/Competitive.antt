-- ===== src/TopK/Competitive.antt =====
-- The order of scored documents and the competitive threshold of crates/surch-search/src/topk.rs. The
-- arithmetic of `f64` is a parameter: finite scores, compared as some ranks are.
use surch.Base.{ℕ, ◌≤◌, ◌<◌, ◌≡◌, refl, ◌∙◌, arith}
use surch.Base.{◌≢◌, ltb, ◌==◌, if◌then◌else◌, Bool, true, false, Bool-cases, inl, inr}
use surch.Base.{length, Option, none, some}
use surch.TopK.Collector.{TopN, is_less, push_full, push, worst_when_full}
use surch.TopK.Insertion.{IsOrder}
use Prim.Native.Nat.{Ordering, compare}

-- Finite floating-point numbers: `partial_cmp` answers for all of them, and orders them totally.
pub record FiniteScores (Score : Type 0) : Type 0 where
  pub partial_cmp : Score → Score → Option Ordering
  pub rank : Score → ℕ
  pub ranked : (a b : Score) → partial_cmp a b ≡ some (compare (rank a) (rank b))

-- `Ordering::then_with`, and `unwrap_or(Ordering::Equal)`
abbrev pub then_with : Ordering → Ordering → Ordering
then_with Ordering.eq other = other
then_with first other = first

abbrev pub or_equal : Option Ordering → Ordering
or_equal (some ordering) = ordering
or_equal none = Ordering.eq

-- `>` of two floating-point numbers
abbrev pub is_greater : Option Ordering → Bool
is_greater (some Ordering.gt) = true
is_greater _ = false

pub record MinCompetitiveScore (Score : Type 0) : Type 0 where
  pub kth_best : Option Score

module _ {Score : Type 0} (scores : FiniteScores Score) where
  unfoldable pub scored_pair_ordering : Score × ℕ → Score × ℕ → Ordering
  scored_pair_ordering (a_score, a_id) (b_score, b_id) =
      then_with (or_equal (scores.partial_cmp b_score a_score)) (compare a_id b_id)

  unfoldable pub unset : MinCompetitiveScore Score
  unset = record { kth_best = none }

  unfoldable pub observe_kth_best : MinCompetitiveScore Score → Score → MinCompetitiveScore Score
  observe_kth_best threshold kth_best_score = record { kth_best = some kth_best_score }

  unfoldable pub admits : MinCompetitiveScore Score → Score → Bool
  admits threshold score_upper_bound = elim threshold.kth_best [
    | none ↦ true
    | some kth_best ↦ is_greater (scores.partial_cmp score_upper_bound kth_best)
  ]

  unfoldable pub is_armed : MinCompetitiveScore Score → Bool
  is_armed threshold = elim threshold.kth_best [ none ↦ false | some kth_best ↦ true ]

  -- The order of the pairs, by ranks.
  abbrev rank_order : ℕ × ℕ → ℕ × ℕ → Bool
  rank_order (a_rank, a_id) (b_rank, b_id) =
      if ltb b_rank a_rank then true else if ltb a_rank b_rank then false else ltb a_id b_id

  is_less-ranks :
      (a b : Score × ℕ)
      → is_less (scored_pair_ordering a b)
        ≡ rank_order (scores.rank a.0, a.1) (scores.rank b.0, b.1)
  unfolding scored_pair_ordering
  is_less-ranks a b = rw (scores.ranked b.0 a.0) (ground arith)

  pub scored_pair_ordering-IsOrder : IsOrder scored_pair_ordering
  scored_pair_ordering-IsOrder = record {
    asymmetric = λ a b less. is_less-ranks b a ∙ ground (arith, rw (is_less-ranks a b) at less);
    not_less_trans = λ a b c ab bc.
        is_less-ranks a c
        ∙ ground (arith, rw (is_less-ranks a b) at ab, rw (is_less-ranks b c) at bc);
  }

  not_admitted-rank :
      (threshold : MinCompetitiveScore Score) (kth_best bound : Score)
      → admits (observe_kth_best threshold kth_best) bound ≡ false
      → scores.rank bound ≤ scores.rank kth_best
  unfolding admits observe_kth_best
  not_admitted-rank threshold kth_best bound e = ranks (rw (scores.ranked bound kth_best) at e)
    where
      ranks :
          is_greater (some (compare (scores.rank bound) (scores.rank kth_best))) ≡ false
          → scores.rank bound ≤ scores.rank kth_best
      ranks e = ground (arith, e)

  worst_when_full-push :
      (top : TopN (Score × ℕ)) (item worst : Score × ℕ)
      → worst_when_full scored_pair_ordering top ≡ some worst
      → is_less (scored_pair_ordering item worst) ≡ false
      → push scored_pair_ordering top item ≡ top
  unfolding worst_when_full push push_full
  worst_when_full-push top item worst full not_less = elim (Bool-cases (top.capacity == 0)) [
    | inl zero_capacity ↦ rw zero_capacity refl
    | inr some_capacity ↦ elim (Bool-cases (ltb (length top.buffer) top.capacity)) [
      | inl room ↦ absurd (nothing_full (rw (some_capacity, room) at full))
      | inr no_room ↦
          rw (some_capacity, no_room, rw (some_capacity, no_room) at full, not_less) refl
    ]
  ]
    where
      nothing_full : none ≢ some worst
      nothing_full h = cc

  -- When a full collector of scored documents has a worst one, and the threshold that observed its
  -- score does not admit a bound, then a document whose score is not above the bound and whose doc
  -- id is above the one of the worst leaves the collector as it is: to skip it changes nothing.
  -- The scores are finite.
  pub pruned-push :
      (threshold : MinCompetitiveScore Score) (top : TopN (Score × ℕ)) (worst : Score × ℕ)
      (score bound : Score) (doc_id : ℕ)
      → worst_when_full scored_pair_ordering top ≡ some worst
      → scores.rank score ≤ scores.rank bound
      → worst.1 < doc_id
      → admits (observe_kth_best threshold worst.0) bound ≡ false
      → push scored_pair_ordering top (score, doc_id) ≡ top
  pruned-push threshold top worst score bound doc_id full majorant later refused =
      let low = not_admitted-rank threshold worst.0 bound refused in
      worst_when_full-push top (score, doc_id) worst full
        (is_less-ranks (score, doc_id) worst ∙ ground (arith, low, majorant, later))
