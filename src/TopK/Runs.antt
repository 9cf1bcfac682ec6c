-- ===== src/TopK/Runs.antt =====
-- Concrete runs of crates/surch-api/src/topn.rs and crates/surch-search/src/topk.rs.
use surch.Base.{ℕ, ◌≡◌, refl, arith, inl, inr, false, List, [], ◌∷◌, take, some}
use surch.TopK.Collector.{
  TopN, new_top_n, search_position, insert_at, insert_sorted, last, push_full, push, push_all,
  worst_when_full, into_sorted_vec,
}
use surch.TopK.Insertion.{Distinct, Sorted, sort_onto}
use surch.TopK.Bounded.{into_sorted_vec-push_all}
use surch.TopK.Competitive.{FiniteScores, scored_pair_ordering, scored_pair_ordering-IsOrder}
use surch.TopK.Competitive.{unset, observe_kth_best, admits, pruned-push}
use mathlib.Core.List.{Perm}
use Prim.Native.Nat.{compare}

-- Scores that are whole numbers.
abbrev whole_scores : FiniteScores ℕ
whole_scores = record {
  partial_cmp = λ a b. some (compare a b);
  rank = λ a. a;
  ranked = λ a b. refl;
}

abbrev four_hits : List (ℕ × ℕ)
four_hits = (3, 1) ∷ (7, 2) ∷ (3, 4) ∷ (5, 9) ∷ []

-- Of equal scores the lower doc id is the better one.
best_two :
    into_sorted_vec (scored_pair_ordering whole_scores) (
      push_all
        (scored_pair_ordering whole_scores)
        (new_top_n (scored_pair_ordering whole_scores) 3)
        four_hits)
    ≡ (7, 2) ∷ (5, 9) ∷ (3, 1) ∷ []
unfolding into_sorted_vec push_all push new_top_n push_full last insert_sorted search_position
    insert_at scored_pair_ordering
best_two = refl

four_hits-Distinct : Distinct (scored_pair_ordering whole_scores) four_hits
unfolding scored_pair_ordering
four_hits-Distinct = (
  (inr refl, (inl refl, (inr refl, tt))),
  ((inl refl, (inl refl, tt)), ((inr refl, tt), (tt, tt))),
)

into_sorted_vec-push_all_example :
    (into_sorted_vec (scored_pair_ordering whole_scores) (
        push_all
          (scored_pair_ordering whole_scores)
          (new_top_n (scored_pair_ordering whole_scores) 3)
          four_hits)
      ≡ take 3 (sort_onto (scored_pair_ordering whole_scores) [] four_hits))
    × Sorted
        (scored_pair_ordering whole_scores)
        (sort_onto (scored_pair_ordering whole_scores) [] four_hits)
    × Perm (sort_onto (scored_pair_ordering whole_scores) [] four_hits) four_hits
into_sorted_vec-push_all_example =
    into_sorted_vec-push_all (scored_pair_ordering whole_scores)
      (scored_pair_ordering-IsOrder whole_scores) 3 four_hits four_hits-Distinct

abbrev full_top : TopN (ℕ × ℕ)
full_top = record { capacity = 2; buffer = (7, 2) ∷ (5, 9) ∷ [] }

full_worst : worst_when_full (scored_pair_ordering whole_scores) full_top ≡ some (5, 9)
unfolding worst_when_full last
full_worst = refl

not_admitted : admits whole_scores (observe_kth_best whole_scores (unset whole_scores) 5) 5 ≡ false
unfolding admits observe_kth_best
not_admitted = refl

pruned-push_example : push (scored_pair_ordering whole_scores) full_top (4, 11) ≡ full_top
pruned-push_example =
    pruned-push whole_scores (unset whole_scores) full_top (5, 9) 4 5 11 full_worst (omega arith)
      (omega arith) not_admitted
