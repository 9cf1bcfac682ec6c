-- ===== src/TopK/Bounded.antt =====
-- The bounded collector of crates/surch-api/src/topn.rs keeps what a collector without a bound
-- would have in front.
use surch.Base.{ℕ, zero, suc, ◌≤◌, ◌≡◌, ◌⊎◌, inl, inr, refl, sym, ap, ◌∙◌, arith}
use surch.Base.{true, false, Bool-cases, lt→ltb, le→ltb, ne→==}
use surch.Base.{List, [], ◌∷◌, length, length-take, take, take-All, All, some}
use surch.TopK.Collector.{
  TopN, is_less, new_top_n, insert_sorted, last, push_full, push, push_all, into_sorted_vec,
}
use mathlib.Core.List.{Perm, append-nil}
use native.Mathlib.Decide.{dec_lt}
use mathlib.Core.Bool.{false≢true}
use mathlib.Core.Path.{subst}
use Prim.Native.Nat.{Ordering}
use surch.TopK.Insertion.{
  IsOrder, Comparable, Distinct, Sorted, sort_onto, insert_sorted_behind, insert_sorted-All,
  length-insert_sorted, take-insert_sorted, insert_sorted-Sorted, sort_onto-Sorted, sort_onto-perm,
}

module _ {ℓ} {A : Type ℓ} (cmp : A → A → Ordering) where
  take_all : (n : ℕ) (xs : List A) → length xs ≤ n → take n xs ≡ xs
  take_all zero [] h = refl
  take_all zero (x ∷ xs) h = absurd (omega (arith, h))
  take_all (suc n) [] h = refl
  take_all (suc n) (x ∷ xs) h = ap (λ l. x ∷ l) (take_all n xs (omega (arith, h)))

  All-last :
      (P : A → Type 0) (buffer : List A) (worst : A)
      → last cmp buffer ≡ some worst
      → All P buffer
      → P worst
  unfolding last
  All-last P [] worst e h = cc
  All-last P (item ∷ []) worst e (h, hs) = subst P (same e) h
    where
      same : {a b : A} → some a ≡ some b → a ≡ b
      same e = cc
  All-last P (item ∷ next ∷ buffer) worst e (h, hs) = All-last P (next ∷ buffer) worst e hs

  last-full : (buffer : List A) → 1 ≤ length buffer → (worst : A) × (last cmp buffer ≡ some worst)
  unfolding last
  last-full [] h = absurd (omega (arith, h))
  last-full (item ∷ []) h = (item, refl)
  last-full (item ∷ next ∷ buffer) h = last-full (next ∷ buffer) (omega arith)

  module _ (order : IsOrder cmp) where
    first_before :
        (item first : A) (buffer : List A) (worst : A)
        → All (λ later. is_less (cmp later first) ≡ false) buffer
        → Comparable cmp item first
        → last cmp (first ∷ buffer) ≡ some worst
        → is_less (cmp item worst) ≡ false
        → is_less (cmp first item) ≡ true
    first_before item first buffer worst above (inr before) e not_less = before
    first_before item first buffer worst above (inl less) e not_less =
        let worst_above : is_less (cmp worst first) ≡ false =
          All-last (λ later. is_less (cmp later first) ≡ false) (first ∷ buffer) worst e
            (irreflexive first (Bool-cases (is_less (cmp first first))), above) in
        absurd
          (false≢true (sym (order.not_less_trans item worst first not_less worst_above) ∙ less))
      where
        irreflexive :
            (a : A)
            → (is_less (cmp a a) ≡ true) ⊎ (is_less (cmp a a) ≡ false)
            → is_less (cmp a a) ≡ false
        irreflexive a (inl less) = order.asymmetric a a less
        irreflexive a (inr not_less) = not_less

    -- An item that is not less than the worst one goes behind all others.
    insert_sorted-worst :
        (item : A) (buffer : List A) (worst : A)
        → Sorted cmp buffer
        → All (Comparable cmp item) buffer
        → last cmp buffer ≡ some worst
        → is_less (cmp item worst) ≡ false
        → take (length buffer) (insert_sorted cmp item buffer) ≡ buffer
    unfolding last
    insert_sorted-worst item [] worst sorted fresh e not_less = refl
    insert_sorted-worst item (first ∷ []) worst (above, sorted) (comparable, fresh) e not_less =
        let before = first_before item first [] worst above comparable e not_less in
        rw (insert_sorted_behind cmp item first [] before) refl
    insert_sorted-worst item (first ∷ next ∷ buffer) worst (above, sorted) (comparable, fresh) e
          not_less =
        let before = first_before item first (next ∷ buffer) worst above comparable e not_less in
        rw (insert_sorted_behind cmp item first (next ∷ buffer) before) (
          ap (λ l. first ∷ l)
            (insert_sorted-worst item (next ∷ buffer) worst sorted fresh e not_less))

    take-Sorted : (n : ℕ) (sorted : List A) → Sorted cmp sorted → Sorted cmp (take n sorted)
    take-Sorted zero sorted h = tt
    take-Sorted (suc n) [] h = tt
    take-Sorted (suc n) (first ∷ sorted) (above, h) = (
      take-All (λ later. is_less (cmp later first) ≡ false) n sorted above,
      take-Sorted n sorted h,
    )

    -- One push keeps the best `capacity` items.
    push-take :
        (capacity : ℕ) (sorted : List A) (item : A)
        → Sorted cmp sorted
        → All (Comparable cmp item) sorted
        → push cmp record { capacity = capacity; buffer = take capacity sorted } item
          ≡ record { capacity = capacity; buffer = take capacity (insert_sorted cmp item sorted) }
    unfolding push push_full
    push-take zero sorted item h fresh = refl
    push-take (suc k) sorted item h fresh = elim (dec_lt (length (take (suc k) sorted)) (suc k)) [
      | yes room ↦
          let short : length sorted ≤ k = omega (arith, room, length-take (suc k) sorted) in
          let all_kept = take_all (suc k) sorted (omega (arith, short)) in
          rw
            (
              ne→== (suc k) 0 (λ e. absurd (omega arith)),
              lt→ltb (length (take (suc k) sorted)) (suc k) room,
            )
            (ap (λ l. record { capacity = suc k; buffer = l })
              (ap (insert_sorted cmp item) all_kept
                ∙ sym (
                    take_all (suc k) (insert_sorted cmp item sorted)
                      (omega (arith, short, length-insert_sorted cmp item sorted)))))
      | no full ↦
          let kept = take (suc k) sorted in
          let size : length kept ≡ suc k = omega (arith, full, length-take (suc k) sorted) in
          let (worst, is_last) = last-full kept (omega (arith, size)) in
          rw
            (
              ne→== (suc k) 0 (λ e. absurd (omega arith)),
              le→ltb (length kept) (suc k) (omega (arith, size)),
              is_last,
            )
            (elim (Bool-cases (is_less (cmp item worst))) [
              | inl better ↦ rw better (
                  ap (λ l. record { capacity = suc k; buffer = l })
                    (take-insert_sorted cmp (suc k) item sorted))
              | inr worse ↦ rw worse (
                  ap (λ l. record { capacity = suc k; buffer = l })
                    (sym (
                        rw size at (
                          insert_sorted-worst item kept worst (take-Sorted (suc k) sorted h)
                            (take-All (Comparable cmp item) (suc k) sorted fresh) is_last worse))
                      ∙ take-insert_sorted cmp (suc k) item sorted))
            ])
    ]

    Comparable-sym : (a b : A) → Comparable cmp a b → Comparable cmp b a
    Comparable-sym a b (inl less) = inr less
    Comparable-sym a b (inr less) = inl less

    push_all-take :
        (capacity : ℕ) (sorted items : List A)
        → Sorted cmp sorted
        → Distinct cmp items
        → All (λ item. All (Comparable cmp item) sorted) items
        → push_all cmp record { capacity = capacity; buffer = take capacity sorted } items
          ≡ record { capacity = capacity; buffer = take capacity (sort_onto cmp sorted items) }
    unfolding push_all sort_onto
    push_all-take capacity sorted [] h distinct fresh = refl
    push_all-take capacity sorted (item ∷ items) h (apart, distinct) (fresh_item, fresh) =
        ap (λ top. push_all cmp top items) (push-take capacity sorted item h fresh_item)
        ∙ push_all-take capacity (insert_sorted cmp item sorted) items
            (insert_sorted-Sorted cmp order item sorted h) distinct (fresh_onto items apart fresh)
      where
        fresh_onto :
            (items : List A)
            → All (Comparable cmp item) items
            → All (λ other. All (Comparable cmp other) sorted) items
            → All (λ other. All (Comparable cmp other) (insert_sorted cmp item sorted)) items
        fresh_onto [] apart fresh = tt
        fresh_onto (other ∷ items) (first_apart, apart) (first_fresh, fresh) = (
          insert_sorted-All cmp (Comparable cmp other) item sorted
              (Comparable-sym item other first_apart) first_fresh,
          fresh_onto items apart fresh,
        )

    -- Under a comparator that orders the items, for items of which no two compare as equal, a new
    -- collector to which all are offered one by one keeps the first ones, as many as its capacity,
    -- of a list that holds exactly the offered items, each as often as it was offered, and in
    -- which no later item is less than an earlier one.
    pub into_sorted_vec-push_all :
        (capacity : ℕ) (items : List A)
        → Distinct cmp items
        → (into_sorted_vec cmp (push_all cmp (new_top_n cmp capacity) items)
            ≡ take capacity (sort_onto cmp [] items))
          × Sorted cmp (sort_onto cmp [] items)
          × Perm (sort_onto cmp [] items) items
    unfolding into_sorted_vec new_top_n
    into_sorted_vec-push_all capacity items distinct = (
      ap (λ (top : TopN A). top.buffer)
          (ap (λ start. push_all cmp record { capacity = capacity; buffer = start } items)
              (sym (take_none capacity))
            ∙ push_all-take capacity [] items tt distinct (none_yet items)),
      sort_onto-Sorted cmp order [] items tt,
      rw append-nil at (sort_onto-perm cmp [] items),
    )
      where
        take_none : (n : ℕ) → take {A = A} n [] ≡ []
        take_none zero = refl
        take_none (suc n) = refl

        none_yet : (items : List A) → All (λ item. All (Comparable cmp item) []) items
        none_yet [] = tt
        none_yet (item ∷ items) = (tt, none_yet items)
