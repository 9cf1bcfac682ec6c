-- ===== src/TopK/Insertion.antt =====
-- `TopN` of crates/surch-api/src/topn.rs without a bound: where an item is put among sorted ones, and
-- the list of all items put in their places.
use surch.Base.{ℕ, zero, suc, ◌≡◌, ◌⊎◌, inl, inr, refl, ap}
use surch.Base.{true, false, Bool-cases}
use surch.Base.{List, [], ◌∷◌, ◌++◌, length, take, All-map, All}
use surch.TopK.Collector.{is_less, search_position, insert_at, insert_sorted}
use mathlib.Core.List.{Perm, perm_middle}
use mathlib.Core.List.Perm
use Prim.Native.Nat.{Ordering}

-- An order by a comparator: of two items at most one is less, and what is not less than an item
-- that is not less than a third is not less than the third.
pub record IsOrder {ℓ} {A : Type ℓ} (cmp : A → A → Ordering) : Type ℓ where
  pub asymmetric : (a b : A) → is_less (cmp a b) ≡ true → is_less (cmp b a) ≡ false
  pub not_less_trans :
      (a b c : A)
      → is_less (cmp a b) ≡ false
      → is_less (cmp b c) ≡ false
      → is_less (cmp a c) ≡ false

module _ {ℓ} {A : Type ℓ} (cmp : A → A → Ordering) where
  -- One of the two comes first.
  abbrev pub Comparable : A → A → Type 0
  Comparable a b = (is_less (cmp a b) ≡ true) ⊎ (is_less (cmp b a) ≡ true)

  -- Items of which no two compare as equal.
  abbrev pub Distinct : List A → Type 0
  Distinct [] = Unit
  Distinct (item ∷ items) = All (Comparable item) items × Distinct items

  -- No later item is less.
  abbrev pub Sorted : List A → Type 0
  Sorted [] = Unit
  Sorted (item ∷ items) = All (λ later. is_less (cmp later item) ≡ false) items × Sorted items

  -- The collector without a bound: every item is put in its place.
  unfoldable pub sort_onto : List A → List A → List A
  sort_onto sorted [] = sorted
  sort_onto sorted (item ∷ items) = sort_onto (insert_sorted cmp item sorted) items

  pub insert_sorted_nil : (item : A) → insert_sorted cmp item [] ≡ item ∷ []
  unfolding insert_sorted search_position insert_at
  insert_sorted_nil item = refl

  pub insert_sorted_behind :
      (item first : A) (buffer : List A)
      → is_less (cmp first item) ≡ true
      → insert_sorted cmp item (first ∷ buffer) ≡ first ∷ insert_sorted cmp item buffer
  unfolding insert_sorted search_position insert_at
  insert_sorted_behind item first buffer less = rw less refl

  pub insert_sorted_front :
      (item first : A) (buffer : List A)
      → is_less (cmp first item) ≡ false
      → insert_sorted cmp item (first ∷ buffer) ≡ item ∷ first ∷ buffer
  unfolding insert_sorted search_position insert_at
  insert_sorted_front item first buffer less = rw less refl

  pub insert_sorted-All :
      (P : A → Type 0) (item : A) (buffer : List A)
      → P item
      → All P buffer
      → All P (insert_sorted cmp item buffer)
  insert_sorted-All P item [] h hs = rw (insert_sorted_nil item) (h, tt)
  insert_sorted-All P item (first ∷ buffer) h (hf, hs) =
      elim (Bool-cases (is_less (cmp first item))) [
        | inl less ↦
            rw (insert_sorted_behind item first buffer less)
              (hf, insert_sorted-All P item buffer h hs)
        | inr not_less ↦ rw (insert_sorted_front item first buffer not_less) (h, (hf, hs))
      ]

  pub length-insert_sorted :
      (item : A) (buffer : List A) → length (insert_sorted cmp item buffer) ≡ suc (length buffer)
  length-insert_sorted item [] = rw (insert_sorted_nil item) refl
  length-insert_sorted item (first ∷ buffer) = elim (Bool-cases (is_less (cmp first item))) [
    | inl less ↦
        rw (insert_sorted_behind item first buffer less) (ap suc (length-insert_sorted item buffer))
    | inr not_less ↦ rw (insert_sorted_front item first buffer not_less) refl
  ]

  insert_sorted-perm :
      (item : A) (buffer : List A) → Perm (insert_sorted cmp item buffer) (item ∷ buffer)
  insert_sorted-perm item [] = rw (insert_sorted_nil item) Perm.rfl
  insert_sorted-perm item (first ∷ buffer) = elim (Bool-cases (is_less (cmp first item))) [
    | inl less ↦ rw (insert_sorted_behind item first buffer less) (
        Perm.trans (Perm.cons first (insert_sorted-perm item buffer)) (Perm.swap item first buffer))
    | inr not_less ↦ rw (insert_sorted_front item first buffer not_less) Perm.rfl
  ]

  pub sort_onto-perm : (sorted items : List A) → Perm (sort_onto sorted items) (items ++ sorted)
  unfolding sort_onto
  sort_onto-perm sorted [] = Perm.rfl
  sort_onto-perm sorted (item ∷ items) =
      Perm.trans (sort_onto-perm (insert_sorted cmp item sorted) items) (
        Perm.trans (Perm.append_left items (insert_sorted-perm item sorted))
          (perm_middle items sorted))

  -- An item that is put among the first `n` gets the place that it has among all.
  pub take-insert_sorted :
      (n : ℕ) (item : A) (buffer : List A)
      → take n (insert_sorted cmp item (take n buffer)) ≡ take n (insert_sorted cmp item buffer)
  take-insert_sorted zero item buffer = refl
  take-insert_sorted (suc n) item [] = refl
  take-insert_sorted (suc n) item (first ∷ buffer) = elim (Bool-cases (is_less (cmp first item))) [
    | inl less ↦
        rw
          (
            insert_sorted_behind item first (take n buffer) less,
            insert_sorted_behind item first buffer less,
          )
          (ap (λ l. first ∷ l) (take-insert_sorted n item buffer))
    | inr not_less ↦
        rw
          (
            insert_sorted_front item first (take n buffer) not_less,
            insert_sorted_front item first buffer not_less,
          )
          (ap (λ l. item ∷ l) (take_suc n first buffer))
  ]
    where
      take-take_suc : (n : ℕ) (xs : List A) → take n (take (suc n) xs) ≡ take n xs
      take-take_suc zero xs = refl
      take-take_suc (suc n) [] = refl
      take-take_suc (suc n) (x ∷ xs) = ap (λ l. x ∷ l) (take-take_suc n xs)

      take_suc :
          (n : ℕ) (first : A) (buffer : List A)
          → take n (first ∷ take n buffer) ≡ take n (first ∷ buffer)
      take_suc zero first buffer = refl
      take_suc (suc n) first buffer = ap (λ l. first ∷ l) (take-take_suc n buffer)

  module _ (order : IsOrder cmp) where
    pub insert_sorted-Sorted :
        (item : A) (buffer : List A) → Sorted buffer → Sorted (insert_sorted cmp item buffer)
    insert_sorted-Sorted item [] h = rw (insert_sorted_nil item) (tt, tt)
    insert_sorted-Sorted item (first ∷ buffer) (above, h) =
        elim (Bool-cases (is_less (cmp first item))) [
          | inl less ↦ rw (insert_sorted_behind item first buffer less) (
            insert_sorted-All (λ later. is_less (cmp later first) ≡ false) item buffer
                (order.asymmetric first item less) above,
            insert_sorted-Sorted item buffer h,
          )
          | inr not_less ↦ rw (insert_sorted_front item first buffer not_less) (
            (
              not_less,
              All-map _ _ buffer (λ later le. order.not_less_trans later first item le not_less)
                  above,
            ),
            (above, h),
          )
        ]

    pub sort_onto-Sorted : (sorted items : List A) → Sorted sorted → Sorted (sort_onto sorted items)
    unfolding sort_onto
    sort_onto-Sorted sorted [] h = h
    sort_onto-Sorted sorted (item ∷ items) h =
        sort_onto-Sorted (insert_sorted cmp item sorted) items (insert_sorted-Sorted item sorted h)
