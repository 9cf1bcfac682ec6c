-- ===== src/Fuzzy/Ranking.antt =====
-- The order in which `expand_fuzzy_terms` of crates/surch-search/src/fuzzy.rs returns its matches,
-- and what its sort and its truncation keep.
use surch.Base.{
  ℕ, zero, suc, ◌<◌, ◌≡◌, refl, ap, arith, ltb, ◌==◌, Bool, true, false, Bool-cases, ◌⊎◌, inl, inr,
  ltb→lt, ==_iff,
}
use surch.Base.{List, [], ◌∷◌, length, take, take-All, All, All-map}
use mathlib.Core.List.{Mem, mem-cons_self, mem-cons_of_mem}
use surch.Segments.Store.{sort_by, insert_by, name_le}
use surch.Fuzzy.Defs.{FuzzyTermMatch, match_le}

-- The lexicographic order of texts.
abbrev pub LexLe : List ℕ → List ℕ → Type 0
LexLe [] ys = Unit
LexLe (x ∷ xs) [] = ⊥
LexLe (x ∷ xs) (y ∷ ys) = (x < y) ⊎ ((x ≡ y) × LexLe xs ys)

-- Fewer edits come first; of equally many, the term that is lexicographically not greater.
abbrev pub Before : FuzzyTermMatch → FuzzyTermMatch → Type 0
Before a b = (a.term_edits < b.term_edits) ⊎ ((a.term_edits ≡ b.term_edits) × LexLe a.term b.term)

-- Every match comes before all later ones.
abbrev pub IsRanked : List FuzzyTermMatch → Type 0
IsRanked [] = Unit
IsRanked (m ∷ ms) = All (Before m) ms × IsRanked ms

-- A match is among `ms`, or these are `limit` matches that come before it.
abbrev pub IsKept : ℕ → List FuzzyTermMatch → FuzzyTermMatch → Type 0
IsKept limit ms m = Mem m ms ⊎ ((length ms ≡ limit) × All (λ kept. Before kept m) ms)

LexLe-trans : (xs ys zs : List ℕ) → LexLe xs ys → LexLe ys zs → LexLe xs zs
LexLe-trans [] ys zs h k = tt
LexLe-trans (x ∷ xs) [] zs h k = elim h [ ]
LexLe-trans (x ∷ xs) (y ∷ ys) [] h k = elim k [ ]
LexLe-trans (x ∷ xs) (y ∷ ys) (z ∷ zs) (inl h) (inl k) = inl (omega arith)
LexLe-trans (x ∷ xs) (y ∷ ys) (z ∷ zs) (inl h) (inr (e, k)) = inl (omega arith)
LexLe-trans (x ∷ xs) (y ∷ ys) (z ∷ zs) (inr (e, h)) (inl k) = inl (omega arith)
LexLe-trans (x ∷ xs) (y ∷ ys) (z ∷ zs) (inr (e, h)) (inr (f, k)) =
    inr (omega arith, LexLe-trans xs ys zs h k)

name_le-LexLe : (xs ys : List ℕ) → name_le xs ys ≡ true → LexLe xs ys
name_le-LexLe [] ys e = tt
name_le-LexLe (x ∷ xs) [] e = cc
name_le-LexLe (x ∷ xs) (y ∷ ys) e = elim (Bool-cases (ltb x y)) [
  | inl less ↦ inl (ltb→lt x y less)
  | inr not_less ↦ elim (Bool-cases (x == y)) [
    | inl same ↦ inr ((==_iff x y).0 same, name_le-LexLe xs ys (rw (not_less, same) at e))
    | inr differ ↦ absurd (ground (arith, e, not_less, differ))
  ]
]

not-name_le-LexLe : (xs ys : List ℕ) → name_le xs ys ≡ false → LexLe ys xs
not-name_le-LexLe [] ys e = cc
not-name_le-LexLe (x ∷ xs) [] e = tt
not-name_le-LexLe (x ∷ xs) (y ∷ ys) e = elim (Bool-cases (ltb x y)) [
  | inl less ↦ absurd (ground (arith, e, less))
  | inr not_less ↦ elim (Bool-cases (x == y)) [
    | inl same ↦
        let equal = (==_iff x y).0 same in
        inr (omega (arith, equal), not-name_le-LexLe xs ys (rw (not_less, same) at e))
    | inr differ ↦ inl (ground (arith, not_less, differ))
  ]
]

Before-trans : (a b c : FuzzyTermMatch) → Before a b → Before b c → Before a c
Before-trans a b c (inl h) (inl k) = inl (omega arith)
Before-trans a b c (inl h) (inr (e, k)) = inl (omega arith)
Before-trans a b c (inr (e, h)) (inl k) = inl (omega arith)
Before-trans a b c (inr (e, h)) (inr (f, k)) =
    inr (omega arith, LexLe-trans a.term b.term c.term h k)

match_le-Before : (a b : FuzzyTermMatch) → match_le a b ≡ true → Before a b
match_le-Before a b e = elim (Bool-cases (ltb a.term_edits b.term_edits)) [
  | inl less ↦ inl (ltb→lt a.term_edits b.term_edits less)
  | inr not_less ↦ elim (Bool-cases (a.term_edits == b.term_edits)) [
    | inl same ↦ inr (
      (==_iff a.term_edits b.term_edits).0 same,
      name_le-LexLe a.term b.term (rw (not_less, same) at e),
    )
    | inr differ ↦ absurd (ground (arith, e, not_less, differ))
  ]
]

not-match_le-Before : (a b : FuzzyTermMatch) → match_le a b ≡ false → Before b a
not-match_le-Before a b e = elim (Bool-cases (ltb a.term_edits b.term_edits)) [
  | inl less ↦ absurd (ground (arith, e, less))
  | inr not_less ↦ elim (Bool-cases (a.term_edits == b.term_edits)) [
    | inl same ↦
        let equal = (==_iff a.term_edits b.term_edits).0 same in
        inr (omega (arith, equal), not-name_le-LexLe a.term b.term (rw (not_less, same) at e))
    | inr differ ↦ inl (ground (arith, not_less, differ))
  ]
]

module _ {ℓ} {A : Type 0} (P : A → Type ℓ) (le : A → A → Bool) where
  insert_by-All : (x : A) (xs : List A) → P x → All P xs → All P (insert_by le x xs)
  unfolding insert_by
  insert_by-All x [] h hs = (h, tt)
  insert_by-All x (y ∷ ys) h (k, ks) = elim (Bool-cases (le x y)) [
    | inl e ↦ rw e (h, (k, ks))
    | inr e ↦ rw e (k, insert_by-All x ys h ks)
  ]

  pub sort_by-All : (xs : List A) → All P xs → All P (sort_by le xs)
  unfolding sort_by
  sort_by-All [] hs = tt
  sort_by-All (x ∷ xs) (h, hs) = insert_by-All x (sort_by le xs) h (sort_by-All xs hs)

  -- What was put in is there, with all the others.
  All-insert_by : (x : A) (xs : List A) → All P (insert_by le x xs) → P x × All P xs
  unfolding insert_by
  All-insert_by x [] (h, hs) = (h, hs)
  All-insert_by x (y ∷ ys) h = elim (Bool-cases (le x y)) [
    | inl e ↦ rw e at h
    | inr e ↦
        let both : P y × All P (insert_by le x ys) = rw e at h in
        let rest = All-insert_by x ys both.1 in (rest.0, (both.0, rest.1))
  ]

  pub All-sort_by : (xs : List A) → All P (sort_by le xs) → All P xs
  unfolding sort_by
  All-sort_by [] h = tt
  All-sort_by (x ∷ xs) h =
      let both = All-insert_by x (sort_by le xs) h in (both.0, All-sort_by xs both.1)

insert_by-IsRanked :
    (m : FuzzyTermMatch) (ms : List FuzzyTermMatch)
    → IsRanked ms
    → IsRanked (insert_by match_le m ms)
unfolding insert_by
insert_by-IsRanked m [] h = (tt, tt)
insert_by-IsRanked m (first ∷ ms) (above, h) = elim (Bool-cases (match_le m first)) [
  | inl e ↦
      let front = match_le-Before m first e in
      rw e
        ((front, All-map _ _ ms (λ later b. Before-trans m first later front b) above), (above, h))
  | inr e ↦ rw e (
    insert_by-All (Before first) match_le m ms (not-match_le-Before m first e) above,
    insert_by-IsRanked m ms h,
  )
]

pub sort_by-IsRanked : (ms : List FuzzyTermMatch) → IsRanked (sort_by match_le ms)
unfolding sort_by
sort_by-IsRanked [] = tt
sort_by-IsRanked (m ∷ ms) = insert_by-IsRanked m (sort_by match_le ms) (sort_by-IsRanked ms)

pub take-IsRanked : (limit : ℕ) (ms : List FuzzyTermMatch) → IsRanked ms → IsRanked (take limit ms)
take-IsRanked zero ms h = tt
take-IsRanked (suc n) [] h = tt
take-IsRanked (suc n) (m ∷ ms) (above, h) = (take-All (Before m) n ms above, take-IsRanked n ms h)

-- A truncation keeps each match, or a full list of matches before it.
pub take-IsKept :
    (limit : ℕ) (ms : List FuzzyTermMatch) → IsRanked ms → All (IsKept limit (take limit ms)) ms
take-IsKept zero ms h = none_kept ms
  where
    none_kept : (ms : List FuzzyTermMatch) → All (IsKept 0 []) ms
    none_kept [] = tt
    none_kept (m ∷ ms) = (inr (refl, tt), none_kept ms)
take-IsKept (suc n) [] h = tt
take-IsKept (suc n) (m ∷ ms) (above, h) = (inl mem-cons_self, behind ms above (take-IsKept n ms h))
  where
    behind_one :
        (later : FuzzyTermMatch)
        → Before m later
        → IsKept n (take n ms) later
        → IsKept (suc n) (m ∷ take n ms) later
    behind_one later b (inl found) = inl (mem-cons_of_mem m found)
    behind_one later b (inr (full, before)) = inr (ap suc full, (b, before))

    behind :
        (others : List FuzzyTermMatch)
        → All (Before m) others
        → All (IsKept n (take n ms)) others
        → All (IsKept (suc n) (m ∷ take n ms)) others
    behind [] above kept = tt
    behind (other ∷ others) (b, above) (k, kept) = (behind_one other b k, behind others above kept)
