-- ===== src/Fuzzy/Bounds.antt =====
-- What `bounded_damerau_levenshtein` of crates/surch-search/src/fuzzy.rs answers: its shortcuts
-- change nothing.
use surch.Base.{
  ℕ, zero, suc, ◌+◌, ◌≤◌, ◌≡◌, refl, arith, ltb, leb, if◌then◌else◌, min, Bool, true, false,
}
use surch.Base.{
  List, length, Option, none, some, ok, ==_refl, le→ltb, lt→leb, le→leb, Bool-cases, inl, inr,
  ltb→lt,
}
use surch.Codec.{bytes_eq}
use surch.Codec.Header.{bytes_eq-eq}
use surch.Fuzzy.Defs.{at, abs_diff, bounded_damerau_levenshtein, FuzzyResult}
use surch.Fuzzy.Distance.{distance, damerau_levenshtein_chars-distance}

-- What a distance between prefixes of these lengths is at least.
abbrev IsLower : ℕ → ℕ → ℕ → Type 0
IsLower i j d = (i ≤ d + j) × (j ≤ d + i)

-- The three ways to extend an alignment keep it.
three-IsLower :
    (i j above before corner cost : ℕ)
    → IsLower i (suc j) above
    → IsLower (suc i) j before
    → IsLower i j corner
    → IsLower (suc i) (suc j) (min (min (above + 1) (before + 1)) (corner + cost))
three-IsLower i j above before corner cost (h1, h2) (h3, h4) (h5, h6) = (omega arith, omega arith)

-- So does a swap.
swap-IsLower :
    (swapped : Bool) (i j plain corner : ℕ)
    → IsLower (suc (suc i)) (suc (suc j)) plain
    → IsLower i j corner
    → IsLower (suc (suc i)) (suc (suc j)) (if swapped then min plain (corner + 1) else plain)
swap-IsLower true i j plain corner (h1, h2) (h3, h4) = (omega arith, omega arith)
swap-IsLower false i j plain corner h k = h

module _ (left right : List ℕ) (transpositions : Bool) where
  -- The distance is at least the difference of the lengths.
  distance-IsLower : (i j : ℕ) → IsLower i j (distance left right transpositions i j)
  unfolding distance
  distance-IsLower zero j = (omega arith, omega arith)
  distance-IsLower (suc i) zero = (omega arith, omega arith)
  distance-IsLower (suc zero) (suc j) =
      three-IsLower zero j _ _ _ _ (distance-IsLower zero (suc j)) (distance-IsLower (suc zero) j)
        (distance-IsLower zero j)
  distance-IsLower (suc (suc i)) (suc zero) =
      three-IsLower (suc i) zero _ _ _ _ (distance-IsLower (suc i) (suc zero))
        (distance-IsLower (suc (suc i)) zero) (distance-IsLower (suc i) zero)
  distance-IsLower (suc (suc i)) (suc (suc j)) =
      swap-IsLower _ i j _ _
        (three-IsLower (suc i) (suc j) _ _ _ _ (distance-IsLower (suc i) (suc (suc j)))
          (distance-IsLower (suc (suc i)) (suc j)) (distance-IsLower (suc i) (suc j)))
        (distance-IsLower i j)

distance_self :
    (text : List ℕ) (transpositions : Bool) (i : ℕ) → distance text text transpositions i i ≡ 0
unfolding distance
distance_self text transpositions zero = refl
distance_self text transpositions (suc zero) = rw (==_refl (at text 0)) (omega arith)
distance_self text transpositions (suc (suc i)) =
    rw (distance_self text transpositions (suc i), ==_refl (at text (suc i))) (ground arith)

-- The answer of the bounded search for a given distance.
abbrev pub within : ℕ → ℕ → Option ℕ
within max_edits d = if leb d max_edits then some d else none

within-zero :
    (max_edits : ℕ) → ◌≡◌ {A = FuzzyResult (Option ℕ)} (ok (some 0)) (ok (within max_edits 0))
within-zero max_edits = rw (le→leb 0 max_edits (omega arith)) refl

-- Up to two edits, the bounded search answers with the optimal string alignment distance if it is
-- at most the bound, and with none otherwise: the shortcuts for equal texts and for texts whose
-- lengths differ too much change nothing.
pub bounded_damerau_levenshtein-distance :
    (left right : List ℕ) (max_edits : ℕ) (transpositions : Bool)
    → max_edits ≤ 2
    → bounded_damerau_levenshtein left right max_edits transpositions
      ≡ ok (within max_edits (distance left right transpositions (length left) (length right)))
unfolding bounded_damerau_levenshtein
bounded_damerau_levenshtein-distance left right max_edits transpositions few =
    let full = damerau_levenshtein_chars-distance left right transpositions in
    let d = distance left right transpositions (length left) (length right) in
    let low = distance-IsLower left right transpositions (length left) (length right) in
    rw (le→ltb 2 max_edits few, full)
      (elim (Bool-cases (bytes_eq left right)) [
        | inl same ↦ rw (same, nothing (bytes_eq-eq left right same)) (within-zero max_edits)
        | inr differ ↦
            rw differ (elim (Bool-cases (ltb max_edits (abs_diff (length left) (length right)))) [
              | inl far ↦
                  rw
                    (
                      far,
                      lt→leb d max_edits (
                          omega (
                            arith,
                            low,
                            ltb→lt max_edits (abs_diff (length left) (length right)) far,
                          )),
                    )
                    refl
              | inr near ↦ rw near (ground arith)
            ])
      ])
  where
    nothing : left ≡ right → distance left right transpositions (length left) (length right) ≡ 0
    nothing e = rw (← e) (distance_self left transpositions (length left))
