-- ===== src/Fuzzy/Distance.antt =====
-- The table of crates/surch-search/src/fuzzy.rs holds the edit distances of the prefixes.
use surch.Base.{
  ℕ, zero, suc, ◌+◌, ◌-◌, ◌<◌, ◌≡◌, refl, sym, ap, ◌∙◌, arith, ltb, ◌==◌, if◌then◌else◌, min, Bool,
  true, false, ◌&&◌,
}
use surch.Base.{List, [], ◌∷◌, ◌++◌, length, length-append}
use native.Mathlib.Decide.{dec_lt}
use surch.Fuzzy.Defs.{at, row_at, range, cell, fill_row, fill_rows, damerau_levenshtein_chars}

less_one : (n : ℕ) → suc n - 1 ≡ n
less_one n = omega arith

less_two : (n : ℕ) → suc (suc n) - 2 ≡ n
less_two n = omega arith

above_one : (n : ℕ) → ltb 1 (suc (suc n)) ≡ true
above_one n = ground arith

and_true : (b : Bool) → (b && true) ≡ b
and_true true = refl
and_true false = refl

at-append : (xs : List ℕ) (x i : ℕ) → i < length xs → at (xs ++ x ∷ []) i ≡ at xs i
at-append [] x i h = absurd (omega arith)
at-append (y ∷ xs) x zero h = refl
at-append (y ∷ xs) x (suc i) h = at-append xs x i (omega arith)

at-append_length : (xs : List ℕ) (x : ℕ) → at (xs ++ x ∷ []) (length xs) ≡ x
at-append_length [] x = refl
at-append_length (y ∷ xs) x = at-append_length xs x

row_at-append :
    (rows : List (List ℕ)) (row : List ℕ) (i : ℕ)
    → i < length rows
    → row_at (rows ++ row ∷ []) i ≡ row_at rows i
row_at-append [] row i h = absurd (omega arith)
row_at-append (y ∷ rows) row zero h = refl
row_at-append (y ∷ rows) row (suc i) h = row_at-append rows row i (omega arith)

row_at-append_length :
    (rows : List (List ℕ)) (row : List ℕ) → row_at (rows ++ row ∷ []) (length rows) ≡ row
row_at-append_length [] row = refl
row_at-append_length (y ∷ rows) row = row_at-append_length rows row

length-range : (n start : ℕ) → length (range n start) ≡ n
length-range zero start = refl
length-range (suc n) start = ap (λ (m : ℕ). suc m) (length-range n (start + 1))

at-range : (n start j : ℕ) → j < n → at (range n start) j ≡ start + j
at-range zero start j h = absurd (omega arith)
at-range (suc n) start zero h = omega arith
at-range (suc n) start (suc j) h = at-range n (start + 1) j (omega arith) ∙ omega arith

module _ (left right : List ℕ) (transpositions : Bool) where
  -- The cost of a replacement of the character `i` of `left` by the character `j` of `right`.
  abbrev replacement : ℕ → ℕ → ℕ
  replacement i j = if at left i == at right j then 0 else 1

  -- The characters `i`, `i + 1` and `j`, `j + 1` are the same two in the other order.
  abbrev swapped : ℕ → ℕ → Bool
  swapped i j = transpositions && at left (suc i) == at right j && at left i == at right (suc j)

  -- The optimal string alignment distance between the first `i` characters of `left` and the
  -- first `j` of `right`: the fewest deletions, insertions, replacements and, if they count as
  -- one, swaps of neighbours.
  unfoldable pub distance : ℕ → ℕ → ℕ
  distance zero j = j
  distance (suc i) zero = suc i
  distance (suc zero) (suc j) =
      min (min (distance zero (suc j) + 1) (distance (suc zero) j + 1))
        (distance zero j + replacement zero j)
  distance (suc (suc i)) (suc zero) =
      min (min (distance (suc i) (suc zero) + 1) (distance (suc (suc i)) zero + 1))
        (distance (suc i) zero + replacement (suc i) zero)
  distance (suc (suc i)) (suc (suc j)) =
      let plain =
        min (min (distance (suc i) (suc (suc j)) + 1) (distance (suc (suc i)) (suc j) + 1))
          (distance (suc i) (suc j) + replacement (suc i) (suc j)) in
      let swap = distance i j + 1 in if swapped i j then min plain swap else plain

  -- The first `w` entries of the row `i`.
  pub record IsRow (i w : ℕ) (row : List ℕ) : Type 0 where
    pub width : length row ≡ w
    pub entries : (j : ℕ) → j < w → at row j ≡ distance i j

  -- The first `n` rows, of `w` entries each.
  pub record IsTable (n w : ℕ) (rows : List (List ℕ)) : Type 0 where
    pub height : length rows ≡ n
    pub row : (i : ℕ) → i < n → IsRow i w (row_at rows i)

  cell-distance :
      (rows : List (List ℕ)) (row : List ℕ) (w i j : ℕ)
      → IsTable (suc i) w rows
      → IsRow (suc i) (suc j) row
      → suc j < w
      → cell left right transpositions rows row (suc i) (suc j) ≡ distance (suc i) (suc j)
  unfolding cell distance
  cell-distance rows row w zero j table so_far inside = ground (
    arith,
    (table.row zero (omega arith)).entries (suc j) inside,
    (table.row zero (omega arith)).entries j (omega arith),
    so_far.entries j (omega arith),
  )
  cell-distance rows row w (suc i) zero table so_far inside = ground (
    arith,
    (table.row (suc i) (omega arith)).entries (suc zero) inside,
    (table.row (suc i) (omega arith)).entries zero (omega arith),
    so_far.entries zero (omega arith),
  )
  cell-distance rows row w (suc i) (suc j) table so_far inside =
      let above = (table.row (suc i) (omega arith)).entries in
      rw
        (
          less_one (suc i),
          less_one (suc j),
          less_two i,
          less_two j,
          above_one i,
          above_one j,
          above (suc (suc j)) inside,
          above (suc j) (omega arith),
          (table.row i (omega arith)).entries j (omega arith),
          so_far.entries (suc j) (omega arith),
          and_true transpositions,
          and_true transpositions,
        )
        refl

  -- One more entry.
  IsRow-append :
      (i w : ℕ) (row : List ℕ) (x : ℕ)
      → IsRow i w row
      → x ≡ distance i w
      → IsRow i (suc w) (row ++ x ∷ [])
  IsRow-append i w row x ok e = record {
    width = length-append row (x ∷ []) ∙ omega (arith, ok.width);
    entries = λ j h. elim (dec_lt j w) [
      | yes before ↦ at-append row x j (omega (arith, ok.width)) ∙ ok.entries j before
      | no last ↦
          let here : j ≡ length row = omega (arith, ok.width) in
          let end : j ≡ w = omega arith in
          ap (at (row ++ x ∷ [])) here ∙ at-append_length row x ∙ e ∙ ap (distance i) (sym end)
    ];
  }

  -- One more row.
  IsTable-append :
      (n w : ℕ) (rows : List (List ℕ)) (row : List ℕ)
      → IsTable n w rows
      → IsRow n w row
      → IsTable (suc n) w (rows ++ row ∷ [])
  IsTable-append n w rows row table new = record {
    height = length-append rows (row ∷ []) ∙ omega (arith, table.height);
    row = λ i h. elim (dec_lt i n) [
      | yes before ↦
          rw (row_at-append rows row i (omega (arith, table.height))) (table.row i before)
      | no last ↦
          let here : length rows ≡ n = table.height in
          let end : i ≡ n = omega arith in
          rw (end) (rw (← here) (rw (row_at-append_length rows row) (rw here new)))
    ];
  }

  fill_row-IsRow :
      (rows : List (List ℕ)) (i w n j : ℕ) (row : List ℕ)
      → suc j + n ≡ w
      → IsTable (suc i) w rows
      → IsRow (suc i) (suc j) row
      → IsRow (suc i) w (fill_row left right transpositions rows (suc i) n (suc j) row)
  unfolding fill_row
  fill_row-IsRow rows i w zero j row fits table so_far =
      let full : suc j ≡ w = omega (arith, fits) in rw full at so_far
  fill_row-IsRow rows i w (suc n) j row fits table so_far =
      let next : suc j + 1 ≡ suc (suc j) = omega arith in
      let x = cell left right transpositions rows row (suc i) (suc j) in
      rw next (
        fill_row-IsRow rows i w n (suc j) (row ++ x ∷ []) (omega (arith, fits)) table (
          IsRow-append (suc i) (suc j) row x so_far
            (cell-distance rows row w i j table so_far (omega (arith, fits)))))

  first_entry-IsRow : (i : ℕ) → IsRow (suc i) (suc zero) (suc i ∷ [])
  unfolding distance
  first_entry-IsRow i = record { width = refl; entries = entry }
    where
      entry : (j : ℕ) → j < 1 → at (suc i ∷ []) j ≡ distance (suc i) j
      entry zero h = refl
      entry (suc j) h = absurd (omega arith)

  first_row-IsTable : IsTable (suc zero) (length right + 1) (range (length right + 1) 0 ∷ [])
  unfolding distance
  first_row-IsTable = record { height = refl; row = only }
    where
      only :
          (i : ℕ) → i < 1 → IsRow i (length right + 1) (row_at (range (length right + 1) 0 ∷ []) i)
      only zero h = record {
        width = length-range (length right + 1) 0;
        entries = λ j k. at-range (length right + 1) 0 j k ∙ omega arith;
      }
      only (suc i) h = absurd (omega arith)

  fill_rows-IsTable :
      (n i h : ℕ) (rows : List (List ℕ))
      → suc i + n ≡ h
      → IsTable (suc i) (length right + 1) rows
      → IsTable h (length right + 1) (fill_rows left right transpositions n (suc i) rows)
  unfolding fill_rows
  fill_rows-IsTable zero i h rows fits table =
      let full : suc i ≡ h = omega (arith, fits) in rw full at table
  fill_rows-IsTable (suc n) i h rows fits table =
      let next : suc i + 1 ≡ suc (suc i) = omega arith in
      let row = fill_row left right transpositions rows (suc i) (length right) 1 (suc i ∷ []) in
      rw next (
        fill_rows-IsTable n (suc i) h (rows ++ row ∷ []) (omega (arith, fits)) (
          IsTable-append (suc i) (length right + 1) rows row table (
            fill_row-IsRow rows i (length right + 1) (length right) zero (suc i ∷ []) (omega arith)
              table (first_entry-IsRow i))))

  -- The table that damerau_levenshtein_chars fills ends in the optimal string alignment distance
  -- of the two texts as it is defined by recursion on their prefixes, with swaps of neighbours or
  -- without.
  pub damerau_levenshtein_chars-distance :
      damerau_levenshtein_chars left right transpositions ≡ distance (length left) (length right)
  unfolding damerau_levenshtein_chars
  damerau_levenshtein_chars-distance =
      let table =
        fill_rows-IsTable (length left) zero (length left + 1) (range (length right + 1) 0 ∷ [])
          (omega arith) first_row-IsTable in
      (table.row (length left) (omega arith)).entries (length right) (omega arith)
