-- ===== src/Fuzzy/Defs.antt =====
-- The functions of crates/surch-search/src/fuzzy.rs. A `&str` is the list of its `char`s, whose
-- order is that of the UTF-8 bytes.
use surch.Base.{
  ℕ, zero, suc, ◌+◌, ◌-◌, ltb, leb, ◌==◌, if◌then◌else◌, min, not, Bool, true, false, ◌&&◌, ◌||◌,
}
use surch.Base.{
  List, [], ◌∷◌, ◌++◌, length, take, drop, Option, none, some, Result, ok, err, ◌>>=◌, ◌>>◌, guard,
  ok_or,
}
use surch.Codec.{bytes_eq}
use surch.Segments.Name.{parse_u64}
use surch.Segments.Store.{sort_by, name_le}

abbrev pub max_supported_edits : ℕ
max_supported_edits = 2

pub data Fuzziness : Type 0 where
  edits : ℕ → Fuzziness
  auto : ℕ → ℕ → Fuzziness

pub record FuzzyQueryConfig : Type 0 where
  pub fuzziness : Fuzziness
  pub prefix_length : ℕ
  pub max_expansions : ℕ
  pub transpositions : Bool

pub record FuzzyTermMatch : Type 0 where
  pub term : List ℕ
  pub term_edits : ℕ

pub data FuzzyError : Type 0 where
  max_edits_too_large : ℕ → FuzzyError
  invalid_fuzziness : FuzzyError
  invalid_auto_bounds : ℕ → ℕ → FuzzyError
  max_expansions_zero : FuzzyError

abbrev pub FuzzyResult : Type 0 → Type 0
FuzzyResult A = Result FuzzyError A

unfoldable pub validate_max_edits : ℕ → FuzzyResult (Unit {0})
validate_max_edits max_edits =
    if ltb max_supported_edits max_edits then err (max_edits_too_large max_edits) else ok tt

unfoldable pub validate_fuzziness : Fuzziness → FuzzyResult (Unit {0})
unfolding validate_max_edits
validate_fuzziness (edits max_edits) = validate_max_edits max_edits
validate_fuzziness (auto low high) =
    if ltb high low then err (invalid_auto_bounds low high) else ok tt

-- `FuzzyQueryConfig::new`
unfoldable pub new_config : Fuzziness → ℕ → ℕ → Bool → FuzzyResult FuzzyQueryConfig
new_config fuzziness prefix_length max_expansions transpositions = do
  validate_fuzziness fuzziness
  guard (not (max_expansions == 0)) max_expansions_zero
  ok (record {
    fuzziness = fuzziness;
    prefix_length = prefix_length;
    max_expansions = max_expansions;
    transpositions = transpositions;
  })

-- `char::to_ascii_lowercase`
abbrev to_lowercase : ℕ → ℕ
to_lowercase c = if leb b'A' c && leb c b'Z' then c + 32 else c

abbrev lowercase : List ℕ → List ℕ
lowercase [] = []
lowercase (c ∷ cs) = to_lowercase c ∷ lowercase cs

-- "auto", and "auto:"
abbrev auto_word : List ℕ
auto_word = b'a' ∷ b'u' ∷ b't' ∷ b'o' ∷ []

-- `str::split_once(',')`
unfoldable pub split_once : List ℕ → Option (List ℕ × List ℕ)
split_once [] = none
split_once (c ∷ cs) =
    let rest = split_once cs in
    if c == b','
    then some ([], cs)
    else elim rest [ none ↦ none | some (low, high) ↦ some (c ∷ low, high) ]

unfoldable pub parse_fuzziness : List ℕ → FuzzyResult Fuzziness
unfolding split_once
parse_fuzziness value =
    if bytes_eq (lowercase value) auto_word
    then ok (auto 3 6)
    else if bytes_eq (lowercase (take 5 value)) (auto_word ++ b':' ∷ [])
    then (do
      (low_text, high_text) ← ok_or (split_once (drop 5 value)) invalid_fuzziness
      low ← ok_or (parse_u64 low_text) invalid_fuzziness
      high ← ok_or (parse_u64 high_text) invalid_fuzziness
      validate_fuzziness (auto low high) >> ok (auto low high))
    else (do
      max_edits ← ok_or (parse_u64 value) invalid_fuzziness
      guard (ltb max_edits 256) invalid_fuzziness
      validate_max_edits max_edits >> ok (edits max_edits))

-- The match of `edits_for_term_len`.
abbrev pub edits_for : Fuzziness → ℕ → ℕ
edits_for (edits max_edits) len = max_edits
edits_for (auto low high) len = if ltb len low then 0 else if ltb len high then 1 else 2

unfoldable pub edits_for_term_len : Fuzziness → ℕ → FuzzyResult ℕ
edits_for_term_len fuzziness len = validate_fuzziness fuzziness >> ok (edits_for fuzziness len)

-- Indexing; the rows are long enough wherever the source indexes them.
abbrev pub at : List ℕ → ℕ → ℕ
at [] i = 0
at (x ∷ xs) zero = x
at (x ∷ xs) (suc i) = at xs i

abbrev pub row_at : List (List ℕ) → ℕ → List ℕ
row_at [] i = []
row_at (row ∷ rows) zero = row
row_at (row ∷ rows) (suc i) = row_at rows i

-- `(start..).collect()`, of `n` numbers.
abbrev pub range : ℕ → ℕ → List ℕ
range zero start = []
range (suc n) start = start ∷ range n (start + 1)

module _ (left right : List ℕ) (transpositions : Bool) where
  -- The entry for `i` and `j`, both from 1 on, from the rows above and the row so far.
  unfoldable pub cell : List (List ℕ) → List ℕ → ℕ → ℕ → ℕ
  cell rows row i j =
      let substitution_cost = if at left (i - 1) == at right (j - 1) then 0 else 1 in
      let deletion = at (row_at rows (i - 1)) j + 1 in
      let insertion = at row (j - 1) + 1 in
      let substitution = at (row_at rows (i - 1)) (j - 1) + substitution_cost in
      let distance = min (min deletion insertion) substitution in
      if transpositions
        && ltb 1 i
        && ltb 1 j
        && at left (i - 1) == at right (j - 2)
        && at left (i - 2) == at right (j - 1)
      then min distance (at (row_at rows (i - 2)) (j - 2) + 1)
      else distance

  -- `n` more entries of a row, from the column `j` on.
  unfoldable pub fill_row : List (List ℕ) → ℕ → ℕ → ℕ → List ℕ → List ℕ
  unfolding cell
  fill_row rows i zero j row = row
  fill_row rows i (suc n) j row = fill_row rows i n (j + 1) (row ++ cell rows row i j ∷ [])

  -- `n` more rows, from the row `i` on.
  unfoldable pub fill_rows : ℕ → ℕ → List (List ℕ) → List (List ℕ)
  unfolding fill_row
  fill_rows zero i rows = rows
  fill_rows (suc n) i rows =
      fill_rows n (i + 1) (rows ++ fill_row rows i (length right) 1 (i ∷ []) ∷ [])

  unfoldable pub damerau_levenshtein_chars : ℕ
  unfolding fill_rows
  damerau_levenshtein_chars =
      at (row_at (fill_rows (length left) 1 (range (length right + 1) 0 ∷ [])) (length left))
        (length right)

-- `usize::abs_diff`
abbrev pub abs_diff : ℕ → ℕ → ℕ
abs_diff a b = (a - b) + (b - a)

unfoldable pub bounded_damerau_levenshtein : List ℕ → List ℕ → ℕ → Bool → FuzzyResult (Option ℕ)
unfolding damerau_levenshtein_chars
bounded_damerau_levenshtein left right max_edits transpositions =
    if ltb max_supported_edits max_edits
    then err (max_edits_too_large max_edits)
    else if bytes_eq left right
    then ok (some 0)
    else if ltb max_edits (abs_diff (length left) (length right))
    then ok none
    else let distance = damerau_levenshtein_chars left right transpositions in
      if leb distance max_edits then ok (some distance) else ok none

unfoldable pub has_exact_char_prefix : List ℕ → List ℕ → ℕ → Bool
has_exact_char_prefix query term zero = true
has_exact_char_prefix [] term (suc n) = false
has_exact_char_prefix (q ∷ query) [] (suc n) = false
has_exact_char_prefix (q ∷ query) (t ∷ term) (suc n) =
    let rest = has_exact_char_prefix query term n in q == t && rest

-- `if let Some(edits) = .. { matches.push(..); }`, in front of the later matches.
abbrev pub join_match : List ℕ → Option ℕ → List FuzzyTermMatch → List FuzzyTermMatch
join_match term none matches = matches
join_match term (some n) matches = record { term = term; term_edits = n } ∷ matches

-- The loop of `expand_fuzzy_terms`: the matches in the order of the terms.
unfoldable pub matching_terms :
    List ℕ → ℕ → FuzzyQueryConfig → List (List ℕ) → FuzzyResult (List FuzzyTermMatch)
unfolding has_exact_char_prefix bounded_damerau_levenshtein
matching_terms query max_edits config [] = ok []
matching_terms query max_edits config (term ∷ terms) =
    let rest = matching_terms query max_edits config terms in
    if not (has_exact_char_prefix query term config.prefix_length) then rest else (do
      distance ← bounded_damerau_levenshtein query term max_edits config.transpositions
      matches ← rest
      ok (join_match term distance matches))

-- By edits, then by term.
abbrev pub match_le : FuzzyTermMatch → FuzzyTermMatch → Bool
match_le left right =
    ltb left.term_edits right.term_edits
    || left.term_edits == right.term_edits && name_le left.term right.term

unfoldable pub expand_fuzzy_terms :
    List ℕ → List (List ℕ) → FuzzyQueryConfig → FuzzyResult (List FuzzyTermMatch)
unfolding matching_terms
expand_fuzzy_terms query terms config = do
  guard (not (config.max_expansions == 0)) max_expansions_zero
  max_edits ← edits_for_term_len config.fuzziness (length query)
  matches ← matching_terms query max_edits config terms
  ok (take config.max_expansions (sort_by match_le matches))
