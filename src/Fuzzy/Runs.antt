-- ===== src/Fuzzy/Runs.antt =====
-- Runs of crates/surch-search/src/fuzzy.rs on concrete words.
use surch.Base.{ℕ, ◌≡◌, refl, arith, true, false, List, [], ◌∷◌, ok}
use surch.Fuzzy.Defs.{
  cell, fill_row, fill_rows, damerau_levenshtein_chars, bounded_damerau_levenshtein,
}
use surch.Fuzzy.Defs.{
  FuzzyQueryConfig, FuzzyTermMatch, edits, auto, expand_fuzzy_terms, edits_for_term_len,
  validate_fuzziness, validate_max_edits, matching_terms, has_exact_char_prefix,
}
use surch.Segments.Store.{sort_by, insert_by}
use surch.Fuzzy.Distance.{distance, damerau_levenshtein_chars-distance}
use surch.Fuzzy.Bounds.{within, bounded_damerau_levenshtein-distance}

-- "ab"
abbrev ab_word : List ℕ
ab_word = b'a' ∷ b'b' ∷ []

-- "bac"
abbrev bac_word : List ℕ
bac_word = b'b' ∷ b'a' ∷ b'c' ∷ []

-- "ba"
abbrev ba_word : List ℕ
ba_word = b'b' ∷ b'a' ∷ []

swap_counts_once : damerau_levenshtein_chars ab_word ba_word true ≡ 1
unfolding damerau_levenshtein_chars fill_rows fill_row cell
swap_counts_once = refl

swap_counts_twice : damerau_levenshtein_chars ab_word ba_word false ≡ 2
unfolding damerau_levenshtein_chars fill_rows fill_row cell
swap_counts_twice = refl

damerau_levenshtein_chars-distance_example :
    damerau_levenshtein_chars ab_word bac_word true ≡ distance ab_word bac_word true 2 3
damerau_levenshtein_chars-distance_example =
    damerau_levenshtein_chars-distance ab_word bac_word true

bounded_damerau_levenshtein-distance_example :
    bounded_damerau_levenshtein ab_word bac_word 1 true
    ≡ ok (within 1 (distance ab_word bac_word true 2 3))
bounded_damerau_levenshtein-distance_example =
    bounded_damerau_levenshtein-distance ab_word bac_word 1 true (omega arith)

abbrev one_edit : FuzzyQueryConfig
one_edit = record {
  fuzziness = edits 1;
  prefix_length = 0;
  max_expansions = 5;
  transpositions = true;
}

-- "zzzz"
abbrev z_word : List ℕ
z_word = b'z' ∷ b'z' ∷ b'z' ∷ b'z' ∷ []

abbrev ba_match : FuzzyTermMatch
ba_match = record { term = ba_word; term_edits = 1 }

abbrev abc_word : List ℕ
abc_word = b'a' ∷ b'b' ∷ b'c' ∷ []

abbrev axc_word : List ℕ
axc_word = b'a' ∷ b'x' ∷ b'c' ∷ []

abbrev abd_word : List ℕ
abd_word = b'a' ∷ b'b' ∷ b'd' ∷ []

abbrev axy_word : List ℕ
axy_word = b'a' ∷ b'x' ∷ b'y' ∷ []

-- AUTO thresholds, a prefix of one character and a bound of two: "abc" may be off by one,
-- "bac" has another first character, "axy" is too far, and of the three that are left the two best
-- are returned.
abbrev auto_config : FuzzyQueryConfig
auto_config = record {
  fuzziness = auto 3 6;
  prefix_length = 1;
  max_expansions = 2;
  transpositions = true;
}

auto_expanded :
    expand_fuzzy_terms abc_word
      (bac_word ∷ axc_word ∷ abd_word ∷ axy_word ∷ abc_word ∷ [])
      auto_config
    ≡ ok (
        record { term = abc_word; term_edits = 0 }
        ∷ record { term = abd_word; term_edits = 1 }
        ∷ [])
unfolding expand_fuzzy_terms edits_for_term_len validate_fuzziness validate_max_edits matching_terms
    has_exact_char_prefix bounded_damerau_levenshtein damerau_levenshtein_chars fill_rows fill_row
    cell sort_by insert_by
auto_expanded = refl
