-- ===== src/Fuzzy/Expansion.antt =====
-- What `expand_fuzzy_terms` of crates/surch-search/src/fuzzy.rs selects, and in which order.
use surch.Base.{ℕ, ◌≡◌, ◌⊎◌}
use surch.Base.{List, length}
use mathlib.Core.List.{Mem}
use surch.Fuzzy.Defs.{FuzzyQueryConfig, FuzzyTermMatch}
use surch.Fuzzy.Distance.{distance}
use surch.Fuzzy.Budget.{Allows, SharePrefix}
use surch.Fuzzy.Ranking.{IsKept}

module _ (query : List ℕ) (config : FuzzyQueryConfig) where
  -- The optimal string alignment distance of a term from the query.
  abbrev pub term_distance : List ℕ → ℕ
  term_distance term = distance query term config.transpositions (length query) (length term)

  -- A match of the query: one of the terms, with the prefix that the settings ask for, its edits
  -- the distance from the query, and these as few as the fuzziness allows for the query's length.
  pub record IsMatch (terms : List (List ℕ)) (m : FuzzyTermMatch) : Type 0 where
    pub given : Mem m.term terms
    pub prefix : SharePrefix config.prefix_length query m.term
    pub exact : m.term_edits ≡ term_distance m.term
    pub few : Allows config.fuzziness (length query) m.term_edits

  -- A term that is no match.
  abbrev pub IsExcluded : List ℕ → Type 0
  IsExcluded term =
      (¬ SharePrefix config.prefix_length query term)
      ⊎ (¬ Allows config.fuzziness (length query) (term_distance term))

  abbrev pub match_of : List ℕ → FuzzyTermMatch
  match_of term = record { term = term; term_edits = term_distance term }

  -- A term is no match, or it is among `ms`, or these are as many as max_expansions and all come
  -- before it.
  abbrev pub IsAnswered : List FuzzyTermMatch → List ℕ → Type 0
  IsAnswered ms term = IsExcluded term ⊎ IsKept config.max_expansions ms (match_of term)
