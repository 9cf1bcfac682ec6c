-- ===== src/Fuzzy/Budget.antt =====
-- The edits and the prefix that a query of crates/surch-search/src/fuzzy.rs asks for.
use surch.Base.{
  ℕ, zero, suc, ◌≤◌, ◌<◌, ◌≡◌, refl, arith, ◌==◌, true, Bool-cases, ◌⊎◌, inl, inr, ==_iff,
}
use surch.Base.{List, [], ◌∷◌, length, take, ok}
use surch.Fuzzy.Defs.{
  Fuzziness, edits, auto, validate_fuzziness, validate_max_edits, edits_for_term_len,
  has_exact_char_prefix,
}

-- The fuzziness allows `d` edits of a query of `len` characters: a fixed one as many as it says;
-- AUTO none below `low`, one from there on, and two from `high` on.
abbrev pub Allows : Fuzziness → ℕ → ℕ → Type 0
Allows (edits max_edits) len d = d ≤ max_edits
Allows (auto low high) len d =
    ((len < low) × (d ≡ 0)) ⊎ (((low ≤ len) × (len < high) × (d ≤ 1)) ⊎ ((high ≤ len) × (d ≤ 2)))

-- Both texts have `n` characters at least, and the first `n` are the same.
abbrev pub SharePrefix : ℕ → List ℕ → List ℕ → Type 0
SharePrefix n query term = (n ≤ length query) × (n ≤ length term) × (take n query ≡ take n term)

pub edits_for_term_len-bound :
    (fuzziness : Fuzziness) (len n : ℕ) → edits_for_term_len fuzziness len ≡ ok n → n ≤ 2
unfolding edits_for_term_len validate_fuzziness validate_max_edits
edits_for_term_len-bound (edits max_edits) len n e = ground (arith, e)
edits_for_term_len-bound (auto low high) len n e = ground (arith, e)

pub edits_for_term_len-Allows :
    (fuzziness : Fuzziness) (len n d : ℕ)
    → edits_for_term_len fuzziness len ≡ ok n
    → d ≤ n
    → Allows fuzziness len d
unfolding edits_for_term_len validate_fuzziness validate_max_edits
edits_for_term_len-Allows (edits max_edits) len n d e h = ground (arith, e, h)
edits_for_term_len-Allows (auto low high) len n d e h = ground (arith, e, h)

pub Allows-edits_for_term_len :
    (fuzziness : Fuzziness) (len n d : ℕ)
    → edits_for_term_len fuzziness len ≡ ok n
    → Allows fuzziness len d
    → d ≤ n
unfolding edits_for_term_len validate_fuzziness validate_max_edits
Allows-edits_for_term_len (edits max_edits) len n d e h = ground (arith, e, h)
Allows-edits_for_term_len (auto low high) len n d e (inl h) = ground (arith, e, h)
Allows-edits_for_term_len (auto low high) len n d e (inr (inl h)) = ground (arith, e, h)
Allows-edits_for_term_len (auto low high) len n d e (inr (inr h)) = ground (arith, e, h)

pub has_exact_char_prefix-SharePrefix :
    (query term : List ℕ) (n : ℕ)
    → has_exact_char_prefix query term n ≡ true
    → SharePrefix n query term
unfolding has_exact_char_prefix
has_exact_char_prefix-SharePrefix query term zero e = (omega arith, omega arith, refl)
has_exact_char_prefix-SharePrefix [] term (suc n) e = absurd (ground (arith, e))
has_exact_char_prefix-SharePrefix (q ∷ query) [] (suc n) e = absurd (ground (arith, e))
has_exact_char_prefix-SharePrefix (q ∷ query) (t ∷ term) (suc n) e = elim (Bool-cases (q == t)) [
  | inl same ↦
      let first = (==_iff q t).0 same in
      let (h, k, rest) = has_exact_char_prefix-SharePrefix query term n (rw same at e) in
      (omega (arith, h), omega (arith, k), cc)
  | inr differ ↦ absurd (ground (arith, e, differ))
]

pub SharePrefix-has_exact_char_prefix :
    (query term : List ℕ) (n : ℕ)
    → SharePrefix n query term
    → has_exact_char_prefix query term n ≡ true
unfolding has_exact_char_prefix
SharePrefix-has_exact_char_prefix query term zero s = refl
SharePrefix-has_exact_char_prefix [] term (suc n) (h, k, e) = absurd (omega (arith, h))
SharePrefix-has_exact_char_prefix (q ∷ query) [] (suc n) (h, k, e) = absurd (omega (arith, k))
SharePrefix-has_exact_char_prefix (q ∷ query) (t ∷ term) (suc n) (h, k, e) =
    let first : q ≡ t = cc in
    let rest : take n query ≡ take n term = cc in
    rw ((==_iff q t).1 first)
      (SharePrefix-has_exact_char_prefix query term n (omega (arith, h), omega (arith, k), rest))
