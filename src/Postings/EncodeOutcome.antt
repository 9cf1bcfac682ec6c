-- ===== src/Postings/EncodeOutcome.antt =====
-- When the encoder of crates/surch-codec/src/postings_block.rs refuses its input.
use surch.Base.{ℕ, ◌≡◌, ◌⊎◌, inl, inr, refl, arith}
use surch.Base.{leb, ◌==◌, Bool-cases, ==_iff}
use surch.Base.{List, [], ◌∷◌, length, ok, err}
use surch.Postings.Varint.{not_monotonic}
use surch.Postings.Flat.{validate_strictly_increasing}
use surch.Postings.FlatRoundTrip.{IsIncreasing}
use surch.Postings.BlockEncode.{
  BlockedEncodeOutput, no_blocks, encode_chunks, encode_postings_blocked_with_directory,
}

-- The check passes, or refuses with the one error that it has.
validate_strictly_increasing-outcome :
    (xs : List ℕ)
    → (IsIncreasing xs × (validate_strictly_increasing xs ≡ ok tt))
      ⊎ (¬ IsIncreasing xs × (validate_strictly_increasing xs ≡ err not_monotonic))
unfolding validate_strictly_increasing
validate_strictly_increasing-outcome [] = inl (tt, refl)
validate_strictly_increasing-outcome (x ∷ []) = inl (tt, refl)
validate_strictly_increasing-outcome (x ∷ y ∷ rest) = elim (Bool-cases (leb y x)) [
  | inl low ↦ inr (λ (lt, asc). absurd (ground (arith, low, lt)), rw low refl)
  | inr high ↦ elim (validate_strictly_increasing-outcome (y ∷ rest)) [
    | inl (asc, passed) ↦ inl ((ground (arith, high), asc), rw high passed)
    | inr (not_asc, refused) ↦ inr (λ (lt, asc). not_asc asc, rw high refused)
  ]
]

abbrev pub IsAcceptable : List ℕ → List ℕ → Type 0
IsAcceptable doc_ids freqs = IsIncreasing doc_ids × (length doc_ids ≡ length freqs)

-- The block encoder accepts an input exactly when the doc ids grow strictly and there are as many
-- frequencies; every other input is refused as not monotonic.
pub encode_postings_blocked_with_directory-outcome :
    (doc_ids freqs : List ℕ)
    → (IsAcceptable doc_ids freqs
        × (output : BlockedEncodeOutput) × (encode_postings_blocked_with_directory doc_ids freqs
            ≡ ok output))
      ⊎ (¬ IsAcceptable doc_ids freqs
          × (encode_postings_blocked_with_directory doc_ids freqs ≡ err not_monotonic))
unfolding encode_postings_blocked_with_directory
encode_postings_blocked_with_directory-outcome doc_ids freqs =
    elim (Bool-cases (length doc_ids == length freqs)) [
      | inr differ ↦ inr (λ (asc, same). absurd (ground (arith, differ, same)), rw differ refl)
      | inl same ↦ elim (validate_strictly_increasing-outcome doc_ids) [
        | inl (asc, passed) ↦ inl (
          (asc, (==_iff (length doc_ids) (length freqs)).0 same),
          encode_chunks (length doc_ids) no_blocks doc_ids freqs,
          rw (same, passed) refl,
        )
        | inr (not_asc, refused) ↦ inr (λ (asc, equal). not_asc asc, rw (same, refused) refl)
      ]
    ]
