-- ===== src/Postings/InspectChain.antt =====
-- That the summaries of crates/surch-codec/src/postings_block.rs always make a skip list.
use surch.Base.{ℕ, zero, suc, ◌+◌, ◌-◌, ◌^◌, ◌≤◌, ◌<◌, min, ◌≡◌, ◌≢◌, refl, sym, ap, ◌∙◌, arith}
use surch.Base.{
  ltb, leb, ◌==◌, ◌&&◌, not, if◌then◌else◌, Bool, true, false, Bool-cases, inl, inr, lt→leb, le→ltb,
}
use surch.Base.{List, [], ◌∷◌, length, map, ok, err, guard, ok_or, >>=-eq-ok}
use surch.Postings.Varint.{BlockResult, not_monotonic, read_varint_u32}
use surch.Postings.Flat.{checked_add_u32, read_delta}
use surch.Postings.BlockEncode.{for_block_size}
use surch.Postings.Skip.{BlockSkipList, check_windows, check_entries, step_by, from_block_ranges}
use surch.Postings.Inspect.{
  PostingsBlockMeta, Slots, read_later_slots, read_slots, inspect_doc_ids, read_max_freq,
  inspect_freqs, inspect_postings_blocks, entry_of_meta, from_block_metas,
}
use mathlib.Core.Path.{subst}

ok_value : {A : Type 0} {a b : A} → ◌≡◌ {A = BlockResult A} (ok a) (ok b) → a ≡ b
ok_value e = cc

-- A doc id that was read lies above the one before, or at it if it is the first.
AboveWhen : Bool → ℕ → ℕ → Type 0
AboveWhen true previous value = previous < value
AboveWhen false previous value = previous ≤ value

checked_sum :
    (previous delta value : ℕ)
    → ok_or (checked_add_u32 previous delta) not_monotonic ≡ ok value
    → value ≡ previous + delta
unfolding checked_add_u32
checked_sum previous delta value e = elim (Bool-cases (ltb (previous + delta) (2 ^ 32))) [
  | inl fits ↦ sym (ok_value (rw fits at e))
  | inr large ↦ absurd (refused (rw large at e))
]
  where
    refused : ◌≢◌ {A = BlockResult ℕ} (err not_monotonic) (ok value)
    refused h = cc

read_delta-above :
    (bytes : List ℕ) (started : Bool) (previous position value next : ℕ)
    → read_delta bytes started previous position ≡ ok (value, next)
    → AboveWhen started previous value
unfolding read_delta AboveWhen
read_delta-above bytes started previous position value next e =
    let ((delta, after), read, guarded) = >>=-eq-ok (read_varint_u32 bytes position) _ e in
    let (passed, fresh, added) =
      >>=-eq-ok (guard (not (started && delta == 0)) not_monotonic) _ guarded in
    let (sum, checked, given) =
      >>=-eq-ok (ok_or (checked_add_u32 previous delta) not_monotonic) _ added in
    let same : sum ≡ value = ap (λ (pair : ℕ × ℕ). pair.0) (ok_value given) in
    above delta started fresh (sym same ∙ checked_sum previous delta sum checked)
  where
    refused : ◌≢◌ {A = BlockResult (Unit {0})} (err not_monotonic) (ok tt)
    refused h = cc

    above :
        (delta : ℕ) (started : Bool)
        → guard (not (started && delta == 0)) not_monotonic ≡ ok tt
        → value ≡ previous + delta
        → AboveWhen started previous value
    above delta false fresh sum = omega (arith, sum)
    above delta true fresh sum = elim (Bool-cases (delta == 0)) [
      | inl none_above ↦ absurd (refused (rw none_above at fresh))
      | inr some_above ↦ ground (arith, sum, some_above)
    ]

read_later_slots-grows :
    (bytes : List ℕ) (n : ℕ) (slots after : Slots)
    → read_later_slots bytes n slots ≡ ok after
    → (after.min_doc_id ≡ slots.min_doc_id) × (slots.max_doc_id ≤ after.max_doc_id)
unfolding read_later_slots AboveWhen
read_later_slots-grows bytes zero slots after e =
    let same = ok_value e in
    (
      ap (λ (s : Slots). s.min_doc_id) (sym same),
      omega (arith, ap (λ (s : Slots). s.max_doc_id) same),
    )
read_later_slots-grows bytes (suc n) slots after e =
    let ((value, next), read, rest) =
      >>=-eq-ok (read_delta bytes true slots.max_doc_id slots.position) _ e in
    let (least, grows) = read_later_slots-grows bytes n _ after rest in
    let above : slots.max_doc_id < value =
      read_delta-above bytes true slots.max_doc_id slots.position value next read in
    (least, omega (arith, grows, above))

-- The summaries are numbered from `index` on, and lie above `previous`, and above each other.
abbrev Chain : ℕ → Bool → ℕ → List PostingsBlockMeta → Type 0
Chain index started previous [] = Unit
Chain index started previous (meta ∷ metas) =
    (meta.block_index ≡ index)
    × AboveWhen started previous meta.min_doc_id
    × (meta.min_doc_id ≤ meta.max_doc_id)
    × Chain (index + 1) true meta.max_doc_id metas

inspect_doc_ids-Chain :
    (rounds : ℕ) (bytes : List ℕ) (remaining index previous : ℕ) (started : Bool) (position : ℕ)
    (metas : List PostingsBlockMeta) (end : ℕ)
    → inspect_doc_ids rounds bytes remaining index previous started position ≡ ok (metas, end)
    → Chain index started previous metas
unfolding inspect_doc_ids read_slots
inspect_doc_ids-Chain zero bytes remaining index previous started position metas end e =
    subst (Chain index started previous) (ap (λ pair. pair.0) (ok_value e)) tt
inspect_doc_ids-Chain (suc rounds) bytes zero index previous started position metas end e =
    subst (Chain index started previous) (ap (λ pair. pair.0) (ok_value e)) tt
inspect_doc_ids-Chain (suc rounds) bytes (suc remaining) index previous started position metas end
      e =
    let (slots, block, rest) =
      >>=-eq-ok
        (read_slots bytes (min (suc remaining) for_block_size - 1) previous started position) _ e in
    let ((later, last_end), inspected, made) =
      >>=-eq-ok (inspect_doc_ids rounds bytes _ (index + 1) slots.max_doc_id true slots.position) _
        rest in
    let ((value, next), read, more) =
      >>=-eq-ok (read_delta bytes started previous position) _ block in
    let (least, grows) = read_later_slots-grows bytes _ _ slots more in
    let above = read_delta-above bytes started previous position value next read in
    subst (Chain index started previous) (ap (λ pair. pair.0) (ok_value made)) (
      refl,
      subst (AboveWhen started previous) (sym least) above,
      omega (arith, least, grows),
      inspect_doc_ids-Chain rounds bytes _ (index + 1) slots.max_doc_id true slots.position later
          last_end inspected,
    )

inspect_freqs-Chain :
    (bytes : List ℕ) (metas : List PostingsBlockMeta) (position index previous : ℕ) (started : Bool)
    (filled : List PostingsBlockMeta)
    → inspect_freqs bytes metas position ≡ ok filled
    → Chain index started previous metas
    → Chain index started previous filled
unfolding inspect_freqs
inspect_freqs-Chain bytes [] position index previous started filled e chain =
    subst (Chain index started previous) (ok_value e) tt
inspect_freqs-Chain bytes (meta ∷ metas) position index previous started filled e
      (number, above, ordered, chain) =
    let ((max_term_freq, end), read, rest) =
      >>=-eq-ok (read_max_freq bytes meta.posting_count 0 position) _ e in
    let (later, inspected, made) = >>=-eq-ok (inspect_freqs bytes metas end) _ rest in
    subst (Chain index started previous) (ok_value made) (
      number,
      above,
      ordered,
      inspect_freqs-Chain bytes metas end (index + 1) meta.max_doc_id true later inspected chain,
    )

Chain-check_windows :
    (metas : List PostingsBlockMeta) (index previous : ℕ) (started : Bool)
    → Chain index started previous metas
    → (check_windows (map entry_of_meta metas) ≡ ok tt)
      × (check_entries (map entry_of_meta metas) ≡ ok tt)
unfolding check_windows check_entries entry_of_meta AboveWhen
Chain-check_windows [] index previous started chain = (refl, refl)
Chain-check_windows (meta ∷ []) index previous started (number, above, ordered, chain) =
    (refl, rw (le→ltb meta.max_doc_id meta.min_doc_id ordered) refl)
Chain-check_windows (meta ∷ next ∷ metas) index previous started
      (number, above, ordered, (next_number, next_above, next_ordered, chain)) =
    let (windows, entries) =
      Chain-check_windows (next ∷ metas) (index + 1) meta.max_doc_id true
        (next_number, next_above, next_ordered, chain) in
    (
      rw
          (
            lt→leb next.block_index meta.block_index (omega (arith, number, next_number)),
            lt→leb next.min_doc_id meta.max_doc_id next_above,
            windows,
          )
          refl,
      rw (le→ltb meta.max_doc_id meta.min_doc_id ordered, entries) refl,
    )

-- Whatever the bytes, if inspect_postings_blocks accepts them, the skip list of its summaries is
-- accepted too, and its bottom layer is the range of each block in order.
pub from_block_metas-inspect_postings_blocks :
    (bytes : List ℕ) (metas : List PostingsBlockMeta)
    → inspect_postings_blocks bytes ≡ ok metas
    → (skip_list : BlockSkipList) × (from_block_metas metas ≡ ok skip_list)
      × (skip_list.bottom ≡ map entry_of_meta metas)
unfolding inspect_postings_blocks from_block_metas from_block_ranges
from_block_metas-inspect_postings_blocks bytes metas e =
    let ((count, position), read, rest) = >>=-eq-ok (read_varint_u32 bytes 0) _ e in
    let ((summaries, end), inspected, filled) =
      >>=-eq-ok (inspect_doc_ids count bytes count 0 0 false position) _ rest in
    let chain =
      inspect_freqs-Chain bytes summaries end 0 0 false metas filled
        (inspect_doc_ids-Chain count bytes count 0 0 false position summaries end inspected) in
    let (windows, entries) = Chain-check_windows metas 0 0 false chain in
    (
      record {
        bottom = map entry_of_meta metas;
        top =
            if leb (length (map entry_of_meta metas)) 1
            then []
            else step_by 0 (map entry_of_meta metas);
      },
      rw (windows, entries) refl,
      refl,
    )
