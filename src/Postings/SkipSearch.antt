-- ===== src/Postings/SkipSearch.antt =====
-- What `advance_to` of crates/surch-codec/src/postings_block.rs finds, against a plain walk.
use surch.Base.{All-map}
use surch.Base.{ℕ, zero, suc, ◌+◌, ◌-◌, ◌*◌, ◌<◌, ◌≡◌, refl, sym, ap, ◌∙◌, arith}
use surch.Base.{ltb, leb, not, if◌then◌else◌, Bool, true, false, Bool-cases, inl, inr, lt→leb}
use surch.Base.{List, [], ◌∷◌, length, get_elem?, drop, All, Option, none, some, ok, ◌>>◌, guard}
use surch.Base.{length-drop, drop-cons, get_elem?-All}
use surch.Postings.Varint.{BlockResult, not_monotonic}
use surch.Postings.Skip.{BlockSkipEntry, skip_interval, check_windows, check_entries, step_by}
use surch.Postings.Skip.{scan_bottom, fall_back}

-- The first entry of `rest`, which starts at `position`, whose block may hold `target`.
unfoldable pub walk : List BlockSkipEntry → ℕ → ℕ → ℕ × Option BlockSkipEntry
walk [] target position = (position, none)
walk (entry ∷ rest) target position =
    let later = walk rest target (position + 1) in
    if leb target entry.max_doc_id then (position, some entry) else later

-- The bounded scan and its fallback are one scan of all the entries.
pub fall_back-scan_bottom :
    (bottom : List BlockSkipEntry) (target rounds position visited : ℕ) (rest : List BlockSkipEntry)
    → drop position bottom ≡ rest
    → fall_back bottom target (scan_bottom rounds rest target position visited)
      ≡ scan_bottom (length rest) rest target position visited
unfolding fall_back scan_bottom
fall_back-scan_bottom bottom target zero position visited rest e =
    let size : length bottom - position ≡ length rest =
      sym (length-drop position bottom) ∙ ap length e in
    rw (size, e) refl
fall_back-scan_bottom bottom target (suc rounds) position visited [] e =
    let size : length bottom - position ≡ 0 = sym (length-drop position bottom) ∙ ap length e in
    rw size refl
fall_back-scan_bottom bottom target (suc rounds) position visited (entry ∷ rest) e =
    elim (Bool-cases (leb target entry.max_doc_id)) [
      | inl found ↦ rw found refl
      | inr below ↦ rw below (
          fall_back-scan_bottom bottom target rounds (position + 1) (visited + 1) rest
            ((drop-cons bottom position e).1))
    ]

-- The entry that a scan returns, and its position.
abbrev pub found_at : ℕ × ℕ × Option BlockSkipEntry → ℕ × Option BlockSkipEntry
found_at (position, visited, found) = (position, found)

pub scan_bottom-walk :
    (rest : List BlockSkipEntry) (target position visited : ℕ)
    → found_at (scan_bottom (length rest) rest target position visited) ≡ walk rest target position
unfolding scan_bottom walk
scan_bottom-walk [] target position visited = refl
scan_bottom-walk (entry ∷ rest) target position visited =
    elim (Bool-cases (leb target entry.max_doc_id)) [
      | inl found ↦ rw found refl
      | inr below ↦ rw below (scan_bottom-walk rest target (position + 1) (visited + 1))
    ]

-- The greatest doc ids of the blocks ascend.
abbrev pub Ascending : List BlockSkipEntry → Type 0
Ascending [] = Unit
Ascending (entry ∷ rest) = All (λ later. entry.max_doc_id < later.max_doc_id) rest × Ascending rest

pub Ascending-drop :
    (bottom : List BlockSkipEntry) (n : ℕ) → Ascending bottom → Ascending (drop n bottom)
Ascending-drop bottom zero h = h
Ascending-drop [] (suc n) h = tt
Ascending-drop (entry ∷ rest) (suc n) (above, h) = Ascending-drop rest n h

-- Entries before one that is below the target are below it too.
pub walk-skip :
    (rest : List BlockSkipEntry) (k target position : ℕ) {entry : BlockSkipEntry}
    → Ascending rest
    → get_elem? rest k ≡ some entry
    → entry.max_doc_id < target
    → walk rest target position ≡ walk (drop k rest) target (position + k)
unfolding walk
walk-skip rest zero target position asc e below = ap (walk rest target) (omega arith)
walk-skip [] (suc k) target position asc e below = cc
walk-skip (first ∷ rest) (suc k) target position {entry} (above, asc) e below =
    let lower : first.max_doc_id < entry.max_doc_id =
      get_elem?-All (λ later. first.max_doc_id < later.max_doc_id) rest k above e in
    rw (lt→leb target first.max_doc_id (omega arith)) (
      walk-skip rest k target (position + 1) asc e below
      ∙ ap (walk (drop k rest) target) (omega arith))

guard-true :
    {A : Type 0} (test : Bool) {result : A} {more : BlockResult A}
    → (guard (not test) not_monotonic >> more) ≡ ok result
    → (test ≡ false) × (more ≡ ok result)
guard-true true e = cc
guard-true false e = (refl, e)

pub checked-Ascending :
    (bottom : List BlockSkipEntry)
    → check_windows bottom ≡ ok tt
    → check_entries bottom ≡ ok tt
    → Ascending bottom
unfolding check_windows check_entries
checked-Ascending [] windows entries = tt
checked-Ascending (prev ∷ []) windows entries = (tt, tt)
checked-Ascending (prev ∷ next ∷ rest) windows entries =
    let (indices, ranges) = guard-true (leb next.block_index prev.block_index) windows in
    let (apart, windows') = guard-true (leb next.min_doc_id prev.max_doc_id) ranges in
    let (ordered, entries') = guard-true (ltb prev.max_doc_id prev.min_doc_id) entries in
    let (ordered', entries'') = guard-true (ltb next.max_doc_id next.min_doc_id) entries' in
    let (above, asc) = checked-Ascending (next ∷ rest) windows' entries' in
    let lower : prev.max_doc_id < next.max_doc_id = ground (arith, apart, ordered') in
    (
      (
        lower,
        All-map (λ later. next.max_doc_id < later.max_doc_id)
            (λ later. prev.max_doc_id < later.max_doc_id) rest (λ later h. omega (arith, lower, h))
            above,
      ),
      (above, asc),
    )

pub get_elem?-step_by :
    (skipped : ℕ) (bottom : List BlockSkipEntry) (k : ℕ)
    → get_elem? (step_by skipped bottom) k ≡ get_elem? bottom (skipped + k * skip_interval)
unfolding step_by
get_elem?-step_by skipped [] k = refl
get_elem?-step_by zero (entry ∷ rest) zero = refl
get_elem?-step_by zero (entry ∷ rest) (suc k) =
    let index : 0 + suc k * 8 ≡ suc (7 + k * 8) = omega arith in
    rw index (get_elem?-step_by 7 rest k)
get_elem?-step_by (suc skipped) (entry ∷ rest) k =
    let index : suc skipped + k * 8 ≡ suc (skipped + k * 8) = omega arith in
    rw index (get_elem?-step_by skipped rest k)
