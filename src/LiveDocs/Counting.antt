-- ===== src/LiveDocs/Counting.antt =====
-- That the counter of crates/surch-index/src/live_docs.rs is right, and what a deletion changes.
use surch.Base.{ℕ, zero, suc, ◌+◌, ◌≤◌, ◌<◌, ◌≡◌, refl, sym, ap, ◌∙◌, arith}
use surch.Base.{leb, not, if◌then◌else◌, Bool, true, false, Bool-cases, inl, inr, lt→leb, le→leb}
use surch.Base.{List, [], ◌∷◌, length, ok, err, ◌>>=◌, guard}
use surch.LiveDocs.Defs.{
  LiveDocs, none_deleted, all_live, validate_doc_id, flag_at, set_flag, is_live, delete, live_count,
  live_from, iter_live_doc_ids, after_delete, delete_all, doc_id_out_of_range,
}
use native.Mathlib.Decide.{dec_lt}

-- The deleted documents of a list of flags.
abbrev pub set_flags : List Bool → ℕ
set_flags [] = 0
set_flags (flag ∷ flags) = (if flag then 1 else 0) + set_flags flags

-- There is a flag for each document, and the counter counts those that are set.
pub record IsCounted (docs : LiveDocs) : Type 0 where
  pub size : length docs.deleted ≡ docs.max_doc
  pub counter : docs.deleted_count ≡ set_flags docs.deleted

set_flags-none_deleted : (n : ℕ) → (length (none_deleted n) ≡ n) × (set_flags (none_deleted n) ≡ 0)
unfolding none_deleted
set_flags-none_deleted zero = (refl, refl)
set_flags-none_deleted (suc n) =
    let (size, none_set) = set_flags-none_deleted n in
    (omega (arith, size), omega (arith, none_set))

all_live-IsCounted : (max_doc : ℕ) → IsCounted (all_live max_doc)
unfolding all_live
all_live-IsCounted max_doc =
    let (size, none_set) = set_flags-none_deleted max_doc in
    record { size = size; counter = sym none_set }

length-set_flag : (flags : List Bool) (i : ℕ) → length (set_flag flags i) ≡ length flags
unfolding set_flag
length-set_flag [] i = refl
length-set_flag (flag ∷ flags) zero = refl
length-set_flag (flag ∷ flags) (suc i) = ap suc (length-set_flag flags i)

set_flags-set_flag :
    (flags : List Bool) (i : ℕ)
    → i < length flags
    → flag_at flags i ≡ false
    → set_flags (set_flag flags i) ≡ set_flags flags + 1
unfolding flag_at set_flag
set_flags-set_flag [] i lt e = absurd (omega (arith, lt))
set_flags-set_flag (flag ∷ flags) zero lt e = rw e (omega arith)
set_flags-set_flag (flag ∷ flags) (suc i) lt e =
    omega (arith, set_flags-set_flag flags i (omega (arith, lt)) e)

flag_at-set_flag :
    (flags : List Bool) (i : ℕ) → i < length flags → flag_at (set_flag flags i) i ≡ true
unfolding flag_at set_flag
flag_at-set_flag [] i lt = absurd (omega (arith, lt))
flag_at-set_flag (flag ∷ flags) zero lt = refl
flag_at-set_flag (flag ∷ flags) (suc i) lt = flag_at-set_flag flags i (omega (arith, lt))

flag_at-set_flag_other :
    (flags : List Bool) (i j : ℕ) → ¬ (i ≡ j) → flag_at (set_flag flags i) j ≡ flag_at flags j
unfolding flag_at set_flag
flag_at-set_flag_other [] i j ne = refl
flag_at-set_flag_other (flag ∷ flags) zero zero ne = absurd (ne refl)
flag_at-set_flag_other (flag ∷ flags) zero (suc j) ne = refl
flag_at-set_flag_other (flag ∷ flags) (suc i) zero ne = refl
flag_at-set_flag_other (flag ∷ flags) (suc i) (suc j) ne =
    flag_at-set_flag_other flags i j (λ e. ne (ap suc e))

length-live_from :
    (doc_id : ℕ) (flags : List Bool)
    → length (live_from doc_id flags) + set_flags flags ≡ length flags
unfolding live_from
length-live_from doc_id [] = refl
length-live_from doc_id (true ∷ flags) = omega (arith, length-live_from (doc_id + 1) flags)
length-live_from doc_id (false ∷ flags) = omega (arith, length-live_from (doc_id + 1) flags)

-- As many documents are listed as are counted as live.
pub length-iter_live_doc_ids :
    (docs : LiveDocs) → IsCounted docs → length (iter_live_doc_ids docs) ≡ live_count docs
unfolding iter_live_doc_ids live_count
length-iter_live_doc_ids docs h = omega (arith, h.size, h.counter, length-live_from 0 docs.deleted)

-- What a call of `delete` for a document of the segment does.
pub record Deleted (docs : LiveDocs) (doc_id : ℕ) (result : LiveDocs × Bool) : Type 0 where
  pub counted : IsCounted result.0
  pub gone : is_live result.0 doc_id ≡ ok false
  pub others : (other : ℕ) → ¬ (doc_id ≡ other) → is_live result.0 other ≡ is_live docs other
  pub counts : live_count result.0 + (if result.1 then 1 else 0) ≡ live_count docs
  pub told : is_live docs doc_id ≡ ok result.1

set_flags-lt :
    (flags : List Bool) (i : ℕ)
    → i < length flags
    → flag_at flags i ≡ false
    → set_flags flags < length flags
unfolding flag_at
set_flags-lt [] i lt e = absurd (omega (arith, lt))
set_flags-lt (flag ∷ flags) zero lt e = rw e (omega (arith, set_flags-le flags))
  where
    set_flags-le : (flags : List Bool) → set_flags flags ≤ length flags
    set_flags-le [] = omega arith
    set_flags-le (true ∷ flags) = omega (arith, set_flags-le flags)
    set_flags-le (false ∷ flags) = omega (arith, set_flags-le flags)
set_flags-lt (true ∷ flags) (suc i) lt e = omega (arith, set_flags-lt flags i (omega (arith, lt)) e)
set_flags-lt (false ∷ flags) (suc i) lt e =
    omega (arith, set_flags-lt flags i (omega (arith, lt)) e)

-- For live-document state whose counter is right, deleting a document of the segment succeeds;
-- afterwards the document is not live, every other id answers as before, the counter is right, the
-- number of live documents is one lower if the call reports a change and the same if not, and the
-- call reports whether the document was live.
pub delete-Deleted :
    (docs : LiveDocs) (doc_id : ℕ)
    → IsCounted docs
    → doc_id < docs.max_doc
    → (result : LiveDocs × Bool) × (delete docs doc_id ≡ ok result) × Deleted docs doc_id result
unfolding delete is_live validate_doc_id live_count
delete-Deleted docs doc_id h lt =
    let within = lt→leb docs.max_doc doc_id lt in
    let inside : doc_id < length docs.deleted = omega (arith, lt, h.size) in
    elim (Bool-cases (flag_at docs.deleted doc_id)) [
      | inl before ↦ (
        (docs, false),
        rw (within, before) refl,
        record {
          counted = h;
          gone = rw (within, before) refl;
          others = λ other ne. refl;
          counts = omega arith;
          told = rw (within, before) refl;
        },
      )
      | inr live ↦
          let after : LiveDocs = record {
            max_doc = docs.max_doc;
            deleted = set_flag docs.deleted doc_id;
            deleted_count = docs.deleted_count + 1;
          } in
          let more = set_flags-set_flag docs.deleted doc_id inside live in
          (
            (after, true),
            rw (within, live) refl,
            record {
              counted = record {
                size = length-set_flag docs.deleted doc_id ∙ h.size;
                counter = omega (arith, more, h.counter);
              };
              gone = rw (within, flag_at-set_flag docs.deleted doc_id inside) refl;
              others = λ other ne.
                  ap
                    (λ flag.
                      guard (not (leb docs.max_doc other)) (doc_id_out_of_range other docs.max_doc)
                      >>= λ _. ok (not flag))
                    (flag_at-set_flag_other docs.deleted doc_id other ne);
              counts =
                  omega (arith, h.size, h.counter, set_flags-lt docs.deleted doc_id inside live);
              told = rw (within, live) refl;
            },
          )
    ]

delete-refused :
    (docs : LiveDocs) (doc_id : ℕ)
    → docs.max_doc ≤ doc_id
    → delete docs doc_id ≡ err (doc_id_out_of_range doc_id docs.max_doc)
unfolding delete validate_doc_id
delete-refused docs doc_id le = rw (le→leb docs.max_doc doc_id le) refl

after_delete-IsCounted :
    (docs : LiveDocs) (doc_id : ℕ)
    → IsCounted docs
    → IsCounted (after_delete docs (delete docs doc_id))
unfolding after_delete
after_delete-IsCounted docs doc_id h = elim (dec_lt doc_id docs.max_doc) [
  | yes lt ↦
      let (result, answered, deleted) = delete-Deleted docs doc_id h lt in
      rw answered (deleted.counted)
  | no above ↦ rw (delete-refused docs doc_id (omega (arith, above))) h
]

-- Refusals change nothing, so that every sequence of calls keeps the counter right.
delete_all-IsCounted :
    (docs : LiveDocs) (doc_ids : List ℕ) → IsCounted docs → IsCounted (delete_all docs doc_ids)
unfolding delete_all
delete_all-IsCounted docs [] h = h
delete_all-IsCounted docs (doc_id ∷ doc_ids) h =
    delete_all-IsCounted (after_delete docs (delete docs doc_id)) doc_ids
      (after_delete-IsCounted docs doc_id h)

-- After any sequence of deletions from a new state, refused ones included, the iteration lists as
-- many documents as are counted as live.
pub delete_all-live_count :
    (max_doc : ℕ) (doc_ids : List ℕ)
    → length (iter_live_doc_ids (delete_all (all_live max_doc) doc_ids))
      ≡ live_count (delete_all (all_live max_doc) doc_ids)
delete_all-live_count max_doc doc_ids =
    length-iter_live_doc_ids (delete_all (all_live max_doc) doc_ids)
      (delete_all-IsCounted (all_live max_doc) doc_ids (all_live-IsCounted max_doc))
