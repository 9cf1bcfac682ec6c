-- ===== src/LiveDocs/Defs.antt =====
-- `LiveDocs` of crates/surch-index/src/live_docs.rs. `&mut self` is an argument and a result.
use surch.Base.{ℕ, zero, suc, ◌+◌, ◌-◌, leb, not, if◌then◌else◌, Bool, true, false}
use surch.Base.{List, [], ◌∷◌, Result, ok, err, ◌>>◌, guard}

pub data LiveDocsError : Type 0 where
  doc_id_out_of_range : (doc_id max_doc : ℕ) → LiveDocsError

pub record LiveDocs : Type 0 where
  pub max_doc : ℕ
  pub deleted : List Bool
  pub deleted_count : ℕ

-- `vec![false; max_doc as usize]`
unfoldable pub none_deleted : ℕ → List Bool
none_deleted zero = []
none_deleted (suc max_doc) = false ∷ none_deleted max_doc

unfoldable pub all_live : ℕ → LiveDocs
unfolding none_deleted
all_live max_doc = record { max_doc = max_doc; deleted = none_deleted max_doc; deleted_count = 0 }

unfoldable pub validate_doc_id : LiveDocs → ℕ → Result LiveDocsError (Unit {0})
validate_doc_id docs doc_id =
    guard (not (leb docs.max_doc doc_id)) (doc_id_out_of_range doc_id docs.max_doc)

-- `self.deleted[doc_id as usize]`, and the assignment to it. The checked ids are below the length.
unfoldable pub flag_at : List Bool → ℕ → Bool
flag_at [] doc_id = false
flag_at (flag ∷ flags) zero = flag
flag_at (flag ∷ flags) (suc doc_id) = flag_at flags doc_id

unfoldable pub set_flag : List Bool → ℕ → List Bool
set_flag [] doc_id = []
set_flag (flag ∷ flags) zero = true ∷ flags
set_flag (flag ∷ flags) (suc doc_id) = flag ∷ set_flag flags doc_id

unfoldable pub is_live : LiveDocs → ℕ → Result LiveDocsError Bool
unfolding validate_doc_id flag_at
is_live docs doc_id = do validate_doc_id docs doc_id; ok (not (flag_at docs.deleted doc_id))

-- The documents after the call, and whether it changed them.
unfoldable pub delete : LiveDocs → ℕ → Result LiveDocsError (LiveDocs × Bool)
unfolding validate_doc_id flag_at set_flag
delete docs doc_id = do
  validate_doc_id docs doc_id
  let after : LiveDocs = record {
    max_doc = docs.max_doc;
    deleted = set_flag docs.deleted doc_id;
    deleted_count = docs.deleted_count + 1;
  }
  if flag_at docs.deleted doc_id then ok (docs, false) else ok (after, true)

unfoldable pub live_count : LiveDocs → ℕ
live_count docs = docs.max_doc - docs.deleted_count

-- The loop of `iter_live_doc_ids`, from `doc_id` on.
unfoldable pub live_from : ℕ → List Bool → List ℕ
live_from doc_id [] = []
live_from doc_id (flag ∷ flags) =
    let later = live_from (doc_id + 1) flags in if flag then later else doc_id ∷ later

unfoldable pub iter_live_doc_ids : LiveDocs → List ℕ
unfolding live_from
iter_live_doc_ids docs = live_from 0 docs.deleted

-- A client deletes documents one by one, and goes on after a refusal, which changes nothing.
unfoldable pub after_delete : LiveDocs → Result LiveDocsError (LiveDocs × Bool) → LiveDocs
after_delete docs (ok (after, changed)) = after
after_delete docs (err refusal) = docs

unfoldable pub delete_all : LiveDocs → List ℕ → LiveDocs
unfolding delete after_delete
delete_all docs [] = docs
delete_all docs (doc_id ∷ doc_ids) = delete_all (after_delete docs (delete docs doc_id)) doc_ids
