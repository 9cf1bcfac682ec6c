-- ===== src/LiveDocs/Runs.antt =====
-- Concrete runs of crates/surch-index/src/live_docs.rs.
use surch.Base.{◌≡◌, refl, arith, Bool, true, false, [], ◌∷◌, length, ok, err}
use surch.LiveDocs.Defs.{
  LiveDocs, doc_id_out_of_range, none_deleted, all_live, flag_at, set_flag, validate_doc_id, delete,
  live_count, live_from, iter_live_doc_ids, after_delete, delete_all,
}
use surch.LiveDocs.Counting.{IsCounted, Deleted, delete-Deleted, delete_all-live_count}

abbrev one_gone : LiveDocs
one_gone = record { max_doc = 3; deleted = false ∷ true ∷ false ∷ []; deleted_count = 1 }

first_deleted : delete_all (all_live 3) (1 ∷ 1 ∷ 7 ∷ []) ≡ one_gone
unfolding delete_all delete validate_doc_id flag_at set_flag after_delete all_live none_deleted
first_deleted = refl

two_listed : iter_live_doc_ids one_gone ≡ 0 ∷ 2 ∷ []
unfolding iter_live_doc_ids live_from
two_listed = refl

outside_refused : delete one_gone 3 ≡ err (doc_id_out_of_range 3 3)
unfolding delete validate_doc_id
outside_refused = refl

one_gone-IsCounted : IsCounted one_gone
one_gone-IsCounted = record { size = refl; counter = refl }

delete-Deleted_example :
    (result : LiveDocs × Bool) × (delete one_gone 2 ≡ ok result) × Deleted one_gone 2 result
delete-Deleted_example = delete-Deleted one_gone 2 one_gone-IsCounted (omega arith)

delete_all-live_count_example :
    length (iter_live_doc_ids (delete_all (all_live 3) (1 ∷ 1 ∷ 7 ∷ [])))
    ≡ live_count (delete_all (all_live 3) (1 ∷ 1 ∷ 7 ∷ []))
delete_all-live_count_example = delete_all-live_count 3 (1 ∷ 1 ∷ 7 ∷ [])
