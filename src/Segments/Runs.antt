-- ===== src/Segments/Runs.antt =====
-- Runs of crates/surch-store/src/segment_store.rs on concrete segments.
use surch.Base.{ℕ, ◌≡◌, refl, arith, [], ◌∷◌, some, ok}
use surch.Wal.Log.{done}
use surch.Segments.Name.{
  parse_segment_id, segment_name, parse_segment_id-segment_name, segment_name-injective,
}
use surch.Segments.Store.{all_records, append_entries}
use surch.Segments.Append.{IsNamed, new_segment, append_entries-all_records, append_entries-IsNamed}
use surch.Segments.Sample.{
  sample_json, sample_record, sample_store, sample_store-IsNamed, sample_store-all_records,
  sample_text, sample_written,
}

parse_segment_id-segment_name_example : parse_segment_id (segment_name 41) ≡ some 41
parse_segment_id-segment_name_example = parse_segment_id-segment_name 41 (omega arith)

equal_names_of_seven : ◌≡◌ {A = ℕ} 5 5
equal_names_of_seven = segment_name-injective 5 5 (omega arith) (omega arith) refl

append_entries-all_records_example :
    (append_entries sample_json done (sample_record ∷ []) sample_store []).2
      ≡ ok (some (new_segment sample_json sample_store (sample_record ∷ [])))
    × all_records sample_json
        (append_entries sample_json done (sample_record ∷ []) sample_store []).0
        (append_entries sample_json done (sample_record ∷ []) sample_store []).1
      ≡ ok (sample_record ∷ [])
append_entries-all_records_example =
    append_entries-all_records sample_json sample_store [] sample_record [] [] sample_text
      sample_store-IsNamed sample_store-all_records sample_written

append_entries-IsNamed_example :
    IsNamed (append_entries sample_json done (sample_record ∷ []) sample_store []).0
append_entries-IsNamed_example =
    append_entries-IsNamed sample_json sample_store [] sample_record [] sample_text
      sample_store-IsNamed (omega arith) sample_written
