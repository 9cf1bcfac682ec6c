-- ===== src/IndexStore/Runs.antt =====
-- Runs of crates/surch-store/src/index_store.rs: one deletion is flushed, and recovered.
use surch.Base.{◌+◌, ◌≡◌, refl, arith, [], ◌∷◌, none, some, ok, length}
use surch.Bytes.{is_utf8}
use surch.Wal.Identifier.{validate_identifier, is_blank, has_forbidden_byte}
use surch.Wal.Log.{append_index, check_append}
use surch.Wal.RoundTrip.{IsStorable}
use surch.Segments.Store.{all_records, read_segments, read_segment_records, parse_records}
use surch.Segments.Disk.{lookup}
use surch.Segments.Name.{segment_name, padded}
use surch.Segments.Append.{new_segment}
use surch.Segments.Sample.{
  sample_json, sample_record, sample_store, sample_store-IsNamed, sample_store-all_records,
  sample_text, sample_written,
}
use surch.IndexStore.Defs.{
  IndexStore, Files, flush_wal, recover_from_disk, all_segment_records, merge_count, max_sequence,
  replay_records,
}
use surch.IndexStore.Recovery.{
  all_done, fresh_log, trimmed, recover_from_disk-replays, recover_from_disk-persisted,
  append_index-dropped,
}
use surch.IndexStore.Flush.{flush_wal-all_segment_records}

-- The log holds one deletion and the folder of the segments is empty.
abbrev one_entry : IndexStore
one_entry = record {
  log = record { next_sequence = 1; entries = sample_record ∷ [] };
  segments = sample_store;
  config = record { merge_threshold = 8; keep_recent_segments = 2 };
}

abbrev no_files : Files
no_files = record { wal_file = none; segment_files = [] }

sample_record-IsStorable : IsStorable sample_record
unfolding is_utf8 validate_identifier is_blank has_forbidden_byte
sample_record-IsStorable = record {
  encodable = record {
    sequence_fits = omega arith;
    timestamp_fits = omega arith;
    index_fits = omega arith;
    doc_id_fits = omega arith;
    index_utf8 = refl;
    doc_id_utf8 = refl;
    operation_fits = tt;
  };
  index_valid = refl;
  doc_id_valid = refl;
}

one_entry-replay_records :
    replay_records (max_sequence []) one_entry.log.entries ≡ sample_record ∷ []
unfolding replay_records max_sequence
one_entry-replay_records = refl

one_entry-merge_count : merge_count one_entry.config (length one_entry.segments.segments + 1) ≡ 0
unfolding merge_count
one_entry-merge_count = refl

flush_wal-all_segment_records_example :
    ((flush_wal sample_json all_done one_entry no_files).result
      ≡ ok (some (new_segment sample_json sample_store (sample_record ∷ []))))
    × (all_segment_records sample_json
          (flush_wal sample_json all_done one_entry no_files).store
          (flush_wal sample_json all_done one_entry no_files).files
        ≡ ok (sample_record ∷ []))
    × ((flush_wal sample_json all_done one_entry no_files).store.log
        ≡ record { next_sequence = 1; entries = [] })
flush_wal-all_segment_records_example =
    flush_wal-all_segment_records sample_json one_entry no_files [] sample_record [] sample_text
      sample_store-IsNamed sample_store-all_records (sample_record-IsStorable, tt) refl
      sample_written one_entry-merge_count

recover_from_disk-replays_example :
    ((recover_from_disk sample_json all_done one_entry no_files).result ≡ ok tt)
    × (all_segment_records sample_json
          (recover_from_disk sample_json all_done one_entry no_files).store
          (recover_from_disk sample_json all_done one_entry no_files).files
        ≡ ok (sample_record ∷ []))
    × ((recover_from_disk sample_json all_done one_entry no_files).store.log ≡ fresh_log)
recover_from_disk-replays_example =
    recover_from_disk-replays sample_json one_entry no_files [] sample_record [] sample_text
      sample_store-IsNamed sample_store-all_records one_entry-replay_records sample_written

-- The same store, once the deletion is also in a segment.
abbrev one_segment : IndexStore
one_segment = record one_entry {
  segments = record {
    segments = new_segment sample_json sample_store (sample_record ∷ []) ∷ [];
    next_segment_id = 2;
    keep_recent_segments = 1;
  };
}

abbrev one_file : Files
one_file = record { wal_file = none; segment_files = (segment_name 1, sample_text) ∷ [] }

one_segment-all_records :
    all_records sample_json one_segment.segments one_file.segment_files ≡ ok (sample_record ∷ [])
unfolding all_records read_segments read_segment_records parse_records lookup segment_name
    sample_json padded
one_segment-all_records = refl

one_segment-max_sequence : max_sequence (sample_record ∷ []) ≡ some 1
unfolding max_sequence
one_segment-max_sequence = refl

recover_from_disk-persisted_example :
    recover_from_disk sample_json all_done one_segment one_file
    ≡ trimmed sample_json one_segment one_file
recover_from_disk-persisted_example =
    recover_from_disk-persisted sample_json one_segment one_file (sample_record ∷ []) 1
      one_segment-all_records one_segment-max_sequence (omega arith, tt)

sample_check_append : check_append (some 7) sample_record.index sample_record.doc_id ≡ ok 7
unfolding check_append validate_identifier is_blank has_forbidden_byte
sample_check_append = refl

append_index-dropped_example :
    ((append_index fresh_log (some 7) sample_record.index sample_record.doc_id []).1 ≡ ok 1)
    × (recover_from_disk sample_json all_done
          (record one_segment {
            log = (append_index fresh_log (some 7) sample_record.index sample_record.doc_id []).0;
          })
          one_file
        ≡ trimmed sample_json one_segment one_file)
append_index-dropped_example =
    append_index-dropped sample_json one_segment one_file (sample_record ∷ []) 1 7 (some 7)
      sample_record.index sample_record.doc_id [] one_segment-all_records one_segment-max_sequence
      (omega arith) sample_check_append
