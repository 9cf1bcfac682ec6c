-- ===== src/IndexStore/Flush.antt =====
-- `flush_wal` of crates/surch-store/src/index_store.rs: the log's entries move to the segments.
use surch.Base.{ℕ, ◌+◌, ◌≡◌, refl, ap, ◌∙◌}
use surch.Base.{List, [], ◌∷◌, ◌++◌, All, Option, some, ok, length, length-append}
use surch.Wal.Record.{WalRecord}
use surch.Wal.Log.{drain_entries}
use surch.Wal.RoundTrip.{IsStorable, log_file, flush-log_file}
use surch.Segments.Disk.{insert}
use surch.Segments.Name.{segment_name}
use surch.Segments.Store.{SegmentMetadata, Json, all_records}
use surch.Segments.Append.{
  IsNamed, new_segment, with_segment, append_entries-some, read_segments-with_segment,
}
use surch.IndexStore.Defs.{
  IndexStore, Files, Answers, After, merge_count, merge_after_flush, after_append,
}
use surch.IndexStore.Defs.{append_drained, after_flush, flush_wal, all_segment_records}
use surch.IndexStore.Recovery.{all_done}

module _ (json : Json) (store : IndexStore) (files : Files) where
  -- What a flush without a merge leaves.
  abbrev pub flushed : List WalRecord → List ℕ → After (Option SegmentMetadata)
  flushed entries bytes = record {
    store = record store {
      log = record (store.log) { entries = [] };
      segments = with_segment json store.segments entries;
    };
    files = record {
      wal_file = some (log_file store.log.entries);
      segment_files =
          insert (segment_name store.segments.next_segment_id) bytes files.segment_files;
    };
    result = ok (some (new_segment json store.segments entries));
  }

  merge_after_flush-none :
      (answers : Answers) (appended : Option SegmentMetadata)
      → merge_count store.config (length store.segments.segments) ≡ 0
      → merge_after_flush json answers store files appended
        ≡ record { store = store; files = files; result = ok appended }
  unfolding merge_after_flush
  merge_after_flush-none answers appended e = rw e refl

append_drained-after :
    (json : Json) (store : IndexStore) (files : Files) (r : WalRecord) (rs : List WalRecord)
    (bytes : List ℕ)
    → json.to_vec (record { metadata = new_segment json store.segments (r ∷ rs); records = r ∷ rs })
      ≡ some bytes
    → merge_count store.config (length store.segments.segments + 1) ≡ 0
    → append_drained json all_done store files (r ∷ rs) ≡ record {
      store = record store { segments = with_segment json store.segments (r ∷ rs) };
      files = record files {
        segment_files =
            insert (segment_name store.segments.next_segment_id) bytes files.segment_files;
      };
      result = ok (some (new_segment json store.segments (r ∷ rs)));
    }
unfolding append_drained after_append
append_drained-after json store files r rs bytes e few =
    rw (append_entries-some json store.segments files.segment_files r rs bytes e) (
      merge_after_flush-none json _ _ all_done _
        (ap (merge_count store.config) (length-append store.segments.segments _) ∙ few))

flush_wal-flushed :
    (json : Json) (store : IndexStore) (files : Files) (r : WalRecord) (rs : List WalRecord)
    (bytes : List ℕ)
    → All IsStorable store.log.entries
    → store.log.entries ≡ r ∷ rs
    → json.to_vec (record { metadata = new_segment json store.segments (r ∷ rs); records = r ∷ rs })
      ≡ some bytes
    → merge_count store.config (length store.segments.segments + 1) ≡ 0
    → flush_wal json all_done store files ≡ flushed json store files (r ∷ rs) bytes
unfolding flush_wal after_flush drain_entries
flush_wal-flushed json store files r rs bytes h entries e few =
    ap (after_flush json all_done store files) (flush-log_file store.log files.wal_file h)
    ∙ ap (append_drained json all_done _ _) entries
    ∙ append_drained-after json _ _ r rs bytes e few

-- On a file system that fails nowhere and a serialiser that accepts the new segment, for a store
-- whose segment names are its own, whose segments are readable, whose log has storable entries and
-- whose segments with the new one stay within the merge threshold: a flush returns the new
-- segment, the segments then hold what they held and behind it the entries of the log, and the log
-- in memory has no entry left and keeps its counter.
pub flush_wal-all_segment_records :
    (json : Json) (store : IndexStore) (files : Files) (persisted : List WalRecord) (r : WalRecord)
    (rs : List WalRecord) (bytes : List ℕ)
    → IsNamed store.segments
    → all_records json store.segments files.segment_files ≡ ok persisted
    → All IsStorable store.log.entries
    → store.log.entries ≡ r ∷ rs
    → json.to_vec (record { metadata = new_segment json store.segments (r ∷ rs); records = r ∷ rs })
      ≡ some bytes
    → merge_count store.config (length store.segments.segments + 1) ≡ 0
    → ((flush_wal json all_done store files).result
        ≡ ok (some (new_segment json store.segments (r ∷ rs))))
      × (all_segment_records json
            (flush_wal json all_done store files).store
            (flush_wal json all_done store files).files
          ≡ ok (persisted ++ r ∷ rs))
      × ((flush_wal json all_done store files).store.log
          ≡ record { next_sequence = store.log.next_sequence; entries = [] })
unfolding all_segment_records all_records
flush_wal-all_segment_records json store files persisted r rs bytes named held h entries e few =
    rw (flush_wal-flushed json store files r rs bytes h entries e few) (
      refl,
      rw
          (read_segments-with_segment json store.segments files.segment_files (r ∷ rs) persisted
            bytes named held e)
          refl,
      refl,
    )
