-- ===== src/IndexStore/Defs.antt =====
-- `IndexStore` of crates/surch-store/src/index_store.rs. The files of its two folders are values
-- beside the store.
use surch.Base.{ℕ, ◌-◌, ltb, ◌==◌, min, max, if◌then◌else◌, List, [], ◌∷◌, Option, none, some}
use surch.Base.{length, Result, ok, err, ◌>>=◌}
use surch.Wal.Identifier.{WalError, WalResult}
use surch.Wal.Record.{WalRecord}
use surch.Wal.Log
use surch.Wal.Log.{WriteAheadLog, Io, done, drain_entries, flush}
use surch.Wal.Log.{entries_above, retain_entries_greater_than, open_log}
use surch.Segments.Disk.{Disk}
use surch.Segments.Store.{
  SegmentStore, SegmentMetadata, SegmentStoreError, SegmentResult, Json, Outcome,
}
use surch.Segments.Store.{append_entries, merge_oldest_segments, all_records, open_with_config}

pub data IndexStoreError : Type 0 where
  wal : WalError → IndexStoreError
  segment : SegmentStoreError → IndexStoreError

abbrev pub IndexResult : Type 0 → Type 0
IndexResult A = Result IndexStoreError A

abbrev pub from_wal : {A : Type 0} → WalResult A → IndexResult A
from_wal (ok a) = ok a
from_wal (err e) = err (wal e)

abbrev pub from_segment : {A : Type 0} → SegmentResult A → IndexResult A
from_segment (ok a) = ok a
from_segment (err e) = err (segment e)

pub record IndexStoreConfig : Type 0 where
  pub merge_threshold : ℕ
  pub keep_recent_segments : ℕ

-- The two folders of the store.
pub record Files : Type 0 where
  pub wal_file : Option (List ℕ)
  pub segment_files : Disk

pub record IndexStore : Type 0 where
  pub log : WriteAheadLog
  pub segments : SegmentStore
  pub config : IndexStoreConfig

-- The store, its folders and the result of an operation.
pub record After (A : Type 0) : Type 0 where
  pub store : IndexStore
  pub files : Files
  pub result : IndexResult A

unfoldable pub append_index :
    IndexStore → Option ℕ → List ℕ → List ℕ → List ℕ → IndexStore × IndexResult ℕ
append_index store now index id source =
    let (log, result) = Log.append_index store.log now index id source in
    (record store { log = log }, from_wal result)

unfoldable pub append_delete : IndexStore → Option ℕ → List ℕ → List ℕ → IndexStore × IndexResult ℕ
append_delete store now index id =
    let (log, result) = Log.append_delete store.log now index id in
    (record store { log = log }, from_wal result)

-- `records.iter().map(|entry| entry.sequence).max()`
unfoldable pub max_sequence : List WalRecord → Option ℕ
max_sequence [] = none
max_sequence (r ∷ rs) = elim (max_sequence rs) [
  | none ↦ some r.sequence
  | some m ↦ some (max r.sequence m)
]

abbrev pub or_zero : Option ℕ → ℕ
or_zero none = 0
or_zero (some m) = m

-- The records of the log that the segments do not have.
unfoldable pub replay_records : Option ℕ → List WalRecord → List WalRecord
replay_records none entries = entries
replay_records (some max_persisted) entries = entries_above max_persisted entries

-- How many segments `flush_wal` asks to merge; none below the threshold.
unfoldable pub merge_count : IndexStoreConfig → ℕ → ℕ
merge_count config segment_count =
    if ltb config.merge_threshold segment_count
    then min (max (segment_count - config.keep_recent_segments) 1) (segment_count - 1)
    else 0

-- The file system's answers to the steps of an operation.
pub record Answers : Type 0 where
  pub log_write : Io
  pub segment_write : Io
  pub merge_write : Io
  pub removals : List Io

module _ (json : Json) where
  -- The end of `flush_wal`: the merge, when there are too many segments.
  unfoldable pub merge_after_flush :
      Answers → IndexStore → Files → Option SegmentMetadata → After (Option SegmentMetadata)
  merge_after_flush answers store files appended =
      let count = merge_count store.config (length store.segments.segments) in
      let (segments, disk, result) =
        merge_oldest_segments json answers.merge_write answers.removals count store.segments
          files.segment_files in
      if count == 0 then record { store = store; files = files; result = ok appended } else record {
        store = record store { segments = segments };
        files = record files { segment_files = disk };
        result = elim result [
          | err e ↦ err (segment e)
          | ok none ↦ ok appended
          | ok (some merged) ↦ ok (some merged)
        ];
      }

  -- What follows the `append_entries` of `flush_wal`.
  unfoldable pub after_append :
      Answers
      → IndexStore
      → Files
      → Outcome (Option SegmentMetadata)
      → After (Option SegmentMetadata)
  unfolding merge_after_flush
  after_append answers store files (segments, disk, err e) = record {
    store = record store { segments = segments };
    files = record files { segment_files = disk };
    result = err (segment e);
  }
  after_append answers store files (segments, disk, ok appended) =
      merge_after_flush answers (record store { segments = segments })
        (record files { segment_files = disk }) appended

  -- The middle of `flush_wal`: the drained entries become a segment.
  unfoldable pub append_drained :
      Answers → IndexStore → Files → List WalRecord → After (Option SegmentMetadata)
  append_drained answers store files [] = record { store = store; files = files; result = ok none }
  append_drained answers store files (r ∷ rs) =
      after_append answers store files
        (append_entries json answers.segment_write (r ∷ rs) store.segments files.segment_files)

  -- What follows the `flush` of the log: `drain_entries`, then the segments.
  unfoldable pub after_flush :
      Answers
      → IndexStore
      → Files
      → Option (List ℕ) × WalResult (Unit {0})
      → After (Option SegmentMetadata)
  unfolding append_drained
  after_flush answers store files (wal_file, err e) = record {
    store = store;
    files = record files { wal_file = wal_file };
    result = err (wal e);
  }
  after_flush answers store files (wal_file, ok _) =
      let (log, entries) = drain_entries store.log in
      append_drained answers (record store { log = log }) (record files { wal_file = wal_file })
        entries

  unfoldable pub flush_wal : Answers → IndexStore → Files → After (Option SegmentMetadata)
  flush_wal answers store files =
      after_flush answers store files (flush answers.log_write store.log files.wal_file)

  unfoldable pub all_segment_records : IndexStore → Files → IndexResult (List WalRecord)
  all_segment_records store files =
      from_segment (all_records json store.segments files.segment_files)

  -- The end of `recover_from_disk`: the log keeps what lies above all that is persisted now.
  unfoldable pub trim_log : Answers → IndexStore → Files → Option ℕ → After (Unit {0})
  trim_log answers store files max_persisted =
      let (log, wal_file, result) =
        retain_entries_greater_than (or_zero max_persisted) answers.log_write store.log
          files.wal_file in
      record {
        store = record store { log = log };
        files = record files { wal_file = wal_file };
        result = from_wal result;
      }

  -- What follows the `append_entries` of `recover_from_disk`.
  unfoldable pub after_replay :
      Answers → IndexStore → Files → Option ℕ → Outcome (Option SegmentMetadata) → After (Unit {0})
  unfolding trim_log
  after_replay answers store files max_persisted (segments, disk, err e) = record {
    store = record store { segments = segments };
    files = record files { segment_files = disk };
    result = err (segment e);
  }
  after_replay answers store files max_persisted (segments, disk, ok _) =
      trim_log answers (record store { segments = segments })
        (record files { segment_files = disk }) max_persisted

  -- The replay of `recover_from_disk`: nothing is written if there is nothing to replay.
  unfoldable pub replay :
      Answers → IndexStore → Files → Option ℕ → List WalRecord → After (Unit {0})
  unfolding trim_log
  replay answers store files max_persisted [] = trim_log answers store files max_persisted
  replay answers store files max_persisted (r ∷ rs) =
      after_replay answers store files (max_sequence (r ∷ rs))
        (append_entries json answers.segment_write (r ∷ rs) store.segments files.segment_files)

  unfoldable pub recover_from_disk : Answers → IndexStore → Files → After (Unit {0})
  recover_from_disk answers store files =
      elim (all_records json store.segments files.segment_files) [
        | err e ↦ record { store = store; files = files; result = err (segment e) }
        | ok persisted ↦
            let max_persisted = max_sequence persisted in
            replay answers store files max_persisted
              (replay_records max_persisted store.log.entries)
      ]

  -- `IndexStore::open`: an error leaves no store, and the folders as far as they were written.
  unfoldable pub open_store : Answers → IndexStoreConfig → Files → Files × IndexResult IndexStore
  open_store answers config files = elim opened [
    | err e ↦ (files, err e)
    | ok store ↦
        let after = recover_from_disk answers store files in
        (after.files, after.result >>= λ _. ok after.store)
  ]
    where
      opened : IndexResult IndexStore
      opened = do
        log ← from_wal (open_log files.wal_file)
        segments ←
            from_segment (open_with_config json files.segment_files config.keep_recent_segments)
        ok (record { log = log; segments = segments; config = config })
