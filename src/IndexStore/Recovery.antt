-- ===== src/IndexStore/Recovery.antt =====
-- `recover_from_disk` of crates/surch-store/src/index_store.rs: what a restart brings back.
use surch.Base.{ℕ, ◌≤◌, ◌<◌, ◌≡◌, refl, ◌∙◌, arith, max, ltb}
use surch.Base.{
  List, [], ◌∷◌, ◌++◌, All, Option, none, some, ok, le→ltb, ltb→lt, Bool-cases, inl, inr,
}
use surch.Wal.Record.{WalRecord}
use surch.Wal.Log.{
  WriteAheadLog, done, entries_above, retain_entries_greater_than, last_sequence_of, append_index,
  append, push_record, check_append,
}
use surch.Wal.RoundTrip.{log_file, flush-log_file}
use surch.Segments.Disk.{insert}
use surch.Segments.Name.{segment_name}
use surch.Segments.Store.{Json, all_records}
use surch.Segments.Append.{
  IsNamed, new_segment, with_segment, append_entries-some, read_segments-with_segment,
}
use surch.IndexStore.Defs.{IndexStore, Files, Answers, After, max_sequence, replay_records, or_zero}
use surch.IndexStore.Defs.{trim_log, replay, after_replay, recover_from_disk, all_segment_records}

-- Every step of the file system succeeds.
abbrev pub all_done : Answers
all_done = record { log_write = done; segment_write = done; merge_write = done; removals = [] }

-- The log after a recovery: no entry, and the numbering starts again.
abbrev pub fresh_log : WriteAheadLog
fresh_log = record { next_sequence = 0; entries = [] }

abbrev pub AtMost : ℕ → List WalRecord → Type 0
AtMost m rs = All (λ r. r.sequence ≤ m) rs

AtMost-weaken : (n m : ℕ) (rs : List WalRecord) → n ≤ m → AtMost n rs → AtMost m rs
AtMost-weaken n m [] l h = tt
AtMost-weaken n m (r ∷ rs) l (hr, h) = (omega arith, AtMost-weaken n m rs l h)

or_zero-max_sequence :
    (r : WalRecord) (rs : List WalRecord)
    → or_zero (max_sequence (r ∷ rs)) ≡ max r.sequence (or_zero (max_sequence rs))
unfolding max_sequence
or_zero-max_sequence r rs = ground arith

pub max_sequence-AtMost : (rs : List WalRecord) → AtMost (or_zero (max_sequence rs)) rs
unfolding max_sequence
max_sequence-AtMost [] = tt
max_sequence-AtMost (r ∷ rs) =
    let top = or_zero-max_sequence r rs in
    (
      omega (arith, top),
      AtMost-weaken (or_zero (max_sequence rs)) _ rs (omega (arith, top)) (max_sequence-AtMost rs),
    )

pub entries_above-AtMost : (m : ℕ) (rs : List WalRecord) → AtMost m rs → entries_above m rs ≡ []
unfolding entries_above
entries_above-AtMost m [] h = refl
entries_above-AtMost m (r ∷ rs) (hr, h) = rw (le→ltb m r.sequence hr) (entries_above-AtMost m rs h)

-- What lies above `low` is at most `m`, so all of it is.
AtMost-entries_above :
    (low m : ℕ) (rs : List WalRecord) → low ≤ m → AtMost m (entries_above low rs) → AtMost m rs
unfolding entries_above
AtMost-entries_above low m [] l h = tt
AtMost-entries_above low m (r ∷ rs) l h = elim (Bool-cases (ltb low r.sequence)) [
  | inl e ↦
      (let kept : AtMost m (r ∷ entries_above low rs) = rw e at h in
        (kept.0, AtMost-entries_above low m rs l kept.1))
  | inr e ↦
      (let kept : AtMost m (entries_above low rs) = rw e at h in
        (ground (arith, e), AtMost-entries_above low m rs l kept))
]

entries_above-All :
    (low : ℕ) (rs : List WalRecord) → All (λ r. low < r.sequence) (entries_above low rs)
unfolding entries_above
entries_above-All low [] = tt
entries_above-All low (r ∷ rs) = elim (Bool-cases (ltb low r.sequence)) [
  | inl e ↦ rw e (ltb→lt low r.sequence e, entries_above-All low rs)
  | inr e ↦ rw e (entries_above-All low rs)
]

-- All that the log holds is at most the last number that is replayed.
replayed-AtMost :
    (persisted : Option ℕ) (entries : List WalRecord) (r : WalRecord) (rs : List WalRecord)
    → replay_records persisted entries ≡ r ∷ rs
    → AtMost (or_zero (max_sequence (r ∷ rs))) entries
unfolding replay_records
replayed-AtMost none entries r rs e = rw e (max_sequence-AtMost (r ∷ rs))
replayed-AtMost (some low) entries r rs e =
    let bound : AtMost (or_zero (max_sequence (r ∷ rs))) (r ∷ rs) = max_sequence-AtMost (r ∷ rs) in
    let above : All (λ r. low < r.sequence) (r ∷ rs) = rw e at (entries_above-All low entries) in
    AtMost-entries_above low (or_zero (max_sequence (r ∷ rs))) entries
      (omega (arith, bound.0, above.0)) (rw e bound)

-- A log whose entries are all persisted is emptied, and numbers from 1 again.
retain-fresh :
    (m : ℕ) (log : WriteAheadLog) (file : Option (List ℕ))
    → AtMost m log.entries
    → retain_entries_greater_than m done log file ≡ (fresh_log, some (log_file []), ok tt)
unfolding retain_entries_greater_than last_sequence_of
retain-fresh m log file h =
    rw (entries_above-AtMost m log.entries h, flush-log_file fresh_log file tt) refl

module _ (json : Json) (store : IndexStore) (files : Files) where
  -- A trim of a log whose entries are all persisted.
  abbrev pub trimmed : After (Unit {0})
  trimmed = record {
    store = record store { log = fresh_log };
    files = record files { wal_file = some (log_file []) };
    result = ok tt;
  }

  trim_log-trimmed :
      (m : Option ℕ)
      → AtMost (or_zero m) store.log.entries
      → trim_log json all_done store files m ≡ trimmed
  unfolding trim_log
  trim_log-trimmed m h = rw (retain-fresh (or_zero m) store.log files.wal_file h) refl

  -- When the segments are readable, hold records up to the number m and no entry of the log lies
  -- above m, recovery on a file system that fails nowhere returns ok, leaves the segments and
  -- their files as they are, empties the log and its file and sets the counter of the log to 0.
  pub recover_from_disk-persisted :
      (persisted : List WalRecord) (m : ℕ)
      → all_records json store.segments files.segment_files ≡ ok persisted
      → max_sequence persisted ≡ some m
      → AtMost m store.log.entries
      → recover_from_disk json all_done store files ≡ trimmed
  unfolding recover_from_disk replay_records replay
  recover_from_disk-persisted persisted m held top h =
      rw (recover_from_disk, held, top, replay_records, entries_above-AtMost m store.log.entries h)
        (trim_log-trimmed (some m) h)

recover_from_disk-replay :
    (json : Json) (store : IndexStore) (files : Files) (persisted news : List WalRecord)
    → all_records json store.segments files.segment_files ≡ ok persisted
    → replay_records (max_sequence persisted) store.log.entries ≡ news
    → recover_from_disk json all_done store files
      ≡ replay json all_done store files (max_sequence persisted) news
unfolding recover_from_disk
recover_from_disk-replay json store files persisted news held e =
    rw (recover_from_disk, held, e) refl

-- The replay of entries that are not empty writes them as a segment and empties the log.
replay-trimmed :
    (json : Json) (store : IndexStore) (files : Files) (persisted : Option ℕ) (r : WalRecord)
    (rs : List WalRecord) (bytes : List ℕ)
    → json.to_vec (record { metadata = new_segment json store.segments (r ∷ rs); records = r ∷ rs })
      ≡ some bytes
    → AtMost (or_zero (max_sequence (r ∷ rs))) store.log.entries
    → replay json all_done store files persisted (r ∷ rs)
      ≡ trimmed json
          (record store { segments = with_segment json store.segments (r ∷ rs) })
          (record files {
            segment_files =
                insert (segment_name store.segments.next_segment_id) bytes files.segment_files;
          })
unfolding replay after_replay
replay-trimmed json store files persisted r rs bytes e h =
    rw (append_entries-some json store.segments files.segment_files r rs bytes e)
      (trim_log-trimmed json _ _ (max_sequence (r ∷ rs)) h)

-- On a file system that fails nowhere and a serialiser that accepts the new segment, for a store
-- whose segment names are its own and whose segments are readable, when the log has records above
-- the last persisted number: recovery returns ok, the segments then hold what they held and behind
-- it those records in the order of the log, and the log has no entry left and its counter is 0.
pub recover_from_disk-replays :
    (json : Json) (store : IndexStore) (files : Files) (persisted : List WalRecord) (r : WalRecord)
    (rs : List WalRecord) (bytes : List ℕ)
    → IsNamed store.segments
    → all_records json store.segments files.segment_files ≡ ok persisted
    → replay_records (max_sequence persisted) store.log.entries ≡ r ∷ rs
    → json.to_vec (record { metadata = new_segment json store.segments (r ∷ rs); records = r ∷ rs })
      ≡ some bytes
    → ((recover_from_disk json all_done store files).result ≡ ok tt)
      × (all_segment_records json
            (recover_from_disk json all_done store files).store
            (recover_from_disk json all_done store files).files
          ≡ ok (persisted ++ r ∷ rs))
      × ((recover_from_disk json all_done store files).store.log ≡ fresh_log)
unfolding all_segment_records all_records
recover_from_disk-replays json store files persisted r rs bytes named held news e =
    let store' : IndexStore = record store {
      segments = with_segment json store.segments (r ∷ rs);
    } in
    let files' : Files = record files {
      segment_files =
          insert (segment_name store.segments.next_segment_id) bytes files.segment_files;
    } in
    let end : recover_from_disk json all_done store files ≡ trimmed json store' files' =
      recover_from_disk-replay json store files persisted (r ∷ rs) held news
      ∙ replay-trimmed json store files (max_sequence persisted) r rs bytes e
          (replayed-AtMost (max_sequence persisted) store.log.entries r rs news) in
    rw end (
      refl,
      rw
          (read_segments-with_segment json store.segments files.segment_files (r ∷ rs) persisted
            bytes named held e)
          refl,
      refl,
    )

-- When the segments are readable and hold records up to a number m from 1 on, a valid document
-- appended to the empty log that a recovery leaves is accepted with the number 1, and a recovery
-- of that log on a file system that fails nowhere returns ok, drops the entry and leaves the
-- segments and their files as they are.
pub append_index-dropped :
    (json : Json) (store : IndexStore) (files : Files) (persisted : List WalRecord) (m millis : ℕ)
    (now : Option ℕ) (index doc_id value : List ℕ)
    → all_records json store.segments files.segment_files ≡ ok persisted
    → max_sequence persisted ≡ some m
    → 1 ≤ m
    → check_append now index doc_id ≡ ok millis
    → ((append_index fresh_log now index doc_id value).1 ≡ ok 1)
      × (recover_from_disk json all_done
            (record store { log = (append_index fresh_log now index doc_id value).0 })
            files
          ≡ trimmed json store files)
unfolding append_index append push_record
append_index-dropped json store files persisted m millis now index doc_id value held top pos
      checked =
    rw (checked, push_record)
      (refl, recover_from_disk-persisted json _ files persisted m held top (pos, tt))
