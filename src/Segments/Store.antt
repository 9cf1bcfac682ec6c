-- ===== src/Segments/Store.antt =====
-- `SegmentStore` of crates/surch-store/src/segment_store.rs. The directory is a value beside the
-- store; the JSON library is a parameter.
use surch.Base.{
  ℕ, ◌+◌, ◌-◌, ◌%◌, ◌^◌, ◌<◌, ◌≡◌, min, max, ltb, leb, ◌==◌, ◌&&◌, ◌||◌, if◌then◌else◌, not, map,
}
use surch.Base.{Bool, true, false, List, [], ◌∷◌, ◌++◌, length, take, drop, Option, none, some}
use surch.Base.{Result, ok, err, ◌>>=◌, ◌>>◌, ok_or}
use surch.Wal.Record.{WalRecord}
use surch.Wal.Log.{Io, done, failed}
use surch.Segments.Name.{segment_name, parse_segment_id, is_segment_file}
use surch.Segments.Disk.{Disk, lookup, insert, remove}

pub record SegmentMetadata : Type 0 where
  pub file_name : List ℕ
  pub records : ℕ

pub record PersistedSegment : Type 0 where
  pub metadata : SegmentMetadata
  pub records : List WalRecord

-- `io` carries an error number, `missing` stands for the number of a file that is not there.
pub data SegmentStoreError : Type 0 where
  io : ℕ → SegmentStoreError
  missing : List ℕ → SegmentStoreError
  invalid_segment_file : List ℕ → SegmentStoreError

abbrev pub SegmentResult : Type 0 → Type 0
SegmentResult A = Result SegmentStoreError A

pub record SegmentStore : Type 0 where
  pub segments : List SegmentMetadata
  pub next_segment_id : ℕ
  pub keep_recent_segments : ℕ

-- What the store relies on of serde_json: a serialised segment is a text that is not empty and
-- that is read back.
pub record Json : Type 1 where
  pub to_vec : PersistedSegment → Option (List ℕ)
  pub from_slice : List ℕ → Option PersistedSegment
  pub to_vec-pos :
      (p : PersistedSegment) (bytes : List ℕ) → to_vec p ≡ some bytes → 0 < length bytes
  pub from_slice-to_vec :
      (p : PersistedSegment) (bytes : List ℕ) → to_vec p ≡ some bytes → from_slice bytes ≡ some p

-- `write_atomic`: the file appears whole, or not at all.
unfoldable pub write_atomic : Io → List ℕ → List ℕ → Disk → Disk × SegmentResult (Unit {0})
write_atomic done name bytes disk = (insert name bytes disk, ok tt)
write_atomic (failed code) name bytes disk = (disk, err (io code))

-- The loop over `to_merge_file_names`. Each removal takes an answer; none left means done.
unfoldable pub remove_files : List Io → List (List ℕ) → Disk → Disk × SegmentResult (Unit {0})
remove_files answers [] disk = (disk, ok tt)
remove_files (failed code ∷ answers) (name ∷ names) disk = (disk, err (io code))
remove_files [] (name ∷ names) disk = elim (lookup name disk) [
  | none ↦ (disk, err (missing name))
  | some bytes ↦ remove_files [] names (remove name disk)
]
remove_files (done ∷ answers) (name ∷ names) disk = elim (lookup name disk) [
  | none ↦ (disk, err (missing name))
  | some bytes ↦ remove_files answers names (remove name disk)
]

abbrev pub file_names : List SegmentMetadata → List (List ℕ)
file_names [] = []
file_names (m ∷ ms) = m.file_name ∷ file_names ms

-- `filter_map(parse_segment_id(..).ok()).max()`
unfoldable pub max_segment_id : List SegmentMetadata → ℕ
max_segment_id [] = 0
max_segment_id (m ∷ ms) = elim (parse_segment_id m.file_name) [
  | none ↦ max_segment_id ms
  | some id ↦ max id (max_segment_id ms)
]

unfoldable pub next_segment_id : List SegmentMetadata → ℕ
unfolding max_segment_id
next_segment_id segments = (max_segment_id segments + 1) % 2 ^ 64

-- `a <= b` on file names, byte by byte.
abbrev pub name_le : List ℕ → List ℕ → Bool
name_le [] ys = true
name_le (x ∷ xs) [] = false
name_le (x ∷ xs) (y ∷ ys) = ltb x y || x == y && name_le xs ys

-- A stable sort by a key that `le` compares.
unfoldable pub insert_by : {A : Type 0} → (A → A → Bool) → A → List A → List A
insert_by le a [] = a ∷ []
insert_by le a (b ∷ bs) = if le a b then a ∷ b ∷ bs else b ∷ insert_by le a bs

unfoldable pub sort_by : {A : Type 0} → (A → A → Bool) → List A → List A
unfolding insert_by
sort_by le [] = []
sort_by le (a ∷ as') = insert_by le a (sort_by le as')

-- `merge_oldest_segments`: how many segments it merges.
unfoldable pub merge_width : ℕ → ℕ → ℕ → ℕ
merge_width keep_recent segment_count count =
    if ltb count 2 || leb segment_count 1
    then 0
    else let safe_to_merge = min keep_recent (segment_count - 1) in
      min count (segment_count - safe_to_merge)

-- The store and the directory after an operation, and its result.
abbrev pub Outcome : Type 0 → Type 0
Outcome A = SegmentStore × Disk × SegmentResult A

module _ (json : Json) where
  open json use {to_vec, from_slice}

  -- The free function `read_segment_records`, on the bytes of the file `name`.
  unfoldable pub parse_records : List ℕ → List ℕ → SegmentResult (List WalRecord)
  parse_records name [] = ok []
  parse_records name (b ∷ bytes) = elim (from_slice (b ∷ bytes)) [
    | none ↦ err (invalid_segment_file name)
    | some payload ↦ ok payload.records
  ]

  unfoldable pub read_segment_records : Disk → List ℕ → SegmentResult (List WalRecord)
  unfolding parse_records
  read_segment_records disk name = elim (lookup name disk) [
    | none ↦ err (missing name)
    | some bytes ↦ parse_records name bytes
  ]

  -- The records of the segments, one segment after the other.
  unfoldable pub read_segments : Disk → List SegmentMetadata → SegmentResult (List WalRecord)
  read_segments disk [] = ok []
  read_segments disk (m ∷ ms) = do
    records ← read_segment_records disk m.file_name
    rest ← read_segments disk ms
    ok (records ++ rest)

  unfoldable pub all_records : SegmentStore → Disk → SegmentResult (List WalRecord)
  all_records store disk = read_segments disk store.segments

  -- What `append_entries` and `merge_oldest_segments` share: the next name is taken, the records
  -- are serialised and the file is written.
  unfoldable pub write_segment : Io → List WalRecord → SegmentStore → Disk → Outcome SegmentMetadata
  write_segment answer entries store disk =
      let metadata : SegmentMetadata = record {
        file_name = segment_name store.next_segment_id;
        records = length entries;
      } in
      let store' : SegmentStore = record store {
        next_segment_id = (store.next_segment_id + 1) % 2 ^ 64;
      } in
      elim (to_vec (record { metadata = metadata; records = entries })) [
        | none ↦ (store', disk, err (invalid_segment_file metadata.file_name))
        | some bytes ↦
            let (disk', result) = write_atomic answer metadata.file_name bytes disk in
            (store', disk', result >> ok metadata)
      ]

  -- The tail of `append_entries`: `self.segments.push(metadata.clone())`.
  abbrev pub push_segment : Outcome SegmentMetadata → Outcome (Option SegmentMetadata)
  push_segment (store, disk, err e) = (store, disk, err e)
  push_segment (store, disk, ok metadata) =
      (record store { segments = store.segments ++ metadata ∷ [] }, disk, ok (some metadata))

  unfoldable pub append_entries :
      Io → List WalRecord → SegmentStore → Disk → Outcome (Option SegmentMetadata)
  append_entries answer [] store disk = (store, disk, ok none)
  append_entries answer (r ∷ rs) store disk =
      push_segment (write_segment answer (r ∷ rs) store disk)

  -- The rest of a merge, once the sources' records have been read.
  unfoldable pub replace_oldest :
      Io → List Io → ℕ → List WalRecord → SegmentStore → Disk → Outcome (Option SegmentMetadata)
  replace_oldest answer removals to_merge merged_records store disk =
      let (store', disk', result) = write_segment answer merged_records store disk in
      elim result [
        | err e ↦ (store', disk', err e)
        | ok metadata ↦
            let (disk'', removed) =
              remove_files removals (file_names (take to_merge store.segments)) disk' in
            elim removed [
              | err e ↦ (store', disk'', err e)
              | ok _ ↦ (
                record store' { segments = metadata ∷ drop to_merge store.segments },
                disk'',
                ok (some metadata),
              )
            ]
      ]

  unfoldable pub merge_oldest_segments :
      Io → List Io → ℕ → SegmentStore → Disk → Outcome (Option SegmentMetadata)
  unfolding replace_oldest
  merge_oldest_segments answer removals count store disk =
      let to_merge = merge_width store.keep_recent_segments (length store.segments) count in
      if to_merge == 0
      then (store, disk, ok none)
      else elim (read_segments disk (take to_merge store.segments)) [
        | err e ↦ (store, disk, err e)
        | ok merged_records ↦ replace_oldest answer removals to_merge merged_records store disk
      ]

  -- `read_segment_metadata`: the segment files of the listing, with their identifiers.
  unfoldable pub scan : Disk → SegmentResult (List (ℕ × SegmentMetadata))
  scan [] = ok []
  scan ((name, bytes) ∷ disk) = if not (is_segment_file name) then scan disk else (do
    file_id ← ok_or (parse_segment_id name) (invalid_segment_file name)
    records ← parse_records name bytes
    rest ← scan disk
    ok ((file_id, record { file_name = name; records = length records }) ∷ rest))

  unfoldable pub read_segment_metadata : Disk → SegmentResult (List SegmentMetadata)
  unfolding scan
  read_segment_metadata disk = do
    found ← scan disk
    ok (map (λ x. x.1) (sort_by (λ x y. leb x.0 y.0) found))

  -- `open_with_config`, on a directory that can be created and listed.
  unfoldable pub open_with_config : Disk → ℕ → SegmentResult SegmentStore
  open_with_config disk keep_recent = do
    found ← read_segment_metadata disk
    let segments = sort_by (λ (a b : SegmentMetadata). name_le a.file_name b.file_name) found
    ok (record {
      segments = segments;
      next_segment_id = next_segment_id segments;
      keep_recent_segments = max keep_recent 1;
    })
