-- ===== src/Memory/Directory.antt =====
-- `MemoryDirectory` of crates/surch-store/src/directory.rs. An output and an input are the bytes
-- that they hold.
use surch.Base.{ℕ, ◌%◌, ◌^◌, not, Bool, true, false, List, [], ◌∷◌, length, Option, none, some}
use surch.Base.{Result, ok, err, ◌>>=◌, ◌>>◌, guard, ok_or}
use surch.Segments.Disk.{Disk, lookup, insert, remove}
use surch.Segments.Store.{sort_by, name_le}
use surch.Memory.Names.{Names, has_name, add_name, drop_name}

pub data DirectoryError : Type 0 where
  file_not_found : List ℕ → DirectoryError
  already_exists : List ℕ → DirectoryError
  invalid_empty_name : DirectoryError

abbrev pub DirectoryResult : Type 0 → Type 0
DirectoryResult A = Result DirectoryError A

pub record MemoryDirectory : Type 0 where
  pub files : Disk
  pub synced_files : Names
  pub metadata_synced : Bool

abbrev pub new : MemoryDirectory
new = record { files = []; synced_files = []; metadata_synced = false }

-- The directory after an operation, and its result.
abbrev pub Changed : Type 0
Changed = MemoryDirectory × DirectoryResult (Unit {0})

unfoldable pub validate_name : List ℕ → DirectoryResult (Unit {0})
validate_name [] = err invalid_empty_name
validate_name (c ∷ name) = ok tt

abbrev pub is_present : Option (List ℕ) → Bool
is_present none = false
is_present (some bytes) = true

-- `BTreeMap::contains_key`
unfoldable pub contains_key : List ℕ → Disk → Bool
contains_key name files = is_present (lookup name files)

-- The guards of `create_output`, `write_output` and `write_file`.
unfoldable pub check_new : MemoryDirectory → List ℕ → DirectoryResult (Unit {0})
unfolding validate_name contains_key
check_new dir name = do
  validate_name name
  guard (not (contains_key name dir.files)) (already_exists name)

-- The output starts empty.
unfoldable pub create_output : MemoryDirectory → List ℕ → DirectoryResult (List ℕ)
create_output dir name = check_new dir name >> ok []

-- The change of `write_output` and `write_file`.
abbrev pub put : MemoryDirectory → List ℕ → List ℕ → DirectoryResult (Unit {0}) → Changed
put dir name bytes (err e) = (dir, err e)
put dir name bytes (ok _) = (
  record {
    files = insert name bytes dir.files;
    synced_files = drop_name name dir.synced_files;
    metadata_synced = false;
  },
  ok tt,
)

unfoldable pub write_output : MemoryDirectory → List ℕ → List ℕ → Changed
write_output dir name output = put dir name output (check_new dir name)

unfoldable pub write_file : MemoryDirectory → List ℕ → List ℕ → Changed
write_file dir name bytes = put dir name bytes (check_new dir name)

unfoldable pub read_file : MemoryDirectory → List ℕ → DirectoryResult (List ℕ)
read_file dir name = do validate_name name; ok_or (lookup name dir.files) (file_not_found name)

-- The input starts at the first byte.
unfoldable pub open_input : MemoryDirectory → List ℕ → DirectoryResult (List ℕ)
open_input dir name = do validate_name name; ok_or (lookup name dir.files) (file_not_found name)

-- The guards of `delete_file` and of the source of `rename`.
unfoldable pub check_present : MemoryDirectory → List ℕ → DirectoryResult (Unit {0})
unfolding validate_name contains_key
check_present dir name = do
  validate_name name
  guard (contains_key name dir.files) (file_not_found name)

abbrev pub take_away : MemoryDirectory → List ℕ → DirectoryResult (Unit {0}) → Changed
take_away dir name (err e) = (dir, err e)
take_away dir name (ok _) = (
  record {
    files = remove name dir.files;
    synced_files = drop_name name dir.synced_files;
    metadata_synced = false;
  },
  ok tt,
)

unfoldable pub delete_file : MemoryDirectory → List ℕ → Changed
delete_file dir name = take_away dir name (check_present dir name)

-- The guards of `rename`, which find the bytes of the source.
unfoldable pub check_rename : MemoryDirectory → List ℕ → List ℕ → DirectoryResult (List ℕ)
unfolding validate_name contains_key
check_rename dir source target = do
  validate_name source
  validate_name target
  bytes ← ok_or (lookup source dir.files) (file_not_found source)
  guard (not (contains_key target dir.files)) (already_exists target)
  ok bytes

abbrev pub moved : MemoryDirectory → List ℕ → List ℕ → List ℕ → MemoryDirectory
moved dir source target bytes = record {
  files = insert target bytes (remove source dir.files);
  synced_files = drop_name target (drop_name source dir.synced_files);
  metadata_synced = false;
}

abbrev pub move : MemoryDirectory → List ℕ → List ℕ → DirectoryResult (List ℕ) → Changed
move dir source target (err e) = (dir, err e)
move dir source target (ok bytes) = (moved dir source target bytes, ok tt)

unfoldable pub rename : MemoryDirectory → List ℕ → List ℕ → Changed
rename dir source target = move dir source target (check_rename dir source target)

abbrev pub keys : Disk → Names
keys [] = []
keys ((name, bytes) ∷ files) = name ∷ keys files

-- A `BTreeMap` lists its keys in order.
unfoldable pub list_all : MemoryDirectory → Names
list_all dir = sort_by name_le (keys dir.files)

unfoldable pub file_length : MemoryDirectory → List ℕ → DirectoryResult ℕ
file_length dir name = do
  validate_name name
  bytes ← ok_or (lookup name dir.files) (file_not_found name)
  ok (length bytes % 2 ^ 64)

unfoldable pub contains_file : MemoryDirectory → List ℕ → DirectoryResult Bool
contains_file dir name = validate_name name >> ok (contains_key name dir.files)

-- The first pass of `sync`: every name is checked before any is synced.
unfoldable pub check_all : MemoryDirectory → Names → DirectoryResult (Unit {0})
unfolding check_present
check_all dir [] = ok tt
check_all dir (name ∷ names) = check_present dir name >> check_all dir names

unfoldable pub add_names : Names → Names → Names
unfolding add_name
add_names [] synced = synced
add_names (name ∷ names) synced = add_names names (add_name name synced)

abbrev pub mark : MemoryDirectory → Names → DirectoryResult (Unit {0}) → Changed
mark dir names (err e) = (dir, err e)
mark dir names (ok _) = (record dir { synced_files = add_names names dir.synced_files }, ok tt)

unfoldable pub sync : MemoryDirectory → Names → Changed
unfolding check_all add_names
sync dir names = mark dir names (check_all dir names)

unfoldable pub is_synced : MemoryDirectory → List ℕ → DirectoryResult Bool
is_synced dir name = validate_name name >> ok (has_name name dir.synced_files)

unfoldable pub sync_meta_data : MemoryDirectory → MemoryDirectory
sync_meta_data dir = record dir { metadata_synced = true }

unfoldable pub is_metadata_synced : MemoryDirectory → Bool
is_metadata_synced dir = dir.metadata_synced
