-- ===== src/Memory/Runs.antt =====
-- Runs of crates/surch-store/src/directory.rs and lock.rs on concrete names.
use surch.Base.{ℕ, ◌≡◌, refl, true, false, List, [], ◌∷◌, ok, err}
use surch.Segments.Disk.{lookup}
use surch.Memory.Names.{has_name}
use surch.Memory.Directory.{
  MemoryDirectory, new, contains_key, rename, read_file, validate_name, file_not_found,
}
use surch.Memory.Synced.{
  IsBacked, Call, writing_file, renaming, syncing, run_calls, run_calls-IsBacked,
}
use surch.Memory.Renaming.{rename-read_file}
use surch.Memory.Lock.{
  obtain_lock, drop_guard, already_locked, validate_lock_name, obtain_lock-exclusive,
}

-- "a", "b" and "c"
abbrev a_name : List ℕ
a_name = b'a' ∷ []

abbrev b_name : List ℕ
b_name = b'b' ∷ []

abbrev c_name : List ℕ
c_name = b'c' ∷ []

-- A file is written, synced and renamed.
abbrev some_calls : List Call
some_calls = writing_file a_name (1 ∷ []) ∷ syncing (a_name ∷ []) ∷ renaming a_name b_name ∷ []

run_calls-IsBacked_example : IsBacked (run_calls some_calls new)
run_calls-IsBacked_example = run_calls-IsBacked some_calls

abbrev two_files : MemoryDirectory
two_files = record {
  files = (a_name, 1 ∷ []) ∷ (c_name, 3 ∷ []) ∷ [];
  synced_files = [];
  metadata_synced = true;
}

two_files-read_file : read_file two_files a_name ≡ ok (1 ∷ [])
unfolding read_file validate_name lookup
two_files-read_file = refl

b_name-valid : validate_name b_name ≡ ok tt
unfolding validate_name
b_name-valid = refl

two_files-contains_key : contains_key b_name two_files.files ≡ false
unfolding contains_key lookup
two_files-contains_key = refl

rename-read_file_example :
    ((rename two_files a_name b_name).1 ≡ ok tt)
    × (read_file (rename two_files a_name b_name).0 b_name ≡ ok (1 ∷ []))
    × (read_file (rename two_files a_name b_name).0 a_name ≡ err (file_not_found a_name))
    × (read_file (rename two_files a_name b_name).0 c_name ≡ read_file two_files c_name)
rename-read_file_example =
    rename-read_file two_files a_name b_name c_name (1 ∷ []) two_files-read_file b_name-valid
      two_files-contains_key refl refl

a_name-valid : validate_lock_name a_name ≡ ok tt
unfolding validate_lock_name
a_name-valid = refl

a_name-free : has_name a_name (c_name ∷ []) ≡ false
unfolding has_name
a_name-free = refl

obtain_lock-exclusive_example :
    ((obtain_lock (c_name ∷ []) a_name).1 ≡ ok (record { name = a_name }))
    × ((obtain_lock (obtain_lock (c_name ∷ []) a_name).0 a_name).1 ≡ err (already_locked a_name))
    × ((obtain_lock (obtain_lock (c_name ∷ []) a_name).0 b_name).1
        ≡ (obtain_lock (c_name ∷ []) b_name).1)
    × ((obtain_lock
          (drop_guard (obtain_lock (c_name ∷ []) a_name).0 (record { name = a_name }))
          a_name).1
        ≡ ok (record { name = a_name }))
obtain_lock-exclusive_example =
    obtain_lock-exclusive (c_name ∷ []) a_name b_name a_name-valid a_name-free refl
