-- ===== src/Memory/Synced.antt =====
-- What `MemoryDirectory` of crates/surch-store/src/directory.rs keeps about its synced files.
use surch.Base.{ℕ, ◌≡◌, refl, arith, if◌then◌else◌, true, false, List, [], ◌∷◌, ok, err}
use surch.Base.{>>=-eq-ok}
use surch.Codec.{bytes_eq}
use surch.Segments.Disk.{Disk, insert, remove, lookup-insert, lookup-remove, bytes_eq_iff}
use surch.Memory.Names.{Names, has_name, add_name, drop_name, has_name-add_name, has_name-drop_name}
use surch.Memory.Directory.{
  MemoryDirectory, new, DirectoryResult, contains_key, put, move, mark, take_away, add_names,
}
use surch.Memory.Directory.{
  write_output, write_file, delete_file, rename, sync, sync_meta_data, check_new, check_present,
  check_rename, check_all, validate_name,
}

-- Only files that are there are synced.
abbrev pub IsBacked : MemoryDirectory → Type 0
IsBacked dir =
    (name : List ℕ) → has_name name dir.synced_files ≡ true → contains_key name dir.files ≡ true

pub contains_key-insert :
    (name other bytes : List ℕ) (files : Disk)
    → contains_key other (insert name bytes files)
      ≡ (if bytes_eq name other then true else contains_key other files)
unfolding contains_key
contains_key-insert name other bytes files = rw (lookup-insert) (ground arith)

pub contains_key-remove :
    (name other : List ℕ) (files : Disk)
    → contains_key other (remove name files)
      ≡ (if bytes_eq name other then false else contains_key other files)
unfolding contains_key
contains_key-remove name other files = rw (lookup-remove) (ground arith)

put-IsBacked :
    (dir : MemoryDirectory) (name bytes : List ℕ) (checked : DirectoryResult (Unit {0}))
    → IsBacked dir
    → IsBacked (put dir name bytes checked).0
put-IsBacked dir name bytes (err e) h = h
put-IsBacked dir name bytes (ok _) h = λ other synced. ground (
  arith,
  h other,
  synced,
  has_name-drop_name name other dir.synced_files,
  contains_key-insert name other bytes dir.files,
)

take_away-IsBacked :
    (dir : MemoryDirectory) (name : List ℕ) (checked : DirectoryResult (Unit {0}))
    → IsBacked dir
    → IsBacked (take_away dir name checked).0
take_away-IsBacked dir name (err e) h = h
take_away-IsBacked dir name (ok _) h = λ other synced. ground (
  arith,
  h other,
  synced,
  has_name-drop_name name other dir.synced_files,
  contains_key-remove name other dir.files,
)

move-IsBacked :
    (dir : MemoryDirectory) (source target : List ℕ) (checked : DirectoryResult (List ℕ))
    → IsBacked dir
    → IsBacked (move dir source target checked).0
move-IsBacked dir source target (err e) h = h
move-IsBacked dir source target (ok bytes) h = λ other synced. ground (
  arith,
  h other,
  synced,
  has_name-drop_name target other (drop_name source dir.synced_files),
  has_name-drop_name source other dir.synced_files,
  contains_key-insert target other bytes (remove source dir.files),
  contains_key-remove source other dir.files,
)

has_name-add_names :
    (names synced : Names) (other : List ℕ)
    → has_name other (add_names names synced)
      ≡ (if has_name other names then true else has_name other synced)
unfolding add_names has_name
has_name-add_names [] synced other = refl
has_name-add_names (n ∷ names) synced other =
    ground
      (arith, has_name-add_names names (add_name n synced) other, has_name-add_name n other synced)

check_present-contains_key :
    (dir : MemoryDirectory) (name : List ℕ)
    → check_present dir name ≡ ok tt
    → contains_key name dir.files ≡ true
unfolding check_present validate_name
check_present-contains_key dir [] e = cc
check_present-contains_key dir (c ∷ name) e = ground (arith, e)

-- The names that pass the checks of `sync` are there.
check_all-contains_key :
    (dir : MemoryDirectory) (names : Names) (other : List ℕ)
    → check_all dir names ≡ ok tt
    → has_name other names ≡ true
    → contains_key other dir.files ≡ true
unfolding check_all has_name
check_all-contains_key dir [] other e h = cc
check_all-contains_key dir (n ∷ names) other e h =
    let s = >>=-eq-ok (check_present dir n) (λ _. check_all dir names) e in
    ground (
      arith,
      h,
      bytes_eq_iff n other,
      check_present-contains_key dir n s.1,
      check_all-contains_key dir names other s.2,
    )

mark-IsBacked :
    (dir : MemoryDirectory) (names : Names) (checked : DirectoryResult (Unit {0}))
    → check_all dir names ≡ checked
    → IsBacked dir
    → IsBacked (mark dir names checked).0
mark-IsBacked dir names (err e) k h = h
mark-IsBacked dir names (ok _) k h = λ other synced. ground (
  arith,
  h other,
  synced,
  has_name-add_names names dir.synced_files other,
  check_all-contains_key dir names other k,
)

-- The calls that change a directory.
pub data Call : Type 0 where
  writing_output writing_file renaming : List ℕ → List ℕ → Call
  deleting : List ℕ → Call
  syncing : Names → Call
  syncing_meta_data : Call

unfoldable pub run_call : Call → MemoryDirectory → MemoryDirectory
run_call (writing_output name bytes) dir = (write_output dir name bytes).0
run_call (writing_file name bytes) dir = (write_file dir name bytes).0
run_call (renaming source target) dir = (rename dir source target).0
run_call (deleting name) dir = (delete_file dir name).0
run_call (syncing names) dir = (sync dir names).0
run_call syncing_meta_data dir = sync_meta_data dir

unfoldable pub run_calls : List Call → MemoryDirectory → MemoryDirectory
unfolding run_call
run_calls [] dir = dir
run_calls (call ∷ calls) dir = run_calls calls (run_call call dir)

run_call-IsBacked :
    (call : Call) (dir : MemoryDirectory) → IsBacked dir → IsBacked (run_call call dir)
unfolding run_call write_output write_file rename delete_file sync sync_meta_data
run_call-IsBacked (writing_output name bytes) dir h =
    put-IsBacked dir name bytes (check_new dir name) h
run_call-IsBacked (writing_file name bytes) dir h =
    put-IsBacked dir name bytes (check_new dir name) h
run_call-IsBacked (renaming source target) dir h =
    move-IsBacked dir source target (check_rename dir source target) h
run_call-IsBacked (deleting name) dir h = take_away-IsBacked dir name (check_present dir name) h
run_call-IsBacked (syncing names) dir h = mark-IsBacked dir names (check_all dir names) refl h
run_call-IsBacked syncing_meta_data dir h = h

run_calls-keeps :
    (calls : List Call) (dir : MemoryDirectory) → IsBacked dir → IsBacked (run_calls calls dir)
unfolding run_calls
run_calls-keeps [] dir h = h
run_calls-keeps (call ∷ calls) dir h =
    run_calls-keeps calls (run_call call dir) (run_call-IsBacked call dir h)

-- After every sequence of calls that change a directory, begun at a new one, every synced name is
-- the name of a file that is there.
pub run_calls-IsBacked : (calls : List Call) → IsBacked (run_calls calls new)
unfolding has_name
run_calls-IsBacked calls = run_calls-keeps calls new (λ name synced. cc)
