-- ===== src/Memory/Renaming.antt =====
-- `rename` of crates/surch-store/src/directory.rs moves a file.
use surch.Base.{
  ℕ, ◌≡◌, refl, ap, arith, if◌then◌else◌, false, List, [], ◌∷◌, Option, none, some, ok, err, ok_or,
}
use surch.Codec.{bytes_eq}
use surch.Codec.Header.{bytes_eq_refl}
use surch.Segments.Disk.{lookup, lookup-insert, lookup-remove, bytes_eq_iff}
use surch.Memory.Directory.{
  MemoryDirectory, contains_key, moved, rename, read_file, check_rename, validate_name,
  file_not_found,
}

-- What the guards of `rename` ensure.
check_rename-facts :
    (dir : MemoryDirectory) (source target bytes : List ℕ)
    → check_rename dir source target ≡ ok bytes
    → (validate_name source ≡ ok tt)
      × (validate_name target ≡ ok tt)
      × (lookup source dir.files ≡ some bytes)
      × (lookup target dir.files ≡ none)
unfolding check_rename contains_key validate_name
check_rename-facts dir [] target bytes e = cc
check_rename-facts dir (c ∷ source) [] bytes e = cc
check_rename-facts dir (c ∷ source) (d ∷ target) bytes e =
    (refl, refl, ground (arith, e), ground (arith, e))

read_file-lookup :
    (dir : MemoryDirectory) (name bytes : List ℕ)
    → read_file dir name ≡ ok bytes
    → (validate_name name ≡ ok tt) × (lookup name dir.files ≡ some bytes)
unfolding read_file validate_name
read_file-lookup dir [] bytes e = cc
read_file-lookup dir (c ∷ name) bytes e = (refl, ground (arith, e))

check_rename-ok :
    (dir : MemoryDirectory) (source target bytes : List ℕ)
    → validate_name source ≡ ok tt
    → validate_name target ≡ ok tt
    → lookup source dir.files ≡ some bytes
    → contains_key target dir.files ≡ false
    → check_rename dir source target ≡ ok bytes
unfolding check_rename
check_rename-ok dir source target bytes v w e f = rw (v, w, e, f) refl

-- A valid name is read by its entry alone.
read_file-ok_or :
    (dir : MemoryDirectory) (name : List ℕ)
    → validate_name name ≡ ok tt
    → read_file dir name ≡ ok_or (lookup name dir.files) (file_not_found name)
unfolding read_file
read_file-ok_or dir name v = rw (v) refl

read_file-same :
    (dir dir' : MemoryDirectory) (name : List ℕ)
    → lookup name dir'.files ≡ lookup name dir.files
    → read_file dir' name ≡ read_file dir name
unfolding read_file validate_name
read_file-same dir dir' [] e = refl
read_file-same dir dir' (c ∷ name) e =
    ap (λ (o : Option (List ℕ)). ok_or o (file_not_found (c ∷ name))) e

-- The entries after a move.
lookup-moved :
    (dir : MemoryDirectory) (source target bytes other : List ℕ)
    → lookup other (moved dir source target bytes).files ≡ (
        if bytes_eq target other
        then some bytes
        else if bytes_eq source other
        then none
        else lookup other dir.files)
lookup-moved dir source target bytes other = rw (lookup-insert, lookup-remove) refl

other_name :
    (dir : MemoryDirectory) (source target bytes : List ℕ)
    → lookup source dir.files ≡ some bytes
    → contains_key target dir.files ≡ false
    → bytes_eq target source ≡ false
unfolding contains_key
other_name dir source target bytes e f = ground (arith, e, f, bytes_eq_iff target source)

-- Renaming a file that can be read to a valid name that no file has succeeds; the new name then
-- reads the bytes of the old, the old one is not found, and every name other than the two reads as
-- before.
pub rename-read_file :
    (dir : MemoryDirectory) (source target other bytes : List ℕ)
    → read_file dir source ≡ ok bytes
    → validate_name target ≡ ok tt
    → contains_key target dir.files ≡ false
    → bytes_eq source other ≡ false
    → bytes_eq target other ≡ false
    → ((rename dir source target).1 ≡ ok tt)
      × (read_file (rename dir source target).0 target ≡ ok bytes)
      × (read_file (rename dir source target).0 source ≡ err (file_not_found source))
      × (read_file (rename dir source target).0 other ≡ read_file dir other)
unfolding rename
rename-read_file dir source target other bytes read valid fresh ne ne' =
    let (source_valid, found) = read_file-lookup dir source bytes read in
    let dir' = moved dir source target bytes in
    let differ = other_name dir source target bytes found fresh in
    let at = lookup-moved dir source target bytes in
    rw (check_rename-ok dir source target bytes source_valid valid found fresh) (
      refl,
      rw (read_file-ok_or dir' target valid, at target, bytes_eq_refl target) refl,
      rw (read_file-ok_or dir' source source_valid, at source, differ, bytes_eq_refl source) refl,
      read_file-same dir dir' other (rw (at other, ne', ne) refl),
    )
