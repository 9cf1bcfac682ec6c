-- ===== src/Segments/Disk.antt =====
-- A directory of files, as `std::fs` shows it to crates/surch-store/src/segment_store.rs: the
-- names and the contents, in the order in which `read_dir` lists them.
use surch.Base.{ℕ, ◌≡◌, refl, arith, if◌then◌else◌, true, List, [], ◌∷◌, Option, none, some}
use surch.Base.{◌↔◌}
use surch.Codec.{bytes_eq}
use surch.Codec.Header.{bytes_eq-eq, bytes_eq_refl}

abbrev pub Disk : Type 0
Disk = List (List ℕ × List ℕ)

unfoldable pub lookup : List ℕ → Disk → Option (List ℕ)
lookup name [] = none
lookup name ((n, bytes) ∷ disk) = if bytes_eq n name then some bytes else lookup name disk

-- A rename onto `name`, or the creation of it.
unfoldable pub insert : List ℕ → List ℕ → Disk → Disk
insert name bytes [] = (name, bytes) ∷ []
insert name bytes ((n, old) ∷ disk) =
    if bytes_eq n name then (name, bytes) ∷ disk else (n, old) ∷ insert name bytes disk

unfoldable pub remove : List ℕ → Disk → Disk
remove name [] = []
remove name ((n, bytes) ∷ disk) =
    let rest = remove name disk in if bytes_eq n name then rest else (n, bytes) ∷ rest

pub bytes_eq_iff : (a b : List ℕ) → (bytes_eq a b ≡ true) ↔ (a ≡ b)
bytes_eq_iff a b = (bytes_eq-eq a b, λ e. rw e (bytes_eq_refl b))

pub lookup-insert :
    (name other bytes : List ℕ) (disk : Disk)
    → lookup other (insert name bytes disk)
      ≡ (if bytes_eq name other then some bytes else lookup other disk)
unfolding lookup insert
lookup-insert name other bytes [] = refl
lookup-insert name other bytes ((n, old) ∷ disk) = ground (
  arith,
  bytes_eq_iff n name,
  bytes_eq_iff n other,
  bytes_eq_iff name other,
  lookup-insert name other bytes disk,
)

pub lookup-remove :
    (name other : List ℕ) (disk : Disk)
    → lookup other (remove name disk) ≡ (if bytes_eq name other then none else lookup other disk)
unfolding lookup remove
lookup-remove name other [] = ground arith
lookup-remove name other ((n, old) ∷ disk) = ground (
  arith,
  bytes_eq_iff n name,
  bytes_eq_iff n other,
  bytes_eq_iff name other,
  lookup-remove name other disk,
)
