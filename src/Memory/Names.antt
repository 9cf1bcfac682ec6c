-- ===== src/Memory/Names.antt =====
-- A set of names, as the `BTreeSet` and the `HashSet` of crates/surch-store/src/directory.rs and
-- lock.rs are used.
use surch.Base.{ℕ, ◌≡◌, arith, if◌then◌else◌, Bool, true, false, List, [], ◌∷◌}
use surch.Codec.{bytes_eq}
use surch.Segments.Disk.{bytes_eq_iff}

abbrev pub Names : Type 0
Names = List (List ℕ)

unfoldable pub has_name : List ℕ → Names → Bool
has_name name [] = false
has_name name (n ∷ names) = let rest = has_name name names in if bytes_eq n name then true else rest

unfoldable pub add_name : List ℕ → Names → Names
add_name name names = if has_name name names then names else name ∷ names

unfoldable pub drop_name : List ℕ → Names → Names
drop_name name [] = []
drop_name name (n ∷ names) =
    let rest = drop_name name names in if bytes_eq n name then rest else n ∷ rest

pub has_name-add_name :
    (name other : List ℕ) (names : Names)
    → has_name other (add_name name names)
      ≡ (if bytes_eq name other then true else has_name other names)
unfolding add_name has_name
has_name-add_name name other names = ground (arith, bytes_eq_iff name other)

pub has_name-drop_name :
    (name other : List ℕ) (names : Names)
    → has_name other (drop_name name names)
      ≡ (if bytes_eq name other then false else has_name other names)
unfolding drop_name has_name
has_name-drop_name name other [] = ground arith
has_name-drop_name name other (n ∷ names) = ground (
  arith,
  bytes_eq_iff n name,
  bytes_eq_iff n other,
  bytes_eq_iff name other,
  has_name-drop_name name other names,
)
