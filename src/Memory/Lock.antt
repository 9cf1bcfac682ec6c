-- ===== src/Memory/Lock.antt =====
-- `MemoryLockFactory` and `MemoryLockGuard` of crates/surch-store/src/lock.rs. The mutex makes
-- each call one step; the guard is the name that its drop releases.
use surch.Base.{
  ℕ, ◌≡◌, refl, ap, ◌∙◌, not, true, false, List, [], ◌∷◌, Result, ok, err, ◌>>◌, guard,
}
use surch.Codec.{bytes_eq}
use surch.Codec.Header.{bytes_eq_refl}
use surch.Memory.Names.{Names, has_name, add_name, drop_name, has_name-add_name, has_name-drop_name}

pub data LockError : Type 0 where
  invalid_empty_name : LockError
  already_locked : List ℕ → LockError

pub record MemoryLockGuard : Type 0 where
  pub name : List ℕ

unfoldable pub validate_lock_name : List ℕ → Result LockError (Unit {0})
validate_lock_name [] = err invalid_empty_name
validate_lock_name (c ∷ name) = ok tt

unfoldable pub check_lock : Names → List ℕ → Result LockError (Unit {0})
unfolding validate_lock_name
check_lock locked_names name = do
  validate_lock_name name
  guard (not (has_name name locked_names)) (already_locked name)

abbrev pub take_lock :
    Names → List ℕ → Result LockError (Unit {0}) → Names × Result LockError MemoryLockGuard
take_lock locked_names name (err e) = (locked_names, err e)
take_lock locked_names name (ok _) = (add_name name locked_names, ok (record { name = name }))

unfoldable pub obtain_lock : Names → List ℕ → Names × Result LockError MemoryLockGuard
unfolding check_lock
obtain_lock locked_names name = take_lock locked_names name (check_lock locked_names name)

-- `Drop for MemoryLockGuard`
unfoldable pub drop_guard : Names → MemoryLockGuard → Names
drop_guard locked_names lock = drop_name lock.name locked_names

check_lock-free :
    (locked_names : Names) (name : List ℕ)
    → validate_lock_name name ≡ ok tt
    → has_name name locked_names ≡ false
    → check_lock locked_names name ≡ ok tt
unfolding check_lock
check_lock-free locked_names name v e = rw (v, e) refl

check_lock-held :
    (locked_names : Names) (name : List ℕ)
    → validate_lock_name name ≡ ok tt
    → has_name name locked_names ≡ true
    → check_lock locked_names name ≡ err (already_locked name)
unfolding check_lock
check_lock-held locked_names name v e = rw (v, e) refl

check_lock-same :
    (names names' : Names) (name : List ℕ)
    → has_name name names' ≡ has_name name names
    → check_lock names' name ≡ check_lock names name
unfolding check_lock
check_lock-same names names' name e = rw (check_lock, e) refl

-- The result of an attempt hangs on the guards alone.
take_lock-result :
    (names names' : Names) (name : List ℕ) (checked : Result LockError (Unit {0}))
    → (take_lock names' name checked).1 ≡ (take_lock names name checked).1
take_lock-result names names' name (err e) = refl
take_lock-result names names' name (ok _) = refl

obtain_lock-same :
    (names names' : Names) (name : List ℕ)
    → has_name name names' ≡ has_name name names
    → (obtain_lock names' name).1 ≡ (obtain_lock names name).1
unfolding obtain_lock
obtain_lock-same names names' name e =
    ap (λ (c : Result LockError (Unit {0})). (take_lock names' name c).1)
      (check_lock-same names names' name e)
    ∙ take_lock-result names names' name (check_lock names name)

-- A valid name that is free is locked; a second attempt is refused as already locked, attempts at
-- another name answer as before, and after the drop of the guard the name can be locked again.
pub obtain_lock-exclusive :
    (locked_names : Names) (name other : List ℕ)
    → validate_lock_name name ≡ ok tt
    → has_name name locked_names ≡ false
    → bytes_eq name other ≡ false
    → ((obtain_lock locked_names name).1 ≡ ok (record { name = name }))
      × ((obtain_lock (obtain_lock locked_names name).0 name).1 ≡ err (already_locked name))
      × ((obtain_lock (obtain_lock locked_names name).0 other).1
          ≡ (obtain_lock locked_names other).1)
      × ((obtain_lock
            (drop_guard (obtain_lock locked_names name).0 (record { name = name }))
            name).1
          ≡ ok (record { name = name }))
unfolding obtain_lock drop_guard
obtain_lock-exclusive locked_names name other v free ne =
    let held = add_name name locked_names in
    let there : has_name name held ≡ true = rw (has_name-add_name, bytes_eq_refl name) refl in
    let gone : has_name name (drop_name name held) ≡ false =
      rw (has_name-drop_name, bytes_eq_refl name) refl in
    let same : has_name other held ≡ has_name other locked_names =
      rw (has_name-add_name, ne) refl in
    rw (check_lock-free locked_names name v free) (
      refl,
      rw (check_lock-held held name v there) refl,
      obtain_lock-same locked_names held other same,
      rw (check_lock-free (drop_name name held) name v gone) refl,
    )
