-- ===== src/Bytes/Cursor.antt =====
-- Reading a byte slice at a cursor. Offsets are `usize`, of 64 bits.
use surch.Base.{ℕ, ◌+◌, ◌-◌, ◌^◌, ◌≤◌, ◌<◌, ◌≡◌, refl, sym, ap, ◌∙◌, arith, ltb, leb, if◌then◌else◌}
use surch.Base.{true, Option, none, some, List, ◌∷◌, ◌++◌, ◌&&◌}
use surch.Base.{
  length, get_elem?, take, drop, All, length-append, length-drop, take-append_length,
  drop-append_length, drop-cons, drop-drop, le→leb,
}

abbrev pub IsByte : ℕ → Type 0
IsByte b = b < 256

abbrev pub IsBytes : List ℕ → Type 0
IsBytes bytes = All IsByte bytes

abbrev pub usize_mod : ℕ
usize_mod = 2 ^ 64

-- `usize::checked_add`
unfoldable pub checked_add : ℕ → ℕ → Option ℕ
checked_add a b = if ltb (a + b) usize_mod then some (a + b) else none

-- `bytes.get(start..end)`
unfoldable pub slice : List ℕ → ℕ → ℕ → Option (List ℕ)
slice bytes start end =
    if leb start end && leb end (length bytes)
    then some (take (end - start) (drop start bytes))
    else none

-- What stands in `bytes` from `cursor` on. A slice is shorter than `usize::MAX`.
pub record At (bytes : List ℕ) (cursor : ℕ) (rest : List ℕ) : Type 0 where
  pub small : length bytes < usize_mod
  pub within : cursor ≤ length bytes
  pub suffix : drop cursor bytes ≡ rest

pub At-start : (bytes : List ℕ) → length bytes < usize_mod → At bytes 0 bytes
At-start bytes h = record { small = h; within = omega arith; suffix = refl }

module _ {bytes : List ℕ} {cursor : ℕ} where
  pub At-length : {rest : List ℕ} → At bytes cursor rest → cursor + length rest ≡ length bytes
  At-length at = omega (arith, at.within, ap length at.suffix, length-drop cursor bytes)

  -- A byte that is there is read, and the cursor moves past it.
  pub At-cons :
      {x : ℕ} {rest : List ℕ}
      → At bytes cursor (x ∷ rest)
      → (get_elem? bytes cursor ≡ some x) × At bytes (cursor + 1) rest
  At-cons at =
      let (found, next) = drop-cons bytes cursor at.suffix in
      (found, record { small = at.small; within = omega (arith, At-length at); suffix = next })

  pub At-append :
      (front : List ℕ) {rest : List ℕ}
      → At bytes cursor (front ++ rest)
      → At bytes (cursor + length front) rest
  At-append front {rest} at = record {
    small = at.small;
    within = omega (arith, At-length at, length-append front rest);
    suffix =
        sym (drop-drop bytes (length front) cursor)
        ∙ ap (drop (length front)) at.suffix
        ∙ drop-append_length front rest;
  }

  -- A run of bytes that is there is what `get(cursor..cursor + n)` returns.
  pub slice-At :
      (front rest : List ℕ)
      → At bytes cursor (front ++ rest)
      → slice bytes cursor (cursor + length front) ≡ some front
  unfolding slice
  slice-At front rest at =
      ground
        (arith, At-length at, length-append front rest, at.suffix, take-append_length front rest)

  pub checked_add-At :
      (front rest : List ℕ)
      → At bytes cursor (front ++ rest)
      → checked_add cursor (length front) ≡ some (cursor + length front)
  unfolding checked_add
  checked_add-At front rest at = ground (arith, at.small, At-length at, length-append front rest)

  pub fits-At :
      (front rest : List ℕ)
      → At bytes cursor (front ++ rest)
      → leb (cursor + length front) (length bytes) ≡ true
  fits-At front rest at =
      le→leb (cursor + length front) (length bytes)
        (omega (arith, At-length at, length-append front rest))

  pub take-At :
      (front rest : List ℕ)
      → At bytes cursor (front ++ rest)
      → take (cursor + length front - cursor) (drop cursor bytes) ≡ front
  take-At front rest at =
      let size : cursor + length front - cursor ≡ length front = omega arith in
      rw (size, at.suffix, take-append_length front rest)
