-- ===== src/TopK/Collector.antt =====
-- `TopN` of crates/surch-api/src/topn.rs, over any comparator.
use surch.Base.{ℕ, zero, suc, ltb, ◌==◌, not, if◌then◌else◌, Bool, true, false}
use surch.Base.{List, [], ◌∷◌, length, take, Option, none, some}
use Prim.Native.Nat.{Ordering}

pub record TopN {ℓ} (A : Type ℓ) : Type ℓ where
  pub capacity : ℕ
  pub buffer : List A

-- `== Ordering::Less`
abbrev pub is_less : Ordering → Bool
is_less Ordering.lt = true
is_less _ = false

module _ {ℓ} {A : Type ℓ} (cmp : A → A → Ordering) where
  unfoldable pub new_top_n : ℕ → TopN A
  new_top_n capacity = record { capacity = capacity; buffer = [] }

  -- The answer of `binary_search_by`, found or not, on items that are sorted by the comparator and of
  -- which none compares as equal to the item: as many as compare as less. The standard library
  -- leaves open which of several equal ones it finds, so that this is no statement about those.
  unfoldable pub search_position : A → List A → ℕ
  search_position item [] = 0
  search_position item (probe ∷ buffer) =
      let rest = search_position item buffer in if is_less (cmp probe item) then suc rest else 0

  -- `Vec::insert`
  unfoldable pub insert_at : ℕ → A → List A → List A
  insert_at zero item buffer = item ∷ buffer
  insert_at (suc position) item [] = item ∷ []
  insert_at (suc position) item (first ∷ buffer) = first ∷ insert_at position item buffer

  unfoldable pub insert_sorted : A → List A → List A
  unfolding search_position insert_at
  insert_sorted item buffer = insert_at (search_position item buffer) item buffer

  unfoldable pub last : List A → Option A
  last [] = none
  last (item ∷ []) = some item
  last (item ∷ next ∷ buffer) = last (next ∷ buffer)

  -- A full buffer, whose last item is the worst: it has one, since its capacity is not 0.
  unfoldable pub push_full : TopN A → A → Option A → TopN A
  unfolding insert_sorted
  push_full top item none = top
  push_full top item (some worst) = if not (is_less (cmp item worst)) then top else record {
    capacity = top.capacity;
    buffer = take top.capacity (insert_sorted item top.buffer);
  }

  unfoldable pub push : TopN A → A → TopN A
  unfolding insert_sorted push_full last
  push top item =
      if top.capacity == 0
      then top
      else if ltb (length top.buffer) top.capacity
      then record { capacity = top.capacity; buffer = insert_sorted item top.buffer }
      else push_full top item (last top.buffer)

  unfoldable pub worst_when_full : TopN A → Option A
  unfolding last
  worst_when_full top =
      if top.capacity == 0
      then none
      else if ltb (length top.buffer) top.capacity
      then none
      else last top.buffer

  unfoldable pub into_sorted_vec : TopN A → List A
  into_sorted_vec top = top.buffer

  -- A client offers items one by one.
  unfoldable pub push_all : TopN A → List A → TopN A
  unfolding push
  push_all top [] = top
  push_all top (item ∷ items) = push_all (push top item) items
