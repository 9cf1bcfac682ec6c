-- ===== src/Postings/Skip.antt =====
-- `BlockSkipList` and `BlockSkipCursor` of crates/surch-codec/src/postings_block.rs: the ranges of
-- doc ids of the blocks of a posting list, with every eighth range in a layer above, and a cursor
-- that moves to the first block that may hold a doc id.
use surch.Base.{ℕ, zero, suc, ◌+◌, ◌-◌, ◌*◌, ◌/◌, min, ltb, leb, if◌then◌else◌}
use surch.Base.{List, [], ◌∷◌, length, drop, Option, none, some, ok, ◌>>◌, guard, not}
use surch.Postings.Varint.{BlockResult, not_monotonic}

abbrev pub skip_interval : ℕ
skip_interval = 8

pub record BlockSkipEntry : Type 0 where
  pub block_index : ℕ
  pub min_doc_id : ℕ
  pub max_doc_id : ℕ

pub record BlockSkipList : Type 0 where
  pub bottom : List BlockSkipEntry
  pub top : List BlockSkipEntry

-- The loop over `bottom.windows(2)`.
unfoldable pub check_windows : List BlockSkipEntry → BlockResult (Unit {0})
check_windows [] = ok tt
check_windows (prev ∷ []) = ok tt
check_windows (prev ∷ next ∷ rest) =
    let more = check_windows (next ∷ rest) in
    do
      guard (not (leb next.block_index prev.block_index)) not_monotonic
      guard (not (leb next.min_doc_id prev.max_doc_id)) not_monotonic
      more

unfoldable pub check_entries : List BlockSkipEntry → BlockResult (Unit {0})
check_entries [] = ok tt
check_entries (entry ∷ rest) =
    let more = check_entries rest in
    do guard (not (ltb entry.max_doc_id entry.min_doc_id)) not_monotonic; more

-- `bottom.iter().step_by(skip_interval)`: the first of every eight, which `skipped` counts.
unfoldable pub step_by : ℕ → List BlockSkipEntry → List BlockSkipEntry
step_by skipped [] = []
step_by zero (entry ∷ rest) = entry ∷ step_by (skip_interval - 1) rest
step_by (suc skipped) (entry ∷ rest) = step_by skipped rest

unfoldable pub from_block_ranges : List BlockSkipEntry → BlockResult BlockSkipList
unfolding check_windows check_entries step_by
from_block_ranges bottom = do
  check_windows bottom
  check_entries bottom
  ok record { bottom = bottom; top = if leb (length bottom) 1 then [] else step_by 0 bottom }

pub record BlockSkipCursor : Type 0 where
  pub skip_list : BlockSkipList
  pub position : ℕ
  pub blocks_visited : ℕ

-- `BlockSkipList::cursor` and `BlockSkipCursor::resume`
unfoldable pub cursor : BlockSkipList → BlockSkipCursor
cursor skip_list = record { skip_list = skip_list; position = 0; blocks_visited = 0 }

unfoldable pub resume : BlockSkipList → ℕ → BlockSkipCursor
resume skip_list position = record {
  skip_list = skip_list;
  position = position;
  blocks_visited = 0;
}

-- The loop over the top layer, for `rounds` of its entries at most: `later` are those after
-- `top_index`.
unfoldable pub jump : List BlockSkipEntry → ℕ → ℕ → ℕ
jump [] target top_index = top_index
jump (entry ∷ later) target top_index =
    let further = jump later target (top_index + 1) in
    if ltb entry.max_doc_id target then further else top_index

-- The loop over the bottom layer, for `rounds` entries at most: `rest` are those from `position` on.
-- It gives the position, the number of entries visited, and what was found.
unfoldable pub scan_bottom : ℕ → List BlockSkipEntry → ℕ → ℕ → ℕ → ℕ × ℕ × Option BlockSkipEntry
scan_bottom zero rest target position visited = (position, visited, none)
scan_bottom (suc rounds) [] target position visited = (position, visited, none)
scan_bottom (suc rounds) (entry ∷ rest) target position visited =
    let further = scan_bottom rounds rest target (position + 1) (visited + 1) in
    if leb target entry.max_doc_id then (position, visited + 1, some entry) else further

-- What follows the bounded scan: the scan of all the entries left, when nothing was found.
unfoldable pub fall_back :
    List BlockSkipEntry → ℕ → ℕ × ℕ × Option BlockSkipEntry → ℕ × ℕ × Option BlockSkipEntry
unfolding scan_bottom
fall_back bottom target (position, visited, some entry) = (position, visited, some entry)
fall_back bottom target (position, visited, none) =
    scan_bottom (length bottom - position) (drop position bottom) target position visited

-- Where the scan starts.
unfoldable pub jump_position : BlockSkipCursor → ℕ → ℕ
unfolding jump
jump_position cursor target = elim cursor.skip_list.top [
  | [] ↦ cursor.position
  | first ∷ others ↦
      let top_index = cursor.position / skip_interval in
      let candidate_position =
        jump (drop (top_index + 1) (first ∷ others)) target top_index * skip_interval in
      if ltb cursor.position candidate_position then candidate_position else cursor.position
]

-- `BlockSkipCursor::advance_to`: the cursor after it, and the entry that it returns.
unfoldable pub advance_to : BlockSkipCursor → ℕ → BlockSkipCursor × Option BlockSkipEntry
unfolding jump_position scan_bottom fall_back
advance_to cursor target =
    let bottom = cursor.skip_list.bottom in
    let start = jump_position cursor target in
    let stop = min (length bottom) (start + skip_interval * 2) in
    let bounded =
      scan_bottom (stop - start) (drop start bottom) target start cursor.blocks_visited in
    let (position, visited, found) = fall_back bottom target bounded in
    if leb (length bottom) cursor.position then (cursor, none) else (
      record { skip_list = cursor.skip_list; position = position; blocks_visited = visited },
      found,
    )
