-- ===== src/Postings/SkipAdvance.antt =====
-- What `advance_to` of crates/surch-codec/src/postings_block.rs finds, and how many entries it visits.
use surch.Base.{ℕ, zero, suc, ◌+◌, ◌*◌, ◌≤◌, ◌≡◌, refl, sym, ap, ◌∙◌, arith}
use surch.Base.{leb, if◌then◌else◌, true, Bool-cases, inl, inr, ◌⊎◌, le→leb, leb→le}
use surch.Base.{List, [], ◌∷◌, length, get_elem?, drop, Option, none, ok, ◌>>◌}
use surch.Base.{length-drop, get_elem?-drop, >>=-eq-ok}
use surch.Postings.Varint.{BlockResult}
use surch.Postings.Skip.{
  BlockSkipEntry, BlockSkipList, BlockSkipCursor, check_windows, check_entries, step_by,
  from_block_ranges,
}
use surch.Postings.Skip.{scan_bottom, jump_position, advance_to}
use surch.Postings.SkipSearch.{
  walk, fall_back-scan_bottom, scan_bottom-walk, found_at, Ascending, checked-Ascending,
  get_elem?-step_by,
}
use surch.Postings.SkipJump.{Reaches, jump_position-Starts}

abbrev visited_of : ℕ × ℕ × Option BlockSkipEntry → ℕ
visited_of (position, visited, found) = visited

scan_bottom-visits :
    (rest : List BlockSkipEntry) (target position visited : ℕ)
    → visited_of (scan_bottom (length rest) rest target position visited) ≤ visited + length rest
unfolding scan_bottom
scan_bottom-visits [] target position visited = omega arith
scan_bottom-visits (entry ∷ rest) target position visited =
    elim (Bool-cases (leb target entry.max_doc_id)) [
      | inl found ↦ rw found (omega arith)
      | inr below ↦
          rw below (omega (arith, scan_bottom-visits rest target (position + 1) (visited + 1)))
    ]

scan_bottom-visits_near :
    (rest : List BlockSkipEntry) (target position visited k : ℕ)
    → Reaches rest target k
    → visited_of (scan_bottom (length rest) rest target position visited) ≤ visited + k + 1
unfolding scan_bottom
scan_bottom-visits_near [] target position visited k (last, at, reached) = cc
scan_bottom-visits_near (entry ∷ rest) target position visited zero (last, at, reached) =
    let same : entry ≡ last = cc in
    let found : leb target entry.max_doc_id ≡ true =
      rw same (le→leb target last.max_doc_id reached) in
    rw found (omega arith)
scan_bottom-visits_near (entry ∷ rest) target position visited (suc k) near =
    elim (Bool-cases (leb target entry.max_doc_id)) [
      | inl found ↦ rw found (omega arith)
      | inr below ↦
          rw below
            (omega (arith, scan_bottom-visits_near rest target (position + 1) (visited + 1) k near))
    ]

-- What a client sees of a call: where the cursor stands, and the entry returned.
abbrev pub seen : BlockSkipCursor × Option BlockSkipEntry → ℕ × Option BlockSkipEntry
seen (later, found) = (later.position, found)

abbrev layered : List BlockSkipEntry → BlockSkipList
layered bottom = record {
  bottom = bottom;
  top = if leb (length bottom) 1 then [] else step_by 0 bottom;
}

-- What `from_block_ranges` has checked.
built_layers :
    (bottom : List BlockSkipEntry) {skip_list : BlockSkipList}
    → from_block_ranges bottom ≡ ok skip_list
    → Ascending bottom × (skip_list ≡ layered bottom)
unfolding from_block_ranges
built_layers bottom {skip_list} built =
    let (windows_ok, windows, chain) =
      >>=-eq-ok (check_windows bottom) (λ _. check_entries bottom >> ok (layered bottom)) built in
    let (entries_ok, entries, made) =
      >>=-eq-ok (check_entries bottom) (λ _. ok (layered bottom)) chain in
    (checked-Ascending bottom windows entries, sym (made_is made))
  where
    made_is : {a b : BlockSkipList} → ◌≡◌ {A = BlockResult BlockSkipList} (ok a) (ok b) → a ≡ b
    made_is e = cc

layers_every :
    (bottom : List BlockSkipEntry)
    → ((BlockSkipList.top (layered bottom) ≡ []) × (length bottom ≤ 1))
      ⊎ ((k : ℕ) → get_elem? (BlockSkipList.top (layered bottom)) k ≡ get_elem? bottom (k * 8))
layers_every bottom = elim (Bool-cases (leb (length bottom) 1)) [
  | inl small ↦ inl (rw small refl, leb→le (length bottom) 1 small)
  | inr large ↦
      inr (rw large (λ k. get_elem?-step_by 0 bottom k ∙ ap (get_elem? bottom) (omega arith)))
]

walk_end :
    (rest : List BlockSkipEntry) (target position : ℕ)
    → length rest ≡ 0
    → walk rest target position ≡ (position, none)
unfolding walk
walk_end [] target position e = refl
walk_end (entry ∷ rest) target position e = absurd (omega (arith, e))

module _ (bottom : List BlockSkipEntry) (target position visited : ℕ) where
  abbrev at_position : BlockSkipList → BlockSkipCursor
  at_position skip_list = record {
    skip_list = skip_list;
    position = position;
    blocks_visited = visited;
  }

  abbrev start_position : ℕ
  start_position = jump_position (at_position (layered bottom)) target

  layered-walk :
      Ascending bottom
      → seen (advance_to (at_position (layered bottom)) target)
        ≡ walk (drop position bottom) target position
  unfolding advance_to
  layered-walk asc = elim (Bool-cases (leb (length bottom) position)) [
    | inl past ↦ rw past (
        sym (
          walk_end (drop position bottom) target position
            (omega (arith, length-drop position bottom, leb→le (length bottom) position past))))
    | inr within ↦ rw within (
        ap found_at (
          fall_back-scan_bottom bottom target _ start_position visited (drop start_position bottom)
            refl)
        ∙ scan_bottom-walk (drop start_position bottom) target start_position visited
        ∙ sym (
            (jump_position-Starts bottom target (BlockSkipList.top (layered bottom)) position
              visited asc (layers_every bottom)).skip))
  ]

  near_visits :
      (start : ℕ)
      → (length bottom ≤ start + 8) ⊎ ((k : ℕ) × (k ≤ 8) × Reaches bottom target (start + k))
      → visited_of
          (scan_bottom (length (drop start bottom)) (drop start bottom) target start visited)
        ≤ visited + 9
  near_visits start (inl end) = omega (
    arith,
    end,
    length-drop start bottom,
    scan_bottom-visits (drop start bottom) target start visited,
  )
  near_visits start (inr (k, close, (entry, at, reached))) = omega (
    arith,
    close,
    scan_bottom-visits_near (drop start bottom) target start visited k
        (entry, get_elem?-drop bottom k start ∙ at, reached),
  )

  layered-visits :
      Ascending bottom
      → (advance_to (at_position (layered bottom)) target).0.blocks_visited ≤ visited + 9
  unfolding advance_to
  layered-visits asc = elim (Bool-cases (leb (length bottom) position)) [
    | inl past ↦ rw past (omega arith)
    | inr within ↦
        rw
          (
            within,
            fall_back-scan_bottom bottom target _ start_position visited
                (drop start_position bottom) refl,
          )
          (near_visits start_position (
            (jump_position-Starts bottom target (BlockSkipList.top (layered bottom)) position
              visited asc (layers_every bottom)).near))
  ]

  -- On a skip list that from_block_ranges built, from every position, the cursor stands after
  -- advance_to where a walk over the entries one by one ends, and returns the entry that the walk
  -- finds: the first from the position on whose greatest doc id is not below the target.
  pub advance_to-walk :
      {skip_list : BlockSkipList}
      → from_block_ranges bottom ≡ ok skip_list
      → seen (advance_to (at_position skip_list) target)
        ≡ walk (drop position bottom) target position
  advance_to-walk built =
      let (asc, layers) = built_layers bottom built in rw layers (layered-walk asc)

  -- On a skip list that from_block_ranges built, from every position, a call of advance_to visits
  -- nine entries of the bottom layer at most.
  pub advance_to-visits :
      {skip_list : BlockSkipList}
      → from_block_ranges bottom ≡ ok skip_list
      → (advance_to (at_position skip_list) target).0.blocks_visited ≤ visited + 9
  advance_to-visits built =
      let (asc, layers) = built_layers bottom built in rw layers (layered-visits asc)
