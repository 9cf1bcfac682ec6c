-- ===== src/Postings/SkipJump.antt =====
-- Where the jump through the top layer of crates/surch-codec/src/postings_block.rs ends.
use surch.Base.{ℕ, ◌+◌, ◌-◌, ◌*◌, ◌/◌, ◌≤◌, ◌<◌, ◌≡◌, refl, sym, ◌∙◌, arith}
use surch.Base.{ltb, if◌then◌else◌, Bool-cases, inl, inr, ◌⊎◌, ltb→lt}
use surch.Base.{List, [], ◌∷◌, length, get_elem?, drop, none, some}
use surch.Base.{drop-cons, drop-drop, get_elem?-drop, get_elem?-le, drop-none}
use surch.Postings.Skip.{BlockSkipEntry}
use surch.Postings.Skip.{jump, jump_position}
use surch.Postings.SkipSearch.{walk, walk-skip, Ascending, Ascending-drop}

-- The entry at `i`, if there is one, is below the target, or not.
abbrev Below : List BlockSkipEntry → ℕ → ℕ → Type 0
Below top target i =
    (entry : BlockSkipEntry) × (get_elem? top i ≡ some entry) × (entry.max_doc_id < target)

abbrev pub Reaches : List BlockSkipEntry → ℕ → ℕ → Type 0
Reaches top target i =
    (entry : BlockSkipEntry) × (get_elem? top i ≡ some entry) × (target ≤ entry.max_doc_id)

-- Where the jump ends, from `from`: at an entry below the target, the next one not below it.
record Lands (top : List BlockSkipEntry) (target from to : ℕ) : Type 0 where
  forward : from ≤ to
  below : (to ≡ from) ⊎ Below top target to
  reaches : (get_elem? top (to + 1) ≡ none) ⊎ Reaches top target (to + 1)

jump-Lands :
    (top : List BlockSkipEntry) (target t : ℕ) (later : List BlockSkipEntry)
    → drop (t + 1) top ≡ later
    → Lands top target t (jump later target t)
unfolding jump
jump-Lands top target t [] e = record {
  forward = omega arith;
  below = inl refl;
  reaches = inl (drop-none top (t + 1) e);
}
jump-Lands top target t (entry ∷ later) e = elim (Bool-cases (ltb entry.max_doc_id target)) [
  | inr enough ↦ rw enough record {
    forward = omega arith;
    below = inl refl;
    reaches = inr (entry, (drop-cons top (t + 1) e).0, ground (arith, enough));
  }
  | inl low ↦
      let further = jump-Lands top target (t + 1) later ((drop-cons top (t + 1) e).1) in
      rw low record {
        forward = omega (arith, further.forward);
        below = inr (elim further.below [
          | inl stays ↦
              rw stays (entry, (drop-cons top (t + 1) e).0, ltb→lt entry.max_doc_id target low)
          | inr moved ↦ moved
        ]);
        reaches = further.reaches;
      }
]

-- What the jump leaves to the scan: the same walk, and an end within eight entries.
pub record Starts (bottom : List BlockSkipEntry) (target position start : ℕ) : Type 0 where
  pub skip : walk (drop position bottom) target position ≡ walk (drop start bottom) target start
  pub near : (length bottom ≤ start + 8) ⊎ ((k : ℕ) × (k ≤ 8) × Reaches bottom target (start + k))

module _ (bottom : List BlockSkipEntry) (target : ℕ) where
  jump-skip :
      (position start : ℕ)
      → Ascending bottom
      → position ≤ start
      → Below bottom target start
      → walk (drop position bottom) target position ≡ walk (drop start bottom) target start
  jump-skip position start asc le (entry, at, low) =
      let sum : position + (start - position) ≡ start = omega arith in
      let at' : get_elem? (drop position bottom) (start - position) ≡ some entry =
        rw (get_elem?-drop bottom (start - position) position, sum) at in
      rw sum at (
        rw (drop-drop bottom (start - position) position) at (
          walk-skip (drop position bottom) (start - position) target position
            (Ascending-drop bottom position asc) at' low))

  module _ (top : List BlockSkipEntry)
      (every : (k : ℕ) → get_elem? top k ≡ get_elem? bottom (k * 8)) where
    near_jump :
        (to start : ℕ)
        → to * 8 ≤ start
        → start ≤ to * 8 + 8
        → (get_elem? top (to + 1) ≡ none) ⊎ Reaches top target (to + 1)
        → (length bottom ≤ start + 8) ⊎ ((k : ℕ) × (k ≤ 8) × Reaches bottom target (start + k))
    near_jump to start lo hi (inl ends) =
        inl (omega (arith, lo, get_elem?-le bottom ((to + 1) * 8) (sym (every (to + 1)) ∙ ends)))
    near_jump to start lo hi (inr (entry, at, reached)) =
        let sum : start + ((to + 1) * 8 - start) ≡ (to + 1) * 8 = omega (arith, hi) in
        inr (
          (to + 1) * 8 - start,
          omega (arith, lo),
          (entry, rw sum (sym (every (to + 1)) ∙ at), reached),
        )

    jump-Starts :
        (position to : ℕ)
        → Ascending bottom
        → Lands top target (position / 8) to
        → Starts bottom target position (if ltb position (to * 8) then to * 8 else position)
    jump-Starts position to asc lands = elim (Bool-cases (ltb position (to * 8))) [
      | inl ahead ↦ rw ahead record {
        skip = elim lands.below [
          | inl stays ↦ absurd (omega (arith, stays, ltb→lt position (to * 8) ahead))
          | inr (entry, at, low) ↦
              jump-skip position (to * 8) asc (omega (arith, ltb→lt position (to * 8) ahead))
                (entry, sym (every to) ∙ at, low)
        ];
        near = near_jump to (to * 8) (omega arith) (omega arith) lands.reaches;
      }
      | inr behind ↦ rw behind record {
        skip = refl;
        near =
            near_jump to position (ground (arith, behind)) (omega (arith, lands.forward))
              lands.reaches;
      }
    ]

  pub jump_position-Starts :
      (top : List BlockSkipEntry) (position visited : ℕ)
      → Ascending bottom
      → ((top ≡ []) × (length bottom ≤ 1)) ⊎ ((k : ℕ) → get_elem? top k ≡ get_elem? bottom (k * 8))
      → Starts bottom target position (
          jump_position
            record {
              skip_list = record { bottom = bottom; top = top };
              position = position;
              blocks_visited = visited;
            }
            target)
  unfolding jump_position
  jump_position-Starts [] position visited asc (inl (empty, small)) = record {
    skip = refl;
    near = inl (omega (arith, small));
  }
  jump_position-Starts [] position visited asc (inr every) = record {
    skip = refl;
    near = inl (omega (arith, get_elem?-le bottom 0 (sym (every 0))));
  }
  jump_position-Starts (first ∷ others) position visited asc (inl (empty, small)) = cc
  jump_position-Starts (first ∷ others) position visited asc (inr every) =
      jump-Starts (first ∷ others) every position
        (jump (drop (position / 8 + 1) (first ∷ others)) target (position / 8)) asc
        (jump-Lands (first ∷ others) target (position / 8)
          (drop (position / 8 + 1) (first ∷ others)) refl)
