-- ===== src/Postings/Cursor.antt =====
-- `DocIdDeltaCursor` of crates/surch-codec/src/postings_block.rs, which yields the doc ids of a
-- payload one by one, and `inspect_postings_blocks`, which summarises them by blocks.
use surch.Base.{ℕ, zero, suc, ◌-◌, ◌<◌, ◌≡◌, refl, sym, ap, ◌∙◌, arith}
use surch.Base.{◌==◌, ◌&&◌, not, if◌then◌else◌, Bool, true, false}
use surch.Base.{
  List, [], ◌∷◌, length, Option, none, some, ok, ◌>>=◌, ◌>>◌, guard, ok_or, bind_assoc, bind_congr,
  ne→==,
}
use surch.Postings.Varint.{BlockResult, not_monotonic, read_varint_u32}
use surch.Postings.Flat.{checked_add_u32, read_delta, read_deltas, decode_doc_ids_delta_varint}

pub record DocIdDeltaCursor : Type 0 where
  pub bytes : List ℕ
  pub position : ℕ
  pub remaining : ℕ
  pub previous : ℕ
  pub started : Bool

-- `DocIdDeltaCursor::new`
unfoldable pub new_cursor : List ℕ → BlockResult DocIdDeltaCursor
new_cursor encoded = do
  (length, next) ← read_varint_u32 encoded 0
  ok record { bytes = encoded; position = next; remaining = length; previous = 0; started = false }

-- The cursor after a doc id `value` that ends at `next`.
abbrev pub moved : DocIdDeltaCursor → ℕ → ℕ → DocIdDeltaCursor
moved cursor value next = record {
  bytes = cursor.bytes;
  position = next;
  remaining = cursor.remaining - 1;
  previous = value;
  started = true;
}

unfoldable pub next_doc_id : DocIdDeltaCursor → BlockResult (Option ℕ × DocIdDeltaCursor)
next_doc_id cursor = do
  (delta, end) ← read_varint_u32 cursor.bytes cursor.position
  guard (not (cursor.started && delta == 0)) not_monotonic
  value ← ok_or (checked_add_u32 cursor.previous delta) not_monotonic
  ok (some value, moved cursor value end)

-- `DocIdDeltaCursor::next`: the doc id and the cursor after it.
unfoldable pub next : DocIdDeltaCursor → BlockResult (Option ℕ × DocIdDeltaCursor)
unfolding next_doc_id
next cursor = if cursor.remaining == 0 then ok (none, cursor) else next_doc_id cursor

-- A client's loop, `while let Some(doc_id) = cursor.next()? { doc_ids.push(doc_id); }`, for
-- `rounds` calls at most. It gives the last cursor too.
unfoldable pub drain : ℕ → DocIdDeltaCursor → BlockResult (List ℕ × DocIdDeltaCursor)
unfolding next
drain zero cursor = ok ([], cursor)
drain (suc rounds) cursor = do
  (found, later) ← next cursor
  elim found [
    | none ↦ ok ([], later)
    | some doc_id ↦ do (doc_ids, last) ← drain rounds later; ok (doc_id ∷ doc_ids, last)
  ]

-- One call of `next` reads one delta.
next_doc_id-read_delta :
    (cursor : DocIdDeltaCursor)
    → next_doc_id cursor ≡ (
        read_delta cursor.bytes cursor.started cursor.previous cursor.position >>= λ (value, end).
        ok (some value, moved cursor value end))
unfolding next_doc_id read_delta
next_doc_id-read_delta cursor = sym (
    bind_assoc (read_varint_u32 cursor.bytes cursor.position) _ _
    ∙ bind_congr (read_varint_u32 cursor.bytes cursor.position) (λ (delta, end).
      bind_assoc (guard (not (cursor.started && delta == 0)) not_monotonic) _ _
      ∙ bind_congr (guard (not (cursor.started && delta == 0)) not_monotonic)
          (λ _. bind_assoc (ok_or (checked_add_u32 cursor.previous delta) not_monotonic) _ _)))

-- The client's loop, from any cursor, reads the deltas that remain and stops at the first `None`.
module _ (bytes : List ℕ) where
  drain-read_deltas :
      (rounds n position previous : ℕ) (started : Bool)
      → n < rounds
      → (drain rounds record {
        bytes = bytes;
        position = position;
        remaining = n;
        previous = previous;
        started = started;
      }
          >>= λ (doc_ids, last). ok (doc_ids, last.position))
        ≡ read_deltas bytes n started previous position
  unfolding drain next read_deltas
  drain-read_deltas zero n position previous started h = absurd (omega arith)
  drain-read_deltas (suc rounds) zero position previous started h = refl
  drain-read_deltas (suc rounds) (suc n) position previous started h =
      let less : suc n - 1 ≡ n = omega arith in
      rw
        (
          ne→== (suc n) 0 (λ e. absurd (omega arith)),
          next_doc_id-read_delta record {
            bytes = bytes;
            position = position;
            remaining = suc n;
            previous = previous;
            started = started;
          },
          less,
        )
        (bind_assoc (read_delta bytes started previous position >>= _) _ _
          ∙ bind_assoc (read_delta bytes started previous position) _ _
          ∙ bind_congr (read_delta bytes started previous position) (λ (value, end).
            bind_assoc (drain rounds _) _ _
            ∙ sym (
                ap (λ read. read >>= λ (doc_ids, last). ok (value ∷ doc_ids, last))
                  (sym (drain-read_deltas rounds n end value true (omega arith)))
                ∙ bind_assoc (drain rounds _) _ _)))

read_deltas-ids :
    (bytes : List ℕ) (length position : ℕ)
    → (drain (suc length) record {
      bytes = bytes;
      position = position;
      remaining = length;
      previous = 0;
      started = false;
    }
        >>= λ (doc_ids, last). ok doc_ids)
      ≡ (read_deltas bytes length false 0 position >>= λ (doc_ids, end). ok doc_ids)
read_deltas-ids bytes length position =
    sym (bind_assoc (drain (suc length) _) _ _)
    ∙ ap (λ read. read >>= λ (doc_ids, end). ok doc_ids)
        (drain-read_deltas bytes (suc length) length position 0 false (omega arith))

-- On every input, well formed or not, a client that calls next until it returns none, one more
-- time than there are doc ids, gets what decode_doc_ids_delta_varint returns: the same doc ids or
-- the same error.
pub new_cursor-drain :
    (bytes : List ℕ)
    → (new_cursor bytes >>= λ cursor.
        drain (suc cursor.remaining) cursor >>= λ (doc_ids, last). ok doc_ids)
      ≡ decode_doc_ids_delta_varint bytes
unfolding new_cursor decode_doc_ids_delta_varint
new_cursor-drain bytes =
    bind_assoc (read_varint_u32 bytes 0) _ _
    ∙ bind_congr (read_varint_u32 bytes 0)
        (λ (length, position). read_deltas-ids bytes length position)
