-- ===== src/Segments/Append.antt =====
-- Writing a segment keeps what the other segments hold: `append_entries`.
use surch.Base.{ℕ, ◌+◌, ◌%◌, ◌^◌, ◌<◌, ◌≡◌, refl, sym, ap, ◌∙◌, arith, false}
use surch.Base.{
  List, [], ◌∷◌, ◌++◌, length, All, some, ok, Bool-cases, inl, inr, >>=-eq-ok, append-All,
}
use surch.Codec.{bytes_eq}
use surch.Codec.Header.{bytes_eq-eq, bytes_eq_refl}
use surch.Wal.Record.{WalRecord}
use surch.Wal.Log.{done}
use surch.Segments.Name.{segment_name, segment_name-injective}
use surch.Segments.Disk.{Disk, lookup, insert, lookup-insert}
use surch.Segments.Store.{
  SegmentStore, SegmentMetadata, PersistedSegment, Json, write_atomic, write_segment,
}
use surch.Segments.Store.{
  append_entries, parse_records, read_segment_records, read_segments, all_records,
}
use mathlib.Core.List.{append_assoc, append-nil}

-- A name that the store has given away.
pub record IsIssued (next : ℕ) (m : SegmentMetadata) : Type 0 where
  pub id : ℕ
  pub issued : id < next
  pub named : m.file_name ≡ segment_name id

-- Every segment has a name that was given away, and the counter is a `u64`.
pub record IsNamed (store : SegmentStore) : Type 0 where
  pub names : All (IsIssued store.next_segment_id) store.segments
  pub counter_fits : store.next_segment_id < 2 ^ 64

-- A name that none of the segments has.
abbrev pub Misses : List ℕ → List SegmentMetadata → Type 0
Misses name ms = All (λ m. bytes_eq name m.file_name ≡ false) ms

issued-Misses :
    (next : ℕ) (ms : List SegmentMetadata)
    → next < 2 ^ 64
    → All (IsIssued next) ms
    → Misses (segment_name next) ms
issued-Misses next [] fits h = tt
issued-Misses next (m ∷ ms) fits (hm, h) = (
  elim (Bool-cases (bytes_eq (segment_name next) m.file_name)) [
    | inr e ↦ e
    | inl e ↦ absurd (
        omega (
          arith,
          hm.issued,
          segment_name-injective next hm.id fits (omega (arith, hm.issued))
              (bytes_eq-eq _ _ e ∙ hm.named),
        ))
  ],
  issued-Misses next ms fits h,
)

All-IsIssued_suc :
    (next : ℕ) (ms : List SegmentMetadata) → All (IsIssued next) ms → All (IsIssued (next + 1)) ms
All-IsIssued_suc next [] h = tt
All-IsIssued_suc next (m ∷ ms) (hm, h) = (
  record { id = hm.id; issued = omega (arith, hm.issued); named = hm.named },
  All-IsIssued_suc next ms h,
)

module _ (json : Json) where
  open json use {to_vec, from_slice, to_vec-pos, from_slice-to_vec}

  read_segment_records-other :
      (name other bytes : List ℕ) (disk : Disk)
      → bytes_eq name other ≡ false
      → read_segment_records json (insert name bytes disk) other
        ≡ read_segment_records json disk other
  unfolding read_segment_records
  read_segment_records-other name other bytes disk e =
      let same : lookup other (insert name bytes disk) ≡ lookup other disk =
        rw (lookup-insert, e) refl in
      rw (same, read_segment_records) refl

  read_segments-insert :
      (name bytes : List ℕ) (disk : Disk) (ms : List SegmentMetadata)
      → Misses name ms
      → read_segments json (insert name bytes disk) ms ≡ read_segments json disk ms
  unfolding read_segments
  read_segments-insert name bytes disk [] h = refl
  read_segments-insert name bytes disk (m ∷ ms) (hm, h) =
      rw
        (
          read_segment_records-other name m.file_name bytes disk hm,
          read_segments-insert name bytes disk ms h,
        )
        refl

  parse_records-to_vec :
      (name : List ℕ) (p : PersistedSegment) (bytes : List ℕ)
      → to_vec p ≡ some bytes
      → parse_records json name bytes ≡ ok p.records
  unfolding parse_records
  parse_records-to_vec name p [] e = absurd (omega (arith, to_vec-pos p [] e))
  parse_records-to_vec name p (b ∷ bytes) e =
      rw (from_slice-to_vec p (b ∷ bytes) e, parse_records) refl

  -- The file that was just written is read back.
  read_segment_records-insert :
      (name : List ℕ) (p : PersistedSegment) (bytes : List ℕ) (disk : Disk)
      → to_vec p ≡ some bytes
      → read_segment_records json (insert name bytes disk) name ≡ ok p.records
  unfolding read_segment_records
  read_segment_records-insert name p bytes disk e =
      let found : lookup name (insert name bytes disk) ≡ some bytes =
        rw (lookup-insert, bytes_eq_refl name) refl in
      rw (found, read_segment_records) (parse_records-to_vec name p bytes e)

  read_segments-append :
      (disk : Disk) (ms ns : List SegmentMetadata) (rs ss : List WalRecord)
      → read_segments json disk ms ≡ ok rs
      → read_segments json disk ns ≡ ok ss
      → read_segments json disk (ms ++ ns) ≡ ok (rs ++ ss)
  unfolding read_segments
  read_segments-append disk [] ns rs ss e f = ground (arith, f)
  read_segments-append disk (m ∷ ms) ns rs ss e f =
      let s1 = >>=-eq-ok (read_segment_records json disk m.file_name) _ e in
      let s2 = >>=-eq-ok (read_segments json disk ms) _ s1.2 in
      let rest = read_segments-append disk ms ns s2.0 ss s2.1 f in
      let whole : s1.0 ++ s2.0 ≡ rs = cc (s2.2) in
      rw (s1.1, rest, sym (append_assoc s1.0 s2.0 ss), whole) refl

  -- The segment that `append_entries` names in its answer.
  abbrev pub new_segment : SegmentStore → List WalRecord → SegmentMetadata
  new_segment store entries = record {
    file_name = segment_name store.next_segment_id;
    records = length entries;
  }

  abbrev pub with_segment : SegmentStore → List WalRecord → SegmentStore
  with_segment store entries = record store {
    next_segment_id = (store.next_segment_id + 1) % 2 ^ 64;
    segments = store.segments ++ new_segment store entries ∷ [];
  }

  pub write_segment-some :
      (store : SegmentStore) (disk : Disk) (entries : List WalRecord) (bytes : List ℕ)
      → to_vec (record { metadata = new_segment store entries; records = entries }) ≡ some bytes
      → write_segment json done entries store disk ≡ (
        record store { next_segment_id = (store.next_segment_id + 1) % 2 ^ 64 },
        insert (segment_name store.next_segment_id) bytes disk,
        ok (new_segment store entries),
      )
  unfolding write_segment write_atomic
  write_segment-some store disk entries bytes e = rw (write_segment, e, write_atomic) refl

  pub append_entries-some :
      (store : SegmentStore) (disk : Disk) (r : WalRecord) (rs : List WalRecord) (bytes : List ℕ)
      → to_vec (record { metadata = new_segment store (r ∷ rs); records = r ∷ rs }) ≡ some bytes
      → append_entries json done (r ∷ rs) store disk ≡ (
        with_segment store (r ∷ rs),
        insert (segment_name store.next_segment_id) bytes disk,
        ok (some (new_segment store (r ∷ rs))),
      )
  unfolding append_entries
  append_entries-some store disk r rs bytes e =
      rw (write_segment-some store disk (r ∷ rs) bytes e) refl

  -- What the directory holds for the segments once one more was written.
  pub read_segments-with_segment :
      (store : SegmentStore) (disk : Disk) (entries old : List WalRecord) (bytes : List ℕ)
      → IsNamed store
      → read_segments json disk store.segments ≡ ok old
      → to_vec (record { metadata = new_segment store entries; records = entries }) ≡ some bytes
      → read_segments json
          (insert (segment_name store.next_segment_id) bytes disk)
          (store.segments ++ new_segment store entries ∷ [])
        ≡ ok (old ++ entries)
  unfolding read_segments
  read_segments-with_segment store disk entries old bytes named held e =
      let name : List ℕ = segment_name store.next_segment_id in
      let misses =
        issued-Misses store.next_segment_id store.segments named.counter_fits named.names in
      let before = read_segments-insert name bytes disk store.segments misses ∙ held in
      let last : read_segments json (insert name bytes disk) (new_segment store entries ∷ [])
          ≡ ok entries =
        rw
          (
            read_segments,
            read_segment_records-insert name
                (record { metadata = new_segment store entries; records = entries }) bytes disk e,
          )
          (ap (λ z. ok z) (append-nil entries)) in
      read_segments-append (insert name bytes disk) store.segments (new_segment store entries ∷ [])
        old entries before last

  -- For a store whose segment names are its own and whose segments are readable, with a serialiser
  -- that accepts the new segment and a write that succeeds, appending entries (at least one)
  -- returns the new segment, and the store then reads the records that it read before and behind
  -- them the entries.
  pub append_entries-all_records :
      (store : SegmentStore) (disk : Disk) (r : WalRecord) (rs old : List WalRecord)
      (bytes : List ℕ)
      → IsNamed store
      → all_records json store disk ≡ ok old
      → to_vec (record { metadata = new_segment store (r ∷ rs); records = r ∷ rs }) ≡ some bytes
      → (append_entries json done (r ∷ rs) store disk).2 ≡ ok (some (new_segment store (r ∷ rs)))
        × all_records json
            (append_entries json done (r ∷ rs) store disk).0
            (append_entries json done (r ∷ rs) store disk).1
          ≡ ok (old ++ r ∷ rs)
  unfolding all_records
  append_entries-all_records store disk r rs old bytes named held e =
      rw (append_entries-some store disk r rs bytes e)
        (refl, read_segments-with_segment store disk (r ∷ rs) old bytes named held e)

  -- With a serialiser that accepts the new segment and a write that succeeds, appending entries
  -- (at least one) keeps every segment name one that the store gave away, while its counter stays
  -- below 2^64.
  pub append_entries-IsNamed :
      (store : SegmentStore) (disk : Disk) (r : WalRecord) (rs : List WalRecord) (bytes : List ℕ)
      → IsNamed store
      → store.next_segment_id + 1 < 2 ^ 64
      → to_vec (record { metadata = new_segment store (r ∷ rs); records = r ∷ rs }) ≡ some bytes
      → IsNamed (append_entries json done (r ∷ rs) store disk).0
  append_entries-IsNamed store disk r rs bytes named fits e =
      let no_wrap : (store.next_segment_id + 1) % 2 ^ 64 ≡ store.next_segment_id + 1 =
        omega (arith, fits) in
      rw (append_entries-some store disk r rs bytes e, no_wrap)
        (record {
          names =
              append-All (IsIssued (store.next_segment_id + 1)) store.segments
                (new_segment store (r ∷ rs) ∷ [])
                (All-IsIssued_suc store.next_segment_id store.segments named.names)
                (record { id = store.next_segment_id; issued = omega arith; named = refl }, tt);
          counter_fits = fits;
        })
