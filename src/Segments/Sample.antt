-- ===== src/Segments/Sample.antt =====
-- A serialiser and concrete segments to run crates/surch-store/src/segment_store.rs with.
use surch.Base.{
  ℕ, ◌≡◌, ◌<◌, sym, ◌∙◌, refl, ap, arith, List, [], ◌∷◌, ◌++◌, Option, none, some, ok, length, take,
  drop,
}
use surch.Base.{take-append_length, drop-append_length}
use surch.Wal.Record.{WalRecord, WalOperation, index_source, delete}
use surch.Segments.Store.{
  SegmentStore, SegmentMetadata, PersistedSegment, Json, all_records, read_segments,
}
use surch.Segments.Append.{IsNamed, new_segment}

-- A list behind its length.
abbrev counted : List ℕ → List ℕ → List ℕ
counted xs rest = length xs ∷ xs ++ rest

-- A list that stands behind its length, and what follows.
abbrev take_counted : List ℕ → List ℕ × List ℕ
take_counted [] = ([], [])
take_counted (n ∷ rest) = (take n rest, drop n rest)

-- A serialiser that writes the segments of one deletion.
abbrev text : SegmentMetadata → WalRecord → List ℕ
text m r =
    m.records ∷ r.sequence ∷ r.timestamp_millis ∷ counted m.file_name (counted r.index r.doc_id)

abbrev write_one : SegmentMetadata → WalRecord → WalOperation → Option (List ℕ)
write_one m r (index_source value) = none
write_one m r delete = some (text m r)

abbrev write_segment_text : SegmentMetadata → List WalRecord → Option (List ℕ)
write_segment_text m [] = none
write_segment_text m (r ∷ []) = write_one m r r.operation
write_segment_text m (r ∷ rs) = none

abbrev read_segment_text : List ℕ → Option PersistedSegment
read_segment_text (n ∷ s ∷ t ∷ rest) =
    let name = take_counted rest in
    let index = take_counted (name.1) in
    some (record {
      metadata = record { file_name = name.0; records = n };
      records =
          record {
            sequence = s;
            timestamp_millis = t;
            index = index.0;
            doc_id = index.1;
            operation = delete;
          }
          ∷ [];
    })
read_segment_text rest = none

write_one-pos :
    (m : SegmentMetadata) (r : WalRecord) (o : WalOperation) (bytes : List ℕ)
    → write_one m r o ≡ some bytes
    → 0 < length bytes
write_one-pos m r (index_source value) bytes e = cc
write_one-pos m r delete [] e = cc
write_one-pos m r delete (b ∷ bytes) e = omega arith

pub write_segment_text-pos :
    (m : SegmentMetadata) (rs : List WalRecord) (bytes : List ℕ)
    → write_segment_text m rs ≡ some bytes
    → 0 < length bytes
write_segment_text-pos m [] bytes e = cc
write_segment_text-pos m (r ∷ []) bytes e = write_one-pos m r r.operation bytes e
write_segment_text-pos m (r ∷ s ∷ rs) bytes e = cc

read-text :
    (m : SegmentMetadata) (r : WalRecord)
    → r.operation ≡ delete
    → read_segment_text (text m r) ≡ some (record { metadata = m; records = r ∷ [] })
read-text m r k =
    let rest = counted r.index r.doc_id in
    rw
      (
        drop-append_length m.file_name rest,
        take-append_length m.file_name rest,
        take-append_length r.index r.doc_id,
        drop-append_length r.index r.doc_id,
      )
      (ap
        (λ (o : WalOperation).
          some (record { metadata = m; records = record r { operation = o } ∷ [] }))
        (sym k))

some-injective : {a b : List ℕ} → some a ≡ some b → a ≡ b
some-injective e = cc

read-write_one :
    (m : SegmentMetadata) (r : WalRecord) (o : WalOperation) (bytes : List ℕ)
    → r.operation ≡ o
    → write_one m r o ≡ some bytes
    → read_segment_text bytes ≡ some (record { metadata = m; records = r ∷ [] })
read-write_one m r (index_source value) bytes k e = cc
read-write_one m r delete bytes k e =
    ap read_segment_text (sym (some-injective e)) ∙ read-text m r k

pub read-write_segment_text :
    (m : SegmentMetadata) (rs : List WalRecord) (bytes : List ℕ)
    → write_segment_text m rs ≡ some bytes
    → read_segment_text bytes ≡ some (record { metadata = m; records = rs })
read-write_segment_text m [] bytes e = cc
read-write_segment_text m (r ∷ []) bytes e = read-write_one m r r.operation bytes refl e
read-write_segment_text m (r ∷ s ∷ rs) bytes e = cc

unfoldable pub sample_json : Json
sample_json = record {
  to_vec = λ p. write_segment_text p.metadata p.records;
  from_slice = read_segment_text;
  to_vec-pos = λ p. write_segment_text-pos p.metadata p.records;
  from_slice-to_vec = λ p. read-write_segment_text p.metadata p.records;
}

-- "d"
abbrev d_name : List ℕ
d_name = b'd' ∷ []

-- A deletion of the document "d" in the index "d", numbered 1.
abbrev pub sample_record : WalRecord
sample_record = record {
  sequence = 1;
  timestamp_millis = 7;
  index = d_name;
  doc_id = d_name;
  operation = delete;
}

-- A store that holds nothing yet.
abbrev pub sample_store : SegmentStore
sample_store = record { segments = []; next_segment_id = 1; keep_recent_segments = 1 }

pub sample_store-IsNamed : IsNamed sample_store
sample_store-IsNamed = record { names = tt; counter_fits = omega arith }

pub sample_store-all_records : all_records sample_json sample_store [] ≡ ok []
unfolding all_records read_segments
sample_store-all_records = refl

abbrev pub sample_text : List ℕ
sample_text = text (new_segment sample_json sample_store (sample_record ∷ [])) sample_record

pub sample_written :
    (sample_json.to_vec) (record {
      metadata = new_segment sample_json sample_store (sample_record ∷ []);
      records = sample_record ∷ [];
    })
    ≡ some sample_text
unfolding sample_json
sample_written = refl
