-- ===== src/Wal/Sequence.antt =====
-- The sequence numbers of the log, and what recovery never answers.
use surch.Base.{ℕ, zero, suc, ◌+◌, ◌-◌, ◌%◌, ◌^◌, ◌≤◌, ◌<◌, ◌≡◌, ◌≢◌, refl, arith}
use surch.Base.{List, [], ◌∷◌, ◌++◌, length, ok, err, true, false, ltb, Option, All, append-All}
use surch.Base.{◌>>=◌, ◌==◌, Bool-cases, Bool, guard, not, leb, ◌>>◌, ltb→lt, inl, inr}
use surch.Wal.Identifier.{
  WalResult, Field, Corruption, corrupt, sequence_zero, sequence_not_increasing,
  too_small_for_footer, trailing_bytes, stuck, validate_identifier,
}
use surch.Codec.{CodecResult, check_footer, check_header}
use surch.Wal.Record.{
  WalRecord, WalOperation, index_source, decode, decode_operation, read_be, read_u8, read_u32,
}
use surch.Wal.Record.{read_prefixed_bytes, read_prefixed_string}
use surch.Wal.Decode.{decode-moves}
use surch.Wal.Log.{
  WriteAheadLog, append, push_record, check_append, read_records, read_framed, read_file,
  from_codec, wal_codec, wal_version,
}
use surch.Wal.RoundTrip.{Ascending}

-- The numbers in the log grow strictly, and none passes the counter.
pub record IsNumbered (log : WriteAheadLog) : Type 0 where
  pub ascending : Ascending 0 log.entries
  pub below : All (λ r. r.sequence ≤ log.next_sequence) log.entries
  pub counter_fits : log.next_sequence < 2 ^ 64

Ascending-append :
    (low : ℕ) (rs : List WalRecord) (r : WalRecord) (bound : ℕ)
    → low ≤ bound
    → Ascending low rs
    → All (λ r. r.sequence ≤ bound) rs
    → bound < r.sequence
    → Ascending low (rs ++ r ∷ [])
Ascending-append low [] r bound l asc below above = (omega arith, tt)
Ascending-append low (x ∷ rs) r bound l (lt, asc) (h, below) above =
    (lt, Ascending-append x.sequence rs r bound h asc below above)

All-weaken :
    (n m : ℕ) (rs : List WalRecord)
    → n ≤ m
    → All (λ r. r.sequence ≤ n) rs
    → All (λ r. r.sequence ≤ m) rs
All-weaken n m [] l h = tt
All-weaken n m (r ∷ rs) l (hr, h) = (omega arith, All-weaken n m rs l h)

push_record-IsNumbered :
    (checked : WalResult ℕ) (log : WriteAheadLog) (index doc_id : List ℕ) (operation : WalOperation)
    → IsNumbered log
    → log.next_sequence + 1 < 2 ^ 64
    → IsNumbered (push_record checked log index doc_id operation).0
unfolding push_record
push_record-IsNumbered (err e) log index doc_id operation v room = v
push_record-IsNumbered (ok millis) log index doc_id operation v room =
    let next : (log.next_sequence + 1) % 2 ^ 64 ≡ log.next_sequence + 1 = omega arith in
    let r : WalRecord = record {
      sequence = log.next_sequence + 1;
      timestamp_millis = millis;
      index = index;
      doc_id = doc_id;
      operation = operation;
    } in
    rw next (record {
      ascending =
          Ascending-append 0 log.entries r log.next_sequence (omega arith) v.ascending v.below
            (omega arith);
      below =
          append-All (λ s. s.sequence ≤ log.next_sequence + 1) log.entries (r ∷ [])
            (All-weaken log.next_sequence (log.next_sequence + 1) log.entries (omega arith) v.below)
            (omega arith);
      counter_fits = room;
    })

-- Appending to a log keeps its numbers strictly growing and at most the counter, whether the
-- record is accepted or refused, while the counter stays below 2^64.
pub append-IsNumbered :
    (log : WriteAheadLog) (now : Option ℕ) (index doc_id : List ℕ) (operation : WalOperation)
    → IsNumbered log
    → log.next_sequence + 1 < 2 ^ 64
    → IsNumbered (append log now index doc_id operation).0
unfolding append
append-IsNumbered log now index doc_id operation =
    push_record-IsNumbered (check_append now index doc_id) log index doc_id operation

-- Recovery never runs out of fuel.
>>=-ne-stuck :
    {A B : Type 0} (m : WalResult A) (f : A → WalResult B)
    → m ≢ err stuck
    → ((a : A) → m ≡ ok a → f a ≢ err stuck)
    → (m >>= f) ≢ err stuck
>>=-ne-stuck (ok a) f hm hf = hf a refl
>>=-ne-stuck (err e) f hm hf = λ h. hm (cc)

ok-ne-stuck : {A : Type 0} {a : A} → ◌≢◌ {A = WalResult A} (ok a) (err stuck)
ok-ne-stuck h = cc

-- A guard in front changes nothing about that.
guard-ne-stuck :
    {A : Type 0} (b : Bool) (c : Corruption) {k : WalResult A}
    → k ≢ err stuck
    → (guard b (corrupt c) >> k) ≢ err stuck
guard-ne-stuck true c hk h = hk h
guard-ne-stuck false c hk h = cc

read_be-ne-stuck : (n : ℕ) (bytes : List ℕ) (cursor : ℕ) → read_be n bytes cursor ≢ err stuck
unfolding read_be
read_be-ne-stuck n bytes cursor h = ground arith

read_prefixed_bytes-ne-stuck :
    (bytes : List ℕ) (cursor : ℕ) → read_prefixed_bytes bytes cursor ≢ err stuck
unfolding read_prefixed_bytes
read_prefixed_bytes-ne-stuck bytes cursor =
    >>=-ne-stuck (read_u32 bytes cursor) _ (read_be-ne-stuck 4 bytes cursor) (λ a e h. ground arith)

read_prefixed_string-ne-stuck :
    (bytes : List ℕ) (cursor : ℕ) → read_prefixed_string bytes cursor ≢ err stuck
unfolding read_prefixed_string
read_prefixed_string-ne-stuck bytes cursor =
    >>=-ne-stuck (read_prefixed_bytes bytes cursor) _ (read_prefixed_bytes-ne-stuck bytes cursor)
      (λ a e h. ground arith)

read_u8-ne-stuck : (bytes : List ℕ) (cursor : ℕ) → read_u8 bytes cursor ≢ err stuck
unfolding read_u8
read_u8-ne-stuck bytes cursor h = ground arith

decode_operation-ne-stuck :
    (marker : ℕ) (bytes : List ℕ) (cursor : ℕ) → decode_operation marker bytes cursor ≢ err stuck
unfolding decode_operation
decode_operation-ne-stuck marker bytes cursor h =
    let blob : (read_prefixed_bytes bytes cursor >>= λ (x : List ℕ × ℕ). ok (index_source x.0, x.1))
        ≢ err stuck =
      >>=-ne-stuck (read_prefixed_bytes bytes cursor)
        (λ (x : List ℕ × ℕ). ok (index_source x.0, x.1)) (read_prefixed_bytes-ne-stuck bytes cursor)
        (λ a e. ok-ne-stuck) in
    elim (Bool-cases (marker == 1)) [ inl e ↦ blob (rw e at h) | inr e ↦ ground (arith, rw e at h) ]

decode-ne-stuck : (bytes : List ℕ) (cursor : ℕ) → decode bytes cursor ≢ err stuck
unfolding decode
decode-ne-stuck bytes cursor = >>=-ne-stuck _ _ (read_be-ne-stuck 8 bytes cursor) (λ a1 e1.
    >>=-ne-stuck _ _ (read_be-ne-stuck 8 bytes a1.1) (λ a2 e2.
      >>=-ne-stuck _ _ (read_prefixed_string-ne-stuck bytes a2.1) (λ a3 e3.
        >>=-ne-stuck _ _ (read_prefixed_string-ne-stuck bytes a3.1) (λ a4 e4.
          >>=-ne-stuck _ _ (read_u8-ne-stuck bytes a4.1) (λ a5 e5.
            >>=-ne-stuck _ _ (decode_operation-ne-stuck a5.0 bytes a5.1) (λ a6 e6. ok-ne-stuck))))))

validate_identifier-ne-stuck :
    (value : List ℕ) (field : Field) → validate_identifier value field ≢ err stuck
unfolding validate_identifier
validate_identifier-ne-stuck value field h = ground arith

read_records-ne-stuck :
    (fuel : ℕ) (bytes : List ℕ) (body_end cursor : ℕ) (acc : List WalRecord) (last : ℕ)
    → 1 ≤ fuel
    → body_end < cursor + fuel
    → read_records fuel bytes body_end cursor acc last ≢ err stuck
unfolding read_records
read_records-ne-stuck zero bytes body_end cursor acc last some_fuel enough = absurd (omega arith)
read_records-ne-stuck (suc fuel) bytes body_end cursor acc last some_fuel enough =
    elim (Bool-cases (ltb cursor body_end)) [
      | inr over ↦ rw over ok-ne-stuck
      | inl inside ↦ rw inside (
          >>=-ne-stuck _ _ (decode-ne-stuck bytes cursor) (λ a e.
            guard-ne-stuck (not (a.0.sequence == 0)) sequence_zero (
              guard-ne-stuck (ltb last a.0.sequence) sequence_not_increasing (
                >>=-ne-stuck _ _ (validate_identifier-ne-stuck a.0.index Field.index) (λ _ _.
                  >>=-ne-stuck _ _ (validate_identifier-ne-stuck a.0.doc_id Field.document_id)
                    (λ _ _.
                      read_records-ne-stuck fuel bytes body_end a.1 (acc ++ a.0 ∷ []) a.0.sequence
                        (omega (arith, ltb→lt cursor body_end inside))
                        (omega (arith, decode-moves bytes cursor e))))))))
    ]

from_codec-ne-stuck : {A : Type 0} (m : CodecResult A) → from_codec m ≢ err stuck
from_codec-ne-stuck (ok a) h = cc
from_codec-ne-stuck (err e) h = cc

-- On every file, whatever its bytes, the reader of the log ends before its fuel does.
pub read_file-ne-stuck : (bytes : List ℕ) → read_file bytes ≢ err stuck
unfolding read_file read_framed
read_file-ne-stuck [] = ok-ne-stuck
read_file-ne-stuck (b ∷ rest) =
    >>=-ne-stuck _ _ (from_codec-ne-stuck (check_footer (b ∷ rest))) (λ _ _.
      >>=-ne-stuck _ _
        (from_codec-ne-stuck (check_header (b ∷ rest) wal_codec wal_version wal_version))
        (λ header _. guard-ne-stuck (leb 16 (length (b ∷ rest))) too_small_for_footer (
          >>=-ne-stuck _ _
            (read_records-ne-stuck (length (b ∷ rest) + 1) (b ∷ rest) (length (b ∷ rest) - 16)
              header.length [] 0 (omega arith) (omega arith))
            (λ a _. guard-ne-stuck (a.1 == (length (b ∷ rest) - 16)) trailing_bytes ok-ne-stuck))))
