-- ===== src/Wal/Log.antt =====
-- `WriteAheadLog` of crates/surch-store/src/wal.rs. The file `wal.log` is an optional byte
-- sequence beside the log's state, and the operating system's answers are arguments.
use surch.Base.{ℕ, zero, suc, ◌+◌, ◌-◌, ◌%◌, ◌^◌, ltb, leb, ◌==◌, if◌then◌else◌, not}
use surch.Base.{List, [], ◌∷◌, ◌++◌, length, Option, none, some, ok, err, ◌>>=◌, ◌>>◌, guard, ok_or}
use surch.Codec.{write_header, write_footer, check_header, check_footer, footer_length, CodecResult}
use surch.Wal.Identifier.{
  WalResult, io, corrupt, codec_util, stuck, system_call, clock_before_epoch, validate_identifier,
}
use surch.Wal.Identifier.{sequence_zero, sequence_not_increasing, too_small_for_footer}
use surch.Wal.Identifier.{trailing_bytes, index, document_id}
use surch.Wal.Record.{WalRecord, WalOperation, index_source, delete, encode, decode}

pub record WriteAheadLog : Type 0 where
  pub next_sequence : ℕ
  pub entries : List WalRecord

-- The answer to a sequence of file-system calls: done, or failed with an error number.
pub data Io : Type 0 where
  done : Io
  failed : ℕ → Io

-- "wal"
abbrev pub wal_codec : List ℕ
wal_codec = b'w' ∷ b'a' ∷ b'l' ∷ []

abbrev pub wal_version : ℕ
wal_version = 1

-- `#[error(transparent)] CodecUtil(#[from] CodecUtilError)`
abbrev pub from_codec : {A : Type 0} → CodecResult A → WalResult A
from_codec (ok a) = ok a
from_codec (err e) = err (codec_util e)

unfoldable pub last_sequence_of : List WalRecord → ℕ
last_sequence_of [] = 0
last_sequence_of (r ∷ []) = r.sequence
last_sequence_of (r ∷ rs) = last_sequence_of rs

-- The guards of `append_index` and `append_delete`, and the reading of the clock, which answers
-- with the milliseconds since the epoch unless it stands before it.
unfoldable pub check_append : Option ℕ → List ℕ → List ℕ → WalResult ℕ
check_append now index' doc_id' = do
  validate_identifier index' index
  validate_identifier doc_id' document_id
  ok_or now (io clock_before_epoch)

-- `entries.push(record); next_sequence += 1`, which wraps in a release build.
unfoldable pub push_record :
    WalResult ℕ → WriteAheadLog → List ℕ → List ℕ → WalOperation → WriteAheadLog × WalResult ℕ
push_record (err e) log index' doc_id' operation = (log, err e)
push_record (ok millis) log index' doc_id' operation =
    let sequence = (log.next_sequence + 1) % 2 ^ 64 in
    (
      record {
        next_sequence = sequence;
        entries =
            log.entries
            ++ record {
              sequence = sequence;
              timestamp_millis = millis;
              index = index';
              doc_id = doc_id';
              operation = operation;
            }
              ∷ [];
      },
      ok sequence,
    )

-- The common body of `append_index` and `append_delete`.
unfoldable pub append :
    WriteAheadLog → Option ℕ → List ℕ → List ℕ → WalOperation → WriteAheadLog × WalResult ℕ
unfolding push_record
append log now index' doc_id' operation =
    push_record (check_append now index' doc_id') log index' doc_id' operation

unfoldable pub append_index :
    WriteAheadLog → Option ℕ → List ℕ → List ℕ → List ℕ → WriteAheadLog × WalResult ℕ
append_index log now index' doc_id' value = append log now index' doc_id' (index_source value)

unfoldable pub append_delete :
    WriteAheadLog → Option ℕ → List ℕ → List ℕ → WriteAheadLog × WalResult ℕ
append_delete log now index' doc_id' = append log now index' doc_id' delete

unfoldable pub drain_entries : WriteAheadLog → WriteAheadLog × List WalRecord
drain_entries log = (record log { entries = [] }, log.entries)

-- `for record in &self.entries { record.encode(&mut bytes)?; }`
unfoldable pub encode_all : List WalRecord → List ℕ → WalResult (List ℕ)
encode_all [] bytes = ok bytes
encode_all (r ∷ rs) bytes = do bytes' ← encode r bytes; encode_all rs bytes'

-- The bytes that `flush` hands to `write_atomic`.
unfoldable pub log_bytes : List WalRecord → WalResult (List ℕ)
unfolding encode_all
log_bytes entries = do
  header ← from_codec (write_header [] wal_codec wal_version)
  body ← encode_all entries header
  ok (write_footer body)

-- The temporary file is renamed onto `wal.log` only when all else succeeded.
unfoldable pub write_atomic : Io → Option (List ℕ) → List ℕ → Option (List ℕ) × WalResult (Unit {0})
write_atomic done file bytes = (some bytes, ok tt)
write_atomic (failed code) file bytes = (file, err (io (system_call code)))

-- `flush`: the file and the result.
unfoldable pub flush : Io → WriteAheadLog → Option (List ℕ) → Option (List ℕ) × WalResult (Unit {0})
flush answer log file = elim (log_bytes log.entries) [
  | err e ↦ (file, err e)
  | ok bytes ↦ write_atomic answer file bytes
]

-- `filter(|entry| entry.sequence > min_sequence_inclusive)`
unfoldable pub entries_above : ℕ → List WalRecord → List WalRecord
entries_above min [] = []
entries_above min (r ∷ rs) =
    if ltb min r.sequence then r ∷ entries_above min rs else entries_above min rs

abbrev pub Flushed : Type 0
Flushed = WriteAheadLog × Option (List ℕ) × WalResult (Unit {0})

unfoldable pub retain_entries_greater_than : ℕ → Io → WriteAheadLog → Option (List ℕ) → Flushed
retain_entries_greater_than min answer log file =
    let kept = entries_above min log.entries in
    let log' : WriteAheadLog = record { next_sequence = last_sequence_of kept; entries = kept } in
    let (file', result) = flush answer log' file in (log', file', result)

unfoldable pub clear : Io → WriteAheadLog → Option (List ℕ) → Flushed
clear answer log file =
    let log' : WriteAheadLog = record { next_sequence = 0; entries = [] } in
    let (file', result) = flush answer log' file in (log', file', result)

-- The loop of `read_file`: the entries read so far, and where the loop stopped.
unfoldable pub read_records :
    ℕ → List ℕ → ℕ → ℕ → List WalRecord → ℕ → WalResult (List WalRecord × ℕ)
read_records zero bytes body_end cursor entries last_sequence = err stuck
read_records (suc fuel) bytes body_end cursor entries last_sequence =
    let more = do
      (r, next) ← decode bytes cursor
      guard (not (r.sequence == 0)) (corrupt sequence_zero)
      guard (ltb last_sequence r.sequence) (corrupt sequence_not_increasing)
      validate_identifier r.index index
      validate_identifier r.doc_id document_id
      read_records fuel bytes body_end next (entries ++ r ∷ []) r.sequence
    in if ltb cursor body_end then more else ok (entries, cursor)

-- `read_file` on a file that is not empty. A record takes a byte at least, so a round for each
-- byte and one more are enough.
unfoldable pub read_framed : List ℕ → WalResult (List WalRecord)
read_framed bytes = do
  checksum ← from_codec (check_footer bytes)
  header ← from_codec (check_header bytes wal_codec wal_version wal_version)
  guard (leb footer_length (length bytes)) (corrupt too_small_for_footer)
  let body_end = length bytes - footer_length
  (entries, cursor) ← read_records (length bytes + 1) bytes body_end header.length [] 0
  guard (cursor == body_end) (corrupt trailing_bytes)
  ok entries

unfoldable pub read_file : List ℕ → WalResult (List WalRecord)
read_file [] = ok []
read_file (b ∷ rest) = read_framed (b ∷ rest)

-- `WriteAheadLog::new`, on the file if it exists. The directory is there.
unfoldable pub open_log : Option (List ℕ) → WalResult WriteAheadLog
unfolding last_sequence_of
open_log none = ok (record { next_sequence = 0; entries = [] })
open_log (some bytes) = do
  entries ← read_file bytes
  ok (record { next_sequence = last_sequence_of entries; entries = entries })
