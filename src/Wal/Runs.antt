-- ===== src/Wal/Runs.antt =====
-- Runs of crates/surch-store/src/wal.rs on a log of two records.
use surch.Base.{
  ℕ, ◌^◌, ◌≢◌, err, ◌+◌, ◌<◌, ◌≡◌, refl, arith, List, [], ◌∷◌, ◌++◌, length, none, some, ok,
}
use surch.Bytes.{is_utf8, At-start, to_be_bytes}
use surch.Wal.Identifier.{stuck, validate_identifier, is_blank, has_forbidden_byte}
use surch.Wal.Record.{WalRecord, index_source, delete, decode}
use surch.Wal.Log.{WriteAheadLog, done, flush, open_log, read_file, append, last_sequence_of}
use surch.Wal.Decode.{record_bytes, operation_bytes, prefixed, decode-record_bytes}
use surch.Wal.RoundTrip.{IsStorable, records_bytes, open_log-flush}
use surch.Wal.Sequence.{read_file-ne-stuck, IsNumbered, append-IsNumbered}

-- "a"
abbrev a_name : List ℕ
a_name = b'a' ∷ []

abbrev first_record : WalRecord
first_record = record {
  sequence = 1;
  timestamp_millis = 7;
  index = a_name;
  doc_id = a_name;
  operation = index_source (b'{' ∷ b'}' ∷ []);
}

abbrev second_record : WalRecord
second_record = record {
  sequence = 2;
  timestamp_millis = 9;
  index = a_name;
  doc_id = a_name;
  operation = delete;
}

abbrev two_records : WriteAheadLog
two_records = record { next_sequence = 2; entries = first_record ∷ second_record ∷ [] }

first_record-IsStorable : IsStorable first_record
unfolding is_utf8 validate_identifier is_blank has_forbidden_byte
first_record-IsStorable = record {
  encodable = record {
    sequence_fits = omega arith;
    timestamp_fits = omega arith;
    index_fits = omega arith;
    doc_id_fits = omega arith;
    index_utf8 = refl;
    doc_id_utf8 = refl;
    operation_fits = omega arith;
  };
  index_valid = refl;
  doc_id_valid = refl;
}

second_record-IsStorable : IsStorable second_record
unfolding is_utf8 validate_identifier is_blank has_forbidden_byte
second_record-IsStorable = record {
  encodable = record {
    sequence_fits = omega arith;
    timestamp_fits = omega arith;
    index_fits = omega arith;
    doc_id_fits = omega arith;
    index_utf8 = refl;
    doc_id_utf8 = refl;
    operation_fits = tt;
  };
  index_valid = refl;
  doc_id_valid = refl;
}

two_records_small : length (records_bytes two_records.entries) + 28 < 2 ^ 64
unfolding records_bytes record_bytes prefixed operation_bytes to_be_bytes
two_records_small = omega arith

open_log-flush_example :
    ((flush done two_records none).1 ≡ ok tt)
    × (open_log (flush done two_records none).0
        ≡ ok (record {
          next_sequence = last_sequence_of two_records.entries;
          entries = two_records.entries;
        }))
open_log-flush_example =
    open_log-flush two_records none (first_record-IsStorable, (second_record-IsStorable, tt))
      (omega arith, (omega arith, tt)) two_records_small

first_record_small : length (record_bytes first_record ++ []) < 2 ^ 64
unfolding record_bytes prefixed operation_bytes to_be_bytes
first_record_small = omega arith

decode-record_bytes_example :
    decode (record_bytes first_record ++ []) 0
    ≡ ok (first_record, 0 + length (record_bytes first_record))
decode-record_bytes_example =
    decode-record_bytes first_record [] first_record-IsStorable.encodable
      (At-start (record_bytes first_record ++ []) first_record_small)

two_records-IsNumbered : IsNumbered two_records
two_records-IsNumbered = record {
  ascending = (omega arith, (omega arith, tt));
  below = (omega arith, (omega arith, tt));
  counter_fits = omega arith;
}

append-IsNumbered_example : IsNumbered (append two_records (some 11) a_name a_name delete).0
append-IsNumbered_example =
    append-IsNumbered two_records (some 11) a_name a_name delete two_records-IsNumbered
      (omega arith)

read_file-ne-stuck_example : read_file (1 ∷ 2 ∷ 3 ∷ []) ≢ err stuck
read_file-ne-stuck_example = read_file-ne-stuck (1 ∷ 2 ∷ 3 ∷ [])
