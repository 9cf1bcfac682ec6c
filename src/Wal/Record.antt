-- ===== src/Wal/Record.antt =====
-- `WalRecord::encode`, `WalRecord::decode` and their helpers in crates/surch-store/src/wal.rs.
use surch.Base.{ℕ, ◌+◌, ◌*◌, ◌%◌, ◌^◌, ltb, ◌==◌, if◌then◌else◌, List, [], ◌∷◌, ◌++◌}
use surch.Base.{length, get_elem?, ok, err, ◌>>=◌, ◌>>◌, guard, ok_or, not}
use surch.Bytes.{checked_add, slice, to_be_bytes, from_be_bytes, is_utf8}
use surch.Wal.Identifier.{WalResult, Field, index, doc_id, source, prefixed_data, corrupt}
use surch.Wal.Identifier.{field_too_large, unexpected_end, cursor_overflow, length_overflow}
use surch.Wal.Identifier.{invalid_utf8, unknown_op}

pub data WalOperation : Type 0 where
  index_source : List ℕ → WalOperation
  delete : WalOperation

pub record WalRecord : Type 0 where
  pub sequence : ℕ
  pub timestamp_millis : ℕ
  pub index : List ℕ
  pub doc_id : List ℕ
  pub operation : WalOperation

-- `MAX_WAL_BINARY_FIELD_BYTES`
abbrev pub max_wal_binary_field_bytes : ℕ
max_wal_binary_field_bytes = 4 * 1024 * 1024

unfoldable pub write_u64 : ℕ → List ℕ → List ℕ
write_u64 value bytes = bytes ++ to_be_bytes 8 value

unfoldable pub write_u32 : ℕ → List ℕ → List ℕ
write_u32 value bytes = bytes ++ to_be_bytes 4 value

unfoldable pub write_prefixed_bytes : Field → List ℕ → List ℕ → WalResult (List ℕ)
write_prefixed_bytes field value bytes =
    if ltb max_wal_binary_field_bytes (length value)
    then err (field_too_large field (length value) max_wal_binary_field_bytes)
    else ok (write_u32 (length value % 2 ^ 32) bytes ++ value)

unfoldable pub encode_operation : WalOperation → List ℕ → WalResult (List ℕ)
encode_operation (index_source value) bytes = write_prefixed_bytes source value (bytes ++ 1 ∷ [])
encode_operation delete bytes = ok (bytes ++ 2 ∷ [])

-- The buffer that `encode` extends comes back; on an error the caller drops it.
unfoldable pub encode : WalRecord → List ℕ → WalResult (List ℕ)
unfolding encode_operation
encode r bytes = do
  named ←
      write_prefixed_bytes index r.index (write_u64 r.timestamp_millis (write_u64 r.sequence bytes))
  identified ← write_prefixed_bytes doc_id r.doc_id named
  encode_operation r.operation identified

unfoldable pub read_u8 : List ℕ → ℕ → WalResult (ℕ × ℕ)
read_u8 bytes cursor = do
  byte ← ok_or (get_elem? bytes cursor) (corrupt unexpected_end)
  ok (byte, cursor + 1)

-- `read_u32` and `read_u64` differ in their width alone.
unfoldable pub read_be : ℕ → List ℕ → ℕ → WalResult (ℕ × ℕ)
read_be width bytes cursor = do
  end ← ok_or (checked_add cursor width) (corrupt cursor_overflow)
  chunk ← ok_or (slice bytes cursor end) (corrupt unexpected_end)
  ok (from_be_bytes chunk, end)

abbrev pub read_u32 : List ℕ → ℕ → WalResult (ℕ × ℕ)
read_u32 bytes cursor = read_be 4 bytes cursor

abbrev pub read_u64 : List ℕ → ℕ → WalResult (ℕ × ℕ)
read_u64 bytes cursor = read_be 8 bytes cursor

unfoldable pub read_prefixed_bytes : List ℕ → ℕ → WalResult (List ℕ × ℕ)
read_prefixed_bytes bytes cursor = do
  (length', start) ← read_u32 bytes cursor
  guard (not (ltb max_wal_binary_field_bytes length'))
      (field_too_large prefixed_data length' max_wal_binary_field_bytes)
  end ← ok_or (checked_add start length') (corrupt length_overflow)
  value ← ok_or (slice bytes start end) (corrupt unexpected_end)
  ok (value, end)

unfoldable pub read_prefixed_string : List ℕ → ℕ → WalResult (List ℕ × ℕ)
read_prefixed_string bytes cursor = do
  (value, end) ← read_prefixed_bytes bytes cursor
  guard (is_utf8 value) (corrupt invalid_utf8)
  ok (value, end)

unfoldable pub decode_operation : ℕ → List ℕ → ℕ → WalResult (WalOperation × ℕ)
decode_operation marker bytes cursor =
    if marker == 1
    then (do (value, end) ← read_prefixed_bytes bytes cursor; ok (index_source value, end))
    else if marker == 2
    then ok (delete, cursor)
    else err (corrupt (unknown_op marker))

unfoldable pub decode : List ℕ → ℕ → WalResult (WalRecord × ℕ)
decode bytes cursor = do
  (sequence, c1) ← read_u64 bytes cursor
  (timestamp_millis, c2) ← read_u64 bytes c1
  (index', c3) ← read_prefixed_string bytes c2
  (doc_id', c4) ← read_prefixed_string bytes c3
  (marker, c5) ← read_u8 bytes c4
  (operation, end) ← decode_operation marker bytes c5
  ok (
    record {
      sequence = sequence;
      timestamp_millis = timestamp_millis;
      index = index';
      doc_id = doc_id';
      operation = operation;
    },
    end,
  )
