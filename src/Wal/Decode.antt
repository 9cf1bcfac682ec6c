-- ===== src/Wal/Decode.antt =====
-- Decoding what `encode` wrote, and how far a decoding goes.
use surch.Base.{ℕ, ◌+◌, ◌%◌, ◌^◌, ◌≤◌, ◌<◌, ◌≡◌, refl, ap, arith}
use surch.Base.{List, [], ◌∷◌, ◌++◌, length, length-append, ok, true, le→ltb}
use surch.Base.{Bool-cases, inl, inr, ◌==◌, >>=-eq-ok}
use surch.Bytes.{At, At-cons, At-append, checked_add-At, slice-At, to_be_bytes, length-to_be_bytes}
use surch.Bytes.{from_be_bytes-to_be_bytes, is_utf8, checked_add, slice}
use surch.Wal.Identifier.{Field, index, doc_id, source}
use surch.Wal.Record.{WalRecord, WalOperation, index_source, delete, max_wal_binary_field_bytes}
use surch.Wal.Record.{write_u64, write_u32, write_prefixed_bytes, encode_operation, encode}
use surch.Wal.Record.{
  read_u8, read_be, read_u32, read_u64, read_prefixed_bytes, read_prefixed_string,
}
use surch.Wal.Record.{decode_operation, decode}
use mathlib.Core.List.{append_assoc}

-- The bytes of a record, field by field.
unfoldable pub prefixed : List ℕ → List ℕ
prefixed value = to_be_bytes 4 (length value) ++ value

unfoldable pub operation_bytes : WalOperation → List ℕ
unfolding prefixed
operation_bytes (index_source value) = 1 ∷ prefixed value
operation_bytes delete = 2 ∷ []

unfoldable pub record_bytes : WalRecord → List ℕ
record_bytes r =
    to_be_bytes 8 r.sequence
    ++ (to_be_bytes 8 r.timestamp_millis
        ++ (prefixed r.index ++ (prefixed r.doc_id ++ operation_bytes r.operation)))

abbrev pub FitsField : List ℕ → Type 0
FitsField value = length value ≤ max_wal_binary_field_bytes

abbrev pub OperationFits : WalOperation → Type 0
OperationFits (index_source value) = FitsField value
OperationFits delete = Unit

-- What a record needs to be written and read back.
pub record IsEncodable (r : WalRecord) : Type 0 where
  pub sequence_fits : r.sequence < 2 ^ 64
  pub timestamp_fits : r.timestamp_millis < 2 ^ 64
  pub index_fits : FitsField r.index
  pub doc_id_fits : FitsField r.doc_id
  pub index_utf8 : is_utf8 r.index ≡ true
  pub doc_id_utf8 : is_utf8 r.doc_id ≡ true
  pub operation_fits : OperationFits r.operation

write_prefixed_bytes-eq :
    (field : Field) (value bytes : List ℕ)
    → FitsField value
    → write_prefixed_bytes field value bytes ≡ ok (bytes ++ prefixed value)
unfolding write_prefixed_bytes write_u32 prefixed
write_prefixed_bytes-eq field value bytes fits =
    let small : length value % 2 ^ 32 ≡ length value = omega arith in
    rw (le→ltb max_wal_binary_field_bytes (length value) fits, small) (simp append_assoc)

encode_operation-eq :
    (operation : WalOperation) (bytes : List ℕ)
    → OperationFits operation
    → encode_operation operation bytes ≡ ok (bytes ++ operation_bytes operation)
unfolding encode_operation operation_bytes
encode_operation-eq (index_source value) bytes fits =
    rw (write_prefixed_bytes-eq source value (bytes ++ 1 ∷ []) fits)
      (ap ok (append_assoc bytes (1 ∷ []) (prefixed value)))
encode_operation-eq delete bytes fits = refl

-- `encode` appends the record's bytes.
pub encode-record_bytes :
    (r : WalRecord) (bytes : List ℕ) → IsEncodable r → encode r bytes ≡ ok (bytes ++ record_bytes r)
unfolding encode write_u64 record_bytes
encode-record_bytes r bytes fits = rw (write_prefixed_bytes-eq index r.index _ fits.index_fits) (
    rw (write_prefixed_bytes-eq doc_id r.doc_id _ fits.doc_id_fits)
      (rw (encode_operation-eq r.operation _ fits.operation_fits) (simp append_assoc)))

module _ {bytes : List ℕ} {p : ℕ} where
  read_be-At :
      (n v : ℕ) (rest : List ℕ)
      → v < 256 ^ n
      → At bytes p (to_be_bytes n v ++ rest)
      → read_be n bytes p ≡ ok (v, p + n)
  unfolding read_be
  read_be-At n v rest h at =
      let added = rw (length-to_be_bytes n v) at (checked_add-At (to_be_bytes n v) rest at) in
      let chunk = rw (length-to_be_bytes n v) at (slice-At (to_be_bytes n v) rest at) in
      rw (added, chunk, from_be_bytes-to_be_bytes n v h)

  read_u8-At : {b : ℕ} {rest : List ℕ} → At bytes p (b ∷ rest) → read_u8 bytes p ≡ ok (b, p + 1)
  unfolding read_u8
  read_u8-At at = rw ((At-cons at).0)

module _ {bytes : List ℕ} {p : ℕ} (value rest : List ℕ) (fits : FitsField value)
    (at : At bytes p (prefixed value ++ rest)) where
  length-prefixed : p + length (prefixed value) ≡ p + 4 + length value
  unfolding prefixed
  length-prefixed = omega (
    arith,
    length-append (to_be_bytes 4 (length value)) value,
    length-to_be_bytes 4 (length value),
  )

  read_prefixed_bytes-At : read_prefixed_bytes bytes p ≡ ok (value, p + length (prefixed value))
  unfolding read_prefixed_bytes prefixed
  read_prefixed_bytes-At =
      let at' = rw (append_assoc (to_be_bytes 4 (length value)) value rest) at at in
      let behind =
        rw (length-to_be_bytes 4 (length value)) at
          (At-append (to_be_bytes 4 (length value)) at') in
      rw
        (
          length-prefixed,
          read_be-At 4 (length value) (value ++ rest) (omega arith) at',
          le→ltb max_wal_binary_field_bytes (length value) fits,
        )
        (rw (checked_add-At value rest behind, slice-At value rest behind))

  read_prefixed_string-At :
      is_utf8 value ≡ true → read_prefixed_string bytes p ≡ ok (value, p + length (prefixed value))
  unfolding read_prefixed_string
  read_prefixed_string-At valid = rw (read_prefixed_bytes-At, valid)

decode_operation-At :
    {bytes : List ℕ} {p : ℕ} (operation : WalOperation) (rest : List ℕ)
    → OperationFits operation
    → At bytes p (operation_bytes operation ++ rest)
    → (marker : ℕ) × (read_u8 bytes p ≡ ok (marker, p + 1))
      × (decode_operation marker bytes (p + 1)
          ≡ ok (operation, p + length (operation_bytes operation)))
unfolding operation_bytes decode_operation
decode_operation-At (index_source value) rest fits at =
    (1, read_u8-At at, rw (read_prefixed_bytes-At value rest fits ((At-cons at).1)) (ground arith))
decode_operation-At delete rest fits at = (2, read_u8-At at, refl)

length-record_bytes :
    (r : WalRecord)
    → length (record_bytes r)
      ≡ 16
        + length (prefixed r.index)
        + length (prefixed r.doc_id)
        + length (operation_bytes r.operation)
unfolding record_bytes
length-record_bytes r = omega (
  arith,
  length-append (to_be_bytes 8 r.sequence) (
      to_be_bytes 8 r.timestamp_millis
      ++ (prefixed r.index ++ (prefixed r.doc_id ++ operation_bytes r.operation))),
  length-append (to_be_bytes 8 r.timestamp_millis)
      (prefixed r.index ++ (prefixed r.doc_id ++ operation_bytes r.operation)),
  length-append (prefixed r.index) (prefixed r.doc_id ++ operation_bytes r.operation),
  length-append (prefixed r.doc_id) (operation_bytes r.operation),
  length-to_be_bytes 8 r.sequence,
  length-to_be_bytes 8 r.timestamp_millis,
)

-- At every place of an input of less than 2^64 bytes where the bytes of an encodable record stand,
-- decode reads that record and leaves the cursor behind its last byte.
pub decode-record_bytes :
    {bytes : List ℕ} {p : ℕ} (r : WalRecord) (rest : List ℕ)
    → IsEncodable r
    → At bytes p (record_bytes r ++ rest)
    → decode bytes p ≡ ok (r, p + length (record_bytes r))
unfolding decode record_bytes
decode-record_bytes {bytes} {p} r rest fits at =
    let seq = to_be_bytes 8 r.sequence in
    let time = to_be_bytes 8 r.timestamp_millis in
    let tail = operation_bytes r.operation in
    let at1 : At bytes p
        (seq ++ (time ++ (prefixed r.index ++ (prefixed r.doc_id ++ (tail ++ rest))))) =
      simp append_assoc at at in
    let at2 = rw (length-to_be_bytes 8 r.sequence) at (At-append seq at1) in
    let at3 = rw (length-to_be_bytes 8 r.timestamp_millis) at (At-append time at2) in
    let at4 = At-append (prefixed r.index) at3 in
    let at5 = At-append (prefixed r.doc_id) at4 in
    let (marker, marked, operated) = decode_operation-At r.operation rest fits.operation_fits at5 in
    rw
      (
        read_be-At 8 r.sequence _ fits.sequence_fits at1,
        read_be-At 8 r.timestamp_millis _ fits.timestamp_fits at2,
        read_prefixed_string-At r.index _ fits.index_fits at3 fits.index_utf8,
        read_prefixed_string-At r.doc_id _ fits.doc_id_fits at4 fits.doc_id_utf8,
        marked,
        operated,
      )
      (rw length-record_bytes (ap (λ (end : ℕ). ok (r, end)) (omega arith)))

-- Readers move the cursor forward.
read_be-moves :
    (n : ℕ) (bytes : List ℕ) (c : ℕ) {v c' : ℕ} → read_be n bytes c ≡ ok (v, c') → c' ≡ c + n
unfolding read_be checked_add slice
read_be-moves n bytes c h = ground arith

read_u8-moves : (bytes : List ℕ) (c : ℕ) {v c' : ℕ} → read_u8 bytes c ≡ ok (v, c') → c' ≡ c + 1
unfolding read_u8
read_u8-moves bytes c h = ground arith

read_prefixed_bytes-moves :
    (bytes : List ℕ) (c : ℕ) {v : List ℕ} {c' : ℕ}
    → read_prefixed_bytes bytes c ≡ ok (v, c')
    → c ≤ c'
unfolding read_prefixed_bytes checked_add
read_prefixed_bytes-moves bytes c h =
    let s = >>=-eq-ok (read_u32 bytes c) _ h in ground (arith, s.2, read_be-moves 4 bytes c s.1)

read_prefixed_string-moves :
    (bytes : List ℕ) (c : ℕ) {v : List ℕ} {c' : ℕ}
    → read_prefixed_string bytes c ≡ ok (v, c')
    → c ≤ c'
unfolding read_prefixed_string
read_prefixed_string-moves bytes c h =
    let s = >>=-eq-ok (read_prefixed_bytes bytes c) _ h in
    ground (arith, s.2, read_prefixed_bytes-moves bytes c s.1)

decode_operation-moves :
    (marker : ℕ) (bytes : List ℕ) (c : ℕ) {o : WalOperation} {c' : ℕ}
    → decode_operation marker bytes c ≡ ok (o, c')
    → c ≤ c'
unfolding decode_operation
decode_operation-moves marker bytes c h = elim (Bool-cases (marker == 1)) [
  | inl e ↦
      let s = >>=-eq-ok (read_prefixed_bytes bytes c) _ (rw e at h) in
      ground (arith, s.2, read_prefixed_bytes-moves bytes c s.1)
  | inr e ↦ ground (arith, rw e at h)
]

-- A decoded record takes a byte at least.
pub decode-moves :
    (bytes : List ℕ) (c : ℕ) {r : WalRecord} {c' : ℕ} → decode bytes c ≡ ok (r, c') → c < c'
unfolding decode
decode-moves bytes c h =
    let s1 = >>=-eq-ok (read_u64 bytes c) _ h in
    let s2 = >>=-eq-ok (read_u64 bytes s1.0.1) _ s1.2 in
    let s3 = >>=-eq-ok (read_prefixed_string bytes s2.0.1) _ s2.2 in
    let s4 = >>=-eq-ok (read_prefixed_string bytes s3.0.1) _ s3.2 in
    let s5 = >>=-eq-ok (read_u8 bytes s4.0.1) _ s4.2 in
    let s6 = >>=-eq-ok (decode_operation s5.0.0 bytes s5.0.1) _ s5.2 in
    ground (
      arith,
      s6.2,
      read_be-moves 8 bytes c s1.1,
      read_be-moves 8 bytes s1.0.1 s2.1,
      read_prefixed_string-moves bytes s2.0.1 s3.1,
      read_prefixed_string-moves bytes s3.0.1 s4.1,
      read_u8-moves bytes s4.0.1 s5.1,
      decode_operation-moves s5.0.0 bytes s5.0.1 s6.1,
    )
