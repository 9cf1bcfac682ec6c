-- ===== src/Wal/RoundTrip.antt =====
-- A flushed log is read back: `WriteAheadLog::flush` and `WriteAheadLog::read_file`.
use surch.Base.{ℕ, zero, suc, ◌+◌, ◌-◌, ◌<◌, ◌≡◌, refl, sym, ap, ◌∙◌, arith}
use surch.Base.{List, [], ◌∷◌, ◌++◌, length, length-append, ok, true, ==_refl, ne→==}
use surch.Base.{All, lt→ltb, le→ltb, le→leb, Option, some}
use surch.Bytes.{At, At-start, At-append, usize_mod, is_ascii, to_be_bytes}
use surch.Codec.{write_footer, check_header, check_footer, header_length, crc32_zlib}
use surch.Codec.Header.{
  header_verdict, header_bytes, write_header-header_bytes, check_header-header_bytes,
  length-header_bytes,
}
use surch.Codec.Footer.{footer_start, write_footer-append, check_footer-write_footer, length-framed}
use surch.Wal.Identifier.{index, document_id, validate_identifier}
use surch.Wal.Record.{WalRecord, decode}
use surch.Wal.Decode.{
  IsEncodable, record_bytes, encode-record_bytes, decode-record_bytes, decode-moves,
}
use surch.Wal.Log.{
  WriteAheadLog, encode_all, log_bytes, read_records, read_framed, read_file, open_log, wal_codec,
  wal_version,
}
use surch.Wal.Log.{flush, done, last_sequence_of, write_atomic}
use mathlib.Core.Path.{subst}
use mathlib.Core.List.{append_assoc, append-nil}

-- What a record needs to be accepted on recovery.
pub record IsStorable (r : WalRecord) : Type 0 where
  pub encodable : IsEncodable r
  pub index_valid : validate_identifier r.index index ≡ ok tt
  pub doc_id_valid : validate_identifier r.doc_id document_id ≡ ok tt

-- The sequence numbers grow strictly, from above `low` on.
abbrev pub Ascending : ℕ → List WalRecord → Type 0
Ascending low [] = Unit
Ascending low (r ∷ rs) = (low < r.sequence) × Ascending r.sequence rs

unfoldable pub records_bytes : List WalRecord → List ℕ
records_bytes [] = []
records_bytes (r ∷ rs) = record_bytes r ++ records_bytes rs

length-records_bytes :
    (r : WalRecord) (rs : List WalRecord)
    → length (records_bytes (r ∷ rs)) ≡ length (record_bytes r) + length (records_bytes rs)
unfolding records_bytes
length-records_bytes r rs = length-append (record_bytes r) (records_bytes rs)

encode_all-records_bytes :
    (rs : List WalRecord) (bytes : List ℕ)
    → All IsStorable rs
    → encode_all rs bytes ≡ ok (bytes ++ records_bytes rs)
unfolding encode_all records_bytes
encode_all-records_bytes [] bytes h = ap ok (sym (append-nil bytes))
encode_all-records_bytes (r ∷ rs) bytes (hr, h) = rw (encode-record_bytes r bytes hr.encodable) (
    encode_all-records_bytes rs (bytes ++ record_bytes r) h
    ∙ ap ok (append_assoc bytes (record_bytes r) (records_bytes rs)))

-- A file with the given records, framed by the codec.
unfoldable pub log_file : List WalRecord → List ℕ
log_file rs = write_footer (header_bytes wal_codec wal_version ++ records_bytes rs)

wal_codec_ascii : is_ascii wal_codec ≡ true
unfolding is_ascii
wal_codec_ascii = refl

pub log_bytes-log_file : (rs : List WalRecord) → All IsStorable rs → log_bytes rs ≡ ok (log_file rs)
unfolding log_bytes log_file
log_bytes-log_file rs h =
    rw (write_header-header_bytes [] wal_codec wal_version wal_codec_ascii (omega arith))
      (rw (encode_all-records_bytes rs (header_bytes wal_codec wal_version) h) refl)

pub read_records_step :
    (fuel : ℕ) (bytes : List ℕ) (body_end cursor : ℕ) (acc : List WalRecord) (last next : ℕ)
    (r : WalRecord)
    → cursor < body_end
    → decode bytes cursor ≡ ok (r, next)
    → last < r.sequence
    → IsStorable r
    → read_records (suc fuel) bytes body_end cursor acc last
      ≡ read_records fuel bytes body_end next (acc ++ r ∷ []) r.sequence
unfolding read_records
read_records_step fuel bytes body_end cursor acc last next r more decoded above stored =
    rw (lt→ltb cursor body_end more, decoded)
      (rw (
        ne→== r.sequence 0 (λ e. absurd (omega arith)),
        lt→ltb last r.sequence above,
        stored.index_valid,
        stored.doc_id_valid,
      ))

read_records_end :
    (fuel : ℕ) (bytes : List ℕ) (body_end : ℕ) (acc : List WalRecord) (last : ℕ)
    → read_records (suc fuel) bytes body_end body_end acc last ≡ ok (acc, body_end)
unfolding read_records
read_records_end fuel bytes body_end acc last = rw (le→ltb body_end body_end (omega arith))

module _ {bytes : List ℕ} where
  read_records-records_bytes :
      (rs : List WalRecord) (fuel cursor : ℕ) (tail : List ℕ) (acc : List WalRecord) (last : ℕ)
      → All IsStorable rs
      → Ascending last rs
      → length (records_bytes rs) < fuel
      → At bytes cursor (records_bytes rs ++ tail)
      → read_records fuel bytes (cursor + length (records_bytes rs)) cursor acc last
        ≡ ok (acc ++ rs, cursor + length (records_bytes rs))
  read_records-records_bytes rs zero cursor tail acc last h asc enough at = absurd (omega arith)
  read_records-records_bytes [] (suc fuel) cursor tail acc last h asc enough at =
      let here : cursor + length (records_bytes []) ≡ cursor =
        unfold records_bytes in omega arith in
      rw (here, append-nil) (read_records_end fuel bytes cursor acc last)
  read_records-records_bytes (r ∷ rs) (suc fuel) cursor tail acc last (hr, h) (above, asc) enough
        at =
      let at' : At bytes cursor (record_bytes r ++ (records_bytes rs ++ tail)) =
        unfold records_bytes in simp append_assoc at at in
      let decoded = decode-record_bytes r (records_bytes rs ++ tail) hr.encodable at' in
      let moved = decode-moves bytes cursor decoded in
      let size = length-records_bytes r rs in
      let next = cursor + length (record_bytes r) in
      let total : cursor + length (records_bytes (r ∷ rs)) ≡ next + length (records_bytes rs) =
        omega (arith, size) in
      rw total (
        rw
          (read_records_step fuel bytes (next + length (records_bytes rs)) cursor acc last next r
            (omega (arith, moved)) decoded above hr)
          (rw
            (read_records-records_bytes rs fuel next tail (acc ++ r ∷ []) r.sequence h asc
              (omega (arith, size, moved)) (At-append (record_bytes r) at'))
            (rw (append_assoc acc (r ∷ []) rs))))

read_file-read_framed : (bytes : List ℕ) → 0 < length bytes → read_file bytes ≡ read_framed bytes
unfolding read_file
read_file-read_framed [] h = absurd (omega arith)
read_file-read_framed (b ∷ bytes) h = refl

-- The parts of a log file.
module _ (rs : List WalRecord) (small : length (records_bytes rs) + 28 < usize_mod) where
  body : List ℕ
  body = header_bytes wal_codec wal_version ++ records_bytes rs

  closing : List ℕ
  closing = footer_start ++ to_be_bytes 8 (crc32_zlib (body ++ footer_start))

  log_file-parts : log_file rs ≡ header_bytes wal_codec wal_version ++ (records_bytes rs ++ closing)
  unfolding log_file body closing
  log_file-parts =
      let header = header_bytes wal_codec wal_version in
      write_footer-append body
      ∙ append_assoc body footer_start (to_be_bytes 8 (crc32_zlib (body ++ footer_start)))
      ∙ append_assoc header (records_bytes rs) closing

  length-body : length body ≡ 12 + length (records_bytes rs)
  unfolding body header_length
  length-body = omega (
    arith,
    length-append (header_bytes wal_codec wal_version) (records_bytes rs),
    length-header_bytes wal_codec wal_version (omega arith),
  )

  length-log_file : length (log_file rs) ≡ 28 + length (records_bytes rs)
  unfolding log_file body
  length-log_file =
      rw (write_footer-append body)
        (omega (arith, length-framed body (crc32_zlib (body ++ footer_start)), length-body))

  file_small : length (log_file rs) < usize_mod
  file_small = omega (arith, length-log_file)

  footer_passes : check_footer (log_file rs) ≡ ok (crc32_zlib (body ++ footer_start))
  unfolding log_file body
  footer_passes = check_footer-write_footer body (omega (arith, length-body))

  header_passes :
      check_header (log_file rs) wal_codec wal_version wal_version
      ≡ ok (record { version = wal_version; length = 12 })
  unfolding header_verdict header_length
  header_passes = rw log_file-parts (
      check_header-header_bytes wal_codec (records_bytes rs ++ closing) wal_version wal_codec_ascii
        (omega arith) (omega arith) (rw log_file-parts at file_small) wal_codec wal_version
        wal_version)

  records_At : At (log_file rs) 12 (records_bytes rs ++ closing)
  records_At =
      let header = header_bytes wal_codec wal_version in
      let start : At (log_file rs) 0 (header ++ (records_bytes rs ++ closing)) =
        subst (At (log_file rs) 0) log_file-parts (At-start (log_file rs) file_small) in
      let size : 0 + length header ≡ 12 =
        unfold header_length in
        omega (arith, length-header_bytes wal_codec wal_version (omega arith)) in
      rw size at (At-append header start)

  read_framed-log_file : All IsStorable rs → Ascending 0 rs → read_framed (log_file rs) ≡ ok rs
  unfolding read_framed
  read_framed-log_file h asc =
      let file = log_file rs in
      let end : length file - 16 ≡ 12 + length (records_bytes rs) =
        omega (arith, length-log_file) in
      let loop =
        read_records-records_bytes rs (length file + 1) 12 closing [] 0 h asc
          (omega (arith, length-log_file)) records_At in
      rw (footer_passes, header_passes)
        (rw (le→leb 16 (length file) (omega (arith, length-log_file)), end, loop)
          (rw (==_refl (12 + length (records_bytes rs)))))

  -- What was written is read.
  pub read_file-log_file : All IsStorable rs → Ascending 0 rs → read_file (log_file rs) ≡ ok rs
  read_file-log_file h asc =
      read_file-read_framed (log_file rs) (omega (arith, length-log_file))
      ∙ read_framed-log_file h asc

pub flush-log_file :
    (log : WriteAheadLog) (file : Option (List ℕ))
    → All IsStorable log.entries
    → flush done log file ≡ (some (log_file log.entries), ok tt)
unfolding flush write_atomic
flush-log_file log file h = rw (log_bytes-log_file log.entries h, flush) refl

-- When every record of a log can be stored, the sequence numbers grow strictly from above 0 and
-- the file stays below 2^64 bytes, a flush whose file-system calls succeed returns ok, and opening
-- the file that it leaves gives the log with the same entries, whose next number follows the last
-- entry.
pub open_log-flush :
    (log : WriteAheadLog) (file : Option (List ℕ))
    → All IsStorable log.entries
    → Ascending 0 log.entries
    → length (records_bytes log.entries) + 28 < usize_mod
    → ((flush done log file).1 ≡ ok tt)
      × (open_log (flush done log file).0
          ≡ ok (record { next_sequence = last_sequence_of log.entries; entries = log.entries }))
unfolding open_log
open_log-flush log file h asc small =
    rw (flush-log_file log file h) (refl, rw (read_file-log_file log.entries small h asc) refl)
