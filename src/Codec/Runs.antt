-- ===== src/Codec/Runs.antt =====
-- Runs of crates/surch-codec/src/codec_util.rs on concrete bytes.
use surch.Base.{ℕ, ◌≡◌, ◌≢◌, refl, arith, true, List, [], ◌∷◌, ◌++◌, drop, ok, err}
use surch.Bytes.{is_ascii, to_be_bytes, groups}
use surch.Codec.Defs.{
  crc32_zlib, crc_bytes, crc_byte, crc_rounds, crc_round, check_header, check_footer, write_footer,
  checksum_mismatch,
}
use surch.Codec.Crc.{crc32_zlib_one_byte}
use surch.Codec.Header.{header_bytes, header_verdict, check_header-header_bytes}
use surch.Codec.Footer.{footer_start, check_footer-write_footer, check_footer-one_byte}

-- "wal"
abbrev wal_name : List ℕ
wal_name = b'w' ∷ b'a' ∷ b'l' ∷ []

wal_name_ascii : is_ascii wal_name ≡ true
unfolding is_ascii
wal_name_ascii = refl

-- The check value of CRC-32: the checksum of "123456789".
check_value :
    crc32_zlib (b'1' ∷ b'2' ∷ b'3' ∷ b'4' ∷ b'5' ∷ b'6' ∷ b'7' ∷ b'8' ∷ b'9' ∷ []) ≡ 0xcbf4_3926
unfolding crc32_zlib crc_bytes crc_byte crc_rounds crc_round
check_value = refl

crc32_zlib_one_byte_example : crc32_zlib (1 ∷ 2 ∷ 3 ∷ []) ≢ crc32_zlib (1 ∷ 9 ∷ 3 ∷ [])
crc32_zlib_one_byte_example =
    crc32_zlib_one_byte (1 ∷ []) (3 ∷ []) 2 9 (omega arith, tt) (omega arith, tt) (omega arith)
      (omega arith) (omega arith)

check_header-header_bytes_example :
    check_header (header_bytes wal_name 1 ++ 5 ∷ []) wal_name 1 1
    ≡ header_verdict wal_name 1 wal_name 1 1
unfolding header_bytes to_be_bytes groups
check_header-header_bytes_example =
    check_header-header_bytes wal_name (5 ∷ []) 1 wal_name_ascii (omega arith) (omega arith)
      (omega arith) wal_name 1 1

check_footer-write_footer_example :
    check_footer (write_footer (1 ∷ 2 ∷ [])) ≡ ok (crc32_zlib ((1 ∷ 2 ∷ []) ++ footer_start))
check_footer-write_footer_example = check_footer-write_footer (1 ∷ 2 ∷ []) (omega arith)

check_footer-one_byte_example :
    check_footer ((1 ∷ 7 ∷ []) ++ drop 2 (write_footer (1 ∷ 2 ∷ [])))
    ≡ err (
        checksum_mismatch
          (crc32_zlib ((1 ∷ 2 ∷ []) ++ footer_start))
          (crc32_zlib ((1 ∷ 7 ∷ []) ++ footer_start)))
check_footer-one_byte_example =
    check_footer-one_byte (1 ∷ []) [] 2 7 (omega arith, tt) tt (omega arith) (omega arith)
      (omega arith) (omega arith)
