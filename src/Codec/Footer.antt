-- ===== src/Codec/Footer.antt =====
-- The footer of codec_util.rs: what `check_footer` says of a written file, and of a damaged one.
use surch.Base.{ℕ, ◌+◌, ◌-◌, ◌/◌, ◌%◌, ◌^◌, ◌<◌, ◌≡◌, ◌≢◌, refl, sym, ◌∙◌}
use surch.Base.{
  arith, List, [], ◌∷◌, ◌++◌, length, length-append, drop, take, bit_and, le→ltb, ==_refl, ne→==,
  drop-append_length, if◌then◌else◌,
}
use surch.Base.{ok, err, true, false, ltb, ◌==◌, append-All, take-append_length}
use surch.Base.Bits.{bit_and_shifted}
use surch.Bytes.{
  At, At-start, At-append, IsByte, IsBytes, to_be_bytes, length-to_be_bytes, to_be_bytes-IsBytes,
  usize_mod,
}
use surch.Codec.Defs.{write_footer, validate_footer, retrieve_checksum, check_footer, crc32_zlib}
use surch.Codec.Defs.{write_be_i32, write_be_u64, footer_magic, checksum_mismatch}
use surch.Codec.Crc.{IsU32, crc32_zlib-IsU32, crc32_zlib_one_byte}
use surch.Codec.Header.{read_be_i32-At, read_be_u64-At}
use mathlib.Core.List.{append_assoc, append-nil}
use mathlib.Core.Path.{subst}
use native.Mathlib.Nat.{zero-add}

-- The footer's first eight bytes: the magic number and the algorithm's id.
unfoldable pub footer_start : List ℕ
footer_start = to_be_bytes 4 footer_magic ++ to_be_bytes 4 0

length-footer_start : length footer_start ≡ 8
unfolding footer_start to_be_bytes
length-footer_start = refl

footer_start-IsBytes : IsBytes footer_start
unfolding footer_start
footer_start-IsBytes =
    append-All IsByte (to_be_bytes 4 footer_magic) (to_be_bytes 4 0)
      (to_be_bytes-IsBytes 4 footer_magic) (to_be_bytes-IsBytes 4 0)

pub write_footer-append :
    (output : List ℕ)
    → write_footer output
      ≡ (output ++ footer_start) ++ to_be_bytes 8 (crc32_zlib (output ++ footer_start))
unfolding write_footer write_be_i32 write_be_u64 footer_start
write_footer-append output = simp append_assoc

-- A file that ends in a footer with the checksum `sum`.
abbrev pub framed : List ℕ → ℕ → List ℕ
framed body sum = (body ++ footer_start) ++ to_be_bytes 8 sum

pub length-framed : (body : List ℕ) (sum : ℕ) → length (framed body sum) ≡ length body + 16
length-framed body sum = omega (
  arith,
  length-append (body ++ footer_start) (to_be_bytes 8 sum),
  length-append body footer_start,
  length-footer_start,
  length-to_be_bytes 8 sum,
)

high_word_clear : (sum : ℕ) → IsU32 sum → (bit_and sum 0xffff_ffff_0000_0000 == 0) ≡ true
high_word_clear sum fits =
    let top : sum / 2 ^ 32 ≡ 0 = omega arith in
    let masked : bit_and sum 0xffff_ffff_0000_0000 ≡ 0 =
      bit_and_shifted 32 sum 0xffff_ffff ∙ rw top refl in
    rw masked refl

module _ (body : List ℕ) (sum : ℕ) (fits : IsU32 sum)
    (small : length (framed body sum) < usize_mod) where
  footer_At :
      At
        (framed body sum)
        (length body)
        (to_be_bytes 4 footer_magic ++ (to_be_bytes 4 0 ++ (to_be_bytes 8 sum ++ [])))
  unfolding footer_start
  footer_At =
      let shape : framed body sum
          ≡ body ++ (to_be_bytes 4 footer_magic ++ (to_be_bytes 4 0 ++ (to_be_bytes 8 sum ++ []))) =
        simp (append_assoc, append-nil) in
      rw zero-add at
        (At-append body (subst (At (framed body sum) 0) shape (At-start (framed body sum) small)))

  id_At : At (framed body sum) (length body + 4) (to_be_bytes 4 0 ++ (to_be_bytes 8 sum ++ []))
  id_At =
      rw (length-to_be_bytes 4 footer_magic) at (At-append (to_be_bytes 4 footer_magic) footer_At)

  sum_At : At (framed body sum) (length body + 4 + 4) (to_be_bytes 8 sum ++ [])
  sum_At = rw (length-to_be_bytes 4 0) at (At-append (to_be_bytes 4 0) id_At)

  validate_footer-framed : validate_footer (framed body sum) ≡ ok sum
  unfolding validate_footer
  validate_footer-framed =
      let enough : ltb (length (framed body sum)) 16 ≡ false =
        le→ltb (length (framed body sum)) 16 (omega (arith, length-framed body sum)) in
      let footer_at : length (framed body sum) - 16 ≡ length body =
        omega (arith, length-framed body sum) in
      rw
        (
          enough,
          footer_at,
          read_be_i32-At footer_magic _ (omega arith) footer_At,
          read_be_i32-At 0 _ (omega arith) id_At,
          read_be_u64-At sum [] (omega arith) sum_At,
        )
        (rw (high_word_clear sum fits) refl)

  -- The bytes that the checksum covers: all but the last eight.
  covered : take (length (framed body sum) - 8) (framed body sum) ≡ body ++ footer_start
  covered =
      let size : length (framed body sum) - 8 ≡ length (body ++ footer_start) =
        omega
          (arith, length-framed body sum, length-append body footer_start, length-footer_start) in
      rw size (take-append_length (body ++ footer_start) (to_be_bytes 8 sum))

  -- `check_footer` compares the stored sum with that of the bytes before it.
  pub check_footer-framed : check_footer (framed body sum) ≡ (
      if sum == crc32_zlib (body ++ footer_start)
      then ok (crc32_zlib (body ++ footer_start))
      else err (checksum_mismatch sum (crc32_zlib (body ++ footer_start))))
  unfolding check_footer retrieve_checksum
  check_footer-framed =
      let low : sum % 2 ^ 32 ≡ sum = omega arith in
      rw (covered, validate_footer-framed) (rw low (ground arith))

-- A file shorter than 2^64 bytes that write_footer closed passes check_footer, which returns the
-- checksum of all bytes before the stored one.
pub check_footer-write_footer :
    (output : List ℕ)
    → length output + 16 < usize_mod
    → check_footer (write_footer output) ≡ ok (crc32_zlib (output ++ footer_start))
check_footer-write_footer output small =
    let sum = crc32_zlib (output ++ footer_start) in
    rw (write_footer-append output) (
      check_footer-framed output sum (crc32_zlib-IsU32 (output ++ footer_start))
        (rw (length-framed output sum) small)
      ∙ rw (==_refl sum) refl)

-- When one byte of the body of a file that write_footer closed is overwritten by another byte,
-- check_footer refuses the file with the checksums of the old and the new body; the bytes are
-- below 256 and the file is shorter than 2^64.
pub check_footer-one_byte :
    (front back : List ℕ) (x y : ℕ)
    → IsBytes front
    → IsBytes back
    → IsByte x
    → IsByte y
    → x ≢ y
    → length (front ++ x ∷ back) + 16 < usize_mod
    → check_footer (
        (front ++ y ∷ back) ++ drop (length (front ++ x ∷ back)) (write_footer (front ++ x ∷ back)))
      ≡ err (
          checksum_mismatch
            (crc32_zlib ((front ++ x ∷ back) ++ footer_start))
            (crc32_zlib ((front ++ y ∷ back) ++ footer_start)))
check_footer-one_byte front back x y hf hb hx hy ne small =
    let output = front ++ x ∷ back in
    let damaged = front ++ y ∷ back in
    let sum = crc32_zlib (output ++ footer_start) in
    rw (damaged_file damaged output) (
      check_footer-framed damaged sum (crc32_zlib-IsU32 (output ++ footer_start)) (
        omega (
          arith,
          length-framed damaged sum,
          length-append front (x ∷ back),
          length-append front (y ∷ back),
        ))
      ∙ rw (ne→== sum (crc32_zlib (damaged ++ footer_start)) sums_differ) refl)
  where
    damaged_file :
        (damaged output : List ℕ)
        → damaged ++ drop (length output) (write_footer output)
          ≡ framed damaged (crc32_zlib (output ++ footer_start))
    damaged_file damaged output =
        let tail = to_be_bytes 8 (crc32_zlib (output ++ footer_start)) in
        rw
          (
            write_footer-append output,
            append_assoc output footer_start tail,
            drop-append_length output (footer_start ++ tail),
          )
          (sym (append_assoc damaged footer_start tail))

    sums_differ :
        crc32_zlib ((front ++ x ∷ back) ++ footer_start)
        ≢ crc32_zlib ((front ++ y ∷ back) ++ footer_start)
    sums_differ =
        rw (append_assoc front (x ∷ back) footer_start, append_assoc front (y ∷ back) footer_start)
          (crc32_zlib_one_byte front (back ++ footer_start) x y hf
            (append-All IsByte back footer_start hb footer_start-IsBytes) hx hy ne)
