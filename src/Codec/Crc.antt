-- ===== src/Codec/Crc.antt =====
-- What the CRC-32 of `codec_util::crc32_zlib` detects.
use surch.Base.{ℕ, zero, suc, ◌/◌, ◌%◌, ◌^◌, ◌<◌, ◌≡◌, ◌≢◌, ◌⊎◌, inl, inr, refl, sym, ◌∙◌}
use surch.Base.{arith, bit_and, bit_xor, List, [], ◌∷◌, ◌++◌, append-All}
use surch.Base.Bits.{
  bit_and_mask, bit_xor-lt, bit_xor_cancel, bit_xor_comm, bit_xor-shift, bit_xor-zero,
}
use surch.Bytes.{IsByte, IsBytes}
use surch.Codec.Defs.{crc_round, crc_rounds, crc_byte, crc_bytes, crc32_zlib}

abbrev pub IsU32 : ℕ → Type 0
IsU32 v = v < 2 ^ 32

abbrev polynomial : ℕ
polynomial = 0xedb8_8320

round_even : (crc : ℕ) → IsU32 crc → crc % 2 ≡ 0 → crc_round crc ≡ crc / 2
unfolding crc_round
round_even crc h e =
    let low : bit_and crc 1 ≡ 0 = bit_and_mask 1 crc ∙ e in
    rw low (bit_xor-zero 32 (crc / 2) (omega arith))

round_odd : (crc : ℕ) → crc % 2 ≡ 1 → crc_round crc ≡ bit_xor (crc / 2) polynomial
unfolding crc_round
round_odd crc e = let low : bit_and crc 1 ≡ 1 = bit_and_mask 1 crc ∙ e in rw low refl

parity : (n : ℕ) → (n % 2 ≡ 0) ⊎ (n % 2 ≡ 1)
parity n = omega arith

crc_round-IsU32 : (crc : ℕ) → IsU32 crc → IsU32 (crc_round crc)
crc_round-IsU32 crc h = elim (parity crc) [
  | inl e ↦ rw (round_even crc h e) (omega arith)
  | inr e ↦ rw (round_odd crc e) (bit_xor-lt 32 (crc / 2) polynomial (omega arith) (omega arith))
]

-- The polynomial's top bit shows which of the two cases the round took.
cases_differ : (a b : ℕ) → IsU32 a → IsU32 b → a / 2 ≢ bit_xor (b / 2) polynomial
cases_differ a b ha hb e =
    let top : b / 2 / 2 ^ 31 ≡ 0 = omega arith in
    let shifted : bit_xor (b / 2) polynomial / 2 ^ 31 ≡ 1 =
      bit_xor-shift 31 (b / 2) polynomial ∙ rw top refl in
    absurd (omega arith)

-- A round of the CRC loses nothing.
crc_round_cancel : (a b : ℕ) → IsU32 a → IsU32 b → crc_round a ≡ crc_round b → a ≡ b
crc_round_cancel a b ha hb e = elim (parity a) [
  | inl p ↦ elim (parity b) [
    | inl q ↦ omega (arith, round_even a ha p, round_even b hb q)
    | inr q ↦ absurd (cases_differ a b ha hb (sym (round_even a ha p) ∙ e ∙ round_odd b q))
  ]
  | inr p ↦ elim (parity b) [
    | inl q ↦ absurd (cases_differ b a hb ha (sym (round_even b hb q) ∙ sym e ∙ round_odd a p))
    | inr q ↦ omega (
      arith,
      bit_xor_cancel 32 (a / 2) (b / 2) polynomial (omega arith) (omega arith)
          (sym (round_odd a p) ∙ e ∙ round_odd b q),
    )
  ]
]

crc_rounds-IsU32 : (n crc : ℕ) → IsU32 crc → IsU32 (crc_rounds n crc)
unfolding crc_rounds
crc_rounds-IsU32 zero crc h = h
crc_rounds-IsU32 (suc n) crc h = crc_rounds-IsU32 n (crc_round crc) (crc_round-IsU32 crc h)

crc_rounds_cancel : (n a b : ℕ) → IsU32 a → IsU32 b → crc_rounds n a ≡ crc_rounds n b → a ≡ b
unfolding crc_rounds
crc_rounds_cancel zero a b ha hb e = e
crc_rounds_cancel (suc n) a b ha hb e = crc_round_cancel a b ha hb (
    crc_rounds_cancel n (crc_round a) (crc_round b) (crc_round-IsU32 a ha) (crc_round-IsU32 b hb) e)

xor_byte-IsU32 : (crc byte : ℕ) → IsU32 crc → IsByte byte → IsU32 (bit_xor crc byte)
xor_byte-IsU32 crc byte h hb = bit_xor-lt 32 crc byte h (omega arith)

crc_byte-IsU32 : (crc byte : ℕ) → IsU32 crc → IsByte byte → IsU32 (crc_byte crc byte)
unfolding crc_byte
crc_byte-IsU32 crc byte h hb = crc_rounds-IsU32 8 (bit_xor crc byte) (xor_byte-IsU32 crc byte h hb)

crc_bytes-IsU32 :
    (crc : ℕ) (input : List ℕ) → IsU32 crc → IsBytes input → IsU32 (crc_bytes crc input)
unfolding crc_bytes
crc_bytes-IsU32 crc [] h hs = h
crc_bytes-IsU32 crc (byte ∷ input) h (hb, hs) =
    crc_bytes-IsU32 (crc_byte crc byte) input (crc_byte-IsU32 crc byte h hb) hs

-- Two registers stay apart under the same bytes.
crc_bytes_cancel :
    (input : List ℕ) (a b : ℕ)
    → IsU32 a
    → IsU32 b
    → IsBytes input
    → crc_bytes a input ≡ crc_bytes b input
    → a ≡ b
unfolding crc_bytes
crc_bytes_cancel [] a b ha hb hs e = e
crc_bytes_cancel (byte ∷ input) a b ha hb (h, hs) e = bit_xor_cancel 32 a b byte ha hb (
    crc_rounds_cancel 8 (bit_xor a byte) (bit_xor b byte) (xor_byte-IsU32 a byte ha h)
      (xor_byte-IsU32 b byte hb h)
      (crc_bytes_cancel input (crc_byte a byte) (crc_byte b byte) (crc_byte-IsU32 a byte ha h)
        (crc_byte-IsU32 b byte hb h) hs e))

-- Two bytes drive one register apart.
crc_byte_cancel :
    (crc x y : ℕ) → IsU32 crc → IsByte x → IsByte y → crc_byte crc x ≡ crc_byte crc y → x ≡ y
unfolding crc_byte
crc_byte_cancel crc x y h hx hy e = bit_xor_cancel 32 x y crc (omega arith) (omega arith) (
    bit_xor_comm 32 x crc (omega arith) h
    ∙ crc_rounds_cancel 8 (bit_xor crc x) (bit_xor crc y) (xor_byte-IsU32 crc x h hx)
        (xor_byte-IsU32 crc y h hy) e
    ∙ bit_xor_comm 32 crc y h (omega arith))

crc_bytes-append :
    (crc : ℕ) (front rest : List ℕ)
    → crc_bytes crc (front ++ rest) ≡ crc_bytes (crc_bytes crc front) rest
unfolding crc_bytes
crc_bytes-append crc [] rest = refl
crc_bytes-append crc (b ∷ front) rest = crc_bytes-append (crc_byte crc b) front rest

pub crc32_zlib-IsU32 : (input : List ℕ) → IsU32 (crc32_zlib input)
unfolding crc32_zlib
crc32_zlib-IsU32 input = omega arith

-- Two byte sequences that differ in exactly one byte have different CRC-32 checksums.
pub crc32_zlib_one_byte :
    (front back : List ℕ) (x y : ℕ)
    → IsBytes front
    → IsBytes back
    → IsByte x
    → IsByte y
    → x ≢ y
    → crc32_zlib (front ++ x ∷ back) ≢ crc32_zlib (front ++ y ∷ back)
unfolding crc32_zlib crc_bytes
crc32_zlib_one_byte front back x y hf hb hx hy ne e =
    let start : ℕ = 0xffff_ffff in
    let before = crc_bytes start front in
    let fits : IsU32 before = crc_bytes-IsU32 start front (omega arith) hf in
    let bounds = λ (b : ℕ) (h : IsByte b).
      crc_bytes-IsU32 start (front ++ b ∷ back) (omega arith)
        (append-All IsByte front (b ∷ back) hf (h, hb)) in
    let registers : crc_bytes start (front ++ x ∷ back) ≡ crc_bytes start (front ++ y ∷ back) =
      omega (arith, e, bounds x hx, bounds y hy) in
    ne (
      crc_byte_cancel before x y fits hx hy (
        crc_bytes_cancel back (crc_byte before x) (crc_byte before y)
          (crc_byte-IsU32 before x fits hx) (crc_byte-IsU32 before y fits hy) hb
          (sym (crc_bytes-append start front (x ∷ back))
            ∙ registers
            ∙ crc_bytes-append start front (y ∷ back))))
