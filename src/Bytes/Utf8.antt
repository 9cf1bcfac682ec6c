-- ===== src/Bytes/Utf8.antt =====
-- `String::from_utf8` and `str::is_ascii`. A Rust string is the list of its UTF-8 bytes.
use surch.Base.{
  ℕ, ◌≡◌, refl, ltb, leb, if◌then◌else◌, Bool, true, false, ◌&&◌, List, [], ◌∷◌, arith,
}

-- What may follow: the start of a character, one to three continuation bytes, or the second byte
-- of a character whose first byte narrows its range.
pub data Utf8State : Type 0 where
  start one two three after_e0 after_ed after_f0 after_f4 : Utf8State
  invalid : Utf8State

between : ℕ → ℕ → ℕ → Bool
between lo hi b = leb lo b && leb b hi

first_byte : ℕ → Utf8State
first_byte b =
    if leb b 0x7f
    then start
    else if between 0xc2 0xdf b
    then one
    else if leb b 0xdf
    then invalid
    else if leb b 0xe0
    then after_e0
    else if leb b 0xec
    then two
    else if leb b 0xed
    then after_ed
    else if leb b 0xef
    then two
    else if leb b 0xf0
    then after_f0
    else if leb b 0xf3
    then three
    else if leb b 0xf4
    then after_f4
    else invalid

utf8_step : Utf8State → ℕ → Utf8State
utf8_step start b = first_byte b
utf8_step one b = if between 0x80 0xbf b then start else invalid
utf8_step two b = if between 0x80 0xbf b then one else invalid
utf8_step three b = if between 0x80 0xbf b then two else invalid
utf8_step after_e0 b = if between 0xa0 0xbf b then one else invalid
utf8_step after_ed b = if between 0x80 0x9f b then one else invalid
utf8_step after_f0 b = if between 0x90 0xbf b then two else invalid
utf8_step after_f4 b = if between 0x80 0x8f b then two else invalid
utf8_step invalid b = invalid

utf8_from : Utf8State → List ℕ → Bool
utf8_from start [] = true
utf8_from s [] = false
utf8_from s (b ∷ bytes) = utf8_from (utf8_step s b) bytes

unfoldable pub is_utf8 : List ℕ → Bool
unfolding utf8_from utf8_step first_byte between
is_utf8 bytes = utf8_from start bytes

unfoldable pub is_ascii : List ℕ → Bool
is_ascii [] = true
is_ascii (b ∷ bytes) = ltb b 128 && is_ascii bytes

-- ASCII text is UTF-8.
pub is_ascii-is_utf8 : (bytes : List ℕ) → is_ascii bytes ≡ true → is_utf8 bytes ≡ true
unfolding is_ascii is_utf8
is_ascii-is_utf8 [] h = refl
is_ascii-is_utf8 (b ∷ bytes) h = ground (arith, is_ascii-is_utf8 bytes)
