-- ===== src/Postings/Varint.antt =====
-- The LEB128 numbers of crates/surch-codec/src/postings_block.rs, and their errors.
use surch.Base.{ℕ, zero, suc, ◌+◌, ◌*◌, ◌/◌, ◌%◌, ◌^◌, ◌≤◌, ◌<◌, ◌≡◌, refl, sym, ◌∙◌, arith}
use surch.Base.{
  ltb, leb, ◌==◌, ◌&&◌, not, if◌then◌else◌, bit_and, bit_or, true, false, List, [], ◌∷◌, ◌++◌,
  length,
}
use surch.Base.{
  get_elem?, Result, ok, err, ◌>>=◌, ◌>>◌, guard, ok_or, lt→leb, le→leb, lt→ltb, le→ltb, ne→==,
}
use surch.Base.Bits.{bit_or_fields}
use surch.Bytes.{
  At, At-cons, groups, groups-last, groups-more, group_byte, low_group, top_clear, top_set,
  group_fits, shift_fits,
}
use surch.Codec.{step_by_seven}
use mathlib.Core.List.{append_assoc, append-nil}
use native.Mathlib.Decide.{dec_lt}
use native.Mathlib.Nat.{pow-suc, mod-eq_of_lt}

pub data PostingsBlockError : Type 0 where
  unexpected_eof varint_overflow not_monotonic malformed_block : PostingsBlockError

abbrev pub BlockResult : Type 0 → Type 0
BlockResult A = Result PostingsBlockError A

-- `*input.get(*position).ok_or(UnexpectedEof)?; *position += 1;`
unfoldable pub next_byte : List ℕ → ℕ → BlockResult (ℕ × ℕ)
next_byte input position = do
  byte ← ok_or (get_elem? input position) unexpected_eof
  ok (byte, position + 1)

-- The loop of `write_varint_u32`, which takes five rounds at most.
unfoldable pub write_varint_loop : ℕ → List ℕ → ℕ → List ℕ
write_varint_loop zero out value = out
write_varint_loop (suc rounds) out value =
    let more =
      write_varint_loop rounds (out ++ (bit_or (bit_and value 0x7f) 0x80 % 256) ∷ [])
        (value / 128) in
    if leb 0x80 value then more else out ++ (value % 256) ∷ []

unfoldable pub write_varint_u32 : List ℕ → ℕ → List ℕ
write_varint_u32 out value = write_varint_loop 5 out value

-- The loop of `read_varint_u32`, over its shifts.
unfoldable pub read_varint_loop : List ℕ → ℕ → List ℕ → ℕ → BlockResult (ℕ × ℕ)
read_varint_loop [] result input position = err varint_overflow
read_varint_loop (shift ∷ shifts) result input position = do
  (byte, next) ← next_byte input position
  let chunk = bit_and byte 0x7f
  guard (not (shift == 28 && not (bit_and byte 0x80 == 0))) varint_overflow
  guard (not (shift == 28 && ltb 0x0f chunk)) varint_overflow
  guard (not (leb 32 shift)) varint_overflow
  let result' = bit_or result (chunk * 2 ^ shift % 2 ^ 32)
  let more = read_varint_loop shifts result' input next
  if bit_and byte 0x80 == 0 then ok (result', next) else more

-- The shifts grow by seven; a fifth byte that asks for a sixth is refused.
unfoldable pub read_varint_u32 : List ℕ → ℕ → BlockResult (ℕ × ℕ)
read_varint_u32 input position = read_varint_loop (step_by_seven 5 0) 0 input position

write_varint_loop-groups :
    (rounds : ℕ) (out : List ℕ) (v : ℕ)
    → v < 128 ^ rounds
    → write_varint_loop rounds out v ≡ out ++ groups rounds v
unfolding write_varint_loop groups
write_varint_loop-groups zero out v h = sym (append-nil out)
write_varint_loop-groups (suc rounds) out v h = elim (dec_lt v 128) [
  | yes last ↦
      let byte : v % 256 ≡ v = omega arith in rw (lt→ltb v 128 last, lt→leb 128 v last, byte) refl
  | no more ↦
      rw (le→ltb v 128 (omega arith), le→leb 128 v (omega arith), group_byte)
        (write_varint_loop-groups rounds (out ++ (v % 128 + 128) ∷ []) (v / 128)
            (omega (arith, pow-suc 128 rounds))
          ∙ append_assoc out ((v % 128 + 128) ∷ []) (groups rounds (v / 128)))
]

pub write_varint_u32-groups :
    (out : List ℕ) (v : ℕ) → v < 2 ^ 32 → write_varint_u32 out v ≡ out ++ groups 5 v
unfolding write_varint_u32
write_varint_u32-groups out v h = write_varint_loop-groups 5 out v (omega arith)

pub next_byte-At :
    {input : List ℕ} {p b : ℕ} {rest : List ℕ}
    → At input p (b ∷ rest)
    → next_byte input p ≡ ok (b, p + 1)
unfolding next_byte
next_byte-At at = rw ((At-cons at).0) refl

-- What one round of the loop adds.
or_chunk :
    (acc b s : ℕ)
    → acc < 2 ^ s
    → b % 128 * 2 ^ s < 2 ^ 32
    → bit_or acc (bit_and b 0x7f * 2 ^ s % 2 ^ 32) ≡ acc + b % 128 * 2 ^ s
or_chunk acc b s ha fits = rw (low_group b, mod-eq_of_lt fits) (bit_or_fields s acc (b % 128) ha)

module _ (s acc : ℕ) (shifts : List ℕ) {input : List ℕ} {p b : ℕ} {rest : List ℕ} where
  last_byte :
      b < 128
      → s < 32
      → (s ≡ 28 → b < 16)
      → acc < 2 ^ s
      → b * 2 ^ s < 2 ^ 32
      → At input p (b ∷ rest)
      → read_varint_loop (s ∷ shifts) acc input p ≡ ok (acc + b * 2 ^ s, p + 1)
  unfolding read_varint_loop
  last_byte hb hs top ha fits at =
      let low : b % 128 ≡ b = omega arith in
      let ends : (s == 28 && not true) ≡ false = ground arith in
      let small : (s == 28 && ltb 0x0f b) ≡ false = ground (arith, top) in
      rw
        (
          next_byte-At at,
          top_clear b hb,
          or_chunk acc b s ha (rw low fits),
          low_group b,
          low,
          ends,
          small,
          lt→leb 32 s hs,
        )
        refl

  more_bytes :
      128 ≤ b
      → b < 256
      → s < 28
      → acc < 2 ^ s
      → b % 128 * 2 ^ s < 2 ^ 32
      → At input p (b ∷ rest)
      → read_varint_loop (s ∷ shifts) acc input p
        ≡ read_varint_loop shifts (acc + b % 128 * 2 ^ s) input (p + 1)
  unfolding read_varint_loop
  more_bytes lo hi hs ha fits at =
      rw
        (
          next_byte-At at,
          top_set b lo hi,
          or_chunk acc b s ha fits,
          ne→== s 28 (λ e. absurd (omega arith)),
          lt→leb 32 s (omega arith),
        )
        refl

-- The loop adds the groups of `v` to what it has read, if the shifts end at the last one.
read_varint_loop-groups :
    (n s v acc : ℕ) {input : List ℕ} {p : ℕ} (rest : List ℕ)
    → s + 7 * n ≡ 35
    → 1 ≤ n
    → v < 128 ^ n
    → acc < 2 ^ s
    → acc + v * 2 ^ s < 2 ^ 32
    → At input p (groups n v ++ rest)
    → read_varint_loop (step_by_seven n s) acc input p
      ≡ ok (acc + v * 2 ^ s, p + length (groups n v))
read_varint_loop-groups zero s v acc rest ends some_groups hv ha fits at = absurd (omega arith)
read_varint_loop-groups (suc n) s v acc {p = p} rest ends some_groups hv ha fits at =
    elim (dec_lt v 128) [
      | yes small ↦
          let at' = rw (groups-last n v small) at at in
          rw (groups-last n v small) (
            last_byte s acc (step_by_seven n (s + 7)) small (omega (arith, ends))
              (top_group s v acc fits) ha (omega (arith, fits)) at')
      | no large ↦
          let big : 128 ≤ v = omega arith in
          let some_more : 1 ≤ n = positive n v big hv in
          let at' = rw (groups-more n v big) at at in
          let b = v % 128 + 128 in
          let low : b % 128 ≡ v % 128 = omega arith in
          let (group, total) = group_fits v s acc (2 ^ 32) fits in
          let next =
            read_varint_loop-groups n (s + 7) (v / 128) (acc + v % 128 * 2 ^ s) rest
              (omega (arith, ends)) some_more (omega (arith, pow-suc 128 n))
              (shift_fits acc (v % 128) s ha (omega arith)) (rw total fits) ((At-cons at').1) in
          rw (groups-more n v big) (
            rw
              (
                more_bytes s acc (step_by_seven n (s + 7)) (omega arith) (omega arith)
                    (omega (arith, ends, some_more)) ha (rw low group) at',
                low,
                next,
                total,
              )
              (ground arith))
    ]
  where
    positive : (n v : ℕ) → 128 ≤ v → v < 128 ^ suc n → 1 ≤ n
    positive zero v h k = absurd (omega arith)
    positive (suc n) v h k = omega arith

    top_group : (s v acc : ℕ) → acc + v * 2 ^ s < 2 ^ 32 → s ≡ 28 → v < 16
    top_group s v acc h e = let h' : acc + v * 2 ^ 28 < 2 ^ 32 = rw e at h in omega (arith, h')

-- A number that was written is read back.
pub read_varint_u32-At :
    {input : List ℕ} {p : ℕ} (v : ℕ) (rest : List ℕ)
    → v < 2 ^ 32
    → At input p (groups 5 v ++ rest)
    → read_varint_u32 input p ≡ ok (v, p + length (groups 5 v))
unfolding read_varint_u32
read_varint_u32-At v rest h at =
    rw
      (read_varint_loop-groups 5 0 v 0 rest (omega arith) (omega arith) (omega arith) (omega arith)
        (omega arith) at)
      (ground arith)
