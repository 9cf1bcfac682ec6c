-- ===== src/Postings/FlatRoundTrip.antt =====
-- What the decoders of crates/surch-codec/src/postings_block.rs make of encoded postings.
use surch.Base.{ℕ, ◌+◌, ◌-◌, ◌*◌, ◌%◌, ◌^◌, ◌≤◌, ◌<◌, ◌≡◌, ◌≢◌, refl, sym, ap, ◌∙◌, arith}
use surch.Base.{leb, ◌==◌, ◌&&◌, Bool, true, false, Bool-cases, inl, inr, lt→ltb, ne→==, ==_iff}
use surch.Base.{List, [], ◌∷◌, ◌++◌, length, length-append, All, ok, err, >>=-eq-ok}
use surch.Bytes.{At, At-append, At-start, groups, length-groups}
use surch.Postings.Varint.{
  BlockResult, not_monotonic, write_varint_u32, write_varint_u32-groups, read_varint_u32,
  read_varint_u32-At,
}
use surch.Postings.Flat.{
  validate_strictly_increasing, checked_add_u32, write_deltas, write_varints, read_delta,
  read_deltas, read_varints,
}
use surch.Postings.Flat.{
  encode_doc_ids_delta_varint, decode_doc_ids_delta_varint, encode_postings_doc_id_freq,
  decode_postings_doc_id_freq,
}
use mathlib.Core.List.{append_assoc, append-nil}
use native.Mathlib.Nat.{mod-eq_of_lt}

-- Each number is above the one before, the first above `low`.
abbrev pub Ascends : ℕ → List ℕ → Type 0
Ascends low [] = Unit
Ascends low (x ∷ xs) = (low < x) × Ascends x xs

abbrev pub IsIncreasing : List ℕ → Type 0
IsIncreasing [] = Unit
IsIncreasing (x ∷ xs) = Ascends x xs

abbrev pub AllU32 : List ℕ → Type 0
AllU32 xs = All (λ x. x < 2 ^ 32) xs

pub validate_strictly_increasing-IsIncreasing :
    (xs : List ℕ) → validate_strictly_increasing xs ≡ ok tt → IsIncreasing xs
unfolding validate_strictly_increasing
validate_strictly_increasing-IsIncreasing [] e = tt
validate_strictly_increasing-IsIncreasing (x ∷ []) e = tt
validate_strictly_increasing-IsIncreasing (x ∷ y ∷ rest) e = elim (Bool-cases (leb y x)) [
  | inl low ↦ absurd (refused (rw low at e))
  | inr high ↦
      (ground (arith, high), validate_strictly_increasing-IsIncreasing (y ∷ rest) (rw high at e))
]
  where
    refused : ◌≢◌ {A = BlockResult (Unit {0})} (err not_monotonic) (ok tt)
    refused h = cc

-- The bytes of numbers, and of ascending numbers.
abbrev pub varints_bytes : List ℕ → List ℕ
varints_bytes [] = []
varints_bytes (v ∷ vs) = groups 5 v ++ varints_bytes vs

abbrev pub deltas_bytes : ℕ → List ℕ → List ℕ
deltas_bytes previous [] = []
deltas_bytes previous (v ∷ vs) = groups 5 (v - previous) ++ deltas_bytes v vs

pub write_varints-varints_bytes :
    (out values : List ℕ) → AllU32 values → write_varints out values ≡ out ++ varints_bytes values
unfolding write_varints
write_varints-varints_bytes out [] h = sym (append-nil out)
write_varints-varints_bytes out (v ∷ vs) (h, hs) = rw (write_varint_u32-groups out v h) (
    write_varints-varints_bytes (out ++ groups 5 v) vs hs
    ∙ append_assoc out (groups 5 v) (varints_bytes vs))

write_deltas-deltas_bytes :
    (out values : List ℕ) (previous : ℕ)
    → AllU32 values
    → write_deltas out previous values ≡ out ++ deltas_bytes previous values
unfolding write_deltas
write_deltas-deltas_bytes out [] previous h = sym (append-nil out)
write_deltas-deltas_bytes out (v ∷ vs) previous (h, hs) =
    rw (write_varint_u32-groups out (v - previous) (omega arith)) (
      write_deltas-deltas_bytes (out ++ groups 5 (v - previous)) vs v hs
      ∙ append_assoc out (groups 5 (v - previous)) (deltas_bytes v vs))

length-varints_bytes : (vs : List ℕ) → length (varints_bytes vs) ≤ 5 * length vs
length-varints_bytes [] = omega arith
length-varints_bytes (v ∷ vs) = omega (
  arith,
  length-append (groups 5 v) (varints_bytes vs),
  length-groups 5 v,
  length-varints_bytes vs,
)

length-deltas_bytes :
    (previous : ℕ) (vs : List ℕ) → length (deltas_bytes previous vs) ≤ 5 * length vs
length-deltas_bytes previous [] = omega arith
length-deltas_bytes previous (v ∷ vs) = omega (
  arith,
  length-append (groups 5 (v - previous)) (deltas_bytes v vs),
  length-groups 5 (v - previous),
  length-deltas_bytes v vs,
)

module _ {bytes : List ℕ} where
  pub read_varints-At :
      (vs rest : List ℕ) {p : ℕ}
      → AllU32 vs
      → At bytes p (varints_bytes vs ++ rest)
      → read_varints bytes (length vs) p ≡ ok (vs, p + length (varints_bytes vs))
  unfolding read_varints
  read_varints-At [] rest h at = ground arith
  read_varints-At (v ∷ vs) rest {p} (h, hs) at =
      let at1 : At bytes p (groups 5 v ++ (varints_bytes vs ++ rest)) =
        rw (append_assoc (groups 5 v) (varints_bytes vs) rest) at at in
      rw
        (
          read_varint_u32-At v (varints_bytes vs ++ rest) h at1,
          read_varints-At vs rest hs (At-append (groups 5 v) at1),
        )
        (ap (λ (end : ℕ). ok (v ∷ vs, end))
          (omega (arith, length-append (groups 5 v) (varints_bytes vs))))

  read_delta-At :
      (started : Bool) (previous v : ℕ) (rest : List ℕ) {p : ℕ}
      → previous ≤ v
      → (started && (v - previous) == 0) ≡ false
      → v < 2 ^ 32
      → At bytes p (groups 5 (v - previous) ++ rest)
      → read_delta bytes started previous p ≡ ok (v, p + length (groups 5 (v - previous)))
  unfolding read_delta checked_add_u32
  read_delta-At started previous v rest le fresh h at =
      let sum : previous + (v - previous) ≡ v = omega arith in
      rw (read_varint_u32-At (v - previous) rest (omega arith) at, fresh, sum, lt→ltb v (2 ^ 32) h)
        refl

  read_deltas-more :
      (vs rest : List ℕ) (previous : ℕ) {p : ℕ}
      → Ascends previous vs
      → AllU32 vs
      → At bytes p (deltas_bytes previous vs ++ rest)
      → read_deltas bytes (length vs) true previous p
        ≡ ok (vs, p + length (deltas_bytes previous vs))
  unfolding read_deltas
  read_deltas-more [] rest previous asc h at = ground arith
  read_deltas-more (v ∷ vs) rest previous {p} (lt, asc) (h, hs) at =
      let front = groups 5 (v - previous) in
      let at1 : At bytes p (front ++ (deltas_bytes v vs ++ rest)) =
        rw (append_assoc front (deltas_bytes v vs) rest) at at in
      rw
        (
          read_delta-At true previous v (deltas_bytes v vs ++ rest) (omega arith)
              (ne→== (v - previous) 0 (λ e. absurd (omega arith))) h at1,
          read_deltas-more vs rest v asc hs (At-append front at1),
        )
        (ap (λ (end : ℕ). ok (v ∷ vs, end))
          (omega (arith, length-append front (deltas_bytes v vs))))

  -- The doc ids of a payload are read back.
  pub read_deltas-At :
      (vs rest : List ℕ) {p : ℕ}
      → IsIncreasing vs
      → AllU32 vs
      → At bytes p (deltas_bytes 0 vs ++ rest)
      → read_deltas bytes (length vs) false 0 p ≡ ok (vs, p + length (deltas_bytes 0 vs))
  unfolding read_deltas
  read_deltas-At [] rest asc h at = ground arith
  read_deltas-At (v ∷ vs) rest {p} asc (h, hs) at =
      let front = groups 5 (v - 0) in
      let at1 : At bytes p (front ++ (deltas_bytes v vs ++ rest)) =
        rw (append_assoc front (deltas_bytes v vs) rest) at at in
      rw
        (
          read_delta-At false 0 v (deltas_bytes v vs ++ rest) (omega arith) refl h at1,
          read_deltas-more vs rest v asc hs (At-append front at1),
        )
        (ap (λ (end : ℕ). ok (v ∷ vs, end))
          (omega (arith, length-append front (deltas_bytes v vs))))

-- The length prefix of a payload, and what an encoder that succeeds has checked.
module _ {bytes : List ℕ} where
  read_length :
      (n : ℕ) (body : List ℕ)
      → n < 2 ^ 32
      → length body ≤ 10 * n
      → bytes ≡ groups 5 n ++ body
      → (read_varint_u32 bytes 0 ≡ ok (n, length (groups 5 n)))
        × At bytes (length (groups 5 n)) body
  read_length n body h small e =
      let at : At bytes 0 (groups 5 n ++ body) = rw e (
        At-start (groups 5 n ++ body)
          (omega (arith, h, small, length-append (groups 5 n) body, length-groups 5 n))) in
      let start : 0 + length (groups 5 n) ≡ length (groups 5 n) = omega arith in
      (rw start at (read_varint_u32-At n body h at), rw start at (At-append (groups 5 n) at))

ok_injective : {A : Type 0} {a b : A} → ◌≡◌ {A = BlockResult A} (ok a) (ok b) → a ≡ b
ok_injective h = cc

module _ (doc_ids : List ℕ) where
  prefix_bytes :
      length doc_ids < 2 ^ 32
      → AllU32 doc_ids
      → write_deltas (write_varint_u32 [] (length doc_ids % 2 ^ 32)) 0 doc_ids
        ≡ groups 5 (length doc_ids) ++ deltas_bytes 0 doc_ids
  prefix_bytes h all =
      rw
        (
          mod-eq_of_lt {n = length doc_ids} {m = 2 ^ 32} h,
          write_varint_u32-groups [] (length doc_ids) h,
        )
        (write_deltas-deltas_bytes (groups 5 (length doc_ids)) doc_ids 0 all)

  -- When the encoder accepts fewer than 2^32 doc ids, all 32-bit numbers, the decoder gives them
  -- back.
  pub decode-encode_doc_ids_delta_varint :
      {bytes : List ℕ}
      → length doc_ids < 2 ^ 32
      → AllU32 doc_ids
      → encode_doc_ids_delta_varint doc_ids ≡ ok bytes
      → decode_doc_ids_delta_varint bytes ≡ ok doc_ids
  unfolding encode_doc_ids_delta_varint decode_doc_ids_delta_varint
  decode-encode_doc_ids_delta_varint {bytes} h all e =
      let (checked, increasing, written) =
        >>=-eq-ok (validate_strictly_increasing doc_ids)
          (λ _. ok (write_deltas (write_varint_u32 [] (length doc_ids % 2 ^ 32)) 0 doc_ids)) e in
      let body = deltas_bytes 0 doc_ids in
      let layout : bytes ≡ groups 5 (length doc_ids) ++ body =
        sym (ok_injective written) ∙ prefix_bytes h all in
      let (size, at) =
        read_length (length doc_ids) body h (omega (arith, length-deltas_bytes 0 doc_ids)) layout in
      let at' : At bytes (length (groups 5 (length doc_ids))) (body ++ []) =
        rw (append-nil body) at in
      rw
        (
          size,
          read_deltas-At doc_ids [] (validate_strictly_increasing-IsIncreasing doc_ids increasing)
              all at',
        )
        refl

  -- When the encoder accepts fewer than 2^32 doc ids with their frequencies, all 32-bit numbers,
  -- the decoder gives back both lists.
  pub decode-encode_postings_doc_id_freq :
      {freqs bytes : List ℕ}
      → length doc_ids < 2 ^ 32
      → AllU32 doc_ids
      → AllU32 freqs
      → encode_postings_doc_id_freq doc_ids freqs ≡ ok bytes
      → decode_postings_doc_id_freq bytes ≡ ok (doc_ids, freqs)
  unfolding encode_postings_doc_id_freq decode_postings_doc_id_freq
  decode-encode_postings_doc_id_freq {freqs} {bytes} h all all_freqs e =
      elim (Bool-cases (length doc_ids == length freqs)) [
        | inr differ ↦ absurd (refused (rw differ at e))
        | inl same_size ↦
            let same : length doc_ids ≡ length freqs =
              (==_iff (length doc_ids) (length freqs)).0 same_size in
            let (checked, increasing, written) =
              >>=-eq-ok (validate_strictly_increasing doc_ids)
                (λ _. ok (
                  write_varints
                    (write_deltas (write_varint_u32 [] (length doc_ids % 2 ^ 32)) 0 doc_ids) freqs))
                (rw same_size at e) in
            let ids = deltas_bytes 0 doc_ids in
            let rest = varints_bytes freqs in
            let layout : bytes ≡ groups 5 (length doc_ids) ++ (ids ++ rest) =
              sym (ok_injective written)
              ∙ ap (λ out. write_varints out freqs) (prefix_bytes h all)
              ∙ write_varints-varints_bytes (groups 5 (length doc_ids) ++ ids) freqs all_freqs
              ∙ append_assoc (groups 5 (length doc_ids)) ids rest in
            let (size, at) =
              read_length (length doc_ids) (ids ++ rest) h
                (omega (
                  arith,
                  same,
                  length-append ids rest,
                  length-deltas_bytes 0 doc_ids,
                  length-varints_bytes freqs,
                ))
                layout in
            let middle = length (groups 5 (length doc_ids)) + length ids in
            let at' : At bytes middle (rest ++ []) = rw (append-nil rest) (At-append ids at) in
            let read_freqs : read_varints bytes (length doc_ids) middle
                ≡ ok (freqs, middle + length rest) =
              ap (λ (n : ℕ). read_varints bytes n middle) same
              ∙ read_varints-At freqs [] all_freqs at' in
            rw
              (
                size,
                read_deltas-At doc_ids rest
                    (validate_strictly_increasing-IsIncreasing doc_ids increasing) all at,
                read_freqs,
              )
              refl
      ]
    where
      refused : ◌≢◌ {A = BlockResult (List ℕ)} (err not_monotonic) (ok bytes)
      refused h = cc
