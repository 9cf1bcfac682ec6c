-- ===== src/Postings/BlockedBytes.antt =====
-- The payload that the encoder of crates/surch-codec/src/postings_block.rs makes of the blocks of a term,
-- and its directory.
use surch.Base.{take-All}
use surch.Base.{ℕ, zero, suc, ◌+◌, ◌%◌, ◌^◌, ◌<◌, min, ◌≡◌, refl, sym, ap, ◌∙◌, arith}
use surch.Base.{
  List, [], ◌∷◌, ◌++◌, length, length-append, length-take, length-drop, take, drop, All, ok,
}
use surch.Bytes.{At}
use surch.Postings.FlatRoundTrip.{AllU32, Ascends, IsIncreasing}
use surch.Postings.BlockEncode.{
  for_block_size, encode_block_into, last_of, BlockDirEntry, BlockedEncodeOutput, add_block,
  encode_chunks,
}
use surch.Postings.BlockDecode.{decode_block_at}
use surch.Postings.BlockRoundTrip.{block_bytes, encode_block_into-bytes, decode_block_at-At}
use mathlib.Core.List.{append_assoc, append-nil}

-- Postings that can be encoded: as many frequencies as doc ids, which grow, all of 32 bits.
pub record IsPostings (doc_ids freqs : List ℕ) : Type 0 where
  pub ascending : IsIncreasing doc_ids
  pub ids : AllU32 doc_ids
  pub counts : AllU32 freqs
  pub same : length doc_ids ≡ length freqs

All-drop {ℓ} : {A : Type ℓ} (P : A → Type 0) (n : ℕ) (xs : List A) → All P xs → All P (drop n xs)
All-drop P zero xs h = h
All-drop P (suc n) [] h = tt
All-drop P (suc n) (x ∷ xs) (h, hs) = All-drop P n xs hs

pub take-append-drop {ℓ} : {A : Type ℓ} (n : ℕ) (xs : List A) → take n xs ++ drop n xs ≡ xs
take-append-drop zero xs = refl
take-append-drop (suc n) [] = refl
take-append-drop (suc n) (x ∷ xs) = ap (λ l. x ∷ l) (take-append-drop n xs)

Ascends-take : (n low : ℕ) (xs : List ℕ) → Ascends low xs → Ascends low (take n xs)
Ascends-take zero low xs h = tt
Ascends-take (suc n) low [] h = tt
Ascends-take (suc n) low (x ∷ xs) (lt, h) = (lt, Ascends-take n x xs h)

IsIncreasing-drop : (n : ℕ) (xs : List ℕ) → IsIncreasing xs → IsIncreasing (drop n xs)
IsIncreasing-drop zero xs h = h
IsIncreasing-drop (suc n) [] h = tt
IsIncreasing-drop (suc n) (x ∷ []) h = IsIncreasing-drop n [] tt
IsIncreasing-drop (suc n) (x ∷ y ∷ xs) (lt, h) = IsIncreasing-drop n (y ∷ xs) h

-- The postings behind the first block.
pub IsPostings-drop :
    (doc_ids freqs : List ℕ)
    → IsPostings doc_ids freqs
    → IsPostings (drop for_block_size doc_ids) (drop for_block_size freqs)
IsPostings-drop doc_ids freqs h = record {
  ascending = IsIncreasing-drop for_block_size doc_ids h.ascending;
  ids = All-drop (λ x. x < 2 ^ 32) for_block_size doc_ids h.ids;
  counts = All-drop (λ x. x < 2 ^ 32) for_block_size freqs h.counts;
  same =
      omega (arith, length-drop for_block_size doc_ids, length-drop for_block_size freqs, h.same);
}

-- The bytes of all blocks, and their entries in the directory.
abbrev pub blocks_bytes : ℕ → List ℕ → List ℕ → List ℕ
blocks_bytes zero doc_ids freqs = []
blocks_bytes (suc rounds) [] freqs = []
blocks_bytes (suc rounds) doc_ids [] = []
blocks_bytes (suc rounds) (doc_id ∷ doc_ids) (freq ∷ freqs) =
    block_bytes (take for_block_size (doc_id ∷ doc_ids)) (take for_block_size (freq ∷ freqs))
    ++ blocks_bytes rounds (drop for_block_size (doc_id ∷ doc_ids))
        (drop for_block_size (freq ∷ freqs))

abbrev pub entries : ℕ → ℕ → List ℕ → List ℕ → List BlockDirEntry
entries zero position doc_ids freqs = []
entries (suc rounds) position [] freqs = []
entries (suc rounds) position doc_ids [] = []
entries (suc rounds) position (doc_id ∷ doc_ids) (freq ∷ freqs) =
    record {
      byte_offset_in_term_payload = position % 2 ^ 32;
      count = length (take for_block_size (doc_id ∷ doc_ids)) % 2 ^ 16;
      max_doc_id = last_of (take for_block_size (doc_id ∷ doc_ids));
    }
    ∷ entries rounds
        (position
          + length (
              block_bytes (take for_block_size (doc_id ∷ doc_ids))
                (take for_block_size (freq ∷ freqs))))
        (drop for_block_size (doc_id ∷ doc_ids)) (drop for_block_size (freq ∷ freqs))

-- One block is added.
module _ (doc_id : ℕ) (doc_ids : List ℕ) (freq : ℕ) (freqs : List ℕ)
    (h : IsPostings (doc_id ∷ doc_ids) (freq ∷ freqs)) where
  abbrev chunk : List ℕ
  chunk = take for_block_size (doc_id ∷ doc_ids)

  abbrev freq_chunk : List ℕ
  freq_chunk = take for_block_size (freq ∷ freqs)

  short : length (take 127 doc_ids) < 256
  short = omega (arith, length-take 127 doc_ids)

  chunk_bytes :
      (out : List ℕ)
      → (encode_block_into out chunk freq_chunk).0 ≡ out ++ block_bytes chunk freq_chunk
  chunk_bytes out =
      encode_block_into-bytes doc_id (take 127 doc_ids) freq (take 127 freqs)
        (h.ids.0, take-All (λ x. x < 2 ^ 32) 127 doc_ids h.ids.1)
        (h.counts.0, take-All (λ x. x < 2 ^ 32) 127 freqs h.counts.1) short out

  pub chunk_decoded :
      (bytes rest : List ℕ) (p : ℕ)
      → At bytes p (block_bytes chunk freq_chunk ++ rest)
      → decode_block_at bytes (min (suc (length doc_ids)) for_block_size) p
        ≡ ok (chunk, freq_chunk, p + length (block_bytes chunk freq_chunk))
  chunk_decoded bytes rest p at =
      let size : min (suc (length doc_ids)) for_block_size ≡ length chunk =
        omega (arith, length-take 127 doc_ids) in
      rw size (
        decode_block_at-At doc_id (take 127 doc_ids) freq (take 127 freqs)
          (h.ids.0, take-All (λ x. x < 2 ^ 32) 127 doc_ids h.ids.1)
          (h.counts.0, take-All (λ x. x < 2 ^ 32) 127 freqs h.counts.1) short bytes rest p
          (Ascends-take 127 doc_id doc_ids h.ascending)
          (omega (arith, length-take 127 doc_ids, length-take 127 freqs, h.same)) at)

-- What the encoder's loop has appended.
pub record Appended (rounds : ℕ) (output : BlockedEncodeOutput) (doc_ids freqs : List ℕ)
    (result : BlockedEncodeOutput) : Type 0 where
  pub bytes : result.payload ≡ output.payload ++ blocks_bytes rounds doc_ids freqs
  pub blocks :
      result.directory ≡ output.directory ++ entries rounds (length output.payload) doc_ids freqs

pub encode_chunks-Appended :
    (rounds : ℕ) (output : BlockedEncodeOutput) (doc_ids freqs : List ℕ)
    → IsPostings doc_ids freqs
    → Appended rounds output doc_ids freqs (encode_chunks rounds output doc_ids freqs)
unfolding encode_chunks add_block
encode_chunks-Appended zero output doc_ids freqs h = record {
  bytes = sym (append-nil output.payload);
  blocks = sym (append-nil output.directory);
}
encode_chunks-Appended (suc rounds) output [] freqs h = record {
  bytes = sym (append-nil output.payload);
  blocks = sym (append-nil output.directory);
}
encode_chunks-Appended (suc rounds) output (doc_id ∷ doc_ids) [] h = record {
  bytes = sym (append-nil output.payload);
  blocks = sym (append-nil output.directory);
}
encode_chunks-Appended (suc rounds) output (doc_id ∷ doc_ids) (freq ∷ freqs) h =
    let written = chunk_bytes doc_id doc_ids freq freqs h output.payload in
    let block =
      block_bytes (take for_block_size (doc_id ∷ doc_ids)) (take for_block_size (freq ∷ freqs)) in
    let ids = drop for_block_size (doc_id ∷ doc_ids) in
    let counts = drop for_block_size (freq ∷ freqs) in
    let rest =
      encode_chunks-Appended rounds
        (add_block output (take for_block_size (doc_id ∷ doc_ids))
          (take for_block_size (freq ∷ freqs)))
        ids counts (IsPostings-drop (doc_id ∷ doc_ids) (freq ∷ freqs) h) in
    record {
      bytes =
          rest.bytes
          ∙ ap (λ out. out ++ blocks_bytes rounds ids counts) written
          ∙ append_assoc output.payload block (blocks_bytes rounds ids counts);
      blocks =
          rest.blocks
          ∙ append_assoc output.directory (_ ∷ []) (entries rounds _ ids counts)
          ∙ ap
              (λ (position : ℕ).
                output.directory
                ++ record {
                  byte_offset_in_term_payload = length output.payload % 2 ^ 32;
                  count = length (take for_block_size (doc_id ∷ doc_ids)) % 2 ^ 16;
                  max_doc_id = last_of (take for_block_size (doc_id ∷ doc_ids));
                }
                  ∷ entries rounds position ids counts)
              (ap length written ∙ length-append output.payload block);
    }
