-- ===== src/Postings/BlockAccess.antt =====
-- That a block of crates/surch-codec/src/postings_block.rs is decoded alone, from its entry in the
-- directory.
use surch.Base.{ℕ, zero, suc, ◌+◌, ◌*◌, ◌%◌, ◌^◌, ◌<◌, min, ◌≡◌, refl, arith}
use surch.Base.{List, [], ◌∷◌, ◌++◌, length, length-take, length-drop, take, drop, ok}
use surch.Bytes.{At, At-append}
use surch.Postings.FlatRoundTrip.{AllU32}
use surch.Postings.BlockEncode.{for_block_size, BlockDirEntry, BlockedEncodeOutput}
use surch.Postings.BlockEncode.{encode_postings_blocked_with_directory}
use surch.Postings.BlockDecode.{decode_block}
use surch.Postings.BlockRoundTrip.{block_bytes}
use mathlib.Core.List.{append_assoc}
use mathlib.Core.Path.{subst}
use surch.Postings.BlockedBytes.{IsPostings, IsPostings-drop, blocks_bytes, entries, chunk_decoded}
use surch.Base.{drop-drop, get_elem?, Option, some}
use surch.Postings.BlockedRoundTrip.{encoded, payload-At}

-- What stands at an offset also stands at the start of the rest from there on.
At-drop : {bytes : List ℕ} {p : ℕ} {rest : List ℕ} → At bytes p rest → At (drop p bytes) 0 rest
At-drop {bytes} {p} at = record {
  small = omega (arith, at.small, length-drop p bytes);
  within = omega arith;
  suffix = at.suffix;
}

-- The entry's offset and count, when the payload is short enough for 32 bits.
module _ (bytes : List ℕ) (small : length bytes < 2 ^ 32) where
  entries-decode_block :
      (rounds : ℕ) (doc_ids freqs : List ℕ) (p i : ℕ) {entry : BlockDirEntry}
      → IsPostings doc_ids freqs
      → At bytes p (blocks_bytes rounds doc_ids freqs ++ [])
      → get_elem? (entries rounds p doc_ids freqs) i ≡ some entry
      → decode_block (drop entry.byte_offset_in_term_payload bytes) entry.count
        ≡ ok (
          take for_block_size (drop (i * for_block_size) doc_ids),
          take for_block_size (drop (i * for_block_size) freqs),
        )
  unfolding decode_block
  entries-decode_block zero doc_ids freqs p i h at e = cc
  entries-decode_block (suc rounds) [] freqs p i h at e = cc
  entries-decode_block (suc rounds) (doc_id ∷ doc_ids) [] p i h at e = cc
  entries-decode_block (suc rounds) (doc_id ∷ doc_ids) (freq ∷ freqs) p zero {entry} h at e =
      let chunk' = take for_block_size (doc_id ∷ doc_ids) in
      let block = block_bytes chunk' (take for_block_size (freq ∷ freqs)) in
      let more =
        blocks_bytes rounds (drop for_block_size (doc_id ∷ doc_ids))
          (drop for_block_size (freq ∷ freqs)) in
      let at1 : At bytes p (block ++ (more ++ [])) = rw (append_assoc block more []) at at in
      let offset : p % 2 ^ 32 ≡ p = omega (arith, small, at.within) in
      let size : length chunk' % 2 ^ 16 ≡ min (suc (length doc_ids)) for_block_size =
        omega (arith, length-take 127 doc_ids) in
      let decoded : decode_block (drop (p % 2 ^ 32) bytes) (length chunk' % 2 ^ 16)
          ≡ ok (chunk', take for_block_size (freq ∷ freqs)) =
        rw
          (
            offset,
            size,
            chunk_decoded doc_id doc_ids freq freqs h (drop p bytes) (more ++ []) 0 (At-drop at1),
          )
          refl in
      subst
        (λ (found : BlockDirEntry).
          decode_block (drop found.byte_offset_in_term_payload bytes) found.count
          ≡ ok (chunk', take for_block_size (freq ∷ freqs)))
        (same e) decoded
    where
      same : {a b : BlockDirEntry} → ◌≡◌ {A = Option BlockDirEntry} (some a) (some b) → a ≡ b
      same e = cc
  entries-decode_block (suc rounds) (doc_id ∷ doc_ids) (freq ∷ freqs) p (suc i) h at e =
      let block =
        block_bytes (take for_block_size (doc_id ∷ doc_ids)) (take for_block_size (freq ∷ freqs)) in
      let ids = drop for_block_size (doc_id ∷ doc_ids) in
      let counts = drop for_block_size (freq ∷ freqs) in
      let more = blocks_bytes rounds ids counts in
      let at1 : At bytes p (block ++ (more ++ [])) = rw (append_assoc block more []) at at in
      let later : suc i * 128 ≡ 128 + i * 128 = omega arith in
      rw
        (
          later,
          ← drop-drop (doc_id ∷ doc_ids) (i * 128) 128,
          ← drop-drop (freq ∷ freqs) (i * 128) 128,
        )
        (entries-decode_block rounds ids counts (p + length block) i
          (IsPostings-drop (doc_id ∷ doc_ids) (freq ∷ freqs) h) (At-append block at1) e)

module _ (doc_ids freqs : List ℕ) (ids : AllU32 doc_ids) (counts : AllU32 freqs) where
  -- When the block encoder accepts doc ids and frequencies of 32 bits and its payload is shorter
  -- than 2^32 bytes, each entry of its directory is enough to decode the block alone: from the
  -- offset of the i-th entry on, with its count, decode_block gives the i-th chunk of 128 doc ids
  -- and the frequencies of these.
  pub decode_block-directory :
      {output : BlockedEncodeOutput} {entry : BlockDirEntry} (i : ℕ)
      → length output.payload < 2 ^ 32
      → encode_postings_blocked_with_directory doc_ids freqs ≡ ok output
      → get_elem? output.directory i ≡ some entry
      → decode_block (drop entry.byte_offset_in_term_payload output.payload) entry.count
        ≡ ok (
          take for_block_size (drop (i * for_block_size) doc_ids),
          take for_block_size (drop (i * for_block_size) freqs),
        )
  decode_block-directory {output} i small e found =
      let (postings, appended) = encoded doc_ids freqs ids counts e in
      entries-decode_block output.payload small (length doc_ids) doc_ids freqs 0 i postings
        (payload-At doc_ids freqs ids counts (omega (arith, small)) appended)
        (rw appended.blocks at found)
