-- ===== src/Postings/BlockedRoundTrip.antt =====
-- The payload of all blocks of a term in crates/surch-codec/src/postings_block.rs: what the decoder reads
-- of it, and its directory.
use surch.Base.{ℕ, zero, suc, ◌+◌, ◌-◌, ◌≤◌, ◌<◌, min, ◌≡◌, ◌≢◌, refl, sym, ap, ◌∙◌, arith}
use surch.Base.{◌==◌, Bool-cases, inl, inr, ==_iff, >>=-eq-ok}
use surch.Base.{List, [], ◌∷◌, ◌++◌, length, length-take, length-drop, take, drop, ok, err}
use surch.Bytes.{At, At-append, At-start, usize_mod}
use surch.Postings.Varint.{BlockResult, not_monotonic}
use surch.Postings.Flat.{validate_strictly_increasing}
use surch.Postings.FlatRoundTrip.{AllU32, validate_strictly_increasing-IsIncreasing}
use surch.Postings.BlockEncode.{for_block_size, BlockedEncodeOutput, no_blocks, encode_chunks}
use surch.Postings.BlockEncode.{encode_postings_blocked_with_directory}
use surch.Postings.BlockDecode.{
  decode_blocks, decode_postings_blocked, directory_blocks, block_directory,
}
use surch.Postings.BlockRoundTrip.{block_bytes}
use mathlib.Core.List.{append_assoc, append-nil}
use mathlib.Core.Path.{ap₂, subst}
use surch.Postings.BlockedBytes.{
  IsPostings, IsPostings-drop, take-append-drop, blocks_bytes, entries, chunk_decoded, Appended,
  encode_chunks-Appended,
}

no_freqs : (freqs : List ℕ) → 0 ≡ length freqs → [] ≡ freqs
no_freqs [] e = refl
no_freqs (freq ∷ freqs) e = absurd (omega (arith, e))

module _ (bytes : List ℕ) where
  decode_blocks-At :
      (rounds : ℕ) (doc_ids freqs : List ℕ) (p : ℕ)
      → IsPostings doc_ids freqs
      → length doc_ids ≤ rounds
      → At bytes p (blocks_bytes rounds doc_ids freqs ++ [])
      → decode_blocks rounds bytes (length doc_ids) p ≡ ok (doc_ids, freqs)
  unfolding decode_blocks
  decode_blocks-At zero [] freqs p h enough at =
      ap (λ counts. ok ([], counts)) (no_freqs freqs h.same)
  decode_blocks-At (suc rounds) [] freqs p h enough at =
      ap (λ counts. ok ([], counts)) (no_freqs freqs h.same)
  decode_blocks-At zero (doc_id ∷ doc_ids) freqs p h enough at = absurd (omega (arith, enough))
  decode_blocks-At (suc rounds) (doc_id ∷ doc_ids) [] p h enough at = absurd (omega (arith, h.same))
  decode_blocks-At (suc rounds) (doc_id ∷ doc_ids) (freq ∷ freqs) p h enough at =
      let chunk' = take for_block_size (doc_id ∷ doc_ids) in
      let freq_chunk' = take for_block_size (freq ∷ freqs) in
      let block = block_bytes chunk' freq_chunk' in
      let ids = drop for_block_size (doc_id ∷ doc_ids) in
      let counts = drop for_block_size (freq ∷ freqs) in
      let more = blocks_bytes rounds ids counts in
      let at1 : At bytes p (block ++ (more ++ [])) = rw (append_assoc block more []) at at in
      let left : suc (length doc_ids) - min (suc (length doc_ids)) for_block_size ≡ length ids =
        omega (arith, length-drop 127 doc_ids) in
      rw
        (
          chunk_decoded doc_id doc_ids freq freqs h bytes (more ++ []) p at1,
          left,
          decode_blocks-At rounds ids counts (p + length block)
              (IsPostings-drop (doc_id ∷ doc_ids) (freq ∷ freqs) h)
              (omega (arith, enough, length-drop 127 doc_ids)) (At-append block at1),
        )
        (ap₂ (λ all_ids all_counts. ok (all_ids, all_counts))
          (take-append-drop for_block_size (doc_id ∷ doc_ids))
          (take-append-drop for_block_size (freq ∷ freqs)))

  directory_blocks-At :
      (rounds : ℕ) (doc_ids freqs : List ℕ) (p : ℕ)
      → IsPostings doc_ids freqs
      → length doc_ids ≤ rounds
      → At bytes p (blocks_bytes rounds doc_ids freqs ++ [])
      → directory_blocks rounds bytes (length doc_ids) p ≡ ok (entries rounds p doc_ids freqs)
  unfolding directory_blocks
  directory_blocks-At zero [] freqs p h enough at = refl
  directory_blocks-At (suc rounds) [] freqs p h enough at = refl
  directory_blocks-At zero (doc_id ∷ doc_ids) freqs p h enough at = absurd (omega (arith, enough))
  directory_blocks-At (suc rounds) (doc_id ∷ doc_ids) [] p h enough at =
      absurd (omega (arith, h.same))
  directory_blocks-At (suc rounds) (doc_id ∷ doc_ids) (freq ∷ freqs) p h enough at =
      let chunk' = take for_block_size (doc_id ∷ doc_ids) in
      let block = block_bytes chunk' (take for_block_size (freq ∷ freqs)) in
      let ids = drop for_block_size (doc_id ∷ doc_ids) in
      let counts = drop for_block_size (freq ∷ freqs) in
      let more = blocks_bytes rounds ids counts in
      let at1 : At bytes p (block ++ (more ++ [])) = rw (append_assoc block more []) at at in
      let left : suc (length doc_ids) - min (suc (length doc_ids)) for_block_size ≡ length ids =
        omega (arith, length-drop 127 doc_ids) in
      let size : min (suc (length doc_ids)) for_block_size ≡ length chunk' =
        omega (arith, length-take 127 doc_ids) in
      rw
        (
          chunk_decoded doc_id doc_ids freq freqs h bytes (more ++ []) p at1,
          left,
          directory_blocks-At rounds ids counts (p + length block)
              (IsPostings-drop (doc_id ∷ doc_ids) (freq ∷ freqs) h)
              (omega (arith, enough, length-drop 127 doc_ids)) (At-append block at1),
          size,
        )
        refl

-- What an encoder that succeeds has checked, and what it returns.
module _ (doc_ids freqs : List ℕ) (ids : AllU32 doc_ids) (counts : AllU32 freqs) where
  pub encoded :
      {output : BlockedEncodeOutput}
      → encode_postings_blocked_with_directory doc_ids freqs ≡ ok output
      → IsPostings doc_ids freqs × Appended (length doc_ids) no_blocks doc_ids freqs output
  unfolding encode_postings_blocked_with_directory
  encoded {output} e = elim (Bool-cases (length doc_ids == length freqs)) [
    | inr differ ↦ absurd (refused (rw differ at e))
    | inl same_size ↦
        let made = encode_chunks (length doc_ids) no_blocks doc_ids freqs in
        let (checked, increasing, written) =
          >>=-eq-ok (validate_strictly_increasing doc_ids) (λ _. ok made) (rw same_size at e) in
        let postings : IsPostings doc_ids freqs = record {
          ascending = validate_strictly_increasing-IsIncreasing doc_ids increasing;
          ids = ids;
          counts = counts;
          same = (==_iff (length doc_ids) (length freqs)).0 same_size;
        } in
        (
          postings,
          subst (Appended (length doc_ids) no_blocks doc_ids freqs) (same_output written)
              (encode_chunks-Appended (length doc_ids) no_blocks doc_ids freqs postings),
        )
  ]
    where
      refused : ◌≢◌ {A = BlockResult BlockedEncodeOutput} (err not_monotonic) (ok output)
      refused h = cc

      same_output :
          {a b : BlockedEncodeOutput}
          → ◌≡◌ {A = BlockResult BlockedEncodeOutput} (ok a) (ok b)
          → a ≡ b
      same_output h = cc

  pub payload-At :
      {output : BlockedEncodeOutput}
      → length output.payload < usize_mod
      → Appended (length doc_ids) no_blocks doc_ids freqs output
      → At output.payload 0 (blocks_bytes (length doc_ids) doc_ids freqs ++ [])
  payload-At {output} h appended =
      rw (append-nil (blocks_bytes (length doc_ids) doc_ids freqs), ← appended.bytes)
        (At-start output.payload h)

  -- When the block encoder accepts doc ids and frequencies of 32 bits and its payload is shorter
  -- than 2^64 bytes, the decoder, given the number of postings, gives back both lists, whichever
  -- coding each block got: plain, packed or patched doc ids, and absent, constant, packed or plain
  -- frequencies.
  pub decode-encode_postings_blocked :
      {output : BlockedEncodeOutput}
      → length output.payload < usize_mod
      → encode_postings_blocked_with_directory doc_ids freqs ≡ ok output
      → decode_postings_blocked output.payload (length doc_ids) ≡ ok (doc_ids, freqs)
  unfolding decode_postings_blocked
  decode-encode_postings_blocked {output} h e =
      let (postings, appended) = encoded e in
      decode_blocks-At output.payload (length doc_ids) doc_ids freqs 0 postings (omega arith)
        (payload-At h appended)

  -- When the block encoder accepts doc ids and frequencies of 32 bits and its payload is shorter
  -- than 2^64 bytes, the directory that block_directory finds by decoding the payload is the one
  -- that the encoder returned with it.
  pub block_directory-directory :
      {output : BlockedEncodeOutput}
      → length output.payload < usize_mod
      → encode_postings_blocked_with_directory doc_ids freqs ≡ ok output
      → block_directory output.payload (length doc_ids) ≡ ok output.directory
  unfolding block_directory
  block_directory-directory {output} h e =
      let (postings, appended) = encoded e in
      directory_blocks-At output.payload (length doc_ids) doc_ids freqs 0 postings (omega arith)
        (payload-At h appended)
      ∙ ap ok (sym appended.blocks)
