-- ===== src/Postings/BlockRoundTrip.antt =====
-- That `decode_block` of crates/surch-codec/src/postings_block.rs reads what `encode_block_into` wrote.
use surch.Base.{
  ℕ, suc, ◌+◌, ◌-◌, ◌*◌, ◌/◌, ◌%◌, ◌^◌, ◌≤◌, ◌<◌, bit_and, bit_or, ◌≡◌, refl, sym, ap, ◌∙◌, arith,
}
use surch.Base.{ne→==, lt→ltb}
use surch.Base.{List, [], ◌∷◌, ◌++◌, length, length-append, ok}
use surch.Base.Bits.{bit_and_mask, bit_and_shifted, bit_or_fields}
use surch.Bytes.{At, At-cons, At-append, groups}
use surch.Postings.Varint.{
  next_byte-At, read_varint_u32-At, write_varint_u32, write_varint_u32-groups,
}
use surch.Postings.Flat.{checked_add_u32}
use surch.Postings.FlatRoundTrip.{AllU32, Ascends}
use surch.Postings.PackedBits.{AllBelow}
use surch.Postings.BlockPlan.{
  DocPlan, varint, packed, patched, collect_deltas, no_deltas, plan_doc_channel,
}
use surch.Postings.BlockEncode.{
  freq_mode_of, doc_mode_of, write_doc_channel, first_of, write_freq_channel, encode_block_into,
}
use surch.Postings.BlockDecode.{
  read_doc_channel, add_deltas, read_freq_channel, read_block, decode_block_at,
}
use surch.Postings.ChannelPlan.{PlanFits}
use surch.Postings.ChannelDeltas.{gaps, chunk_deltas, chunk_PlanFits}
use surch.Postings.DocChannel.{doc_channel_bytes, write_doc_channel-bytes, read_doc_channel-At}
use surch.Postings.FreqChannel.{
  freq_width_of, freq_width_of-le, freq_channel_bytes, write_freq_channel-bytes,
  read_freq_channel-At,
}
use mathlib.Core.List.{append_assoc}

-- The header of a block keeps both modes apart, and no reserved bit is set.
record Header (doc_mode freq_mode header : ℕ) : Type 0 where
  reserved : bit_and header 0xf0 ≡ 0
  doc : bit_and header 0x03 ≡ doc_mode
  freq : bit_and (header / 2 ^ 2) 0x03 ≡ freq_mode

Header-modes :
    (doc_mode freq_mode : ℕ)
    → doc_mode < 4
    → freq_mode < 4
    → Header doc_mode freq_mode (bit_or doc_mode (freq_mode * 2 ^ 2 % 256))
Header-modes doc_mode freq_mode hd hf =
    let whole : freq_mode * 2 ^ 2 % 256 ≡ freq_mode * 2 ^ 2 = omega arith in
    let header = doc_mode + freq_mode * 2 ^ 2 in
    let high : header / 2 ^ 4 ≡ 0 = omega arith in
    rw (whole, bit_or_fields 2 doc_mode freq_mode hd)
      record {
        reserved = bit_and_shifted 4 header 0xf ∙ ap (λ (t : ℕ). bit_and t 0xf * 2 ^ 4) high;
        doc = bit_and_mask 2 header ∙ omega arith;
        freq = bit_and_mask 2 (header / 2 ^ 2) ∙ omega arith;
      }

doc_mode_of-lt : (plan : DocPlan) → doc_mode_of plan < 4
unfolding doc_mode_of
doc_mode_of-lt varint = omega arith
doc_mode_of-lt (packed width) = omega arith
doc_mode_of-lt (patched width exceptions) = omega arith

freq_mode_of-lt : (freqs : List ℕ) (width : ℕ) → freq_mode_of freqs width < 4
unfolding freq_mode_of
freq_mode_of-lt freqs width = ground arith

-- The plan for a chunk, and the bytes of a block.
abbrev plan_of : List ℕ → DocPlan
plan_of doc_ids =
    let found = collect_deltas no_deltas doc_ids in
    plan_doc_channel found.histogram (length found.scratch) found.varint_cost

abbrev mode_of : List ℕ → ℕ
mode_of freqs = freq_mode_of freqs (freq_width_of freqs)

unfoldable pub block_bytes : List ℕ → List ℕ → List ℕ
block_bytes doc_ids freqs =
    bit_or (doc_mode_of (plan_of doc_ids)) (mode_of freqs * 2 ^ 2 % 256)
    ∷ (groups 5 (first_of doc_ids)
        ++ (doc_channel_bytes (gaps doc_ids) (plan_of doc_ids)
            ++ freq_channel_bytes freqs (freq_width_of freqs) (mode_of freqs)))

pub gaps-AllBelow : (doc_ids : List ℕ) → AllU32 doc_ids → AllBelow 32 (gaps doc_ids)
gaps-AllBelow [] h = tt
gaps-AllBelow (doc_id ∷ []) h = tt
gaps-AllBelow (doc_id ∷ next ∷ doc_ids) (hd, (hn, h)) =
    (omega (arith, hn), gaps-AllBelow (next ∷ doc_ids) (hn, h))

pub length-gaps :
    (doc_id : ℕ) (doc_ids : List ℕ) → length (gaps (doc_id ∷ doc_ids)) ≡ length doc_ids
length-gaps doc_id [] = refl
length-gaps doc_id (next ∷ doc_ids) = ap suc (length-gaps next doc_ids)

add_deltas-gaps :
    (doc_id : ℕ) (doc_ids : List ℕ)
    → Ascends doc_id doc_ids
    → AllU32 doc_ids
    → add_deltas doc_id (gaps (doc_id ∷ doc_ids)) ≡ ok doc_ids
unfolding add_deltas checked_add_u32
add_deltas-gaps doc_id [] asc h = refl
add_deltas-gaps doc_id (next ∷ doc_ids) (lt, asc) (hn, h) =
    let sum : doc_id + (next - doc_id) ≡ next = omega (arith, lt) in
    rw
      (
        ne→== (next - doc_id) 0 (λ e. absurd (omega (arith, lt, e))),
        sum,
        lt→ltb next (2 ^ 32) hn,
        add_deltas-gaps next doc_ids asc h,
      )
      refl

write_parts :
    (out deltas freqs : List ℕ) (header first width mode : ℕ) (plan : DocPlan)
    → first < 2 ^ 32
    → PlanFits deltas plan
    → AllBelow 32 deltas
    → length deltas < 256
    → AllU32 freqs
    → 1 ≤ width
    → width ≤ 32
    → write_freq_channel
        (write_doc_channel (write_varint_u32 (out ++ header ∷ []) first) deltas plan)
        freqs
        width
        mode
      ≡ out
        ++ header
          ∷ (groups 5 first
              ++ (doc_channel_bytes deltas plan ++ freq_channel_bytes freqs width mode))
write_parts out deltas freqs header first width mode plan hfirst fits h short hf low high =
    let doc_bytes = doc_channel_bytes deltas plan in
    let freq_bytes = freq_channel_bytes freqs width mode in
    let front = out ++ header ∷ [] in
    rw
      (
        write_varint_u32-groups front first hfirst,
        write_doc_channel-bytes (front ++ groups 5 first) deltas plan fits h short,
        write_freq_channel-bytes ((front ++ groups 5 first) ++ doc_bytes) freqs width mode hf low
            high,
      )
      (append_assoc (front ++ groups 5 first) doc_bytes freq_bytes
        ∙ append_assoc front (groups 5 first) (doc_bytes ++ freq_bytes)
        ∙ append_assoc out (header ∷ []) (groups 5 first ++ (doc_bytes ++ freq_bytes)))

-- A block: at least one doc id, at most 128.
module _ (first : ℕ) (later : List ℕ) (freq : ℕ) (freqs : List ℕ) (h : AllU32 (first ∷ later))
    (hf : AllU32 (freq ∷ freqs)) (short : length later < 256) where
  abbrev doc_ids : List ℕ
  doc_ids = first ∷ later

  abbrev all_freqs : List ℕ
  all_freqs = freq ∷ freqs

  pub encode_block_into-bytes :
      (out : List ℕ)
      → (encode_block_into out doc_ids all_freqs).0 ≡ out ++ block_bytes doc_ids all_freqs
  unfolding encode_block_into block_bytes first_of
  encode_block_into-bytes out =
      let deltas_below = gaps-AllBelow doc_ids h in
      let found = collect_deltas no_deltas doc_ids in
      let plan = plan_of doc_ids in
      let width = freq_width_of all_freqs in
      let header = bit_or (doc_mode_of plan) (mode_of all_freqs * 2 ^ 2 % 256) in
      ap
        (λ deltas.
          write_freq_channel
            (write_doc_channel (write_varint_u32 (out ++ header ∷ []) first) deltas plan) all_freqs
            width (mode_of all_freqs))
        (chunk_deltas doc_ids deltas_below)
      ∙ write_parts out (gaps doc_ids) all_freqs header first width (mode_of all_freqs) plan h.0
          (chunk_PlanFits doc_ids deltas_below (length found.scratch) found.varint_cost)
          deltas_below (omega (arith, short, length-gaps first later)) hf (omega arith)
          (freq_width_of-le all_freqs)

  module _ (bytes rest : List ℕ) (p : ℕ) (asc : Ascends first later)
      (same : length later ≡ length freqs) where
    pub decode_block_at-At :
        At bytes p (block_bytes doc_ids all_freqs ++ rest)
        → decode_block_at bytes (length doc_ids) p
          ≡ ok (doc_ids, all_freqs, p + length (block_bytes doc_ids all_freqs))
    unfolding decode_block_at read_block block_bytes first_of
    decode_block_at-At at =
        let deltas_below = gaps-AllBelow doc_ids h in
        let found = collect_deltas no_deltas doc_ids in
        let plan = plan_of doc_ids in
        let doc_bytes = doc_channel_bytes (gaps doc_ids) plan in
        let freq_bytes =
          freq_channel_bytes all_freqs (freq_width_of all_freqs) (mode_of all_freqs) in
        let header = bit_or (doc_mode_of plan) (mode_of all_freqs * 2 ^ 2 % 256) in
        let modes =
          Header-modes (doc_mode_of plan) (mode_of all_freqs) (doc_mode_of-lt plan)
            (freq_mode_of-lt all_freqs (freq_width_of all_freqs)) in
        let at1 : At bytes (p + 1) (groups 5 first ++ (doc_bytes ++ (freq_bytes ++ rest))) =
          rw
            (
              append_assoc (groups 5 first) (doc_bytes ++ freq_bytes) rest,
              append_assoc doc_bytes freq_bytes rest,
            )
            at ((At-cons at).1) in
        let at2 = At-append (groups 5 first) at1 in
        let at3 = At-append doc_bytes at2 in
        let read_docs : read_doc_channel bytes (doc_mode_of plan) (length later)
              (p + 1 + length (groups 5 first))
            ≡ ok (gaps doc_ids, p + 1 + length (groups 5 first) + length doc_bytes) =
          ap
            (λ (n : ℕ).
              read_doc_channel bytes (doc_mode_of plan) n (p + 1 + length (groups 5 first)))
            (sym (length-gaps first later))
          ∙ read_doc_channel-At plan (gaps doc_ids) (freq_bytes ++ rest)
              (chunk_PlanFits doc_ids deltas_below (length found.scratch) found.varint_cost)
              deltas_below (omega (arith, short, length-gaps first later)) at2 in
        let read_freqs : read_freq_channel bytes (mode_of all_freqs) (suc (length later))
              (p + 1 + length (groups 5 first) + length doc_bytes)
            ≡ ok (
              all_freqs,
              p + 1 + length (groups 5 first) + length doc_bytes + length freq_bytes,
            ) =
          ap
            (λ (n : ℕ).
              read_freq_channel bytes (mode_of all_freqs) (suc n)
                (p + 1 + length (groups 5 first) + length doc_bytes))
            same
          ∙ read_freq_channel-At bytes _ freq freqs rest hf at3 in
        rw
          (
            next_byte-At at,
            modes.reserved,
            read_varint_u32-At first (doc_bytes ++ (freq_bytes ++ rest)) h.0 at1,
            modes.doc,
            read_docs,
            add_deltas-gaps first later asc h.1,
            modes.freq,
            read_freqs,
          )
          (ap (λ (end : ℕ). ok (doc_ids, all_freqs, end))
            (omega (
              arith,
              length-append (groups 5 first) (doc_bytes ++ freq_bytes),
              length-append doc_bytes freq_bytes,
            )))
