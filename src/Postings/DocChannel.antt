-- ===== src/Postings/DocChannel.antt =====
-- The channel of the doc ids of a block of crates/surch-codec/src/postings_block.rs: what is written, and
-- that it is read back.
use surch.Base.{ℕ, ◌+◌, ◌^◌, ◌≤◌, ◌<◌, ◌≡◌, refl, sym, ap, ◌∙◌, arith}
use surch.Base.{ne→==, le→ltb, lt→leb}
use surch.Base.{List, [], ◌∷◌, ◌++◌, length, length-append, none, ok}
use surch.Bytes.{At, At-cons, At-append}
use surch.Postings.Varint.{next_byte-At}
use surch.Postings.FlatRoundTrip.{varints_bytes, write_varints-varints_bytes, read_varints-At}
use surch.Postings.Packing.{unpack_bits}
use surch.Postings.PackedBits.{AllBelow}
use surch.Postings.PackedRoundTrip.{packed_bytes, pack_bits-packed_bytes, unpack_bits-At}
use surch.Postings.BlockPlan.{DocPlan, varint, packed, patched}
use surch.Postings.BlockEncode.{doc_mode_of, write_doc_channel}
use surch.Postings.BlockDecode.{
  read_width, read_exceptions, read_patched, read_packed, read_doc_channel,
}
use surch.Postings.ChannelPlan.{PlanFits, exceeding}
use surch.Postings.Exceptions.{
  kept, listed, exception_bytes, take_exceptions-Split, write_exceptions-exception_bytes,
  read_exceptions-At,
}
use mathlib.Core.List.{append_assoc}
use native.Mathlib.Nat.{mod-eq_of_lt}

-- The bytes of the doc ids' channel.
abbrev pub doc_channel_bytes : List ℕ → DocPlan → List ℕ
doc_channel_bytes deltas varint = varints_bytes deltas
doc_channel_bytes deltas (packed width) = width ∷ packed_bytes width deltas
doc_channel_bytes deltas (patched width exceptions) =
    width
    ∷ exceptions
    ∷ (packed_bytes width (kept width 0 deltas) ++ exception_bytes (listed width 0 deltas))

exceeding-le : (width : ℕ) (deltas : List ℕ) → exceeding width deltas ≤ length deltas
exceeding-le width [] = omega arith
exceeding-le width (delta ∷ deltas) = ground (arith, exceeding-le width deltas)

pub write_doc_channel-bytes :
    (out deltas : List ℕ) (plan : DocPlan)
    → PlanFits deltas plan
    → AllBelow 32 deltas
    → length deltas < 256
    → write_doc_channel out deltas plan ≡ out ++ doc_channel_bytes deltas plan
unfolding write_doc_channel
write_doc_channel-bytes out deltas varint fits h short = write_varints-varints_bytes out deltas h
write_doc_channel-bytes out deltas (packed width) (low, high, below) h short =
    rw
      (
        mod-eq_of_lt {n = width} {m = 256} (omega (arith, high)),
        pack_bits-packed_bytes (out ++ width ∷ []) deltas width low,
      )
      (append_assoc out (width ∷ []) (packed_bytes width deltas))
write_doc_channel-bytes out deltas (patched width exceptions) (low, high, counted, some_exceptions)
      h short =
    let split = take_exceptions-Split width 0 deltas h in
    let front = width ∷ exceptions ∷ [] in
    rw
      (
        mod-eq_of_lt {n = width} {m = 256} (omega (arith, high)),
        mod-eq_of_lt {n = exceptions} {m = 256}
            (omega (arith, short, counted, exceeding-le width deltas)),
        pack_bits-packed_bytes (out ++ front) (kept width 0 deltas) width low,
        write_exceptions-exception_bytes
            ((out ++ front) ++ packed_bytes width (kept width 0 deltas)) (listed width 0 deltas)
            split.numbers,
      )
      (append_assoc (out ++ front) (packed_bytes width (kept width 0 deltas))
          (exception_bytes (listed width 0 deltas))
        ∙ append_assoc out front
            (packed_bytes width (kept width 0 deltas) ++ exception_bytes (listed width 0 deltas)))

module _ {bytes : List ℕ} where
  read_width-At :
      {p : ℕ} (width : ℕ) {rest : List ℕ}
      → 1 ≤ width
      → width ≤ 32
      → At bytes p (width ∷ rest)
      → read_width bytes p ≡ ok (width, p + 1)
  unfolding read_width
  read_width-At width low high at =
      rw
        (next_byte-At at, ne→== width 0 (λ e. absurd (omega (arith, low, e))), le→ltb 32 width high)
        refl

  pub read_packed-At :
      {p : ℕ} (width : ℕ) (values rest : List ℕ)
      → 1 ≤ width
      → width ≤ 32
      → AllBelow width values
      → At bytes p (width ∷ (packed_bytes width values ++ rest))
      → read_packed bytes (length values) p
        ≡ ok (values, p + 1 + length (packed_bytes width values))
  unfolding read_packed
  read_packed-At width values rest low high below at =
      rw
        (
          read_width-At width low high at,
          unpack_bits-At width values rest high below ((At-cons at).1),
        )
        refl

  read_patched-At :
      {p : ℕ} (width exceptions : ℕ) (deltas rest : List ℕ)
      → PlanFits deltas (patched width exceptions)
      → AllBelow 32 deltas
      → length deltas < 256
      → At bytes p (doc_channel_bytes deltas (patched width exceptions) ++ rest)
      → read_patched bytes (length deltas) p
        ≡ ok (deltas, p + length (doc_channel_bytes deltas (patched width exceptions)))
  unfolding read_patched
  read_patched-At {p} width exceptions deltas rest (low, high, counted, some_exceptions) h short
        at =
      let split = take_exceptions-Split width 0 deltas h in
      let low_bytes = packed_bytes width (kept width 0 deltas) in
      let apart = exception_bytes (listed width 0 deltas) in
      let at1 : At bytes p (width ∷ exceptions ∷ (low_bytes ++ (apart ++ rest))) =
        rw (append_assoc low_bytes apart rest) at at in
      let at2 = (At-cons at1).1 in
      let at3 = (At-cons at2).1 in
      let position = p + 1 + 1 + length low_bytes in
      let unpacked : unpack_bits bytes (p + 1 + 1) (length deltas) width
          ≡ ok (kept width 0 deltas, position) =
        ap (λ (n : ℕ). unpack_bits bytes (p + 1 + 1) n width) (sym split.size)
        ∙ unpack_bits-At width (kept width 0 deltas) (apart ++ rest) (omega (arith, high))
            split.below at3 in
      let restored : read_exceptions bytes (2 ^ width) exceptions none (kept width 0 deltas)
            position
          ≡ ok (deltas, position + length apart) =
        ap (λ (n : ℕ). read_exceptions bytes (2 ^ width) n none (kept width 0 deltas) position)
          (counted ∙ sym split.exceptions)
        ∙ read_exceptions-At bytes width deltas [] rest none position h (omega (arith, short)) tt
            (At-append low_bytes at3) in
      rw
        (
          read_width-At width low (omega (arith, high)) at1,
          lt→leb 32 width high,
          next_byte-At at2,
          ne→== exceptions 0 (λ e. absurd (omega (arith, some_exceptions, e))),
          le→ltb (length deltas) exceptions (omega (arith, counted, exceeding-le width deltas)),
          unpacked,
          restored,
        )
        (ap (λ (end : ℕ). ok (deltas, end)) (omega (arith, length-append low_bytes apart)))

  pub read_doc_channel-At :
      {p : ℕ} (plan : DocPlan) (deltas rest : List ℕ)
      → PlanFits deltas plan
      → AllBelow 32 deltas
      → length deltas < 256
      → At bytes p (doc_channel_bytes deltas plan ++ rest)
      → read_doc_channel bytes (doc_mode_of plan) (length deltas) p
        ≡ ok (deltas, p + length (doc_channel_bytes deltas plan))
  unfolding read_doc_channel doc_mode_of
  read_doc_channel-At varint deltas rest fits h short at = read_varints-At deltas rest h at
  read_doc_channel-At {p} (packed width) deltas rest (low, high, below) h short at =
      read_packed-At width deltas rest low high below at
      ∙ ap (λ (end : ℕ). ok (deltas, end)) (omega arith)
  read_doc_channel-At (patched width exceptions) deltas rest fits h short at =
      read_patched-At width exceptions deltas rest fits h short at
