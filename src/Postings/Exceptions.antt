-- ===== src/Postings/Exceptions.antt =====
-- The deltas that crates/surch-codec/src/postings_block.rs keeps apart from the packed ones, and how
-- they are put back.
use surch.Base.{ℕ, suc, ◌+◌, ◌%◌, ◌^◌, ◌≤◌, ◌<◌, ◌≡◌, refl, sym, ap, ◌∙◌, arith}
use surch.Base.{leb, true, false, Bool-cases, inl, inr, le→ltb, leb→le, lt→leb}
use surch.Base.{List, [], ◌∷◌, ◌++◌, length, length-append, All, Option, none, some, ok}
use surch.Base.Bits.{two_pow_pos}
use surch.Bytes.{At, At-cons, At-append, groups}
use surch.Postings.Varint.{next_byte-At, read_varint_u32-At, write_varint_u32-groups}
use surch.Postings.PackedBits.{AllBelow}
use surch.Postings.BlockPlan.{value_at}
use surch.Postings.BlockEncode.{take_exceptions, write_exceptions}
use surch.Postings.BlockDecode.{set_at, not_after, read_exceptions}
use surch.Postings.ChannelPlan.{exceeding}
use mathlib.Core.List.{append_assoc, append-nil}
use mathlib.Core.Path.{ap₂, subst}

-- The deltas that are packed, with zeros for the exceptions, and the list of these from `index` on.
abbrev pub kept : ℕ → ℕ → List ℕ → List ℕ
kept width index deltas = (take_exceptions (2 ^ width) index deltas).0

abbrev pub listed : ℕ → ℕ → List ℕ → List (ℕ × ℕ)
listed width index deltas = (take_exceptions (2 ^ width) index deltas).1

abbrev pub exception_bytes : List (ℕ × ℕ) → List ℕ
exception_bytes [] = []
exception_bytes ((index, delta) ∷ exceptions) =
    index ∷ (groups 5 delta ++ exception_bytes exceptions)

module _ (width : ℕ) where
  -- An exception and a packed delta at the front.
  pub exception_first :
      (index delta : ℕ) (deltas : List ℕ)
      → leb (2 ^ width) delta ≡ true
      → take_exceptions (2 ^ width) index (delta ∷ deltas) ≡ (
        0 ∷ kept width (index + 1) deltas,
        (index % 256, delta) ∷ listed width (index + 1) deltas,
      )
  unfolding take_exceptions
  exception_first index delta deltas large = rw large refl

  pub packed_first :
      (index delta : ℕ) (deltas : List ℕ)
      → leb (2 ^ width) delta ≡ false
      → take_exceptions (2 ^ width) index (delta ∷ deltas)
        ≡ (delta ∷ kept width (index + 1) deltas, listed width (index + 1) deltas)
  unfolding take_exceptions
  packed_first index delta deltas small = rw small refl

  -- The two parts of the deltas: as many packed ones as deltas, all below the threshold, and as
  -- many exceptions as deltas above it.
  pub record Split (index : ℕ) (deltas : List ℕ) : Type 0 where
    pub size : length (kept width index deltas) ≡ length deltas
    pub below : AllBelow width (kept width index deltas)
    pub exceptions : length (listed width index deltas) ≡ exceeding width deltas
    pub numbers : All (λ (at, delta). delta < 2 ^ 32) (listed width index deltas)

  nothing-Split : (index : ℕ) → Split index []
  unfolding take_exceptions
  nothing-Split index = record { size = refl; below = tt; exceptions = refl; numbers = tt }

  pub take_exceptions-Split :
      (index : ℕ) (deltas : List ℕ) → AllBelow 32 deltas → Split index deltas
  take_exceptions-Split index [] h = nothing-Split index
  take_exceptions-Split index (delta ∷ deltas) (h, hs) =
      let rest = take_exceptions-Split (index + 1) deltas hs in
      elim (Bool-cases (leb (2 ^ width) delta)) [
        | inl large ↦
            let first = exception_first index delta deltas large in
            record {
              size = ap (λ parts. length parts.0) first ∙ ap suc rest.size;
              below =
                  subst (λ parts. AllBelow width parts.0) (sym first)
                    (two_pow_pos width, rest.below);
              exceptions =
                  ap (λ parts. length parts.1) first
                  ∙ rw large (ap suc rest.exceptions ∙ omega arith);
              numbers =
                  subst (λ parts. All (λ (at, value). value < 2 ^ 32) parts.1) (sym first)
                    (h, rest.numbers);
            }
        | inr small ↦
            let first = packed_first index delta deltas small in
            record {
              size = ap (λ parts. length parts.0) first ∙ ap suc rest.size;
              below =
                  subst (λ parts. AllBelow width parts.0) (sym first)
                    (ground (arith, small), rest.below);
              exceptions =
                  ap (λ parts. length parts.1) first ∙ rw small (rest.exceptions ∙ omega arith);
              numbers =
                  subst (λ parts. All (λ (at, value). value < 2 ^ 32) parts.1) (sym first)
                    rest.numbers;
            }
      ]

pub write_exceptions-exception_bytes :
    (out : List ℕ) (exceptions : List (ℕ × ℕ))
    → All (λ (at, delta). delta < 2 ^ 32) exceptions
    → write_exceptions out exceptions ≡ out ++ exception_bytes exceptions
unfolding write_exceptions
write_exceptions-exception_bytes out [] h = sym (append-nil out)
write_exceptions-exception_bytes out ((index, delta) ∷ exceptions) (h, hs) =
    rw (write_varint_u32-groups (out ++ index ∷ []) delta h) (
      write_exceptions-exception_bytes ((out ++ index ∷ []) ++ groups 5 delta) exceptions hs
      ∙ append_assoc (out ++ index ∷ []) (groups 5 delta) (exception_bytes exceptions)
      ∙ append_assoc out (index ∷ []) (groups 5 delta ++ exception_bytes exceptions))

-- The last index that was read lies before `index`.
abbrev Before : Option ℕ → ℕ → Type 0
Before none index = Unit
Before (some prev) index = prev < index

not_after-Before : (prev : Option ℕ) (index : ℕ) → Before prev index → not_after prev index ≡ false
unfolding not_after
not_after-Before none index h = refl
not_after-Before (some prev) index h = lt→leb index prev h

Before-suc : (prev : Option ℕ) (index : ℕ) → Before prev index → Before prev (index + 1)
Before-suc none index h = tt
Before-suc (some prev) index h = omega (arith, h)

value_at-append :
    (done rest : List ℕ) (value : ℕ) → value_at (done ++ value ∷ rest) (length done) ≡ value
unfolding value_at
value_at-append [] rest value = refl
value_at-append (x ∷ done) rest value = value_at-append done rest value

set_at-append :
    (done rest : List ℕ) (old value : ℕ)
    → set_at (done ++ old ∷ rest) (length done) value ≡ done ++ value ∷ rest
unfolding set_at
set_at-append [] rest old value = refl
set_at-append (x ∷ done) rest old value = ap (λ l. x ∷ l) (set_at-append done rest old value)

-- One exception is put back.
module _ {bytes : List ℕ} (threshold : ℕ) (n : ℕ) (done later rest : List ℕ) (prev : Option ℕ)
    {p value : ℕ} where
  read_exception-At :
      value < 2 ^ 32
      → threshold ≤ value
      → length done < 256
      → Before prev (length done)
      → At bytes p (length done % 256 ∷ (groups 5 value ++ rest))
      → read_exceptions bytes threshold (suc n) prev (done ++ 0 ∷ later) p
        ≡ read_exceptions bytes threshold n
            (some (length done))
            ((done ++ value ∷ []) ++ later)
            (p + 1 + length (groups 5 value))
  unfolding read_exceptions
  read_exception-At h large short before at =
      let index : length done % 256 ≡ length done = omega (arith, short) in
      let at' : At bytes p (length done ∷ (groups 5 value ++ rest)) = rw index at at in
      rw
        (
          next_byte-At at',
          lt→leb (length (done ++ 0 ∷ later)) (length done)
              (omega (arith, length-append done (0 ∷ later))),
          not_after-Before prev (length done) before,
          read_varint_u32-At value rest h ((At-cons at').1),
          le→ltb value threshold large,
          value_at-append done later 0,
          set_at-append done later 0 value,
          ← append_assoc done (value ∷ []) later,
        )
        refl

-- The exceptions of `parts` are put back, behind deltas that are done.
abbrev Restores :
    List ℕ → ℕ → List ℕ → List ℕ → List ℕ → Option ℕ → ℕ → List ℕ × List (ℕ × ℕ) → Type 0
Restores bytes threshold deltas done rest prev p (packed_deltas, exceptions) =
    At bytes p (exception_bytes exceptions ++ rest)
    → read_exceptions bytes threshold (length exceptions) prev (done ++ packed_deltas) p
      ≡ ok (done ++ deltas, p + length (exception_bytes exceptions))

nothing_Restores :
    (bytes done rest : List ℕ) (threshold : ℕ) (prev : Option ℕ) (p : ℕ)
    → Restores bytes threshold [] done rest prev p (take_exceptions threshold (length done) [])
unfolding read_exceptions take_exceptions
nothing_Restores bytes done rest threshold prev p at =
    ap (λ (end : ℕ). ok (done ++ [], end)) (omega arith)

pub read_exceptions-At :
    (bytes : List ℕ) (width : ℕ) (deltas done rest : List ℕ) (prev : Option ℕ) (p : ℕ)
    → AllBelow 32 deltas
    → length done + length deltas ≤ 256
    → Before prev (length done)
    → Restores bytes
        (2 ^ width)
        deltas
        done
        rest
        prev
        p
        (take_exceptions (2 ^ width) (length done) deltas)
read_exceptions-At bytes width [] done rest prev p h short before =
    nothing_Restores bytes done rest (2 ^ width) prev p
read_exceptions-At bytes width (delta ∷ deltas) done rest prev p (h, hs) short before =
    let next_done = done ++ delta ∷ [] in
    let size : length next_done ≡ length done + 1 = length-append done (delta ∷ []) in
    let parts = take_exceptions (2 ^ width) (length done + 1) deltas in
    let joined = append_assoc done (delta ∷ []) deltas in
    elim (Bool-cases (leb (2 ^ width) delta)) [
      | inl large ↦
          subst (Restores bytes (2 ^ width) (delta ∷ deltas) done rest prev p)
            (sym (exception_first width (length done) delta deltas large))
            (λ at.
              let at1 : At bytes p
                  (length done % 256 ∷ (groups 5 delta ++ (exception_bytes parts.1 ++ rest))) =
                rw (append_assoc (groups 5 delta) (exception_bytes parts.1) rest) at at in
              let next = rw size at (
                read_exceptions-At bytes width deltas next_done rest (some (length done))
                  (p + 1 + length (groups 5 delta)) hs (omega (arith, short, size))
                  (omega (arith, size))) in
              read_exception-At (2 ^ width) (length parts.1) done parts.0
                (exception_bytes parts.1 ++ rest) prev h (leb→le (2 ^ width) delta large)
                (omega (arith, short)) before at1
              ∙ next (At-append (groups 5 delta) ((At-cons at1).1))
              ∙ ap₂ (λ ids (end : ℕ). ok (ids, end)) joined
                  (omega (arith, length-append (groups 5 delta) (exception_bytes parts.1))))
      | inr small ↦
          subst (Restores bytes (2 ^ width) (delta ∷ deltas) done rest prev p)
            (sym (packed_first width (length done) delta deltas small))
            (λ at.
              let next = rw size at (
                read_exceptions-At bytes width deltas next_done rest prev p hs
                  (omega (arith, short, size)) (rw size (Before-suc prev (length done) before))) in
              rw joined at (rw (append_assoc done (delta ∷ []) parts.0) at (next at)))
    ]
