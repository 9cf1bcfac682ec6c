-- ===== src/Postings/PackedBits.antt =====
-- The bit packing of crates/surch-codec/src/postings_block.rs as arithmetic: the packed bytes are
-- one number, of which each value is a field.
use surch.Base.{
  ℕ, zero, suc, ◌+◌, ◌-◌, ◌*◌, ◌/◌, ◌%◌, ◌^◌, ◌≤◌, ◌<◌, ◌≡◌, refl, sym, ap, ◌∙◌, arith, min,
}
use surch.Base.{ne→==, lt→ltb, le→ltb}
use surch.Base.{List, [], ◌∷◌, length, All}
use surch.Base.Bits.{bit_and_mask, bit_or_fields, two_pow_pos}
use surch.Base.Powers.{
  two_pow_add, div_two_pow_add, mod_two_pow_add, field_lt, field_div, field_mod,
}
use surch.Bytes.{IsBytes}
use surch.Postings.Packing.{or_at, put_bits, put_values, byte_at, take_bits, take_values}
use mathlib.Core.Path.{ap₂}
use native.Mathlib.Decide.{dec_lt}
use native.Mathlib.Nat.{
  mul_comm, mul_assoc, pow-le-pow_right, mod-lt, mod-eq_of_lt, zero-div, add-mul-div_right,
  add-mul-mod_self_right,
}

-- The bytes as one number, the first the lowest.
abbrev pub le_value : List ℕ → ℕ
le_value [] = 0
le_value (byte ∷ bytes) = byte + 256 * le_value bytes

-- The values as fields of one number.
abbrev pub fields : ℕ → List ℕ → ℕ
fields width [] = 0
fields width (value ∷ values) = value + fields width values * 2 ^ width

-- What the bytes are after a value was put at `cursor`.
pub record Put (out : List ℕ) (cursor width value : ℕ) (result : List ℕ × ℕ) : Type 0 where
  pub cursor_after : result.1 ≡ cursor + width
  pub size : length result.0 ≡ length out
  pub all_bytes : IsBytes result.0
  pub total : le_value result.0 ≡ le_value out + value % 2 ^ width * 2 ^ cursor

or_at-le_value :
    (out : List ℕ) (i k bits : ℕ)
    → IsBytes out
    → i < length out
    → k ≤ 8
    → le_value out < 2 ^ (8 * i + k)
    → bits < 2 ^ (8 - k)
    → (le_value (or_at out i (bits * 2 ^ k)) ≡ le_value out + bits * 2 ^ (8 * i + k))
      × (length (or_at out i (bits * 2 ^ k)) ≡ length out)
      × IsBytes (or_at out i (bits * 2 ^ k))
unfolding or_at
or_at-le_value [] i k bits h lt le low hb = absurd (omega (arith, lt))
or_at-le_value (byte ∷ out) zero k bits (hbyte, h) lt le low hb =
    let place : 8 * 0 + k ≡ k = omega arith in
    let low' : byte + 256 * le_value out < 2 ^ k = rw place at low in
    let top : 2 ^ k ≤ 2 ^ 8 = pow-le-pow_right {n = 2} (omega arith) {j = 8} le in
    let small : byte < 2 ^ k = omega (arith, low') in
    let rest : k + (8 - k) ≡ 8 = omega arith in
    let fits : byte + bits * 2 ^ k < 2 ^ 8 = rw rest at (field_lt byte k bits (8 - k) small hb) in
    rw (bit_or_fields k byte bits small, place) (omega arith, refl, (omega (arith, fits), h))
or_at-le_value (byte ∷ out) (suc i) k bits (hbyte, h) lt le low hb =
    let place : 8 * suc i + k ≡ 8 * i + k + 8 = omega arith in
    let power : 2 ^ (8 * suc i + k) ≡ 2 ^ (8 * i + k) * 256 =
      rw place (two_pow_add (8 * i + k) 8) in
    let (total, size, all_bytes) =
      or_at-le_value out i k bits h (omega (arith, lt)) le (omega (arith, low, power)) hb in
    (
      omega (
        arith,
        total,
        power,
        ap (λ (t : ℕ). bits * t) power,
        mul_assoc bits (2 ^ (8 * i + k)) 256,
      ),
      omega (arith, size),
      (hbyte, all_bytes),
    )

-- A part of a value, and the rest of it above.
value_parts :
    (value part rest cursor : ℕ)
    → value % 2 ^ part * 2 ^ cursor + value / 2 ^ part % 2 ^ rest * 2 ^ (cursor + part)
      ≡ value % 2 ^ (part + rest) * 2 ^ cursor
value_parts value part rest cursor =
    let low = value % 2 ^ part in
    let high = value / 2 ^ part % 2 ^ rest in
    let power : 2 ^ (cursor + part) ≡ 2 ^ part * 2 ^ cursor =
      two_pow_add cursor part ∙ mul_comm (2 ^ cursor) (2 ^ part) in
    rw (mod_two_pow_add value part rest, power) (grind arith)

Put-nothing : {out : List ℕ} {cursor value : ℕ} → IsBytes out → Put out cursor 0 value (out, cursor)
Put-nothing {cursor = cursor} {value = value} h =
    let nothing : value % 2 ^ 0 ≡ 0 = ground arith in
    record {
      cursor_after = omega arith;
      size = refl;
      all_bytes = h;
      total = rw nothing (omega arith);
    }

put_bits-Put :
    (rounds : ℕ) (out : List ℕ) (cursor width value : ℕ)
    → width ≤ rounds
    → IsBytes out
    → le_value out < 2 ^ cursor
    → cursor + width ≤ 8 * length out
    → Put out cursor width value (put_bits rounds out 0 cursor width value)
unfolding put_bits
put_bits-Put zero out cursor width value enough h low room =
    let none_left : width ≡ 0 = omega arith in rw none_left (Put-nothing h)
put_bits-Put (suc rounds) out cursor zero value enough h low room = Put-nothing h
put_bits-Put (suc rounds) out cursor (suc w) value enough h low room =
    let k = cursor % 8 in
    let part = min (suc w) (8 - k) in
    let chunk = value % 2 ^ part in
    let place : 8 * (cursor / 8) + k ≡ cursor = omega arith in
    let below : chunk < 2 ^ part = mod-lt value (two_pow_pos part) in
    let top : 2 ^ part ≤ 2 ^ (8 - k) =
      pow-le-pow_right {n = 2} (omega arith) {j = 8 - k} (omega arith) in
    let byte_top : 2 ^ (8 - k) ≤ 2 ^ 8 =
      pow-le-pow_right {n = 2} (omega arith) {j = 8} (omega arith) in
    let whole : k + (8 - k) ≡ 8 = omega arith in
    let shifted : 0 + chunk * 2 ^ k < 2 ^ 8 =
      rw whole at (field_lt 0 k chunk (8 - k) (two_pow_pos k) (omega (arith, below, top))) in
    let parts : part + (suc w - part) ≡ suc w = omega arith in
    let (total, size, all_bytes) =
      or_at-le_value out (cursor / 8) k chunk h (omega (arith, room)) (omega arith) (rw place low)
        (omega (arith, below, top)) in
    let low' : le_value (or_at out (cursor / 8) (chunk * 2 ^ k)) < 2 ^ (cursor + part) =
      rw total (rw place (field_lt (le_value out) cursor chunk part low below)) in
    let next =
      put_bits-Put rounds (or_at out (cursor / 8) (chunk * 2 ^ k)) (cursor + part) (suc w - part)
        (value / 2 ^ part) (omega (arith, enough)) all_bytes low' (omega (arith, room, size)) in
    let start : 0 + cursor / 8 ≡ cursor / 8 = omega arith in
    rw
      (
        ne→== (suc w) 0 (λ e. absurd (omega arith)),
        bit_and_mask part value,
        mod-eq_of_lt {n = chunk} {m = 256} (omega (arith, below, top, byte_top)),
        mod-eq_of_lt {n = chunk * 2 ^ k} {m = 256} (omega (arith, shifted)),
        start,
      )
      record {
        cursor_after = next.cursor_after ∙ omega arith;
        size = next.size ∙ size;
        all_bytes = next.all_bytes;
        total =
            next.total
            ∙ omega (
              arith,
              rw place at total,
              rw parts at (value_parts value part (suc w - part) cursor),
            );
      }

-- Each value fits its field.
abbrev pub AllBelow : ℕ → List ℕ → Type 0
AllBelow width values = All (λ value. value < 2 ^ width) values

-- What the bytes are after all values were put.
pub record Packed (out : List ℕ) (cursor width : ℕ) (values result : List ℕ) : Type 0 where
  pub size : length result ≡ length out
  pub all_bytes : IsBytes result
  pub total : le_value result ≡ le_value out + fields width values * 2 ^ cursor

pub put_values-Packed :
    (out : List ℕ) (cursor width : ℕ) (values : List ℕ)
    → IsBytes out
    → le_value out < 2 ^ cursor
    → AllBelow width values
    → cursor + width * length values ≤ 8 * length out
    → Packed out cursor width values (put_values out 0 cursor values width)
unfolding put_values
put_values-Packed out cursor width [] h low below room = record {
  size = refl;
  all_bytes = h;
  total = omega arith;
}
put_values-Packed out cursor width (value ∷ values) h low (hv, below) room =
    let room' : cursor + width + width * length values ≤ 8 * length out = grind (arith, room) in
    let put =
      put_bits-Put width out cursor width value (omega arith) h low (omega (arith, room')) in
    let out' = (put_bits width out 0 cursor width value).0 in
    let value_total : le_value out' ≡ le_value out + value * 2 ^ cursor =
      rw (mod-eq_of_lt {n = value} {m = 2 ^ width} hv) at put.total in
    let low' : le_value out' < 2 ^ (cursor + width) =
      rw value_total (field_lt (le_value out) cursor value width low hv) in
    let next =
      put_values-Packed out' (cursor + width) width values put.all_bytes low' below
        (omega (arith, room', put.size)) in
    rw put.cursor_after record {
      size = next.size ∙ put.size;
      all_bytes = next.all_bytes;
      total =
          next.total
          ∙ omega (arith, value_total, fields_step value (fields width values) cursor width);
    }
  where
    fields_step :
        (value above cursor width : ℕ)
        → value * 2 ^ cursor + above * 2 ^ (cursor + width)
          ≡ (value + above * 2 ^ width) * 2 ^ cursor
    fields_step value above cursor width =
        let power : 2 ^ (cursor + width) ≡ 2 ^ width * 2 ^ cursor =
          two_pow_add cursor width ∙ mul_comm (2 ^ cursor) (2 ^ width) in
        rw power (grind arith)

byte_split :
    (above k part : ℕ) → k + part ≤ 8 → above * 2 ^ (8 - k - part) * 2 ^ part * 2 ^ k ≡ 256 * above
byte_split above k part fits =
    let whole : 8 - k - part + part + k ≡ 8 = omega arith in
    let power : 2 ^ (8 - k - part) * 2 ^ part * 2 ^ k ≡ 256 =
      rw (← two_pow_add (8 - k - part) part, ← two_pow_add (8 - k - part + part) k, whole) refl in
    rw
      (
        mul_assoc above (2 ^ (8 - k - part)) (2 ^ part),
        mul_assoc above (2 ^ (8 - k - part) * 2 ^ part) (2 ^ k),
        power,
      )
      (omega arith)

-- Some bits of one byte are some bits of the number.
byte_at-le_value :
    (bytes : List ℕ) (i k part : ℕ)
    → IsBytes bytes
    → k + part ≤ 8
    → byte_at bytes i / 2 ^ k % 2 ^ part ≡ le_value bytes / 2 ^ (8 * i + k) % 2 ^ part
unfolding byte_at
byte_at-le_value [] i k part h fits = rw (zero-div (2 ^ k), zero-div (2 ^ (8 * i + k))) refl
byte_at-le_value (byte ∷ bytes) zero k part (hbyte, h) fits =
    let place : 8 * 0 + k ≡ k = omega arith in
    let above = le_value bytes * 2 ^ (8 - k - part) in
    let split : byte + 256 * le_value bytes ≡ byte + above * 2 ^ part * 2 ^ k =
      omega (arith, byte_split (le_value bytes) k part fits) in
    rw (place, split, add-mul-div_right byte (above * 2 ^ part) {z = 2 ^ k} (two_pow_pos k))
      (sym (add-mul-mod_self_right (byte / 2 ^ k) above (2 ^ part)))
byte_at-le_value (byte ∷ bytes) (suc i) k part (hbyte, h) fits =
    let place : 8 * suc i + k ≡ 8 + (8 * i + k) = omega arith in
    let above : (byte + 256 * le_value bytes) / 2 ^ 8 ≡ le_value bytes = omega (arith, hbyte) in
    rw (place, div_two_pow_add (byte + 256 * le_value bytes) 8 (8 * i + k), above)
      (byte_at-le_value bytes i k part h fits)

nothing_taken :
    (x value cursor collected : ℕ)
    → ◌≡◌ {A = ℕ × ℕ} (value, cursor) (value + x % 2 ^ 0 * 2 ^ collected, cursor + 0)
nothing_taken x value cursor collected =
    let nothing : x % 2 ^ 0 ≡ 0 = ground arith in
    rw nothing (ap₂ (λ (a b : ℕ). (a, b)) (omega arith) (omega arith))

-- What is collected when a value is read at `cursor`.
module _ (bytes : List ℕ) (width : ℕ) (wide : width ≤ 32) (h : IsBytes bytes) where
  take_bits-field :
      (rounds cursor value collected : ℕ)
      → collected ≤ width
      → width - collected ≤ rounds
      → value < 2 ^ collected
      → take_bits rounds bytes cursor value collected width ≡ (
        value + le_value bytes / 2 ^ cursor % 2 ^ (width - collected) * 2 ^ collected,
        cursor + (width - collected),
      )
  unfolding take_bits
  take_bits-field zero cursor value collected le enough low =
      let full : width - collected ≡ 0 = omega arith in
      rw full (nothing_taken _ value cursor collected)
  take_bits-field (suc rounds) cursor value collected le enough low =
      elim (dec_lt collected width) [
        | no full ↦ rw (le→ltb collected width (omega arith)) (
            let full' : width - collected ≡ 0 = omega arith in
            rw full' (nothing_taken _ value cursor collected))
        | yes more ↦
            let k = cursor % 8 in
            let part = min (width - collected) (8 - k) in
            let field = le_value bytes / 2 ^ cursor % 2 ^ part in
            let place : 8 * (cursor / 8) + k ≡ cursor = omega arith in
            let chunk : byte_at bytes (cursor / 8) / 2 ^ k % 2 ^ part ≡ field =
              rw place at (byte_at-le_value bytes (cursor / 8) k part h (omega arith)) in
            let below : field < 2 ^ part =
              mod-lt (le_value bytes / 2 ^ cursor) (two_pow_pos part) in
            let mask : (2 ^ part - 1) % 256 ≡ 2 ^ part - 1 = mod-eq_of_lt (
              omega
                (arith, pow-le-pow_right {n = 2} (omega arith) {i = part} {j = 8} (omega arith))) in
            let fits : field * 2 ^ collected < 2 ^ 32 = omega (
              arith,
              field_lt 0 collected field part (two_pow_pos collected) below,
              pow-le-pow_right {n = 2} (omega arith) {i = collected + part} {j = 32}
                  (omega (arith, wide)),
            ) in
            let part_sum : part + (width - collected - part) ≡ width - collected = omega arith in
            let left : width - (collected + part) ≡ width - collected - part = omega arith in
            rw
              (
                lt→ltb collected width more,
                mask,
                bit_and_mask part (byte_at bytes (cursor / 8) / 2 ^ k),
                chunk,
                mod-eq_of_lt {n = field * 2 ^ collected} {m = 2 ^ 32} fits,
                bit_or_fields collected value field low,
                take_bits-field rounds (cursor + part) (value + field * 2 ^ collected)
                    (collected + part) (omega arith) (omega arith)
                    (field_lt value collected field part low below),
                left,
                div_two_pow_add (le_value bytes) cursor part,
              )
              (ap₂ (λ (a b : ℕ). (a, b))
                (omega (
                  arith,
                  rw part_sum at (
                      value_parts (le_value bytes / 2 ^ cursor) part (width - collected - part)
                        collected),
                ))
                (omega (arith, part_sum)))
      ]

  pub take_values-fields :
      (values : List ℕ) (cursor : ℕ)
      → AllBelow width values
      → le_value bytes / 2 ^ cursor ≡ fields width values
      → take_values bytes cursor (length values) width ≡ values
  unfolding take_values
  take_values-fields [] cursor below e = refl
  take_values-fields (value ∷ values) cursor (hv, below) e =
      let above = fields width values in
      let all_wide : width - 0 ≡ width = omega arith in
      let first : 0 + le_value bytes / 2 ^ cursor % 2 ^ (width - 0) * 2 ^ 0 ≡ value =
        rw (e, all_wide) (omega (arith, field_mod value width above hv)) in
      let moved : cursor + (width - 0) ≡ cursor + width = omega arith in
      let next : le_value bytes / 2 ^ (cursor + width) ≡ above =
        div_two_pow_add (le_value bytes) cursor width
        ∙ ap (λ (t : ℕ). t / 2 ^ width) e
        ∙ field_div value width above hv in
      rw (take_bits-field width cursor 0 0 (omega arith) (omega arith) (omega arith), first, moved)
        (ap (λ rest. value ∷ rest) (take_values-fields values (cursor + width) below next))
