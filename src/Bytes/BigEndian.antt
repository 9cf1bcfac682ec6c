-- ===== src/Bytes/BigEndian.antt =====
-- `to_be_bytes` and `from_be_bytes` of the Rust integers, of any width.
use surch.Base.{◌+◌, ◌*◌, ◌/◌, ℕ, zero, suc, ◌%◌, ◌^◌, ◌<◌, ◌≡◌, refl, arith, ◌∙◌}
use surch.Base.{List, [], ◌∷◌, ◌++◌, length, length-append, append-All}
use surch.Bytes.Cursor.{IsByte, IsBytes}
use native.Mathlib.Nat.{pow-suc}

-- `n` bytes, the most significant first.
unfoldable pub to_be_bytes : ℕ → ℕ → List ℕ
to_be_bytes zero v = []
to_be_bytes (suc n) v = to_be_bytes n (v / 256) ++ (v % 256) ∷ []

be_value : ℕ → List ℕ → ℕ
be_value acc [] = acc
be_value acc (b ∷ bytes) = be_value (acc * 256 + b) bytes

unfoldable pub from_be_bytes : List ℕ → ℕ
unfolding be_value
from_be_bytes bytes = be_value 0 bytes

be_value-append :
    (acc : ℕ) (bytes : List ℕ) (b : ℕ)
    → be_value acc (bytes ++ b ∷ []) ≡ be_value acc bytes * 256 + b
unfolding be_value
be_value-append acc [] b = refl
be_value-append acc (c ∷ bytes) b = be_value-append (acc * 256 + c) bytes b

pub length-to_be_bytes : (n v : ℕ) → length (to_be_bytes n v) ≡ n
unfolding to_be_bytes
length-to_be_bytes zero v = refl
length-to_be_bytes (suc n) v = omega (
  arith,
  length-append {0} (to_be_bytes n (v / 256)) ((v % 256) ∷ []),
  length-to_be_bytes n (v / 256),
)

pub to_be_bytes-IsBytes : (n v : ℕ) → IsBytes (to_be_bytes n v)
unfolding to_be_bytes
to_be_bytes-IsBytes zero v = tt
to_be_bytes-IsBytes (suc n) v =
    append-All IsByte (to_be_bytes n (v / 256)) ((v % 256) ∷ []) (to_be_bytes-IsBytes n (v / 256))
      (omega arith, tt)

pub from_be_bytes-to_be_bytes : (n v : ℕ) → v < 256 ^ n → from_be_bytes (to_be_bytes n v) ≡ v
unfolding from_be_bytes to_be_bytes
from_be_bytes-to_be_bytes zero v h = omega arith
from_be_bytes-to_be_bytes (suc n) v h =
    be_value-append 0 (to_be_bytes n (v / 256)) (v % 256)
    ∙ omega (arith, pow-suc 256 n, from_be_bytes-to_be_bytes n (v / 256))
