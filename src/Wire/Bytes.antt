-- ===== src/Wire/Bytes.antt =====
-- Rust's `to_le_bytes` and `from_le_bytes`. A byte slice is a list of numbers below 256, an unsigned
-- word a number below 256 ^ k, and a signed word an integer read through its two's complement.
use rados_rs.Common.{
  ℕ, zero, suc, ◌+◌, ◌-◌, ◌*◌, ◌/◌, ◌%◌, ◌^◌, ◌<◌, ◌≡◌, refl, ap, arith, List, [], ◌∷◌, length, ltb,
  if◌then◌else◌, All,
}
use native.Mathlib.Nat.{pow-suc}
use rados_rs.Common.Int.{ℤ, pos, negsuc}

abbrev pub IsByte : ℕ → Type 0
IsByte b = b < 256

abbrev pub AreBytes : List ℕ → Type 0
AreBytes = All IsByte

-- The `k` bytes of `v`, the lowest first.
unfoldable pub le_bytes : ℕ → ℕ → List ℕ
le_bytes zero v = []
le_bytes (suc k) v = v % 256 ∷ le_bytes k (v / 256)

abbrev pub from_le : List ℕ → ℕ
from_le [] = 0
from_le (b ∷ bs) = b + 256 * from_le bs

pub length-le_bytes : (k v : ℕ) → length (le_bytes k v) ≡ k
unfolding le_bytes
length-le_bytes zero v = refl
length-le_bytes (suc k) v = ap suc (length-le_bytes k (v / 256))

pub le_bytes-AreBytes : (k v : ℕ) → AreBytes (le_bytes k v)
unfolding le_bytes
le_bytes-AreBytes zero v = tt
le_bytes-AreBytes (suc k) v = (omega arith, le_bytes-AreBytes k (v / 256))

pub from_le-le_bytes : (k v : ℕ) → v < 256 ^ k → from_le (le_bytes k v) ≡ v
unfolding le_bytes
from_le-le_bytes zero v h = omega arith
from_le-le_bytes (suc k) v h =
    omega (arith, from_le-le_bytes k (v / 256) (omega (arith, pow-suc 256 k)))

-- The bit pattern of a signed word of `2 ^ w` values, and the word of a pattern.
abbrev pub pattern_of : ℕ → ℤ → ℕ
pattern_of m (pos n) = n
pattern_of m (negsuc n) = m - suc n

abbrev pub signed : ℕ → ℕ → ℤ
signed m p = if ltb p (m / 2) then pos p else negsuc (m - p - 1)

abbrev pub IsSigned : ℕ → ℤ → Type 0
IsSigned m (pos n) = n < m / 2
IsSigned m (negsuc n) = n < m / 2

-- Reading back a pattern, at each width that the codec uses.
pub signed-pattern_of :
    (m : ℕ) (z : ℤ) → m ≡ 2 * (m / 2) → IsSigned m z → signed m (pattern_of m z) ≡ z
signed-pattern_of m (pos n) e h = ground arith
signed-pattern_of m (negsuc n) e h = ground arith

pub pattern_of-lt : (m : ℕ) (z : ℤ) → 0 < m → IsSigned m z → pattern_of m z < m
pattern_of-lt m (pos n) e h = omega arith
pattern_of-lt m (negsuc n) e h = omega arith

-- A byte is its own encoding.
pub le_bytes-byte : (b : ℕ) → b < 256 → le_bytes 1 b ≡ b ∷ []
unfolding le_bytes
le_bytes-byte b h = ap (λ x. x ∷ []) (omega arith)
