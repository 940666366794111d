-- ===== src/Common/Masks.antt =====
-- The low bits of a word, which a mask of ones keeps.
use Prim.Native.Nat.{
  ℕ, zero, suc, ◌+◌, ◌-◌, ◌*◌, ◌/◌, ◌%◌, ◌^◌, ◌≤◌, ◌<◌, min, bit_and, digits, bit_and-bitwise,
}
use mathlib.Core.Path.{◌≡◌, refl, sym, ◌∙◌}
use mathlib.Core.Logic.{◌⊎◌, inl, inr}
use native.Mathlib.Omega.{arith}

unfoldable pub low_bits : ℕ → ℕ → ℕ
low_bits zero v = 0
low_bits (suc k) v = low_bits k (v / 2) * 2 + v % 2

low_bits-zero : (k : ℕ) → low_bits k 0 ≡ 0
unfolding low_bits
low_bits-zero zero = refl
low_bits-zero (suc k) = omega (arith, low_bits-zero k)

pub power_pos : (k : ℕ) → 1 ≤ 2 ^ k
power_pos zero = omega arith
power_pos (suc k) = omega (arith, power_pos k)

pub power-le : (i j : ℕ) → i ≤ j → 2 ^ i ≤ 2 ^ j
power-le zero j h = power_pos j
power-le (suc i) zero h = absurd (omega arith)
power-le (suc i) (suc j) h = omega (arith, power-le i j (omega arith))

pub low_bits-lt : (k v : ℕ) → low_bits k v < 2 ^ k
unfolding low_bits
low_bits-lt zero v = omega arith
low_bits-lt (suc k) v = omega (arith, low_bits-lt k (v / 2))

-- One bit more adds it on top.
pub low_bits-suc :
    (k v : ℕ) → (low_bits (suc k) v ≡ low_bits k v) ⊎ (low_bits (suc k) v ≡ low_bits k v + 2 ^ k)
unfolding low_bits
low_bits-suc zero v = ground arith
low_bits-suc (suc k) v = elim (low_bits-suc k (v / 2)) [
  | inl same ↦ inl (omega (arith, same))
  | inr more ↦ inr (omega (arith, more))
]

masked : (n k v : ℕ) → v ≤ n → digits (λ b. zero) min n v (2 ^ k - 1) ≡ low_bits k v
unfolding low_bits
masked zero k zero h = omega (arith, low_bits-zero k)
masked zero k (suc v) h = absurd (omega arith)
masked (suc n) k zero h = omega (arith, low_bits-zero k)
masked (suc n) zero (suc v) h = omega (arith, masked n zero (suc v / 2) (omega arith))
masked (suc n) (suc k) (suc v) h =
    let halved : (2 ^ suc k - 1) / 2 ≡ 2 ^ k - 1 = omega (arith, power_pos k) in
    let odd : (2 ^ suc k - 1) % 2 ≡ 1 = omega (arith, power_pos k) in
    rw (halved, odd) (omega (arith, masked n k (suc v / 2) (omega arith)))

pub bit_and-mask : (k v : ℕ) → bit_and v (2 ^ k - 1) ≡ low_bits k v
bit_and-mask k v = bit_and-bitwise v (2 ^ k - 1) ∙ masked v k v (omega arith)

nothing_kept : (m b : ℕ) → digits (λ b. zero) min m b 0 ≡ 0
nothing_kept zero b = refl
nothing_kept (suc m) zero = refl
nothing_kept (suc m) (suc b) = omega (arith, nothing_kept m (suc b / 2))

digits_comm :
    (n m a b : ℕ) → a ≤ n → b ≤ m → digits (λ b. zero) min n a b ≡ digits (λ b. zero) min m b a
digits_comm zero m zero b p q = sym (nothing_kept m b)
digits_comm zero m (suc a) b p q = absurd (omega arith)
digits_comm (suc n) m zero b p q = sym (nothing_kept m b)
digits_comm (suc n) zero (suc a) zero p q = nothing_kept (suc n) (suc a)
digits_comm (suc n) zero (suc a) (suc b) p q = absurd (omega arith)
digits_comm (suc n) (suc m) (suc a) zero p q = nothing_kept (suc n) (suc a)
digits_comm (suc n) (suc m) (suc a) (suc b) p q =
    omega (arith, digits_comm n m (suc a / 2) (suc b / 2) (omega arith) (omega arith))

pub bit_and_comm : (a b : ℕ) → bit_and a b ≡ bit_and b a
bit_and_comm a b =
    bit_and-bitwise a b
    ∙ digits_comm a b a b (omega arith) (omega arith)
    ∙ sym (bit_and-bitwise b a)
