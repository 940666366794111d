-- ===== src/Crush/StableMod.antt =====
-- `stable_mod` of src/crush/hash.rs, which spreads hash values over a number of slots.
use rados_rs.Common.{
  ℕ, zero, suc, ◌+◌, ◌-◌, ◌*◌, ◌/◌, ◌^◌, ◌≤◌, ◌<◌, ◌≡◌, refl, ap, arith, Bool-cases, ◌⊎◌, inl, inr,
  ltb, leb, ◌==◌, if◌then◌else◌,
}
use rados_rs.Common.Masks.{low_bits, low_bits-lt, low_bits-suc, bit_and-mask, power_pos, power-le}
use rados_rs.Crush.Hash.{wrapping_sub, bit_length, mask_of, stable_mod}

bit_length-zero : (k : ℕ) → bit_length k 0 ≡ 0
unfolding bit_length
bit_length-zero zero = refl
bit_length-zero (suc k) = refl

bit_length-empty : (v : ℕ) → bit_length 0 v ≡ 0
unfolding bit_length
bit_length-empty v = refl

next_width :
    (b b' c : ℕ)
    → c ≤ 2 ^ b
    → 2 ^ b < 2 * c
    → suc c ≤ 2 ^ b'
    → 2 ^ b' < 2 * suc c
    → (b' ≡ b) ⊎ ((b' ≡ suc b) × (c ≡ 2 ^ b))
next_width b b' c h1 h2 h3 h4 = elim (Bool-cases (b' == b)) [
  | inl same ↦ inl (ground (arith, same))
  | inr other ↦ elim (Bool-cases (leb b' b)) [
    | inl lower ↦
        let below : suc b' ≤ b = ground (arith, other, lower) in
        absurd (omega (arith, power-le (suc b') b below))
    | inr higher ↦ elim (Bool-cases (b' == suc b)) [
      | inl next ↦
          let one_more : b' ≡ suc b = ground (arith, next) in
          let power : 2 ^ b' ≡ 2 ^ suc b = ap (λ k. 2 ^ k) one_more in
          inr (one_more, omega (arith, power))
      | inr far ↦
          let above : suc (suc b) ≤ b' = ground (arith, other, higher, far) in
          absurd (omega (arith, power-le (suc (suc b)) b' above))
    ]
  ]
]

bit_length-suc : (k v : ℕ) → bit_length (suc k) (suc v) ≡ suc (bit_length k (suc v / 2))
unfolding bit_length
bit_length-suc k v = elim (Bool-cases (suc v == 0)) [
  | inl empty ↦ absurd (ground (arith, empty))
  | inr full ↦ rw full refl
]

bit_length-le : (k v : ℕ) → bit_length k v ≤ k
unfolding bit_length
bit_length-le zero v = omega arith
bit_length-le (suc k) zero = omega arith
bit_length-le (suc k) (suc v) = rw (bit_length-suc k v) (omega (arith, bit_length-le k (suc v / 2)))

-- A number is below the power of its length, and at least half of it unless it is 0.
bit_length-above : (k v : ℕ) → v < 2 ^ k → v < 2 ^ bit_length k v
bit_length-above zero v h = rw (bit_length-empty v) h
bit_length-above (suc k) zero h = rw (bit_length-zero (suc k)) (omega arith)
bit_length-above (suc k) (suc v) h =
    rw (bit_length-suc k v) (omega (arith, bit_length-above k (suc v / 2) (omega arith)))

bit_length-below : (k v : ℕ) → 2 ^ bit_length k (suc v) ≤ 2 * suc v
bit_length-below zero v = rw (bit_length-empty (suc v)) (omega arith)
bit_length-below (suc k) zero = rw (bit_length-suc k 0, bit_length-zero k) (omega arith)
bit_length-below (suc k) (suc v) =
    let half : suc (suc v) / 2 ≡ suc (v / 2) = omega arith in
    rw (bit_length-suc k (suc v), half) (omega (arith, bit_length-below k (v / 2)))

-- The number of bits that a count of slots wants, one less than the count being given.
abbrev width : ℕ → ℕ
width c = bit_length 32 c

width-above : (c : ℕ) → suc c < 2 ^ 32 → suc c ≤ 2 ^ width c
width-above c h = bit_length-above 32 c (omega arith)

width-below : (c : ℕ) → 2 ^ width c < 2 * suc c
width-below zero = rw (bit_length-zero 32) (omega arith)
width-below (suc c) = omega (arith, bit_length-below 32 c)

mask_lem : (b : ℕ) → b ≤ 32 → wrapping_sub (if ltb b 32 then 2 ^ b else 0) 1 ≡ 2 ^ b - 1
mask_lem b h = elim (Bool-cases (ltb b 32)) [
  | inl narrow ↦
      let below : b ≤ 31 = ground (arith, narrow) in
      rw narrow (omega (arith, power-le b 31 below, power_pos b))
  | inr wide ↦ let whole : b ≡ 32 = ground (arith, wide) in rw wide (rw whole refl)
]

mask_of-width : (c : ℕ) → mask_of (suc c) ≡ 2 ^ width c - 1
unfolding mask_of
mask_of-width c =
    let less : suc c - 1 ≡ c = omega arith in rw less (mask_lem (width c) (bit_length-le 32 c))

-- The width of one slot more is the same, or one bit wider from a power of two on.
width-suc :
    (c : ℕ)
    → suc (suc c) < 2 ^ 32
    → (width (suc c) ≡ width c) ⊎ ((width (suc c) ≡ suc (width c)) × (suc c ≡ 2 ^ width c))
width-suc c h =
    next_width (width c) (width (suc c)) (suc c) (width-above c (omega arith)) (width-below c)
      (width-above (suc c) h) (width-below (suc c))

-- The slot of a value under a width.
abbrev slot : ℕ → ℕ → ℕ → ℕ
slot b count v = if ltb (low_bits b v) count then low_bits b v else low_bits (b - 1) v

half_mask : (b : ℕ) → (2 ^ b - 1) / 2 ≡ 2 ^ (b - 1) - 1
half_mask zero = refl
half_mask (suc b) = let less : suc b - 1 ≡ b = omega arith in rw less (omega (arith, power_pos b))

stable_mod-slot : (v c : ℕ) → stable_mod v (suc c) ≡ slot (width c) (suc c) v
unfolding stable_mod
stable_mod-slot v c = elim (Bool-cases (suc c == 0)) [
  | inl empty ↦ absurd (ground (arith, empty))
  | inr full ↦
      rw
        (
          full,
          mask_of-width c,
          half_mask (width c),
          bit_and-mask (width c) v,
          bit_and-mask (width c - 1) v,
        )
        refl
]

half_below : (b c v : ℕ) → 2 ^ b < 2 * c → low_bits (b - 1) v < c
half_below zero c v h = omega (arith, low_bits-lt 0 v)
half_below (suc b) c v h =
    let less : suc b - 1 ≡ b = omega arith in rw less (omega (arith, low_bits-lt b v))

slot-lt : (b c v : ℕ) → 2 ^ b < 2 * c → slot b c v < c
slot-lt b c v h = ground (arith, half_below b c v h)

slot-suc : (b c v : ℕ) → (slot b (suc c) v ≡ slot b c v) ⊎ (slot b (suc c) v ≡ c)
slot-suc b c v = ground arith

slot-wider :
    (b c v : ℕ) → c ≡ 2 ^ b → (slot (suc b) (suc c) v ≡ slot b c v) ⊎ (slot (suc b) (suc c) v ≡ c)
slot-wider b c v whole =
    let less : suc b - 1 ≡ b = omega arith in
    rw less (ground (arith, low_bits-lt b v, low_bits-suc b v))

-- With at least one slot, a value has a slot below their number.
pub stable_mod-lt : (value count : ℕ) → 0 < count → stable_mod value count < count
stable_mod-lt value zero h = absurd (omega arith)
stable_mod-lt value (suc c) h =
    rw (stable_mod-slot value c) (slot-lt (width c) (suc c) value (width-below c))

-- With one slot more, of a number below 2 ^ 32, each value stays in its slot or moves to the new one.
pub stable_mod-suc :
    (value count : ℕ)
    → 0 < count
    → count + 1 < 2 ^ 32
    → (stable_mod value (count + 1) ≡ stable_mod value count)
      ⊎ (stable_mod value (count + 1) ≡ count)
stable_mod-suc value zero h small = absurd (omega arith)
stable_mod-suc value (suc c) h small =
    let more : suc c + 1 ≡ suc (suc c) = omega arith in
    rw (more, stable_mod-slot value (suc c), stable_mod-slot value c)
      (elim (width-suc c (omega arith)) [
        | inl same ↦ rw same (slot-suc (width c) (suc c) value)
        | inr (wider, whole) ↦ rw wider (slot-wider (width c) (suc c) value whole)
      ])
