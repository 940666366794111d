-- ===== src/Osd/HObject/Order.antt =====
-- The order of hashed objects that `compare_hobject` of src/osd/backoff.rs gives, against the
-- lexicographic order of their sort keys.
use Prim.Native.Nat.{compare, Ordering}
use Prim.Native.Nat.Ordering.{lt, eq, gt}
use mathlib.Core.Path.{subst}
use native.Mathlib.Nat.{pow-suc}
use rados_rs.Common.{
  ℕ, zero, suc, ◌+◌, ◌*◌, ◌/◌, ◌%◌, ◌^◌, ◌<◌, ◌≡◌, refl, ap, sym, ◌∙◌, arith, true, false, Option,
  none, some, ◌↔◌, List, if◌then◌else◌, inl, inr, Bool-cases, ◌&&◌,
}
use rados_rs.Common.Int.{ℤ}
use rados_rs.Common.Order.{
  IsOrder, lex, lex-IsOrder, compare-IsOrder, compare_ℤ, compare_ℤ-IsOrder, compare_list-IsOrder,
  compare_top, compare_top-IsOrder, then_with, IsWeakOrder, keyed-IsWeakOrder,
}
use rados_rs.Osd.HObject.{
  HObject, reverse_bits, effective_key, compare_bytes, compare_hobject, is_empty,
}

-- What decides the place of an object: nothing for the maximum, else its pool, the bits of its hash
-- the lowest first, its namespace, its effective key, its name and its snapshot.
abbrev pub Place : Type 0
Place = ℤ × (ℕ × (List ℕ × (List ℕ × (List ℕ × ℕ))))

abbrev pub SortKey : Type 0
SortKey = Option Place

abbrev place : HObject → Place
place o =
    (o.pool, (reverse_bits 32 o.hash, (o.namespace, (effective_key o, (o.object, o.snapshot)))))

unfoldable pub sort_key : HObject → SortKey
sort_key o = if o.max then none else some (place o)

unfoldable pub compare_key : SortKey → SortKey → Ordering
compare_key = compare_top (
    lex compare_ℤ (lex compare (lex compare_bytes (lex compare_bytes (lex compare_bytes compare)))))

bytes-IsOrder : IsOrder compare_bytes
bytes-IsOrder = compare_list-IsOrder compare compare-IsOrder

pub compare_key-IsOrder : IsOrder compare_key
unfolding compare_key
compare_key-IsOrder =
    let names = lex-IsOrder compare_bytes compare bytes-IsOrder compare-IsOrder in
    let keys = lex-IsOrder compare_bytes _ bytes-IsOrder names in
    let spaces = lex-IsOrder compare_bytes _ bytes-IsOrder keys in
    let hashes = lex-IsOrder compare _ compare-IsOrder spaces in
    compare_top-IsOrder _ (lex-IsOrder compare_ℤ _ compare_ℤ-IsOrder hashes)

then_assoc : (a b c : Ordering) → then_with (then_with a b) c ≡ then_with a (then_with b c)
then_assoc lt b c = refl
then_assoc eq b c = refl
then_assoc gt b c = refl

then_twice : (a b : Ordering) → then_with a (then_with a b) ≡ then_with a b
then_twice lt b = refl
then_twice eq b = refl
then_twice gt b = refl

-- Skipping the comparison of keys that are both empty changes nothing, since the names decide next.
keys_lem :
    (a b : HObject) (rest : Ordering)
    → then_with
        (if is_empty a.key && is_empty b.key
          then eq
          else compare_bytes (effective_key a) (effective_key b))
        (then_with (compare_bytes a.object b.object) rest)
      ≡ then_with
          (compare_bytes (effective_key a) (effective_key b))
          (then_with (compare_bytes a.object b.object) rest)
unfolding effective_key
keys_lem a b rest = elim (Bool-cases (is_empty a.key)) [
  | inl ha ↦ elim (Bool-cases (is_empty b.key)) [
    | inl hb ↦ rw (ha, hb) (sym (then_twice (compare_bytes a.object b.object) rest))
    | inr hb ↦ rw (ha, hb) refl
  ]
  | inr ha ↦ rw ha refl
]

-- Comparing two hashed objects is comparing their sort keys lexicographically, with the maximum
-- last.
pub compare_hobject-sort_key :
    (a b : HObject) → compare_hobject a b ≡ compare_key (sort_key a) (sort_key b)
unfolding compare_hobject compare_key sort_key
compare_hobject-sort_key a b = elim (Bool-cases a.max) [
  | inl ha ↦ elim (Bool-cases b.max) [ inl hb ↦ rw (ha, hb) refl | inr hb ↦ rw (ha, hb) refl ]
  | inr ha ↦ elim (Bool-cases b.max) [
    | inl hb ↦ rw (ha, hb) refl
    | inr hb ↦ rw (ha, hb) (simp (then_assoc, keys_lem a b))
  ]
]

-- The comparison is a weak order: reflexive, transitive, with opposite results for opposite
-- arguments, and the same for objects that it holds to be equal.
pub compare_hobject-IsWeakOrder : IsWeakOrder compare_hobject
compare_hobject-IsWeakOrder =
    let same : (λ a b. compare_key (sort_key a) (sort_key b)) ≡ compare_hobject =
      (λ i a b. sym (compare_hobject-sort_key a b) i) in
    subst IsWeakOrder same (keyed-IsWeakOrder compare_key sort_key compare_key-IsOrder)

digits_lem :
    (m x y r s : ℕ) → x < 2 → y < 2 → r < m → s < m → x * m + r ≡ y * m + s → (x ≡ y) × (r ≡ s)
digits_lem m zero zero r s hx hy hr hs e = (refl, omega arith)
digits_lem m zero (suc zero) r s hx hy hr hs e = absurd (omega arith)
digits_lem m (suc zero) zero r s hx hy hr hs e = absurd (omega arith)
digits_lem m (suc zero) (suc zero) r s hx hy hr hs e = (refl, omega arith)
digits_lem m (suc (suc x)) y r s hx hy hr hs e = absurd (omega arith)
digits_lem m x (suc (suc y)) r s hx hy hr hs e = absurd (omega arith)

digit_lt : (m x r : ℕ) → x < 2 → r < m → x * m + r < 2 * m
digit_lt m zero r hx hr = omega arith
digit_lt m (suc zero) r hx hr = omega arith
digit_lt m (suc (suc x)) r hx hr = absurd (omega arith)

reverse_bits-lt : (k v : ℕ) → reverse_bits k v < 2 ^ k
unfolding reverse_bits
reverse_bits-lt zero v = omega arith
reverse_bits-lt (suc k) v = omega (
  arith,
  pow-suc 2 k,
  digit_lt (2 ^ k) (v % 2) (reverse_bits k (v / 2)) (omega arith) (reverse_bits-lt k (v / 2)),
)

-- Words with the same reversal are the same.
reverse_bits-injective :
    (k a b : ℕ) → a < 2 ^ k → b < 2 ^ k → reverse_bits k a ≡ reverse_bits k b → a ≡ b
unfolding reverse_bits
reverse_bits-injective zero a b ha hb e = omega arith
reverse_bits-injective (suc k) a b ha hb e =
    let (low, high) =
      digits_lem (2 ^ k) (a % 2) (b % 2) _ _ (omega arith) (omega arith) (reverse_bits-lt k (a / 2))
        (reverse_bits-lt k (b / 2)) e in
    let rest =
      reverse_bits-injective k (a / 2) (b / 2) (omega (arith, pow-suc 2 k))
        (omega (arith, pow-suc 2 k)) high in
    omega (arith, low, rest)

-- Two objects have the same place: both are the maximum, or neither is and they agree in all fields,
-- where an empty key stands for the name.
pub data SamePlace (a b : HObject) : Type 0 where
  at_maximum : a.max ≡ true → b.max ≡ true → SamePlace a b
  at_object :
      a.max ≡ false
      → b.max ≡ false
      → a.pool ≡ b.pool
      → a.hash ≡ b.hash
      → a.namespace ≡ b.namespace
      → effective_key a ≡ effective_key b
      → a.object ≡ b.object
      → a.snapshot ≡ b.snapshot
      → SamePlace a b

same_key : (a b : HObject) → SamePlace a b → sort_key a ≡ sort_key b
unfolding sort_key
same_key a b (at_maximum ha hb) = rw (ha, hb) refl
same_key a b (at_object ha hb pool hash space key object snapshot) =
    simp (ha, hb, pool, hash, space, key, object, snapshot)

from_some : Place → SortKey → Place
from_some t none = t
from_some t (some t') = t'

from_key :
    (a b : HObject) → a.hash < 2 ^ 32 → b.hash < 2 ^ 32 → sort_key a ≡ sort_key b → SamePlace a b
unfolding sort_key from_some
from_key a b wa wb e = elim (Bool-cases a.max) [
  | inl ha ↦ elim (Bool-cases b.max) [
    | inl hb ↦ at_maximum ha hb
    | inr hb ↦ let never : ◌≡◌ {A = SortKey} none (some (place b)) = (simp (ha, hb) at e) in cc
  ]
  | inr ha ↦ elim (Bool-cases b.max) [
    | inl hb ↦ let never : some (place a) ≡ none = (simp (ha, hb) at e) in cc
    | inr hb ↦
        let some_place : some (place a) ≡ some (place b) = (simp (ha, hb) at e) in
        let same : place a ≡ place b = ap (λ k. from_some (place a) k) some_place in
        at_object ha hb (ap (λ t. t.0) same)
          (reverse_bits-injective 32 a.hash b.hash wa wb (ap (λ t. t.1.0) same))
          (ap (λ t. t.1.1.0) same) (ap (λ t. t.1.1.1.0) same) (ap (λ t. t.1.1.1.1.0) same)
          (ap (λ t. t.1.1.1.1.1) same)
  ]
]

-- Two objects whose hashes have 32 bits compare as equal exactly when they have the same place:
-- when both are the maximum, or neither is and they agree in pool, hash, namespace, name, snapshot
-- and key, an empty key standing for the name.
pub compare_hobject-equal :
    (a b : HObject) → a.hash < 2 ^ 32 → b.hash < 2 ^ 32 → (compare_hobject a b ≡ eq) ↔ SamePlace a b
compare_hobject-equal a b wa wb = (
  λ h.
      from_key a b wa wb
        (compare_key-IsOrder.eq_of_cmp _ _ (sym (compare_hobject-sort_key a b) ∙ h)),
  λ p.
      compare_hobject-sort_key a b
      ∙ ap (λ k. compare_key k (sort_key b)) (same_key a b p)
      ∙ compare_key-IsOrder.cmp_refl (sort_key b),
)
