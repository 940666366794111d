-- ===== src/Common/Order.antt =====
-- Comparisons that give an `Ordering`, as the trait `Ord` of Rust's library does: of numbers,
-- signed numbers, Booleans, slices and tuples.
use Prim.Native.Nat.{◌+◌, compare, Ordering}
use Prim.Native.Nat.Ordering.{lt, eq, gt}
use mathlib.Core.Path.{◌≡◌, refl, ap}
use mathlib.Core.Bool.{Bool, true, false}
use mathlib.Core.Option.{Option, none, some}
use mathlib.Core.List.{List, [], ◌∷◌}
use native.Mathlib.Omega.{arith}
use rados_rs.Common.Int.{ℤ, pos, negsuc, pos_part, neg_part}

-- What a total order asks of its comparison.
pub record IsOrder {ℓ} {A : Type ℓ} (cmp : A → A → Ordering) : Type ℓ where
  pub cmp_refl : (a : A) → cmp a a ≡ eq
  pub eq_of_cmp : (a b : A) → cmp a b ≡ eq → a ≡ b
  pub lt_of_gt : (a b : A) → cmp a b ≡ gt → cmp b a ≡ lt
  pub gt_of_lt : (a b : A) → cmp a b ≡ lt → cmp b a ≡ gt
  pub lt_trans : (a b c : A) → cmp a b ≡ lt → cmp b c ≡ lt → cmp a c ≡ lt

pub compare-IsOrder : IsOrder compare
compare-IsOrder = ground arith

-- `Ordering::then_with`, whose second comparison decides where the first is `Equal`.
abbrev pub then_with : Ordering → Ordering → Ordering
then_with eq second = second
then_with first _ = first

abbrev pub is_eq : Ordering → Bool
is_eq eq = true
is_eq _ = false

abbrev pub is_lt : Ordering → Bool
is_lt lt = true
is_lt _ = false

abbrev pub is_gt : Ordering → Bool
is_gt gt = true
is_gt _ = false

abbrev pub compare_ℤ : ℤ → ℤ → Ordering
compare_ℤ a b = compare (pos_part a + neg_part b) (pos_part b + neg_part a)

abbrev pub compare_bool : Bool → Bool → Ordering
compare_bool false true = lt
compare_bool true false = gt
compare_bool _ _ = eq

pub compare_ℤ-eq : (a b : ℤ) → compare_ℤ a b ≡ eq → a ≡ b
compare_ℤ-eq (pos a) (pos b) h = ground arith
compare_ℤ-eq (pos a) (negsuc b) h = ground arith
compare_ℤ-eq (negsuc a) (pos b) h = ground arith
compare_ℤ-eq (negsuc a) (negsuc b) h = ground arith

pub compare_ℤ-IsOrder : IsOrder compare_ℤ
compare_ℤ-IsOrder = record {
  cmp_refl = λ a. ground arith;
  eq_of_cmp = compare_ℤ-eq;
  lt_of_gt = λ a b h. ground arith;
  gt_of_lt = λ a b h. ground arith;
  lt_trans = λ a b c h k. ground arith;
}

module _ {ℓ κ} {A : Type ℓ} {B : Type κ} (cmp : A → A → Ordering) (cmp' : B → B → Ordering) where
  abbrev pub lex : A × B → A × B → Ordering
  lex x y = then_with (cmp x.0 y.0) (cmp' x.1 y.1)

  pub lex-IsOrder : IsOrder cmp → IsOrder cmp' → IsOrder lex
  lex-IsOrder a b = record {
    cmp_refl = λ x. simp (a.cmp_refl, b.cmp_refl);
    eq_of_cmp = λ x y h. ground (arith, a.eq_of_cmp x.0 y.0, b.eq_of_cmp x.1 y.1);
    lt_of_gt = λ x y h.
        ground (arith, a.eq_of_cmp x.0 y.0, a.lt_of_gt x.0 y.0, a.cmp_refl, b.lt_of_gt x.1 y.1);
    gt_of_lt = λ x y h.
        ground (arith, a.eq_of_cmp x.0 y.0, a.gt_of_lt x.0 y.0, a.cmp_refl, b.gt_of_lt x.1 y.1);
    lt_trans = λ x y z h k.
        grind (arith, a.eq_of_cmp x.0 y.0, a.eq_of_cmp y.0 z.0, a.lt_trans, b.lt_trans);
  }

module _ {ℓ} {A : Type ℓ} (cmp : A → A → Ordering) where
  -- slices
  abbrev pub compare_list : List A → List A → Ordering
  compare_list [] [] = eq
  compare_list [] (y ∷ ys) = lt
  compare_list (x ∷ xs) [] = gt
  compare_list (x ∷ xs) (y ∷ ys) = then_with (cmp x y) (compare_list xs ys)

  -- an order with a top element
  abbrev pub compare_top : Option A → Option A → Ordering
  compare_top none none = eq
  compare_top none (some b) = gt
  compare_top (some a) none = lt
  compare_top (some a) (some b) = cmp a b

  module _ (o : IsOrder cmp) where
    list_refl : (xs : List A) → compare_list xs xs ≡ eq
    list_refl [] = refl
    list_refl (x ∷ xs) = simp (o.cmp_refl x, list_refl xs)

    list_eq : (xs ys : List A) → compare_list xs ys ≡ eq → xs ≡ ys
    list_eq [] [] h = refl
    list_eq [] (y ∷ ys) h = cc
    list_eq (x ∷ xs) [] h = cc
    list_eq (x ∷ xs) (y ∷ ys) h = ground (arith, o.eq_of_cmp x y, list_eq xs ys)

    list_lt : (xs ys : List A) → compare_list xs ys ≡ gt → compare_list ys xs ≡ lt
    list_lt [] [] h = cc
    list_lt [] (y ∷ ys) h = cc
    list_lt (x ∷ xs) [] h = refl
    list_lt (x ∷ xs) (y ∷ ys) h =
        ground (arith, o.eq_of_cmp x y, o.lt_of_gt x y, o.cmp_refl, list_lt xs ys)

    list_gt : (xs ys : List A) → compare_list xs ys ≡ lt → compare_list ys xs ≡ gt
    list_gt [] [] h = cc
    list_gt [] (y ∷ ys) h = refl
    list_gt (x ∷ xs) [] h = cc
    list_gt (x ∷ xs) (y ∷ ys) h =
        ground (arith, o.eq_of_cmp x y, o.gt_of_lt x y, o.cmp_refl, list_gt xs ys)

    list_trans :
        (xs ys zs : List A)
        → compare_list xs ys ≡ lt
        → compare_list ys zs ≡ lt
        → compare_list xs zs ≡ lt
    list_trans [] [] zs h k = cc
    list_trans [] (y ∷ ys) [] h k = cc
    list_trans [] (y ∷ ys) (z ∷ zs) h k = refl
    list_trans (x ∷ xs) [] zs h k = cc
    list_trans (x ∷ xs) (y ∷ ys) [] h k = cc
    list_trans (x ∷ xs) (y ∷ ys) (z ∷ zs) h k =
        grind (arith, o.eq_of_cmp x y, o.eq_of_cmp y z, o.lt_trans, list_trans xs ys zs)

    pub compare_list-IsOrder : IsOrder compare_list
    compare_list-IsOrder = record {
      cmp_refl = list_refl;
      eq_of_cmp = list_eq;
      lt_of_gt = list_lt;
      gt_of_lt = list_gt;
      lt_trans = list_trans;
    }

    top_refl : (x : Option A) → compare_top x x ≡ eq
    top_refl none = refl
    top_refl (some a) = o.cmp_refl a

    top_eq : (x y : Option A) → compare_top x y ≡ eq → x ≡ y
    top_eq none none h = refl
    top_eq none (some b) h = cc
    top_eq (some a) none h = cc
    top_eq (some a) (some b) h = ap some (o.eq_of_cmp a b h)

    top_trans :
        (x y z : Option A) → compare_top x y ≡ lt → compare_top y z ≡ lt → compare_top x z ≡ lt
    top_trans x none z h k = ground arith
    top_trans none (some b) z h k = cc
    top_trans (some a) (some b) none h k = refl
    top_trans (some a) (some b) (some c) h k = o.lt_trans a b c h k

    pub compare_top-IsOrder : IsOrder compare_top
    compare_top-IsOrder = record {
      cmp_refl = top_refl;
      eq_of_cmp = top_eq;
      lt_of_gt = λ x y h. grind (arith, o.lt_of_gt);
      gt_of_lt = λ x y h. grind (arith, o.gt_of_lt);
      lt_trans = top_trans;
    }

-- What is left of an order where different values may compare as equal.
pub record IsWeakOrder {ℓ} {A : Type ℓ} (cmp : A → A → Ordering) : Type ℓ where
  pub cmp_refl : (a : A) → cmp a a ≡ eq
  pub eq_left : (a b c : A) → cmp a b ≡ eq → cmp a c ≡ cmp b c
  pub lt_of_gt : (a b : A) → cmp a b ≡ gt → cmp b a ≡ lt
  pub gt_of_lt : (a b : A) → cmp a b ≡ lt → cmp b a ≡ gt
  pub lt_trans : (a b c : A) → cmp a b ≡ lt → cmp b c ≡ lt → cmp a c ≡ lt

pub keyed-IsWeakOrder {ℓ κ} :
    {A : Type ℓ} {K : Type κ} (cmp : K → K → Ordering) (key : A → K)
    → IsOrder cmp
    → IsWeakOrder (λ a b. cmp (key a) (key b))
keyed-IsWeakOrder cmp key o = record {
  cmp_refl = λ a. o.cmp_refl (key a);
  eq_left = λ a b c h. ap (λ k. cmp k (key c)) (o.eq_of_cmp (key a) (key b) h);
  lt_of_gt = λ a b. o.lt_of_gt (key a) (key b);
  gt_of_lt = λ a b. o.gt_of_lt (key a) (key b);
  lt_trans = λ a b c. o.lt_trans (key a) (key b) (key c);
}
