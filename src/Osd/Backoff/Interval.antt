-- ===== src/Osd/Backoff/Interval.antt =====
-- What `Backoff::contains` of src/osd/backoff.rs decides.
use Prim.Native.Nat.{Ordering}
use Prim.Native.Nat.Ordering.{lt, eq, gt}
use rados_rs.Common.{◌≡◌, refl, sym, ◌↔◌, ◌⊎◌, inl, inr, arith, true, not, ◌&&◌, if◌then◌else◌}
use rados_rs.Common.Order.{is_eq, is_lt, is_gt}
use rados_rs.Osd.HObject.{HObject}
use rados_rs.Osd.HObject.Order.{
  SortKey, sort_key, compare_key, compare_key-IsOrder, compare_hobject-sort_key,
}
use rados_rs.Osd.Backoff.{Backoff, contains}

-- A key in the interval that two keys bound: the one key where they are the same, else the keys
-- from the first, which is inside, up to the last, which is not.
pub data InInterval (low high key : SortKey) : Type 0 where
  only : low ≡ high → key ≡ low → InInterval low high key
  bound : low ≡ key → compare_key key high ≡ lt → InInterval low high key
  inside : compare_key low key ≡ lt → compare_key key high ≡ lt → InInterval low high key

Ordering-cases : (o : Ordering) → (o ≡ eq) ⊎ ((o ≡ lt) ⊎ (o ≡ gt))
Ordering-cases lt = inr (inl refl)
Ordering-cases eq = inl refl
Ordering-cases gt = inr (inr refl)

in_interval :
    (low high key : SortKey)
    → (if is_eq (compare_key low high)
        then is_eq (compare_key key low)
        else not (is_gt (compare_key low key)) && is_lt (compare_key key high))
      ≡ true
    → InInterval low high key
in_interval low high key h = elim (Ordering-cases (compare_key low high)) [
  | inl same ↦
      only (compare_key-IsOrder.eq_of_cmp low high same)
        (compare_key-IsOrder.eq_of_cmp key low (ground (arith, h, same)))
  | inr other ↦
      let below : compare_key key high ≡ lt = ground (arith, h, other) in
      elim (Ordering-cases (compare_key low key)) [
        | inl here ↦ bound (compare_key-IsOrder.eq_of_cmp low key here) below
        | inr (inl above) ↦ inside above below
        | inr (inr under) ↦ absurd (ground (arith, h, other, under))
      ]
]

interval_in :
    (low high key : SortKey)
    → InInterval low high key
    → (if is_eq (compare_key low high)
        then is_eq (compare_key key low)
        else not (is_gt (compare_key low key)) && is_lt (compare_key key high))
      ≡ true
interval_in low high key (only e f) = rw (f, sym e, compare_key-IsOrder.cmp_refl low) refl
interval_in low high key (bound e f) = simp (e, f, compare_key-IsOrder.cmp_refl key)
interval_in low high key (inside e f) = simp (compare_key-IsOrder.lt_trans low key high e f, e, f)

-- A backoff contains an object exactly when the object's sort key is in the interval of the sort
-- keys of the backoff's ends: the one key where the ends have the same, else from the first,
-- inclusive, to the last, exclusive.
pub contains-interval :
    (b : Backoff) (target : HObject)
    → (contains b target ≡ true) ↔ InInterval (sort_key b.first) (sort_key b.last) (sort_key target)
unfolding contains
contains-interval b target =
    rw
      (
        compare_hobject-sort_key b.first b.last,
        compare_hobject-sort_key target b.first,
        compare_hobject-sort_key b.first target,
        compare_hobject-sort_key target b.last,
      )
      (in_interval _ _ _, interval_in _ _ _)
