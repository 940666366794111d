-- ===== src/Msgr/Frame/Described.antt =====
-- The descriptors of a frame's segments in src/msgr/frame.rs, as the encoder accepts them.
use mathlib.Core.Path.{subst}
use native.Mathlib.Nat.{pow-suc}
use rados_rs.Common.{
  ℕ, zero, suc, ◌+◌, ◌^◌, ◌≤◌, ◌<◌, ◌≡◌, refl, sym, arith, true, false, not, ◌&&◌, List, [], ◌∷◌,
  map, All, length, ok, err, ensure, ensure-inv, bind-inv, ok-injective, ok_or, checked_add, to_u32,
  ltb, ◌==◌, if◌then◌else◌, Bool-cases, inl, inr,
}
use rados_rs.Msgr.Frame.{
  Limits, Segment, limit_exceeded, malformed, Descriptor, drop_empty_tail, normalized_segments,
  descriptors, valid_alignment, is_power_of_two, crc_size_loop, crc_size, preamble_size, is_empty,
  is_nil,
}
use rados_rs.Msgr.Frame.Read.{has_empty_tail}

abbrev pub describe : Segment → Descriptor
describe s = record { len = length s.content; alignment = s.alignment }

-- A descriptor's fields have their widths.
pub record IsDescriptor (d : Descriptor) : Type 0 where
  pub len : d.len < 2 ^ 32
  pub alignment : d.alignment < 2 ^ 16

pub descriptors-describe :
    (segments : List Segment) {ds : List Descriptor}
    → descriptors segments ≡ ok ds
    → (ds ≡ map describe segments) × All (λ s. length s.content < 2 ^ 32) segments
unfolding descriptors
descriptors-describe [] {ds} e = (sym (ok-injective e), tt)
descriptors-describe (s ∷ rest) {ds} e =
    let (n, h1, e1) = bind-inv (ok_or (to_u32 (length s.content)) limit_exceeded) _ e in
    let (others, h2, e2) = bind-inv (descriptors rest) _ e1 in
    let same : record { len = n; alignment = s.alignment } ∷ others ≡ ds = ok-injective e2 in
    let (a, b) = descriptors-describe rest h2 in
    let size : n ≡ length s.content = ground arith in
    (rw (sym same, size, a) refl, (ground arith, b))

power_pos : (k : ℕ) → 0 < 2 ^ k
power_pos zero = omega arith
power_pos (suc k) = omega (arith, pow-suc 2 k, power_pos k)

power_lem : (k n : ℕ) → is_power_of_two k n ≡ true → n < 2 ^ k
unfolding is_power_of_two
power_lem zero n h = cc
power_lem (suc k) n h = ground (arith, power_lem k n, pow-suc 2 k, power_pos k)

aligned_lem : (n : ℕ) → valid_alignment n ≡ true → n < 2 ^ 16
unfolding valid_alignment
aligned_lem n h = power_lem 16 n (ground (arith, h))

loop_aligned :
    (limits : Limits) (i total : ℕ) (ds : List Descriptor) {t : ℕ}
    → crc_size_loop limits i total ds ≡ ok t
    → All (λ d. d.alignment < 2 ^ 16) ds
unfolding crc_size_loop
loop_aligned limits i total [] e = tt
loop_aligned limits i total (d ∷ ds) e =
    let (tt, h1, e1) =
      bind-inv (ensure (not (ltb limits.max_segment_bytes d.len)) limit_exceeded) _ e in
    let (tt, h2, e2) = bind-inv (ensure (valid_alignment d.alignment) malformed) _ e1 in
    let (a, h3, e3) = bind-inv (ok_or (checked_add total d.len) limit_exceeded) _ e2 in
    let (b, h4, e4) =
      bind-inv (ok_or (checked_add a (if i == 0 && ltb 0 d.len then 4 else 0)) limit_exceeded) _
        e3 in
    (
      aligned_lem d.alignment (ensure-inv (valid_alignment d.alignment) malformed h2),
      loop_aligned limits (i + 1) b ds e4,
    )

pub crc_size-aligned :
    (limits : Limits) (ds : List Descriptor) {t : ℕ}
    → crc_size ds limits ≡ ok t
    → All (λ d. d.alignment < 2 ^ 16) ds
unfolding crc_size
crc_size-aligned limits ds e =
    let (sum, h1, e1) = bind-inv (crc_size_loop limits 0 preamble_size ds) _ e in
    loop_aligned limits 0 preamble_size ds h1

pub describe-IsDescriptor :
    (segments : List Segment)
    → All (λ s. length s.content < 2 ^ 32) segments
    → All (λ d. d.alignment < 2 ^ 16) (map describe segments)
    → All IsDescriptor (map describe segments)
describe-IsDescriptor [] h k = tt
describe-IsDescriptor (s ∷ rest) (h, hs) (k, ks) =
    (record { len = h; alignment = k }, describe-IsDescriptor rest hs ks)

cut_lem :
    (d : Descriptor) (s : Segment) (kept : List Segment)
    → has_empty_tail (describe s ∷ map describe kept) ≡ false
    → has_empty_tail (d ∷ map describe (if is_nil kept && is_empty s then [] else s ∷ kept)) ≡ false
unfolding has_empty_tail
cut_lem d s [] h = elim (Bool-cases (length s.content == 0)) [
  | inl empty ↦ rw empty refl
  | inr full ↦ rw full full
]
cut_lem d s (k ∷ kept) h = h

tail_lem :
    (d : Descriptor) (rest : List Segment)
    → has_empty_tail (d ∷ map describe (drop_empty_tail rest)) ≡ false
unfolding has_empty_tail drop_empty_tail
tail_lem d [] = refl
tail_lem d (s ∷ rest) = cut_lem d s (drop_empty_tail rest) (tail_lem (describe s) rest)

pub tail_length : (rest : List Segment) → length (drop_empty_tail rest) ≤ length rest
unfolding drop_empty_tail
tail_length [] = omega arith
tail_length (s ∷ rest) = ground (arith, tail_length rest)

-- The segments that are written: one to four, the last of several not empty.
pub record AreNormal (segments : List Segment) : Type 0 where
  pub some_left : 1 ≤ length segments
  pub most : length segments ≤ 4
  pub full_tail : has_empty_tail (map describe segments) ≡ false

pub normalized-AreNormal :
    (given : List Segment) {segments : List Segment}
    → normalized_segments given ≡ ok segments
    → AreNormal segments
unfolding normalized_segments
normalized-AreNormal [] e = cc
normalized-AreNormal (s ∷ rest) {segments} e = elim (Bool-cases (ltb 4 (length (s ∷ rest)))) [
  | inl many ↦ let never : err malformed ≡ ok segments = (rw many at e) in cc
  | inr few ↦
      let made : s ∷ drop_empty_tail rest ≡ segments = ok-injective (rw few at e) in
      subst AreNormal made (record {
        some_left = omega arith;
        most = ground (arith, few, tail_length rest);
        full_tail = tail_lem (describe s) rest;
      })
]
