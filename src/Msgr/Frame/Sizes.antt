-- ===== src/Msgr/Frame/Sizes.antt =====
-- The size of a frame that `CrcCodec::encode` of src/msgr/frame.rs writes.
use mathlib.Core.Path.{subst}
use rados_rs.Common.{
  ℕ, zero, suc, ◌+◌, ◌*◌, ◌≤◌, ◌≡◌, refl, sym, ap, ◌∙◌, arith, Bool, true, false, not, List, [],
  ◌∷◌, ◌++◌, length, length-append, ok, ensure, ensure-inv, bind-inv, ok-injective, ok_or,
  checked_add, to_u32, ltb, ◌==◌, ◌&&◌, if◌then◌else◌, Bool-cases, inl, inr, u64_max,
}
use rados_rs.Wire.Bytes.{length-le_bytes}
use rados_rs.Msgr.Frame.{
  Tag, ack, tag_code, Limits, Segment, Frame, limit_exceeded, malformed, Descriptor,
  normalized_segments, descriptors, preamble_size, valid_alignment, crc_size_loop, crc_size,
}
use rados_rs.Msgr.Frame.Crc.{
  slots, encode_preamble, first_segment, contents, checksums, epilogue, body, encode,
}

added_lem : (a b : ℕ) {c : ℕ} → ok_or (checked_add a b) limit_exceeded ≡ ok c → c ≡ a + b
added_lem a b {c} e = ground arith

-- The bytes that descriptors announce.
announced : List Descriptor → ℕ
announced [] = 0
announced (d ∷ ds) = d.len + announced ds

-- What one descriptor adds.
abbrev check_size : ℕ → Descriptor → ℕ
check_size i d = if i == 0 && ltb 0 d.len then 4 else 0

module _ (limits : Limits) where
  -- One round of the loop.
  crc_size_loop-step :
      (i total : ℕ) (d : Descriptor) (ds : List Descriptor) {t : ℕ}
      → crc_size_loop limits i total (d ∷ ds) ≡ ok t
      → crc_size_loop limits (i + 1) (total + d.len + check_size i d) ds ≡ ok t
  unfolding crc_size_loop
  crc_size_loop-step i total d ds e =
      let (tt, h1, e1) =
        bind-inv (ensure (not (ltb limits.max_segment_bytes d.len)) limit_exceeded) _ e in
      let (tt, h2, e2) = bind-inv (ensure (valid_alignment d.alignment) malformed) _ e1 in
      let (a, h3, e3) = bind-inv (ok_or (checked_add total d.len) limit_exceeded) _ e2 in
      let (b, h4, e4) = bind-inv (ok_or (checked_add a (check_size i d)) limit_exceeded) _ e3 in
      let same : b ≡ total + d.len + check_size i d =
        omega (arith, added_lem total d.len h3, added_lem a (check_size i d) h4) in
      rw same at e4

  crc_size_loop-later :
      (i total : ℕ) (ds : List Descriptor) {t : ℕ}
      → (i == 0) ≡ false
      → crc_size_loop limits i total ds ≡ ok t
      → t ≡ total + announced ds
  unfolding crc_size_loop announced
  crc_size_loop-later i total [] {t} h e =
      let same : total ≡ t = ok-injective e in omega (arith, same)
  crc_size_loop-later i total (d ∷ ds) {t} h e =
      let nothing_added : check_size i d ≡ 0 = rw h refl in
      omega (
        arith,
        nothing_added,
        crc_size_loop-later (i + 1) (total + d.len + check_size i d) ds {t = t} (ground arith)
            (crc_size_loop-step i total d ds e),
      )

  crc_size_loop-first :
      (total : ℕ) (d : Descriptor) (ds : List Descriptor) {t : ℕ}
      → crc_size_loop limits 0 total (d ∷ ds) ≡ ok t
      → t ≡ total + d.len + check_size 0 d + announced ds
  crc_size_loop-first total d ds {t} e =
      crc_size_loop-later 1 (total + d.len + check_size 0 d) ds {t = t} refl
        (crc_size_loop-step 0 total d ds e)

module _ (crc32c_append : ℕ → List ℕ → ℕ) where
  pub length-slots : (k : ℕ) (ds : List Descriptor) → length (slots crc32c_append k ds) ≡ k * 6
  unfolding slots
  length-slots zero ds = refl
  length-slots (suc k) [] = omega (arith, length-slots k [])
  length-slots (suc k) (d ∷ ds) =
      simp (length-append, length-le_bytes, length-slots k ds) (omega arith)

  pub length-encode_preamble :
      (tag : Tag) (ds : List Descriptor)
      → length (encode_preamble crc32c_append tag ds) ≡ preamble_size
  unfolding encode_preamble
  length-encode_preamble tag ds = simp (length-append, length-le_bytes, length-slots 4 ds)

  module _ (with_data_crc : Bool) where
    pub length-checksums :
        (k : ℕ) (segments : List Segment)
        → length (checksums crc32c_append with_data_crc k segments) ≡ k * 4
    unfolding checksums
    length-checksums zero segments = refl
    length-checksums (suc k) [] =
        simp (length-append, length-le_bytes, length-checksums k []) (omega arith)
    length-checksums (suc k) (s ∷ rest) =
        simp (length-append, length-le_bytes, length-checksums k rest) (omega arith)

    length-epilogue :
        (segments : List Segment)
        → length (epilogue crc32c_append with_data_crc segments)
          ≡ (if ltb 0 (length segments) then 13 else 0)
    unfolding epilogue
    length-epilogue [] = refl
    length-epilogue (s ∷ rest) =
        let long : ltb 0 (length (s ∷ rest)) ≡ true = ground arith in
        rw long (simp (length-checksums 3 (s ∷ rest)))

    length-first_segment :
        (s : Segment)
        → length (first_segment crc32c_append with_data_crc s)
          ≡ length s.content + (if ltb 0 (length s.content) then 4 else 0)
    unfolding first_segment
    length-first_segment s = elim (Bool-cases (length s.content == 0)) [
      | inl empty ↦ rw empty (ground arith)
      | inr full ↦ rw full (simp (length-append, length-le_bytes) (ground arith))
    ]

    length-body :
        (s : Segment) (rest : List Segment)
        → length (body crc32c_append with_data_crc (s ∷ rest))
          ≡ length s.content
            + (if ltb 0 (length s.content) then 4 else 0)
            + length (contents crc32c_append rest)
            + (if ltb 0 (length rest) then 13 else 0)
    unfolding body
    length-body s rest =
        simp (length-append, length-first_segment s, length-epilogue rest) (omega arith)

  descriptors_lem :
      (segments : List Segment) {ds : List Descriptor}
      → descriptors segments ≡ ok ds
      → (announced ds ≡ length (contents crc32c_append segments)) × (length ds ≡ length segments)
  unfolding descriptors announced contents
  descriptors_lem [] {ds} e = let same : [] ≡ ds = ok-injective e in rw (sym same) (refl, refl)
  descriptors_lem (s ∷ rest) {ds} e =
      let (n, h1, e1) = bind-inv (ok_or (to_u32 (length s.content)) limit_exceeded) _ e in
      let (others, h2, e2) = bind-inv (descriptors rest) _ e1 in
      let same : record { len = n; alignment = s.alignment } ∷ others ≡ ds = ok-injective e2 in
      let (a, b) = descriptors_lem rest h2 in
      let size : n ≡ length s.content = ground arith in
      rw (sym same) (
        omega (arith, a, size, length-append s.content (contents crc32c_append rest)),
        omega (arith, b),
      )

-- What the size check adds after the segments, and what it refuses.
finished :
    (limits : Limits) (ds : List Descriptor) {total : ℕ}
    → crc_size ds limits ≡ ok total
    → (sum : ℕ) × (crc_size_loop limits 0 preamble_size ds ≡ ok sum)
      × (total ≡ sum + (if ltb 1 (length ds) then 13 else 0))
      × (total ≤ limits.max_frame_bytes)
unfolding crc_size
finished limits ds {total} e =
    let (sum, h1, e1) = bind-inv (crc_size_loop limits 0 preamble_size ds) _ e in
    let (whole, h2, e2) =
      bind-inv (if ltb 1 (length ds) then ok_or (checked_add sum 13) limit_exceeded else ok sum) _
        e1 in
    let (tt, h3, e3) =
      bind-inv (ensure (not (ltb limits.max_frame_bytes whole)) limit_exceeded) _ e2 in
    let (tt, h4, e4) = bind-inv (ensure (not (ltb u64_max whole)) limit_exceeded) _ e3 in
    let same : whole ≡ total = ok-injective e4 in
    let within : not (ltb limits.max_frame_bytes whole) ≡ true = ensure-inv _ limit_exceeded h3 in
    let added : whole ≡ sum + (if ltb 1 (length ds) then 13 else 0) = ground (arith, h2) in
    (sum, h1, omega (arith, same, added), ground (arith, same, within))

module _ (crc32c_append : ℕ → List ℕ → ℕ) (with_data_crc : Bool) (limits : Limits) where
  sized :
      (segments : List Segment) {ds : List Descriptor} {total : ℕ}
      → descriptors segments ≡ ok ds
      → crc_size ds limits ≡ ok total
      → preamble_size + length (body crc32c_append with_data_crc segments) ≡ total
  unfolding descriptors body crc_size_loop
  sized [] {ds} {total} hd hs =
      let none_left : [] ≡ ds = ok-injective hd in
      let (sum, h1, h2, h3) = finished limits [] {total = total} (rw (sym none_left) at hs) in
      let start : preamble_size ≡ sum = ok-injective h1 in omega (arith, start, h2)
  sized (s ∷ rest) {ds} {total} hd hs =
      let (n, a1, e1) = bind-inv (ok_or (to_u32 (length s.content)) limit_exceeded) _ hd in
      let (others, a2, e2) = bind-inv (descriptors rest) _ e1 in
      let d : Descriptor = record { len = n; alignment = s.alignment } in
      let same : d ∷ others ≡ ds = ok-injective e2 in
      let size : n ≡ length s.content = ground arith in
      let (sum, h1, h2, h3) = finished limits (d ∷ others) {total = total} (rw (sym same) at hs) in
      let (content, count) = descriptors_lem crc32c_append rest a2 in
      let first = crc_size_loop-first limits preamble_size d others {t = sum} h1 in
      let written = length-body crc32c_append with_data_crc s rest in
      ground (arith, h2, content, count, first, written, size)

  laid_out :
      (tag : Tag) (segments : List Segment) {ds : List Descriptor} {total : ℕ}
      → descriptors segments ≡ ok ds
      → crc_size ds limits ≡ ok total
      → length (encode_preamble crc32c_append tag ds ++ body crc32c_append with_data_crc segments)
        ≡ total
  laid_out tag segments {ds} hd hs = omega (
    arith,
    length-append (encode_preamble crc32c_append tag ds)
        (body crc32c_append with_data_crc segments),
    length-encode_preamble crc32c_append tag ds,
    sized segments hd hs,
  )

  -- A frame that the encoder accepts, with or without checksums of its data, takes no more bytes
  -- than the limit of a frame, and exactly as many as the size check of its descriptors says.
  pub encode-fits :
      (frame : Frame) {w : List ℕ}
      → encode crc32c_append with_data_crc frame limits ≡ ok w
      → (length w ≤ limits.max_frame_bytes)
        × ((segments : List Segment) × (ds : List Descriptor) × (normalized_segments frame.segments
              ≡ ok segments)
            × (descriptors segments ≡ ok ds)
            × (crc_size ds limits ≡ ok (length w)))
  unfolding encode
  encode-fits frame {w} e =
      let (segments, h1, e1) = bind-inv (normalized_segments frame.segments) _ e in
      let (tt, h2, e2) =
        bind-inv (ensure (not (ltb (tag_code ack) (tag_code frame.tag))) malformed) _ e1 in
      let (ds, h3, e3) = bind-inv (descriptors segments) _ e2 in
      let (total, h4, e4) = bind-inv (crc_size ds limits) _ e3 in
      let same : encode_preamble crc32c_append frame.tag ds
            ++ body crc32c_append with_data_crc segments
          ≡ w =
        ok-injective e4 in
      let long : length w ≡ total = sym (ap length same) ∙ laid_out frame.tag segments h3 h4 in
      let (sum, s1, s2, s3) = finished limits ds h4 in
      (
        omega (arith, long, s3),
        (segments, ds, h1, h3, subst (λ n. crc_size ds limits ≡ ok n) (sym long) h4),
      )
