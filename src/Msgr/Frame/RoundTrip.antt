-- ===== src/Msgr/Frame/RoundTrip.antt =====
-- What `CrcCodec::read` of src/msgr/frame.rs makes of an encoded frame.
use mathlib.Core.Path.{subst}
use rados_rs.Common.{
  ℕ, ◌≤◌, ◌≡◌, refl, sym, ap, ◌∙◌, arith, Bool, true, not, List, [], ◌∷◌, ◌++◌, map, All,
  append_assoc, length, ok, ensure, ensure-inv, bind-inv, bind-step, ok-injective, ltb,
}
use rados_rs.Msgr.Frame.{
  Tag, ack, tag_code, Limits, Segment, Frame, malformed, preamble_size, normalized_segments,
  descriptors, crc_size,
}
use rados_rs.Msgr.Frame.Crc.{encode_preamble, first_segment, contents, epilogue, body, encode}
use rados_rs.Msgr.Frame.Sizes.{length-encode_preamble}
use rados_rs.Msgr.Frame.Described.{
  describe, IsDescriptor, descriptors-describe, crc_size-aligned, describe-IsDescriptor, AreNormal,
  normalized-AreNormal,
}
use rados_rs.Msgr.Frame.Read.{read_segments, read_reserved, read}
use rados_rs.Msgr.Frame.PreambleBack.{read_exact-append, decode_preamble-encode}
use rados_rs.Msgr.Frame.ReadBack.{read_segments-first, read_epilogue-epilogue}

length-map-describe : (segments : List Segment) → length (map describe segments) ≡ length segments
length-map-describe [] = refl
length-map-describe (s ∷ rest) = omega (arith, length-map-describe rest)

at_most : (n : ℕ) → not (ltb 20 n) ≡ true → n ≤ 20
at_most n h = ground (arith, h)

low_lem : (t : Tag) → not (ltb (tag_code ack) (tag_code t)) ≡ true → tag_code t ≤ 20
unfolding tag_code
low_lem t h = at_most (tag_code t) h

module _ (crc32c_append : ℕ → List ℕ → ℕ) (with_data_crc : Bool) (limits : Limits) where
  body_split :
      (s : Segment) (rest : List Segment) (more : List ℕ)
      → body crc32c_append with_data_crc (s ∷ rest) ++ more
        ≡ first_segment crc32c_append with_data_crc s
          ++ (contents crc32c_append rest ++ (epilogue crc32c_append with_data_crc rest ++ more))
  unfolding body
  body_split s rest more = simp append_assoc

  -- Reading what was laid out.
  read_laid_out :
      (tag : Tag) (segments : List Segment) (more : List ℕ) {total : ℕ}
      → tag_code tag ≤ 20
      → AreNormal segments
      → All IsDescriptor (map describe segments)
      → crc_size (map describe segments) limits ≡ ok total
      → read crc32c_append with_data_crc limits (
          encode_preamble crc32c_append tag (map describe segments)
          ++ (body crc32c_append with_data_crc segments ++ more))
        ≡ ok (record { tag = tag; segments = segments }, more)
  unfolding read read_reserved
  read_laid_out tag [] more ht n w hs = absurd (omega (arith, n.some_left))
  read_laid_out tag (s ∷ rest) more ht n w hs =
      let ds = map describe (s ∷ rest) in
      let count = length-map-describe (s ∷ rest) in
      bind-step _ _ (
        read_exact-append (encode_preamble crc32c_append tag ds)
          (body crc32c_append with_data_crc (s ∷ rest) ++ more) preamble_size
          (length-encode_preamble crc32c_append tag ds))
      ∙ bind-step _ _ (
          decode_preamble-encode crc32c_append tag ds ht (omega (arith, count, n.some_left))
            (omega (arith, count, n.most)) w n.full_tail)
      ∙ bind-step _ _ hs
      ∙ bind-step _ _ (
          ap (λ stream. read_segments crc32c_append with_data_crc 0 ds stream)
            (body_split s rest more)
          ∙ read_segments-first crc32c_append with_data_crc s.alignment s.content rest
              (epilogue crc32c_append with_data_crc rest ++ more))
      ∙ bind-step _ _
          (read_epilogue-epilogue crc32c_append with_data_crc s rest more (omega (arith, n.most)))

  -- A frame that the encoder accepts is read back from its bytes under the same limits and the same
  -- choice of checksums, and no byte behind it is taken: its tag, and its segments without the empty
  -- ones at the end.
  pub read-encode :
      (frame : Frame) {w : List ℕ}
      → encode crc32c_append with_data_crc frame limits ≡ ok w
      → (more : List ℕ)
      → (segments : List Segment) × (normalized_segments frame.segments ≡ ok segments)
        × (read crc32c_append with_data_crc limits (w ++ more)
            ≡ ok (record { tag = frame.tag; segments = segments }, more))
  unfolding encode
  read-encode frame {w} e more =
      let (segments, h1, e1) = bind-inv (normalized_segments frame.segments) _ e in
      let (tt, h2, e2) =
        bind-inv (ensure (not (ltb (tag_code ack) (tag_code frame.tag))) malformed) _ e1 in
      let (ds, h3, e3) = bind-inv (descriptors segments) _ e2 in
      let (total, h4, e4) = bind-inv (crc_size ds limits) _ e3 in
      let (described, lengths) = descriptors-describe segments h3 in
      let sized = subst (λ d. crc_size d limits ≡ ok total) described h4 in
      let made : encode_preamble crc32c_append frame.tag ds
            ++ body crc32c_append with_data_crc segments
          ≡ w =
        ok-injective e4 in
      let low = ensure-inv (not (ltb (tag_code ack) (tag_code frame.tag))) malformed h2 in
      let fields = describe-IsDescriptor segments lengths (crc_size-aligned limits _ sized) in
      let back =
        read_laid_out frame.tag segments more (low_lem frame.tag low)
          (normalized-AreNormal frame.segments h1) fields sized in
      let content = body crc32c_append with_data_crc segments in
      let whole : w ++ more
          ≡ encode_preamble crc32c_append frame.tag (map describe segments) ++ (content ++ more) =
        ap (λ x. x ++ more) (sym made)
        ∙ append_assoc (encode_preamble crc32c_append frame.tag ds) content more
        ∙ ap (λ d. encode_preamble crc32c_append frame.tag d ++ (content ++ more)) described in
      (segments, h1, ap (λ x. read crc32c_append with_data_crc limits x) whole ∙ back)
