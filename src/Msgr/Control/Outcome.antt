-- ===== src/Msgr/Control/Outcome.antt =====
-- What `Control::encode` of src/msgr/control.rs gives, errors included.
use rados_rs.Common.{
  ◌*◌, ◌≤◌, ◌≡◌, refl, arith, true, ◌&&◌, length, leb, le→leb, ok, err, Bool-cases, inl, inr,
  if◌then◌else◌, u32_max,
}
use rados_rs.Wire.Encoder as Enc
use rados_rs.Wire.Encoder.Emits.{finish-new}
use rados_rs.Wire.Encoder.Writes.{Writes}
use rados_rs.Msgr.Frame.{Tag, tag_code, Limits, FrameError, of_wire}
use rados_rs.Msgr.Control.{Control, tag_of}
use rados_rs.Msgr.Control.Layout.{IsSendable, payload_bytes}
use rados_rs.Msgr.Control.Asks.{sent_tag, IsWellFormed, is_within, is_auth, has_tag}
use rados_rs.Msgr.Control.Encode.{encode, encode_payload, frame_of}
use rados_rs.Msgr.Control.Written.{payload-Tries}

-- A control that can be sent is within the limits.
pub sendable_lem :
    (limits : Limits) (c : Control)
    → IsSendable limits c
    → IsWellFormed limits c × (is_within limits c ≡ true) × (has_tag c ≡ true)
unfolding is_within has_tag
sendable_lem limits (Control.hello t a) w = (w, refl, refl)
sendable_lem limits (Control.client_ident v) w =
    let many = w.addresses in
    (
      (many.each, w.target_address, many.small),
      le→leb (length v.addresses) limits.max_addresses many.most,
      refl,
    )
sendable_lem limits (Control.server_ident v) w =
    let many = w.addresses in
    ((many.each, many.small), le→leb (length v.addresses) limits.max_addresses many.most, refl)
sendable_lem limits (Control.session_reconnect v) w =
    let many = w.addresses in
    ((many.each, many.small), le→leb (length v.addresses) limits.max_addresses many.most, refl)
sendable_lem limits (Control.auth_request v) (hm, hw, hp) = (
  hw.small,
  ground (
    arith,
    le→leb (length v.auth_payload) limits.max_auth_bytes hp.most,
    le→leb (length v.preferred_modes * 4) limits.max_auth_bytes hw.most,
  ),
  refl,
)
sendable_lem limits (Control.auth_bad_method v) (hm, hr, hw, hv) = (
  hw.small,
  ground (
    arith,
    le→leb (length v.allowed_methods * 4) limits.max_auth_bytes hw.most,
    le→leb (length v.allowed_modes * 4) limits.max_auth_bytes hv.most,
  ),
  refl,
)
sendable_lem limits (Control.auth_reply_more p) w =
    (tt, le→leb (length p) limits.max_auth_bytes w.most, refl)
sendable_lem limits (Control.auth_request_more p) w =
    (tt, le→leb (length p) limits.max_auth_bytes w.most, refl)
sendable_lem limits (Control.auth_done v) (hi, hm, hp) =
    (tt, le→leb (length v.auth_payload) limits.max_auth_bytes hp.most, refl)
sendable_lem limits (Control.auth_payload t p) w = absurd w
sendable_lem limits c w = (tt, refl, refl)

auth_tag :
    (t : Tag)
    → (leb (tag_code Tag.auth_request) (tag_code t)
        && leb (tag_code t) (tag_code Tag.auth_signature))
      ≡ is_auth t
unfolding tag_code is_auth
auth_tag Tag.hello = refl
auth_tag t = refl

tag_of_lem :
    (c : Control) → tag_of c ≡ (if has_tag c then ok (sent_tag c) else err FrameError.malformed)
unfolding tag_of has_tag
tag_of_lem (Control.auth_payload t p) = rw (auth_tag t) refl
tag_of_lem c = refl

module _ (limits : Limits) (small : limits.max_segment_bytes ≤ u32_max) (c : Control) where
  pub within-layout :
      Writes (encode_payload c limits) (payload_bytes c)
      → has_tag c ≡ true
      → encode c limits ≡ (
          if leb (length (payload_bytes c)) limits.max_segment_bytes
          then ok (frame_of (sent_tag c) (payload_bytes c))
          else err FrameError.limit_exceeded)
  unfolding encode of_wire
  within-layout p tagged =
      let finished = finish-new p.emits limits.max_segment_bytes small in
      let passed = p.passes (Enc.new limits.max_segment_bytes) in
      elim (Bool-cases (leb (length (payload_bytes c)) limits.max_segment_bytes)) [
        | inl fits ↦ simp (tag_of_lem c, tagged, passed, finished, fits)
        | inr over ↦ simp (tag_of_lem c, tagged, passed, finished, over)
      ]

  -- A control whose addresses are well-formed is encoded, under limits of 32 bits, as one segment of
  -- its bytes under its tag where its addresses, authentication bytes and bytes are within the
  -- limits, and else refused by the limit; a payload under a tag that is not of authentication is
  -- refused as malformed.
  pub encode_control-layout :
      IsWellFormed limits c
      → encode c limits ≡ (
          if has_tag c
          then (if is_within limits c && leb (length (payload_bytes c)) limits.max_segment_bytes
              then ok (frame_of (sent_tag c) (payload_bytes c))
              else err FrameError.limit_exceeded)
          else err FrameError.malformed)
  encode_control-layout w =
      let t = payload-Tries limits c w in
      elim (Bool-cases (has_tag c)) [
        | inl tagged ↦ elim (Bool-cases (is_within limits c)) [
          | inl good ↦ rw (tagged, good) (within-layout (t.written good) tagged)
          | inr bad ↦
              rw (tagged, bad)
                (unfold encode in
                  simp (tag_of_lem c, tagged, t.refused bad (Enc.new limits.max_segment_bytes)))
        ]
        | inr untagged ↦ rw untagged (unfold encode in simp (tag_of_lem c, untagged))
      ]
