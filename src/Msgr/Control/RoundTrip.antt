-- ===== src/Msgr/Control/RoundTrip.antt =====
-- Encoding and then decoding control frames, in src/msgr/control.rs.
use rados_rs.Common.{
  ◌≤◌, ◌≡◌, refl, sym, ◌∙◌, arith, true, false, [], ◌++◌, append_assoc, append-nil, inl, inr,
  Bool-cases, length, ok, err, ok-injective, ltb, leb, if◌then◌else◌, u32_max,
}
use rados_rs.Wire.Decoder.{new, raw}
use rados_rs.Wire.Decoder.Cursor.{
  cursor, new-cursor, u8-cursor, u32-cursor, u64-cursor, i32-cursor, i64-cursor, take_slice-cursor,
}
use rados_rs.Wire.Decoder.Read.{bind-ok, at_end-cursor}
use rados_rs.Msgr.Frame.{Tag, tag_code, Limits, Frame, FrameError}
use rados_rs.Msgr.Control.{Control, tag_of}
use rados_rs.Msgr.Control.Decode.{
  decode_client, decode_server, decode_reconnect, decode_payload, decode_content, decode_segment,
  decode_segments, value_of, is_control, decode,
}
use rados_rs.Msgr.Control.Layout.{IsSendable, payload_bytes}
use rados_rs.Msgr.Control.Parts.{
  received, address-cursor, addresses-cursor, slice-cursor, auth-cursor, timestamp-cursor,
}
use rados_rs.Msgr.Control.Encode.{encode, frame_of}
use rados_rs.Msgr.Control.Written.{payload-Tries}
use rados_rs.Msgr.Control.Asks.{sent_tag}
use rados_rs.Msgr.Control.Outcome.{sendable_lem, within-layout}

module _ (limits : Limits) (room : 48 ≤ limits.max_segment_bytes) where
  abbrev IsRead : Control → Type 0
  IsRead c =
      decode_payload limits (sent_tag c)
        (cursor [] (payload_bytes c ++ []) limits.max_segment_bytes)
      ≡ ok (received c, cursor (payload_bytes c) [] limits.max_segment_bytes)

  pub payload-cursor : (c : Control) → IsSendable limits c → IsRead c
  unfolding decode_payload payload_bytes decode_client decode_server decode_reconnect raw
  payload-cursor (Control.hello t a) w = simp (u8-cursor t, address-cursor limits room a w)
  payload-cursor (Control.client_ident v) w = simp (
    append_assoc,
    addresses-cursor limits room v.addresses w.addresses,
    address-cursor limits room v.target_address w.target_address,
    i64-cursor v.global_id w.global_id,
    u64-cursor v.global_sequence w.global_sequence,
    u64-cursor v.supported_features w.supported_features,
    u64-cursor v.required_features w.required_features,
    u64-cursor v.flags w.flags,
    u64-cursor v.cookie w.cookie,
  )
  payload-cursor (Control.server_ident v) w = simp (
    append_assoc,
    addresses-cursor limits room v.addresses w.addresses,
    i64-cursor v.global_id w.global_id,
    u64-cursor v.global_sequence w.global_sequence,
    u64-cursor v.supported_features w.supported_features,
    u64-cursor v.required_features w.required_features,
    u64-cursor v.flags w.flags,
    u64-cursor v.cookie w.cookie,
  )
  payload-cursor (Control.ident_missing_features f) w = simp (u64-cursor f w)
  payload-cursor (Control.session_reconnect v) w = simp (
    append_assoc,
    addresses-cursor limits room v.addresses w.addresses,
    u64-cursor v.client_cookie w.client_cookie,
    u64-cursor v.server_cookie w.server_cookie,
    u64-cursor v.global_sequence w.global_sequence,
    u64-cursor v.connect_sequence w.connect_sequence,
    u64-cursor v.message_sequence w.message_sequence,
  )
  payload-cursor (Control.session_reset true) w = simp (u8-cursor 1)
  payload-cursor (Control.session_reset false) w = simp (u8-cursor 0)
  payload-cursor (Control.session_retry s) w = simp (u64-cursor s w)
  payload-cursor (Control.session_retry_global s) w = simp (u64-cursor s w)
  payload-cursor (Control.session_reconnect_ok s) w = simp (u64-cursor s w)
  payload-cursor Control.wait w = refl
  payload-cursor (Control.keepalive2 t) w = simp (timestamp-cursor limits room t w)
  payload-cursor (Control.keepalive2_ack t) w = simp (timestamp-cursor limits room t w)
  payload-cursor (Control.ack s) w = simp (u64-cursor s w)
  payload-cursor (Control.auth_request v) (hm, hw, hp) = simp (
    append_assoc,
    u32-cursor v.method hm,
    slice-cursor limits room v.preferred_modes hw,
    auth-cursor limits room v.auth_payload hp,
  )
  payload-cursor (Control.auth_bad_method v) (hm, hr, hw, hv) = simp (
    append_assoc,
    u32-cursor v.method hm,
    i32-cursor v.result hr,
    slice-cursor limits room v.allowed_methods hw,
    slice-cursor limits room v.allowed_modes hv,
  )
  payload-cursor (Control.auth_reply_more p) w = simp (auth-cursor limits room p w)
  payload-cursor (Control.auth_request_more p) w = simp (auth-cursor limits room p w)
  payload-cursor (Control.auth_done v) (hi, hm, hp) = simp (
    append_assoc,
    u64-cursor v.global_id hi,
    u32-cursor v.connection_mode hm,
    auth-cursor limits room v.auth_payload hp,
  )
  payload-cursor (Control.auth_signature s) w =
      let taken = rw w at (take_slice-cursor s [] [] limits.max_segment_bytes) in simp (taken, w)
  payload-cursor (Control.auth_payload t p) w = absurd w

tag_lem :
    (limits : Limits) (c : Control)
    → IsSendable limits c
    → (tag_of c ≡ ok (sent_tag c)) × (is_control (sent_tag c) ≡ true)
unfolding tag_of is_control tag_code
tag_lem limits (Control.hello t a) w = (refl, refl)
tag_lem limits (Control.client_ident v) w = (refl, refl)
tag_lem limits (Control.server_ident v) w = (refl, refl)
tag_lem limits (Control.ident_missing_features v) w = (refl, refl)
tag_lem limits (Control.session_reconnect v) w = (refl, refl)
tag_lem limits (Control.session_reset v) w = (refl, refl)
tag_lem limits (Control.session_retry v) w = (refl, refl)
tag_lem limits (Control.session_retry_global v) w = (refl, refl)
tag_lem limits (Control.session_reconnect_ok v) w = (refl, refl)
tag_lem limits Control.wait w = (refl, refl)
tag_lem limits (Control.keepalive2 v) w = (refl, refl)
tag_lem limits (Control.keepalive2_ack v) w = (refl, refl)
tag_lem limits (Control.ack v) w = (refl, refl)
tag_lem limits (Control.auth_request v) w = (refl, refl)
tag_lem limits (Control.auth_bad_method v) w = (refl, refl)
tag_lem limits (Control.auth_reply_more v) w = (refl, refl)
tag_lem limits (Control.auth_request_more v) w = (refl, refl)
tag_lem limits (Control.auth_done v) w = (refl, refl)
tag_lem limits (Control.auth_signature v) w = (refl, refl)
tag_lem limits (Control.auth_payload t p) w = absurd w

plain_lem : (t : Tag) → is_control t ≡ true → leb 21 (tag_code t) ≡ false
unfolding is_control
plain_lem t h = ground arith

module _ (limits : Limits) (small : limits.max_segment_bytes ≤ u32_max) (c : Control)
    (w : IsSendable limits c) where
  sent-layout : encode c limits ≡ (
      if leb (length (payload_bytes c)) limits.max_segment_bytes
      then ok (frame_of (sent_tag c) (payload_bytes c))
      else err FrameError.limit_exceeded)
  sent-layout =
      let (formed, good, tagged) = sendable_lem limits c w in
      within-layout limits small c ((payload-Tries limits c formed).written good) tagged

  content-cursor :
      48 ≤ limits.max_segment_bytes
      → decode_content limits (sent_tag c) (new (payload_bytes c) limits.max_segment_bytes)
        ≡ ok (received c, cursor (payload_bytes c) [] limits.max_segment_bytes)
  unfolding decode_content
  content-cursor room =
      let read = rw (append-nil (payload_bytes c)) at (payload-cursor limits room c w) in
      rw (new-cursor (payload_bytes c) limits.max_segment_bytes) (
        bind-ok (decode_payload limits (sent_tag c)) _ read
        ∙ simp (at_end-cursor (payload_bytes c) limits.max_segment_bytes))

  frame_lem :
      48 ≤ limits.max_segment_bytes
      → leb (length (payload_bytes c)) limits.max_segment_bytes ≡ true
      → decode (frame_of (sent_tag c) (payload_bytes c)) limits ≡ ok (received c)
  unfolding decode decode_segments decode_segment value_of
  frame_lem room fits =
      let known = (tag_lem limits c w).1 in
      let within_limit : ltb limits.max_segment_bytes (length (payload_bytes c)) ≡ false =
        ground (arith, fits) in
      simp (plain_lem (sent_tag c) known, known, within_limit, content-cursor room)

  -- The frame of a control that is encoded, and that its bytes are within the limit.
  pub encode-inv :
      {frame : Frame}
      → encode c limits ≡ ok frame
      → (leb (length (payload_bytes c)) limits.max_segment_bytes ≡ true)
        × (frame ≡ frame_of (sent_tag c) (payload_bytes c))
  encode-inv {frame} e =
      elim (Bool-cases (leb (length (payload_bytes c)) limits.max_segment_bytes)) [
        | inl fits ↦
            let layout : encode c limits ≡ ok (frame_of (sent_tag c) (payload_bytes c)) =
              sent-layout ∙ rw fits refl in
            (fits, ok-injective (sym e ∙ layout))
        | inr over ↦
            let refused : encode c limits ≡ err FrameError.limit_exceeded =
              sent-layout ∙ rw over refl in
            let never : ok frame ≡ err FrameError.limit_exceeded = sym e ∙ refused in cc
      ]

  -- A control with fields of the source's widths, well-formed addresses, addresses and authentication
  -- bytes within the limits, and nanoseconds less than a second, that is not a payload under a tag of
  -- its own, encoded under a limit of segments of at least 48 bytes and of 32 bits, is decoded from
  -- its frame under the same limits as it was, but that no address in it is marked as of the old form.
  pub decode-encode_control :
      48 ≤ limits.max_segment_bytes
      → {frame : Frame} → encode c limits ≡ ok frame
      → decode frame limits ≡ ok (received c)
  decode-encode_control room e = let (fits, made) = encode-inv e in rw made (frame_lem room fits)
