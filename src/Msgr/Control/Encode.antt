-- ===== src/Msgr/Control/Encode.antt =====
-- `Control::encode` of src/msgr/control.rs.
use rados_rs.Common.{
  ℕ, not, List, [], ◌∷◌, length, Result, ok, ◌>>=◌, ◌>>◌, ensure, ok_or, map_err, ltb, to_u32,
  checked_mul_u32,
}
use rados_rs.Wire.Encoder as Enc
use rados_rs.Wire.Encoder.{Encoder}
use rados_rs.Protocol.Address.{EntityAddr}
use rados_rs.Protocol.Address.Codec as One
use rados_rs.Protocol.Address.Vector.Encode as Vec
use rados_rs.Msgr.Frame.{Tag, Limits, Frame, FrameError, limit_exceeded, of_wire, default_alignment}
use rados_rs.Msgr.Control.{
  Control, ClientIdent, ServerIdent, SessionReconnect, Timestamp, AuthRequest, AuthBadMethod,
  AuthDone, control_features, tag_of,
}

unfoldable pub check_addresses : List EntityAddr → Limits → Result FrameError (Unit {0})
check_addresses addresses limits =
    ensure (not (ltb limits.max_addresses (length addresses))) limit_exceeded

unfoldable pub check_auth_bytes : List ℕ → Limits → Result FrameError (Unit {0})
check_auth_bytes payload limits =
    ensure (not (ltb limits.max_auth_bytes (length payload))) limit_exceeded

unfoldable pub put_words : List ℕ → Encoder → Encoder
put_words [] e = e
put_words (v ∷ rest) e = put_words rest (Enc.u32 v e)

unfoldable pub encode_u32_slice : List ℕ → ℕ → Encoder → Result FrameError Encoder
unfolding put_words
encode_u32_slice values max_bytes e = do
  count ← ok_or (to_u32 (length values)) limit_exceeded
  size ← ok_or (checked_mul_u32 count 4) limit_exceeded
  ensure (not (ltb max_bytes size)) limit_exceeded
  ok (put_words values (Enc.u32 count e))

unfoldable pub put_address : EntityAddr → Encoder → Result FrameError Encoder
put_address a e = map_err of_wire (One.encode a control_features e)

unfoldable pub put_addresses : List EntityAddr → Limits → Encoder → Result FrameError Encoder
unfolding check_addresses
put_addresses addresses limits e = do
  check_addresses addresses limits
  map_err of_wire (Vec.encode addresses control_features e)

unfoldable pub put_client : ClientIdent → Encoder → Encoder
put_client v e =
    let e1 = Enc.i64 v.global_id e in
    let e2 = Enc.u64 v.global_sequence e1 in
    let e3 = Enc.u64 v.supported_features e2 in
    let e4 = Enc.u64 v.required_features e3 in let e5 = Enc.u64 v.flags e4 in Enc.u64 v.cookie e5

unfoldable pub put_server : ServerIdent → Encoder → Encoder
put_server v e =
    let e1 = Enc.i64 v.global_id e in
    let e2 = Enc.u64 v.global_sequence e1 in
    let e3 = Enc.u64 v.supported_features e2 in
    let e4 = Enc.u64 v.required_features e3 in let e5 = Enc.u64 v.flags e4 in Enc.u64 v.cookie e5

unfoldable pub put_reconnect : SessionReconnect → Encoder → Encoder
put_reconnect v e =
    let e1 = Enc.u64 v.client_cookie e in
    let e2 = Enc.u64 v.server_cookie e1 in
    let e3 = Enc.u64 v.global_sequence e2 in
    let e4 = Enc.u64 v.connect_sequence e3 in Enc.u64 v.message_sequence e4

unfoldable pub put_timestamp : Timestamp → Encoder → Encoder
put_timestamp t e = Enc.u32 t.nanoseconds (Enc.u32 t.seconds e)

unfoldable pub put_auth_bytes : List ℕ → Limits → Encoder → Result FrameError Encoder
unfolding check_auth_bytes
put_auth_bytes payload limits e = do check_auth_bytes payload limits; ok (Enc.bytes payload e)

unfoldable pub put_auth_request : AuthRequest → Limits → Encoder → Result FrameError Encoder
unfolding check_auth_bytes encode_u32_slice
put_auth_request v limits e = do
  check_auth_bytes v.auth_payload limits
  e1 ← encode_u32_slice v.preferred_modes limits.max_auth_bytes (Enc.u32 v.method e)
  ok (Enc.bytes v.auth_payload e1)

unfoldable pub put_bad_method : AuthBadMethod → Limits → Encoder → Result FrameError Encoder
unfolding encode_u32_slice
put_bad_method v limits e = do
  e1 ←
      encode_u32_slice v.allowed_methods limits.max_auth_bytes
        (Enc.i32 v.result (Enc.u32 v.method e))
  encode_u32_slice v.allowed_modes limits.max_auth_bytes e1

unfoldable pub put_auth_done : AuthDone → Limits → Encoder → Result FrameError Encoder
unfolding check_auth_bytes
put_auth_done v limits e = do
  check_auth_bytes v.auth_payload limits
  ok (Enc.bytes v.auth_payload (Enc.u32 v.connection_mode (Enc.u64 v.global_id e)))

-- The arms of the match.
unfoldable pub encode_payload : Control → Limits → Encoder → Result FrameError Encoder
unfolding put_address put_addresses put_client put_server put_reconnect put_timestamp put_auth_bytes
    put_auth_request put_bad_method put_auth_done check_auth_bytes
encode_payload (Control.hello t a) limits e = put_address a (Enc.u8 t e)
encode_payload (Control.client_ident v) limits e = do
  e1 ← put_addresses v.addresses limits e
  e2 ← put_address v.target_address e1
  ok (put_client v e2)
encode_payload (Control.server_ident v) limits e = do
  e1 ← put_addresses v.addresses limits e
  ok (put_server v e1)
encode_payload (Control.ident_missing_features f) limits e = ok (Enc.u64 f e)
encode_payload (Control.session_reconnect v) limits e = do
  e1 ← put_addresses v.addresses limits e
  ok (put_reconnect v e1)
encode_payload (Control.session_reset full) limits e = ok (Enc.bool full e)
encode_payload (Control.session_retry s) limits e = ok (Enc.u64 s e)
encode_payload (Control.session_retry_global s) limits e = ok (Enc.u64 s e)
encode_payload (Control.session_reconnect_ok s) limits e = ok (Enc.u64 s e)
encode_payload Control.wait limits e = ok e
encode_payload (Control.keepalive2 t) limits e = ok (put_timestamp t e)
encode_payload (Control.keepalive2_ack t) limits e = ok (put_timestamp t e)
encode_payload (Control.ack s) limits e = ok (Enc.u64 s e)
encode_payload (Control.auth_request v) limits e = put_auth_request v limits e
encode_payload (Control.auth_bad_method v) limits e = put_bad_method v limits e
encode_payload (Control.auth_reply_more p) limits e = put_auth_bytes p limits e
encode_payload (Control.auth_request_more p) limits e = put_auth_bytes p limits e
encode_payload (Control.auth_done v) limits e = put_auth_done v limits e
encode_payload (Control.auth_signature s) limits e = ok (Enc.raw s e)
encode_payload (Control.auth_payload t p) limits e = do check_auth_bytes p limits; ok (Enc.raw p e)

-- A frame of one segment.
abbrev pub frame_of : Tag → List ℕ → Frame
frame_of t content = record {
  tag = t;
  segments = record { alignment = default_alignment; content = content } ∷ [];
}

unfoldable pub encode : Control → Limits → Result FrameError Frame
unfolding encode_payload tag_of
encode c limits = do
  t ← tag_of c
  e ← encode_payload c limits (Enc.new limits.max_segment_bytes)
  content ← map_err of_wire (Enc.finish e)
  ok (frame_of t content)
