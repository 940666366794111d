-- ===== src/Msgr/Control/Decode.antt =====
-- `Control::decode` of src/msgr/control.rs.
use rados_rs.Common.{
  ℕ, zero, suc, ◌*◌, ◌^◌, Bool, not, ◌&&◌, List, [], ◌∷◌, length, Result, ok, err, ok_or, ltb, leb,
  ◌==◌, if◌then◌else◌, checked_mul_u32,
}
use rados_rs.Wire.Decoder as Decoding
use rados_rs.Wire.Decoder.{Decoder, new}
use rados_rs.Wire.Decoder.Read.{
  ReadOf, ◌>>=◌, ◌>>◌, pure, lift, raise, require, convert, check, at_end,
}
use rados_rs.Protocol.Address.{EntityAddr}
use rados_rs.Protocol.Address.Codec as One
use rados_rs.Protocol.Address.Vector as Vec
use rados_rs.Msgr.Frame.{
  Tag, tag_code, Limits, Segment, Frame, FrameError, limit_exceeded, malformed, unsupported_payload,
  of_wire, default_alignment,
}
use rados_rs.Msgr.Control.{Control, Timestamp}

abbrev pub Get : Type 0 → Type 0
Get A = ReadOf FrameError A

unfoldable pub get_words : ℕ → Get (List ℕ)
get_words zero = pure []
get_words (suc n) = do v ← lift Decoding.u32; rest ← get_words n; pure (v ∷ rest)

unfoldable pub decode_u32_slice : ℕ → Get (List ℕ)
unfolding get_words
decode_u32_slice max_bytes = do
  count ← lift Decoding.u32
  size ← raise (ok_or (checked_mul_u32 count 4) limit_exceeded)
  require (not (ltb max_bytes size)) limit_exceeded
  left ← lift (λ d. (Decoding.remaining d, d))
  require (not (ltb left (count * 4))) malformed
  get_words count

unfoldable pub decode_auth_bytes : Limits → Get (List ℕ)
decode_auth_bytes limits = do
  len ← lift Decoding.u32
  require (not (ltb limits.max_auth_bytes len)) limit_exceeded
  left ← lift (λ d. (Decoding.remaining d, d))
  require (not (ltb left len)) malformed
  lift (Decoding.raw len)

unfoldable pub decode_timestamp : Get Timestamp
decode_timestamp = do
  seconds ← lift Decoding.u32
  nanoseconds ← lift Decoding.u32
  convert of_wire check
  require (ltb nanoseconds (10 ^ 9)) malformed
  pure (record { seconds = seconds; nanoseconds = nanoseconds })

unfoldable pub get_address : Get EntityAddr
get_address = convert of_wire One.decode

unfoldable pub get_addresses : Limits → Get (List EntityAddr)
get_addresses limits = convert of_wire (Vec.decode limits.max_addresses)

unfoldable pub decode_client : Limits → Get Control
unfolding get_address get_addresses
decode_client limits = do
  addresses ← get_addresses limits
  target_address ← get_address
  global_id ← lift Decoding.i64
  global_sequence ← lift Decoding.u64
  supported_features ← lift Decoding.u64
  required_features ← lift Decoding.u64
  flags ← lift Decoding.u64
  cookie ← lift Decoding.u64
  pure (
      Control.client_ident (record {
        addresses = addresses;
        target_address = target_address;
        global_id = global_id;
        global_sequence = global_sequence;
        supported_features = supported_features;
        required_features = required_features;
        flags = flags;
        cookie = cookie;
      }))

unfoldable pub decode_server : Limits → Get Control
unfolding get_addresses
decode_server limits = do
  addresses ← get_addresses limits
  global_id ← lift Decoding.i64
  global_sequence ← lift Decoding.u64
  supported_features ← lift Decoding.u64
  required_features ← lift Decoding.u64
  flags ← lift Decoding.u64
  cookie ← lift Decoding.u64
  pure (
      Control.server_ident (record {
        addresses = addresses;
        global_id = global_id;
        global_sequence = global_sequence;
        supported_features = supported_features;
        required_features = required_features;
        flags = flags;
        cookie = cookie;
      }))

unfoldable pub decode_reconnect : Limits → Get Control
unfolding get_addresses
decode_reconnect limits = do
  addresses ← get_addresses limits
  client_cookie ← lift Decoding.u64
  server_cookie ← lift Decoding.u64
  global_sequence ← lift Decoding.u64
  connect_sequence ← lift Decoding.u64
  message_sequence ← lift Decoding.u64
  pure (
      Control.session_reconnect (record {
        addresses = addresses;
        client_cookie = client_cookie;
        server_cookie = server_cookie;
        global_sequence = global_sequence;
        connect_sequence = connect_sequence;
        message_sequence = message_sequence;
      }))

-- One word, in the control that it makes.
abbrev pub word : (ℕ → Control) → Get Control
word make = do v ← lift Decoding.u64; pure (make v)

unfoldable pub decode_payload : Limits → Tag → Get Control
unfolding get_address decode_client decode_server decode_reconnect decode_timestamp decode_u32_slice
    decode_auth_bytes
decode_payload limits Tag.hello = do
  entity_type ← lift Decoding.u8
  peer_address ← get_address
  pure (Control.hello entity_type peer_address)
decode_payload limits Tag.client_ident = decode_client limits
decode_payload limits Tag.server_ident = decode_server limits
decode_payload limits Tag.ident_missing_features = word Control.ident_missing_features
decode_payload limits Tag.session_reconnect = decode_reconnect limits
decode_payload limits Tag.session_reset = do
  encoded ← lift Decoding.u8
  require (not (ltb 1 encoded)) malformed
  pure (Control.session_reset (encoded == 1))
decode_payload limits Tag.session_retry = word Control.session_retry
decode_payload limits Tag.session_retry_global = word Control.session_retry_global
decode_payload limits Tag.session_reconnect_ok = word Control.session_reconnect_ok
decode_payload limits Tag.wait = pure Control.wait
decode_payload limits Tag.keepalive2 = do t ← decode_timestamp; pure (Control.keepalive2 t)
decode_payload limits Tag.keepalive2_ack = do t ← decode_timestamp; pure (Control.keepalive2_ack t)
decode_payload limits Tag.ack = word Control.ack
decode_payload limits Tag.auth_request = do
  method ← lift Decoding.u32
  preferred_modes ← decode_u32_slice limits.max_auth_bytes
  auth_payload ← decode_auth_bytes limits
  pure (
      Control.auth_request (record {
        method = method;
        preferred_modes = preferred_modes;
        auth_payload = auth_payload;
      }))
decode_payload limits Tag.auth_bad_method = do
  method ← lift Decoding.u32
  result ← lift Decoding.i32
  allowed_methods ← decode_u32_slice limits.max_auth_bytes
  allowed_modes ← decode_u32_slice limits.max_auth_bytes
  pure (
      Control.auth_bad_method (record {
        method = method;
        result = result;
        allowed_methods = allowed_methods;
        allowed_modes = allowed_modes;
      }))
decode_payload limits Tag.auth_reply_more = do
  payload ← decode_auth_bytes limits
  pure (Control.auth_reply_more payload)
decode_payload limits Tag.auth_request_more = do
  payload ← decode_auth_bytes limits
  pure (Control.auth_request_more payload)
decode_payload limits Tag.auth_done = do
  global_id ← lift Decoding.u64
  connection_mode ← lift Decoding.u32
  auth_payload ← decode_auth_bytes limits
  pure (
      Control.auth_done (record {
        global_id = global_id;
        connection_mode = connection_mode;
        auth_payload = auth_payload;
      }))
decode_payload limits Tag.auth_signature = do
  signature ← lift (Decoding.raw 32)
  require (length signature == 32) malformed
  pure (Control.auth_signature signature)
decode_payload limits Tag.message = raise (err malformed)
decode_payload limits Tag.compression_request = raise (err malformed)
decode_payload limits Tag.compression_done = raise (err malformed)

-- The payload and nothing after it.
unfoldable pub decode_content : Limits → Tag → Get Control
unfolding decode_payload
decode_content limits t = do payload ← decode_payload limits t; convert of_wire at_end; pure payload

unfoldable pub value_of : Result FrameError (Control × Decoder) → Result FrameError Control
value_of (ok (c, d)) = ok c
value_of (err e) = err e

unfoldable pub decode_segment : Limits → Tag → Segment → Result FrameError Control
unfolding decode_content value_of
decode_segment limits t s =
    if not (s.alignment == default_alignment)
    then err malformed
    else if ltb limits.max_segment_bytes (length s.content)
    then err limit_exceeded
    else value_of (decode_content limits t (new s.content limits.max_segment_bytes))

unfoldable pub decode_segments : Limits → Tag → List Segment → Result FrameError Control
unfolding decode_segment
decode_segments limits t (s ∷ []) = decode_segment limits t s
decode_segments limits t _ = err malformed

-- A tag of `CompressionRequest` or `CompressionDone`.
abbrev is_compression : Tag → Bool
is_compression t = leb 21 (tag_code t)

unfoldable pub is_control : Tag → Bool
unfolding tag_code
is_control t =
    not (tag_code t == 17)
    && leb (tag_code Tag.hello) (tag_code t)
    && leb (tag_code t) (tag_code Tag.ack)

unfoldable pub decode : Frame → Limits → Result FrameError Control
unfolding is_control decode_segments tag_code
decode frame limits =
    if is_compression frame.tag
    then err unsupported_payload
    else if is_control frame.tag
    then decode_segments limits frame.tag frame.segments
    else err malformed
