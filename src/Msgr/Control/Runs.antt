-- ===== src/Msgr/Control/Runs.antt =====
-- Runs of the control codec on concrete frames.
use rados_rs.Common.{
  ◌^◌, ◌&&◌, ◌≡◌, refl, arith, true, [], ◌∷◌, replicate, ok, err, leb, length, if◌then◌else◌,
}
use rados_rs.Common.Int.{negsuc}
use rados_rs.Wire.Bytes.{le_bytes}
use rados_rs.Wire.Encoder as Enc
use rados_rs.Protocol.Address.{EntityAddr, socket_data_length}
use rados_rs.Protocol.Address.Written.{IsAddr}
use rados_rs.Msgr.Frame.{Tag, Limits, Frame, FrameError}
use rados_rs.Msgr.Control.{Control, ClientIdent, AuthBadMethod, Timestamp, tag_of}
use rados_rs.Msgr.Control.Encode.{
  encode, encode_payload, frame_of, put_bad_method, encode_u32_slice, put_words,
}
use rados_rs.Msgr.Control.Decode.{decode}
use rados_rs.Msgr.Control.Layout.{IsClient, AreWords, payload_bytes, timestamp_bytes}
use rados_rs.Msgr.Control.Asks.{is_within, has_tag}
use rados_rs.Msgr.Control.Overlong.{overlong-refused}
use rados_rs.Msgr.Control.Outcome.{encode_control-layout}
use rados_rs.Msgr.Control.RoundTrip.{decode-encode_control}

abbrev limits : Limits
limits = record {
  max_segment_bytes = 4096;
  max_frame_bytes = 8192;
  max_addresses = 4;
  max_auth_bytes = 64;
}

abbrev address : EntityAddr
address = record {
  address_type = 2;
  nonce = 9;
  family = 2;
  socket_data = 26 ∷ 134 ∷ 10 ∷ 0 ∷ 0 ∷ 1 ∷ replicate 8 0;
  legacy_encoding = true;
}

abbrev client : ClientIdent
client = record {
  addresses = address ∷ [];
  target_address = address;
  global_id = negsuc 0;
  global_sequence = 3;
  supported_features = 2;
  required_features = 0;
  flags = 1;
  cookie = 77;
}

address_ok : IsAddr address
unfolding socket_data_length
address_ok = record { address_type = omega arith; nonce = omega arith; socket = refl }

client_ok : IsClient limits client
client_ok = record {
  addresses = record { each = (address_ok, tt); most = omega arith; small = omega arith };
  target_address = address_ok;
  global_id = omega arith;
  global_sequence = omega arith;
  supported_features = omega arith;
  required_features = omega arith;
  flags = omega arith;
  cookie = omega arith;
}

encode_control-layout_example : encode (Control.client_ident client) limits ≡ (
    if has_tag (Control.client_ident client)
    then (if is_within limits (Control.client_ident client)
          && leb (length (payload_bytes (Control.client_ident client))) 4096
        then ok (frame_of Tag.client_ident (payload_bytes (Control.client_ident client)))
        else err FrameError.limit_exceeded)
    else err FrameError.malformed)
encode_control-layout_example =
    encode_control-layout limits (omega arith) (Control.client_ident client)
      ((address_ok, tt), address_ok, omega arith)

abbrev bad_method : AuthBadMethod
bad_method = record {
  method = 1;
  result = negsuc 94;
  allowed_methods = 2 ∷ [];
  allowed_modes = 1 ∷ 2 ∷ [];
}

abbrev words_ok : AreWords limits (2 ∷ [])
words_ok = record { each = (omega arith, tt); most = omega arith; small = omega arith }

abbrev modes_ok : AreWords limits (1 ∷ 2 ∷ [])
modes_ok = record {
  each = (omega arith, (omega arith, tt));
  most = omega arith;
  small = omega arith;
}

abbrev refused : Frame
refused = frame_of Tag.auth_bad_method (
    1 ∷ 0 ∷ 0 ∷ 0 ∷ 161 ∷ 255 ∷ 255 ∷ 255 ∷ 1 ∷ 0 ∷ 0 ∷ 0 ∷ 2 ∷ 0 ∷ 0 ∷ 0 ∷ 2 ∷ 0 ∷ 0 ∷ 0 ∷ 1 ∷ 0
    ∷ 0 ∷ 0 ∷ 2 ∷ 0 ∷ 0 ∷ 0 ∷ [])

refused_encoded : encode (Control.auth_bad_method bad_method) limits ≡ ok refused
unfolding encode tag_of encode_payload put_bad_method encode_u32_slice put_words le_bytes Enc.new
    Enc.reserve Enc.raw Enc.u32 Enc.i32 Enc.finish
refused_encoded = refl

decode-encode_control_example : decode refused limits ≡ ok (Control.auth_bad_method bad_method)
decode-encode_control_example =
    decode-encode_control limits (omega arith) (Control.auth_bad_method bad_method)
      (omega arith, omega arith, words_ok, modes_ok) (omega arith) refused_encoded

abbrev a_second : Timestamp
a_second = record { seconds = 5; nanoseconds = 10 ^ 9 }

overlong-refused_example :
    (encode (Control.keepalive2 a_second) limits
      ≡ ok (frame_of Tag.keepalive2 (timestamp_bytes a_second)))
    × (decode (frame_of Tag.keepalive2 (timestamp_bytes a_second)) limits
        ≡ err FrameError.malformed)
    × (encode (Control.keepalive2_ack a_second) limits
        ≡ ok (frame_of Tag.keepalive2_ack (timestamp_bytes a_second)))
    × (decode (frame_of Tag.keepalive2_ack (timestamp_bytes a_second)) limits
        ≡ err FrameError.malformed)
overlong-refused_example =
    overlong-refused a_second (omega arith) (omega arith) (omega arith) limits (omega arith)
      (omega arith)
