-- ===== src/Msgr/Message/Runs.antt =====
-- Runs of the messages' encoding on concrete values.
use rados_rs.Common.{◌≡◌, refl, arith, [], ◌∷◌, ok}
use rados_rs.Msgr.Frame.{Tag, Limits}
use rados_rs.Msgr.Message as Msg
use rados_rs.Msgr.Message.{Message, checked_length, validate_loop, validate_segments, segments_of}
use rados_rs.Msgr.Message.Header.{MessageHeader, encode, decode, write}
use rados_rs.Wire.Encoder as Enc
use rados_rs.Wire.Bytes.{le_bytes}
use rados_rs.Msgr.Message.RoundTrip.{
  IsWide, header_bytes, encode-layout, decode-encode, message-round_trip,
}

abbrev header : MessageHeader
header = record {
  sequence = 3;
  transaction_id = 9;
  message_type = 42;
  priority = 127;
  version = 4;
  data_pre_padding_length = 1;
  data_offset = 0;
  ack_sequence = 2;
  flags = 1;
  compat_version = 1;
  reserved = 0;
}

abbrev letter : Message
letter = record {
  header = header;
  lengths = record { front = 3; middle = 0; payload = 2 };
  front = 1 ∷ 2 ∷ 3 ∷ [];
  middle = [];
  payload = 8 ∷ 9 ∷ [];
}

abbrev limits : Limits
limits = record {
  max_segment_bytes = 4096;
  max_frame_bytes = 8192;
  max_addresses = 4;
  max_auth_bytes = 64;
}

wide : IsWide header
wide = record {
  sequence = omega arith;
  transaction_id = omega arith;
  message_type = omega arith;
  priority = omega arith;
  version = omega arith;
  data_pre_padding_length = omega arith;
  data_offset = omega arith;
  ack_sequence = omega arith;
  flags = omega arith;
  compat_version = omega arith;
  reserved = omega arith;
}

encode-layout_example : encode header ≡ header_bytes header
encode-layout_example = encode-layout header

decode-encode_example : decode (encode header) ≡ ok header
decode-encode_example = decode-encode header wide

letter_encoded :
    Msg.encode letter limits ≡ ok (record { tag = Tag.message; segments = segments_of letter })
unfolding Msg.encode checked_length validate_loop validate_segments segments_of encode write
    le_bytes Enc.new Enc.reserve Enc.raw Enc.u8 Enc.u16 Enc.u32 Enc.u64 Enc.finish
letter_encoded = refl

message-round_trip_example :
    Msg.decode (record { tag = Tag.message; segments = segments_of letter }) limits ≡ ok letter
message-round_trip_example = message-round_trip letter limits wide letter_encoded
