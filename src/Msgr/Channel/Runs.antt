-- ===== src/Msgr/Channel/Runs.antt =====
-- Runs of messages and controls through frames on concrete values.
use rados_rs.Common.{ℕ, ◌≡◌, refl, arith, true, List, [], ◌∷◌, ◌++◌, ok}
use rados_rs.Wire.Bytes.{le_bytes}
use rados_rs.Wire.Encoder as Enc
use rados_rs.Msgr.Frame.{
  Tag, tag_code, Limits, Frame, drop_empty_tail, normalized_segments, is_power_of_two,
  valid_alignment, descriptors, crc_size_loop, crc_size,
}
use rados_rs.Msgr.Frame.Crc as Crc
use rados_rs.Msgr.Frame.Read.{read}
use rados_rs.Msgr.Message as Msg
use rados_rs.Msgr.Message.{Message, checked_length, validate_loop, validate_segments, segments_of}
use rados_rs.Msgr.Message.Header as Hdr
use rados_rs.Msgr.Message.Header.{MessageHeader}
use rados_rs.Msgr.Message.RoundTrip.{IsWide}
use rados_rs.Msgr.Control.{Control, tag_of}
use rados_rs.Msgr.Control.Encode as Con
use rados_rs.Msgr.Control.Encode.{frame_of}
use rados_rs.Msgr.Control.Decode as Decoding
use rados_rs.Msgr.Channel.{control-channel, message-channel}

-- A checksum for the runs.
abbrev sum_of : ℕ → List ℕ → ℕ
sum_of seed [] = seed
sum_of seed (b ∷ bs) = b

abbrev limits : Limits
limits = record {
  max_segment_bytes = 64;
  max_frame_bytes = 256;
  max_addresses = 4;
  max_auth_bytes = 64;
}

abbrev retry : Frame
retry = frame_of Tag.session_retry (5 ∷ 0 ∷ 0 ∷ 0 ∷ 0 ∷ 0 ∷ 0 ∷ 0 ∷ [])

retry_encoded : Con.encode (Control.session_retry 5) limits ≡ ok retry
unfolding Con.encode Con.encode_payload tag_of le_bytes Enc.new Enc.reserve Enc.raw Enc.u64
    Enc.finish
retry_encoded = refl

abbrev retry_bytes : List ℕ
retry_bytes =
    Crc.encode_preamble sum_of Tag.session_retry (record { len = 8; alignment = 8 } ∷ [])
    ++ Crc.body sum_of true retry.segments

retry_written : Crc.encode sum_of true retry limits ≡ ok retry_bytes
unfolding Crc.encode tag_code normalized_segments drop_empty_tail descriptors crc_size crc_size_loop
    valid_alignment is_power_of_two
retry_written = refl

control-channel_example :
    (arrived : Frame) × (read sum_of true limits (retry_bytes ++ []) ≡ ok (arrived, []))
    × (Decoding.decode arrived limits ≡ ok (Control.session_retry 5))
control-channel_example =
    control-channel sum_of true limits (omega arith) (omega arith) (Control.session_retry 5)
      (omega arith) retry_encoded retry_written []

abbrev header : MessageHeader
header = record {
  sequence = 3;
  transaction_id = 9;
  message_type = 42;
  priority = 127;
  version = 4;
  data_pre_padding_length = 0;
  data_offset = 0;
  ack_sequence = 2;
  flags = 1;
  compat_version = 1;
  reserved = 0;
}

-- A message without a middle and without data.
abbrev letter : Message
letter = record {
  header = header;
  lengths = record { front = 3; middle = 0; payload = 0 };
  front = 1 ∷ 2 ∷ 3 ∷ [];
  middle = [];
  payload = [];
}

wide : IsWide header
wide = record {
  sequence = omega arith;
  transaction_id = omega arith;
  message_type = omega arith;
  priority = omega arith;
  version = omega arith;
  data_pre_padding_length = omega arith;
  data_offset = omega arith;
  ack_sequence = omega arith;
  flags = omega arith;
  compat_version = omega arith;
  reserved = omega arith;
}

abbrev envelope : Frame
envelope = record { tag = Tag.message; segments = segments_of letter }

letter_encoded : Msg.encode letter limits ≡ ok envelope
unfolding Msg.encode checked_length validate_loop validate_segments segments_of Hdr.encode Hdr.write
    le_bytes Enc.new Enc.reserve Enc.raw Enc.u8 Enc.u16 Enc.u32 Enc.u64 Enc.finish
letter_encoded = refl

abbrev letter_bytes : List ℕ
letter_bytes =
    Crc.encode_preamble sum_of Tag.message
      (record { len = 41; alignment = 8 } ∷ record { len = 3; alignment = 8 } ∷ [])
    ++ Crc.body sum_of true (
        record { alignment = 8; content = Hdr.encode header }
        ∷ record { alignment = 8; content = 1 ∷ 2 ∷ 3 ∷ [] }
        ∷ [])

letter_written : Crc.encode sum_of true envelope limits ≡ ok letter_bytes
unfolding Crc.encode tag_code normalized_segments drop_empty_tail descriptors crc_size crc_size_loop
    valid_alignment is_power_of_two segments_of Hdr.encode Hdr.write le_bytes Enc.new Enc.reserve
    Enc.raw Enc.u8 Enc.u16 Enc.u32 Enc.u64 Enc.finish
letter_written = refl

message-channel_example :
    (arrived : Frame) × (read sum_of true limits (letter_bytes ++ 7 ∷ []) ≡ ok (arrived, 7 ∷ []))
    × (Msg.decode arrived limits ≡ ok letter)
message-channel_example =
    message-channel sum_of true limits letter wide letter_encoded letter_written (7 ∷ [])
