-- ===== src/Msgr/Message/Header.antt =====
-- `MessageHeader` of src/msgr/message.rs.
use rados_rs.Common.{ℕ, List, [], length, Result, ok, err, ◌==◌, if◌then◌else◌}
use rados_rs.Wire.Errors.{WireError}
use rados_rs.Wire.Encoder as Enc
use rados_rs.Wire.Encoder.{Encoder}
use rados_rs.Wire.Decoder as Decoding
use rados_rs.Wire.Decoder.{Decoder}
use rados_rs.Wire.Decoder.Read.{Read, ◌>>=◌, ◌>>◌, pure, lift, check, require}
use rados_rs.Msgr.Frame.{FrameError, malformed, of_wire}

pub record MessageHeader : Type 0 where
  pub sequence : ℕ
  pub transaction_id : ℕ
  pub message_type : ℕ
  pub priority : ℕ
  pub version : ℕ
  pub data_pre_padding_length : ℕ
  pub data_offset : ℕ
  pub ack_sequence : ℕ
  pub flags : ℕ
  pub compat_version : ℕ
  pub reserved : ℕ

abbrev pub message_header_size : ℕ
message_header_size = 41

unfoldable pub write : MessageHeader → Encoder → Encoder
write h e0 =
    let e1 = Enc.u64 h.sequence e0 in
    let e2 = Enc.u64 h.transaction_id e1 in
    let e3 = Enc.u16 h.message_type e2 in
    let e4 = Enc.u16 h.priority e3 in
    let e5 = Enc.u16 h.version e4 in
    let e6 = Enc.u32 h.data_pre_padding_length e5 in
    let e7 = Enc.u16 h.data_offset e6 in
    let e8 = Enc.u64 h.ack_sequence e7 in
    let e9 = Enc.u8 h.flags e8 in let e10 = Enc.u16 h.compat_version e9 in Enc.u16 h.reserved e10

-- `expect`: a refusal would be a panic; the value there is arbitrary.
abbrev expect : Result WireError (List ℕ) → List ℕ
expect (ok bytes) = bytes
expect (err _) = []

unfoldable pub encode : MessageHeader → List ℕ
unfolding write
encode h = expect (Enc.finish (write h (Enc.new message_header_size)))

unfoldable pub read : Read MessageHeader
read = do
  sequence ← lift Decoding.u64
  transaction_id ← lift Decoding.u64
  message_type ← lift Decoding.u16
  priority ← lift Decoding.u16
  version ← lift Decoding.u16
  data_pre_padding_length ← lift Decoding.u32
  data_offset ← lift Decoding.u16
  ack_sequence ← lift Decoding.u64
  flags ← lift Decoding.u8
  compat_version ← lift Decoding.u16
  reserved ← lift Decoding.u16
  check
  pure (record {
    sequence = sequence;
    transaction_id = transaction_id;
    message_type = message_type;
    priority = priority;
    version = version;
    data_pre_padding_length = data_pre_padding_length;
    data_offset = data_offset;
    ack_sequence = ack_sequence;
    flags = flags;
    compat_version = compat_version;
    reserved = reserved;
  })

-- `decode` on a slice: exactly one header.
unfoldable pub whole : Read MessageHeader
unfolding read
whole = do
  header ← read
  left ← lift (λ d. (Decoding.remaining d, d))
  require (left == 0) WireError.malformed
  pure header

unfoldable pub of_read :
    Result WireError (MessageHeader × Decoder) → Result FrameError MessageHeader
of_read (ok (header, _)) = ok header
of_read (err e) = err (of_wire e)

unfoldable pub decode : List ℕ → Result FrameError MessageHeader
unfolding whole of_read
decode bytes =
    if length bytes == message_header_size
    then of_read (whole (Decoding.new bytes message_header_size))
    else err malformed
