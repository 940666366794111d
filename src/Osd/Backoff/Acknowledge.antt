-- ===== src/Osd/Backoff/Acknowledge.antt =====
-- The messages that src/osd/backoff.rs encodes.
use rados_rs.Common.{
  ℕ, not, ◌||◌, List, [], length, Result, ok, err, ◌>>=◌, ◌==◌, if◌then◌else◌, to_u32, ok_or,
}
use rados_rs.Common.Int.{ℤ}
use rados_rs.Maps.{Pg}
use rados_rs.Wire.Errors.{WireError, malformed, limit_exceeded}
use rados_rs.Wire.Encoder as Enc
use rados_rs.Wire.Encoder.{Encoder}
use rados_rs.Msgr.Message.{Message}
use rados_rs.Msgr.Message.Header.{MessageHeader}
use rados_rs.Osd.{Limits}
use rados_rs.Osd.HObject.{encode_hobject}
use rados_rs.Osd.Backoff.{Backoff, message_osd_backoff, backoff_block, backoff_ack_block}

unfoldable pub encode_spg_payload : Pg → ℤ → Encoder → Encoder
encode_spg_payload pg shard e0 =
    let e1 = Enc.u8 1 e0 in
    let e2 = Enc.u64 pg.pool e1 in
    let e3 = Enc.u32 pg.seed e2 in let e4 = Enc.i32 pg.preferred e3 in Enc.i8 shard e4

unfoldable pub encode_spg : Pg → ℤ → Encoder → Encoder
unfolding encode_spg_payload
encode_spg pg shard = Enc.versioned 1 1 (encode_spg_payload pg shard)

unfoldable pub encode_front : Backoff → ℕ → Encoder → Encoder
unfolding encode_spg
encode_front b operation e0 =
    let e1 = encode_spg b.pg b.shard e0 in
    let e2 = Enc.u32 b.map_epoch e1 in
    let e3 = Enc.u8 operation e2 in
    let e4 = Enc.u64 b.id e3 in let e5 = encode_hobject b.first e4 in encode_hobject b.last e5

-- `MessageHeader::default()`
abbrev pub default_header : MessageHeader
default_header = record {
  sequence = 0;
  transaction_id = 0;
  message_type = 0;
  priority = 0;
  version = 0;
  data_pre_padding_length = 0;
  data_offset = 0;
  ack_sequence = 0;
  flags = 0;
  compat_version = 0;
  reserved = 0;
}

-- The message that carries a front of these bytes.
unfoldable pub message_of : List ℕ → ℕ → Message
message_of front len = record {
  header = record default_header {
    message_type = message_osd_backoff;
    version = 1;
    compat_version = 1;
  };
  lengths = record { front = len; middle = 0; payload = 0 };
  front = front;
  middle = [];
  payload = [];
}

unfoldable pub encode : Backoff → ℕ → Limits → Result WireError Message
unfolding encode_front message_of
encode b operation limits = do
  front ← Enc.finish (encode_front b operation (Enc.new limits.max_bytes))
  len ← ok_or (to_u32 (length front)) limit_exceeded
  ok (message_of front len)

unfoldable pub encode_acknowledgment : Backoff → Limits → Result WireError Message
unfolding encode
encode_acknowledgment b limits =
    if limits.max_bytes == 0 || not (b.operation == backoff_block)
    then err malformed
    else encode b backoff_ack_block limits
