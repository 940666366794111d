-- ===== src/Osd/Backoff.antt =====
-- Backoffs of src/osd/backoff.rs: the interval of objects that an OSD asks a client to hold back,
-- and its messages.
pub mod Acknowledge
pub mod Interval
pub mod RoundTrip
use Prim.Native.Nat.{Ordering}
use rados_rs.Common.{
  ℕ, ◌+◌, Bool, true, false, not, ◌&&◌, ◌||◌, List, [], ◌∷◌, length, Result, ok, err, ◌==◌, ltb,
  leb, if◌then◌else◌, to_u32, ok_or, ensure,
}
use rados_rs.Common.Int.{ℤ}
use rados_rs.Common.Order.{is_eq, is_lt, is_gt}
use rados_rs.Maps.{Pg}
use rados_rs.Wire.Errors.{WireError, malformed, limit_exceeded, unsupported_version}
use rados_rs.Wire.Encoder as Enc
use rados_rs.Wire.Encoder.{Encoder}
use rados_rs.Wire.Decoder as Decoding
use rados_rs.Wire.Decoder.Read.{
  Read, ◌>>=◌, ◌>>◌, pure, lift, check, require, within, opened, at_end,
}
use rados_rs.Msgr.Message.{Message, MessageLengths}
use rados_rs.Msgr.Message.Header.{MessageHeader}
use rados_rs.Osd.{Limits}
use rados_rs.Osd.HObject.{HObject, compare_hobject, encode_hobject, decode_hobject, is_empty}

abbrev pub message_osd_backoff : ℕ
message_osd_backoff = 61

abbrev pub backoff_block : ℕ
backoff_block = 1

abbrev pub backoff_ack_block : ℕ
backoff_ack_block = 2

abbrev pub backoff_unblock : ℕ
backoff_unblock = 3

-- `begin` and `end` are the fields `first` and `last`.
pub record Backoff : Type 0 where
  pub pg : Pg
  pub shard : ℤ
  pub map_epoch : ℕ
  pub operation : ℕ
  pub id : ℕ
  pub first : HObject
  pub last : HObject

unfoldable pub contains : Backoff → HObject → Bool
contains b target =
    if is_eq (compare_hobject b.first b.last)
    then is_eq (compare_hobject target b.first)
    else not (is_gt (compare_hobject b.first target)) && is_lt (compare_hobject target b.last)

unfoldable pub read_spg : Read (Pg × ℤ)
read_spg = do
  pool ← lift Decoding.u64
  seed ← lift Decoding.u32
  preferred ← lift Decoding.i32
  shard ← lift Decoding.i8
  at_end
  pure (record { pool = pool; seed = seed; preferred = preferred }, shard)

-- The test of the payload's own version reads it only where the envelope's version passes; both
-- failures are the same error.
unfoldable pub read_spg_version : ℕ → Read (Pg × ℤ)
unfolding read_spg
read_spg_version version = do
  require (version == 1) (unsupported_version 1 version)
  inner ← lift Decoding.u8
  require (inner == 1) (unsupported_version 1 version)
  read_spg

unfoldable pub decode_spg : Read (Pg × ℤ)
unfolding read_spg_version
decode_spg = do (version, payload) ← opened 1; check; within payload (read_spg_version version)

unfoldable pub is_backoff_operation : ℕ → Bool
is_backoff_operation operation = operation == backoff_block || operation == backoff_unblock

unfoldable pub read_backoff : Read Backoff
unfolding decode_spg is_backoff_operation
read_backoff = do
  (pg, shard) ← decode_spg
  map_epoch ← lift Decoding.u32
  operation ← lift Decoding.u8
  require (is_backoff_operation operation) (unsupported_version backoff_unblock operation)
  id ← lift Decoding.u64
  first ← decode_hobject
  last ← decode_hobject
  at_end
  pure (record {
    pg = pg;
    shard = shard;
    map_epoch = map_epoch;
    operation = operation;
    id = id;
    first = first;
    last = last;
  })

-- The guard at the head of `decode_backoff`.
unfoldable pub is_refused : Message → Limits → Bool
is_refused message limits =
    limits.max_bytes == 0
    || not (message.header.message_type == message_osd_backoff)
    || not (message.header.version == 1)
    || ltb 1 message.header.compat_version
    || not (is_empty message.middle)
    || not (is_empty message.payload)
    || ltb limits.max_bytes (length message.front)

-- The value of a read that is not continued.
unfoldable pub value_of {ℓ} :
    {A : Type ℓ} → Result WireError (A × Decoding.Decoder) → Result WireError A
value_of (ok (a, d)) = ok a
value_of (err e) = err e

unfoldable pub decode_backoff : Message → Limits → Result WireError Backoff
unfolding is_refused read_backoff value_of
decode_backoff message limits =
    if is_refused message limits
    then err malformed
    else value_of (read_backoff (Decoding.new message.front limits.max_bytes))
