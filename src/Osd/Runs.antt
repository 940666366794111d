-- ===== src/Osd/Runs.antt =====
-- Runs of the order and the messages of backoffs on concrete objects.
use Prim.Native.Nat.Ordering.{eq}
use rados_rs.Common.{ℕ, List, ◌≡◌, refl, ◌↔◌, arith, true, false, [], ◌∷◌, ok, err}
use rados_rs.Common.Int.{pos, negsuc}
use rados_rs.Wire.Errors.{unsupported_version}
use rados_rs.Wire.Encoder as Enc
use rados_rs.Wire.Bytes.{le_bytes}
use rados_rs.Msgr.Message.{Message}
use rados_rs.Osd.{Limits}
use rados_rs.Osd.HObject.{HObject, compare_hobject, encode_hobject, encode_payload}
use rados_rs.Osd.HObject.Order.{
  SamePlace, sort_key, compare_key, compare_hobject-sort_key, compare_hobject-equal,
}
use rados_rs.Osd.HObject.RoundTrip as Obj
use rados_rs.Osd.Backoff.{Backoff, contains, decode_backoff, is_backoff_operation}
use rados_rs.Osd.Backoff.Acknowledge.{
  encode, encode_acknowledgment, encode_front, encode_spg, encode_spg_payload, message_of,
  default_header,
}
use rados_rs.Osd.Backoff.Interval.{InInterval, contains-interval}
use rados_rs.Osd.Backoff.RoundTrip.{
  IsWide, decode_backoff-encode, decode_backoff-encode_acknowledgment,
}

abbrev low : HObject
low = record {
  key = [];
  object = 97 ∷ [];
  snapshot = 5;
  hash = 3;
  max = false;
  namespace = 110 ∷ [];
  pool = pos 7;
}

abbrev high : HObject
high = record low { key = 122 ∷ [] }

abbrev middle : HObject
middle = record low { object = 109 ∷ [] }

abbrev hold : Backoff
hold = record {
  pg = record { pool = 7; seed = 3; preferred = negsuc 0 };
  shard = negsuc 0;
  map_epoch = 9;
  operation = 1;
  id = 42;
  first = low;
  last = high;
}

abbrev limits : Limits
limits = record { max_bytes = 4096; max_operations = 4 }

object_wide : Obj.IsWide low
object_wide = record { snapshot = omega arith; hash = omega arith; pool = omega arith }

high_wide : Obj.IsWide high
high_wide = record { snapshot = omega arith; hash = omega arith; pool = omega arith }

wide : IsWide hold
wide = record {
  pool = omega arith;
  seed = omega arith;
  preferred = omega arith;
  shard = omega arith;
  map_epoch = omega arith;
  id = omega arith;
  first = object_wide;
  last = high_wide;
}

compare_hobject-sort_key_example :
    compare_hobject low middle ≡ compare_key (sort_key low) (sort_key middle)
compare_hobject-sort_key_example = compare_hobject-sort_key low middle

compare_hobject-equal_example : (compare_hobject low middle ≡ eq) ↔ SamePlace low middle
compare_hobject-equal_example = compare_hobject-equal low middle (omega arith) (omega arith)

contains-interval_example :
    (contains hold middle ≡ true) ↔ InInterval (sort_key low) (sort_key high) (sort_key middle)
contains-interval_example = contains-interval hold middle

abbrev front : ℕ → List ℕ
front operation =
    1 ∷ 1 ∷ 18 ∷ 0 ∷ 0 ∷ 0 ∷ 1 ∷ 7 ∷ 0 ∷ 0 ∷ 0 ∷ 0 ∷ 0 ∷ 0 ∷ 0 ∷ 3 ∷ 0 ∷ 0 ∷ 0 ∷ 255 ∷ 255 ∷ 255
    ∷ 255 ∷ 255 ∷ 9 ∷ 0 ∷ 0 ∷ 0 ∷ operation ∷ 42 ∷ 0 ∷ 0 ∷ 0 ∷ 0 ∷ 0 ∷ 0 ∷ 0 ∷ 4 ∷ 3 ∷ 35 ∷ 0 ∷ 0
    ∷ 0 ∷ 0 ∷ 0 ∷ 0 ∷ 0 ∷ 1 ∷ 0 ∷ 0 ∷ 0 ∷ 97 ∷ 5 ∷ 0 ∷ 0 ∷ 0 ∷ 0 ∷ 0 ∷ 0 ∷ 0 ∷ 3 ∷ 0 ∷ 0 ∷ 0 ∷ 0 ∷ 1
    ∷ 0 ∷ 0 ∷ 0 ∷ 110 ∷ 7 ∷ 0 ∷ 0 ∷ 0 ∷ 0 ∷ 0 ∷ 0 ∷ 0 ∷ 4 ∷ 3 ∷ 36 ∷ 0 ∷ 0 ∷ 0 ∷ 1 ∷ 0 ∷ 0 ∷ 0 ∷ 122
    ∷ 1 ∷ 0 ∷ 0 ∷ 0 ∷ 97 ∷ 5 ∷ 0 ∷ 0 ∷ 0 ∷ 0 ∷ 0 ∷ 0 ∷ 0 ∷ 3 ∷ 0 ∷ 0 ∷ 0 ∷ 0 ∷ 1 ∷ 0 ∷ 0 ∷ 0 ∷ 110
    ∷ 7 ∷ 0 ∷ 0 ∷ 0 ∷ 0 ∷ 0 ∷ 0 ∷ 0 ∷ []

abbrev carrying : ℕ → Message
carrying operation = record {
  header = record default_header { message_type = 61; version = 1; compat_version = 1 };
  lengths = record { front = 120; middle = 0; payload = 0 };
  front = front operation;
  middle = [];
  payload = [];
}

block_encoded : encode hold 1 limits ≡ ok (carrying 1)
unfolding encode encode_front encode_spg encode_spg_payload encode_hobject encode_payload message_of
    le_bytes Enc.new Enc.reserve Enc.raw Enc.u8 Enc.u32 Enc.u64 Enc.i8 Enc.i32 Enc.i64 Enc.bool
    Enc.bytes Enc.finish Enc.envelope Enc.versioned
block_encoded = refl

acknowledged : encode_acknowledgment hold limits ≡ ok (carrying 2)
unfolding encode_acknowledgment encode encode_front encode_spg encode_spg_payload encode_hobject
    encode_payload message_of le_bytes Enc.new Enc.reserve Enc.raw Enc.u8 Enc.u32 Enc.u64 Enc.i8
    Enc.i32 Enc.i64 Enc.bool Enc.bytes Enc.finish Enc.envelope Enc.versioned
acknowledged = refl

is_block : is_backoff_operation 1 ≡ true
unfolding is_backoff_operation
is_block = refl

decode_backoff-encode_example :
    decode_backoff (carrying 1) limits ≡ ok (record hold { operation = 1 })
decode_backoff-encode_example =
    decode_backoff-encode hold limits wide (omega arith) (omega arith) 1 is_block block_encoded

decode_backoff-encode_acknowledgment_example :
    decode_backoff (carrying 2) limits ≡ err (unsupported_version 3 2)
decode_backoff-encode_acknowledgment_example =
    decode_backoff-encode_acknowledgment hold limits wide (omega arith) (omega arith) acknowledged
