-- ===== src/Osd/HObject.antt =====
-- Hashed objects, of src/osd/backoff.rs: their order, and their codec.
pub mod Order
pub mod RoundTrip
use Prim.Native.Nat.{compare, Ordering}
use rados_rs.Common.{
  ℕ, zero, suc, ◌+◌, ◌-◌, ◌*◌, ◌/◌, ◌%◌, ◌^◌, Bool, true, false, ◌&&◌, List, [], ◌∷◌, ◌==◌, leb,
  if◌then◌else◌,
}
use rados_rs.Common.Int.{ℤ, negsuc}
use rados_rs.Common.Order.{then_with, compare_ℤ, compare_bool, compare_list}
use rados_rs.Wire.Errors.{WireError}
use rados_rs.Wire.Encoder as Enc
use rados_rs.Wire.Encoder.{Encoder}
use rados_rs.Wire.Decoder as Decoding
use rados_rs.Wire.Decoder.Read.{
  Read, ◌>>=◌, ◌>>◌, pure, lift, check, require, within, opened, at_end,
}

pub record HObject : Type 0 where
  pub key : List ℕ
  pub object : List ℕ
  pub snapshot : ℕ
  pub hash : ℕ
  pub max : Bool
  pub namespace : List ℕ
  pub pool : ℤ

-- `reverse_bits` of a word of `k` bits
unfoldable pub reverse_bits : ℕ → ℕ → ℕ
reverse_bits zero v = 0
reverse_bits (suc k) v = v % 2 * 2 ^ k + reverse_bits k (v / 2)

abbrev pub is_empty : List ℕ → Bool
is_empty [] = true
is_empty (x ∷ xs) = false

unfoldable pub effective_key : HObject → List ℕ
effective_key o = if is_empty o.key then o.object else o.key

abbrev pub compare_bytes : List ℕ → List ℕ → Ordering
compare_bytes = compare_list compare

unfoldable pub compare_hobject : HObject → HObject → Ordering
unfolding effective_key
compare_hobject a b =
    if a.max && b.max
    then Ordering.eq
    else then_with
        (then_with
          (then_with
            (then_with
              (then_with (then_with (compare_bool a.max b.max) (compare_ℤ a.pool b.pool))
                (compare (reverse_bits 32 a.hash) (reverse_bits 32 b.hash)))
              (compare_bytes a.namespace b.namespace))
            (if is_empty a.key && is_empty b.key
              then Ordering.eq
              else compare_bytes (effective_key a) (effective_key b)))
          (compare_bytes a.object b.object))
        (compare a.snapshot b.snapshot)

unfoldable pub encode_payload : HObject → Encoder → Encoder
encode_payload o e0 =
    let e1 = Enc.bytes o.key e0 in
    let e2 = Enc.bytes o.object e1 in
    let e3 = Enc.u64 o.snapshot e2 in
    let e4 = Enc.u32 o.hash e3 in
    let e5 = Enc.bool o.max e4 in let e6 = Enc.bytes o.namespace e5 in Enc.i64 o.pool e6

unfoldable pub encode_hobject : HObject → Encoder → Encoder
unfolding encode_payload
encode_hobject o = Enc.versioned 4 3 (encode_payload o)

-- `i64::MIN`
abbrev pub i64_min : ℤ
i64_min = negsuc (2 ^ 63 - 1)

-- The namespace and the pool, which the third version does not have.
unfoldable pub read_location : ℕ → Read (List ℕ × ℤ)
read_location version = elim (leb 4 version) [
  | true ↦ do namespace ← lift Decoding.bytes; pool ← lift Decoding.i64; pure (namespace, pool)
  | false ↦ pure ([], i64_min)
]

unfoldable pub read_payload : ℕ → Read HObject
unfolding read_location
read_payload version = do
  key ← lift Decoding.bytes
  object ← lift Decoding.bytes
  snapshot ← lift Decoding.u64
  hash ← lift Decoding.u32
  max ← lift Decoding.bool
  location ← read_location version
  at_end
  pure (record {
    key = key;
    object = object;
    snapshot = snapshot;
    hash = hash;
    max = max;
    namespace = location.0;
    pool = location.1;
  })

unfoldable pub decode_hobject : Read HObject
unfolding read_payload
decode_hobject = do
  (version, payload) ← opened 4
  check
  require (leb 3 version && leb version 4) (WireError.unsupported_version 4 version)
  within payload (read_payload version)
