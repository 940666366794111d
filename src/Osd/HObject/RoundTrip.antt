-- ===== src/Osd/HObject/RoundTrip.antt =====
-- Encoding and then decoding hashed objects, in src/osd/backoff.rs.
use rados_rs.Common.{
  ℕ, ◌+◌, ◌^◌, ◌≤◌, ◌<◌, ◌≡◌, ◌∙◌, arith, List, [], ◌∷◌, ◌++◌, append_assoc, length, length-append,
  ok,
}
use rados_rs.Wire.Bytes.{le_bytes, length-le_bytes, pattern_of, IsSigned}
use rados_rs.Wire.Encoder.{bool_byte}
use rados_rs.Wire.Encoder.Emits.{
  Emits, Emits-then, Emits-u32, Emits-u64, Emits-i64, Emits-bool, Emits-bytes, Emits-versioned,
  prefixed, enveloped, length-prefixed, length-enveloped,
}
use rados_rs.Wire.Decoder.Cursor.{
  cursor, error-cursor, u32-cursor, u64-cursor, i64-cursor, bool-cursor, bytes-cursor,
}
use rados_rs.Wire.Decoder.Read.{
  bind-ok, check-passes, within-new, opened, opened-cursor, at_end-cursor,
}
use rados_rs.Osd.HObject.{
  HObject, encode_payload, encode_hobject, read_location, read_payload, decode_hobject,
}

-- The fields are of the widths that the source gives them.
pub record IsWide (o : HObject) : Type 0 where
  pub snapshot : o.snapshot < 2 ^ 64
  pub hash : o.hash < 2 ^ 32
  pub pool : IsSigned (2 ^ 64) o.pool

-- The layout of an object.
pub payload_bytes : HObject → List ℕ
payload_bytes o =
    prefixed o.key
    ++ (prefixed o.object
        ++ (le_bytes 8 o.snapshot
            ++ (le_bytes 4 o.hash
                ++ (bool_byte o.max
                    ∷ (prefixed o.namespace ++ le_bytes 8 (pattern_of (2 ^ 64) o.pool))))))

pub hobject_bytes : HObject → List ℕ
hobject_bytes o = enveloped 4 3 (payload_bytes o)

pub length-hobject_bytes : (o : HObject) → length (hobject_bytes o) ≡ length (payload_bytes o) + 6
unfolding hobject_bytes
length-hobject_bytes o = length-enveloped 4 3 (payload_bytes o)

payload-Emits : (o : HObject) → Emits (encode_payload o) (payload_bytes o)
unfolding encode_payload payload_bytes
payload-Emits o = simp append_assoc at (
    Emits-then
      (Emits-then
        (Emits-then
          (Emits-then
            (Emits-then (Emits-then (Emits-bytes o.key) (Emits-bytes o.object))
              (Emits-u64 o.snapshot))
            (Emits-u32 o.hash))
          (Emits-bool o.max))
        (Emits-bytes o.namespace))
      (Emits-i64 o.pool))

pub encode_hobject-Emits : (o : HObject) → Emits (encode_hobject o) (hobject_bytes o)
unfolding encode_hobject hobject_bytes
encode_hobject-Emits o = Emits-versioned (payload-Emits o) 4 3

-- Each byte string is shorter than the payload.
pub record Fits (o : HObject) (m : ℕ) : Type 0 where
  pub key : length o.key ≤ m
  pub object : length o.object ≤ m
  pub namespace : length o.namespace ≤ m

payload-Fits : (o : HObject) (m : ℕ) → length (payload_bytes o) ≤ m → Fits o m
unfolding payload_bytes
payload-Fits o m h =
    let h' = simp (length-append, length-prefixed, length-le_bytes) at h in
    record { key = omega arith; object = omega arith; namespace = omega arith }

module _ (o : HObject) (w : IsWide o) (m : ℕ) (fits : length (payload_bytes o) ≤ m)
    (small : m < 2 ^ 32) where
  read_payload-cursor :
      read_payload 4 (cursor [] (payload_bytes o ++ []) m) ≡ ok (o, cursor (payload_bytes o) [] m)
  unfolding read_payload read_location payload_bytes
  read_payload-cursor =
      let f = payload-Fits o m fits in
      simp (
        append_assoc,
        bytes-cursor o.key (omega (arith, f.key)) m f.key,
        bytes-cursor o.object (omega (arith, f.object)) m f.object,
        u64-cursor o.snapshot w.snapshot,
        u32-cursor o.hash w.hash,
        bool-cursor o.max,
        bytes-cursor o.namespace (omega (arith, f.namespace)) m f.namespace,
        i64-cursor o.pool w.pool,
        at_end-cursor,
      )

  pub decode_hobject-cursor :
      (front rest : List ℕ)
      → decode_hobject (cursor front (hobject_bytes o ++ rest) m)
        ≡ ok (o, cursor (front ++ hobject_bytes o) rest m)
  unfolding decode_hobject hobject_bytes
  decode_hobject-cursor front rest =
      bind-ok (opened 4) _
        (opened-cursor 4 3 4 (payload_bytes o) (omega arith) (omega arith) m fits front rest)
      ∙ check-passes _ _ (error-cursor (front ++ hobject_bytes o) rest m)
      ∙ within-new (read_payload 4) (payload_bytes o) m read_payload-cursor _
