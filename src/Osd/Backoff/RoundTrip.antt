-- ===== src/Osd/Backoff/RoundTrip.antt =====
-- Encoding and then decoding backoffs, in src/osd/backoff.rs.
use rados_rs.Common.{
  ℕ, ◌+◌, ◌^◌, ◌≤◌, ◌<◌, ◌≡◌, refl, sym, ◌∙◌, arith, true, false, inl, inr, List, [], ◌∷◌, ◌++◌,
  append_assoc, length, length-append, ok, err, ◌==◌, ◌||◌, not, ltb, le→ltb, Bool-cases, u32_max,
  bind-inv, ok-injective, to_u32, ok_or, ap, append-nil,
}
use rados_rs.Common.Int.{ℤ}
use rados_rs.Maps.{Pg}
use rados_rs.Wire.Errors.{limit_exceeded, malformed, unsupported_version}
use rados_rs.Wire.Bytes.{
  le_bytes, length-le_bytes, le_bytes-byte, pattern_of, pattern_of-lt, IsSigned,
}
use rados_rs.Wire.Encoder as Enc
use rados_rs.Wire.Encoder.Emits.{
  Emits, Emits-then, Emits-u8, Emits-u32, Emits-u64, Emits-i8, Emits-i32, Emits-versioned,
  enveloped, length-enveloped,
}
use rados_rs.Wire.RoundTrip.{written_bytes, written_fits}
use rados_rs.Wire.Decoder.Cursor.{
  cursor, error-cursor, new-cursor, u8-cursor, u32-cursor, u64-cursor, i8-cursor, i32-cursor,
}
use rados_rs.Wire.Decoder.Read.{
  bind-ok, check-passes, within-new, opened, opened-cursor, at_end-cursor,
}
use rados_rs.Msgr.Message.{Message}
use rados_rs.Osd.{Limits}
use rados_rs.Osd.HObject.RoundTrip as Obj
use rados_rs.Osd.HObject.RoundTrip.{
  payload_bytes, hobject_bytes, length-hobject_bytes, encode_hobject-Emits, decode_hobject-cursor,
}
use rados_rs.Osd.Backoff.{
  Backoff, backoff_block, backoff_ack_block, backoff_unblock, read_spg, read_spg_version,
  decode_spg, read_backoff, is_backoff_operation, is_refused, value_of, decode_backoff,
}
use rados_rs.Osd.Backoff.Acknowledge.{
  encode_spg_payload, encode_spg, encode_front, message_of, encode, encode_acknowledgment,
}

-- The fields are of the widths that the source gives them.
pub record IsWide (b : Backoff) : Type 0 where
  pub pool : b.pg.pool < 2 ^ 64
  pub seed : b.pg.seed < 2 ^ 32
  pub preferred : IsSigned (2 ^ 32) b.pg.preferred
  pub shard : IsSigned (2 ^ 8) b.shard
  pub map_epoch : b.map_epoch < 2 ^ 32
  pub id : b.id < 2 ^ 64
  pub first : Obj.IsWide b.first
  pub last : Obj.IsWide b.last

spg_payload : Pg → ℤ → List ℕ
spg_payload pg shard =
    1
    ∷ (le_bytes 8 pg.pool
        ++ (le_bytes 4 pg.seed
            ++ (le_bytes 4 (pattern_of (2 ^ 32) pg.preferred) ++ (pattern_of (2 ^ 8) shard ∷ []))))

spg_bytes : Pg → ℤ → List ℕ
spg_bytes pg shard = enveloped 1 1 (spg_payload pg shard)

front_bytes : Backoff → ℕ → List ℕ
front_bytes b operation =
    spg_bytes b.pg b.shard
    ++ (le_bytes 4 b.map_epoch
        ++ (operation ∷ (le_bytes 8 b.id ++ (hobject_bytes b.first ++ hobject_bytes b.last))))

encode_spg-Emits :
    (pg : Pg) (shard : ℤ)
    → IsSigned (2 ^ 8) shard
    → Emits (encode_spg pg shard) (spg_bytes pg shard)
unfolding encode_spg encode_spg_payload spg_bytes spg_payload
encode_spg-Emits pg shard h =
    let byte =
      rw (le_bytes-byte _ (pattern_of-lt (2 ^ 8) shard (omega arith) h)) at (Emits-i8 shard) in
    Emits-versioned
      (simp append_assoc at (
        Emits-then
          (Emits-then (Emits-then (Emits-then (Emits-u8 1) (Emits-u64 pg.pool)) (Emits-u32 pg.seed))
            (Emits-i32 pg.preferred))
          byte))
      1 1

module _ (b : Backoff) (operation : ℕ) (w : IsWide b) where
  front-Emits : Emits (encode_front b operation) (front_bytes b operation)
  unfolding encode_front front_bytes
  front-Emits = simp append_assoc at (
      Emits-then
        (Emits-then
          (Emits-then
            (Emits-then (Emits-then (encode_spg-Emits b.pg b.shard w.shard) (Emits-u32 b.map_epoch))
              (Emits-u8 operation))
            (Emits-u64 b.id))
          (encode_hobject-Emits b.first))
        (encode_hobject-Emits b.last))

  read_spg-cursor :
      (m : ℕ)
      → read_spg_version 1 (cursor [] (spg_payload b.pg b.shard ++ []) m)
        ≡ ok ((b.pg, b.shard), cursor (spg_payload b.pg b.shard) [] m)
  unfolding read_spg_version read_spg spg_payload
  read_spg-cursor m = simp (
    append_assoc,
    u8-cursor 1,
    u64-cursor b.pg.pool w.pool,
    u32-cursor b.pg.seed w.seed,
    i32-cursor b.pg.preferred w.preferred,
    i8-cursor b.shard w.shard,
    at_end-cursor,
  )

  length-spg_payload : length (spg_payload b.pg b.shard) ≡ 18
  unfolding spg_payload
  length-spg_payload = simp (length-append, length-le_bytes)

  length-front :
      length (front_bytes b operation)
      ≡ length (payload_bytes b.first) + length (payload_bytes b.last) + 49
  unfolding front_bytes spg_bytes
  length-front =
      simp
        (length-append, length-le_bytes, length-enveloped, length-spg_payload, length-hobject_bytes)
        (omega arith)

  module _ (m : ℕ) (fits : length (front_bytes b operation) ≤ m) (small : m < 2 ^ 32) where
    decode_spg-cursor :
        (front rest : List ℕ)
        → decode_spg (cursor front (spg_bytes b.pg b.shard ++ rest) m)
          ≡ ok ((b.pg, b.shard), cursor (front ++ spg_bytes b.pg b.shard) rest m)
    unfolding decode_spg spg_bytes
    decode_spg-cursor front rest =
        bind-ok (opened 1) _ (
          opened-cursor 1 1 1 (spg_payload b.pg b.shard) (omega arith)
            (omega (arith, length-spg_payload)) m (omega (arith, length-front, length-spg_payload))
            front rest)
        ∙ check-passes _ _ (error-cursor (front ++ spg_bytes b.pg b.shard) rest m)
        ∙ within-new (read_spg_version 1) (spg_payload b.pg b.shard) m (read_spg-cursor m) _

    -- Reading the front: the backoff under its operation, if that is one that an OSD sends.
    read_backoff-cursor :
        is_backoff_operation operation ≡ true
        → read_backoff (cursor [] (front_bytes b operation ++ []) m)
          ≡ ok (record b { operation = operation }, cursor (front_bytes b operation) [] m)
    unfolding read_backoff front_bytes
    read_backoff-cursor known = simp (
      append_assoc,
      decode_spg-cursor,
      u32-cursor b.map_epoch w.map_epoch,
      u8-cursor operation,
      known,
      u64-cursor b.id w.id,
      decode_hobject-cursor b.first w.first m (omega (arith, length-front)) small,
      decode_hobject-cursor b.last w.last m (omega (arith, length-front)) small,
      at_end-cursor,
    )

    read_backoff-refuses :
        is_backoff_operation operation ≡ false
        → read_backoff (cursor [] (front_bytes b operation ++ []) m)
          ≡ err (unsupported_version backoff_unblock operation)
    unfolding read_backoff front_bytes
    read_backoff-refuses unknown = simp (
      append_assoc,
      decode_spg-cursor,
      u32-cursor b.map_epoch w.map_epoch,
      u8-cursor operation,
      unknown,
    )

-- The message that an encoding gives, and the layout of its front.
encode-inv :
    (b : Backoff) (operation : ℕ) (limits : Limits) {message : Message}
    → IsWide b
    → limits.max_bytes < 2 ^ 32
    → encode b operation limits ≡ ok message
    → (n : ℕ) × (message ≡ message_of (front_bytes b operation) n)
      × (length (front_bytes b operation) ≤ limits.max_bytes)
unfolding encode
encode-inv b operation limits {message} w h e =
    let (front, hf, e1) =
      bind-inv (Enc.finish (encode_front b operation (Enc.new limits.max_bytes))) _ e in
    let (n, hn, e2) = bind-inv (ok_or (to_u32 (length front)) limit_exceeded) _ e1 in
    let small : limits.max_bytes ≤ u32_max = omega (arith, h) in
    let emits = front-Emits b operation w in
    (
      n,
      sym (ok-injective e2)
          ∙ ap (λ bs. message_of bs n) (sym (written_bytes emits limits.max_bytes small hf)),
      written_fits emits limits.max_bytes small hf,
    )

module _ (b : Backoff) (limits : Limits) (w : IsWide b) (h : limits.max_bytes < 2 ^ 32)
    (room : 0 < limits.max_bytes) where
  decode_lem :
      (operation n : ℕ)
      → length (front_bytes b operation) ≤ limits.max_bytes
      → decode_backoff (message_of (front_bytes b operation) n) limits
        ≡ value_of (read_backoff (cursor [] (front_bytes b operation ++ []) limits.max_bytes))
  unfolding decode_backoff is_refused message_of
  decode_lem operation n fits =
      let positive : (limits.max_bytes == 0) ≡ false = ground arith in
      let within_limit : ltb limits.max_bytes (length (front_bytes b operation)) ≡ false =
        le→ltb limits.max_bytes (length (front_bytes b operation)) fits in
      simp (positive, within_limit, new-cursor, append-nil)

  -- A backoff whose fields have the source's widths, encoded as a block or an unblock under a
  -- positive limit of 32 bits, is read back from its message under the same limits, with that
  -- operation.
  pub decode_backoff-encode :
      (operation : ℕ)
      → is_backoff_operation operation ≡ true
      → {message : Message} → encode b operation limits ≡ ok message
      → decode_backoff message limits ≡ ok (record b { operation = operation })
  unfolding value_of
  decode_backoff-encode operation known e =
      let (n, made, fits) = encode-inv b operation limits w h e in
      rw made (
        decode_lem operation n fits
        ∙ ap value_of (read_backoff-cursor b operation w limits.max_bytes fits h known))

  -- An acknowledgment is not a backoff: decoding the message that acknowledges a backoff whose fields
  -- have the source's widths, under the same positive limit of 32 bits, fails with its operation as
  -- an unsupported version.
  pub decode_backoff-encode_acknowledgment :
      {message : Message}
      → encode_acknowledgment b limits ≡ ok message
      → decode_backoff message limits ≡ err (unsupported_version backoff_unblock backoff_ack_block)
  unfolding encode_acknowledgment value_of is_backoff_operation
  decode_backoff-encode_acknowledgment {message} e =
      elim (Bool-cases (limits.max_bytes == 0 || not (b.operation == backoff_block))) [
        | inl refused ↦ let never : err malformed ≡ ok message = (rw refused at e) in cc
        | inr taken ↦
            let (n, made, fits) = encode-inv b backoff_ack_block limits w h (rw taken at e) in
            rw made (
              decode_lem backoff_ack_block n fits
              ∙ ap value_of
                  (read_backoff-refuses b backoff_ack_block w limits.max_bytes fits h refl))
      ]
