-- ===== src/Msgr/Control/Overlong.antt =====
-- Keepalives whose nanoseconds are a second or more, in src/msgr/control.rs.
use rados_rs.Common.{
  ℕ, ◌^◌, ◌≤◌, ◌≡◌, ◌∙◌, arith, true, false, List, [], ◌++◌, append_assoc, append-nil, length,
  length-append, ok, err, ltb, leb, le→ltb, le→leb, u32_max,
}
use rados_rs.Wire.Bytes.{le_bytes, length-le_bytes}
use rados_rs.Wire.Decoder.{new}
use rados_rs.Wire.Decoder.Cursor.{cursor, new-cursor, error-cursor, u32-cursor}
use rados_rs.Wire.Decoder.Read.{converted_passes}
use rados_rs.Msgr.Frame.{Tag, tag_code, Limits, malformed, of_wire}
use rados_rs.Msgr.Control.{Control, Timestamp}
use rados_rs.Msgr.Control.Encode.{encode, frame_of}
use rados_rs.Msgr.Control.Decode.{
  decode_timestamp, decode_payload, decode_content, value_of, decode_segment, decode_segments,
  is_control, decode,
}
use rados_rs.Msgr.Control.Layout.{Half, payload_bytes, timestamp_bytes}
use rados_rs.Msgr.Control.Asks.{is_within, has_tag}
use rados_rs.Msgr.Control.Outcome.{encode_control-layout}

module _ (t : Timestamp) (seconds : Half t.seconds) (nanoseconds : Half t.nanoseconds)
    (over : 10 ^ 9 ≤ t.nanoseconds) where
  overlong_read :
      (m : ℕ) (front rest : List ℕ)
      → decode_timestamp (cursor front (timestamp_bytes t ++ rest) m) ≡ err malformed
  unfolding decode_timestamp
  overlong_read m front rest =
      simp
        (
          append_assoc,
          u32-cursor t.seconds seconds,
          u32-cursor t.nanoseconds nanoseconds,
          le→ltb t.nanoseconds (10 ^ 9) over,
        )
        (converted_passes {B = Timestamp} of_wire (λ d. err malformed) _ (error-cursor _ rest m))

  overlong_new : (m : ℕ) → decode_timestamp (new (timestamp_bytes t) m) ≡ err malformed
  overlong_new m =
      rw (new-cursor (timestamp_bytes t) m)
        (rw (append-nil (timestamp_bytes t)) at (overlong_read m [] []))

  module _ (limits : Limits) (small : limits.max_segment_bytes ≤ u32_max)
      (room : 8 ≤ limits.max_segment_bytes) where
    length_lem : length (timestamp_bytes t) ≡ 8
    length_lem =
        length-append (le_bytes 4 t.seconds) (le_bytes 4 t.nanoseconds)
        ∙ omega (arith, length-le_bytes 4 t.seconds, length-le_bytes 4 t.nanoseconds)

    -- A keepalive with 32-bit words whose nanoseconds are a second or more is encoded, under a limit of
    -- segments of at least 8 bytes and of 32 bits, and its frame is refused as malformed by the decoder
    -- under the same limits; so is its acknowledgment.
    pub overlong-refused :
        (encode (Control.keepalive2 t) limits ≡ ok (frame_of Tag.keepalive2 (timestamp_bytes t)))
        × (decode (frame_of Tag.keepalive2 (timestamp_bytes t)) limits ≡ err malformed)
        × (encode (Control.keepalive2_ack t) limits
            ≡ ok (frame_of Tag.keepalive2_ack (timestamp_bytes t)))
        × (decode (frame_of Tag.keepalive2_ack (timestamp_bytes t)) limits ≡ err malformed)
    unfolding decode decode_segments decode_segment value_of decode_content decode_payload
        is_control tag_code payload_bytes is_within has_tag
    overlong-refused =
        let fits : leb (length (timestamp_bytes t)) limits.max_segment_bytes ≡ true =
          le→leb _ _ (omega (arith, length_lem, room)) in
        let under : ltb limits.max_segment_bytes (length (timestamp_bytes t)) ≡ false =
          le→ltb _ _ (omega (arith, length_lem, room)) in
        (
          rw fits at (encode_control-layout limits small (Control.keepalive2 t) tt),
          simp (under, overlong_new limits.max_segment_bytes),
          rw fits at (encode_control-layout limits small (Control.keepalive2_ack t) tt),
          simp (under, overlong_new limits.max_segment_bytes),
        )
