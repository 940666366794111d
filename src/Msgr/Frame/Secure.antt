-- ===== src/Msgr/Frame/Secure.antt =====
-- `validate_frame_size` of src/msgr/secure.rs: what a frame takes on an encrypted connection.
use rados_rs.Common.{
  ℕ, ◌+◌, ◌-◌, ◌%◌, not, List, [], ◌∷◌, length, Result, ok, err, ◌>>=◌, ◌>>◌, ensure, ok_or, ltb,
  if◌then◌else◌, u64_max, checked_add, to_u32,
}
use rados_rs.Msgr.Frame.{
  ack, tag_code, Limits, Segment, Frame, FrameError, limit_exceeded, malformed, Descriptor,
  normalized_segments, valid_alignment,
}

abbrev pub inline_size : ℕ
inline_size = 48

abbrev pub block_size : ℕ
block_size = 16

abbrev pub tag_size : ℕ
tag_size = 16

abbrev pub secure_preamble_size : ℕ
secure_preamble_size = 32 + 48 + 16

-- `(length + 15) & !15`
unfoldable pub padded_length : ℕ → Result FrameError ℕ
padded_length len = do
  value ← ok_or (checked_add len (block_size - 1)) limit_exceeded
  ok (value - value % block_size)

unfoldable pub validate_each : Limits → List Descriptor → Result FrameError (Unit {0})
validate_each limits [] = ok tt
validate_each limits (d ∷ rest) = do
  ensure (valid_alignment d.alignment) malformed
  ensure (not (ltb limits.max_segment_bytes d.len)) limit_exceeded
  validate_each limits rest

unfoldable pub add_padded : ℕ → List Descriptor → Result FrameError ℕ
unfolding padded_length
add_padded size [] = ok size
add_padded size (d ∷ rest) = do
  padded ← padded_length d.len
  next ← ok_or (checked_add size padded) limit_exceeded
  add_padded next rest

-- What the first segment adds to the size, beyond the 48 bytes in the preamble's block.
unfoldable pub add_first : ℕ → Result FrameError (ℕ × ℕ)
add_first padded =
    if ltb inline_size padded
    then (do
      size ←
          ok_or (checked_add secure_preamble_size (padded - inline_size + tag_size)) limit_exceeded
      ok (size, 2))
    else ok (secure_preamble_size, 1)

unfoldable pub add_others : ℕ × ℕ → List Descriptor → Result FrameError (ℕ × ℕ)
unfolding add_padded
add_others (size, records) [] = ok (size, records)
add_others (size, records) (d ∷ rest) = do
  base ← ok_or (checked_add size (block_size + tag_size)) limit_exceeded
  whole ← add_padded base (d ∷ rest)
  ok (whole, records + 1)

-- The wire size and the number of records; there is at least one descriptor.
unfoldable pub validate_descriptors : List Descriptor → Limits → Result FrameError (ℕ × ℕ)
unfolding validate_each padded_length add_first add_others
validate_descriptors [] limits = err malformed
validate_descriptors (first ∷ rest) limits = do
  validate_each limits (first ∷ rest)
  first_padded ← padded_length first.len
  base ← add_first first_padded
  (wire_size, records) ← add_others base rest
  ensure (not (ltb limits.max_frame_bytes wire_size)) limit_exceeded
  ensure (not (ltb u64_max wire_size)) limit_exceeded
  ok (wire_size, records)

-- The descriptors that `PreparedFrame::new` makes.
unfoldable pub prepared_descriptors : List Segment → Result FrameError (List Descriptor)
prepared_descriptors [] = ok []
prepared_descriptors (s ∷ rest) =
    let others = prepared_descriptors rest in
    do
      ensure (valid_alignment s.alignment) malformed
      len ← ok_or (to_u32 (length s.content)) limit_exceeded
      ds ← others
      ok (record { len = len; alignment = s.alignment } ∷ ds)

unfoldable pub validate_frame_size : Frame → Limits → Result FrameError (ℕ × ℕ)
unfolding validate_descriptors prepared_descriptors
validate_frame_size frame limits = do
  segments ← normalized_segments frame.segments
  ensure (not (ltb (tag_code ack) (tag_code frame.tag))) malformed
  ds ← prepared_descriptors segments
  validate_descriptors ds limits
