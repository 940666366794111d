-- ===== src/Msgr/Message.antt =====
-- src/msgr/message.rs: messages, their header of 41 bytes, and the frame that carries one.
-- A message's `receive_charge` is a permit of the receive budget that is held with it; it is no part
-- of its value (`PartialEq` skips it) and is left out.
pub mod Header
pub mod RoundTrip
mod Runs
use rados_rs.Common.{
  ℕ, ◌+◌, Bool, not, ◌&&◌, Option, none, some, List, [], ◌∷◌, length, Result, ok, err, ◌>>=◌, ◌>>◌,
  ensure, ok_or, ltb, leb, ◌==◌, if◌then◌else◌, u64_max, checked_add, to_u32, get_elem?,
}
use rados_rs.Msgr.Frame.{
  Tag, tag_code, Limits, Segment, Frame, FrameError, limit_exceeded, malformed, default_alignment,
  page_alignment,
}
use rados_rs.Msgr.Message.Header as Hdr
use rados_rs.Msgr.Message.Header.{MessageHeader}

pub record MessageLengths : Type 0 where
  pub front : ℕ
  pub middle : ℕ
  pub payload : ℕ

-- `payload` is the field `data`.
pub record Message : Type 0 where
  pub header : MessageHeader
  pub lengths : MessageLengths
  pub front : List ℕ
  pub middle : List ℕ
  pub payload : List ℕ

abbrev pub message_alignments : List ℕ
message_alignments = default_alignment ∷ default_alignment ∷ default_alignment ∷ page_alignment ∷ []

unfoldable pub checked_length : ℕ → Result FrameError ℕ
checked_length len = ok_or (to_u32 len) limit_exceeded

-- The loop of `validate_segments`: the alignments that are left, the total and the segments.
unfoldable pub validate_loop : Limits → List ℕ → ℕ → List Segment → Result FrameError ℕ
validate_loop limits alignments total [] = ok total
-- A fifth segment would index out of the table; callers have at most four.
validate_loop limits [] total (s ∷ rest) = err malformed
validate_loop limits (a ∷ alignments) total (s ∷ rest) = do
  ensure (s.alignment == a) malformed
  ensure (not (ltb limits.max_segment_bytes (length s.content))) limit_exceeded
  next ← ok_or (checked_add total (length s.content)) limit_exceeded
  validate_loop limits alignments next rest

unfoldable pub validate_segments : List Segment → Limits → Result FrameError (Unit {0})
unfolding validate_loop
validate_segments segments limits = do
  total ← validate_loop limits message_alignments 0 segments
  ensure (not (ltb limits.max_frame_bytes total)) limit_exceeded

unfoldable pub segments_of : Message → List Segment
segments_of m =
    record { alignment = default_alignment; content = Hdr.encode m.header }
    ∷ record { alignment = default_alignment; content = m.front }
    ∷ record { alignment = default_alignment; content = m.middle }
    ∷ record { alignment = page_alignment; content = m.payload }
    ∷ []

unfoldable pub encode : Message → Limits → Result FrameError Frame
unfolding checked_length validate_segments segments_of
encode m limits = do
  front ← checked_length (length m.front)
  middle ← checked_length (length m.middle)
  payload ← checked_length (length m.payload)
  ensure
      (m.lengths.front == front
        && m.lengths.middle == middle
        && m.lengths.payload == payload
        && leb m.header.data_pre_padding_length payload)
      malformed
  validate_segments (segments_of m) limits
  ok (record { tag = Tag.message; segments = segments_of m })

-- The bytes of a segment, none where it is not there.
unfoldable pub content_at : List Segment → ℕ → List ℕ
content_at segments i = elim (get_elem? segments i) [ none ↦ [] | some s ↦ s.content ]

unfoldable pub decode : Frame → Limits → Result FrameError Message
unfolding checked_length validate_segments content_at
decode frame limits = do
  ensure
      (tag_code frame.tag == 17 && leb 1 (length frame.segments) && leb (length frame.segments) 4)
      malformed
  validate_segments frame.segments limits
  header ← Hdr.decode (content_at frame.segments 0)
  ensure (leb header.data_pre_padding_length (length (content_at frame.segments 3))) malformed
  front ← checked_length (length (content_at frame.segments 1))
  middle ← checked_length (length (content_at frame.segments 2))
  payload ← checked_length (length (content_at frame.segments 3))
  ok (record {
    header = header;
    lengths = record { front = front; middle = middle; payload = payload };
    front = content_at frame.segments 1;
    middle = content_at frame.segments 2;
    payload = content_at frame.segments 3;
  })
