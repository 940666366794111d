-- ===== src/Msgr/Frame/Runs.antt =====
-- Runs of the frame encoder on concrete frames.
use rados_rs.Common.{ℕ, ◌≤◌, ◌≡◌, refl, true, List, [], ◌∷◌, ◌++◌, length, ok}
use rados_rs.Msgr.Frame.{
  Tag, tag_code, Limits, Segment, Frame, Descriptor, drop_empty_tail, normalized_segments,
  is_power_of_two, valid_alignment, descriptors, crc_size_loop, crc_size,
}
use rados_rs.Msgr.Frame.Crc.{encode_preamble, body, encode}
use rados_rs.Msgr.Frame.Read.{read}
use rados_rs.Msgr.Frame.RoundTrip.{read-encode}
use rados_rs.Msgr.Frame.Sizes.{encode-fits}

-- A checksum for the runs.
abbrev sum_of : ℕ → List ℕ → ℕ
sum_of seed [] = seed
sum_of seed (b ∷ bs) = b

abbrev limits : Limits
limits = record {
  max_segment_bytes = 64;
  max_frame_bytes = 128;
  max_addresses = 4;
  max_auth_bytes = 64;
}

abbrev first : Segment
first = record { alignment = 8; content = 1 ∷ 2 ∷ [] }

abbrev second : Segment
second = record { alignment = 4096; content = 9 ∷ [] }

abbrev frame : Frame
frame = record { tag = Tag.message; segments = first ∷ second ∷ [] }

abbrev on_wire : List ℕ
on_wire =
    encode_preamble sum_of Tag.message
      (record { len = 2; alignment = 8 } ∷ record { len = 1; alignment = 4096 } ∷ [])
    ++ body sum_of true (first ∷ second ∷ [])

frame_written : encode sum_of true frame limits ≡ ok on_wire
unfolding encode tag_code normalized_segments drop_empty_tail descriptors crc_size crc_size_loop
    valid_alignment is_power_of_two
frame_written = refl

encode-fits_example :
    (length on_wire ≤ limits.max_frame_bytes)
    × ((segments : List Segment) × (ds : List Descriptor) × (normalized_segments frame.segments
          ≡ ok segments)
        × (descriptors segments ≡ ok ds)
        × (crc_size ds limits ≡ ok (length on_wire)))
encode-fits_example = encode-fits sum_of true limits frame frame_written

read-encode_example :
    (segments : List Segment) × (normalized_segments frame.segments ≡ ok segments)
    × (read sum_of true limits (on_wire ++ 7 ∷ [])
        ≡ ok (record { tag = frame.tag; segments = segments }, 7 ∷ []))
read-encode_example = read-encode sum_of true limits frame frame_written (7 ∷ [])
