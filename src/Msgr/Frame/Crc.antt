-- ===== src/Msgr/Frame/Crc.antt =====
-- `CrcCodec` of src/msgr/frame.rs: a preamble with descriptors, the segments, and their checksums.
-- `crc32c_append` is the crc32c crate's function, which src/wire/crc.rs wraps.
use rados_rs.Common.{
  ℕ, zero, suc, ◌-◌, Bool, not, List, [], ◌∷◌, ◌++◌, length, Result, ok, ◌>>=◌, ◌>>◌, ensure, ltb,
  ◌==◌, if◌then◌else◌, u32_max,
}
use rados_rs.Wire.Bytes.{le_bytes}
use rados_rs.Msgr.Frame.{
  Tag, ack, tag_code, Limits, Segment, Frame, FrameError, malformed, Descriptor,
  normalized_segments, descriptors, crc_size,
}

abbrev pub late_status_complete : ℕ
late_status_complete = 0x0e

module _ (crc32c_append : ℕ → List ℕ → ℕ) where
  -- `!crc32c_append(!seed, payload)` on 32 bits
  unfoldable pub crc32c : ℕ → List ℕ → ℕ
  crc32c seed payload = u32_max - crc32c_append (u32_max - seed) payload

  -- Four slots of six bytes; the unused ones are zero.
  unfoldable pub slots : ℕ → List Descriptor → List ℕ
  slots zero ds = []
  slots (suc k) [] = 0 ∷ 0 ∷ 0 ∷ 0 ∷ 0 ∷ 0 ∷ slots k []
  slots (suc k) (d ∷ ds) = le_bytes 4 d.len ++ (le_bytes 2 d.alignment ++ slots k ds)

  unfoldable pub encode_preamble : Tag → List Descriptor → List ℕ
  unfolding slots crc32c
  encode_preamble tag ds =
      let head = tag_code tag ∷ length ds ∷ (slots 4 ds ++ (0 ∷ 0 ∷ [])) in
      head ++ le_bytes 4 (crc32c 0 head)

  unfoldable pub checksum : Bool → List ℕ → ℕ
  checksum with_data_crc payload = if with_data_crc then crc32c u32_max payload else 0

  -- The first segment is followed by its checksum, unless it is empty.
  unfoldable pub first_segment : Bool → Segment → List ℕ
  unfolding checksum
  first_segment with_data_crc s =
      if length s.content == 0
      then []
      else s.content ++ le_bytes 4 (checksum with_data_crc s.content)

  unfoldable pub contents : List Segment → List ℕ
  contents [] = []
  contents (s ∷ rest) = s.content ++ contents rest

  -- The checksums of the other segments, in three places; an unused one is zero.
  unfoldable pub checksums : Bool → ℕ → List Segment → List ℕ
  unfolding checksum
  checksums with_data_crc zero segments = []
  checksums with_data_crc (suc k) [] = le_bytes 4 0 ++ checksums with_data_crc k []
  checksums with_data_crc (suc k) (s ∷ rest) =
      le_bytes 4 (checksum with_data_crc s.content) ++ checksums with_data_crc k rest

  unfoldable pub epilogue : Bool → List Segment → List ℕ
  unfolding checksums
  epilogue with_data_crc [] = []
  epilogue with_data_crc (s ∷ rest) = late_status_complete ∷ checksums with_data_crc 3 (s ∷ rest)

  unfoldable pub body : Bool → List Segment → List ℕ
  unfolding first_segment contents epilogue
  body with_data_crc [] = []
  body with_data_crc (s ∷ rest) =
      first_segment with_data_crc s ++ (contents rest ++ epilogue with_data_crc rest)

  unfoldable pub encode : Bool → Frame → Limits → Result FrameError (List ℕ)
  unfolding encode_preamble body
  encode with_data_crc frame limits = do
    segments ← normalized_segments frame.segments
    ensure (not (ltb (tag_code ack) (tag_code frame.tag))) malformed
    ds ← descriptors segments
    total ← crc_size ds limits
    ok (encode_preamble frame.tag ds ++ body with_data_crc segments)
