-- ===== src/Msgr/Frame/Read.antt =====
-- The reader of frames of `CrcCodec` in src/msgr/frame.rs. The stream is the bytes that are still to
-- come; it ends where they do, and no other failure of input is modelled.
use rados_rs.Common.{
  ℕ, zero, suc, ◌+◌, ◌%◌, Bool, false, not, ◌&&◌, ◌||◌, List, [], ◌∷◌, length, take, drop,
  get_elem?, Result, ok, err, ◌>>=◌, ◌>>◌, ensure, ok_or, ltb, leb, ◌==◌, if◌then◌else◌, u32_max,
}
use rados_rs.Wire.Bytes.{from_le}
use rados_rs.Msgr.Frame.{
  Tag, tag_code, Limits, Segment, Frame, FrameError, aborted, integrity, malformed, Descriptor,
  preamble_size, max_segments, crc_size,
}
use rados_rs.Msgr.Frame.Crc.{crc32c, late_status_complete}

abbrev pub late_status_aborted : ℕ
late_status_aborted = 0x01

-- The tags, the first of which has the code 1.
abbrev pub all_tags : List Tag
all_tags =
    Tag.hello ∷ Tag.auth_request ∷ Tag.auth_bad_method ∷ Tag.auth_reply_more ∷ Tag.auth_request_more
    ∷ Tag.auth_done ∷ Tag.auth_signature ∷ Tag.client_ident ∷ Tag.server_ident
    ∷ Tag.ident_missing_features ∷ Tag.session_reconnect ∷ Tag.session_reset ∷ Tag.session_retry
    ∷ Tag.session_retry_global ∷ Tag.session_reconnect_ok ∷ Tag.wait ∷ Tag.message ∷ Tag.keepalive2
    ∷ Tag.keepalive2_ack ∷ Tag.ack ∷ Tag.compression_request ∷ Tag.compression_done ∷ []

-- `Tag::try_from`
unfoldable pub tag_from : ℕ → Result FrameError Tag
tag_from zero = err malformed
tag_from (suc n) = ok_or (get_elem? all_tags n) malformed

unfoldable pub read_exact : ℕ → List ℕ → Result FrameError (List ℕ × List ℕ)
read_exact n stream =
    if ltb (length stream) n then err malformed else ok (take n stream, drop n stream)

abbrev pub byte_at : ℕ → List ℕ → ℕ
byte_at zero [] = 0
byte_at zero (b ∷ bs) = b
byte_at (suc i) [] = 0
byte_at (suc i) (b ∷ bs) = byte_at i bs

abbrev pub descriptor_of : List ℕ → Descriptor
descriptor_of bytes = record {
  len = from_le (take 4 bytes);
  alignment = from_le (take 2 (drop 4 bytes));
}

-- The loop over the slots: those that are left, the descriptors that are left, and the bytes.
unfoldable pub read_slots : ℕ → ℕ → List ℕ → Result FrameError (List Descriptor)
read_slots zero count bytes = ok []
read_slots (suc k) zero bytes = do
  ensure ((descriptor_of bytes).len == 0 && (descriptor_of bytes).alignment == 0) malformed
  read_slots k zero (drop 6 bytes)
read_slots (suc k) (suc count) bytes = do
  rest ← read_slots k count (drop 6 bytes)
  ok (descriptor_of bytes ∷ rest)

-- Whether the last of more than one descriptor announces nothing.
unfoldable pub has_empty_tail : List Descriptor → Bool
has_empty_tail [] = false
has_empty_tail (d ∷ []) = false
has_empty_tail (d ∷ e ∷ []) = e.len == 0
has_empty_tail (d ∷ e ∷ f ∷ rest) = has_empty_tail (e ∷ f ∷ rest)

module _ (crc32c_append : ℕ → List ℕ → ℕ) where
  unfoldable pub decode_preamble : List ℕ → Result FrameError (Tag × List Descriptor)
  unfolding tag_from read_slots has_empty_tail
  decode_preamble preamble = do
    ensure (crc32c crc32c_append 0 (take 28 preamble) == from_le (drop 28 preamble)) integrity
    tag ← tag_from (byte_at 0 preamble)
    ensure (not (ltb (tag_code Tag.ack) (tag_code tag))) malformed
    ensure
        (leb 1 (byte_at 1 preamble)
          && leb (byte_at 1 preamble) max_segments
          && byte_at 26 preamble == 0
          && byte_at 27 preamble == 0)
        malformed
    ds ← read_slots max_segments (byte_at 1 preamble) (drop 2 preamble)
    ensure (not (has_empty_tail ds)) malformed
    ok (tag, ds)

  -- A checksum that was read, against that of the bytes.
  unfoldable pub is_intact : Bool → List ℕ → List ℕ → Bool
  is_intact with_data_crc content encoded =
      not with_data_crc || crc32c crc32c_append u32_max content == from_le encoded

  -- The checksum behind the first segment, if that is not empty.
  unfoldable pub read_check : Bool → List ℕ → List ℕ → Result FrameError (List ℕ)
  unfolding is_intact read_exact
  read_check with_data_crc content stream =
      if ltb 0 (length content)
      then (do
        (encoded, left) ← read_exact 4 stream
        ensure (is_intact with_data_crc content encoded) integrity
        ok left)
      else ok stream

  -- The loop over the descriptors, from the given index.
  unfoldable pub read_segments :
      Bool → ℕ → List Descriptor → List ℕ → Result FrameError (List Segment × List ℕ)
  unfolding read_check read_exact
  read_segments with_data_crc index [] stream = ok ([], stream)
  read_segments with_data_crc index (d ∷ rest) stream = do
    (content, s1) ← read_exact d.len stream
    s2 ← (if index == 0 then read_check with_data_crc content s1 else ok s1)
    (others, s3) ← read_segments with_data_crc (index + 1) rest s2
    ok (record { alignment = d.alignment; content = content } ∷ others, s3)

  -- The loop over the checksums of the segments after the first.
  unfoldable pub check_sums : Bool → List Segment → List ℕ → Result FrameError (Unit {0})
  unfolding is_intact
  check_sums with_data_crc [] bytes = ok tt
  check_sums with_data_crc (s ∷ rest) bytes = do
    ensure (is_intact with_data_crc s.content (take 4 bytes)) integrity
    check_sums with_data_crc rest (drop 4 bytes)

  -- The status, `epilogue[0] & 0x0f`.
  unfoldable pub check_status : ℕ → Result FrameError (Unit {0})
  check_status status =
      if status % 16 == late_status_complete
      then ok tt
      else if status % 16 == late_status_aborted
      then err aborted
      else err malformed

  -- The epilogue of a frame of more than one segment.
  unfoldable pub read_epilogue : Bool → List Segment → List ℕ → Result FrameError (List ℕ)
  unfolding check_sums check_status read_exact
  read_epilogue with_data_crc [] stream = ok stream
  read_epilogue with_data_crc (first ∷ []) stream = ok stream
  read_epilogue with_data_crc (first ∷ second ∷ rest) stream = do
    (bytes, left) ← read_exact 13 stream
    check_status (byte_at 0 bytes)
    check_sums with_data_crc (second ∷ rest) (drop 1 bytes)
    ok left

  -- The frame, and the bytes behind it.
  unfoldable pub read_reserved :
      (Tag → ℕ → Result FrameError (Unit {0}))
      → Bool
      → Limits
      → List ℕ
      → Result FrameError (Frame × List ℕ)
  unfolding read_exact decode_preamble read_segments read_epilogue
  read_reserved reserve with_data_crc limits stream = do
    (preamble, s1) ← read_exact preamble_size stream
    (tag, ds) ← decode_preamble preamble
    wire_bytes ← crc_size ds limits
    reserve tag wire_bytes
    (segments, s2) ← read_segments with_data_crc 0 ds s1
    s3 ← read_epilogue with_data_crc segments s2
    ok (record { tag = tag; segments = segments }, s3)

  -- `read` and `read_async` reserve nothing.
  unfoldable pub read : Bool → Limits → List ℕ → Result FrameError (Frame × List ℕ)
  unfolding read_reserved
  read = read_reserved (λ tag wire_bytes. ok tt)
