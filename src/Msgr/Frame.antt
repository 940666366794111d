-- ===== src/Msgr/Frame.antt =====
-- src/msgr/frame.rs: frames of one to four segments.
pub mod Crc
pub mod Read
pub mod Described
pub mod PreambleBack
pub mod ReadBack
pub mod RoundTrip
pub mod Secure
pub mod Sizes
mod Runs
use rados_rs.Common.{
  ℕ, zero, suc, ◌+◌, ◌-◌, ◌*◌, ◌/◌, ◌%◌, ◌^◌, Bool, true, false, not, ◌&&◌, ◌||◌, Option, none,
  some, List, [], ◌∷◌, ◌++◌, length, drop, Result, ok, err, ◌>>=◌, ◌>>◌, ensure, ok_or, ltb, leb,
  ◌==◌, if◌then◌else◌, u64_max, checked_add, to_u32,
}
use rados_rs.Wire.Errors.{WireError}

pub data Tag : Type 0 where
  hello auth_request auth_bad_method auth_reply_more auth_request_more auth_done : Tag
  auth_signature client_ident server_ident ident_missing_features session_reconnect : Tag
  session_reset session_retry session_retry_global session_reconnect_ok wait message : Tag
  keepalive2 keepalive2_ack ack compression_request compression_done : Tag

-- `tag as u8`
unfoldable pub tag_code : Tag → ℕ
tag_code hello = 1
tag_code auth_request = 2
tag_code auth_bad_method = 3
tag_code auth_reply_more = 4
tag_code auth_request_more = 5
tag_code auth_done = 6
tag_code auth_signature = 7
tag_code client_ident = 8
tag_code server_ident = 9
tag_code ident_missing_features = 10
tag_code session_reconnect = 11
tag_code session_reset = 12
tag_code session_retry = 13
tag_code session_retry_global = 14
tag_code session_reconnect_ok = 15
tag_code wait = 16
tag_code message = 17
tag_code keepalive2 = 18
tag_code keepalive2_ack = 19
tag_code ack = 20
tag_code compression_request = 21
tag_code compression_done = 22

pub record Limits : Type 0 where
  pub max_segment_bytes : ℕ
  pub max_frame_bytes : ℕ
  pub max_addresses : ℕ
  pub max_auth_bytes : ℕ

pub record Segment : Type 0 where
  pub alignment : ℕ
  pub content : List ℕ

pub record Frame : Type 0 where
  pub tag : Tag
  pub segments : List Segment

pub data FrameError : Type 0 where
  aborted counter_exhausted integrity invalid_secret limit_exceeded malformed : FrameError
  unsupported_feature unsupported_payload : FrameError

-- `From<WireError>`
unfoldable pub of_wire : WireError → FrameError
of_wire WireError.limit_exceeded = limit_exceeded
of_wire WireError.malformed = malformed
of_wire (WireError.unsupported_version _ _) = malformed

abbrev pub preamble_size : ℕ
preamble_size = 32

abbrev pub max_segments : ℕ
max_segments = 4

abbrev pub default_alignment : ℕ
default_alignment = 8

abbrev pub page_alignment : ℕ
page_alignment = 4096

pub record Descriptor : Type 0 where
  pub len : ℕ
  pub alignment : ℕ

abbrev pub is_empty : Segment → Bool
is_empty s = length s.content == 0

abbrev pub is_nil {ℓ} : {A : Type ℓ} → List A → Bool
is_nil [] = true
is_nil (x ∷ xs) = false

-- The segments without the empty ones at the end.
unfoldable pub drop_empty_tail : List Segment → List Segment
drop_empty_tail [] = []
drop_empty_tail (s ∷ rest) =
    let kept = drop_empty_tail rest in if is_nil kept && is_empty s then [] else s ∷ kept

-- The first segment stays, even when it is empty.
unfoldable pub normalized_segments : List Segment → Result FrameError (List Segment)
unfolding drop_empty_tail
normalized_segments [] = err malformed
normalized_segments (s ∷ rest) =
    if ltb max_segments (length (s ∷ rest)) then err malformed else ok (s ∷ drop_empty_tail rest)

-- `u16::is_power_of_two`, for the sixteen values that it accepts.
unfoldable pub is_power_of_two : ℕ → ℕ → Bool
is_power_of_two zero n = false
is_power_of_two (suc k) n = n == 2 ^ k || is_power_of_two k n

unfoldable pub valid_alignment : ℕ → Bool
unfolding is_power_of_two
valid_alignment alignment = not (alignment == 0) && is_power_of_two 16 alignment

-- The descriptors of segments, each with a length of 32 bits.
unfoldable pub descriptors : List Segment → Result FrameError (List Descriptor)
descriptors [] = ok []
descriptors (s ∷ rest) =
    let others = descriptors rest in
    do
      len ← ok_or (to_u32 (length s.content)) limit_exceeded
      ds ← others
      ok (record { len = len; alignment = s.alignment } ∷ ds)

-- The loop of `descriptors_and_crc_size_from_descriptors`, with its index and total.
unfoldable pub crc_size_loop : Limits → ℕ → ℕ → List Descriptor → Result FrameError ℕ
crc_size_loop limits index total [] = ok total
crc_size_loop limits index total (d ∷ rest) = do
  ensure (not (ltb limits.max_segment_bytes d.len)) limit_exceeded
  ensure (valid_alignment d.alignment) malformed
  let crc = if index == 0 && ltb 0 d.len then 4 else 0
  with_data ← ok_or (checked_add total d.len) limit_exceeded
  with_crc ← ok_or (checked_add with_data crc) limit_exceeded
  crc_size_loop limits (index + 1) with_crc rest

unfoldable pub crc_size : List Descriptor → Limits → Result FrameError ℕ
crc_size ds limits = do
  total ← crc_size_loop limits 0 preamble_size ds
  whole ← (if ltb 1 (length ds) then ok_or (checked_add total 13) limit_exceeded else ok total)
  ensure (not (ltb limits.max_frame_bytes whole)) limit_exceeded
  ensure (not (ltb u64_max whole)) limit_exceeded
  ok whole
