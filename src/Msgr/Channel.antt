-- ===== src/Msgr/Channel.antt =====
-- Messages and controls on the wire: src/msgr/message.rs and src/msgr/control.rs over the frames of
-- src/msgr/frame.rs.
mod Runs
use mathlib.Core.Path.{subst}
use rados_rs.Common.{
  ℕ, ◌+◌, ◌≤◌, ◌<◌, ◌≡◌, refl, sym, ap, ◌∙◌, arith, Bool, true, false, not, ◌&&◌, Option, none,
  some, List, [], ◌∷◌, ◌++◌, length, Result, ok, err, ◌>>=◌, ◌>>◌, ensure, ensure-inv, bind-inv,
  bind-step, ok-injective, ok_or, checked_add, ltb, leb, ◌==◌, if◌then◌else◌, Bool-cases, inl, inr,
  get_elem?, zero, suc, u32_max,
}
use rados_rs.Msgr.Frame.{
  Tag, tag_code, Limits, Segment, Frame, FrameError, limit_exceeded, malformed, default_alignment,
  normalized_segments, drop_empty_tail, is_nil, is_empty,
}
use rados_rs.Msgr.Frame.Crc as Crc
use rados_rs.Msgr.Frame.Read.{read}
use rados_rs.Msgr.Frame.Described.{tail_length}
use rados_rs.Msgr.Frame.RoundTrip.{read-encode}
use rados_rs.Msgr.Message as Msg
use rados_rs.Msgr.Message.{
  Message, message_alignments, validate_loop, validate_segments, content_at, segments_of,
}
use rados_rs.Msgr.Message.RoundTrip.{IsWide, message-round_trip}
use rados_rs.Msgr.Control.{Control}
use rados_rs.Msgr.Control.Encode as Enc
use rados_rs.Msgr.Control.Encode.{frame_of}
use rados_rs.Msgr.Control.Decode as Decoding
use rados_rs.Msgr.Control.Layout.{IsSendable, payload_bytes}
use rados_rs.Msgr.Control.Parts.{received}
use rados_rs.Msgr.Control.Asks.{sent_tag}
use rados_rs.Msgr.Control.RoundTrip.{encode-inv, decode-encode_control}

nothing : (xs : List ℕ) → (length xs == 0) ≡ true → xs ≡ []
nothing [] h = refl
nothing (x ∷ xs) h = absurd (ground (arith, h))

empty_lem : (s : Segment) → is_empty s ≡ true → s.content ≡ []
empty_lem s h = nothing s.content h

content_at-cut :
    (s : Segment) (kept rest : List Segment) (i : ℕ)
    → ((j : ℕ) → content_at kept j ≡ content_at rest j)
    → content_at (if is_nil kept && is_empty s then [] else s ∷ kept) i ≡ content_at (s ∷ rest) i
unfolding content_at
content_at-cut s (k ∷ kept) rest zero h = refl
content_at-cut s (k ∷ kept) rest (suc i) h = h i
content_at-cut s [] rest zero h = elim (Bool-cases (is_empty s)) [
  | inl empty ↦ rw empty (sym (empty_lem s empty))
  | inr full ↦ rw full refl
]
content_at-cut s [] rest (suc i) h = elim (Bool-cases (is_empty s)) [
  | inl empty ↦ rw empty (h i)
  | inr full ↦ rw full (h i)
]

content_at-tail :
    (segments : List Segment) (i : ℕ)
    → content_at (drop_empty_tail segments) i ≡ content_at segments i
unfolding drop_empty_tail
content_at-tail [] i = refl
content_at-tail (s ∷ rest) i = content_at-cut s (drop_empty_tail rest) rest i (content_at-tail rest)

content_at-first :
    (s : Segment) (rest : List Segment) (i : ℕ)
    → content_at (s ∷ drop_empty_tail rest) i ≡ content_at (s ∷ rest) i
unfolding content_at
content_at-first s rest zero = refl
content_at-first s rest (suc i) = content_at-tail rest i

validate-cut :
    (limits : Limits) (a : ℕ) (alignments : List ℕ) (total next : ℕ) (s : Segment)
    (kept : List Segment) {t : ℕ}
    → ensure (s.alignment == a) malformed ≡ ok tt
    → ensure (not (ltb limits.max_segment_bytes (length s.content))) limit_exceeded ≡ ok tt
    → ok_or (checked_add total (length s.content)) limit_exceeded ≡ ok next
    → validate_loop limits alignments next kept ≡ ok t
    → validate_loop limits
        (a ∷ alignments)
        total
        (if is_nil kept && is_empty s then [] else s ∷ kept)
      ≡ ok t
unfolding validate_loop
validate-cut limits a alignments total next s (k ∷ kept) h1 h2 h3 e =
    bind-step _ _ h1 ∙ bind-step _ _ h2 ∙ bind-step _ _ h3 ∙ e
validate-cut limits a alignments total next s [] {t} h1 h2 h3 e = elim (Bool-cases (is_empty s)) [
  | inl empty ↦
      let last : next ≡ t = ok-injective e in rw empty (ap ok (ground (arith, h3, empty, last)))
  | inr full ↦ rw full (bind-step _ _ h1 ∙ bind-step _ _ h2 ∙ bind-step _ _ h3 ∙ e)
]

validate_loop-tail :
    (limits : Limits) (alignments : List ℕ) (total : ℕ) (segments : List Segment) {t : ℕ}
    → validate_loop limits alignments total segments ≡ ok t
    → validate_loop limits alignments total (drop_empty_tail segments) ≡ ok t
unfolding validate_loop drop_empty_tail
validate_loop-tail limits alignments total [] e = e
validate_loop-tail limits [] total (s ∷ rest) e = cc
validate_loop-tail limits (a ∷ alignments) total (s ∷ rest) e =
    let (tt, h1, e1) = bind-inv (ensure (s.alignment == a) malformed) _ e in
    let (tt, h2, e2) =
      bind-inv (ensure (not (ltb limits.max_segment_bytes (length s.content))) limit_exceeded) _
        e1 in
    let (next, h3, e3) =
      bind-inv (ok_or (checked_add total (length s.content)) limit_exceeded) _ e2 in
    validate-cut limits a alignments total next s (drop_empty_tail rest) h1 h2 h3
      (validate_loop-tail limits alignments next rest e3)

validate_loop-first :
    (limits : Limits) (alignments : List ℕ) (total : ℕ) (s : Segment) (rest : List Segment) {t : ℕ}
    → validate_loop limits alignments total (s ∷ rest) ≡ ok t
    → validate_loop limits alignments total (s ∷ drop_empty_tail rest) ≡ ok t
unfolding validate_loop
validate_loop-first limits [] total s rest e = cc
validate_loop-first limits (a ∷ alignments) total s rest e =
    let (tt, h1, e1) = bind-inv (ensure (s.alignment == a) malformed) _ e in
    let (tt, h2, e2) =
      bind-inv (ensure (not (ltb limits.max_segment_bytes (length s.content))) limit_exceeded) _
        e1 in
    let (next, h3, e3) =
      bind-inv (ok_or (checked_add total (length s.content)) limit_exceeded) _ e2 in
    bind-step _ _ h1
    ∙ bind-step _ _ h2
    ∙ bind-step _ _ h3
    ∙ validate_loop-tail limits alignments next rest e3

validate_segments-first :
    (limits : Limits) (s : Segment) (rest : List Segment)
    → validate_segments (s ∷ rest) limits ≡ ok tt
    → validate_segments (s ∷ drop_empty_tail rest) limits ≡ ok tt
unfolding validate_segments
validate_segments-first limits s rest e =
    let (total, h, e1) = bind-inv (validate_loop limits message_alignments 0 (s ∷ rest)) _ e in
    bind-step _ _ (validate_loop-first limits message_alignments 0 s rest h) ∙ e1

-- A message is decoded from its segments without the empty ones at the end.
decode-first :
    (t : Tag) (s : Segment) (rest : List Segment) (limits : Limits) {m : Message}
    → Msg.decode (record { tag = t; segments = s ∷ rest }) limits ≡ ok m
    → Msg.decode (record { tag = t; segments = s ∷ drop_empty_tail rest }) limits ≡ ok m
unfolding Msg.decode
decode-first t s rest limits {m} e =
    let (tt, h1, e1) =
      bind-inv
        (ensure (tag_code t == 17 && leb 1 (length (s ∷ rest)) && leb (length (s ∷ rest)) 4)
          malformed)
        _ e in
    let (tt, h2, e2) = bind-inv (validate_segments (s ∷ rest) limits) _ e1 in
    let shape = ensure-inv _ malformed h1 in
    let shape' : (tag_code t == 17
          && leb 1 (length (s ∷ drop_empty_tail rest))
          && leb (length (s ∷ drop_empty_tail rest)) 4)
        ≡ true =
      ground (arith, shape, tail_length rest) in
    let c1 = content_at-first s rest 1 in
    let c2 = content_at-first s rest 2 in
    let c3 = content_at-first s rest 3 in
    bind-step _ _ (ap (λ b. ensure b malformed) shape')
    ∙ bind-step _ _ (validate_segments-first limits s rest h2)
    ∙ rw (c1, c2, c3) e2

normal_lem :
    (t : Tag) (given : List Segment) (limits : Limits) {m : Message} {segments : List Segment}
    → Msg.decode (record { tag = t; segments = given }) limits ≡ ok m
    → normalized_segments given ≡ ok segments
    → Msg.decode (record { tag = t; segments = segments }) limits ≡ ok m
unfolding normalized_segments
normal_lem t [] limits e h = cc
normal_lem t (s ∷ rest) limits {m} {segments} e h = elim (Bool-cases (ltb 4 (length (s ∷ rest)))) [
  | inl many ↦ let never : err malformed ≡ ok segments = (rw many at h) in cc
  | inr few ↦
      let made : s ∷ drop_empty_tail rest ≡ segments = ok-injective (rw few at h) in
      subst (λ xs. Msg.decode (record { tag = t; segments = xs }) limits ≡ ok m) made
        (decode-first t s rest limits e)
]

decode-normalized :
    (frame : Frame) (limits : Limits) {m : Message} {segments : List Segment}
    → Msg.decode frame limits ≡ ok m
    → normalized_segments frame.segments ≡ ok segments
    → Msg.decode (record { tag = frame.tag; segments = segments }) limits ≡ ok m
decode-normalized frame limits e h = normal_lem frame.tag frame.segments limits e h

-- A frame of one segment is normal.
control_segments :
    (t : Tag) (bytes : List ℕ) (frame : Frame) {segments : List Segment}
    → frame ≡ frame_of t bytes
    → normalized_segments frame.segments ≡ ok segments
    → record { tag = frame.tag; segments = segments } ≡ frame
unfolding normalized_segments drop_empty_tail
control_segments t bytes frame {segments} made h =
    let one : ok (frame_of t bytes).segments ≡ ok segments = (rw made at h) in
    rw made (ap (λ s. record { tag = t; segments = s }) (sym (ok-injective one)))

module _ (crc32c_append : ℕ → List ℕ → ℕ) (with_data_crc : Bool) (limits : Limits) where
  -- A message whose header has the source's widths, whose frame was encoded into bytes, is read and
  -- decoded from these bytes, and no byte behind it is taken.
  pub message-channel :
      (m : Message)
      → IsWide m.header
      → {frame : Frame} {w : List ℕ} → Msg.encode m limits ≡ ok frame
      → Crc.encode crc32c_append with_data_crc frame limits ≡ ok w
      → (more : List ℕ)
      → (arrived : Frame) × (read crc32c_append with_data_crc limits (w ++ more)
          ≡ ok (arrived, more))
        × (Msg.decode arrived limits ≡ ok m)
  message-channel m wide {frame} {w} e1 e2 more =
      let (segments, h, back) = read-encode crc32c_append with_data_crc limits frame e2 more in
      (
        record { tag = frame.tag; segments = segments },
        back,
        decode-normalized frame limits (message-round_trip m limits wide e1) h,
      )

module _ (crc32c_append : ℕ → List ℕ → ℕ) (with_data_crc : Bool) (limits : Limits)
    (small : limits.max_segment_bytes ≤ u32_max) (room : 48 ≤ limits.max_segment_bytes) where
  -- A control with fields of the source's widths, well-formed addresses, addresses and authentication
  -- bytes within the limits, and nanoseconds less than a second, that is not a payload under a tag of
  -- its own, and whose frame was encoded into bytes under limits of segments of at least 48 bytes and
  -- of 32 bits, is read and decoded from these bytes as it was, but that no address in it is marked
  -- as of the old form, and no byte behind it is taken.
  pub control-channel :
      (c : Control)
      → IsSendable limits c
      → {frame : Frame} {w : List ℕ} → Enc.encode c limits ≡ ok frame
      → Crc.encode crc32c_append with_data_crc frame limits ≡ ok w
      → (more : List ℕ)
      → (arrived : Frame) × (read crc32c_append with_data_crc limits (w ++ more)
          ≡ ok (arrived, more))
        × (Decoding.decode arrived limits ≡ ok (received c))
  control-channel c sendable {frame} {w} e1 e2 more =
      let (segments, h, back) = read-encode crc32c_append with_data_crc limits frame e2 more in
      let (fits, made) = encode-inv limits small c sendable e1 in
      let same = control_segments (sent_tag c) (payload_bytes c) frame made h in
      (
        record { tag = frame.tag; segments = segments },
        back,
        ap (λ f. Decoding.decode f limits) same
            ∙ decode-encode_control limits small c sendable room e1,
      )
