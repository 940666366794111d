-- ===== src/Msgr/Frame/PreambleBack.antt =====
-- Writing and then reading the preamble of a frame, in src/msgr/frame.rs.
use rados_rs.Common.{
  ℕ, zero, suc, ◌^◌, ◌≤◌, ◌<◌, ◌≡◌, refl, sym, arith, false, List, [], ◌∷◌, ◌++◌, All, append_assoc,
  length, length-append, take, drop, take-append_length, drop-append_length, ok, le→ltb, le→leb,
  eq→==,
}
use rados_rs.Wire.Bytes.{le_bytes, from_le-le_bytes}
use rados_rs.Msgr.Frame.{Tag, tag_code, Descriptor}
use rados_rs.Msgr.Frame.Crc.{crc32c, slots, encode_preamble}
use rados_rs.Msgr.Frame.Sizes.{length-slots}
use rados_rs.Msgr.Frame.Described.{IsDescriptor}
use rados_rs.Msgr.Frame.Read.{
  tag_from, read_exact, byte_at, descriptor_of, read_slots, has_empty_tail, decode_preamble,
}

pub read_exact-append :
    (xs rest : List ℕ) (n : ℕ) → length xs ≡ n → read_exact n (xs ++ rest) ≡ ok (xs, rest)
unfolding read_exact
read_exact-append xs rest n h = rw (sym h) (
    simp (
      le→ltb (length (xs ++ rest)) (length xs) (omega (arith, length-append xs rest)),
      take-append_length xs rest,
      drop-append_length xs rest,
    ))

tag_from-tag_code : (t : Tag) → tag_from (tag_code t) ≡ ok t
unfolding tag_from tag_code
tag_from-tag_code Tag.hello = refl
tag_from-tag_code Tag.auth_request = refl
tag_from-tag_code Tag.auth_bad_method = refl
tag_from-tag_code Tag.auth_reply_more = refl
tag_from-tag_code Tag.auth_request_more = refl
tag_from-tag_code Tag.auth_done = refl
tag_from-tag_code Tag.auth_signature = refl
tag_from-tag_code Tag.client_ident = refl
tag_from-tag_code Tag.server_ident = refl
tag_from-tag_code Tag.ident_missing_features = refl
tag_from-tag_code Tag.session_reconnect = refl
tag_from-tag_code Tag.session_reset = refl
tag_from-tag_code Tag.session_retry = refl
tag_from-tag_code Tag.session_retry_global = refl
tag_from-tag_code Tag.session_reconnect_ok = refl
tag_from-tag_code Tag.wait = refl
tag_from-tag_code Tag.message = refl
tag_from-tag_code Tag.keepalive2 = refl
tag_from-tag_code Tag.keepalive2_ack = refl
tag_from-tag_code Tag.ack = refl
tag_from-tag_code Tag.compression_request = refl
tag_from-tag_code Tag.compression_done = refl

slot_bytes : Descriptor → List ℕ → List ℕ
slot_bytes d more = le_bytes 4 d.len ++ (le_bytes 2 d.alignment ++ more)

descriptor_path :
    (d : Descriptor) {a b : ℕ} → a ≡ d.len → b ≡ d.alignment → record { len = a; alignment = b } ≡ d
descriptor_path d p q i = record { len = p i; alignment = q i }

slot-descriptor :
    (d : Descriptor) (more : List ℕ) → IsDescriptor d → descriptor_of (slot_bytes d more) ≡ d
unfolding slot_bytes le_bytes
slot-descriptor d more w =
    descriptor_path d (from_le-le_bytes 4 d.len w.len) (from_le-le_bytes 2 d.alignment w.alignment)

slot-rest : (d : Descriptor) (more : List ℕ) → drop 6 (slot_bytes d more) ≡ more
unfolding slot_bytes le_bytes
slot-rest d more = refl

pub word_take : (v : ℕ) (more : List ℕ) → take 4 (le_bytes 4 v ++ more) ≡ le_bytes 4 v
unfolding le_bytes
word_take v more = refl

pub word_drop : (v : ℕ) (more : List ℕ) → drop 4 (le_bytes 4 v ++ more) ≡ more
unfolding le_bytes
word_drop v more = refl

read_slots-step :
    (k count : ℕ) (d : Descriptor) (more bytes : List ℕ) {ds : List Descriptor}
    → IsDescriptor d
    → bytes ≡ slot_bytes d more
    → read_slots k count more ≡ ok ds
    → read_slots (suc k) (suc count) bytes ≡ ok (d ∷ ds)
unfolding read_slots
read_slots-step k count d more bytes w e h =
    rw e (simp (slot-rest d more, h, slot-descriptor d more w))

byte_at-drop : (n : ℕ) (bytes : List ℕ) → byte_at n bytes ≡ byte_at 0 (drop n bytes)
byte_at-drop zero bytes = refl
byte_at-drop (suc n) [] = refl
byte_at-drop (suc n) (b ∷ bytes) = byte_at-drop n bytes

byte_at-suc-drop : (n : ℕ) (bytes : List ℕ) → byte_at (suc n) bytes ≡ byte_at 1 (drop n bytes)
byte_at-suc-drop zero bytes = refl
byte_at-suc-drop (suc n) [] = refl
byte_at-suc-drop (suc n) (b ∷ bytes) = byte_at-suc-drop n bytes

module _ (crc32c_append : ℕ → List ℕ → ℕ) where
  slots_split :
      (k : ℕ) (d : Descriptor) (ds : List Descriptor) (more : List ℕ)
      → slots crc32c_append (suc k) (d ∷ ds) ++ more
        ≡ slot_bytes d (slots crc32c_append k ds ++ more)
  unfolding slots slot_bytes
  slots_split k d ds more = simp append_assoc

  read_slots-slots :
      (k : ℕ) (ds : List Descriptor) (more : List ℕ)
      → length ds ≤ k
      → All IsDescriptor ds
      → read_slots k (length ds) (slots crc32c_append k ds ++ more) ≡ ok ds
  unfolding read_slots slots
  read_slots-slots zero [] more h w = refl
  read_slots-slots zero (d ∷ ds) more h w = absurd (omega arith)
  read_slots-slots (suc k) [] more h w = read_slots-slots k [] more (omega arith) tt
  read_slots-slots (suc k) (d ∷ ds) more h (wd, w) =
      read_slots-step k (length ds) d (slots crc32c_append k ds ++ more) _ wd
        (slots_split k d ds more) (read_slots-slots k ds more (omega arith) w)

  pub crc-small : (seed : ℕ) (payload : List ℕ) → crc32c crc32c_append seed payload < 256 ^ 4
  unfolding crc32c
  crc-small seed payload = omega arith

  pub decode_preamble-encode :
      (tag : Tag) (ds : List Descriptor)
      → tag_code tag ≤ 20
      → 1 ≤ length ds
      → length ds ≤ 4
      → All IsDescriptor ds
      → has_empty_tail ds ≡ false
      → decode_preamble crc32c_append (encode_preamble crc32c_append tag ds) ≡ ok (tag, ds)
  unfolding decode_preamble encode_preamble tag_code
  decode_preamble-encode tag ds ht least most w full =
      let body = slots crc32c_append 4 ds ++ (0 ∷ 0 ∷ []) in
      let sum = le_bytes 4 (crc32c crc32c_append 0 (tag_code tag ∷ length ds ∷ body)) in
      let long : length body ≡ 26 = omega (
        arith,
        length-append (slots crc32c_append 4 ds) (0 ∷ 0 ∷ []),
        length-slots crc32c_append 4 ds,
      ) in
      let shape = append_assoc (slots crc32c_append 4 ds) (0 ∷ 0 ∷ []) sum in
      let padded : drop 24 (body ++ sum) ≡ 0 ∷ 0 ∷ sum =
        rw (shape, sym (length-slots crc32c_append 4 ds))
          (drop-append_length (slots crc32c_append 4 ds) (0 ∷ 0 ∷ sum)) in
      let slots_read : read_slots 4 (length ds) (body ++ sum) ≡ ok ds =
        rw shape (read_slots-slots 4 ds (0 ∷ 0 ∷ sum) most w) in
      let summed = from_le-le_bytes 4 _ (crc-small 0 (tag_code tag ∷ length ds ∷ body)) in
      simp (
        rw long at (take-append_length body sum),
        rw long at (drop-append_length body sum),
        summed,
        eq→== (crc32c crc32c_append 0 (tag_code tag ∷ length ds ∷ body)) _ refl,
        tag_from-tag_code tag,
        le→ltb 20 (tag_code tag) ht,
        le→leb 1 (length ds) least,
        le→leb (length ds) 4 most,
        byte_at-drop 24 (body ++ sum),
        byte_at-suc-drop 24 (body ++ sum),
        padded,
        slots_read,
        full,
      )
