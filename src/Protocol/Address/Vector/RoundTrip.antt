-- ===== src/Protocol/Address/Vector/RoundTrip.antt =====
-- Encoding and then decoding address vectors, in src/protocol/address.rs.
use rados_rs.Common.{
  ℕ, ◌^◌, ◌≤◌, ◌<◌, ◌≡◌, refl, sym, ◌∙◌, arith, true, false, List, [], ◌∷◌, ◌++◌, All, append_assoc,
  append-nil, length, length-append, ok, ◌>>=◌, ltb, le→ltb, u32_max,
}
use rados_rs.Wire.Bytes.{le_bytes}
use rados_rs.Wire.Encoder as Enc
use rados_rs.Wire.Encoder.{Encoder}
use rados_rs.Wire.Encoder.Emits.{Emits-then, Emits-nothing, Emits-u8, Emits-u32}
use rados_rs.Wire.Encoder.Writes.{Writes, Writes-then}
use rados_rs.Wire.RoundTrip.{Reads, cursor-Reads, written_form}
use rados_rs.Wire.Decoder.{new}
use rados_rs.Wire.Decoder.Cursor.{
  cursor, new-cursor, error-cursor, remaining-cursor, u8-cursor, u32-cursor,
}
use rados_rs.Wire.Decoder.Read.{pure, check-passes}
use rados_rs.Protocol.Features.{contains, message_address_v2}
use rados_rs.Protocol.Address.{EntityAddr}
use rados_rs.Protocol.Address.Codec as One
use rados_rs.Protocol.Address.Written.{IsAddr, address_bytes, sent, encode-Emits, encode_lem}
use rados_rs.Protocol.Address.RoundTrip.{decode-cursor, length-address_bytes}
use rados_rs.Protocol.Address.Vector.{decode_each, decode_counted, decode_marked, decode}
use rados_rs.Protocol.Address.Vector.Encode.{encode_each, encode}

each_bytes : List EntityAddr → ℕ → List ℕ
each_bytes [] features = []
each_bytes (a ∷ rest) features = address_bytes a features ++ each_bytes rest features

pub vector_bytes : List EntityAddr → ℕ → List ℕ
vector_bytes addresses features =
    2 ∷ (le_bytes 4 (length addresses) ++ each_bytes addresses features)

-- The addresses that the peer sees.
abbrev pub all_sent : List EntityAddr → ℕ → List EntityAddr
all_sent [] features = []
all_sent (a ∷ rest) features = sent a features ∷ all_sent rest features

module _ (features : ℕ) where
  each-Writes :
      (addresses : List EntityAddr)
      → All IsAddr addresses
      → Writes (encode_each addresses features) (each_bytes addresses features)
  unfolding encode_each each_bytes
  each-Writes [] w = record { form = λ e. e; emits = Emits-nothing; passes = λ e. refl }
  each-Writes (a ∷ rest) (wa, w) =
      Writes-then
        (record {
          form = One.encode_form a features;
          emits = encode-Emits a features;
          passes = encode_lem a wa features;
        })
        (each-Writes rest w)

  each-length :
      (addresses : List EntityAddr) → length addresses ≤ length (each_bytes addresses features)
  unfolding each_bytes
  each-length [] = omega arith
  each-length (a ∷ rest) = omega (
    arith,
    each-length rest,
    length-address_bytes a features,
    length-append (address_bytes a features) (each_bytes rest features),
  )

  pub encode-Writes :
      contains features message_address_v2 ≡ true
      → (addresses : List EntityAddr) → All IsAddr addresses
      → length addresses < 2 ^ 32
      → Writes (encode addresses features) (vector_bytes addresses features)
  unfolding encode vector_bytes
  encode-Writes v2 addresses w h =
      let each = each-Writes addresses w in
      let fits : ltb u32_max (length addresses) ≡ false =
        le→ltb u32_max (length addresses) (omega (arith, h)) in
      record {
        form = λ e. each.form (Enc.u32 (length addresses) (Enc.u8 2 e));
        emits =
            simp append_assoc at
              (Emits-then (Emits-then (Emits-u8 2) (Emits-u32 (length addresses))) each.emits);
        passes = λ e. rw (v2, fits) (each.passes (Enc.u32 (length addresses) (Enc.u8 2 e)));
      }

  module _ (m : ℕ) (room : 48 ≤ m) where
    each-cursor :
        (addresses : List EntityAddr)
        → All IsAddr addresses
        → (front rest : List ℕ)
        → decode_each (length addresses) (cursor front (each_bytes addresses features ++ rest) m)
          ≡ ok (all_sent addresses features, cursor (front ++ each_bytes addresses features) rest m)
    unfolding decode_each each_bytes
    each-cursor [] w front rest = simp append-nil
    each-cursor (a ∷ addresses) (wa, w) front rest =
        simp (append_assoc, decode-cursor a features wa m room, each-cursor addresses w)

    counted-cursor :
        (addresses : List EntityAddr)
        → All IsAddr addresses
        → (max_addresses : ℕ) → length addresses ≤ max_addresses
        → length addresses < 2 ^ 32
        → (front rest : List ℕ)
        → decode_counted max_addresses (
            cursor front
              (le_bytes 4 (length addresses) ++ (each_bytes addresses features ++ rest))
              m)
          ≡ ok (
            all_sent addresses features,
            cursor
                (front ++ (le_bytes 4 (length addresses) ++ each_bytes addresses features))
                rest
                m,
          )
    unfolding decode_counted
    counted-cursor addresses w max_addresses most h front rest =
        let enough : length addresses ≤ length (each_bytes addresses features ++ rest) =
          omega
            (arith, each-length addresses, length-append (each_bytes addresses features) rest) in
        simp
          (
            u32-cursor (length addresses) h,
            le→ltb max_addresses (length addresses) most,
            remaining-cursor,
            le→ltb (length (each_bytes addresses features ++ rest)) (length addresses) enough,
            each-cursor addresses w,
          )
          (check-passes (pure (all_sent addresses features)) _ (error-cursor _ rest m)
            ∙ simp append_assoc)

    pub vector-cursor :
        (addresses : List EntityAddr)
        → All IsAddr addresses
        → (max_addresses : ℕ) → length addresses ≤ max_addresses
        → length addresses < 2 ^ 32
        → (front rest : List ℕ)
        → decode max_addresses (cursor front (vector_bytes addresses features ++ rest) m)
          ≡ ok (
            all_sent addresses features,
            cursor (front ++ vector_bytes addresses features) rest m,
          )
    unfolding decode decode_marked vector_bytes
    vector-cursor addresses w max_addresses most h front rest =
        let counted = le_bytes 4 (length addresses) ++ (each_bytes addresses features ++ rest) in
        rw
          (
            append_assoc (le_bytes 4 (length addresses)) (each_bytes addresses features) rest,
            u8-cursor 2 front counted m,
          )
          (check-passes (decode_marked false max_addresses 2) _
              (error-cursor (front ++ 2 ∷ []) counted m)
            ∙ counted-cursor addresses w max_addresses most h (front ++ 2 ∷ []) rest
            ∙ simp append_assoc)

-- A vector of addresses whose fields have the source's widths and whose data have their families'
-- lengths, no more than the reader admits, encoded for a peer with the new address format under a
-- limit of 32 bits, is read back in its order, whatever follows, if the reader takes 48 bytes: each
-- address as it is, except that its type ANY becomes LEGACY for a peer without Nautilus, and that it
-- is not marked as of the old form.
pub vector-round_trip :
    (addresses : List EntityAddr) (features : ℕ)
    → All IsAddr addresses
    → contains features message_address_v2 ≡ true
    → (l : ℕ) → l ≤ u32_max
    → {w : List ℕ} → (encode addresses features (Enc.new l) >>= Enc.finish) ≡ ok w
    → (max_addresses : ℕ) → length addresses ≤ max_addresses
    → max_addresses < 2 ^ 32
    → (m : ℕ) → 48 ≤ m
    → (rest : List ℕ)
    → Reads (all_sent addresses features) rest (decode max_addresses (new (w ++ rest) m))
vector-round_trip addresses features all v2 l h {w} e max_addresses most small m room rest =
    let writes = encode-Writes features v2 addresses all (omega (arith, most, small)) in
    rw (sym (written_form writes l h e), new-cursor (vector_bytes addresses features ++ rest) m)
      (cursor-Reads (all_sent addresses features) _ rest m (
        vector-cursor features m room addresses all max_addresses most (omega (arith, most, small))
          [] rest))
