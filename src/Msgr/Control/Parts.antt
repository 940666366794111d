-- ===== src/Msgr/Control/Parts.antt =====
-- Reading the parts of control frames, of src/msgr/control.rs, where they were written.
use rados_rs.Common.{
  ℕ, ◌*◌, ◌^◌, ◌≤◌, ◌≡◌, refl, ap, arith, false, List, [], ◌∷◌, ◌++◌, All, append_assoc, append-nil,
  inl, inr, Bool-cases, length, length-append, ok, le→ltb, lt→ltb, ◌==◌, u32_max,
}
use rados_rs.Wire.Bytes.{le_bytes, length-le_bytes}
use rados_rs.Wire.Encoder.Emits.{prefixed}
use rados_rs.Wire.Decoder.{raw}
use rados_rs.Wire.Decoder.Cursor.{
  cursor, error-cursor, remaining-cursor, u32-cursor, take_slice-cursor,
}
use rados_rs.Wire.Decoder.Read.{converted_passes, pure}
use rados_rs.Protocol.Features.{contains, server_nautilus_mask}
use rados_rs.Protocol.Address.{EntityAddr, type_any}
use rados_rs.Protocol.Address.Codec as One
use rados_rs.Protocol.Address.Written.{IsAddr, sent}
use rados_rs.Protocol.Address.RoundTrip.{decode-cursor}
use rados_rs.Protocol.Address.Vector.RoundTrip.{all_sent, vector-cursor}
use rados_rs.Msgr.Frame.{Limits, of_wire}
use rados_rs.Msgr.Control.{Control, Timestamp, control_features}
use rados_rs.Msgr.Control.Decode.{
  get_words, decode_u32_slice, decode_auth_bytes, decode_timestamp, get_address, get_addresses,
}
use rados_rs.Msgr.Control.Layout.{
  AreAddresses, AreWords, IsAuth, IsTimestamp, Half, each_word, word_bytes, one_address,
  all_addresses, timestamp_bytes,
}

-- An address as it is decoded from a frame: not in the old form.
abbrev pub fresh : EntityAddr → EntityAddr
fresh a = record a { legacy_encoding = false }

abbrev pub all_fresh : List EntityAddr → List EntityAddr
all_fresh [] = []
all_fresh (a ∷ rest) = fresh a ∷ all_fresh rest

-- The control that the peer reads: its addresses are fresh.
abbrev pub received : Control → Control
received (Control.hello t a) = Control.hello t (fresh a)
received (Control.client_ident v) =
    Control.client_ident
      (record v { addresses = all_fresh v.addresses; target_address = fresh v.target_address })
received (Control.server_ident v) =
    Control.server_ident (record v { addresses = all_fresh v.addresses })
received (Control.session_reconnect v) =
    Control.session_reconnect (record v { addresses = all_fresh v.addresses })
received c = c

wire_lem : (a : EntityAddr) → One.wire_type a control_features ≡ a.address_type
unfolding contains control_features server_nautilus_mask One.wire_type
wire_lem a = elim (Bool-cases (a.address_type == type_any)) [
  | inl any ↦ rw any refl
  | inr typed ↦ rw typed refl
]

fresh_lem : (a : EntityAddr) → sent a control_features ≡ fresh a
unfolding sent contains control_features server_nautilus_mask
fresh_lem a = ap (λ t. record a { address_type = t; legacy_encoding = false }) (wire_lem a)

all_fresh_lem :
    (addresses : List EntityAddr) → all_sent addresses control_features ≡ all_fresh addresses
all_fresh_lem [] = refl
all_fresh_lem (a ∷ rest) = simp (fresh_lem a, all_fresh_lem rest)

-- The reads of the parts of a control, from a decoder that has read `front`.
module _ (limits : Limits) (room : 48 ≤ limits.max_segment_bytes) where
  abbrev m : ℕ
  m = limits.max_segment_bytes

  pub address-cursor :
      (a : EntityAddr)
      → IsAddr a
      → (front rest : List ℕ)
      → get_address (cursor front (one_address a ++ rest) m)
        ≡ ok (fresh a, cursor (front ++ one_address a) rest m)
  unfolding get_address one_address
  address-cursor a w front rest = simp (decode-cursor a control_features w m room, fresh_lem a)

  pub addresses-cursor :
      (addresses : List EntityAddr)
      → AreAddresses limits addresses
      → (front rest : List ℕ)
      → get_addresses limits (cursor front (all_addresses addresses ++ rest) m)
        ≡ ok (all_fresh addresses, cursor (front ++ all_addresses addresses) rest m)
  unfolding get_addresses all_addresses
  addresses-cursor addresses w front rest = simp (
    vector-cursor control_features m room addresses w.each limits.max_addresses w.most
        (omega (arith, w.most, w.small)),
    all_fresh_lem addresses,
  )

  words-cursor :
      (values : List ℕ)
      → All Half values
      → (front rest : List ℕ)
      → get_words (length values) (cursor front (each_word values ++ rest) m)
        ≡ ok (values, cursor (front ++ each_word values) rest m)
  unfolding get_words
  words-cursor [] w front rest = simp append-nil
  words-cursor (v ∷ values) (h, w) front rest =
      simp (append_assoc, u32-cursor v h, words-cursor values w)

  length-each_word : (values : List ℕ) → length (each_word values) ≡ length values * 4
  length-each_word [] = refl
  length-each_word (v ∷ values) = omega (
    arith,
    length-append (le_bytes 4 v) (each_word values),
    length-le_bytes 4 v,
    length-each_word values,
  )

  pub slice-cursor :
      (values : List ℕ)
      → AreWords limits values
      → (front rest : List ℕ)
      → decode_u32_slice limits.max_auth_bytes (cursor front (word_bytes values ++ rest) m)
        ≡ ok (values, cursor (front ++ word_bytes values) rest m)
  unfolding decode_u32_slice word_bytes
  slice-cursor values w front rest =
      let enough : length values * 4 ≤ length (each_word values ++ rest) =
        omega (arith, length-append (each_word values) rest, length-each_word values) in
      simp (
        append_assoc,
        u32-cursor (length values) (omega (arith, w.most, w.small)),
        le→ltb u32_max (length values * 4) (omega (arith, w.most, w.small)),
        le→ltb limits.max_auth_bytes (length values * 4) w.most,
        remaining-cursor,
        le→ltb (length (each_word values ++ rest)) (length values * 4) enough,
        words-cursor values w.each,
      )

  pub auth-cursor :
      (p : List ℕ)
      → IsAuth limits p
      → (front rest : List ℕ)
      → decode_auth_bytes limits (cursor front (prefixed p ++ rest) m)
        ≡ ok (p, cursor (front ++ prefixed p) rest m)
  unfolding decode_auth_bytes prefixed raw
  auth-cursor p w front rest =
      let enough : length p ≤ length (p ++ rest) = omega (arith, length-append p rest) in
      simp (
        append_assoc,
        u32-cursor (length p) (omega (arith, w.most, w.small)),
        le→ltb limits.max_auth_bytes (length p) w.most,
        remaining-cursor,
        le→ltb (length (p ++ rest)) (length p) enough,
        take_slice-cursor p,
      )

  pub timestamp-cursor :
      (t : Timestamp)
      → IsTimestamp t
      → (front rest : List ℕ)
      → decode_timestamp (cursor front (timestamp_bytes t ++ rest) m)
        ≡ ok (t, cursor (front ++ timestamp_bytes t) rest m)
  unfolding decode_timestamp
  timestamp-cursor t w front rest =
      simp
        (
          append_assoc,
          u32-cursor t.seconds w.seconds,
          u32-cursor t.nanoseconds (omega (arith, w.nanoseconds)),
          lt→ltb t.nanoseconds (10 ^ 9) w.nanoseconds,
        )
        (converted_passes of_wire (pure t) _ (error-cursor _ rest m))
