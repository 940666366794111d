-- ===== src/Msgr/Control/Written.antt =====
-- What `Control::encode` of src/msgr/control.rs writes for the controls that can be sent.
use mathlib.Core.Path.{subst}
use rados_rs.Common.{
  ◌<◌, ◌^◌, ◌∙◌, All, Bool, false, ◌&&◌, ◌>>◌, err, leb, leb→le, Bool-cases, inl, inr, ℕ, ◌*◌, ◌≡◌,
  refl, arith, true, not, List, [], ◌∷◌, ◌++◌, append_assoc, length, Result, le→ltb, ltb, u32_max,
}
use rados_rs.Common.Int.{ℤ}
use rados_rs.Wire.Bytes.{le_bytes}
use rados_rs.Wire.Encoder as Enc
use rados_rs.Wire.Encoder.{Encoder, bool_byte}
use rados_rs.Wire.Encoder.Emits.{
  Emits, Emits-then, Emits-nothing, Emits-raw, Emits-u8, Emits-u32, Emits-u64, Emits-i32, Emits-i64,
  Emits-bool, Emits-bytes,
}
use rados_rs.Wire.Encoder.Writes.{Writes, Writes-then, Writes-Emits, Writes-ensure, Writes-map_err}
use rados_rs.Wire.Encoder.Tries.{
  Tries, Tries-Writes, Tries-then, Tries-first, Tries-second, Tries-ensure,
}
use rados_rs.Protocol.Features.{contains, message_address_v2, server_nautilus_mask}
use rados_rs.Protocol.Address.{EntityAddr}
use rados_rs.Protocol.Address.Codec as One
use rados_rs.Protocol.Address.Written.{IsAddr, encode-Emits, encode_lem}
use rados_rs.Protocol.Address.Vector.RoundTrip.{encode-Writes}
use rados_rs.Msgr.Frame.{Limits, FrameError, limit_exceeded, of_wire}
use rados_rs.Msgr.Control.{Control, SessionReconnect, Timestamp, control_features}
use rados_rs.Msgr.Control.Encode.{
  check_addresses, check_auth_bytes, put_words, encode_u32_slice, put_address, put_addresses,
  put_client, put_server, put_reconnect, put_timestamp, put_auth_bytes, put_auth_request,
  put_bad_method, put_auth_done, encode_payload,
}
use rados_rs.Msgr.Control.Asks.{IsWellFormed, is_within}
use rados_rs.Msgr.Control.Layout.{
  each_word, word_bytes, one_address, all_addresses, ident_bytes, payload_bytes,
}

abbrev Attempts : Bool → (Encoder → Result FrameError Encoder) → List ℕ → Type 0
Attempts test f bs = Tries limit_exceeded test f bs

abbrev Puts : (Encoder → Result FrameError Encoder) → List ℕ → Type 0
Puts f bs = Writes f bs

has_v2 : contains control_features message_address_v2 ≡ true
unfolding contains control_features server_nautilus_mask
has_v2 = refl

put_address-Writes : (a : EntityAddr) → IsAddr a → Puts (put_address a) (one_address a)
unfolding put_address one_address
put_address-Writes a w = Writes-map_err of_wire (record {
  form = One.encode_form a control_features;
  emits = encode-Emits a control_features;
  passes = encode_lem a w control_features;
})

within_lem : (a b : ℕ) → not (ltb b a) ≡ leb a b
within_lem a b = ground arith

put_addresses-Tries :
    (limits : Limits) (addresses : List EntityAddr)
    → All IsAddr addresses
    → limits.max_addresses < 2 ^ 32
    → Attempts
        (leb (length addresses) limits.max_addresses)
        (put_addresses addresses limits)
        (all_addresses addresses)
unfolding put_addresses check_addresses all_addresses
put_addresses-Tries limits addresses w small = record {
  written = λ h.
      let most = leb→le (length addresses) limits.max_addresses h in
      Writes-ensure limit_exceeded (within_lem (length addresses) limits.max_addresses ∙ h) (
        Writes-map_err of_wire
          (encode-Writes control_features has_v2 addresses w (omega (arith, most, small))));
  refused = λ h e. rw (within_lem (length addresses) limits.max_addresses, h) refl;
}

put_words-Emits : (values : List ℕ) → Emits (put_words values) (each_word values)
unfolding put_words
put_words-Emits [] = Emits-nothing
put_words-Emits (v ∷ rest) = Emits-then (Emits-u32 v) (put_words-Emits rest)

slice_refused :
    (limits : Limits) (values : List ℕ)
    → leb (length values * 4) limits.max_auth_bytes ≡ false
    → (e : Encoder) → encode_u32_slice values limits.max_auth_bytes e ≡ err limit_exceeded
unfolding encode_u32_slice
slice_refused limits values h e = elim (Bool-cases (ltb u32_max (length values))) [
  | inl long ↦ rw long refl
  | inr short ↦ elim (Bool-cases (ltb u32_max (length values * 4))) [
    | inl over ↦ rw (short, over) refl
    | inr under ↦ rw (short, under, within_lem (length values * 4) limits.max_auth_bytes, h) refl
  ]
]

slice-Tries :
    (limits : Limits) (values : List ℕ)
    → limits.max_auth_bytes < 2 ^ 32
    → Attempts
        (leb (length values * 4) limits.max_auth_bytes)
        (encode_u32_slice values limits.max_auth_bytes)
        (word_bytes values)
unfolding encode_u32_slice word_bytes
slice-Tries limits values small = record {
  written = λ h.
      let most = leb→le (length values * 4) limits.max_auth_bytes h in
      record {
        form = λ e. put_words values (Enc.u32 (length values) e);
        emits = Emits-then (Emits-u32 (length values)) (put_words-Emits values);
        passes = λ e. simp (
          le→ltb u32_max (length values) (omega (arith, most, small)),
          le→ltb u32_max (length values * 4) (omega (arith, most, small)),
          le→ltb limits.max_auth_bytes (length values * 4) most,
        );
      };
  refused = λ h e. slice_refused limits values h e;
}

both_true : (b : Bool) → (b && true) ≡ b
both_true true = refl
both_true false = refl

ident-Emits :
    (id : ℤ) (sequence supported required flags cookie : ℕ)
    → Emits
        (λ e.
          Enc.u64 cookie (
            Enc.u64 flags (Enc.u64 required (Enc.u64 supported (Enc.u64 sequence (Enc.i64 id e))))))
        (ident_bytes id sequence supported required flags cookie)
ident-Emits id sequence supported required flags cookie = simp append_assoc at (
    Emits-then
      (Emits-then
        (Emits-then
          (Emits-then (Emits-then (Emits-i64 id) (Emits-u64 sequence)) (Emits-u64 supported))
          (Emits-u64 required))
        (Emits-u64 flags))
      (Emits-u64 cookie))

reconnect-Emits :
    (v : SessionReconnect)
    → Emits (put_reconnect v) (
        le_bytes 8 v.client_cookie
        ++ (le_bytes 8 v.server_cookie
            ++ (le_bytes 8 v.global_sequence
                ++ (le_bytes 8 v.connect_sequence ++ le_bytes 8 v.message_sequence))))
unfolding put_reconnect
reconnect-Emits v = simp append_assoc at (
    Emits-then
      (Emits-then
        (Emits-then (Emits-then (Emits-u64 v.client_cookie) (Emits-u64 v.server_cookie))
          (Emits-u64 v.global_sequence))
        (Emits-u64 v.connect_sequence))
      (Emits-u64 v.message_sequence))

timestamp-Emits :
    (t : Timestamp) → Emits (put_timestamp t) (le_bytes 4 t.seconds ++ le_bytes 4 t.nanoseconds)
unfolding put_timestamp
timestamp-Emits t = Emits-then (Emits-u32 t.seconds) (Emits-u32 t.nanoseconds)

guarded :
    (limits : Limits) (p : List ℕ) {f : Encoder → Result FrameError Encoder} {bs : List ℕ}
    {test : Bool}
    → Attempts test f bs
    → Attempts
        (leb (length p) limits.max_auth_bytes && test)
        (λ e. check_auth_bytes p limits >> f e)
        bs
unfolding check_auth_bytes
guarded limits p {f} {bs} {test} t =
    subst (λ b. Attempts (b && test) (λ e. check_auth_bytes p limits >> f e) bs)
      (within_lem (length p) limits.max_auth_bytes)
      (Tries-ensure (not (ltb limits.max_auth_bytes (length p))) t)

checked :
    (limits : Limits) (p : List ℕ) {f : Encoder → Result FrameError Encoder} {bs : List ℕ}
    → Writes f bs
    → Attempts (leb (length p) limits.max_auth_bytes) (λ e. check_auth_bytes p limits >> f e) bs
checked limits p w =
    rw (both_true (leb (length p) limits.max_auth_bytes)) at (guarded limits p (Tries-Writes w))

pub payload-Tries :
    (limits : Limits) (c : Control)
    → IsWellFormed limits c
    → Attempts (is_within limits c) (encode_payload c limits) (payload_bytes c)
unfolding encode_payload payload_bytes put_client put_server put_auth_request check_auth_bytes
    put_bad_method put_auth_bytes put_auth_done is_within
payload-Tries limits (Control.hello t a) w =
    Tries-Writes (Writes-then (Writes-Emits (Emits-u8 t)) (put_address-Writes a w))
payload-Tries limits (Control.client_ident v) (each, target, small) =
    Tries-first (put_addresses-Tries limits v.addresses each small) (
      Writes-then (put_address-Writes v.target_address target) (
        Writes-Emits (
          ident-Emits v.global_id v.global_sequence v.supported_features v.required_features v.flags
            v.cookie)))
payload-Tries limits (Control.server_ident v) (each, small) =
    Tries-first (put_addresses-Tries limits v.addresses each small) (
      Writes-Emits (
        ident-Emits v.global_id v.global_sequence v.supported_features v.required_features v.flags
          v.cookie))
payload-Tries limits (Control.ident_missing_features f) w =
    Tries-Writes (Writes-Emits (Emits-u64 f))
payload-Tries limits (Control.session_reconnect v) (each, small) =
    Tries-first (put_addresses-Tries limits v.addresses each small)
      (Writes-Emits (reconnect-Emits v))
payload-Tries limits (Control.session_reset full) w = Tries-Writes (Writes-Emits (Emits-bool full))
payload-Tries limits (Control.session_retry s) w = Tries-Writes (Writes-Emits (Emits-u64 s))
payload-Tries limits (Control.session_retry_global s) w = Tries-Writes (Writes-Emits (Emits-u64 s))
payload-Tries limits (Control.session_reconnect_ok s) w = Tries-Writes (Writes-Emits (Emits-u64 s))
payload-Tries limits Control.wait w = Tries-Writes (Writes-Emits Emits-nothing)
payload-Tries limits (Control.keepalive2 t) w = Tries-Writes (Writes-Emits (timestamp-Emits t))
payload-Tries limits (Control.keepalive2_ack t) w = Tries-Writes (Writes-Emits (timestamp-Emits t))
payload-Tries limits (Control.ack s) w = Tries-Writes (Writes-Emits (Emits-u64 s))
payload-Tries limits (Control.auth_request v) small = guarded limits v.auth_payload (
    Tries-second (Writes-Emits (Emits-u32 v.method)) (
      Tries-first (slice-Tries limits v.preferred_modes small)
        (Writes-Emits (Emits-bytes v.auth_payload))))
payload-Tries limits (Control.auth_bad_method v) small =
    Tries-second (Writes-Emits (Emits-u32 v.method)) (
      Tries-second (Writes-Emits (Emits-i32 v.result)) (
        Tries-then _ _ (slice-Tries limits v.allowed_methods small)
          (slice-Tries limits v.allowed_modes small)))
payload-Tries limits (Control.auth_reply_more p) w = checked limits p (Writes-Emits (Emits-bytes p))
payload-Tries limits (Control.auth_request_more p) w =
    checked limits p (Writes-Emits (Emits-bytes p))
payload-Tries limits (Control.auth_done v) w = checked limits v.auth_payload (
    Writes-then (Writes-Emits (Emits-u64 v.global_id)) (
      Writes-then (Writes-Emits (Emits-u32 v.connection_mode))
        (Writes-Emits (Emits-bytes v.auth_payload))))
payload-Tries limits (Control.auth_signature s) w = Tries-Writes (Writes-Emits (Emits-raw s))
payload-Tries limits (Control.auth_payload t p) w = checked limits p (Writes-Emits (Emits-raw p))
