-- ===== src/Protocol/Address/Decoded.antt =====
-- What the decoder of src/protocol/address.rs guarantees of an address, whatever the bytes.
use mathlib.Core.Path.{subst}
use rados_rs.Common.{
  ℕ, zero, suc, ◌-◌, ◌≤◌, ◌≡◌, refl, ap, ◌∙◌, arith, Bool, true, false, not, none, length, take,
  drop, length-append, length-take, length-drop, length-replicate, replicate, ok, ok-injective, ltb,
  leb, ◌==◌,
}
use rados_rs.Wire.Errors.{malformed}
use rados_rs.Wire.Decoder as Decoding
use rados_rs.Wire.Decoder.{Decoder, take_slice}
use rados_rs.Wire.Decoder.Read.{
  Read, raise, check, require, within, proceed-inv, check-inv, within-inv, raise-inv, require-inv,
  opened,
}
use rados_rs.Protocol.Address.{EntityAddr, from_be, socket_data_length}
use rados_rs.Protocol.Address.Written.{family_lem}
use rados_rs.Protocol.Address.Codec.{
  decode_legacy, read_socket, read_nothing, read_form, read_address, decode_v2, decode_after_marker,
  decode,
}

-- The data of an address has the length of its family.
unfoldable pub HasLength : EntityAddr → Type 0
HasLength a = socket_data_length a.family ≡ ok (length a.socket_data)

-- A read gives only such addresses.
abbrev GivesLength : Read EntityAddr → Type 0
GivesLength m = (d : Decoder) (d' : Decoder) (a : EntityAddr) → m d ≡ ok (a, d') → HasLength a

slice_length :
    (n : ℕ) (d : Decoder) → (take_slice n d).1.error ≡ none → length (take_slice n d).0 ≡ n
unfolding take_slice
slice_length n d h =
    ground (arith, length-take n (drop d.offset d.bytes), length-drop d.offset d.bytes)

decode_legacy-GivesLength : GivesLength decode_legacy
unfolding decode_legacy HasLength Decoding.raw
decode_legacy-GivesLength d d' a e =
    let slice = Decoding.raw 128 (Decoding.u32 (Decoding.raw 3 d).1).1 in
    let (u, d4, e4, f4) = proceed-inv _ (check slice.1) e in
    let (len, d5, e5, f5) =
      proceed-inv _ (raise (socket_data_length (from_be (take 2 slice.0))) d4) f4 in
    let made = ap (λ t. t.0) (ok-injective f5) in
    let found = raise-inv (socket_data_length (from_be (take 2 slice.0))) d4 e5 in
    let whole = slice_length 128 _ (check-inv slice.1 e4).0 in
    let (family, least, most) = family_lem (from_be (take 2 slice.0)) len found in
    subst HasLength made (
      found
      ∙ ap ok (omega (arith, length-take len (drop 2 slice.0), length-drop 2 slice.0, whole, most)))

read_socket-GivesLength : (t n k : ℕ) → GivesLength (read_socket t n k)
unfolding read_socket HasLength Decoding.raw
read_socket-GivesLength t n k d d' a e =
    let (u1, d1, e1, f1) = proceed-inv _ (require (leb 2 k) malformed d) e in
    let family = (Decoding.u16 d1).0 in
    let (maximum, d2, e2, f2) =
      proceed-inv _ (raise (socket_data_length family) (Decoding.u16 d1).1) f1 in
    let (u3, d3, e3, f3) = proceed-inv _ (require (not (ltb maximum (k - 2))) malformed d2) f2 in
    let slice = Decoding.raw (k - 2) d3 in
    let (u4, d4, e4, f4) = proceed-inv _ (check slice.1) f3 in
    let made = ap (λ t. t.0) (ok-injective f4) in
    let found = raise-inv (socket_data_length family) (Decoding.u16 d1).1 e2 in
    let whole = slice_length (k - 2) d3 (check-inv slice.1 e4).0 in
    let room : k - 2 ≤ maximum =
      ground (arith, (require-inv (not (ltb maximum (k - 2))) malformed d2 e3).0) in
    subst HasLength made (
      found
      ∙ ap ok (
          omega (
            arith,
            length-append slice.0 (replicate (maximum - length slice.0) 0),
            length-replicate {A = ℕ} (maximum - length slice.0) 0,
            whole,
            room,
          )))

read_nothing-GivesLength : (t n : ℕ) → GivesLength (read_nothing t n)
unfolding read_nothing HasLength socket_data_length
read_nothing-GivesLength t n d d' a e =
    let (u, d1, e1, f1) = proceed-inv _ (check d) e in
    subst HasLength (ap (λ t. t.0) (ok-injective f1)) refl

read_form-GivesLength : (b : Bool) (t n k : ℕ) → GivesLength (read_form b t n k)
unfolding read_form
read_form-GivesLength true t n k d d' a e = read_nothing-GivesLength t n d d' a e
read_form-GivesLength false t n k d d' a e = read_socket-GivesLength t n k d d' a e

read_address-GivesLength : GivesLength read_address
unfolding read_address
read_address-GivesLength d d' a e =
    let first = Decoding.u32 d in
    let second = Decoding.u32 first.1 in
    let third = Decoding.u32 second.1 in
    read_form-GivesLength (third.0 == 0) first.0 second.0 third.0 third.1 d' a e

decode_v2-GivesLength : GivesLength decode_v2
unfolding decode_v2
decode_v2-GivesLength d d' a e =
    let ((version, payload), d1, e1, f1) = proceed-inv _ (opened 1 d) e in
    let (address, d2, e2, f2) = proceed-inv _ (within payload read_address d1) f1 in
    let (u, d3, e3, f3) = proceed-inv _ (check d2) f2 in
    let (d4, inner) = within-inv payload read_address d1 e2 in
    subst HasLength (ap (λ t. t.0) (ok-injective f3))
      (read_address-GivesLength payload d4 address inner)

decode_after_marker-GivesLength : (marker : ℕ) → GivesLength (decode_after_marker marker)
unfolding decode_after_marker
decode_after_marker-GivesLength zero d d' a e = decode_legacy-GivesLength d d' a e
decode_after_marker-GivesLength (suc zero) d d' a e = decode_v2-GivesLength d d' a e
decode_after_marker-GivesLength (suc (suc n)) d d' a e = cc

-- Whatever the bytes, an address that is decoded has a known family and data of exactly its length,
-- so that reading its endpoint stays within the data and encoding it passes its guard.
pub decode-HasLength : (d d' : Decoder) (a : EntityAddr) → decode d ≡ ok (a, d') → HasLength a
unfolding decode
decode-HasLength d d' a e =
    let (u, d1, e1, f1) = proceed-inv _ (check (Decoding.u8 d).1) e in
    decode_after_marker-GivesLength (Decoding.u8 d).0 d1 d' a f1
