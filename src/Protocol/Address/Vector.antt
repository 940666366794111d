-- ===== src/Protocol/Address/Vector.antt =====
-- `EntityAddrVec` of src/protocol/address.rs: its decoding.
pub mod Encode
pub mod RoundTrip
use rados_rs.Common.{
  ℕ, zero, suc, Bool, true, false, not, Option, none, some, List, [], ◌∷◌, length, replicate,
  Result, ok, err, ◌==◌, ltb, if◌then◌else◌, to_u32,
}
use rados_rs.Wire.Errors.{WireError, malformed, limit_exceeded}
use rados_rs.Wire.Encoder as Enc
use rados_rs.Wire.Encoder.{Encoder}
use rados_rs.Wire.Decoder as Decoding
use rados_rs.Wire.Decoder.Read.{Read, ◌>>=◌, ◌>>◌, pure, lift, raise, check, require}
use rados_rs.Protocol.Features.{contains, message_address_v2}
use rados_rs.Protocol.Address.{EntityAddr, af_unspec, type_none, type_legacy}
use rados_rs.Protocol.Address.Codec as One

-- The loops over the addresses.
unfoldable pub decode_each : ℕ → Read (List EntityAddr)
decode_each zero = pure []
decode_each (suc n) = do address ← One.decode; rest ← decode_each n; pure (address ∷ rest)

unfoldable pub decode_counted : ℕ → Read (List EntityAddr)
unfolding decode_each
decode_counted max_addresses = do
  count ← lift Decoding.u32
  require (not (ltb max_addresses count)) limit_exceeded
  left ← lift (λ d. (Decoding.remaining d, d))
  require (not (ltb left count)) malformed
  addresses ← decode_each count
  check
  pure addresses

unfoldable pub decode_single : ℕ → Read (List EntityAddr)
decode_single marker = do address ← One.decode_after_marker marker; pure (address ∷ [])

-- Whether the marker is that of one address, the limit and the marker.
unfoldable pub decode_marked : Bool → ℕ → ℕ → Read (List EntityAddr)
unfolding decode_counted decode_single
decode_marked true max_addresses marker = decode_single marker
decode_marked false max_addresses marker = do
  require (marker == 2) malformed
  decode_counted max_addresses

unfoldable pub decode : ℕ → Read (List EntityAddr)
unfolding decode_marked
decode max_addresses = do
  marker ← lift Decoding.u8
  check
  decode_marked (ltb marker 2) max_addresses marker
