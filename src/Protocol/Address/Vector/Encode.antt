-- ===== src/Protocol/Address/Vector/Encode.antt =====
-- `EntityAddrVec::encode` of src/protocol/address.rs.
use rados_rs.Common.{
  ℕ, true, Option, none, some, List, [], ◌∷◌, length, replicate, Result, ok, ◌>>=◌, ok_or, ◌==◌,
  if◌then◌else◌, to_u32,
}
use rados_rs.Wire.Errors.{WireError, limit_exceeded}
use rados_rs.Wire.Encoder as Enc
use rados_rs.Wire.Encoder.{Encoder}
use rados_rs.Protocol.Features.{contains, message_address_v2}
use rados_rs.Protocol.Address.{EntityAddr, af_unspec, type_none, type_legacy}
use rados_rs.Protocol.Address.Codec as One

unfoldable pub encode_each : List EntityAddr → ℕ → Encoder → Result WireError Encoder
encode_each [] features e = ok e
encode_each (a ∷ rest) features e = do e' ← One.encode a features e; encode_each rest features e'

-- The first address of the legacy type.
unfoldable pub find_legacy : List EntityAddr → Option EntityAddr
find_legacy [] = none
find_legacy (a ∷ rest) = if a.address_type == type_legacy then some a else find_legacy rest

abbrev pub no_address : EntityAddr
no_address = record {
  address_type = type_none;
  nonce = 0;
  family = af_unspec;
  socket_data = replicate 26 0;
  legacy_encoding = true;
}

unfoldable pub encode_legacy : List EntityAddr → Encoder → Result WireError Encoder
unfolding find_legacy
encode_legacy addresses e = elim (find_legacy addresses) [
  | some a ↦ One.encode a 0 e
  | none ↦ One.encode no_address 0 e
]

unfoldable pub encode : List EntityAddr → ℕ → Encoder → Result WireError Encoder
unfolding encode_each encode_legacy
encode addresses features e =
    if contains features message_address_v2
    then (do
      count ← ok_or (to_u32 (length addresses)) limit_exceeded
      encode_each addresses features (Enc.u32 count (Enc.u8 2 e)))
    else encode_legacy addresses e
