-- ===== src/Protocol/Address/Codec.antt =====
-- The codec of `EntityAddr` in src/protocol/address.rs.
use Prim.Native.Nat.{bit_or}
use rados_rs.Common.{
  ℕ, zero, suc, ◌+◌, ◌-◌, Bool, true, false, not, ◌&&◌, List, ◌++◌, length, take, drop, replicate,
  Result, ok, err, ◌==◌, ltb, leb, if◌then◌else◌,
}
use rados_rs.Wire.Errors.{WireError, malformed}
use rados_rs.Wire.Encoder as Enc
use rados_rs.Wire.Encoder.{Encoder}
use rados_rs.Wire.Decoder as Decoding
use rados_rs.Wire.Decoder.{Decoder}
use rados_rs.Wire.Decoder.Read.{
  Read, ◌>>=◌, ◌>>◌, pure, lift, raise, check, require, within, opened,
}
use rados_rs.Protocol.Features.{contains, message_address_v2, server_nautilus_mask}
use rados_rs.Protocol.Address.{
  EntityAddr, af_unspec, type_none, type_legacy, type_any, legacy_sockaddr_size, be_bytes, from_be,
  socket_data_length,
}

-- A socket address of 128 bytes: the family and the data, and zeros.
unfoldable pub legacy_socket : EntityAddr → List ℕ
legacy_socket a =
    be_bytes a.family
    ++ (a.socket_data ++ replicate (legacy_sockaddr_size - 2 - length a.socket_data) 0)

unfoldable pub encode_legacy : EntityAddr → Encoder → Encoder
unfolding legacy_socket
encode_legacy a e0 =
    let e1 = Enc.u32 0 e0 in let e2 = Enc.u32 a.nonce e1 in Enc.raw (legacy_socket a) e2

-- The type on the wire: peers that are too old for `ANY` get `LEGACY`.
unfoldable pub wire_type : EntityAddr → ℕ → ℕ
wire_type a features =
    if a.address_type == type_any && not (contains features server_nautilus_mask)
    then type_legacy
    else a.address_type

unfoldable pub encode_socket : ℕ → EntityAddr → Encoder → Encoder
encode_socket address_type a e0 =
    let e1 = Enc.u32 address_type e0 in
    let e2 = Enc.u32 a.nonce e1 in
    let e3 = Enc.u32 (2 + length a.socket_data) e2 in
    let e4 = Enc.u16 a.family e3 in Enc.raw a.socket_data e4

unfoldable pub encode_v2 : ℕ → EntityAddr → Encoder → Encoder
unfolding encode_socket
encode_v2 address_type a e = Enc.versioned 1 1 (encode_socket address_type a) (Enc.u8 1 e)

unfoldable pub encode_form : EntityAddr → ℕ → Encoder → Encoder
unfolding encode_legacy encode_v2 wire_type
encode_form a features =
    if contains features message_address_v2
    then encode_v2 (wire_type a features) a
    else encode_legacy a

-- The guard of `encode`: the data has the length of its family.
unfoldable pub has_length : EntityAddr → Result WireError ℕ → Bool
has_length a (ok expected) = length a.socket_data == expected
has_length a (err _) = false

unfoldable pub encode : EntityAddr → ℕ → Encoder → Result WireError Encoder
unfolding has_length encode_form
encode a features e =
    if has_length a (socket_data_length a.family)
    then ok (encode_form a features e)
    else err malformed

-- The features under which an address was encoded.
unfoldable pub encoding_features : EntityAddr → ℕ
encoding_features a =
    if a.legacy_encoding then 0 else bit_or message_address_v2 server_nautilus_mask

unfoldable pub decode_legacy : Read EntityAddr
decode_legacy = do
  _ ← lift (Decoding.raw 3)
  nonce ← lift Decoding.u32
  socket ← lift (Decoding.raw legacy_sockaddr_size)
  check
  let family = from_be (take 2 socket)
  len ← raise (socket_data_length family)
  pure (record {
    address_type = if family == af_unspec then type_none else type_legacy;
    nonce = nonce;
    family = family;
    socket_data = take len (drop 2 socket);
    legacy_encoding = true;
  })

-- The rest of the payload, where it holds a socket address of `encoded_length` bytes.
unfoldable pub read_socket : ℕ → ℕ → ℕ → Read EntityAddr
read_socket address_type nonce encoded_length = do
  require (leb 2 encoded_length) malformed
  family ← lift Decoding.u16
  maximum ← raise (socket_data_length family)
  require (not (ltb maximum (encoded_length - 2))) malformed
  encoded ← lift (Decoding.raw (encoded_length - 2))
  check
  pure (record {
    address_type = address_type;
    nonce = nonce;
    family = family;
    socket_data = encoded ++ replicate (maximum - length encoded) 0;
    legacy_encoding = false;
  })

unfoldable pub read_nothing : ℕ → ℕ → Read EntityAddr
read_nothing address_type nonce = do
  check
  pure (record {
    address_type = address_type;
    nonce = nonce;
    family = af_unspec;
    socket_data = replicate 26 0;
    legacy_encoding = false;
  })

-- Whether there is no socket address, the type, the nonce and the length.
unfoldable pub read_form : Bool → ℕ → ℕ → ℕ → Read EntityAddr
unfolding read_socket read_nothing
read_form true address_type nonce encoded_length = read_nothing address_type nonce
read_form false address_type nonce encoded_length = read_socket address_type nonce encoded_length

unfoldable pub read_address : Read EntityAddr
unfolding read_form
read_address = do
  address_type ← lift Decoding.u32
  nonce ← lift Decoding.u32
  encoded_length ← lift Decoding.u32
  read_form (encoded_length == 0) address_type nonce encoded_length

unfoldable pub decode_v2 : Read EntityAddr
unfolding read_address
decode_v2 = do (_, payload) ← opened 1; address ← within payload read_address; check; pure address

unfoldable pub decode_after_marker : ℕ → Read EntityAddr
unfolding decode_legacy decode_v2
decode_after_marker zero = decode_legacy
decode_after_marker (suc zero) = decode_v2
decode_after_marker _ = raise (err malformed)

unfoldable pub decode : Read EntityAddr
unfolding decode_after_marker
decode = do marker ← lift Decoding.u8; check; decode_after_marker marker
