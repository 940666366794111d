-- ===== src/Protocol/Address/Runs.antt =====
-- Runs of the address codec on concrete addresses.
use rados_rs.Common.{
  ℕ, ◌^◌, ◌≡◌, refl, arith, true, false, none, some, List, [], ◌∷◌, ◌++◌, length, replicate, ok,
  ◌>>=◌,
}
use rados_rs.Wire.Bytes.{le_bytes}
use rados_rs.Wire.Encoder as Enc
use rados_rs.Wire.Decoder as Decoding
use rados_rs.Wire.Decoder.{Decoder, new}
use rados_rs.Wire.Decoder.Read.{opened}
use rados_rs.Wire.RoundTrip.{Reads}
use rados_rs.Protocol.Features.{contains, message_address_v2, server_nautilus_mask}
use rados_rs.Protocol.Address.{
  EntityAddr, v6, endpoint, entity_addr_from_endpoint, socket_data_length,
}
use rados_rs.Protocol.Address.Codec as One
use rados_rs.Protocol.Address.Written.{IsAddr, sent}
use rados_rs.Protocol.Address.RoundTrip.{address-round_trip}
use rados_rs.Protocol.Address.Decoded.{HasLength, decode-HasLength}
use rados_rs.Protocol.Address.Endpoint.{unscoped, endpoint-entity_addr_from_endpoint}
use rados_rs.Protocol.Address.Vector as Vec
use rados_rs.Protocol.Address.Vector.Encode as VecEnc
use rados_rs.Protocol.Address.Vector.RoundTrip.{all_sent, vector-round_trip}

abbrev v2_only : ℕ
v2_only = 2 ^ 59

abbrev address : EntityAddr
address = record {
  address_type = 3;
  nonce = 9;
  family = 2;
  socket_data = 26 ∷ 134 ∷ 10 ∷ 0 ∷ 0 ∷ 1 ∷ replicate 8 0;
  legacy_encoding = false;
}

address_ok : IsAddr address
unfolding socket_data_length
address_ok = record { address_type = omega arith; nonce = omega arith; socket = refl }

abbrev written : List ℕ
written =
    1 ∷ 1 ∷ 1 ∷ 28 ∷ 0 ∷ 0 ∷ 0 ∷ 1 ∷ 0 ∷ 0 ∷ 0 ∷ 9 ∷ 0 ∷ 0 ∷ 0 ∷ 16 ∷ 0 ∷ 0 ∷ 0 ∷ 2 ∷ 0
    ∷ address.socket_data

one_written : (One.encode address v2_only (Enc.new 64) >>= Enc.finish) ≡ ok written
unfolding One.encode One.has_length One.encode_form One.encode_v2 One.encode_socket One.wire_type
    socket_data_length contains server_nautilus_mask le_bytes Enc.new Enc.reserve Enc.raw Enc.u8
    Enc.u16 Enc.u32 Enc.finish Enc.envelope Enc.versioned
one_written = refl

address-round_trip_example :
    Reads (sent address v2_only) (7 ∷ []) (One.decode (new (written ++ 7 ∷ []) 64))
address-round_trip_example =
    address-round_trip address v2_only address_ok 64 (omega arith) one_written 64 (omega arith)
      (7 ∷ [])

has_v2 : contains v2_only message_address_v2 ≡ true
unfolding contains
has_v2 = refl

abbrev all_written : List ℕ
all_written = 2 ∷ 2 ∷ 0 ∷ 0 ∷ 0 ∷ (written ++ written)

vector_written :
    (VecEnc.encode (address ∷ address ∷ []) v2_only (Enc.new 128) >>= Enc.finish) ≡ ok all_written
unfolding VecEnc.encode VecEnc.encode_each One.encode One.has_length One.encode_form One.encode_v2
    One.encode_socket One.wire_type socket_data_length contains server_nautilus_mask le_bytes
    Enc.new Enc.reserve Enc.raw Enc.u8 Enc.u16 Enc.u32 Enc.finish Enc.envelope Enc.versioned
vector_written = refl

vector-round_trip_example :
    Reads (all_sent (address ∷ address ∷ []) v2_only) [] (Vec.decode 4 (new (all_written ++ []) 64))
vector-round_trip_example =
    vector-round_trip (address ∷ address ∷ []) v2_only (address_ok, (address_ok, tt)) has_v2 128
      (omega arith) vector_written 4 (omega arith) (omega arith) 64 (omega arith) []

-- What is left after the address, whatever its form.
abbrev after : Decoder
after = record { bytes = written; offset = 35; max_bytes = 64; error = none }

decoded : One.decode (new written 64) ≡ ok (record address { address_type = 1 }, after)
unfolding One.decode One.decode_after_marker One.decode_v2 One.read_address One.read_form
    One.read_socket opened socket_data_length new Decoding.u8 Decoding.u16 Decoding.u32 Decoding.raw
    Decoding.take_slice Decoding.versioned
decoded = refl

decode-HasLength_example : HasLength (record address { address_type = 1 })
decode-HasLength_example =
    decode-HasLength (new written 64) after (record address { address_type = 1 }) decoded

-- fe80::1 with the scope 5
abbrev link_local : List ℕ
link_local = 0xfe ∷ 0x80 ∷ 0 ∷ 0 ∷ 0 ∷ 0 ∷ 0 ∷ 0 ∷ 0 ∷ 0 ∷ 0 ∷ 0 ∷ 0 ∷ 0 ∷ 0 ∷ 1 ∷ []

endpoint-entity_addr_from_endpoint_example :
    (endpoint (entity_addr_from_endpoint 2 7 (v6 link_local 6789 0 5))
      ≡ some (some (unscoped (v6 link_local 6789 0 5))))
    × (socket_data_length (entity_addr_from_endpoint 2 7 (v6 link_local 6789 0 5)).family
        ≡ ok (length (entity_addr_from_endpoint 2 7 (v6 link_local 6789 0 5)).socket_data))
endpoint-entity_addr_from_endpoint_example =
    endpoint-entity_addr_from_endpoint 2 7 (v6 link_local 6789 0 5) refl
