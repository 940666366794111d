-- ===== src/Protocol/Address/Endpoint.antt =====
-- Addresses and the endpoints that they stand for, in src/protocol/address.rs.
use rados_rs.Common.{
  ℕ, suc, ◌+◌, ◌*◌, ◌/◌, ◌%◌, ◌≡◌, arith, refl, ok, some, List, ◌++◌, length, length-append,
  replicate, take, take-append_length, le→ltb,
}
use rados_rs.Protocol.Address.{
  SocketAddr, v4, v6, endpoint, entity_addr_from_endpoint, socket_data_length,
}

-- A socket address has 4 or 16 octets.
abbrev pub IsSocketAddr : SocketAddr → Type 0
IsSocketAddr (v4 octets port) = length octets ≡ 4
IsSocketAddr (v6 octets port flowinfo scope_id) = length octets ≡ 16

port_lem : (port : ℕ) → port / 256 * 256 + port % 256 ≡ port
port_lem port = omega arith

-- Octets before what follows them.
octets_lem : (n : ℕ) (octets rest : List ℕ) → length octets ≡ n → take n (octets ++ rest) ≡ octets
octets_lem n octets rest h = rw h at (take-append_length octets rest)

-- What an address keeps of an endpoint: not the flow information, nor the scope.
unfoldable pub unscoped : SocketAddr → SocketAddr
unscoped (v4 octets port) = v4 octets port
unscoped (v6 octets port flowinfo scope_id) = v6 octets port 0 0

-- The address that is made of an endpoint with 4 or 16 octets, whatever its type and nonce, has the
-- length of its family, and stands without a panic for that endpoint: for its octets and its port,
-- and in the sixth version for flow information and a scope of 0, whatever these were.
pub endpoint-entity_addr_from_endpoint :
    (address_type nonce : ℕ) (s : SocketAddr)
    → IsSocketAddr s
    → (endpoint (entity_addr_from_endpoint address_type nonce s) ≡ some (some (unscoped s)))
      × (socket_data_length (entity_addr_from_endpoint address_type nonce s).family
          ≡ ok (length (entity_addr_from_endpoint address_type nonce s).socket_data))
unfolding endpoint entity_addr_from_endpoint unscoped socket_data_length
endpoint-entity_addr_from_endpoint address_type nonce (v4 octets port) h =
    let body = octets ++ replicate 8 0 in
    let long : length body ≡ 12 = omega (arith, length-append octets (replicate {A = ℕ} 8 0), h) in
    (
      simp (
        le→ltb (suc (suc (length body))) 2 (omega arith),
        le→ltb (suc (suc (length body))) 6 (omega (arith, long)),
        octets_lem 4 octets (replicate 8 0) h,
        port_lem port,
      ),
      rw long refl,
    )
endpoint-entity_addr_from_endpoint address_type nonce (v6 octets port flowinfo scope_id) h =
    let body = octets ++ replicate 4 0 in
    let long : length body ≡ 20 = omega (arith, length-append octets (replicate {A = ℕ} 4 0), h) in
    (
      simp (
        le→ltb (suc (suc (suc (suc (suc (suc (length body))))))) 2 (omega arith),
        le→ltb (suc (suc (suc (suc (suc (suc (length body))))))) 22 (omega (arith, long)),
        octets_lem 16 octets (replicate 4 0) h,
        port_lem port,
      ),
      rw long refl,
    )
