-- ===== src/Protocol/Address.antt =====
-- `EntityAddr` of src/protocol/address.rs, and the endpoints that addresses stand for. A socket
-- address has the flow information and the scope of the standard library's, in the sixth version.
pub mod Codec
pub mod Vector
pub mod Written
pub mod RoundTrip
pub mod Decoded
pub mod Endpoint
mod Runs
use rados_rs.Common.{
  ℕ, ◌+◌, ◌*◌, ◌/◌, ◌%◌, Bool, true, false, not, ◌&&◌, ◌||◌, Option, none, some, List, [], ◌∷◌,
  ◌++◌, length, take, drop, replicate, Result, ok, err, ◌==◌, ltb, if◌then◌else◌,
}
use rados_rs.Wire.Errors.{WireError, malformed}

pub record EntityAddr : Type 0 where
  pub address_type : ℕ
  pub nonce : ℕ
  pub family : ℕ
  pub socket_data : List ℕ
  pub legacy_encoding : Bool

abbrev pub af_unspec : ℕ
af_unspec = 0

abbrev pub af_inet : ℕ
af_inet = 2

abbrev pub af_inet6 : ℕ
af_inet6 = 10

abbrev pub legacy_sockaddr_size : ℕ
legacy_sockaddr_size = 128

abbrev pub type_none : ℕ
type_none = 0

abbrev pub type_legacy : ℕ
type_legacy = 1

abbrev pub type_v2 : ℕ
type_v2 = 2

abbrev pub type_any : ℕ
type_any = 3

-- `to_be_bytes` and `from_be_bytes` of a word of 16 bits
abbrev pub be_bytes : ℕ → List ℕ
be_bytes v = v / 256 ∷ v % 256 ∷ []

abbrev pub from_be : List ℕ → ℕ
from_be (high ∷ low ∷ _) = high * 256 + low
from_be _ = 0

unfoldable pub socket_data_length : ℕ → Result WireError ℕ
socket_data_length family =
    if family == af_inet
    then ok 14
    else if family == af_unspec || family == af_inet6
    then ok 26
    else err malformed

-- `==` on byte vectors
unfoldable pub bytes_eq : List ℕ → List ℕ → Bool
bytes_eq [] [] = true
bytes_eq [] (b ∷ bs) = false
bytes_eq (a ∷ as') [] = false
bytes_eq (a ∷ as') (b ∷ bs) = a == b && bytes_eq as' bs

unfoldable pub has_same_endpoint : EntityAddr → EntityAddr → Bool
unfolding bytes_eq
has_same_endpoint a b =
    not (a.family == af_unspec) && a.family == b.family && bytes_eq a.socket_data b.socket_data

unfoldable pub with_nonce : EntityAddr → ℕ → EntityAddr
with_nonce a nonce = record a { nonce = nonce }

unfoldable pub is_v2 : EntityAddr → Bool
is_v2 a = a.address_type == type_v2

-- `SocketAddr`: the octets of the address, the port, and in the sixth version of the protocol the
-- flow information and the scope.
pub data SocketAddr : Type 0 where
  v4 : List ℕ → ℕ → SocketAddr
  v6 : List ℕ → ℕ → ℕ → ℕ → SocketAddr

-- `SocketAddr::new` of an address of the sixth version
abbrev pub plain_v6 : List ℕ → ℕ → SocketAddr
plain_v6 octets port = v6 octets port 0 0

-- `none` is a panic, at the octets of an IPv4 address that is too short.
unfoldable pub endpoint : EntityAddr → Option (Option SocketAddr)
endpoint a =
    if ltb (length a.socket_data) 2
    then some none
    else if a.family == af_inet
    then (if ltb (length a.socket_data) 6
        then none
        else some (some (v4 (take 4 (drop 2 a.socket_data)) (from_be (take 2 a.socket_data)))))
    else if a.family == af_inet6
    then (if ltb (length a.socket_data) 22
        then some none
        else some
            (some (plain_v6 (take 16 (drop 6 a.socket_data)) (from_be (take 2 a.socket_data)))))
    else some none

unfoldable pub entity_addr_from_endpoint : ℕ → ℕ → SocketAddr → EntityAddr
entity_addr_from_endpoint address_type nonce (v4 octets port) = record {
  address_type = address_type;
  nonce = nonce;
  family = af_inet;
  socket_data = be_bytes port ++ (octets ++ replicate 8 0);
  legacy_encoding = false;
}
entity_addr_from_endpoint address_type nonce (v6 octets port flowinfo scope_id) = record {
  address_type = address_type;
  nonce = nonce;
  family = af_inet6;
  socket_data = be_bytes port ++ (replicate 4 0 ++ (octets ++ replicate 4 0));
  legacy_encoding = false;
}

unfoldable pub ipv4_v2 : SocketAddr → Result WireError EntityAddr
unfolding entity_addr_from_endpoint
ipv4_v2 (v4 octets port) = ok (entity_addr_from_endpoint type_v2 0 (v4 octets port))
ipv4_v2 (v6 octets port flowinfo scope_id) = err malformed
