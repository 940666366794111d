-- ===== src/Protocol/Address/Written.antt =====
-- The bytes that the encoder of addresses in src/protocol/address.rs writes.
use rados_rs.Common.{
  ℕ, ◌+◌, ◌^◌, ◌≤◌, ◌<◌, ◌≡◌, refl, arith, true, false, inl, inr, List, ◌∷◌, ◌++◌, append_assoc,
  length, ok, ◌==◌, if◌then◌else◌, Bool-cases, eq→==,
}
use rados_rs.Wire.Bytes.{le_bytes}
use rados_rs.Wire.Encoder.{Encoder}
use rados_rs.Wire.Encoder.Emits.{
  Emits, Emits-then, Emits-raw, Emits-u8, Emits-u16, Emits-u32, Emits-versioned, enveloped,
}
use rados_rs.Protocol.Features.{contains, message_address_v2}
use rados_rs.Protocol.Address.{EntityAddr, af_unspec, type_none, type_legacy, socket_data_length}
use rados_rs.Protocol.Address.Codec.{
  legacy_socket, encode_legacy, wire_type, encode_socket, encode_v2, encode_form, has_length,
  encode,
}

-- The fields are of the widths that the source gives them, and the data has the length of the family.
pub record IsAddr (a : EntityAddr) : Type 0 where
  pub address_type : a.address_type < 2 ^ 32
  pub nonce : a.nonce < 2 ^ 32
  pub socket : socket_data_length a.family ≡ ok (length a.socket_data)

-- The families that have a length, and the lengths.
pub family_lem :
    (family n : ℕ) → socket_data_length family ≡ ok n → (family < 256) × (2 ≤ n) × (n ≤ 26)
unfolding socket_data_length
family_lem family n h = ground arith

unfoldable pub v2_payload : ℕ → EntityAddr → List ℕ
v2_payload address_type a =
    le_bytes 4 address_type
    ++ (le_bytes 4 a.nonce
        ++ (le_bytes 4 (2 + length a.socket_data) ++ (le_bytes 2 a.family ++ a.socket_data)))

unfoldable pub v2_bytes : ℕ → EntityAddr → List ℕ
v2_bytes address_type a = 1 ∷ enveloped 1 1 (v2_payload address_type a)

unfoldable pub legacy_bytes : EntityAddr → List ℕ
legacy_bytes a = le_bytes 4 0 ++ (le_bytes 4 a.nonce ++ legacy_socket a)

unfoldable pub address_bytes : EntityAddr → ℕ → List ℕ
address_bytes a features =
    if contains features message_address_v2
    then v2_bytes (wire_type a features) a
    else legacy_bytes a

-- The address that the peer sees: the old form has no type and no nil family but its own.
unfoldable pub sent : EntityAddr → ℕ → EntityAddr
sent a features =
    if contains features message_address_v2
    then record a { address_type = wire_type a features; legacy_encoding = false }
    else record a {
      address_type = if a.family == af_unspec then type_none else type_legacy;
      legacy_encoding = true;
    }

pub v2-Emits : (t : ℕ) (a : EntityAddr) → Emits (encode_v2 t a) (v2_bytes t a)
unfolding encode_v2 encode_socket v2_bytes v2_payload
v2-Emits t a = Emits-then (Emits-u8 1) (
    Emits-versioned
      (simp append_assoc at (
        Emits-then
          (Emits-then
            (Emits-then (Emits-then (Emits-u32 t) (Emits-u32 a.nonce))
              (Emits-u32 (2 + length a.socket_data)))
            (Emits-u16 a.family))
          (Emits-raw a.socket_data)))
      1 1)

pub legacy-Emits : (a : EntityAddr) → Emits (encode_legacy a) (legacy_bytes a)
unfolding encode_legacy legacy_bytes
legacy-Emits a =
    simp append_assoc at
      (Emits-then (Emits-then (Emits-u32 0) (Emits-u32 a.nonce)) (Emits-raw (legacy_socket a)))

pub encode-Emits :
    (a : EntityAddr) (features : ℕ) → Emits (encode_form a features) (address_bytes a features)
unfolding encode_form address_bytes
encode-Emits a features = elim (Bool-cases (contains features message_address_v2)) [
  | inl v2 ↦ rw v2 (v2-Emits (wire_type a features) a)
  | inr old ↦ rw old (legacy-Emits a)
]

-- An address of the right length is always encoded.
pub encode_lem :
    (a : EntityAddr)
    → IsAddr a
    → (features : ℕ) (e : Encoder) → encode a features e ≡ ok (encode_form a features e)
unfolding encode has_length
encode_lem a w features e =
    simp (w.socket, eq→== (length a.socket_data) (length a.socket_data) refl)
