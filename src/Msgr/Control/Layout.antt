-- ===== src/Msgr/Control/Layout.antt =====
-- The bytes of control frames, of src/msgr/control.rs, and the controls that can be sent.
use rados_rs.Common.{ℕ, ◌*◌, ◌^◌, ◌≤◌, ◌<◌, ◌≡◌, List, [], ◌∷◌, ◌++◌, All, length}
use rados_rs.Common.Int.{ℤ}
use rados_rs.Wire.Bytes.{le_bytes, pattern_of, IsSigned}
use rados_rs.Wire.Encoder.{bool_byte}
use rados_rs.Wire.Encoder.Emits.{prefixed}
use rados_rs.Protocol.Address.{EntityAddr}
use rados_rs.Protocol.Address.Written.{IsAddr, address_bytes}
use rados_rs.Protocol.Address.Vector.RoundTrip.{vector_bytes}
use rados_rs.Msgr.Frame.{Limits}
use rados_rs.Msgr.Control.{
  Control, ClientIdent, ServerIdent, SessionReconnect, Timestamp, control_features,
}

abbrev pub Word : ℕ → Type 0
Word v = v < 2 ^ 64

abbrev pub Half : ℕ → Type 0
Half v = v < 2 ^ 32

-- The addresses are well-formed, and no more than the limit.
pub record AreAddresses (limits : Limits) (addresses : List EntityAddr) : Type 0 where
  pub each : All IsAddr addresses
  pub most : length addresses ≤ limits.max_addresses
  pub small : limits.max_addresses < 2 ^ 32

-- The bytes of an authentication payload are within the limit.
pub record IsAuth (limits : Limits) (payload : List ℕ) : Type 0 where
  pub most : length payload ≤ limits.max_auth_bytes
  pub small : limits.max_auth_bytes < 2 ^ 32

-- The words of a list are within the limit.
pub record AreWords (limits : Limits) (values : List ℕ) : Type 0 where
  pub each : All Half values
  pub most : length values * 4 ≤ limits.max_auth_bytes
  pub small : limits.max_auth_bytes < 2 ^ 32

pub record IsClient (limits : Limits) (v : ClientIdent) : Type 0 where
  pub addresses : AreAddresses limits v.addresses
  pub target_address : IsAddr v.target_address
  pub global_id : IsSigned (2 ^ 64) v.global_id
  pub global_sequence : Word v.global_sequence
  pub supported_features : Word v.supported_features
  pub required_features : Word v.required_features
  pub flags : Word v.flags
  pub cookie : Word v.cookie

pub record IsServer (limits : Limits) (v : ServerIdent) : Type 0 where
  pub addresses : AreAddresses limits v.addresses
  pub global_id : IsSigned (2 ^ 64) v.global_id
  pub global_sequence : Word v.global_sequence
  pub supported_features : Word v.supported_features
  pub required_features : Word v.required_features
  pub flags : Word v.flags
  pub cookie : Word v.cookie

pub record IsReconnect (limits : Limits) (v : SessionReconnect) : Type 0 where
  pub addresses : AreAddresses limits v.addresses
  pub client_cookie : Word v.client_cookie
  pub server_cookie : Word v.server_cookie
  pub global_sequence : Word v.global_sequence
  pub connect_sequence : Word v.connect_sequence
  pub message_sequence : Word v.message_sequence

pub record IsTimestamp (t : Timestamp) : Type 0 where
  pub seconds : Half t.seconds
  pub nanoseconds : t.nanoseconds < 10 ^ 9

-- The fields of a control have the source's widths, its addresses and authentication bytes are
-- within the limits, and its nanoseconds are less than a second. A payload under a tag of its own
-- is left out: it is decoded as what its tag says.
abbrev pub IsSendable : Limits → Control → Type 0
IsSendable limits (Control.hello t a) = IsAddr a
IsSendable limits (Control.client_ident v) = IsClient limits v
IsSendable limits (Control.server_ident v) = IsServer limits v
IsSendable limits (Control.ident_missing_features f) = Word f
IsSendable limits (Control.session_reconnect v) = IsReconnect limits v
IsSendable limits (Control.session_reset full) = Unit {0}
IsSendable limits (Control.session_retry s) = Word s
IsSendable limits (Control.session_retry_global s) = Word s
IsSendable limits (Control.session_reconnect_ok s) = Word s
IsSendable limits Control.wait = Unit {0}
IsSendable limits (Control.keepalive2 t) = IsTimestamp t
IsSendable limits (Control.keepalive2_ack t) = IsTimestamp t
IsSendable limits (Control.ack s) = Word s
IsSendable limits (Control.auth_request v) =
    Half v.method × AreWords limits v.preferred_modes × IsAuth limits v.auth_payload
IsSendable limits (Control.auth_bad_method v) =
    Half v.method
    × IsSigned (2 ^ 32) v.result
    × AreWords limits v.allowed_methods
    × AreWords limits v.allowed_modes
IsSendable limits (Control.auth_reply_more p) = IsAuth limits p
IsSendable limits (Control.auth_request_more p) = IsAuth limits p
IsSendable limits (Control.auth_done v) =
    Word v.global_id × Half v.connection_mode × IsAuth limits v.auth_payload
IsSendable limits (Control.auth_signature s) = length s ≡ 32
IsSendable limits (Control.auth_payload t p) = ⊥

abbrev pub each_word : List ℕ → List ℕ
each_word [] = []
each_word (v ∷ rest) = le_bytes 4 v ++ each_word rest

unfoldable pub word_bytes : List ℕ → List ℕ
word_bytes values = le_bytes 4 (length values) ++ each_word values

unfoldable pub one_address : EntityAddr → List ℕ
one_address a = address_bytes a control_features

unfoldable pub all_addresses : List EntityAddr → List ℕ
all_addresses addresses = vector_bytes addresses control_features

abbrev pub ident_bytes : ℤ → ℕ → ℕ → ℕ → ℕ → ℕ → List ℕ
ident_bytes id sequence supported required flags cookie =
    le_bytes 8 (pattern_of (2 ^ 64) id)
    ++ (le_bytes 8 sequence
        ++ (le_bytes 8 supported
            ++ (le_bytes 8 required ++ (le_bytes 8 flags ++ le_bytes 8 cookie))))

abbrev pub timestamp_bytes : Timestamp → List ℕ
timestamp_bytes t = le_bytes 4 t.seconds ++ le_bytes 4 t.nanoseconds

unfoldable pub payload_bytes : Control → List ℕ
payload_bytes (Control.hello t a) = t ∷ one_address a
payload_bytes (Control.client_ident v) =
    all_addresses v.addresses
    ++ (one_address v.target_address
        ++ ident_bytes v.global_id v.global_sequence v.supported_features v.required_features
            v.flags v.cookie)
payload_bytes (Control.server_ident v) =
    all_addresses v.addresses
    ++ ident_bytes v.global_id v.global_sequence v.supported_features v.required_features v.flags
        v.cookie
payload_bytes (Control.ident_missing_features f) = le_bytes 8 f
payload_bytes (Control.session_reconnect v) =
    all_addresses v.addresses
    ++ (le_bytes 8 v.client_cookie
        ++ (le_bytes 8 v.server_cookie
            ++ (le_bytes 8 v.global_sequence
                ++ (le_bytes 8 v.connect_sequence ++ le_bytes 8 v.message_sequence))))
payload_bytes (Control.session_reset full) = bool_byte full ∷ []
payload_bytes (Control.session_retry s) = le_bytes 8 s
payload_bytes (Control.session_retry_global s) = le_bytes 8 s
payload_bytes (Control.session_reconnect_ok s) = le_bytes 8 s
payload_bytes Control.wait = []
payload_bytes (Control.keepalive2 t) = timestamp_bytes t
payload_bytes (Control.keepalive2_ack t) = timestamp_bytes t
payload_bytes (Control.ack s) = le_bytes 8 s
payload_bytes (Control.auth_request v) =
    le_bytes 4 v.method ++ (word_bytes v.preferred_modes ++ prefixed v.auth_payload)
payload_bytes (Control.auth_bad_method v) =
    le_bytes 4 v.method
    ++ (le_bytes 4 (pattern_of (2 ^ 32) v.result)
        ++ (word_bytes v.allowed_methods ++ word_bytes v.allowed_modes))
payload_bytes (Control.auth_reply_more p) = prefixed p
payload_bytes (Control.auth_request_more p) = prefixed p
payload_bytes (Control.auth_done v) =
    le_bytes 8 v.global_id ++ (le_bytes 4 v.connection_mode ++ prefixed v.auth_payload)
payload_bytes (Control.auth_signature s) = s
payload_bytes (Control.auth_payload t p) = p
