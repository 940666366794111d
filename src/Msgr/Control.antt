-- ===== src/Msgr/Control.antt =====
-- The control frames of src/msgr/control.rs, as values.
pub mod Encode
pub mod Decode
pub mod Layout
pub mod Asks
pub mod Outcome
pub mod Overlong
pub mod Written
pub mod Parts
pub mod RoundTrip
mod Runs
use Prim.Native.Nat.{bit_or}
use rados_rs.Common.{ℕ, Bool, List, leb, ◌&&◌, if◌then◌else◌, Result, ok, err}
use rados_rs.Common.Int.{ℤ}
use rados_rs.Protocol.Address.{EntityAddr}
use rados_rs.Protocol.Features.{message_address_v2, server_nautilus_mask}
use rados_rs.Msgr.Frame.{Tag, tag_code, FrameError, malformed}

abbrev pub connection_flag_lossy : ℕ
connection_flag_lossy = 1

unfoldable pub control_features : ℕ
control_features = bit_or message_address_v2 server_nautilus_mask

pub record ClientIdent : Type 0 where
  pub addresses : List EntityAddr
  pub target_address : EntityAddr
  pub global_id : ℤ
  pub global_sequence : ℕ
  pub supported_features : ℕ
  pub required_features : ℕ
  pub flags : ℕ
  pub cookie : ℕ

pub record ServerIdent : Type 0 where
  pub addresses : List EntityAddr
  pub global_id : ℤ
  pub global_sequence : ℕ
  pub supported_features : ℕ
  pub required_features : ℕ
  pub flags : ℕ
  pub cookie : ℕ

pub record SessionReconnect : Type 0 where
  pub addresses : List EntityAddr
  pub client_cookie : ℕ
  pub server_cookie : ℕ
  pub global_sequence : ℕ
  pub connect_sequence : ℕ
  pub message_sequence : ℕ

pub record Timestamp : Type 0 where
  pub seconds : ℕ
  pub nanoseconds : ℕ

pub record AuthRequest : Type 0 where
  pub method : ℕ
  pub preferred_modes : List ℕ
  pub auth_payload : List ℕ

pub record AuthBadMethod : Type 0 where
  pub method : ℕ
  pub result : ℤ
  pub allowed_methods : List ℕ
  pub allowed_modes : List ℕ

pub record AuthDone : Type 0 where
  pub global_id : ℕ
  pub connection_mode : ℕ
  pub auth_payload : List ℕ

-- The records with one field are written as that field.
pub data Control : Type 0 where
  hello : ℕ → EntityAddr → Control
  client_ident : ClientIdent → Control
  server_ident : ServerIdent → Control
  ident_missing_features : ℕ → Control
  session_reconnect : SessionReconnect → Control
  session_reset : Bool → Control
  session_retry : ℕ → Control
  session_retry_global : ℕ → Control
  session_reconnect_ok : ℕ → Control
  wait : Control
  keepalive2 : Timestamp → Control
  keepalive2_ack : Timestamp → Control
  ack : ℕ → Control
  auth_request : AuthRequest → Control
  auth_bad_method : AuthBadMethod → Control
  auth_reply_more : List ℕ → Control
  auth_request_more : List ℕ → Control
  auth_done : AuthDone → Control
  auth_signature : List ℕ → Control
  auth_payload : Tag → List ℕ → Control

-- The tag of a control, which for a payload must be one of authentication.
unfoldable pub tag_of : Control → Result FrameError Tag
unfolding tag_code
tag_of (hello t a) = ok Tag.hello
tag_of (client_ident v) = ok Tag.client_ident
tag_of (server_ident v) = ok Tag.server_ident
tag_of (ident_missing_features f) = ok Tag.ident_missing_features
tag_of (session_reconnect v) = ok Tag.session_reconnect
tag_of (session_reset full) = ok Tag.session_reset
tag_of (session_retry s) = ok Tag.session_retry
tag_of (session_retry_global s) = ok Tag.session_retry_global
tag_of (session_reconnect_ok s) = ok Tag.session_reconnect_ok
tag_of wait = ok Tag.wait
tag_of (keepalive2 t) = ok Tag.keepalive2
tag_of (keepalive2_ack t) = ok Tag.keepalive2_ack
tag_of (ack s) = ok Tag.ack
tag_of (auth_request v) = ok Tag.auth_request
tag_of (auth_bad_method v) = ok Tag.auth_bad_method
tag_of (auth_reply_more p) = ok Tag.auth_reply_more
tag_of (auth_request_more p) = ok Tag.auth_request_more
tag_of (auth_done v) = ok Tag.auth_done
tag_of (auth_signature s) = ok Tag.auth_signature
tag_of (auth_payload t p) =
    if leb (tag_code Tag.auth_request) (tag_code t)
      && leb (tag_code t) (tag_code Tag.auth_signature)
    then ok t
    else err malformed
