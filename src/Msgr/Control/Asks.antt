-- ===== src/Msgr/Control/Asks.antt =====
-- What `Control::encode` of src/msgr/control.rs asks of a control: its tag and its limits.
use rados_rs.Common.{◌*◌, ◌^◌, ◌<◌, Bool, true, false, ◌&&◌, All, length, leb}
use rados_rs.Protocol.Address.Written.{IsAddr}
use rados_rs.Msgr.Frame.{Tag, Limits}
use rados_rs.Msgr.Control.{Control}

-- The tag under which a control is sent.
abbrev pub sent_tag : Control → Tag
sent_tag (Control.hello t a) = Tag.hello
sent_tag (Control.client_ident v) = Tag.client_ident
sent_tag (Control.server_ident v) = Tag.server_ident
sent_tag (Control.ident_missing_features f) = Tag.ident_missing_features
sent_tag (Control.session_reconnect v) = Tag.session_reconnect
sent_tag (Control.session_reset full) = Tag.session_reset
sent_tag (Control.session_retry s) = Tag.session_retry
sent_tag (Control.session_retry_global s) = Tag.session_retry_global
sent_tag (Control.session_reconnect_ok s) = Tag.session_reconnect_ok
sent_tag Control.wait = Tag.wait
sent_tag (Control.keepalive2 t) = Tag.keepalive2
sent_tag (Control.keepalive2_ack t) = Tag.keepalive2_ack
sent_tag (Control.ack s) = Tag.ack
sent_tag (Control.auth_request v) = Tag.auth_request
sent_tag (Control.auth_bad_method v) = Tag.auth_bad_method
sent_tag (Control.auth_reply_more p) = Tag.auth_reply_more
sent_tag (Control.auth_request_more p) = Tag.auth_request_more
sent_tag (Control.auth_done v) = Tag.auth_done
sent_tag (Control.auth_signature s) = Tag.auth_signature
sent_tag (Control.auth_payload t p) = t

-- What encoding asks for beforehand: addresses are well-formed, and the limits that it reads have 32
-- bits.
abbrev pub IsWellFormed : Limits → Control → Type 0
IsWellFormed limits (Control.hello t a) = IsAddr a
IsWellFormed limits (Control.client_ident v) =
    All IsAddr v.addresses × IsAddr v.target_address × limits.max_addresses < 2 ^ 32
IsWellFormed limits (Control.server_ident v) =
    All IsAddr v.addresses × limits.max_addresses < 2 ^ 32
IsWellFormed limits (Control.session_reconnect v) =
    All IsAddr v.addresses × limits.max_addresses < 2 ^ 32
IsWellFormed limits (Control.auth_request v) = limits.max_auth_bytes < 2 ^ 32
IsWellFormed limits (Control.auth_bad_method v) = limits.max_auth_bytes < 2 ^ 32
IsWellFormed limits c = Unit {0}

-- The limits on addresses and on authentication bytes, a word having four of them.
unfoldable pub is_within : Limits → Control → Bool
is_within limits (Control.client_ident v) = leb (length v.addresses) limits.max_addresses
is_within limits (Control.server_ident v) = leb (length v.addresses) limits.max_addresses
is_within limits (Control.session_reconnect v) = leb (length v.addresses) limits.max_addresses
is_within limits (Control.auth_request v) =
    leb (length v.auth_payload) limits.max_auth_bytes
    && leb (length v.preferred_modes * 4) limits.max_auth_bytes
is_within limits (Control.auth_bad_method v) =
    leb (length v.allowed_methods * 4) limits.max_auth_bytes
    && leb (length v.allowed_modes * 4) limits.max_auth_bytes
is_within limits (Control.auth_reply_more p) = leb (length p) limits.max_auth_bytes
is_within limits (Control.auth_request_more p) = leb (length p) limits.max_auth_bytes
is_within limits (Control.auth_done v) = leb (length v.auth_payload) limits.max_auth_bytes
is_within limits (Control.auth_payload t p) = leb (length p) limits.max_auth_bytes
is_within limits c = true

-- The tags of authentication, under which a payload may be sent.
unfoldable pub is_auth : Tag → Bool
is_auth Tag.auth_request = true
is_auth Tag.auth_bad_method = true
is_auth Tag.auth_reply_more = true
is_auth Tag.auth_request_more = true
is_auth Tag.auth_done = true
is_auth Tag.auth_signature = true
is_auth t = false

unfoldable pub has_tag : Control → Bool
has_tag (Control.auth_payload t p) = is_auth t
has_tag c = true
