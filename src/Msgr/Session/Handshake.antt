-- ===== src/Msgr/Session/Handshake.antt =====
-- The handshake of src/msgr/session.rs: identities, cookies, reconnection, and control frames.
use Prim.Native.Nat.{bit_and, max}
use rados_rs.Common.{
  ℕ, ◌+◌, ◌-◌, Bool, true, false, not, ◌&&◌, ◌||◌, Option, none, some, List, [], ◌∷◌, ◌++◌, length,
  ltb, leb, ◌==◌, if◌then◌else◌, checked_add, u64_max,
}
use rados_rs.Protocol.Address.{EntityAddr, has_same_endpoint}
use rados_rs.Msgr.Control.{Control, ServerIdent}
use rados_rs.Msgr.Session.State.{
  State, SessionError, Event, Effect, RenewalState, CredentialChange, Run, push, update,
}
use rados_rs.Msgr.Session.Queue.{prepare_replay, trim_replay}
use rados_rs.Msgr.Session.Failing.{
  state_eq, set_state, fail_terminal, fail_all, fault, invalidate_controls, fail_sent_unknown,
}

unfoldable pub queue_control : Control → Run → Run
queue_control control r =
    if leb r.m.config.max_queued_messages (length r.m.controls)
    then fault SessionError.queue_saturated r
    else update (λ m. record m { controls = m.controls ++ (control ∷ []) }) r

unfoldable pub queue_client_ident : Run → Run
queue_client_ident r =
    queue_control
      (Control.client_ident (record r.m.config.client_ident {
        cookie = r.m.client_cookie;
        global_sequence = r.m.global_sequence;
      }))
      r

unfoldable pub queue_reconnect : Run → Run
queue_reconnect r =
    queue_control
      (Control.session_reconnect (record {
        addresses = r.m.config.client_ident.addresses;
        client_cookie = r.m.client_cookie;
        server_cookie = r.m.server_cookie;
        global_sequence = r.m.global_sequence;
        connect_sequence = r.m.connect_sequence;
        message_sequence = r.m.last_inbound;
      }))
      (update (λ m. record m { controls = [] }) r)

unfoldable pub take_cookie : List ℕ → Run → Bool × Run
take_cookie [] r = (false, fail_terminal SessionError.disconnected r)
take_cookie (cookie ∷ rest) r =
    let r1 = update (λ m. record m { replacement_cookies = rest }) r in
    if cookie == 0
    then (false, fail_terminal SessionError.malformed r1)
    else (true, update (λ m. record m { client_cookie = cookie }) r1)

unfoldable pub refresh_cookie : Run → Bool × Run
refresh_cookie r = take_cookie r.m.replacement_cookies r

unfoldable pub start_transport : State → Run → Bool × Run
start_transport state r = elim (checked_add r.m.generation 1) [
  | none ↦ (false, fail_terminal SessionError.transition_limit r)
  | some generation ↦ (true, set_state state (update (λ m. record m { generation = generation }) r))
]

unfoldable pub require_ready : Run → Bool × Run
require_ready r =
    if state_eq r.m.state State.ready then (true, r) else (false, fault SessionError.malformed r)

unfoldable pub transition_allowed : State → Run → Bool × Run
transition_allowed expected r =
    if not (state_eq r.m.state expected)
    then (false, fault SessionError.malformed r)
    else let r1 = update (λ m. record m { transitions = m.transitions + 1 }) r in
      if ltb r1.m.config.max_handshake_transitions r1.m.transitions
      then (false, fault SessionError.transition_limit r1)
      else (true, r1)

-- A peer cannot acknowledge what was never sent.
abbrev pub is_beyond : ℕ → Option ℕ → Bool
is_beyond sequence none = false
is_beyond sequence (some next) = not (sequence == 0) && leb next sequence

unfoldable pub accept_acknowledgment : ℕ → Run → Bool × Run
accept_acknowledgment sequence r =
    if is_beyond sequence r.m.next_outbound
    then (false, fault SessionError.malformed r)
    else (true, r)

abbrev pub is_renewing : RenewalState → Bool
is_renewing RenewalState.reconnecting = true
is_renewing _ = false

abbrev pub is_changed : CredentialChange → Bool
is_changed CredentialChange.changed = true
is_changed _ = false

unfoldable pub renewed : Run → Run
renewed r =
    let r1 =
      update
        (λ m. record m {
          credential_identity = m.candidate_credential_identity;
          candidate_credential_identity = none;
        })
        r in
    let r2 =
      if r1.m.renewal_pending
      then update (λ m. record m { renewal = RenewalState.draining })
          (push (Effect.event Event.credential_renewal)
            (update (λ m. record m { renewal_pending = false }) r1))
      else update (λ m. record m { renewal = RenewalState.idle }) r1 in
    push (Effect.event Event.credential_renewal_completed)
      (update (λ m. record m { credential_change = CredentialChange.unknown }) r2)

unfoldable pub complete_renewal : Run → Bool × Run
complete_renewal r =
    if not (is_renewing r.m.renewal)
    then (true, r)
    else if is_changed r.m.credential_change
    then (true, renewed r)
    else (false, fault SessionError.renewal r)

-- Ready again, after the last step of a handshake.
unfoldable pub become_ready : Run → Run
become_ready r = set_state State.ready (update (λ m. record m { reconnect_attempts = 0 }) r)

unfoldable pub any_same_endpoint : List EntityAddr → EntityAddr → Bool
any_same_endpoint [] target = false
any_same_endpoint (a ∷ rest) target = has_same_endpoint a target || any_same_endpoint rest target

-- `required & !supported != 0`
abbrev pub lacks : ℕ → ℕ → Bool
lacks required supported = not (bit_and required (u64_max - supported) == 0)

-- `server_ident` once the peer is accepted.
unfoldable pub adopt_server : ServerIdent → Run → Run
adopt_server ident r =
    let r1 =
      update
        (λ m. record m {
          server_cookie = ident.cookie;
          server_global_id = ident.global_id;
          server_addresses = ident.addresses;
          server_features = ident.supported_features;
          server_flags = ident.flags;
        })
        r in
    let (going, r2) = complete_renewal (fail_sent_unknown r1) in
    if going then become_ready r2 else r2

-- The checks of the peer.
unfoldable pub accept_server : ServerIdent → Run → Run
accept_server ident r =
    if ltb r.m.config.max_handshake_transitions r.m.transitions
    then fault SessionError.transition_limit r
    else if lacks ident.required_features r.m.config.client_ident.supported_features
        || lacks r.m.config.client_ident.required_features ident.supported_features
    then fail_terminal SessionError.unsupported_feature r
    else if not (any_same_endpoint ident.addresses r.m.config.client_ident.target_address)
    then fault SessionError.malformed r
    else adopt_server ident r

unfoldable pub server_ident : ServerIdent → Run → Run
server_ident ident r =
    if not (state_eq r.m.state State.connecting)
    then fault SessionError.malformed r
    else accept_server ident (update (λ m. record m { transitions = m.transitions + 1 }) r)

-- `reset` after the control requests are invalidated, up to the new handshake.
unfoldable pub reset_pending : Bool → Run → Bool × Run
reset_pending false r = (true, update prepare_replay r)
reset_pending true r =
    let (going, r1) = refresh_cookie r in
    if going
    then (
      true,
      fail_all SessionError.disconnected
          (update (λ m. record m { next_outbound = some 1; next_transaction_id = some 1 }) r1),
    )
    else (false, r1)

-- `reset` once the control requests are invalidated.
unfoldable pub reset_session : Bool → Run → Run
reset_session full r =
    let r1 =
      update
        (λ m. record m {
          server_cookie = 0;
          server_flags = 0;
          connect_sequence = 0;
          last_inbound = 0;
        })
        (push (Effect.event (Event.session_reset full)) r) in
    let (on, r2) = reset_pending full r1 in
    if on then queue_client_ident (set_state State.connecting r2) else r2

unfoldable pub reset : Bool → Run → Run
reset full r =
    let (going, r1) = invalidate_controls r in if not going then r1 else reset_session full r1

-- The two retries: a new sequence, and another attempt to reconnect.
unfoldable pub retry_after : ℕ → Run → Run
retry_after sequence r = elim (checked_add sequence 1) [
  | none ↦ fail_terminal SessionError.transition_limit r
  | some next ↦ queue_reconnect (
      push (Effect.event (Event.retry next)) (update (λ m. record m { connect_sequence = next }) r))
]

unfoldable pub session_retry : ℕ → Run → Run
session_retry sequence r =
    let (going, r1) = transition_allowed State.reconnecting r in
    if not going then r1 else retry_after sequence r1

unfoldable pub retry_global_after : ℕ → Run → Run
retry_global_after sequence r = elim (checked_add (max r.m.global_sequence sequence) 1) [
  | none ↦ fail_terminal SessionError.transition_limit r
  | some next ↦ queue_reconnect (
      push (Effect.event (Event.retry_global next))
        (update (λ m. record m { global_sequence = next }) r))
]

unfoldable pub session_retry_global : ℕ → Run → Run
session_retry_global sequence r =
    let (going, r1) = transition_allowed State.reconnecting r in
    if not going then r1 else retry_global_after sequence r1

unfoldable pub wait_frame : Run → Run
wait_frame r =
    if not (state_eq r.m.state State.connecting || state_eq r.m.state State.reconnecting)
    then fault SessionError.malformed r
    else let r1 = update (λ m. record m { transitions = m.transitions + 1 }) r in
      fault SessionError.disconnected (push (Effect.event Event.wait) (set_state State.wait r1))

-- `session_reconnect_ok` once the acknowledgment is accepted.
unfoldable pub resume_session : ℕ → Run → Run
resume_session sequence r =
    let (on, r1) = complete_renewal (update (λ m. prepare_replay (trim_replay sequence m)) r) in
    if on then push (Effect.event (Event.reconnect_ok sequence)) (become_ready r1) else r1

unfoldable pub accept_reconnect : ℕ → Run → Run
accept_reconnect sequence r =
    let (acknowledged, r1) = accept_acknowledgment sequence r in
    if not acknowledged then r1 else resume_session sequence r1

unfoldable pub reconnect_ok : ℕ → Run → Run
reconnect_ok sequence r =
    let (going, r1) = transition_allowed State.reconnecting r in
    if not going then r1 else accept_reconnect sequence r1

unfoldable pub note_acknowledgment : ℕ → Run → Run
note_acknowledgment sequence r =
    let (on, r1) = accept_acknowledgment sequence r in
    if on
    then push (Effect.event (Event.acknowledged sequence)) (update (trim_replay sequence) r1)
    else r1

unfoldable pub acknowledge : ℕ → Run → Run
acknowledge sequence r =
    let (going, r1) = require_ready r in if not going then r1 else note_acknowledgment sequence r1

unfoldable pub control : Control → Run → Run
control (Control.ack sequence) r = acknowledge sequence r
control (Control.keepalive2 timestamp) r =
    let (going, r1) = require_ready r in
    if going then queue_control (Control.keepalive2_ack timestamp) r1 else r1
control (Control.keepalive2_ack _) r =
    let (going, r1) = require_ready r in
    if going then push (Effect.event Event.keepalive_ack) r1 else r1
control (Control.session_reset full) r =
    let (going, r1) = transition_allowed State.reconnecting r in if going then reset full r1 else r1
control (Control.session_retry sequence) r = session_retry sequence r
control (Control.session_retry_global sequence) r = session_retry_global sequence r
control Control.wait r = wait_frame r
control (Control.session_reconnect_ok sequence) r = reconnect_ok sequence r
control (Control.server_ident ident) r = server_ident ident r
control (Control.ident_missing_features _) r = fail_terminal SessionError.unsupported_payload r
control _ r = fault SessionError.unsupported_payload r
