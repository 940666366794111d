-- ===== src/Msgr/Session/Step.antt =====
-- `Machine::new`, `step`, `renewal_due` and `snapshot` of src/msgr/session.rs.
use Prim.Native.Nat.{max}
use rados_rs.Common.{
  ℕ, ◌-◌, Bool, true, false, not, ◌&&◌, ◌||◌, Option, none, some, List, [], length, leb, ◌==◌,
  is_some, if◌then◌else◌, Result, ok, err, get_elem?,
}
use rados_rs.Common.Int.{ℤ, pos}
use rados_rs.Protocol.Address.{EntityAddr}
use rados_rs.Msgr.Message.{Message}
use rados_rs.Msgr.Session.State.{
  State, SessionError, Event, Effect, Config, Input, Pending, RenewalState, CredentialChange,
  Machine, Run, push, update,
}
use rados_rs.Msgr.Session.Queue.{
  find_pending, remove_pending, count_where, is_control, in_flight_count,
}
use rados_rs.Msgr.Session.Failing.{state_eq, fault, stop, begin_reconnect, invalidate_controls}
use rados_rs.Msgr.Session.Handshake.{start_transport, control}
use rados_rs.Msgr.Session.Connected.{connected}
use rados_rs.Msgr.Session.Requests.{admit, refuse, cancel, dispatch, message}

-- The machine that `new` builds of an accepted configuration.
unfoldable pub fresh : Config → Machine
fresh config = record {
  config = config;
  state = State.disconnected;
  generation = 0;
  pending = [];
  by_transaction = [];
  replay = [];
  controls = [];
  retained_bytes = 0;
  control_generation = 1;
  control_messages = 0;
  control_bytes = 0;
  incoming_count = 0;
  write_busy = false;
  next_outbound = some 1;
  last_inbound = 0;
  next_transaction_id = some 1;
  client_cookie = config.client_cookie;
  server_cookie = config.server_cookie;
  server_global_id = pos 0;
  server_addresses = [];
  server_features = 0;
  global_sequence = max config.global_sequence config.client_ident.global_sequence;
  connect_sequence = config.connect_sequence;
  authenticated_global_id = 0;
  credential_identity = none;
  candidate_credential_identity = none;
  credential_change = CredentialChange.unknown;
  renewal = RenewalState.idle;
  renewal_pending = false;
  server_flags = 0;
  connected_once = false;
  reconnect_attempts = 0;
  transitions = 0;
  connect_pending = false;
  terminal_error = none;
  replacement_cookies = config.replacement_cookies;
}

unfoldable pub new : Config → Result SessionError Machine
new config =
    if config.max_queued_messages == 0
      || config.max_retained_bytes == 0
      || config.max_in_flight_transactions == 0
      || config.max_handshake_transitions == 0
      || config.limits.max_segment_bytes == 0
      || config.limits.max_frame_bytes == 0
    then err SessionError.malformed
    else if not (config.global_sequence == 0)
        && not (config.client_ident.global_sequence == 0)
        && not (config.global_sequence == config.client_ident.global_sequence)
    then err SessionError.malformed
    else ok (fresh config)

unfoldable pub start : Bool → Run → Run
start ready r =
    if not (state_eq r.m.state State.disconnected)
      || r.m.connect_pending
      || is_some r.m.terminal_error
    then r
    else if ready
    then (start_transport State.ready (update (λ m. record m { connected_once = true }) r)).1
    else begin_reconnect r

abbrev pub is_idle : RenewalState → Bool
is_idle RenewalState.idle = true
is_idle _ = false

unfoldable pub begin_draining : Run → Run
begin_draining r =
    push (Effect.event Event.credential_renewal)
      (update (λ m. record m { renewal = RenewalState.draining }) r)

unfoldable pub begin_renewal : Run → Run
begin_renewal r = let (going, r1) = invalidate_controls r in if going then begin_draining r1 else r1

unfoldable pub renewal_due : ℕ → Run → Run
renewal_due generation r =
    if not (generation == r.m.generation)
    then r
    else if is_idle r.m.renewal
    then begin_renewal r
    else update (λ m. record m { renewal_pending = true }) r

-- The first transport may come from outside, with its connection already made.
unfoldable pub initial_connection : Option ℕ → Option (List ℕ) → Run → Run
initial_connection global_id credential r =
    if state_eq r.m.state State.disconnected && not r.m.connect_pending
    then connected r.m.generation global_id credential
        (update (λ m. record m { connect_pending = true }) r)
    else r

abbrev pub with_identity : Option ℕ → Option (List ℕ) → Machine → Machine
with_identity none credential m = record m { credential_identity = credential }
with_identity (some global_id) credential m = record m {
  authenticated_global_id = global_id;
  credential_identity = credential;
}

unfoldable pub initial_identity : ℕ → Option ℕ → Option (List ℕ) → Run → Run
initial_identity generation global_id credential r =
    if generation == r.m.generation && state_eq r.m.state State.ready
    then update (with_identity global_id credential) r
    else r

abbrev is_byte : ℕ → Option ℕ → Bool
is_byte value none = false
is_byte value (some b) = b == value

-- Only a backoff's acknowledgment may pass as a control request.
unfoldable pub is_backoff_acknowledgment : Message → Bool
is_backoff_acknowledgment msg =
    msg.header.message_type == 61
    && msg.header.version == 1
    && leb msg.header.compat_version 1
    && leb 29 (length msg.front)
    && is_byte 2 (get_elem? msg.front 28)
    && length msg.middle == 0
    && length msg.payload == 0

abbrev pub is_one_way : Option Pending → Bool
is_one_way none = false
is_one_way (some p) = p.one_way

-- A written request without a reply is complete.
unfoldable pub written : Option ℕ → Run → Run
written none r = r
written (some id) r =
    if is_one_way (find_pending id r.m.pending)
    then push (Effect.completed id none) (update (remove_pending id) r)
    else r

unfoldable pub write_complete : ℕ → Option ℕ → Result SessionError (Unit {0}) → Run → Run
write_complete generation id result r =
    if generation == r.m.generation
    then (let r1 = update (λ m. record m { write_busy = false }) r in
        elim result [ ok _ ↦ written id r1 | err error ↦ fault error r1 ])
    else r

unfoldable pub connect_failed : ℕ → Run → Run
connect_failed generation r =
    if generation == r.m.generation && r.m.connect_pending
    then begin_reconnect (
        push (Effect.event (Event.transport_fault SessionError.disconnected))
          (update (λ m. record m { connect_pending = false }) r))
    else r

-- What is meant for an earlier transport is dropped.
unfoldable pub if_current : ℕ → (Run → Run) → Run → Run
if_current generation f r = if generation == r.m.generation then f r else r

module _ (crc32c_append : ℕ → List ℕ → ℕ) where
  unfoldable pub admit_control : ℕ → Message → ℕ → Run → Run
  admit_control id msg generation r =
      if not (generation == r.m.control_generation) || not (state_eq r.m.state State.ready)
      then refuse id SessionError.disconnected r
      else if not (is_backoff_acknowledgment msg)
      then refuse id SessionError.unsupported_payload r
      else admit crc32c_append id msg true true r

  unfoldable pub handle : Input → Run → Run
  handle (Input.start ready) r = start ready r
  handle (Input.initial_connection global_id credential) r =
      initial_connection global_id credential r
  handle (Input.initial_identity generation global_id credential) r =
      initial_identity generation global_id credential r
  handle (Input.admit id msg one_way) r = admit crc32c_append id msg one_way false r
  handle (Input.admit_control id msg generation) r = admit_control id msg generation r
  handle (Input.cancel id) r = cancel id r
  handle Input.dispatch r = dispatch r
  handle (Input.write_complete generation id result) r = write_complete generation id result r
  handle (Input.connected generation global_id credential) r =
      connected generation global_id credential r
  handle (Input.connect_failed generation) r = connect_failed generation r
  handle (Input.control generation frame) r = if_current generation (control frame) r
  handle (Input.message generation msg) r = if_current generation (message msg) r
  handle (Input.fault generation error) r = if_current generation (fault error) r
  handle (Input.renewal_due generation) r = renewal_due generation r
  handle Input.consume_incoming r =
      update (λ m. record m { incoming_count = m.incoming_count - 1 }) r
  handle Input.stop r = stop r

  -- One input: the machine after it, and its effects in order.
  unfoldable pub step : Input → Machine → Run
  step input m = handle input (record { m = m; out = [] })

pub record Snapshot : Type 0 where
  pub state : State
  pub generation : ℕ
  pub next_outbound_sequence : ℕ
  pub last_inbound_sequence : ℕ
  pub next_transaction_id : ℕ
  pub client_cookie : ℕ
  pub server_cookie : ℕ
  pub server_global_id : ℤ
  pub server_addresses : List EntityAddr
  pub server_features : ℕ
  pub global_sequence : ℕ
  pub connect_sequence : ℕ
  pub queued : ℕ
  pub in_flight : ℕ
  pub replay : ℕ
  pub retained_bytes : ℕ
  pub control_generation : ℕ
  pub control_messages : ℕ
  pub control_bytes : ℕ
  pub reconnect_attempts : ℕ
  pub handshake_transitions : ℕ
  pub dropped_events : ℕ

abbrev or_zero : Option ℕ → ℕ
or_zero none = 0
or_zero (some n) = n

unfoldable pub snapshot : Machine → Snapshot
snapshot m = record {
  state = m.state;
  generation = m.generation;
  next_outbound_sequence = or_zero m.next_outbound;
  last_inbound_sequence = m.last_inbound;
  next_transaction_id = or_zero m.next_transaction_id;
  client_cookie = m.client_cookie;
  server_cookie = m.server_cookie;
  server_global_id = m.server_global_id;
  server_addresses = m.server_addresses;
  server_features = m.server_features;
  global_sequence = m.global_sequence;
  connect_sequence = m.connect_sequence;
  queued = count_where (λ p. not p.sent && not (is_control p)) m.pending;
  in_flight = in_flight_count m;
  replay = length m.replay;
  retained_bytes = m.retained_bytes;
  control_generation = m.control_generation;
  control_messages = m.control_messages;
  control_bytes = m.control_bytes;
  reconnect_attempts = m.reconnect_attempts;
  handshake_transitions = m.transitions;
  dropped_events = 0;
}
