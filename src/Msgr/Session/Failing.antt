-- ===== src/Msgr/Session/Failing.antt =====
-- How a session of src/msgr/session.rs fails requests, loses its transport and gives up.
use Prim.Native.Nat.{bit_and}
use rados_rs.Common.{
  ℕ, ◌+◌, Bool, true, false, not, ◌&&◌, ◌||◌, none, some, List, [], ◌∷◌, ◌++◌, map, leb, ◌==◌,
  is_some, if◌then◌else◌, checked_add,
}
use rados_rs.Msgr.Control.{connection_flag_lossy}
use rados_rs.Msgr.Session.State.{
  State, ReconnectPolicy, SessionError, Event, Effect, Pending, Machine, Run, push, update,
}
use rados_rs.Msgr.Session.Queue.{select, is_control, remove_pending, prepare_replay}

-- `==` on states
unfoldable pub state_code : State → ℕ
state_code State.disconnected = 0
state_code State.connecting = 1
state_code State.reconnecting = 2
state_code State.ready = 3
state_code State.wait = 4
state_code State.stopped = 5

unfoldable pub state_eq : State → State → Bool
unfolding state_code
state_eq s t = state_code s == state_code t

abbrev pub is_outcome_unknown : SessionError → Bool
is_outcome_unknown SessionError.outcome_unknown = true
is_outcome_unknown _ = false

abbrev pub is_queue_saturated : SessionError → Bool
is_queue_saturated SessionError.queue_saturated = true
is_queue_saturated _ = false

abbrev pub is_fail_pending : ReconnectPolicy → Bool
is_fail_pending ReconnectPolicy.fail_pending = true
is_fail_pending ReconnectPolicy.replay_pending = false

unfoldable pub set_state : State → Run → Run
set_state state r =
    if state_eq r.m.state state
    then r
    else push (Effect.event (Event.state_changed state))
        (update (λ m. record m { state = state }) r)

-- A request that may have reached the peer has an unknown outcome.
unfoldable pub failure : SessionError → Pending → Effect
failure error p = Effect.failed p.request_id (
    if p.may_have_executed && not (is_outcome_unknown error)
    then SessionError.outcome_unknown
    else error)

abbrev pub cleared : Machine → Machine
cleared m = record m {
  pending = [];
  replay = [];
  by_transaction = [];
  retained_bytes = 0;
  control_messages = 0;
  control_bytes = 0;
}

unfoldable pub fail_all : SessionError → Run → Run
fail_all error r = record { m = cleared r.m; out = r.out ++ map (failure error) r.m.pending }

unfoldable pub fail_terminal : SessionError → Run → Run
fail_terminal error r =
    if is_some r.m.terminal_error
    then r
    else let r1 =
        push (Effect.terminal error) (update (λ m. record m { terminal_error = some error }) r) in
      let r2 = push (Effect.event (Event.transport_fault error)) r1 in
      let r3 =
        update (λ m. record m { write_busy = false; controls = []; connect_pending = false }) r2 in
      let r4 = push (Effect.close_transport r3.m.generation) r3 in
      set_state State.disconnected (fail_all error r4)

-- Requests with the errors to report: each is removed, and then reported.
unfoldable pub fail_each : List (ℕ × SessionError) → Run → Run
fail_each [] r = r
fail_each ((id, error) ∷ rest) r =
    fail_each rest (push (Effect.failed id error) (update (remove_pending id) r))

abbrev pub control_failure : Pending → ℕ × SessionError
control_failure p = (
  p.request_id,
  if p.may_have_executed then SessionError.outcome_unknown else SessionError.disconnected,
)

unfoldable pub invalidate_controls : Run → Bool × Run
invalidate_controls r = elim (checked_add r.m.control_generation 1) [
  | none ↦ (false, fail_terminal SessionError.transition_limit r)
  | some generation ↦ (
    true,
    fail_each (map control_failure (select is_control r.m.pending))
        (update (λ m. record m { control_generation = generation }) r),
  )
]

abbrev pub unknown_failure : Pending → ℕ × SessionError
unknown_failure p = (p.request_id, SessionError.outcome_unknown)

unfoldable pub fail_sent_unknown : Run → Run
fail_sent_unknown r =
    update (λ m. record m { replay = [] })
      (fail_each (map unknown_failure (select (λ p. p.sent) r.m.pending)) r)

unfoldable pub reset_for_new_identity : Run → Run
reset_for_new_identity r = fail_all SessionError.disconnected (
    update
      (λ m. record m {
        server_cookie = 0;
        server_flags = 0;
        connect_sequence = 0;
        last_inbound = 0;
        next_outbound = some 1;
        next_transaction_id = some 1;
      })
      r)

unfoldable pub begin_reconnect : Run → Run
begin_reconnect r =
    if r.m.config.max_reconnect_attempts == 0
      || leb r.m.config.max_reconnect_attempts r.m.reconnect_attempts
    then fail_terminal SessionError.reconnect_exhausted r
    else let r1 =
        update
          (λ m. record m { reconnect_attempts = m.reconnect_attempts + 1; connect_pending = true })
          r in
      elim (checked_add r1.m.generation 1) [
        | none ↦ fail_terminal SessionError.transition_limit r1
        | some generation ↦
            push (Effect.connect generation) (update (λ m. record m { generation = generation }) r1)
      ]

-- What a lost transport does to the pending requests.
unfoldable pub settle : Run → Run
settle r =
    if not (bit_and r.m.server_flags connection_flag_lossy == 0)
    then reset_for_new_identity (fail_sent_unknown r)
    else if is_fail_pending r.m.config.reconnect_policy
    then fail_all SessionError.disconnected r
    else if r.m.server_cookie == 0
    then fail_sent_unknown r
    else update prepare_replay r

-- `fault` once the control requests are invalidated.
unfoldable pub drop_transport : SessionError → Run → Run
drop_transport error r =
    if is_queue_saturated error
    then fail_terminal error r
    else let r1 = push (Effect.event (Event.transport_fault error)) r in
      let r2 = push (Effect.close_transport r1.m.generation) r1 in
      let r3 = update (λ m. record m { write_busy = false; controls = [] }) r2 in
      begin_reconnect (set_state State.disconnected (settle r3))

unfoldable pub fault : SessionError → Run → Run
fault error r =
    if is_some r.m.terminal_error
      || state_eq r.m.state State.stopped
      || (state_eq r.m.state State.disconnected && r.m.connect_pending)
    then r
    else let (going, r1) = invalidate_controls r in if going then drop_transport error r1 else r1

unfoldable pub stop : Run → Run
stop r =
    if state_eq r.m.state State.stopped
    then r
    else let r1 = fail_all SessionError.closed (set_state State.stopped r) in
      let r2 = update (λ m. record m { connect_pending = false }) r1 in
      push (Effect.close_transport r2.m.generation) r2
