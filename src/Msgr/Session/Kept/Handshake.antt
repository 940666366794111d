-- ===== src/Msgr/Session/Kept/Handshake.antt =====
-- The handshake and the control frames keep the ledger.
use Prim.Native.Nat.{max}
use rados_rs.Common.{
  inl, inr, arith, ltb, u64_max, Bool-cases, ℕ, ◌+◌, refl, Bool, true, false, List, [], ◌∷◌,
}
use rados_rs.Msgr.Control.{Control, ServerIdent}
use rados_rs.Msgr.Session.State.{State, SessionError, Event, Effect, Run, push, update}
use rados_rs.Msgr.Session.Queue.{trim_replay, prepare_replay}
use rados_rs.Msgr.Session.Failing.{set_state}
use rados_rs.Msgr.Session.Handshake.{
  queue_control, queue_client_ident, queue_reconnect, take_cookie, refresh_cookie, start_transport,
  require_ready, transition_allowed, accept_acknowledgment, renewed, complete_renewal, become_ready,
  adopt_server, accept_server, server_ident, reset_pending, reset_session, reset, retry_after,
  retry_global_after, session_retry, session_retry_global, wait_frame, resume_session,
  accept_reconnect, note_acknowledgment, reconnect_ok, acknowledge, control,
}
use rados_rs.Msgr.Session.Kept.{Kept}
use rados_rs.Msgr.Session.Kept.Rules.{
  Kept-refl, Kept-update, Kept-if, Kept-push, Kept-generation, ◌◂◌, fail_all-Kept,
  prepare_replay-Kept, Goes, Goes-pair, Goes-after, Goes-if, Kept-guard, Kept-unless,
}
use rados_rs.Msgr.Session.Kept.Failing.{
  set_state-Kept, fail_terminal-Kept, invalidate_controls-Kept, fail_sent_unknown-Kept, fault-Kept,
}

pub queue_control-Kept : (c : Control) (r : Run) → Kept r (queue_control c r)
unfolding queue_control
queue_control-Kept c r = Kept-if _ (fault-Kept _ r) (Kept-update _ r (λ m. refl))

pub queue_client_ident-Kept : (r : Run) → Kept r (queue_client_ident r)
unfolding queue_client_ident
queue_client_ident-Kept r = queue_control-Kept _ r

pub queue_reconnect-Kept : (r : Run) → Kept r (queue_reconnect r)
unfolding queue_reconnect
queue_reconnect-Kept r = queue_control-Kept _ _ ◂ Kept-update _ r (λ m. refl)

take_cookie-Kept : (cookies : List ℕ) (r : Run) → Goes r (take_cookie cookies r)
unfolding take_cookie
take_cookie-Kept [] r = Goes-pair false (fail_terminal-Kept _ r)
take_cookie-Kept (c ∷ cs) r =
    Goes-after
      (Goes-if _ (Goes-pair false (fail_terminal-Kept _ _))
        (Goes-pair true (Kept-update _ _ (λ m. refl))))
      (Kept-update _ r (λ m. refl))

pub refresh_cookie-Kept : (r : Run) → Goes r (refresh_cookie r)
unfolding refresh_cookie
refresh_cookie-Kept r = take_cookie-Kept r.m.replacement_cookies r

pub start_transport-Kept : (state : State) (r : Run) → Goes r (start_transport state r)
unfolding start_transport
start_transport-Kept state r = elim (Bool-cases (ltb u64_max (r.m.generation + 1))) [
  | inl full ↦
      rw (full, start_transport)
        (Goes-pair false (fail_terminal-Kept SessionError.transition_limit r))
  | inr room ↦
      rw (room, start_transport)
        (Goes-pair true (set_state-Kept state _ ◂ Kept-generation r _ (omega arith)))
]

pub require_ready-Kept : (r : Run) → Goes r (require_ready r)
unfolding require_ready
require_ready-Kept r = Goes-if _ (Goes-pair true (Kept-refl r)) (Goes-pair false (fault-Kept _ r))

pub transition_allowed-Kept : (state : State) (r : Run) → Goes r (transition_allowed state r)
unfolding transition_allowed update
transition_allowed-Kept state r = Goes-if _ (Goes-pair false (fault-Kept _ r)) (
    Goes-after
      (Goes-if (ltb r.m.config.max_handshake_transitions (r.m.transitions + 1))
        (Goes-pair false (fault-Kept SessionError.transition_limit _))
        (Goes-pair true (Kept-refl _)))
      (Kept-update (λ m. record m { transitions = m.transitions + 1 }) r (λ m. refl)))

pub accept_acknowledgment-Kept : (s : ℕ) (r : Run) → Goes r (accept_acknowledgment s r)
unfolding accept_acknowledgment
accept_acknowledgment-Kept s r =
    Goes-if _ (Goes-pair false (fault-Kept _ r)) (Goes-pair true (Kept-refl r))

renewed-Kept : (r : Run) → Kept r (renewed r)
unfolding renewed
renewed-Kept r =
    Kept-push _ _ refl
    ◂ Kept-update _ _ (λ m. refl)
    ◂ Kept-if _ (Kept-update _ _ (λ m. refl) ◂ Kept-push _ _ refl ◂ Kept-update _ _ (λ m. refl))
        (Kept-update _ _ (λ m. refl))
    ◂ Kept-update _ r (λ m. refl)

pub complete_renewal-Kept : (r : Run) → Goes r (complete_renewal r)
unfolding complete_renewal
complete_renewal-Kept r =
    Goes-if _ (Goes-pair true (Kept-refl r))
      (Goes-if _ (Goes-pair true (renewed-Kept r)) (Goes-pair false (fault-Kept _ r)))

become_ready-Kept : (r : Run) → Kept r (become_ready r)
unfolding become_ready
become_ready-Kept r = set_state-Kept _ _ ◂ Kept-update _ r (λ m. refl)

adopt_server-Kept : (ident : ServerIdent) (r : Run) → Kept r (adopt_server ident r)
unfolding adopt_server
adopt_server-Kept ident r =
    Kept-guard _ _ (complete_renewal-Kept _) become_ready-Kept
    ◂ fail_sent_unknown-Kept _
    ◂ Kept-update _ r (λ m. refl)

accept_server-Kept : (ident : ServerIdent) (r : Run) → Kept r (accept_server ident r)
unfolding accept_server
accept_server-Kept ident r =
    Kept-if (ltb r.m.config.max_handshake_transitions r.m.transitions)
      (fault-Kept SessionError.transition_limit r)
      (Kept-if _ (fail_terminal-Kept _ r) (Kept-if _ (fault-Kept _ r) (adopt_server-Kept ident r)))

server_ident-Kept : (ident : ServerIdent) (r : Run) → Kept r (server_ident ident r)
unfolding server_ident
server_ident-Kept ident r =
    Kept-if _ (fault-Kept _ r) (accept_server-Kept ident _ ◂ Kept-update _ r (λ m. refl))

pub trim_replay-Kept : (s : ℕ) (r : Run) → Kept r (update (trim_replay s) r)
unfolding trim_replay
trim_replay-Kept s r = Kept-update _ r (λ m. refl)

reset_pending-Kept : (full : Bool) (r : Run) → Goes r (reset_pending full r)
unfolding reset_pending
reset_pending-Kept false r = Goes-pair true (prepare_replay-Kept r)
reset_pending-Kept true r =
    let fresh = refresh_cookie-Kept r in
    Goes-if _ (Goes-pair true (fail_all-Kept _ _ ◂ Kept-update _ _ (λ m. refl) ◂ fresh.kept))
      (Goes-pair false fresh.kept)

reintroduce : (r : Run) → Kept r (queue_client_ident (set_state State.connecting r))
reintroduce r = queue_client_ident-Kept _ ◂ set_state-Kept _ r

reset_session-Kept : (full : Bool) (r : Run) → Kept r (reset_session full r)
unfolding reset_session
reset_session-Kept full r =
    Kept-guard _ (λ s. queue_client_ident (set_state State.connecting s))
      (reset_pending-Kept full _) reintroduce
    ◂ Kept-update _ _ (λ m. refl)
    ◂ Kept-push r _ refl

reset-Kept : (full : Bool) (r : Run) → Kept r (reset full r)
unfolding reset
reset-Kept full r =
    Kept-unless _ (reset_session full) (invalidate_controls-Kept r) (reset_session-Kept full)

retry_after-Kept : (s : ℕ) (r : Run) → Kept r (retry_after s r)
unfolding retry_after
retry_after-Kept s r = elim (Bool-cases (ltb u64_max (s + 1))) [
  | inl full ↦ rw (full, retry_after) (fail_terminal-Kept SessionError.transition_limit r)
  | inr room ↦
      rw (room, retry_after)
        (queue_reconnect-Kept _ ◂ Kept-push _ _ refl ◂ Kept-update _ r (λ m. refl))
]

session_retry-Kept : (s : ℕ) (r : Run) → Kept r (session_retry s r)
unfolding session_retry
session_retry-Kept s r =
    Kept-unless _ (retry_after s) (transition_allowed-Kept _ r) (retry_after-Kept s)

retry_global_after-Kept : (s : ℕ) (r : Run) → Kept r (retry_global_after s r)
unfolding retry_global_after
retry_global_after-Kept s r = elim (Bool-cases (ltb u64_max (max r.m.global_sequence s + 1))) [
  | inl full ↦ rw (full, retry_global_after) (fail_terminal-Kept SessionError.transition_limit r)
  | inr room ↦
      rw (room, retry_global_after)
        (queue_reconnect-Kept _ ◂ Kept-push _ _ refl ◂ Kept-update _ r (λ m. refl))
]

session_retry_global-Kept : (s : ℕ) (r : Run) → Kept r (session_retry_global s r)
unfolding session_retry_global
session_retry_global-Kept s r =
    Kept-unless _ (retry_global_after s) (transition_allowed-Kept _ r) (retry_global_after-Kept s)

wait_frame-Kept : (r : Run) → Kept r (wait_frame r)
unfolding wait_frame
wait_frame-Kept r =
    Kept-if _ (fault-Kept _ r)
      (fault-Kept _ _ ◂ Kept-push _ _ refl ◂ set_state-Kept _ _ ◂ Kept-update _ r (λ m. refl))

replay-Kept : (s : ℕ) (r : Run) → Kept r (update (λ m. prepare_replay (trim_replay s m)) r)
unfolding update
replay-Kept s r = prepare_replay-Kept (update (trim_replay s) r) ◂ trim_replay-Kept s r

conclude : (s : ℕ) (r : Run) → Kept r (push (Effect.event (Event.reconnect_ok s)) (become_ready r))
conclude s r = Kept-push _ _ refl ◂ become_ready-Kept r

resume_session-Kept : (s : ℕ) (r : Run) → Kept r (resume_session s r)
unfolding resume_session
resume_session-Kept s r =
    Kept-guard _ (λ t. push (Effect.event (Event.reconnect_ok s)) (become_ready t))
      (complete_renewal-Kept _) (conclude s)
    ◂ replay-Kept s r

accept_reconnect-Kept : (s : ℕ) (r : Run) → Kept r (accept_reconnect s r)
unfolding accept_reconnect
accept_reconnect-Kept s r =
    Kept-unless _ (resume_session s) (accept_acknowledgment-Kept s r) (resume_session-Kept s)

reconnect_ok-Kept : (s : ℕ) (r : Run) → Kept r (reconnect_ok s r)
unfolding reconnect_ok
reconnect_ok-Kept s r =
    Kept-unless _ (accept_reconnect s) (transition_allowed-Kept _ r) (accept_reconnect-Kept s)

acknowledged :
    (s : ℕ) (r : Run)
    → Kept r (push (Effect.event (Event.acknowledged s)) (update (trim_replay s) r))
acknowledged s r = Kept-push _ _ refl ◂ trim_replay-Kept s r

note_acknowledgment-Kept : (s : ℕ) (r : Run) → Kept r (note_acknowledgment s r)
unfolding note_acknowledgment
note_acknowledgment-Kept s r =
    Kept-guard _ (λ t. push (Effect.event (Event.acknowledged s)) (update (trim_replay s) t))
      (accept_acknowledgment-Kept s r) (acknowledged s)

acknowledge-Kept : (s : ℕ) (r : Run) → Kept r (acknowledge s r)
unfolding acknowledge
acknowledge-Kept s r =
    Kept-unless _ (note_acknowledgment s) (require_ready-Kept r) (note_acknowledgment-Kept s)

pub control-Kept : (c : Control) (r : Run) → Kept r (control c r)
unfolding control
control-Kept (Control.ack s) r = acknowledge-Kept s r
control-Kept (Control.keepalive2 t) r =
    Kept-guard _ (queue_control (Control.keepalive2_ack t)) (require_ready-Kept r)
      (queue_control-Kept _)
control-Kept (Control.keepalive2_ack _) r =
    Kept-guard _ (push (Effect.event Event.keepalive_ack)) (require_ready-Kept r)
      (λ s. Kept-push s _ refl)
control-Kept (Control.session_reset full) r =
    Kept-guard _ (reset full) (transition_allowed-Kept _ r) (reset-Kept full)
control-Kept (Control.session_retry s) r = session_retry-Kept s r
control-Kept (Control.session_retry_global s) r = session_retry_global-Kept s r
control-Kept Control.wait r = wait_frame-Kept r
control-Kept (Control.session_reconnect_ok s) r = reconnect_ok-Kept s r
control-Kept (Control.server_ident ident) r = server_ident-Kept ident r
control-Kept (Control.ident_missing_features _) r = fail_terminal-Kept _ r
control-Kept _ r = fault-Kept _ r
