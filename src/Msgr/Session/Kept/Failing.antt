-- ===== src/Msgr/Session/Kept/Failing.antt =====
-- Failing requests, losing the transport and giving up keep the ledger.
use rados_rs.Common.{ℕ, ◌+◌, refl, true, false, inl, inr, map, ltb, Bool-cases, u64_max}
use rados_rs.Msgr.Session.State.{State, SessionError, Run, update}
use rados_rs.Msgr.Session.Queue.{select, is_control}
use rados_rs.Msgr.Session.Failing.{
  set_state, fail_terminal, invalidate_controls, control_failure, fail_sent_unknown,
  reset_for_new_identity, begin_reconnect, settle, drop_transport, fault, stop,
}
use rados_rs.Msgr.Session.Kept.{Kept}
use rados_rs.Msgr.Session.Kept.Rules.{
  Kept-refl, Kept-update, Kept-if, Kept-next, Kept-guard, Goes, Goes-pair, Kept-push,
  Kept-generation, ◌◂◌, fail_all-Kept, prepare_replay-Kept,
}
use rados_rs.Msgr.Session.Kept.Each.{
  IsDue, fail_each-Kept, select-IsDue_control, select-IsDue_unknown,
}

pub set_state-Kept : (state : State) (r : Run) → Kept r (set_state state r)
unfolding set_state
set_state-Kept state r = Kept-if _ (Kept-refl r) (Kept-push _ _ refl ◂ Kept-update _ r (λ m. refl))

pub fail_terminal-Kept : (error : SessionError) (r : Run) → Kept r (fail_terminal error r)
unfolding fail_terminal
fail_terminal-Kept error r = Kept-if _ (Kept-refl r) (
    set_state-Kept _ _
    ◂ fail_all-Kept _ _
    ◂ Kept-push _ _ refl
    ◂ Kept-update _ _ (λ m. refl)
    ◂ Kept-push _ _ refl
    ◂ Kept-push _ _ refl
    ◂ Kept-update _ r (λ m. refl))

controls-IsDue :
    (r : Run) (g : ℕ)
    → IsDue
        (map control_failure (select is_control r.m.pending))
        (update (λ m. record m { control_generation = g }) r).m.pending
unfolding update
controls-IsDue r g = select-IsDue_control is_control r.m.pending

pub invalidate_controls-Kept : (r : Run) → Goes r (invalidate_controls r)
unfolding invalidate_controls
invalidate_controls-Kept r = elim (Bool-cases (ltb u64_max (r.m.control_generation + 1))) [
  | inl full ↦
      rw (full, invalidate_controls)
        (Goes-pair false (fail_terminal-Kept SessionError.transition_limit r))
  | inr room ↦
      rw (room, invalidate_controls)
        (Goes-pair true (
          fail_each-Kept _ _ (controls-IsDue r (r.m.control_generation + 1))
          ◂ Kept-update _ r (λ m. refl)))
]

pub fail_sent_unknown-Kept : (r : Run) → Kept r (fail_sent_unknown r)
unfolding fail_sent_unknown
fail_sent_unknown-Kept r =
    Kept-update _ _ (λ m. refl)
    ◂ fail_each-Kept _ r (select-IsDue_unknown (λ p. p.sent) r.m.pending)

pub reset_for_new_identity-Kept : (r : Run) → Kept r (reset_for_new_identity r)
unfolding reset_for_new_identity
reset_for_new_identity-Kept r = fail_all-Kept _ _ ◂ Kept-update _ r (λ m. refl)

pub begin_reconnect-Kept : (r : Run) → Kept r (begin_reconnect r)
unfolding begin_reconnect
begin_reconnect-Kept r = Kept-if _ (fail_terminal-Kept _ r) (
    Kept-next _ _ _ (fail_terminal-Kept _ _)
      (λ later. Kept-push _ _ refl ◂ Kept-generation _ _ later)
    ◂ Kept-update _ r (λ m. refl))

settle-Kept : (r : Run) → Kept r (settle r)
unfolding settle
settle-Kept r =
    Kept-if _ (reset_for_new_identity-Kept _ ◂ fail_sent_unknown-Kept r)
      (Kept-if _ (fail_all-Kept _ r) (Kept-if _ (fail_sent_unknown-Kept r) (prepare_replay-Kept r)))

drop_transport-Kept : (error : SessionError) (r : Run) → Kept r (drop_transport error r)
unfolding drop_transport
drop_transport-Kept error r = Kept-if _ (fail_terminal-Kept error r) (
    begin_reconnect-Kept _
    ◂ set_state-Kept _ _
    ◂ settle-Kept _
    ◂ Kept-update _ _ (λ m. refl)
    ◂ Kept-push _ _ refl
    ◂ Kept-push r _ refl)

pub fault-Kept : (error : SessionError) (r : Run) → Kept r (fault error r)
unfolding fault
fault-Kept error r =
    Kept-if _ (Kept-refl r)
      (Kept-guard _ _ (invalidate_controls-Kept r) (drop_transport-Kept error))

pub stop-Kept : (r : Run) → Kept r (stop r)
unfolding stop
stop-Kept r =
    Kept-if _ (Kept-refl r)
      (Kept-push _ _ refl ◂ Kept-update _ _ (λ m. refl) ◂ fail_all-Kept _ _ ◂ set_state-Kept _ r)
