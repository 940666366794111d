-- ===== src/Msgr/Session/Kept/Connected.antt =====
-- A new transport, and the inputs about transports, keep the ledger.
use rados_rs.Common.{
  ℕ, ◌+◌, ◌^◌, ◌≡◌, refl, Bool, true, false, Option, none, some, List, ltb, leb, inl, inr,
  Bool-cases, u64_max,
}
use rados_rs.Msgr.Session.State.{State, SessionError, Effect, Machine, Run}
use rados_rs.Msgr.Session.Handshake.{queue_reconnect, queue_client_ident}
use rados_rs.Msgr.Session.Connected.{
  next_global, advance_global, identity_changes, with_global_id, adopt_identity, same_identity,
  note_credential, take_up, resume, begin_session, introduce, identified, identify, connected,
}
use rados_rs.Msgr.Session.Step.{
  start, renewal_due, initial_connection, initial_identity, connect_failed, begin_draining,
  begin_renewal, with_identity,
}
use rados_rs.Msgr.Session.Kept.{Kept}
use rados_rs.Msgr.Session.Kept.Rules.{
  Kept-refl, Kept-update, Kept-if, Kept-push, ◌◂◌, Goes, Goes-pair, Goes-after, Goes-if, Kept-guard,
  shown,
}
use rados_rs.Msgr.Session.Kept.Failing.{
  fail_terminal-Kept, reset_for_new_identity-Kept, begin_reconnect-Kept, invalidate_controls-Kept,
}
use rados_rs.Msgr.Session.Kept.Handshake.{
  refresh_cookie-Kept, start_transport-Kept, queue_reconnect-Kept, queue_client_ident-Kept,
}

next_global-Kept : (r : Run) → Goes r (next_global r)
unfolding next_global
next_global-Kept r = elim (Bool-cases (ltb u64_max (r.m.global_sequence + 1))) [
  | inl full ↦
      rw (full, next_global) (Goes-pair false (fail_terminal-Kept SessionError.transition_limit r))
  | inr room ↦ rw (room, next_global) (Goes-pair true (Kept-update _ r (λ m. refl)))
]

advance_global-Kept : (r : Run) → Goes r (advance_global r)
unfolding advance_global
advance_global-Kept r = Goes-if _ (next_global-Kept r) (Goes-pair true (Kept-refl r))

adopt_identity-Kept : (id : Option ℕ) (r : Run) → Goes r (adopt_identity id r)
unfolding adopt_identity
adopt_identity-Kept none r = Goes-pair true (Kept-refl r)
adopt_identity-Kept (some id) r =
    Goes-after
      (Goes-if (leb (2 ^ 63) id) (Goes-pair false (fail_terminal-Kept SessionError.malformed _)) (
        Goes-pair true (
          Kept-if (identity_changes id r.m) (reset_for_new_identity-Kept _) (Kept-refl _)
          ◂ Kept-update (with_global_id id) _ (λ m. refl))))
      (Kept-update (λ m. record m { authenticated_global_id = id }) r (λ m. refl))

note_shown :
    (credential : Option (List ℕ)) (m : Machine) → shown (note_credential credential m) ≡ shown m
unfolding note_credential
note_shown none m = refl
note_shown (some identity) m = elim (Bool-cases (same_identity m.credential_identity identity)) [
  | inl same ↦ rw same refl
  | inr other ↦ rw other refl
]

take_up-Kept :
    {r : Run} (g : ℕ) (f : Run → Run) (b : Bool × Run)
    → Goes r b
    → ((s : Run) → Kept s (f s))
    → Kept r (take_up g f b)
take_up-Kept g f (true, s) p q = q s ◂ p.kept
take_up-Kept g f (false, s) p q = Kept-push s (Effect.close_transport g) refl ◂ p.kept

resume-Kept : (g : ℕ) (r : Run) → Kept r (resume g r)
unfolding resume
resume-Kept g r = elim (Bool-cases (ltb u64_max (r.m.connect_sequence + 1))) [
  | inl full ↦
      rw (full, resume)
        (Kept-push _ (Effect.close_transport g) refl
          ◂ fail_terminal-Kept SessionError.transition_limit r)
  | inr room ↦
      rw (room, resume)
        (take_up-Kept g queue_reconnect _ (start_transport-Kept State.reconnecting _)
            queue_reconnect-Kept
          ◂ Kept-update _ r (λ m. refl))
]

begin_session-Kept : (g : ℕ) (r : Run) → Kept r (begin_session g r)
begin_session-Kept g r =
    take_up-Kept g queue_client_ident _ (start_transport-Kept State.connecting _)
      queue_client_ident-Kept
    ◂ Kept-update (λ m. record m { connect_sequence = 0 }) r (λ m. refl)

introduce-Kept : (g : ℕ) (r : Run) → Kept r (introduce g r)
unfolding introduce
introduce-Kept g r =
    take_up-Kept g (begin_session g) _ (refresh_cookie-Kept r) (begin_session-Kept g)

identified-Kept :
    (g : ℕ) (credential : Option (List ℕ)) (r : Run) → Kept r (identified g credential r)
unfolding identified
identified-Kept g credential r =
    Kept-if _ (introduce-Kept g _) (resume-Kept g _)
    ◂ Kept-update (note_credential credential) r (note_shown credential)

identify-Kept :
    (g : ℕ) (id : Option ℕ) (credential : Option (List ℕ)) (r : Run)
    → Kept r (identify g id credential r)
unfolding identify
identify-Kept g id credential r =
    take_up-Kept g (identified g credential) _
      (Goes-after (adopt_identity-Kept id _)
        (Kept-update (λ m. record m { connected_once = true }) r (λ m. refl)))
      (identified-Kept g credential)

pub connected-Kept :
    (g : ℕ) (id : Option ℕ) (credential : Option (List ℕ)) (r : Run)
    → Kept r (connected g id credential r)
unfolding connected
connected-Kept g id credential r = Kept-if _ (Kept-push r (Effect.close_transport g) refl) (
    take_up-Kept g (identify g id credential) _
      (Goes-after (advance_global-Kept _) (Kept-update _ r (λ m. refl)))
      (identify-Kept g id credential))

pub start-Kept : (ready : Bool) (r : Run) → Kept r (start ready r)
unfolding start
start-Kept ready r = Kept-if _ (Kept-refl r) (
    Kept-if ready
      ((start_transport-Kept State.ready _).kept
        ◂ Kept-update (λ m. record m { connected_once = true }) r (λ m. refl))
      (begin_reconnect-Kept r))

begin_draining-Kept : (r : Run) → Kept r (begin_draining r)
unfolding begin_draining
begin_draining-Kept r = Kept-push _ _ refl ◂ Kept-update _ r (λ m. refl)

begin_renewal-Kept : (r : Run) → Kept r (begin_renewal r)
unfolding begin_renewal
begin_renewal-Kept r = Kept-guard _ begin_draining (invalidate_controls-Kept r) begin_draining-Kept

pub renewal_due-Kept : (g : ℕ) (r : Run) → Kept r (renewal_due g r)
unfolding renewal_due
renewal_due-Kept g r =
    Kept-if _ (Kept-refl r) (Kept-if _ (begin_renewal-Kept r) (Kept-update _ r (λ m. refl)))

identity_shown :
    (id : Option ℕ) (credential : Option (List ℕ)) (m : Machine)
    → shown (with_identity id credential m) ≡ shown m
identity_shown none credential m = refl
identity_shown (some id) credential m = refl

pub initial_identity-Kept :
    (g : ℕ) (id : Option ℕ) (credential : Option (List ℕ)) (r : Run)
    → Kept r (initial_identity g id credential r)
unfolding initial_identity
initial_identity-Kept g id credential r =
    Kept-if _ (Kept-update (with_identity id credential) r (identity_shown id credential))
      (Kept-refl r)

pub initial_connection-Kept :
    (id : Option ℕ) (credential : Option (List ℕ)) (r : Run)
    → Kept r (initial_connection id credential r)
unfolding initial_connection
initial_connection-Kept id credential r =
    Kept-if _
      (connected-Kept r.m.generation id credential _
        ◂ Kept-update (λ m. record m { connect_pending = true }) r (λ m. refl))
      (Kept-refl r)

pub connect_failed-Kept : (g : ℕ) (r : Run) → Kept r (connect_failed g r)
unfolding connect_failed
connect_failed-Kept g r =
    Kept-if _ (begin_reconnect-Kept _ ◂ Kept-push _ _ refl ◂ Kept-update _ r (λ m. refl))
      (Kept-refl r)
