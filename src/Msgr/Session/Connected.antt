-- ===== src/Msgr/Session/Connected.antt =====
-- `connected` of src/msgr/session.rs: a new transport takes up the handshake.
use rados_rs.Common.{
  ℕ, ◌^◌, Bool, true, false, not, ◌&&◌, ◌||◌, Option, none, some, List, leb, ◌==◌, if◌then◌else◌,
  checked_add,
}
use rados_rs.Common.Int.{pos}
use rados_rs.Protocol.Address.{bytes_eq}
use rados_rs.Msgr.Session.State.{
  State, SessionError, Effect, CredentialChange, Machine, Run, push, update,
}
use rados_rs.Msgr.Session.Failing.{fail_terminal, reset_for_new_identity}
use rados_rs.Msgr.Session.Handshake.{
  refresh_cookie, start_transport, queue_reconnect, queue_client_ident,
}

unfoldable pub next_global : Run → Bool × Run
next_global r = elim (checked_add r.m.global_sequence 1) [
  | none ↦ (false, fail_terminal SessionError.transition_limit r)
  | some next ↦ (true, update (λ m. record m { global_sequence = next }) r)
]

-- Every connection but the first has a new global sequence.
unfoldable pub advance_global : Run → Bool × Run
advance_global r = if r.m.connected_once then next_global r else (true, r)

abbrev pub identity_changes : ℕ → Machine → Bool
identity_changes global_id m =
    not (m.authenticated_global_id == 0) && not (m.authenticated_global_id == global_id)

abbrev pub with_global_id : ℕ → Machine → Machine
with_global_id global_id m = record m {
  config = record m.config {
    client_ident = record m.config.client_ident { global_id = pos global_id };
  };
}

unfoldable pub adopt_identity : Option ℕ → Run → Bool × Run
adopt_identity none r = (true, r)
adopt_identity (some global_id) r =
    let r1 = update (λ m. record m { authenticated_global_id = global_id }) r in
    if leb (2 ^ 63) global_id
    then (false, fail_terminal SessionError.malformed r1)
    else let r2 = update (with_global_id global_id) r1 in
      (true, if identity_changes global_id r.m then reset_for_new_identity r2 else r2)

unfoldable pub same_identity : Option (List ℕ) → List ℕ → Bool
same_identity none identity = false
same_identity (some held) identity = bytes_eq held identity

unfoldable pub note_credential : Option (List ℕ) → Machine → Machine
note_credential none m = record m {
  candidate_credential_identity = none;
  credential_change = CredentialChange.unknown;
}
note_credential (some identity) m =
    if same_identity m.credential_identity identity
    then record m { credential_change = CredentialChange.unchanged }
    else record m {
      candidate_credential_identity = some identity;
      credential_change = CredentialChange.changed;
    }

-- With a server's cookie the session is resumed, otherwise it starts anew.
-- The end of both ways to shake hands: a transport that is not taken up is closed.
abbrev pub take_up : ℕ → (Run → Run) → Bool × Run → Run
take_up generation f (going, r) = if going then f r else push (Effect.close_transport generation) r

-- With a server's cookie the session is resumed, otherwise it starts anew.
unfoldable pub resume : ℕ → Run → Run
resume generation r = elim (checked_add r.m.connect_sequence 1) [
  | none ↦ push (Effect.close_transport generation) (fail_terminal SessionError.transition_limit r)
  | some next ↦
      take_up generation queue_reconnect
        (start_transport State.reconnecting (update (λ m. record m { connect_sequence = next }) r))
]

abbrev pub begin_session : ℕ → Run → Run
begin_session generation r =
    take_up generation queue_client_ident
      (start_transport State.connecting (update (λ m. record m { connect_sequence = 0 }) r))

unfoldable pub introduce : ℕ → Run → Run
introduce generation r = take_up generation (begin_session generation) (refresh_cookie r)

unfoldable pub identified : ℕ → Option (List ℕ) → Run → Run
identified generation credential r =
    let r1 = update (note_credential credential) r in
    if r1.m.server_cookie == 0 then introduce generation r1 else resume generation r1

unfoldable pub identify : ℕ → Option ℕ → Option (List ℕ) → Run → Run
identify generation global_id credential r =
    take_up generation (identified generation credential)
      (adopt_identity global_id (update (λ m. record m { connected_once = true }) r))

unfoldable pub connected : ℕ → Option ℕ → Option (List ℕ) → Run → Run
connected generation global_id credential r =
    if not (generation == r.m.generation) || not r.m.connect_pending
    then push (Effect.close_transport generation) r
    else take_up generation (identify generation global_id credential) (
        advance_global (
          update (λ m. record m { connect_pending = false; terminal_error = none; transitions = 0 })
            r))
