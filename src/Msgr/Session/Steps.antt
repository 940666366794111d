-- ===== src/Msgr/Session/Steps.antt =====
-- `handle` of the session, which is `step` of src/msgr/session.rs, by its inputs.
use rados_rs.Common.{ℕ, refl, false, List}
use rados_rs.Msgr.Session.State.{Input, Run}
use rados_rs.Msgr.Session.Step.{if_current, handle}
use rados_rs.Msgr.Session.Kept.{Kept}
use rados_rs.Msgr.Session.Kept.Rules.{Kept-refl, Kept-update, Kept-if}
use rados_rs.Msgr.Session.Kept.Failing.{fault-Kept, stop-Kept}
use rados_rs.Msgr.Session.Kept.Handshake.{control-Kept}
use rados_rs.Msgr.Session.Kept.Connected.{
  connected-Kept, start-Kept, renewal_due-Kept, initial_connection-Kept, initial_identity-Kept,
  connect_failed-Kept,
}
use rados_rs.Msgr.Session.Kept.Requests.{cancel-Kept, write_complete-Kept, message-Kept}
use rados_rs.Msgr.Session.Kept.Dispatch.{Moves-Kept, dispatch-Moves}
use rados_rs.Msgr.Session.Kept.Transition.{nothing, Advances, Advances-Moves}
use rados_rs.Msgr.Session.Kept.Admission.{one}
use rados_rs.Msgr.Session.Kept.Admit.{admit-Advances, admit_control-Advances}

-- How often an input asks for request `i`.
unfoldable pub admissions : Input → ℕ → ℕ
admissions (Input.admit id _ _) = one id
admissions (Input.admit_control id _ _) = one id
admissions _ = nothing

if_current-Kept : (g : ℕ) (f : Run → Run) (r : Run) → Kept r (f r) → Kept r (if_current g f r)
unfolding if_current
if_current-Kept g f r p = Kept-if _ p (Kept-refl r)

kept : {r s : Run} → Kept r s → Advances nothing r s
kept p = Advances-Moves (Moves-Kept p)

pub handle-Advances :
    (crc32c_append : ℕ → List ℕ → ℕ) (input : Input) (r : Run)
    → Advances (admissions input) r (handle crc32c_append input r)
unfolding admissions handle
handle-Advances c (Input.start ready) r = kept (start-Kept ready r)
handle-Advances c (Input.initial_connection id credential) r =
    kept (initial_connection-Kept id credential r)
handle-Advances c (Input.initial_identity g id credential) r =
    kept (initial_identity-Kept g id credential r)
handle-Advances c (Input.admit id msg one_way) r = admit-Advances id msg one_way false c r
handle-Advances c (Input.admit_control id msg g) r = admit_control-Advances c id msg g r
handle-Advances c (Input.cancel id) r = kept (cancel-Kept id r)
handle-Advances c Input.dispatch r = Advances-Moves (dispatch-Moves r)
handle-Advances c (Input.write_complete g id result) r = kept (write_complete-Kept g id result r)
handle-Advances c (Input.connected g id credential) r = kept (connected-Kept g id credential r)
handle-Advances c (Input.connect_failed g) r = kept (connect_failed-Kept g r)
handle-Advances c (Input.control g frame) r = kept (if_current-Kept g _ r (control-Kept frame r))
handle-Advances c (Input.message g msg) r = kept (if_current-Kept g _ r (message-Kept msg r))
handle-Advances c (Input.fault g error) r = kept (if_current-Kept g _ r (fault-Kept error r))
handle-Advances c (Input.renewal_due g) r = kept (renewal_due-Kept g r)
handle-Advances c Input.consume_incoming r = kept (Kept-update _ r (λ m. refl))
handle-Advances c Input.stop r = kept (stop-Kept r)
