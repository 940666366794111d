-- ===== src/Msgr/Session/Kept/Admit.antt =====
-- The branches of `admit` and of `admit_control`.
use rados_rs.Common.{
  ℕ, ◌≡◌, refl, Bool, true, false, not, ◌||◌, inl, inr, Option, none, some, List, ◌==◌, Bool-cases,
  Option-cases, Result-cases,
}
use rados_rs.Msgr.Message.{Message}
use rados_rs.Msgr.Session.State.{State, SessionError, Run, update}
use rados_rs.Msgr.Session.Queue.{find_pending}
use rados_rs.Msgr.Session.Failing.{state_eq}
use rados_rs.Msgr.Session.Requests.{
  admission_bytes, take_transaction_id, transaction_fuel, is_saturated, refuse, enqueue,
  admit_taken, admit_next, admit_transaction, admit_sized, admit_open, admit_unless, admit,
}
use rados_rs.Msgr.Session.Step.{admit_control}
use rados_rs.Msgr.Session.Transactions.{take_transaction_id-total}
use rados_rs.Msgr.Session.Kept.Rules.{Kept-refl, Kept-update, ◌◂◌}
use rados_rs.Msgr.Session.Kept.Failing.{fail_terminal-Kept}
use rados_rs.Msgr.Session.Kept.Transition.{Advances, Advances-if}
use rados_rs.Msgr.Session.Kept.Admission.{one, refuse-Advances, enqueue-Advances}

module _ (id : ℕ) (msg : Message) (one_way control : Bool) where
  refused : (error : SessionError) (r : Run) → Advances (one id) r (refuse id error r)
  refused error r = refuse-Advances id error (Kept-refl r)

  module _ (bytes : ℕ) (r : Run) where
    module _ (room : is_saturated control bytes r.m ≡ false)
        (fresh : find_pending id r.m.pending ≡ none) where
      joins :
          (t : ℕ) (next : Option ℕ)
          → Advances (one id) r (
              enqueue id msg one_way control bytes t
                (update (λ m. record m { next_transaction_id = next }) r))
      unfolding update is_saturated
      joins t next =
          let after : Run = update (λ m. record m { next_transaction_id = next }) r in
          let moved = enqueue-Advances id msg one_way bytes t after control room fresh in
          record { transition = moved.transition }

      admit_taken-Advances :
          (taken next : Option ℕ)
          → Advances (one id) r (
              admit_taken id msg one_way control bytes taken
                (update (λ m. record m { next_transaction_id = next }) r))
      unfolding admit_taken
      admit_taken-Advances none next =
          refuse-Advances id SessionError.transition_limit
            (fail_terminal-Kept SessionError.transition_limit _ ◂ Kept-update _ r (λ m. refl))
      admit_taken-Advances (some t) next = joins t next

      admit_next-Advances : Advances (one id) r (admit_next id msg one_way control bytes r)
      unfolding admit_next
      admit_next-Advances =
          elim (Option-cases (
            take_transaction_id (transaction_fuel r.m.by_transaction) r.m.by_transaction
              r.m.next_transaction_id)) [
                | inl never ↦
                    let lost : false ≡ true =
                      (rw never at
                        (take_transaction_id-total r.m.by_transaction r.m.next_transaction_id)) in
                    cc
                | inr ((taken, next), found) ↦
                    rw (found, admit_next) (admit_taken-Advances taken next)
              ]

      admit_transaction-Advances :
          Advances (one id) r (admit_transaction id msg one_way control bytes r)
      unfolding admit_transaction
      admit_transaction-Advances = Advances-if _ admit_next-Advances (
          Advances-if _ (refused _ r)
            (enqueue-Advances id msg one_way bytes _ r control room fresh))

    admit_sized-Advances : Advances (one id) r (admit_sized id msg one_way control bytes r)
    unfolding admit_sized
    admit_sized-Advances = elim (Bool-cases (is_saturated control bytes r.m)) [
      | inl full ↦ rw (full, admit_sized) (refused SessionError.queue_saturated r)
      | inr room ↦ elim (Option-cases (find_pending id r.m.pending)) [
        | inl fresh ↦ rw (room, fresh, admit_sized) (admit_transaction-Advances room fresh)
        | inr (p, found) ↦ rw (room, found, admit_sized) (refused SessionError.queue_saturated r)
      ]
    ]

  module _ (crc32c_append : ℕ → List ℕ → ℕ) where
    admit_open-Advances :
        (r : Run) → Advances (one id) r (admit_open crc32c_append id msg one_way control r)
    unfolding admit_open
    admit_open-Advances r = elim (Result-cases (admission_bytes crc32c_append r.m msg)) [
      | inl (e, bad) ↦ rw (bad, admit_open) (refused SessionError.malformed r)
      | inr (bytes, good) ↦ rw (good, admit_open) (admit_sized-Advances bytes r)
    ]

    admit_unless-Advances :
        (dead : Option SessionError) (r : Run)
        → Advances (one id) r (admit_unless crc32c_append dead id msg one_way control r)
    unfolding admit_unless
    admit_unless-Advances none r = Advances-if _ (refused _ r) (admit_open-Advances r)
    admit_unless-Advances (some error) r = refused error r

    pub admit-Advances :
        (r : Run) → Advances (one id) r (admit crc32c_append id msg one_way control r)
    unfolding admit
    admit-Advances r = admit_unless-Advances r.m.terminal_error r

pub admit_control-Advances :
    (crc32c_append : ℕ → List ℕ → ℕ) (id : ℕ) (msg : Message) (g : ℕ) (r : Run)
    → Advances (one id) r (admit_control crc32c_append id msg g r)
unfolding admit_control
admit_control-Advances crc32c_append id msg g r =
    Advances-if (not (g == r.m.control_generation) || not (state_eq r.m.state State.ready))
      (refused id msg true true SessionError.disconnected r)
      (Advances-if _ (refused id msg true true SessionError.unsupported_payload r)
        (admit-Advances id msg true true crc32c_append r))
