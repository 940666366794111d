-- ===== src/Msgr/Session/Kept/Requests.antt =====
-- Cancelling, completing and answering requests keep the ledger.
use rados_rs.Common.{
  ℕ, ◌≡◌, refl, sym, arith, true, false, ◌⊎◌, inl, inr, Option, none, some, if◌then◌else◌,
  Bool-cases, Option-cases, Result, ok, err,
}
use rados_rs.Msgr.Message.{Message}
use rados_rs.Msgr.Session.State.{SessionError, Effect, Pending, Machine, Run}
use rados_rs.Msgr.Session.Queue.{find_pending, lookup_transaction, trim_replay}
use rados_rs.Msgr.Session.Failing.{is_outcome_unknown, fault}
use rados_rs.Msgr.Session.Requests.{
  cancel, answers, answered, pass_on, deliver, note_gap, receive, accept_message, message,
}
use rados_rs.Msgr.Session.Step.{is_one_way, written, write_complete}
use rados_rs.Msgr.Session.Ledger.{find_pending_id}
use rados_rs.Msgr.Session.Kept.{Kept}
use rados_rs.Msgr.Session.Kept.Rules.{Kept-refl, Kept-update, Kept-if, Kept-push, ◌◂◌, Kept-guard}
use rados_rs.Msgr.Session.Kept.Each.{IsOutcome, failed-IsOutcome, remove_pending-Kept}
use rados_rs.Msgr.Session.Kept.Failing.{fail_terminal-Kept, fault-Kept}
use rados_rs.Msgr.Session.Kept.Handshake.{queue_control-Kept, accept_acknowledgment-Kept}

cancel_fair :
    (p : Pending)
    → (is_outcome_unknown
          (if p.may_have_executed then SessionError.outcome_unknown else SessionError.cancelled)
        ≡ true)
      ⊎ (p.may_have_executed ≡ false)
cancel_fair p = elim (Bool-cases p.may_have_executed) [
  | inl maybe ↦ inl (rw maybe refl)
  | inr never ↦ inr never
]

pub cancel-Kept : (id : ℕ) (r : Run) → Kept r (cancel id r)
unfolding cancel
cancel-Kept id r = elim (Option-cases (find_pending id r.m.pending)) [
  | inl absent ↦ rw (absent, cancel) (Kept-refl r)
  | inr (p, found) ↦
      rw (found, cancel)
        (remove_pending-Kept id r _ found
          (failed-IsOutcome id _ p (find_pending_id id r.m.pending found) (cancel_fair p)))
]

-- A completion without a reply, and one with a reply.
written-IsOutcome :
    (id : ℕ) (p : Pending) → p.request_id ≡ id → IsOutcome (Effect.completed id none) p
written-IsOutcome id p e = record {
  ends = λ i. rw e;
  honest = λ i t. cc;
  replied = λ i t. cc;
  silent = λ i sent. refl;
}

answer-IsOutcome :
    (id : ℕ) (msg : Message) (p : Pending)
    → p.request_id ≡ id
    → answers (some p) ≡ true
    → IsOutcome (Effect.completed id (some msg)) p
answer-IsOutcome id msg p e h = record {
  ends = λ i. rw e;
  honest = λ i t. cc;
  replied = λ i t. ground (arith, e, h, t);
  silent = λ i sent. refl;
}

one_way_found : (o : Option Pending) → is_one_way o ≡ true → (p : Pending) × (o ≡ some p)
one_way_found none h = cc
one_way_found (some p) h = (p, refl)

written-Kept : (id : Option ℕ) (r : Run) → Kept r (written id r)
unfolding written
written-Kept none r = Kept-refl r
written-Kept (some id) r = elim (Bool-cases (is_one_way (find_pending id r.m.pending))) [
  | inl done ↦
      let (p, found) = one_way_found (find_pending id r.m.pending) done in
      rw (done, written)
        (remove_pending-Kept id r _ found
          (written-IsOutcome id p (find_pending_id id r.m.pending found)))
  | inr other ↦ rw (other, written) (Kept-refl r)
]

conclude_write :
    (id : Option ℕ) (result : Result SessionError (Unit {0})) (r : Run)
    → Kept r (elim result [ ok _ ↦ written id r | err error ↦ fault error r ])
conclude_write id (ok _) r = written-Kept id r
conclude_write id (err error) r = fault-Kept error r

pub write_complete-Kept :
    (g : ℕ) (id : Option ℕ) (result : Result SessionError (Unit {0})) (r : Run)
    → Kept r (write_complete g id result r)
unfolding write_complete
write_complete-Kept g id result r =
    Kept-if _
      (conclude_write id result _
        ◂ Kept-update (λ m. record m { write_busy = false }) r (λ m. refl))
      (Kept-refl r)

answers_found :
    (o : Option Pending)
    → answers o ≡ true
    → (p : Pending) × (o ≡ some p) × (answers (some p) ≡ true)
answers_found none h = cc
answers_found (some p) h = (p, refl, h)

-- What a message answers was sent, and waits for a reply.
pub answered_lem :
    (t : ℕ) (m : Machine) {id : ℕ}
    → answered t m ≡ some id
    → (p : Pending) × (find_pending id m.pending ≡ some p) × (answers (some p) ≡ true)
unfolding answered
answered_lem t m {id} e = elim (Option-cases (lookup_transaction t m.by_transaction)) [
  | inl absent ↦ cc
  | inr (j, known) ↦ elim (Bool-cases (answers (find_pending j m.pending))) [
    | inl held ↦
        let (p, found, waits) = answers_found (find_pending j m.pending) held in
        let same : j ≡ id = let f : some j ≡ some id = (rw (known, held, answered) at e) in cc in
        (p, rw (sym same) found, waits)
    | inr lost ↦ let never : none ≡ some id = (rw (known, lost, answered) at e) in cc
  ]
]

pass_on-Kept : (msg : Message) (r : Run) → Kept r (pass_on msg r)
unfolding pass_on
pass_on-Kept msg r =
    Kept-if _ (fail_terminal-Kept _ r) (Kept-push _ _ refl ◂ Kept-update _ r (λ m. refl))

deliver-Kept : (msg : Message) (r : Run) → Kept r (deliver msg r)
unfolding deliver
deliver-Kept msg r = elim (Option-cases (answered msg.header.transaction_id r.m)) [
  | inl fresh ↦ rw (fresh, deliver) (pass_on-Kept msg r)
  | inr (id, known) ↦
      let (p, found, waits) = answered_lem msg.header.transaction_id r.m known in
      rw (known, deliver)
        (remove_pending-Kept id r _ found
          (answer-IsOutcome id msg p (find_pending_id id r.m.pending found) waits))
]

note_gap-Kept : (s : ℕ) (r : Run) → Kept r (note_gap s r)
unfolding note_gap
note_gap-Kept s r = Kept-if _ (Kept-push r _ refl) (Kept-refl r)

receive-Kept : (msg : Message) (r : Run) → Kept r (receive msg r)
unfolding receive trim_replay
receive-Kept msg r =
    Kept-if _ (Kept-push r _ refl) (
      deliver-Kept msg _ ◂ queue_control-Kept _ _ ◂ Kept-update _ _ (λ m. refl) ◂ note_gap-Kept _ r)

accept_message-Kept : (msg : Message) (r : Run) → Kept r (accept_message msg r)
unfolding accept_message
accept_message-Kept msg r =
    Kept-guard _ (receive msg) (accept_acknowledgment-Kept _ r) (receive-Kept msg)

pub message-Kept : (msg : Message) (r : Run) → Kept r (message msg r)
unfolding message
message-Kept msg r = Kept-if _ (fault-Kept _ r) (accept_message-Kept msg r)
