-- ===== src/Msgr/Session/Traces.antt =====
-- What the effects of a history of inputs to the session of src/msgr/session.rs say of its requests.
use mathlib.Core.Path.{subst}
use rados_rs.Common.{ℕ, ◌+◌, ◌≤◌, ◌≡◌, refl, arith, false, List, [], ◌∷◌, ◌++◌, if◌then◌else◌, ok}
use rados_rs.Msgr.Session.State.{Config, Input, Machine, Run}
use rados_rs.Msgr.Session.Queue.{count_where}
use rados_rs.Msgr.Session.Step.{fresh, new, step}
use rados_rs.Msgr.Session.Ledger.{waiting, unexecuted, count_effects, absolves, replies}
use rados_rs.Msgr.Session.Sends.{
  was_sent, was_sent-append, two_way, answerable-le-two_way, answerable-le-executed,
}
use rados_rs.Msgr.Session.Kept.{ledger, AreDistinct, Agrees}
use rados_rs.Msgr.Session.Steps.{admissions}
use rados_rs.Msgr.Session.Guarantees.{
  at_rest, accepted, new-IsConsistent, history, history-IsConsistent, step-Transition,
  step-absolves, step-replies,
}

new-Agrees :
    (config : Config) {m : Machine}
    → new config ≡ ok m
    → (i : ℕ) → Agrees i false (ledger (at_rest m))
unfolding new fresh waiting unexecuted count_where was_sent
new-Agrees config {m} e i =
    let made : fresh config ≡ m = accepted _ _ e in
    subst (λ n. Agrees i false (ledger (at_rest n))) made refl

history-Agrees :
    (crc32c_append : ℕ → List ℕ → ℕ) (inputs : List Input) (r : Run)
    → AreDistinct r.m.pending
    → (i : ℕ) → Agrees i false (ledger r)
    → Agrees i false (ledger (history crc32c_append inputs r))
unfolding history was_sent
history-Agrees crc32c_append [] r d i h = h
history-Agrees crc32c_append (input ∷ inputs) r d i h =
    let s = step crc32c_append input r.m in
    let moved = step-Transition crc32c_append input r.m d in
    history-Agrees crc32c_append inputs (record { m = s.m; out = r.out ++ s.out })
      (moved.distinct d) i
      (rw (was_sent-append i false r.out s.out) (moved.marks i (was_sent i false r.out) h))

-- What `new` returns, after a history of inputs.
module _ (crc32c_append : ℕ → List ℕ → ℕ) (config : Config) {m : Machine} (made : new config ≡ ok m)
    (inputs : List Input) where
  unfoldable after : Run
  after = history crc32c_append inputs (at_rest m)

  -- In a history from the machine that `new` returns, a request that waits may have executed, as the
  -- queue has it, exactly where its message has gone out since its admission: then none of the id
  -- waits unexecuted, and else all that wait are unexecuted.
  pub history-marks :
      (i : ℕ)
      → unexecuted i (history crc32c_append inputs (at_rest m)).m.pending ≡ (
          if was_sent i false (history crc32c_append inputs (at_rest m)).out
          then 0
          else waiting i (history crc32c_append inputs (at_rest m)).m.pending)
  history-marks i =
      history-Agrees crc32c_append inputs (at_rest m) (new-IsConsistent config made).distinct i
        (new-Agrees config made i)

  after-distinct : AreDistinct after.m.pending
  unfolding after
  after-distinct =
      (history-IsConsistent crc32c_append inputs (at_rest m)
        (new-IsConsistent config made)).distinct

  -- In a history from the machine that `new` returns, once the message of a request has gone out
  -- since its admission, no later input reports a failure of it other than an unknown outcome, but of
  -- an admission that the input asks for; and before that at most as often as the request waits.
  pub history-absolves :
      (input : Input) (i : ℕ)
      → count_effects
          (absolves i)
          (step crc32c_append input (history crc32c_append inputs (at_rest m)).m).out
        ≤ (if was_sent i false (history crc32c_append inputs (at_rest m)).out
            then 0
            else waiting i (history crc32c_append inputs (at_rest m)).m.pending)
          + admissions input i
  unfolding after
  history-absolves input i =
      omega (arith, history-marks i, step-absolves crc32c_append input after.m after-distinct i)

  -- In a history from the machine that `new` returns, an input delivers a reply only to a request
  -- whose message has gone out since its admission, and to it at most as often as it waits for one.
  pub history-replies :
      (input : Input) (i : ℕ)
      → count_effects
          (replies i)
          (step crc32c_append input (history crc32c_append inputs (at_rest m)).m).out
        ≤ (if was_sent i false (history crc32c_append inputs (at_rest m)).out
            then two_way i (history crc32c_append inputs (at_rest m)).m.pending
            else 0)
  unfolding after
  history-replies input i = ground (
    arith,
    history-marks i,
    step-replies crc32c_append input after.m after-distinct i,
    answerable-le-two_way i after.m.pending,
    answerable-le-executed i after.m.pending,
  )
