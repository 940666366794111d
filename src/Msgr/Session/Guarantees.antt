-- ===== src/Msgr/Session/Guarantees.antt =====
-- Single inputs and whole histories of them, given to `step` of src/msgr/session.rs.
use mathlib.Core.Path.{subst}
use rados_rs.Common.{
  ℕ, ◌+◌, ◌≤◌, ◌≡◌, refl, sym, ap, arith, Bool, true, false, List, [], ◌∷◌, ◌++◌, if◌then◌else◌,
  Result, ok, err,
}
use rados_rs.Msgr.Session.State.{State, SessionError, Config, Input, Machine, Run, push, update}
use rados_rs.Msgr.Session.Failing.{state_eq, fail_all, stop}
use rados_rs.Msgr.Session.Queue.{in_flight_count, count_where, is_control}
use rados_rs.Msgr.Session.Step.{fresh, new, handle, step}
use rados_rs.Msgr.Session.Ledger.{
  waiting, unexecuted, answerable, sum_where, count_effects, settles, absolves, replies,
  count_effects-append,
}
use rados_rs.Msgr.Session.Requests.{max_control_messages, max_control_bytes}
use rados_rs.Msgr.Session.Kept.{flights, ledger, is_ordinary, ordinary, Balanced, AreDistinct}
use rados_rs.Msgr.Session.Kept.Transition.{nothing, IsBounded, Transition}
use rados_rs.Msgr.Session.Steps.{admissions, handle-Advances}

abbrev pub at_rest : Machine → Run
at_rest m = record { m = m; out = [] }

-- The invariant of a session: different ids, accounts that agree with the queue, and the limits of
-- the queue and of the requests in flight.
pub record IsConsistent (m : Machine) : Type 0 where
  pub distinct : AreDistinct m.pending
  pub retained : m.retained_bytes ≡ sum_where is_ordinary m.pending
  pub messages : m.control_messages ≡ count_where is_control m.pending
  pub bytes : m.control_bytes ≡ sum_where is_control m.pending
  pub queued_limit : ordinary m.pending ≤ m.config.max_queued_messages
  pub retained_limit : m.retained_bytes ≤ m.config.max_retained_bytes
  pub messages_limit : m.control_messages ≤ max_control_messages
  pub bytes_limit : m.control_bytes ≤ max_control_bytes
  pub in_flight_limit : in_flight_count m ≤ m.config.max_in_flight_transactions

pub accepted :
    (a b : Bool) {n m : Machine}
    → ◌≡◌ {A = Result SessionError Machine}
        (if a then err SessionError.malformed else if b then err SessionError.malformed else ok n)
        (ok m)
    → n ≡ m
accepted true b e = cc
accepted false true e = cc
accepted false false e = cc

fresh-IsConsistent : (config : Config) → IsConsistent (fresh config)
unfolding fresh ordinary waiting count_where sum_where in_flight_count
fresh-IsConsistent config = record {
  distinct = λ i. omega arith;
  retained = refl;
  messages = refl;
  bytes = refl;
  queued_limit = omega arith;
  retained_limit = omega arith;
  messages_limit = omega arith;
  bytes_limit = omega arith;
  in_flight_limit = omega arith;
}

-- A machine that `new` returns is consistent.
pub new-IsConsistent : (config : Config) {m : Machine} → new config ≡ ok m → IsConsistent m
unfolding new
new-IsConsistent config {m} e =
    let made : fresh config ≡ m = accepted _ _ e in
    subst IsConsistent made (fresh-IsConsistent config)

new-idle : (config : Config) {m : Machine} → new config ≡ ok m → (i : ℕ) → waiting i m.pending ≡ 0
unfolding new fresh waiting count_where
new-idle config {m} e i =
    let made : fresh config ≡ m = accepted _ _ e in ap (λ n. waiting i n.pending) (sym made)

-- All inputs of a history in order: the machine after them, and all their effects.
unfoldable pub history : (ℕ → List ℕ → ℕ) → List Input → Run → Run
history crc32c_append [] r = r
history crc32c_append (input ∷ inputs) r =
    let s = step crc32c_append input r.m in
    history crc32c_append inputs (record { m = s.m; out = r.out ++ s.out })

-- How often a history asks for request `i`.
unfoldable pub total_admissions : List Input → ℕ → ℕ
total_admissions [] i = 0
total_admissions (input ∷ inputs) i = admissions input i + total_admissions inputs i

module _ (crc32c_append : ℕ → List ℕ → ℕ) (input : Input) (m : Machine) where
  pub step-Transition :
      AreDistinct m.pending
      → Transition (admissions input) (ledger (at_rest m)) (ledger (step crc32c_append input m))
  unfolding step
  step-Transition d = (handle-Advances crc32c_append input (at_rest m)).transition d

  -- In a session whose requests have different ids, an input leaves every request that waited or
  -- was asked for either waiting or settled: each settling takes exactly one from those that wait.
  pub step-conserves :
      AreDistinct m.pending
      → (i : ℕ)
      → waiting i (step crc32c_append input m).m.pending
          + count_effects (settles i) (step crc32c_append input m).out
        ≡ waiting i m.pending + admissions input i
  unfolding count_effects
  step-conserves d i = omega (arith, (step-Transition d).tally i)

  -- Every input keeps the invariant of the session.
  pub step-IsConsistent : IsConsistent m → IsConsistent (step crc32c_append input m).m
  unfolding in_flight_count flights
  step-IsConsistent c =
      let t = step-Transition c.distinct in
      let books : Balanced (ledger (at_rest m)) = record {
        retained = c.retained;
        messages = c.messages;
        bytes = c.bytes;
      } in
      let limits : IsBounded (ledger (at_rest m)) = record {
        queued = c.queued_limit;
        retained = c.retained_limit;
        messages = c.messages_limit;
        bytes = c.bytes_limit;
      } in
      let balanced = t.books books in
      let bounded = t.bounded books limits in
      record {
        distinct = t.distinct c.distinct;
        retained = balanced.retained;
        messages = balanced.messages;
        bytes = balanced.bytes;
        queued_limit = bounded.queued;
        retained_limit = bounded.retained;
        messages_limit = bounded.messages;
        bytes_limit = bounded.bytes;
        in_flight_limit = t.flying c.in_flight_limit;
      }

  -- In a session whose requests have different ids, a failure other than an unknown outcome is
  -- reported only of a request that cannot have executed, or of one that the input asks for.
  pub step-absolves :
      AreDistinct m.pending
      → (i : ℕ)
      → count_effects (absolves i) (step crc32c_append input m).out
        ≤ unexecuted i m.pending + admissions input i
  unfolding count_effects
  step-absolves d i = omega (arith, (step-Transition d).blame i)

  -- In a session whose requests have different ids, a reply is delivered only to a request that was
  -- sent and waits for one, and at most once.
  pub step-replies :
      AreDistinct m.pending
      → (i : ℕ)
      → count_effects (replies i) (step crc32c_append input m).out ≤ answerable i m.pending
  unfolding count_effects
  step-replies d i = omega (arith, (step-Transition d).told i)

  -- In a session whose requests have different ids, no input takes the transport's generation back.
  pub step-generation :
      AreDistinct m.pending → m.generation ≤ (step crc32c_append input m).m.generation
  step-generation d = (step-Transition d).later

module _ (crc32c_append : ℕ → List ℕ → ℕ) where
  -- Over a whole history that starts with different ids, the requests that waited or were asked for
  -- are those that still wait and those that were settled, each once.
  pub history-conserves :
      (inputs : List Input) (r : Run)
      → AreDistinct r.m.pending
      → (i : ℕ)
      → waiting i (history crc32c_append inputs r).m.pending
          + count_effects (settles i) (history crc32c_append inputs r).out
        ≡ waiting i r.m.pending + count_effects (settles i) r.out + total_admissions inputs i
  unfolding history total_admissions
  history-conserves [] r d i = omega arith
  history-conserves (input ∷ inputs) r d i =
      let s = step crc32c_append input r.m in
      let after = (step-Transition crc32c_append input r.m d).distinct d in
      omega (
        arith,
        history-conserves inputs (record { m = s.m; out = r.out ++ s.out }) after i,
        step-conserves crc32c_append input r.m d i,
        count_effects-append (settles i) r.out s.out,
      )

  -- A history keeps the invariant of the session.
  pub history-IsConsistent :
      (inputs : List Input) (r : Run)
      → IsConsistent r.m
      → IsConsistent (history crc32c_append inputs r).m
  unfolding history
  history-IsConsistent [] r c = c
  history-IsConsistent (input ∷ inputs) r c =
      history-IsConsistent inputs _ (step-IsConsistent crc32c_append input r.m c)

-- Stopping a session that is not stopped leaves no request behind.
stop-clears :
    (crc32c_append : ℕ → List ℕ → ℕ) (m : Machine)
    → state_eq m.state State.stopped ≡ false
    → (step crc32c_append Input.stop m).m.pending ≡ []
unfolding step handle stop fail_all push update
stop-clears crc32c_append m running = rw running refl

-- A history from the machine that `new` returns, followed by a stop while the session is not
-- stopped, settles every request exactly as often as it was asked for.
pub session-settles :
    (crc32c_append : ℕ → List ℕ → ℕ) (config : Config) {m : Machine}
    → new config ≡ ok m
    → (inputs : List Input)
    → state_eq (history crc32c_append inputs (at_rest m)).m.state State.stopped ≡ false
    → (i : ℕ)
    → count_effects (settles i) (history crc32c_append inputs (at_rest m)).out
        + count_effects
            (settles i)
            (step crc32c_append Input.stop (history crc32c_append inputs (at_rest m)).m).out
      ≡ total_admissions inputs i
unfolding admissions nothing count_effects waiting count_where
session-settles crc32c_append config {m} e inputs running i =
    let c = new-IsConsistent config e in
    let r = history crc32c_append inputs (at_rest m) in
    let kept = history-IsConsistent crc32c_append inputs (at_rest m) c in
    omega (
      arith,
      new-idle config e i,
      history-conserves crc32c_append inputs (at_rest m) c.distinct i,
      step-conserves crc32c_append Input.stop r.m kept.distinct i,
      ap (waiting i) (stop-clears crc32c_append r.m running),
    )
