-- ===== src/Msgr/Session/Kept/Each.antt =====
-- Removing requests from the queue and reporting each: `remove_pending` and `fail_each`.
use mathlib.Core.Path.{subst}
use rados_rs.Common.{
  refl, ℕ, suc, ◌≤◌, ◌≡◌, sym, ap, arith, Bool, true, false, not, ◌&&◌, ◌⊎◌, inl, inr, some, List,
  [], ◌∷◌, map, ◌==◌, if◌then◌else◌, Bool-cases,
}
use rados_rs.Msgr.Session.State.{Pending, Effect, SessionError, Run, push, update}
use rados_rs.Msgr.Session.Queue.{
  in_flight, count_where, is_control, find_pending, remove_first, remove_pending, release, select,
}
use rados_rs.Msgr.Session.Failing.{fail_each, is_outcome_unknown, control_failure, unknown_failure}
use rados_rs.Msgr.Session.Sends.{mark, was_sent, was_sent-push}
use rados_rs.Msgr.Session.Ledger.{
  has_id, is_unexecuted, is_answerable, answerable, waiting, unexecuted, settles, absolves, replies,
  count_effects-push, count_where-remove_first, sum_where-remove_first, find_pending_id,
  find_pending-waiting, unexecuted-le-waiting,
}
use rados_rs.Msgr.Session.Kept.{
  flights, ledger, is_ordinary, ordinary, Balanced, AreDistinct, Change, Kept,
}
use rados_rs.Msgr.Session.Kept.Rules.{Kept-refl, Kept-distinct, ◌◂◌}

-- The effect `e` may report the end of request `p`: nobody is told of a request that may have
-- executed that it did not, and only a sent request that waits for a reply has one.
pub record IsOutcome (e : Effect) (p : Pending) : Type 0 where
  pub ends : (i : ℕ) → settles i e ≡ has_id i p
  pub honest : (i : ℕ) → absolves i e ≡ true → is_unexecuted i p ≡ true
  pub replied : (i : ℕ) → replies i e ≡ true → is_answerable i p ≡ true
  pub silent : (i : ℕ) (sent : Bool) → mark i e sent ≡ sent

module _ (r : Run) (p : Pending) (found : find_pending p.request_id r.m.pending ≡ some p) where
  release-Balanced : Balanced (ledger r) → Balanced (ledger (update (release p) r))
  unfolding release update
  release-Balanced b = record {
    retained =
        ground
          (arith, b.retained, sum_where-remove_first is_ordinary p.request_id r.m.pending found);
    messages =
        ground
          (arith, b.messages, count_where-remove_first is_control p.request_id r.m.pending found);
    bytes =
        ground (arith, b.bytes, sum_where-remove_first is_control p.request_id r.m.pending found);
  }

  module _ (e : Effect) (outcome : IsOutcome e p) where
    release-Change : Change (ledger r) (ledger (push e (update (release p) r)))
    unfolding push update release waiting unexecuted ordinary
    release-Change = record {
      tally = λ i. ground (
        arith,
        count_where-remove_first (has_id i) p.request_id r.m.pending found,
        count_effects-push (settles i) r.out e,
        outcome.ends i,
      );
      fewer =
          λ i. omega (arith, count_where-remove_first (has_id i) p.request_id r.m.pending found);
      books = λ b.
          let c = release-Balanced b in
          record { retained = c.retained; messages = c.messages; bytes = c.bytes };
      shrinks = ground (arith, count_where-remove_first is_ordinary p.request_id r.m.pending found);
      blame = λ i. ground (
        arith,
        count_where-remove_first (is_unexecuted i) p.request_id r.m.pending found,
        count_effects-push (absolves i) r.out e,
        outcome.honest i,
      );
      marks = λ i sent h.
          rw (was_sent-push i sent r.out e, outcome.silent i (was_sent i sent r.out))
            (ground (
              arith,
              h,
              count_where-remove_first (is_unexecuted i) p.request_id r.m.pending found,
              count_where-remove_first (has_id i) p.request_id r.m.pending found,
              unexecuted-le-waiting i (remove_first p.request_id r.m.pending),
            ));
    }

    -- A request leaves the queue with its outcome.
    pub release-Kept : Kept r (push e (update (release p) r))
    unfolding push update release answerable flights
    release-Kept = record {
      change = λ d. release-Change;
      answers = λ d i. ground (
        arith,
        count_where-remove_first (is_answerable i) p.request_id r.m.pending found,
        count_effects-push (replies i) r.out e,
        outcome.replied i,
      );
      lighter = λ d. record {
        fewer = omega (arith, count_where-remove_first in_flight p.request_id r.m.pending found);
        limit = refl;
      };
    }

pub remove_pending_lem :
    (id : ℕ) (r : Run) {p : Pending}
    → find_pending id r.m.pending ≡ some p
    → (p.request_id ≡ id)
      × (find_pending p.request_id r.m.pending ≡ some p)
      × (update (remove_pending id) r ≡ update (release p) r)
unfolding remove_pending
remove_pending_lem id r {p} e =
    let same = find_pending_id id r.m.pending e in
    (same, cc (ap (λ j. find_pending j r.m.pending) same), unfold update in rw (e, remove_pending))

-- How often a list of failures names a request, and how often it absolves it.
pub named : ℕ → List (ℕ × SessionError) → ℕ
named i [] = 0
named i ((j, e) ∷ l) = let rest = named i l in if j == i then suc rest else rest

pub absolved : ℕ → List (ℕ × SessionError) → ℕ
absolved i [] = 0
absolved i ((j, e) ∷ l) =
    let rest = absolved i l in if j == i && not (is_outcome_unknown e) then suc rest else rest

absolved-le-named : (i : ℕ) (l : List (ℕ × SessionError)) → absolved i l ≤ named i l
unfolding absolved named
absolved-le-named i [] = omega arith
absolved-le-named i ((j, e) ∷ l) = ground (arith, absolved-le-named i l)

pub record IsDue (l : List (ℕ × SessionError)) (ps : List Pending) : Type 0 where
  pub present : (i : ℕ) → named i l ≤ waiting i ps
  pub fair : (i : ℕ) → absolved i l ≤ unexecuted i ps

pub failed-IsOutcome :
    (id : ℕ) (error : SessionError) (p : Pending)
    → p.request_id ≡ id
    → (is_outcome_unknown error ≡ true) ⊎ (p.may_have_executed ≡ false)
    → IsOutcome (Effect.failed id error) p
failed-IsOutcome id error p e h = record {
  ends = λ i. rw e;
  honest = λ i. ground (arith, e);
  replied = λ i t. cc;
  silent = λ i sent. refl;
}

-- The request that a list names first is there, and is reported honestly.
module _ (id : ℕ) (error : SessionError) (l : List (ℕ × SessionError)) (ps : List Pending) where
  first_there : IsDue ((id, error) ∷ l) ps → (p : Pending) × (find_pending id ps ≡ some p)
  unfolding named
  first_there due = find_pending-waiting id ps (ground (arith, due.present id))

  pending_after :
      (r : Run) {p : Pending}
      → find_pending id r.m.pending ≡ some p
      → (remove_pending id r.m).pending ≡ remove_first id r.m.pending
  unfolding remove_pending release
  pending_after r {p} found =
      rw (found, remove_pending) (ap (λ j. remove_first j r.m.pending) (find_pending_id id _ found))

  module _ {p : Pending} (d : AreDistinct ps) (due : IsDue ((id, error) ∷ l) ps)
      (found : find_pending id ps ≡ some p) where
    first_honest : (is_outcome_unknown error ≡ true) ⊎ (p.may_have_executed ≡ false)
    unfolding named absolved waiting unexecuted
    first_honest = elim (Bool-cases (is_outcome_unknown error)) [
      | inl unknown ↦ inl unknown
      | inr known ↦ inr (
          ground (
            arith,
            d id,
            due.fair id,
            find_pending_id id ps found,
            count_where-remove_first (is_unexecuted id) id ps found,
            count_where-remove_first (has_id id) id ps found,
            unexecuted-le-waiting id (remove_first id ps),
          ))
    ]

    rest-IsDue : IsDue l (remove_first id ps)
    unfolding named absolved waiting unexecuted
    rest-IsDue = record {
      present = λ i. ground (
        arith,
        due.present i,
        find_pending_id id ps found,
        count_where-remove_first (has_id i) id ps found,
      );
      fair = λ i. ground (
        arith,
        d i,
        due.fair i,
        due.present i,
        absolved-le-named i l,
        find_pending_id id ps found,
        count_where-remove_first (has_id i) id ps found,
        count_where-remove_first (is_unexecuted i) id ps found,
      );
    }

module _ (id : ℕ) (r : Run) {p : Pending} (e : Effect) where
  -- One request leaves the queue by its id.
  pub remove_pending-Kept :
      find_pending id r.m.pending ≡ some p
      → IsOutcome e p
      → Kept r (push e (update (remove_pending id) r))
  remove_pending-Kept found outcome =
      let (same, own, step) = remove_pending_lem id r found in
      subst (λ s. Kept r (push e s)) (sym step) (release-Kept r p own e outcome)

pub fail_each-Kept :
    (l : List (ℕ × SessionError)) (r : Run) → IsDue l r.m.pending → Kept r (fail_each l r)
unfolding fail_each
fail_each-Kept [] r due = Kept-refl r
fail_each-Kept ((id, error) ∷ l) r due = Kept-distinct λ d.
    let (p, found) = first_there id error l r.m.pending due in
    let honest = first_honest id error l r.m.pending d due found in
    let outcome = failed-IsOutcome id error p (find_pending_id id r.m.pending found) honest in
    let left = pending_after id error l r.m.pending r found in
    let next = push (Effect.failed id error) (update (remove_pending id) r) in
    let here : next.m.pending ≡ remove_first id r.m.pending = unfold push update in left in
    fail_each-Kept l next
      (subst (IsDue l) (sym here) (rest-IsDue id error l r.m.pending d due found))
    ◂ remove_pending-Kept id r (Effect.failed id error) found outcome

-- Selected requests, each with a failure, are due.
module _ (test : Pending → Bool) where
  pub select-IsDue_control : (ps : List Pending) → IsDue (map control_failure (select test ps)) ps
  unfolding named absolved waiting unexecuted select count_where
  select-IsDue_control [] = record { present = λ i. omega arith; fair = λ i. omega arith }
  select-IsDue_control (p ∷ ps) =
      let ih = select-IsDue_control ps in
      record { present = λ i. ground (arith, ih.present i); fair = λ i. ground (arith, ih.fair i) }

  pub select-IsDue_unknown : (ps : List Pending) → IsDue (map unknown_failure (select test ps)) ps
  unfolding named absolved waiting unexecuted select count_where
  select-IsDue_unknown [] = record { present = λ i. omega arith; fair = λ i. omega arith }
  select-IsDue_unknown (p ∷ ps) =
      let ih = select-IsDue_unknown ps in
      record { present = λ i. ground (arith, ih.present i); fair = λ i. ground (arith, ih.fair i) }
