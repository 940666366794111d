-- ===== src/Msgr/Session/Kept/Rules.antt =====
-- Rules for `Kept`: no change of the ledger, quiet effects, branches, and removing requests.
use rados_rs.Common.{
  ℕ, ◌+◌, ◌≤◌, ◌≡◌, refl, ap, arith, Bool, true, false, not, none, some, [], map, if◌then◌else◌,
  Bool-cases, inl, inr, ltb, checked_add, u64_max,
}
use native.Mathlib.Nat.{le_of_eq}
use rados_rs.Msgr.Session.State.{Effect, SessionError, Machine, Run, push, update}
use rados_rs.Msgr.Session.Queue.{count_where, is_control, prepare_replay}
use rados_rs.Msgr.Session.Failing.{failure, fail_all}
use rados_rs.Msgr.Session.Sends.{mark, was_sent, was_sent-push}
use rados_rs.Msgr.Session.Ledger.{
  in_flight-mark_all_unsent, has_id, is_unexecuted, is_answerable, answerable, waiting, unexecuted,
  sum_where, count_effects, settles, absolves, replies, count_effects-append, count_effects-push,
  settles-fail_all, absolves-fail_all, replies-fail_all, count_where-mark_all_unsent,
  sum_where-mark_all_unsent,
}
use rados_rs.Msgr.Session.Kept.{
  Lighter-refl, Lighter-trans, flights, Ledger, ledger, is_ordinary, ordinary, AreDistinct, Change,
  Kept, Change-refl, Change-trans,
}

pub Kept-refl : (r : Run) → Kept r r
Kept-refl r = record {
  change = λ d. Change-refl (ledger r);
  answers = λ d i. omega arith;
  lighter = λ d. Lighter-refl (ledger r);
}

-- What the ledger shows of a machine.
abbrev pub shown : Machine → Ledger
shown m = ledger (record { m = m; out = [] })

-- An update of what the ledger does not show.
pub Kept-update :
    (f : Machine → Machine) (r : Run)
    → ((m : Machine) → shown (f m) ≡ shown m)
    → Kept r (update f r)
unfolding update
Kept-update f r e =
    let same : ledger (update f r) ≡ ledger r =
      ap (λ (l : Ledger). record l { out = r.out }) (e r.m) in
    record {
      change = λ d. rw same (Change-refl (ledger r));
      answers = λ d i.
          le_of_eq
            (ap (λ (l : Ledger). count_effects (replies i) l.out + answerable i l.pending) same);
      lighter = λ d. rw same (Lighter-refl (ledger r));
    }

-- Counting up, where the next number may not exist.
pub Kept-next :
    {r : Run} (n : ℕ) (full : Run) (next : ℕ → Run)
    → Kept r full
    → (n ≤ n + 1 → Kept r (next (n + 1)))
    → Kept r (elim (checked_add n 1) [ none ↦ full | some m ↦ next m ])
Kept-next n full next f g = elim (Bool-cases (ltb u64_max (n + 1))) [
  | inl over ↦ rw over f
  | inr fits ↦ rw fits (g (omega arith))
]

-- Distinctness may be assumed.
pub Kept-distinct : {r s : Run} → (AreDistinct r.m.pending → Kept r s) → Kept r s
Kept-distinct f = record {
  change = λ d. (f d).change d;
  answers = λ d. (f d).answers d;
  lighter = λ d. (f d).lighter d;
}

-- The last step stands first.
infixr 30 ◌◂◌
pub ◌◂◌ : {r s t : Run} → Kept s t → Kept r s → Kept r t
q ◂ p = record {
  change =
      λ d. let c = p.change d in Change-trans c (q.change (λ i. omega (arith, d i, c.fewer i)));
  answers = λ d i.
      let c = p.change d in
      omega (arith, p.answers d i, q.answers (λ j. omega (arith, d j, c.fewer j)) i);
  lighter = λ d.
      let c = p.change d in
      Lighter-trans (p.lighter d) (q.lighter (λ j. omega (arith, d j, c.fewer j)));
}

pub Kept-if : {r x y : Run} (b : Bool) → Kept r x → Kept r y → Kept r (if b then x else y)
Kept-if true p q = p
Kept-if false p q = q

-- An effect that settles nothing, and neither sends nor admits a request.
abbrev pub is_quiet : Effect → Bool
is_quiet (Effect.completed _ _) = false
is_quiet (Effect.failed _ _) = false
is_quiet (Effect.send_message _ _ _) = false
is_quiet (Effect.admitted _ _) = false
is_quiet _ = true

quiet_effect :
    (i : ℕ) (e : Effect)
    → is_quiet e ≡ true
    → (settles i e ≡ false) × (absolves i e ≡ false) × (replies i e ≡ false)
quiet_effect i (Effect.completed _ _) h = cc
quiet_effect i (Effect.failed _ _) h = cc
quiet_effect i (Effect.send_message _ _ _) h = cc
quiet_effect i (Effect.admitted _ _) h = cc
quiet_effect i _ h = (refl, refl, refl)

quiet_mark : (i : ℕ) (sent : Bool) (e : Effect) → is_quiet e ≡ true → mark i e sent ≡ sent
quiet_mark i sent (Effect.send_message _ _ _) h = cc
quiet_mark i sent (Effect.admitted _ _) h = cc
quiet_mark i sent _ h = refl

module _ (r : Run) (e : Effect) (quiet : is_quiet e ≡ true) where
  push-Change : Change (ledger r) (ledger (push e r))
  unfolding push
  push-Change = record {
    tally = λ i. ground (arith, count_effects-push (settles i) r.out e, quiet_effect i e quiet);
    fewer = λ i. omega arith;
    books = λ b. record { retained = b.retained; messages = b.messages; bytes = b.bytes };
    shrinks = omega arith;
    blame = λ i. ground (arith, count_effects-push (absolves i) r.out e, quiet_effect i e quiet);
    marks = λ i sent h.
        rw (was_sent-push i sent r.out e, quiet_mark i (was_sent i sent r.out) e quiet) h;
  }

  pub Kept-push : Kept r (push e r)
  unfolding push
  Kept-push = record {
    change = λ d. push-Change;
    answers = λ d i. ground (arith, count_effects-push (replies i) r.out e, quiet_effect i e quiet);
    lighter = λ d. record { fewer = omega arith; limit = refl };
  }

-- A new generation is a later one.
pub Kept-generation :
    (r : Run) (g : ℕ) → r.m.generation ≤ g → Kept r (update (λ m. record m { generation = g }) r)
unfolding update
Kept-generation r g h = record {
  change = λ d. record {
    tally = λ i. refl;
    fewer = λ i. omega arith;
    books = λ b. record { retained = b.retained; messages = b.messages; bytes = b.bytes };
    shrinks = omega arith;
    blame = λ i. omega arith;
    marks = λ i sent h. h;
  };
  answers = λ d i. omega arith;
  lighter = λ d. record { fewer = omega arith; limit = refl };
}

fail_all-Change : (error : SessionError) (r : Run) → Change (ledger r) (ledger (fail_all error r))
unfolding fail_all waiting unexecuted ordinary sum_where count_where
fail_all-Change error r = record {
  tally = λ i. omega (
    arith,
    count_effects-append (settles i) r.out (map (failure error) r.m.pending),
    settles-fail_all i error r.m.pending,
  );
  fewer = λ i. omega arith;
  books = λ b. record { retained = refl; messages = refl; bytes = refl };
  shrinks = omega arith;
  blame = λ i. omega (
    arith,
    count_effects-append (absolves i) r.out (map (failure error) r.m.pending),
    absolves-fail_all i error r.m.pending,
  );
  marks = λ i sent h. ground arith;
}

pub fail_all-Kept : (error : SessionError) (r : Run) → Kept r (fail_all error r)
unfolding fail_all answerable flights count_where
fail_all-Kept error r = record {
  change = λ d. fail_all-Change error r;
  answers = λ d i. omega (
    arith,
    count_effects-append (replies i) r.out (map (failure error) r.m.pending),
    replies-fail_all i error r.m.pending,
  );
  lighter = λ d. record { fewer = omega arith; limit = refl };
}

prepare_replay-Change : (r : Run) → Change (ledger r) (ledger (update prepare_replay r))
unfolding update prepare_replay waiting unexecuted ordinary
prepare_replay-Change r =
    let ids = r.m.replay in
    let ps = r.m.pending in
    record {
      tally = λ i.
          ap (λ n. n + count_effects (settles i) r.out)
            (count_where-mark_all_unsent (has_id i) (λ p. refl) ids ps);
      fewer = λ i. omega (arith, count_where-mark_all_unsent (has_id i) (λ p. refl) ids ps);
      books = λ b. record {
        retained =
            omega (arith, b.retained, sum_where-mark_all_unsent is_ordinary (λ p. refl) ids ps);
        messages =
            omega (arith, b.messages, count_where-mark_all_unsent is_control (λ p. refl) ids ps);
        bytes = omega (arith, b.bytes, sum_where-mark_all_unsent is_control (λ p. refl) ids ps);
      };
      shrinks = omega (arith, count_where-mark_all_unsent is_ordinary (λ p. refl) ids ps);
      blame = λ i. omega (arith, count_where-mark_all_unsent (is_unexecuted i) (λ p. refl) ids ps);
      marks = λ i sent h.
          rw
            (
              count_where-mark_all_unsent (is_unexecuted i) (λ p. refl) ids ps,
              count_where-mark_all_unsent (has_id i) (λ p. refl) ids ps,
            )
            h;
    }

pub prepare_replay-Kept : (r : Run) → Kept r (update prepare_replay r)
unfolding update answerable flights prepare_replay
prepare_replay-Kept r = record {
  change = λ d. prepare_replay-Change r;
  answers = λ d i.
      omega
        (arith, count_where-mark_all_unsent (is_answerable i) (λ p. refl) r.m.replay r.m.pending);
  lighter = λ d. record { fewer = in_flight-mark_all_unsent r.m.replay r.m.pending; limit = refl };
}

-- A method that also returns whether to go on.
pub record Goes (r : Run) (b : Bool × Run) : Type 0 where
  pub kept : Kept r b.1

pub Goes-pair : {r s : Run} (b : Bool) → Kept r s → Goes r (b, s)
Goes-pair b p = record { kept = p }

pub Goes-after : {r s : Run} {b : Bool × Run} → Goes s b → Kept r s → Goes r b
Goes-after q p = record { kept = q.kept ◂ p }

pub Goes-if :
    {r : Run} {x y : Bool × Run} (b : Bool) → Goes r x → Goes r y → Goes r (if b then x else y)
Goes-if true p q = p
Goes-if false p q = q

pub Goes-next :
    {r : Run} (n : ℕ) (full : Bool × Run) (next : ℕ → Bool × Run)
    → Goes r full
    → (n ≤ n + 1 → Goes r (next (n + 1)))
    → Goes r (elim (checked_add n 1) [ none ↦ full | some m ↦ next m ])
Goes-next n full next f g = elim (Bool-cases (ltb u64_max (n + 1))) [
  | inl over ↦ rw over f
  | inr fits ↦ rw fits (g (omega arith))
]

-- Going on, or not: in either case nothing is lost.
pub Kept-guard :
    {r : Run} (b : Bool × Run) (x : Run → Run)
    → Goes r b
    → ((s : Run) → Kept s (x s))
    → Kept r (if b.0 then x b.1 else b.1)
Kept-guard b x p q = Kept-if b.0 (q b.1 ◂ p.kept) p.kept

pub Kept-unless :
    {r : Run} (b : Bool × Run) (x : Run → Run)
    → Goes r b
    → ((s : Run) → Kept s (x s))
    → Kept r (if not b.0 then b.1 else x b.1)
Kept-unless b x p q = Kept-if (not b.0) p.kept (q b.1 ◂ p.kept)
