-- ===== src/Msgr/Session/Kept/Dispatch.antt =====
-- Sending a request changes who could have executed it, and nothing else of the ledger.
use Prim.Native.Nat.{max}
use rados_rs.Common.{
  Bool-cases, ℕ, ◌+◌, ◌-◌, ◌≤◌, ◌≡◌, refl, arith, Bool, true, false, ◌⊎◌, inl, inr, Option, none,
  some, List, [], ◌∷◌, get_elem?, if◌then◌else◌, Option-cases,
}
use rados_rs.Msgr.Control.{Control}
use rados_rs.Msgr.Session.State.{Machine, SessionError, Effect, Pending, Run, push, update}
use rados_rs.Msgr.Session.Queue.{in_flight_count, in_flight, is_control, pick, set_at}
use rados_rs.Msgr.Session.Requests.{
  sequenced, transmit, after_sequence, transmit_fresh, transmit_at, eligible, dispatch_chosen,
  dispatch_message, dispatch_controls, dispatch,
}
use rados_rs.Msgr.Session.Sends.{was_sent-push, is_executed, waiting_split, count_where-get}
use rados_rs.Msgr.Session.Ledger.{
  pick-test, has_id, is_unexecuted, waiting, unexecuted, answerable, count_effects, settles,
  absolves, replies, count_effects-push, count_where-set_at, sum_where-set_at, pick-get,
}
use rados_rs.Msgr.Session.Kept.{
  flights, ledger, is_ordinary, ordinary, Balanced, AreDistinct, Change, Change-trans, Kept,
}
use rados_rs.Msgr.Session.Kept.Rules.{Kept-refl, Kept-update, Kept-push, Kept-if, ◌◂◌}
use rados_rs.Msgr.Session.Kept.Failing.{fail_terminal-Kept, fault-Kept}

-- Like `Kept`, but requests may become answerable.
pub record Moves (r s : Run) : Type 0 where
  pub change : AreDistinct r.m.pending → Change (ledger r) (ledger s)
  pub told :
      AreDistinct r.m.pending
      → (i : ℕ)
      → count_effects (replies i) s.out ≤ count_effects (replies i) r.out + answerable i r.m.pending
  pub flying :
      AreDistinct r.m.pending
      → flights r.m.pending ≤ r.m.config.max_in_flight_transactions
      → flights s.m.pending ≤ s.m.config.max_in_flight_transactions

pub Moves-Kept : {r s : Run} → Kept r s → Moves r s
Moves-Kept p = record {
  change = λ d. p.change d;
  told = λ d i. omega (arith, p.answers d i);
  flying = λ d h. let l = p.lighter d in omega (arith, h, l.fewer, l.limit);
}

Moves-after : {r s t : Run} → Moves s t → Kept r s → Moves r t
Moves-after q p = record {
  change =
      λ d. let c = p.change d in Change-trans c (q.change (λ i. omega (arith, d i, c.fewer i)));
  told = λ d i.
      let c = p.change d in
      omega (arith, p.answers d i, q.told (λ j. omega (arith, d j, c.fewer j)) i);
  flying = λ d h.
      let c = p.change d in
      let l = p.lighter d in
      q.flying (λ j. omega (arith, d j, c.fewer j)) (omega (arith, h, l.fewer, l.limit));
}

Moves-if : {r x y : Run} (b : Bool) → Moves r x → Moves r y → Moves r (if b then x else y)
Moves-if true p q = p
Moves-if false p q = q

-- A control request may always fly, another where there is room.
abbrev HasRoom : Machine → Pending → Type 0
HasRoom m p = (is_control p ≡ true) ⊎ (flights m.pending + 1 ≤ m.config.max_in_flight_transactions)

eligible-HasRoom : (m : Machine) (p : Pending) → eligible m p ≡ true → HasRoom m p
unfolding eligible in_flight_count flights
eligible-HasRoom m p h = elim (Bool-cases (is_control p)) [
  | inl special ↦ inl special
  | inr plain ↦ inr (ground (arith, plain, h))
]

-- The request `p` goes out in place of `q`.
module _ (r : Run) (i : ℕ) (q p : Pending) (here : get_elem? r.m.pending i ≡ some q) where
  module _ (id : p.request_id ≡ q.request_id) (size : p.bytes ≡ q.bytes)
      (kind : p.control ≡ q.control) where
    unfoldable sent : Pending
    sent = record p { sent = true; may_have_executed = true }

    transmit-Balanced : Balanced (ledger r) → Balanced (ledger (transmit i p r))
    unfolding transmit push update sent
    transmit-Balanced b = record {
      retained =
          ground
            (arith, b.retained, kind, size, sum_where-set_at is_ordinary sent r.m.pending i here);
      messages =
          ground (arith, b.messages, kind, count_where-set_at is_control sent r.m.pending i here);
      bytes =
          ground (arith, b.bytes, kind, size, sum_where-set_at is_control sent r.m.pending i here);
    }

    transmit-Change : AreDistinct r.m.pending → Change (ledger r) (ledger (transmit i p r))
    unfolding transmit push update sent waiting unexecuted ordinary
    transmit-Change d = record {
      tally = λ j. ground (
        arith,
        id,
        count_where-set_at (has_id j) sent r.m.pending i here,
        count_effects-push (settles j) r.out
            (Effect.send_message r.m.generation p.request_id p.message),
      );
      fewer = λ j. ground (arith, id, count_where-set_at (has_id j) sent r.m.pending i here);
      books = λ b.
          let c = transmit-Balanced b in
          record { retained = c.retained; messages = c.messages; bytes = c.bytes };
      shrinks = ground (arith, kind, count_where-set_at is_ordinary sent r.m.pending i here);
      blame = λ j. ground (
        arith,
        id,
        count_where-set_at (is_unexecuted j) sent r.m.pending i here,
        count_effects-push (absolves j) r.out
            (Effect.send_message r.m.generation p.request_id p.message),
      );
      marks = λ j before h.
          rw
            (was_sent-push j before r.out
              (Effect.send_message r.m.generation p.request_id p.message))
            (ground (
              arith,
              id,
              h,
              d j,
              count_where-set_at (is_unexecuted j) sent r.m.pending i here,
              count_where-set_at (has_id j) sent r.m.pending i here,
              count_where-set_at (is_executed j) sent r.m.pending i here,
              count_where-get (is_executed j) r.m.pending i here,
              waiting_split j r.m.pending,
              waiting_split j (set_at i sent r.m.pending),
            ));
    }

    transmit-Moves : HasRoom r.m p → Moves r (transmit i p r)
    unfolding transmit push update flights sent
    transmit-Moves room = record {
      change = λ d. unfold transmit push update in transmit-Change d;
      told = λ d j. ground (
        arith,
        count_effects-push (replies j) r.out
            (Effect.send_message r.m.generation p.request_id p.message),
      );
      flying = λ d h.
          ground (arith, h, kind, room, count_where-set_at in_flight sent r.m.pending i here);
    }

-- The request chosen, under a sequence or without a new one.
transmit_fresh-Moves :
    (next : Option ℕ) (r : Run) (i : ℕ) (p : Pending)
    → get_elem? r.m.pending i ≡ some p
    → HasRoom r.m p
    → Moves r (transmit_fresh next i p r)
unfolding transmit_fresh update flights
transmit_fresh-Moves none r i p here room =
    Moves-Kept (fail_terminal-Kept SessionError.transition_limit r)
transmit_fresh-Moves (some next) r i p here room =
    Moves-after (transmit-Moves _ i p (sequenced _ p) here refl refl refl room)
      (Kept-update (after_sequence (max next 1)) r (λ m. refl))

transmit_at-Moves :
    (r : Run) (i : ℕ) (p : Pending)
    → get_elem? r.m.pending i ≡ some p
    → HasRoom r.m p
    → Moves r (transmit_at (i, p) r)
unfolding transmit_at
transmit_at-Moves r i p here room =
    Moves-if _ (transmit_fresh-Moves r.m.next_outbound r i p here room)
      (transmit-Moves r i p p here refl refl refl room)

picked_there :
    (ps : List Pending) {i : ℕ} {p : Pending}
    → (◌≡◌ {A = Option (ℕ × Pending)} none (some (i, p)))
      ⊎ ((0 ≤ i) × (get_elem? ps (i - 0) ≡ some p))
    → get_elem? ps i ≡ some p
picked_there ps (inl e) = cc
picked_there ps {i} (inr (h, e)) = let same : i - 0 ≡ i = omega arith in (rw same at e)

chosen_room :
    (m : Machine) {i : ℕ} {p : Pending}
    → (◌≡◌ {A = Option (ℕ × Pending)} none (some (i, p))) ⊎ (eligible m p ≡ true)
    → HasRoom m p
chosen_room m (inl e) = cc
chosen_room m {p = p} (inr h) = eligible-HasRoom m p h

dispatch_chosen-Moves : (r : Run) → Moves r (dispatch_chosen r)
unfolding dispatch_chosen
dispatch_chosen-Moves r = elim (Option-cases (pick (eligible r.m) 0 r.m.pending none)) [
  | inl nobody ↦ rw (nobody, dispatch_chosen) (Moves-Kept (Kept-refl r))
  | inr ((i, p), found) ↦
      rw (found, dispatch_chosen)
        (transmit_at-Moves r i p
          (picked_there r.m.pending (pick-get (eligible r.m) 0 r.m.pending none found))
          (chosen_room r.m (pick-test (eligible r.m) 0 r.m.pending none found)))
]

dispatch_message-Moves : (r : Run) → Moves r (dispatch_message r)
unfolding dispatch_message
dispatch_message-Moves r =
    Moves-if _
      (Moves-Kept
        (Kept-if _ (fault-Kept SessionError.renewal _ ◂ Kept-update _ r (λ m. refl)) (Kept-refl r)))
      (dispatch_chosen-Moves r)

dispatch_controls-Moves : (cs : List Control) (r : Run) → Moves r (dispatch_controls cs r)
unfolding dispatch_controls
dispatch_controls-Moves [] r = Moves-if _ (dispatch_message-Moves r) (Moves-Kept (Kept-refl r))
dispatch_controls-Moves (c ∷ cs) r =
    Moves-Kept
      (Kept-push _ (Effect.send_control r.m.generation c) refl ◂ Kept-update _ r (λ m. refl))

pub dispatch-Moves : (r : Run) → Moves r (dispatch r)
unfolding dispatch
dispatch-Moves r = Moves-if _ (Moves-Kept (Kept-refl r)) (dispatch_controls-Moves r.m.controls r)
