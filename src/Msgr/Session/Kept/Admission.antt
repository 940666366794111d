-- ===== src/Msgr/Session/Kept/Admission.antt =====
-- Admission: the request joins the queue within the limits, or it is refused.
use rados_rs.Common.{
  ℕ, ◌+◌, ◌≡◌, refl, arith, Bool, true, false, none, List, [], ◌∷◌, ◌++◌, length, ◌==◌,
  if◌then◌else◌,
}
use rados_rs.Msgr.Message.{Message}
use rados_rs.Msgr.Session.State.{SessionError, Effect, Pending, Run, push, update}
use rados_rs.Msgr.Session.Queue.{in_flight, find_pending, count_where, is_control}
use rados_rs.Msgr.Session.Requests.{is_saturated, request, enqueue, refuse}
use rados_rs.Msgr.Session.Sends.{was_sent-push}
use rados_rs.Msgr.Session.Ledger.{
  unexecuted-le-waiting, has_id, is_unexecuted, waiting, unexecuted, sum_where, settles, absolves,
  replies, count_effects-push,
}
use rados_rs.Msgr.Session.Kept.{flights, ledger, is_ordinary, ordinary, Balanced, AreDistinct, Kept}
use rados_rs.Msgr.Session.Kept.Transition.{IsBounded, Transition, Advances}

-- One admission of `id`.
unfoldable pub one : ℕ → ℕ → ℕ
one id i = if id == i then 1 else 0

refuse-Transition :
    (id : ℕ) (error : SessionError) {r s : Run}
    → Kept r s
    → AreDistinct r.m.pending
    → Transition (one id) (ledger r) (ledger (refuse id error s))
unfolding one refuse push
refuse-Transition id error {r} {s} p d =
    let c = p.change d in
    record {
      tally = λ i.
          ground (arith, c.tally i, count_effects-push (settles i) s.out (Effect.failed id error));
      distinct = λ e i. omega (arith, e i, c.fewer i);
      books = λ b.
          let k = c.books b in
          record { retained = k.retained; messages = k.messages; bytes = k.bytes };
      bounded = λ b h. record {
        queued = omega (arith, h.queued, c.shrinks);
        retained = omega (arith, h.retained, c.shrinks);
        messages = omega (arith, h.messages, c.shrinks);
        bytes = omega (arith, h.bytes, c.shrinks);
      };
      blame = λ i.
          ground (arith, c.blame i, count_effects-push (absolves i) s.out (Effect.failed id error));
      marks =
          λ i sent h. rw (was_sent-push i sent s.out (Effect.failed id error)) (c.marks i sent h);
      told = λ i.
          ground
            (arith, p.answers d i, count_effects-push (replies i) s.out (Effect.failed id error));
      flying = λ h. let l = p.lighter d in omega (arith, h, l.fewer, l.limit);
      later = omega (arith, c.shrinks);
    }

pub refuse-Advances :
    (id : ℕ) (error : SessionError) {r s : Run} → Kept r s → Advances (one id) r (refuse id error s)
refuse-Advances id error p = record { transition = refuse-Transition id error p }

module _ (test : Pending → Bool) where
  count_where-append :
      (ps : List Pending) (p : Pending)
      → count_where test (ps ++ (p ∷ [])) ≡ count_where test ps + (if test p then 1 else 0)
  unfolding count_where
  count_where-append [] p = ground arith
  count_where-append (q ∷ ps) p = ground (arith, count_where-append ps p)

  sum_where-append :
      (ps : List Pending) (p : Pending)
      → sum_where test (ps ++ (p ∷ [])) ≡ sum_where test ps + (if test p then p.bytes else 0)
  unfolding sum_where
  sum_where-append [] p = ground arith
  sum_where-append (q ∷ ps) p = ground (arith, sum_where-append ps p)

length-kinds : (ps : List Pending) → length ps ≡ count_where is_control ps + ordinary ps
unfolding count_where ordinary
length-kinds [] = refl
length-kinds (p ∷ ps) = ground (arith, length-kinds ps)

absent_lem : (i : ℕ) (ps : List Pending) → find_pending i ps ≡ none → waiting i ps ≡ 0
unfolding find_pending waiting count_where
absent_lem i [] e = refl
absent_lem i (p ∷ ps) e = ground (arith, absent_lem i ps)

module _ (id : ℕ) (msg : Message) (one_way : Bool) (bytes t : ℕ) (r : Run) where
  enqueue-IsBounded :
      (control : Bool)
      → is_saturated control bytes r.m ≡ false
      → Balanced (ledger r)
      → IsBounded (ledger r)
      → IsBounded (ledger (enqueue id msg one_way control bytes t r))
  unfolding enqueue push update is_saturated ordinary
  enqueue-IsBounded true room b h = record {
    queued = ground (
      arith,
      h.queued,
      count_where-append is_ordinary r.m.pending (request id msg one_way true bytes t r.m),
    );
    retained = h.retained;
    messages = ground (arith, h.messages, room);
    bytes = ground (arith, h.bytes, room);
  }
  enqueue-IsBounded false room b h = record {
    queued = ground (
      arith,
      h.queued,
      b.messages,
      length-kinds r.m.pending,
      count_where-append is_ordinary r.m.pending (request id msg one_way false bytes t r.m),
      room,
    );
    retained = ground (arith, h.retained, room);
    messages = h.messages;
    bytes = h.bytes;
  }

  enqueue-Balanced :
      (control : Bool)
      → Balanced (ledger r)
      → Balanced (ledger (enqueue id msg one_way control bytes t r))
  unfolding enqueue push update
  enqueue-Balanced true b = record {
    retained = ground (
      arith,
      b.retained,
      sum_where-append is_ordinary r.m.pending (request id msg one_way true bytes t r.m),
    );
    messages = ground (
      arith,
      b.messages,
      count_where-append is_control r.m.pending (request id msg one_way true bytes t r.m),
    );
    bytes = ground (
      arith,
      b.bytes,
      sum_where-append is_control r.m.pending (request id msg one_way true bytes t r.m),
    );
  }
  enqueue-Balanced false b = record {
    retained = ground (
      arith,
      b.retained,
      sum_where-append is_ordinary r.m.pending (request id msg one_way false bytes t r.m),
    );
    messages = ground (
      arith,
      b.messages,
      count_where-append is_control r.m.pending (request id msg one_way false bytes t r.m),
    );
    bytes = ground (
      arith,
      b.bytes,
      sum_where-append is_control r.m.pending (request id msg one_way false bytes t r.m),
    );
  }

  module _ (control : Bool) (room : is_saturated control bytes r.m ≡ false)
      (fresh : find_pending id r.m.pending ≡ none) where
    enqueue-Transition :
        Transition (one id) (ledger r) (ledger (enqueue id msg one_way control bytes t r))
    unfolding enqueue push update one waiting unexecuted flights
    enqueue-Transition = record {
      tally = λ i. ground (
        arith,
        count_where-append (has_id i) r.m.pending (request id msg one_way control bytes t r.m),
        count_effects-push (settles i) r.out (Effect.admitted id t),
      );
      distinct = λ d i. ground (
        arith,
        d i,
        count_where-append (has_id i) r.m.pending (request id msg one_way control bytes t r.m),
        absent_lem id r.m.pending fresh,
      );
      books = λ b.
          let c = enqueue-Balanced control b in
          record { retained = c.retained; messages = c.messages; bytes = c.bytes };
      bounded = λ b h.
          let c = enqueue-IsBounded control room b h in
          record {
            queued = c.queued;
            retained = c.retained;
            messages = c.messages;
            bytes = c.bytes;
          };
      blame = λ i. ground (
        arith,
        count_where-append (is_unexecuted i) r.m.pending
            (request id msg one_way control bytes t r.m),
        count_effects-push (absolves i) r.out (Effect.admitted id t),
      );
      marks = λ i sent h. rw (was_sent-push i sent r.out (Effect.admitted id t)) (
          ground (
            arith,
            h,
            absent_lem id r.m.pending fresh,
            count_where-append (has_id i) r.m.pending (request id msg one_way control bytes t r.m),
            count_where-append (is_unexecuted i) r.m.pending
                (request id msg one_way control bytes t r.m),
            unexecuted-le-waiting i r.m.pending,
          ));
      told = λ i. ground (arith, count_effects-push (replies i) r.out (Effect.admitted id t));
      flying = λ h. ground (
        arith,
        h,
        count_where-append in_flight r.m.pending (request id msg one_way control bytes t r.m),
      );
      later = omega arith;
    }

    pub enqueue-Advances : Advances (one id) r (enqueue id msg one_way control bytes t r)
    enqueue-Advances = record { transition = λ d. enqueue-Transition }
