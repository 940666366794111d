-- ===== src/Msgr/Session/Kept.antt =====
-- What the session's methods keep: each request stays in the queue or is settled once, the byte
-- accounts balance, nothing grows, and the generation never falls. Methods that admit or answer
-- requests are not of this kind; they are treated where `step` is.
pub mod Rules
pub mod Each
pub mod Failing
pub mod Handshake
pub mod Connected
pub mod Requests
pub mod Dispatch
pub mod Transition
pub mod Admission
pub mod Admit
use rados_rs.Common.{
  ℕ, ◌+◌, ◌≤◌, ◌≡◌, ◌∙◌, refl, ap, arith, Bool, true, false, not, List, if◌then◌else◌,
}
use rados_rs.Msgr.Session.State.{Pending, Effect, Run}
use rados_rs.Msgr.Session.Queue.{count_where, is_control, in_flight}
use rados_rs.Msgr.Session.Sends.{was_sent}
use rados_rs.Msgr.Session.Ledger.{
  waiting, unexecuted, answerable, sum_where, count_effects, settles, absolves, replies,
}

-- The part of a run that these properties read.
pub record Ledger : Type 0 where
  pub pending : List Pending
  pub out : List Effect
  pub retained_bytes : ℕ
  pub control_messages : ℕ
  pub control_bytes : ℕ
  pub generation : ℕ
  pub max_in_flight_transactions : ℕ
  pub max_queued_messages : ℕ
  pub max_retained_bytes : ℕ

abbrev pub ledger : Run → Ledger
ledger r = record {
  pending = r.m.pending;
  out = r.out;
  retained_bytes = r.m.retained_bytes;
  control_messages = r.m.control_messages;
  control_bytes = r.m.control_bytes;
  generation = r.m.generation;
  max_in_flight_transactions = r.m.config.max_in_flight_transactions;
  max_queued_messages = r.m.config.max_queued_messages;
  max_retained_bytes = r.m.config.max_retained_bytes;
}

abbrev pub is_ordinary : Pending → Bool
is_ordinary p = not (is_control p)

unfoldable pub ordinary : List Pending → ℕ
ordinary ps = count_where is_ordinary ps

-- Whether the requests of an id may have executed agrees with the effects, where `sent` says whether
-- the request counted as sent before them.
abbrev pub Agrees : ℕ → Bool → Ledger → Type 0
Agrees i sent l =
    unexecuted i l.pending ≡ (if was_sent i sent l.out then 0 else waiting i l.pending)

-- The accounts agree with the queue.
pub record Balanced (l : Ledger) : Type 0 where
  pub retained : l.retained_bytes ≡ sum_where is_ordinary l.pending
  pub messages : l.control_messages ≡ count_where is_control l.pending
  pub bytes : l.control_bytes ≡ sum_where is_control l.pending

pub record Shrinks (a b : Ledger) : Type 0 where
  pub retained : b.retained_bytes ≤ a.retained_bytes
  pub messages : b.control_messages ≤ a.control_messages
  pub bytes : b.control_bytes ≤ a.control_bytes
  pub ordinary : ordinary b.pending ≤ ordinary a.pending
  pub generation : a.generation ≤ b.generation
  pub max_queued : b.max_queued_messages ≡ a.max_queued_messages
  pub max_retained : b.max_retained_bytes ≡ a.max_retained_bytes

-- No two requests share an id.
abbrev pub AreDistinct : List Pending → Type 0
AreDistinct ps = (i : ℕ) → waiting i ps ≤ 1

pub record Change (a b : Ledger) : Type 0 where
  -- a request waits, or has been settled
  pub tally :
      (i : ℕ)
      → waiting i b.pending + count_effects (settles i) b.out
        ≡ waiting i a.pending + count_effects (settles i) a.out
  pub fewer : (i : ℕ) → waiting i b.pending ≤ waiting i a.pending
  pub books : Balanced a → Balanced b
  pub shrinks : Shrinks a b
  -- who is said not to have executed could not have
  pub blame :
      (i : ℕ)
      → count_effects (absolves i) b.out + unexecuted i b.pending
        ≤ count_effects (absolves i) a.out + unexecuted i a.pending
  pub marks : (i : ℕ) (sent : Bool) → Agrees i sent a → Agrees i sent b

-- Nothing more is in flight.
unfoldable pub flights : List Pending → ℕ
flights ps = count_where in_flight ps

pub record Lighter (a b : Ledger) : Type 0 where
  pub fewer : flights b.pending ≤ flights a.pending
  pub limit : b.max_in_flight_transactions ≡ a.max_in_flight_transactions

-- The queue's ids are distinct at the start.
pub record Kept (r s : Run) : Type 0 where
  pub change : AreDistinct r.m.pending → Change (ledger r) (ledger s)
  -- who gets a reply was sent, and waits for one
  pub answers :
      AreDistinct r.m.pending
      → (i : ℕ)
      → count_effects (replies i) s.out + answerable i s.m.pending
        ≤ count_effects (replies i) r.out + answerable i r.m.pending
  pub lighter : AreDistinct r.m.pending → Lighter (ledger r) (ledger s)

pub Change-refl : (a : Ledger) → Change a a
Change-refl a = record {
  tally = λ i. refl;
  fewer = λ i. omega arith;
  books = λ b. b;
  shrinks = omega arith;
  blame = λ i. omega arith;
  marks = λ i sent h. h;
}

pub Change-trans : {a b c : Ledger} → Change a b → Change b c → Change a c
Change-trans p q = record {
  tally = λ i. q.tally i ∙ p.tally i;
  fewer = λ i. omega (arith, p.fewer i, q.fewer i);
  books = λ h. q.books (p.books h);
  shrinks = omega (arith, p.shrinks, q.shrinks);
  blame = λ i. omega (arith, p.blame i, q.blame i);
  marks = λ i sent h. q.marks i sent (p.marks i sent h);
}

pub Lighter-refl : (a : Ledger) → Lighter a a
Lighter-refl a = record { fewer = omega arith; limit = refl }

pub Lighter-trans : {a b c : Ledger} → Lighter a b → Lighter b c → Lighter a c
Lighter-trans p q = record { fewer = omega (arith, p.fewer, q.fewer); limit = q.limit ∙ p.limit }
