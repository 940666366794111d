-- ===== src/Msgr/Session/Kept/Transition.antt =====
-- What one input may change: `extra i` counts how often it admits request `i`.
use rados_rs.Common.{ℕ, ◌+◌, ◌≤◌, ◌≡◌, arith, Bool, true, false, if◌then◌else◌}
use rados_rs.Msgr.Session.State.{Run}
use rados_rs.Msgr.Session.Requests.{max_control_messages, max_control_bytes}
use rados_rs.Msgr.Session.Ledger.{
  waiting, unexecuted, answerable, count_effects, settles, absolves, replies,
}
use rados_rs.Msgr.Session.Kept.{flights, Ledger, ledger, ordinary, Agrees, Balanced, AreDistinct}
use rados_rs.Msgr.Session.Kept.Dispatch.{Moves}

-- The queue and the accounts stay within their limits.
pub record IsBounded (l : Ledger) : Type 0 where
  pub queued : ordinary l.pending ≤ l.max_queued_messages
  pub retained : l.retained_bytes ≤ l.max_retained_bytes
  pub messages : l.control_messages ≤ max_control_messages
  pub bytes : l.control_bytes ≤ max_control_bytes

pub record Transition (extra : ℕ → ℕ) (a b : Ledger) : Type 0 where
  pub tally :
      (i : ℕ)
      → waiting i b.pending + count_effects (settles i) b.out
        ≡ waiting i a.pending + count_effects (settles i) a.out + extra i
  pub distinct : AreDistinct a.pending → AreDistinct b.pending
  pub books : Balanced a → Balanced b
  pub bounded : Balanced a → IsBounded a → IsBounded b
  pub blame :
      (i : ℕ)
      → count_effects (absolves i) b.out + unexecuted i b.pending
        ≤ count_effects (absolves i) a.out + unexecuted i a.pending + extra i
  pub marks : (i : ℕ) (sent : Bool) → Agrees i sent a → Agrees i sent b
  pub told :
      (i : ℕ)
      → count_effects (replies i) b.out ≤ count_effects (replies i) a.out + answerable i a.pending
  pub flying :
      flights a.pending ≤ a.max_in_flight_transactions
      → flights b.pending ≤ b.max_in_flight_transactions
  pub later : a.generation ≤ b.generation

unfoldable pub nothing : ℕ → ℕ
nothing i = 0

Moves-Transition :
    {r s : Run} → Moves r s → AreDistinct r.m.pending → Transition nothing (ledger r) (ledger s)
unfolding nothing
Moves-Transition p d =
    let c = p.change d in
    record {
      tally = λ i. omega (arith, c.tally i);
      distinct = λ e i. omega (arith, e i, c.fewer i);
      books = c.books;
      bounded = λ b h. record {
        queued = omega (arith, h.queued, c.shrinks);
        retained = omega (arith, h.retained, c.shrinks);
        messages = omega (arith, h.messages, c.shrinks);
        bytes = omega (arith, h.bytes, c.shrinks);
      };
      blame = λ i. omega (arith, c.blame i);
      marks = c.marks;
      told = p.told d;
      flying = p.flying d;
      later = omega (arith, c.shrinks);
    }

-- The same of runs whose requests have different ids at the start.
pub record Advances (extra : ℕ → ℕ) (r s : Run) : Type 0 where
  pub transition : AreDistinct r.m.pending → Transition extra (ledger r) (ledger s)

pub Advances-Moves : {r s : Run} → Moves r s → Advances nothing r s
Advances-Moves p = record { transition = Moves-Transition p }

pub Advances-if :
    {e : ℕ → ℕ} {r x y : Run} (b : Bool)
    → Advances e r x
    → Advances e r y
    → Advances e r (if b then x else y)
Advances-if true p q = p
Advances-if false p q = q
