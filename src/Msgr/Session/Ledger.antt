-- ===== src/Msgr/Session/Ledger.antt =====
-- Counting requests and effects of the session, and how the operations of the queue change the counts.
use rados_rs.Common.{
  ap, sym, ℕ, zero, suc, ◌+◌, ◌-◌, ◌≤◌, ◌≡◌, refl, ◌∙◌, arith, Bool, true, false, not, ◌&&◌, Option,
  some, List, [], ◌∷◌, ◌++◌, map, get_elem?, ◌==◌, if◌then◌else◌, Bool-cases, inl, inr, ◌⊎◌,
}
use rados_rs.Msgr.Session.State.{Pending, Effect, SessionError}
use rados_rs.Msgr.Session.Queue.{
  in_flight, find_pending, remove_first, count_where, mark_unsent, mark_all_unsent, set_at, pick,
  improves,
}
use rados_rs.Msgr.Session.Failing.{is_outcome_unknown, failure}

abbrev pub has_id : ℕ → Pending → Bool
has_id i p = p.request_id == i

-- A request that cannot have executed yet.
abbrev pub is_unexecuted : ℕ → Pending → Bool
is_unexecuted i p = has_id i p && not p.may_have_executed

unfoldable pub waiting : ℕ → List Pending → ℕ
waiting i ps = count_where (has_id i) ps

unfoldable pub unexecuted : ℕ → List Pending → ℕ
unexecuted i ps = count_where (is_unexecuted i) ps

-- A request that has been sent and has a reply to come.
abbrev pub is_answerable : ℕ → Pending → Bool
is_answerable i p = has_id i p && (p.may_have_executed && not p.one_way)

unfoldable pub answerable : ℕ → List Pending → ℕ
answerable i ps = count_where (is_answerable i) ps

-- The bytes of the requests that pass a test.
unfoldable pub sum_where : (Pending → Bool) → List Pending → ℕ
sum_where test [] = 0
sum_where test (p ∷ ps) = let rest = sum_where test ps in if test p then p.bytes + rest else rest

unfoldable pub count_effects : (Effect → Bool) → List Effect → ℕ
count_effects test [] = 0
count_effects test (e ∷ es) = let rest = count_effects test es in if test e then suc rest else rest

-- An effect that ends request `i`.
abbrev pub settles : ℕ → Effect → Bool
settles i (Effect.completed j _) = j == i
settles i (Effect.failed j _) = j == i
settles i _ = false

-- An effect by which request `i` is said not to have executed.
abbrev pub absolves : ℕ → Effect → Bool
absolves i (Effect.failed j error) = j == i && not (is_outcome_unknown error)
absolves i _ = false

-- An effect by which request `i` gets a reply.
abbrev pub replies : ℕ → Effect → Bool
replies i (Effect.completed j (some _)) = j == i
replies i _ = false

module _ (test : Effect → Bool) where
  pub count_effects-append :
      (xs ys : List Effect)
      → count_effects test (xs ++ ys) ≡ count_effects test xs + count_effects test ys
  unfolding count_effects
  count_effects-append [] ys = omega arith
  count_effects-append (x ∷ xs) ys = ground (arith, count_effects-append xs ys)

  pub count_effects-push :
      (xs : List Effect) (e : Effect)
      → count_effects test (xs ++ (e ∷ [])) ≡ count_effects test xs + (if test e then 1 else 0)
  unfolding count_effects
  count_effects-push xs e = ground (arith, count_effects-append xs (e ∷ []))

pub find_pending_id :
    (i : ℕ) (ps : List Pending) {p : Pending} → find_pending i ps ≡ some p → p.request_id ≡ i
unfolding find_pending
find_pending_id i [] e = cc
find_pending_id i (q ∷ ps) {p} e = ground (arith, find_pending_id i ps {p = p})

-- Taking out the request that is found takes one from each count that it is in.
module _ (test : Pending → Bool) (i : ℕ) where
  pub count_where-remove_first :
      (ps : List Pending) {p : Pending}
      → find_pending i ps ≡ some p
      → count_where test ps ≡ count_where test (remove_first i ps) + (if test p then 1 else 0)
  unfolding find_pending count_where remove_first
  count_where-remove_first [] e = cc
  count_where-remove_first (q ∷ ps) {p} e = elim (Bool-cases (q.request_id == i)) [
    | inl here ↦ ground arith
    | inr further ↦ ground (arith, count_where-remove_first ps {p = p})
  ]

  pub sum_where-remove_first :
      (ps : List Pending) {p : Pending}
      → find_pending i ps ≡ some p
      → sum_where test ps ≡ sum_where test (remove_first i ps) + (if test p then p.bytes else 0)
  unfolding find_pending sum_where remove_first
  sum_where-remove_first [] e = cc
  sum_where-remove_first (q ∷ ps) {p} e = elim (Bool-cases (q.request_id == i)) [
    | inl here ↦ ground arith
    | inr further ↦ ground (arith, sum_where-remove_first ps {p = p})
  ]

-- A request that waits is found.
pub find_pending-waiting :
    (i : ℕ) (ps : List Pending) → 1 ≤ waiting i ps → (p : Pending) × (find_pending i ps ≡ some p)
unfolding find_pending waiting count_where
find_pending-waiting i [] h = absurd (omega arith)
find_pending-waiting i (q ∷ ps) h = elim (Bool-cases (q.request_id == i)) [
  | inl here ↦ (q, rw here)
  | inr further ↦ rw further (find_pending-waiting i ps (rw further at h))
]

pub unexecuted-le-waiting : (i : ℕ) (ps : List Pending) → unexecuted i ps ≤ waiting i ps
unfolding unexecuted waiting count_where
unexecuted-le-waiting i [] = omega arith
unexecuted-le-waiting i (p ∷ ps) = ground (arith, unexecuted-le-waiting i ps)

-- Failing every request settles each once, and absolves only what cannot have executed.
module _ (i : ℕ) (error : SessionError) where
  pub settles-fail_all :
      (ps : List Pending) → count_effects (settles i) (map (failure error) ps) ≡ waiting i ps
  unfolding count_effects waiting count_where failure
  settles-fail_all [] = refl
  settles-fail_all (p ∷ ps) = ground (arith, settles-fail_all ps)

  pub absolves-fail_all :
      (ps : List Pending) → count_effects (absolves i) (map (failure error) ps) ≤ unexecuted i ps
  unfolding count_effects unexecuted count_where failure
  absolves-fail_all [] = omega arith
  absolves-fail_all (p ∷ ps) = ground (arith, absolves-fail_all ps)

  pub replies-fail_all :
      (ps : List Pending) → count_effects (replies i) (map (failure error) ps) ≡ 0
  unfolding count_effects failure
  replies-fail_all [] = refl
  replies-fail_all (p ∷ ps) = ground (arith, replies-fail_all ps)

-- Marking requests as unsent changes no count but that of the sent ones.
module _ (test : Pending → Bool)
    (blind : (p : Pending) → test (record p { sent = false }) ≡ test p) where
  count_where-mark_unsent :
      (i : ℕ) (ps : List Pending) → count_where test (mark_unsent i ps) ≡ count_where test ps
  unfolding count_where mark_unsent
  count_where-mark_unsent i [] = refl
  count_where-mark_unsent i (p ∷ ps) = ground (arith, blind p, count_where-mark_unsent i ps)

  sum_where-mark_unsent :
      (i : ℕ) (ps : List Pending) → sum_where test (mark_unsent i ps) ≡ sum_where test ps
  unfolding sum_where mark_unsent
  sum_where-mark_unsent i [] = refl
  sum_where-mark_unsent i (p ∷ ps) = ground (arith, blind p, sum_where-mark_unsent i ps)

  pub count_where-mark_all_unsent :
      (is : List ℕ) (ps : List Pending)
      → count_where test (mark_all_unsent is ps) ≡ count_where test ps
  unfolding mark_all_unsent
  count_where-mark_all_unsent [] ps = refl
  count_where-mark_all_unsent (i ∷ is) ps =
      cc (count_where-mark_all_unsent is (mark_unsent i ps), count_where-mark_unsent i ps)

  pub sum_where-mark_all_unsent :
      (is : List ℕ) (ps : List Pending) → sum_where test (mark_all_unsent is ps) ≡ sum_where test ps
  unfolding mark_all_unsent
  sum_where-mark_all_unsent [] ps = refl
  sum_where-mark_all_unsent (i ∷ is) ps =
      cc (sum_where-mark_all_unsent is (mark_unsent i ps), sum_where-mark_unsent i ps)

in_flight-mark_unsent :
    (i : ℕ) (ps : List Pending)
    → count_where in_flight (mark_unsent i ps) ≤ count_where in_flight ps
unfolding count_where mark_unsent
in_flight-mark_unsent i [] = omega arith
in_flight-mark_unsent i (p ∷ ps) = ground (arith, in_flight-mark_unsent i ps)

pub in_flight-mark_all_unsent :
    (is : List ℕ) (ps : List Pending)
    → count_where in_flight (mark_all_unsent is ps) ≤ count_where in_flight ps
unfolding mark_all_unsent
in_flight-mark_all_unsent [] ps = omega arith
in_flight-mark_all_unsent (i ∷ is) ps =
    omega (arith, in_flight-mark_all_unsent is (mark_unsent i ps), in_flight-mark_unsent i ps)

-- What `pick` finds stands at its index.
get_elem?-offset :
    (q : Pending) (qs : List Pending) (i k : ℕ)
    → k + 1 ≤ i
    → get_elem? (q ∷ qs) (i - k) ≡ get_elem? qs (i - (k + 1))
get_elem?-offset q qs i k h = let e : i - k ≡ suc (i - (k + 1)) = omega arith in rw e

get_elem?-here :
    (q p : Pending) (qs : List Pending) (i k : ℕ)
    → ◌≡◌ {A = Option (ℕ × Pending)} (some (k, q)) (some (i, p))
    → (k ≤ i) × (get_elem? (q ∷ qs) (i - k) ≡ some p)
get_elem?-here q p qs i k e =
    let index : k ≡ i = cc in
    let zero_apart : i - k ≡ 0 = omega arith in (omega arith, rw zero_apart (cc))

pub pick-get :
    (el : Pending → Bool) (k : ℕ) (qs : List Pending) (best : Option (ℕ × Pending)) {i : ℕ}
    {p : Pending}
    → pick el k qs best ≡ some (i, p)
    → (best ≡ some (i, p)) ⊎ ((k ≤ i) × (get_elem? qs (i - k) ≡ some p))
unfolding pick
pick-get el k [] best e = inl e
pick-get el k (q ∷ qs) best {i} {p} e = elim (Bool-cases (el q && improves q best)) [
  | inl better ↦ later better (pick-get el (k + 1) qs _ e)
  | inr worse ↦ same worse (pick-get el (k + 1) qs _ e)
]
  where
    after : Option (ℕ × Pending)
    after = if el q && improves q best then some (k, q) else best

    further :
        (k + 1 ≤ i) × (get_elem? qs (i - (k + 1)) ≡ some p)
        → (best ≡ some (i, p)) ⊎ ((k ≤ i) × (get_elem? (q ∷ qs) (i - k) ≡ some p))
    further (h, g) = inr (omega arith, get_elem?-offset q qs i k h ∙ g)

    later :
        (el q && improves q best) ≡ true
        → (after ≡ some (i, p)) ⊎ ((k + 1 ≤ i) × (get_elem? qs (i - (k + 1)) ≡ some p))
        → (best ≡ some (i, p)) ⊎ ((k ≤ i) × (get_elem? (q ∷ qs) (i - k) ≡ some p))
    later b (inl h) = inr (get_elem?-here q p qs i k (rw b at h))
    later b (inr h) = further h

    same :
        (el q && improves q best) ≡ false
        → (after ≡ some (i, p)) ⊎ ((k + 1 ≤ i) × (get_elem? qs (i - (k + 1)) ≡ some p))
        → (best ≡ some (i, p)) ⊎ ((k ≤ i) × (get_elem? (q ∷ qs) (i - k) ≡ some p))
    same b (inl h) = inl (rw b at h)
    same b (inr h) = further h

-- Writing one element changes a count by the two elements.
module _ (test : Pending → Bool) (q : Pending) where
  pub count_where-set_at :
      (ps : List Pending) (i : ℕ) {p : Pending}
      → get_elem? ps i ≡ some p
      → count_where test (set_at i q ps) + (if test p then 1 else 0)
        ≡ count_where test ps + (if test q then 1 else 0)
  unfolding count_where set_at
  count_where-set_at [] i e = cc
  count_where-set_at (x ∷ ps) zero e = ground arith
  count_where-set_at (x ∷ ps) (suc i) {p} e = ground (arith, count_where-set_at ps i {p = p})

  pub sum_where-set_at :
      (ps : List Pending) (i : ℕ) {p : Pending}
      → get_elem? ps i ≡ some p
      → sum_where test (set_at i q ps) + (if test p then p.bytes else 0)
        ≡ sum_where test ps + (if test q then q.bytes else 0)
  unfolding sum_where set_at
  sum_where-set_at [] i e = cc
  sum_where-set_at (x ∷ ps) zero e = ground arith
  sum_where-set_at (x ∷ ps) (suc i) {p} e = ground (arith, sum_where-set_at ps i {p = p})

-- What `pick` finds passes its test.
pub pick-test :
    (el : Pending → Bool) (k : ℕ) (qs : List Pending) (best : Option (ℕ × Pending)) {i : ℕ}
    {p : Pending}
    → pick el k qs best ≡ some (i, p)
    → (best ≡ some (i, p)) ⊎ (el p ≡ true)
unfolding pick
pick-test el k [] best e = inl e
pick-test el k (q ∷ qs) best {i} {p} e = elim (Bool-cases (el q && improves q best)) [
  | inl better ↦ later better (pick-test el (k + 1) qs (some (k, q)) (rw better at e))
  | inr worse ↦ pick-test el (k + 1) qs best (rw worse at e)
]
  where
    later :
        (el q && improves q best) ≡ true
        → (◌≡◌ {A = Option (ℕ × Pending)} (some (k, q)) (some (i, p))) ⊎ (el p ≡ true)
        → (best ≡ some (i, p)) ⊎ (el p ≡ true)
    later b (inl h) =
        let same : q ≡ p = cc in
        let passes : el q ≡ true = ground (arith, b) in inr (ap el (sym same) ∙ passes)
    later b (inr h) = inr h
