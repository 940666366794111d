-- ===== src/Msgr/Session/Sends.antt =====
-- The requests whose messages went out, read off the effects of the session in src/msgr/session.rs.
use rados_rs.Common.{
  ℕ, zero, suc, ◌+◌, ◌≤◌, ◌≡◌, refl, arith, Bool, not, ◌&&◌, ◌||◌, some, List, [], ◌∷◌, ◌++◌,
  get_elem?, ◌==◌, if◌then◌else◌,
}
use rados_rs.Msgr.Session.State.{Pending, Effect}
use rados_rs.Msgr.Session.Queue.{count_where}
use rados_rs.Msgr.Session.Ledger.{has_id, waiting, unexecuted, answerable}

-- Request `i` counts as sent once its message goes out, until it is admitted anew.
abbrev pub mark : ℕ → Effect → Bool → Bool
mark i (Effect.send_message _ j _) sent = j == i || sent
mark i (Effect.admitted j _) sent = not (j == i) && sent
mark i _ sent = sent

-- The same after all effects, from whether it counted as sent before them.
unfoldable pub was_sent : ℕ → Bool → List Effect → Bool
was_sent i sent [] = sent
was_sent i sent (e ∷ es) = was_sent i (mark i e sent) es

pub was_sent-append :
    (i : ℕ) (sent : Bool) (xs ys : List Effect)
    → was_sent i sent (xs ++ ys) ≡ was_sent i (was_sent i sent xs) ys
unfolding was_sent
was_sent-append i sent [] ys = refl
was_sent-append i sent (x ∷ xs) ys = was_sent-append i (mark i x sent) xs ys

pub was_sent-push :
    (i : ℕ) (sent : Bool) (xs : List Effect) (e : Effect)
    → was_sent i sent (xs ++ (e ∷ [])) ≡ mark i e (was_sent i sent xs)
unfolding was_sent
was_sent-push i sent xs e = was_sent-append i sent xs (e ∷ [])

abbrev pub is_executed : ℕ → Pending → Bool
is_executed i p = has_id i p && p.may_have_executed

pub waiting_split :
    (i : ℕ) (ps : List Pending) → waiting i ps ≡ unexecuted i ps + count_where (is_executed i) ps
unfolding waiting unexecuted count_where
waiting_split i [] = refl
waiting_split i (p ∷ ps) = ground (arith, waiting_split i ps)

pub count_where-get :
    (test : Pending → Bool) (ps : List Pending) (k : ℕ) {p : Pending}
    → get_elem? ps k ≡ some p
    → (if test p then 1 else 0) ≤ count_where test ps
unfolding count_where
count_where-get test [] k e = cc
count_where-get test (x ∷ ps) zero e = ground arith
count_where-get test (x ∷ ps) (suc k) {p} e = ground (arith, count_where-get test ps k {p = p})

-- The requests of an id that want a reply.
abbrev pub is_two_way : ℕ → Pending → Bool
is_two_way i p = has_id i p && not p.one_way

unfoldable pub two_way : ℕ → List Pending → ℕ
two_way i ps = count_where (is_two_way i) ps

pub answerable-le-two_way : (i : ℕ) (ps : List Pending) → answerable i ps ≤ two_way i ps
unfolding answerable two_way count_where
answerable-le-two_way i [] = omega arith
answerable-le-two_way i (p ∷ ps) = ground (arith, answerable-le-two_way i ps)

pub answerable-le-executed :
    (i : ℕ) (ps : List Pending) → answerable i ps + unexecuted i ps ≤ waiting i ps
unfolding answerable unexecuted waiting count_where
answerable-le-executed i [] = omega arith
answerable-le-executed i (p ∷ ps) = ground (arith, answerable-le-executed i ps)
