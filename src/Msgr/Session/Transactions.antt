-- ===== src/Msgr/Session/Transactions.antt =====
-- `take_transaction_id` of src/msgr/session.rs, which looks for a free transaction.
use Prim.Native.Nat.{max}
use rados_rs.Common.{
  ℕ, zero, suc, ◌+◌, ◌≤◌, ◌<◌, ◌≡◌, refl, sym, arith, true, inl, inr, Option, none, some, List, [],
  ◌∷◌, length, leb, ◌==◌, is_some, if◌then◌else◌, Bool-cases, Option-cases, u64_max,
}
use rados_rs.Msgr.Session.Queue.{lookup_transaction}
use rados_rs.Msgr.Session.Requests.{take_transaction_id, transaction_fuel}

-- The transactions from `n` on.
keys_from : ℕ → List (ℕ × ℕ) → ℕ
keys_from n [] = 0
keys_from n ((k, v) ∷ rest) =
    let others = keys_from n rest in if leb n k then suc others else others

keys_from-length : (n : ℕ) (entries : List (ℕ × ℕ)) → keys_from n entries ≤ length entries
unfolding keys_from
keys_from-length n [] = omega arith
keys_from-length n ((k, v) ∷ rest) = ground (arith, keys_from-length n rest)

keys_from-later : (n : ℕ) (entries : List (ℕ × ℕ)) → keys_from (n + 1) entries ≤ keys_from n entries
unfolding keys_from
keys_from-later n [] = omega arith
keys_from-later n ((k, v) ∷ rest) = ground (arith, keys_from-later n rest)

keys_from-used :
    (n : ℕ) (entries : List (ℕ × ℕ))
    → is_some (lookup_transaction n entries) ≡ true
    → keys_from (n + 1) entries + 1 ≤ keys_from n entries
unfolding keys_from lookup_transaction
keys_from-used n [] h = cc
keys_from-used n ((k, v) ∷ rest) h = elim (Bool-cases (k == n)) [
  | inl same ↦ ground (arith, same, keys_from-later n rest)
  | inr other ↦ ground (arith, other, keys_from-used n rest (rw other at h))
]

next_room :
    (fuel : ℕ) (entries : List (ℕ × ℕ)) (n : ℕ)
    → is_some (lookup_transaction (max n 1) entries) ≡ true
    → keys_from (max n 1) entries < suc fuel
    → keys_from (max (max n 1 + 1) 1) entries < fuel
next_room fuel entries n used h =
    let one_up : max (max n 1 + 1) 1 ≡ max n 1 + 1 = omega arith in
    rw one_up (omega (arith, h, keys_from-used (max n 1) entries used))

take-total :
    (fuel : ℕ) (entries : List (ℕ × ℕ)) (n : ℕ)
    → keys_from (max n 1) entries < fuel
    → is_some (take_transaction_id fuel entries (some n)) ≡ true
unfolding take_transaction_id
take-total zero entries n h = absurd (omega arith)
take-total (suc fuel) entries n h =
    elim (Bool-cases (is_some (lookup_transaction (max n 1) entries))) [
      | inl used ↦ rw used (elim (Bool-cases (max n 1 == u64_max)) [
        | inl last ↦ rw last refl
        | inr more ↦
            rw more (take-total fuel entries (max n 1 + 1) (next_room fuel entries n used h))
      ])
      | inr free ↦ rw free refl
    ]

-- The search for a free transaction gives a result within one round more than there are transactions.
pub take_transaction_id-total :
    (entries : List (ℕ × ℕ)) (next : Option ℕ)
    → is_some (take_transaction_id (transaction_fuel entries) entries next) ≡ true
unfolding take_transaction_id
take_transaction_id-total entries none = refl
take_transaction_id-total entries (some n) =
    take-total (transaction_fuel entries) entries n
      (omega (arith, keys_from-length (max n 1) entries))

-- A transaction that the search gives is not in use, and is not 0.
pub take_transaction_id-free :
    (fuel : ℕ) (entries : List (ℕ × ℕ)) (next : Option ℕ) {id : ℕ} {rest : Option ℕ}
    → take_transaction_id fuel entries next ≡ some (some id, rest)
    → (lookup_transaction id entries ≡ none) × (1 ≤ id)
unfolding take_transaction_id
take_transaction_id-free fuel entries none e = cc
take_transaction_id-free zero entries (some n) e = cc
take_transaction_id-free (suc fuel) entries (some n) {id} {rest} e =
    elim (Option-cases (lookup_transaction (max n 1) entries)) [
      | inl free ↦
          let found : ◌≡◌ {A = Option (Option ℕ × Option ℕ)}
              (some (some (max n 1), if max n 1 == u64_max then none else some (max n 1 + 1)))
              (some (some id, rest)) =
            (rw free at e) in
          let same : max n 1 ≡ id = cc in (rw (sym same) free, omega arith)
      | inr (k, used) ↦ take_transaction_id-free fuel entries _ (rw used at e)
    ]
