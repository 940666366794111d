-- ===== src/Msgr/Session/Queue.antt =====
-- The queue of pending requests in src/msgr/session.rs, its transactions and its replay list.
use rados_rs.Common.{
  ℕ, zero, suc, ◌+◌, ◌-◌, Bool, true, false, not, ◌&&◌, ◌||◌, Option, none, some, List, [], ◌∷◌,
  ltb, ◌==◌, is_some, if◌then◌else◌,
}
use rados_rs.Msgr.Session.State.{Pending, Machine}

-- `pending(request_id)`: the first with that id.
unfoldable pub find_pending : ℕ → List Pending → Option Pending
find_pending id [] = none
find_pending id (p ∷ ps) = if p.request_id == id then some p else find_pending id ps

-- The list without the first request of that id.
unfoldable pub remove_first : ℕ → List Pending → List Pending
remove_first id [] = []
remove_first id (p ∷ ps) =
    let rest = remove_first id ps in if p.request_id == id then ps else p ∷ rest

unfoldable pub select : (Pending → Bool) → List Pending → List Pending
select keep [] = []
select keep (p ∷ ps) = let rest = select keep ps in if keep p then p ∷ rest else rest

unfoldable pub count_where : (Pending → Bool) → List Pending → ℕ
count_where test [] = 0
count_where test (p ∷ ps) = let rest = count_where test ps in if test p then suc rest else rest

-- `replay.retain(|candidate| candidate != request_id)`
unfoldable pub without : ℕ → List ℕ → List ℕ
without id [] = []
without id (x ∷ xs) = let rest = without id xs in if x == id then rest else x ∷ rest

unfoldable pub contains : ℕ → List ℕ → Bool
contains id [] = false
contains id (x ∷ xs) = x == id || contains id xs

unfoldable pub lookup_transaction : ℕ → List (ℕ × ℕ) → Option ℕ
lookup_transaction t [] = none
lookup_transaction t ((k, id) ∷ rest) = if k == t then some id else lookup_transaction t rest

unfoldable pub remove_transaction : ℕ → List (ℕ × ℕ) → List (ℕ × ℕ)
remove_transaction t [] = []
remove_transaction t ((k, id) ∷ rest) =
    let kept = remove_transaction t rest in if k == t then kept else (k, id) ∷ kept

-- `insert` replaces what was under the key.
unfoldable pub insert_transaction : ℕ → ℕ → List (ℕ × ℕ) → List (ℕ × ℕ)
unfolding remove_transaction
insert_transaction t id entries = (t, id) ∷ remove_transaction t entries

abbrev pub is_control : Pending → Bool
is_control p = is_some p.control

abbrev pub in_flight : Pending → Bool
in_flight p = p.sent && not (is_control p)

unfoldable pub in_flight_count : Machine → ℕ
unfolding count_where
in_flight_count m = count_where in_flight m.pending

-- What `remove_pending` does once the request is found.
unfoldable pub release : Pending → Machine → Machine
unfolding remove_first without remove_transaction
release p m = record m {
  pending = remove_first p.request_id m.pending;
  replay = without p.request_id m.replay;
  by_transaction = remove_transaction p.message.header.transaction_id m.by_transaction;
  control_messages = if is_control p then m.control_messages - 1 else m.control_messages;
  control_bytes = if is_control p then m.control_bytes - p.bytes else m.control_bytes;
  retained_bytes = if is_control p then m.retained_bytes else m.retained_bytes - p.bytes;
}

unfoldable pub remove_pending : ℕ → Machine → Machine
unfolding find_pending release
remove_pending id m = elim (find_pending id m.pending) [ none ↦ m | some p ↦ release p m ]

-- `pending_mut(request_id)` with `sent = false`: the first of that id is marked.
unfoldable pub mark_unsent : ℕ → List Pending → List Pending
mark_unsent id [] = []
mark_unsent id (p ∷ ps) =
    let rest = mark_unsent id ps in
    if p.request_id == id then record p { sent = false } ∷ ps else p ∷ rest

unfoldable pub mark_all_unsent : List ℕ → List Pending → List Pending
unfolding mark_unsent
mark_all_unsent [] ps = ps
mark_all_unsent (id ∷ ids) ps = mark_all_unsent ids (mark_unsent id ps)

unfoldable pub prepare_replay : Machine → Machine
unfolding mark_all_unsent
prepare_replay m = record m { pending = mark_all_unsent m.replay m.pending }

-- The map from ids to sequences is collected in order: the last of an id counts.
unfoldable pub last_sequence : ℕ → List Pending → Option ℕ
last_sequence id [] = none
last_sequence id (p ∷ ps) = elim (last_sequence id ps) [
  | some s ↦ some s
  | none ↦ if p.request_id == id then some p.sequence else none
]

abbrev pub above : ℕ → Option ℕ → Bool
above sequence none = false
above sequence (some s) = ltb sequence s

unfoldable pub retain_above : ℕ → List Pending → List ℕ → List ℕ
unfolding last_sequence
retain_above sequence ps [] = []
retain_above sequence ps (id ∷ ids) =
    let rest = retain_above sequence ps ids in
    if above sequence (last_sequence id ps) then id ∷ rest else rest

unfoldable pub trim_replay : ℕ → Machine → Machine
unfolding retain_above
trim_replay sequence m = record m { replay = retain_above sequence m.pending m.replay }

-- The write of a list's element.
unfoldable pub set_at : ℕ → Pending → List Pending → List Pending
set_at i q [] = []
set_at zero q (p ∷ ps) = q ∷ ps
set_at (suc i) q (p ∷ ps) = p ∷ set_at i q ps

-- The key of `dispatch`: replays by sequence, then control requests, then the others.
unfoldable pub dispatch_key : Pending → ℕ × ℕ
dispatch_key p =
    if p.sequence == 0 then (if is_control p then (1, 0) else (2, 0)) else (0, p.sequence)

abbrev pub key_lt : ℕ × ℕ → ℕ × ℕ → Bool
key_lt (a, b) (c, d) = ltb a c || (a == c && ltb b d)

unfoldable pub improves : Pending → Option (ℕ × Pending) → Bool
unfolding dispatch_key
improves p none = true
improves p (some (_, q)) = key_lt (dispatch_key p) (dispatch_key q)

-- `min_by_key` over the eligible requests: the first of the least key, with its index.
unfoldable pub pick :
    (Pending → Bool) → ℕ → List Pending → Option (ℕ × Pending) → Option (ℕ × Pending)
unfolding improves
pick eligible i [] best = best
pick eligible i (p ∷ ps) best =
    pick eligible (i + 1) ps (if eligible p && improves p best then some (i, p) else best)
