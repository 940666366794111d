-- ===== src/Msgr/Session/Requests.antt =====
-- Requests of src/msgr/session.rs: admission, cancelling, dispatch, and the messages that answer.
use Prim.Native.Nat.{max}
use rados_rs.Common.{
  ℕ, zero, suc, ◌+◌, ◌-◌, ◌^◌, Bool, true, false, not, ◌&&◌, ◌||◌, Option, none, some, List, [],
  ◌∷◌, ◌++◌, length, ltb, leb, ◌==◌, is_some, is_ok, if◌then◌else◌, Result, ok, err, ◌>>=◌, ◌>>◌,
  ensure, ok_or, map_err, checked_add, to_u32, u64_max,
}
use rados_rs.Msgr.Frame.Crc as Crc
use rados_rs.Msgr.Frame.Secure as Secure
use rados_rs.Msgr.Message as Msg
use rados_rs.Msgr.Message.{Message}
use rados_rs.Msgr.Message.Header.{message_header_size}
use rados_rs.Msgr.Control.{Control}
use rados_rs.Msgr.Session.State.{
  State, SessionError, Event, Effect, Pending, RenewalState, Machine, Run, push, update,
}
use rados_rs.Msgr.Session.Queue.{
  find_pending, contains, lookup_transaction, insert_transaction, is_control, in_flight_count,
  remove_pending, trim_replay, set_at, pick,
}
use rados_rs.Msgr.Session.Failing.{state_eq, fail_terminal, fault}
use rados_rs.Msgr.Session.Handshake.{queue_control, accept_acknowledgment}

abbrev pub max_control_messages : ℕ
max_control_messages = 16

abbrev pub max_control_bytes : ℕ
max_control_bytes = 2 ^ 20

-- `take_transaction_id`: the id, if there is one, and the next to try. `none` is no result of the
-- code: it means that the fuel ran out.
unfoldable pub take_transaction_id : ℕ → List (ℕ × ℕ) → Option ℕ → Option (Option ℕ × Option ℕ)
take_transaction_id fuel entries none = some (none, none)
take_transaction_id zero entries (some n) = none
take_transaction_id (suc fuel) entries (some n) =
    let id = max n 1 in
    let next = if id == u64_max then none else some (id + 1) in
    let again = take_transaction_id fuel entries next in
    if is_some (lookup_transaction id entries) then again else some (some id, next)

-- One more round than there are transactions is enough.
abbrev pub transaction_fuel : List (ℕ × ℕ) → ℕ
transaction_fuel entries = suc (length entries)

-- Is there no room for a request of so many bytes?
unfoldable pub is_saturated : Bool → ℕ → Machine → Bool
is_saturated control bytes m =
    if control
    then leb max_control_messages m.control_messages
      || ltb (max_control_bytes - m.control_bytes) bytes
    else leb m.config.max_queued_messages (length m.pending - m.control_messages)
      || ltb (m.config.max_retained_bytes - m.retained_bytes) bytes

module _ (crc32c_append : ℕ → List ℕ → ℕ) where
  unfoldable pub admission_bytes : Machine → Message → Result SessionError ℕ
  admission_bytes m msg = do
    front ← ok_or (to_u32 (length msg.front)) SessionError.malformed
    middle ← ok_or (to_u32 (length msg.middle)) SessionError.malformed
    payload ← ok_or (to_u32 (length msg.payload)) SessionError.malformed
    ensure
        (msg.lengths.front == front
          && msg.lengths.middle == middle
          && msg.lengths.payload == payload
          && leb msg.header.data_pre_padding_length payload
          && leb front m.config.limits.max_segment_bytes
          && leb middle m.config.limits.max_segment_bytes
          && leb payload m.config.limits.max_segment_bytes)
        SessionError.malformed
    with_front ← ok_or (checked_add message_header_size front) SessionError.malformed
    with_middle ← ok_or (checked_add with_front middle) SessionError.malformed
    bytes ← ok_or (checked_add with_middle payload) SessionError.malformed
    frame ← map_err SessionError.frame (Msg.encode msg m.config.limits)
    ensure
        (is_ok (Crc.encode crc32c_append true frame m.config.limits)
          && is_ok (Secure.validate_frame_size frame m.config.limits))
        SessionError.malformed
    ok bytes

abbrev with_transaction : ℕ → Message → Message
with_transaction id msg = record msg { header = record msg.header { transaction_id = id } }

abbrev pub request : ℕ → Message → Bool → Bool → ℕ → ℕ → Machine → Pending
request id msg one_way control bytes transaction m = record {
  request_id = id;
  message = with_transaction transaction msg;
  bytes = bytes;
  sequence = 0;
  sent = false;
  may_have_executed = false;
  one_way = one_way;
  control = if control then some m.control_generation else none;
}

-- The end of `admit`: the request joins the queue.
unfoldable pub enqueue : ℕ → Message → Bool → Bool → ℕ → ℕ → Run → Run
enqueue id msg one_way control bytes transaction r = push (Effect.admitted id transaction) (
    update
      (λ m. record m {
        pending = m.pending ++ (request id msg one_way control bytes transaction m ∷ []);
        by_transaction = insert_transaction transaction id m.by_transaction;
        control_messages = if control then m.control_messages + 1 else m.control_messages;
        control_bytes = if control then m.control_bytes + bytes else m.control_bytes;
        retained_bytes = if control then m.retained_bytes else m.retained_bytes + bytes;
      })
      r)

unfoldable pub refuse : ℕ → SessionError → Run → Run
refuse id error = push (Effect.failed id error)

unfoldable pub admit_taken : ℕ → Message → Bool → Bool → ℕ → Option ℕ → Run → Run
admit_taken id msg one_way control bytes none r =
    refuse id SessionError.transition_limit (fail_terminal SessionError.transition_limit r)
admit_taken id msg one_way control bytes (some transaction) r =
    enqueue id msg one_way control bytes transaction r

unfoldable pub admit_next : ℕ → Message → Bool → Bool → ℕ → Run → Run
admit_next id msg one_way control bytes r =
    elim (take_transaction_id (transaction_fuel r.m.by_transaction) r.m.by_transaction
      r.m.next_transaction_id) [
        | none ↦ r
        | some (taken, next) ↦
            admit_taken id msg one_way control bytes taken
              (update (λ m. record m { next_transaction_id = next }) r)
      ]

-- The transaction of an admitted message: its own, or the next that is free.
unfoldable pub admit_transaction : ℕ → Message → Bool → Bool → ℕ → Run → Run
admit_transaction id msg one_way control bytes r =
    if msg.header.transaction_id == 0
    then admit_next id msg one_way control bytes r
    else if is_some (lookup_transaction msg.header.transaction_id r.m.by_transaction)
    then refuse id SessionError.malformed r
    else enqueue id msg one_way control bytes msg.header.transaction_id r

-- The limits of the queue, and the id.
unfoldable pub admit_sized : ℕ → Message → Bool → Bool → ℕ → Run → Run
admit_sized id msg one_way control bytes r =
    if is_saturated control bytes r.m || is_some (find_pending id r.m.pending)
    then refuse id SessionError.queue_saturated r
    else admit_transaction id msg one_way control bytes r

module _ (crc32c_append : ℕ → List ℕ → ℕ) where
  unfoldable pub admit_open : ℕ → Message → Bool → Bool → Run → Run
  admit_open id msg one_way control r = elim (admission_bytes crc32c_append r.m msg) [
    | err _ ↦ refuse id SessionError.malformed r
    | ok bytes ↦ admit_sized id msg one_way control bytes r
  ]

  unfoldable pub admit_unless : Option SessionError → ℕ → Message → Bool → Bool → Run → Run
  admit_unless (some error) id msg one_way control r = refuse id error r
  admit_unless none id msg one_way control r =
      if state_eq r.m.state State.stopped
      then refuse id SessionError.closed r
      else admit_open id msg one_way control r

  unfoldable pub admit : ℕ → Message → Bool → Bool → Run → Run
  admit id msg one_way control r = admit_unless r.m.terminal_error id msg one_way control r

unfoldable pub cancel : ℕ → Run → Run
cancel id r = elim (find_pending id r.m.pending) [
  | none ↦ r
  | some p ↦
      push
        (Effect.failed id
          (if p.may_have_executed then SessionError.outcome_unknown else SessionError.cancelled))
        (update (remove_pending id) r)
]

abbrev pub is_draining : RenewalState → Bool
is_draining RenewalState.draining = true
is_draining _ = false

-- What `dispatch` may send: control requests, and others while there is room in flight.
unfoldable pub eligible : Machine → Pending → Bool
eligible m p =
    not p.sent
    && (is_control p
        || (not (is_draining m.renewal)
            && ltb (in_flight_count m) m.config.max_in_flight_transactions))

-- The message goes out under its sequence.
unfoldable pub transmit : ℕ → Pending → Run → Run
transmit i p r =
    let p' : Pending = record p { sent = true; may_have_executed = true } in
    push (Effect.send_message r.m.generation p.request_id p.message) (
      update
        (λ m. record m {
          pending = set_at i p' m.pending;
          replay =
              if contains p.request_id m.replay then m.replay else m.replay ++ (p.request_id ∷ []);
          write_busy = true;
        })
        r)

abbrev pub sequenced : ℕ → Pending → Pending
sequenced s p = record p {
  sequence = s;
  message = record p.message { header = record p.message.header { sequence = s } };
}

abbrev pub after_sequence : ℕ → Machine → Machine
after_sequence s m = record m { next_outbound = if s == u64_max then none else some (s + 1) }

-- The request takes the sequence that `allocate_sequence` gives.
unfoldable pub transmit_fresh : Option ℕ → ℕ → Pending → Run → Run
transmit_fresh none i p r = fail_terminal SessionError.transition_limit r
transmit_fresh (some next) i p r =
    transmit i (sequenced (max next 1) p) (update (after_sequence (max next 1)) r)

-- A replayed request keeps its sequence.
unfoldable pub transmit_at : ℕ × Pending → Run → Run
transmit_at (i, p) r =
    if p.sequence == 0 then transmit_fresh r.m.next_outbound i p r else transmit i p r

unfoldable pub dispatch_chosen : Run → Run
dispatch_chosen r = elim (pick (eligible r.m) 0 r.m.pending none) [
  | none ↦ r
  | some found ↦ transmit_at found r
]

unfoldable pub dispatch_message : Run → Run
dispatch_message r =
    if is_draining r.m.renewal && r.m.control_messages == 0
    then (if in_flight_count r.m == 0
        then fault SessionError.renewal
            (update (λ m. record m { renewal = RenewalState.reconnecting }) r)
        else r)
    else dispatch_chosen r

unfoldable pub dispatch_controls : List Control → Run → Run
dispatch_controls [] r = if state_eq r.m.state State.ready then dispatch_message r else r
dispatch_controls (first ∷ rest) r =
    push (Effect.send_control r.m.generation first)
      (update (λ m. record m { controls = rest; write_busy = true }) r)

unfoldable pub dispatch : Run → Run
dispatch r =
    if r.m.write_busy
      || state_eq r.m.state State.disconnected
      || state_eq r.m.state State.wait
      || state_eq r.m.state State.stopped
    then r
    else dispatch_controls r.m.controls r

-- The pending request that a message of this transaction answers.
abbrev pub answers : Option Pending → Bool
answers none = false
answers (some p) = p.may_have_executed && not p.one_way

unfoldable pub answered : ℕ → Machine → Option ℕ
answered transaction m = elim (lookup_transaction transaction m.by_transaction) [
  | none ↦ none
  | some id ↦ if answers (find_pending id m.pending) then some id else none
]

-- A message that answers nothing is for the client, which may not keep up.
unfoldable pub pass_on : Message → Run → Run
pass_on msg r =
    if leb r.m.config.max_queued_messages r.m.incoming_count
    then fail_terminal SessionError.queue_saturated r
    else push (Effect.incoming msg)
        (update (λ m. record m { incoming_count = m.incoming_count + 1 }) r)

unfoldable pub deliver : Message → Run → Run
deliver msg r = elim (answered msg.header.transaction_id r.m) [
  | some id ↦ push (Effect.completed id (some msg)) (update (remove_pending id) r)
  | none ↦ pass_on msg r
]

-- A gap is reported, and the message is taken all the same.
unfoldable pub note_gap : ℕ → Run → Run
note_gap sequence r =
    if not (r.m.last_inbound == u64_max) && not (sequence == r.m.last_inbound + 1)
    then push (Effect.event (Event.sequence_gap sequence (r.m.last_inbound + 1))) r
    else r

unfoldable pub receive : Message → Run → Run
receive msg r =
    if leb msg.header.sequence r.m.last_inbound
    then push (Effect.event (Event.duplicate_dropped msg.header.sequence)) r
    else deliver msg (
        queue_control (Control.ack msg.header.sequence) (
          update
            (λ m.
              trim_replay msg.header.ack_sequence (record m { last_inbound = msg.header.sequence }))
            (note_gap msg.header.sequence r)))

unfoldable pub accept_message : Message → Run → Run
accept_message msg r =
    let (going, r1) = accept_acknowledgment msg.header.ack_sequence r in
    if going then receive msg r1 else r1

unfoldable pub message : Message → Run → Run
message msg r =
    if not (state_eq r.m.state State.ready)
    then fault SessionError.malformed r
    else accept_message msg r
