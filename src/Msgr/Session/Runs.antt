-- ===== src/Msgr/Session/Runs.antt =====
-- Runs of the session on concrete inputs.
use rados_rs.Common.{
  ℕ, ◌+◌, ◌≤◌, ◌≡◌, refl, true, false, none, some, List, [], ◌∷◌, ok, ◌==◌, is_some, if◌then◌else◌,
}
use rados_rs.Common.Int.{pos}
use rados_rs.Protocol.Address.{EntityAddr}
use rados_rs.Msgr.Frame as F
use rados_rs.Wire.Bytes.{le_bytes}
use rados_rs.Msgr.Session.Queue as Q
use rados_rs.Msgr.Session.Requests as Rq
use rados_rs.Msgr.Frame.Crc as Crc
use rados_rs.Msgr.Frame.Secure as Secure
use rados_rs.Wire.Encoder as Enc
use rados_rs.Msgr.Frame.{Limits}
use rados_rs.Msgr.Message as M
use rados_rs.Msgr.Message.{Message}
use rados_rs.Msgr.Message.Header as H
use rados_rs.Msgr.Message.Header.{MessageHeader}
use rados_rs.Msgr.Session.State.{State, ReconnectPolicy, Config, Input, Machine, Run, push, update}
use rados_rs.Msgr.Session.Queue.{count_where, lookup_transaction, set_at}
use rados_rs.Msgr.Session.Failing.{state_code, state_eq, set_state}
use rados_rs.Msgr.Session.Handshake.{start_transport}
use rados_rs.Msgr.Session.Requests.{
  take_transaction_id, transaction_fuel, admit, admit_unless, refuse, transmit, transmit_fresh,
  transmit_at, dispatch_chosen, dispatch_message, dispatch_controls, dispatch,
}
use rados_rs.Msgr.Session.Step.{fresh, new, handle, step, start}
use rados_rs.Msgr.Session.Ledger.{waiting, unexecuted, count_effects, settles, absolves, replies}
use rados_rs.Msgr.Session.Steps.{admissions}
use rados_rs.Msgr.Session.Sends.{was_sent, two_way}
use rados_rs.Msgr.Session.Transactions.{take_transaction_id-total, take_transaction_id-free}
use rados_rs.Msgr.Session.Stale.{generation_of, stale_effects, step-stale}
use rados_rs.Msgr.Session.Traces.{history-marks, history-absolves, history-replies}
use rados_rs.Msgr.Session.Guarantees.{
  IsConsistent, new-IsConsistent, history, total_admissions, history-IsConsistent,
  step-IsConsistent, step-conserves, step-generation, history-conserves, session-settles,
}

abbrev no_checksum : ℕ → List ℕ → ℕ
no_checksum seed bytes = 0

abbrev monitor : EntityAddr
monitor = record {
  address_type = 2;
  nonce = 0;
  family = 2;
  socket_data = [];
  legacy_encoding = false;
}

abbrev config : Config
config = record {
  limits = record {
    max_segment_bytes = 4096;
    max_frame_bytes = 8192;
    max_addresses = 4;
    max_auth_bytes = 64;
  };
  max_queued_messages = 2;
  max_retained_bytes = 1024;
  max_in_flight_transactions = 1;
  max_reconnect_attempts = 3;
  max_handshake_transitions = 8;
  reconnect_policy = ReconnectPolicy.replay_pending;
  client_ident = record {
    addresses = monitor ∷ [];
    target_address = monitor;
    global_id = pos 7;
    global_sequence = 1;
    supported_features = 1;
    required_features = 0;
    flags = 0;
    cookie = 9;
  };
  client_cookie = 9;
  server_cookie = 0;
  global_sequence = 1;
  connect_sequence = 0;
  replacement_cookies = [];
}

abbrev question : Message
question = record {
  header = record {
    sequence = 0;
    transaction_id = 0;
    message_type = 42;
    priority = 127;
    version = 1;
    data_pre_padding_length = 0;
    data_offset = 0;
    ack_sequence = 0;
    flags = 1;
    compat_version = 1;
    reserved = 0;
  };
  lengths = record { front = 3; middle = 0; payload = 0 };
  front = 1 ∷ 2 ∷ 3 ∷ [];
  middle = [];
  payload = [];
}

abbrev before : Machine
before = fresh config

config_accepted : new config ≡ ok before
unfolding new
config_accepted = refl

before-IsConsistent : IsConsistent before
before-IsConsistent = new-IsConsistent config config_accepted

abbrev first_inputs : List Input
first_inputs = Input.start true ∷ Input.admit 5 question false ∷ Input.dispatch ∷ []

abbrev at_first : Run
at_first = record { m = before; out = [] }

still_running : state_eq (history no_checksum first_inputs at_first).m.state State.stopped ≡ false
unfolding history fresh step handle start start_transport set_state state_eq state_code push update
    le_bytes Q.find_pending Q.count_where Q.contains Q.lookup_transaction Q.remove_transaction
    Q.insert_transaction Q.in_flight_count Q.set_at Q.dispatch_key Q.improves Q.pick
    Rq.take_transaction_id Rq.is_saturated Rq.admission_bytes Rq.enqueue Rq.refuse Rq.admit_taken
    Rq.admit_next Rq.admit_transaction Rq.admit_sized Rq.admit_open Rq.admit_unless Rq.admit
    Rq.eligible Rq.transmit Rq.transmit_fresh Rq.transmit_at Rq.dispatch_chosen Rq.dispatch_message
    Rq.dispatch_controls Rq.dispatch M.checked_length M.validate_loop M.validate_segments
    M.segments_of M.encode H.write H.encode F.tag_code F.drop_empty_tail F.normalized_segments
    F.is_power_of_two F.valid_alignment F.descriptors F.crc_size_loop F.crc_size Crc.crc32c
    Crc.slots Crc.encode_preamble Crc.checksum Crc.first_segment Crc.contents Crc.checksums
    Crc.epilogue Crc.body Crc.encode Secure.padded_length Secure.validate_each Secure.add_padded
    Secure.add_first Secure.add_others Secure.validate_descriptors Secure.prepared_descriptors
    Secure.validate_frame_size Enc.new Enc.reserve Enc.raw Enc.u8 Enc.u16 Enc.u32 Enc.u64 Enc.finish
still_running = refl

abbrev loaded : Machine
loaded = (history no_checksum first_inputs at_first).m

loaded-IsConsistent : IsConsistent loaded
loaded-IsConsistent = history-IsConsistent no_checksum first_inputs at_first before-IsConsistent

session-settles_example :
    count_effects (settles 5) (history no_checksum first_inputs at_first).out
      + count_effects (settles 5) (step no_checksum Input.stop loaded).out
    ≡ total_admissions first_inputs 5
session-settles_example =
    session-settles no_checksum config config_accepted first_inputs still_running 5

history-conserves_example :
    waiting 5 loaded.pending
      + count_effects (settles 5) (history no_checksum first_inputs at_first).out
    ≡ waiting 5 before.pending
      + count_effects (settles 5) at_first.out
      + total_admissions first_inputs 5
history-conserves_example =
    history-conserves no_checksum first_inputs at_first before-IsConsistent.distinct 5

step-conserves_example :
    waiting 5 (step no_checksum (Input.cancel 5) loaded).m.pending
      + count_effects (settles 5) (step no_checksum (Input.cancel 5) loaded).out
    ≡ waiting 5 loaded.pending + admissions (Input.cancel 5) 5
step-conserves_example =
    step-conserves no_checksum (Input.cancel 5) loaded loaded-IsConsistent.distinct 5

step-IsConsistent_example : IsConsistent (step no_checksum (Input.admit 6 question true) loaded).m
step-IsConsistent_example =
    step-IsConsistent no_checksum (Input.admit 6 question true) loaded loaded-IsConsistent

step-generation_example : loaded.generation ≤ (step no_checksum Input.stop loaded).m.generation
step-generation_example = step-generation no_checksum Input.stop loaded loaded-IsConsistent.distinct

late : generation_of (Input.message 3 question) ≡ some 3
unfolding generation_of
late = refl

other_generation : (3 == before.generation) ≡ false
unfolding fresh
other_generation = refl

step-stale_example :
    step no_checksum (Input.message 3 question) before
    ≡ record { m = before; out = stale_effects (Input.message 3 question) }
step-stale_example = step-stale no_checksum (Input.message 3 question) before late other_generation

take_transaction_id-total_example :
    is_some (
      take_transaction_id (transaction_fuel ((1, 4) ∷ (2, 5) ∷ [])) ((1, 4) ∷ (2, 5) ∷ []) (some 1))
    ≡ true
take_transaction_id-total_example = take_transaction_id-total ((1, 4) ∷ (2, 5) ∷ []) (some 1)

third_free : take_transaction_id 3 ((1, 4) ∷ (2, 5) ∷ []) (some 1) ≡ some (some 3, some 4)
unfolding take_transaction_id lookup_transaction
third_free = refl

take_transaction_id-free_example : (lookup_transaction 3 ((1, 4) ∷ (2, 5) ∷ []) ≡ none) × (1 ≤ 3)
take_transaction_id-free_example =
    take_transaction_id-free 3 ((1, 4) ∷ (2, 5) ∷ []) (some 1) third_free

history-marks_example : unexecuted 5 (history no_checksum first_inputs at_first).m.pending ≡ (
    if was_sent 5 false (history no_checksum first_inputs at_first).out
    then 0
    else waiting 5 (history no_checksum first_inputs at_first).m.pending)
history-marks_example = history-marks no_checksum config config_accepted first_inputs 5

history-absolves_example :
    count_effects
      (absolves 5)
      (step no_checksum (Input.cancel 5) (history no_checksum first_inputs at_first).m).out
    ≤ (if was_sent 5 false (history no_checksum first_inputs at_first).out
        then 0
        else waiting 5 (history no_checksum first_inputs at_first).m.pending)
      + admissions (Input.cancel 5) 5
history-absolves_example =
    history-absolves no_checksum config config_accepted first_inputs (Input.cancel 5) 5

history-replies_example :
    count_effects
      (replies 5)
      (step no_checksum
        (Input.message 1 question)
        (history no_checksum first_inputs at_first).m).out
    ≤ (if was_sent 5 false (history no_checksum first_inputs at_first).out
        then two_way 5 (history no_checksum first_inputs at_first).m.pending
        else 0)
history-replies_example =
    history-replies no_checksum config config_accepted first_inputs (Input.message 1 question) 5
