-- ===== src/Msgr/Session/State.antt =====
-- The state, inputs and effects of `Machine` in src/msgr/session.rs. `usize` and `u64` are numbers; an
-- identity of 32 bytes is a list. A method takes `Run`, the machine with the effects pushed so far.
use rados_rs.Common.{ℕ, Bool, Option, List, [], ◌∷◌, ◌++◌, Result}
use rados_rs.Common.Int.{ℤ}
use rados_rs.Protocol.Address.{EntityAddr}
use rados_rs.Msgr.Frame.{FrameError, Limits}
use rados_rs.Msgr.Message.{Message}
use rados_rs.Msgr.Control.{ClientIdent, Control}

pub data State : Type 0 where
  disconnected connecting reconnecting ready wait stopped : State

pub data ReconnectPolicy : Type 0 where
  fail_pending replay_pending : ReconnectPolicy

pub data SessionError : Type 0 where
  closed disconnected cancelled queue_saturated too_many_in_flight transition_limit : SessionError
  reconnect_exhausted outcome_unknown renewal malformed unsupported_feature : SessionError
  unsupported_payload : SessionError
  frame : FrameError → SessionError

pub record Config : Type 0 where
  pub limits : Limits
  pub max_queued_messages : ℕ
  pub max_retained_bytes : ℕ
  pub max_in_flight_transactions : ℕ
  pub max_reconnect_attempts : ℕ
  pub max_handshake_transitions : ℕ
  pub reconnect_policy : ReconnectPolicy
  pub client_ident : ClientIdent
  pub client_cookie : ℕ
  pub server_cookie : ℕ
  pub global_sequence : ℕ
  pub connect_sequence : ℕ
  pub replacement_cookies : List ℕ

pub data Input : Type 0 where
  start : Bool → Input
  initial_connection : Option ℕ → Option (List ℕ) → Input
  initial_identity : ℕ → Option ℕ → Option (List ℕ) → Input
  admit : ℕ → Message → Bool → Input
  admit_control : ℕ → Message → ℕ → Input
  cancel : ℕ → Input
  dispatch : Input
  write_complete : ℕ → Option ℕ → Result SessionError (Unit {0}) → Input
  connected : ℕ → Option ℕ → Option (List ℕ) → Input
  connect_failed : ℕ → Input
  control : ℕ → Control → Input
  message : ℕ → Message → Input
  fault : ℕ → SessionError → Input
  renewal_due : ℕ → Input
  consume_incoming : Input
  stop : Input

pub data Event : Type 0 where
  state_changed : State → Event
  sequence_gap : ℕ → ℕ → Event
  duplicate_dropped : ℕ → Event
  acknowledged : ℕ → Event
  keepalive_ack : Event
  transport_fault : SessionError → Event
  session_reset : Bool → Event
  retry : ℕ → Event
  retry_global : ℕ → Event
  wait : Event
  reconnect_ok : ℕ → Event
  credential_renewal : Event
  credential_renewal_completed : Event
  events_dropped : ℕ → Event

pub data Effect : Type 0 where
  connect : ℕ → Effect
  close_transport : ℕ → Effect
  send_control : ℕ → Control → Effect
  -- the generation, the request and its message
  send_message : ℕ → ℕ → Message → Effect
  -- the request and its transaction
  admitted : ℕ → ℕ → Effect
  completed : ℕ → Option Message → Effect
  failed : ℕ → SessionError → Effect
  incoming : Message → Effect
  event : Event → Effect
  terminal : SessionError → Effect

pub record Pending : Type 0 where
  pub request_id : ℕ
  pub message : Message
  pub bytes : ℕ
  pub sequence : ℕ
  pub sent : Bool
  pub may_have_executed : Bool
  pub one_way : Bool
  pub control : Option ℕ

pub data RenewalState : Type 0 where
  idle draining reconnecting : RenewalState

pub data CredentialChange : Type 0 where
  unknown unchanged changed : CredentialChange

-- `by_transaction` is an association list from transactions to requests, and `renewal_pending` a
-- Boolean for `RenewalPending`.
pub record Machine : Type 0 where
  pub config : Config
  pub state : State
  pub generation : ℕ
  pub pending : List Pending
  pub by_transaction : List (ℕ × ℕ)
  pub replay : List ℕ
  pub controls : List Control
  pub retained_bytes : ℕ
  pub control_generation : ℕ
  pub control_messages : ℕ
  pub control_bytes : ℕ
  pub incoming_count : ℕ
  pub write_busy : Bool
  pub next_outbound : Option ℕ
  pub last_inbound : ℕ
  pub next_transaction_id : Option ℕ
  pub client_cookie : ℕ
  pub server_cookie : ℕ
  pub server_global_id : ℤ
  pub server_addresses : List EntityAddr
  pub server_features : ℕ
  pub global_sequence : ℕ
  pub connect_sequence : ℕ
  pub authenticated_global_id : ℕ
  pub credential_identity : Option (List ℕ)
  pub candidate_credential_identity : Option (List ℕ)
  pub credential_change : CredentialChange
  pub renewal : RenewalState
  pub renewal_pending : Bool
  pub server_flags : ℕ
  pub connected_once : Bool
  pub reconnect_attempts : ℕ
  pub transitions : ℕ
  pub connect_pending : Bool
  pub terminal_error : Option SessionError
  pub replacement_cookies : List ℕ

pub record Run : Type 0 where
  pub m : Machine
  pub out : List Effect

-- `effects.push(…)`
unfoldable pub push : Effect → Run → Run
push e r = record r { out = r.out ++ (e ∷ []) }

unfoldable pub update : (Machine → Machine) → Run → Run
update f r = record r { m = f r.m }
