-- ===== src/Lib.antt =====
-- A model of the messenger core of rados-rs, a Ceph client: the wire codec, addresses, frames,
-- messages and controls on a stream, the session between a client and a peer, the backoffs that
-- object stores send, and the hash that places objects.
--
-- The parts and their files, with the paths of the repository that they model:
--   Wire (src/wire/codec.rs, src/wire/crc.rs). `Encoder` and `Decoder` are records with one function
--   per method; both remember their first error. Wire/Bytes has the words as little-endian bytes,
--   Wire/Decoder/Read the chains of reads that end with `?`. Wire/Encoder/Emits, Writes and Tries, and
--   Wire/Decoder/Cursor, say what an encoder appends and what a decoder reads at a place.
--   Protocol/Address (src/protocol/address.rs, and of src/protocol/features.rs what it asks): addresses,
--   endpoints, and the codec in Address/Codec, with several addresses in Address/Vector. `HasLength`
--   says that the socket data of an address have the length of their family. Address/Written has the
--   bytes of an address, and `sent`, what the peer makes of it; `unscoped` is an endpoint without the
--   flow information and the scope, which an address does not hold.
--   Msgr/Banner (src/msgr/banner.rs): the banners, and in Agreement the `outcome` of a side, which
--   reads the peer's banner and negotiates.
--   Msgr/Frame (src/msgr/frame.rs) with Crc, the encoder `CrcCodec::encode`, Read, the readers, and
--   Secure, the size check `validate_frame_size` (src/msgr/secure.rs).
--   Msgr/Message (src/msgr/message.rs): messages, their header in Message/Header, and the frame that
--   carries one.
--   Msgr/Control (src/msgr/control.rs): the control frames as data, with Encode and Decode. Layout has
--   their bytes as lists; `IsSendable` says that a control has the source's widths, is within the
--   limits, has nanoseconds less than a second and is no payload under a tag of its own; `received` is
--   a control whose addresses are not marked as of the old form. Asks has the limits `is_within` and
--   the tags `has_tag` that encoding asks for, Outcome what encoding gives, Overlong the keepalives
--   that are encoded but not decoded.
--   Msgr/Channel: messages and controls over frames, from one side's values to the other's.
--   Msgr/Session (src/msgr/session.rs): the whole `Machine`. State has its state, inputs and effects;
--   Queue the pending requests; Failing, Handshake, Connected and Requests its methods; Step has
--   `new`, `step`, which is given one input at a time, and `snapshot`. A method takes a `Run`, the
--   machine with the effects pushed so far, and gives the next one; a method that returns a Boolean
--   gives it beside the run. Branches of a long method are functions of their own.
--   Session/Ledger counts requests and effects, Session/Kept has what the methods keep, in files by
--   method, and Session/Steps joins them over the inputs. Session/Guarantees is about steps and
--   histories of them, Session/Traces about the effects that led to a state.
--   Maps (src/maps/osdmap.rs): the name of a placement group.
--   Osd (src/osd/backoff.rs, and the limits of src/osd/messages.rs): HObject, hashed objects with their
--   order and codec, and Backoff, with its interval and its messages.
--   Crush (src/crush/hash.rs): the hash of objects and of placement, and `stable_mod`.
--
-- The session is given requests by `Input.admit`, sends them by `dispatch`, and answers by effects:
-- `Effect.completed` and `Effect.failed` end a request. `admissions` counts what an input asks for,
-- `settles` the effects that end a request. In the queue `waiting` counts the requests of an id,
-- `unexecuted` those that cannot have executed and `answerable` those that are sent and want a reply.
-- An effect that `absolves` a request reports a failure other than an unknown outcome. Session/Sends
-- reads off the effects whether a request `was_sent`: whether an `Effect.send_message` of it came
-- since the last `Effect.admitted`.
--
-- Bounds and fuel: numbers are unbounded, and each `checked_add` of the source tests 2 ^ 64 - 1 or
-- 2 ^ 32 - 1 by name; the hash wraps at 2 ^ 32. `saturating_sub` is the subtraction that stops at 0.
-- Plain additions of the source that cannot overflow in memory (lengths, counters of a queue) are plain
-- additions here. The loop of `take_transaction_id` has fuel for one round more than there are
-- transactions; `bit_length` has 32 rounds for a word of 32 bits, and the loop of the hash as many as
-- there are chunks.
--
-- Maps are association lists. `crc32c_append` of the crc32c package is a parameter, of which nothing is
-- assumed. A stream is the bytes that are still to come, and ends where they do. The permit of the
-- receive budget that a message carries is no part of its value and left out.
--
-- Not modelled: AES-GCM of secure frames, the parser of address texts, the supervisor and the transport
-- with their tasks and timers, the receive budget, CephX, the buckets and rules of CRUSH, the cluster
-- maps, and the clients of monitors, managers and object stores.
pub mod Common
pub mod Wire
pub mod Protocol
pub mod Crush
pub mod Maps
pub mod Msgr
pub mod Osd
