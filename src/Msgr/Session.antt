-- ===== src/Msgr/Session.antt =====
-- src/msgr/session.rs: the session between client and peer as a state machine without I/O.
pub mod State
pub mod Queue
pub mod Failing
pub mod Handshake
pub mod Connected
pub mod Requests
pub mod Transactions
pub mod Step
pub mod Ledger
pub mod Sends
pub mod Kept
pub mod Steps
pub mod Guarantees
pub mod Traces
pub mod Stale
mod Runs
