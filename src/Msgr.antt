-- ===== src/Msgr.antt =====
-- src/msgr: the messenger, from frames to the session's state machine.
pub mod Frame
pub mod Banner
pub mod Message
pub mod Control
pub mod Channel
pub mod Session
