-- ===== src/Protocol.antt =====
-- src/protocol: the values that the parts of the protocol share.
pub mod Address
pub mod Features
