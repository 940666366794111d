-- ===== src/Wire.antt =====
-- src/wire: the bounded little-endian codec on which every protocol message stands.
pub mod Bytes
pub mod Errors
pub mod Encoder
pub mod Decoder
pub mod RoundTrip
mod Runs
