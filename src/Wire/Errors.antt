-- ===== src/Wire/Errors.antt =====
-- `WireError` of src/wire/codec.rs.
use rados_rs.Common.{ℕ}

pub data WireError : Type 0 where
  limit_exceeded malformed : WireError
  -- the local version, and the one that the peer requires
  unsupported_version : ℕ → ℕ → WireError
