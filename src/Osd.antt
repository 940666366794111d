-- ===== src/Osd.antt =====
-- src/osd: the object store client's messages. Its limits are those of osd/messages.rs.
pub mod HObject
pub mod Backoff
mod Runs
use rados_rs.Common.{ℕ}

pub record Limits : Type 0 where
  pub max_bytes : ℕ
  pub max_operations : ℕ
