-- ===== src/Maps.antt =====
-- src/maps/osdmap.rs: the name of a placement group.
use rados_rs.Common.{ℕ}
use rados_rs.Common.Int.{ℤ}

pub record Pg : Type 0 where
  pub pool : ℕ
  pub seed : ℕ
  pub preferred : ℤ
