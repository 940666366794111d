-- ===== src/Common/Words.antt =====
-- Checked and saturating arithmetic on unsigned machine words.
use Prim.Native.Nat.{ℕ, ◌+◌, ◌-◌, ◌*◌, ◌^◌}
use mathlib.Core.Option.{Option, none, some}
use rados_rs.Common.Tests.{ltb, if◌then◌else◌}

abbrev pub u32_max : ℕ
u32_max = 2 ^ 32 - 1

abbrev pub u64_max : ℕ
u64_max = 2 ^ 64 - 1

-- `u64::checked_add`
abbrev pub checked_add : ℕ → ℕ → Option ℕ
checked_add a b = if ltb u64_max (a + b) then none else some (a + b)

-- `u32::try_from` on a length
abbrev pub to_u32 : ℕ → Option ℕ
to_u32 n = if ltb u32_max n then none else some n

-- `u32::checked_mul`
abbrev pub checked_mul_u32 : ℕ → ℕ → Option ℕ
checked_mul_u32 a b = if ltb u32_max (a * b) then none else some (a * b)
