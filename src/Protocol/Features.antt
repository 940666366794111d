-- ===== src/Protocol/Features.antt =====
-- `GlobalFeatures` of src/protocol/features.rs: the bits that decide how addresses are encoded.
use Prim.Native.Nat.{bit_and, bit_or}
use rados_rs.Common.{ℕ, ◌^◌, Bool, ◌==◌}

abbrev pub server_nautilus : ℕ
server_nautilus = 2 ^ 2

unfoldable pub server_mimic_incarnation : ℕ
server_mimic_incarnation = bit_or (2 ^ 57) (2 ^ 28)

unfoldable pub server_nautilus_mask : ℕ
unfolding server_mimic_incarnation
server_nautilus_mask = bit_or server_nautilus server_mimic_incarnation

abbrev pub message_address_v2 : ℕ
message_address_v2 = 2 ^ 59

unfoldable pub contains : ℕ → ℕ → Bool
contains features mask = bit_and features mask == mask
