-- ===== src/Crush/Runs.antt =====
-- Runs of the hash on the vectors of src/crush/hash.rs.
use rados_rs.Common.{◌≡◌, ◌<◌, ◌⊎◌, arith, refl, [], ◌∷◌}
use rados_rs.Crush.StableMod.{stable_mod-lt, stable_mod-suc}
use rados_rs.Crush.Hash.{
  mix, hash32_triple, rjenkins, object_hash, absorb, add_tail, stable_mod, mask_of, bit_length,
}

triple_vector : hash32_triple 1 2 3 ≡ 0x735ad42b
unfolding hash32_triple mix
triple_vector = refl

object_vector : object_hash (0 ∷ 255 ∷ []) (0x81 ∷ 0 ∷ 0x7f ∷ []) (255 ∷ 0x1f ∷ []) ≡ 0x8144448c
unfolding object_hash rjenkins absorb add_tail mix
object_vector = refl

smoke : stable_mod 0x96fc93a8 32 ≡ 8
unfolding stable_mod mask_of bit_length
smoke = refl

stable_mod-lt_example : stable_mod 0x96fc93a8 12 < 12
stable_mod-lt_example = stable_mod-lt 0x96fc93a8 12 (omega arith)

stable_mod-suc_example :
    (stable_mod 0x96fc93a8 33 ≡ stable_mod 0x96fc93a8 32) ⊎ (stable_mod 0x96fc93a8 33 ≡ 32)
stable_mod-suc_example = stable_mod-suc 0x96fc93a8 32 (omega arith) (omega arith)
