-- ===== src/Crush/Hash.antt =====
-- src/crush/hash.rs, on words of 32 bits.
use Prim.Native.Nat.{bit_and, bit_xor}
use rados_rs.Common.{
  ℕ, zero, suc, ◌+◌, ◌-◌, ◌*◌, ◌/◌, ◌%◌, ◌^◌, List, [], ◌∷◌, ◌++◌, length, take, drop, ltb, ◌==◌,
  if◌then◌else◌, min, u32_max,
}
use rados_rs.Wire.Bytes.{from_le}

abbrev pub namespace_separator : ℕ
namespace_separator = 0x1f

-- `wrapping_add`, `wrapping_sub` and `wrapping_shl`
abbrev pub wrapping_add : ℕ → ℕ → ℕ
wrapping_add a b = (a + b) % 2 ^ 32

abbrev pub wrapping_sub : ℕ → ℕ → ℕ
wrapping_sub a b = (a + (2 ^ 32 - b % 2 ^ 32)) % 2 ^ 32

abbrev pub wrapping_shl : ℕ → ℕ → ℕ
wrapping_shl a k = a * 2 ^ k % 2 ^ 32

-- The three words of the hash's state.
pub record Words : Type 0 where
  pub first : ℕ
  pub second : ℕ
  pub third : ℕ

unfoldable pub mix : ℕ → ℕ → ℕ → Words
mix first second third =
    let f1 = bit_xor (wrapping_sub (wrapping_sub first second) third) (third / 2 ^ 13) in
    let s1 = bit_xor (wrapping_sub (wrapping_sub second third) f1) (wrapping_shl f1 8) in
    let t1 = bit_xor (wrapping_sub (wrapping_sub third f1) s1) (s1 / 2 ^ 13) in
    let f2 = bit_xor (wrapping_sub (wrapping_sub f1 s1) t1) (t1 / 2 ^ 12) in
    let s2 = bit_xor (wrapping_sub (wrapping_sub s1 t1) f2) (wrapping_shl f2 16) in
    let t2 = bit_xor (wrapping_sub (wrapping_sub t1 f2) s2) (s2 / 2 ^ 5) in
    let f3 = bit_xor (wrapping_sub (wrapping_sub f2 s2) t2) (t2 / 2 ^ 3) in
    let s3 = bit_xor (wrapping_sub (wrapping_sub s2 t2) f3) (wrapping_shl f3 10) in
    let t3 = bit_xor (wrapping_sub (wrapping_sub t2 f3) s3) (s3 / 2 ^ 15) in
    record { first = f3; second = s3; third = t3 }

unfoldable pub hash32_pair : ℕ → ℕ → ℕ
unfolding mix
hash32_pair first second =
    let hash = bit_xor (bit_xor 0x4e67c6a7 first) second in
    let a = mix first second hash in
    let b = mix 231232 a.first a.third in let c = mix a.second 1232 b.third in c.third

unfoldable pub hash32_triple : ℕ → ℕ → ℕ → ℕ
unfolding mix
hash32_triple first second third =
    let hash = bit_xor (bit_xor (bit_xor 0x4e67c6a7 first) second) third in
    let a = mix first second hash in
    let b = mix third 231232 a.third in
    let c = mix 1232 a.first b.third in
    let d = mix a.second b.second c.third in let e = mix c.first b.first d.third in e.third

-- The loop over chunks of twelve bytes, given how many there are: the state and the remainder.
unfoldable pub absorb : ℕ → Words → List ℕ → Words × List ℕ
unfolding mix
absorb zero w bytes = (w, bytes)
absorb (suc n) w bytes =
    absorb n
      (mix (wrapping_add w.first (from_le (take 4 bytes)))
        (wrapping_add w.second (from_le (take 4 (drop 4 bytes))))
        (wrapping_add w.third (from_le (take 4 (drop 8 bytes)))))
      (drop 12 bytes)

-- The bytes of the remainder, added one by one: the last three leave out the lowest byte.
unfoldable pub add_tail : ℕ → Words → List ℕ → Words
add_tail index w [] = w
add_tail index w (b ∷ rest) =
    let next : Words =
      if ltb index 4
      then record w { first = wrapping_add w.first (wrapping_shl b (index * 8)) }
      else if ltb index 8
      then record w { second = wrapping_add w.second (wrapping_shl b ((index - 4) * 8)) }
      else record w { third = wrapping_add w.third (wrapping_shl b ((index - 7) * 8)) } in
    add_tail (index + 1) next rest

unfoldable pub rjenkins : List ℕ → ℕ
unfolding absorb add_tail mix
rjenkins value =
    let start : Words = record { first = 0x9e3779b9; second = 0x9e3779b9; third = 0 } in
    let (w, remainder) = absorb (length value / 12) start value in
    let sized : Words = record w { third = wrapping_add w.third (min (length value) u32_max) } in
    let last : Words = add_tail 0 sized remainder in (mix last.first last.second last.third).third

unfoldable pub object_hash : List ℕ → List ℕ → List ℕ → ℕ
unfolding rjenkins
object_hash object locator namespace =
    let key = if length locator == 0 then object else locator in
    if length namespace == 0
    then rjenkins key
    else rjenkins (namespace ++ (namespace_separator ∷ key))

-- The number of bits of a word, `32 - leading_zeros`, with the bits that are left to look at.
unfoldable pub bit_length : ℕ → ℕ → ℕ
bit_length zero v = 0
bit_length (suc k) v = if v == 0 then 0 else suc (bit_length k (v / 2))

-- `1_u32.checked_shl(bits)`, none from 32 bits on, and `wrapping_sub(1)`.
unfoldable pub mask_of : ℕ → ℕ
mask_of count =
    let bits = bit_length 32 (count - 1) in wrapping_sub (if ltb bits 32 then 2 ^ bits else 0) 1

unfoldable pub stable_mod : ℕ → ℕ → ℕ
stable_mod value count =
    if count == 0
    then 0
    else if ltb (bit_and value (mask_of count)) count
    then bit_and value (mask_of count)
    else bit_and value (mask_of count / 2)
