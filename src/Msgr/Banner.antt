-- ===== src/Msgr/Banner.antt =====
-- src/msgr/banner.rs: the banners that the two sides of a connection exchange first.
pub mod Agreement
mod Runs
use Prim.Native.Nat.{bit_and}
use rados_rs.Common.{
  ℕ, ◌+◌, ◌-◌, ◌*◌, Bool, true, false, not, ◌&&◌, ◌||◌, List, [], ◌∷◌, ◌++◌, take, drop, Result, ok,
  err, ◌>>=◌, ◌>>◌, ensure, leb, ◌==◌, u64_max,
}
use rados_rs.Wire.Bytes.{le_bytes, from_le}
use rados_rs.Msgr.Frame.{FrameError, malformed, limit_exceeded, unsupported_feature}
use rados_rs.Msgr.Frame.Read.{read_exact}

-- The bytes of the text that a banner starts with, "ceph v2" and a newline.
abbrev pub banner_prefix : List ℕ
banner_prefix = 0x63 ∷ 0x65 ∷ 0x70 ∷ 0x68 ∷ 0x20 ∷ 0x76 ∷ 0x32 ∷ 0x0a ∷ []

abbrev pub banner_payload_size : ℕ
banner_payload_size = 16

abbrev pub revision_1_features : ℕ
revision_1_features = 1

pub record Banner : Type 0 where
  pub supported : ℕ
  pub required : ℕ

unfoldable pub client : Banner
client = record { supported = revision_1_features; required = revision_1_features }

unfoldable pub encode : Banner → List ℕ
encode b =
    banner_prefix
    ++ le_bytes 2 banner_payload_size
    ++ le_bytes 8 b.supported
    ++ le_bytes 8 b.required

abbrev pub is_same : List ℕ → List ℕ → Bool
is_same [] [] = true
is_same [] (y ∷ ys) = false
is_same (x ∷ xs) [] = false
is_same (x ∷ xs) (y ∷ ys) = x == y && is_same xs ys

-- The banner, and the bytes behind it.
unfoldable pub read : ℕ → List ℕ → Result FrameError (Banner × List ℕ)
unfolding read_exact
read max_payload stream = do
  (header, s1) ← read_exact 10 stream
  ensure (is_same (take 8 header) banner_prefix) malformed
  ensure (leb banner_payload_size (from_le (drop 8 header))) malformed
  ensure (leb (from_le (drop 8 header)) max_payload) limit_exceeded
  (payload, s2) ← read_exact (from_le (drop 8 header)) s1
  ok (
    record { supported = from_le (take 8 payload); required = from_le (take 8 (drop 8 payload)) },
    s2,
  )

unfoldable pub negotiate : Banner → Banner → Result FrameError ℕ
negotiate b peer = do
  ensure
      (bit_and peer.required (u64_max - b.supported) == 0
        && bit_and b.required (u64_max - peer.supported) == 0)
      unsupported_feature
  ensure (not (bit_and (bit_and b.supported peer.supported) revision_1_features == 0))
      unsupported_feature
  ok (bit_and b.supported peer.supported)
