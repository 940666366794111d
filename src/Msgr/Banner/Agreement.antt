-- ===== src/Msgr/Banner/Agreement.antt =====
-- What the two sides of src/msgr/banner.rs agree on.
use Prim.Native.Nat.{bit_and}
use rados_rs.Common.{
  ℕ, ◌^◌, ◌≤◌, ◌<◌, ◌≡◌, refl, ap, ◌∙◌, arith, Bool, true, false, List, ◌++◌, length, take, drop,
  Result, ok, ◌>>=◌, ensure, bind-step, leb, ◌==◌, ◌&&◌, ◌-◌, u64_max,
}
use rados_rs.Common.Masks.{bit_and_comm}
use rados_rs.Wire.Bytes.{le_bytes, from_le, from_le-le_bytes}
use rados_rs.Msgr.Frame.{FrameError, limit_exceeded}
use rados_rs.Msgr.Frame.PreambleBack.{read_exact-append}
use rados_rs.Msgr.Banner.{Banner, encode, read, negotiate, banner_prefix}

-- A banner whose words have 64 bits.
abbrev pub IsWide : Banner → Type 0
IsWide b = (b.supported < 2 ^ 64) × (b.required < 2 ^ 64)

head : List ℕ
head = banner_prefix ++ le_bytes 2 16

payload : Banner → List ℕ
payload b = le_bytes 8 b.supported ++ le_bytes 8 b.required

encode-layout : (b : Banner) (more : List ℕ) → encode b ++ more ≡ head ++ (payload b ++ more)
unfolding encode head payload le_bytes
encode-layout b more = refl

length-payload : (b : Banner) → length (payload b) ≡ 16
unfolding payload le_bytes
length-payload b = refl

payload-banner :
    (b : Banner)
    → IsWide b
    → record {
      supported = from_le (take 8 (payload b));
      required = from_le (take 8 (drop 8 (payload b)));
    }
      ≡ b
unfolding payload le_bytes
payload-banner b (ws, wr) =
    rw (from_le-le_bytes 8 b.supported ws, from_le-le_bytes 8 b.required wr) refl

read-encode :
    (b : Banner) (max_payload : ℕ) (more : List ℕ)
    → IsWide b
    → 16 ≤ max_payload
    → read max_payload (encode b ++ more) ≡ ok (b, more)
unfolding read head le_bytes
read-encode b max_payload more wide room =
    let fits : leb 16 max_payload ≡ true = ground arith in
    ap (read max_payload) (encode-layout b more)
    ∙ bind-step _ _ (read_exact-append head (payload b ++ more) 10 refl)
    ∙ bind-step _ _ (ap (λ t. ensure t limit_exceeded) fits)
    ∙ bind-step _ _ (read_exact-append (payload b) more 16 (length-payload b))
    ∙ ap (λ x. ok (x, more)) (payload-banner b wide)

both_comm : (p q : Bool) → (p && q) ≡ (q && p)
both_comm true true = refl
both_comm true false = refl
both_comm false true = refl
both_comm false false = refl

negotiate_comm : (a b : Banner) → negotiate a b ≡ negotiate b a
unfolding negotiate
negotiate_comm a b =
    rw
      (
        bit_and_comm a.supported b.supported,
        both_comm (bit_and b.required (u64_max - a.supported) == 0)
            (bit_and a.required (u64_max - b.supported) == 0),
      )
      refl

-- What a side with its own banner makes of what it receives.
unfoldable pub outcome : ℕ → Banner → List ℕ → Result FrameError ℕ
outcome max_payload own stream = do (peer, rest) ← read max_payload stream; negotiate own peer

outcome_lem :
    (max_payload : ℕ) (own b : Banner) (more : List ℕ)
    → IsWide b
    → 16 ≤ max_payload
    → outcome max_payload own (encode b ++ more) ≡ negotiate own b
unfolding outcome
outcome_lem max_payload own b more wide room =
    bind-step _ _ (read-encode b max_payload more wide room)

-- Two sides that accept payloads of at least 16 bytes, and that receive each other's encoded banner
-- with whatever follows it, reach the same result: the same features, or the same refusal.
pub banners-agree :
    (a b : Banner)
    → IsWide a
    → IsWide b
    → (max_a max_b : ℕ) → 16 ≤ max_a
    → 16 ≤ max_b
    → (more_a more_b : List ℕ)
    → (outcome max_a a (encode b ++ more_b) ≡ negotiate a b)
      × (outcome max_b b (encode a ++ more_a) ≡ negotiate a b)
banners-agree a b wide_a wide_b max_a max_b room_a room_b more_a more_b = (
  outcome_lem max_a a b more_b wide_b room_a,
  outcome_lem max_b b a more_a wide_a room_b ∙ negotiate_comm b a,
)
