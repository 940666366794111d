-- ===== src/Wire/Decoder/Cursor.antt =====
-- A decoder that has read `front` and has `rest` before it, and what each method does there.
use rados_rs.Common.{
  ℕ, ◌+◌, ◌-◌, ◌^◌, ◌≤◌, ◌<◌, ◌≡◌, refl, ap, arith, Bool, true, false, none, List, [], ◌∷◌, ◌++◌,
  append_assoc, length, length-append, take-append_length, drop-append_length, le→ltb, ltb,
}
use rados_rs.Common.Int.{ℤ}
use rados_rs.Wire.Encoder.{bool_byte}
use rados_rs.Wire.Encoder.Emits.{prefixed, enveloped}
use rados_rs.Wire.Bytes.{
  le_bytes, length-le_bytes, from_le-le_bytes, pattern_of, IsSigned, signed-pattern_of,
  pattern_of-lt,
}
use rados_rs.Wire.Decoder.{
  Decoder, new, take_slice, raw, u8, u16, u32, u64, i8, i32, i64, bool, bytes, versioned, remaining,
}

pub cursor : List ℕ → List ℕ → ℕ → Decoder
cursor front rest m = record {
  bytes = front ++ rest;
  offset = length front;
  max_bytes = m;
  error = none;
}

module _ (front rest : List ℕ) (m : ℕ) where
  pub error-cursor : (cursor front rest m).error ≡ none
  unfolding cursor
  error-cursor = refl

  pub max_bytes-cursor : (cursor front rest m).max_bytes ≡ m
  unfolding cursor
  max_bytes-cursor = refl

  pub remaining-cursor : remaining (cursor front rest m) ≡ length rest
  unfolding remaining cursor
  remaining-cursor = omega (arith, length-append front rest)

-- A decoder starts before its whole input.
pub new-cursor : (rest : List ℕ) (m : ℕ) → new rest m ≡ cursor [] rest m
unfolding new cursor
new-cursor rest m = refl

pub ruleset cursor_fields = (error-cursor, max_bytes-cursor, remaining-cursor)

module _ (a front rest : List ℕ) (m : ℕ) where
  slice_room : (ltb (length (front ++ (a ++ rest)) - length front) (length a)) ≡ false
  slice_room = ground (arith, length-append front (a ++ rest), length-append a rest)

  moved :
      ◌≡◌ {A = Decoder}
        (record {
          bytes = front ++ (a ++ rest);
          offset = length front + length a;
          max_bytes = m;
          error = none;
        })
        (cursor (front ++ a) rest m)
  unfolding cursor
  moved = rw (length-append front a, append_assoc front a rest)

  pub take_slice-cursor :
      take_slice (length a) (cursor front (a ++ rest) m) ≡ (a, cursor (front ++ a) rest m)
  unfolding take_slice cursor
  take_slice-cursor =
      rw (slice_room, drop-append_length front (a ++ rest), take-append_length a rest)
        (ap (λ d. (a, d)) moved)

-- A word of `k` bytes.
word-cursor :
    (k v : ℕ) (front rest : List ℕ) (m : ℕ)
    → take_slice k (cursor front (le_bytes k v ++ rest) m)
      ≡ (le_bytes k v, cursor (front ++ le_bytes k v) rest m)
word-cursor k v front rest m =
    rw (length-le_bytes k v) at (take_slice-cursor (le_bytes k v) front rest m)

pub u8-cursor :
    (v : ℕ) (front rest : List ℕ) (m : ℕ)
    → u8 (cursor front (v ∷ rest) m) ≡ (v, cursor (front ++ v ∷ []) rest m)
unfolding u8
u8-cursor v front rest m = rw (take_slice-cursor (v ∷ []) front rest m)

-- What follows takes the value and its range first: `simp` finds the place.
pub u16-cursor :
    (v : ℕ)
    → v < 2 ^ 16
    → (front rest : List ℕ) (m : ℕ)
    → u16 (cursor front (le_bytes 2 v ++ rest) m) ≡ (v, cursor (front ++ le_bytes 2 v) rest m)
unfolding u16
u16-cursor v h front rest m =
    simp (word-cursor 2 v front rest m, length-le_bytes 2 v, from_le-le_bytes 2 v h)

pub u32-cursor :
    (v : ℕ)
    → v < 2 ^ 32
    → (front rest : List ℕ) (m : ℕ)
    → u32 (cursor front (le_bytes 4 v ++ rest) m) ≡ (v, cursor (front ++ le_bytes 4 v) rest m)
unfolding u32
u32-cursor v h front rest m =
    simp (word-cursor 4 v front rest m, length-le_bytes 4 v, from_le-le_bytes 4 v h)

pub u64-cursor :
    (v : ℕ)
    → v < 2 ^ 64
    → (front rest : List ℕ) (m : ℕ)
    → u64 (cursor front (le_bytes 8 v ++ rest) m) ≡ (v, cursor (front ++ le_bytes 8 v) rest m)
unfolding u64
u64-cursor v h front rest m =
    simp (word-cursor 8 v front rest m, length-le_bytes 8 v, from_le-le_bytes 8 v h)

pub i8-cursor :
    (z : ℤ)
    → IsSigned (2 ^ 8) z
    → (front rest : List ℕ) (m : ℕ)
    → i8 (cursor front (pattern_of (2 ^ 8) z ∷ rest) m)
      ≡ (z, cursor (front ++ pattern_of (2 ^ 8) z ∷ []) rest m)
unfolding i8
i8-cursor z h front rest m =
    simp (u8-cursor (pattern_of (2 ^ 8) z), signed-pattern_of (2 ^ 8) z refl h)

pub i32-cursor :
    (z : ℤ)
    → IsSigned (2 ^ 32) z
    → (front rest : List ℕ) (m : ℕ)
    → i32 (cursor front (le_bytes 4 (pattern_of (2 ^ 32) z) ++ rest) m)
      ≡ (z, cursor (front ++ le_bytes 4 (pattern_of (2 ^ 32) z)) rest m)
unfolding i32
i32-cursor z h front rest m = simp (
  u32-cursor (pattern_of (2 ^ 32) z) (pattern_of-lt (2 ^ 32) z (omega arith) h),
  signed-pattern_of (2 ^ 32) z refl h,
)

pub i64-cursor :
    (z : ℤ)
    → IsSigned (2 ^ 64) z
    → (front rest : List ℕ) (m : ℕ)
    → i64 (cursor front (le_bytes 8 (pattern_of (2 ^ 64) z) ++ rest) m)
      ≡ (z, cursor (front ++ le_bytes 8 (pattern_of (2 ^ 64) z)) rest m)
unfolding i64
i64-cursor z h front rest m = simp (
  u64-cursor (pattern_of (2 ^ 64) z) (pattern_of-lt (2 ^ 64) z (omega arith) h),
  signed-pattern_of (2 ^ 64) z refl h,
)

pub bool-cursor :
    (b : Bool) (front rest : List ℕ) (m : ℕ)
    → bool (cursor front (bool_byte b ∷ rest) m) ≡ (b, cursor (front ++ bool_byte b ∷ []) rest m)
unfolding bool
bool-cursor true front rest m = simp (u8-cursor 1)
bool-cursor false front rest m = simp (u8-cursor 0)

pub bytes-cursor :
    (v : List ℕ)
    → length v < 2 ^ 32
    → (m : ℕ) → length v ≤ m
    → (front rest : List ℕ)
    → bytes (cursor front (prefixed v ++ rest) m) ≡ (v, cursor (front ++ prefixed v) rest m)
unfolding bytes raw prefixed
bytes-cursor v h m fits front rest = simp (
  cursor_fields,
  append_assoc (le_bytes 4 (length v)) v rest,
  u32-cursor (length v) h,
  le→ltb m (length v) fits,
  take_slice-cursor v,
  append_assoc front (le_bytes 4 (length v)) v,
)

-- The envelope of a payload is read whole, if the reader is new enough for it.
pub versioned-cursor :
    (version compatible local : ℕ) (payload : List ℕ)
    → compatible ≤ local
    → length payload < 2 ^ 32
    → (m : ℕ) → length payload ≤ m
    → (front rest : List ℕ)
    → versioned local (cursor front (enveloped version compatible payload ++ rest) m)
      ≡ (version, new payload m, cursor (front ++ enveloped version compatible payload) rest m)
unfolding versioned prefixed enveloped
versioned-cursor version compatible local payload hc h m fits front rest = simp (
  cursor_fields,
  append_assoc,
  u8-cursor version,
  u8-cursor compatible,
  u32-cursor (length payload) h,
  le→ltb m (length payload) fits,
  le→ltb local compatible hc,
  take_slice-cursor payload,
)
