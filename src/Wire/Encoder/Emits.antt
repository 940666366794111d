-- ===== src/Wire/Encoder/Emits.antt =====
-- What an encoder's method does, seen through `finish`: it appends bytes while they fit the limit,
-- and is a `limit_exceeded` from then on.
use rados_rs.Common.{
  ℕ, ◌+◌, ◌^◌, ◌≤◌, ◌<◌, min, ◌≡◌, refl, ◌∙◌, arith, ◌⊎◌, inl, inr, Bool, none, some, List, [], ◌∷◌,
  ◌++◌, Result, ok, err, length, length-append, append_assoc, append-nil, leb, ltb, if◌then◌else◌,
  Bool-cases, u32_max, le→ltb, leb→le,
}
use rados_rs.Common.Int.{ℤ}
use rados_rs.Wire.Errors.{WireError, limit_exceeded}
use rados_rs.Wire.Bytes.{le_bytes, length-le_bytes, pattern_of}
use rados_rs.Wire.Encoder.{
  Encoder, new, raw, u8, u16, u32, u64, i8, i32, i64, bool, bool_byte, bytes, finish, envelope,
  versioned,
}

-- The specification: append while it fits.
abbrev pub extend : ℕ → Result WireError (List ℕ) → List ℕ → Result WireError (List ℕ)
extend limit (ok written) more =
    if leb (length written + length more) limit then ok (written ++ more) else err limit_exceeded
extend limit (err e) more = err e

-- Limits are those that the callers give: of 32 bits. The only error is the limit's.
pub record IsSound (e : Encoder) : Type 0 where
  pub small : e.limit ≤ u32_max
  pub state : ((e.error ≡ none) × (length e.bytes ≤ e.limit)) ⊎ (e.error ≡ some limit_exceeded)

pub record Emits (f : Encoder → Encoder) (bs : List ℕ) : Type 0 where
  pub sound : (e : Encoder) → IsSound e → IsSound (f e)
  pub limit : (e : Encoder) → IsSound e → (f e).limit ≡ e.limit
  pub writes : (e : Encoder) → IsSound e → finish (f e) ≡ extend e.limit (finish e) bs

raw-IsSound : (v : List ℕ) (e : Encoder) → IsSound e → IsSound (raw v e)
unfolding raw
raw-IsSound v e h = record { small = ground arith; state = ground (arith, length-append e.bytes v) }

raw-limit : (v : List ℕ) (e : Encoder) → (raw v e).limit ≡ e.limit
unfolding raw
raw-limit v e = ground arith

raw-writes : (v : List ℕ) (e : Encoder) → IsSound e → finish (raw v e) ≡ extend e.limit (finish e) v
unfolding raw finish
raw-writes v e h = ground arith

pub Emits-raw : (v : List ℕ) → Emits (raw v) v
Emits-raw v = record { sound = raw-IsSound v; limit = λ e h. raw-limit v e; writes = raw-writes v }

extend-extend :
    (l : ℕ) (r : Result WireError (List ℕ)) (a b : List ℕ)
    → extend l (extend l r a) b ≡ extend l r (a ++ b)
extend-extend l (err x) a b = refl
extend-extend l (ok w) a b =
    ground (arith, length-append a b, length-append w a, append_assoc w a b)

module _ {f g : Encoder → Encoder} {a b : List ℕ} where
  -- One method after another.
  pub Emits-then : Emits f a → Emits g b → Emits (λ e. g (f e)) (a ++ b)
  Emits-then p q = record {
    sound = λ e h. q.sound (f e) (p.sound e h);
    limit = λ e h. q.limit (f e) (p.sound e h) ∙ p.limit e h;
    writes = λ e h.
        q.writes (f e) (p.sound e h)
        ∙ simp (p.limit e h, p.writes e h) (extend-extend e.limit (finish e) a b);
  }

-- Writing nothing.
pub Emits-nothing : Emits (λ e. e) []
unfolding finish
Emits-nothing = record {
  sound = λ e h. h;
  limit = λ e h. refl;
  writes = λ e h. ground (arith, append-nil e.bytes);
}

pub Emits-u8 : (v : ℕ) → Emits (u8 v) (v ∷ [])
unfolding u8
Emits-u8 v = Emits-raw (v ∷ [])

pub Emits-u16 : (v : ℕ) → Emits (u16 v) (le_bytes 2 v)
unfolding u16
Emits-u16 v = Emits-raw _

pub Emits-u32 : (v : ℕ) → Emits (u32 v) (le_bytes 4 v)
unfolding u32
Emits-u32 v = Emits-raw _

pub Emits-u64 : (v : ℕ) → Emits (u64 v) (le_bytes 8 v)
unfolding u64
Emits-u64 v = Emits-raw _

pub Emits-i8 : (v : ℤ) → Emits (i8 v) (le_bytes 1 (pattern_of (2 ^ 8) v))
unfolding i8
Emits-i8 v = Emits-raw _

pub Emits-i32 : (v : ℤ) → Emits (i32 v) (le_bytes 4 (pattern_of (2 ^ 32) v))
unfolding i32
Emits-i32 v = Emits-raw _

pub Emits-i64 : (v : ℤ) → Emits (i64 v) (le_bytes 8 (pattern_of (2 ^ 64) v))
unfolding i64
Emits-i64 v = Emits-raw _

pub Emits-bool : (v : Bool) → Emits (bool v) (bool_byte v ∷ [])
unfolding bool
Emits-bool v = Emits-u8 (bool_byte v)

-- The encoder that has met its limit.
abbrev refuse : Encoder → Encoder
refuse e = record e { error = some limit_exceeded }

refuse-IsSound : (e : Encoder) → IsSound e → IsSound (refuse e)
refuse-IsSound e h = record { small = h.small; state = inr refl }

extend_refuses :
    (e : Encoder) (v : List ℕ)
    → IsSound e
    → e.limit < length v
    → finish (refuse e) ≡ extend e.limit (finish e) v
unfolding finish
extend_refuses e v h over = ground arith

unfoldable pub prefixed : List ℕ → List ℕ
prefixed v = le_bytes 4 (length v) ++ v

pub length-prefixed : (v : List ℕ) → length (prefixed v) ≡ length v + 4
unfolding prefixed
length-prefixed v =
    omega (arith, length-append (le_bytes 4 (length v)) v, length-le_bytes 4 (length v))

module _ (v : List ℕ) where
  Emits-prefixed : Emits (λ e. raw v (u32 (length v) e)) (prefixed v)
  unfolding prefixed
  Emits-prefixed = Emits-then (Emits-u32 (length v)) (Emits-raw v)

  -- A length prefix and the bytes; bytes too long for a prefix are over the limit anyway.
  pub Emits-bytes : Emits (bytes v) (prefixed v)
  unfolding bytes
  Emits-bytes = elim (Bool-cases (ltb u32_max (length v))) [
    | inl long ↦ record {
      sound = λ e h. rw long (refuse-IsSound e h);
      limit = λ e h. rw long;
      writes = λ e h. rw long (extend_refuses e (prefixed v) h (ground (arith, length-prefixed v)));
    }
    | inr fits ↦ record {
      sound = λ e h. rw fits (Emits-prefixed.sound e h);
      limit = λ e h. rw fits (Emits-prefixed.limit e h);
      writes = λ e h. rw fits (Emits-prefixed.writes e h);
    }
  ]

new-IsSound : (l : ℕ) → l ≤ u32_max → IsSound (new l)
unfolding new
new-IsSound l h = record { small = h; state = inl (refl, omega arith) }

-- An envelope: version, compatible version, the payload's length and the payload.
unfoldable pub enveloped : ℕ → ℕ → List ℕ → List ℕ
enveloped version compatible payload = version ∷ compatible ∷ prefixed payload

pub length-enveloped : (v c : ℕ) (bs : List ℕ) → length (enveloped v c bs) ≡ length bs + 6
unfolding enveloped
length-enveloped v c bs = omega (arith, length-prefixed bs)

module _ {f : Encoder → Encoder} {bs : List ℕ} (emits : Emits f bs) where
  -- Encoding from the start: the bytes, or the limit's error.
  pub finish-new :
      (l : ℕ)
      → l ≤ u32_max
      → finish (f (new l)) ≡ (if leb (length bs) l then ok bs else err limit_exceeded)
  unfolding new finish
  finish-new l h = ground (arith, emits.writes (new l) (new-IsSound l h))

  Emits-envelope :
      (v c : ℕ) → Emits (λ e. raw bs (u32 (length bs) (u8 c (u8 v e)))) (enveloped v c bs)
  unfolding enveloped
  Emits-envelope v c = Emits-then (Emits-u8 v) (Emits-then (Emits-u8 c) (Emits-prefixed bs))

  payload_lem :
      (e : Encoder)
      → IsSound e
      → finish (f (new (min e.limit u32_max)))
        ≡ (if leb (length bs) e.limit then ok bs else err limit_exceeded)
  payload_lem e h = ground (arith, finish-new (min e.limit u32_max))

  -- Which way `versioned` goes.
  versioned_lem :
      (v c : ℕ) (e : Encoder)
      → IsSound e
      → versioned v c f e
        ≡ (if leb (length bs) e.limit then raw bs (u32 (length bs) (u8 c (u8 v e))) else refuse e)
  unfolding versioned envelope
  versioned_lem v c e h = elim (Bool-cases (leb (length bs) e.limit)) [
    | inl fits ↦ rw (
      payload_lem e h,
      fits,
      le→ltb u32_max (length bs) (omega (arith, leb→le _ _ fits, h.small)),
    )
    | inr over ↦ rw (payload_lem e h, over)
  ]

  -- `versioned` over a payload's encoding writes its envelope.
  pub versioned-writes :
      (v c : ℕ) (e : Encoder)
      → IsSound e
      → IsSound (versioned v c f e)
        × ((versioned v c f e).limit ≡ e.limit)
        × (finish (versioned v c f e) ≡ extend e.limit (finish e) (enveloped v c bs))
  versioned-writes v c e h = elim (Bool-cases (leb (length bs) e.limit)) [
    | inl fits ↦
        rw (versioned_lem v c e h, fits)
          (
            (Emits-envelope v c).sound e h,
            (Emits-envelope v c).limit e h,
            (Emits-envelope v c).writes e h,
          )
    | inr over ↦
        rw (versioned_lem v c e h, over)
          (
            refuse-IsSound e h,
            refl,
            extend_refuses e (enveloped v c bs) h (ground (arith, length-enveloped v c bs)),
          )
  ]

  pub Emits-versioned : (v c : ℕ) → Emits (versioned v c f) (enveloped v c bs)
  Emits-versioned v c = record {
    sound = λ e h. (versioned-writes v c e h).0;
    limit = λ e h. (versioned-writes v c e h).1;
    writes = λ e h. (versioned-writes v c e h).2;
  }
