-- ===== src/Wire/RoundTrip.antt =====
-- Encoding and then decoding, in src/wire/codec.rs.
use rados_rs.Common.{
  ℕ, ◌+◌, ◌^◌, ◌≤◌, ◌<◌, ◌≡◌, refl, sym, ◌∙◌, none, List, [], ◌++◌, length, leb, leb→le,
  if◌then◌else◌, Result, ok, err, ok-injective, ◌>>=◌, ap, u32_max, Bool-cases, inl, inr,
}
use rados_rs.Common.Int.{ℤ}
use rados_rs.Wire.Errors.{WireError}
use rados_rs.Wire.Bytes.{le_bytes, IsSigned}
use rados_rs.Wire.Encoder as Enc
use rados_rs.Wire.Encoder.{Encoder, finish}
use rados_rs.Wire.Encoder.Emits.{
  Emits, Emits-i64, Emits-bytes, Emits-versioned, finish-new, length-prefixed, prefixed,
}
use rados_rs.Wire.Encoder.Writes.{Writes}
use rados_rs.Wire.Decoder as Decoding
use rados_rs.Wire.Decoder.{Decoder}
use rados_rs.Wire.Decoder.Cursor.{
  cursor, new-cursor, error-cursor, remaining-cursor, i64-cursor, bytes-cursor, versioned-cursor,
}

-- The read gave `a`, and left `rest` without an error.
pub record HasRead {A : Type 0} (a : A) (rest : List ℕ) (r : A × Decoder) : Type 0 where
  pub value : r.0 ≡ a
  pub left : Decoding.remaining r.1 ≡ length rest
  pub clear : r.1.error ≡ none

read_at :
    {A : Type 0} (a : A) (front rest : List ℕ) (m : ℕ) {r : A × Decoder}
    → r ≡ (a, cursor front rest m)
    → HasRead a rest r
read_at a front rest m e = rw e (record {
  value = refl;
  left = remaining-cursor front rest m;
  clear = error-cursor front rest m;
})

-- The read, which may fail, gave `a`, and left `rest` without an error.
pub record Reads {A : Type 0} (a : A) (rest : List ℕ) (r : Result WireError (A × Decoder))
    : Type 0 where
  pub after : Decoder
  pub value : r ≡ ok (a, after)
  pub left : Decoding.remaining after ≡ length rest
  pub clear : after.error ≡ none

pub cursor-Reads :
    {A : Type 0} (a : A) (front rest : List ℕ) (m : ℕ) {r : Result WireError (A × Decoder)}
    → r ≡ ok (a, cursor front rest m)
    → Reads a rest r
cursor-Reads a front rest m e = record {
  after = cursor front rest m;
  value = e;
  left = remaining-cursor front rest m;
  clear = error-cursor front rest m;
}

-- What an encoder that finishes has written, and that it is within the limit.
pub written_bytes :
    {f : Encoder → Encoder} {bs w : List ℕ}
    → Emits f bs
    → (l : ℕ) → l ≤ u32_max
    → finish (f (Enc.new l)) ≡ ok w
    → bs ≡ w
written_bytes {f} {bs} {w} emits l h e = elim (Bool-cases (leb (length bs) l)) [
  | inl fits ↦ ok-injective (sym (rw fits at (finish-new emits l h)) ∙ e)
  | inr over ↦
      let never : err WireError.limit_exceeded ≡ ok w =
        sym (rw over at (finish-new emits l h)) ∙ e in
      cc
]

pub written_fits :
    {f : Encoder → Encoder} {bs w : List ℕ}
    → Emits f bs
    → (l : ℕ) → l ≤ u32_max
    → finish (f (Enc.new l)) ≡ ok w
    → length bs ≤ l
written_fits {f} {bs} {w} emits l h e = elim (Bool-cases (leb (length bs) l)) [
  | inl fits ↦ leb→le (length bs) l fits
  | inr over ↦
      let never : err WireError.limit_exceeded ≡ ok w =
        sym (rw over at (finish-new emits l h)) ∙ e in
      cc
]

-- What an encoding that can fail has written.
pub written_form :
    {f : Encoder → Result WireError Encoder} {bs w : List ℕ}
    → Writes f bs
    → (l : ℕ) → l ≤ u32_max
    → (f (Enc.new l) >>= finish) ≡ ok w
    → bs ≡ w
written_form writes l h e =
    written_bytes writes.emits l h (sym (ap (λ r. r >>= finish) (writes.passes (Enc.new l))) ∙ e)

module _ (l : ℕ) (h : l ≤ u32_max) where
  -- Under a limit that fits in 32 bits, encoding a byte string writes its length and its bytes, or
  -- fails exactly where these do not fit.
  pub bytes-limit :
      (v : List ℕ)
      → finish (Enc.bytes v (Enc.new l)) ≡ (
          if leb (length v + 4) l
          then ok (le_bytes 4 (length v) ++ v)
          else err WireError.limit_exceeded)
  unfolding prefixed
  bytes-limit v = rw (length-prefixed v) at (finish-new (Emits-bytes v) l h)

  -- A byte string shorter than 2 ^ 32 that is encoded, under a limit that fits in 32 bits, and is
  -- within the limit of the reader, is read back, whatever follows.
  pub bytes-round_trip :
      (v : List ℕ) {w : List ℕ}
      → finish (Enc.bytes v (Enc.new l)) ≡ ok w
      → (m : ℕ) → length v ≤ m
      → length v < 2 ^ 32
      → (rest : List ℕ) → HasRead v rest (Decoding.bytes (Decoding.new (w ++ rest) m))
  bytes-round_trip v {w} e m fits small rest =
      rw (sym (written_bytes (Emits-bytes v) l h e), new-cursor)
        (read_at v _ rest m (bytes-cursor v small m fits [] rest))

  -- A signed word of 64 bits that is encoded, under a limit that fits in 32 bits, is read back,
  -- whatever follows.
  pub i64-round_trip :
      (z : ℤ) {w : List ℕ}
      → finish (Enc.i64 z (Enc.new l)) ≡ ok w
      → IsSigned (2 ^ 64) z
      → (m : ℕ) (rest : List ℕ) → HasRead z rest (Decoding.i64 (Decoding.new (w ++ rest) m))
  i64-round_trip z {w} e signed m rest =
      rw (sym (written_bytes (Emits-i64 z) l h e), new-cursor)
        (read_at z _ rest m (i64-cursor z signed [] rest m))

  -- A versioned payload shorter than 2 ^ 32 that is encoded, under a limit that fits in 32 bits, and is
  -- within the limit of the reader, is handed back whole under its version to a reader that is new
  -- enough for it, whatever follows.
  pub versioned-round_trip :
      {f : Encoder → Encoder} {bs : List ℕ}
      → Emits f bs
      → (version compatible : ℕ) {w : List ℕ}
      → finish (Enc.versioned version compatible f (Enc.new l)) ≡ ok w
      → (local : ℕ) → compatible ≤ local
      → (m : ℕ) → length bs ≤ m
      → length bs < 2 ^ 32
      → (rest : List ℕ)
      → (Decoding.versioned local (Decoding.new (w ++ rest) m)).0 ≡ version
        × ((Decoding.versioned local (Decoding.new (w ++ rest) m)).1 ≡ Decoding.new bs m)
        × (Decoding.remaining (Decoding.versioned local (Decoding.new (w ++ rest) m)).2
            ≡ length rest)
  versioned-round_trip {f} {bs} emits version compatible {w} e local able m fits small rest =
      rw
        (
          sym (written_bytes (Emits-versioned emits version compatible) l h e),
          new-cursor,
          versioned-cursor version compatible local bs able small m fits [] rest,
        )
        (refl, refl, remaining-cursor _ rest m)
