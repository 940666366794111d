-- ===== src/Wire/Decoder/Read.antt =====
-- Decoding functions: `?` is the bind of a state monad with errors. A decoder that has failed is not
-- used again by the callers, so an error carries no state.
use rados_rs.Common.{
  ℕ, ◌≤◌, ◌<◌, ◌^◌, ◌≡◌, refl, ap, ◌∙◌, Bool, true, false, none, some, List, [], ◌++◌, length,
  Result, ok, err, ◌==◌, append-nil, sym, Option-cases, inl, inr, ok-injective, map_err,
}
use rados_rs.Wire.Errors.{WireError, malformed}
use rados_rs.Wire.Decoder.{Decoder, new, versioned, remaining}
use rados_rs.Wire.Decoder.Cursor.{
  cursor, new-cursor, error-cursor, remaining-cursor, versioned-cursor,
}
use rados_rs.Wire.Encoder.Emits.{enveloped}

abbrev pub ReadOf : Type 0 → Type 0 → Type 0
ReadOf E A = Decoder → Result E (A × Decoder)

abbrev pub Read : Type 0 → Type 0
Read A = ReadOf WireError A

module _ {E : Type 0} where
  abbrev pub proceed :
      {A B : Type 0} → (A → ReadOf E B) → Result E (A × Decoder) → Result E (B × Decoder)
  proceed f (ok (a, d)) = f a d
  proceed f (err e) = err e

  infixl 5 ◌>>=◌ ◌>>◌
  abbrev pub ◌>>=◌ : {A B : Type 0} → ReadOf E A → (A → ReadOf E B) → ReadOf E B
  ◌>>=◌ m f d = proceed f (m d)

  abbrev pub ◌>>◌ : {A B : Type 0} → ReadOf E A → ReadOf E B → ReadOf E B
  m >> k = m >>= λ _. k

  abbrev pub pure : {A : Type 0} → A → ReadOf E A
  pure a d = ok (a, d)

  -- A method of the decoder, whose error is remembered and not yet raised.
  abbrev pub lift : {A : Type 0} → (Decoder → A × Decoder) → ReadOf E A
  lift m d = ok (m d)

  -- An early return of an error.
  abbrev pub require : Bool → E → ReadOf E (Unit {0})
  require true e d = ok (tt, d)
  require false e d = err e

  -- `?` on a result that reads nothing
  abbrev pub raise : {A : Type 0} → Result E A → ReadOf E A
  raise (ok a) d = ok (a, d)
  raise (err e) d = err e

  abbrev pub resume : {A : Type 0} → Decoder → Result E (A × Decoder) → Result E (A × Decoder)
  resume d (ok (a, _)) = ok (a, d)
  resume d (err e) = err e

  -- A read from another decoder, such as an envelope's payload.
  abbrev pub within : {A : Type 0} → Decoder → ReadOf E A → ReadOf E A
  within inner m d = resume d (m inner)

-- `?` between two types of errors
abbrev pub convert : {E F A : Type 0} → (E → F) → ReadOf E A → ReadOf F A
convert f m d = map_err f (m d)

-- `decoder.finish()?`
abbrev pub check : Read (Unit {0})
check d = elim d.error [ none ↦ ok (tt, d) | some e ↦ err e ]

-- `decoder.versioned(local)`: the version and the decoder of the payload.
unfoldable pub opened : ℕ → Read (ℕ × Decoder)
opened local d = let (version, payload, d') = versioned local d in ok ((version, payload), d')

-- No error is remembered and no byte is left.
unfoldable pub at_end : Read (Unit {0})
at_end = do check; left ← lift (λ d. (remaining d, d)); require (left == 0) malformed

-- A read that succeeds goes on.
pub bind-ok :
    {E A B : Type 0} (m : ReadOf E A) (k : A → ReadOf E B) {d d' : Decoder} {a : A}
    → m d ≡ ok (a, d')
    → (m >>= k) d ≡ k a d'
bind-ok m k e = ap (proceed k) e

pub check-passes : {B : Type 0} (k : Read B) (d : Decoder) → d.error ≡ none → (check >> k) d ≡ k d
check-passes k d e = rw e refl

pub converted_passes :
    {F B : Type 0} (f : WireError → F) (k : ReadOf F B) (d : Decoder)
    → d.error ≡ none
    → (convert f check >> k) d ≡ k d
converted_passes f k d e = rw e refl

pub at_end-cursor :
    (front : List ℕ) (m : ℕ) → at_end (cursor front [] m) ≡ ok (tt, cursor front [] m)
unfolding at_end
at_end-cursor front m =
    check-passes _ (cursor front [] m) (error-cursor front [] m)
    ∙ rw (remaining-cursor front [] m) refl

pub opened-cursor :
    (version compatible local : ℕ) (payload : List ℕ)
    → compatible ≤ local
    → length payload < 2 ^ 32
    → (m : ℕ) → length payload ≤ m
    → (front rest : List ℕ)
    → opened local (cursor front (enveloped version compatible payload ++ rest) m)
      ≡ ok ((version, new payload m), cursor (front ++ enveloped version compatible payload) rest m)
unfolding opened
opened-cursor version compatible local payload hc h m fits front rest =
    simp (versioned-cursor version compatible local payload hc h m fits front rest)

-- A payload's read, from a decoder of its own.
pub within-new :
    {A : Type 0} (m : Read A) (bs : List ℕ) (k : ℕ) {a : A} {d' : Decoder}
    → m (cursor [] (bs ++ []) k) ≡ ok (a, d')
    → (d : Decoder) → within (new bs k) m d ≡ ok (a, d)
within-new m bs k e d = let e' = rw (append-nil bs) at e in rw (new-cursor bs k) (ap (resume d) e')

-- A chain of reads that succeeds succeeds at each step.
pub proceed-inv :
    {E A B : Type 0} (k : A → ReadOf E B) (r : Result E (A × Decoder)) {d' : Decoder} {b : B}
    → proceed k r ≡ ok (b, d')
    → (a : A) × (d1 : Decoder) × (r ≡ ok (a, d1)) × (k a d1 ≡ ok (b, d'))
proceed-inv k (ok (a, d1)) e = (a, d1, refl, e)
proceed-inv k (err x) e = cc

check_lem : (d : Decoder) → d.error ≡ none → check d ≡ ok (tt, d)
check_lem d e = rw e refl

check_fails : (d : Decoder) {x : WireError} → d.error ≡ some x → check d ≡ err x
check_fails d e = rw e refl

resume-inv :
    {E A : Type 0} (d : Decoder) (r : Result E (A × Decoder)) {d' : Decoder} {a : A}
    → resume d r ≡ ok (a, d')
    → (d1 : Decoder) × (r ≡ ok (a, d1))
resume-inv d (ok (x, d1)) e = (d1, ap (λ t. ok (t.0, d1)) (ok-injective e))
resume-inv d (err x) e = cc

pub check-inv : (d : Decoder) {d' : Decoder} → check d ≡ ok (tt, d') → (d.error ≡ none) × (d ≡ d')
check-inv d {d'} e = elim (Option-cases d.error) [
  | inl clear ↦ (clear, ap (λ t. t.1) (ok-injective (sym (check_lem d clear) ∙ e)))
  | inr (x, failed) ↦
      let never : ◌≡◌ {A = Result WireError (Unit {0} × Decoder)} (err x) (ok (tt, d')) =
        (sym (check_fails d failed) ∙ e) in
      cc
]

pub within-inv :
    {A : Type 0} (inner : Decoder) (m : Read A) (d : Decoder) {d' : Decoder} {a : A}
    → within inner m d ≡ ok (a, d')
    → (d1 : Decoder) × (m inner ≡ ok (a, d1))
within-inv inner m d e = resume-inv d (m inner) e

pub raise-inv :
    {E A : Type 0} (r : Result E A) (d : Decoder) {d' : Decoder} {a : A}
    → raise r d ≡ ok (a, d')
    → r ≡ ok a
raise-inv (ok x) d e = ap (λ t. ok t.0) (ok-injective e)
raise-inv (err x) d e = cc

pub require-inv :
    {E : Type 0} (c : Bool) (x : E) (d : Decoder) {d' : Decoder} {u : Unit {0}}
    → require c x d ≡ ok (u, d')
    → (c ≡ true) × (d ≡ d')
require-inv true x d e = (refl, ap (λ t. t.1) (ok-injective e))
require-inv false x d e = cc
