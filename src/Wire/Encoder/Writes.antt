-- ===== src/Wire/Encoder/Writes.antt =====
-- Encoding functions that can fail before they write: with their guards passed, they write bytes.
use rados_rs.Common.{ℕ, ◌≡◌, refl, Bool, true, List, ◌++◌, Result, ok, ◌>>=◌, ◌>>◌, ensure, map_err}
use rados_rs.Wire.Encoder.{Encoder}
use rados_rs.Wire.Encoder.Emits.{Emits, Emits-then}

pub record Writes {E : Type 0} (f : Encoder → Result E Encoder) (bs : List ℕ) : Type 0 where
  pub form : Encoder → Encoder
  pub emits : Emits form bs
  pub passes : (e : Encoder) → f e ≡ ok (form e)

module _ {E : Type 0} where
  pub Writes-then :
      {f g : Encoder → Result E Encoder} {a b : List ℕ}
      → Writes f a
      → Writes g b
      → Writes (λ e. f e >>= g) (a ++ b)
  Writes-then p q = record {
    form = λ e. q.form (p.form e);
    emits = Emits-then p.emits q.emits;
    passes = λ e. rw (p.passes e) (q.passes (p.form e));
  }

  pub Writes-Emits :
      {f : Encoder → Encoder} {bs : List ℕ} → Emits f bs → Writes {E = E} (λ e. ok (f e)) bs
  Writes-Emits {f} p = record { form = f; emits = p; passes = λ e. refl }

  -- A guard that is passed.
  pub Writes-ensure :
      {c : Bool} {f : Encoder → Result E Encoder} {bs : List ℕ} (x : E)
      → c ≡ true
      → Writes f bs
      → Writes (λ e. ensure c x >> f e) bs
  Writes-ensure x h p = record { form = p.form; emits = p.emits; passes = λ e. rw h (p.passes e) }

-- `?` between two types of errors.
pub Writes-map_err :
    {E F : Type 0} (g : E → F) {f : Encoder → Result E Encoder} {bs : List ℕ}
    → Writes f bs
    → Writes (λ e. map_err g (f e)) bs
Writes-map_err g p = record { form = p.form; emits = p.emits; passes = λ e. rw (p.passes e) refl }
