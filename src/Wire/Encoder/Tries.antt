-- ===== src/Wire/Encoder/Tries.antt =====
-- Encoding functions that write where a test holds, and else fail with an error.
use rados_rs.Common.{
  ℕ, ◌≡◌, refl, ap, ◌∙◌, Bool, true, false, ◌&&◌, List, ◌++◌, Result, err, ◌>>=◌, ◌>>◌, ensure,
  bind-step,
}
use rados_rs.Wire.Encoder.{Encoder}
use rados_rs.Wire.Encoder.Writes.{Writes, Writes-then}

pub record Tries {E : Type 0} (x : E) (test : Bool) (f : Encoder → Result E Encoder) (bs : List ℕ)
    : Type 0 where
  pub written : test ≡ true → Writes f bs
  pub refused : test ≡ false → (e : Encoder) → f e ≡ err x

module _ {E : Type 0} {x : E} where
  pub Tries-Writes :
      {f : Encoder → Result E Encoder} {bs : List ℕ} → Writes f bs → Tries x true f bs
  Tries-Writes p = record { written = λ h. p; refused = λ h e. cc }

  module _ {f g : Encoder → Result E Encoder} {a b : List ℕ} where
    pub Tries-then :
        (p q : Bool) → Tries x p f a → Tries x q g b → Tries x (p && q) (λ e. f e >>= g) (a ++ b)
    Tries-then true q t u = record {
      written = λ h. Writes-then (t.written refl) (u.written h);
      refused =
          λ h e. let w = t.written refl in bind-step (f e) g (w.passes e) ∙ u.refused h (w.form e);
    }
    Tries-then false q t u = record {
      written = λ h. cc;
      refused = λ h e. ap (λ r. r >>= g) (t.refused refl e);
    }

    -- The second cannot fail.
    pub Tries-first : {p : Bool} → Tries x p f a → Writes g b → Tries x p (λ e. f e >>= g) (a ++ b)
    Tries-first t w = record {
      written = λ h. Writes-then (t.written h) w;
      refused = λ h e. ap (λ r. r >>= g) (t.refused h e);
    }

    -- The first cannot fail.
    pub Tries-second : {q : Bool} → Writes f a → Tries x q g b → Tries x q (λ e. f e >>= g) (a ++ b)
    Tries-second w t = record {
      written = λ h. Writes-then w (t.written h);
      refused = λ h e. bind-step (f e) g (w.passes e) ∙ t.refused h (w.form e);
    }

  -- A guard.
  pub Tries-ensure :
      (c : Bool) {p : Bool} {f : Encoder → Result E Encoder} {bs : List ℕ}
      → Tries x p f bs
      → Tries x (c && p) (λ e. ensure c x >> f e) bs
  Tries-ensure true t = record {
    written = λ h.
        let w = t.written h in record { form = w.form; emits = w.emits; passes = λ e. w.passes e };
    refused = λ h e. t.refused h e;
  }
  Tries-ensure false t = record { written = λ h. cc; refused = λ h e. refl }
