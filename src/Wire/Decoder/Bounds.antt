-- ===== src/Wire/Decoder/Bounds.antt =====
-- The bounds and the first error of `Decoder::take` in src/wire/codec.rs, on which all reads stand.
use rados_rs.Common.{
  ℕ, ◌+◌, ◌-◌, ◌≤◌, ◌≡◌, refl, arith, ◌||◌, Option, none, some, List, [], length, take, Bool, true,
  false, length-take, length-drop, drop, ltb, is_some, Bool-cases, inl, inr,
}
use rados_rs.Wire.Errors.{WireError}
use rados_rs.Wire.Decoder.{Decoder, get_or_insert, take_slice, remaining}

-- The cursor is inside the slice.
pub record IsWithin (d : Decoder) : Type 0 where
  pub offset : d.offset ≤ length d.bytes

-- `d'` is `d` after a read of `n` bytes that gave `slice`.
pub record IsTake (n : ℕ) (d : Decoder) (slice : List ℕ) (d' : Decoder) : Type 0 where
  pub within : d'.offset ≤ length d'.bytes
  pub same : d'.bytes ≡ d.bytes
  pub moves : d'.offset ≡ d.offset + length slice
  pub gives : d'.error ≡ none → slice ≡ take n (drop d.offset d.bytes)
  pub all : d'.error ≡ none → length slice ≡ n
  pub nothing : (e : WireError) → d'.error ≡ some e → slice ≡ []
  pub succeeds : d.error ≡ none → n ≤ remaining d → d'.error ≡ none
  pub sticky : (e : WireError) → d.error ≡ some e → d'.error ≡ some e
  pub fits : d'.error ≡ none → remaining d ≡ n + remaining d'

set_error : (o : Option WireError) (e : WireError) → get_or_insert o e ≡ none → ⊥
set_error none e h = cc
set_error (some x) e h = cc

clean :
    (o : Option WireError) (b : Bool) (e : WireError) → (is_some o || b) ≡ false → o ≡ some e → ⊥
clean none b e t h = cc
clean (some x) b e t h = cc

allowed :
    (d : Decoder) (n : ℕ)
    → d.error ≡ none
    → n ≤ remaining d
    → (is_some d.error || ltb (length d.bytes - d.offset) n) ≡ true
    → ⊥
unfolding remaining
allowed d n e h t = ground (arith, e, h, t)

-- Reading `n` bytes from a decoder whose cursor is inside its slice keeps it there and succeeds where
-- the decoder has no error and `n` bytes are left; then it gives the next `n` bytes, and else none; it
-- moves the cursor by what it gives, and keeps an earlier error.
pub take_slice-IsTake :
    (n : ℕ) (d : Decoder) → IsWithin d → IsTake n d (take_slice n d).0 (take_slice n d).1
unfolding take_slice remaining
take_slice-IsTake n d w = elim (Bool-cases (is_some d.error || ltb (length d.bytes - d.offset) n)) [
  | inl refused ↦ rw refused (record {
    within = w.offset;
    same = refl;
    moves = omega arith;
    gives = λ e. absurd (set_error d.error _ e);
    all = λ e. absurd (set_error d.error _ e);
    nothing = λ e h. refl;
    succeeds = λ e h. absurd (allowed d n e h refused);
    sticky = λ e h. rw h refl;
    fits = λ e. absurd (set_error d.error _ e);
  })
  | inr taken ↦ rw taken (record {
    within = ground (arith, taken, w.offset);
    same = refl;
    moves =
        ground (arith, taken, length-take n (drop d.offset d.bytes), length-drop d.offset d.bytes);
    gives = λ e. refl;
    nothing = λ e h. absurd (clean d.error _ e taken h);
    succeeds = λ e h. e;
    all = λ e.
        ground (arith, taken, length-take n (drop d.offset d.bytes), length-drop d.offset d.bytes);
    sticky = λ e h. h;
    fits = λ e. ground (arith, taken, w.offset);
  })
]
