-- ===== src/Msgr/Session/Stale.antt =====
-- Inputs that come from an earlier transport, in `step` of src/msgr/session.rs.
use rados_rs.Common.{ℕ, ◌≡◌, false, Option, none, some, List, [], ◌∷◌, ◌==◌}
use rados_rs.Msgr.Session.State.{Input, Effect, Machine, push}
use rados_rs.Msgr.Session.Connected.{connected}
use rados_rs.Msgr.Session.Step.{
  renewal_due, initial_identity, write_complete, connect_failed, if_current, handle, step,
}

-- The generation of the transport that an input speaks of.
unfoldable pub generation_of : Input → Option ℕ
generation_of (Input.initial_identity g _ _) = some g
generation_of (Input.write_complete g _ _) = some g
generation_of (Input.connected g _ _) = some g
generation_of (Input.connect_failed g) = some g
generation_of (Input.control g _) = some g
generation_of (Input.message g _) = some g
generation_of (Input.fault g _) = some g
generation_of (Input.renewal_due g) = some g
generation_of _ = none

-- Only a transport that connects too late has to be closed.
unfoldable pub stale_effects : Input → List Effect
stale_effects (Input.connected g _ _) = Effect.close_transport g ∷ []
stale_effects _ = []

-- An input of another generation than the session's leaves the machine as it is, without an effect
-- but the closing of a transport that has just been connected.
pub step-stale :
    (crc32c_append : ℕ → List ℕ → ℕ) (input : Input) (m : Machine) {g : ℕ}
    → generation_of input ≡ some g
    → (g == m.generation) ≡ false
    → step crc32c_append input m ≡ record { m = m; out = stale_effects input }
unfolding generation_of stale_effects step handle initial_identity write_complete connected
    connect_failed if_current renewal_due push
step-stale c (Input.initial_identity k _ _) m e old =
    let h : (k == m.generation) ≡ false = cc in rw h
step-stale c (Input.write_complete k _ _) m e old = let h : (k == m.generation) ≡ false = cc in rw h
step-stale c (Input.connected k _ _) m e old = let h : (k == m.generation) ≡ false = cc in rw h
step-stale c (Input.connect_failed k) m e old = let h : (k == m.generation) ≡ false = cc in rw h
step-stale c (Input.control k _) m e old = let h : (k == m.generation) ≡ false = cc in rw h
step-stale c (Input.message k _) m e old = let h : (k == m.generation) ≡ false = cc in rw h
step-stale c (Input.fault k _) m e old = let h : (k == m.generation) ≡ false = cc in rw h
step-stale c (Input.renewal_due k) m e old = let h : (k == m.generation) ≡ false = cc in rw h
step-stale c _ m e old = cc
