-- ===== src/Funder/Wrap/Recorded.antt =====
-- components/funder/src/handler/state_wrap.rs: the list of mutations and the state.
use offst.Prelude.{ℕ, ◌≡◌, List, [], ◌∷◌, ◌++◌, some, arith, Option-cases, inl, inr}
use mathlib.Core.Path.{subst}
use offst.Crypto.{Crypto}
use offst.Funder.State.{FunderState, FunderMutation, mutate_state}
use offst.Funder.Wrap.{MutableFunderState, mutate_wrapped, replay_state}

module _ {B : Type 0} (crypto : Crypto) (serialize_address : B → List ℕ) where
  abbrev pub IsRecorded : MutableFunderState B → Type 0
  IsRecorded m = replay_state crypto serialize_address m.mutations m.initial_state ≡ some m.state

  replay-append :
      (fms : List (FunderMutation B)) (fm : FunderMutation B) (s t u : FunderState B)
      → replay_state crypto serialize_address fms s ≡ some t
      → mutate_state crypto serialize_address fm t ≡ some u
      → replay_state crypto serialize_address (fms ++ fm ∷ []) s ≡ some u
  unfolding replay_state
  replay-append [] fm s t u h e = ground arith
  replay-append (x ∷ xs) fm s t u h e =
      elim (Option-cases (mutate_state crypto serialize_address x s)) [
        | inl z ↦ absurd (cc (rw (z, replay_state) at h))
        | inr (s', z) ↦
            rw (z, replay_state) (replay-append xs fm s' t u (rw (z, replay_state) at h) e)
      ]

  pub mutate_wrapped-IsRecorded :
      (fm : FunderMutation B) (m m' : MutableFunderState B)
      → IsRecorded m
      → mutate_wrapped crypto serialize_address fm m ≡ some m'
      → IsRecorded m'
  unfolding mutate_wrapped
  mutate_wrapped-IsRecorded fm m m' r h =
      elim (Option-cases (mutate_state crypto serialize_address fm m.state)) [
        | inl z ↦ absurd (cc (rw (mutate_wrapped, z) at h))
        | inr (s, z) ↦
            subst IsRecorded (same (rw (mutate_wrapped, z) at h))
              (replay-append m.mutations fm m.initial_state m.state s r z)
      ]
    where
      same : {x y : MutableFunderState B} → some x ≡ some y → x ≡ y
      same e = cc e
