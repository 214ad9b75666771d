-- ===== src/Funder/Presence/Told.antt =====
-- components/funder/src/handler/handle_liveness.rs: what a message changes.
use offst.Prelude.{
  ℕ, ◌≡◌, ◌≢◌, refl, true, false, List, [], ◌∷◌, ◌++◌, arith, Option-cases, Bool-cases, inl, inr,
  if◌then◌else◌,
}
use offst.Prelude.Dict.{get}
use offst.Prelude.Outcome.{Outcome, ok, err, panic}
use offst.Crypto.{Crypto, PublicKey}
use offst.Route.{contains}
use offst.Funder.Action.{Keeps, both-Keeps}
use offst.Funder.Messages.{FriendStatus, enabled, disabled}
use offst.Funder.Liveness.{
  Ephemeral, EphemeralMutation, LivenessMutation, liveness_mutation, set_online, set_offline,
  set_remove, mutate_ephemeral, mutate_liveness, is_online,
}
use offst.Funder.Wrap.{Source}
use offst.Funder.Wrap.Recorded.{IsRecorded}
use offst.Funder.Canceler.{Canceling}
use offst.Funder.Canceler.Logged.{Logged, all_requests-Keeps}
use offst.Funder.Presence.{
  MutableEphemeral, mutate_wrapped_ephemeral, IncomingLivenessMessage, online, offline,
  HandleLivenessError, Presence, set_presence, canceled_in, come_online, cancel_all,
  handle_liveness_message,
}

-- The mutations of the list, in order.
unfoldable pub replay_ephemeral : List EphemeralMutation → Ephemeral → Ephemeral
replay_ephemeral [] e = e
replay_ephemeral (m ∷ ms) e = replay_ephemeral ms (mutate_ephemeral m e)

replay-append :
    (ms : List EphemeralMutation) (m : EphemeralMutation) (e : Ephemeral)
    → replay_ephemeral (ms ++ m ∷ []) e ≡ mutate_ephemeral m (replay_ephemeral ms e)
unfolding replay_ephemeral
replay-append [] m e = refl
replay-append (x ∷ xs) m e = replay-append xs m (mutate_ephemeral x e)

contains-remove : (pk : PublicKey) (s : List PublicKey) → contains pk (set_remove pk s) ≡ false
unfolding set_remove contains
contains-remove pk [] = refl
contains-remove pk (x ∷ xs) = ground (arith, contains-remove pk xs)

contains-remove_other :
    (pk other : PublicKey) (s : List PublicKey)
    → other ≢ pk
    → contains other (set_remove pk s) ≡ contains other s
unfolding set_remove contains
contains-remove_other pk other [] n = refl
contains-remove_other pk other (x ∷ xs) n = ground (arith, contains-remove_other pk other xs n)

-- Whether a friend is online after a message from the channeler: only the friend that it names can
-- change.
abbrev pub IsShown : IncomingLivenessMessage → Ephemeral → Ephemeral → Type 0
IsShown (online pk) e e' =
    (is_online e'.liveness pk ≡ true)
    × ((other : PublicKey) → other ≢ pk → is_online e'.liveness other ≡ is_online e.liveness other)
IsShown (offline pk) e e' =
    (is_online e'.liveness pk ≡ false)
    × ((other : PublicKey) → other ≢ pk → is_online e'.liveness other ≡ is_online e.liveness other)

online-IsShown :
    (pk : PublicKey) (e : Ephemeral)
    → IsShown (online pk) e (mutate_ephemeral (liveness_mutation (set_online pk)) e)
unfolding mutate_liveness is_online contains
online-IsShown pk e = (ground arith, λ other n. ground arith)

offline-IsShown :
    (pk : PublicKey) (e : Ephemeral)
    → IsShown (offline pk) e (mutate_ephemeral (liveness_mutation (set_offline pk)) e)
unfolding mutate_liveness is_online
offline-IsShown pk e = (
  contains-remove pk e.liveness.friends,
  λ other n. contains-remove_other pk other e.liveness.friends n,
)

module _ {B : Type 0} (crypto : Crypto) (serialize_address : B → List ℕ) (source : Source)
    (start : Ephemeral) where
  -- The mutations that are recorded lead to the states.
  abbrev pub BothRecorded : Presence B → Type 0
  BothRecorded s =
      IsRecorded crypto serialize_address s.canceling.m_state
      × (replay_ephemeral s.m_ephemeral.mutations start ≡ s.m_ephemeral.ephemeral)

  abbrev pub IsTold :
      IncomingLivenessMessage
      → Presence B
      → Outcome HandleLivenessError (Unit {0}) × Presence B
      → Type 0
  IsTold message s (ok u, t) =
      BothRecorded t × IsShown message s.m_ephemeral.ephemeral t.m_ephemeral.ephemeral
  IsTold message s (err e, t) = t ≡ s
  IsTold message s (panic, t) = BothRecorded t

  presence-Recorded :
      (lm : LivenessMutation) (m : MutableEphemeral)
      → replay_ephemeral m.mutations start ≡ m.ephemeral
      → (replay_ephemeral (mutate_wrapped_ephemeral (liveness_mutation lm) m).mutations start
          ≡ (mutate_wrapped_ephemeral (liveness_mutation lm) m).ephemeral)
  unfolding mutate_wrapped_ephemeral
  presence-Recorded lm m h = rw (replay-append m.mutations (liveness_mutation lm) start, h) refl

  canceled-IsTold :
      (pk : PublicKey) (s : Presence B) (x : Outcome ⊥ (Unit {0}) × Canceling B)
      → BothRecorded s
      → Logged crypto serialize_address source x.1
      → IsTold (offline pk) s (canceled_in (set_presence (set_offline pk) s) x)
  unfolding mutate_wrapped_ephemeral
  canceled-IsTold pk s (ok u, c) r l = (
    (l, presence-Recorded (set_offline pk) s.m_ephemeral r.1),
    offline-IsShown pk s.m_ephemeral.ephemeral,
  )
  canceled-IsTold pk s (err e, c) r l = (l, presence-Recorded (set_offline pk) s.m_ephemeral r.1)
  canceled-IsTold pk s (panic, c) r l = (l, presence-Recorded (set_offline pk) s.m_ephemeral r.1)

  -- When the recorded mutations lead to the state and to the friends that are online,
  -- `handle_liveness_message` either refuses the message and changes nothing, or these mutations
  -- still do, also when it panics; and when it returns, the friend of the message is online or not
  -- as the message tells, and all others are as before.
  pub handle_liveness_message-IsTold :
      (message : IncomingLivenessMessage) (s : Presence B)
      → BothRecorded s
      → IsTold message s (handle_liveness_message crypto serialize_address source message s)
  unfolding handle_liveness_message mutate_wrapped_ephemeral
  handle_liveness_message-IsTold (online pk) s r =
      elim (Option-cases (get pk s.canceling.m_state.state.friends)) [
        | inl e ↦ rw (handle_liveness_message, e) refl
        | inr (f, e) ↦ rw (handle_liveness_message, e) (by_status f.status)
      ]
    where
      by_status :
          (status : FriendStatus)
          → IsTold (online pk) s (elim status [
            | disabled ↦ (err HandleLivenessError.friend_is_disabled, s)
            | enabled ↦
                if is_online s.m_ephemeral.ephemeral.liveness pk
                then (err HandleLivenessError.friend_already_online, s)
                else (ok tt, come_online pk s)
          ])
      by_status disabled = refl
      by_status enabled = elim (Bool-cases (is_online s.m_ephemeral.ephemeral.liveness pk)) [
        | inl e ↦ rw e refl
        | inr e ↦ rw e (
          (r.0, presence-Recorded (set_online pk) s.m_ephemeral r.1),
          online-IsShown pk s.m_ephemeral.ephemeral,
        )
      ]
  handle_liveness_message-IsTold (offline pk) s r =
      elim (Option-cases (get pk s.canceling.m_state.state.friends)) [
        | inl e ↦
            rw (handle_liveness_message, e)
              (
                (r.0, presence-Recorded (set_offline pk) s.m_ephemeral r.1),
                offline-IsShown pk s.m_ephemeral.ephemeral,
              )
        | inr (f, e) ↦
            rw (handle_liveness_message, e)
              (canceled-IsTold pk s (cancel_all crypto serialize_address source pk s.canceling) r
                (cancels.kept s.canceling r.0))
      ]
    where
      cancels :
          Keeps
            (Logged crypto serialize_address source)
            (cancel_all crypto serialize_address source pk)
      cancels =
          both-Keeps (all_requests-Keeps crypto serialize_address source pk).0
            (all_requests-Keeps crypto serialize_address source pk).1
