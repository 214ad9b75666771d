-- ===== src/Funder/Presence.antt =====
-- components/funder/src/handler/handle_liveness.rs, handle_init.rs, and `MutableEphemeral` of
-- state_wrap.rs: which friends are online, and what the channeler is told at the start.
pub mod Told
use offst.Prelude.{ℕ, List, [], ◌∷◌, ◌++◌, Option, none, some, if◌then◌else◌}
use offst.Prelude.Dict.{Dict, get}
use offst.Prelude.Outcome.{Outcome, ok, err, panic}
use offst.Crypto.{Crypto, PublicKey}
use offst.Messages.{RelayAddress}
use offst.Funder.Action.{Action, ◌>>=◌, ◌>>◌}
use offst.Funder.Messages.{ChannelerConfig, set_relays, update_friend, enabled, disabled}
use offst.Funder.Friend.{FriendState, to_relays, to_vec}
use offst.Funder.Wrap.{MutableFunderState, Source}
use offst.Funder.Liveness.{
  Ephemeral, EphemeralMutation, LivenessMutation, liveness_mutation, set_online, set_offline,
  mutate_ephemeral, is_online,
}
use offst.Funder.Sender.{set_resend_outgoing}
use offst.Funder.Canceler.{Cancel, Canceling, cancel_pending_requests, cancel_pending_user_requests}

pub record MutableEphemeral : Type 0 where
  pub ephemeral : Ephemeral
  pub mutations : List EphemeralMutation

abbrev pub new_mutable_ephemeral : Ephemeral → MutableEphemeral
new_mutable_ephemeral e = record { ephemeral = e; mutations = [] }

unfoldable pub mutate_wrapped_ephemeral : EphemeralMutation → MutableEphemeral → MutableEphemeral
mutate_wrapped_ephemeral mutation m = record {
  ephemeral = mutate_ephemeral mutation m.ephemeral;
  mutations = m.mutations ++ mutation ∷ [];
}

-- `IncomingLivenessMessage` of components/funder/src/types.rs
pub data IncomingLivenessMessage : Type 0 where
  online offline : PublicKey → IncomingLivenessMessage

pub data HandleLivenessError : Type 0 where
  friend_does_not_exist friend_is_disabled friend_already_online : HandleLivenessError

-- What the handler changes.
pub record Presence (B : Type 0) : Type 0 where
  pub canceling : Canceling B
  pub m_ephemeral : MutableEphemeral

module _ {B : Type 0} where
  abbrev pub set_presence : LivenessMutation → Presence B → Presence B
  set_presence lm s = record s {
    m_ephemeral = mutate_wrapped_ephemeral (liveness_mutation lm) s.m_ephemeral;
  }

  abbrev pub canceled_in :
      Presence B
      → Outcome ⊥ (Unit {0}) × Canceling B
      → Outcome HandleLivenessError (Unit {0}) × Presence B
  canceled_in s (ok u, c) = (ok tt, record s { canceling = c })
  canceled_in s (err e, c) = (panic, record s { canceling = c })
  canceled_in s (panic, c) = (panic, record s { canceling = c })

  abbrev pub come_online : PublicKey → Presence B → Presence B
  come_online pk s = set_presence (set_online pk) (record s {
    canceling = record (s.canceling) {
      send_commands = set_resend_outgoing pk s.canceling.send_commands;
    };
  })

  -- The friends that are enabled, as the channeler is told of them.
  unfoldable pub enabled_friends : Dict (FriendState B) → List (ChannelerConfig (RelayAddress B))
  enabled_friends [] = []
  enabled_friends ((pk, f) ∷ d) =
      let rest = enabled_friends d in
      elim f.status [
        | enabled ↦
            update_friend (record {
              friend_public_key = f.remote_public_key;
              friend_relays = f.remote_relays;
              local_relays = to_vec f.sent_local_relays;
            })
            ∷ rest
        | disabled ↦ rest
      ]

  unfoldable pub handle_init :
      MutableFunderState B
      → List (ChannelerConfig (RelayAddress B))
      → List (ChannelerConfig (RelayAddress B))
  handle_init m configs =
      configs ++ set_relays (to_relays m.state.relays) ∷ enabled_friends m.state.friends

  module _ (crypto : Crypto) (serialize_address : B → List ℕ) (source : Source) where
    abbrev pub cancel_all : PublicKey → Cancel B
    cancel_all pk =
        cancel_pending_requests crypto serialize_address source pk
        >> cancel_pending_user_requests crypto serialize_address source pk

    unfoldable pub handle_liveness_message :
        IncomingLivenessMessage → Action (Presence B) HandleLivenessError (Unit {0})
    handle_liveness_message (online pk) s = elim (get pk s.canceling.m_state.state.friends) [
      | none ↦ (err friend_does_not_exist, s)
      | some f ↦ elim f.status [
        | disabled ↦ (err friend_is_disabled, s)
        | enabled ↦
            if is_online s.m_ephemeral.ephemeral.liveness pk
            then (err friend_already_online, s)
            else (ok tt, come_online pk s)
      ]
    ]
    handle_liveness_message (offline pk) s = elim (get pk s.canceling.m_state.state.friends) [
      | none ↦ (ok tt, set_presence (set_offline pk) s)
      | some f ↦ canceled_in (set_presence (set_offline pk) s) (cancel_all pk s.canceling)
    ]
