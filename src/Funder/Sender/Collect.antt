-- ===== src/Funder/Sender/Collect.antt =====
-- components/funder/src/handler/sender.rs: `collect_outgoing_move_token` and
-- `append_cancels_to_move_token`.
use offst.Prelude.{ℕ, Bool, List, [], ◌∷◌, ◌++◌, Option, none, some, ◌==◌, if◌then◌else◌}
use offst.Prelude.Dict.{get}
use offst.Crypto.{Crypto, PublicKey}
use offst.Messages.{FriendTcOp, RequestSendFundsOp, RequestsStatus}
use offst.MutualCredit.{MutualCredit}
use offst.Funder.Action.{Action, pure, gets_unwrap, change, ◌>>=◌, ◌>>◌}
use offst.Funder.Messages.{NamedRelayAddress, update_friend, relays_eq, status_eq}
use offst.Funder.Friend.{
  BackwardsOp, FriendMutation, FriendState, SentLocalRelays, never_sent, transition, last_sent,
  set_sent_local_relays, pop_front_pending_backwards_op, pop_front_pending_request,
  pop_front_pending_user_request, to_relays, to_vec,
}
use offst.Funder.State.{friend_mutation}
use offst.Funder.Wrap.{MutableFunderState, mutate_wrapped}
use offst.Funder.Utils.{credit_with}
use offst.Funder.Sender.{
  Collecting, CollectOutgoingError, queue_operation_or_cancel, set_local_relays, to_friend_tc_op,
}

abbrev pub Collect : Type 0 → Type 0
Collect B = Action (Collecting B) CollectOutgoingError (Unit {0})

module _ {B : Type 0} where
  -- The friend that the token goes to.
  abbrev pub friend_at : PublicKey → Action (Collecting B) CollectOutgoingError (FriendState B)
  friend_at pk = gets_unwrap (λ c. get pk c.m_state.state.friends)

  -- The mutual credit of a channel that is consistent.
  abbrev pub credit_at : PublicKey → Action (Collecting B) CollectOutgoingError MutualCredit
  credit_at pk = friend_at pk >>= λ f. gets_unwrap (λ c. credit_with f.channel_status)

  -- Without a change of the mutations of the state.
  abbrev pub store_state : Collecting B → Option (MutableFunderState B) → Option (Collecting B)
  store_state c none = none
  store_state c (some m) = some (record c { m_state = m })

  -- The list of relays that the friend is told, if it is not the last one it was told.
  abbrev pub new_sent_relays :
      (B → B → Bool) → List (NamedRelayAddress B) → SentLocalRelays B → Option (SentLocalRelays B)
  new_sent_relays address_eq relays never_sent = some (last_sent relays)
  new_sent_relays address_eq relays (transition last before) =
      if relays_eq address_eq relays last then none else some (transition relays last)
  new_sent_relays address_eq relays (last_sent last) =
      if relays_eq address_eq relays last then none else some (transition relays last)

  module _ (crypto : Crypto) (serialize_address : B → List ℕ) (address_eq : B → B → Bool)
      (pk : PublicKey) where
    abbrev pub mutate_collecting : FriendMutation B → Collect B
    mutate_collecting fm = change (λ c.
        store_state c (mutate_wrapped crypto serialize_address (friend_mutation pk fm) c.m_state))

    abbrev pub queue : FriendTcOp → Collect B
    queue op = queue_operation_or_cancel crypto serialize_address op

    abbrev pub announce : FriendState B → Collecting B → Option (Collecting B)
    announce f c = some (record c {
      outgoing_channeler_config =
          c.outgoing_channeler_config
          ++ update_friend (record {
            friend_public_key = pk;
            friend_relays = f.remote_relays;
            local_relays = to_vec f.sent_local_relays;
          })
            ∷ [];
    })

    abbrev pub put_relays : Collecting B → Option (Collecting B)
    put_relays c = some (record c {
      pending_move_token = set_local_relays (to_relays c.m_state.state.relays) c.pending_move_token;
    })

    abbrev pub tell_channeler : Collect B
    tell_channeler = do f ← friend_at pk; change (announce f)

    abbrev pub announce_relays : Option (SentLocalRelays B) → Collect B
    announce_relays none = pure tt
    announce_relays (some sent) = do
      change put_relays
      mutate_collecting (set_sent_local_relays sent)
      tell_channeler

    -- The friend is told the relays of this node, and the channeler to listen on them.
    unfoldable pub send_relays : Collect B
    send_relays = do
      f ← friend_at pk
      sent ←
          gets_unwrap
            (λ c. some (new_sent_relays address_eq c.m_state.state.relays f.sent_local_relays))
      announce_relays sent

    unfoldable pub send_max_debt : Collect B
    send_max_debt = do
      f ← friend_at pk
      mc ← credit_at pk
      if mc.balance.remote_max_debt == f.wanted_remote_max_debt
          then pure tt
          else queue (FriendTcOp.set_remote_max_debt f.wanted_remote_max_debt)

    abbrev pub status_op : RequestsStatus → FriendTcOp
    status_op RequestsStatus.opened = FriendTcOp.enable_requests
    status_op RequestsStatus.closed = FriendTcOp.disable_requests

    unfoldable pub send_requests_status : Collect B
    send_requests_status = do
      f ← friend_at pk
      mc ← credit_at pk
      if status_eq f.wanted_local_requests_status mc.requests_status.local
          then pure tt
          else queue (status_op f.wanted_local_requests_status)

    unfoldable pub send_backwards_ops : List BackwardsOp → Collect B
    send_backwards_ops [] = pure tt
    send_backwards_ops (op ∷ ops) =
        queue (to_friend_tc_op op)
        >> mutate_collecting pop_front_pending_backwards_op
        >> send_backwards_ops ops

    unfoldable pub send_requests : FriendMutation B → List RequestSendFundsOp → Collect B
    send_requests pop [] = pure tt
    send_requests pop (r ∷ rs) =
        queue (FriendTcOp.request_send_funds r) >> mutate_collecting pop >> send_requests pop rs

    abbrev pub send_pending_backwards_ops : Collect B
    send_pending_backwards_ops = do f ← friend_at pk; send_backwards_ops f.pending_backwards_ops

    abbrev pub send_pending_requests : Collect B
    send_pending_requests = do
      f ← friend_at pk
      send_requests pop_front_pending_request f.pending_requests

    abbrev pub send_pending_user_requests : Collect B
    send_pending_user_requests = do
      f ← friend_at pk
      send_requests pop_front_pending_user_request f.pending_user_requests

    unfoldable pub collect_outgoing_move_token : Collect B
    collect_outgoing_move_token = do
      send_relays
      send_max_debt
      send_requests_status
      send_pending_backwards_ops
      send_pending_requests
      send_pending_user_requests

    -- The body of `append_cancels_to_move_token`; its keys and control messages are dropped.
    abbrev pub append_cancels_to_move_token : Collect B
    append_cancels_to_move_token = send_pending_backwards_ops
