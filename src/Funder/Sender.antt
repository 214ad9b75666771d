-- ===== src/Funder/Sender.antt =====
-- components/funder/src/handler/sender.rs: the operations that are put in the next move token to a
-- friend. Only results of transactions are pushed to the control messages here.
pub mod Collect
pub mod Queued
pub mod Tracks
pub mod CollectSteps
pub mod Stages
pub mod StageSteps
pub mod Collected
pub mod Send
pub mod Delivered
pub mod Canceled
use offst.Prelude.{
  ℕ, Bool, true, false, List, [], ◌∷◌, ◌++◌, Option, none, some, length, leb, if◌then◌else◌,
}
use offst.Prelude.Dict.{Dict, get, insert}
use offst.Prelude.Outcome.{Outcome, ok, err, panic}
use offst.Crypto.{Crypto, PublicKey}
use offst.Messages.{FriendTcOp, RelayAddress, RequestSendFundsOp, create_pending_transaction}
use offst.Route.{contains}
use offst.MutualCredit.{MutualCredit, McMutation}
use offst.MutualCredit.Outgoing.{queue_operation, QueueOperationError}
use offst.TokenChannel.{TcMutation}
use offst.Funder.Messages.{TransactionResult, failure, ChannelerConfig, create_cancel_send_funds}
use offst.Funder.Friend.{
  BackwardsOp, FriendMutation, FriendState, tc_mutation, push_back_pending_backwards_op,
}
use offst.Funder.State.{FunderState, FunderMutation, friend_mutation}
use offst.Funder.Wrap.{MutableFunderState, mutate_wrapped}
use offst.Funder.Utils.{find_request_origin}

pub record FriendSendCommands : Type 0 where
  pub try_send : Bool
  pub resend_outgoing : Bool
  pub remote_wants_token : Bool
  pub local_reset : Bool

abbrev pub no_commands : FriendSendCommands
no_commands = record {
  try_send = false;
  resend_outgoing = false;
  remote_wants_token = false;
  local_reset = false;
}

pub record SendCommands : Type 0 where
  pub send_commands : Dict FriendSendCommands

-- `entry(key).or_insert_with(FriendSendCommands::new)`
abbrev pub commands_of : PublicKey → SendCommands → FriendSendCommands
commands_of pk c = elim (get pk c.send_commands) [ none ↦ no_commands | some f ↦ f ]

abbrev pub set_try_send : PublicKey → SendCommands → SendCommands
set_try_send pk c = record {
  send_commands = insert pk (record (commands_of pk c) { try_send = true }) c.send_commands;
}

abbrev pub set_resend_outgoing : PublicKey → SendCommands → SendCommands
set_resend_outgoing pk c = record {
  send_commands = insert pk (record (commands_of pk c) { resend_outgoing = true }) c.send_commands;
}

abbrev pub set_remote_wants_token : PublicKey → SendCommands → SendCommands
set_remote_wants_token pk c = record {
  send_commands =
      insert pk (record (commands_of pk c) { remote_wants_token = true }) c.send_commands;
}

abbrev pub set_local_reset : PublicKey → SendCommands → SendCommands
set_local_reset pk c = record {
  send_commands = insert pk (record (commands_of pk c) { local_reset = true }) c.send_commands;
}

pub data PendingQueueError : Type 0 where
  insufficient_trust max_operations_reached : PendingQueueError

pub data CollectOutgoingError : Type 0 where
  max_operations_reached : CollectOutgoingError

pub record PendingMoveToken (B : Type 0) : Type 0 where
  pub friend_public_key : PublicKey
  pub outgoing_mc : MutualCredit
  pub operations : List FriendTcOp
  pub opt_local_relays : Option (List (RelayAddress B))
  pub token_wanted : Bool
  pub max_operations_in_batch : ℕ
  pub may_send_empty : Bool

-- What `collect_outgoing_move_token` changes.
pub record Collecting (B : Type 0) : Type 0 where
  pub m_state : MutableFunderState B
  pub pending_move_token : PendingMoveToken B
  pub cancel_public_keys : List PublicKey
  pub outgoing_control : List TransactionResult
  pub outgoing_channeler_config : List (ChannelerConfig (RelayAddress B))

-- `backwards_op_to_friend_tc_op`
abbrev pub to_friend_tc_op : BackwardsOp → FriendTcOp
to_friend_tc_op (BackwardsOp.response r) = FriendTcOp.response_send_funds r
to_friend_tc_op (BackwardsOp.cancel c) = FriendTcOp.cancel_send_funds c
to_friend_tc_op (BackwardsOp.collect c) = FriendTcOp.collect_send_funds c

abbrev pub insert_key : PublicKey → List PublicKey → List PublicKey
insert_key pk s = if contains pk s then s else pk ∷ s

module _ {B : Type 0} where
  abbrev pub new_pending : PublicKey → MutualCredit → ℕ → Bool → PendingMoveToken B
  new_pending pk mc max may_send_empty = record {
    friend_public_key = pk;
    outgoing_mc = mc;
    operations = [];
    opt_local_relays = none;
    token_wanted = false;
    max_operations_in_batch = max;
    may_send_empty = may_send_empty;
  }

  -- `set_local_relays`
  abbrev pub set_local_relays : List (RelayAddress B) → PendingMoveToken B → PendingMoveToken B
  set_local_relays relays p = record p { opt_local_relays = some relays }

  abbrev pub push_operation : FriendTcOp → PendingMoveToken B → PendingMoveToken B
  push_operation op p = record p { operations = p.operations ++ op ∷ [] }

  module _ (crypto : Crypto) (serialize_address : B → List ℕ) where
    -- The `for` loop over the mutations.
    unfoldable pub mutate_credit :
        PublicKey → List McMutation → MutableFunderState B → Option (MutableFunderState B)
    mutate_credit pk [] m = some m
    mutate_credit pk (x ∷ xs) m =
        elim (mutate_wrapped crypto serialize_address
          (friend_mutation pk (tc_mutation (TcMutation.mc_mutation x))) m) [
            | none ↦ none
            | some m' ↦ mutate_credit pk xs m'
          ]

    abbrev pub Queued : Type 0
    Queued = Outcome PendingQueueError (Unit {0}) × PendingMoveToken B × MutableFunderState B

    abbrev pub applied :
        PendingMoveToken B → MutableFunderState B → Option (MutableFunderState B) → Queued
    applied p m none = (panic, p, m)
    applied p m (some m') = (ok tt, p, m')

    -- From the answer of the mutual credit on.
    abbrev pub queue_answer :
        FriendTcOp
        → PendingMoveToken B
        → MutableFunderState B
        → Outcome QueueOperationError (List McMutation) × MutualCredit
        → Queued
    queue_answer op p m (ok ms, mc) =
        let q = push_operation op (record p { outgoing_mc = mc }) in
        applied q m (mutate_credit p.friend_public_key ms m)
    queue_answer op p m (err QueueOperationError.request_already_exists, mc) =
        (ok tt, push_operation op (record p { outgoing_mc = mc }), m)
    queue_answer op p m (err QueueOperationError.insufficient_trust, mc) =
        (err PendingQueueError.insufficient_trust, record p { outgoing_mc = mc }, m)
    queue_answer op p m (err _, mc) = (panic, record p { outgoing_mc = mc }, m)
    queue_answer op p m (panic, mc) = (panic, record p { outgoing_mc = mc }, m)

    -- `PendingMoveToken::queue_operation`
    unfoldable pub queue_pending : FriendTcOp → PendingMoveToken B → MutableFunderState B → Queued
    queue_pending op p m =
        if leb p.max_operations_in_batch (length p.operations)
        then (err PendingQueueError.max_operations_reached, p, m)
        else queue_answer op p m (queue_operation crypto op p.outgoing_mc)

    abbrev pub Collected : Type 0
    Collected = Outcome CollectOutgoingError (Unit {0}) × Collecting B

    abbrev pub canceled_to : PublicKey → Collecting B → Option (MutableFunderState B) → Collected
    canceled_to pk c none = (panic, c)
    canceled_to pk c (some m) =
        (ok tt, record c { m_state = m; cancel_public_keys = insert_key pk c.cancel_public_keys })

    -- The cancellation of a request that does not fit.
    unfoldable pub cancel_request : RequestSendFundsOp → Collecting B → Collected
    cancel_request r c = elim (find_request_origin c.m_state.state r.request_id) [
      | some origin ↦ canceled_to origin c (
          mutate_wrapped crypto serialize_address
            (friend_mutation origin (
              push_back_pending_backwards_op (
                BackwardsOp.cancel
                  (create_cancel_send_funds (create_pending_transaction r).request_id))))
            c.m_state)
      | none ↦ (
        ok tt,
        record c {
          outgoing_control =
              c.outgoing_control ++ record { request_id = r.request_id; result = failure } ∷ [];
        },
      )
    ]

    -- Only a request can lack trust.
    abbrev pub cancel_operation : FriendTcOp → Collecting B → Collected
    cancel_operation (FriendTcOp.request_send_funds r) c = cancel_request r c
    cancel_operation _ c = (panic, c)

    abbrev pub after_queue : FriendTcOp → Collecting B → Queued → Collected
    after_queue op c (ok u, p, m) = (ok tt, record c { m_state = m; pending_move_token = p })
    after_queue op c (err PendingQueueError.max_operations_reached, p, m) = (
      err CollectOutgoingError.max_operations_reached,
      record c { m_state = m; pending_move_token = record p { token_wanted = true } },
    )
    after_queue op c (err PendingQueueError.insufficient_trust, p, m) =
        cancel_operation op (record c { m_state = m; pending_move_token = p })
    after_queue op c (panic, p, m) = (panic, record c { m_state = m; pending_move_token = p })

    -- `queue_operation_or_cancel`
    unfoldable pub queue_operation_or_cancel : FriendTcOp → Collecting B → Collected
    queue_operation_or_cancel op c =
        after_queue op c (queue_pending op c.pending_move_token c.m_state)
