-- ===== src/Funder/Canceler.antt =====
-- components/funder/src/handler/canceler.rs: cancellation of requests, at the friend that they came
-- from or for the user. Only results of transactions are pushed to the control messages here.
pub mod Counts
pub mod Logged
use offst.Prelude.{ℕ, zero, suc, ◌++◌, List, [], ◌∷◌, Option, none, some}
use offst.Prelude.Dict.{Dict, get}
use offst.Crypto.{Crypto, PublicKey, Uid}
use offst.Messages.{PendingTransaction, RequestSendFundsOp, create_pending_transaction}
use offst.Funder.Action.{Action, pure, gets, gets_unwrap, change, ◌>>=◌, ◌>>◌}
use offst.Funder.Messages.{TransactionResult, failure, create_cancel_send_funds}
use offst.Funder.Friend.{
  BackwardsOp, FriendMutation, push_back_pending_backwards_op, pop_front_pending_request,
  pop_front_pending_user_request,
}
use offst.Funder.State.{
  Payment, new_transactions, in_progress, success, canceled, after_success_ack, FunderState,
  FunderMutation, PaymentId, friend_mutation, update_payment, remove_payment,
}
use offst.Funder.State
use offst.Funder.Wrap.{MutableFunderState, Source, mutate_wrapped}
use offst.Funder.Utils.{credit_with, find_request_origin}
use offst.Funder.Sender.{SendCommands, set_try_send}

-- What these functions change, with how many random values were drawn.
pub record Canceling (B : Type 0) : Type 0 where
  pub m_state : MutableFunderState B
  pub send_commands : SendCommands
  pub outgoing_control : List TransactionResult
  pub drawn : ℕ

abbrev pub Cancel : Type 0 → Type 0
Cancel B = Action (Canceling B) ⊥ (Unit {0})

-- The payment with one transaction less: the outer `none` is a panic, the inner one a payment that is
-- removed. `ack_uid` is the next random value.
unfoldable pub less_transactions : Uid → Payment → Option (Option Payment)
less_transactions ack_uid (new_transactions n) = elim n.num_transactions [
  | zero ↦ none
  | suc k ↦ some (some (new_transactions (record n { num_transactions = k })))
]
less_transactions ack_uid (in_progress zero) = none
less_transactions ack_uid (in_progress (suc zero)) = some (some (canceled ack_uid))
less_transactions ack_uid (in_progress (suc (suc k))) = some (some (in_progress (suc k)))
less_transactions ack_uid (success zero receipt request_id) = none
less_transactions ack_uid (success (suc k) receipt request_id) =
    some (some (success k receipt request_id))
less_transactions ack_uid (canceled uid) = none
less_transactions ack_uid (after_success_ack zero) = none
less_transactions ack_uid (after_success_ack (suc zero)) = some none
less_transactions ack_uid (after_success_ack (suc (suc k))) =
    some (some (after_success_ack (suc k)))

-- Only the end of a payment in progress draws a value.
abbrev pub drawn_after : Payment → ℕ → ℕ
drawn_after (in_progress (suc zero)) n = suc n
drawn_after _ n = n

module _ {B : Type 0} where
  abbrev pub store_canceling : Canceling B → Option (MutableFunderState B) → Option (Canceling B)
  store_canceling c none = none
  store_canceling c (some m) = some (record c { m_state = m })

  abbrev pub payment_mutation : PaymentId → Option Payment → FunderMutation B
  payment_mutation id none = remove_payment id
  payment_mutation id (some p) = update_payment id p

  abbrev pub try_send_to : PublicKey → Canceling B → Option (Canceling B)
  try_send_to pk c = some (record c { send_commands = set_try_send pk c.send_commands })

  abbrev pub push_failure : Uid → Canceling B → Option (Canceling B)
  push_failure request_id c = some (record c {
    outgoing_control =
        c.outgoing_control ++ record { request_id = request_id; result = failure } ∷ [];
  })

  module _ (crypto : Crypto) (serialize_address : B → List ℕ) (source : Source) where
    abbrev pub mutate_canceling : FunderMutation B → Cancel B
    mutate_canceling fm =
        change (λ c. store_canceling c (mutate_wrapped crypto serialize_address fm c.m_state))

    abbrev pub push_cancel : PublicKey → Uid → Cancel B
    push_cancel pk request_id = mutate_canceling (
        friend_mutation pk (
          push_back_pending_backwards_op
            (BackwardsOp.cancel (create_cancel_send_funds request_id))))

    -- `reply_with_cancel`
    abbrev pub reply_with_cancel : PublicKey → Uid → Cancel B
    reply_with_cancel remote_public_key request_id =
        push_cancel remote_public_key request_id >> change (try_send_to remote_public_key)

    unfoldable pub remove_transaction : Uid → Cancel B
    remove_transaction request_id = do
      t ← gets_unwrap (λ c. get request_id c.m_state.state.open_transactions)
      payment ← gets_unwrap (λ c. get t.payment_id c.m_state.state.payments)
      mutate_canceling (State.remove_transaction request_id)
      new_payment ← gets_unwrap (λ c. less_transactions (source.random c.drawn) payment)
      change (λ c. some (record c { drawn = drawn_after payment c.drawn }))
      mutate_canceling (payment_mutation t.payment_id new_payment)

    -- A request that ends: its origin is told, or the user.
    abbrev pub cancel_to : Uid → Option PublicKey → Cancel B
    cancel_to request_id (some origin) = reply_with_cancel origin request_id
    cancel_to request_id none = change (push_failure request_id) >> remove_transaction request_id

    abbrev pub cancel_one : Uid → Cancel B
    cancel_one request_id =
        gets (λ c. find_request_origin c.m_state.state request_id) >>= cancel_to request_id

    unfoldable pub cancel_transactions : Dict PendingTransaction → Cancel B
    cancel_transactions [] = pure tt
    cancel_transactions ((id, t) ∷ rest) = do
      origin ← gets (λ c. find_request_origin c.m_state.state id)
      cancel_to t.request_id origin
      cancel_transactions rest

    -- `cancel_local_pending_transactions`
    abbrev pub cancel_local_pending_transactions : PublicKey → Cancel B
    cancel_local_pending_transactions pk = do
      f ← gets_unwrap (λ c. get pk c.m_state.state.friends)
      mc ← gets_unwrap (λ c. credit_with f.channel_status)
      cancel_transactions mc.pending_transactions.local

    unfoldable pub cancel_requests : PublicKey → List RequestSendFundsOp → Cancel B
    cancel_requests pk [] = pure tt
    cancel_requests pk (r ∷ rest) =
        mutate_canceling (friend_mutation pk pop_front_pending_request)
        >> cancel_one r.request_id
        >> cancel_requests pk rest

    -- `cancel_pending_requests`
    abbrev pub cancel_pending_requests : PublicKey → Cancel B
    cancel_pending_requests pk = gets_unwrap (λ c. get pk c.m_state.state.friends) >>= λ f.
        cancel_requests pk f.pending_requests

    unfoldable pub cancel_user_requests : PublicKey → List RequestSendFundsOp → Cancel B
    cancel_user_requests pk [] = pure tt
    cancel_user_requests pk (r ∷ rest) =
        mutate_canceling (friend_mutation pk pop_front_pending_user_request)
        >> change (push_failure r.request_id)
        >> remove_transaction r.request_id
        >> cancel_user_requests pk rest

    -- `cancel_pending_user_requests`
    abbrev pub cancel_pending_user_requests : PublicKey → Cancel B
    cancel_pending_user_requests pk = gets_unwrap (λ c. get pk c.m_state.state.friends) >>= λ f.
        cancel_user_requests pk f.pending_user_requests
