-- ===== src/MutualCredit/Outgoing.antt =====
-- components/funder/src/mutual_credit/outgoing.rs: the operations that are queued for the friend.
-- `OutgoingMc` holds a clone of the mutual credit, which is the state of these actions.
use offst.Prelude.{ℕ, not, List, [], ◌∷◌, leb, ◌==◌, get_last?}
use offst.Prelude.Int.{pos, leb_ℤ}
use offst.Prelude.Dict.{get, contains_key}
use offst.Crypto.{Crypto, Signature, hash_lock}
use offst.Messages.{
  RequestSendFundsOp, ResponseSendFundsOp, CancelSendFundsOp, CollectSendFundsOp, FriendTcOp,
  TransactionStage, RequestsStatus, is_open, create_pending_transaction,
}
use offst.Route.{is_valid, find_pk_pair}
use offst.SafeArith.{
  unsigned_checked_add, unsigned_checked_sub, checked_add_unsigned, checked_sub_unsigned,
}
use offst.Buffers.{create_response_signature_buffer, half128}
use offst.MutualCredit.{McMutation, max_funder_debt}
use offst.MutualCredit.Incoming.{is_request, response_lock}
use offst.MutualCredit.Monad.{Action, pure, get_state, ensure, ok_or, unwrap, apply, ◌>>=◌, ◌>>◌}

pub data QueueOperationError : Type 0 where
  remote_max_debt_too_large invalid_route pk_pair_not_in_route credits_calc_overflow
        insufficient_trust request_already_exists request_does_not_exist invalid_response_signature
        remote_requests_closed not_expecting_response not_expecting_collect invalid_src_plain_lock
        invalid_dest_plain_lock dest_payment_exceeds_total :
      QueueOperationError

abbrev pub Queue : Type 0
Queue = Action QueueOperationError (List McMutation)

unfoldable pub queue_enable_requests : Queue
queue_enable_requests = do
  let m = McMutation.set_local_requests_status RequestsStatus.opened
  apply m
  pure (m ∷ [])

unfoldable pub queue_disable_requests : Queue
queue_disable_requests = do
  let m = McMutation.set_local_requests_status RequestsStatus.closed
  apply m
  pure (m ∷ [])

unfoldable pub queue_set_remote_max_debt : ℕ → Queue
queue_set_remote_max_debt proposed_max_debt = do
  ensure (leb proposed_max_debt max_funder_debt) QueueOperationError.remote_max_debt_too_large
  let m = McMutation.set_remote_max_debt proposed_max_debt
  apply m
  pure (m ∷ [])

unfoldable pub queue_request_send_funds : RequestSendFundsOp → Queue
queue_request_send_funds r = do
  ensure (is_valid r.route) QueueOperationError.invalid_route
  ensure (leb r.dest_payment r.total_dest_payment) QueueOperationError.dest_payment_exceeds_total
  mc ← get_state
  ok_or (find_pk_pair r.route mc.idents.local_public_key mc.idents.remote_public_key)
      QueueOperationError.pk_pair_not_in_route
  ensure (is_open mc.requests_status.remote) QueueOperationError.remote_requests_closed
  own_freeze_credits ←
      ok_or (unsigned_checked_add half128 r.dest_payment r.left_fees)
        QueueOperationError.credits_calc_overflow
  new_local_pending_debt ←
      ok_or (unsigned_checked_add half128 mc.balance.local_pending_debt own_freeze_credits)
        QueueOperationError.credits_calc_overflow
  sub ←
      ok_or (checked_sub_unsigned half128 mc.balance.balance new_local_pending_debt)
        QueueOperationError.credits_calc_overflow
  room ←
      ok_or (checked_add_unsigned half128 sub mc.balance.local_max_debt)
        QueueOperationError.credits_calc_overflow
  ensure (leb_ℤ (pos 0) room) QueueOperationError.insufficient_trust
  ensure (not (contains_key r.request_id mc.pending_transactions.local))
      QueueOperationError.request_already_exists
  let m = McMutation.insert_local_pending_transaction (create_pending_transaction r)
  apply m
  let n = McMutation.set_local_pending_debt new_local_pending_debt
  apply n
  pure (m ∷ n ∷ [])

module _ (crypto : Crypto) where
  unfoldable pub queue_response_send_funds : ResponseSendFundsOp Signature → Queue
  queue_response_send_funds r = do
    mc ← get_state
    t ←
        ok_or (get r.request_id mc.pending_transactions.remote)
          QueueOperationError.request_does_not_exist
    dest_public_key ← unwrap (get_last? t.route.public_keys)
    ensure
        (crypto.verify_signature (create_response_signature_buffer crypto r t) dest_public_key
          r.signature)
        QueueOperationError.invalid_response_signature
    ensure (is_request t.stage) QueueOperationError.not_expecting_response
    let m =
        McMutation.set_remote_pending_transaction_stage r.request_id
          (TransactionStage.response r.dest_hashed_lock)
    apply m
    pure (m ∷ [])

  unfoldable pub queue_cancel_send_funds : CancelSendFundsOp → Queue
  queue_cancel_send_funds c = do
    mc ← get_state
    t ←
        ok_or (get c.request_id mc.pending_transactions.remote)
          QueueOperationError.request_does_not_exist
    freeze_credits ← unwrap (unsigned_checked_add half128 t.dest_payment t.left_fees)
    let m = McMutation.remove_remote_pending_transaction c.request_id
    apply m
    mc ← get_state
    new_remote_pending_debt ←
        unwrap (unsigned_checked_sub mc.balance.remote_pending_debt freeze_credits)
    let n = McMutation.set_remote_pending_debt new_remote_pending_debt
    apply n
    pure (m ∷ n ∷ [])

  unfoldable pub queue_collect_send_funds : CollectSendFundsOp → Queue
  queue_collect_send_funds c = do
    mc ← get_state
    t ←
        ok_or (get c.request_id mc.pending_transactions.remote)
          QueueOperationError.request_does_not_exist
    dest_hashed_lock ← ok_or (response_lock t.stage) QueueOperationError.not_expecting_collect
    ensure (hash_lock crypto c.src_plain_lock == t.src_hashed_lock)
        QueueOperationError.invalid_src_plain_lock
    ensure (hash_lock crypto c.dest_plain_lock == dest_hashed_lock)
        QueueOperationError.invalid_dest_plain_lock
    freeze_credits ← unwrap (unsigned_checked_add half128 t.dest_payment t.left_fees)
    let m = McMutation.remove_remote_pending_transaction c.request_id
    apply m
    mc ← get_state
    new_remote_pending_debt ←
        unwrap (unsigned_checked_sub mc.balance.remote_pending_debt freeze_credits)
    let n = McMutation.set_remote_pending_debt new_remote_pending_debt
    apply n
    mc ← get_state
    new_balance ← unwrap (checked_add_unsigned half128 mc.balance.balance freeze_credits)
    let k = McMutation.set_balance new_balance
    apply k
    pure (m ∷ n ∷ k ∷ [])

  unfoldable pub queue_operation : FriendTcOp → Queue
  queue_operation FriendTcOp.enable_requests = queue_enable_requests
  queue_operation FriendTcOp.disable_requests = queue_disable_requests
  queue_operation (FriendTcOp.set_remote_max_debt n) = queue_set_remote_max_debt n
  queue_operation (FriendTcOp.request_send_funds r) = queue_request_send_funds r
  queue_operation (FriendTcOp.response_send_funds r) = queue_response_send_funds r
  queue_operation (FriendTcOp.cancel_send_funds c) = queue_cancel_send_funds c
  queue_operation (FriendTcOp.collect_send_funds c) = queue_collect_send_funds c
