-- ===== src/MutualCredit/Incoming.antt =====
-- components/funder/src/mutual_credit/incoming.rs: the operations that arrive from the friend.
use offst.Prelude.{
  ℕ, suc, Bool, true, false, not, List, [], ◌∷◌, Option, none, some, leb, ◌==◌, get_last?,
}
use offst.Prelude.Int.{pos, leb_ℤ}
use offst.Prelude.Dict.{get, contains_key}
use offst.Prelude.Outcome.{Outcome, ok, err, panic}
use offst.Crypto.{Crypto, Signature, HashedLock, hash_lock}
use offst.Messages.{
  RequestSendFundsOp, ResponseSendFundsOp, CancelSendFundsOp, CollectSendFundsOp, FriendTcOp,
  TransactionStage, PendingTransaction, RequestsStatus, is_open, create_pending_transaction,
}
use offst.Route.{is_valid, find_pk_pair}
use offst.SafeArith.{
  unsigned_checked_add, unsigned_checked_sub, checked_add_unsigned, checked_sub_unsigned,
}
use offst.Buffers.{create_response_signature_buffer, half128}
use offst.MutualCredit.{MutualCredit, McMutation, max_funder_debt}
use offst.MutualCredit.Monad.{Action, pure, get_state, ensure, ok_or, unwrap, apply, ◌>>=◌, ◌>>◌}

pub data IncomingMessage : Type 0 where
  request : RequestSendFundsOp → IncomingMessage
  response : PendingTransaction → ResponseSendFundsOp Signature → IncomingMessage
  cancel : PendingTransaction → CancelSendFundsOp → IncomingMessage
  collect : PendingTransaction → CollectSendFundsOp → IncomingMessage

pub record ProcessOperationOutput : Type 0 where
  pub incoming_message : Option IncomingMessage
  pub mc_mutations : List McMutation

pub data ProcessOperationError : Type 0 where
  remote_max_debt_too_large : ℕ → ProcessOperationError
  pk_pair_not_in_route invalid_route requests_already_disabled insufficient_trust
        credits_calc_overflow request_already_exists request_does_not_exist
        invalid_response_signature local_requests_closed not_expecting_response
        invalid_src_plain_lock invalid_dest_plain_lock not_expecting_collect
        dest_payment_exceeds_total :
      ProcessOperationError

abbrev pub Process : Type 0
Process = Action ProcessOperationError ProcessOperationOutput

abbrev output : Option IncomingMessage → List McMutation → ProcessOperationOutput
output message mutations = record { incoming_message = message; mc_mutations = mutations }

-- `if let TransactionStage::Request = stage`
abbrev pub is_request : TransactionStage → Bool
is_request TransactionStage.request = true
is_request (TransactionStage.response l) = false

-- The `dest_hashed_lock` of a transaction that was answered.
abbrev pub response_lock : TransactionStage → Option HashedLock
response_lock TransactionStage.request = none
response_lock (TransactionStage.response l) = some l

unfoldable pub process_enable_requests : Process
process_enable_requests = do
  let m = McMutation.set_remote_requests_status RequestsStatus.opened
  apply m
  pure (output none (m ∷ []))

unfoldable pub process_disable_requests : Process
process_disable_requests = do
  mc ← get_state
  ensure (is_open mc.requests_status.remote) ProcessOperationError.requests_already_disabled
  let m = McMutation.set_remote_requests_status RequestsStatus.closed
  apply m
  pure (output none (m ∷ []))

unfoldable pub process_set_remote_max_debt : ℕ → Process
process_set_remote_max_debt proposed_max_debt = do
  ensure (leb proposed_max_debt max_funder_debt)
      (ProcessOperationError.remote_max_debt_too_large proposed_max_debt)
  let m = McMutation.set_local_max_debt proposed_max_debt
  apply m
  pure (output none (m ∷ []))

unfoldable pub process_request_send_funds : RequestSendFundsOp → Process
process_request_send_funds r = do
  ensure (is_valid r.route) ProcessOperationError.invalid_route
  ensure (leb r.dest_payment r.total_dest_payment) ProcessOperationError.dest_payment_exceeds_total
  mc ← get_state
  ok_or (find_pk_pair r.route mc.idents.remote_public_key mc.idents.local_public_key)
      ProcessOperationError.pk_pair_not_in_route
  ensure (is_open mc.requests_status.local) ProcessOperationError.local_requests_closed
  own_freeze_credits ←
      ok_or (unsigned_checked_add half128 r.dest_payment r.left_fees)
        ProcessOperationError.credits_calc_overflow
  new_remote_pending_debt ←
      ok_or (unsigned_checked_add half128 mc.balance.remote_pending_debt own_freeze_credits)
        ProcessOperationError.credits_calc_overflow
  sum ←
      ok_or (checked_add_unsigned half128 mc.balance.balance new_remote_pending_debt)
        ProcessOperationError.credits_calc_overflow
  excess ←
      ok_or (checked_sub_unsigned half128 sum mc.balance.remote_max_debt)
        ProcessOperationError.credits_calc_overflow
  ensure (leb_ℤ excess (pos 0)) ProcessOperationError.insufficient_trust
  ensure (not (contains_key r.request_id mc.pending_transactions.remote))
      ProcessOperationError.request_already_exists
  let m = McMutation.insert_remote_pending_transaction (create_pending_transaction r)
  apply m
  let n = McMutation.set_remote_pending_debt new_remote_pending_debt
  apply n
  pure (output (some (IncomingMessage.request r)) (m ∷ n ∷ []))

module _ (crypto : Crypto) where
  unfoldable pub process_response_send_funds : ResponseSendFundsOp Signature → Process
  process_response_send_funds r = do
    mc ← get_state
    t ←
        ok_or (get r.request_id mc.pending_transactions.local)
          ProcessOperationError.request_does_not_exist
    dest_public_key ← unwrap (get_last? t.route.public_keys)
    ensure
        (crypto.verify_signature (create_response_signature_buffer crypto r t) dest_public_key
          r.signature)
        ProcessOperationError.invalid_response_signature
    ensure (is_request t.stage) ProcessOperationError.not_expecting_response
    let m =
        McMutation.set_local_pending_transaction_stage r.request_id
          (TransactionStage.response r.dest_hashed_lock)
    apply m
    pure (output (some (IncomingMessage.response t r)) (m ∷ []))

  unfoldable pub process_cancel_send_funds : CancelSendFundsOp → Process
  process_cancel_send_funds c = do
    mc ← get_state
    t ←
        ok_or (get c.request_id mc.pending_transactions.local)
          ProcessOperationError.request_does_not_exist
    let m = McMutation.remove_local_pending_transaction c.request_id
    apply m
    freeze_credits ← unwrap (unsigned_checked_add half128 t.dest_payment t.left_fees)
    mc ← get_state
    new_local_pending_debt ←
        unwrap (unsigned_checked_sub mc.balance.local_pending_debt freeze_credits)
    let n = McMutation.set_local_pending_debt new_local_pending_debt
    apply n
    pure (output (some (IncomingMessage.cancel t c)) (m ∷ n ∷ []))

  unfoldable pub process_collect_send_funds : CollectSendFundsOp → Process
  process_collect_send_funds c = do
    mc ← get_state
    t ←
        ok_or (get c.request_id mc.pending_transactions.local)
          ProcessOperationError.request_does_not_exist
    dest_hashed_lock ← ok_or (response_lock t.stage) ProcessOperationError.not_expecting_collect
    ensure (hash_lock crypto c.src_plain_lock == t.src_hashed_lock)
        ProcessOperationError.invalid_src_plain_lock
    ensure (hash_lock crypto c.dest_plain_lock == dest_hashed_lock)
        ProcessOperationError.invalid_dest_plain_lock
    freeze_credits ← unwrap (unsigned_checked_add half128 t.dest_payment t.left_fees)
    let m = McMutation.remove_local_pending_transaction c.request_id
    apply m
    mc ← get_state
    new_local_pending_debt ←
        unwrap (unsigned_checked_sub mc.balance.local_pending_debt freeze_credits)
    let n = McMutation.set_local_pending_debt new_local_pending_debt
    apply n
    mc ← get_state
    new_balance ← unwrap (checked_sub_unsigned half128 mc.balance.balance freeze_credits)
    let k = McMutation.set_balance new_balance
    apply k
    pure (output (some (IncomingMessage.collect t c)) (m ∷ n ∷ k ∷ []))

  unfoldable pub process_operation : FriendTcOp → Process
  process_operation FriendTcOp.enable_requests = process_enable_requests
  process_operation FriendTcOp.disable_requests = process_disable_requests
  process_operation (FriendTcOp.set_remote_max_debt n) = process_set_remote_max_debt n
  process_operation (FriendTcOp.request_send_funds r) = process_request_send_funds r
  process_operation (FriendTcOp.response_send_funds r) = process_response_send_funds r
  process_operation (FriendTcOp.cancel_send_funds c) = process_cancel_send_funds c
  process_operation (FriendTcOp.collect_send_funds c) = process_collect_send_funds c

pub record ProcessTransListError : Type 0 where
  pub index : ℕ
  pub process_trans_error : ProcessOperationError

-- The error arm of the loop in `process_operations_list`.
abbrev pub at_index :
    {A : Type 0}
    → ℕ
    → Outcome ProcessOperationError A × MutualCredit
    → Outcome ProcessTransListError A × MutualCredit
at_index i (ok a, mc) = (ok a, mc)
at_index i (err e, mc) = (err (record { index = i; process_trans_error = e }), mc)
at_index i (panic, mc) = (panic, mc)

module _ (crypto : Crypto) where
  -- The loop of `process_operations_list`, from index `i` on.
  unfoldable pub process_operations_from :
      ℕ → List FriendTcOp → Action ProcessTransListError (List ProcessOperationOutput)
  process_operations_from i [] = pure []
  process_operations_from i (op ∷ ops) = do
    out ← λ mc. at_index i (process_operation crypto op mc)
    outs ← process_operations_from (suc i) ops
    pure (out ∷ outs)

  unfoldable pub process_operations_list :
      List FriendTcOp → Action ProcessTransListError (List ProcessOperationOutput)
  unfolding process_operations_from
  process_operations_list operations = process_operations_from 0 operations
