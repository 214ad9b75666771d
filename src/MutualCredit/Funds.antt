-- ===== src/MutualCredit/Funds.antt =====
-- When the balance of a mutual credit moves.
use offst.Prelude.{◌≡◌, some, arith, Option-cases, inl, inr}
use offst.Prelude.Dict.{get}
use offst.Prelude.Outcome.{Outcome, ok, err, panic}
use offst.Crypto.{Crypto, hash_lock}
use offst.Messages.{FriendTcOp, CollectSendFundsOp, PendingTransaction, TransactionStage}
use offst.SafeArith.{unsigned_checked_add, unsigned_checked_sub}
use offst.MutualCredit.{MutualCredit, mutate, set_stage}
use offst.MutualCredit.Pending.{freeze}
use offst.MutualCredit.Words.{IsDifference, sub_word_total}
use offst.MutualCredit.Invariant.{IsValid, balance_range, local_part}
use offst.MutualCredit.Incoming.{
  process_operation, process_request_send_funds, process_response_send_funds,
  process_cancel_send_funds, process_collect_send_funds, process_enable_requests,
  process_disable_requests, process_set_remote_max_debt,
}

-- The transaction was answered, and the two locks open.
abbrev pub Opens : Crypto → CollectSendFundsOp → PendingTransaction → Type 0
Opens c k t =
    (hash_lock c k.src_plain_lock ≡ t.src_hashed_lock)
    × (t.stage ≡ TransactionStage.response (hash_lock c k.dest_plain_lock))

-- A success of an operation from the friend: only a collection pays, and that of a pending
-- transaction whose locks it opens.
abbrev pub Pays :
    {E A : Type 0} → Crypto → FriendTcOp → MutualCredit → Outcome E A × MutualCredit → Type 0
Pays c (FriendTcOp.collect_send_funds k) mc (ok out, mc') =
    (t : PendingTransaction) × (get k.request_id mc.pending_transactions.local ≡ some t)
    × Opens c k t
    × IsDifference mc'.balance.balance mc.balance.balance (freeze t)
Pays c op mc (ok out, mc') = mc'.balance.balance ≡ mc.balance.balance
Pays c op mc (err e, mc') = Unit {0}
Pays c op mc (panic, mc') = Unit {0}

process_collect-Pays :
    (c : Crypto) (k : CollectSendFundsOp) (mc : MutualCredit)
    → IsValid mc
    → Pays c (FriendTcOp.collect_send_funds k) mc (process_collect_send_funds c k mc)
unfolding process_collect_send_funds mutate unsigned_checked_add unsigned_checked_sub
process_collect-Pays c k mc v =
    elim (Option-cases (get k.request_id mc.pending_transactions.local)) [
      | inl e ↦ ground arith
      | inr (t, e) ↦
          let part = local_part k.request_id t mc v e in
          let (b, spent, less) =
            sub_word_total mc.balance.balance (freeze t) (balance_range v)
              (omega (arith, v.low, v.high, part)) (omega (arith, v.low, part)) in
          ground (arith, spent, less)
    ]

-- In a valid state, an operation of the friend that is accepted leaves the balance as it was, unless
-- it collects a transaction that is pending and answered, by opening both of its locks; the balance
-- then falls by the payment and the fees of it.
pub process_operation-Pays :
    (c : Crypto) (op : FriendTcOp) (mc : MutualCredit)
    → IsValid mc
    → Pays c op mc (process_operation c op mc)
unfolding process_operation process_enable_requests process_disable_requests
    process_set_remote_max_debt process_request_send_funds process_response_send_funds
    process_cancel_send_funds mutate set_stage
process_operation-Pays c FriendTcOp.enable_requests mc v = ground arith
process_operation-Pays c FriendTcOp.disable_requests mc v = ground arith
process_operation-Pays c (FriendTcOp.set_remote_max_debt n) mc v = ground arith
process_operation-Pays c (FriendTcOp.request_send_funds r) mc v = ground arith
process_operation-Pays c (FriendTcOp.response_send_funds r) mc v = ground arith
process_operation-Pays c (FriendTcOp.cancel_send_funds r) mc v = ground arith
process_operation-Pays c (FriendTcOp.collect_send_funds k) mc v = process_collect-Pays c k mc v
