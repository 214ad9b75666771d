-- ===== src/MutualCredit/Trust.antt =====
-- The trust that one side gives the other: how much the friend may come to owe.
use offst.Prelude.{ℕ, ◌+◌, ◌≤◌, ◌≢◌, refl, arith, Option-cases, inl, inr}
use offst.Prelude.Int.{pos_part, neg_part}
use offst.Prelude.Dict.{get}
use offst.Prelude.Outcome.{Outcome, ok, err, panic}
use offst.Crypto.{Crypto}
use offst.Messages.{FriendTcOp, RequestSendFundsOp, CollectSendFundsOp}
use offst.SafeArith.{unsigned_checked_add, unsigned_checked_sub}
use offst.MutualCredit.{MutualCredit, mutate, set_stage}
use offst.MutualCredit.Pending.{freeze}
use offst.MutualCredit.Words.{HasNoExcess-elim, add_word_total, sub_word_total}
use offst.MutualCredit.Requests.{ProcessEnds, remote_debt, process_request_ends}
use offst.MutualCredit.Invariant.{IsValid, balance_range, remote_part, local_part}
use offst.MutualCredit.Incoming.{
  process_operation, process_request_send_funds, process_response_send_funds,
  process_cancel_send_funds, process_collect_send_funds, process_enable_requests,
  process_disable_requests, process_set_remote_max_debt, ProcessOperationOutput,
}
use offst.MutualCredit.Outgoing.{
  queue_operation, queue_request_send_funds, queue_response_send_funds, queue_cancel_send_funds,
  queue_collect_send_funds, queue_enable_requests, queue_disable_requests,
}

-- The balance, if every transaction that the friend opened is collected, is at most the debt that
-- is allowed to the friend.
abbrev pub WithinTrust : MutualCredit → Type 0
WithinTrust mc =
    pos_part mc.balance.balance + mc.balance.remote_pending_debt
    ≤ neg_part mc.balance.balance + mc.balance.remote_max_debt

-- Whichever way the call ends, short of a panic, the state has the property.
abbrev pub Keeps : {E A : Type 0} → (MutualCredit → Type 0) → Outcome E A × MutualCredit → Type 0
Keeps P (ok a, mc) = P mc
Keeps P (err e, mc) = P mc
Keeps P (panic, mc) = Unit {0}

process_request-WithinTrust :
    (r : RequestSendFundsOp) (mc : MutualCredit)
    → IsValid mc
    → WithinTrust mc
    → Keeps WithinTrust (process_request_send_funds r mc)
process_request-WithinTrust r mc v t =
    go (process_request_send_funds r mc) (process_request_ends r mc)
  where
    go :
        {E : Type 0} (x : Outcome E ProcessOperationOutput × MutualCredit)
        → ProcessEnds r mc x
        → Keeps WithinTrust x
    go (ok out, mc') (a, _, e) = rw e (
        HasNoExcess-elim mc.balance.balance (remote_debt r mc) mc.balance.remote_max_debt
          (balance_range v) a.4 v.remote_max a.5)
    go (err e, mc') same = rw same t
    go (panic, mc') h = tt

process_collect-WithinTrust :
    (c : Crypto) (r : CollectSendFundsOp) (mc : MutualCredit)
    → IsValid mc
    → WithinTrust mc
    → Keeps WithinTrust (process_collect_send_funds c r mc)
unfolding process_collect_send_funds mutate unsigned_checked_add unsigned_checked_sub
process_collect-WithinTrust c r mc v t =
    elim (Option-cases (get r.request_id mc.pending_transactions.local)) [
      | inl e ↦ ground arith
      | inr (p, e) ↦
          let part = local_part r.request_id p mc v e in
          let (b, spent, less) =
            sub_word_total mc.balance.balance (freeze p) (balance_range v)
              (omega (arith, v.low, v.high, part)) (omega (arith, v.low, part)) in
          ground (arith, spent, less)
    ]

-- In a valid state in which the friend's possible debt is within the trust given to it, no operation
-- from the friend, accepted or refused, takes it beyond.
pub process_operation-WithinTrust :
    (c : Crypto) (op : FriendTcOp) (mc : MutualCredit)
    → IsValid mc
    → WithinTrust mc
    → Keeps WithinTrust (process_operation c op mc)
unfolding process_operation process_enable_requests process_disable_requests
    process_set_remote_max_debt process_response_send_funds process_cancel_send_funds mutate
    set_stage
process_operation-WithinTrust c FriendTcOp.enable_requests mc v t = ground arith
process_operation-WithinTrust c FriendTcOp.disable_requests mc v t = ground arith
process_operation-WithinTrust c (FriendTcOp.set_remote_max_debt n) mc v t = ground arith
process_operation-WithinTrust c (FriendTcOp.request_send_funds r) mc v t =
    process_request-WithinTrust r mc v t
process_operation-WithinTrust c (FriendTcOp.response_send_funds r) mc v t = ground arith
process_operation-WithinTrust c (FriendTcOp.cancel_send_funds r) mc v t = ground arith
process_operation-WithinTrust c (FriendTcOp.collect_send_funds r) mc v t =
    process_collect-WithinTrust c r mc v t

queue_request-WithinTrust :
    (r : RequestSendFundsOp) (mc : MutualCredit)
    → WithinTrust mc
    → Keeps WithinTrust (queue_request_send_funds r mc)
unfolding queue_request_send_funds mutate
queue_request-WithinTrust r mc t = ground arith

queue_collect-WithinTrust :
    (c : Crypto) (r : CollectSendFundsOp) (mc : MutualCredit)
    → IsValid mc
    → WithinTrust mc
    → Keeps WithinTrust (queue_collect_send_funds c r mc)
unfolding queue_collect_send_funds mutate unsigned_checked_add unsigned_checked_sub
queue_collect-WithinTrust c r mc v t =
    elim (Option-cases (get r.request_id mc.pending_transactions.remote)) [
      | inl e ↦ ground arith
      | inr (p, e) ↦
          let part = remote_part r.request_id p mc v e in
          let (b, earned, more) =
            add_word_total mc.balance.balance (freeze p) (balance_range v)
              (omega (arith, v.low, v.high, part)) (omega (arith, v.high, part)) in
          ground (arith, earned, more)
    ]

-- In a valid state in which the friend's possible debt is within the trust given to it, no operation
-- that this side queues, other than setting that trust, takes it beyond.
pub queue_operation-WithinTrust :
    (c : Crypto) (op : FriendTcOp) (mc : MutualCredit)
    → ((n : ℕ) → op ≢ FriendTcOp.set_remote_max_debt n)
    → IsValid mc
    → WithinTrust mc
    → Keeps WithinTrust (queue_operation c op mc)
unfolding queue_operation queue_enable_requests queue_disable_requests queue_response_send_funds
    queue_cancel_send_funds mutate set_stage unsigned_checked_sub
queue_operation-WithinTrust c FriendTcOp.enable_requests mc h v t = ground arith
queue_operation-WithinTrust c FriendTcOp.disable_requests mc h v t = ground arith
queue_operation-WithinTrust c (FriendTcOp.set_remote_max_debt n) mc h v t = absurd (h n refl)
queue_operation-WithinTrust c (FriendTcOp.request_send_funds r) mc h v t =
    queue_request-WithinTrust r mc t
queue_operation-WithinTrust c (FriendTcOp.response_send_funds r) mc h v t = ground arith
queue_operation-WithinTrust c (FriendTcOp.cancel_send_funds r) mc h v t = ground arith
queue_operation-WithinTrust c (FriendTcOp.collect_send_funds r) mc h v t =
    queue_collect-WithinTrust c r mc v t
