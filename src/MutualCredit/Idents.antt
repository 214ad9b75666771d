-- ===== src/MutualCredit/Idents.antt =====
-- The keys of a mutual credit never change.
use offst.Prelude.{◌≡◌, arith}
use offst.Prelude.Outcome.{Outcome}
use offst.Crypto.{Crypto}
use offst.Messages.{FriendTcOp}
use offst.MutualCredit.{MutualCredit, mutate, set_stage}
use offst.MutualCredit.Outgoing.{
  queue_operation, queue_request_send_funds, queue_response_send_funds, queue_cancel_send_funds,
  queue_collect_send_funds, queue_enable_requests, queue_disable_requests,
  queue_set_remote_max_debt,
}

abbrev pub KeepsIdents : {E A : Type 0} → MutualCredit → Outcome E A × MutualCredit → Type 0
KeepsIdents mc (r, mc') = mc'.idents ≡ mc.idents

pub queue_operation-KeepsIdents :
    (c : Crypto) (op : FriendTcOp) (mc : MutualCredit) → KeepsIdents mc (queue_operation c op mc)
unfolding queue_operation queue_enable_requests queue_disable_requests queue_set_remote_max_debt
    queue_request_send_funds queue_response_send_funds queue_cancel_send_funds
    queue_collect_send_funds mutate set_stage
queue_operation-KeepsIdents c FriendTcOp.enable_requests mc = ground arith
queue_operation-KeepsIdents c FriendTcOp.disable_requests mc = ground arith
queue_operation-KeepsIdents c (FriendTcOp.set_remote_max_debt n) mc = ground arith
queue_operation-KeepsIdents c (FriendTcOp.request_send_funds r) mc = ground arith
queue_operation-KeepsIdents c (FriendTcOp.response_send_funds r) mc = ground arith
queue_operation-KeepsIdents c (FriendTcOp.cancel_send_funds r) mc = ground arith
queue_operation-KeepsIdents c (FriendTcOp.collect_send_funds r) mc = ground arith
