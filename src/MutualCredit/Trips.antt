-- ===== src/MutualCredit/Trips.antt =====
-- A transaction from its request to its end.
use offst.Prelude.{ℕ, ◌+◌, ◌≡◌, List, arith}
use offst.Prelude.Int.{pos, ◌-ℤ◌, int_laws}
use offst.Prelude.Dict.{insert, get-insert}
use offst.Prelude.Outcome.{Outcome, ok, err, panic}
use offst.Crypto.{Crypto, Signature}
use offst.Messages.{
  RequestSendFundsOp, ResponseSendFundsOp, CollectSendFundsOp, TransactionStage, PendingTransaction,
  create_pending_transaction,
}
use offst.SafeArith.{unsigned_checked_add, unsigned_checked_sub}
use offst.MutualCredit.{MutualCredit, McMutation, mutate, set_stage}
use offst.MutualCredit.Pending.{remove-insert_new, insert-insert}
use offst.MutualCredit.Words.{HasRoom-elim, sub_word_total}
use offst.MutualCredit.Requests.{QueueAccepts, QueueEnds, queued, local_debt, queue_request_ends}
use offst.MutualCredit.Invariant.{IsValid, balance_range}
use offst.MutualCredit.Incoming.{
  process_response_send_funds, process_cancel_send_funds, process_collect_send_funds,
  ProcessOperationOutput,
}
use offst.MutualCredit.Outgoing.{QueueOperationError, queue_request_send_funds}

-- The call succeeds, in the state that is named.
abbrev pub EndsIn : {E A : Type 0} → MutualCredit → Outcome E A × MutualCredit → Type 0
EndsIn mc (ok a, mc') = mc' ≡ mc
EndsIn mc (err e, mc') = ⊥
EndsIn mc (panic, mc') = ⊥

-- If the call succeeds, it does so in the state that is named.
abbrev pub MayEndIn : {E A : Type 0} → MutualCredit → Outcome E A × MutualCredit → Type 0
MayEndIn mc (ok a, mc') = mc' ≡ mc
MayEndIn mc (err e, mc') = Unit {0}
MayEndIn mc (panic, mc') = Unit {0}

MayEndIn-elim :
    {E A : Type 0} (mc : MutualCredit) (x : Outcome E A × MutualCredit) {a : A} {mc' : MutualCredit}
    → MayEndIn mc x
    → x ≡ (ok a, mc')
    → mc' ≡ mc
MayEndIn-elim mc (ok a, mc') h e = ground arith
MayEndIn-elim mc (err e', mc') h e = ground arith
MayEndIn-elim mc (panic, mc') h e = ground arith

queued_facts :
    (r : RequestSendFundsOp) (mc mc' : MutualCredit) (ms : List McMutation)
    → queue_request_send_funds r mc ≡ (ok ms, mc')
    → QueueAccepts r mc × (mc' ≡ queued r mc)
queued_facts r mc mc' ms h =
    let ends : QueueEnds {E = QueueOperationError} r mc (ok ms, mc') =
      rw h at (queue_request_ends r mc) in
    (ends.0, ends.2)

cancel_queued :
    (c : Crypto) (r : RequestSendFundsOp) (mc : MutualCredit)
    → QueueAccepts r mc
    → EndsIn mc (process_cancel_send_funds c (record { request_id = r.request_id }) (queued r mc))
unfolding process_cancel_send_funds mutate unsigned_checked_add unsigned_checked_sub
    create_pending_transaction
cancel_queued c r mc a = ground (
  arith,
  get-insert r.request_id r.request_id (create_pending_transaction r) mc.pending_transactions.local,
  remove-insert_new r.request_id (create_pending_transaction r) mc.pending_transactions.local a.6,
)

-- A request that was queued, and that the friend then cancels, leaves no trace: the cancellation is
-- accepted, and gives back the state before the request.
pub cancel-request :
    (c : Crypto) (r : RequestSendFundsOp) (mc mc' : MutualCredit) (ms : List McMutation)
    → queue_request_send_funds r mc ≡ (ok ms, mc')
    → EndsIn mc (process_cancel_send_funds c (record { request_id = r.request_id }) mc')
cancel-request c r mc mc' ms h =
    let (a, e) = queued_facts r mc mc' ms h in rw e (cancel_queued c r mc a)

answered : ℕ → RequestSendFundsOp → PendingTransaction
unfolding create_pending_transaction
answered l r = record (create_pending_transaction r) { stage = TransactionStage.response l }

-- A queued request that was answered.
responded : ℕ → RequestSendFundsOp → MutualCredit → MutualCredit
responded l r mc = record (queued r mc) {
  pending_transactions = record (mc.pending_transactions) {
    local = insert r.request_id (answered l r) mc.pending_transactions.local;
  };
}

-- Only the balance differs, by the payment and the fees.
abbrev pub paid : RequestSendFundsOp → MutualCredit → MutualCredit
paid r mc = record mc {
  balance = record (mc.balance) {
    balance = mc.balance.balance -ℤ pos (r.dest_payment + r.left_fees);
  };
}

respond_queued :
    (c : Crypto) (r : RequestSendFundsOp) (s : ResponseSendFundsOp Signature) (mc : MutualCredit)
    → s.request_id ≡ r.request_id
    → MayEndIn (responded s.dest_hashed_lock r mc) (process_response_send_funds c s (queued r mc))
unfolding process_response_send_funds mutate set_stage responded answered
respond_queued c r s mc e = rw e (
    ground (
      arith,
      get-insert r.request_id r.request_id (create_pending_transaction r)
          mc.pending_transactions.local,
      insert-insert r.request_id (create_pending_transaction r) (answered s.dest_hashed_lock r)
          mc.pending_transactions.local,
    ))

collect_responded :
    (c : Crypto) (r : RequestSendFundsOp) (k : CollectSendFundsOp) (l : ℕ) (mc : MutualCredit)
    → QueueAccepts r mc
    → IsValid mc
    → k.request_id ≡ r.request_id
    → MayEndIn (paid r mc) (process_collect_send_funds c k (responded l r mc))
unfolding process_collect_send_funds mutate unsigned_checked_add unsigned_checked_sub responded
    answered
collect_responded c r k l mc a v e =
    let f = r.dest_payment + r.left_fees in
    let room =
      HasRoom-elim mc.balance.balance (local_debt r mc) mc.balance.local_max_debt (balance_range v)
        a.4 v.local_max a.5 in
    let (b, spent, less) =
      sub_word_total mc.balance.balance f (balance_range v) (omega (arith, a.4))
        (omega (arith, room, v.local_max)) in
    let same : b ≡ mc.balance.balance -ℤ pos f = omega (int_laws, less) in
    rw e (
      ground (
        arith,
        get-insert r.request_id r.request_id (answered l r) mc.pending_transactions.local,
        remove-insert_new r.request_id (answered l r) mc.pending_transactions.local a.6,
        spent,
        same,
      ))

-- In a valid state: a request that is queued, its response and its collection, each accepted, move
-- the payment and the fees out of the balance and leave everything else as it was before the
-- request, the pending debt and the pending transactions included.
pub collect-request :
    (c : Crypto) (r : RequestSendFundsOp) (s : ResponseSendFundsOp Signature)
    (k : CollectSendFundsOp) (mc mc1 mc2 mc3 : MutualCredit) (ms : List McMutation)
    (out2 out3 : ProcessOperationOutput)
    → IsValid mc
    → s.request_id ≡ r.request_id
    → k.request_id ≡ r.request_id
    → queue_request_send_funds r mc ≡ (ok ms, mc1)
    → process_response_send_funds c s mc1 ≡ (ok out2, mc2)
    → process_collect_send_funds c k mc2 ≡ (ok out3, mc3)
    → mc3 ≡ paid r mc
collect-request c r s k mc mc1 mc2 mc3 ms out2 out3 v es ek h1 h2 h3 =
    let (a, e1) = queued_facts r mc mc1 ms h1 in
    let e2 : mc2 ≡ responded s.dest_hashed_lock r mc =
      MayEndIn-elim (responded s.dest_hashed_lock r mc)
        (process_response_send_funds c s (queued r mc)) (respond_queued c r s mc es)
        (rw e1 at h2) in
    MayEndIn-elim (paid r mc) (process_collect_send_funds c k (responded s.dest_hashed_lock r mc))
      (collect_responded c r k s.dest_hashed_lock mc a v ek) (rw e2 at h3)
