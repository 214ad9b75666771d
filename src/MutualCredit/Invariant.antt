-- ===== src/MutualCredit/Invariant.antt =====
-- The invariant of a mutual credit, and that no operation on a state that meets it panics or
-- breaks it.
use offst.Prelude.{
  ℕ, suc, ◌+◌, ◌<◌, ◌≤◌, ◌≡◌, refl, some, List, [], ◌∷◌, arith, Option-cases, inl, inr,
}
use offst.Prelude.Int.{ℤ, pos_part, neg_part, parts_disjoint}
use offst.Prelude.Dict.{get, remove}
use offst.Prelude.Outcome.{Outcome, ok, err, panic}
use offst.Crypto.{Crypto, PublicKey, Signature}
use offst.Messages.{
  FriendTcOp, RequestSendFundsOp, ResponseSendFundsOp, CancelSendFundsOp, CollectSendFundsOp,
  create_pending_transaction, PendingTransaction, TransactionStage,
}
use offst.SafeArith.{unsigned_checked_add, unsigned_checked_sub}
use offst.Buffers.{half128}
use offst.MutualCredit.{MutualCredit, mutate, McMutation, new, set_stage}
use offst.MutualCredit.Pending.{
  freeze, frozen, IsSound, frozen-insert_new, frozen-insert_same, frozen-remove, insert-IsSound,
  remove-IsSound, get-IsSound, destination,
}
use offst.MutualCredit.Words.{InRange, add_word, HasRoom-elim, add_word_total, sub_word_total}
use offst.MutualCredit.Requests.{QueueAccepts, QueueEnds, queued, local_debt, queue_request_ends}
use offst.MutualCredit.Monad.{Action, bind_to}
use offst.MutualCredit.Outgoing.{
  queue_operation, queue_request_send_funds, queue_response_send_funds, queue_cancel_send_funds,
  queue_collect_send_funds, queue_enable_requests, queue_disable_requests,
  queue_set_remote_max_debt,
}
use offst.MutualCredit.Incoming.{
  process_operations_from, process_operations_list, at_index, process_operation,
  process_request_send_funds, process_response_send_funds, process_cancel_send_funds,
  process_collect_send_funds, process_enable_requests, process_disable_requests,
  process_set_remote_max_debt, ProcessOperationError,
}

-- The pending debts are the credits frozen by the pending transactions, the balance stays a
-- symmetric 128-bit integer whichever pending transactions are collected, and no maximum of debt
-- exceeds `MAX_FUNDER_DEBT`.
pub record IsValid (mc : MutualCredit) : Type 0 where
  pub local_frozen : mc.balance.local_pending_debt ≡ frozen mc.pending_transactions.local
  pub remote_frozen : mc.balance.remote_pending_debt ≡ frozen mc.pending_transactions.remote
  pub local_sound : IsSound mc.pending_transactions.local
  pub remote_sound : IsSound mc.pending_transactions.remote
  pub low :
      neg_part mc.balance.balance + mc.balance.local_pending_debt
      < half128 + pos_part mc.balance.balance
  pub high :
      pos_part mc.balance.balance + mc.balance.remote_pending_debt
      < half128 + neg_part mc.balance.balance
  pub local_max : mc.balance.local_max_debt < half128
  pub remote_max : mc.balance.remote_max_debt < half128

pub new-IsValid :
    (a b : PublicKey) (balance : ℤ)
    → pos_part balance < half128
    → neg_part balance < half128
    → IsValid (new a b balance)
unfolding new frozen
new-IsValid a b balance p n = ground arith

-- An operation ends in a state that meets the invariant, or with an error; it does not panic.
abbrev pub EndsValid : {E A : Type 0} → Outcome E A × MutualCredit → Type 0
EndsValid (ok a, mc) = IsValid mc
EndsValid (err e, mc) = IsValid mc
EndsValid (panic, mc) = ⊥

pub balance_range : {mc : MutualCredit} → IsValid mc → InRange mc.balance.balance
balance_range {mc} v = omega (arith, v.low, v.high, parts_disjoint mc.balance.balance)

process_request-IsValid :
    (r : RequestSendFundsOp) (mc : MutualCredit)
    → IsValid mc
    → EndsValid (process_request_send_funds r mc)
unfolding process_request_send_funds mutate create_pending_transaction unsigned_checked_add
process_request-IsValid r mc v = ground (
  arith,
  balance_range v,
  frozen-insert_new r.request_id (create_pending_transaction r) mc.pending_transactions.remote,
  insert-IsSound r.request_id (create_pending_transaction r) mc.pending_transactions.remote,
  add_word mc.balance.balance (mc.balance.remote_pending_debt + (r.dest_payment + r.left_fees)),
)

-- A stage changes neither the frozen credits nor the keys and routes.
staged : TransactionStage → PendingTransaction → PendingTransaction
staged s t = record t { stage = s }

process_response-IsValid :
    (c : Crypto) (r : ResponseSendFundsOp Signature) (mc : MutualCredit)
    → IsValid mc
    → EndsValid (process_response_send_funds c r mc)
unfolding process_response_send_funds mutate set_stage staged
process_response-IsValid c r mc v =
    elim (Option-cases (get r.request_id mc.pending_transactions.local)) [
      | inl e ↦ ground arith
      | inr (t, e) ↦ ground (
        arith,
        frozen-insert_same r.request_id (staged (TransactionStage.response r.dest_hashed_lock) t) t
            mc.pending_transactions.local e refl,
        insert-IsSound r.request_id (staged (TransactionStage.response r.dest_hashed_lock) t)
            mc.pending_transactions.local,
        get-IsSound r.request_id t mc.pending_transactions.local e v.local_sound,
        destination t.route,
      )
    ]

process_cancel-IsValid :
    (c : Crypto) (r : CancelSendFundsOp) (mc : MutualCredit)
    → IsValid mc
    → EndsValid (process_cancel_send_funds c r mc)
unfolding process_cancel_send_funds mutate unsigned_checked_add unsigned_checked_sub
process_cancel-IsValid c r mc v =
    elim (Option-cases (get r.request_id mc.pending_transactions.local)) [
      | inl e ↦ ground arith
      | inr (t, e) ↦ ground (
        arith,
        frozen-remove r.request_id t mc.pending_transactions.local e v.local_sound,
        remove-IsSound r.request_id mc.pending_transactions.local v.local_sound,
        balance_range v,
      )
    ]

process_collect-IsValid :
    (c : Crypto) (r : CollectSendFundsOp) (mc : MutualCredit)
    → IsValid mc
    → EndsValid (process_collect_send_funds c r mc)
unfolding process_collect_send_funds mutate unsigned_checked_add unsigned_checked_sub
process_collect-IsValid c r mc v =
    elim (Option-cases (get r.request_id mc.pending_transactions.local)) [
      | inl e ↦ ground arith
      | inr (t, e) ↦
          let kept : frozen (remove r.request_id mc.pending_transactions.local) + freeze t
              ≡ mc.balance.local_pending_debt =
            rw v.local_frozen
              (frozen-remove r.request_id t mc.pending_transactions.local e v.local_sound) in
          let (b, spent, less) =
            sub_word_total mc.balance.balance (freeze t) (balance_range v)
              (omega (arith, v.low, v.high)) (omega (arith, v.low)) in
          ground (
            arith,
            remove-IsSound r.request_id mc.pending_transactions.local v.local_sound,
            balance_range v,
            spent,
            less,
            kept,
          )
    ]

queued-IsValid :
    (r : RequestSendFundsOp) (mc : MutualCredit)
    → IsValid mc
    → QueueAccepts r mc
    → IsValid (queued r mc)
unfolding create_pending_transaction
queued-IsValid r mc v a = ground (
  arith,
  frozen-insert_new r.request_id (create_pending_transaction r) mc.pending_transactions.local a.6,
  insert-IsSound r.request_id (create_pending_transaction r) mc.pending_transactions.local a.0
      v.local_sound,
  HasRoom-elim mc.balance.balance (local_debt r mc) mc.balance.local_max_debt (balance_range v) a.4
      v.local_max a.5,
)

queue_request-IsValid :
    (r : RequestSendFundsOp) (mc : MutualCredit)
    → IsValid mc
    → EndsValid (queue_request_send_funds r mc)
queue_request-IsValid r mc v = go (queue_request_send_funds r mc) (queue_request_ends r mc)
  where
    go :
        {E : Type 0} (x : Outcome E (List McMutation) × MutualCredit)
        → QueueEnds r mc x
        → EndsValid x
    go (ok ms, mc') (a, _, e) = rw e (queued-IsValid r mc v a)
    go (err e, mc') same = rw same v
    go (panic, mc') h = h

queue_response-IsValid :
    (c : Crypto) (r : ResponseSendFundsOp Signature) (mc : MutualCredit)
    → IsValid mc
    → EndsValid (queue_response_send_funds c r mc)
unfolding queue_response_send_funds mutate set_stage staged
queue_response-IsValid c r mc v =
    elim (Option-cases (get r.request_id mc.pending_transactions.remote)) [
      | inl e ↦ ground arith
      | inr (t, e) ↦ ground (
        arith,
        frozen-insert_same r.request_id (staged (TransactionStage.response r.dest_hashed_lock) t) t
            mc.pending_transactions.remote e refl,
        insert-IsSound r.request_id (staged (TransactionStage.response r.dest_hashed_lock) t)
            mc.pending_transactions.remote,
        get-IsSound r.request_id t mc.pending_transactions.remote e v.remote_sound,
        destination t.route,
      )
    ]

queue_cancel-IsValid :
    (c : Crypto) (r : CancelSendFundsOp) (mc : MutualCredit)
    → IsValid mc
    → EndsValid (queue_cancel_send_funds c r mc)
unfolding queue_cancel_send_funds mutate unsigned_checked_add unsigned_checked_sub
queue_cancel-IsValid c r mc v =
    elim (Option-cases (get r.request_id mc.pending_transactions.remote)) [
      | inl e ↦ ground arith
      | inr (t, e) ↦ ground (
        arith,
        frozen-remove r.request_id t mc.pending_transactions.remote e v.remote_sound,
        remove-IsSound r.request_id mc.pending_transactions.remote v.remote_sound,
        balance_range v,
      )
    ]

queue_collect-IsValid :
    (c : Crypto) (r : CollectSendFundsOp) (mc : MutualCredit)
    → IsValid mc
    → EndsValid (queue_collect_send_funds c r mc)
unfolding queue_collect_send_funds mutate unsigned_checked_add unsigned_checked_sub
queue_collect-IsValid c r mc v =
    elim (Option-cases (get r.request_id mc.pending_transactions.remote)) [
      | inl e ↦ ground arith
      | inr (t, e) ↦
          let kept : frozen (remove r.request_id mc.pending_transactions.remote) + freeze t
              ≡ mc.balance.remote_pending_debt =
            rw v.remote_frozen
              (frozen-remove r.request_id t mc.pending_transactions.remote e v.remote_sound) in
          let (b, earned, more) =
            add_word_total mc.balance.balance (freeze t) (balance_range v)
              (omega (arith, v.low, v.high)) (omega (arith, v.high)) in
          ground (
            arith,
            remove-IsSound r.request_id mc.pending_transactions.remote v.remote_sound,
            balance_range v,
            earned,
            more,
            kept,
          )
    ]

-- Started in a valid state, an operation that arrives from the friend, whatever it says, does not
-- panic and leaves a valid state, whether it is accepted or refused.
pub process_operation-IsValid :
    (c : Crypto) (op : FriendTcOp) (mc : MutualCredit)
    → IsValid mc
    → EndsValid (process_operation c op mc)
unfolding process_operation process_enable_requests process_disable_requests
    process_set_remote_max_debt mutate
process_operation-IsValid c FriendTcOp.enable_requests mc v = ground arith
process_operation-IsValid c FriendTcOp.disable_requests mc v = ground arith
process_operation-IsValid c (FriendTcOp.set_remote_max_debt n) mc v = ground arith
process_operation-IsValid c (FriendTcOp.request_send_funds r) mc v = process_request-IsValid r mc v
process_operation-IsValid c (FriendTcOp.response_send_funds r) mc v =
    process_response-IsValid c r mc v
process_operation-IsValid c (FriendTcOp.cancel_send_funds r) mc v = process_cancel-IsValid c r mc v
process_operation-IsValid c (FriendTcOp.collect_send_funds r) mc v =
    process_collect-IsValid c r mc v

-- Started in a valid state, an operation that is queued for the friend does not panic and leaves a
-- valid state, whether it is queued or refused.
pub queue_operation-IsValid :
    (c : Crypto) (op : FriendTcOp) (mc : MutualCredit)
    → IsValid mc
    → EndsValid (queue_operation c op mc)
unfolding queue_operation queue_enable_requests queue_disable_requests queue_set_remote_max_debt
    mutate
queue_operation-IsValid c FriendTcOp.enable_requests mc v = ground arith
queue_operation-IsValid c FriendTcOp.disable_requests mc v = ground arith
queue_operation-IsValid c (FriendTcOp.set_remote_max_debt n) mc v = ground arith
queue_operation-IsValid c (FriendTcOp.request_send_funds r) mc v = queue_request-IsValid r mc v
queue_operation-IsValid c (FriendTcOp.response_send_funds r) mc v = queue_response-IsValid c r mc v
queue_operation-IsValid c (FriendTcOp.cancel_send_funds r) mc v = queue_cancel-IsValid c r mc v
queue_operation-IsValid c (FriendTcOp.collect_send_funds r) mc v = queue_collect-IsValid c r mc v

bind-EndsValid :
    {E A B : Type 0} (f : A → Action E B) (x : Outcome E A × MutualCredit)
    → EndsValid x
    → ((a : A) (mc : MutualCredit) → IsValid mc → EndsValid (f a mc))
    → EndsValid (bind_to f x)
bind-EndsValid f (ok a, mc) v next = next a mc v
bind-EndsValid f (err e, mc) v next = v
bind-EndsValid f (panic, mc) v next = v

at_index-EndsValid :
    {A : Type 0} (i : ℕ) (x : Outcome ProcessOperationError A × MutualCredit)
    → EndsValid x
    → EndsValid (at_index i x)
at_index-EndsValid i (ok a, mc) v = v
at_index-EndsValid i (err e, mc) v = v
at_index-EndsValid i (panic, mc) v = v

-- A list of operations from the friend does not panic and leaves a valid state.
process_operations_from-IsValid :
    (c : Crypto) (i : ℕ) (ops : List FriendTcOp) (mc : MutualCredit)
    → IsValid mc
    → EndsValid (process_operations_from c i ops mc)
unfolding process_operations_from
process_operations_from-IsValid c i [] mc v = v
process_operations_from-IsValid c i (op ∷ ops) mc v =
    bind-EndsValid _ _ (at_index-EndsValid i _ (process_operation-IsValid c op mc v)) λ out mc' v'.
      bind-EndsValid _ _ (process_operations_from-IsValid c (suc i) ops mc' v') λ outs mc'' v''. v''

-- What a pending transaction freezes is part of the pending debt.
pub remote_part :
    (id : ℕ) (t : PendingTransaction) (mc : MutualCredit)
    → IsValid mc
    → get id mc.pending_transactions.remote ≡ some t
    → freeze t ≤ mc.balance.remote_pending_debt
remote_part id t mc v e =
    omega
      (arith, v.remote_frozen, frozen-remove id t mc.pending_transactions.remote e v.remote_sound)

pub local_part :
    (id : ℕ) (t : PendingTransaction) (mc : MutualCredit)
    → IsValid mc
    → get id mc.pending_transactions.local ≡ some t
    → freeze t ≤ mc.balance.local_pending_debt
local_part id t mc v e =
    omega (arith, v.local_frozen, frozen-remove id t mc.pending_transactions.local e v.local_sound)

pub process_operations_list-IsValid :
    (c : Crypto) (ops : List FriendTcOp) (mc : MutualCredit)
    → IsValid mc
    → EndsValid (process_operations_list c ops mc)
unfolding process_operations_list
process_operations_list-IsValid c ops mc v = process_operations_from-IsValid c 0 ops mc v
