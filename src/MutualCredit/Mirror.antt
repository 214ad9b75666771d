-- ===== src/MutualCredit/Mirror.antt =====
-- The two sides of a friendship: what one side queues, the other side takes, and both end with
-- states that mirror one another.
use offst.Prelude.{
  ◌≡◌, ◌⊎◌, ◌↔◌, refl, Bool-cases, true, false, List, arith, Option-cases, inl, inr,
}
use mathlib.Core.List.{map}
use offst.Prelude.Int.{neg, parts_disjoint, neg_parts, neg-neg}
use offst.Prelude.Dict.{get}
use offst.Prelude.Outcome.{Outcome, ok, err, panic}
use offst.Crypto.{Crypto, Signature}
use offst.Messages.{
  FriendTcOp, RequestSendFundsOp, ResponseSendFundsOp, CancelSendFundsOp, CollectSendFundsOp,
  is_open,
}
use offst.SafeArith.{unsigned_checked_add}
use offst.MutualCredit.{MutualCredit, McMutation, mutate, set_stage}
use offst.MutualCredit.Pending.{freeze}
use offst.MutualCredit.Words.{HasRoom-elim, HasNoExcess-intro, add_word_total, sub_word_of}
use offst.MutualCredit.Requests.{QueueEnds, local_debt, queue_request_ends, process_request_accepts}
use offst.MutualCredit.Invariant.{IsValid, balance_range, remote_part}
use offst.MutualCredit.Incoming.{
  process_operation, process_request_send_funds, process_response_send_funds,
  process_cancel_send_funds, process_collect_send_funds, process_enable_requests,
  process_disable_requests, process_set_remote_max_debt, ProcessOperationError,
  ProcessOperationOutput,
}
use offst.MutualCredit.Outgoing.{
  queue_operation, queue_request_send_funds, queue_response_send_funds, queue_cancel_send_funds,
  queue_collect_send_funds, queue_enable_requests, queue_disable_requests,
  queue_set_remote_max_debt,
}

-- The same friendship from the other side.
abbrev pub mirror : MutualCredit → MutualCredit
mirror mc = record {
  idents = record {
    local_public_key = mc.idents.remote_public_key;
    remote_public_key = mc.idents.local_public_key;
  };
  balance = record {
    balance = neg mc.balance.balance;
    local_max_debt = mc.balance.remote_max_debt;
    remote_max_debt = mc.balance.local_max_debt;
    local_pending_debt = mc.balance.remote_pending_debt;
    remote_pending_debt = mc.balance.local_pending_debt;
  };
  pending_transactions = record {
    local = mc.pending_transactions.remote;
    remote = mc.pending_transactions.local;
  };
  requests_status = record { local = mc.requests_status.remote; remote = mc.requests_status.local };
}

-- The invariant is symmetric.
pub mirror-IsValid : {mc : MutualCredit} → IsValid mc → IsValid (mirror mc)
mirror-IsValid {mc} v =
    let (p, n) = neg_parts mc.balance.balance in
    record {
      local_frozen = v.remote_frozen;
      remote_frozen = v.local_frozen;
      local_sound = v.remote_sound;
      remote_sound = v.local_sound;
      low = omega (arith, v.high, p, n);
      high = omega (arith, v.low, p, n);
      local_max = v.remote_max;
      remote_max = v.local_max;
    }

pub mirror-mirror : (mc : MutualCredit) → mirror (mirror mc) ≡ mc
mirror-mirror mc = rw (neg-neg mc.balance.balance)

abbrev pub mirror_mutation : McMutation → McMutation
mirror_mutation (McMutation.set_local_requests_status s) = McMutation.set_remote_requests_status s
mirror_mutation (McMutation.set_remote_requests_status s) = McMutation.set_local_requests_status s
mirror_mutation (McMutation.set_local_max_debt n) = McMutation.set_remote_max_debt n
mirror_mutation (McMutation.set_remote_max_debt n) = McMutation.set_local_max_debt n
mirror_mutation (McMutation.set_balance b) = McMutation.set_balance (neg b)
mirror_mutation (McMutation.insert_local_pending_transaction t) =
    McMutation.insert_remote_pending_transaction t
mirror_mutation (McMutation.remove_local_pending_transaction id) =
    McMutation.remove_remote_pending_transaction id
mirror_mutation (McMutation.set_local_pending_transaction_stage id s) =
    McMutation.set_remote_pending_transaction_stage id s
mirror_mutation (McMutation.insert_remote_pending_transaction t) =
    McMutation.insert_local_pending_transaction t
mirror_mutation (McMutation.remove_remote_pending_transaction id) =
    McMutation.remove_local_pending_transaction id
mirror_mutation (McMutation.set_remote_pending_transaction_stage id s) =
    McMutation.set_local_pending_transaction_stage id s
mirror_mutation (McMutation.set_local_pending_debt n) = McMutation.set_remote_pending_debt n
mirror_mutation (McMutation.set_remote_pending_debt n) = McMutation.set_local_pending_debt n

-- The friend's call, by what the local call ended with: a success is mirrored.
abbrev pub Mirrors :
    {E F : Type 0}
    → Outcome E (List McMutation) × MutualCredit
    → Outcome F ProcessOperationOutput × MutualCredit
    → Type 0
Mirrors (ok ms, mc) (ok out, mc') = (out.mc_mutations ≡ map mirror_mutation ms) × (mc' ≡ mirror mc)
Mirrors (ok ms, mc) (err e, mc') = ⊥
Mirrors (ok ms, mc) (panic, mc') = ⊥
Mirrors (err e, mc) y = Unit {0}
Mirrors (panic, mc) y = Unit {0}

-- The sender closes its requests only while they are open.
abbrev pub ClosesOpen : FriendTcOp → MutualCredit → Type 0
ClosesOpen FriendTcOp.disable_requests mc = is_open mc.requests_status.local ≡ true
ClosesOpen _ mc = Unit {0}

request-Mirrors :
    (r : RequestSendFundsOp) (mc : MutualCredit)
    → IsValid mc
    → Mirrors (queue_request_send_funds r mc) (process_request_send_funds r (mirror mc))
request-Mirrors r mc v = go (queue_request_send_funds r mc) (queue_request_ends r mc)
  where
    go :
        {E : Type 0} (x : Outcome E (List McMutation) × MutualCredit)
        → QueueEnds r mc x
        → Mirrors x (process_request_send_funds r (mirror mc))
    go (ok ms, mc') (a, m, e) =
        let room =
          HasRoom-elim mc.balance.balance (local_debt r mc) mc.balance.local_max_debt
            (balance_range v) a.4 v.local_max a.5 in
        let (p, n) = neg_parts mc.balance.balance in
        let taken = process_request_accepts r (mirror mc) (
          a.0,
          a.1,
          a.2,
          a.3,
          a.4,
          HasNoExcess-intro (neg mc.balance.balance) (local_debt r mc) mc.balance.local_max_debt
              (balance_range (mirror-IsValid v)) a.4 v.local_max (omega (arith, p, n))
              (omega (arith, p, n)),
          a.6,
        ) in
        rw taken (rw m, rw e)
    go (err e, mc') same = tt
    go (panic, mc') h = tt

response-Mirrors :
    (c : Crypto) (r : ResponseSendFundsOp Signature) (mc : MutualCredit)
    → Mirrors (queue_response_send_funds c r mc) (process_response_send_funds c r (mirror mc))
unfolding queue_response_send_funds process_response_send_funds mutate set_stage
response-Mirrors c r mc = ground arith

cancel-Mirrors :
    (c : Crypto) (r : CancelSendFundsOp) (mc : MutualCredit)
    → Mirrors (queue_cancel_send_funds c r mc) (process_cancel_send_funds c r (mirror mc))
unfolding queue_cancel_send_funds process_cancel_send_funds mutate
cancel-Mirrors c r mc = ground arith

collect-Mirrors :
    (c : Crypto) (r : CollectSendFundsOp) (mc : MutualCredit)
    → IsValid mc
    → Mirrors (queue_collect_send_funds c r mc) (process_collect_send_funds c r (mirror mc))
unfolding queue_collect_send_funds process_collect_send_funds mutate unsigned_checked_add
collect-Mirrors c r mc v = elim (Option-cases (get r.request_id mc.pending_transactions.remote)) [
  | inl e ↦ ground arith
  | inr (t, e) ↦
      let part = remote_part r.request_id t mc v e in
      let (p, n) = neg_parts mc.balance.balance in
      let (b, earned, more) =
        add_word_total mc.balance.balance (freeze t) (balance_range v)
          (omega (arith, v.low, v.high, part)) (omega (arith, v.high, part)) in
      let (q, m) = neg_parts b in
      let spent =
        sub_word_of (neg mc.balance.balance) (freeze t) (balance_range (mirror-IsValid v))
          (omega (arith, v.low, v.high, part)) (neg b)
          (omega (arith, v.low, v.high, part, p, n, q, m, more, parts_disjoint b))
          (omega (arith, p, n, q, m, more)) in
      ground (arith, earned, spent)
]

-- What one side queues in a valid state, the friend in the mirrored state accepts, and the two states
-- mirror one another again. Closing requests is queued only while they are open.
pub queue-Mirrors :
    (c : Crypto) (op : FriendTcOp) (mc : MutualCredit)
    → IsValid mc
    → ClosesOpen op mc
    → Mirrors (queue_operation c op mc) (process_operation c op (mirror mc))
unfolding queue_operation queue_enable_requests queue_disable_requests queue_set_remote_max_debt
    process_operation process_enable_requests process_disable_requests process_set_remote_max_debt
    mutate
queue-Mirrors c FriendTcOp.enable_requests mc v h = ground arith
queue-Mirrors c FriendTcOp.disable_requests mc v h = ground arith
queue-Mirrors c (FriendTcOp.set_remote_max_debt n) mc v h = ground arith
queue-Mirrors c (FriendTcOp.request_send_funds r) mc v h = request-Mirrors r mc v
queue-Mirrors c (FriendTcOp.response_send_funds r) mc v h = response-Mirrors c r mc
queue-Mirrors c (FriendTcOp.cancel_send_funds r) mc v h = cancel-Mirrors c r mc
queue-Mirrors c (FriendTcOp.collect_send_funds r) mc v h = collect-Mirrors c r mc v

-- Closing the requests is what is queued without a look at the state; the friend looks.
closes_or :
    (op : FriendTcOp) (mc : MutualCredit)
    → ClosesOpen op mc
      ⊎ ((op ≡ FriendTcOp.disable_requests) × (is_open mc.requests_status.local ≡ false))
closes_or FriendTcOp.disable_requests mc = elim (Bool-cases (is_open mc.requests_status.local)) [
  | inl e ↦ inl e
  | inr e ↦ inr (refl, e)
]
closes_or FriendTcOp.enable_requests mc = inl tt
closes_or (FriendTcOp.set_remote_max_debt n) mc = inl tt
closes_or (FriendTcOp.request_send_funds r) mc = inl tt
closes_or (FriendTcOp.response_send_funds r) mc = inl tt
closes_or (FriendTcOp.cancel_send_funds r) mc = inl tt
closes_or (FriendTcOp.collect_send_funds r) mc = inl tt

Mirrors-accepts :
    {E F : Type 0} (x : Outcome E (List McMutation) × MutualCredit)
    (y : Outcome F ProcessOperationOutput × MutualCredit) (ms : List McMutation)
    → Mirrors x y
    → x.0 ≡ ok ms
    → (e : F) → y.0 ≡ err e
    → ⊥
Mirrors-accepts (ok ns, mc) (ok out, mc') ms m h e k = cc k
Mirrors-accepts (ok ns, mc) (err f, mc') ms m h e k = m
Mirrors-accepts (ok ns, mc) (panic, mc') ms m h e k = cc k
Mirrors-accepts (err f, mc) y ms m h e k = cc h
Mirrors-accepts (panic, mc) y ms m h e k = cc h

disabled_refused :
    (c : Crypto) (mc : MutualCredit)
    → is_open mc.requests_status.local ≡ false
    → process_operation c FriendTcOp.disable_requests (mirror mc)
      ≡ (err ProcessOperationError.requests_already_disabled, mirror mc)
unfolding process_operation process_disable_requests mutate
disabled_refused c mc h = ground arith

-- The friend, in the mirrored state, refuses an operation that was queued in a valid state just if
-- it closes the requests while they are closed already.
pub queued-refused_iff :
    (c : Crypto) (op : FriendTcOp) (mc : MutualCredit) (ms : List McMutation)
    → IsValid mc
    → (queue_operation c op mc).0 ≡ ok ms
    → ((e : ProcessOperationError) × ((process_operation c op (mirror mc)).0 ≡ err e))
      ↔ ((op ≡ FriendTcOp.disable_requests) × (is_open mc.requests_status.local ≡ false))
queued-refused_iff c op mc ms v q = (
  λ r. elim (closes_or op mc) [
    | inl closes ↦ absurd (
        Mirrors-accepts (queue_operation c op mc) (process_operation c op (mirror mc)) ms
          (queue-Mirrors c op mc v closes) q r.0 r.1)
    | inr shut ↦ shut
  ],
  λ s. (ProcessOperationError.requests_already_disabled, rw (s.0, disabled_refused c mc s.1) refl),
)
