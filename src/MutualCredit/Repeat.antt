-- ===== src/MutualCredit/Repeat.antt =====
-- A request that the sender has pending already: what the friend answers to it.
use offst.Prelude.{◌*◌, ◌<◌, ◌≤◌, ◌≡◌, ◌≢◌, true, none, List, arith}
use offst.Prelude.Dict.{get}
use offst.Prelude.Int.{neg, neg_parts}
use offst.Prelude.Outcome.{Outcome, err}
use offst.Crypto.{Crypto}
use offst.Messages.{FriendTcOp, RequestSendFundsOp, is_open, create_pending_transaction}
use offst.Route.{is_valid, find_pk_pair}
use offst.SafeArith.{unsigned_checked_add}
use offst.Buffers.{half128}
use offst.MutualCredit.{MutualCredit, McMutation, mutate}
use offst.MutualCredit.Words.{HasRoom, HasNoExcess, HasRoom-elim, HasNoExcess-intro}
use offst.MutualCredit.Requests.{local_debt, remote_debt}
use offst.MutualCredit.Invariant.{IsValid, balance_range}
use offst.MutualCredit.Mirror.{mirror, mirror-IsValid}
use offst.MutualCredit.Outgoing.{queue_operation, queue_request_send_funds, QueueOperationError}
use offst.MutualCredit.Incoming.{
  process_operation, process_request_send_funds, ProcessOperationError,
}

-- What holds where the last check of `queue_request_send_funds` fails.
abbrev QueueRepeats : RequestSendFundsOp → MutualCredit → Type 0
QueueRepeats r mc =
    (is_valid r.route ≡ true)
    × (r.dest_payment ≤ r.total_dest_payment)
    × (find_pk_pair r.route mc.idents.local_public_key mc.idents.remote_public_key ≢ none)
    × (is_open mc.requests_status.remote ≡ true)
    × (local_debt r mc < 2 * half128)
    × HasRoom mc.balance.balance (local_debt r mc) mc.balance.local_max_debt
    × (get r.request_id mc.pending_transactions.local ≢ none)

abbrev RepeatEnds :
    RequestSendFundsOp
    → MutualCredit
    → Outcome QueueOperationError (List McMutation) × MutualCredit
    → Type 0
RepeatEnds r mc (err QueueOperationError.request_already_exists, mc') = QueueRepeats r mc
RepeatEnds r mc _ = Unit {0}

queue_repeats :
    (r : RequestSendFundsOp) (mc : MutualCredit) → RepeatEnds r mc (queue_request_send_funds r mc)
unfolding queue_request_send_funds mutate unsigned_checked_add create_pending_transaction
queue_repeats r mc = ground arith

process_repeats :
    (r : RequestSendFundsOp) (mc : MutualCredit)
    → (is_valid r.route ≡ true)
      × (r.dest_payment ≤ r.total_dest_payment)
      × (find_pk_pair r.route mc.idents.remote_public_key mc.idents.local_public_key ≢ none)
      × (is_open mc.requests_status.local ≡ true)
      × (remote_debt r mc < 2 * half128)
      × HasNoExcess mc.balance.balance (remote_debt r mc) mc.balance.remote_max_debt
      × (get r.request_id mc.pending_transactions.remote ≢ none)
    → process_request_send_funds r mc ≡ (err ProcessOperationError.request_already_exists, mc)
unfolding process_request_send_funds mutate unsigned_checked_add create_pending_transaction
process_repeats r mc h = ground arith

-- When a valid state refuses to queue a request because it is pending already, the friend, in the
-- mirrored state, refuses to process the same request for the same reason.
pub repeated-refused :
    (c : Crypto) (r : RequestSendFundsOp) (mc mc' : MutualCredit)
    → IsValid mc
    → queue_operation c (FriendTcOp.request_send_funds r) mc
      ≡ (err QueueOperationError.request_already_exists, mc')
    → process_operation c (FriendTcOp.request_send_funds r) (mirror mc)
      ≡ (err ProcessOperationError.request_already_exists, mirror mc)
unfolding queue_operation process_operation
repeated-refused c r mc mc' v h =
    let a : QueueRepeats r mc = rw h at (queue_repeats r mc) in
    let room =
      HasRoom-elim mc.balance.balance (local_debt r mc) mc.balance.local_max_debt (balance_range v)
        a.4 v.local_max a.5 in
    let (p, n) = neg_parts mc.balance.balance in
    process_repeats r (mirror mc) (
      a.0,
      a.1,
      a.2,
      a.3,
      a.4,
      HasNoExcess-intro (neg mc.balance.balance) (local_debt r mc) mc.balance.local_max_debt
          (balance_range (mirror-IsValid v)) a.4 v.local_max (omega (arith, p, n))
          (omega (arith, p, n)),
      a.6,
    )
