-- ===== src/MutualCredit/Requests.antt =====
-- A request in either direction: it is refused and nothing changes, or all its checks hold and the
-- state is known.
use offst.Prelude.{ℕ, ◌+◌, ◌*◌, ◌<◌, ◌≤◌, ◌≡◌, ◌≢◌, true, none, some, List, [], ◌∷◌, arith}
use offst.Prelude.Dict.{get, insert}
use offst.Prelude.Outcome.{Outcome, ok, err, panic}
use offst.Messages.{RequestSendFundsOp, create_pending_transaction, is_open}
use offst.Route.{is_valid, find_pk_pair}
use offst.SafeArith.{unsigned_checked_add}
use offst.Buffers.{half128}
use offst.MutualCredit.Words.{HasRoom, HasNoExcess}
use offst.MutualCredit.{MutualCredit, McMutation, mutate}
use offst.MutualCredit.Incoming.{
  process_request_send_funds, IncomingMessage, ProcessOperationOutput,
}
use offst.MutualCredit.Outgoing.{queue_request_send_funds}

-- The debt once the request is pending.
abbrev pub local_debt : RequestSendFundsOp → MutualCredit → ℕ
local_debt r mc = mc.balance.local_pending_debt + (r.dest_payment + r.left_fees)

abbrev pub remote_debt : RequestSendFundsOp → MutualCredit → ℕ
remote_debt r mc = mc.balance.remote_pending_debt + (r.dest_payment + r.left_fees)

-- What `queue_request_send_funds` checks.
abbrev pub QueueAccepts : RequestSendFundsOp → MutualCredit → Type 0
QueueAccepts r mc =
    (is_valid r.route ≡ true)
    × (r.dest_payment ≤ r.total_dest_payment)
    × (find_pk_pair r.route mc.idents.local_public_key mc.idents.remote_public_key ≢ none)
    × (is_open mc.requests_status.remote ≡ true)
    × (local_debt r mc < 2 * half128)
    × HasRoom mc.balance.balance (local_debt r mc) mc.balance.local_max_debt
    × (get r.request_id mc.pending_transactions.local ≡ none)

abbrev pub queued : RequestSendFundsOp → MutualCredit → MutualCredit
queued r mc = record mc {
  balance = record (mc.balance) { local_pending_debt = local_debt r mc };
  pending_transactions = record (mc.pending_transactions) {
    local = insert r.request_id (create_pending_transaction r) mc.pending_transactions.local;
  };
}

abbrev pub QueueEnds :
    {E : Type 0}
    → RequestSendFundsOp
    → MutualCredit
    → Outcome E (List McMutation) × MutualCredit
    → Type 0
QueueEnds r mc (ok ms, mc') =
    QueueAccepts r mc
    × (ms
        ≡ McMutation.insert_local_pending_transaction (create_pending_transaction r)
          ∷ McMutation.set_local_pending_debt (local_debt r mc)
          ∷ [])
    × (mc' ≡ queued r mc)
QueueEnds r mc (err e, mc') = mc' ≡ mc
QueueEnds r mc (panic, mc') = ⊥

pub queue_request_ends :
    (r : RequestSendFundsOp) (mc : MutualCredit) → QueueEnds r mc (queue_request_send_funds r mc)
unfolding queue_request_send_funds mutate unsigned_checked_add create_pending_transaction
queue_request_ends r mc = ground arith

-- What `process_request_send_funds` checks.
abbrev pub ProcessAccepts : RequestSendFundsOp → MutualCredit → Type 0
ProcessAccepts r mc =
    (is_valid r.route ≡ true)
    × (r.dest_payment ≤ r.total_dest_payment)
    × (find_pk_pair r.route mc.idents.remote_public_key mc.idents.local_public_key ≢ none)
    × (is_open mc.requests_status.local ≡ true)
    × (remote_debt r mc < 2 * half128)
    × HasNoExcess mc.balance.balance (remote_debt r mc) mc.balance.remote_max_debt
    × (get r.request_id mc.pending_transactions.remote ≡ none)

abbrev pub processed : RequestSendFundsOp → MutualCredit → MutualCredit
processed r mc = record mc {
  balance = record (mc.balance) { remote_pending_debt = remote_debt r mc };
  pending_transactions = record (mc.pending_transactions) {
    remote = insert r.request_id (create_pending_transaction r) mc.pending_transactions.remote;
  };
}

abbrev pub process_output : RequestSendFundsOp → MutualCredit → ProcessOperationOutput
process_output r mc = record {
  incoming_message = some (IncomingMessage.request r);
  mc_mutations =
      McMutation.insert_remote_pending_transaction (create_pending_transaction r)
      ∷ McMutation.set_remote_pending_debt (remote_debt r mc)
      ∷ [];
}

abbrev pub ProcessEnds :
    {E : Type 0}
    → RequestSendFundsOp
    → MutualCredit
    → Outcome E ProcessOperationOutput × MutualCredit
    → Type 0
ProcessEnds r mc (ok out, mc') =
    ProcessAccepts r mc × (out ≡ process_output r mc) × (mc' ≡ processed r mc)
ProcessEnds r mc (err e, mc') = mc' ≡ mc
ProcessEnds r mc (panic, mc') = ⊥

pub process_request_ends :
    (r : RequestSendFundsOp) (mc : MutualCredit)
    → ProcessEnds r mc (process_request_send_funds r mc)
unfolding process_request_send_funds mutate unsigned_checked_add create_pending_transaction
process_request_ends r mc = ground arith

-- Where the checks hold, the request is taken.
pub process_request_accepts :
    (r : RequestSendFundsOp) (mc : MutualCredit)
    → ProcessAccepts r mc
    → process_request_send_funds r mc ≡ (ok (process_output r mc), processed r mc)
unfolding process_request_send_funds mutate unsigned_checked_add create_pending_transaction
process_request_accepts r mc h = ground arith
