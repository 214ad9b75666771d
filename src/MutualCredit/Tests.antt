-- ===== src/MutualCredit/Tests.antt =====
-- Tests of the mutual credit.
use offst.Prelude.{false, ◌↔◌, ℕ, ◌≡◌, ◌≢◌, refl, List, [], ◌∷◌, some, arith}
use offst.Prelude.Int.{pos, neg, ◌-ℤ◌, ◌+ℤ◌}
use offst.Prelude.Dict.{insert, remove}
use offst.Prelude.Outcome.{ok, err}
use offst.Crypto.{be_bytes, hash_lock}
use offst.Messages.{
  is_open, FriendTcOp, TransactionStage, RequestsStatus, create_pending_transaction,
}
use offst.Messages.Serialize.{serialize_route}
use offst.Route.{is_valid, find_pk_pair, insert_all, closes_or_new, contains}
use offst.Buffers.{create_response_signature_buffer, inner_blob}
use offst.SafeArith.{
  unsigned_checked_sub, as_signed, checked_sub, checked_add, unsigned_checked_add,
  checked_sub_unsigned, checked_add_unsigned,
}
use offst.MutualCredit.{MutualCredit, McMutation, mutate, set_stage}
use offst.MutualCredit.Pending.{frozen}
use offst.MutualCredit.Incoming.{
  IncomingMessage, process_operation, process_operations_from, process_response_send_funds,
  process_cancel_send_funds, process_collect_send_funds, ProcessOperationError,
}
use offst.MutualCredit.Outgoing.{
  queue_disable_requests, queue_operation, queue_request_send_funds, QueueOperationError,
}
use offst.MutualCredit.Repeat.{repeated-refused}
use offst.MutualCredit.Invariant.{
  IsValid, EndsValid, process_operation-IsValid, queue_operation-IsValid,
}
use offst.MutualCredit.Mirror.{mirror, mirror-IsValid, Mirrors, queue-Mirrors, queued-refused_iff}
use offst.MutualCredit.InTurn.{EndsInTurn, process_operations_from-EndsInTurn}
use offst.MutualCredit.Trust.{
  WithinTrust, Keeps, process_operation-WithinTrust, queue_operation-WithinTrust,
}
use offst.MutualCredit.Funds.{Pays, process_operation-Pays}
use offst.MutualCredit.Trips.{EndsIn, paid, collect-request, cancel-request}
use offst.MutualCredit.Replay.{
  Reports, reported, queued_list, process_operation-Reports, queue_operation-Reports,
}
use offst.Samples.{checksum, credit, asked, request, response, collect}

credit-IsValid : IsValid credit
unfolding frozen
credit-IsValid = ground arith

asked-IsValid : IsValid asked
unfolding frozen is_valid insert_all closes_or_new contains create_pending_transaction
asked-IsValid = ground arith

-- The friend's answer has come.
abbrev answered : MutualCredit
unfolding create_pending_transaction
answered = record asked {
  pending_transactions = record {
    local =
        (
          7,
          record (create_pending_transaction request) {
            stage = TransactionStage.response (hash_lock checksum 6);
          },
        )
        ∷ [];
    remote = [];
  };
}

answered-IsValid : IsValid answered
unfolding frozen is_valid insert_all closes_or_new contains create_pending_transaction
answered-IsValid = ground arith

-- The mirrored trust.
credit-WithinTrust : WithinTrust (mirror credit)
unfolding neg
credit-WithinTrust = omega arith

-- A request sets no maximum of debt.
request_is_no_limit :
    (n : ℕ) → FriendTcOp.request_send_funds request ≢ FriendTcOp.set_remote_max_debt n
request_is_no_limit n = λ e. cc e

process_operation-IsValid_example :
    EndsValid (process_operation checksum (FriendTcOp.collect_send_funds collect) answered)
process_operation-IsValid_example =
    process_operation-IsValid checksum (FriendTcOp.collect_send_funds collect) answered
      answered-IsValid

queue_operation-IsValid_example :
    EndsValid (queue_operation checksum (FriendTcOp.collect_send_funds collect) (mirror answered))
queue_operation-IsValid_example =
    queue_operation-IsValid checksum (FriendTcOp.collect_send_funds collect) (mirror answered)
      (mirror-IsValid answered-IsValid)

process_operations_from-EndsInTurn_example :
    EndsInTurn checksum 0
      (FriendTcOp.response_send_funds response ∷ FriendTcOp.collect_send_funds collect ∷ [])
      asked
      (process_operations_from checksum 0
        (FriendTcOp.response_send_funds response ∷ FriendTcOp.collect_send_funds collect ∷ [])
        asked)
process_operations_from-EndsInTurn_example =
    process_operations_from-EndsInTurn checksum 0
      (FriendTcOp.response_send_funds response ∷ FriendTcOp.collect_send_funds collect ∷ []) asked
      asked-IsValid

process_operation-WithinTrust_example :
    Keeps WithinTrust
      (process_operation checksum (FriendTcOp.request_send_funds request) (mirror credit))
process_operation-WithinTrust_example =
    process_operation-WithinTrust checksum (FriendTcOp.request_send_funds request) (mirror credit)
      (mirror-IsValid credit-IsValid) credit-WithinTrust

queue_operation-WithinTrust_example :
    Keeps WithinTrust (queue_operation checksum (FriendTcOp.request_send_funds request) credit)
queue_operation-WithinTrust_example =
    queue_operation-WithinTrust checksum (FriendTcOp.request_send_funds request) credit
      request_is_no_limit credit-IsValid (omega arith)

process_operation-Pays_example :
    Pays checksum
      (FriendTcOp.collect_send_funds collect)
      answered
      (process_operation checksum (FriendTcOp.collect_send_funds collect) answered)
process_operation-Pays_example =
    process_operation-Pays checksum (FriendTcOp.collect_send_funds collect) answered
      answered-IsValid

process_operation-Reports_example :
    Reports reported asked
      (process_operation checksum (FriendTcOp.response_send_funds response) asked)
process_operation-Reports_example =
    process_operation-Reports checksum (FriendTcOp.response_send_funds response) asked

queue_operation-Reports_example :
    Reports queued_list credit
      (queue_operation checksum (FriendTcOp.request_send_funds request) credit)
queue_operation-Reports_example =
    queue_operation-Reports checksum (FriendTcOp.request_send_funds request) credit

queue-Mirrors_example :
    Mirrors
      (queue_operation checksum (FriendTcOp.request_send_funds request) credit)
      (process_operation checksum (FriendTcOp.request_send_funds request) (mirror credit))
queue-Mirrors_example =
    queue-Mirrors checksum (FriendTcOp.request_send_funds request) credit credit-IsValid tt

-- The same side with its requests closed.
abbrev shut : MutualCredit
shut = record credit {
  requests_status = record { local = RequestsStatus.closed; remote = RequestsStatus.opened };
}

shut-IsValid : IsValid shut
unfolding frozen
shut-IsValid = ground arith

shut_queues :
    (queue_operation checksum FriendTcOp.disable_requests shut).0
    ≡ ok (McMutation.set_local_requests_status RequestsStatus.closed ∷ [])
unfolding queue_operation queue_disable_requests mutate
shut_queues = refl

queued-refused_iff_example :
    ((e : ProcessOperationError) × ((process_operation checksum FriendTcOp.disable_requests
          (mirror shut)).0
        ≡ err e))
    ↔ ((FriendTcOp.disable_requests ≡ FriendTcOp.disable_requests)
        × (is_open shut.requests_status.local ≡ false))
queued-refused_iff_example =
    queued-refused_iff checksum FriendTcOp.disable_requests shut
      (McMutation.set_local_requests_status RequestsStatus.closed ∷ []) shut-IsValid shut_queues

-- The mutations of the request.
abbrev asking : List McMutation
asking =
    McMutation.insert_local_pending_transaction (create_pending_transaction request)
    ∷ McMutation.set_local_pending_debt 12
    ∷ []

request-asked : queue_request_send_funds request credit ≡ (ok asking, asked)
unfolding queue_request_send_funds is_valid insert_all closes_or_new contains find_pk_pair mutate
    insert unsigned_checked_add checked_sub_unsigned checked_add_unsigned create_pending_transaction
    as_signed checked_sub checked_add ◌-ℤ◌ ◌+ℤ◌
request-asked = refl

response-answered : process_response_send_funds checksum response asked ≡ (
  ok (record {
    incoming_message =
        some (IncomingMessage.response (create_pending_transaction request) response);
    mc_mutations =
        McMutation.set_local_pending_transaction_stage 7
          (TransactionStage.response (hash_lock checksum 6))
        ∷ [];
  }),
  answered,
)
unfolding process_response_send_funds mutate set_stage insert create_pending_transaction hash_lock
    create_response_signature_buffer be_bytes inner_blob serialize_route
response-answered = refl

cancel-request_example :
    EndsIn credit (process_cancel_send_funds checksum (record { request_id = 7 }) asked)
cancel-request_example = cancel-request checksum request credit asked asking request-asked

collect-paid : process_collect_send_funds checksum collect answered ≡ (
  ok (record {
    incoming_message = some (
        IncomingMessage.collect
          (record (create_pending_transaction request) {
            stage = TransactionStage.response (hash_lock checksum 6);
          })
          collect);
    mc_mutations =
        McMutation.remove_local_pending_transaction 7
        ∷ McMutation.set_local_pending_debt 0
        ∷ McMutation.set_balance (pos 8)
        ∷ [];
  }),
  paid request credit,
)
unfolding process_collect_send_funds mutate remove create_pending_transaction hash_lock be_bytes
    unsigned_checked_add unsigned_checked_sub checked_sub_unsigned as_signed checked_sub ◌-ℤ◌ ◌+ℤ◌
collect-paid = refl

collect-request_example : paid request credit ≡ paid request credit
collect-request_example =
    collect-request checksum request response collect credit asked answered (paid request credit)
      asking _ _ credit-IsValid refl refl request-asked response-answered collect-paid

asked_again :
    queue_operation checksum (FriendTcOp.request_send_funds request) asked
    ≡ (err QueueOperationError.request_already_exists, asked)
unfolding queue_operation queue_request_send_funds is_valid insert_all closes_or_new contains
    find_pk_pair mutate insert unsigned_checked_add checked_sub_unsigned checked_add_unsigned
    create_pending_transaction as_signed checked_sub checked_add ◌-ℤ◌ ◌+ℤ◌
asked_again = refl

repeated-refused_example :
    process_operation checksum (FriendTcOp.request_send_funds request) (mirror asked)
    ≡ (err ProcessOperationError.request_already_exists, mirror asked)
repeated-refused_example = repeated-refused checksum request asked asked asked-IsValid asked_again
