-- ===== src/Messages.antt =====
-- components/proto/src/funder/messages.rs: the operations that two friends exchange, the pending
-- transaction and the move token. A machine integer is a number; its range is a hypothesis or an
-- invariant of what uses it.
pub mod Serialize
use offst.Prelude.{ℕ, Bool, true, false, List, Option}
use offst.Prelude.Int.{ℤ}
use offst.Crypto.{PublicKey, Signature, Uid, HashedLock, PlainLock, RandValue, InvoiceId}

pub record FriendsRoute : Type 0 where
  pub public_keys : List PublicKey

pub record RequestSendFundsOp : Type 0 where
  pub request_id : Uid
  pub src_hashed_lock : HashedLock
  pub route : FriendsRoute
  pub dest_payment : ℕ
  pub total_dest_payment : ℕ
  pub invoice_id : InvoiceId
  pub left_fees : ℕ

-- `S` is `Signature`, or the unit before the message is signed.
pub record ResponseSendFundsOp (S : Type 0) : Type 0 where
  pub request_id : Uid
  pub dest_hashed_lock : HashedLock
  pub rand_nonce : RandValue
  pub signature : S

pub record CancelSendFundsOp : Type 0 where
  pub request_id : Uid

pub record CollectSendFundsOp : Type 0 where
  pub request_id : Uid
  pub src_plain_lock : PlainLock
  pub dest_plain_lock : PlainLock

pub data FriendTcOp : Type 0 where
  enable_requests disable_requests : FriendTcOp
  set_remote_max_debt : ℕ → FriendTcOp
  request_send_funds : RequestSendFundsOp → FriendTcOp
  response_send_funds : ResponseSendFundsOp Signature → FriendTcOp
  cancel_send_funds : CancelSendFundsOp → FriendTcOp
  collect_send_funds : CollectSendFundsOp → FriendTcOp

-- components/proto/src/app_server/messages.rs
pub record RelayAddress (B : Type 0) : Type 0 where
  pub public_key : PublicKey
  pub address : B

pub record MoveToken (B S : Type 0) : Type 0 where
  pub operations : List FriendTcOp
  pub opt_local_relays : Option (List (RelayAddress B))
  pub old_token : Signature
  pub local_public_key : PublicKey
  pub remote_public_key : PublicKey
  pub inconsistency_counter : ℕ
  pub move_token_counter : ℕ
  pub balance : ℤ
  pub local_pending_debt : ℕ
  pub remote_pending_debt : ℕ
  pub rand_nonce : RandValue
  pub new_token : S

pub data TransactionStage : Type 0 where
  request : TransactionStage
  -- With `dest_hashed_lock`.
  response : HashedLock → TransactionStage

pub record PendingTransaction : Type 0 where
  pub request_id : Uid
  pub route : FriendsRoute
  pub dest_payment : ℕ
  pub total_dest_payment : ℕ
  pub invoice_id : InvoiceId
  pub left_fees : ℕ
  pub src_hashed_lock : HashedLock
  pub stage : TransactionStage

pub data RequestsStatus : Type 0 where
  opened closed : RequestsStatus

-- `RequestsStatus::is_open`
abbrev pub is_open : RequestsStatus → Bool
is_open opened = true
is_open closed = false

-- components/funder/src/types.rs: `create_pending_transaction`
unfoldable pub create_pending_transaction : RequestSendFundsOp → PendingTransaction
create_pending_transaction r = record {
  request_id = r.request_id;
  route = r.route;
  dest_payment = r.dest_payment;
  total_dest_payment = r.total_dest_payment;
  invoice_id = r.invoice_id;
  left_fees = r.left_fees;
  src_hashed_lock = r.src_hashed_lock;
  stage = request;
}
