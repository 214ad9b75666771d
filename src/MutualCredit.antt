-- ===== src/MutualCredit.antt =====
-- components/funder/src/mutual_credit/types.rs: the credit state of one side of a friendship.
-- `MutualCredit` wraps `MutualCreditState`; the model has the inner record alone.
pub mod Monad
pub mod Incoming
pub mod Outgoing
pub mod Pending
pub mod Words
pub mod Requests
pub mod Invariant
pub mod InTurn
pub mod Replay
pub mod Mirror
pub mod Repeat
pub mod Idents
pub mod Trust
pub mod Funds
pub mod Trips
pub mod Tests
use offst.Prelude.{ℕ, zero, suc, Bool, true, false, List, [], ◌∷◌, Option, none, some, ◌-◌, ◌≡◌}
use offst.Prelude.Int.{ℤ}
use offst.Prelude.Dict.{Dict, get, insert, remove}
use offst.Crypto.{PublicKey, Uid}
use offst.Messages.{PendingTransaction, RequestsStatus, TransactionStage}
use offst.SafeArith.{checked_add_unsigned}
use offst.Buffers.{half128}

abbrev pub max_funder_debt : ℕ
max_funder_debt = half128 - 1

pub record McIdents : Type 0 where
  pub local_public_key : PublicKey
  pub remote_public_key : PublicKey

pub record McBalance : Type 0 where
  pub balance : ℤ
  pub local_max_debt : ℕ
  pub remote_max_debt : ℕ
  pub local_pending_debt : ℕ
  pub remote_pending_debt : ℕ

pub record McPendingTransactions : Type 0 where
  pub local : Dict PendingTransaction
  pub remote : Dict PendingTransaction

pub record McRequestsStatus : Type 0 where
  pub local : RequestsStatus
  pub remote : RequestsStatus

pub record MutualCredit : Type 0 where
  pub idents : McIdents
  pub balance : McBalance
  pub pending_transactions : McPendingTransactions
  pub requests_status : McRequestsStatus

pub data McMutation : Type 0 where
  set_local_requests_status : RequestsStatus → McMutation
  set_remote_requests_status : RequestsStatus → McMutation
  set_local_max_debt : ℕ → McMutation
  set_remote_max_debt : ℕ → McMutation
  set_balance : ℤ → McMutation
  insert_local_pending_transaction : PendingTransaction → McMutation
  remove_local_pending_transaction : Uid → McMutation
  set_local_pending_transaction_stage : Uid → TransactionStage → McMutation
  insert_remote_pending_transaction : PendingTransaction → McMutation
  remove_remote_pending_transaction : Uid → McMutation
  set_remote_pending_transaction_stage : Uid → TransactionStage → McMutation
  set_local_pending_debt : ℕ → McMutation
  set_remote_pending_debt : ℕ → McMutation

-- `MutualCredit::new`, with `McBalance::new` and the empty maps.
unfoldable pub new : PublicKey → PublicKey → ℤ → MutualCredit
new local_public_key remote_public_key balance = record {
  idents = record { local_public_key = local_public_key; remote_public_key = remote_public_key };
  balance = record {
    balance = balance;
    local_max_debt = 0;
    remote_max_debt = 0;
    local_pending_debt = 0;
    remote_pending_debt = 0;
  };
  pending_transactions = record { local = []; remote = [] };
  requests_status = record { local = RequestsStatus.closed; remote = RequestsStatus.closed };
}

-- `balance_for_reset`; `none` is the panic of `expect`.
unfoldable pub balance_for_reset : MutualCredit → Option ℤ
balance_for_reset mc =
    checked_add_unsigned half128 mc.balance.balance mc.balance.remote_pending_debt

-- `get_mut(&id).unwrap().stage = stage`; `none` is the panic.
unfoldable pub set_stage :
    Uid → TransactionStage → Dict PendingTransaction → Option (Dict PendingTransaction)
set_stage id stage d = elim (get id d) [
  | none ↦ none
  | some t ↦ some (insert id (record t { stage = stage }) d)
]

with_balance : MutualCredit → McBalance → Option MutualCredit
with_balance mc b = some (record mc { balance = b })

with_local : MutualCredit → Option (Dict PendingTransaction) → Option MutualCredit
with_local mc none = none
with_local mc (some d) =
    some (record mc { pending_transactions = record (mc.pending_transactions) { local = d } })

with_remote : MutualCredit → Option (Dict PendingTransaction) → Option MutualCredit
with_remote mc none = none
with_remote mc (some d) =
    some (record mc { pending_transactions = record (mc.pending_transactions) { remote = d } })

-- `MutualCredit::mutate`, with the setters that it calls; `none` is a panic.
unfoldable pub mutate : McMutation → MutualCredit → Option MutualCredit
unfolding with_balance with_local with_remote
mutate (McMutation.set_local_requests_status s) mc =
    some (record mc { requests_status = record (mc.requests_status) { local = s } })
mutate (McMutation.set_remote_requests_status s) mc =
    some (record mc { requests_status = record (mc.requests_status) { remote = s } })
mutate (McMutation.set_local_max_debt n) mc =
    with_balance mc (record (mc.balance) { local_max_debt = n })
mutate (McMutation.set_remote_max_debt n) mc =
    with_balance mc (record (mc.balance) { remote_max_debt = n })
mutate (McMutation.set_balance b) mc = with_balance mc (record (mc.balance) { balance = b })
mutate (McMutation.insert_local_pending_transaction t) mc =
    with_local mc (some (insert t.request_id t mc.pending_transactions.local))
mutate (McMutation.remove_local_pending_transaction id) mc =
    with_local mc (some (remove id mc.pending_transactions.local))
mutate (McMutation.set_local_pending_transaction_stage id s) mc =
    with_local mc (set_stage id s mc.pending_transactions.local)
mutate (McMutation.insert_remote_pending_transaction t) mc =
    with_remote mc (some (insert t.request_id t mc.pending_transactions.remote))
mutate (McMutation.remove_remote_pending_transaction id) mc =
    with_remote mc (some (remove id mc.pending_transactions.remote))
mutate (McMutation.set_remote_pending_transaction_stage id s) mc =
    with_remote mc (set_stage id s mc.pending_transactions.remote)
mutate (McMutation.set_local_pending_debt n) mc =
    with_balance mc (record (mc.balance) { local_pending_debt = n })
mutate (McMutation.set_remote_pending_debt n) mc =
    with_balance mc (record (mc.balance) { remote_pending_debt = n })
