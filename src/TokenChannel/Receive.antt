-- ===== src/TokenChannel/Receive.antt =====
-- components/funder/src/token_channel.rs: how a move token of the friend is received. The signature
-- check of `verify_move_token` goes through `verify_signature`, a parameter.
use offst.Prelude.{
  ℕ, Bool, true, false, not, ◌&&◌, List, [], ◌∷◌, ◌++◌, Option, none, some, ◌==◌, if◌then◌else◌,
}
use offst.Prelude.Int.{ℤ}
use offst.Prelude.Outcome.{Outcome, ok, err, panic}
use offst.Crypto.{Crypto, Signature}
use offst.Messages.{MoveToken, RelayAddress, is_open}
use offst.SafeArith.{unsigned_checked_add}
use offst.Buffers.{half128, verify_move_token}
use offst.MutualCredit.{MutualCredit, McMutation, mutate}
use offst.MutualCredit.Incoming.{
  IncomingMessage, ProcessOperationOutput, ProcessTransListError, process_operations_list,
}
use offst.TokenChannel.{
  hashed_eq, int_eq, checked_neg, SetDirection, TcMutation, TcOutgoing, TcIncoming, TcDirection,
  TokenChannel,
}
use offst.TokenChannel.Create.{create_hashed}

-- `TooManyOperations` is never returned.
pub data ReceiveMoveTokenError : Type 0 where
  chain_inconsistency : ReceiveMoveTokenError
  invalid_transaction : ProcessTransListError → ReceiveMoveTokenError
  invalid_signature invalid_stated_balance invalid_inconsistency_counter move_token_counter_overflow
        invalid_move_token_counter too_many_operations :
      ReceiveMoveTokenError

pub record MoveTokenReceived (B : Type 0) : Type 0 where
  pub incoming_messages : List IncomingMessage
  pub mutations : List (TcMutation B)
  pub remote_requests_closed : Bool
  pub opt_local_relays : Option (List (RelayAddress B))

pub data ReceiveMoveTokenOutput (B : Type 0) : Type 0 where
  duplicate : ReceiveMoveTokenOutput B
  retransmit_outgoing : MoveToken B Signature → ReceiveMoveTokenOutput B
  received : MoveTokenReceived B → ReceiveMoveTokenOutput B

abbrev pub Receive : Type 0 → Type 0
Receive A = Outcome ReceiveMoveTokenError A

infixl 5 ◌>>=◌ ◌>>◌
abbrev pub ◌>>=◌ : {A C : Type 0} → Receive A → (A → Receive C) → Receive C
ok a >>= f = f a
err e >>= f = err e
panic >>= f = panic

abbrev pub ◌>>◌ : {C : Type 0} → Receive (Unit {0}) → Receive C → Receive C
m >> k = m >>= λ _. k

abbrev pub ensure : Bool → ReceiveMoveTokenError → Receive (Unit {0})
ensure true e = ok tt
ensure false e = err e

abbrev pub ok_or : {A : Type 0} → Option A → ReceiveMoveTokenError → Receive A
ok_or none e = err e
ok_or (some a) e = ok a

abbrev pub unwrap : {A : Type 0} → Option A → Receive A
unwrap none = panic
unwrap (some a) = ok a

-- `match res`: the processed clone of the mutual credit is dropped.
abbrev pub outputs_of :
    Outcome ProcessTransListError (List ProcessOperationOutput) × MutualCredit
    → Receive (List ProcessOperationOutput)
outputs_of (ok outs, mc) = ok outs
outputs_of (err e, mc) = err (ReceiveMoveTokenError.invalid_transaction e)
outputs_of (panic, mc) = panic

-- The variables of the loop over the outputs.
pub record Scan (B : Type 0) : Type 0 where
  pub incoming_messages : List IncomingMessage
  pub mutations : List (TcMutation B)
  pub check_mutual_credit : MutualCredit
  pub final_remote_requests : Bool

-- `if let McMutation::SetRemoteRequestsStatus(requests_status) = &mc_mutation`
abbrev pub remote_requests_after : McMutation → Bool → Bool
remote_requests_after (McMutation.set_remote_requests_status s) b = is_open s
remote_requests_after _ b = b

abbrev pub push_message : List IncomingMessage → Option IncomingMessage → List IncomingMessage
push_message ms none = ms
push_message ms (some m) = ms ++ m ∷ []

module _ {B : Type 0} where
  -- The inner loop; `none` is a panic of `mutate`.
  unfoldable pub scan_mutations : List McMutation → Scan B → Option (Scan B)
  scan_mutations [] s = some s
  scan_mutations (m ∷ ms) s = elim (mutate m s.check_mutual_credit) [
    | none ↦ none
    | some mc ↦ scan_mutations ms (record s {
      mutations = s.mutations ++ TcMutation.mc_mutation m ∷ [];
      check_mutual_credit = mc;
      final_remote_requests = remote_requests_after m s.final_remote_requests;
    })
  ]

  unfoldable pub scan_outputs : List ProcessOperationOutput → Scan B → Option (Scan B)
  scan_outputs [] s = some s
  scan_outputs (out ∷ outs) s =
      elim (scan_mutations out.mc_mutations
        (record s { incoming_messages = push_message s.incoming_messages out.incoming_message })) [
          | none ↦ none
          | some s' ↦ scan_outputs outs s'
        ]

-- The stated balances are those of the other side.
abbrev pub states_balance : {B : Type 0} → MutualCredit → ℤ → MoveToken B Signature → Bool
states_balance mc negated m =
    int_eq mc.balance.balance negated
    && (mc.balance.local_pending_debt == m.remote_pending_debt
        && mc.balance.remote_pending_debt == m.local_pending_debt)

module _ (crypto : Crypto) {B : Type 0} (serialize_address : B → List ℕ) where
  -- `TcIncoming::handle_incoming`
  unfoldable pub handle_incoming_in :
      TcIncoming → MoveToken B Signature → Receive (ReceiveMoveTokenOutput B)
  handle_incoming_in t new_move_token =
      if hashed_eq t.move_token_in (create_hashed crypto serialize_address new_move_token)
      then ok ReceiveMoveTokenOutput.duplicate
      else err ReceiveMoveTokenError.chain_inconsistency

  -- The arm `Ok(outputs)` of `handle_incoming_token_match`.
  unfoldable pub accept_outputs :
      MutualCredit
      → MoveToken B Signature
      → List ProcessOperationOutput
      → Receive (ReceiveMoveTokenOutput B)
  accept_outputs mc m outputs = do
    let initial = is_open mc.requests_status.remote
    s ← unwrap (
        scan_outputs outputs (record {
          incoming_messages = [];
          mutations = [];
          check_mutual_credit = mc;
          final_remote_requests = initial;
        }))
    negated ← unwrap (checked_neg m.balance)
    ensure (states_balance s.check_mutual_credit negated m)
        ReceiveMoveTokenError.invalid_stated_balance
    ok (
        ReceiveMoveTokenOutput.received (record {
          incoming_messages = s.incoming_messages;
          mutations =
              s.mutations
              ++ TcMutation.set_direction
                  (SetDirection.incoming (create_hashed crypto serialize_address m))
                ∷ [];
          remote_requests_closed = s.final_remote_requests && not initial;
          opt_local_relays = m.opt_local_relays;
        }))

  unfoldable pub handle_incoming_token_match :
      TcOutgoing B → MoveToken B Signature → Receive (ReceiveMoveTokenOutput B)
  handle_incoming_token_match t m = do
    let mc = t.mutual_credit
    ensure (verify_move_token crypto serialize_address m mc.idents.remote_public_key)
        ReceiveMoveTokenError.invalid_signature
    ensure (m.inconsistency_counter == t.move_token_out.inconsistency_counter)
        ReceiveMoveTokenError.invalid_inconsistency_counter
    expected ←
        ok_or (unsigned_checked_add half128 t.move_token_out.move_token_counter 1)
          ReceiveMoveTokenError.move_token_counter_overflow
    ensure (m.move_token_counter == expected) ReceiveMoveTokenError.invalid_move_token_counter
    outputs ← outputs_of (process_operations_list crypto m.operations mc)
    accept_outputs mc m outputs

  -- `TcOutgoing::handle_incoming`
  unfoldable pub handle_incoming_out :
      TcOutgoing B → MoveToken B Signature → Receive (ReceiveMoveTokenOutput B)
  handle_incoming_out t m =
      if not (
        t.mutual_credit.idents.local_public_key == m.remote_public_key
        && t.mutual_credit.idents.remote_public_key == m.local_public_key)
      then err ReceiveMoveTokenError.chain_inconsistency
      else if m.old_token == t.move_token_out.new_token
      then handle_incoming_token_match t m
      else if t.move_token_out.old_token == m.new_token
      then ok (ReceiveMoveTokenOutput.retransmit_outgoing t.move_token_out)
      else err ReceiveMoveTokenError.chain_inconsistency

  receive : TcDirection B → MoveToken B Signature → Receive (ReceiveMoveTokenOutput B)
  receive (TcDirection.incoming t) m = handle_incoming_in t m
  receive (TcDirection.outgoing t) m = handle_incoming_out t m

  -- `TokenChannel::simulate_receive_move_token`
  unfoldable pub simulate_receive_move_token :
      TokenChannel B → MoveToken B Signature → Receive (ReceiveMoveTokenOutput B)
  unfolding receive
  simulate_receive_move_token tc m = receive tc.direction m
