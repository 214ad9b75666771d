-- ===== src/TokenChannel/Received.antt =====
-- What a move token that was received did.
use offst.Prelude.{
  ℕ, ◌+◌, ◌≡◌, refl, Bool, true, not, ◌&&◌, List, [], none, some, ◌⊎◌, arith, Bool-cases, inl, inr,
}
use offst.Prelude.Int.{ℤ, pos, negsuc, neg, neg_part, ◌-ℤ◌}
use offst.Prelude.Outcome.{Outcome, ok, err, panic}
use offst.Crypto.{Crypto, Signature}
use offst.Messages.{MoveToken, is_open}
use offst.SafeArith.{checked_sub, unsigned_checked_add}
use offst.Buffers.{half128, verify_move_token}
use offst.MutualCredit.{MutualCredit}
use offst.MutualCredit.Invariant.{IsValid, EndsValid, process_operations_list-IsValid}
use offst.MutualCredit.Incoming.{
  ProcessOperationOutput, ProcessTransListError, process_operations_list,
}
use offst.MutualCredit.Replay.{
  replay, ListReports, all_reported, process_operations_list-ListReports,
}
use offst.MutualCredit.Words.{InRange}
use offst.TokenChannel.{TcDirection, TcOutgoing, TcMutation, checked_neg}
use offst.TokenChannel.Create.{create_hashed}
use offst.TokenChannel.Receive.{
  Receive, ReceiveMoveTokenOutput, Scan, states_balance, outputs_of, accept_outputs,
  handle_incoming_token_match, handle_incoming_out, ◌>>=◌,
}
use offst.TokenChannel.Scan.{scan_outputs_lem, apply_channel, apply_channel_turns}

module _ (crypto : Crypto) {B : Type 0} (serialize_address : B → List ℕ) where
  -- The channel after a token was received: the friend's operations are done, and the balances are
  -- those that the friend states, seen from this side.
  pub record Turned (t : TcOutgoing B) (m : MoveToken B Signature) (ms : List (TcMutation B))
      (closed : Bool) : Type 0 where
    pub mc : MutualCredit
    pub valid : IsValid mc
    pub turned :
        apply_channel ms (record { direction = TcDirection.outgoing t })
        ≡ some (record {
          direction = TcDirection.incoming (record {
            mutual_credit = mc;
            move_token_in = create_hashed crypto serialize_address m;
          });
        })
    pub balance : mc.balance.balance ≡ neg m.balance
    pub local_debt : mc.balance.local_pending_debt ≡ m.remote_pending_debt
    pub remote_debt : mc.balance.remote_pending_debt ≡ m.local_pending_debt
    pub flag : closed ≡ (
        is_open mc.requests_status.remote && not (is_open t.mutual_credit.requests_status.remote))

  -- How `accept_outputs` ends.
  abbrev pub AcceptEnds :
      TcOutgoing B → MoveToken B Signature → Receive (ReceiveMoveTokenOutput B) → Type 0
  AcceptEnds t m (ok (ReceiveMoveTokenOutput.received r)) =
      Turned t m r.mutations r.remote_requests_closed
  AcceptEnds t m (ok ReceiveMoveTokenOutput.duplicate) = ⊥
  AcceptEnds t m (ok (ReceiveMoveTokenOutput.retransmit_outgoing o)) = ⊥
  AcceptEnds t m (err e) = Unit {0}
  AcceptEnds t m panic = neg_part m.balance ≡ half128

-- The negation, or the least word.
neg_cases :
    (b : ℤ)
    → InRange b
    → (checked_neg b ≡ some (neg b)) ⊎ ((checked_neg b ≡ none) × (neg_part b ≡ half128))
unfolding checked_neg checked_sub neg ◌-ℤ◌
neg_cases (pos n) r = inl (ground arith)
neg_cases (negsuc n) r = ground arith

stated :
    {B : Type 0} (mc : MutualCredit) (m : MoveToken B Signature)
    → states_balance mc (neg m.balance) m ≡ true
    → (mc.balance.balance ≡ neg m.balance)
      × (mc.balance.local_pending_debt ≡ m.remote_pending_debt)
      × (mc.balance.remote_pending_debt ≡ m.local_pending_debt)
stated mc m h = (ground arith, ground arith, ground arith)

module _ (crypto : Crypto) {B : Type 0} (serialize_address : B → List ℕ) where
  -- Where the outputs replay to a valid state, a token is accepted only with the balances stated.
  accept_outputs_ends :
      (t : TcOutgoing B) (m : MoveToken B Signature) (outs : List ProcessOperationOutput)
      (mc : MutualCredit)
      → InRange m.balance
      → IsValid mc
      → replay (all_reported outs) t.mutual_credit ≡ some mc
      → AcceptEnds crypto serialize_address t m
          (accept_outputs crypto serialize_address t.mutual_credit m outs)
  unfolding accept_outputs
  accept_outputs_ends t m outs mc range v h =
      let start : Scan B = record {
        incoming_messages = [];
        mutations = [];
        check_mutual_credit = t.mutual_credit;
        final_remote_requests = is_open t.mutual_credit.requests_status.remote;
      } in
      let (s, done, (c, l, r)) = scan_outputs_lem outs start mc h refl in
      rw done (elim (neg_cases m.balance range) [
        | inr (least, e) ↦ rw least e
        | inl e ↦ rw e (elim (Bool-cases (states_balance s.check_mutual_credit (neg m.balance) m)) [
          | inr bad ↦ rw bad tt
          | inl good ↦
              let (b, ld, rd) = stated s.check_mutual_credit m good in
              rw good (record {
                mc = mc;
                valid = v;
                turned = rw l (
                    apply_channel_turns (all_reported outs) t
                      (create_hashed crypto serialize_address m) mc h);
                balance = rw (← c) b;
                local_debt = rw (← c) ld;
                remote_debt = rw (← c) rd;
                flag = rw r;
              })
        ])
      ])

  -- The checks before the operations.
  abbrev pub IsNext : TcOutgoing B → MoveToken B Signature → Type 0
  IsNext t m =
      (verify_move_token crypto serialize_address m t.mutual_credit.idents.remote_public_key ≡ true)
      × (m.inconsistency_counter ≡ t.move_token_out.inconsistency_counter)
      × (m.move_token_counter ≡ t.move_token_out.move_token_counter + 1)

  -- How the receipt of a token ends, by its output.
  abbrev pub MatchEnds :
      TcOutgoing B → MoveToken B Signature → Receive (ReceiveMoveTokenOutput B) → Type 0
  MatchEnds t m (ok (ReceiveMoveTokenOutput.received r)) =
      IsNext t m × Turned crypto serialize_address t m r.mutations r.remote_requests_closed
  MatchEnds t m (ok ReceiveMoveTokenOutput.duplicate) = ⊥
  MatchEnds t m (ok (ReceiveMoveTokenOutput.retransmit_outgoing o)) = ⊥
  MatchEnds t m (err e) = Unit {0}
  MatchEnds t m panic = neg_part m.balance ≡ half128

  MatchEnds-of :
      (t : TcOutgoing B) (m : MoveToken B Signature) (x : Receive (ReceiveMoveTokenOutput B))
      → IsNext t m
      → AcceptEnds crypto serialize_address t m x
      → MatchEnds t m x
  MatchEnds-of t m (ok (ReceiveMoveTokenOutput.received r)) next h = (next, h)
  MatchEnds-of t m (ok ReceiveMoveTokenOutput.duplicate) next h = h
  MatchEnds-of t m (ok (ReceiveMoveTokenOutput.retransmit_outgoing o)) next h = h
  MatchEnds-of t m (err e) next h = tt
  MatchEnds-of t m panic next h = h

  after_list :
      (t : TcOutgoing B) (m : MoveToken B Signature)
      (x : Outcome ProcessTransListError (List ProcessOperationOutput) × MutualCredit)
      → InRange m.balance
      → IsNext t m
      → EndsValid x
      → ListReports t.mutual_credit x
      → MatchEnds t m (outputs_of x >>= accept_outputs crypto serialize_address t.mutual_credit m)
  after_list t m (ok outs, mc) range next v h =
      MatchEnds-of t m _ next (accept_outputs_ends t m outs mc range v h)
  after_list t m (err e, mc) range next v h = tt
  after_list t m (panic, mc) range next v h = absurd v

  match_ends :
      (t : TcOutgoing B) (m : MoveToken B Signature)
      → InRange m.balance
      → IsValid t.mutual_credit
      → MatchEnds t m (handle_incoming_token_match crypto serialize_address t m)
  unfolding handle_incoming_token_match unsigned_checked_add
  match_ends t m range v = ground (
    arith,
    after_list t m (process_operations_list crypto m.operations t.mutual_credit) range,
    process_operations_list-IsValid crypto m.operations t.mutual_credit v,
    process_operations_list-ListReports crypto m.operations t.mutual_credit,
  )

  -- How an outgoing channel takes a token, by the output.
  abbrev pub OutgoingEnds :
      TcOutgoing B → MoveToken B Signature → Receive (ReceiveMoveTokenOutput B) → Type 0
  OutgoingEnds t m (ok (ReceiveMoveTokenOutput.received r)) =
      (m.old_token ≡ t.move_token_out.new_token)
      × IsNext t m
      × Turned crypto serialize_address t m r.mutations r.remote_requests_closed
  OutgoingEnds t m (ok ReceiveMoveTokenOutput.duplicate) = ⊥
  OutgoingEnds t m (ok (ReceiveMoveTokenOutput.retransmit_outgoing o)) =
      (o ≡ t.move_token_out) × (m.new_token ≡ t.move_token_out.old_token)
  OutgoingEnds t m (err e) = Unit {0}
  OutgoingEnds t m panic = neg_part m.balance ≡ half128

  OutgoingEnds-of :
      (t : TcOutgoing B) (m : MoveToken B Signature) (x : Receive (ReceiveMoveTokenOutput B))
      → m.old_token ≡ t.move_token_out.new_token
      → MatchEnds t m x
      → OutgoingEnds t m x
  OutgoingEnds-of t m (ok (ReceiveMoveTokenOutput.received r)) e h = (e, h.0, h.1)
  OutgoingEnds-of t m (ok ReceiveMoveTokenOutput.duplicate) e h = h
  OutgoingEnds-of t m (ok (ReceiveMoveTokenOutput.retransmit_outgoing o)) e h = absurd h
  OutgoingEnds-of t m (err x) e h = tt
  OutgoingEnds-of t m panic e h = h

  -- Whatever token with a 128-bit balance arrives at an outgoing channel in a valid state: if it is
  -- received, it carries the friend's signature, follows the last token that was sent, has the next
  -- counter, and the mutations that are handed back turn the channel to a valid state with the
  -- balances that the token states, seen from this side; if it is answered, then by the last token
  -- that was sent, and it is the token that this one answered. The receipt panics only on a token
  -- that states the least 128-bit balance.
  pub handle_incoming_out_ends :
      (t : TcOutgoing B) (m : MoveToken B Signature)
      → InRange m.balance
      → IsValid t.mutual_credit
      → OutgoingEnds t m (handle_incoming_out crypto serialize_address t m)
  unfolding handle_incoming_out
  handle_incoming_out_ends t m range v = ground (
    arith,
    OutgoingEnds-of t m (handle_incoming_token_match crypto serialize_address t m),
    match_ends t m range v,
  )
