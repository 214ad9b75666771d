-- ===== src/TokenChannel/Sync.antt =====
-- A move token from one side to the other: the side that holds the token queues operations, states
-- its balances and sends; the other side receives.
use offst.Prelude.{
  ℕ, suc, ◌+◌, ◌<◌, ◌≡◌, refl, sym, true, not, ◌&&◌, List, [], ◌∷◌, ◌++◌, Option, some, ◌∙◌, arith,
}
use native.Mathlib.Nat.{mod-eq_of_lt}
use offst.Prelude.Int.{neg, parts_disjoint}
use offst.Prelude.Outcome.{Outcome, ok, err, panic}
use offst.Crypto.{Crypto, Signature, RandValue}
use offst.Messages.{MoveToken, FriendTcOp, RelayAddress, is_open}
use offst.SafeArith.{unsigned_checked_add}
use offst.Buffers.{half128, verify_move_token}
use offst.MutualCredit.{MutualCredit, McMutation}
use offst.MutualCredit.Invariant.{IsValid, EndsValid, queue_operation-IsValid}
use offst.MutualCredit.Mirror.{
  mirror, mirror-IsValid, mirror-mirror, Mirrors, ClosesOpen, queue-Mirrors,
}
use offst.MutualCredit.Idents.{queue_operation-KeepsIdents}
use offst.MutualCredit.Outgoing.{queue_operation, QueueOperationError}
use offst.MutualCredit.Incoming.{
  ProcessOperationOutput, ProcessOperationError, process_operation, process_operations_from,
  process_operations_list,
}
use offst.MutualCredit.Replay.{replay, all_reported, process_operations_list-ListReports}
use offst.TokenChannel.{
  TcDirection, TcIncoming, TcOutgoing, TcMutation, SetDirection, mutate_channel, create_unsigned,
  create_unsigned_move_token, sign_move_token,
}
use offst.TokenChannel.Create.{create_hashed}
use offst.TokenChannel.Initial.{InStep, checked_neg_word}
use offst.TokenChannel.Receive.{
  ReceiveMoveTokenOutput, MoveTokenReceived, Scan, states_balance, accept_outputs,
  handle_incoming_token_match, handle_incoming_out,
}
use offst.TokenChannel.Scan.{scan_outputs_lem, apply_channel, apply_channel_turns}

-- Operations that are queued one after the other, each with success, from one state to the other.
pub data Queues (c : Crypto) : List FriendTcOp → MutualCredit → MutualCredit → Type 0 where
  none_queued : {mc : MutualCredit} → Queues c [] mc mc
  queued_next :
      {op : FriendTcOp} {ops : List FriendTcOp} {mc mc1 mc2 : MutualCredit} (ms : List McMutation)
      → queue_operation c op mc ≡ (ok ms, mc1)
      → ClosesOpen op mc
      → Queues c ops mc1 mc2
      → Queues c (op ∷ ops) mc mc2

ok-IsValid :
    {E A : Type 0} {x : Outcome E A × MutualCredit} {a : A} {mc : MutualCredit}
    → x ≡ (ok a, mc)
    → EndsValid x
    → IsValid mc
ok-IsValid e v = rw e at v

mirrored :
    (c : Crypto) (op : FriendTcOp) (mc mc1 : MutualCredit) (ms : List McMutation)
    → queue_operation c op mc ≡ (ok ms, mc1)
    → IsValid mc
    → ClosesOpen op mc
    → (out : ProcessOperationOutput) × (process_operation c op (mirror mc) ≡ (ok out, mirror mc1))
mirrored c op mc mc1 ms e v closes =
    go (process_operation c op (mirror mc)) (rw e at (queue-Mirrors c op mc v closes))
  where
    go :
        (y : Outcome ProcessOperationError ProcessOperationOutput × MutualCredit)
        → Mirrors {E = QueueOperationError} (ok ms, mc1) y
        → (out : ProcessOperationOutput) × (y ≡ (ok out, mirror mc1))
    go (ok out, mc') (_, same) = (out, rw same)
    go (err x, mc') h = absurd h
    go (panic, mc') h = absurd h

-- What one side queues, the other side processes to the mirrored state.
Queues-processed :
    (c : Crypto) (i : ℕ) (ops : List FriendTcOp) {mc mc' : MutualCredit}
    → Queues c ops mc mc'
    → IsValid mc
    → IsValid mc'
      × (outs : List ProcessOperationOutput) × (process_operations_from c i ops (mirror mc)
          ≡ (ok outs, mirror mc'))
unfolding process_operations_from
Queues-processed c i [] none_queued v = (v, [], refl)
Queues-processed c i (op ∷ ops) {mc} {mc'} (queued_next {mc1 = mc1} ms e closes q) v =
    let (out, done) = mirrored c op mc mc1 ms e v closes in
    let (v', outs, rest) =
      Queues-processed c (suc i) ops q (ok-IsValid e (queue_operation-IsValid c op mc v)) in
    (v', out ∷ outs, rw (done, rest))

Queues-idents :
    (c : Crypto) (ops : List FriendTcOp) {mc mc' : MutualCredit}
    → Queues c ops mc mc'
    → mc'.idents ≡ mc.idents
Queues-idents c [] none_queued = refl
Queues-idents c (op ∷ ops) {mc} {mc'} (queued_next {mc1 = mc1} ms e closes q) =
    let kept : mc1.idents ≡ mc.idents = rw e at (queue_operation-KeepsIdents c op mc) in
    Queues-idents c ops q ∙ kept

module _ (crypto : Crypto) {B : Type 0} (serialize_address : B → List ℕ) (out : TcOutgoing B)
    (inc : TcIncoming) (ops : List FriendTcOp) (relays : Option (List (RelayAddress B)))
    (nonce : RandValue) (sig : Signature) (mc : MutualCredit) where
  -- The token that the holder sends once the operations are queued, signed.
  abbrev pub sent : MoveToken B Signature
  sent = sign_move_token (create_unsigned (record inc { mutual_credit = mc }) ops relays nonce) sig

  sent_operations : sent.operations ≡ ops
  unfolding sign_move_token create_unsigned create_unsigned_move_token
  sent_operations = refl

  states_mirrored : IsValid mc → states_balance (mirror mc) (neg sent.balance) sent ≡ true
  unfolding sign_move_token create_unsigned
  states_mirrored v = ground arith

  accepted :
      (outs : List ProcessOperationOutput)
      → IsValid mc
      → replay (all_reported outs) out.mutual_credit ≡ some (mirror mc)
      → (r : MoveTokenReceived B) × (accept_outputs crypto serialize_address out.mutual_credit sent
            outs
          ≡ ok (ReceiveMoveTokenOutput.received r))
        × (apply_channel r.mutations (record { direction = TcDirection.outgoing out })
            ≡ some (record {
              direction = TcDirection.incoming (record {
                mutual_credit = mirror mc;
                move_token_in = create_hashed crypto serialize_address sent;
              });
            }))
  unfolding accept_outputs sign_move_token create_unsigned
  accepted outs v h =
      let start : Scan B = record {
        incoming_messages = [];
        mutations = [];
        check_mutual_credit = out.mutual_credit;
        final_remote_requests = is_open out.mutual_credit.requests_status.remote;
      } in
      let (s, done, (c, l, r)) = scan_outputs_lem outs start (mirror mc) h refl in
      let plain =
        checked_neg_word mc.balance.balance
          (omega (arith, v.high, parts_disjoint mc.balance.balance))
          (omega (arith, v.low, parts_disjoint mc.balance.balance)) in
      let good : states_balance s.check_mutual_credit (neg sent.balance) sent ≡ true =
        rw c (states_mirrored v) in
      (
        record {
          incoming_messages = s.incoming_messages;
          mutations =
              s.mutations
              ++ TcMutation.set_direction
                  (SetDirection.incoming (create_hashed crypto serialize_address sent))
                ∷ [];
          remote_requests_closed =
              s.final_remote_requests && not (is_open out.mutual_credit.requests_status.remote);
          opt_local_relays = sent.opt_local_relays;
        },
        rw (done, plain, good),
        rw l (
            apply_channel_turns (all_reported outs) out
              (create_hashed crypto serialize_address sent) (mirror mc) h),
      )

  -- The fields of the token by which the receiver knows it as the next one.
  follows :
      InStep crypto serialize_address out inc
      → mc.idents ≡ inc.mutual_credit.idents
      → inc.move_token_in.move_token_counter + 1 < half128 + half128
      → (sent.old_token ≡ out.move_token_out.new_token)
        × (sent.local_public_key ≡ out.mutual_credit.idents.remote_public_key)
        × (sent.remote_public_key ≡ out.mutual_credit.idents.local_public_key)
        × (sent.inconsistency_counter ≡ out.move_token_out.inconsistency_counter)
        × (sent.move_token_counter ≡ out.move_token_out.move_token_counter + 1)
        × (sent.local_public_key ≡ mc.idents.local_public_key)
        × (sent.remote_public_key ≡ mc.idents.remote_public_key)
        × (out.move_token_out.move_token_counter + 1 < half128 + half128)
  unfolding sign_move_token create_unsigned create_unsigned_move_token create_hashed
  follows st ids small =
      let counter = mod-eq_of_lt small in
      ground (arith, st.token, st.credit, st.local_key, st.remote_key, counter, ids)

  matched :
      (outs : List ProcessOperationOutput) (r : MoveTokenReceived B)
      → InStep crypto serialize_address out inc
      → mc.idents ≡ inc.mutual_credit.idents
      → inc.move_token_in.move_token_counter + 1 < half128 + half128
      → verify_move_token crypto serialize_address sent out.mutual_credit.idents.remote_public_key
        ≡ true
      → process_operations_list crypto ops out.mutual_credit ≡ (ok outs, mirror mc)
      → accept_outputs crypto serialize_address out.mutual_credit sent outs
        ≡ ok (ReceiveMoveTokenOutput.received r)
      → handle_incoming_out crypto serialize_address out sent
        ≡ ok (ReceiveMoveTokenOutput.received r)
  unfolding handle_incoming_out handle_incoming_token_match unsigned_checked_add
  matched outs r st ids small signed listed h =
      let f = follows st ids small in
      let same : sent.operations ≡ ops = sent_operations in
      ground (arith, f, signed, rw (← same) at listed, h)

  -- From two channels in step: the side that holds the token queues operations, each with success,
  -- and sends a move token that states its balances and that the friend's signature check accepts.
  -- Then the other side receives it, whatever the operations are, its mutations turn its channel,
  -- the sender's channel is set to outgoing, and the two channels are in step again, the other way
  -- round. The counter must not be about to wrap, and requests are closed only while they are open.
  pub exchange :
      InStep crypto serialize_address out inc
      → Queues crypto ops inc.mutual_credit mc
      → inc.move_token_in.move_token_counter + 1 < half128 + half128
      → verify_move_token crypto serialize_address sent out.mutual_credit.idents.remote_public_key
        ≡ true
      → (r : MoveTokenReceived B) × (out' : TcOutgoing B) × (inc' : TcIncoming)
        × (handle_incoming_out crypto serialize_address out sent
            ≡ ok (ReceiveMoveTokenOutput.received r))
        × (apply_channel r.mutations (record { direction = TcDirection.outgoing out })
            ≡ some (record { direction = TcDirection.incoming inc' }))
        × (mutate_channel
              (TcMutation.set_direction (SetDirection.outgoing sent))
              (record { direction = TcDirection.incoming (record inc { mutual_credit = mc }) })
            ≡ some (record { direction = TcDirection.outgoing out' }))
        × InStep crypto serialize_address out' inc'
  unfolding mutate_channel process_operations_list
  exchange st q small signed =
      let (v, outs, done) = Queues-processed crypto 0 ops q st.valid in
      let ids = Queues-idents crypto ops q in
      let listed : process_operations_list crypto ops out.mutual_credit ≡ (ok outs, mirror mc) =
        rw st.credit done in
      let replayed : replay (all_reported outs) out.mutual_credit ≡ some (mirror mc) =
        rw listed at (process_operations_list-ListReports crypto ops out.mutual_credit) in
      let (r, accepts, turns) = accepted outs v replayed in
      let f = follows st ids small in
      (
        r,
        record {
          mutual_credit = mc;
          move_token_out = sent;
          opt_prev_move_token_in = some inc.move_token_in;
        },
        record {
          mutual_credit = mirror mc;
          move_token_in = create_hashed crypto serialize_address sent;
        },
        matched outs r st ids small signed listed accepts,
        turns,
        refl,
        record {
          token = refl;
          credit = sym (mirror-mirror mc);
          local_key = f.5;
          remote_key = f.6;
          valid = mirror-IsValid v;
        },
      )
