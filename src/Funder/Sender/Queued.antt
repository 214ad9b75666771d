-- ===== src/Funder/Sender/Queued.antt =====
-- components/funder/src/handler/sender.rs: what `PendingMoveToken::queue_operation` does to the state.
use offst.Prelude.{
  ℕ, ◌≡◌, ◌≢◌, refl, ap, ◌∙◌, Bool, true, false, List, [], ◌∷◌, ◌++◌, some, length, leb, arith,
  Option-cases, Bool-cases, inl, inr,
}
use offst.Prelude.Dict.{get, insert, get-insert}
use offst.Prelude.Outcome.{Outcome, ok, err, panic}
use offst.Crypto.{Crypto, PublicKey}
use offst.Messages.{FriendTcOp}
use offst.MutualCredit.{MutualCredit, McMutation, mutate}
use offst.MutualCredit.Outgoing.{queue_operation, QueueOperationError}
use offst.MutualCredit.Replay.{replay, queue_operation-Reports, Reports, queued_list}
use offst.TokenChannel.{TokenChannel, TcDirection, TcMutation, MoveTokenHashed, mutate_channel}
use offst.Funder.Friend.{FriendState, consistent, tc_mutation, mutate_friend}
use offst.Funder.State.{friend_mutation, mutate_state}
use offst.Funder.Wrap.{MutableFunderState, mutate_wrapped}
use offst.Funder.Sender.{
  PendingMoveToken, PendingQueueError, Queued, push_operation, queue_answer, mutate_credit,
  queue_pending,
}

-- A channel that holds the token.
abbrev pub holding : {B : Type 0} → MutualCredit → MoveTokenHashed → TokenChannel B
holding mc mt = record {
  direction = TcDirection.incoming (record { mutual_credit = mc; move_token_in = mt });
}

module _ {B : Type 0} (crypto : Crypto) (serialize_address : B → List ℕ) (pk : PublicKey)
    (mt : MoveTokenHashed) where
  -- The state has the friend, with this mutual credit in a channel that holds the token.
  abbrev pub HasFriend : FriendState B → MutualCredit → MutableFunderState B → Type 0
  HasFriend f mc m =
      (get pk m.state.friends ≡ some f) × (f.channel_status ≡ consistent (holding mc mt))

  -- The mutual credit of the friend has changed and nothing else of the state.
  pub record Credited (f : FriendState B) (mc : MutualCredit) (m m' : MutableFunderState B)
      : Type 0 where
    pub here :
        get pk m'.state.friends ≡ some (record f { channel_status = consistent (holding mc mt) })
    pub others : (j : PublicKey) → pk ≢ j → get j m'.state.friends ≡ get j m.state.friends
    pub rest : record (m'.state) { friends = [] } ≡ record (m.state) { friends = [] }

  same_friend :
      (f : FriendState B) (mc : MutualCredit)
      → f.channel_status ≡ consistent (holding mc mt)
      → f ≡ record f { channel_status = consistent (holding mc mt) }
  same_friend f mc h = ap (λ s. record f { channel_status = s }) h

  -- The state once the mutation of the friend is applied.
  abbrev after_step :
      McMutation → FriendState B → MutualCredit → MutableFunderState B → MutableFunderState B
  after_step x f mc m = record m {
    state = record (m.state) {
      friends =
          insert pk (record f { channel_status = consistent (holding mc mt) }) m.state.friends;
    };
    mutations = m.mutations ++ friend_mutation pk (tc_mutation (TcMutation.mc_mutation x)) ∷ [];
  }

  one_mutation :
      (x : McMutation) (f : FriendState B) (mc mc1 : MutualCredit) (m : MutableFunderState B)
      → HasFriend f mc m
      → mutate x mc ≡ some mc1
      → mutate_wrapped crypto serialize_address
          (friend_mutation pk (tc_mutation (TcMutation.mc_mutation x)))
          m
        ≡ some (after_step x f mc1 m)
  unfolding mutate_wrapped mutate_state mutate_friend mutate_channel
  one_mutation x f mc mc1 m h e = ground (arith, h.0, h.1, e)

  Credited-trans :
      {f : FriendState B} {mc1 mc2 : MutualCredit} (m m1 m2 : MutableFunderState B)
      → Credited f mc1 m m1
      → Credited (record f { channel_status = consistent (holding mc1 mt) }) mc2 m1 m2
      → Credited f mc2 m m2
  Credited-trans m m1 m2 a b = record {
    here = b.here;
    others = λ j n. b.others j n ∙ a.others j n;
    rest = b.rest ∙ a.rest;
  }

  after_step-Credited :
      (x : McMutation) (f : FriendState B) (mc : MutualCredit) (m : MutableFunderState B)
      → Credited f mc m (after_step x f mc m)
  after_step-Credited x f mc m =
      let f1 = record f { channel_status = consistent (holding mc mt) } in
      record {
        here = ground (arith, get-insert pk pk f1 m.state.friends);
        others = λ j n. ground (arith, get-insert pk j f1 m.state.friends);
        rest = refl;
      }

  mutate_credit-Credited :
      (ms : List McMutation) (f : FriendState B) (mc mc' : MutualCredit) (m : MutableFunderState B)
      → HasFriend f mc m
      → replay ms mc ≡ some mc'
      → (m' : MutableFunderState B) × (mutate_credit crypto serialize_address pk ms m ≡ some m')
        × Credited f mc' m m'
  unfolding mutate_credit replay
  mutate_credit-Credited [] f mc mc' m h r = (
    m,
    refl,
    record {
      here = h.0 ∙ ap some (same_friend f mc' (h.1 ∙ ap (λ c. consistent (holding c mt)) (cc r)));
      others = λ j n. refl;
      rest = refl;
    },
  )
  mutate_credit-Credited (x ∷ xs) f mc mc' m h r = elim (Option-cases (mutate x mc)) [
    | inl e ↦ absurd (cc (rw (e, replay) at r))
    | inr (mc1, e) ↦
        let f1 = record f { channel_status = consistent (holding mc1 mt) } in
        let m1 = after_step x f mc1 m in
        let c1 = after_step-Credited x f mc1 m in
        let (m2, done, c2) =
          mutate_credit-Credited xs f1 mc1 mc' m1 (c1.here, refl) (rw (e, replay) at r) in
        (m2, rw (mutate_credit, one_mutation x f mc mc1 m h e) done, Credited-trans m m1 m2 c1 c2)
  ]

  -- What `queue_operation` of the pending move token may do, by whether the batch is full and by what
  -- the mutual credit answers.
  abbrev pub QueuesAs :
      FriendTcOp
      → FriendState B
      → PendingMoveToken B
      → MutableFunderState B
      → Bool
      → Outcome QueueOperationError (List McMutation) × MutualCredit
      → Queued crypto serialize_address
      → Type 0
  QueuesAs op f p m true a r = r ≡ (err PendingQueueError.max_operations_reached, p, m)
  QueuesAs op f p m false (ok ms, mc) r =
      (m' : MutableFunderState B) × (r
        ≡ (ok tt, push_operation op (record p { outgoing_mc = mc }), m'))
      × Credited f mc m m'
  QueuesAs op f p m false (err QueueOperationError.request_already_exists, mc) r =
      r ≡ (ok tt, push_operation op p, m)
  QueuesAs op f p m false (err QueueOperationError.insufficient_trust, mc) r =
      r ≡ (err PendingQueueError.insufficient_trust, p, m)
  QueuesAs op f p m false (err _, mc) r = (r.0 ≡ panic) × (r.1.operations ≡ p.operations)
  QueuesAs op f p m false (panic, mc) r = (r.0 ≡ panic) × (r.1.operations ≡ p.operations)

  answer-QueuesAs :
      (op : FriendTcOp) (f : FriendState B) (p : PendingMoveToken B) (m : MutableFunderState B)
      (a : Outcome QueueOperationError (List McMutation) × MutualCredit)
      → p.friend_public_key ≡ pk
      → HasFriend f p.outgoing_mc m
      → Reports queued_list p.outgoing_mc a
      → QueuesAs op f p m false a (queue_answer crypto serialize_address op p m a)
  answer-QueuesAs op f p m (ok ms, mc) k h r =
      let (m', done, c) = mutate_credit-Credited ms f p.outgoing_mc mc m h r in
      (m', rw (k, done) refl, c)
  answer-QueuesAs op f p m (err QueueOperationError.request_already_exists, mc) k h r =
      ap (λ c. (ok tt, push_operation op (record p { outgoing_mc = c }), m)) r
  answer-QueuesAs op f p m (err QueueOperationError.insufficient_trust, mc) k h r =
      ap (λ c. (err PendingQueueError.insufficient_trust, record p { outgoing_mc = c }, m)) r
  answer-QueuesAs op f p m (err _, mc) k h r = (refl, refl)
  answer-QueuesAs op f p m (panic, mc) k h r = (refl, refl)

  -- When the state has the friend with the same mutual credit, in a channel that holds the token:
  -- with the batch full, `queue_operation` refuses and changes nothing. Otherwise an operation that
  -- the mutual credit takes is added, and the friend's mutual credit in the state becomes the one
  -- of the pending token, with nothing else of the state changed; a request that is there already is
  -- added with no change; without trust nothing changes; any other refusal is a panic,
  -- with the operations as they were.
  pub queue_pending-QueuesAs :
      (op : FriendTcOp) (f : FriendState B) (p : PendingMoveToken B) (m : MutableFunderState B)
      → p.friend_public_key ≡ pk
      → HasFriend f p.outgoing_mc m
      → QueuesAs op f p m
          (leb p.max_operations_in_batch (length p.operations))
          (queue_operation crypto op p.outgoing_mc)
          (queue_pending crypto serialize_address op p m)
  unfolding queue_pending
  queue_pending-QueuesAs op f p m k h =
      elim (Bool-cases (leb p.max_operations_in_batch (length p.operations))) [
        | inl full ↦ rw (full, queue_pending) refl
        | inr room ↦
            rw (room, queue_pending)
              (answer-QueuesAs op f p m (queue_operation crypto op p.outgoing_mc) k h
                (queue_operation-Reports crypto op p.outgoing_mc))
      ]
