-- ===== src/Funder/Sender/Canceled.antt =====
-- components/funder/src/handler/sender.rs: what becomes of a request that does not fit.
use offst.Prelude.{
  ℕ, ◌≡◌, refl, true, false, List, [], ◌∷◌, ◌++◌, none, some, arith, Option-cases, Bool-cases, inl,
  inr, length, leb, ◌==◌, ==_iff, ◌<◌, ◌⊎◌, ◌↔◌, sym,
}
use mathlib.Core.Path.{subst}
use offst.Prelude.Dict.{Dict, get, insert, contains_key}
use offst.Prelude.Outcome.{ok, err}
use offst.Crypto.{Crypto, PublicKey, Uid}
use offst.Route.Valid.{IsUnique}
use offst.Graph.Capacity.{keys}
use offst.Graph.Capacity.Walk.{keys-Occurs}
use offst.Messages.{PendingTransaction, FriendTcOp, RequestSendFundsOp, create_pending_transaction}
use offst.MutualCredit.{MutualCredit}
use offst.MutualCredit.Outgoing.{queue_operation, QueueOperationError}
use offst.TokenChannel.{MoveTokenHashed}
use offst.Funder.Messages.{failure}
use offst.Funder.Friend.{BackwardsOp, FriendState, push_back_pending_backwards_op, mutate_friend}
use offst.Funder.State.{friend_mutation, mutate_state}
use offst.Funder.Wrap.{MutableFunderState, mutate_wrapped}
use offst.Funder.Utils.{credit_with, find_request_origin, find_origin, is_origin}
use offst.Funder.Sender.{
  Collecting, Collected, cancel_request, queue_operation_or_cancel, queue_pending,
  PendingQueueError, insert_key,
}
use offst.Funder.Sender.Queued.{HasFriend, queue_pending-QueuesAs}

module _ {B : Type 0} (crypto : Crypto) (serialize_address : B → List ℕ) where
  -- The friend's queue of backwards operations ends with the cancellation.
  abbrev pub with_cancel : Uid → FriendState B → FriendState B
  with_cancel request_id f = record f {
    pending_backwards_ops =
        f.pending_backwards_ops ++ BackwardsOp.cancel (record { request_id = request_id }) ∷ [];
  }

  -- The friend's channel is consistent, and the request came from the friend and is pending there.
  abbrev pub IsPendingAt : Uid → FriendState B → Type 0
  IsPendingAt request_id f =
      (mc : MutualCredit) × (t : PendingTransaction) × (credit_with f.channel_status ≡ some mc)
      × (get request_id mc.pending_transactions.remote ≡ some t)

  -- Canceled at a friend that the request came from.
  abbrev pub CancelsAtFriend :
      RequestSendFundsOp → Collecting B → Collected crypto serialize_address → Type 0
  CancelsAtFriend r c res =
      (origin : PublicKey) × (f : FriendState B) × (get origin c.m_state.state.friends ≡ some f)
      × IsPendingAt r.request_id f
      × (res ≡ (
        ok tt,
        record c {
          m_state = record (c.m_state) {
            state = record (c.m_state.state) {
              friends = insert origin (with_cancel r.request_id f) c.m_state.state.friends;
            };
            mutations =
                c.m_state.mutations
                ++ friend_mutation origin (
                    push_back_pending_backwards_op
                      (BackwardsOp.cancel (record { request_id = r.request_id })))
                  ∷ [];
          };
          cancel_public_keys = insert_key origin c.cancel_public_keys;
        },
      ))

  -- Told to the user, as the request came from no friend.
  abbrev pub CancelsOwn :
      RequestSendFundsOp → Collecting B → Collected crypto serialize_address → Type 0
  CancelsOwn r c res =
      ((origin : PublicKey) (f : FriendState B)
        → get origin c.m_state.state.friends ≡ some f
        → ¬ IsPendingAt r.request_id f)
      × (res ≡ (
        ok tt,
        record c {
          outgoing_control =
              c.outgoing_control ++ record { request_id = r.request_id; result = failure } ∷ [];
        },
      ))

  abbrev pub CancelsAt :
      RequestSendFundsOp → Collecting B → Collected crypto serialize_address → Type 0
  CancelsAt r c res = CancelsAtFriend r c res ⊎ CancelsOwn r c res

  contains_key-get :
      {V : Type 0} (k : ℕ) (d : Dict V) → (contains_key k d ≡ true) ↔ ((v : V) × (get k d ≡ some v))
  contains_key-get k d = elim (Option-cases (get k d)) [
    | inl e ↦ rw (contains_key, e) (λ h. absurd (cc h), λ h. absurd (cc h.1))
    | inr (v, e) ↦ rw (contains_key, e) (λ h. (v, refl), λ h. refl)
  ]

  is_origin-IsPendingAt :
      (id : Uid) (f : FriendState B) → (is_origin id f ≡ true) ↔ IsPendingAt id f
  is_origin-IsPendingAt id f = elim (Option-cases (credit_with f.channel_status)) [
    | inl e ↦ rw (is_origin, e) (λ h. absurd (cc h), λ h. absurd (cc h.2))
    | inr (mc, e) ↦
        let there = contains_key-get id mc.pending_transactions.remote in
        rw (is_origin, e)
          (
            λ h. (mc, (there.0 h).0, refl, (there.0 h).1),
            λ h. there.1 (
              h.1,
              subst (λ (m : MutualCredit). get id m.pending_transactions.remote ≡ some h.1)
                  (same (sym h.2)) h.3,
            ),
          )
  ]
    where
      same : {x y : MutualCredit} → some x ≡ some y → x ≡ y
      same h = cc h

  no_origin :
      (id : Uid) (fs : Dict (FriendState B)) (j : PublicKey) (f : FriendState B)
      → find_origin id fs ≡ none
      → get j fs ≡ some f
      → is_origin id f ≡ false
  unfolding find_origin
  no_origin id [] j f h g = absurd (cc g)
  no_origin id ((i, f') ∷ fs) j f h g = elim (Bool-cases (is_origin id f')) [
    | inl t ↦ absurd (cc (rw t at h))
    | inr n ↦ elim (Bool-cases (i == j)) [
      | inl e ↦ subst (λ (x : FriendState B). is_origin id x ≡ false) (same (rw e at g)) n
      | inr d ↦ no_origin id fs j f (rw n at h) (rw d at g)
    ]
  ]
    where
      same : {x y : FriendState B} → some x ≡ some y → x ≡ y
      same e = cc e

  pushed :
      (j : PublicKey) (op : BackwardsOp) (f : FriendState B) (m : MutableFunderState B)
      → get j m.state.friends ≡ some f
      → mutate_wrapped crypto serialize_address
          (friend_mutation j (push_back_pending_backwards_op op))
          m
        ≡ some (record m {
          state = record (m.state) {
            friends =
                insert j
                  (record f { pending_backwards_ops = f.pending_backwards_ops ++ op ∷ [] })
                  m.state.friends;
          };
          mutations = m.mutations ++ friend_mutation j (push_back_pending_backwards_op op) ∷ [];
        })
  unfolding mutate_wrapped mutate_state mutate_friend
  pushed j op f m h = ground (arith, h)

  -- The keys of the friends differ, as those of a map do.
  origin_there :
      (id : Uid) (fs : Dict (FriendState B)) (j : PublicKey)
      → IsUnique (keys fs)
      → find_origin id fs ≡ some j
      → (f : FriendState B) × (get j fs ≡ some f) × (is_origin id f ≡ true)
  unfolding find_origin
  origin_there id [] j u h = absurd (cc h)
  origin_there id ((i, f) ∷ fs) j (n, u) h = elim (Bool-cases (is_origin id f)) [
    | inl t ↦ (f, ground arith, t)
    | inr no_origin ↦
        let (g, found, is) = origin_there id fs j u (rw no_origin at h) in
        elim (Bool-cases (i == j)) [
          | inl e ↦ absurd (n (rw ((==_iff i j).0 e) ((keys-Occurs j fs).1 (g, found))))
          | inr d ↦ (g, ground (arith, found), is)
        ]
  ]

  cancel_request-CancelsAt :
      (r : RequestSendFundsOp) (c : Collecting B)
      → IsUnique (keys c.m_state.state.friends)
      → CancelsAt r c (cancel_request crypto serialize_address r c)
  unfolding cancel_request create_pending_transaction
  cancel_request-CancelsAt r c u =
      elim (Option-cases (find_request_origin c.m_state.state r.request_id)) [
        | inl e ↦
            rw (cancel_request, e)
              (inr (
                λ j f g pending. cc (
                  no_origin r.request_id c.m_state.state.friends j f e g,
                  (is_origin-IsPendingAt r.request_id f).1 pending,
                ),
                refl,
              ))
        | inr (j, e) ↦
            let (f, found, is) = origin_there r.request_id c.m_state.state.friends j u e in
            let op = BackwardsOp.cancel (record { request_id = r.request_id }) in
            rw (cancel_request, e)
              (inl (
                j,
                f,
                found,
                (is_origin-IsPendingAt r.request_id f).0 is,
                rw (pushed j op f c.m_state found) refl,
              ))
      ]

  -- In a state whose friends have different keys and that has the friend, with the mutual credit of
  -- the pending move token, in a channel that holds the token: a request for which the batch has
  -- room and this mutual credit has no trust is not added. Either it is among the remote pending
  -- transactions of a friend with a consistent channel, that friend's queue gets a cancellation at
  -- its end, the friend's key is kept for sending, and nothing else changes; or it is among those of
  -- no friend, the user is told that it failed, and nothing else changes: its transaction stays open.
  pub queue_operation_or_cancel-CancelsAt :
      (pk : PublicKey) (mt : MoveTokenHashed) (f : FriendState B) (r : RequestSendFundsOp)
      (c : Collecting B) (mc : MutualCredit)
      → IsUnique (keys c.m_state.state.friends)
      → c.pending_move_token.friend_public_key ≡ pk
      → HasFriend crypto serialize_address pk mt f c.pending_move_token.outgoing_mc c.m_state
      → length c.pending_move_token.operations < c.pending_move_token.max_operations_in_batch
      → queue_operation crypto (FriendTcOp.request_send_funds r) c.pending_move_token.outgoing_mc
        ≡ (err QueueOperationError.insufficient_trust, mc)
      → CancelsAt r c
          (queue_operation_or_cancel crypto serialize_address (FriendTcOp.request_send_funds r) c)
  unfolding queue_operation_or_cancel
  queue_operation_or_cancel-CancelsAt pk mt f r c mc u k h room e =
      let op = FriendTcOp.request_send_funds r in
      let p = c.pending_move_token in
      let has_room : leb p.max_operations_in_batch (length p.operations) ≡ false = ground arith in
      let refused : queue_pending crypto serialize_address op p c.m_state
          ≡ (err PendingQueueError.insufficient_trust, p, c.m_state) =
        rw (has_room, e) at
          (queue_pending-QueuesAs crypto serialize_address pk mt op f p c.m_state k h) in
      rw (queue_operation_or_cancel, refused) (cancel_request-CancelsAt r c u)
