-- ===== src/Funder/Sender/Tracks.antt =====
-- components/funder/src/handler/sender.rs: the pending move token and the friend's channel.
use offst.Prelude.{
  ℕ, ◌≤◌, ◌≡◌, refl, Bool, true, false, List, [], ◌∷◌, ◌++◌, some, length, leb, arith, Option-cases,
  Bool-cases, inl, inr, length-append, ◌==◌, ==_iff, ◌⊎◌, ◌<◌, sym,
}
use mathlib.Core.Path.{subst}
use offst.Prelude.Dict.{Dict, get, insert, get-insert}
use offst.Prelude.Outcome.{Outcome, ok, err, panic}
use offst.Crypto.{Crypto, PublicKey}
use offst.Messages.{RequestsStatus, FriendTcOp, RequestSendFundsOp, create_pending_transaction}
use offst.MutualCredit.{MutualCredit, McMutation}
use offst.MutualCredit.Mirror.{ClosesOpen}
use offst.MutualCredit.Outgoing.{
  queue_operation, QueueOperationError, queue_enable_requests, queue_disable_requests,
  queue_set_remote_max_debt, queue_response_send_funds, queue_cancel_send_funds,
  queue_collect_send_funds,
}
use offst.TokenChannel.{MoveTokenHashed}
use offst.Funder.Messages.{create_cancel_send_funds}
use offst.Funder.Friend.{
  BackwardsOp, ChannelStatus, FriendState, FriendMutation, push_back_pending_backwards_op,
  mutate_friend, consistent,
}
use offst.Funder.State.{friend_mutation, mutate_state}
use offst.Funder.Wrap.{MutableFunderState, mutate_wrapped}
use offst.Funder.Utils.{find_origin, find_request_origin}
use offst.Funder.Sender.{
  PendingMoveToken, Collecting, Collected, Queued, push_operation, queue_pending, cancel_request,
  after_queue, queue_operation_or_cancel, to_friend_tc_op,
}
use offst.Funder.Sender.Queued.{HasFriend, QueuesAs, holding, queue_pending-QueuesAs}

module _ (crypto : Crypto) (start : MutualCredit) where
  -- The operations that were taken one after the other from the start, with the mutual credit that
  -- they lead to. A request that is there already counts, and changes nothing.
  pub data Built : List FriendTcOp → MutualCredit → Type 0 where
    nothing : Built [] start
    queued :
        {ops : List FriendTcOp} {mc mc' : MutualCredit} (op : FriendTcOp) (ms : List McMutation)
        → Built ops mc
        → queue_operation crypto op mc ≡ (ok ms, mc')
        → ClosesOpen op mc
        → Built (ops ++ op ∷ []) mc'
    repeated :
        {ops : List FriendTcOp} {mc mc' : MutualCredit} (op : FriendTcOp)
        → Built ops mc
        → queue_operation crypto op mc ≡ (err QueueOperationError.request_already_exists, mc')
        → Built (ops ++ op ∷ []) mc

-- The list has the element.
abbrev pub IsIn : {A : Type 0} → A → List A → Type 0
IsIn x [] = ⊥
IsIn x (y ∷ ys) = (y ≡ x) ⊎ IsIn x ys

-- Refused for a reason other than a lack of trust or a repeated request.
abbrev pub Refused : Outcome QueueOperationError (List McMutation) × MutualCredit → Type 0
Refused (ok ms, mc) = ⊥
Refused (err QueueOperationError.request_already_exists, mc) = ⊥
Refused (err QueueOperationError.insufficient_trust, mc) = ⊥
Refused (err _, mc) = Unit {0}
Refused (panic, mc) = Unit {0}

module _ {B : Type 0} where
  -- What waits to be sent to a friend: the two wishes of the user and the three queues.
  pub data Due (f : FriendState B) : FriendTcOp → Type 0 where
    due_max_debt : Due f (FriendTcOp.set_remote_max_debt f.wanted_remote_max_debt)
    due_opened :
        f.wanted_local_requests_status ≡ RequestsStatus.opened → Due f FriendTcOp.enable_requests
    due_closed :
        f.wanted_local_requests_status ≡ RequestsStatus.closed → Due f FriendTcOp.disable_requests
    due_backwards :
        (op : BackwardsOp) → IsIn op f.pending_backwards_ops → Due f (to_friend_tc_op op)
    due_request :
        (r : RequestSendFundsOp)
        → IsIn r f.pending_requests
        → Due f (FriendTcOp.request_send_funds r)
    due_user_request :
        (r : RequestSendFundsOp)
        → IsIn r f.pending_user_requests
        → Due f (FriendTcOp.request_send_funds r)

-- `R` holds of the friend wherever collecting ends early, and `D` of the operations that are queued.
module _ {B : Type 0} (crypto : Crypto) (serialize_address : B → List ℕ) (pk : PublicKey)
    (mt : MoveTokenHashed) (start : MutualCredit) (max : ℕ) (R : FriendState B → Type 0)
    (D : FriendTcOp → Type 0) where
  -- Of the friend and the operations of the batch.
  abbrev pub Phase : Type 1
  Phase = FriendState B → List FriendTcOp → Type 0

  abbrev Has : FriendState B → MutualCredit → MutableFunderState B → Type 0
  Has = HasFriend crypto serialize_address pk mt

  -- The operations of the batch lead to its mutual credit, and are not too many.
  pub record IsBatch (p : PendingMoveToken B) : Type 0 where
    pub key : p.friend_public_key ≡ pk
    pub bound : p.max_operations_in_batch ≡ max
    pub few : length p.operations ≤ max
    pub built : Built crypto start p.operations p.outgoing_mc

  -- The friend's channel in the state holds the token and has the mutual credit of the batch.
  pub record Tracks (P : Phase) (c : Collecting B) : Type 0 where
    pub friend : FriendState B
    pub has : Has friend c.pending_move_token.outgoing_mc c.m_state
    pub batch : IsBatch c.pending_move_token
    pub keeps : P friend c.pending_move_token.operations

  -- How collecting ends: by `?` only with a full batch, of which the token is then wanted back, and by
  -- a panic only where the mutual credit that the batch led to refuses one of the operations `D`.
  abbrev pub CollectEnds : Phase → Collected crypto serialize_address → Type 0
  CollectEnds P (ok u, c) = Tracks P c
  CollectEnds P (err e, c) =
      Tracks (λ f ops. R f) c
      × (c.pending_move_token.token_wanted ≡ true)
      × (length c.pending_move_token.operations ≡ max)
  CollectEnds P (panic, c) =
      (op : FriendTcOp) × (mc : MutualCredit) × D op
      × Built crypto start c.pending_move_token.operations mc
      × (length c.pending_move_token.operations < max)
      × Refused (queue_operation crypto op mc)

  -- A mutation of a friend that leaves the channel.
  abbrev pub KeepsChannel : Phase → Phase → FriendMutation B → Type 0
  KeepsChannel P Q fm =
      (f : FriendState B)
      → (g : FriendState B) × (mutate_friend fm f ≡ some g)
        × (g.channel_status ≡ f.channel_status)
        × ((ops : List FriendTcOp) → P f ops → Q g ops)

  same_friend : {f g : FriendState B} → some f ≡ some g → f ≡ g
  same_friend h = cc h

  pub kept_friend :
      (j : PublicKey) (fm : FriendMutation B) (m : MutableFunderState B) (f h : FriendState B)
      (mc : MutualCredit) (P Q : Phase) (ops : List FriendTcOp)
      → KeepsChannel P Q fm
      → ((j == pk) ≡ false → P f ops → Q f ops)
      → get j m.state.friends ≡ some h
      → Has f mc m
      → P f ops
      → (m' : MutableFunderState B) × (f' : FriendState B) × (mutate_wrapped crypto
            serialize_address
            (friend_mutation j fm)
            m
          ≡ some m')
        × Has f' mc m'
        × Q f' ops
  unfolding mutate_wrapped mutate_state
  kept_friend j fm m f h mc P Q ops k stay e has keeps =
      let (g, done, kept, after) = k h in
      let m' : MutableFunderState B = record m {
        state = record (m.state) { friends = insert j g m.state.friends };
        mutations = m.mutations ++ friend_mutation j fm ∷ [];
      } in
      let stored : mutate_wrapped crypto serialize_address (friend_mutation j fm) m ≡ some m' =
        ground (arith, e, done) in
      elim (Bool-cases (j == pk)) [
        | inl t ↦ (
          m',
          g,
          stored,
          (
            ground (arith, get-insert j pk g m.state.friends),
            ground (arith, has.0, has.1, e, kept),
          ),
          after ops (
              subst (λ (x : FriendState B). P x ops)
                (same_friend (rw ((==_iff j pk).0 t, has.0) at e)) keeps),
        )
        | inr n ↦ (
          m',
          f,
          stored,
          (ground (arith, get-insert j pk g m.state.friends, has.0), has.1),
          stay n keeps,
        )
      ]

  pub find_origin-get :
      (id : ℕ) (fs : Dict (FriendState B)) (j : PublicKey)
      → find_origin id fs ≡ some j
      → (h : FriendState B) × (get j fs ≡ some h)
  unfolding find_origin
  find_origin-get id [] j e = absurd (cc e)
  find_origin-get id ((i, f) ∷ fs) j e = elim (Bool-cases (i == j)) [
    | inl t ↦ (f, ground arith)
    | inr n ↦ let (h, found) = find_origin-get id fs j (ground arith) in (h, ground (arith, found))
  ]

  -- With one more operation.
  longer_batch :
      (op : FriendTcOp) (p : PendingMoveToken B) (mc : MutualCredit)
      → IsBatch p
      → leb p.max_operations_in_batch (length p.operations) ≡ false
      → Built crypto start (p.operations ++ op ∷ []) mc
      → IsBatch (push_operation op (record p { outgoing_mc = mc }))
  longer_batch op p mc b room built = record {
    key = b.key;
    bound = b.bound;
    few = ground (arith, length-append p.operations (op ∷ []), b.bound, b.few);
    built = built;
  }

  wanted_batch : (p : PendingMoveToken B) → IsBatch p → IsBatch (record p { token_wanted = true })
  wanted_batch p b = record { key = b.key; bound = b.bound; few = b.few; built = b.built }

  -- What queueing needs to go from one phase to the next, by what becomes of the operation.
  pub record AllowsQueueing (P Q : Phase) (op : FriendTcOp) : Type 0 where
    pub taken :
        (f : FriendState B) (status : ChannelStatus B) (ops : List FriendTcOp)
        → P f ops
        → Q (record f { channel_status = status }) (ops ++ op ∷ [])
    pub told :
        (r : RequestSendFundsOp)
        → op ≡ FriendTcOp.request_send_funds r
        → (f : FriendState B) (ops : List FriendTcOp) → P f ops
        → Q f ops
    pub pushed :
        (r : RequestSendFundsOp)
        → op ≡ FriendTcOp.request_send_funds r
        → (b : BackwardsOp) (f : FriendState B) (ops : List FriendTcOp) → P f ops
        → Q (record f { pending_backwards_ops = f.pending_backwards_ops ++ b ∷ [] }) ops
    pub weaker : (f : FriendState B) (ops : List FriendTcOp) → P f ops → R f
    pub due : D op

  push-KeepsChannel :
      (P Q : Phase) (op : FriendTcOp) (r : RequestSendFundsOp)
      → AllowsQueueing P Q op
      → op ≡ FriendTcOp.request_send_funds r
      → (b : BackwardsOp) → KeepsChannel P Q (push_back_pending_backwards_op b)
  unfolding mutate_friend
  push-KeepsChannel P Q op r a is b f = (
    record f { pending_backwards_ops = f.pending_backwards_ops ++ b ∷ [] },
    refl,
    refl,
    a.pushed r is b f,
  )

  cancel_request-Ends :
      (P Q : Phase) (op : FriendTcOp) (r : RequestSendFundsOp) (c : Collecting B)
      → Tracks P c
      → AllowsQueueing P Q op
      → op ≡ FriendTcOp.request_send_funds r
      → CollectEnds Q (cancel_request crypto serialize_address r c)
  unfolding cancel_request
  cancel_request-Ends P Q op r c t al is =
      elim (Option-cases (find_request_origin c.m_state.state r.request_id)) [
        | inl e ↦
            rw (e, cancel_request)
              (record {
                friend = t.friend;
                has = t.has;
                batch = t.batch;
                keeps = al.told r is t.friend c.pending_move_token.operations t.keeps;
              })
        | inr (j, e) ↦
            let cancels =
              BackwardsOp.cancel
                (create_cancel_send_funds (create_pending_transaction r).request_id) in
            let (h, found) = find_origin-get r.request_id c.m_state.state.friends j e in
            let (m', f', done, has, keeps) =
              kept_friend j (push_back_pending_backwards_op cancels) c.m_state t.friend h
                c.pending_move_token.outgoing_mc P Q c.pending_move_token.operations
                (push-KeepsChannel P Q op r al is cancels)
                (λ other. al.told r is t.friend c.pending_move_token.operations) found t.has
                t.keeps in
            rw (e, cancel_request, done)
              (record { friend = f'; has = has; batch = t.batch; keeps = keeps })
      ]

  -- Only requests need trust.
  trust_request :
      (op : FriendTcOp) (mc mc' : MutualCredit)
      → queue_operation crypto op mc ≡ (err QueueOperationError.insufficient_trust, mc')
      → (r : RequestSendFundsOp) × (op ≡ FriendTcOp.request_send_funds r)
  unfolding queue_operation queue_enable_requests queue_disable_requests queue_set_remote_max_debt
      queue_response_send_funds queue_cancel_send_funds queue_collect_send_funds
  trust_request FriendTcOp.enable_requests mc mc' h = absurd (ground arith)
  trust_request FriendTcOp.disable_requests mc mc' h = absurd (ground arith)
  trust_request (FriendTcOp.set_remote_max_debt n) mc mc' h = absurd (ground arith)
  trust_request (FriendTcOp.request_send_funds r) mc mc' h = (r, refl)
  trust_request (FriendTcOp.response_send_funds r) mc mc' h = absurd (ground arith)
  trust_request (FriendTcOp.cancel_send_funds r) mc mc' h = absurd (ground arith)
  trust_request (FriendTcOp.collect_send_funds r) mc mc' h = absurd (ground arith)

  panics :
      (P Q : Phase) (op : FriendTcOp) (c : Collecting B) (r : Queued crypto serialize_address)
      → Tracks P c
      → r.0 ≡ panic
      → r.1.operations ≡ c.pending_move_token.operations
      → leb c.pending_move_token.max_operations_in_batch (length c.pending_move_token.operations)
        ≡ false
      → D op
      → Refused (queue_operation crypto op c.pending_move_token.outgoing_mc)
      → CollectEnds Q (after_queue crypto serialize_address op c r)
  panics P Q op c (ok u, p, m) t h o room d x = absurd (cc h)
  panics P Q op c (err e, p, m) t h o room d x = absurd (cc h)
  panics P Q op c (panic, p, m) t h o room d x = (
    op,
    c.pending_move_token.outgoing_mc,
    d,
    subst (λ ops. Built crypto start ops c.pending_move_token.outgoing_mc) (sym o) t.batch.built,
    ground (arith, o, room, t.batch.bound),
    x,
  )

  after-Ends :
      (P Q : Phase) (op : FriendTcOp) (c : Collecting B) (t : Tracks P c) (full : Bool)
      (a : Outcome QueueOperationError (List McMutation) × MutualCredit)
      (r : Queued crypto serialize_address)
      → QueuesAs crypto serialize_address pk mt op t.friend c.pending_move_token c.m_state full a r
      → leb c.pending_move_token.max_operations_in_batch (length c.pending_move_token.operations)
        ≡ full
      → queue_operation crypto op c.pending_move_token.outgoing_mc ≡ a
      → ClosesOpen op c.pending_move_token.outgoing_mc
      → AllowsQueueing P Q op
      → CollectEnds Q (after_queue crypto serialize_address op c r)
  after-Ends P Q op c t true a r q full e closes al = rw q (
    record {
      friend = t.friend;
      has = t.has;
      batch = wanted_batch c.pending_move_token t.batch;
      keeps = al.weaker t.friend c.pending_move_token.operations t.keeps;
    },
    refl,
    ground (arith, t.batch.bound, t.batch.few),
  )
  after-Ends P Q op c t false (ok ms, mc) r (m', q, cred) room e closes al = rw q (record {
    friend = record (t.friend) { channel_status = consistent (holding mc mt) };
    has = (cred.here, refl);
    batch =
        longer_batch op c.pending_move_token mc t.batch room (queued op ms t.batch.built e closes);
    keeps = al.taken t.friend (consistent (holding mc mt)) c.pending_move_token.operations t.keeps;
  })
  after-Ends P Q op c t false (err QueueOperationError.request_already_exists, mc) r q room e closes
        al =
      rw q (record {
        friend = t.friend;
        has = t.has;
        batch =
            longer_batch op c.pending_move_token c.pending_move_token.outgoing_mc t.batch room
              (repeated op t.batch.built e);
        keeps = al.taken t.friend t.friend.channel_status c.pending_move_token.operations t.keeps;
      })
  after-Ends P Q op c t false (err QueueOperationError.insufficient_trust, mc) r q room e closes
        al =
      let (request, is) = trust_request op c.pending_move_token.outgoing_mc mc e in
      rw (q, is) (cancel_request-Ends P Q op request c t al is)
  after-Ends P Q op c t false (err _, mc) r q room e closes al =
      panics P Q op c r t q.0 q.1 room al.due (rw e tt)
  after-Ends P Q op c t false (panic, mc) r q room e closes al =
      panics P Q op c r t q.0 q.1 room al.due (rw e tt)

  -- One operation, or its cancellation.
  pub queue-CollectEnds :
      (P Q : Phase) (op : FriendTcOp) (c : Collecting B)
      → Tracks P c
      → ClosesOpen op c.pending_move_token.outgoing_mc
      → AllowsQueueing P Q op
      → CollectEnds Q (queue_operation_or_cancel crypto serialize_address op c)
  unfolding queue_operation_or_cancel
  queue-CollectEnds P Q op c t closes al =
      let p = c.pending_move_token in
      after-Ends P Q op c t (leb p.max_operations_in_batch (length p.operations))
        (queue_operation crypto op p.outgoing_mc)
        (queue_pending crypto serialize_address op p c.m_state)
        (queue_pending-QueuesAs crypto serialize_address pk mt op t.friend p c.m_state t.batch.key
          t.has)
        refl refl closes al
