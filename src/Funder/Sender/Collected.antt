-- ===== src/Funder/Sender/Collected.antt =====
-- components/funder/src/handler/sender.rs: how `collect_outgoing_move_token` ends.
use offst.Prelude.{ℕ, ◌≡◌, refl, Bool, List, [], ◌∷◌, inl, inr, sym}
use mathlib.Core.Path.{subst}
use offst.Crypto.{Crypto, PublicKey}
use offst.Messages.{FriendTcOp}
use offst.MutualCredit.{MutualCredit}
use offst.TokenChannel.{MoveTokenHashed}
use offst.Funder.Action.{◌>>◌}
use offst.Funder.Friend.{FriendState, pop_front_pending_request, pop_front_pending_user_request}
use offst.Funder.Sender.{Collecting, Collected}
use offst.Funder.Sender.Collect.{
  send_pending_backwards_ops, send_pending_requests, send_pending_user_requests, send_relays,
  status_op, send_max_debt, send_requests_status, collect_outgoing_move_token,
}
use offst.Funder.Sender.Tracks.{
  Tracks, CollectEnds, Due, due_max_debt, due_request, due_user_request,
}
use offst.Funder.Sender.CollectSteps.{
  then-Ends, friend_there, backwards-Ends, requests-Ends, max_debt-Ends, status-Ends, relays-Ends,
}
use offst.Funder.Sender.Stages.{Since, Sent, AllSent, Early, Back, Taken, Forward, Own, Drained}
use offst.Funder.Sender.StageSteps.{
  sent-Keeps, backwards-Keeps, request-Keeps, user_request-Keeps, Early-allows, Back-allows,
  Forward-allows, Own-allows, Due-status, status_no_request,
}

module _ {B : Type 0} (crypto : Crypto) (serialize_address : B → List ℕ) (address_eq : B → B → Bool)
    (pk : PublicKey) (mt : MoveTokenHashed) (start : MutualCredit) (max : ℕ)
    (f0 : FriendState B) where
  abbrev In : (FriendState B → List FriendTcOp → Type 0) → Collecting B → Type 0
  In = Tracks crypto serialize_address pk mt start max (Since f0) (Due f0)

  abbrev Ends :
      (FriendState B → List FriendTcOp → Type 0) → Collected crypto serialize_address → Type 0
  Ends = CollectEnds crypto serialize_address pk mt start max (Since f0) (Due f0)

  -- The same state at another stage.
  enter :
      (P Q : FriendState B → List FriendTcOp → Type 0) (c : Collecting B) (t : In P c)
      → Q t.friend c.pending_move_token.operations
      → In Q c
  enter P Q c t q = record {
    friend = t.friend;
    has = t.has;
    batch = record {
      key = t.batch.key;
      bound = t.batch.bound;
      few = t.batch.few;
      built = t.batch.built;
    };
    keeps = q;
  }

  debt-Ends :
      (c : Collecting B)
      → In (Early f0) c
      → Ends (Early f0) (send_max_debt crypto serialize_address address_eq pk c)
  debt-Ends c t =
      max_debt-Ends crypto serialize_address address_eq pk mt start max (Since f0) (Due f0)
        (Early f0) c t
        (Early-allows crypto serialize_address address_eq pk mt start max f0
          (FriendTcOp.set_remote_max_debt t.friend.wanted_remote_max_debt) (λ r h. cc h)
          (subst (λ n. Due f0 (FriendTcOp.set_remote_max_debt n)) (sym t.keeps.0.max_debt)
            due_max_debt))

  wanted-Ends :
      (c : Collecting B)
      → In (Early f0) c
      → Ends (Early f0) (send_requests_status crypto serialize_address address_eq pk c)
  wanted-Ends c t =
      let s = t.friend.wanted_local_requests_status in
      status-Ends crypto serialize_address address_eq pk mt start max (Since f0) (Due f0) (Early f0)
        c t
        (Early-allows crypto serialize_address address_eq pk mt start max f0
          (status_op crypto serialize_address address_eq pk s)
          (status_no_request crypto serialize_address address_eq pk mt start max f0 s)
          (Due-status crypto serialize_address address_eq pk mt start max f0 s
            (sym t.keeps.0.status)))

  pending_backwards-Ends :
      (c : Collecting B)
      → In (Early f0) c
      → Ends (Back f0 []) (send_pending_backwards_ops crypto serialize_address address_eq pk c)
  pending_backwards-Ends c t =
      rw
        (
          friend_there crypto serialize_address address_eq pk mt start max (Since f0) (Due f0)
              (Early f0) c t,
          t.keeps.1,
        )
        (backwards-Ends crypto serialize_address address_eq pk mt start max (Since f0) (Due f0)
          (Back f0) (Taken f0)
          (backwards-Keeps crypto serialize_address address_eq pk mt start max f0)
          f0.pending_backwards_ops
          (λ b bs i. Back-allows crypto serialize_address address_eq pk mt start max f0 b bs i) c
          (enter (Early f0) (Back f0 f0.pending_backwards_ops) c t
            (t.keeps.0, t.keeps.1, λ op i. inl i)))

  pending_requests-Ends :
      (c : Collecting B)
      → In (Back f0 []) c
      → Ends (Forward f0 []) (send_pending_requests crypto serialize_address address_eq pk c)
  pending_requests-Ends c t =
      let rs = t.friend.pending_requests in
      rw
        (friend_there crypto serialize_address address_eq pk mt start max (Since f0) (Due f0)
          (Back f0 []) c t)
        (requests-Ends crypto serialize_address address_eq pk mt start max (Since f0) (Due f0)
          (Forward f0) pop_front_pending_request
          (request-Keeps crypto serialize_address address_eq pk mt start max f0) rs
          (λ r rest i.
            Forward-allows crypto serialize_address address_eq pk mt start max f0 r (r ∷ rest)
              (due_request r (t.keeps.0.requests r i)))
          c
          (enter (Back f0 []) (Forward f0 rs) c t
            (t.keeps.0, all_sent c.pending_move_token.operations t.keeps.2, refl)))
    where
      all_sent : (ops : List FriendTcOp) → Sent f0 [] ops → AllSent f0 ops
      all_sent ops h op i = elim (h op i) [ inl none_left ↦ absurd none_left | inr done ↦ done ]

  user_requests-Ends :
      (c : Collecting B)
      → In (Forward f0 []) c
      → Ends (Drained f0) (send_pending_user_requests crypto serialize_address address_eq pk c)
  user_requests-Ends c t =
      let rs = t.friend.pending_user_requests in
      rw
        (friend_there crypto serialize_address address_eq pk mt start max (Since f0) (Due f0)
          (Forward f0 []) c t)
        (requests-Ends crypto serialize_address address_eq pk mt start max (Since f0) (Due f0)
          (Own f0) pop_front_pending_user_request
          (user_request-Keeps crypto serialize_address address_eq pk mt start max f0) rs
          (λ r rest i.
            Own-allows crypto serialize_address address_eq pk mt start max f0 r (r ∷ rest)
              (due_user_request r (t.keeps.0.user_requests r i)))
          c (enter (Forward f0 []) (Own f0 rs) c t (t.keeps.0, t.keeps.1, t.keeps.2, refl)))

  -- Started with the friend `f0` in the state, with the mutual credit of the pending move token, in
  -- a channel that holds the token, and with operations in the pending token that lead to this
  -- mutual credit and are not more than the batch allows, `collect_outgoing_move_token` keeps all
  -- of this unless it panics. The friend then has the wishes that it had, and no request in a queue
  -- that was not in it before. When it succeeds, no request waits for the friend any more, and all
  -- backwards operations that waited for `f0` are in the pending token. It ends early only when the
  -- batch is full, and then the token is wanted back. It panics only at an operation that tells a
  -- wish of `f0` or that waited in one of the queues of `f0`, when the batch has room for it and
  -- the mutual credit that the operations in the pending token led to refuses it for another reason
  -- than a lack of trust or a request that is there already.
  pub collect_outgoing_move_token-CollectEnds :
      (c : Collecting B)
      → Tracks crypto serialize_address pk mt start max (Since f0) (Due f0) (λ f ops. f ≡ f0) c
      → CollectEnds crypto serialize_address pk mt start max
          (Since f0)
          (Due f0)
          (Drained f0)
          (collect_outgoing_move_token crypto serialize_address address_eq pk c)
  unfolding collect_outgoing_move_token
  collect_outgoing_move_token-CollectEnds c t =
      let debt = send_max_debt crypto serialize_address address_eq pk in
      let status = send_requests_status crypto serialize_address address_eq pk in
      let back = send_pending_backwards_ops crypto serialize_address address_eq pk in
      let forward = send_pending_requests crypto serialize_address address_eq pk in
      let user = send_pending_user_requests crypto serialize_address address_eq pk in
      let first =
        enter (λ f ops. f ≡ f0) (Early f0) c t
          (subst (λ (f : FriendState B). Early f0 f []) (sym t.keeps) at_start) in
      then-Ends crypto serialize_address address_eq pk mt start max (Since f0) (Due f0) (Early f0)
        (Drained f0) (send_relays crypto serialize_address address_eq pk c)
        (λ _. debt >> (status >> (back >> (forward >> user))))
        (relays-Ends crypto serialize_address address_eq pk mt start max (Since f0) (Due f0)
          (Early f0) c (sent-Keeps crypto serialize_address address_eq pk mt start max f0) first)
        (λ c1 t1.
          then-Ends crypto serialize_address address_eq pk mt start max (Since f0) (Due f0)
            (Early f0) (Drained f0) (debt c1) (λ _. status >> (back >> (forward >> user)))
            (debt-Ends c1 t1)
            (λ c2 t2.
              then-Ends crypto serialize_address address_eq pk mt start max (Since f0) (Due f0)
                (Early f0) (Drained f0) (status c2) (λ _. back >> (forward >> user))
                (wanted-Ends c2 t2)
                (λ c3 t3.
                  then-Ends crypto serialize_address address_eq pk mt start max (Since f0) (Due f0)
                    (Back f0 []) (Drained f0) (back c3) (λ _. forward >> user)
                    (pending_backwards-Ends c3 t3)
                    (λ c4 t4.
                      then-Ends crypto serialize_address address_eq pk mt start max (Since f0)
                        (Due f0) (Forward f0 []) (Drained f0) (forward c4) (λ _. user)
                        (pending_requests-Ends c4 t4) user_requests-Ends))))
    where
      at_start : Early f0 f0 []
      at_start = (
        record { max_debt = refl; status = refl; requests = λ r i. i; user_requests = λ r i. i },
        refl,
      )
