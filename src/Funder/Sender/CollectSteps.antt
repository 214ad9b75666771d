-- ===== src/Funder/Sender/CollectSteps.antt =====
-- components/funder/src/handler/sender.rs: the steps of `collect_outgoing_move_token`, with any
-- property of the friend that they keep.
use offst.Prelude.{
  ℕ, ◌≡◌, refl, Bool, false, List, [], ◌∷◌, Option, none, some, arith, Bool-cases, inl, inr, ◌==◌,
  ==_iff,
}
use offst.Prelude.Outcome.{ok, err, panic}
use offst.Crypto.{Crypto, PublicKey}
use offst.Messages.{FriendTcOp, RequestSendFundsOp, RequestsStatus}
use offst.MutualCredit.{MutualCredit}
use offst.MutualCredit.Mirror.{ClosesOpen}
use offst.TokenChannel.{MoveTokenHashed}
use offst.Funder.Action.{bind_to, change, ◌>>◌}
use offst.Funder.Messages.{status_eq}
use offst.Funder.Friend.{
  BackwardsOp, FriendMutation, FriendState, SentLocalRelays, set_sent_local_relays,
  pop_front_pending_backwards_op,
}
use offst.Funder.Sender.{Collecting, Collected, to_friend_tc_op}
use offst.Funder.Sender.Collect.{
  Collect, friend_at, credit_at, new_sent_relays, queue, mutate_collecting, put_relays,
  tell_channeler, announce_relays, send_relays, status_op, send_max_debt, send_requests_status,
  send_backwards_ops, send_requests,
}
use offst.Funder.Sender.Tracks.{
  Tracks, CollectEnds, KeepsChannel, AllowsQueueing, IsIn, kept_friend, queue-CollectEnds,
}

module _ {B : Type 0} (crypto : Crypto) (serialize_address : B → List ℕ) (address_eq : B → B → Bool)
    (pk : PublicKey) (mt : MoveTokenHashed) (start : MutualCredit) (max : ℕ)
    (R : FriendState B → Type 0) (D : FriendTcOp → Type 0) where
  abbrev pub Stage : Type 1
  Stage = FriendState B → List FriendTcOp → Type 0

  abbrev In : Stage → Collecting B → Type 0
  In = Tracks crypto serialize_address pk mt start max R D

  abbrev Ends : Stage → Collected crypto serialize_address → Type 0
  Ends = CollectEnds crypto serialize_address pk mt start max R D

  abbrev Moves : Stage → Stage → FriendMutation B → Type 0
  Moves = KeepsChannel crypto serialize_address pk mt start max R D

  abbrev Allows : Stage → Stage → FriendTcOp → Type 0
  Allows = AllowsQueueing crypto serialize_address pk mt start max R D

  pub then-Ends :
      (P Q : Stage) (x : Collected crypto serialize_address) (f : Unit {0} → Collect B)
      → Ends P x
      → ((c : Collecting B) → In P c → Ends Q (f tt c))
      → Ends Q (bind_to f x)
  then-Ends P Q (ok u, c) f h k = k c h
  then-Ends P Q (err e, c) f h k = h
  then-Ends P Q (panic, c) f h k = h

  pub friend_there : (P : Stage) (c : Collecting B) (t : In P c) → friend_at pk c ≡ (ok t.friend, c)
  friend_there P c t = rw t.has.0 refl

  credit_there :
      (P : Stage) (c : Collecting B)
      → In P c
      → credit_at pk c ≡ (ok c.pending_move_token.outgoing_mc, c)
  credit_there P c t = ground (arith, t.has.0, t.has.1)

  mutate-Ends :
      (P Q : Stage) (fm : FriendMutation B) (c : Collecting B)
      → Moves P Q fm
      → In P c
      → Ends Q (mutate_collecting crypto serialize_address address_eq pk fm c)
  mutate-Ends P Q fm c k t =
      let (m', f', done, has, keeps) =
        kept_friend crypto serialize_address pk mt start max R D pk fm c.m_state t.friend t.friend
          c.pending_move_token.outgoing_mc P Q c.pending_move_token.operations k
          (λ other. absurd (cc (other, (==_iff pk pk).1 refl))) t.has.0 t.has t.keeps in
      rw done (record { friend = f'; has = has; batch = t.batch; keeps = keeps })

  closes_backwards : (op : BackwardsOp) (mc : MutualCredit) → ClosesOpen (to_friend_tc_op op) mc
  closes_backwards (BackwardsOp.response r) mc = tt
  closes_backwards (BackwardsOp.cancel r) mc = tt
  closes_backwards (BackwardsOp.collect r) mc = tt

  -- An operation from a queue, then the queue without it.
  queued-Ends :
      (P M Q : Stage) (op : FriendTcOp) (pop : FriendMutation B) (c : Collecting B)
      → Moves M Q pop
      → In P c
      → ClosesOpen op c.pending_move_token.outgoing_mc
      → Allows P M op
      → Ends Q (
          (queue crypto serialize_address address_eq pk op
              >> mutate_collecting crypto serialize_address address_eq pk pop)
            c)
  queued-Ends P M Q op pop c k t closes al =
      then-Ends M Q (queue crypto serialize_address address_eq pk op c)
        (λ _. mutate_collecting crypto serialize_address address_eq pk pop)
        (queue-CollectEnds crypto serialize_address pk mt start max R D P M op c t closes al)
        (λ c' t'. mutate-Ends M Q pop c' k t')

  -- A queue of operations, with a stage for what is left of it and one in between.
  pub backwards-Ends :
      (Q : List BackwardsOp → Stage) (M : BackwardsOp → List BackwardsOp → Stage)
      → ((op : BackwardsOp) (ops : List BackwardsOp)
          → Moves (M op ops) (Q ops) pop_front_pending_backwards_op)
      → (ops : List BackwardsOp)
      → ((op : BackwardsOp) (rest : List BackwardsOp)
          → IsIn op ops
          → Allows (Q (op ∷ rest)) (M op rest) (to_friend_tc_op op))
      → (c : Collecting B) → In (Q ops) c
      → Ends (Q []) (send_backwards_ops crypto serialize_address address_eq pk ops c)
  unfolding send_backwards_ops
  backwards-Ends Q M k [] al c t = t
  backwards-Ends Q M k (op ∷ ops) al c t =
      then-Ends (Q ops) (Q [])
        ((queue crypto serialize_address address_eq pk (to_friend_tc_op op)
            >> mutate_collecting crypto serialize_address address_eq pk
                pop_front_pending_backwards_op)
          c)
        (λ _. send_backwards_ops crypto serialize_address address_eq pk ops)
        (queued-Ends (Q (op ∷ ops)) (M op ops) (Q ops) (to_friend_tc_op op)
          pop_front_pending_backwards_op c (k op ops) t
          (closes_backwards op c.pending_move_token.outgoing_mc) (al op ops (inl refl)))
        (backwards-Ends Q M k ops (λ b rest i. al b rest (inr i)))

  pub requests-Ends :
      (Q : List RequestSendFundsOp → Stage) (pop : FriendMutation B)
      → ((r : RequestSendFundsOp) (rs : List RequestSendFundsOp) → Moves (Q (r ∷ rs)) (Q rs) pop)
      → (rs : List RequestSendFundsOp)
      → ((r : RequestSendFundsOp) (rest : List RequestSendFundsOp)
          → IsIn r rs
          → Allows (Q (r ∷ rest)) (Q (r ∷ rest)) (FriendTcOp.request_send_funds r))
      → (c : Collecting B) → In (Q rs) c
      → Ends (Q []) (send_requests crypto serialize_address address_eq pk pop rs c)
  unfolding send_requests
  requests-Ends Q pop k [] al c t = t
  requests-Ends Q pop k (r ∷ rs) al c t =
      then-Ends (Q rs) (Q [])
        ((queue crypto serialize_address address_eq pk (FriendTcOp.request_send_funds r)
            >> mutate_collecting crypto serialize_address address_eq pk pop)
          c)
        (λ _. send_requests crypto serialize_address address_eq pk pop rs)
        (queued-Ends (Q (r ∷ rs)) (Q (r ∷ rs)) (Q rs) (FriendTcOp.request_send_funds r) pop c
          (k r rs) t tt (al r rs (inl refl)))
        (requests-Ends Q pop k rs (λ q rest i. al q rest (inr i)))

  pub max_debt-Ends :
      (P : Stage) (c : Collecting B) (t : In P c)
      → Allows P P (FriendTcOp.set_remote_max_debt t.friend.wanted_remote_max_debt)
      → Ends P (send_max_debt crypto serialize_address address_eq pk c)
  unfolding send_max_debt
  max_debt-Ends P c t al =
      let f = t.friend in
      let mc = c.pending_move_token.outgoing_mc in
      elim (Bool-cases (mc.balance.remote_max_debt == f.wanted_remote_max_debt)) [
        | inl same ↦ rw (send_max_debt, friend_there P c t, credit_there P c t, same) t
        | inr other ↦
            rw (send_max_debt, friend_there P c t, credit_there P c t, other)
              (queue-CollectEnds crypto serialize_address pk mt start max R D P P
                (FriendTcOp.set_remote_max_debt f.wanted_remote_max_debt) c t tt al)
      ]

  closes_status :
      (s : RequestsStatus) (mc : MutualCredit)
      → status_eq s mc.requests_status.local ≡ false
      → ClosesOpen (status_op crypto serialize_address address_eq pk s) mc
  closes_status RequestsStatus.opened mc h = tt
  closes_status RequestsStatus.closed mc h = ground arith

  pub status-Ends :
      (P : Stage) (c : Collecting B) (t : In P c)
      → Allows P P
          (status_op crypto serialize_address address_eq pk t.friend.wanted_local_requests_status)
      → Ends P (send_requests_status crypto serialize_address address_eq pk c)
  unfolding send_requests_status
  status-Ends P c t al =
      let s = t.friend.wanted_local_requests_status in
      let mc = c.pending_move_token.outgoing_mc in
      elim (Bool-cases (status_eq s mc.requests_status.local)) [
        | inl same ↦ rw (send_requests_status, friend_there P c t, credit_there P c t, same) t
        | inr other ↦
            rw (send_requests_status, friend_there P c t, credit_there P c t, other)
              (queue-CollectEnds crypto serialize_address pk mt start max R D P P
                (status_op crypto serialize_address address_eq pk s) c t (closes_status s mc other)
                al)
      ]

  put-In :
      (P : Stage) (c : Collecting B)
      → In P c
      → Ends P (change (put_relays crypto serialize_address address_eq pk) c)
  put-In P c t = record {
    friend = t.friend;
    has = t.has;
    batch = record {
      key = t.batch.key;
      bound = t.batch.bound;
      few = t.batch.few;
      built = t.batch.built;
    };
    keeps = t.keeps;
  }

  told-Ends :
      (P : Stage) (c : Collecting B)
      → In P c
      → Ends P (tell_channeler crypto serialize_address address_eq pk c)
  told-Ends P c t =
      rw (friend_there P c t)
        (record { friend = t.friend; has = t.has; batch = t.batch; keeps = t.keeps })

  announce-Ends :
      (P : Stage) (s : Option (SentLocalRelays B)) (c : Collecting B)
      → ((sent : SentLocalRelays B) → Moves P P (set_sent_local_relays sent))
      → In P c
      → Ends P (announce_relays crypto serialize_address address_eq pk s c)
  announce-Ends P none c k t = t
  announce-Ends P (some s) c k t =
      let mutates =
        mutate_collecting crypto serialize_address address_eq pk (set_sent_local_relays s) in
      let tells = tell_channeler crypto serialize_address address_eq pk in
      then-Ends P P (change (put_relays crypto serialize_address address_eq pk) c)
        (λ _. mutates >> tells) (put-In P c t)
        (λ c1 t1.
          then-Ends P P (mutates c1) (λ _. tells)
            (mutate-Ends P P (set_sent_local_relays s) c1 (k s) t1) (told-Ends P))

  pub relays-Ends :
      (P : Stage) (c : Collecting B)
      → ((sent : SentLocalRelays B) → Moves P P (set_sent_local_relays sent))
      → In P c
      → Ends P (send_relays crypto serialize_address address_eq pk c)
  unfolding send_relays
  relays-Ends P c k t =
      rw (send_relays, friend_there P c t)
        (announce-Ends P
          (new_sent_relays address_eq c.m_state.state.relays t.friend.sent_local_relays) c k t)
