-- ===== src/Funder/Sender/StageSteps.antt =====
-- components/funder/src/handler/sender.rs: how the mutations of a friend and the operations that are
-- queued lead from one stage to the next.
use offst.Prelude.{ℕ, ◌≡◌, ◌≢◌, refl, ap, Bool, List, [], ◌∷◌, ◌++◌}
use offst.Crypto.{Crypto, PublicKey}
use offst.Messages.{FriendTcOp, RequestSendFundsOp, RequestsStatus}
use offst.MutualCredit.{MutualCredit}
use offst.TokenChannel.{MoveTokenHashed}
use offst.Funder.Friend.{
  BackwardsOp, FriendState, SentLocalRelays, set_sent_local_relays, mutate_friend, pop_front,
  pop_front_pending_backwards_op, pop_front_pending_request, pop_front_pending_user_request,
}
use offst.Funder.Sender.{to_friend_tc_op}
use offst.Funder.Sender.Collect.{status_op}
use offst.Funder.Sender.Tracks.{
  KeepsChannel, AllowsQueueing, IsIn, Due, due_opened, due_closed, due_backwards,
}
use offst.Funder.Sender.Stages.{
  Since, Early, Back, Taken, Forward, Own, IsIn-pop, Since-channel, Since-backwards, Sent-more,
  AllSent-more,
}

module _ {B : Type 0} (crypto : Crypto) (serialize_address : B → List ℕ) (address_eq : B → B → Bool)
    (pk : PublicKey) (mt : MoveTokenHashed) (start : MutualCredit) (max : ℕ)
    (f0 : FriendState B) where
  pub sent-Keeps :
      (sent : SentLocalRelays B)
      → KeepsChannel crypto serialize_address pk mt start max
          (Since f0)
          (Due f0)
          (Early f0)
          (Early f0)
          (set_sent_local_relays sent)
  unfolding mutate_friend
  sent-Keeps sent f = (
    record f { sent_local_relays = sent },
    refl,
    refl,
    λ ops h. (
      record {
        max_debt = h.0.max_debt;
        status = h.0.status;
        requests = h.0.requests;
        user_requests = h.0.user_requests;
      },
      h.1,
    ),
  )

  pub backwards-Keeps :
      (b : BackwardsOp) (bs : List BackwardsOp)
      → KeepsChannel crypto serialize_address pk mt start max
          (Since f0)
          (Due f0)
          (Taken f0 b bs)
          (Back f0 bs)
          pop_front_pending_backwards_op
  unfolding mutate_friend
  backwards-Keeps b bs f = (
    record f { pending_backwards_ops = pop_front f.pending_backwards_ops },
    refl,
    refl,
    λ ops h. (Since-backwards f0 f (pop_front f.pending_backwards_ops) h.0, ap pop_front h.1, h.2),
  )

  pub request-Keeps :
      (r : RequestSendFundsOp) (rs : List RequestSendFundsOp)
      → KeepsChannel crypto serialize_address pk mt start max
          (Since f0)
          (Due f0)
          (Forward f0 (r ∷ rs))
          (Forward f0 rs)
          pop_front_pending_request
  unfolding mutate_friend
  request-Keeps r rs f = (
    record f { pending_requests = pop_front f.pending_requests },
    refl,
    refl,
    λ ops h. (
      record {
        max_debt = h.0.max_debt;
        status = h.0.status;
        requests = λ q i. h.0.requests q (IsIn-pop q f.pending_requests i);
        user_requests = h.0.user_requests;
      },
      h.1,
      ap pop_front h.2,
    ),
  )

  pub user_request-Keeps :
      (r : RequestSendFundsOp) (rs : List RequestSendFundsOp)
      → KeepsChannel crypto serialize_address pk mt start max
          (Since f0)
          (Due f0)
          (Own f0 (r ∷ rs))
          (Own f0 rs)
          pop_front_pending_user_request
  unfolding mutate_friend
  user_request-Keeps r rs f = (
    record f { pending_user_requests = pop_front f.pending_user_requests },
    refl,
    refl,
    λ ops h. (
      record {
        max_debt = h.0.max_debt;
        status = h.0.status;
        requests = h.0.requests;
        user_requests = λ q i. h.0.user_requests q (IsIn-pop q f.pending_user_requests i);
      },
      h.1,
      h.2,
      ap pop_front h.3,
    ),
  )

  -- Only a request is canceled.
  pub Early-allows :
      (op : FriendTcOp)
      → ((r : RequestSendFundsOp) → op ≢ FriendTcOp.request_send_funds r)
      → Due f0 op
      → AllowsQueueing crypto serialize_address pk mt start max
          (Since f0)
          (Due f0)
          (Early f0)
          (Early f0)
          op
  Early-allows op n due = record {
    taken = λ f s ops h. (Since-channel f0 f s h.0, h.1);
    told = λ r is f ops h. absurd (n r is);
    pushed = λ r is b f ops h. absurd (n r is);
    weaker = λ f ops h. h.0;
    due = due;
  }

  backwards_no_request :
      (op : BackwardsOp) (r : RequestSendFundsOp)
      → to_friend_tc_op op ≢ FriendTcOp.request_send_funds r
  backwards_no_request (BackwardsOp.response a) r h = cc h
  backwards_no_request (BackwardsOp.cancel a) r h = cc h
  backwards_no_request (BackwardsOp.collect a) r h = cc h

  pub Back-allows :
      (b : BackwardsOp) (bs : List BackwardsOp)
      → IsIn b f0.pending_backwards_ops
      → AllowsQueueing crypto serialize_address pk mt start max
          (Since f0)
          (Due f0)
          (Back f0 (b ∷ bs))
          (Taken f0 b bs)
          (to_friend_tc_op b)
  Back-allows b bs i = record {
    taken = λ f s ops h. (Since-channel f0 f s h.0, h.1, Sent-more f0 b bs ops h.2);
    told = λ r is f ops h. absurd (backwards_no_request b r is);
    pushed = λ r is x f ops h. absurd (backwards_no_request b r is);
    weaker = λ f ops h. h.0;
    due = due_backwards b i;
  }

  pub Forward-allows :
      (r : RequestSendFundsOp) (rs : List RequestSendFundsOp)
      → Due f0 (FriendTcOp.request_send_funds r)
      → AllowsQueueing crypto serialize_address pk mt start max
          (Since f0)
          (Due f0)
          (Forward f0 rs)
          (Forward f0 rs)
          (FriendTcOp.request_send_funds r)
  Forward-allows r rs due = record {
    taken = λ f s ops h.
        (Since-channel f0 f s h.0, AllSent-more f0 (FriendTcOp.request_send_funds r) ops h.1, h.2);
    told = λ q is f ops h. h;
    pushed =
        λ q is b f ops h. (Since-backwards f0 f (f.pending_backwards_ops ++ b ∷ []) h.0, h.1, h.2);
    weaker = λ f ops h. h.0;
    due = due;
  }

  pub Own-allows :
      (r : RequestSendFundsOp) (rs : List RequestSendFundsOp)
      → Due f0 (FriendTcOp.request_send_funds r)
      → AllowsQueueing crypto serialize_address pk mt start max
          (Since f0)
          (Due f0)
          (Own f0 rs)
          (Own f0 rs)
          (FriendTcOp.request_send_funds r)
  Own-allows r rs due = record {
    taken = λ f s ops h. (
      Since-channel f0 f s h.0,
      AllSent-more f0 (FriendTcOp.request_send_funds r) ops h.1,
      h.2,
      h.3,
    );
    told = λ q is f ops h. h;
    pushed = λ q is b f ops h.
        (Since-backwards f0 f (f.pending_backwards_ops ++ b ∷ []) h.0, h.1, h.2, h.3);
    weaker = λ f ops h. h.0;
    due = due;
  }

  pub Due-status :
      (s : RequestsStatus)
      → f0.wanted_local_requests_status ≡ s
      → Due f0 (status_op crypto serialize_address address_eq pk s)
  Due-status RequestsStatus.opened h = due_opened h
  Due-status RequestsStatus.closed h = due_closed h

  pub status_no_request :
      (s : RequestsStatus) (r : RequestSendFundsOp)
      → status_op crypto serialize_address address_eq pk s ≢ FriendTcOp.request_send_funds r
  status_no_request RequestsStatus.opened r h = cc h
  status_no_request RequestsStatus.closed r h = cc h
