-- ===== src/Funder/Sender/Stages.antt =====
-- components/funder/src/handler/sender.rs: the stages of `collect_outgoing_move_token`.
use offst.Prelude.{◌≡◌, ◌⊎◌, refl, List, [], ◌∷◌, ◌++◌, inl, inr}
use mathlib.Core.Path.{subst}
use offst.Messages.{FriendTcOp, RequestSendFundsOp}
use offst.Funder.Friend.{BackwardsOp, ChannelStatus, FriendState, pop_front}
use offst.Funder.Sender.{to_friend_tc_op}
use offst.Funder.Sender.Tracks.{IsIn}

IsIn-append : {A : Type 0} (x : A) (xs ys : List A) → IsIn x xs → IsIn x (xs ++ ys)
IsIn-append x [] ys i = absurd i
IsIn-append x (y ∷ xs) ys (inl e) = inl e
IsIn-append x (y ∷ xs) ys (inr i) = inr (IsIn-append x xs ys i)

IsIn-last : {A : Type 0} (x : A) (xs : List A) → IsIn x (xs ++ x ∷ [])
IsIn-last x [] = inl refl
IsIn-last x (y ∷ xs) = inr (IsIn-last x xs)

pub IsIn-pop : {A : Type 0} (x : A) (xs : List A) → IsIn x (pop_front xs) → IsIn x xs
IsIn-pop x [] i = i
IsIn-pop x (y ∷ ys) i = inr i

module _ {B : Type 0} (f0 : FriendState B) where
  -- A state of the friend since `f0`: the wishes are the same, and no request was added.
  pub record Since (f : FriendState B) : Type 0 where
    pub max_debt : f.wanted_remote_max_debt ≡ f0.wanted_remote_max_debt
    pub status : f.wanted_local_requests_status ≡ f0.wanted_local_requests_status
    pub requests : (r : RequestSendFundsOp) → IsIn r f.pending_requests → IsIn r f0.pending_requests
    pub user_requests :
        (r : RequestSendFundsOp) → IsIn r f.pending_user_requests → IsIn r f0.pending_user_requests

  -- The backwards operations that wait are in the list, or in the pending token.
  abbrev pub Sent : List BackwardsOp → List FriendTcOp → Type 0
  Sent bs ops =
      (op : BackwardsOp)
      → IsIn op f0.pending_backwards_ops
      → IsIn op bs ⊎ IsIn (to_friend_tc_op op) ops

  abbrev pub AllSent : List FriendTcOp → Type 0
  AllSent ops =
      (op : BackwardsOp) → IsIn op f0.pending_backwards_ops → IsIn (to_friend_tc_op op) ops

  -- The stages: before the queues, in the queue of backwards operations, before and after one of them
  -- is popped, and in the two queues of requests.
  abbrev pub Early : FriendState B → List FriendTcOp → Type 0
  Early f ops = Since f × (f.pending_backwards_ops ≡ f0.pending_backwards_ops)

  abbrev pub Back : List BackwardsOp → FriendState B → List FriendTcOp → Type 0
  Back bs f ops = Since f × (f.pending_backwards_ops ≡ bs) × Sent bs ops

  abbrev pub Taken : BackwardsOp → List BackwardsOp → FriendState B → List FriendTcOp → Type 0
  Taken b bs f ops = Since f × (f.pending_backwards_ops ≡ b ∷ bs) × Sent bs ops

  abbrev pub Forward : List RequestSendFundsOp → FriendState B → List FriendTcOp → Type 0
  Forward rs f ops = Since f × AllSent ops × (f.pending_requests ≡ rs)

  abbrev pub Own : List RequestSendFundsOp → FriendState B → List FriendTcOp → Type 0
  Own rs f ops = Since f × AllSent ops × (f.pending_requests ≡ []) × (f.pending_user_requests ≡ rs)

  -- No request waits any more, and every backwards operation that waited is in the pending token.
  abbrev pub Drained : FriendState B → List FriendTcOp → Type 0
  Drained = Own []

  pub Sent-more :
      (b : BackwardsOp) (bs : List BackwardsOp) (ops : List FriendTcOp)
      → Sent (b ∷ bs) ops
      → Sent bs (ops ++ to_friend_tc_op b ∷ [])
  Sent-more b bs ops h op i = elim (h op i) [
    | inl (inl e) ↦ inr (
        subst (λ (x : BackwardsOp). IsIn (to_friend_tc_op x) (ops ++ to_friend_tc_op b ∷ [])) e
          (IsIn-last (to_friend_tc_op b) ops))
    | inl (inr rest) ↦ inl rest
    | inr done ↦ inr (IsIn-append (to_friend_tc_op op) ops (to_friend_tc_op b ∷ []) done)
  ]

  pub AllSent-more :
      (op : FriendTcOp) (ops : List FriendTcOp) → AllSent ops → AllSent (ops ++ op ∷ [])
  AllSent-more op ops h b i = IsIn-append (to_friend_tc_op b) ops (op ∷ []) (h b i)

  pub Since-channel :
      (f : FriendState B) (s : ChannelStatus B) → Since f → Since (record f { channel_status = s })
  Since-channel f s h = record {
    max_debt = h.max_debt;
    status = h.status;
    requests = h.requests;
    user_requests = h.user_requests;
  }

  pub Since-backwards :
      (f : FriendState B) (ops : List BackwardsOp)
      → Since f
      → Since (record f { pending_backwards_ops = ops })
  Since-backwards f ops h = record {
    max_debt = h.max_debt;
    status = h.status;
    requests = h.requests;
    user_requests = h.user_requests;
  }
