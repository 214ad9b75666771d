-- ===== src/Funder/Canceler/Logged.antt =====
-- components/funder/src/handler/canceler.rs: cancellations, and the list of mutations.
use offst.Prelude.{ℕ, ◌≡◌, List, [], ◌∷◌, Option, none, some, Option-cases, inl, inr}
use offst.Prelude.Dict.{get}
use mathlib.Core.Path.{subst}
use offst.Crypto.{Crypto, PublicKey, Uid}
use offst.Messages.{RequestSendFundsOp}
use offst.Funder.Action.{
  Keeps, then-Keeps, both-Keeps, pure-Keeps, gets-Keeps, gets_unwrap-Keeps, change-Keeps,
  alter-Keeps,
}
use offst.Funder.Friend.{pop_front_pending_request, pop_front_pending_user_request}
use offst.Funder.State.{FunderMutation, friend_mutation}
use offst.Funder.State
use offst.Funder.Wrap.{Source, mutate_wrapped}
use offst.Funder.Wrap.Recorded.{IsRecorded, mutate_wrapped-IsRecorded}
use offst.Funder.Utils.{find_request_origin}
use offst.Funder.Canceler.{
  Canceling, store_canceling, payment_mutation, less_transactions, mutate_canceling,
  remove_transaction, cancel_to, cancel_requests, cancel_pending_requests, cancel_user_requests,
  cancel_pending_user_requests,
}

module _ {B : Type 0} (crypto : Crypto) (serialize_address : B → List ℕ) (source : Source) where
  abbrev pub Logged : Canceling B → Type 0
  Logged c = IsRecorded crypto serialize_address c.m_state

  mutates :
      (fm : FunderMutation B) → Keeps Logged (mutate_canceling crypto serialize_address source fm)
  mutates fm = change-Keeps stored
    where
      same : {x y : Canceling B} → some x ≡ some y → x ≡ y
      same h = cc h

      stored :
          (c d : Canceling B)
          → Logged c
          → store_canceling c (mutate_wrapped crypto serialize_address fm c.m_state) ≡ some d
          → Logged d
      stored c d r e = elim (Option-cases (mutate_wrapped crypto serialize_address fm c.m_state)) [
        | inl z ↦ absurd (cc (rw z at e))
        | inr (m, z) ↦
            subst Logged (same (rw z at e))
              (mutate_wrapped-IsRecorded crypto serialize_address fm c.m_state m r z)
      ]

  removes : (id : Uid) → Keeps Logged (remove_transaction crypto serialize_address source id)
  unfolding remove_transaction
  removes id = then-Keeps (gets_unwrap-Keeps (λ c. get id c.m_state.state.open_transactions)) (λ t.
      then-Keeps (gets_unwrap-Keeps (λ c. get t.payment_id c.m_state.state.payments)) (λ payment.
        both-Keeps (mutates (State.remove_transaction id)) (
          then-Keeps (gets_unwrap-Keeps (λ c. less_transactions (source.random c.drawn) payment))
            (λ p.
              both-Keeps (alter-Keeps (λ c r. r)) (mutates (payment_mutation t.payment_id p))))))

  ends :
      (id : Uid) (o : Option PublicKey)
      → Keeps Logged (cancel_to crypto serialize_address source id o)
  ends id none = both-Keeps (alter-Keeps (λ c r. r)) (removes id)
  ends id (some origin) = both-Keeps (mutates _) (alter-Keeps (λ c r. r))

  requests :
      (pk : PublicKey) (rs : List RequestSendFundsOp)
      → Keeps Logged (cancel_requests crypto serialize_address source pk rs)
  unfolding cancel_requests
  requests pk [] = pure-Keeps
  requests pk (r ∷ rest) =
      both-Keeps
        (both-Keeps (mutates (friend_mutation pk pop_front_pending_request)) (
          then-Keeps (gets-Keeps (λ c. find_request_origin c.m_state.state r.request_id))
            (ends r.request_id)))
        (requests pk rest)

  user_requests :
      (pk : PublicKey) (rs : List RequestSendFundsOp)
      → Keeps Logged (cancel_user_requests crypto serialize_address source pk rs)
  unfolding cancel_user_requests
  user_requests pk [] = pure-Keeps
  user_requests pk (r ∷ rest) =
      both-Keeps
        (both-Keeps
          (both-Keeps (mutates (friend_mutation pk pop_front_pending_user_request))
            (alter-Keeps (λ c l. l)))
          (removes r.request_id))
        (user_requests pk rest)

  pub all_requests-Keeps :
      (pk : PublicKey)
      → Keeps Logged (cancel_pending_requests crypto serialize_address source pk)
        × Keeps Logged (cancel_pending_user_requests crypto serialize_address source pk)
  all_requests-Keeps pk = (
    then-Keeps (gets_unwrap-Keeps (λ c. get pk c.m_state.state.friends))
        (λ f. requests pk f.pending_requests),
    then-Keeps (gets_unwrap-Keeps (λ c. get pk c.m_state.state.friends))
        (λ f. user_requests pk f.pending_user_requests),
  )
