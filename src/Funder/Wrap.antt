-- ===== src/Funder/Wrap.antt =====
-- components/funder/src/handler/state_wrap.rs: the state with the mutations that were applied to it.
-- The random values and the signatures of the identity server are parameters.
pub mod Recorded
use offst.Prelude.{ℕ, ◌+◌, List, [], ◌∷◌, ◌++◌, Option, none, some, reverse}
use offst.Crypto.{Crypto, PublicKey, Signature, HashedLock, RandValue, PlainLock, hash_lock}
use offst.Messages.{PendingTransaction, ResponseSendFundsOp}
use offst.Buffers.{create_response_signature_buffer}
use offst.Funder.Friend.{BackwardsOp, push_back_pending_backwards_op}
use offst.Funder.State.{
  FunderState, FunderMutation, friend_mutation, add_incoming_transaction, mutate_state,
}
use offst.Funder.Liveness.{Ephemeral, EphemeralMutation, mutate_ephemeral}

pub record SemiResponse : Type 0 where
  pub friend_public_key : PublicKey
  pub pending_transaction : PendingTransaction

pub record MutableFunderState (B : Type 0) : Type 0 where
  pub initial_state : FunderState B
  pub state : FunderState B
  pub unsigned_responses : List SemiResponse
  pub mutations : List (FunderMutation B)

-- What the handlers take from the random source, the nth value drawn, and from the identity server.
pub record Source : Type 0 where
  pub random : ℕ → ℕ
  pub request_signature : List ℕ → Signature

-- components/funder/src/types.rs: `create_response_send_funds`
unfoldable pub create_response_send_funds :
    Crypto → Source → PendingTransaction → HashedLock → RandValue → ResponseSendFundsOp Signature
create_response_send_funds crypto source t dest_hashed_lock rand_nonce =
    let u : ResponseSendFundsOp (Unit {0}) = record {
      request_id = t.request_id;
      dest_hashed_lock = dest_hashed_lock;
      rand_nonce = rand_nonce;
      signature = tt;
    } in
    record {
      request_id = u.request_id;
      dest_hashed_lock = u.dest_hashed_lock;
      rand_nonce = u.rand_nonce;
      signature = source.request_signature (create_response_signature_buffer crypto u t);
    }

module _ {B : Type 0} where
  abbrev pub new_mutable : FunderState B → MutableFunderState B
  new_mutable s = record { initial_state = s; state = s; unsigned_responses = []; mutations = [] }

  -- `pop` of a vector takes the last.
  abbrev pub queue_unsigned_response :
      PublicKey → PendingTransaction → MutableFunderState B → MutableFunderState B
  queue_unsigned_response pk t m = record m {
    unsigned_responses =
        m.unsigned_responses ++ record { friend_public_key = pk; pending_transaction = t } ∷ [];
  }

  abbrev pub store_mutated :
      FunderMutation B
      → MutableFunderState B
      → Option (FunderState B)
      → Option (MutableFunderState B)
  store_mutated fm m none = none
  store_mutated fm m (some s) = some (record m { state = s; mutations = m.mutations ++ fm ∷ [] })

  abbrev pub done :
      MutableFunderState B → Option (FunderState B × List (FunderMutation B) × FunderState B)
  done m = elim m.unsigned_responses [
    | [] ↦ some (m.initial_state, m.mutations, m.state)
    | u ∷ us ↦ none
  ]

  module _ (crypto : Crypto) (serialize_address : B → List ℕ) where
    -- `MutableFunderState::mutate`; `none` is a panic.
    unfoldable pub mutate_wrapped :
        FunderMutation B → MutableFunderState B → Option (MutableFunderState B)
    mutate_wrapped fm m = store_mutated fm m (mutate_state crypto serialize_address fm m.state)

    -- The mutations of the list, in order.
    unfoldable pub replay_state : List (FunderMutation B) → FunderState B → Option (FunderState B)
    replay_state [] s = some s
    replay_state (fm ∷ fms) s = elim (mutate_state crypto serialize_address fm s) [
      | none ↦ none
      | some t ↦ replay_state fms t
    ]

    abbrev pub bind_mutable : {A C : Type 0} → Option A → (A → Option C) → Option C
    bind_mutable none f = none
    bind_mutable (some a) f = f a

    -- `sign_responses`, for responses in the order in which they are popped: each draws a plain lock
    -- and a nonce. The number of values drawn so far goes along.
    unfoldable pub sign_popped :
        Source → ℕ → List SemiResponse → MutableFunderState B → Option (MutableFunderState B)
    sign_popped source n [] m = some m
    sign_popped source n (u ∷ us) m =
        let dest_plain_lock = source.random n in
        let r =
          create_response_send_funds crypto source u.pending_transaction
            (hash_lock crypto dest_plain_lock) (source.random (n + 1)) in
        bind_mutable
          (mutate_wrapped
            (friend_mutation u.friend_public_key
              (push_back_pending_backwards_op (BackwardsOp.response r)))
            m)
          (λ m1.
            bind_mutable
              (mutate_wrapped
                (add_incoming_transaction u.pending_transaction.invoice_id
                  u.pending_transaction.request_id dest_plain_lock)
                m1)
              (sign_popped source (n + 2) us))

    abbrev pub sign_responses : Source → ℕ → MutableFunderState B → Option (MutableFunderState B)
    sign_responses source n m =
        sign_popped source n (reverse m.unsigned_responses) (record m { unsigned_responses = [] })
