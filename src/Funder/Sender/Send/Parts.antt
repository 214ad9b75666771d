-- ===== src/Funder/Sender/Send/Parts.antt =====
-- components/funder/src/handler/sender.rs: what `create_friend_messages` changes, its reads and writes
-- of the state, the estimate of what there is to send, and the running of a collection.
use offst.Prelude.{
  ℕ, suc, Bool, true, false, not, ◌&&◌, ◌||◌, List, [], ◌∷◌, ◌++◌, Option, none, some, ◌==◌,
}
use offst.Prelude.Dict.{Dict, get, insert}
use offst.Prelude.Outcome.{Outcome, ok, err, panic}
use offst.Crypto.{PublicKey, Signature}
use offst.Messages.{MoveToken, RelayAddress}
use offst.TokenChannel.{TokenChannel, TcDirection, TcIncoming, TcOutgoing}
use offst.Funder.Action.{Action, gets_unwrap, change, ◌>>=◌}
use offst.Funder.Messages.{
  TransactionResult, ChannelerConfig, FriendMessage, move_token_request, relays_eq, status_eq,
}
use offst.Funder.Friend.{
  FriendState, ChannelStatus, consistent, inconsistent, SentLocalRelays, never_sent, transition,
  last_sent,
}
use offst.Funder.State.{FunderState}
use offst.Funder.Wrap.{MutableFunderState, Source}
use offst.Funder.Utils.{credit_with}
use offst.Funder.Sender.{PendingMoveToken, Collecting, CollectOutgoingError}
use offst.Funder.Sender.Collect.{Collect}

-- What `create_friend_messages` changes, with how many random values were drawn.
pub record Sending (B : Type 0) : Type 0 where
  pub m_state : MutableFunderState B
  pub pending_move_tokens : Dict (PendingMoveToken B)
  pub cancel_public_keys : List PublicKey
  pub outgoing_messages : List (PublicKey × FriendMessage B)
  pub outgoing_control : List TransactionResult
  pub outgoing_channeler_config : List (ChannelerConfig (RelayAddress B))
  pub drawn : ℕ

-- No error ends these functions.
abbrev pub Send : Type 0 → Type 0 → Type 0
Send B A = Action (Sending B) ⊥ A

abbrev pub is_empty : {A : Type 0} → List A → Bool
is_empty [] = true
is_empty (x ∷ xs) = false

module _ {B : Type 0} where
  -- `TokenChannel` of a consistent channel; the side that holds the token, and the other.
  abbrev pub channel_of : ChannelStatus B → Option (TokenChannel B)
  channel_of (inconsistent c) = none
  channel_of (consistent tc) = some tc

  abbrev pub incoming_of : TcDirection B → Option TcIncoming
  incoming_of (TcDirection.incoming t) = some t
  incoming_of (TcDirection.outgoing t) = none

  abbrev pub outgoing_of : TcDirection B → Option (TcOutgoing B)
  outgoing_of (TcDirection.incoming t) = none
  outgoing_of (TcDirection.outgoing t) = some t

  abbrev pub friend_of : PublicKey → Send B (FriendState B)
  friend_of pk = gets_unwrap (λ s. get pk s.m_state.state.friends)

  abbrev pub unwrap_with : {A : Type 0} → Option A → Send B A
  unwrap_with o = gets_unwrap (λ s. o)

  abbrev pub push_message : PublicKey → FriendMessage B → Send B (Unit {0})
  push_message pk message =
      change
        (λ s. some (record s { outgoing_messages = s.outgoing_messages ++ (pk, message) ∷ [] }))

  -- The next random value.
  abbrev pub draw : Source → Send B ℕ
  draw source s = (ok (source.random s.drawn), record s { drawn = suc s.drawn })

  abbrev pub store_sending : Sending B → Option (MutableFunderState B) → Option (Sending B)
  store_sending s none = none
  store_sending s (some m) = some (record s { m_state = m })

  abbrev pub sent_request : MoveToken B Signature → Bool → FriendMessage B
  sent_request token wanted =
      move_token_request (record { friend_move_token = token; token_wanted = wanted })

  abbrev pub some_relays : Option (List (RelayAddress B)) → Bool
  some_relays none = false
  some_relays (some relays) = true

  abbrev pub stale_relays : (B → B → Bool) → FunderState B → SentLocalRelays B → Bool
  stale_relays address_eq s never_sent = true
  stale_relays address_eq s (transition relays before) = not (relays_eq address_eq relays s.relays)
  stale_relays address_eq s (last_sent relays) = not (relays_eq address_eq relays s.relays)

  -- The mutual credit is not as the user wants it.
  abbrev pub unwanted_credit : FriendState B → Bool
  unwanted_credit f = elim (credit_with f.channel_status) [
    | none ↦ false
    | some mc ↦
        not (f.wanted_remote_max_debt == mc.balance.remote_max_debt)
        || not (status_eq f.wanted_local_requests_status mc.requests_status.local)
  ]

  abbrev pub estimate_should_send : (B → B → Bool) → FunderState B → FriendState B → Bool
  estimate_should_send address_eq s f =
      stale_relays address_eq s f.sent_local_relays
      || (unwanted_credit f
          || (not (is_empty f.pending_backwards_ops)
              || (not (is_empty f.pending_requests) || not (is_empty f.pending_user_requests))))

  abbrev pub transmit_outgoing : PublicKey → Bool → Send B (Unit {0})
  transmit_outgoing pk token_wanted = do
    f ← friend_of pk
    tc ← unwrap_with (channel_of f.channel_status)
    out ← unwrap_with (outgoing_of tc.direction)
    push_message pk (sent_request out.move_token_out token_wanted)

  -- The part of the state that collecting changes, and back.
  abbrev pub collecting : Sending B → PendingMoveToken B → Collecting B
  collecting s p = record {
    m_state = s.m_state;
    pending_move_token = p;
    cancel_public_keys = s.cancel_public_keys;
    outgoing_control = s.outgoing_control;
    outgoing_channeler_config = s.outgoing_channeler_config;
  }

  abbrev pub collected : PublicKey → Sending B → Collecting B → Sending B
  collected pk s c = record s {
    m_state = c.m_state;
    pending_move_tokens = insert pk c.pending_move_token s.pending_move_tokens;
    cancel_public_keys = c.cancel_public_keys;
    outgoing_control = c.outgoing_control;
    outgoing_channeler_config = c.outgoing_channeler_config;
  }

  -- The same without the keys and the control messages, which go to dummies.
  abbrev pub collected_cancels : PublicKey → Sending B → Collecting B → Sending B
  collected_cancels pk s c = record s {
    m_state = c.m_state;
    pending_move_tokens = insert pk c.pending_move_token s.pending_move_tokens;
  }

  -- `let _ = ...`: an error is dropped.
  abbrev pub drop_error :
      (Collecting B → Sending B)
      → Outcome CollectOutgoingError (Unit {0}) × Collecting B
      → Outcome ⊥ (Unit {0}) × Sending B
  drop_error back (ok u, c) = (ok tt, back c)
  drop_error back (err e, c) = (ok tt, back c)
  drop_error back (panic, c) = (panic, back c)

  abbrev pub with_pending :
      (PublicKey → Sending B → Collecting B → Sending B) → PublicKey → Collect B → Send B (Unit {0})
  with_pending back pk act s = elim (get pk s.pending_move_tokens) [
    | none ↦ (panic, s)
    | some p ↦ drop_error (back pk s) (act (collecting s p))
  ]

  abbrev pub insert_pending : PublicKey → PendingMoveToken B → Send B (Unit {0})
  insert_pending pk p =
      change (λ s. some (record s { pending_move_tokens = insert pk p s.pending_move_tokens }))

  -- Nothing to say, and no need to say so.
  abbrev pub nothing_to_send : PendingMoveToken B → Bool
  nothing_to_send p =
      is_empty p.operations && (not (some_relays p.opt_local_relays) && not p.may_send_empty)
