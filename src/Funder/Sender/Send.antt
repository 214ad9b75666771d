-- ===== src/Funder/Sender/Send.antt =====
-- components/funder/src/handler/sender.rs: the messages to the friends. Sets and maps are gone through
-- in the order of their lists; the random values and the signatures come from a source.
pub mod Parts
use offst.Prelude.{
  ℕ, suc, Bool, true, false, not, ◌&&◌, ◌||◌, List, [], ◌∷◌, ◌++◌, Option, none, some, ◌==◌,
  if◌then◌else◌,
}
use offst.Prelude.Dict.{Dict, get, insert, contains_key}
use offst.Prelude.Outcome.{Outcome, ok, err, panic}
use offst.Crypto.{Crypto, PublicKey, Signature}
use offst.Messages.{MoveToken, RelayAddress}
use offst.Buffers.{move_token_signature_buff}
use offst.TokenChannel.{
  TokenChannel, TcDirection, TcIncoming, TcOutgoing, TcMutation, SetDirection, create_unsigned,
  create_unsigned_move_token, sign_move_token, checked_neg,
}
use offst.TokenChannel.Create.{new_from_local_reset}
use offst.Funder.Action.{Action, pure, gets, gets_unwrap, change, ◌>>=◌, ◌>>◌}
use offst.Funder.Messages.{
  TransactionResult, ChannelerConfig, FriendMessage, move_token_request, inconsistency_error,
  relays_eq, status_eq,
}
use offst.Funder.Friend.{
  FriendState, FriendMutation, ChannelStatus, ChannelInconsistent, consistent, inconsistent,
  SentLocalRelays, never_sent, transition, last_sent, tc_mutation, set_consistent,
}
use offst.Funder.State.{FunderState, friend_mutation}
use offst.Funder.Liveness.{Ephemeral, is_online}
use offst.Funder.Wrap.{MutableFunderState, Source, mutate_wrapped}
use offst.Funder.Utils.{credit_with}
use offst.Funder.Sender.{
  FriendSendCommands, SendCommands, PendingMoveToken, Collecting, CollectOutgoingError, new_pending,
}
use offst.Funder.Sender.Collect.{Collect, collect_outgoing_move_token, append_cancels_to_move_token}
pub use offst.Funder.Sender.Send.Parts.{
  Send, is_empty, channel_of, incoming_of, outgoing_of, friend_of, unwrap_with, push_message, draw,
  store_sending, sent_request, some_relays, stale_relays, unwanted_credit, estimate_should_send,
  transmit_outgoing, collecting, collected, collected_cancels, drop_error, with_pending,
  insert_pending, nothing_to_send, Sending,
}

module _ {B : Type 0} (crypto : Crypto) (serialize_address : B → List ℕ) (address_eq : B → B → Bool)
    (source : Source) (max_operations_in_batch : ℕ) (ephemeral : Ephemeral) where
  abbrev pub mutate_sending : PublicKey → FriendMutation B → Send B (Unit {0})
  mutate_sending pk fm = change (λ s.
      store_sending s (mutate_wrapped crypto serialize_address (friend_mutation pk fm) s.m_state))

  -- `sign_move_token`
  abbrev pub signed : MoveToken B (Unit {0}) → MoveToken B Signature
  signed u =
      sign_move_token u
        (source.request_signature (move_token_signature_buff crypto serialize_address u))

  unfoldable pub apply_local_reset : PublicKey → ChannelInconsistent → Send B (Unit {0})
  apply_local_reset pk c = do
    terms ← unwrap_with c.opt_remote_reset_terms
    rand_nonce ← draw source
    local_public_key ← gets (λ s. s.m_state.state.local_public_key)
    balance ← unwrap_with (checked_neg terms.balance_for_reset)
    let token = signed (
        create_unsigned_move_token [] none terms.reset_token local_public_key pk
          terms.inconsistency_counter 0 balance 0 0 rand_nonce)
    mutate_sending pk (
        set_consistent (
          new_from_local_reset crypto serialize_address local_public_key pk token balance
            c.opt_last_incoming_move_token))

  abbrev pub reset_if : Bool → PublicKey → ChannelStatus B → Send B (Unit {0})
  reset_if true pk (inconsistent c) = apply_local_reset pk c
  reset_if true pk (consistent tc) = pure tt
  reset_if false pk status = pure tt

  -- From the direction of a consistent channel on.
  abbrev pub send_direction : PublicKey → FriendSendCommands → TcDirection B → Send B (Unit {0})
  send_direction pk commands (TcDirection.outgoing out) = do
    f ← friend_of pk
    state ← gets (λ s. s.m_state.state)
    if estimate_should_send address_eq state f
        then transmit_outgoing pk true
        else if commands.resend_outgoing
        then transmit_outgoing pk (some_relays out.move_token_out.opt_local_relays)
        else pure tt
  send_direction pk commands (TcDirection.incoming inc) = do
    insert_pending pk (
        new_pending pk inc.mutual_credit max_operations_in_batch
          (commands.resend_outgoing || commands.remote_wants_token))
    with_pending collected pk (collect_outgoing_move_token crypto serialize_address address_eq pk)

  abbrev pub send_status : PublicKey → FriendSendCommands → ChannelStatus B → Send B (Unit {0})
  send_status pk commands (consistent tc) = send_direction pk commands tc.direction
  send_status pk commands (inconsistent c) =
      if commands.resend_outgoing || commands.try_send
      then push_message pk (inconsistency_error c.local_reset_terms)
      else pure tt

  unfoldable pub send_friend_iter1 : PublicKey → FriendSendCommands → Send B (Unit {0})
  send_friend_iter1 pk commands =
      if not commands.try_send
        && (not commands.resend_outgoing
            && (not commands.remote_wants_token && not commands.local_reset))
      then pure tt
      else (do
        f ← friend_of pk
        reset_if commands.local_reset pk f.channel_status
        g ← friend_of pk
        send_status pk commands g.channel_status)

  unfoldable pub send_move_token : PublicKey → PendingMoveToken B → Send B (Unit {0})
  send_move_token pk p = if nothing_to_send p then pure tt else (do
    f ← friend_of pk
    rand_nonce ← draw source
    tc ← unwrap_with (channel_of f.channel_status)
    inc ← unwrap_with (incoming_of tc.direction)
    let token = signed (create_unsigned inc p.operations p.opt_local_relays rand_nonce)
    mutate_sending pk (tc_mutation (TcMutation.set_direction (SetDirection.outgoing token)))
    g ← friend_of pk
    tc' ← unwrap_with (channel_of g.channel_status)
    out ← unwrap_with (outgoing_of tc'.direction)
    push_message pk
        (sent_request out.move_token_out (p.token_wanted || some_relays p.opt_local_relays)))

  -- `init_cancel_pending_move_token`, at one key of those that had no token when it began.
  abbrev pub init_direction : PublicKey → TcDirection B → Send B (Unit {0})
  init_direction pk (TcDirection.outgoing out) = pure tt
  init_direction pk (TcDirection.incoming inc) =
      insert_pending pk (new_pending pk inc.mutual_credit max_operations_in_batch false)

  unfoldable pub init_cancel_pending_move_token :
      Dict (PendingMoveToken B) → List PublicKey → Send B (Unit {0})
  init_cancel_pending_move_token had [] = pure tt
  init_cancel_pending_move_token had (pk ∷ pks) =
      (if not (is_online ephemeral.liveness pk) || contains_key pk had then pure tt else (do
        f ← friend_of pk
        tc ← unwrap_with (channel_of f.channel_status)
        init_direction pk tc.direction))
      >> init_cancel_pending_move_token had pks

  abbrev pub assert_online : PublicKey → Send B (Unit {0})
  assert_online pk s = if is_online ephemeral.liveness pk then (ok tt, s) else (panic, s)

  unfoldable pub first_iteration : Dict FriendSendCommands → Send B (Unit {0})
  first_iteration [] = pure tt
  first_iteration ((pk, commands) ∷ rest) =
      (if is_online ephemeral.liveness pk then send_friend_iter1 pk commands else pure tt)
      >> first_iteration rest

  unfoldable pub second_iteration : Dict (PendingMoveToken B) → Send B (Unit {0})
  second_iteration [] = pure tt
  second_iteration ((pk, p) ∷ rest) =
      assert_online pk
      >> with_pending collected_cancels pk
          (append_cancels_to_move_token crypto serialize_address address_eq pk)
      >> second_iteration rest

  unfoldable pub send_all : Dict (PendingMoveToken B) → Send B (Unit {0})
  send_all [] = pure tt
  send_all ((pk, p) ∷ rest) = assert_online pk >> send_move_token pk p >> send_all rest

  unfoldable pub create_friend_messages : SendCommands → Send B (Unit {0})
  create_friend_messages commands = do
    first_iteration commands.send_commands
    keys ← gets (λ s. s.cancel_public_keys)
    had ← gets (λ s. s.pending_move_tokens)
    init_cancel_pending_move_token had keys
    tokens ← gets (λ s. s.pending_move_tokens)
    second_iteration tokens
    ready ← gets (λ s. s.pending_move_tokens)
    send_all ready
