-- ===== src/Funder/Sender/Delivered.antt =====
-- components/funder/src/handler/sender.rs: the sending of a move token, and its receipt by the friend.
use offst.Prelude.{
  ℕ, suc, ◌+◌, ◌<◌, ◌≡◌, refl, ap, ◌∙◌, Bool, true, false, ◌||◌, List, [], ◌∷◌, ◌++◌, some, arith,
}
use offst.Prelude.Dict.{get, insert, get-insert}
use offst.Prelude.Outcome.{ok}
use offst.Crypto.{Crypto, PublicKey, Signature}
use offst.Messages.{FriendTcOp, MoveToken}
use offst.Buffers.{half128, verify_move_token, move_token_signature_buff}
use offst.MutualCredit.{MutualCredit, McMutation}
use offst.MutualCredit.Mirror.{ClosesOpen}
use offst.MutualCredit.Outgoing.{queue_operation}
use offst.TokenChannel.{
  TokenChannel, TcDirection, TcIncoming, TcOutgoing, TcMutation, SetDirection, create_unsigned,
  mutate_channel,
}
use offst.TokenChannel.Initial.{InStep}
use offst.TokenChannel.Receive.{ReceiveMoveTokenOutput, MoveTokenReceived, handle_incoming_out}
use offst.TokenChannel.Scan.{apply_channel}
use offst.TokenChannel.Sync.{Queues, none_queued, queued_next, exchange}
use offst.Funder.Friend.{FriendState, consistent, tc_mutation, mutate_friend}
use offst.Funder.State.{friend_mutation, mutate_state}
use offst.Funder.Liveness.{Ephemeral}
use offst.Funder.Wrap.{MutableFunderState, Source, mutate_wrapped}
use offst.Funder.Sender.{PendingMoveToken}
use offst.Funder.Sender.Queued.{HasFriend, holding}
use offst.Funder.Sender.Tracks.{Built, nothing, queued, repeated}
use offst.Funder.Sender.Send.{
  Sending, sent_request, some_relays, nothing_to_send, signed, send_move_token,
}

-- None of the operations was a request that was there already.
abbrev pub NoRepeat :
    {c : Crypto} {start : MutualCredit} {ops : List FriendTcOp} {mc : MutualCredit}
    → Built c start ops mc
    → Type 0
NoRepeat nothing = Unit {0}
NoRepeat (queued op ms b e closes) = NoRepeat b
NoRepeat (repeated op b e) = ⊥

Queues-snoc :
    (c : Crypto) (op : FriendTcOp) (ops : List FriendTcOp) (ms : List McMutation)
    {mc mc1 mc2 : MutualCredit}
    → Queues c ops mc mc1
    → queue_operation c op mc1 ≡ (ok ms, mc2)
    → ClosesOpen op mc1
    → Queues c (ops ++ op ∷ []) mc mc2
Queues-snoc c op [] ms none_queued e closes = queued_next ms e closes none_queued
Queues-snoc c op (o ∷ ops) ms (queued_next ns f closes0 q) e closes =
    queued_next ns f closes0 (Queues-snoc c op ops ms q e closes)

Built-Queues :
    (c : Crypto) (start : MutualCredit) {ops : List FriendTcOp} {mc : MutualCredit}
    (b : Built c start ops mc)
    → NoRepeat b
    → Queues c ops start mc
Built-Queues c start nothing n = none_queued
Built-Queues c start (queued {ops} op ms b e closes) n =
    Queues-snoc c op ops ms (Built-Queues c start b n) e closes
Built-Queues c start (repeated op b e) n = absurd n

module _ {B : Type 0} (crypto : Crypto) (serialize_address : B → List ℕ) (address_eq : B → B → Bool)
    (source : Source) (max : ℕ) (ephemeral : Ephemeral) (pk : PublicKey) where
  -- The token that is sent for the batch: signed, with the next random value.
  abbrev pub token_of : TcIncoming → PendingMoveToken B → ℕ → MoveToken B Signature
  token_of inc p drawn = signed crypto serialize_address address_eq source max ephemeral (
      create_unsigned (record inc { mutual_credit = p.outgoing_mc }) p.operations p.opt_local_relays
        (source.random drawn))

  -- The friend once the token is sent.
  abbrev after_send :
      FriendState B → PendingMoveToken B → TcIncoming → MoveToken B Signature → FriendState B
  after_send f p inc token = record f {
    channel_status = consistent (record {
      direction = TcDirection.outgoing (record {
        mutual_credit = p.outgoing_mc;
        move_token_out = token;
        opt_prev_move_token_in = some inc.move_token_in;
      });
    });
  }

  abbrev turned :
      MutableFunderState B
      → FriendState B
      → PendingMoveToken B
      → TcIncoming
      → MoveToken B Signature
      → MutableFunderState B
  turned m f p inc token = record m {
    state = record (m.state) { friends = insert pk (after_send f p inc token) m.state.friends };
    mutations =
        m.mutations
        ++ friend_mutation pk (tc_mutation (TcMutation.set_direction (SetDirection.outgoing token)))
          ∷ [];
  }

  turns :
      (m : MutableFunderState B) (f : FriendState B) (p : PendingMoveToken B) (inc : TcIncoming)
      (token : MoveToken B Signature)
      → HasFriend crypto serialize_address pk inc.move_token_in f p.outgoing_mc m
      → mutate_wrapped crypto serialize_address
          (friend_mutation pk
            (tc_mutation (TcMutation.set_direction (SetDirection.outgoing token))))
          m
        ≡ some (turned m f p inc token)
  unfolding mutate_wrapped mutate_state mutate_friend mutate_channel
  turns m f p inc token h = ground (arith, h.0, h.1)

  turned-get :
      (m : MutableFunderState B) (f : FriendState B) (p : PendingMoveToken B) (inc : TcIncoming)
      (token : MoveToken B Signature)
      → get pk (turned m f p inc token).state.friends ≡ some (after_send f p inc token)
  turned-get m f p inc token =
      ground (arith, get-insert pk pk (after_send f p inc token) m.state.friends)

  sends :
      (s : Sending B) (p : PendingMoveToken B) (f : FriendState B) (inc : TcIncoming)
      → nothing_to_send p ≡ false
      → HasFriend crypto serialize_address pk inc.move_token_in f p.outgoing_mc s.m_state
      → send_move_token crypto serialize_address address_eq source max ephemeral pk p s ≡ (
        ok tt,
        record s {
          m_state = turned s.m_state f p inc (token_of inc p s.drawn);
          outgoing_messages =
              s.outgoing_messages
              ++ (
                pk,
                sent_request
                    (token_of inc p s.drawn)
                    (p.token_wanted || some_relays p.opt_local_relays),
              )
                ∷ [];
          drawn = suc s.drawn;
        },
      )
  unfolding send_move_token
  sends s p f inc n h =
      let token = token_of inc p s.drawn in
      rw
        (
          send_move_token,
          n,
          h.0,
          h.1,
          turns s.m_state f p inc token h,
          turned-get s.m_state f p inc token,
        )
        refl

  turned_channel :
      (p : PendingMoveToken B) (inc : TcIncoming) (token : MoveToken B Signature)
      (out' : TcOutgoing B)
      → mutate_channel
          (TcMutation.set_direction (SetDirection.outgoing token))
          (holding p.outgoing_mc inc.move_token_in)
        ≡ some (record { direction = TcDirection.outgoing out' })
      → ◌≡◌ {A = TokenChannel B}
          (record {
            direction = TcDirection.outgoing (record {
              mutual_credit = p.outgoing_mc;
              move_token_out = token;
              opt_prev_move_token_in = some inc.move_token_in;
            });
          })
          (record { direction = TcDirection.outgoing out' })
  unfolding mutate_channel
  turned_channel p inc token out' h = cc h

  -- The state has the friend, in a channel in step with the friend's own, and the pending move token
  -- holds operations that were taken from there one after the other, none a request that was there
  -- already. If there is something to send, `send_move_token` returns, and adds to the messages just
  -- the signed token of these operations, which wants the token back if that is wanted or relays are
  -- told. If the friend's check accepts the signature and the counter does not wrap, the friend
  -- receives this token and its mutations turn its channel, and the channel that the state then has
  -- is in step with it, the other way round.
  pub send_move_token-delivered :
      (s : Sending B) (p : PendingMoveToken B) (f : FriendState B) (inc : TcIncoming)
      (out : TcOutgoing B) (b : Built crypto inc.mutual_credit p.operations p.outgoing_mc)
      → NoRepeat b
      → nothing_to_send p ≡ false
      → HasFriend crypto serialize_address pk inc.move_token_in f p.outgoing_mc s.m_state
      → InStep crypto serialize_address out inc
      → inc.move_token_in.move_token_counter + 1 < half128 + half128
      → verify_move_token crypto serialize_address
          (token_of inc p s.drawn)
          out.mutual_credit.idents.remote_public_key
        ≡ true
      → (m' : MutableFunderState B) × (r : MoveTokenReceived B) × (out' : TcOutgoing B)
        × (inc' : TcIncoming) × (send_move_token crypto serialize_address address_eq source max
              ephemeral pk p s
            ≡ (
              ok tt,
              record s {
                m_state = m';
                outgoing_messages =
                    s.outgoing_messages
                    ++ (
                      pk,
                      sent_request
                          (token_of inc p s.drawn)
                          (p.token_wanted || some_relays p.opt_local_relays),
                    )
                      ∷ [];
                drawn = suc s.drawn;
              },
            ))
        × (handle_incoming_out crypto serialize_address out (token_of inc p s.drawn)
            ≡ ok (ReceiveMoveTokenOutput.received r))
        × (apply_channel r.mutations (record { direction = TcDirection.outgoing out })
            ≡ some (record { direction = TcDirection.incoming inc' }))
        × (get pk m'.state.friends
            ≡ some (record f {
              channel_status = consistent (record { direction = TcDirection.outgoing out' });
            }))
        × InStep crypto serialize_address out' inc'
  send_move_token-delivered s p f inc out b fresh n h st small signs =
      let token = token_of inc p s.drawn in
      let nonce = source.random s.drawn in
      let u =
        create_unsigned (record inc { mutual_credit = p.outgoing_mc }) p.operations
          p.opt_local_relays nonce in
      let sig = source.request_signature (move_token_signature_buff crypto serialize_address u) in
      let (r, out', inc', receives, turns_in, turns_out, step) =
        exchange crypto serialize_address out inc p.operations p.opt_local_relays nonce sig
          p.outgoing_mc st (Built-Queues crypto inc.mutual_credit b fresh) small signs in
      let channel = turned_channel p inc token out' turns_out in
      (
        turned s.m_state f p inc token,
        r,
        out',
        inc',
        sends s p f inc n h,
        receives,
        turns_in,
        turned-get s.m_state f p inc token
            ∙ ap (λ d. some (record f { channel_status = consistent d })) channel,
        step,
      )
