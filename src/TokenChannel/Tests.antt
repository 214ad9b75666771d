-- ===== src/TokenChannel/Tests.antt =====
-- Tests of the token channel, on the sample friendship: the first node holds the token that the
-- second one has sent.
use offst.Prelude.{ℕ, ◌+◌, ◌<◌, ◌≡◌, refl, true, List, [], ◌∷◌, none, some, arith}
use offst.Prelude.Int.{pos, negsuc, neg, ◌-ℤ◌, ◌+ℤ◌}
use offst.Prelude.Dict.{insert}
use offst.Prelude.Outcome.{ok}
use offst.Crypto.{Signature, be_bytes, public_key_less}
use offst.Messages.{FriendTcOp, MoveToken, create_pending_transaction}
use offst.Route.{is_valid, find_pk_pair, insert_all, closes_or_new, contains}
use offst.MutualCredit.Words.{InRange}
use offst.Buffers.{half128, move_token_signature_buff, verify_move_token, prefix_hash}
use offst.SafeArith.{
  as_signed, checked_sub, checked_add, unsigned_checked_add, checked_sub_unsigned,
  checked_add_unsigned,
}
use offst.MutualCredit.{McMutation, mutate}
use offst.MutualCredit.Pending.{frozen}
use offst.MutualCredit.Outgoing.{queue_operation, queue_request_send_funds}
use offst.MutualCredit.Invariant.{IsValid}
use offst.MutualCredit.Mirror.{mirror, mirror-IsValid}
use offst.TokenChannel.{
  TcDirection, TcOutgoing, TcIncoming, TcMutation, SetDirection, mutate_channel, create_unsigned,
  sign_move_token,
}
use offst.TokenChannel.Create.{create_hashed, new_channel}
use offst.TokenChannel.Receive.{
  handle_incoming_out, handle_incoming_in, MoveTokenReceived, ReceiveMoveTokenOutput,
}
use offst.TokenChannel.Initial.{InStep, new_channel-InStep}
use offst.TokenChannel.Scan.{apply_channel}
use offst.TokenChannel.Received.{OutgoingEnds, handle_incoming_out_ends}
use offst.TokenChannel.Sync.{Queues, none_queued, queued_next, sent, exchange}
use offst.TokenChannel.Duplicate.{altered, altered_is_duplicate}
use offst.Samples.{checksum, sum_bytes, credit, asked, request}

-- Relays have numbers for addresses, of one byte.
abbrev address : ℕ → List ℕ
address n = be_bytes 1 n

-- The token of the second node.
abbrev held : MoveToken ℕ Signature
held = record {
  operations = FriendTcOp.request_send_funds request ∷ [];
  opt_local_relays = none;
  old_token = 11;
  local_public_key = 2;
  remote_public_key = 1;
  inconsistency_counter = 0;
  move_token_counter = 4;
  balance = negsuc 19;
  local_pending_debt = 0;
  remote_pending_debt = 0;
  rand_nonce = 12;
  new_token = 13;
}

abbrev sender : TcOutgoing ℕ
sender = record {
  mutual_credit = mirror credit;
  move_token_out = held;
  opt_prev_move_token_in = none;
}

abbrev holder : TcIncoming
holder = record { mutual_credit = credit; move_token_in = create_hashed checksum address held }

credit-IsValid : IsValid credit
unfolding frozen
credit-IsValid = ground arith

holder-InStep : InStep checksum address sender holder
holder-InStep = record {
  token = refl;
  credit = refl;
  local_key = refl;
  remote_key = refl;
  valid = credit-IsValid;
}

abbrev asking : List McMutation
asking =
    McMutation.insert_local_pending_transaction (create_pending_transaction request)
    ∷ McMutation.set_local_pending_debt 12
    ∷ []

request-asked :
    queue_operation checksum (FriendTcOp.request_send_funds request) credit ≡ (ok asking, asked)
unfolding queue_operation queue_request_send_funds is_valid insert_all closes_or_new contains
    find_pk_pair mutate insert unsigned_checked_add checked_sub_unsigned checked_add_unsigned
    create_pending_transaction as_signed checked_sub checked_add ◌-ℤ◌ ◌+ℤ◌
request-asked = refl

asking_queued : Queues checksum (FriendTcOp.request_send_funds request ∷ []) credit asked
asking_queued = queued_next asking request-asked tt none_queued

abbrev one_request : List FriendTcOp
one_request = FriendTcOp.request_send_funds request ∷ []

-- The signature of the first node.
abbrev signed : Signature
signed =
    sum_bytes (
      move_token_signature_buff checksum address
        (create_unsigned (record holder { mutual_credit = asked }) one_request none 15))
    + 1

-- The token that the first node sends.
abbrev next : MoveToken ℕ Signature
next = sent checksum address sender holder one_request none 15 signed asked

next_verifies : verify_move_token checksum address next 1 ≡ true
unfolding verify_move_token move_token_signature_buff prefix_hash sign_move_token
next_verifies = ground arith

next_range : InRange next.balance
unfolding sign_move_token create_unsigned
next_range = ground arith

next_counter : holder.move_token_in.move_token_counter + 1 < half128 + half128
unfolding create_hashed
next_counter = omega arith

exchange_example :
    (r : MoveTokenReceived ℕ) × (out' : TcOutgoing ℕ) × (inc' : TcIncoming) × (handle_incoming_out
        checksum address sender next
      ≡ ok (ReceiveMoveTokenOutput.received r))
    × (apply_channel r.mutations (record { direction = TcDirection.outgoing sender })
        ≡ some (record { direction = TcDirection.incoming inc' }))
    × (mutate_channel
          (TcMutation.set_direction (SetDirection.outgoing next))
          (record { direction = TcDirection.incoming (record holder { mutual_credit = asked }) })
        ≡ some (record { direction = TcDirection.outgoing out' }))
    × InStep checksum address out' inc'
exchange_example =
    exchange checksum address sender holder one_request none 15 signed asked holder-InStep
      asking_queued next_counter next_verifies

handle_incoming_out_ends_example :
    OutgoingEnds checksum address sender next (handle_incoming_out checksum address sender next)
handle_incoming_out_ends_example =
    handle_incoming_out_ends checksum address sender next next_range (mirror-IsValid credit-IsValid)

key_order : public_key_less checksum 1 2 ≡ true
unfolding public_key_less be_bytes
key_order = refl

new_channel-InStep_example :
    (out : TcOutgoing ℕ) × (inc : TcIncoming) × (new_channel checksum address 1 2 (pos 5)
      ≡ some (record { direction = TcDirection.outgoing out }))
    × (new_channel checksum address 2 1 (neg (pos 5))
        ≡ some (record { direction = TcDirection.incoming inc }))
    × InStep checksum address out inc
new_channel-InStep_example =
    new_channel-InStep checksum address 1 2 (pos 5) key_order (omega arith) (omega arith)

altered_is_duplicate_example :
    handle_incoming_in checksum address holder
      (record held { operations = FriendTcOp.request_send_funds (altered request 0 99) ∷ [] })
    ≡ ok ReceiveMoveTokenOutput.duplicate
altered_is_duplicate_example =
    altered_is_duplicate checksum address holder held request [] 0 99 refl refl
