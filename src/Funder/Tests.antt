-- ===== src/Funder/Tests.antt =====
-- Tests of the funder's handlers, on the sample friendship: the first node holds the token of its
-- only friend, the second node. Relays have numbers for addresses, of one byte.
use offst.Prelude.{
  ℕ, ◌+◌, ◌<◌, ◌≡◌, ◌==◌, refl, Bool, true, false, List, [], ◌∷◌, none, some, arith, if◌then◌else◌,
}
use offst.Prelude.Int.{pos, negsuc, ◌-ℤ◌, ◌+ℤ◌}
use offst.Prelude.Dict.{get, insert}
use offst.Prelude.Outcome.{ok, err, panic}
use offst.Crypto.{Signature, be_bytes}
use offst.Messages.{FriendTcOp, MoveToken, RequestsStatus, create_pending_transaction}
use offst.Route.{is_valid, find_pk_pair, insert_all, closes_or_new, contains}
use offst.Buffers.{half128, move_token_signature_buff, verify_move_token, prefix_hash}
use offst.SafeArith.{
  as_signed, checked_sub, checked_add, unsigned_checked_add, checked_sub_unsigned,
  checked_add_unsigned,
}
use offst.MutualCredit.{MutualCredit, McMutation, mutate}
use offst.MutualCredit.Outgoing.{queue_operation, queue_request_send_funds, QueueOperationError}
use offst.MutualCredit.Invariant.{IsValid}
use offst.MutualCredit.Mirror.{mirror}
use offst.MutualCredit.Pending.{frozen}
use offst.TokenChannel.{TcDirection, TcOutgoing, TcIncoming, sign_move_token}
use offst.TokenChannel.Create.{create_hashed}
use offst.TokenChannel.Initial.{InStep}
use offst.TokenChannel.Receive.{ReceiveMoveTokenOutput, MoveTokenReceived, handle_incoming_out}
use offst.TokenChannel.Scan.{apply_channel}
use offst.Funder.Messages.{disabled}
use offst.Funder.Friend.{FriendState, consistent, never_sent, mutate_friend, to_vec}
use offst.Funder.State.{FunderState, OpenTransaction, Payment, in_progress, mutate_state}
use offst.Funder.Wrap.{replay_state, MutableFunderState, Source, new_mutable, mutate_wrapped}
use offst.Funder.Liveness.{Ephemeral}
use offst.Funder.Sender.{
  PendingMoveToken, Collecting, new_pending, queue_operation_or_cancel, queue_pending,
}
use offst.Funder.Sender.Collect.{
  collect_outgoing_move_token, send_relays, send_max_debt, send_requests_status, send_backwards_ops,
  send_requests,
}
use offst.Funder.Sender.Tracks.{Tracks, Due, Built, nothing, queued, CollectEnds}
use offst.Funder.Sender.Stages.{Since, Drained}
use offst.Funder.Sender.Collected.{collect_outgoing_move_token-CollectEnds}
use offst.Funder.Sender.Canceled.{CancelsAt, queue_operation_or_cancel-CancelsAt}
use offst.Funder.Sender.Send.{Sending, send_move_token, sent_request}
use offst.Funder.Sender.Delivered.{token_of, send_move_token-delivered}
use offst.Funder.Canceler.{Canceling, remove_transaction}
use offst.Funder.Canceler.Counts.{
  payment_after, IsCounted, count_open, remove_transaction-IsCounted,
}
use offst.Funder.Presence.{Presence, IncomingLivenessMessage, handle_liveness_message}
use offst.Funder.Presence.Told.{IsTold, replay_ephemeral, handle_liveness_message-IsTold}
use offst.Samples.{checksum, sum_bytes, credit, asked, request}

abbrev address : ℕ → List ℕ
address n = be_bytes 1 n

abbrev same_address : ℕ → ℕ → Bool
same_address a b = a == b

-- The first node signs.
abbrev source : Source
source = record { random = λ n. n + 100; request_signature = λ bytes. sum_bytes bytes + 1 }

abbrev held : MoveToken ℕ Signature
held = record {
  operations = [];
  opt_local_relays = none;
  old_token = 11;
  local_public_key = 2;
  remote_public_key = 1;
  inconsistency_counter = 0;
  move_token_counter = 4;
  balance = negsuc 19;
  local_pending_debt = 0;
  remote_pending_debt = 0;
  rand_nonce = 12;
  new_token = 13;
}

abbrev holder : TcIncoming
holder = record { mutual_credit = credit; move_token_in = create_hashed checksum address held }

abbrev friend_side : TcOutgoing ℕ
friend_side = record {
  mutual_credit = mirror credit;
  move_token_out = held;
  opt_prev_move_token_in = none;
}

-- The friend with a channel that holds the token.
abbrev friend_with : MutualCredit → FriendState ℕ
friend_with mc = record {
  local_public_key = 1;
  remote_public_key = 2;
  remote_relays = [];
  sent_local_relays = never_sent;
  name = [];
  rate = record { mul = 0; add = 0 };
  status = disabled;
  channel_status =
      consistent
        (record { direction = TcDirection.incoming (record holder { mutual_credit = mc }) });
  wanted_remote_max_debt = 50;
  wanted_local_requests_status = RequestsStatus.opened;
  pending_requests = [];
  pending_backwards_ops = [];
  pending_user_requests = request ∷ [];
}

-- One transaction of the user, of a payment that is closed to new ones.
abbrev transaction : OpenTransaction
transaction = record { payment_id = 70; src_plain_lock = 5; opt_response = none }

abbrev state_with : MutualCredit → FunderState ℕ
state_with mc = record {
  local_public_key = 1;
  relays = [];
  friends = (2, friend_with mc) ∷ [];
  open_invoices = [];
  open_transactions = (7, transaction) ∷ [];
  payments = (70, in_progress 1) ∷ [];
}

abbrev collecting_with : MutualCredit → Collecting ℕ
collecting_with mc = record {
  m_state = new_mutable (state_with mc);
  pending_move_token = new_pending 2 mc 10 false;
  cancel_public_keys = [];
  outgoing_control = [];
  outgoing_channeler_config = [];
}

start-Tracks :
    Tracks checksum address 2 holder.move_token_in credit 10
      (Since (friend_with credit))
      (Due (friend_with credit))
      (λ f ops. f ≡ friend_with credit)
      (collecting_with credit)
start-Tracks = record {
  friend = friend_with credit;
  has = (refl, refl);
  batch = record { key = refl; bound = refl; few = omega arith; built = nothing };
  keeps = refl;
}

collect_outgoing_move_token-CollectEnds_example :
    CollectEnds checksum address 2 holder.move_token_in credit 10
      (Since (friend_with credit))
      (Due (friend_with credit))
      (Drained (friend_with credit))
      (collect_outgoing_move_token checksum address same_address 2 (collecting_with credit))
collect_outgoing_move_token-CollectEnds_example =
    collect_outgoing_move_token-CollectEnds checksum address same_address 2 holder.move_token_in
      credit 10 (friend_with credit) (collecting_with credit) start-Tracks

abbrev asking : List McMutation
asking =
    McMutation.insert_local_pending_transaction (create_pending_transaction request)
    ∷ McMutation.set_local_pending_debt 12
    ∷ []

request-asked :
    queue_operation checksum (FriendTcOp.request_send_funds request) credit ≡ (ok asking, asked)
unfolding queue_operation queue_request_send_funds is_valid insert_all closes_or_new contains
    find_pk_pair mutate insert unsigned_checked_add checked_sub_unsigned checked_add_unsigned
    create_pending_transaction as_signed checked_sub checked_add ◌-ℤ◌ ◌+ℤ◌
request-asked = refl

-- The batch with the request.
abbrev batch : PendingMoveToken ℕ
batch = record (new_pending 2 asked 10 false) {
  operations = FriendTcOp.request_send_funds request ∷ [];
}

abbrev sending : Sending ℕ
sending = record {
  m_state = new_mutable (state_with asked);
  pending_move_tokens = (2, batch) ∷ [];
  cancel_public_keys = [];
  outgoing_messages = [];
  outgoing_control = [];
  outgoing_channeler_config = [];
  drawn = 0;
}

abbrev nobody : Ephemeral
nobody = record { liveness = record { friends = [] } }

abbrev built_batch : Built checksum credit (FriendTcOp.request_send_funds request ∷ []) asked
built_batch = queued (FriendTcOp.request_send_funds request) asking nothing request-asked tt

-- The token that the first node sends.
abbrev next : MoveToken ℕ Signature
next = token_of checksum address same_address source 10 nobody 2 holder batch 0

next_verifies : verify_move_token checksum address next 1 ≡ true
unfolding verify_move_token move_token_signature_buff prefix_hash sign_move_token
next_verifies = ground arith

next_counter : holder.move_token_in.move_token_counter + 1 < half128 + half128
unfolding create_hashed
next_counter = omega arith

credit-IsValid : IsValid credit
unfolding frozen
credit-IsValid = ground arith

holder-InStep : InStep checksum address friend_side holder
holder-InStep = record {
  token = refl;
  credit = refl;
  local_key = refl;
  remote_key = refl;
  valid = credit-IsValid;
}

send_move_token-delivered_example :
    (m' : MutableFunderState ℕ) × (r : MoveTokenReceived ℕ) × (out' : TcOutgoing ℕ)
    × (inc' : TcIncoming) × (send_move_token checksum address same_address source 10 nobody 2 batch
          sending
        ≡ (
          ok tt,
          record sending {
            m_state = m';
            outgoing_messages = (2, sent_request next false) ∷ [];
            drawn = 1;
          },
        ))
    × (handle_incoming_out checksum address friend_side next
        ≡ ok (ReceiveMoveTokenOutput.received r))
    × (apply_channel r.mutations (record { direction = TcDirection.outgoing friend_side })
        ≡ some (record { direction = TcDirection.incoming inc' }))
    × (get 2 m'.state.friends
        ≡ some (record (friend_with asked) {
          channel_status = consistent (record { direction = TcDirection.outgoing out' });
        }))
    × InStep checksum address out' inc'
send_move_token-delivered_example =
    send_move_token-delivered checksum address same_address source 10 nobody 2 sending batch
      (friend_with asked) holder friend_side built_batch tt refl (refl, refl) holder-InStep
      next_counter next_verifies

-- Without trust for the request.
abbrev poor : MutualCredit
poor = record credit { balance = record (credit.balance) { balance = pos 0; local_max_debt = 5 } }

poor_refuses :
    queue_operation checksum (FriendTcOp.request_send_funds request) poor
    ≡ (err QueueOperationError.insufficient_trust, poor)
unfolding queue_operation queue_request_send_funds is_valid insert_all closes_or_new contains
    find_pk_pair mutate insert unsigned_checked_add checked_sub_unsigned checked_add_unsigned
    create_pending_transaction as_signed checked_sub checked_add ◌-ℤ◌ ◌+ℤ◌
poor_refuses = refl

queue_operation_or_cancel-CancelsAt_example :
    CancelsAt checksum address request (collecting_with poor) (
      queue_operation_or_cancel checksum address
        (FriendTcOp.request_send_funds request)
        (collecting_with poor))
queue_operation_or_cancel-CancelsAt_example =
    queue_operation_or_cancel-CancelsAt checksum address 2 holder.move_token_in (friend_with poor)
      request (collecting_with poor) poor ((λ o. o), tt) refl (refl, refl) (omega arith)
      poor_refuses

-- The friend has closed its requests while one of the user waits: the node panics.
abbrev closed_credit : MutualCredit
closed_credit = record credit {
  requests_status = record { local = RequestsStatus.opened; remote = RequestsStatus.closed };
}

closed_panics :
    (collect_outgoing_move_token checksum address same_address 2 (collecting_with closed_credit)).0
    ≡ panic
unfolding collect_outgoing_move_token send_relays send_max_debt send_requests_status
    send_backwards_ops send_requests queue_operation_or_cancel queue_pending mutate_wrapped
    mutate_state mutate_friend queue_operation queue_request_send_funds is_valid insert_all
    closes_or_new contains find_pk_pair insert to_vec
closed_panics = refl

counted : IsCounted (state_with credit)
unfolding count_open
counted = record {
  unique = ((λ o. o), tt);
  counted = λ id p h. ground arith;
  known = λ k t h. (in_progress 1, ground arith);
}

abbrev canceling : Canceling ℕ
canceling = record {
  m_state = new_mutable (state_with credit);
  send_commands = record { send_commands = [] };
  outgoing_control = [];
  drawn = 0;
}

remove_transaction-IsCounted_example :
    (c' : Canceling ℕ) × (remove_transaction checksum address source 7 canceling ≡ (ok tt, c'))
    × IsCounted c'.m_state.state
    × ((k : ℕ)
        → get k c'.m_state.state.open_transactions
          ≡ (if 7 == k then none else get k ((7, transaction) ∷ [])))
    × ((p : Payment) × (get 70 ((70, in_progress 1) ∷ []) ≡ some p)
        × ((i : ℕ)
            → get i c'.m_state.state.payments ≡ (
                if 70 == i
                then payment_after (count_open 70 c'.m_state.state.open_transactions) 100 p
                else get i ((70, in_progress 1) ∷ []))))
remove_transaction-IsCounted_example =
    remove_transaction-IsCounted checksum address source canceling 7 transaction counted refl

-- The second node is online.
abbrev online : Ephemeral
online = record { liveness = record { friends = 2 ∷ [] } }

abbrev present : Presence ℕ
present = record {
  canceling = record {
    m_state = new_mutable (state_with asked);
    send_commands = record { send_commands = [] };
    outgoing_control = [];
    drawn = 0;
  };
  m_ephemeral = record { ephemeral = online; mutations = [] };
}

present-replay :
    (replay_state checksum address present.canceling.m_state.mutations
        present.canceling.m_state.initial_state
      ≡ some present.canceling.m_state.state)
    × (replay_ephemeral present.m_ephemeral.mutations online ≡ present.m_ephemeral.ephemeral)
unfolding replay_state replay_ephemeral
present-replay = (refl, refl)

-- The second node goes offline.
handle_liveness_message-IsTold_example :
    IsTold checksum address source online
      (IncomingLivenessMessage.offline 2)
      present
      (handle_liveness_message checksum address source (IncomingLivenessMessage.offline 2) present)
handle_liveness_message-IsTold_example =
    handle_liveness_message-IsTold checksum address source online
      (IncomingLivenessMessage.offline 2) present present-replay
