-- ===== src/TokenChannel/Create.antt =====
-- components/funder/src/token_channel.rs: how a token channel begins. From
-- components/funder/src/types.rs: the hashed form of a move token.
use offst.Prelude.{ℕ, ◌/◌, ◌^◌, List, [], Option, none, some, if◌then◌else◌}
use offst.Prelude.Int.{ℤ}
use offst.Crypto.{
  Crypto, PublicKey, Signature, RandValue, be_bytes, public_key_len, public_key_less,
}
use offst.Messages.{MoveToken}
use offst.Buffers.{prefix_hash}
use offst.MutualCredit.{MutualCredit}
use offst.MutualCredit
use offst.TokenChannel.{
  MoveTokenHashed, TokenChannel, TcDirection, token_from_public_key, checked_neg,
}

module _ (crypto : Crypto) {B : Type 0} (serialize_address : B → List ℕ) where
  open crypto use {sha_512_256}

  -- components/funder/src/types.rs: `create_hashed`
  unfoldable pub create_hashed : MoveToken B Signature → MoveTokenHashed
  create_hashed m = record {
    prefix_hash = prefix_hash crypto serialize_address m;
    local_public_key = m.local_public_key;
    remote_public_key = m.remote_public_key;
    inconsistency_counter = m.inconsistency_counter;
    move_token_counter = m.move_token_counter;
    balance = m.balance;
    local_pending_debt = m.local_pending_debt;
    remote_pending_debt = m.remote_pending_debt;
    rand_nonce = m.rand_nonce;
    new_token = m.new_token;
  }

  -- The first 16 of the 32 bytes of the hash.
  unfoldable pub rand_nonce_from_public_key : PublicKey → RandValue
  rand_nonce_from_public_key pk = sha_512_256 (be_bytes public_key_len pk) / 256 ^ 16

  unfoldable pub initial_move_token : PublicKey → PublicKey → ℤ → MoveToken B Signature
  unfolding token_from_public_key rand_nonce_from_public_key
  initial_move_token low_public_key high_public_key balance = record {
    operations = [];
    opt_local_relays = none;
    old_token = token_from_public_key low_public_key;
    local_public_key = low_public_key;
    remote_public_key = high_public_key;
    inconsistency_counter = 0;
    move_token_counter = 0;
    balance = balance;
    local_pending_debt = 0;
    remote_pending_debt = 0;
    rand_nonce = rand_nonce_from_public_key high_public_key;
    new_token = token_from_public_key high_public_key;
  }

  first_incoming : PublicKey → PublicKey → MutualCredit → Option ℤ → Option (TokenChannel B)
  first_incoming local_pk remote_pk mc none = none
  first_incoming local_pk remote_pk mc (some balance) = some (record {
    direction = TcDirection.incoming (record {
      mutual_credit = mc;
      move_token_in = create_hashed (initial_move_token remote_pk local_pk balance);
    });
  })

  -- `TokenChannel::new`; `none` is the panic of `checked_neg().unwrap()`.
  unfoldable pub new_channel : PublicKey → PublicKey → ℤ → Option (TokenChannel B)
  unfolding first_incoming
  new_channel local_pk remote_pk balance =
      let mc = MutualCredit.new local_pk remote_pk balance in
      if public_key_less crypto local_pk remote_pk
      then some (record {
        direction = TcDirection.outgoing (record {
          mutual_credit = mc;
          move_token_out = initial_move_token local_pk remote_pk balance;
          opt_prev_move_token_in = none;
        });
      })
      else first_incoming local_pk remote_pk mc (checked_neg balance)

  unfoldable pub new_from_remote_reset :
      PublicKey → PublicKey → MoveToken B Signature → ℤ → TokenChannel B
  new_from_remote_reset local_pk remote_pk reset_move_token balance = record {
    direction = TcDirection.incoming (record {
      mutual_credit = MutualCredit.new local_pk remote_pk balance;
      move_token_in = create_hashed reset_move_token;
    });
  }

  unfoldable pub new_from_local_reset :
      PublicKey → PublicKey → MoveToken B Signature → ℤ → Option MoveTokenHashed → TokenChannel B
  new_from_local_reset local_pk remote_pk reset_move_token balance opt_last = record {
    direction = TcDirection.outgoing (record {
      mutual_credit = MutualCredit.new local_pk remote_pk balance;
      move_token_out = reset_move_token;
      opt_prev_move_token_in = opt_last;
    });
  }
