-- ===== src/TokenChannel.antt =====
-- components/funder/src/token_channel.rs: a mutual credit with the direction of the token, and the
-- move tokens that the two sides exchange. From components/funder/src/types.rs: the hashed move
-- token and the two functions that build move tokens.
pub mod Create
pub mod Receive
pub mod Initial
pub mod Scan
pub mod Received
pub mod Sync
pub mod Duplicate
pub mod Tests
use offst.Prelude.{
  ℕ, ◌+◌, ◌-◌, ◌*◌, ◌/◌, ◌%◌, ◌^◌, Bool, true, false, ◌&&◌, List, [], ◌∷◌, Option, none, some, ◌==◌,
  ltb, if◌then◌else◌,
}
use offst.Prelude.Int.{ℤ, pos, pos_part, neg_part, ◌-ℤ◌}
use offst.Crypto.{
  Crypto, PublicKey, Signature, HashResult, RandValue, be_bytes, public_key_len, signature_len,
  hash_len, rand_value_len, public_key_less,
}
use offst.Messages.{FriendTcOp, MoveToken, RelayAddress}
use offst.SafeArith.{checked_sub}
use offst.Buffers.{half128, prefix_hash}
use offst.MutualCredit.{MutualCredit, McMutation, mutate}
use offst.MutualCredit

pub record MoveTokenHashed : Type 0 where
  pub prefix_hash : HashResult
  pub local_public_key : PublicKey
  pub remote_public_key : PublicKey
  pub inconsistency_counter : ℕ
  pub move_token_counter : ℕ
  pub balance : ℤ
  pub local_pending_debt : ℕ
  pub remote_pending_debt : ℕ
  pub rand_nonce : RandValue
  pub new_token : Signature

-- The derived equality.
abbrev pub int_eq : ℤ → ℤ → Bool
int_eq a b = pos_part a == pos_part b && neg_part a == neg_part b

unfoldable pub hashed_eq : MoveTokenHashed → MoveTokenHashed → Bool
hashed_eq a b =
    a.prefix_hash == b.prefix_hash
    && (a.local_public_key == b.local_public_key
        && (a.remote_public_key == b.remote_public_key
            && (a.inconsistency_counter == b.inconsistency_counter
                && (a.move_token_counter == b.move_token_counter
                    && (int_eq a.balance b.balance
                        && (a.local_pending_debt == b.local_pending_debt
                            && (a.remote_pending_debt == b.remote_pending_debt
                                && (a.rand_nonce == b.rand_nonce
                                    && a.new_token == b.new_token))))))))

-- `checked_neg`; `none` for the least word.
unfoldable pub checked_neg : ℤ → Option ℤ
unfolding checked_sub
checked_neg b = checked_sub half128 (pos 0) b

-- The public key in the first bytes of a signature, and zeros.
unfoldable pub token_from_public_key : PublicKey → Signature
token_from_public_key pk = pk * 256 ^ 32

pub data SetDirection (B : Type 0) : Type 0 where
  incoming : MoveTokenHashed → SetDirection B
  outgoing : MoveToken B Signature → SetDirection B

pub data TcMutation (B : Type 0) : Type 0 where
  mc_mutation : McMutation → TcMutation B
  set_direction : SetDirection B → TcMutation B

pub record TcOutgoing (B : Type 0) : Type 0 where
  pub mutual_credit : MutualCredit
  pub move_token_out : MoveToken B Signature
  pub opt_prev_move_token_in : Option MoveTokenHashed

pub record TcIncoming : Type 0 where
  pub mutual_credit : MutualCredit
  pub move_token_in : MoveTokenHashed

pub data TcDirection (B : Type 0) : Type 0 where
  incoming : TcIncoming → TcDirection B
  outgoing : TcOutgoing B → TcDirection B

pub record TokenChannel (B : Type 0) : Type 0 where
  pub direction : TcDirection B

abbrev pub credit_of : {B : Type 0} → TcDirection B → MutualCredit
credit_of (TcDirection.incoming t) = t.mutual_credit
credit_of (TcDirection.outgoing t) = t.mutual_credit

-- `get_mutual_credit`
abbrev pub get_mutual_credit : {B : Type 0} → TokenChannel B → MutualCredit
get_mutual_credit tc = credit_of tc.direction

abbrev pub last_incoming : {B : Type 0} → TcDirection B → Option MoveTokenHashed
last_incoming (TcDirection.incoming t) = some t.move_token_in
last_incoming (TcDirection.outgoing t) = t.opt_prev_move_token_in

-- `get_last_incoming_move_token_hashed`
abbrev pub get_last_incoming_move_token_hashed :
    {B : Type 0} → TokenChannel B → Option MoveTokenHashed
get_last_incoming_move_token_hashed tc = last_incoming tc.direction

abbrev pub counter_of : {B : Type 0} → TcDirection B → ℕ
counter_of (TcDirection.incoming t) = t.move_token_in.move_token_counter
counter_of (TcDirection.outgoing t) = t.move_token_out.move_token_counter

-- `get_move_token_counter`
abbrev pub get_move_token_counter : {B : Type 0} → TokenChannel B → ℕ
get_move_token_counter tc = counter_of tc.direction

abbrev pub inconsistency_of : {B : Type 0} → TcDirection B → ℕ
inconsistency_of (TcDirection.incoming t) = t.move_token_in.inconsistency_counter
inconsistency_of (TcDirection.outgoing t) = t.move_token_out.inconsistency_counter

-- `get_inconsistency_counter`
abbrev pub get_inconsistency_counter : {B : Type 0} → TokenChannel B → ℕ
get_inconsistency_counter tc = inconsistency_of tc.direction

abbrev pub outgoing_direction : {B : Type 0} → TcDirection B → Bool
outgoing_direction (TcDirection.incoming t) = false
outgoing_direction (TcDirection.outgoing t) = true

-- `is_outgoing`
abbrev pub is_outgoing : {B : Type 0} → TokenChannel B → Bool
is_outgoing tc = outgoing_direction tc.direction

module _ {B : Type 0} where
  with_credit : TcDirection B → Option MutualCredit → Option (TokenChannel B)
  with_credit d none = none
  with_credit (TcDirection.incoming t) (some mc) =
      some (record { direction = TcDirection.incoming (record t { mutual_credit = mc }) })
  with_credit (TcDirection.outgoing t) (some mc) =
      some (record { direction = TcDirection.outgoing (record t { mutual_credit = mc }) })

  -- `TokenChannel::mutate`; `none` is a panic of the mutual credit.
  unfoldable pub mutate_channel : TcMutation B → TokenChannel B → Option (TokenChannel B)
  unfolding with_credit
  mutate_channel (TcMutation.mc_mutation m) tc =
      with_credit tc.direction (mutate m (get_mutual_credit tc))
  mutate_channel (TcMutation.set_direction (SetDirection.incoming h)) tc = some (record {
    direction =
        TcDirection.incoming (record { mutual_credit = get_mutual_credit tc; move_token_in = h });
  })
  mutate_channel (TcMutation.set_direction (SetDirection.outgoing m)) tc = some (record {
    direction = TcDirection.outgoing (record {
      mutual_credit = get_mutual_credit tc;
      move_token_out = m;
      opt_prev_move_token_in = get_last_incoming_move_token_hashed tc;
    });
  })

  -- components/funder/src/types.rs: `create_unsigned_move_token`
  unfoldable pub create_unsigned_move_token :
      List FriendTcOp
      → Option (List (RelayAddress B))
      → Signature
      → PublicKey
      → PublicKey
      → ℕ
      → ℕ
      → ℤ
      → ℕ
      → ℕ
      → RandValue
      → MoveToken B (Unit {0})
  create_unsigned_move_token operations relays old_token local_pk remote_pk inconsistency_counter
        move_token_counter balance local_debt remote_debt rand_nonce =
      record {
        operations = operations;
        opt_local_relays = relays;
        old_token = old_token;
        local_public_key = local_pk;
        remote_public_key = remote_pk;
        inconsistency_counter = inconsistency_counter;
        move_token_counter = move_token_counter;
        balance = balance;
        local_pending_debt = local_debt;
        remote_pending_debt = remote_debt;
        rand_nonce = rand_nonce;
        new_token = tt;
      }

  -- `TcIncoming::create_unsigned_move_token`; `wrapping_add` on a u128.
  unfoldable pub create_unsigned :
      TcIncoming
      → List FriendTcOp
      → Option (List (RelayAddress B))
      → RandValue
      → MoveToken B (Unit {0})
  unfolding create_unsigned_move_token
  create_unsigned t operations relays rand_nonce =
      create_unsigned_move_token operations relays t.move_token_in.new_token
        t.move_token_in.remote_public_key t.move_token_in.local_public_key
        t.move_token_in.inconsistency_counter
        ((t.move_token_in.move_token_counter + 1) % (half128 + half128))
        t.mutual_credit.balance.balance t.mutual_credit.balance.local_pending_debt
        t.mutual_credit.balance.remote_pending_debt rand_nonce

  -- The body of `sign_move_token`, once the identity server has signed.
  unfoldable pub sign_move_token : MoveToken B (Unit {0}) → Signature → MoveToken B Signature
  sign_move_token m new_token = record {
    operations = m.operations;
    opt_local_relays = m.opt_local_relays;
    old_token = m.old_token;
    local_public_key = m.local_public_key;
    remote_public_key = m.remote_public_key;
    inconsistency_counter = m.inconsistency_counter;
    move_token_counter = m.move_token_counter;
    balance = m.balance;
    local_pending_debt = m.local_pending_debt;
    remote_pending_debt = m.remote_pending_debt;
    rand_nonce = m.rand_nonce;
    new_token = new_token;
  }
