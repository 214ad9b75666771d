-- ===== src/TokenChannel/Initial.antt =====
-- The two sides of a new friendship, and what it is for two channels to be in step.
use offst.Prelude.{ℕ, ◌<◌, ◌≡◌, refl, true, false, List, some, none, arith}
use offst.Prelude.Int.{ℤ, negsuc, neg, neg-neg, neg_parts, pos, pos_part, neg_part, ◌-ℤ◌}
use offst.Crypto.{Crypto, PublicKey, public_key_less}
use offst.SafeArith.{checked_sub}
use offst.Buffers.{half128}
use offst.MutualCredit.{new}
use offst.MutualCredit.Mirror.{mirror}
use offst.MutualCredit.Invariant.{IsValid, new-IsValid}
use offst.TokenChannel.{TcDirection, TcIncoming, TcOutgoing, checked_neg}
use offst.TokenChannel.Create.{create_hashed, new_channel, initial_move_token}

-- The negation of a balance that is no least word.
pub checked_neg_word :
    (b : ℤ) → pos_part b < half128 → neg_part b < half128 → checked_neg b ≡ some (neg b)
unfolding checked_neg checked_sub neg ◌-ℤ◌
checked_neg_word (pos n) p q = ground arith
checked_neg_word (negsuc n) p q = ground arith

-- One channel has sent the token that the other one holds, their credits mirror one another, and
-- the token names the two sides.
pub record InStep (crypto : Crypto) {B : Type 0} (serialize_address : B → List ℕ)
    (out : TcOutgoing B) (inc : TcIncoming) : Type 0 where
  pub token : inc.move_token_in ≡ create_hashed crypto serialize_address out.move_token_out
  pub credit : out.mutual_credit ≡ mirror inc.mutual_credit
  pub local_key : out.move_token_out.local_public_key ≡ out.mutual_credit.idents.local_public_key
  pub remote_key : out.move_token_out.remote_public_key ≡ out.mutual_credit.idents.remote_public_key
  pub valid : IsValid inc.mutual_credit

not_less :
    (crypto : Crypto) (a b : PublicKey)
    → public_key_less crypto a b ≡ true
    → public_key_less crypto b a ≡ false
unfolding public_key_less
not_less crypto a b h = ground arith

-- Two nodes that open a friendship, each with its own key first and with opposite balances, begin
-- in step: the one with the lesser key sends, the other one holds the token that was sent.
pub new_channel-InStep :
    (crypto : Crypto) {B : Type 0} (serialize_address : B → List ℕ) (a b : PublicKey) (balance : ℤ)
    → public_key_less crypto a b ≡ true
    → pos_part balance < half128
    → neg_part balance < half128
    → (out : TcOutgoing B) × (inc : TcIncoming) × (new_channel crypto serialize_address a b balance
        ≡ some (record { direction = TcDirection.outgoing out }))
      × (new_channel crypto serialize_address b a (neg balance)
          ≡ some (record { direction = TcDirection.incoming inc }))
      × InStep crypto serialize_address out inc
unfolding new_channel new create_hashed initial_move_token
new_channel-InStep crypto {B} serialize_address a b balance less p q = (
  record {
    mutual_credit = new a b balance;
    move_token_out = initial_move_token crypto serialize_address a b balance;
    opt_prev_move_token_in = none;
  },
  record {
    mutual_credit = new b a (neg balance);
    move_token_in =
        create_hashed crypto serialize_address
          (initial_move_token crypto serialize_address a b balance);
  },
  rw less,
  rw (
    not_less crypto a b less,
    checked_neg_word (neg balance) (omega (arith, neg_parts balance))
        (omega (arith, neg_parts balance)),
    neg-neg balance,
  ),
  record {
    token = refl;
    credit = rw (neg-neg balance);
    local_key = refl;
    remote_key = refl;
    valid =
        new-IsValid b a (neg balance) (omega (arith, neg_parts balance))
          (omega (arith, neg_parts balance));
  },
)
