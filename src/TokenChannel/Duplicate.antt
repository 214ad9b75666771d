-- ===== src/TokenChannel/Duplicate.antt =====
-- What an incoming channel takes for a duplicate.
use offst.Prelude.{ℕ, ◌∙◌, ◌≡◌, ◌↔◌, List, ◌∷◌, true, arith, ap}
use offst.Prelude.Outcome.{ok}
use offst.Crypto.{Crypto, Signature}
use offst.Messages.{MoveToken, FriendTcOp, RequestSendFundsOp}
use offst.Messages.Serialize.{serialize_ops, serialize_op, serialize_request}
use offst.Buffers.{prefix_hash}
use offst.TokenChannel.{TcIncoming, hashed_eq, MoveTokenHashed}
use offst.TokenChannel.Create.{create_hashed}
use offst.TokenChannel.Receive.{handle_incoming_in, ReceiveMoveTokenOutput}

hashed_eq_iff : (a b : MoveTokenHashed) → (hashed_eq a b ≡ true) ↔ (a ≡ b)
unfolding hashed_eq
hashed_eq_iff a b = ground arith

-- The same request with other fees and another total payment.
abbrev pub altered : RequestSendFundsOp → ℕ → ℕ → RequestSendFundsOp
altered r fees total = record r { left_fees = fees; total_dest_payment = total }

-- An incoming channel holds the hashed form of a token whose first operation is a request. The
-- token in which this request has other fees and another total payment, all else being the same,
-- is taken for a duplicate of it.
pub altered_is_duplicate :
    (crypto : Crypto) {B : Type 0} (serialize_address : B → List ℕ) (t : TcIncoming)
    (m : MoveToken B Signature) (r : RequestSendFundsOp) (ops : List FriendTcOp) (fees total : ℕ)
    → m.operations ≡ FriendTcOp.request_send_funds r ∷ ops
    → t.move_token_in ≡ create_hashed crypto serialize_address m
    → handle_incoming_in crypto serialize_address t
        (record m { operations = FriendTcOp.request_send_funds (altered r fees total) ∷ ops })
      ≡ ok ReceiveMoveTokenOutput.duplicate
unfolding handle_incoming_in create_hashed prefix_hash serialize_ops serialize_op serialize_request
altered_is_duplicate crypto serialize_address t m r ops fees total e held =
    rw ((hashed_eq_iff t.move_token_in _).1 (held ∙ same))
  where
    same :
        create_hashed crypto serialize_address m
        ≡ create_hashed crypto serialize_address
            (record m { operations = FriendTcOp.request_send_funds (altered r fees total) ∷ ops })
    same = ap (λ os. create_hashed crypto serialize_address (record m { operations = os })) e
