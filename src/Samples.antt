-- ===== src/Samples.antt =====
-- Sample data for the tests: a checksum in place of the hash and of the signature, a route of three
-- nodes, and the two sides of a friendship between the first two of them.
use offst.Prelude.{ℕ, ◌+◌, ◌%◌, ◌^◌, ◌<◌, List, [], ◌∷◌, ◌==◌, arith}
use offst.Prelude.Int.{pos}
use offst.Crypto.{Crypto, Signature, hash_lock}
use offst.Messages.{
  FriendsRoute, RequestSendFundsOp, ResponseSendFundsOp, CollectSendFundsOp, RequestsStatus,
  create_pending_transaction,
}
use offst.Buffers.{create_response_signature_buffer}
use offst.MutualCredit.{MutualCredit}

abbrev pub sum_bytes : List ℕ → ℕ
sum_bytes [] = 0
sum_bytes (x ∷ xs) = x + sum_bytes xs

-- A signature is right if it is the sum of the message and the key.
abbrev pub checksum : Crypto
checksum = record {
  sha_512_256 = λ xs. sum_bytes xs % 256 ^ 32;
  verify_signature = λ message public_key signature. signature == sum_bytes message + public_key;
}

pub checksum_width : (xs : List ℕ) → checksum.sha_512_256 xs < 256 ^ 32
checksum_width xs = omega arith

abbrev pub route : FriendsRoute
route = record { public_keys = 1 ∷ 2 ∷ 3 ∷ [] }

abbrev pub request : RequestSendFundsOp
request = record {
  request_id = 7;
  src_hashed_lock = hash_lock checksum 5;
  route = route;
  dest_payment = 10;
  total_dest_payment = 10;
  invoice_id = 9;
  left_fees = 2;
}

abbrev pub unsigned_response : ResponseSendFundsOp Signature
unsigned_response = record {
  request_id = 7;
  dest_hashed_lock = hash_lock checksum 6;
  rand_nonce = 8;
  signature = 0;
}

-- Signed by the third node.
abbrev pub response : ResponseSendFundsOp Signature
response = record unsigned_response {
  signature =
      sum_bytes (
        create_response_signature_buffer checksum unsigned_response
          (create_pending_transaction request))
      + 3;
}

abbrev pub collect : CollectSendFundsOp
collect = record { request_id = 7; src_plain_lock = 5; dest_plain_lock = 6 }

-- The first node's side, with nothing pending.
abbrev pub credit : MutualCredit
credit = record {
  idents = record { local_public_key = 1; remote_public_key = 2 };
  balance = record {
    balance = pos 20;
    local_max_debt = 100;
    remote_max_debt = 50;
    local_pending_debt = 0;
    remote_pending_debt = 0;
  };
  pending_transactions = record { local = []; remote = [] };
  requests_status = record { local = RequestsStatus.opened; remote = RequestsStatus.opened };
}

-- The same side once it has asked.
abbrev pub asked : MutualCredit
asked = record credit {
  balance = record (credit.balance) { local_pending_debt = 12 };
  pending_transactions = record {
    local = (7, create_pending_transaction request) ∷ [];
    remote = [];
  };
}
