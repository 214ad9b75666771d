-- ===== src/Buffers.antt =====
-- components/proto/src/funder/signature_buff.rs: the buffers that are signed and hashed.
pub mod Binding
pub mod Receipts
pub mod Tests
use offst.Prelude.{
  ℕ, ◌+◌, Bool, true, false, ◌&&◌, List, [], ◌∷◌, ◌++◌, Option, none, some, length, ltb, ◌==◌,
  if◌then◌else◌,
}
use offst.Prelude.Int.{ℤ}
use offst.SafeArith.{as_unsigned}
use offst.Crypto.{
  Crypto, PublicKey, Signature, HashResult, HashedLock, InvoiceId, PlainLock, be_bytes, hash_lock,
  uid_len, hash_len, public_key_len, signature_len, rand_value_len,
}
use offst.Messages.{ResponseSendFundsOp, CollectSendFundsOp, PendingTransaction, MoveToken}
use offst.Messages.Serialize.{serialize_route, serialize_ops, serialize_opt_relays}

-- b"FUND_RESPONSE"
abbrev pub funds_response_prefix : List ℕ
funds_response_prefix =
    b'F' ∷ b'U' ∷ b'N' ∷ b'D' ∷ b'_' ∷ b'R' ∷ b'E' ∷ b'S' ∷ b'P' ∷ b'O' ∷ b'N' ∷ b'S' ∷ b'E' ∷ []

-- b"NEXT"
abbrev pub token_next : List ℕ
token_next = b'N' ∷ b'E' ∷ b'X' ∷ b'T' ∷ []

-- 2 ^ 127, which bounds `i128`; `u128` is bounded by twice that.
abbrev pub half128 : ℕ
half128 = 170141183460469231731687303715884105728

pub record Receipt : Type 0 where
  pub response_hash : HashResult
  pub invoice_id : InvoiceId
  pub src_plain_lock : PlainLock
  pub dest_plain_lock : PlainLock
  pub dest_payment : ℕ
  pub total_dest_payment : ℕ
  pub signature : Signature

pub record Commit : Type 0 where
  pub response_hash : HashResult
  pub dest_payment : ℕ
  pub src_plain_lock : PlainLock
  pub dest_hashed_lock : HashedLock
  pub signature : Signature

pub record MultiCommit : Type 0 where
  pub invoice_id : InvoiceId
  pub total_dest_payment : ℕ
  pub commits : List Commit

-- The second loop of `verify_multi_commit`.
unfoldable pub sum_credits : ℕ → List Commit → Option ℕ
sum_credits sum [] = some sum
sum_credits sum (c ∷ cs) =
    let rest = sum_credits (sum + c.dest_payment) cs in
    if ltb (sum + c.dest_payment) (half128 + half128) then rest else none

module _ (crypto : Crypto) where
  open crypto use {sha_512_256, verify_signature}

  -- `inner_blob`, which `prepare_receipt` and `prepare_commit` call `hash_buff`.
  unfoldable pub inner_blob : {S : Type 0} → ResponseSendFundsOp S → PendingTransaction → List ℕ
  inner_blob r t =
      be_bytes uid_len t.request_id
      ++ (be_bytes hash_len (sha_512_256 (serialize_route t.route))
          ++ be_bytes rand_value_len r.rand_nonce)

  unfoldable pub create_response_signature_buffer :
      {S : Type 0} → ResponseSendFundsOp S → PendingTransaction → List ℕ
  create_response_signature_buffer r t =
      be_bytes hash_len (sha_512_256 funds_response_prefix)
      ++ (be_bytes hash_len (sha_512_256 (inner_blob r t))
          ++ (be_bytes hash_len t.src_hashed_lock
              ++ (be_bytes hash_len r.dest_hashed_lock
                  ++ (be_bytes 16 t.dest_payment
                      ++ (be_bytes 16 t.total_dest_payment ++ be_bytes hash_len t.invoice_id)))))

  unfoldable pub prepare_receipt :
      CollectSendFundsOp → ResponseSendFundsOp Signature → PendingTransaction → Receipt
  prepare_receipt c r t = record {
    response_hash = sha_512_256 (inner_blob r t);
    invoice_id = t.invoice_id;
    src_plain_lock = c.src_plain_lock;
    dest_plain_lock = c.dest_plain_lock;
    dest_payment = t.dest_payment;
    total_dest_payment = t.total_dest_payment;
    signature = r.signature;
  }

  unfoldable pub verify_receipt : Receipt → PublicKey → Bool
  verify_receipt receipt public_key =
      verify_signature
        (be_bytes hash_len (sha_512_256 funds_response_prefix)
          ++ (be_bytes hash_len receipt.response_hash
              ++ (be_bytes hash_len (hash_lock crypto receipt.src_plain_lock)
                  ++ (be_bytes hash_len (hash_lock crypto receipt.dest_plain_lock)
                      ++ (be_bytes 16 receipt.dest_payment
                          ++ (be_bytes 16 receipt.total_dest_payment
                              ++ be_bytes hash_len receipt.invoice_id))))))
        public_key receipt.signature

  unfoldable pub prepare_commit :
      ResponseSendFundsOp Signature → PendingTransaction → PlainLock → Commit
  prepare_commit r t src_plain_lock = record {
    response_hash = sha_512_256 (inner_blob r t);
    dest_payment = t.dest_payment;
    src_plain_lock = src_plain_lock;
    dest_hashed_lock = r.dest_hashed_lock;
    signature = r.signature;
  }

  unfoldable pub verify_commit : Commit → InvoiceId → ℕ → PublicKey → Bool
  verify_commit commit invoice_id total_dest_payment local_public_key =
      verify_signature
        (be_bytes hash_len (sha_512_256 funds_response_prefix)
          ++ (be_bytes hash_len commit.response_hash
              ++ (be_bytes hash_len (hash_lock crypto commit.src_plain_lock)
                  ++ (be_bytes hash_len commit.dest_hashed_lock
                      ++ (be_bytes 16 commit.dest_payment
                          ++ (be_bytes 16 total_dest_payment ++ be_bytes hash_len invoice_id))))))
        local_public_key commit.signature

  -- The first loop of `verify_multi_commit`.
  unfoldable pub verify_commits : Bool → InvoiceId → ℕ → PublicKey → List Commit → Bool
  verify_commits is_sig_valid invoice_id total pk [] = is_sig_valid
  verify_commits is_sig_valid invoice_id total pk (c ∷ cs) =
      verify_commits (is_sig_valid && verify_commit c invoice_id total pk) invoice_id total pk cs

  unfoldable pub verify_multi_commit : MultiCommit → PublicKey → Bool
  unfolding verify_commits sum_credits
  verify_multi_commit m local_public_key =
      if verify_commits true m.invoice_id m.total_dest_payment local_public_key m.commits
      then elim (sum_credits 0 m.commits) [ some sum ↦ sum == m.total_dest_payment | none ↦ false ]
      else false

  module _ {B : Type 0} (serialize_address : B → List ℕ) {S : Type 0} where
    unfoldable pub prefix_hash : MoveToken B S → HashResult
    prefix_hash m = sha_512_256 (
        be_bytes signature_len m.old_token
        ++ (be_bytes 8 (length m.operations)
            ++ (serialize_ops m.operations
                ++ serialize_opt_relays serialize_address m.opt_local_relays)))

    unfoldable pub move_token_signature_buff : MoveToken B S → List ℕ
    move_token_signature_buff m =
        be_bytes hash_len (sha_512_256 token_next)
        ++ (be_bytes hash_len (prefix_hash m)
            ++ (be_bytes public_key_len m.local_public_key
                ++ (be_bytes public_key_len m.remote_public_key
                    ++ (be_bytes 8 m.inconsistency_counter
                        ++ (be_bytes 16 m.move_token_counter
                            ++ (be_bytes 16 (as_unsigned half128 m.balance)
                                ++ (be_bytes 16 m.local_pending_debt
                                    ++ (be_bytes 16 m.remote_pending_debt
                                        ++ be_bytes rand_value_len m.rand_nonce))))))))

  unfoldable pub verify_move_token :
      {B : Type 0} → (B → List ℕ) → MoveToken B Signature → PublicKey → Bool
  verify_move_token serialize_address m public_key =
      verify_signature (move_token_signature_buff serialize_address m) public_key m.new_token
