-- ===== src/Buffers/Receipts.antt =====
-- components/proto/src/funder/signature_buff.rs: receipts and commits, and their verification.
use offst.Prelude.{
  ℕ, ◌+◌, ◌<◌, ◌≡◌, ◌↔◌, refl, Bool, true, ◌&&◌, List, [], ◌∷◌, some, arith, Option-cases, inl, inr,
}
use offst.Crypto.{Crypto, PublicKey, Signature, InvoiceId, hash_lock}
use offst.Messages.{ResponseSendFundsOp, CollectSendFundsOp, PendingTransaction}
use offst.Buffers.{
  create_response_signature_buffer, prepare_receipt, verify_receipt, prepare_commit, verify_commit,
  Commit, MultiCommit, verify_commits, sum_credits, verify_multi_commit, half128,
}

-- A response that the destination signed, and locks that open the two hashed locks: the receipt that
-- is prepared from them verifies under the destination's key, and so does the commit, for the
-- invoice and the total of the transaction.
pub prepared_verify :
    (crypto : Crypto) (c : CollectSendFundsOp) (r : ResponseSendFundsOp Signature)
    (t : PendingTransaction) (pk : PublicKey)
    → crypto.verify_signature (create_response_signature_buffer crypto r t) pk r.signature ≡ true
    → hash_lock crypto c.src_plain_lock ≡ t.src_hashed_lock
    → hash_lock crypto c.dest_plain_lock ≡ r.dest_hashed_lock
    → (verify_receipt crypto (prepare_receipt crypto c r t) pk ≡ true)
      × (verify_commit crypto
            (prepare_commit crypto r t c.src_plain_lock)
            t.invoice_id
            t.total_dest_payment
            pk
          ≡ true)
unfolding create_response_signature_buffer verify_receipt prepare_receipt verify_commit
    prepare_commit
prepared_verify crypto c r t pk signed src dest =
    (rw (src, dest, verify_receipt) signed, rw (src, verify_commit) signed)

-- The payments of all commits.
abbrev pub total_of : List Commit → ℕ
total_of [] = 0
total_of (c ∷ cs) = c.dest_payment + total_of cs

-- Every commit is signed for this invoice and total.
abbrev pub AllSigned : Crypto → InvoiceId → ℕ → PublicKey → List Commit → Type 0
AllSigned crypto invoice total pk [] = Unit {0}
AllSigned crypto invoice total pk (c ∷ cs) =
    (verify_commit crypto c invoice total pk ≡ true) × AllSigned crypto invoice total pk cs

module _ (crypto : Crypto) (invoice : InvoiceId) (total : ℕ) (pk : PublicKey) where
  commits_forward :
      (b : Bool) (cs : List Commit)
      → verify_commits crypto b invoice total pk cs ≡ true
      → (b ≡ true) × AllSigned crypto invoice total pk cs
  unfolding verify_commits
  commits_forward b [] h = (h, tt)
  commits_forward b (c ∷ cs) h =
      let (e, rest) = commits_forward (b && verify_commit crypto c invoice total pk) cs h in
      (ground arith, (ground arith, rest))

  commits_backward :
      (cs : List Commit)
      → AllSigned crypto invoice total pk cs
      → verify_commits crypto true invoice total pk cs ≡ true
  unfolding verify_commits
  commits_backward [] h = refl
  commits_backward (c ∷ cs) h = rw h.0 (commits_backward cs h.1)

sum_forward : (s x : ℕ) (cs : List Commit) → sum_credits s cs ≡ some x → x ≡ s + total_of cs
unfolding sum_credits
sum_forward s x [] h = ground arith
sum_forward s x (c ∷ cs) h = ground (arith, sum_forward (s + c.dest_payment) x cs)

sum_backward :
    (s : ℕ) (cs : List Commit)
    → s + total_of cs < half128 + half128
    → sum_credits s cs ≡ some (s + total_of cs)
unfolding sum_credits
sum_backward s [] h = ground arith
sum_backward s (c ∷ cs) h = ground (arith, sum_backward (s + c.dest_payment) cs)

-- A multi-commit whose total is a 128-bit word verifies exactly if every commit is signed for its
-- invoice and total, and the payments of the commits add up to that total.
pub verify_multi_commit_iff :
    (crypto : Crypto) (m : MultiCommit) (pk : PublicKey)
    → m.total_dest_payment < half128 + half128
    → (verify_multi_commit crypto m pk ≡ true) ↔ (
        AllSigned crypto m.invoice_id m.total_dest_payment pk m.commits
        × (total_of m.commits ≡ m.total_dest_payment))
unfolding verify_multi_commit
verify_multi_commit_iff crypto m pk small = (forward, backward)
  where
    forward :
        verify_multi_commit crypto m pk ≡ true
        → AllSigned crypto m.invoice_id m.total_dest_payment pk m.commits
          × (total_of m.commits ≡ m.total_dest_payment)
    forward h = (
      (commits_forward crypto m.invoice_id m.total_dest_payment pk true m.commits (ground arith)).1,
      elim (Option-cases (sum_credits 0 m.commits)) [
        | inl e ↦ absurd (ground arith)
        | inr (x, e) ↦ ground (arith, sum_forward 0 x m.commits e)
      ],
    )

    backward :
        AllSigned crypto m.invoice_id m.total_dest_payment pk m.commits
          × (total_of m.commits ≡ m.total_dest_payment)
        → verify_multi_commit crypto m pk ≡ true
    backward (signed, sum) = ground (
      arith,
      commits_backward crypto m.invoice_id m.total_dest_payment pk m.commits signed,
      sum_backward 0 m.commits (omega (arith, sum, small)),
    )
