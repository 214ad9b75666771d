-- ===== src/Buffers/Tests.antt =====
-- Tests of the buffers, receipts and commits.
use offst.Prelude.{◌≡◌, ◌↔◌, refl, true, [], ◌∷◌, arith}
use offst.Messages.{create_pending_transaction}
use offst.Buffers.{
  create_response_signature_buffer, inner_blob, prepare_receipt, verify_receipt, prepare_commit,
  verify_commit, MultiCommit, verify_multi_commit,
}
use offst.Buffers.Receipts.{AllSigned, total_of, prepared_verify, verify_multi_commit_iff}
use offst.Samples.{checksum, request, response, collect}

signed_by_third :
    checksum.verify_signature
      (create_response_signature_buffer checksum response (create_pending_transaction request))
      3
      response.signature
    ≡ true
unfolding create_response_signature_buffer inner_blob
signed_by_third = ground arith

prepared_verify_example :
    (verify_receipt checksum
        (prepare_receipt checksum collect response (create_pending_transaction request))
        3
      ≡ true)
    × (verify_commit checksum
          (prepare_commit checksum response (create_pending_transaction request) 5)
          9
          10
          3
        ≡ true)
unfolding create_pending_transaction
prepared_verify_example =
    prepared_verify checksum collect response (create_pending_transaction request) 3 signed_by_third
      refl refl

-- A payment of one part.
abbrev parts : MultiCommit
parts = record {
  invoice_id = 9;
  total_dest_payment = 10;
  commits = prepare_commit checksum response (create_pending_transaction request) 5 ∷ [];
}

verify_multi_commit_iff_example :
    (verify_multi_commit checksum parts 3 ≡ true)
    ↔ (AllSigned checksum 9 10 3 parts.commits × (total_of parts.commits ≡ 10))
verify_multi_commit_iff_example = verify_multi_commit_iff checksum parts 3 (omega arith)
