-- ===== src/Messages/Serialize.antt =====
-- components/proto/src/funder/messages.rs, components/common/src/canonical_serialize.rs and
-- components/proto/src/app_server/messages.rs: `canonical_serialize`, the bytes that are signed
-- and hashed. `usize_to_u64` never fails on the supported widths.
use offst.Prelude.{ℕ, Option, none, some, List, [], ◌∷◌, ◌++◌, length}
use offst.Crypto.{
  PublicKey, Signature, be_bytes, uid_len, hash_len, public_key_len, signature_len, rand_value_len,
}
use offst.Messages.{
  FriendsRoute, RequestSendFundsOp, ResponseSendFundsOp, CancelSendFundsOp, CollectSendFundsOp,
  FriendTcOp, RelayAddress,
}

serialize_keys : List PublicKey → List ℕ
serialize_keys [] = []
serialize_keys (pk ∷ pks) = be_bytes public_key_len pk ++ serialize_keys pks

unfoldable pub serialize_route : FriendsRoute → List ℕ
unfolding serialize_keys
serialize_route r = be_bytes 8 (length r.public_keys) ++ serialize_keys r.public_keys

unfoldable pub serialize_request : RequestSendFundsOp → List ℕ
serialize_request r =
    be_bytes uid_len r.request_id
    ++ (be_bytes hash_len r.src_hashed_lock
        ++ (serialize_route r.route
            ++ (be_bytes 16 r.dest_payment ++ be_bytes hash_len r.invoice_id)))

unfoldable pub serialize_response : ResponseSendFundsOp Signature → List ℕ
serialize_response r =
    be_bytes uid_len r.request_id
    ++ (be_bytes hash_len r.dest_hashed_lock
        ++ (be_bytes rand_value_len r.rand_nonce ++ be_bytes signature_len r.signature))

unfoldable pub serialize_cancel : CancelSendFundsOp → List ℕ
serialize_cancel c = be_bytes uid_len c.request_id

unfoldable pub serialize_collect : CollectSendFundsOp → List ℕ
serialize_collect c =
    be_bytes uid_len c.request_id
    ++ (be_bytes hash_len c.src_plain_lock ++ be_bytes hash_len c.dest_plain_lock)

-- `impl CanonicalSerialize for FriendTcOp`
unfoldable pub serialize_op : FriendTcOp → List ℕ
serialize_op FriendTcOp.enable_requests = 0 ∷ []
serialize_op FriendTcOp.disable_requests = 1 ∷ []
serialize_op (FriendTcOp.set_remote_max_debt d) = 2 ∷ be_bytes 16 d
serialize_op (FriendTcOp.request_send_funds r) = 3 ∷ serialize_request r
serialize_op (FriendTcOp.response_send_funds r) = 4 ∷ serialize_response r
serialize_op (FriendTcOp.cancel_send_funds c) = 5 ∷ serialize_cancel c
serialize_op (FriendTcOp.collect_send_funds c) = 6 ∷ serialize_collect c

-- The bytes of operations one after the other, as `prefix_hash` collects them.
unfoldable pub serialize_ops : List FriendTcOp → List ℕ
serialize_ops [] = []
serialize_ops (op ∷ ops) = serialize_op op ++ serialize_ops ops

-- The address type `B` comes with its own `canonical_serialize`.
module _ {B : Type 0} (serialize_address : B → List ℕ) where
  unfoldable pub serialize_relay : RelayAddress B → List ℕ
  serialize_relay r = be_bytes public_key_len r.public_key ++ serialize_address r.address

  serialize_relays : List (RelayAddress B) → List ℕ
  serialize_relays [] = []
  serialize_relays (r ∷ rs) = serialize_relay r ++ serialize_relays rs

  -- The instances for `Option<T>` and `Vec<T>` at the relays.
  unfoldable pub serialize_opt_relays : Option (List (RelayAddress B)) → List ℕ
  unfolding serialize_relays
  serialize_opt_relays none = 0 ∷ []
  serialize_opt_relays (some rs) = 1 ∷ be_bytes 8 (length rs) ++ serialize_relays rs
