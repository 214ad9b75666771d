-- ===== src/Funder/Messages.antt =====
-- components/proto/src/funder/messages.rs and app_server/messages.rs: what the funder's handlers read
-- and send. A name is the list of its bytes.
use offst.Prelude.{ℕ, Bool, true, false, ◌&&◌, List, [], ◌∷◌, ◌==◌}
use offst.Prelude.Int.{ℤ}
use offst.Crypto.{PublicKey, Signature, Uid}
use offst.Messages.{MoveToken, RelayAddress, CancelSendFundsOp, RequestsStatus, opened, closed}
use offst.Buffers.{Commit}

pub record NamedRelayAddress (B : Type 0) : Type 0 where
  pub public_key : PublicKey
  pub address : B
  pub name : List ℕ

-- `RelayAddress::from`
abbrev pub to_relay : {B : Type 0} → NamedRelayAddress B → RelayAddress B
to_relay r = record { public_key = r.public_key; address = r.address }

pub record ResetTerms : Type 0 where
  pub reset_token : Signature
  pub inconsistency_counter : ℕ
  pub balance_for_reset : ℤ

pub record MoveTokenRequest (B : Type 0) : Type 0 where
  pub friend_move_token : MoveToken B Signature
  pub token_wanted : Bool

pub data FriendMessage (B : Type 0) : Type 0 where
  move_token_request : MoveTokenRequest B → FriendMessage B
  inconsistency_error : ResetTerms → FriendMessage B

pub data FriendStatus : Type 0 where
  enabled disabled : FriendStatus

pub record AddFriend (B : Type 0) : Type 0 where
  pub friend_public_key : PublicKey
  pub relays : List (RelayAddress B)
  pub name : List ℕ
  pub balance : ℤ

pub data RequestResult : Type 0 where
  success : Commit → RequestResult
  failure : RequestResult

pub record TransactionResult : Type 0 where
  pub request_id : Uid
  pub result : RequestResult

pub record ChannelerUpdateFriend (Ra : Type 0) : Type 0 where
  pub friend_public_key : PublicKey
  pub friend_relays : List Ra
  pub local_relays : List Ra

-- components/funder/src/types.rs
pub data ChannelerConfig (Ra : Type 0) : Type 0 where
  set_relays : List Ra → ChannelerConfig Ra
  update_friend : ChannelerUpdateFriend Ra → ChannelerConfig Ra
  remove_friend : PublicKey → ChannelerConfig Ra

abbrev pub create_cancel_send_funds : Uid → CancelSendFundsOp
create_cancel_send_funds request_id = record { request_id = request_id }

-- The derived equalities.
abbrev pub status_eq : RequestsStatus → RequestsStatus → Bool
status_eq opened opened = true
status_eq opened closed = false
status_eq closed opened = false
status_eq closed closed = true

abbrev pub bytes_eq : List ℕ → List ℕ → Bool
bytes_eq [] [] = true
bytes_eq [] (y ∷ ys) = false
bytes_eq (x ∷ xs) [] = false
bytes_eq (x ∷ xs) (y ∷ ys) = x == y && bytes_eq xs ys

module _ {B : Type 0} (address_eq : B → B → Bool) where
  abbrev pub relay_eq : NamedRelayAddress B → NamedRelayAddress B → Bool
  relay_eq r q =
      r.public_key == q.public_key && (address_eq r.address q.address && bytes_eq r.name q.name)

  abbrev pub relays_eq : List (NamedRelayAddress B) → List (NamedRelayAddress B) → Bool
  relays_eq [] [] = true
  relays_eq [] (y ∷ ys) = false
  relays_eq (x ∷ xs) [] = false
  relays_eq (x ∷ xs) (y ∷ ys) = relay_eq x y && relays_eq xs ys
