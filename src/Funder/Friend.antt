-- ===== src/Funder/Friend.antt =====
-- components/funder/src/friend.rs: the state of one friend and its mutations. `String` is a list of
-- bytes; sorting by public key is by insertion, which is stable as in the source.
use offst.Prelude.{ℕ, List, [], ◌∷◌, ◌++◌, Option, none, some, leb, ◌==◌, if◌then◌else◌}
use offst.Prelude.Int.{ℤ}
use offst.Crypto.{Crypto, PublicKey, Signature}
use offst.Messages.{
  RelayAddress, ResponseSendFundsOp, CancelSendFundsOp, CollectSendFundsOp, RequestSendFundsOp,
  RequestsStatus, closed,
}
use offst.Fees.{Rate}
use offst.TokenChannel.{
  TokenChannel, TcMutation, MoveTokenHashed, mutate_channel, get_last_incoming_move_token_hashed,
}
use offst.TokenChannel.Create.{new_channel}
use offst.Funder.Messages.{NamedRelayAddress, ResetTerms, FriendStatus, disabled, to_relay}

pub data BackwardsOp : Type 0 where
  response : ResponseSendFundsOp Signature → BackwardsOp
  cancel : CancelSendFundsOp → BackwardsOp
  collect : CollectSendFundsOp → BackwardsOp

-- In `transition`, the last list sent and the one before.
pub data SentLocalRelays (B : Type 0) : Type 0 where
  never_sent : SentLocalRelays B
  transition : List (NamedRelayAddress B) → List (NamedRelayAddress B) → SentLocalRelays B
  last_sent : List (NamedRelayAddress B) → SentLocalRelays B

pub record ChannelInconsistent : Type 0 where
  pub opt_last_incoming_move_token : Option MoveTokenHashed
  pub local_reset_terms : ResetTerms
  pub opt_remote_reset_terms : Option ResetTerms

pub data ChannelStatus (B : Type 0) : Type 0 where
  inconsistent : ChannelInconsistent → ChannelStatus B
  consistent : TokenChannel B → ChannelStatus B

pub record FriendState (B : Type 0) : Type 0 where
  pub local_public_key : PublicKey
  pub remote_public_key : PublicKey
  pub remote_relays : List (RelayAddress B)
  pub sent_local_relays : SentLocalRelays B
  pub name : List ℕ
  pub rate : Rate
  pub status : FriendStatus
  pub channel_status : ChannelStatus B
  pub wanted_remote_max_debt : ℕ
  pub wanted_local_requests_status : RequestsStatus
  pub pending_requests : List RequestSendFundsOp
  pub pending_backwards_ops : List BackwardsOp
  pub pending_user_requests : List RequestSendFundsOp

pub data FriendMutation (B : Type 0) : Type 0 where
  tc_mutation : TcMutation B → FriendMutation B
  set_inconsistent : ChannelInconsistent → FriendMutation B
  set_consistent : TokenChannel B → FriendMutation B
  set_wanted_remote_max_debt : ℕ → FriendMutation B
  set_wanted_local_requests_status : RequestsStatus → FriendMutation B
  push_back_pending_request : RequestSendFundsOp → FriendMutation B
  pop_front_pending_request : FriendMutation B
  push_back_pending_backwards_op : BackwardsOp → FriendMutation B
  pop_front_pending_backwards_op : FriendMutation B
  push_back_pending_user_request : RequestSendFundsOp → FriendMutation B
  pop_front_pending_user_request : FriendMutation B
  set_status : FriendStatus → FriendMutation B
  set_remote_relays : List (RelayAddress B) → FriendMutation B
  set_name : List ℕ → FriendMutation B
  set_rate : Rate → FriendMutation B
  set_sent_local_relays : SentLocalRelays B → FriendMutation B

-- `pop_front`
abbrev pub pop_front : {A : Type 0} → List A → List A
pop_front [] = []
pop_front (x ∷ xs) = xs

module _ {B : Type 0} where
  abbrev pub to_relays : List (NamedRelayAddress B) → List (RelayAddress B)
  to_relays [] = []
  to_relays (r ∷ rs) = to_relay r ∷ to_relays rs

  abbrev pub put_relay : RelayAddress B → List (RelayAddress B) → List (RelayAddress B)
  put_relay r [] = r ∷ []
  put_relay r (q ∷ qs) =
      let rest = put_relay r qs in if leb r.public_key q.public_key then r ∷ q ∷ qs else q ∷ rest

  abbrev pub sort_relays : List (RelayAddress B) → List (RelayAddress B)
  sort_relays [] = []
  sort_relays (r ∷ rs) = put_relay r (sort_relays rs)

  -- Of neighbors of one key the first stays.
  abbrev pub dedup_after : PublicKey → List (RelayAddress B) → List (RelayAddress B)
  dedup_after key [] = []
  dedup_after key (r ∷ rs) =
      if r.public_key == key then dedup_after key rs else r ∷ dedup_after r.public_key rs

  abbrev pub dedup_relays : List (RelayAddress B) → List (RelayAddress B)
  dedup_relays [] = []
  dedup_relays (r ∷ rs) = r ∷ dedup_after r.public_key rs

  -- `SentLocalRelays::to_vec`
  unfoldable pub to_vec : SentLocalRelays B → List (RelayAddress B)
  to_vec never_sent = []
  to_vec (transition last_relays prev_last_relays) =
      dedup_relays (sort_relays (to_relays last_relays ++ to_relays prev_last_relays))
  to_vec (last_sent last_address) = to_relays last_address

  -- `ChannelStatus::get_last_incoming_move_token_hashed`
  abbrev pub status_last_incoming : ChannelStatus B → Option MoveTokenHashed
  status_last_incoming (inconsistent c) = c.opt_last_incoming_move_token
  status_last_incoming (consistent tc) = get_last_incoming_move_token_hashed tc

  abbrev pub with_channel : FriendState B → Option (TokenChannel B) → Option (FriendState B)
  with_channel f none = none
  with_channel f (some tc) = some (record f { channel_status = consistent tc })

  -- A mutation of the token channel, which must be consistent.
  abbrev pub mutate_status : TcMutation B → FriendState B → ChannelStatus B → Option (FriendState B)
  mutate_status m f (inconsistent c) = none
  mutate_status m f (consistent tc) = with_channel f (mutate_channel m tc)

  -- `FriendState::mutate`; `none` is a panic.
  unfoldable pub mutate_friend : FriendMutation B → FriendState B → Option (FriendState B)
  mutate_friend (tc_mutation m) f = mutate_status m f f.channel_status
  mutate_friend (set_inconsistent c) f = some (record f { channel_status = inconsistent c })
  mutate_friend (set_consistent tc) f = some (record f { channel_status = consistent tc })
  mutate_friend (set_wanted_remote_max_debt d) f = some (record f { wanted_remote_max_debt = d })
  mutate_friend (set_wanted_local_requests_status s) f =
      some (record f { wanted_local_requests_status = s })
  mutate_friend (push_back_pending_request r) f =
      some (record f { pending_requests = f.pending_requests ++ r ∷ [] })
  mutate_friend pop_front_pending_request f =
      some (record f { pending_requests = pop_front f.pending_requests })
  mutate_friend (push_back_pending_backwards_op op) f =
      some (record f { pending_backwards_ops = f.pending_backwards_ops ++ op ∷ [] })
  mutate_friend pop_front_pending_backwards_op f =
      some (record f { pending_backwards_ops = pop_front f.pending_backwards_ops })
  mutate_friend (push_back_pending_user_request r) f =
      some (record f { pending_user_requests = f.pending_user_requests ++ r ∷ [] })
  mutate_friend pop_front_pending_user_request f =
      some (record f { pending_user_requests = pop_front f.pending_user_requests })
  mutate_friend (set_status s) f = some (record f { status = s })
  mutate_friend (set_remote_relays r) f = some (record f { remote_relays = r })
  mutate_friend (set_name n) f = some (record f { name = n })
  mutate_friend (set_rate r) f = some (record f { rate = r })
  mutate_friend (set_sent_local_relays r) f = some (record f { sent_local_relays = r })

  -- `FriendState::new`; `none` is the panic of `TokenChannel::new`.
  unfoldable pub new_friend :
      Crypto
      → (B → List ℕ)
      → PublicKey
      → PublicKey
      → List (RelayAddress B)
      → List ℕ
      → ℤ
      → Option (FriendState B)
  new_friend crypto serialize_address local_public_key remote_public_key remote_relays name
        balance =
      elim (new_channel crypto serialize_address local_public_key remote_public_key balance) [
        | none ↦ none
        | some tc ↦ some (record {
          local_public_key = local_public_key;
          remote_public_key = remote_public_key;
          remote_relays = remote_relays;
          sent_local_relays = never_sent;
          name = name;
          rate = record { mul = 0; add = 0 };
          status = disabled;
          channel_status = consistent tc;
          wanted_remote_max_debt = 0;
          wanted_local_requests_status = closed;
          pending_requests = [];
          pending_backwards_ops = [];
          pending_user_requests = [];
        })
      ]
