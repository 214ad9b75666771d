-- ===== src/Funder/Utils.antt =====
-- components/funder/src/handler/utils.rs: searches in the state of the funder.
use offst.Prelude.{Bool, false, Option, none, some, [], ◌∷◌, if◌then◌else◌}
use offst.Prelude.Dict.{Dict, get, contains_key}
use offst.Crypto.{PublicKey, Uid}
use offst.Messages.{PendingTransaction, is_open}
use offst.MutualCredit.{MutualCredit}
use offst.TokenChannel.{get_mutual_credit}
use offst.Funder.Friend.{FriendState, ChannelStatus, inconsistent, consistent}
use offst.Funder.State.{FunderState}
use offst.Funder.Liveness.{Ephemeral, is_online}

module _ {B : Type 0} where
  -- The mutual credit of a consistent channel.
  abbrev pub credit_with : ChannelStatus B → Option MutualCredit
  credit_with (inconsistent c) = none
  credit_with (consistent tc) = some (get_mutual_credit tc)

  abbrev pub is_origin : Uid → FriendState B → Bool
  is_origin request_id f = elim (credit_with f.channel_status) [
    | none ↦ false
    | some mc ↦ contains_key request_id mc.pending_transactions.remote
  ]

  unfoldable pub find_origin : Uid → Dict (FriendState B) → Option PublicKey
  find_origin request_id [] = none
  find_origin request_id ((pk, f) ∷ fs) =
      let rest = find_origin request_id fs in if is_origin request_id f then some pk else rest

  abbrev pub find_request_origin : FunderState B → Uid → Option PublicKey
  find_request_origin s request_id = find_origin request_id s.friends

  abbrev pub local_pending : Uid → FriendState B → Option PendingTransaction
  local_pending request_id f = elim (credit_with f.channel_status) [
    | none ↦ none
    | some mc ↦ get request_id mc.pending_transactions.local
  ]

  abbrev pub find_local_pending : Uid → Dict (FriendState B) → Option PendingTransaction
  find_local_pending request_id [] = none
  find_local_pending request_id ((pk, f) ∷ fs) =
      let rest = find_local_pending request_id fs in
      elim (local_pending request_id f) [ none ↦ rest | some t ↦ some t ]

  abbrev pub find_local_pending_transaction : FunderState B → Uid → Option PendingTransaction
  find_local_pending_transaction s request_id = find_local_pending request_id s.friends

  -- The friend's side of the requests.
  abbrev pub has_open_requests : ChannelStatus B → Bool
  has_open_requests (inconsistent c) = false
  has_open_requests (consistent tc) = is_open (get_mutual_credit tc).requests_status.remote

  -- `none` is the panic for a friend that is not there.
  abbrev pub is_friend_ready : FunderState B → Ephemeral → PublicKey → Option Bool
  is_friend_ready s e pk = elim (get pk s.friends) [
    | none ↦ none
    | some f ↦
        if is_online e.liveness pk then some (has_open_requests f.channel_status) else some false
  ]
