-- ===== src/Funder/State.antt =====
-- components/funder/src/state.rs: the state of the funder and its mutations. A hash map goes through
-- its keys in the order of the association list.
use offst.Prelude.{ℕ, List, [], ◌∷◌, ◌++◌, Option, none, some, ◌==◌, if◌then◌else◌}
use offst.Prelude.Dict.{Dict, get, insert, remove}
use offst.Crypto.{Crypto, PublicKey, Uid, PlainLock, InvoiceId, hash_lock}
use offst.Messages.{ResponseSendFundsOp}
use offst.Crypto.{Signature}
use offst.Buffers.{Receipt}
use offst.Funder.Messages.{NamedRelayAddress, AddFriend}
use offst.Funder.Friend.{FriendState, FriendMutation, mutate_friend, new_friend}

abbrev pub PaymentId : Type 0
PaymentId = ℕ

pub record NewTransactions : Type 0 where
  pub num_transactions : ℕ
  pub invoice_id : InvoiceId
  pub total_dest_payment : ℕ
  pub dest_public_key : PublicKey

pub data Payment : Type 0 where
  new_transactions : NewTransactions → Payment
  in_progress : ℕ → Payment
  success : ℕ → Receipt → Uid → Payment
  canceled : Uid → Payment
  after_success_ack : ℕ → Payment

pub record IncomingTransaction : Type 0 where
  pub request_id : Uid
  pub dest_plain_lock : PlainLock

pub record OpenInvoice : Type 0 where
  pub total_dest_payment : ℕ
  pub incoming_transactions : Dict IncomingTransaction

pub record OpenTransaction : Type 0 where
  pub payment_id : PaymentId
  pub src_plain_lock : PlainLock
  pub opt_response : Option (ResponseSendFundsOp Signature)

pub record FunderState (B : Type 0) : Type 0 where
  pub local_public_key : PublicKey
  pub relays : List (NamedRelayAddress B)
  pub friends : Dict (FriendState B)
  pub open_invoices : Dict OpenInvoice
  pub open_transactions : Dict OpenTransaction
  pub payments : Dict Payment

pub data FunderMutation (B : Type 0) : Type 0 where
  friend_mutation : PublicKey → FriendMutation B → FunderMutation B
  add_relay : NamedRelayAddress B → FunderMutation B
  remove_relay : PublicKey → FunderMutation B
  add_friend : AddFriend B → FunderMutation B
  remove_friend : PublicKey → FunderMutation B
  add_invoice : InvoiceId → ℕ → FunderMutation B
  add_incoming_transaction : InvoiceId → Uid → PlainLock → FunderMutation B
  remove_invoice : InvoiceId → FunderMutation B
  add_transaction : Uid → PaymentId → PlainLock → FunderMutation B
  set_transaction_response : ResponseSendFundsOp Signature → FunderMutation B
  remove_transaction : Uid → FunderMutation B
  update_payment : PaymentId → Payment → FunderMutation B
  remove_payment : PaymentId → FunderMutation B

abbrev pub new_invoice : ℕ → OpenInvoice
new_invoice total_dest_payment = record {
  total_dest_payment = total_dest_payment;
  incoming_transactions = [];
}

module _ {B : Type 0} where
  -- `retain`: the relays of other keys.
  abbrev pub retain_relays : PublicKey → List (NamedRelayAddress B) → List (NamedRelayAddress B)
  retain_relays key [] = []
  retain_relays key (r ∷ rs) =
      let rest = retain_relays key rs in if r.public_key == key then rest else r ∷ rest

  abbrev pub new_state : PublicKey → List (NamedRelayAddress B) → FunderState B
  new_state local_public_key relays = record {
    local_public_key = local_public_key;
    relays = relays;
    friends = [];
    open_invoices = [];
    open_transactions = [];
    payments = [];
  }

  -- A changed friend is written back.
  abbrev pub store_friend :
      PublicKey → FunderState B → Option (FriendState B) → Option (FunderState B)
  store_friend pk s none = none
  store_friend pk s (some f) = some (record s { friends = insert pk f s.friends })

  abbrev pub mutate_at : PublicKey → FriendMutation B → FunderState B → Option (FunderState B)
  mutate_at pk m s = elim (get pk s.friends) [
    | none ↦ none
    | some f ↦ store_friend pk s (mutate_friend m f)
  ]

  -- The insertion of a friend, which must be new.
  abbrev pub store_new_friend :
      PublicKey → FunderState B → Option (FriendState B) → Option (FunderState B)
  store_new_friend pk s none = none
  store_new_friend pk s (some f) = elim (get pk s.friends) [
    | none ↦ some (record s { friends = insert pk f s.friends })
    | some old ↦ none
  ]

  module _ (crypto : Crypto) (serialize_address : B → List ℕ) where
    -- `FunderState::mutate`; `none` is a panic.
    unfoldable pub mutate_state : FunderMutation B → FunderState B → Option (FunderState B)
    mutate_state (friend_mutation pk m) s = mutate_at pk m s
    mutate_state (add_relay r) s =
        some (record s { relays = retain_relays r.public_key s.relays ++ r ∷ [] })
    mutate_state (remove_relay pk) s = some (record s { relays = retain_relays pk s.relays })
    mutate_state (add_friend a) s = store_new_friend a.friend_public_key s (
        new_friend crypto serialize_address s.local_public_key a.friend_public_key a.relays a.name
          a.balance)
    mutate_state (remove_friend pk) s = some (record s { friends = remove pk s.friends })
    mutate_state (add_invoice invoice_id total_dest_payment) s = some (record s {
      open_invoices = insert invoice_id (new_invoice total_dest_payment) s.open_invoices;
    })
    mutate_state (add_incoming_transaction invoice_id request_id dest_plain_lock) s =
        elim (get invoice_id s.open_invoices) [
          | none ↦ none
          | some invoice ↦ some (record s {
            open_invoices =
                insert invoice_id
                  (record invoice {
                    incoming_transactions =
                        insert (hash_lock crypto dest_plain_lock)
                          (record { request_id = request_id; dest_plain_lock = dest_plain_lock })
                          invoice.incoming_transactions;
                  })
                  s.open_invoices;
          })
        ]
    mutate_state (remove_invoice invoice_id) s =
        some (record s { open_invoices = remove invoice_id s.open_invoices })
    mutate_state (add_transaction request_id payment_id src_plain_lock) s = some (record s {
      open_transactions =
          insert request_id
            (record {
              payment_id = payment_id;
              src_plain_lock = src_plain_lock;
              opt_response = none;
            })
            s.open_transactions;
    })
    mutate_state (set_transaction_response r) s = elim (get r.request_id s.open_transactions) [
      | none ↦ none
      | some t ↦ elim t.opt_response [
        | some old ↦ none
        | none ↦ some (record s {
          open_transactions =
              insert r.request_id (record t { opt_response = some r }) s.open_transactions;
        })
      ]
    ]
    mutate_state (remove_transaction request_id) s =
        some (record s { open_transactions = remove request_id s.open_transactions })
    mutate_state (update_payment payment_id payment) s =
        some (record s { payments = insert payment_id payment s.payments })
    mutate_state (remove_payment payment_id) s =
        some (record s { payments = remove payment_id s.payments })
