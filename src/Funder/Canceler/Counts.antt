-- ===== src/Funder/Canceler/Counts.antt =====
-- components/funder/src/handler/canceler.rs: the number of open transactions of a payment.
use offst.Prelude.{
  ℕ, zero, suc, ◌<◌, ap, ◌≡◌, refl, true, List, [], ◌∷◌, ◌++◌, Option, none, some, arith,
  Option-cases, Bool-cases, inl, inr, ◌==◌, ==_iff, if◌then◌else◌,
}
use offst.Prelude.Dict.{Dict, get, insert, remove, get-insert, get-remove}
use offst.Prelude.Outcome.{ok}
use offst.Crypto.{Crypto, Uid}
use offst.Route.Valid.{Occurs, IsUnique}
use offst.Graph.Capacity.{keys}
use offst.Graph.Capacity.Keys.{remove-IsUnique}
use offst.Funder.State.{
  Payment, new_transactions, in_progress, success, canceled, after_success_ack, FunderState,
  OpenTransaction, PaymentId, mutate_state, update_payment, remove_payment,
}
use offst.Funder.State
use offst.Funder.Wrap.{MutableFunderState, Source, mutate_wrapped}
use offst.Funder.Canceler.{
  Canceling, less_transactions, drawn_after, payment_mutation, remove_transaction,
}

-- How many transactions of the payment the list has.
unfoldable pub count_open : PaymentId → Dict OpenTransaction → ℕ
count_open id [] = 0
count_open id ((k, t) ∷ d) =
    let rest = count_open id d in if t.payment_id == id then suc rest else rest

abbrev pub transactions_left : Payment → ℕ
transactions_left (new_transactions n) = n.num_transactions
transactions_left (in_progress n) = n
transactions_left (success n receipt request_id) = n
transactions_left (canceled uid) = 0
transactions_left (after_success_ack n) = n

-- Every payment has the number of its open transactions, and every open transaction has a payment.
pub record IsCounted {B : Type 0} (s : FunderState B) : Type 0 where
  pub unique : IsUnique (keys s.open_transactions)
  pub counted :
      (id : PaymentId) (p : Payment)
      → get id s.payments ≡ some p
      → transactions_left p ≡ count_open id s.open_transactions
  pub known :
      (k : Uid) (t : OpenTransaction)
      → get k s.open_transactions ≡ some t
      → (p : Payment) × (get t.payment_id s.payments ≡ some p)

remove_absent : {V : Type 0} (k : Uid) (d : Dict V) → ¬ Occurs k (keys d) → remove k d ≡ d
unfolding remove
remove_absent k [] n = refl
remove_absent k ((j, v) ∷ d) n = ground (arith, remove_absent k d)

same_transaction : {t v : OpenTransaction} → some t ≡ some v → t ≡ v
same_transaction h = cc h

count-remove :
    (id : PaymentId) (k : Uid) (t : OpenTransaction) (d : Dict OpenTransaction)
    → IsUnique (keys d)
    → get k d ≡ some t
    → count_open id d ≡ (
        if t.payment_id == id then suc (count_open id (remove k d)) else count_open id (remove k d))
unfolding count_open remove
count-remove id k t [] u h = absurd (cc h)
count-remove id k t ((j, v) ∷ d) (n, u) h = elim (Bool-cases (j == k)) [
  | inl e ↦
      ground (arith, remove_absent k d (rw ((==_iff j k).0 e) at n), same_transaction (rw e at h))
  | inr f ↦ ground (arith, count-remove id k t d u)
]

count_positive :
    (k : Uid) (u : OpenTransaction) (d : Dict OpenTransaction)
    → get k d ≡ some u
    → 0 < count_open u.payment_id d
unfolding count_open
count_positive k u [] h = absurd (cc h)
count_positive k u ((j, v) ∷ d) h = elim (Bool-cases (j == k)) [
  | inl e ↦ ground (arith, same_transaction (rw e at h))
  | inr f ↦ ground (arith, count_positive k u d)
]

none_left :
    (i j : PaymentId) (d : Dict OpenTransaction)
    → (i == j) ≡ true
    → 0 < count_open j d
    → count_open i d ≡ 0
    → ⊥
none_left i j d e p z =
    let same = (==_iff i j).0 e in omega (arith, p, z, ap (λ k. count_open k d) same)

-- The next payment counts one less, and there is one unless none was left.
Lessens : Payment → Option (Option Payment) → Type 0
Lessens p none = transactions_left p ≡ 0
Lessens p (some none) = transactions_left p ≡ 1
Lessens p (some (some q)) = transactions_left p ≡ suc (transactions_left q)

less_transactions-Lessens : (uid : Uid) (p : Payment) → Lessens p (less_transactions uid p)
unfolding less_transactions Lessens
less_transactions-Lessens uid (new_transactions n) = ground arith
less_transactions-Lessens uid (in_progress zero) = refl
less_transactions-Lessens uid (in_progress (suc zero)) = refl
less_transactions-Lessens uid (in_progress (suc (suc k))) = refl
less_transactions-Lessens uid (success zero receipt request_id) = refl
less_transactions-Lessens uid (success (suc k) receipt request_id) = refl
less_transactions-Lessens uid (canceled u) = refl
less_transactions-Lessens uid (after_success_ack zero) = refl
less_transactions-Lessens uid (after_success_ack (suc zero)) = refl
less_transactions-Lessens uid (after_success_ack (suc (suc k))) = refl

-- The payment when so many of its transactions are left: a payment whose user has closed it, or has
-- acknowledged its success, does not stay without any.
abbrev pub payment_after : ℕ → Uid → Payment → Option Payment
payment_after left ack_uid (new_transactions n) =
    some (new_transactions (record n { num_transactions = left }))
payment_after left ack_uid (in_progress n) =
    if left == 0 then some (canceled ack_uid) else some (in_progress left)
payment_after left ack_uid (success n receipt request_id) = some (success left receipt request_id)
payment_after left ack_uid (canceled uid) = some (canceled uid)
payment_after left ack_uid (after_success_ack n) =
    if left == 0 then none else some (after_success_ack left)

less-after :
    (left : ℕ) (uid : Uid) (p : Payment) (o : Option Payment)
    → transactions_left p ≡ suc left
    → less_transactions uid p ≡ some o
    → o ≡ payment_after left uid p
unfolding less_transactions
less-after left uid (new_transactions n) o h e = ground arith
less-after left uid (in_progress zero) o h e = absurd (cc e)
less-after left uid (in_progress (suc zero)) o h e = ground arith
less-after left uid (in_progress (suc (suc k))) o h e = ground arith
less-after left uid (success zero receipt request_id) o h e = absurd (cc e)
less-after left uid (success (suc k) receipt request_id) o h e = ground arith
less-after left uid (canceled u) o h e = absurd (cc e)
less-after left uid (after_success_ack zero) o h e = absurd (cc e)
less-after left uid (after_success_ack (suc zero)) o h e = ground arith
less-after left uid (after_success_ack (suc (suc k))) o h e = ground arith

-- The removal of a transaction and the next state of its payment.
module _ {B : Type 0} where
  abbrev settled : FunderState B → Uid → PaymentId → Option Payment → FunderState B
  settled s id pid none = record s {
    open_transactions = remove id s.open_transactions;
    payments = remove pid s.payments;
  }
  settled s id pid (some q) = record s {
    open_transactions = remove id s.open_transactions;
    payments = insert pid q s.payments;
  }

  settled-IsCounted :
      (s : FunderState B) (id : Uid) (t : OpenTransaction) (p : Payment) (o : Option Payment)
      → IsCounted s
      → get id s.open_transactions ≡ some t
      → get t.payment_id s.payments ≡ some p
      → Lessens p (some o)
      → IsCounted (settled s id t.payment_id o)
  unfolding Lessens
  settled-IsCounted s id t p none c h g l = record {
    unique = remove-IsUnique id s.open_transactions c.unique;
    counted = λ i q e. ground (
      arith,
      get-remove t.payment_id i s.payments,
      c.counted i q,
      count-remove i id t s.open_transactions c.unique h,
    );
    known = λ k u e.
        let old : get k s.open_transactions ≡ some u =
          ground (arith, get-remove id k s.open_transactions) in
        let (p', found) = c.known k u old in
        let positive = count_positive k u (remove id s.open_transactions) e in
        let now = count-remove t.payment_id id t s.open_transactions c.unique h in
        let was = c.counted t.payment_id p g in
        elim (Bool-cases (t.payment_id == u.payment_id)) [
          | inl same ↦ absurd (
              none_left t.payment_id u.payment_id (remove id s.open_transactions) same positive
                (ground arith))
          | inr other ↦ (p', ground (arith, get-remove t.payment_id u.payment_id s.payments, found))
        ];
  }
  settled-IsCounted s id t p (some q) c h g l = record {
    unique = remove-IsUnique id s.open_transactions c.unique;
    counted = λ i r e. ground (
      arith,
      get-insert t.payment_id i q s.payments,
      c.counted i r,
      c.counted t.payment_id p g,
      count-remove i id t s.open_transactions c.unique h,
    );
    known = λ k u e.
        let old : get k s.open_transactions ≡ some u =
          ground (arith, get-remove id k s.open_transactions) in
        let (p', found) = c.known k u old in
        elim (Bool-cases (t.payment_id == u.payment_id)) [
          | inl same ↦ (q, ground (arith, get-insert t.payment_id u.payment_id q s.payments))
          | inr other ↦
              (p', ground (arith, get-insert t.payment_id u.payment_id q s.payments, found))
        ];
  }

module _ {B : Type 0} where
  settled-get :
      (s : FunderState B) (id : Uid) (pid : PaymentId) (o : Option Payment) (k : Uid)
      → get k (settled s id pid o).open_transactions
        ≡ (if id == k then none else get k s.open_transactions)
  settled-get s id pid none k = get-remove id k s.open_transactions
  settled-get s id pid (some q) k = get-remove id k s.open_transactions

  settled-payment :
      (s : FunderState B) (id : Uid) (pid : PaymentId) (o : Option Payment) (k : PaymentId)
      → get k (settled s id pid o).payments ≡ (if pid == k then o else get k s.payments)
  settled-payment s id pid none k = get-remove pid k s.payments
  settled-payment s id pid (some q) k = get-insert pid k q s.payments

  settled-open :
      (s : FunderState B) (id : Uid) (pid : PaymentId) (o : Option Payment)
      → (settled s id pid o).open_transactions ≡ remove id s.open_transactions
  settled-open s id pid none = refl
  settled-open s id pid (some q) = refl

  some_left :
      (s : FunderState B) (id : Uid) (t : OpenTransaction) (p : Payment)
      → IsCounted s
      → get id s.open_transactions ≡ some t
      → get t.payment_id s.payments ≡ some p
      → Lessens p none
      → ⊥
  unfolding Lessens
  some_left s id t p c h g l =
      omega (arith, l, c.counted t.payment_id p g, count_positive id t s.open_transactions h)

module _ {B : Type 0} (crypto : Crypto) (serialize_address : B → List ℕ) (source : Source) where
  -- The wrapped state after the two mutations.
  abbrev after_removal :
      MutableFunderState B → Uid → PaymentId → Option Payment → MutableFunderState B
  after_removal m id pid o = record m {
    state = settled m.state id pid o;
    mutations = (m.mutations ++ State.remove_transaction id ∷ []) ++ payment_mutation pid o ∷ [];
  }

  removed_payment :
      (m : MutableFunderState B) (id : Uid) (pid : PaymentId) (o : Option Payment)
      → mutate_wrapped crypto serialize_address (payment_mutation pid o) (record m {
        state = record (m.state) { open_transactions = remove id m.state.open_transactions };
        mutations = m.mutations ++ State.remove_transaction id ∷ [];
      })
        ≡ some (after_removal m id pid o)
  unfolding mutate_wrapped mutate_state
  removed_payment m id pid none = refl
  removed_payment m id pid (some q) = refl

  removed_transaction :
      (m : MutableFunderState B) (id : Uid)
      → mutate_wrapped crypto serialize_address (State.remove_transaction id) m
        ≡ some (record m {
          state = record (m.state) { open_transactions = remove id m.state.open_transactions };
          mutations = m.mutations ++ State.remove_transaction id ∷ [];
        })
  unfolding mutate_wrapped mutate_state
  removed_transaction m id = refl

  -- When every payment has as its number the number of its open transactions, each with its own key,
  -- and every open transaction has a payment: for an open transaction `remove_transaction` returns,
  -- the transaction is no longer open, all others are as before, and the payments count again. All
  -- payments but its own are as before; its own has as its number how many of its transactions are
  -- still open, but with none left a payment in progress is canceled, with the next random value,
  -- and one whose success is acknowledged is removed.
  pub remove_transaction-IsCounted :
      (c : Canceling B) (id : Uid) (t : OpenTransaction)
      → IsCounted c.m_state.state
      → get id c.m_state.state.open_transactions ≡ some t
      → (c' : Canceling B) × (remove_transaction crypto serialize_address source id c ≡ (ok tt, c'))
        × IsCounted c'.m_state.state
        × ((k : Uid)
            → get k c'.m_state.state.open_transactions
              ≡ (if id == k then none else get k c.m_state.state.open_transactions))
        × ((p : Payment) × (get t.payment_id c.m_state.state.payments ≡ some p)
            × ((i : PaymentId)
                → get i c'.m_state.state.payments ≡ (
                    if t.payment_id == i
                    then payment_after
                        (count_open t.payment_id c'.m_state.state.open_transactions)
                        (source.random c.drawn)
                        p
                    else get i c.m_state.state.payments)))
  unfolding remove_transaction
  remove_transaction-IsCounted c id t counted h =
      let (p, g) = counted.known id t h in
      let uid = source.random c.drawn in
      let l = less_transactions-Lessens uid p in
      elim (Option-cases (less_transactions uid p)) [
        | inl e ↦ absurd (some_left c.m_state.state id t p counted h g (rw e at l))
        | inr (o, e) ↦ (
          record c {
            m_state = after_removal c.m_state id t.payment_id o;
            drawn = drawn_after p c.drawn;
          },
          rw
              (
                remove_transaction,
                h,
                g,
                removed_transaction c.m_state id,
                e,
                removed_payment c.m_state id t.payment_id o,
              )
              refl,
          settled-IsCounted c.m_state.state id t p o counted h g (rw e at l),
          λ k. settled-get c.m_state.state id t.payment_id o k,
          (
            p,
            g,
            λ i.
                let s = c.m_state.state in
                let left = count_open t.payment_id (remove id s.open_transactions) in
                let one_less : transactions_left p ≡ suc left = ground (
                  arith,
                  counted.counted t.payment_id p g,
                  count-remove t.payment_id id t s.open_transactions counted.unique h,
                ) in
                let next = less-after left uid p o one_less e in
                rw (settled-open s id t.payment_id o, settled-payment s id t.payment_id o i, next)
                  refl,
          ),
        )
      ]
