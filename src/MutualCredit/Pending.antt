-- ===== src/MutualCredit/Pending.antt =====
-- The maps of pending transactions: how much they freeze, and what each update does to that.
use offst.Prelude.{
  ℕ, ◌+◌, ◌≤◌, ◌≡◌, refl, true, List, [], ◌∷◌, none, some, arith, length, get_last?,
}
use offst.Prelude.Dict.{Dict, get, insert, remove, get-insert, get-remove}
use offst.Crypto.{Uid}
use offst.Messages.{PendingTransaction, FriendsRoute}
use offst.Route.{is_valid}

-- The credits that one transaction freezes.
abbrev pub freeze : PendingTransaction → ℕ
freeze t = t.dest_payment + t.left_fees

unfoldable pub frozen : Dict PendingTransaction → ℕ
frozen [] = 0
frozen ((k, t) ∷ d) = freeze t + frozen d

-- No key is listed twice, and every route is valid.
abbrev pub IsSound : Dict PendingTransaction → Type 0
IsSound [] = Unit {0}
IsSound ((k, t) ∷ d) = (get k d ≡ none) × (is_valid t.route ≡ true) × IsSound d

module _ (k : Uid) where
  pub frozen-insert_new :
      (t : PendingTransaction) (d : Dict PendingTransaction)
      → get k d ≡ none
      → frozen (insert k t d) ≡ frozen d + freeze t
  unfolding frozen insert
  frozen-insert_new t [] h = omega arith
  frozen-insert_new t ((j, s) ∷ d) h = ground (arith, frozen-insert_new t d)

  pub frozen-insert_same :
      (t s : PendingTransaction) (d : Dict PendingTransaction)
      → get k d ≡ some s
      → freeze t ≡ freeze s
      → frozen (insert k t d) ≡ frozen d
  unfolding frozen insert
  frozen-insert_same t s [] h e = cc
  frozen-insert_same t s ((j, r) ∷ d) h e = ground (arith, frozen-insert_same t s d)

  remove_absent : (d : Dict PendingTransaction) → get k d ≡ none → remove k d ≡ d
  unfolding remove
  remove_absent [] h = refl
  remove_absent ((j, r) ∷ d) h = ground (arith, remove_absent d)

  pub frozen-remove :
      (s : PendingTransaction) (d : Dict PendingTransaction)
      → get k d ≡ some s
      → IsSound d
      → frozen (remove k d) + freeze s ≡ frozen d
  unfolding frozen remove
  frozen-remove s [] h v = cc
  frozen-remove s ((j, r) ∷ d) h v = ground (arith, frozen-remove s d, remove_absent d)

  pub insert-IsSound :
      (t : PendingTransaction) (d : Dict PendingTransaction)
      → is_valid t.route ≡ true
      → IsSound d
      → IsSound (insert k t d)
  unfolding insert
  insert-IsSound t [] h v = (refl, h, tt)
  insert-IsSound t ((j, r) ∷ d) h v = ground (arith, insert-IsSound t d h v.2, get-insert k j t d)

  pub remove-IsSound : (d : Dict PendingTransaction) → IsSound d → IsSound (remove k d)
  unfolding remove
  remove-IsSound [] v = tt
  remove-IsSound ((j, r) ∷ d) v = ground (arith, remove-IsSound d v.2, get-remove k j d)

  pub get-IsSound :
      (t : PendingTransaction) (d : Dict PendingTransaction)
      → get k d ≡ some t
      → IsSound d
      → is_valid t.route ≡ true
  get-IsSound t [] h v = cc
  get-IsSound t ((j, r) ∷ d) h v = ground (arith, get-IsSound t d)

  -- Removing what was just inserted gives the map back.
  pub remove-insert_new :
      (t : PendingTransaction) (d : Dict PendingTransaction)
      → get k d ≡ none
      → remove k (insert k t d) ≡ d
  unfolding insert remove
  remove-insert_new t [] h = ground arith
  remove-insert_new t ((j, r) ∷ d) h = ground (arith, remove-insert_new t d)

  pub insert-insert :
      (s t : PendingTransaction) (d : Dict PendingTransaction)
      → insert k t (insert k s d) ≡ insert k t d
  unfolding insert
  insert-insert s t [] = ground arith
  insert-insert s t ((j, r) ∷ d) = ground (arith, insert-insert s t d)

last_of : (xs : List ℕ) → 1 ≤ length xs → (x : ℕ) × (get_last? xs ≡ some x)
last_of [] h = absurd (omega arith)
last_of (x ∷ []) h = (x, refl)
last_of (x ∷ y ∷ r) h = last_of (y ∷ r) (omega arith)

-- A valid route has a last key, the destination.
pub destination :
    (r : FriendsRoute) → is_valid r ≡ true → (x : ℕ) × (get_last? r.public_keys ≡ some x)
unfolding is_valid
destination r h = last_of r.public_keys (ground arith)
