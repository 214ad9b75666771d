-- ===== src/Route/Pair.antt =====
-- components/proto/src/funder/messages.rs: `find_pk_pair` finds the first pair of neighbours.
use offst.Prelude.{
  ℕ, zero, suc, ◌+◌, ◌<◌, ◌≡◌, refl, List, [], ◌∷◌, Option, none, some, arith, ◌==◌, ◌&&◌, false,
  Bool-cases, inl, inr, get_elem?,
}
use offst.Crypto.{PublicKey}
use offst.Messages.{FriendsRoute}
use offst.Route.{find_pk_pair, find_pk_pair_from}

-- The two keys stand next to one another at this index.
abbrev pub IsPair : PublicKey → PublicKey → List PublicKey → ℕ → Type 0
IsPair a b xs i = (get_elem? xs i ≡ some a) × (get_elem? xs (suc i) ≡ some b)

module _ (a b : PublicKey) where
  find_from_some :
      (i k : ℕ) (xs : List PublicKey)
      → find_pk_pair_from a b i xs ≡ some k
      → (d : ℕ) × (k ≡ i + d) × IsPair a b xs d × ((j : ℕ) → j < d → ¬ IsPair a b xs j)
  unfolding find_pk_pair_from
  find_from_some i k [] h = absurd (cc h)
  find_from_some i k (x ∷ []) h = absurd (cc h)
  find_from_some i k (x ∷ y ∷ r) h = elim (Bool-cases (a == x && b == y)) [
    | inl here ↦
        let e : i ≡ k = ground arith in
        (0, omega arith, (ground arith, ground arith), λ j l. absurd (omega arith))
    | inr later ↦
        let (d, e, p, first) =
          find_from_some (i + 1) k (y ∷ r) (rw (later, find_pk_pair_from) at h) in
        (suc d, omega arith, p, earlier d later first)
  ]
    where
      earlier :
          (d : ℕ)
          → (a == x && b == y) ≡ false
          → ((j : ℕ) → j < d → ¬ IsPair a b (y ∷ r) j)
          → (j : ℕ) → j < suc d
          → ¬ IsPair a b (x ∷ y ∷ r) j
      earlier d later first zero l p = ground arith
      earlier d later first (suc j) l p = first j (omega arith) p

  find_from_none :
      (i : ℕ) (xs : List PublicKey) (j : ℕ) → find_pk_pair_from a b i xs ≡ none → ¬ IsPair a b xs j
  unfolding find_pk_pair_from
  find_from_none i [] j h p = cc (p.0)
  find_from_none i (x ∷ []) zero h p = cc (p.1)
  find_from_none i (x ∷ []) (suc j) h p = cc (p.0)
  find_from_none i (x ∷ y ∷ r) zero h p = ground arith
  find_from_none i (x ∷ y ∷ r) (suc j) h p = find_from_none (i + 1) (y ∷ r) j (ground arith) p

-- What an answer of `find_pk_pair` says: the index of the first such pair, or that there is none.
abbrev pub PairAnswer : PublicKey → PublicKey → List PublicKey → Option ℕ → Type 0
PairAnswer a b xs (some i) = IsPair a b xs i × ((j : ℕ) → j < i → ¬ IsPair a b xs j)
PairAnswer a b xs none = (j : ℕ) → ¬ IsPair a b xs j

answer_of :
    (a b : PublicKey) (xs : List PublicKey) (o : Option ℕ)
    → find_pk_pair_from a b 0 xs ≡ o
    → PairAnswer a b xs o
answer_of a b xs none h = λ j. find_from_none a b 0 xs j h
answer_of a b xs (some k) h =
    let (d, e, p, first) = find_from_some a b 0 k xs h in
    let same : k ≡ d = omega (arith, e) in rw same (p, first)

-- `find_pk_pair` answers with the least index at which the two keys are neighbours on the route, in
-- this order, and with nothing exactly where they are neighbours nowhere.
pub find_pk_pair-PairAnswer :
    (r : FriendsRoute) (a b : PublicKey) → PairAnswer a b r.public_keys (find_pk_pair r a b)
unfolding find_pk_pair
find_pk_pair-PairAnswer r a b =
    answer_of a b r.public_keys (find_pk_pair_from a b 0 r.public_keys) refl
