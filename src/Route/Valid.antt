-- ===== src/Route/Valid.antt =====
-- components/proto/src/funder/messages.rs: what `is_valid` and `find_pk_pair` decide.
use offst.Prelude.{
  ℕ, zero, suc, ◌-◌, ◌≤◌, ◌<◌, ◌≡◌, ◌⊎◌, ◌↔◌, refl, true, false, List, [], ◌∷◌, some, arith,
  Bool-cases, Option-cases, inl, inr, length, get_elem?, take,
}
use offst.Crypto.{PublicKey}
use offst.Messages.{FriendsRoute}
use offst.Route.{is_valid, contains, insert_all, closes_or_new}

-- The key is in the list.
abbrev pub Occurs : PublicKey → List PublicKey → Type 0
Occurs x [] = ⊥
Occurs x (y ∷ ys) = (y ≡ x) ⊎ Occurs x ys

-- No key is in the list twice.
abbrev pub IsUnique : List PublicKey → Type 0
IsUnique [] = Unit {0}
IsUnique (x ∷ xs) = (¬ Occurs x xs) × IsUnique xs

contains-Occurs : (x : PublicKey) (xs : List PublicKey) → contains x xs ≡ true → Occurs x xs
unfolding contains
contains-Occurs x [] h = absurd (cc h)
contains-Occurs x (y ∷ ys) h = ground (arith, contains-Occurs x ys)

not_contains-Occurs : (x : PublicKey) (xs : List PublicKey) → contains x xs ≡ false → ¬ Occurs x xs
unfolding contains
not_contains-Occurs x [] h o = o
not_contains-Occurs x (y ∷ ys) h (inl e) = ground arith
not_contains-Occurs x (y ∷ ys) h (inr o) = not_contains-Occurs x ys (ground arith) o

-- The keys in the order in which the loop has put them.
abbrev rev_onto : List PublicKey → List PublicKey → List PublicKey
rev_onto [] seen = seen
rev_onto (x ∷ xs) seen = rev_onto xs (x ∷ seen)

Occurs-rev_onto :
    (x : PublicKey) (xs seen : List PublicKey)
    → Occurs x (rev_onto xs seen) ↔ (Occurs x xs ⊎ Occurs x seen)
Occurs-rev_onto x [] seen = (λ o. inr o, λ o. elim o [ inl n ↦ absurd n | inr s ↦ s ])
Occurs-rev_onto x (y ∷ ys) seen = (
  λ o. elim ((Occurs-rev_onto x ys (y ∷ seen)).0 o) [
    | inl a ↦ inl (inr a)
    | inr b ↦ elim b [ inl e ↦ inl (inl e) | inr s ↦ inr s ]
  ],
  λ o.
      (Occurs-rev_onto x ys (y ∷ seen)).1
        (elim o [ inl a ↦ elim a [ inl e ↦ inr (inl e) | inr r ↦ inl r ] | inr s ↦ inr (inr s) ]),
)

-- The loop goes through the whole list just if no key comes back.
insert_all_inv :
    (seen xs s : List PublicKey)
    → insert_all seen xs ≡ some s
    → IsUnique xs × ((x : PublicKey) → Occurs x xs → ¬ Occurs x seen) × (s ≡ rev_onto xs seen)
unfolding insert_all
insert_all_inv seen [] s h = (tt, λ x o. absurd o, ground arith)
insert_all_inv seen (y ∷ ys) s h = elim (Bool-cases (contains y seen)) [
  | inl old ↦ absurd (cc (rw (old, insert_all) at h))
  | inr new ↦
      let (u, apart, e) = insert_all_inv (y ∷ seen) ys s (rw (new, insert_all) at h) in
      (
        (λ o. apart y o (inl refl), u),
        λ x o. elim o [
          | inl same ↦ rw (← same) (not_contains-Occurs y seen new)
          | inr later ↦ λ in_seen. apart x later (inr in_seen)
        ],
        e,
      )
]

insert_all_ok :
    (seen xs : List PublicKey)
    → IsUnique xs
    → ((x : PublicKey) → Occurs x xs → ¬ Occurs x seen)
    → insert_all seen xs ≡ some (rev_onto xs seen)
unfolding insert_all
insert_all_ok seen [] u apart = refl
insert_all_ok seen (y ∷ ys) u apart = elim (Bool-cases (contains y seen)) [
  | inl old ↦ absurd (apart y (inl refl) (contains-Occurs y seen old))
  | inr new ↦
      rw (new, insert_all)
        (insert_all_ok (y ∷ seen) ys u.1 (λ x o both. elim both [
          | inl same ↦ u.0 (rw same o)
          | inr in_seen ↦ apart x (inr o) in_seen
        ]))
]

some_elem :
    (xs : List PublicKey) (i : ℕ) → i < length xs → (x : PublicKey) × (get_elem? xs i ≡ some x)
some_elem [] i h = absurd (omega arith)
some_elem (x ∷ xs) zero h = (x, refl)
some_elem (x ∷ xs) (suc i) h = some_elem xs i (omega arith)

-- All keys but the last.
abbrev pub init : FriendsRoute → List PublicKey
init r = take (length r.public_keys - 1) r.public_keys

-- A route of 2 to 32 nodes, without repetition but that it may end where it began.
abbrev pub IsRoute : FriendsRoute → Type 0
IsRoute r =
    (first : PublicKey) × (last : PublicKey) × (get_elem? r.public_keys 0 ≡ some first)
    × (get_elem? r.public_keys (length r.public_keys - 1) ≡ some last)
    × (2 ≤ length r.public_keys)
    × (length r.public_keys ≤ 32)
    × IsUnique (init r)
    × ((last ≡ first) ⊎ (¬ Occurs last (init r)))

-- `closes_or_new` at the set that the loop leaves.
closes_iff :
    (xs : List PublicKey) (last first : PublicKey)
    → (closes_or_new (some (rev_onto xs [])) (some last) (some first) ≡ true)
      ↔ ((last ≡ first) ⊎ (¬ Occurs last xs))
unfolding closes_or_new
closes_iff xs last first = (forward, backward)
  where
    forward :
        closes_or_new (some (rev_onto xs [])) (some last) (some first) ≡ true
        → (last ≡ first) ⊎ (¬ Occurs last xs)
    forward h = elim (Bool-cases (contains last (rev_onto xs []))) [
      | inl old ↦ ground arith
      | inr new ↦ inr (λ o. not_contains-Occurs last _ new ((Occurs-rev_onto last xs []).1 (inl o)))
    ]

    backward :
        (last ≡ first) ⊎ (¬ Occurs last xs)
        → closes_or_new (some (rev_onto xs [])) (some last) (some first) ≡ true
    backward (inl e) = ground arith
    backward (inr apart) = elim (Bool-cases (contains last (rev_onto xs []))) [
      | inl old ↦ absurd (elim ((Occurs-rev_onto last xs []).0 (contains-Occurs last _ old)) [
        | inl o ↦ apart o
        | inr none_left ↦ none_left
      ])
      | inr new ↦ ground arith
    ]

valid-IsRoute : (r : FriendsRoute) → is_valid r ≡ true → IsRoute r
unfolding is_valid
valid-IsRoute r h =
    let low : 2 ≤ length r.public_keys = ground arith in
    let high : length r.public_keys ≤ 32 = ground arith in
    let (first, ef) = some_elem r.public_keys 0 (omega arith) in
    let (last, el) = some_elem r.public_keys (length r.public_keys - 1) (omega arith) in
    elim (Option-cases (insert_all [] (init r))) [
      | inl e ↦ absurd (ground arith)
      | inr (seen, e) ↦
          let (u, _, s) = insert_all_inv [] (init r) seen e in
          (
            first,
            last,
            ef,
            el,
            low,
            high,
            u,
            (closes_iff (init r) last first).0 (ground (arith, e, s, ef, el)),
          )
    ]

IsRoute-valid : (r : FriendsRoute) → IsRoute r → is_valid r ≡ true
unfolding is_valid
IsRoute-valid r (first, last, ef, el, low, high, u, c) =
    ground (arith, insert_all_ok [] (init r) u (λ x o n. n), (closes_iff (init r) last first).1 c)

-- `is_valid` accepts exactly the routes of its comment: 2 to 32 nodes, with no repetition, except
-- that the last node may be the first one.
pub is_valid-IsRoute : (r : FriendsRoute) → (is_valid r ≡ true) ↔ IsRoute r
is_valid-IsRoute r = (valid-IsRoute r, IsRoute-valid r)
