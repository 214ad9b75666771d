-- ===== src/Graph/Capacity/Walk.antt =====
-- components/index_server/src/graph/simple_capacity_graph.rs: walks along hops, and their capacities.
use offst.Prelude.{
  ℕ, ◌≤◌, ◌≡◌, ◌↔◌, refl, sym, Bool, true, none, some, List, [], ◌∷◌, arith, inl, inr, Option-cases,
  Bool-cases, ◌==◌, ==_iff,
}
use offst.Prelude.Dict.{Dict, get}
use offst.Crypto.{PublicKey}
use offst.Route.Valid.{Occurs}
use offst.Graph.Bfs.Chain.{IsRoute}
use offst.Graph.Capacity.{min, min?, keys, filter}

-- A walk from the first key to the second, whose hops are of the relation.
abbrev pub Walk : (PublicKey → PublicKey → Type 0) → PublicKey → PublicKey → List PublicKey → Type 0
Walk R a b [] = ⊥
Walk R a b (x ∷ []) = (x ≡ a) × (x ≡ b)
Walk R a b (x ∷ y ∷ r) = (x ≡ a) × R x y × Walk R y b (y ∷ r)

pub filter-Occurs :
    (p : PublicKey → Bool) (x : PublicKey) (xs : List PublicKey)
    → Occurs x (filter p xs) ↔ (Occurs x xs × (p x ≡ true))
unfolding filter
filter-Occurs p x [] = (λ o. absurd o, λ o. o.0)
filter-Occurs p x (y ∷ ys) = elim (Bool-cases (p y)) [
  | inl t ↦ rw t (
    λ o. elim o [
      | inl e ↦ (inl e, rw (sym e) t)
      | inr q ↦ (inr ((filter-Occurs p x ys).0 q).0, ((filter-Occurs p x ys).0 q).1)
    ],
    λ o. elim o.0 [ inl e ↦ inl e | inr q ↦ inr ((filter-Occurs p x ys).1 (q, o.1)) ],
  )
  | inr f ↦ rw f (
    λ o. (inr ((filter-Occurs p x ys).0 o).0, ((filter-Occurs p x ys).0 o).1),
    λ o. elim o.0 [ inl e ↦ absurd (cc (e, o.1, f)) | inr q ↦ (filter-Occurs p x ys).1 (q, o.1) ],
  )
]

pub keys-Occurs :
    {V : Type 0} (x : PublicKey) (d : Dict V) → Occurs x (keys d) ↔ ((v : V) × (get x d ≡ some v))
keys-Occurs x [] = (λ o. absurd o, λ o. absurd (cc o.1))
keys-Occurs x ((k, v) ∷ d) = elim (Bool-cases (k == x)) [
  | inl t ↦ rw t (λ o. (v, refl), λ o. inl ((==_iff k x).0 t))
  | inr f ↦ rw f (
    λ o. elim o [ inl e ↦ absurd (cc ((==_iff k x).1 e, f)) | inr q ↦ (keys-Occurs x d).0 q ],
    λ o. inr ((keys-Occurs x d).1 o),
  )
]

-- The first relation is part of the second.
pub Walk-map :
    {R S : PublicKey → PublicKey → Type 0} (a b : PublicKey) (r : List PublicKey)
    → ((x y : PublicKey) → R x y → S x y)
    → Walk R a b r
    → Walk S a b r
Walk-map a b [] f w = w
Walk-map a b (x ∷ []) f w = w
Walk-map a b (x ∷ y ∷ r) f w = (w.0, f x y w.1, Walk-map y b (y ∷ r) f w.2)

pub IsRoute-Walk :
    (nb : PublicKey → List PublicKey) (a b : PublicKey) (r : List PublicKey)
    → IsRoute nb a b r ↔ Walk (λ x y. Occurs y (nb x)) a b r
IsRoute-Walk nb a b [] = (λ w. w, λ w. w)
IsRoute-Walk nb a b (x ∷ []) = (λ w. w, λ w. w)
IsRoute-Walk nb a b (x ∷ y ∷ r) = (
  λ w. (w.0, w.1, (IsRoute-Walk nb y b (y ∷ r)).0 w.2),
  λ w. (w.0, w.1, (IsRoute-Walk nb y b (y ∷ r)).1 w.2),
)

-- What is under all capacities is under their minimum, and the other way round.
abbrev pub UnderAll : ℕ → List ℕ → Type 0
UnderAll d [] = Unit {0}
UnderAll d (c ∷ cs) = (d ≤ c) × UnderAll d cs

pub no_min : (y : ℕ) (cs : List ℕ) → min? (y ∷ cs) ≡ none → ⊥
no_min y cs h = ground arith

pub under_min : (d x m c : ℕ) (P : Type 0) → P ↔ (d ≤ m) → min x m ≡ c → ((d ≤ x) × P) ↔ (d ≤ c)
under_min d x m c P i h =
    (λ p. let l = i.0 p.1 in ground (arith, p.0, l), λ l. (ground arith, i.1 (ground arith)))

pub min-UnderAll : (d c : ℕ) (cs : List ℕ) → min? cs ≡ some c → UnderAll d cs ↔ (d ≤ c)
min-UnderAll d c [] h = absurd (cc h)
min-UnderAll d c (x ∷ []) h = ground arith
min-UnderAll d c (x ∷ y ∷ cs) h = elim (Option-cases (min? (y ∷ cs))) [
  | inl e ↦ absurd (no_min y cs e)
  | inr (m, e) ↦
      under_min d x m c (UnderAll d (y ∷ cs)) (min-UnderAll d m (y ∷ cs) e) (ground arith)
]
