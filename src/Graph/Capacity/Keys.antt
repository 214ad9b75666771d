-- ===== src/Graph/Capacity/Keys.antt =====
-- components/index_server/src/graph/simple_capacity_graph.rs: the keys of the maps of edges.
use offst.Prelude.{
  ℕ, ◌≡◌, ◌⊎◌, refl, Option, none, some, List, [], ◌∷◌, arith, inl, inr, ltb, Bool-cases, ◌==◌,
  if◌then◌else◌,
}
use offst.Prelude.Dict.{Dict, get, insert, remove}
use offst.Crypto.{PublicKey}
use offst.Route.Valid.{Occurs, IsUnique}
use offst.Graph.Capacity.{CapacityEdge, Edge, keys, age_more, retain_young}

pub List-cases : {A : Type 0} (xs : List A) → (xs ≡ []) ⊎ ((x : A) × (r : List A) × (xs ≡ x ∷ r))
List-cases [] = inl refl
List-cases (x ∷ r) = inr (x, r, refl)

module _ {V : Type 0} where
  pub keys-insert :
      (k : PublicKey) (v : V) (d : Dict V) (x : PublicKey)
      → Occurs x (keys (insert k v d))
      → (k ≡ x) ⊎ Occurs x (keys d)
  unfolding insert
  keys-insert k v [] x (inl e) = inl e
  keys-insert k v [] x (inr o) = inr o
  keys-insert k v ((j, w) ∷ d) x o = ground (arith, keys-insert k v d x)

  pub insert-IsUnique :
      (k : PublicKey) (v : V) (d : Dict V) → IsUnique (keys d) → IsUnique (keys (insert k v d))
  unfolding insert
  insert-IsUnique k v [] u = (λ o. o, tt)
  insert-IsUnique k v ((j, w) ∷ d) (n, u) =
      ground (arith, insert-IsUnique k v d u, keys-insert k v d j)

  pub keys-remove :
      (k : PublicKey) (d : Dict V) (x : PublicKey)
      → Occurs x (keys (remove k d))
      → Occurs x (keys d)
  unfolding remove
  keys-remove k [] x o = o
  keys-remove k ((j, w) ∷ d) x o = ground (arith, keys-remove k d x)

  pub remove-IsUnique :
      (k : PublicKey) (d : Dict V) → IsUnique (keys d) → IsUnique (keys (remove k d))
  unfolding remove
  remove-IsUnique k [] u = tt
  remove-IsUnique k ((j, w) ∷ d) (n, u) = ground (arith, remove-IsUnique k d u, keys-remove k d j)

  pub get-absent : (k : PublicKey) (d : Dict V) → ¬ Occurs k (keys d) → get k d ≡ none
  get-absent k [] n = refl
  get-absent k ((j, w) ∷ d) n = ground (arith, get-absent k d)

module _ {T : Type 0} where
  -- A tick of a node with so many edges, at one edge.
  abbrev pub aged : ℕ → Option (Edge T) → Option (Edge T)
  aged max none = none
  aged max (some e) =
      if ltb (age_more e.age) max then some (record e { age = age_more e.age }) else none

  abbrev pub old_capacity : Option (Edge T) → Option (CapacityEdge T)
  old_capacity none = none
  old_capacity (some e) = some e.capacity_edge

  pub keys-retain :
      (max : ℕ) (d : Dict (Edge T)) (x : PublicKey)
      → Occurs x (keys (retain_young max d))
      → Occurs x (keys d)
  unfolding retain_young
  keys-retain max [] x o = o
  keys-retain max ((j, e) ∷ d) x o = ground (arith, keys-retain max d x)

  pub retain-IsUnique :
      (max : ℕ) (d : Dict (Edge T)) → IsUnique (keys d) → IsUnique (keys (retain_young max d))
  unfolding retain_young
  retain-IsUnique max [] u = tt
  retain-IsUnique max ((j, e) ∷ d) (n, u) =
      ground (arith, retain-IsUnique max d u, keys-retain max d j)

  pub get-retain :
      (max : ℕ) (d : Dict (Edge T)) (x : PublicKey)
      → IsUnique (keys d)
      → get x (retain_young max d) ≡ aged max (get x d)
  unfolding retain_young
  get-retain max [] x u = refl
  get-retain max ((j, e) ∷ d) x (n, u) = elim (Bool-cases (j == x)) [
    | inl t ↦ ground (arith, get-absent x (retain_young max d), keys-retain max d x)
    | inr f ↦ ground (arith, get-retain max d x u)
  ]
