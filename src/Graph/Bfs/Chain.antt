-- ===== src/Graph/Bfs/Chain.antt =====
-- components/index_server/src/graph/bfs.rs: what `bfs_backtrack` reads from the predecessors.
use offst.Prelude.{
  ℕ, zero, suc, ◌≤◌, ◌≡◌, refl, Option, none, some, List, [], ◌∷◌, arith, length, inl, inr, reverse,
  rev_onto,
}
use offst.Prelude.Dict.{Dict, get, insert, get-insert}
use offst.Crypto.{PublicKey}
use offst.Route.Valid.{Occurs, IsUnique}
use offst.Graph.Bfs.{done, walk_back, bfs_backtrack}

pub length-insert :
    {V : Type 0} (k : ℕ) (v : V) (d : Dict V)
    → get k d ≡ none
    → length (insert k v d) ≡ suc (length d)
unfolding insert
length-insert k v [] h = refl
length-insert k v ((j, w) ∷ d) h = ground (arith, length-insert k v d)

IsUnique-rev_onto :
    (xs ys : List PublicKey)
    → IsUnique xs
    → IsUnique ys
    → ((x : PublicKey) → Occurs x xs → ¬ Occurs x ys)
    → IsUnique (rev_onto xs ys)
IsUnique-rev_onto [] ys u v apart = v
IsUnique-rev_onto (x ∷ xs) ys (n, u) v apart =
    IsUnique-rev_onto xs (x ∷ ys) u (apart x (inl refl), v)
      (λ z o p. elim p [ inl e ↦ n (rw e o) | inr q ↦ apart z (inr o) q ])

pub IsUnique-reverse : (xs : List PublicKey) → IsUnique xs → IsUnique (reverse xs)
IsUnique-reverse xs u = IsUnique-rev_onto xs [] u tt (λ x o p. p)

get-fresh :
    (d : Dict (Option PublicKey)) (n k : PublicKey) (v : Option PublicKey) {w : Option PublicKey}
    → get n d ≡ none
    → get k d ≡ some w
    → get k (insert n v d) ≡ some w
get-fresh d n k v e f = ground (arith, get-insert n k v d)

module _ (get_neighbors : PublicKey → List PublicKey) where
  -- A walk along neighbors, from the first key to the second.
  abbrev pub IsRoute : PublicKey → PublicKey → List PublicKey → Type 0
  IsRoute a b [] = ⊥
  IsRoute a b (x ∷ []) = (x ≡ a) × (x ≡ b)
  IsRoute a b (x ∷ y ∷ r) = (x ≡ a) × Occurs y (get_neighbors x) × IsRoute y b (y ∷ r)

  -- The predecessors lead from a node back to the source by the nodes of the list.
  pub data Chain (src : PublicKey) (d : Dict (Option PublicKey))
      : PublicKey → List PublicKey → Type 0 where
    root : get src d ≡ some none → Chain src d src (src ∷ [])
    up :
        {k p : PublicKey} {r : List PublicKey}
        → get k d ≡ some (some p)
        → Occurs k (get_neighbors p)
        → Chain src d p r
        → Chain src d k (k ∷ r)

  module _ {src : PublicKey} {d : Dict (Option PublicKey)} where
    pub Chain-insert :
        {k : PublicKey} {r : List PublicKey} (n : PublicKey) (v : Option PublicKey)
        → get n d ≡ none
        → Chain src d k r
        → Chain src (insert n v d) k r
    Chain-insert n v e (root f) = root (get-fresh d n src v e f)
    Chain-insert n v e (up {k} f o c) = up (get-fresh d n k v e f) o (Chain-insert n v e c)

    walk_back-Chain :
        {k : PublicKey} {r : List PublicKey} (fuel : ℕ)
        → Chain src d k r
        → length r ≤ fuel
        → walk_back fuel k d ≡ done (some r)
    unfolding walk_back
    walk_back-Chain zero (root f) l = absurd (omega arith)
    walk_back-Chain zero (up f o c) l = absurd (omega arith)
    walk_back-Chain (suc n) (root f) l = ground arith
    walk_back-Chain (suc n) (up {k} {p} {r} f o c) l =
        simp (walk_back, f, walk_back-Chain n c (omega arith)) refl

    rev_onto-IsRoute :
        {k : PublicKey} {r : List PublicKey} (b : PublicKey) (ys : List PublicKey)
        → Chain src d k r
        → IsRoute k b (k ∷ ys)
        → IsRoute src b (rev_onto r ys)
    rev_onto-IsRoute b ys (root f) h = h
    rev_onto-IsRoute b ys (up {k} f o c) h = rev_onto-IsRoute b (k ∷ ys) c (refl, o, h)

    pub reverse-IsRoute :
        {k : PublicKey} {r : List PublicKey} → Chain src d k r → IsRoute src k (reverse r)
    reverse-IsRoute {k} c = rev_onto-IsRoute k [] c (refl, refl)

    -- The predecessors give the route back.
    pub bfs_backtrack-Chain :
        {k : PublicKey} {r : List PublicKey}
        → Chain src d k r
        → length r ≤ length d
        → bfs_backtrack k d ≡ done (some (reverse r))
    unfolding bfs_backtrack
    bfs_backtrack-Chain c l = rw (bfs_backtrack, walk_back-Chain (length d) c l) refl
