-- ===== src/Graph/Bfs.antt =====
-- components/index_server/src/graph/bfs.rs: breadth-first search. The nodes are public keys, as in
-- the index server; the set of visited nodes is a list. A loop runs on fuel.
pub mod Chain
pub mod Unvisited
pub mod Scan
pub mod Correct
use offst.Prelude.{
  ℕ, zero, suc, true, false, Option, none, some, List, [], ◌∷◌, ◌++◌, ◌==◌, length, reverse,
}
use offst.Prelude.Dict.{Dict, get, insert}
use offst.Crypto.{PublicKey}
use offst.Route.{contains}

-- How a loop ends that runs on fuel.
pub data Run (A : Type 0) : Type 0 where
  out_of_fuel : Run A
  done : A → Run A

-- The variables of `bfs_loop`.
pub record Search : Type 0 where
  pub backtrack : Dict (Option PublicKey)
  pub visited : List PublicKey
  pub queue : List PublicKey

-- What the `for` loop over the neighbors of a node leads to.
pub data Scanned : Type 0 where
  found : Dict (Option PublicKey) → Scanned
  continues : Search → Scanned

-- A neighbor that is neither visited nor the destination.
abbrev pub enqueue : PublicKey → PublicKey → Search → Search
enqueue node neighbor s = record {
  backtrack = insert neighbor (some node) s.backtrack;
  visited = neighbor ∷ s.visited;
  queue = s.queue ++ neighbor ∷ [];
}

unfoldable pub scan_neighbors : PublicKey → PublicKey → List PublicKey → Search → Scanned
scan_neighbors dst node [] s = continues s
scan_neighbors dst node (neighbor ∷ rest) s = elim (contains neighbor s.visited) [
  | true ↦ scan_neighbors dst node rest s
  | false ↦ elim (neighbor == dst) [
    | true ↦ found (insert neighbor (some node) s.backtrack)
    | false ↦ scan_neighbors dst node rest (enqueue node neighbor s)
  ]
]

-- The walk from the destination back to the node that has no predecessor.
unfoldable pub walk_back : ℕ → PublicKey → Dict (Option PublicKey) → Run (Option (List PublicKey))
walk_back zero node d = out_of_fuel
walk_back (suc fuel) node d = elim (get node d) [
  | none ↦ done none
  | some none ↦ done (some (node ∷ []))
  | some (some p) ↦ elim (walk_back fuel p d) [
    | out_of_fuel ↦ out_of_fuel
    | done none ↦ done none
    | done (some route) ↦ done (some (node ∷ route))
  ]
]

unfoldable pub bfs_backtrack : PublicKey → Dict (Option PublicKey) → Run (Option (List PublicKey))
bfs_backtrack dst d = elim (walk_back (length d) dst d) [
  | out_of_fuel ↦ out_of_fuel
  | done none ↦ done none
  | done (some route) ↦ done (some (reverse route))
]

abbrev pub bfs_start : PublicKey → Search
bfs_start src = record { backtrack = insert src none []; visited = src ∷ []; queue = src ∷ [] }

module _ (get_neighbors : PublicKey → List PublicKey) (dst : PublicKey) where
  -- The `while` loop.
  unfoldable pub bfs_rounds : ℕ → Search → Run (Option (Dict (Option PublicKey)))
  bfs_rounds zero s = out_of_fuel
  bfs_rounds (suc fuel) s = elim s.queue [
    | [] ↦ done none
    | node ∷ rest ↦
        elim (scan_neighbors dst node (get_neighbors node) (record s { queue = rest })) [
          | found d ↦ done (some d)
          | continues s' ↦ bfs_rounds fuel s'
        ]
  ]

  abbrev pub bfs_loop : ℕ → PublicKey → Run (Option (Dict (Option PublicKey)))
  bfs_loop fuel src = bfs_rounds fuel (bfs_start src)

  unfoldable pub bfs : ℕ → PublicKey → Run (Option (List PublicKey))
  bfs fuel src = elim (bfs_loop fuel src) [
    | out_of_fuel ↦ out_of_fuel
    | done none ↦ done none
    | done (some d) ↦ bfs_backtrack dst d
  ]
