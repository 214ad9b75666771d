-- ===== src/Graph/Bfs/Unvisited.antt =====
-- components/index_server/src/graph/bfs.rs: the visited nodes and the queue, as lists.
use offst.Prelude.{
  ℕ, suc, ◌≤◌, ◌<◌, ◌≡◌, ◌≢◌, ◌⊎◌, true, false, List, [], ◌∷◌, ◌++◌, arith, length, inl, inr,
  if◌then◌else◌,
}
use offst.Crypto.{PublicKey}
use offst.Route.{contains}
use offst.Route.Valid.{Occurs}

-- How many of the keys are not visited.
unfoldable pub unvisited : List PublicKey → List PublicKey → ℕ
unvisited [] visited = 0
unvisited (u ∷ us) visited =
    let rest = unvisited us visited in if contains u visited then rest else suc rest

pub unvisited-more :
    (us visited : List PublicKey) (n : PublicKey)
    → unvisited us (n ∷ visited) ≤ unvisited us visited
unfolding unvisited contains
unvisited-more [] visited n = omega arith
unvisited-more (u ∷ us) visited n = ground (arith, unvisited-more us visited n)

pub unvisited-fewer :
    (us visited : List PublicKey) (n : PublicKey)
    → Occurs n us
    → contains n visited ≡ false
    → unvisited us (n ∷ visited) < unvisited us visited
unfolding unvisited contains
unvisited-fewer [] visited n o f = absurd o
unvisited-fewer (u ∷ us) visited n (inl e) f = ground (arith, unvisited-more us visited n)
unvisited-fewer (u ∷ us) visited n (inr o) f = ground (arith, unvisited-fewer us visited n o f)

pub unvisited-length : (us visited : List PublicKey) → unvisited us visited ≤ length us
unfolding unvisited
unvisited-length [] visited = omega arith
unvisited-length (u ∷ us) visited = ground (arith, unvisited-length us visited)

pub Occurs-append-l : (k : PublicKey) (xs ys : List PublicKey) → Occurs k xs → Occurs k (xs ++ ys)
Occurs-append-l k [] ys o = absurd o
Occurs-append-l k (x ∷ xs) ys (inl e) = inl e
Occurs-append-l k (x ∷ xs) ys (inr o) = inr (Occurs-append-l k xs ys o)

pub Occurs-append-r : (k : PublicKey) (xs ys : List PublicKey) → Occurs k ys → Occurs k (xs ++ ys)
Occurs-append-r k [] ys o = o
Occurs-append-r k (x ∷ xs) ys o = inr (Occurs-append-r k xs ys o)

pub Occurs-append :
    (k : PublicKey) (xs ys : List PublicKey) → Occurs k (xs ++ ys) → Occurs k xs ⊎ Occurs k ys
Occurs-append k [] ys o = inr o
Occurs-append k (x ∷ xs) ys (inl e) = inl (inl e)
Occurs-append k (x ∷ xs) ys (inr o) = elim (Occurs-append k xs ys o) [
  | inl p ↦ inl (inr p)
  | inr q ↦ inr q
]

pub contains-cons :
    (k n : PublicKey) (xs : List PublicKey)
    → contains k (n ∷ xs) ≡ true
    → (n ≡ k) ⊎ (contains k xs ≡ true)
unfolding contains
contains-cons k n xs h = ground arith

pub contains-head : (n : PublicKey) (xs : List PublicKey) → contains n (n ∷ xs) ≡ true
unfolding contains
contains-head n xs = ground arith

pub contains-tail :
    (k n : PublicKey) (xs : List PublicKey) → contains k xs ≡ true → contains k (n ∷ xs) ≡ true
unfolding contains
contains-tail k n xs h = ground arith

pub contains-new :
    (k n : PublicKey) (xs : List PublicKey)
    → n ≢ k
    → contains k xs ≡ false
    → contains k (n ∷ xs) ≡ false
unfolding contains
contains-new k n xs d h = ground arith

pub contains-other :
    (k n : PublicKey) (xs : List PublicKey)
    → contains k (n ∷ xs) ≡ false
    → (n ≢ k) × (contains k xs ≡ false)
unfolding contains
contains-other k n xs h = ground arith
