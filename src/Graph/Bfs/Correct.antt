-- ===== src/Graph/Bfs/Correct.antt =====
-- components/index_server/src/graph/bfs.rs: the search and its answers.
use offst.Prelude.{
  ℕ, zero, suc, ◌+◌, ◌<◌, ◌≡◌, ◌≢◌, ◌⊎◌, refl, sym, ap, true, false, Option, none, some, List, [],
  ◌∷◌, arith, length, inl, inr, Bool-cases, ◌==◌,
}
use mathlib.Core.Path.{subst}
use offst.Prelude.Dict.{Dict, insert, get-insert}
use offst.Crypto.{PublicKey}
use offst.Route.{contains}
use offst.Route.Valid.{Occurs, IsUnique}
use offst.Graph.Bfs.{
  Search, Scanned, found, continues, scan_neighbors, Run, out_of_fuel, done, bfs_backtrack,
  bfs_start, bfs_rounds, bfs_loop, bfs,
}
use offst.Graph.Bfs.Chain.{
  length-insert, root, IsRoute, IsUnique-reverse, reverse-IsRoute, bfs_backtrack-Chain,
}
use offst.Graph.Bfs.Unvisited.{unvisited, unvisited-length, contains-head}
use offst.Graph.Bfs.Scan.{Traced, Explored, Scans, ScanEnds, scan_neighbors-ScanEnds}

start_only : (src k : PublicKey) → contains k (src ∷ []) ≡ true → src ≡ k
unfolding contains
start_only src k c = ground arith

start_none : (src k : PublicKey) → contains k (src ∷ []) ≡ false → (src == k) ≡ false
unfolding contains
start_none src k c = ground arith

start_not : (src dst : PublicKey) → (src == dst) ≡ false → contains dst (src ∷ []) ≡ false
unfolding contains
start_not src dst n = ground arith

start-Traced :
    (get_neighbors : PublicKey → List PublicKey) (src k : PublicKey)
    → src ≡ k
    → Traced get_neighbors src (insert src none []) (src ∷ []) k
start-Traced get_neighbors src k e = rw (sym e) (record {
  back = src ∷ [];
  chain = root (ground (arith, get-insert {V = Option PublicKey} src src none []));
  unique = (λ o. o, tt);
  within = λ x o. elim o [ inl q ↦ rw (sym q) (contains-head src []) | inr a ↦ absurd a ];
  short = ground (arith, length-insert {V = Option PublicKey} src none []);
})

module _ (get_neighbors : PublicKey → List PublicKey) (us : List PublicKey)
    (edges : (p k : PublicKey) → Occurs k (get_neighbors p) → Occurs k us)
    (src dst : PublicKey) where
  -- How the loop ends: never by fuel.
  abbrev LoopEnds : Run (Option (Dict (Option PublicKey))) → Type 0
  LoopEnds out_of_fuel = ⊥
  LoopEnds (done none) = (src ≡ dst) ⊎ ((r : List PublicKey) → ¬ IsRoute get_neighbors src dst r)
  LoopEnds (done (some d)) =
      (src ≢ dst) × ((visited : List PublicKey) × Traced get_neighbors src d visited dst)

  Explored-busy :
      {s : Search} (node : PublicKey) (rest : List PublicKey)
      → s.queue ≡ node ∷ rest
      → Explored get_neighbors src dst (λ k. ⊥) s
      → Explored get_neighbors src dst (λ k. node ≡ k) (record s { queue = rest })
  Explored-busy {s} node rest h e = record {
    traced = e.traced;
    fresh = e.fresh;
    source = e.source;
    queued = λ k o. e.queued k (rw h (inr o));
    closed = λ k n c o. elim (e.closed k n c o) [
      | inl b ↦ absurd b
      | inr r ↦ elim r [ inl w ↦ waits k n w | inr v ↦ inr (inr v) ]
    ];
    avoids = e.avoids;
  }
    where
      waits :
          (k n : PublicKey)
          → Occurs k s.queue
          → (node ≡ k) ⊎ Occurs k rest ⊎ (contains n s.visited ≡ true)
      waits k n w = elim (subst (Occurs k) h w) [ inl eq ↦ inl eq | inr o ↦ inr (inl o) ]

  Explored-idle :
      {s s' : Search} (node : PublicKey)
      → Scans get_neighbors src dst us (λ k. node ≡ k) (get_neighbors node) s s'
      → Explored get_neighbors src dst (λ k. ⊥) s'
  Explored-idle node h = record {
    traced = h.explored.traced;
    fresh = h.explored.fresh;
    source = h.explored.source;
    queued = h.explored.queued;
    closed = λ k n c o. elim (h.explored.closed k n c o) [
      | inl b ↦ inr (inr (h.all n (rw b o)))
      | inr r ↦ inr r
    ];
    avoids = h.explored.avoids;
  }

  -- With nothing queued the visited nodes are closed under neighbors.
  route-visited :
      (s : Search)
      → s.queue ≡ []
      → Explored get_neighbors src dst (λ k. ⊥) s
      → (a : PublicKey) (r : List PublicKey) → contains a s.visited ≡ true
      → IsRoute get_neighbors a dst r
      → contains dst s.visited ≡ true
  route-visited s q e a [] c h = absurd h
  route-visited s q e a (x ∷ []) c h = cc (h.0, h.1, c)
  route-visited s q e a (x ∷ y ∷ r) c h =
      route-visited s q e y (y ∷ r)
        (elim (e.closed x y (cc (h.0, c)) h.1) [
          | inl b ↦ absurd b
          | inr w ↦ elim w [ inl o ↦ absurd (subst (Occurs x) q o) | inr v ↦ v ]
        ])
        h.2

  round-LoopEnds :
      (fuel : ℕ) (s : Search) (node : PublicKey) (rest : List PublicKey) (o : Scanned)
      → ((s' : Search)
          → length s'.queue + unvisited us s'.visited < fuel
          → Explored get_neighbors src dst (λ k. ⊥) s'
          → LoopEnds (bfs_rounds get_neighbors dst fuel s'))
      → length rest + unvisited us s.visited < fuel
      → ScanEnds get_neighbors src dst us
          (λ k. node ≡ k)
          (get_neighbors node)
          (record s { queue = rest })
          o
      → LoopEnds
          (elim o [ found d ↦ done (some d) | continues s' ↦ bfs_rounds get_neighbors dst fuel s' ])
  round-LoopEnds fuel s node rest (found d) again l e = e
  round-LoopEnds fuel s node rest (continues s') again l e =
      again s' (omega (arith, e.measure)) (Explored-idle node e)

  rounds-LoopEnds :
      (fuel : ℕ) (s : Search)
      → length s.queue + unvisited us s.visited < fuel
      → Explored get_neighbors src dst (λ k. ⊥) s
      → LoopEnds (bfs_rounds get_neighbors dst fuel s)
  unfolding bfs_rounds
  rounds-LoopEnds zero s l e = absurd (omega arith)
  rounds-LoopEnds (suc fuel) s l e =
      elim s.queue
          as (λ q.
            s.queue ≡ q
            → LoopEnds (elim q [
              | [] ↦ done none
              | node ∷ rest ↦
                  elim (scan_neighbors dst node (get_neighbors node) (record s { queue = rest })) [
                    | found d ↦ done (some d)
                    | continues s' ↦ bfs_rounds get_neighbors dst fuel s'
                  ]
            ])) [
              | [] ↦ λ q. elim e.avoids [
                | inl eq ↦ inl eq
                | inr f ↦ inr (λ r h. absurd (cc (route-visited s q e src r e.source h, f)))
              ]
              | node ∷ rest ↦ λ q.
                  round-LoopEnds fuel s node rest
                    (scan_neighbors dst node (get_neighbors node) (record s { queue = rest }))
                    (rounds-LoopEnds fuel) (omega (arith, l, ap length q))
                    (scan_neighbors-ScanEnds get_neighbors src dst us (λ k. node ≡ k) node
                      (get_neighbors node) (record s { queue = rest }) (λ k o. (o, edges node k o))
                      (e.queued node (rw q (inl refl))) (Explored-busy node rest q e))
            ]
        refl

  Explored-start : Explored get_neighbors src dst (λ k. ⊥) (bfs_start src)
  Explored-start = record {
    traced = λ k c. start-Traced get_neighbors src k (start_only src k c);
    fresh =
        λ k c. ground (arith, get-insert {V = Option PublicKey} src k none [], start_none src k c);
    source = contains-head src [];
    queued = λ k o. elim o [ inl e ↦ rw (sym e) (contains-head src []) | inr a ↦ absurd a ];
    closed = λ k n c o. inr (inl (inl (start_only src k c)));
    avoids = elim (Bool-cases (src == dst)) [
      | inl e ↦ inl (ground arith)
      | inr n ↦ inr (start_not src dst n)
    ];
  }

  -- An answer of the search: a route with no node twice, or none where there is none.
  abbrev pub Answers : Run (Option (List PublicKey)) → Type 0
  Answers out_of_fuel = ⊥
  Answers (done none) = (src ≡ dst) ⊎ ((r : List PublicKey) → ¬ IsRoute get_neighbors src dst r)
  Answers (done (some r)) = (src ≢ dst) × IsRoute get_neighbors src dst r × IsUnique r

  answer :
      (o : Run (Option (Dict (Option PublicKey))))
      → LoopEnds o
      → Answers (elim o [
        | out_of_fuel ↦ out_of_fuel
        | done none ↦ done none
        | done (some d) ↦ bfs_backtrack dst d
      ])
  answer out_of_fuel e = e
  answer (done none) e = e
  answer (done (some d)) e =
      let t = e.1.1 in
      rw (bfs_backtrack-Chain get_neighbors t.chain t.short)
        (e.0, reverse-IsRoute get_neighbors t.chain, IsUnique-reverse t.back t.unique)

  -- When all neighbors are among the given nodes, with two rounds more than there are of these as
  -- fuel, the search ends. A route that it gives goes from the source to the destination by
  -- neighbors, with no node twice. It gives none just if the source is the destination or no such
  -- walk exists.
  pub bfs-Answers : (fuel : ℕ) → suc (length us) < fuel → Answers (bfs get_neighbors dst fuel src)
  unfolding bfs
  bfs-Answers fuel l = answer (bfs_loop get_neighbors dst fuel src) (
      rounds-LoopEnds fuel (bfs_start src) (omega (arith, unvisited-length us (src ∷ [])))
        Explored-start)
