-- ===== src/Graph/Bfs/Scan.antt =====
-- components/index_server/src/graph/bfs.rs: what the loop over the neighbors of a node keeps.
use offst.Prelude.{
  ◌+◌, ◌≤◌, ◌≡◌, ◌≢◌, ◌⊎◌, refl, sym, true, false, Option, none, some, List, [], ◌∷◌, arith, length,
  inl, inr, Bool-cases, ◌==◌, ==_iff, length-append,
}
use offst.Prelude.Dict.{Dict, get, insert, get-insert}
use offst.Crypto.{PublicKey}
use offst.Route.{contains}
use offst.Route.Valid.{Occurs, IsUnique}
use offst.Graph.Bfs.{Search, Scanned, found, continues, enqueue, scan_neighbors}
use offst.Graph.Bfs.Chain.{Chain, Chain-insert, up, length-insert}
use offst.Graph.Bfs.Unvisited.{
  Occurs-append, Occurs-append-l, Occurs-append-r, contains-cons, contains-head, contains-new,
  contains-other, contains-tail, unvisited, unvisited-fewer,
}

module _ (get_neighbors : PublicKey → List PublicKey) (src : PublicKey) where
  -- A way back from the node to the source, with no node twice, among visited nodes.
  pub record Traced (d : Dict (Option PublicKey)) (visited : List PublicKey) (k : PublicKey)
      : Type 0 where
    pub back : List PublicKey
    pub chain : Chain get_neighbors src d k back
    pub unique : IsUnique back
    pub within : (x : PublicKey) → Occurs x back → contains x visited ≡ true
    pub short : length back ≤ length d

  Traced-insert :
      {d : Dict (Option PublicKey)} {visited : List PublicKey} {k : PublicKey} (n : PublicKey)
      (v : Option PublicKey)
      → get n d ≡ none
      → Traced d visited k
      → Traced (insert n v d) (n ∷ visited) k
  Traced-insert {d} {visited} n v f t = record {
    back = t.back;
    chain = Chain-insert get_neighbors n v f t.chain;
    unique = t.unique;
    within = λ x o. contains-tail x n visited (t.within x o);
    short = omega (arith, t.short, length-insert n v d f);
  }

  Traced-step :
      {d : Dict (Option PublicKey)} {visited : List PublicKey} {p : PublicKey} (n : PublicKey)
      → get n d ≡ none
      → contains n visited ≡ false
      → Occurs n (get_neighbors p)
      → Traced d visited p
      → Traced (insert n (some p) d) (n ∷ visited) n
  Traced-step {d} {visited} {p} n f c o t = record {
    back = n ∷ t.back;
    chain =
        up (ground (arith, get-insert n n (some p) d)) o
          (Chain-insert get_neighbors n (some p) f t.chain);
    unique = (λ q. absurd (cc (t.within n q, c)), t.unique);
    within = λ x q. elim q [
      | inl e ↦ rw (sym e) (contains-head n visited)
      | inr r ↦ contains-tail x n visited (t.within x r)
    ];
    short = omega (arith, t.short, length-insert n (some p) d f);
  }

module _ (get_neighbors : PublicKey → List PublicKey) (src dst : PublicKey) where
  -- The invariant of the search, but for the neighbors of the nodes that `Busy` holds of.
  pub record Explored (Busy : PublicKey → Type 0) (s : Search) : Type 0 where
    pub traced :
        (k : PublicKey)
        → contains k s.visited ≡ true
        → Traced get_neighbors src s.backtrack s.visited k
    pub fresh : (k : PublicKey) → contains k s.visited ≡ false → get k s.backtrack ≡ none
    pub source : contains src s.visited ≡ true
    pub queued : (k : PublicKey) → Occurs k s.queue → contains k s.visited ≡ true
    pub closed :
        (k n : PublicKey)
        → contains k s.visited ≡ true
        → Occurs n (get_neighbors k)
        → Busy k ⊎ Occurs k s.queue ⊎ (contains n s.visited ≡ true)
    pub avoids : (src ≡ dst) ⊎ (contains dst s.visited ≡ false)

  Explored-enqueue :
      {Busy : PublicKey → Type 0} {s : Search} (node n : PublicKey)
      → contains node s.visited ≡ true
      → Occurs n (get_neighbors node)
      → contains n s.visited ≡ false
      → n ≢ dst
      → Explored Busy s
      → Explored Busy (enqueue node n s)
  Explored-enqueue {Busy} {s} node n c o f ne e = record {
    traced = λ k h. elim (contains-cons k n s.visited h) [
      | inl eq ↦ rw (sym eq) (Traced-step get_neighbors src n (e.fresh n f) f o (e.traced node c))
      | inr old ↦ Traced-insert get_neighbors src n (some node) (e.fresh n f) (e.traced k old)
    ];
    fresh = λ k h.
        let (d, g) = contains-other k n s.visited h in
        ground (arith, get-insert n k (some node) s.backtrack, e.fresh k g);
    source = contains-tail src n s.visited e.source;
    queued = λ k q. elim (Occurs-append k s.queue (n ∷ []) q) [
      | inl old ↦ contains-tail k n s.visited (e.queued k old)
      | inr new ↦ elim new [ inl eq ↦ rw (sym eq) (contains-head n s.visited) | inr a ↦ absurd a ]
    ];
    closed = λ k m h q. elim (contains-cons k n s.visited h) [
      | inl eq ↦ inr (inl (Occurs-append-r k s.queue (n ∷ []) (inl eq)))
      | inr old ↦ elim (e.closed k m old q) [
        | inl b ↦ inl b
        | inr r ↦ elim r [
          | inl w ↦ inr (inl (Occurs-append-l k s.queue (n ∷ []) w))
          | inr v ↦ inr (inr (contains-tail m n s.visited v))
        ]
      ]
    ];
    avoids = elim e.avoids [ inl eq ↦ inl eq | inr v ↦ inr (contains-new dst n s.visited ne v) ];
  }

  apart :
      (visited : List PublicKey) (n : PublicKey)
      → src ≡ dst
      → (n == dst) ≡ true
      → contains n visited ≡ false
      → contains src visited ≡ true
      → ⊥
  apart visited n e h f c = cc (e, (==_iff n dst).0 h, f, c)

  module _ (us : List PublicKey) (Busy : PublicKey → Type 0) where
    -- What a scan leads to: with the destination in the predecessors, or with all the neighbors visited.
    pub record Scans (neighbors : List PublicKey) (s s' : Search) : Type 0 where
      pub explored : Explored Busy s'
      pub kept : (k : PublicKey) → contains k s.visited ≡ true → contains k s'.visited ≡ true
      pub all : (k : PublicKey) → Occurs k neighbors → contains k s'.visited ≡ true
      pub measure :
          length s'.queue + unvisited us s'.visited ≤ length s.queue + unvisited us s.visited

    abbrev pub ScanEnds : List PublicKey → Search → Scanned → Type 0
    ScanEnds neighbors s (found d) =
        (src ≢ dst) × ((visited : List PublicKey) × Traced get_neighbors src d visited dst)
    ScanEnds neighbors s (continues s') = Scans neighbors s s'

    -- A neighbor that is visited already.
    ScanEnds-skip :
        (s : Search) (n : PublicKey) (rest : List PublicKey) (o : Scanned)
        → contains n s.visited ≡ true
        → ScanEnds rest s o
        → ScanEnds (n ∷ rest) s o
    ScanEnds-skip s n rest (found d) c e = e
    ScanEnds-skip s n rest (continues s') c e = record {
      explored = e.explored;
      kept = e.kept;
      all = λ k q. elim q [ inl eq ↦ rw (sym eq) (e.kept n c) | inr o ↦ e.all k o ];
      measure = e.measure;
    }

    -- A neighbor that the loop puts on the queue.
    ScanEnds-enqueue :
        (s : Search) (node n : PublicKey) (rest : List PublicKey) (o : Scanned)
        → Occurs n us
        → contains n s.visited ≡ false
        → ScanEnds rest (enqueue node n s) o
        → ScanEnds (n ∷ rest) s o
    ScanEnds-enqueue s node n rest (found d) u f e = e
    ScanEnds-enqueue s node n rest (continues s') u f e = record {
      explored = e.explored;
      kept = λ k h. e.kept k (contains-tail k n s.visited h);
      all = λ k q. elim q [
        | inl eq ↦ rw (sym eq) (e.kept n (contains-head n s.visited))
        | inr o ↦ e.all k o
      ];
      measure =
          omega
            (arith, e.measure, unvisited-fewer us s.visited n u f, length-append s.queue (n ∷ []));
    }

    pub scan_neighbors-ScanEnds :
        (node : PublicKey) (neighbors : List PublicKey) (s : Search)
        → ((k : PublicKey) → Occurs k neighbors → Occurs k (get_neighbors node) × Occurs k us)
        → contains node s.visited ≡ true
        → Explored Busy s
        → ScanEnds neighbors s (scan_neighbors dst node neighbors s)
    unfolding scan_neighbors
    scan_neighbors-ScanEnds node [] s edges c e = record {
      explored = e;
      kept = λ k h. h;
      all = λ k o. absurd o;
      measure = omega arith;
    }
    scan_neighbors-ScanEnds node (n ∷ rest) s edges c e =
        let edge = edges n (inl refl) in
        let later = λ (k : PublicKey) (o : Occurs k rest). edges k (inr o) in
        elim (Bool-cases (contains n s.visited)) [
          | inl old ↦
              rw (scan_neighbors, old)
                (ScanEnds-skip s n rest (scan_neighbors dst node rest s) old
                  (scan_neighbors-ScanEnds node rest s later c e))
          | inr f ↦ elim (Bool-cases (n == dst)) [
            | inl hit ↦
                rw (scan_neighbors, f, hit)
                  (
                    λ eq. apart s.visited n eq hit f e.source,
                    (
                      n ∷ s.visited,
                      rw (sym ((==_iff n dst).0 hit)) (
                          Traced-step get_neighbors src n (e.fresh n f) f edge.0 (e.traced node c)),
                    ),
                  )
            | inr miss ↦
                rw (scan_neighbors, f, miss)
                  (ScanEnds-enqueue s node n rest (scan_neighbors dst node rest (enqueue node n s))
                    edge.1 f
                    (scan_neighbors-ScanEnds node rest (enqueue node n s) later
                      (contains-tail node n s.visited c)
                      (Explored-enqueue node n c edge.0 f (ground arith) e)))
          ]
        ]
