-- ===== src/Graph/Capacity/Edges.antt =====
-- components/index_server/src/graph/simple_capacity_graph.rs: what the operations do to the edges.
use offst.Prelude.{
  ℕ, ◌≡◌, Bool, false, Option, none, some, List, [], ◌∷◌, length, ◌==◌, if◌then◌else◌,
}
use offst.Prelude.Dict.{Dict, get, contains_key}
use offst.Crypto.{PublicKey}
use offst.Route.Valid.{IsUnique}
use offst.Graph.Capacity.{
  LinearRate, GraphRequest, request_update_edge, request_remove_edge, request_remove_node,
  request_multi_routes, request_tick, GraphResponse, sent_edge, sent_found, sent_routes, sent_unit,
  process_request, get_multi_routes, Edge, NodeEdges, SimpleCapacityGraph, keys, max_edge_age,
  get_edge, entry_edges,
}
use offst.Graph.Capacity.Keys.{aged, old_capacity}

abbrev both : PublicKey → PublicKey → PublicKey → PublicKey → Bool
both a b x y = if a == x then b == y else false

module _ {T : Type 0} where
  -- Each node has at most one edge to another.
  abbrev pub IsGraph : SimpleCapacityGraph T → Type 0
  IsGraph cg =
      (a : PublicKey) (ne : NodeEdges T) → get a cg.nodes ≡ some ne → IsUnique (keys ne.edges)

  abbrev pub degree : SimpleCapacityGraph T → PublicKey → ℕ
  degree cg a = length (entry_edges a cg)

  -- The edges as a function of their ends, after a call. `n` is how many edges the node has.
  abbrev pub view_after :
      GraphRequest T
      → (n : ℕ) → (PublicKey → PublicKey → Option (Edge T))
      → PublicKey
      → PublicKey
      → Option (Edge T)
  view_after (request_update_edge a b ce) n view x y =
      if both a b x y then some (record { capacity_edge = ce; age = 0 }) else view x y
  view_after (request_remove_edge a b) n view x y = if both a b x y then none else view x y
  view_after (request_remove_node a) n view x y = if a == x then none else view x y
  view_after (request_multi_routes a b capacity opt_exclude) n view x y = view x y
  view_after (request_tick a) n view x y =
      if a == x then aged (max_edge_age n) (view x y) else view x y

  abbrev pub node_of : GraphRequest T → PublicKey
  node_of (request_update_edge a b ce) = a
  node_of (request_remove_edge a b) = a
  node_of (request_remove_node a) = a
  node_of (request_multi_routes a b capacity opt_exclude) = a
  node_of (request_tick a) = a

  module _ (rates : LinearRate T) where
    -- What a request is answered with, read from the edges before it.
    abbrev pub answer_of : GraphRequest T → SimpleCapacityGraph T → GraphResponse T
    answer_of (request_update_edge a b ce) cg = sent_edge (old_capacity (get_edge cg a b))
    answer_of (request_remove_edge a b) cg = sent_edge (old_capacity (get_edge cg a b))
    answer_of (request_remove_node a) cg = sent_found (contains_key a cg.nodes)
    answer_of (request_multi_routes a b capacity opt_exclude) cg =
        sent_routes (get_multi_routes rates cg a b capacity opt_exclude)
    answer_of (request_tick a) cg = sent_unit

    -- The states that the service goes through, each with the request that is next.
    abbrev pub AllAfter :
        (GraphRequest T → SimpleCapacityGraph T → Type 0)
        → List (GraphRequest T)
        → SimpleCapacityGraph T
        → Type 0
    AllAfter P [] cg = Unit {0}
    AllAfter P (r ∷ rs) cg = P r cg × AllAfter P rs (process_request rates r cg).1

    -- A request answers and acts as the view of the edges says.
    pub record IsServed (r : GraphRequest T) (cg : SimpleCapacityGraph T) : Type 0 where
      pub answered : (process_request rates r cg).0 ≡ answer_of r cg
      pub viewed :
          (x y : PublicKey)
          → get_edge (process_request rates r cg).1 x y
            ≡ view_after r (degree cg (node_of r)) (get_edge cg) x y
