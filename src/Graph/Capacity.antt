-- ===== src/Graph/Capacity.antt =====
-- components/index_server/src/graph/capacity_graph.rs, simple_capacity_graph.rs and utils.rs: the
-- graph of directed capacities. The nodes are public keys; a hash map goes through its keys in the
-- order of the association list. The trait `LinearRate` is a parameter.
pub mod Data
pub mod Keys
pub mod Edges
pub mod Walk
pub mod Routes
pub mod Rates
use offst.Prelude.{
  ℕ, zero, suc, ◌+◌, ◌-◌, ◌*◌, ◌^◌, Bool, true, false, not, ◌||◌, Option, none, some, List, [], ◌∷◌,
  ◌++◌, ◌==◌, ltb, leb, if◌then◌else◌, length,
}
use offst.Prelude.Dict.{Dict, get, contains_key, insert, remove}
use offst.Crypto.{PublicKey}
use offst.Graph.Bfs.{Run, out_of_fuel, done, bfs}
pub use offst.Graph.Capacity.Data.{
  LinearRate, CapacityEdge, CapacityRoute, CapacityMultiRoute, Edge, NodeEdges, SimpleCapacityGraph,
  GraphRequest, GraphResponse, base_max_edge_age, max_edge_age, age_more, min, min?, keys,
  option_to_vec, excludes, request_update_edge, request_remove_edge, request_remove_node,
  request_multi_routes, request_tick, sent_edge, sent_found, sent_routes, sent_unit,
}
unfoldable pub use offst.Graph.Capacity.Data.{filter}

module _ {T : Type 0} where
  abbrev pub new_edge : CapacityEdge T → Edge T
  new_edge ce = record { capacity_edge = ce; age = 0 }

  unfoldable pub retain_young : ℕ → Dict (Edge T) → Dict (Edge T)
  retain_young max [] = []
  retain_young max ((k, e) ∷ d) =
      let rest = retain_young max d in
      if ltb (age_more e.age) max then (k, record e { age = age_more e.age }) ∷ rest else rest

  abbrev pub tick_edges : NodeEdges T → NodeEdges T
  tick_edges ne = record { edges = retain_young (max_edge_age (length ne.edges)) ne.edges }

  abbrev pub new_graph : SimpleCapacityGraph T
  new_graph = record { nodes = [] }

  unfoldable pub get_edge : SimpleCapacityGraph T → PublicKey → PublicKey → Option (Edge T)
  get_edge cg a b = elim (get a cg.nodes) [ none ↦ none | some ne ↦ get b ne.edges ]

  unfoldable pub get_send_capacity : SimpleCapacityGraph T → PublicKey → PublicKey → ℕ
  get_send_capacity cg a b = elim (get_edge cg a b) [
    | none ↦ 0
    | some ab ↦ elim (get_edge cg b a) [
      | none ↦ 0
      | some ba ↦ min ab.capacity_edge.capacity.0 ba.capacity_edge.capacity.1
    ]
  ]

  unfoldable pub neighbors_with_send_capacity :
      SimpleCapacityGraph T → PublicKey → ℕ → List PublicKey
  neighbors_with_send_capacity cg a capacity = elim (get a cg.nodes) [
    | none ↦ []
    | some ne ↦ filter (λ b. leb capacity (get_send_capacity cg a b)) (keys ne.edges)
  ]

  -- The capacities from each node of the route to the next.
  abbrev pub hop_capacities : SimpleCapacityGraph T → List PublicKey → List ℕ
  hop_capacities cg [] = []
  hop_capacities cg (x ∷ []) = []
  hop_capacities cg (x ∷ y ∷ r) = get_send_capacity cg x y ∷ hop_capacities cg (y ∷ r)

  unfoldable pub get_route_capacity : SimpleCapacityGraph T → List PublicKey → Option ℕ
  get_route_capacity cg route = min? (hop_capacities cg route)

  -- The loop of `get_route_rate`: no rate for the last hop.
  unfoldable pub add_rates : LinearRate T → SimpleCapacityGraph T → T → List PublicKey → Option T
  add_rates rates cg total_rate [] = none
  add_rates rates cg total_rate (x ∷ []) = none
  add_rates rates cg total_rate (x ∷ y ∷ []) = some total_rate
  add_rates rates cg total_rate (x ∷ y ∷ z ∷ r) = elim (get_edge cg x y) [
    | none ↦ none
    | some edge ↦ elim (rates.checked_add total_rate edge.capacity_edge.rate) [
      | none ↦ none
      | some total ↦ add_rates rates cg total (y ∷ z ∷ r)
    ]
  ]

  abbrev pub get_route_rate : LinearRate T → SimpleCapacityGraph T → List PublicKey → Option T
  get_route_rate rates cg route = add_rates rates cg rates.zero_rate route

  abbrev pub get_neighbors :
      SimpleCapacityGraph T → ℕ → Option (PublicKey × PublicKey) → PublicKey → List PublicKey
  get_neighbors cg capacity opt_exclude cur_node =
      filter (λ next_node. not (excludes opt_exclude cur_node next_node))
        (neighbors_with_send_capacity cg cur_node capacity)

  -- All keys that edges lead to: no more nodes than these and the source enter the queue.
  unfoldable pub all_targets : Dict (NodeEdges T) → List PublicKey
  all_targets [] = []
  all_targets ((k, ne) ∷ d) = keys ne.edges ++ all_targets d

  abbrev pub search_fuel : SimpleCapacityGraph T → ℕ
  search_fuel cg = suc (suc (length (all_targets cg.nodes)))

  -- From the route on: the outer `none` is the failed `unwrap` of the capacity.
  unfoldable pub with_route :
      LinearRate T → SimpleCapacityGraph T → List PublicKey → Option (Option (CapacityMultiRoute T))
  with_route rates cg route = elim (get_route_capacity cg route) [
    | none ↦ none
    | some capacity ↦ elim (get_route_rate rates cg route) [
      | none ↦ some none
      | some rate ↦ some (
          some
            (record { routes = (record { route = route; capacity = capacity; rate = rate }) ∷ [] }))
    ]
  ]

  unfoldable pub get_multi_route :
      LinearRate T
      → SimpleCapacityGraph T
      → PublicKey
      → PublicKey
      → ℕ
      → Option (PublicKey × PublicKey)
      → Run (Option (Option (CapacityMultiRoute T)))
  get_multi_route rates cg a b capacity opt_exclude =
      elim (bfs (get_neighbors cg capacity opt_exclude) b (search_fuel cg) a) [
        | out_of_fuel ↦ out_of_fuel
        | done none ↦ done (some none)
        | done (some route) ↦ done (with_route rates cg route)
      ]

  abbrev pub get_multi_routes :
      LinearRate T
      → SimpleCapacityGraph T
      → PublicKey
      → PublicKey
      → ℕ
      → Option (PublicKey × PublicKey)
      → Run (Option (List (CapacityMultiRoute T)))
  get_multi_routes rates cg a b capacity opt_exclude =
      elim (get_multi_route rates cg a b capacity opt_exclude) [
        | out_of_fuel ↦ out_of_fuel
        | done none ↦ done none
        | done (some r) ↦ done (some (option_to_vec r))
      ]

  abbrev pub entry_edges : PublicKey → SimpleCapacityGraph T → Dict (Edge T)
  entry_edges a cg = elim (get a cg.nodes) [ none ↦ [] | some ne ↦ ne.edges ]

  unfoldable pub update_edge :
      PublicKey
      → PublicKey
      → CapacityEdge T
      → SimpleCapacityGraph T
      → Option (CapacityEdge T) × SimpleCapacityGraph T
  update_edge a b ce cg =
      let old = entry_edges a cg in
      (
        elim (get b old) [ none ↦ none | some e ↦ some e.capacity_edge ],
        record { nodes = insert a (record { edges = insert b (new_edge ce) old }) cg.nodes },
      )

  unfoldable pub remove_edge :
      PublicKey
      → PublicKey
      → SimpleCapacityGraph T
      → Option (CapacityEdge T) × SimpleCapacityGraph T
  remove_edge a b cg = elim (get a cg.nodes) [
    | none ↦ (none, cg)
    | some ne ↦ elim (get b ne.edges) [
      | none ↦ (none, cg)
      | some e ↦ (
        some e.capacity_edge,
        elim (remove b ne.edges) [
          | [] ↦ record { nodes = remove a cg.nodes }
          | x ∷ left ↦ record { nodes = insert a (record { edges = x ∷ left }) cg.nodes }
        ],
      )
    ]
  ]

  unfoldable pub remove_node : PublicKey → SimpleCapacityGraph T → Bool × SimpleCapacityGraph T
  remove_node a cg = (contains_key a cg.nodes, record { nodes = remove a cg.nodes })

  unfoldable pub tick : PublicKey → SimpleCapacityGraph T → SimpleCapacityGraph T
  tick a cg = elim (get a cg.nodes) [
    | none ↦ cg
    | some ne ↦ record { nodes = insert a (tick_edges ne) cg.nodes }
  ]

  abbrev pub process_request :
      LinearRate T
      → GraphRequest T
      → SimpleCapacityGraph T
      → GraphResponse T × SimpleCapacityGraph T
  process_request rates (request_update_edge a b ce) cg =
      let r = update_edge a b ce cg in (sent_edge r.0, r.1)
  process_request rates (request_remove_edge a b) cg =
      let r = remove_edge a b cg in (sent_edge r.0, r.1)
  process_request rates (request_remove_node a) cg =
      let r = remove_node a cg in (sent_found r.0, r.1)
  process_request rates (request_multi_routes a b capacity opt_exclude) cg =
      (sent_routes (get_multi_routes rates cg a b capacity opt_exclude), cg)
  process_request rates (request_tick a) cg = (sent_unit, tick a cg)
