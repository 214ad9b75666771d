-- ===== src/Graph/Tests.antt =====
-- Tests of the graph, on the example of the source's own test of `get_multi_route`.
use offst.Prelude.{ℕ, zero, suc, inl, inr, ◌+◌, ◌≡◌, refl, none, some, List, [], ◌∷◌, arith}
use offst.Prelude.Dict.{insert}
use offst.Crypto.{PublicKey}
use offst.Route.{contains}
use offst.Route.Valid.{Occurs}
use offst.Graph.Bfs.{done, bfs, bfs_rounds, bfs_backtrack, walk_back, scan_neighbors}
use offst.Graph.Bfs.Correct.{Answers, bfs-Answers}
use offst.Graph.Capacity.{
  LinearRate, CapacityEdge, GraphRequest, request_update_edge, request_remove_edge,
  request_remove_node, request_tick, SimpleCapacityGraph, get_multi_route, get_route_rate,
  get_send_capacity, get_edge, neighbors_with_send_capacity, filter, get_route_capacity, add_rates,
  new_graph, update_edge, all_targets, with_route,
}

-- 0 → 1 → 2 → 0, and 2 → 3.
abbrev small : PublicKey → List PublicKey
small zero = 1 ∷ []
small (suc zero) = 2 ∷ []
small (suc (suc zero)) = 0 ∷ 3 ∷ []
small (suc (suc (suc k))) = []

small-Occurs : (p k : PublicKey) → Occurs k (small p) → Occurs k (0 ∷ 1 ∷ 2 ∷ 3 ∷ [])
small-Occurs zero k (inl e) = inr (inl e)
small-Occurs zero k (inr o) = absurd o
small-Occurs (suc zero) k (inl e) = inr (inr (inl e))
small-Occurs (suc zero) k (inr o) = absurd o
small-Occurs (suc (suc zero)) k (inl e) = inl e
small-Occurs (suc (suc zero)) k (inr (inl e)) = inr (inr (inr (inl e)))
small-Occurs (suc (suc zero)) k (inr (inr o)) = absurd o
small-Occurs (suc (suc (suc p))) k o = absurd o

bfs-small : (bfs small 3 6 0 ≡ done (some (0 ∷ 1 ∷ 2 ∷ 3 ∷ []))) × (bfs small 0 6 3 ≡ done none)
unfolding bfs bfs_rounds bfs_backtrack walk_back scan_neighbors contains insert
bfs-small = (refl, refl)

-- A node has no route to itself, not even around a cycle.
no_cycle : bfs small 0 6 0 ≡ done none
unfolding bfs bfs_rounds bfs_backtrack walk_back scan_neighbors contains insert
no_cycle = refl

bfs-Answers_example : Answers small (0 ∷ 1 ∷ 2 ∷ 3 ∷ []) small-Occurs 0 3 (bfs small 3 6 0)
bfs-Answers_example = bfs-Answers small (0 ∷ 1 ∷ 2 ∷ 3 ∷ []) small-Occurs 0 3 6 (omega arith)

-- `ConstRate` of the source's tests.
abbrev rates : LinearRate ℕ
rates = record { zero_rate = 0; calc_fee = λ r k. some r; checked_add = λ r q. some (r + q) }

abbrev edge : ℕ → ℕ → ℕ → CapacityEdge ℕ
edge s r t = record { capacity = (s, r); rate = t }

abbrev both_ways : ℕ → ℕ → ℕ → ℕ → SimpleCapacityGraph ℕ → SimpleCapacityGraph ℕ
both_ways a b s r cg = (update_edge b a (edge r s 1) (update_edge a b (edge s r 1) cg).1).1

abbrev example_capacity_graph : SimpleCapacityGraph ℕ
example_capacity_graph = both_ways 4 2 30 18 (
    both_ways 3 4 30 6 (
      both_ways 1 3 30 8
        (both_ways 2 5 30 5 (both_ways 1 2 10 10 (both_ways 0 1 30 10 new_graph)))))

-- Around the edge from 1 to 2, which is too small.
multi_route_example :
    get_multi_route rates example_capacity_graph 0 5 25 none
    ≡ done (
        some (
          some (record {
            routes = (record { route = 0 ∷ 1 ∷ 3 ∷ 4 ∷ 2 ∷ 5 ∷ []; capacity = 30; rate = 4 }) ∷ [];
          })))
unfolding get_multi_route bfs bfs_rounds bfs_backtrack walk_back scan_neighbors contains insert
    update_edge get_send_capacity get_edge neighbors_with_send_capacity filter get_route_capacity
    add_rates all_targets with_route
multi_route_example = refl

-- 0 asks 7 of 1, and 1 asks 9 of 0: the route from 0 over 1 to 2 counts the former.
rate_of_sender :
    get_route_rate rates
      (update_edge 1 0 (edge 30 30 9) (update_edge 0 1 (edge 30 30 7) new_graph).1).1
      (0 ∷ 1 ∷ 2 ∷ [])
    ≡ some 7
unfolding add_rates get_edge update_edge insert
rate_of_sender = refl

abbrev calls : List (GraphRequest ℕ)
calls =
    request_update_edge 0 1 (edge 30 10 1)
    ∷ request_update_edge 1 0 (edge 10 30 1)
    ∷ request_tick 0
    ∷ request_remove_edge 1 0
    ∷ request_remove_node 0
    ∷ []
