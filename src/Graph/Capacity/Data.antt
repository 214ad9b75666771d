-- ===== src/Graph/Capacity/Data.antt =====
-- components/index_server/src/graph/capacity_graph.rs, simple_capacity_graph.rs, utils.rs and
-- graph_service.rs: the data of the graph, the age of an edge, and what is asked and answered.
use offst.Prelude.{
  ℕ, ◌+◌, ◌-◌, ◌*◌, ◌^◌, Bool, false, Option, none, some, List, [], ◌∷◌, ◌==◌, ltb, leb,
  if◌then◌else◌,
}
use offst.Prelude.Dict.{Dict}
use offst.Crypto.{PublicKey}
use offst.Graph.Bfs.{Run}

pub record LinearRate (T : Type 0) : Type 0 where
  pub zero_rate : T
  pub calc_fee : T → ℕ → Option ℕ
  pub checked_add : T → T → Option T

pub record CapacityEdge (T : Type 0) : Type 0 where
  pub capacity : ℕ × ℕ
  pub rate : T

pub record CapacityRoute (T : Type 0) : Type 0 where
  pub route : List PublicKey
  pub capacity : ℕ
  pub rate : T

pub record CapacityMultiRoute (T : Type 0) : Type 0 where
  pub routes : List (CapacityRoute T)

pub record Edge (T : Type 0) : Type 0 where
  pub capacity_edge : CapacityEdge T
  pub age : ℕ

pub record NodeEdges (T : Type 0) : Type 0 where
  pub edges : Dict (Edge T)

pub record SimpleCapacityGraph (T : Type 0) : Type 0 where
  pub nodes : Dict (NodeEdges T)

abbrev pub base_max_edge_age : ℕ
base_max_edge_age = 16

abbrev pub max_edge_age : ℕ → ℕ
max_edge_age num_edges = base_max_edge_age + 3 * num_edges

-- `saturating_add(1)` of a 128-bit word.
abbrev pub age_more : ℕ → ℕ
age_more age = if ltb (age + 1) (2 ^ 128) then age + 1 else 2 ^ 128 - 1

abbrev pub min : ℕ → ℕ → ℕ
min a b = if leb a b then a else b

-- `Iterator::min`
abbrev pub min? : List ℕ → Option ℕ
min? [] = none
min? (x ∷ xs) = elim (min? xs) [ none ↦ some x | some m ↦ some (min x m) ]

module _ {V : Type 0} where
  abbrev pub keys : Dict V → List PublicKey
  keys [] = []
  keys ((k, v) ∷ d) = k ∷ keys d

unfoldable pub filter : (PublicKey → Bool) → List PublicKey → List PublicKey
filter p [] = []
filter p (x ∷ xs) = let rest = filter p xs in if p x then x ∷ rest else rest

abbrev pub option_to_vec : {A : Type 0} → Option A → List A
option_to_vec none = []
option_to_vec (some a) = a ∷ []

-- components/index_server/src/graph/graph_service.rs: the requests to the service, without the
-- channels on which the answers go, and the answers.
pub data GraphRequest (T : Type 0) : Type 0 where
  request_update_edge : PublicKey → PublicKey → CapacityEdge T → GraphRequest T
  request_remove_edge : PublicKey → PublicKey → GraphRequest T
  request_remove_node : PublicKey → GraphRequest T
  request_multi_routes : PublicKey → PublicKey → ℕ → Option (PublicKey × PublicKey) → GraphRequest T
  request_tick : PublicKey → GraphRequest T

pub data GraphResponse (T : Type 0) : Type 0 where
  sent_edge : Option (CapacityEdge T) → GraphResponse T
  sent_found : Bool → GraphResponse T
  sent_routes : Run (Option (List (CapacityMultiRoute T))) → GraphResponse T
  sent_unit : GraphResponse T

-- `opt_exclude`, read at an edge.
abbrev pub excludes : Option (PublicKey × PublicKey) → PublicKey → PublicKey → Bool
excludes none a b = false
excludes (some (e_start, e_end)) a b = if e_start == a then e_end == b else false
