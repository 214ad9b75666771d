-- ===== src/Graph/Capacity/Routes.antt =====
-- components/index_server/src/graph/simple_capacity_graph.rs: the routes that `get_multi_route` gives.
use offst.Prelude.{ℕ, ◌≤◌, ◌≡◌, ◌≢◌, ◌⊎◌, ◌↔◌, false, Option, none, some, List, [], ◌∷◌}
use offst.Prelude.Dict.{Dict}
use offst.Crypto.{PublicKey}
use offst.Route.Valid.{IsUnique}
use offst.Graph.Bfs.{Run, out_of_fuel, done}
use offst.Graph.Capacity.{
  LinearRate, CapacityRoute, CapacityMultiRoute, Edge, SimpleCapacityGraph, excludes, get_edge,
  get_send_capacity, hop_capacities,
}
use offst.Graph.Capacity.Walk.{Walk, UnderAll}

module _ {T : Type 0} (cg : SimpleCapacityGraph T) where
  -- The graph has the edge, `capacity` can be sent along it, and it is not excluded.
  abbrev pub Hop : ℕ → Option (PublicKey × PublicKey) → PublicKey → PublicKey → Type 0
  Hop capacity opt_exclude x y =
      ((e : Edge T) × (get_edge cg x y ≡ some e))
      × (capacity ≤ get_send_capacity cg x y)
      × (excludes opt_exclude x y ≡ false)

  -- The rates of the edges of a route from each node to the next, but for the last edge.
  abbrev pub HasRates : List PublicKey → List T → Type 0
  HasRates [] qs = ⊥
  HasRates (x ∷ []) qs = ⊥
  HasRates (x ∷ y ∷ []) qs = qs ≡ []
  HasRates (x ∷ y ∷ z ∷ r) [] = ⊥
  HasRates (x ∷ y ∷ z ∷ r) (q ∷ qs) =
      ((e : Edge T) × (get_edge cg x y ≡ some e) × (e.capacity_edge.rate ≡ q))
      × HasRates (y ∷ z ∷ r) qs

  module _ (rates : LinearRate T) where
    -- The rates added one after the other to the first, with the total that they give, or at one of
    -- which the addition has no value.
    abbrev pub AddsTo : T → List T → T → Type 0
    AddsTo acc [] total = acc ≡ total
    AddsTo acc (q ∷ qs) total =
        (next : T) × (rates.checked_add acc q ≡ some next) × AddsTo next qs total

    abbrev pub Overflows : T → List T → Type 0
    Overflows acc [] = ⊥
    Overflows acc (q ∷ qs) =
        (rates.checked_add acc q ≡ none)
        ⊎ ((next : T) × (rates.checked_add acc q ≡ some next) × Overflows next qs)

    -- What the loop answers on a route.
    abbrev Totals : T → List PublicKey → Option T → Type 0
    Totals acc r none = (qs : List T) × HasRates r qs × Overflows acc qs
    Totals acc r (some total) = (qs : List T) × HasRates r qs × AddsTo acc qs total

  module _ (rates : LinearRate T) (a b : PublicKey) (capacity : ℕ)
      (opt_exclude : Option (PublicKey × PublicKey)) where
    -- A route as it was asked for: its capacity is the most that every hop can send, its rate what the
    -- rates of its edges but the last add to.
    pub record IsOffer (offer : CapacityRoute T) : Type 0 where
      pub walk : Walk (Hop capacity opt_exclude) a b offer.route
      pub unique : IsUnique offer.route
      pub enough : capacity ≤ offer.capacity
      pub least : (d : ℕ) → UnderAll d (hop_capacities cg offer.route) ↔ (d ≤ offer.capacity)
      pub rated :
          (qs : List T) × HasRates offer.route qs × AddsTo rates rates.zero_rate qs offer.rate

    -- No route: the nodes are the same, or there is no walk, or the rate of a walk has no value.
    abbrev pub NoOffer : Type 0
    NoOffer =
        (a ≡ b)
        ⊎ ((r : List PublicKey) → ¬ Walk (Hop capacity opt_exclude) a b r)
        ⊎ ((r : List PublicKey) × Walk (Hop capacity opt_exclude) a b r
            × ((qs : List T) × HasRates r qs × Overflows rates rates.zero_rate qs))

    abbrev pub Offers : Run (Option (Option (CapacityMultiRoute T))) → Type 0
    Offers out_of_fuel = ⊥
    Offers (done none) = ⊥
    Offers (done (some none)) = NoOffer
    Offers (done (some (some m))) =
        (a ≢ b) × ((offer : CapacityRoute T) × (m.routes ≡ offer ∷ []) × IsOffer offer)
