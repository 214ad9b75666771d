-- ===== src/Route/Tests.antt =====
-- Tests of the routes.
use offst.Prelude.{◌≡◌, ◌↔◌, refl, true, false, [], ◌∷◌}
use offst.Messages.{FriendsRoute}
use offst.Route.{is_valid, find_pk_pair, insert_all, closes_or_new, contains}
use offst.Route.Valid.{IsRoute, is_valid-IsRoute}
use offst.Route.Pair.{PairAnswer, find_pk_pair-PairAnswer}
use offst.Samples.{route}

-- A cycle through three nodes.
abbrev cycle : FriendsRoute
cycle = record { public_keys = 1 ∷ 2 ∷ 3 ∷ 1 ∷ [] }

-- A route that comes back before its end.
abbrev knot : FriendsRoute
knot = record { public_keys = 1 ∷ 2 ∷ 3 ∷ 2 ∷ [] }

cycle_valid : is_valid cycle ≡ true
unfolding is_valid insert_all closes_or_new contains
cycle_valid = refl

knot_refused : is_valid knot ≡ false
unfolding is_valid insert_all closes_or_new contains
knot_refused = refl

is_valid-IsRoute_example : (is_valid cycle ≡ true) ↔ IsRoute cycle
is_valid-IsRoute_example = is_valid-IsRoute cycle

find_pk_pair-PairAnswer_example : PairAnswer 2 3 route.public_keys (find_pk_pair route 2 3)
find_pk_pair-PairAnswer_example = find_pk_pair-PairAnswer route 2 3
