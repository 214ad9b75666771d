-- ===== src/Route.antt =====
-- components/proto/src/funder/messages.rs: `impl FriendsRoute`.
pub mod Valid
pub mod Pair
pub mod Tests
use offst.Prelude.{
  ℕ, suc, ◌+◌, ◌-◌, Bool, true, false, ◌||◌, List, [], ◌∷◌, Option, none, some, ltb, leb, ◌==◌,
  ◌&&◌, if◌then◌else◌, length, get_elem?, take,
}
use offst.Crypto.{PublicKey}
use offst.Messages.{FriendsRoute}

-- components/proto/src/consts.rs
abbrev pub max_route_len : ℕ
max_route_len = 32

-- `seen.contains(pk)`, of a set kept as a list.
unfoldable pub contains : PublicKey → List PublicKey → Bool
contains pk [] = false
contains pk (x ∷ xs) = if x == pk then true else contains pk xs

-- The loop that inserts every key into `seen`; `none` is the early return.
unfoldable pub insert_all : List PublicKey → List PublicKey → Option (List PublicKey)
insert_all seen [] = some seen
insert_all seen (pk ∷ pks) =
    let rest = insert_all (pk ∷ seen) pks in if contains pk seen then none else rest

-- What follows the loop, at the last key and the first.
unfoldable pub closes_or_new : Option (List PublicKey) → Option PublicKey → Option PublicKey → Bool
closes_or_new (some seen) (some last_pk) (some first_pk) =
    if last_pk == first_pk then true else if contains last_pk seen then false else true
closes_or_new _ _ _ = false

-- `FriendsRoute::is_valid`
unfoldable pub is_valid : FriendsRoute → Bool
unfolding closes_or_new insert_all
is_valid r =
    let n = length r.public_keys in
    if ltb n 2 || ltb max_route_len n
    then false
    else closes_or_new (insert_all [] (take (n - 1) r.public_keys))
        (get_elem? r.public_keys (n - 1)) (get_elem? r.public_keys 0)

-- The loop of `find_pk_pair`, from index `i` on.
find_pk_pair_from : PublicKey → PublicKey → ℕ → List PublicKey → Option ℕ
find_pk_pair_from pk1 pk2 i [] = none
find_pk_pair_from pk1 pk2 i (x ∷ []) = none
find_pk_pair_from pk1 pk2 i (x ∷ y ∷ r) =
    let rest = find_pk_pair_from pk1 pk2 (i + 1) (y ∷ r) in
    if pk1 == x && pk2 == y then some i else rest

unfoldable pub find_pk_pair : FriendsRoute → PublicKey → PublicKey → Option ℕ
unfolding find_pk_pair_from
find_pk_pair r pk1 pk2 = find_pk_pair_from pk1 pk2 0 r.public_keys

-- The loop of `iter().position(..)`.
position : PublicKey → ℕ → List PublicKey → Option ℕ
position pk i [] = none
position pk i (x ∷ xs) = if x == pk then some i else position pk (i + 1) xs

unfoldable pub pk_to_index : FriendsRoute → PublicKey → Option ℕ
unfolding position
pk_to_index r pk = position pk 0 r.public_keys

unfoldable pub index_to_pk : FriendsRoute → ℕ → Option PublicKey
index_to_pk r i = get_elem? r.public_keys i
