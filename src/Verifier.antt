-- ===== src/Verifier.antt =====
-- components/index_server/src/verifier: hash_clock.rs, the local time as a list of recent hashes, and
-- simple_verifier.rs, which joins it with the ratchets. Neighbors are public keys. The order in
-- which a hash map lists its values is that of the association list.
pub mod Expiry
pub mod Once
pub mod Sound
pub mod Tests
use offst.Prelude.{
  ℕ, Bool, true, false, List, [], ◌∷◌, ◌++◌, Option, none, some, length, ltb, leb, if◌then◌else◌,
}
use offst.Prelude.Dict.{Dict, get, insert, remove}
use offst.Crypto.{Crypto, PublicKey, Uid, HashResult, RandValue, be_bytes, hash_len, rand_value_len}
use offst.Route.{contains}
use offst.Ratchet.{RatchetPool, update_pool, tick_pool, new_pool}

-- b"HASH_CLOCK"
abbrev hash_clock_prefix : List ℕ
hash_clock_prefix = b'H' ∷ b'A' ∷ b'S' ∷ b'H' ∷ b'_' ∷ b'C' ∷ b'L' ∷ b'O' ∷ b'C' ∷ b'K' ∷ []

pub record HashClock : Type 0 where
  pub neighbor_hashes : Dict HashResult
  pub last_ticks_max_len : ℕ
  pub last_ticks : List HashResult
  pub last_ticks_map : Dict (List HashResult)

values : Dict HashResult → List HashResult
values [] = []
values ((k, h) ∷ d) = h ∷ values d

hash_bytes : List HashResult → List ℕ
hash_bytes [] = []
hash_bytes (h ∷ hs) = be_bytes hash_len h ++ hash_bytes hs

-- `HashClock::new`; `none` is the panic of `assert!`, here and below.
unfoldable pub new_clock : ℕ → Option HashClock
new_clock last_ticks_max_len =
    if ltb 0 last_ticks_max_len
    then some (record {
      neighbor_hashes = [];
      last_ticks_max_len = last_ticks_max_len;
      last_ticks = [];
      last_ticks_map = [];
    })
    else none

-- `pop_front().unwrap()`, and the removal from the map.
unfoldable pub pop_tick :
    List HashResult → Dict (List HashResult) → Option (List HashResult × Dict (List HashResult))
pop_tick [] d = none
pop_tick (h ∷ hs) d = some (hs, remove h d)

-- The last two statements of `insert_tick_hash`.
unfoldable pub keep_tick :
    HashResult
    → List HashResult
    → HashClock
    → Option (List HashResult × Dict (List HashResult))
    → Option HashClock
keep_tick tick_hash expansion c none = none
keep_tick tick_hash expansion c (some (ticks, d)) =
    if leb (length ticks) c.last_ticks_max_len
    then some (record c { last_ticks = ticks; last_ticks_map = insert tick_hash expansion d })
    else none

unfoldable pub insert_tick_hash : HashResult → List HashResult → HashClock → Option HashClock
unfolding keep_tick pop_tick
insert_tick_hash tick_hash expansion c =
    let ticks = c.last_ticks ++ tick_hash ∷ [] in
    if ltb 0 c.last_ticks_max_len
    then keep_tick tick_hash expansion c (
        if ltb c.last_ticks_max_len (length ticks)
        then pop_tick ticks c.last_ticks_map
        else some (ticks, c.last_ticks_map))
    else none

unfoldable pub neighbor_tick : PublicKey → HashResult → HashClock → Option HashResult × HashClock
neighbor_tick neighbor tick_hash c = (
  get neighbor c.neighbor_hashes,
  record c { neighbor_hashes = insert neighbor tick_hash c.neighbor_hashes },
)

unfoldable pub remove_neighbor : PublicKey → HashClock → Option HashResult × HashClock
remove_neighbor neighbor c = (
  get neighbor c.neighbor_hashes,
  record c { neighbor_hashes = remove neighbor c.neighbor_hashes },
)

unfoldable pub get_expansion : HashResult → HashClock → Option (List HashResult)
get_expansion tick_hash c = get tick_hash c.last_ticks_map

-- The last list of hashes of the chain, which begins with the list `hashes`.
unfoldable pub last_hashes : List HashResult → List (List HashResult) → List HashResult
last_hashes hashes [] = hashes
last_hashes hashes (hs ∷ chain) = last_hashes hs chain

-- The first of the hashes that is a recent tick of this clock.
unfoldable pub first_recent : List HashResult → HashClock → Option HashResult
first_recent [] c = none
first_recent (h ∷ hs) c = elim (get h c.last_ticks_map) [
  | none ↦ first_recent hs c
  | some _ ↦ some h
]

module _ (crypto : Crypto) where
  open crypto use {sha_512_256}

  unfoldable pub hash_hashes : List HashResult → HashResult
  unfolding hash_bytes
  hash_hashes hashes =
      sha_512_256 (be_bytes hash_len (sha_512_256 hash_clock_prefix) ++ hash_bytes hashes)

  unfoldable pub expansion_of : RandValue → HashClock → List HashResult
  unfolding values
  expansion_of rand_value c =
      sha_512_256 (be_bytes rand_value_len rand_value) ∷ values c.neighbor_hashes

  unfoldable pub with_result : HashResult → Option HashClock → Option (HashResult × HashClock)
  with_result h none = none
  with_result h (some c) = some (h, c)

  -- `HashClock::tick`
  unfoldable pub tick_clock : RandValue → HashClock → Option (HashResult × HashClock)
  unfolding with_result
  tick_clock rand_value c =
      let expansion = expansion_of rand_value c in
      let tick_hash = hash_hashes expansion in
      with_result tick_hash (insert_tick_hash tick_hash expansion c)

  -- The loop of `verify_expansion_chain`: each list holds the hash of the next one.
  unfoldable pub is_chain : List HashResult → List (List HashResult) → Bool
  is_chain hashes [] = true
  is_chain hashes (hs ∷ chain) =
      let rest = is_chain hs chain in if contains (hash_hashes hs) hashes then rest else false

  unfoldable pub verify_expansion_chain :
      HashResult → List (List HashResult) → HashClock → Option HashResult
  unfolding is_chain
  verify_expansion_chain origin_tick_hash expansion_chain c =
      if is_chain (origin_tick_hash ∷ []) expansion_chain
      then first_recent (last_hashes (origin_tick_hash ∷ []) expansion_chain) c
      else none

pub record SimpleVerifier : Type 0 where
  pub hash_clock : HashClock
  pub ratchet_pool : RatchetPool

-- `SimpleVerifier::new`; the random generator is an argument of `tick_verifier`.
unfoldable pub new_verifier : ℕ → Option SimpleVerifier
new_verifier ticks_to_live = elim (new_clock ticks_to_live) [
  | none ↦ none
  | some c ↦ some (record { hash_clock = c; ratchet_pool = new_pool ticks_to_live })
]

-- What follows the update of the ratchets in `verify`; `none` is the panic of `unwrap`.
unfoldable pub answer :
    HashResult
    → SimpleVerifier
    → Bool × RatchetPool
    → Option (Option (List HashResult) × SimpleVerifier)
answer h v (false, pool) = some (none, record v { ratchet_pool = pool })
answer h v (true, pool) = elim (get_expansion h v.hash_clock) [
  | none ↦ none
  | some hashes ↦ some (some hashes, record v { ratchet_pool = pool })
]

module _ (crypto : Crypto) where
  -- `SimpleVerifier::verify`; a result `some (none, v)` is a refusal.
  unfoldable pub verify :
      HashResult
      → List (List HashResult)
      → PublicKey
      → Uid
      → ℕ
      → SimpleVerifier
      → Option (Option (List HashResult) × SimpleVerifier)
  unfolding answer
  verify origin chain node session counter v =
      elim (verify_expansion_chain crypto origin chain v.hash_clock) [
        | none ↦ some (none, v)
        | some h ↦ answer h v (update_pool node session counter v.ratchet_pool)
      ]

  -- `SimpleVerifier::tick`
  unfoldable pub tick_verifier :
      RandValue → SimpleVerifier → Option ((HashResult × List PublicKey) × SimpleVerifier)
  tick_verifier rand_value v = elim (tick_clock crypto rand_value v.hash_clock) [
    | none ↦ none
    | some (h, c) ↦
        let (removed, pool) = tick_pool v.ratchet_pool in
        some ((h, removed), record { hash_clock = c; ratchet_pool = pool })
  ]
