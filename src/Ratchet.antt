-- ===== src/Ratchet.antt =====
-- components/index_server/src/verifier/ratchet.rs: which messages of a node are newer than those seen.
-- Nodes are public keys and sessions are `Uid`s, as the index server instantiates them.
pub mod Pool
pub mod Replays
pub mod Tests
use offst.Prelude.{
  ℕ, ◌-◌, Bool, true, false, List, [], ◌∷◌, Option, none, some, ltb, ◌==◌, if◌then◌else◌,
}
use offst.Prelude.Dict.{Dict, get, insert, remove}
use offst.Crypto.{PublicKey, Uid}

pub record Ratchet : Type 0 where
  pub session_id : Uid
  pub counter : ℕ
  pub ticks_to_live : ℕ
  pub cur_ticks_to_live : ℕ

unfoldable pub new_ratchet : Uid → ℕ → ℕ → Ratchet
new_ratchet session_id counter ticks_to_live = record {
  session_id = session_id;
  counter = counter;
  ticks_to_live = ticks_to_live;
  cur_ticks_to_live = ticks_to_live;
}

unfoldable pub inner_update : Uid → ℕ → Ratchet → Bool × Ratchet
inner_update session_id counter r =
    if r.session_id == session_id
    then if ltb r.counter counter then (true, record r { counter = counter }) else (false, r)
    else (true, record r { session_id = session_id; counter = counter })

restart : Bool × Ratchet → Bool × Ratchet
restart (false, r) = (false, r)
restart (true, r) = (true, record r { cur_ticks_to_live = r.ticks_to_live })

-- `Ratchet::update`
unfoldable pub update_ratchet : Uid → ℕ → Ratchet → Bool × Ratchet
unfolding restart inner_update
update_ratchet session_id counter r = restart (inner_update session_id counter r)

-- `Ratchet::tick`; the first component is the result.
unfoldable pub tick_ratchet : Ratchet → ℕ × Ratchet
tick_ratchet r = (r.cur_ticks_to_live - 1, record r { cur_ticks_to_live = r.cur_ticks_to_live - 1 })

pub record RatchetPool : Type 0 where
  pub ratchets : Dict Ratchet
  pub ratchet_ticks_to_live : ℕ

unfoldable pub new_pool : ℕ → RatchetPool
new_pool ticks = record { ratchets = []; ratchet_ticks_to_live = ticks }

-- The first loop of `RatchetPool::tick`: the nodes to remove, and the ratchets after the tick.
unfoldable pub tick_all : Dict Ratchet → List PublicKey × Dict Ratchet
unfolding tick_ratchet
tick_all [] = ([], [])
tick_all ((node, r) ∷ d) =
    let (t, r') = tick_ratchet r in
    let (removed, d') = tick_all d in
    if t == 0 then (node ∷ removed, (node, r') ∷ d') else (removed, (node, r') ∷ d')

-- The second loop.
unfoldable pub remove_all : List PublicKey → Dict Ratchet → Dict Ratchet
remove_all [] d = d
remove_all (node ∷ nodes) d = remove_all nodes (remove node d)

unfoldable pub tick_pool : RatchetPool → List PublicKey × RatchetPool
tick_pool p =
    let (removed, d) = tick_all p.ratchets in
    (removed, record p { ratchets = remove_all removed d })

put_back : PublicKey → RatchetPool → Bool × Ratchet → Bool × RatchetPool
put_back node p (b, r) = (b, record p { ratchets = insert node r p.ratchets })

-- `RatchetPool::update`
unfoldable pub update_pool : PublicKey → Uid → ℕ → RatchetPool → Bool × RatchetPool
unfolding put_back update_ratchet
update_pool node session_id counter p = elim (get node p.ratchets) [
  | none ↦ (
    true,
    record p {
      ratchets = insert node (new_ratchet session_id counter p.ratchet_ticks_to_live) p.ratchets;
    },
  )
  | some r ↦ put_back node p (update_ratchet session_id counter r)
]
