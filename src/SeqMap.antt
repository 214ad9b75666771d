-- ===== src/SeqMap.antt =====
-- components/index_client/src/seq_map.rs: a map whose pairs are visited in turn. The keys are public
-- keys, as in components/index_client/src/seq_friends.rs.
pub mod Cover
pub mod Tests
use offst.Prelude.{
  ℕ, suc, ◌+◌, ◌-◌, List, [], ◌∷◌, ◌++◌, Option, none, some, length, ◌==◌, if◌then◌else◌,
}
use offst.Prelude.Dict.{Dict, get, insert, remove}
use offst.Crypto.{PublicKey}

pub record SeqMap (V : Type 0) : Type 0 where
  pub map : Dict V
  pub queue : List PublicKey
  pub cycle_countdown : ℕ

-- `queue.retain(|cur_key| cur_key != key)`
unfoldable pub retain_other : PublicKey → List PublicKey → List PublicKey
retain_other key [] = []
retain_other key (x ∷ xs) = if x == key then retain_other key xs else x ∷ retain_other key xs

module _ {V : Type 0} where
  keys : Dict V → List PublicKey
  keys [] = []
  keys ((k, v) ∷ d) = k ∷ keys d

  unfoldable pub new_seq_map : Dict V → SeqMap V
  unfolding keys
  new_seq_map map = record { map = map; queue = keys map; cycle_countdown = length (keys map) }

  unfoldable pub update_key : PublicKey → V → SeqMap V → Option V × SeqMap V
  update_key key value s = (
    get key s.map,
    record s { map = insert key value s.map; queue = retain_other key s.queue ++ key ∷ [] },
  )

  unfoldable pub remove_key : PublicKey → SeqMap V → Option V × SeqMap V
  remove_key key s =
      (get key s.map, record s { map = remove key s.map; queue = retain_other key s.queue })

  unfoldable pub reset_countdown : SeqMap V → SeqMap V
  reset_countdown s = record s { cycle_countdown = length s.queue }

  visit :
      SeqMap V
      → PublicKey
      → List PublicKey
      → Option V
      → Option (Option (ℕ × PublicKey × V) × SeqMap V)
  visit s key rest none = none
  visit s key rest (some value) = some (
    some (s.cycle_countdown - 1, key, value),
    record s { queue = rest ++ key ∷ []; cycle_countdown = s.cycle_countdown - 1 },
  )

  next_of : SeqMap V → List PublicKey → Option (Option (ℕ × PublicKey × V) × SeqMap V)
  next_of s [] = some (none, s)
  next_of s (key ∷ rest) = visit s key rest (get key s.map)

  -- `SeqMap::next`; `none` is the panic of `get(&key).unwrap()`.
  unfoldable pub next_pair : SeqMap V → Option (Option (ℕ × PublicKey × V) × SeqMap V)
  unfolding next_of visit
  next_pair s = next_of s s.queue
