-- ===== src/Verifier/Sound.antt =====
-- components/index_server/src/verifier/simple_verifier.rs: the verifier does not panic and stays sound.
use offst.Prelude.{
  ℕ, ◌<◌, ◌≡◌, refl, Bool, true, false, List, [], ◌∷◌, Option, none, some, arith, inl, inr,
  Option-cases,
}
use offst.Prelude.Dict.{get}
use offst.Crypto.{Crypto, PublicKey, Uid, HashResult, RandValue}
use offst.Ratchet.{RatchetPool, update_pool, tick_pool, new_pool}
use offst.Ratchet.Pool.{update-IsPool, tick-IsPool}
use offst.Verifier.{
  HashClock, SimpleVerifier, verify, tick_verifier, verify_expansion_chain, first_recent,
  last_hashes, answer, tick_clock, get_expansion, new_verifier, new_clock,
}
use offst.Verifier.Expiry.{Ticks, tick-Ticks}
use offst.Verifier.Once.{Message, IsVerifier, verify_message}

-- The call does not panic, and leaves a sound verifier.
abbrev pub StaysSound : {A : Type 0} → Option (A × SimpleVerifier) → Type 0
StaysSound none = ⊥
StaysSound (some (a, v)) = IsVerifier v

recent_known :
    (hs : List HashResult) (c : HashClock) (h : HashResult)
    → first_recent hs c ≡ some h
    → (e : List HashResult) × (get h c.last_ticks_map ≡ some e)
unfolding first_recent
recent_known [] c h f = absurd (cc f)
recent_known (x ∷ hs) c h f = elim (Option-cases (get x c.last_ticks_map)) [
  | inl e ↦ recent_known hs c h (ground arith)
  | inr (y, e) ↦ (y, ground arith)
]

pool_ticks :
    (n : PublicKey) (s : Uid) (k : ℕ) (p : RatchetPool)
    → (update_pool n s k p).1.ratchet_ticks_to_live ≡ p.ratchet_ticks_to_live
unfolding update_pool
pool_ticks n s k p = ground arith

module _ (crypto : Crypto) where
  chain_known :
      (m : Message) (c : HashClock) (h : HashResult)
      → verify_expansion_chain crypto m.origin m.chain c ≡ some h
      → (e : List HashResult) × (get_expansion h c ≡ some e)
  unfolding verify_expansion_chain get_expansion
  chain_known m c h f = recent_known (last_hashes (m.origin ∷ []) m.chain) c h (ground arith)

  with_pool :
      (v : SimpleVerifier) (n : PublicKey) (s : Uid) (k : ℕ)
      → IsVerifier v
      → IsVerifier (record v { ratchet_pool = (update_pool n s k v.ratchet_pool).1 })
  with_pool v n s k sound = record {
    clock = sound.clock;
    pool = update-IsPool n s k v.ratchet_pool sound.pool;
    same = omega (arith, sound.same, pool_ticks n s k v.ratchet_pool);
  }

  answered :
      (h : HashResult) (v : SimpleVerifier) (x : Bool × RatchetPool) (e : List HashResult)
      → get_expansion h v.hash_clock ≡ some e
      → IsVerifier (record v { ratchet_pool = x.1 })
      → StaysSound (answer h v x)
  unfolding answer
  answered h v (false, pool) e g s = s
  answered h v (true, pool) e g s = rw (g, answer) s

  verify_stays :
      (m : Message) (v : SimpleVerifier) → IsVerifier v → StaysSound (verify_message crypto m v)
  unfolding verify
  verify_stays m v sound =
      elim (Option-cases (verify_expansion_chain crypto m.origin m.chain v.hash_clock)) [
        | inl e ↦ rw (e, verify) sound
        | inr (h, e) ↦
            let (x, g) = chain_known m v.hash_clock h e in
            rw (e, verify)
              (answered h v (update_pool m.node m.session m.counter v.ratchet_pool) x g
                (with_pool v m.node m.session m.counter sound))
      ]

  tick_ended :
      (rand : RandValue) (v : SimpleVerifier) (x : Option (HashResult × HashClock))
      → tick_clock crypto rand v.hash_clock ≡ x
      → Ticks [] v.hash_clock x
      → IsVerifier v
      → StaysSound (tick_verifier crypto rand v)
  unfolding tick_verifier tick_pool
  tick_ended rand v none e t sound = absurd t
  tick_ended rand v (some (h, c)) e t sound =
      rw (e, tick_verifier)
        (record {
          clock = t.0;
          pool = tick-IsPool v.ratchet_pool sound.pool;
          same = omega (arith, t.1, sound.same);
        })

  -- A verifier is sound if its clock lists at most the ticks that it keeps, and among them all those
  -- of its map, its pool lists no node twice and no ratchet with more ticks left than the pool gives,
  -- and both keep the same number of ticks. From a sound verifier, neither a verification, whatever
  -- the message, nor a tick panics, and each leaves a sound verifier.
  pub verifier-StaysSound :
      (m : Message) (rand : RandValue) (v : SimpleVerifier)
      → IsVerifier v
      → StaysSound (verify_message crypto m v) × StaysSound (tick_verifier crypto rand v)
  verifier-StaysSound m rand v sound = (
    verify_stays m v sound,
    tick_ended rand v (tick_clock crypto rand v.hash_clock) refl
        (tick-Ticks [] crypto rand v.hash_clock sound.clock) sound,
  )

-- A verifier that is made for one tick or more is sound.
pub new-IsVerifier :
    (n : ℕ) → 0 < n → (v : SimpleVerifier) × (new_verifier n ≡ some v) × IsVerifier v
unfolding new_verifier new_clock new_pool
new-IsVerifier n l = (
  record {
    hash_clock = record {
      neighbor_hashes = [];
      last_ticks_max_len = n;
      last_ticks = [];
      last_ticks_map = [];
    };
    ratchet_pool = new_pool n;
  },
  ground arith,
  record {
    clock = record { positive = l; bound = omega arith; known = λ h e g. absurd (ground arith) };
    pool = tt;
    same = refl;
  },
)
