-- ===== src/Verifier/Once.antt =====
-- components/index_server/src/verifier/simple_verifier.rs: no message is accepted twice.
use offst.Prelude.{
  ℕ, suc, ◌+◌, ◌≤◌, ◌<◌, ◌≡◌, ◌⊎◌, refl, ap, true, false, List, [], ◌∷◌, Option, none, some, arith,
  inl, inr, ltb, Bool-cases,
}
use offst.Crypto.{Crypto, PublicKey, Uid, HashResult, RandValue}
use offst.Route.Valid.{Occurs}
use offst.Ratchet.{update_pool, tick_pool}
use offst.Ratchet.Pool.{IsPool}
use offst.Ratchet.Replays.{Event, after_event, after_events, OfSession, count_ticks, no_replay}
use offst.Verifier.{
  SimpleVerifier, verify, tick_verifier, verify_expansion_chain, last_hashes, first_recent, answer,
  tick_clock,
}
use offst.Verifier.Expiry.{IsClock, Recent, Recent-none, Ticks, tick-Ticks, forgets}

-- One message, with the proof that it is recent.
pub record Message : Type 0 where
  pub origin : HashResult
  pub chain : List (List HashResult)
  pub node : PublicKey
  pub session : Uid
  pub counter : ℕ

-- The hashes among which the message names a tick of this server.
abbrev pub named : Message → List HashResult
named m = last_hashes (m.origin ∷ []) m.chain

-- The clock and the pool are sound, and both forget after as many ticks.
pub record IsVerifier (v : SimpleVerifier) : Type 0 where
  pub clock : IsClock v.hash_clock
  pub pool : IsPool v.ratchet_pool
  pub same : v.hash_clock.last_ticks_max_len ≡ v.ratchet_pool.ratchet_ticks_to_live

add_zero : (j : ℕ) → 0 + j ≡ j
add_zero j = omega arith

zero_last : (k : ℕ) → k + 0 ≡ k
zero_last k = omega arith

lt_or_le : (k n : ℕ) → (k < n) ⊎ (n ≤ k)
lt_or_le k n = elim (Bool-cases (ltb k n)) [
  | inl e ↦ inl (ground arith)
  | inr e ↦ inr (ground arith)
]

module _ (crypto : Crypto) where
  abbrev pub verify_message :
      Message → SimpleVerifier → Option (Option (List HashResult) × SimpleVerifier)
  verify_message m v = verify crypto m.origin m.chain m.node m.session m.counter v

  -- What happens to the verifier after the message was accepted: other messages come in, accepted or
  -- not, and ticks pass. A message of the same node is of the same session, and no tick gives a hash
  -- that the message names.
  pub data Passes (m : Message) : ℕ → SimpleVerifier → SimpleVerifier → Type 0 where
    nothing : {v : SimpleVerifier} → Passes m 0 v v
    verifies :
        {k : ℕ} {v v1 v2 : SimpleVerifier} (other : Message) (r : Option (List HashResult))
        → (other.node ≡ m.node → other.session ≡ m.session)
        → verify_message other v ≡ some (r, v1)
        → Passes m k v1 v2
        → Passes m k v v2
    ticks :
        {k : ℕ} {v v1 v2 : SimpleVerifier} (rand : RandValue) (h : HashResult)
        (removed : List PublicKey)
        → ¬ Occurs h (named m)
        → tick_verifier crypto rand v ≡ some ((h, removed), v1)
        → Passes m k v1 v2
        → Passes m (suc k) v v2

  -- A verification leaves the clock, and does to the pool nothing or an update.
  abbrev VerifyEnds :
      Message → SimpleVerifier → Option (Option (List HashResult) × SimpleVerifier) → Type 0
  VerifyEnds m v none = Unit {0}
  VerifyEnds m v (some (none, v')) =
      (v'.hash_clock ≡ v.hash_clock)
      × ((v'.ratchet_pool ≡ v.ratchet_pool)
          ⊎ (v'.ratchet_pool ≡ (update_pool m.node m.session m.counter v.ratchet_pool).1))
  VerifyEnds m v (some (some hs, v')) =
      (v'.hash_clock ≡ v.hash_clock)
      × (v'.ratchet_pool ≡ (update_pool m.node m.session m.counter v.ratchet_pool).1)
      × ((update_pool m.node m.session m.counter v.ratchet_pool).0 ≡ true)

  verify_ends : (m : Message) (v : SimpleVerifier) → VerifyEnds m v (verify_message m v)
  unfolding verify answer
  verify_ends m v = ground arith

  -- What a verification that did not panic leaves.
  verified :
      (m : Message) (v v1 : SimpleVerifier) (r : Option (List HashResult))
      → verify_message m v ≡ some (r, v1)
      → (v1.hash_clock ≡ v.hash_clock)
        × ((v1.ratchet_pool ≡ v.ratchet_pool)
            ⊎ (v1.ratchet_pool ≡ (update_pool m.node m.session m.counter v.ratchet_pool).1))
  verified m v v1 none e = rw e at (verify_ends m v)
  verified m v v1 (some hs) e =
      let ends : VerifyEnds m v (some (some hs, v1)) = rw e at (verify_ends m v) in
      (ends.0, inr ends.1)

  -- A tick of the verifier ticks its clock and its pool.
  abbrev TickEnds :
      RandValue → SimpleVerifier → Option ((HashResult × List PublicKey) × SimpleVerifier) → Type 0
  TickEnds rand v none = Unit {0}
  TickEnds rand v (some ((h, removed), v1)) =
      (tick_clock crypto rand v.hash_clock ≡ some (h, v1.hash_clock))
      × (v1.ratchet_pool ≡ (tick_pool v.ratchet_pool).1)

  tick_ends :
      (rand : RandValue) (v : SimpleVerifier) → TickEnds rand v (tick_verifier crypto rand v)
  unfolding tick_verifier
  tick_ends rand v = ground arith

  -- What passed, seen by the pool and by the clock.
  record Passed (m : Message) (j k : ℕ) (v v2 : SimpleVerifier) : Type 0 where
    events : List Event
    pool : after_events events v.ratchet_pool ≡ v2.ratchet_pool
    session : OfSession m.node m.session events
    ticks_count : count_ticks events ≡ k
    clock : IsClock v2.hash_clock
    size : v2.hash_clock.last_ticks_max_len ≡ v.hash_clock.last_ticks_max_len
    recent : Recent (named m) (k + j) v2.hash_clock.last_ticks

  passed :
      (m : Message) (j : ℕ) {k : ℕ} {v v2 : SimpleVerifier}
      → IsClock v.hash_clock
      → Recent (named m) j v.hash_clock.last_ticks
      → Passes m k v v2
      → Passed m j k v v2
  unfolding after_events after_event
  passed m j {v = v} sound recent nothing = record {
    events = [];
    pool = refl;
    session = tt;
    ticks_count = refl;
    clock = sound;
    size = refl;
    recent = rw (add_zero j) recent;
  }
  passed m j {k = k} {v = v} sound recent (verifies {v1 = v1} other r stays e rest) =
      let (c, p) = verified other v v1 r e in
      let next = passed m j (rw c sound) (rw c recent) rest in
      elim p [
        | inl same ↦ record {
          events = next.events;
          pool = rw same at next.pool;
          session = next.session;
          ticks_count = next.ticks_count;
          clock = next.clock;
          size = rw c at next.size;
          recent = next.recent;
        }
        | inr updated ↦ record {
          events = Event.message other.node other.session other.counter ∷ next.events;
          pool = rw updated at next.pool;
          session = (stays, next.session);
          ticks_count = next.ticks_count;
          clock = next.clock;
          size = rw c at next.size;
          recent = next.recent;
        }
      ]
  passed m j {v = v} sound recent (ticks {k = k} {v1 = v1} rand h removed fresh e rest) =
      let ends : TickEnds rand v (some ((h, removed), v1)) = rw e at (tick_ends rand v) in
      let went : Ticks (named m) v.hash_clock (some (h, v1.hash_clock)) =
        rw (ends.0) at (tick-Ticks (named m) crypto rand v.hash_clock sound) in
      let next = passed m (suc j) went.0 (went.2 j fresh recent) rest in
      let more : k + suc j ≡ suc k + j = omega arith in
      record {
        events = Event.tick ∷ next.events;
        pool = rw (ends.1) at next.pool;
        session = next.session;
        ticks_count = omega (arith, next.ticks_count);
        clock = next.clock;
        size = omega (arith, next.size, went.1);
        recent = rw more at next.recent;
      }

  -- The message is refused, with no panic.
  abbrev pub Refuses : Option (Option (List HashResult) × SimpleVerifier) → Type 0
  Refuses none = ⊥
  Refuses (some (none, v)) = Unit {0}
  Refuses (some (some hs, v)) = ⊥

  refused_by_pool :
      (m : Message) (v : SimpleVerifier)
      → (update_pool m.node m.session m.counter v.ratchet_pool).0 ≡ false
      → Refuses (verify_message m v)
  unfolding verify answer
  refused_by_pool m v e = ground arith

  refused_by_clock :
      (m : Message) (v : SimpleVerifier)
      → first_recent (named m) v.hash_clock ≡ none
      → Refuses (verify_message m v)
  unfolding verify verify_expansion_chain
  refused_by_clock m v e = ground arith

  -- A sound verifier whose clock and pool keep the same number of ticks accepts a message. Then other
  -- messages come and ticks pass, in any number and order, where messages of the same node are of
  -- the same session and no tick gives a hash that the message names. After that, the same message
  -- is refused.
  pub accepted_once :
      (m : Message) (k : ℕ) (v v1 v2 : SimpleVerifier) (hs : List HashResult)
      → IsVerifier v
      → verify_message m v ≡ some (some hs, v1)
      → Passes m k v1 v2
      → Refuses (verify_message m v2)
  accepted_once m k v v1 v2 hs sound e passes =
      let ends : VerifyEnds m v (some (some hs, v1)) = rw e at (verify_ends m v) in
      let size : v1.hash_clock.last_ticks_max_len ≡ v.hash_clock.last_ticks_max_len =
        ap (λ c. c.last_ticks_max_len) (ends.0) in
      let p =
        passed m 0 (rw (ends.0) sound.clock) (Recent-none (named m) v1.hash_clock.last_ticks)
          passes in
      let pool : after_events p.events (update_pool m.node m.session m.counter v.ratchet_pool).1
          ≡ v2.ratchet_pool =
        rw (ends.1) at p.pool in
      elim (lt_or_le k v.hash_clock.last_ticks_max_len) [
        | inl soon ↦ refused_by_pool m v2 (
            rw pool at (
              no_replay m.node m.session m.counter m.counter p.events v.ratchet_pool sound.pool
                ends.2 p.session (omega (arith, p.ticks_count, sound.same, soon)) (omega arith)))
        | inr late ↦
            let recent : Recent (named m) k v2.hash_clock.last_ticks =
              rw (zero_last k) at p.recent in
            refused_by_clock m v2
              (forgets (named m) k v2.hash_clock p.clock (omega (arith, p.size, size, late)) recent)
      ]
