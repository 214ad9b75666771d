-- ===== src/Ratchet/Replays.antt =====
-- components/index_server/src/verifier/ratchet.rs: a message that was accepted is not accepted again.
use offst.Prelude.{
  ℕ, suc, ◌≤◌, ◌<◌, ◌≡◌, ◌≢◌, refl, ◌∙◌, true, false, List, [], ◌∷◌, some, arith, inl, inr, ◌==◌,
  Option-cases, Bool-cases,
}
use offst.Prelude.Dict.{Dict, get, insert, get-insert}
use offst.Crypto.{PublicKey, Uid}
use offst.Ratchet.{
  Ratchet, RatchetPool, new_pool, new_ratchet, update_ratchet, tick_all, tick_pool, update_pool,
}
use offst.Ratchet.Pool.{
  get-tick_all, get-AllFrom, alive_stays, get-remove_all, update_known, update_new, update-IsPool,
  tick-IsPool, IsPool, ticked,
}

-- What the index server does with the pool.
pub data Event : Type 0 where
  message : PublicKey → Uid → ℕ → Event
  tick : Event

unfoldable pub after_event : Event → RatchetPool → RatchetPool
after_event (Event.message node session counter) p = (update_pool node session counter p).1
after_event Event.tick p = (tick_pool p).1

unfoldable pub after_events : List Event → RatchetPool → RatchetPool
after_events [] p = p
after_events (e ∷ es) p = after_events es (after_event e p)

-- The ratchet of the node is in this session, at this counter or later, with more than `k` ticks.
abbrev Holds : PublicKey → Uid → ℕ → ℕ → RatchetPool → Type 0
Holds node session counter k p =
    (r : Ratchet) × (get node p.ratchets ≡ some r)
    × (r.session_id ≡ session)
    × (counter ≤ r.counter)
    × (k < r.cur_ticks_to_live)

tick-Holds :
    (n : PublicKey) (s : Uid) (c k : ℕ) (p : RatchetPool)
    → IsPool p
    → Holds n s c (suc k) p
    → Holds n s c k (tick_pool p).1
unfolding tick_pool
tick-Holds n s c k p h (r, e, same, up, live) =
    let kept =
      get-remove_all n (tick_all p.ratchets).0 (tick_all p.ratchets).1
        (alive_stays p.ratchet_ticks_to_live n r p.ratchets h e (omega arith)) in
    let found : get n (tick_pool p).1.ratchets ≡ some (ticked r) =
      ground (arith, kept, get-tick_all n p.ratchets, e) in
    (ticked r, found, same, up, omega arith)

-- A message of the same session.
same_session :
    (s : Uid) (c k counter : ℕ) (r : Ratchet)
    → r.session_id ≡ s
    → c ≤ r.counter
    → k < r.cur_ticks_to_live
    → r.cur_ticks_to_live ≤ r.ticks_to_live
    → ((update_ratchet s counter r).1.session_id ≡ s)
      × (c ≤ (update_ratchet s counter r).1.counter)
      × (k < (update_ratchet s counter r).1.cur_ticks_to_live)
unfolding update_ratchet
same_session s c k counter r e up live low = ground arith

-- A message that is taken, of whatever session.
taken_session :
    (s : Uid) (c k : ℕ) (r : Ratchet)
    → (update_ratchet s c r).0 ≡ true
    → k < r.ticks_to_live
    → ((update_ratchet s c r).1.session_id ≡ s)
      × (c ≤ (update_ratchet s c r).1.counter)
      × (k < (update_ratchet s c r).1.cur_ticks_to_live)
unfolding update_ratchet
taken_session s c k r taken live = ground arith

get-insert_self : (n : PublicKey) (r : Ratchet) (d : Dict Ratchet) → get n (insert n r d) ≡ some r
get-insert_self n r d = ground (arith, get-insert n n r d)

-- A message of another node.
get-update_other :
    (n m : PublicKey) (session : Uid) (counter : ℕ) (p : RatchetPool)
    → m ≢ n
    → get n (update_pool m session counter p).1.ratchets ≡ get n p.ratchets
get-update_other n m session counter p other = elim (Option-cases (get m p.ratchets)) [
  | inl e ↦ rw (update_new m session counter p e) (
      ground
        (arith, get-insert m n (new_ratchet session counter p.ratchet_ticks_to_live) p.ratchets))
  | inr (r, e) ↦
      rw (update_known m session counter p r e)
        (ground (arith, get-insert m n (update_ratchet session counter r).1 p.ratchets))
]

update-Holds :
    (n : PublicKey) (s : Uid) (c k : ℕ) (m : PublicKey) (session : Uid) (counter : ℕ)
    (p : RatchetPool)
    → IsPool p
    → (m ≡ n → session ≡ s)
    → Holds n s c k p
    → Holds n s c k (update_pool m session counter p).1
update-Holds n s c k m session counter p h stays (r, e, same, up, live) =
    elim (Bool-cases (m == n)) [
      | inl self ↦
          let me : m ≡ n = ground arith in
          let here : session ≡ s = stays me in
          let (t, low) = get-AllFrom p.ratchet_ticks_to_live n r p.ratchets h e in
          let (x, y, z) = same_session s c k counter r same up live (omega (arith, t, low)) in
          rw (me, here, update_known n s counter p r e)
            (
              (update_ratchet s counter r).1,
              get-insert_self n (update_ratchet s counter r).1 p.ratchets,
              x,
              y,
              z,
            )
      | inr away ↦
          let other : m ≢ n = λ me. ground arith in
          (r, get-update_other n m session counter p other ∙ e, same, up, live)
    ]

-- A message that the ratchet takes.
accepted-Holds :
    (n : PublicKey) (s : Uid) (c k : ℕ) (p : RatchetPool)
    → IsPool p
    → k < p.ratchet_ticks_to_live
    → (update_pool n s c p).0 ≡ true
    → Holds n s c k (update_pool n s c p).1
unfolding new_ratchet
accepted-Holds n s c k p h l taken = elim (Option-cases (get n p.ratchets)) [
  | inl e ↦ rw (update_new n s c p e) (
    new_ratchet s c p.ratchet_ticks_to_live,
    get-insert_self n (new_ratchet s c p.ratchet_ticks_to_live) p.ratchets,
    refl,
    omega arith,
    l,
  )
  | inr (r, e) ↦
      let (t, low) = get-AllFrom p.ratchet_ticks_to_live n r p.ratchets h e in
      let (x, y, z) =
        taken_session s c k r (rw (update_known n s c p r e) at taken) (omega (arith, t)) in
      rw (update_known n s c p r e)
        ((update_ratchet s c r).1, get-insert_self n (update_ratchet s c r).1 p.ratchets, x, y, z)
]

refused :
    (n : PublicKey) (s : Uid) (c c' k : ℕ) (p : RatchetPool)
    → Holds n s c k p
    → c' ≤ c
    → (update_pool n s c' p).0 ≡ false
unfolding update_ratchet
refused n s c c' k p (r, e, same, up, live) l = rw (update_known n s c' p r e) (ground arith)

-- Every message of the node among the events is of this session.
abbrev pub OfSession : PublicKey → Uid → List Event → Type 0
OfSession n s [] = Unit {0}
OfSession n s (Event.message m session counter ∷ es) = (m ≡ n → session ≡ s) × OfSession n s es
OfSession n s (Event.tick ∷ es) = OfSession n s es

abbrev pub count_ticks : List Event → ℕ
count_ticks [] = 0
count_ticks (Event.message m session counter ∷ es) = count_ticks es
count_ticks (Event.tick ∷ es) = suc (count_ticks es)

after_events-Holds :
    (n : PublicKey) (s : Uid) (c : ℕ) (es : List Event) (p : RatchetPool)
    → IsPool p
    → OfSession n s es
    → Holds n s c (count_ticks es) p
    → Holds n s c 0 (after_events es p)
unfolding after_events after_event
after_events-Holds n s c [] p h o g = g
after_events-Holds n s c (Event.message m session counter ∷ es) p h o g =
    after_events-Holds n s c es (update_pool m session counter p).1
      (update-IsPool m session counter p h) o.1
      (update-Holds n s c (count_ticks es) m session counter p h o.0 g)
after_events-Holds n s c (Event.tick ∷ es) p h o g =
    after_events-Holds n s c es (tick_pool p).1 (tick-IsPool p h) o
      (tick-Holds n s c (count_ticks es) p h g)

-- In a pool in which no node is listed twice and no ratchet has more ticks left than the pool gives:
-- after a message was accepted, and then events in which the node sends in the same session only,
-- and fewer ticks pass than the pool gives, no message of this session with the same or a lesser
-- counter is accepted.
pub no_replay :
    (n : PublicKey) (s : Uid) (c c' : ℕ) (es : List Event) (p : RatchetPool)
    → IsPool p
    → (update_pool n s c p).0 ≡ true
    → OfSession n s es
    → count_ticks es < p.ratchet_ticks_to_live
    → c' ≤ c
    → (update_pool n s c' (after_events es (update_pool n s c p).1)).0 ≡ false
no_replay n s c c' es p h taken o few l =
    refused n s c c' 0 (after_events es (update_pool n s c p).1)
      (after_events-Holds n s c es (update_pool n s c p).1 (update-IsPool n s c p h) o
        (accepted-Holds n s c (count_ticks es) p h few taken))
      l

events_keep : (es : List Event) (p : RatchetPool) → IsPool p → IsPool (after_events es p)
unfolding after_events after_event
events_keep [] p h = h
events_keep (Event.message m session counter ∷ es) p h =
    events_keep es (update_pool m session counter p).1 (update-IsPool m session counter p h)
events_keep (Event.tick ∷ es) p h = events_keep es (tick_pool p).1 (tick-IsPool p h)

-- Whatever messages and ticks come to the empty pool, no node is listed twice, and every ratchet has
-- the pool's ticks to live, and no more of them left.
pub after_events-IsPool : (ticks : ℕ) (es : List Event) → IsPool (after_events es (new_pool ticks))
unfolding new_pool
after_events-IsPool ticks es = events_keep es (new_pool ticks) tt
