-- ===== src/Ratchet/Tests.antt =====
-- Tests of the ratchets.
use offst.Prelude.{◌<◌, ◌≡◌, refl, true, false, List, [], ◌∷◌, arith}
use offst.Prelude.Dict.{insert, remove}
use offst.Ratchet.{
  new_pool, update_pool, new_ratchet, tick_pool, tick_all, tick_ratchet, remove_all,
}
use offst.Ratchet.Pool.{IsPool}
use offst.Ratchet.Replays.{
  Event, after_event, after_events, OfSession, count_ticks, no_replay, after_events-IsPool,
}

-- Ratchets live for three ticks.
abbrev traffic : List Event
traffic = Event.tick ∷ Event.message 1 7 5 ∷ Event.message 2 9 0 ∷ Event.tick ∷ []

after_events-IsPool_example : IsPool (after_events traffic (new_pool 3))
after_events-IsPool_example = after_events-IsPool 3 traffic

empty-IsPool : IsPool (new_pool 3)
unfolding new_pool
empty-IsPool = tt

first_taken : (update_pool 1 7 4 (new_pool 3)).0 ≡ true
unfolding update_pool new_pool
first_taken = refl

one_session : OfSession 1 7 traffic
one_session = ground arith

few_ticks : count_ticks traffic < (new_pool 3).ratchet_ticks_to_live
unfolding new_pool
few_ticks = omega arith

no_replay_example :
    (update_pool 1 7 4 (after_events traffic (update_pool 1 7 4 (new_pool 3)).1)).0 ≡ false
no_replay_example =
    no_replay 1 7 4 4 traffic (new_pool 3) empty-IsPool first_taken one_session few_ticks
      (omega arith)

-- A node that is silent for three ticks is forgotten, and its last message is taken once more.
forgotten :
    (update_pool 1 7 4 (
      after_events
        (Event.tick ∷ Event.tick ∷ Event.tick ∷ [])
        (update_pool 1 7 4 (new_pool 3)).1)).0
    ≡ true
unfolding update_pool after_events after_event tick_pool tick_all tick_ratchet remove_all remove
    insert new_pool new_ratchet
forgotten = refl
