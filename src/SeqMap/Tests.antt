-- ===== src/SeqMap/Tests.antt =====
-- Tests of the visits in turn.
use offst.Prelude.{ℕ, ◌≡◌, refl, List, [], ◌∷◌, some, arith, inl, inr}
use offst.Prelude.Dict.{insert}
use offst.Crypto.{PublicKey}
use offst.Route.Valid.{Occurs}
use offst.SeqMap.{SeqMap, update_key, next_pair, retain_other}
use offst.SeqMap.Cover.{Call, AllIn, LeavesKey, run_calls, cycle_covers}

abbrev three : SeqMap ℕ
three = record {
  map = (1, 10) ∷ (2, 20) ∷ (3, 30) ∷ [];
  queue = 1 ∷ 2 ∷ 3 ∷ [];
  cycle_countdown = 3;
}

-- The first key is updated and the last one goes.
abbrev calls : List (Call ℕ)
calls =
    Call.calls_next
    ∷ Call.calls_update 1 11
    ∷ Call.calls_remove 3
    ∷ Call.calls_next
    ∷ Call.calls_next
    ∷ []

leaves_second : LeavesKey 2 calls
leaves_second = ground arith

three-AllIn : AllIn three.queue three.map
three-AllIn = ((10, refl), ((20, refl), ((30, refl), tt)))

cycle_covers_example :
    (ks : List PublicKey) × (s' : SeqMap ℕ) × (run_calls calls three ≡ some (ks, s')) × Occurs 2 ks
cycle_covers_example =
    cycle_covers 2 calls three three-AllIn (inr (inl refl)) leaves_second (omega arith)

-- A key that is updated in the cycle can be missed by it: the three calls of `next` return the
-- first key, the third and the first again.
updated_is_missed :
    run_calls
      (Call.calls_next ∷ Call.calls_update 2 21 ∷ Call.calls_next ∷ Call.calls_next ∷ [])
      three
    ≡ some (
      1 ∷ 3 ∷ 1 ∷ [],
      record {
        map = (1, 10) ∷ (2, 21) ∷ (3, 30) ∷ [];
        queue = 2 ∷ 3 ∷ 1 ∷ [];
        cycle_countdown = 0;
      },
    )
unfolding run_calls next_pair update_key retain_other insert
updated_is_missed = refl
