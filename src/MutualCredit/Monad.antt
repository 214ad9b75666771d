-- ===== src/MutualCredit/Monad.antt =====
-- The calls of `mutual_credit` as actions on the state. An error leaves what was written so far in
-- the state, so that a failed call changes nothing is to be proved. A panic ends the call.
use offst.Prelude.{Bool, true, false, Option, none, some}
use offst.Prelude.Outcome.{Outcome, ok, err, panic}
use offst.MutualCredit.{MutualCredit, McMutation, mutate}

abbrev pub Action : Type 0 → Type 0 → Type 0
Action E A = MutualCredit → Outcome E A × MutualCredit

module _ {E : Type 0} where
  abbrev pub pure : {A : Type 0} → A → Action E A
  pure a mc = (ok a, mc)

  abbrev pub get_state : Action E MutualCredit
  get_state mc = (ok mc, mc)

  -- `return Err(e)` unless the test holds.
  abbrev pub ensure : Bool → E → Action E (Unit {0})
  ensure true e mc = (ok tt, mc)
  ensure false e mc = (err e, mc)

  -- `.ok_or(e)?`
  abbrev pub ok_or : {A : Type 0} → Option A → E → Action E A
  ok_or none e mc = (err e, mc)
  ok_or (some a) e mc = (ok a, mc)

  -- `.unwrap()`
  abbrev pub unwrap : {A : Type 0} → Option A → Action E A
  unwrap none mc = (panic, mc)
  unwrap (some a) mc = (ok a, mc)

  -- What a mutation that does not panic leaves.
  abbrev pub store : MutualCredit → Option MutualCredit → Outcome E (Unit {0}) × MutualCredit
  store mc none = (panic, mc)
  store mc (some mc') = (ok tt, mc')

  abbrev pub apply : McMutation → Action E (Unit {0})
  apply m mc = store mc (mutate m mc)

  infixl 5 ◌>>=◌ ◌>>◌
  abbrev pub bind_to :
      {A B : Type 0} → (A → Action E B) → Outcome E A × MutualCredit → Outcome E B × MutualCredit
  bind_to f (ok a, mc) = f a mc
  bind_to f (err e, mc) = (err e, mc)
  bind_to f (panic, mc) = (panic, mc)

  abbrev pub ◌>>=◌ : {A B : Type 0} → Action E A → (A → Action E B) → Action E B
  ◌>>=◌ m f mc = bind_to f (m mc)

  abbrev pub ◌>>◌ : {A B : Type 0} → Action E A → Action E B → Action E B
  m >> k = m >>= λ _. k
