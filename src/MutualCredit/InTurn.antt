-- ===== src/MutualCredit/InTurn.antt =====
-- components/funder/src/mutual_credit/incoming.rs: the loop of `process_operations_list`.
use offst.Prelude.{ℕ, suc, ◌+◌, ◌≡◌, refl, List, [], ◌∷◌, ◌++◌, length, arith}
use offst.Prelude.Outcome.{Outcome, ok, err, panic}
use offst.Crypto.{Crypto}
use offst.Messages.{FriendTcOp}
use offst.MutualCredit.{MutualCredit}
use offst.MutualCredit.Monad.{bind_to, pure, ◌>>=◌}
use offst.MutualCredit.Incoming.{
  process_operation, process_operations_from, at_index, ProcessOperationError,
  ProcessOperationOutput, ProcessTransListError,
}
use offst.MutualCredit.Invariant.{IsValid, EndsValid, process_operation-IsValid}

module _ (crypto : Crypto) where
  -- The operations are accepted one after the other, each in the state that the one before it left.
  pub data Accepted
      : List FriendTcOp → MutualCredit → List ProcessOperationOutput → MutualCredit → Type 0 where
    no_more : {mc : MutualCredit} → Accepted [] mc [] mc
    one_more :
        {op : FriendTcOp} {ops : List FriendTcOp} {out : ProcessOperationOutput}
        {outs : List ProcessOperationOutput} {mc mid mc' : MutualCredit}
        → process_operation crypto op mc ≡ (ok out, mid)
        → Accepted ops mid outs mc'
        → Accepted (op ∷ ops) mc (out ∷ outs) mc'

  -- How the loop ends, from an index on: with all operations accepted, or at the first that is
  -- refused, with its index and its error, in the state that its refusal left.
  abbrev pub EndsInTurn :
      ℕ
      → List FriendTcOp
      → MutualCredit
      → Outcome ProcessTransListError (List ProcessOperationOutput) × MutualCredit
      → Type 0
  EndsInTurn i ops mc (ok outs, mc') = Accepted ops mc outs mc' × IsValid mc'
  EndsInTurn i ops mc (err e, mc') =
      (before : List FriendTcOp) × (op : FriendTcOp) × (after : List FriendTcOp) × (outs : List
        ProcessOperationOutput)
      × (mid : MutualCredit) × (ops ≡ before ++ op ∷ after)
      × Accepted before mc outs mid
      × (process_operation crypto op mid ≡ (err e.process_trans_error, mc'))
      × (e.index ≡ i + length before)
      × IsValid mc'
  EndsInTurn i ops mc (panic, mc') = ⊥

  after_first :
      (i : ℕ) (op : FriendTcOp) (ops : List FriendTcOp) (out : ProcessOperationOutput)
      (mc mid : MutualCredit)
      (y : Outcome ProcessTransListError (List ProcessOperationOutput) × MutualCredit)
      → process_operation crypto op mc ≡ (ok out, mid)
      → EndsInTurn (suc i) ops mid y
      → EndsInTurn i (op ∷ ops) mc (bind_to (λ outs. pure (out ∷ outs)) y)
  after_first i op ops out mc mid (ok outs, mc') e (a, v) = (one_more e a, v)
  after_first i op ops out mc mid (err f, mc') e
        (before, at, after, outs, m, split, a, refused, n, v) =
      (op ∷ before, at, after, out ∷ outs, m, cc split, one_more e a, refused, omega (arith, n), v)
  after_first i op ops out mc mid (panic, mc') e h = h

  then-EndsInTurn :
      (i : ℕ) (op : FriendTcOp) (ops : List FriendTcOp) (mc : MutualCredit)
      (x : Outcome ProcessOperationError ProcessOperationOutput × MutualCredit)
      → process_operation crypto op mc ≡ x
      → EndsValid x
      → ((mid : MutualCredit)
          → IsValid mid
          → EndsInTurn (suc i) ops mid (process_operations_from crypto (suc i) ops mid))
      → EndsInTurn i (op ∷ ops) mc (
          bind_to
            (λ out. process_operations_from crypto (suc i) ops >>= λ outs. pure (out ∷ outs))
            (at_index i x))
  then-EndsInTurn i op ops mc (ok out, mid) e v rest =
      after_first i op ops out mc mid (process_operations_from crypto (suc i) ops mid) e
        (rest mid v)
  then-EndsInTurn i op ops mc (err f, mid) e v rest =
      ([], op, ops, [], mc, refl, no_more, e, omega arith, v)
  then-EndsInTurn i op ops mc (panic, mid) e v rest = v

  -- Started in a valid state, a list of operations from the friend does not panic and leaves a valid
  -- state. Either all operations are accepted, each in the state that the one before it left, and
  -- their outputs are returned in order; or those before one are, and that one is refused in the
  -- state that they left: then its index, counted on from the first, and its error are returned, the
  -- state is the one that its refusal left, and the operations after it are not looked at.
  pub process_operations_from-EndsInTurn :
      (i : ℕ) (ops : List FriendTcOp) (mc : MutualCredit)
      → IsValid mc
      → EndsInTurn i ops mc (process_operations_from crypto i ops mc)
  unfolding process_operations_from
  process_operations_from-EndsInTurn i [] mc v = (no_more, v)
  process_operations_from-EndsInTurn i (op ∷ ops) mc v =
      then-EndsInTurn i op ops mc (process_operation crypto op mc) refl
        (process_operation-IsValid crypto op mc v) (process_operations_from-EndsInTurn (suc i) ops)
