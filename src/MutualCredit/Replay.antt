-- ===== src/MutualCredit/Replay.antt =====
-- The mutations that an operation reports are the whole of what it did.
use offst.Prelude.{
  ℕ, suc, ◌≡◌, refl, ◌∙◌, Option, none, some, List, [], ◌∷◌, ◌++◌, arith, Option-cases, inl, inr,
}
use offst.Prelude.Outcome.{Outcome, ok, err, panic}
use offst.Crypto.{Crypto}
use offst.Messages.{FriendTcOp}
use offst.MutualCredit.{MutualCredit, McMutation, mutate, set_stage}
use offst.MutualCredit.Monad.{bind_to, pure, ◌>>=◌}
use offst.MutualCredit.Incoming.{
  process_operation, process_request_send_funds, process_response_send_funds,
  process_cancel_send_funds, process_collect_send_funds, process_enable_requests,
  process_disable_requests, process_set_remote_max_debt, ProcessOperationError,
  ProcessOperationOutput, ProcessTransListError, process_operations_from, process_operations_list,
  at_index,
}
use offst.MutualCredit.Outgoing.{
  queue_operation, queue_request_send_funds, queue_response_send_funds, queue_cancel_send_funds,
  queue_collect_send_funds, queue_enable_requests, queue_disable_requests,
  queue_set_remote_max_debt,
}

-- Mutations in order; `none` where one panics.
unfoldable pub replay : List McMutation → MutualCredit → Option MutualCredit
replay [] mc = some mc
replay (m ∷ ms) mc = elim (mutate m mc) [ none ↦ none | some mc' ↦ replay ms mc' ]

pub replay-append :
    (ms ns : List McMutation) (mc mc' : MutualCredit)
    → replay ms mc ≡ some mc'
    → replay (ms ++ ns) mc ≡ replay ns mc'
unfolding replay
replay-append [] ns mc mc' h = ground arith
replay-append (m ∷ ms) ns mc mc' h = elim (Option-cases (mutate m mc)) [
  | inl e ↦ cc
  | inr (mc'', e) ↦ rw (e, replay) (replay-append ms ns mc'' mc' (rw (e, replay) at h))
]

-- The mutations of the first output, then those of the others.
pub split_replay :
    (ms ns : List McMutation) (mc mc' : MutualCredit)
    → replay (ms ++ ns) mc ≡ some mc'
    → (mc1 : MutualCredit) × (replay ms mc ≡ some mc1) × (replay ns mc1 ≡ some mc')
unfolding replay
split_replay [] ns mc mc' h = (mc, refl, h)
split_replay (m ∷ ms) ns mc mc' h = elim (Option-cases (mutate m mc)) [
  | inl e ↦ absurd (cc (rw (e, replay) at h))
  | inr (mc1, e) ↦
      let (mc2, first, rest) = split_replay ms ns mc1 mc' (rw (e, replay) at h) in
      (mc2, rw (e, replay) first, rest)
]

-- On success the reported mutations lead from the old state to the new one; an error leaves the
-- state as it was.
abbrev pub Reports :
    {E A : Type 0} → (A → List McMutation) → MutualCredit → Outcome E A × MutualCredit → Type 0
Reports mutations mc (ok a, mc') = replay (mutations a) mc ≡ some mc'
Reports mutations mc (err e, mc') = mc' ≡ mc
Reports mutations mc (panic, mc') = Unit {0}

abbrev pub reported : ProcessOperationOutput → List McMutation
reported out = out.mc_mutations

abbrev pub queued_list : List McMutation → List McMutation
queued_list ms = ms

-- An operation from the friend that is accepted reports mutations whose replay from the old state
-- gives the new state; one that is refused leaves the state as it was. Nothing is said of a panic.
pub process_operation-Reports :
    (c : Crypto) (op : FriendTcOp) (mc : MutualCredit)
    → Reports reported mc (process_operation c op mc)
unfolding process_operation process_enable_requests process_disable_requests
    process_set_remote_max_debt process_request_send_funds process_response_send_funds
    process_cancel_send_funds process_collect_send_funds mutate set_stage replay
process_operation-Reports c FriendTcOp.enable_requests mc = ground arith
process_operation-Reports c FriendTcOp.disable_requests mc = ground arith
process_operation-Reports c (FriendTcOp.set_remote_max_debt n) mc = ground arith
process_operation-Reports c (FriendTcOp.request_send_funds r) mc = ground arith
process_operation-Reports c (FriendTcOp.response_send_funds r) mc = ground arith
process_operation-Reports c (FriendTcOp.cancel_send_funds r) mc = ground arith
process_operation-Reports c (FriendTcOp.collect_send_funds r) mc = ground arith

-- An operation that is queued hands back mutations whose replay from the old state gives the new
-- state; one that is refused leaves the state as it was. Nothing is said of a panic.
pub queue_operation-Reports :
    (c : Crypto) (op : FriendTcOp) (mc : MutualCredit)
    → Reports queued_list mc (queue_operation c op mc)
unfolding queue_operation queue_enable_requests queue_disable_requests queue_set_remote_max_debt
    queue_request_send_funds queue_response_send_funds queue_cancel_send_funds
    queue_collect_send_funds mutate set_stage replay
queue_operation-Reports c FriendTcOp.enable_requests mc = ground arith
queue_operation-Reports c FriendTcOp.disable_requests mc = ground arith
queue_operation-Reports c (FriendTcOp.set_remote_max_debt n) mc = ground arith
queue_operation-Reports c (FriendTcOp.request_send_funds r) mc = ground arith
queue_operation-Reports c (FriendTcOp.response_send_funds r) mc = ground arith
queue_operation-Reports c (FriendTcOp.cancel_send_funds r) mc = ground arith
queue_operation-Reports c (FriendTcOp.collect_send_funds r) mc = ground arith

-- The mutations of several outputs, in order.
abbrev pub all_reported : List ProcessOperationOutput → List McMutation
all_reported [] = []
all_reported (out ∷ outs) = out.mc_mutations ++ all_reported outs

-- What a list of operations did is what its outputs report. An error says nothing of the state:
-- the operations before it have changed it.
abbrev pub ListReports :
    {E : Type 0} → MutualCredit → Outcome E (List ProcessOperationOutput) × MutualCredit → Type 0
ListReports mc (ok outs, mc') = replay (all_reported outs) mc ≡ some mc'
ListReports mc (err e, mc') = Unit {0}
ListReports mc (panic, mc') = Unit {0}

-- After one operation and then the rest.
then-ListReports :
    (c : Crypto) (i : ℕ) (ops : List FriendTcOp) (mc : MutualCredit)
    (x : Outcome ProcessOperationError ProcessOperationOutput × MutualCredit)
    → Reports reported mc x
    → ((mc' : MutualCredit) → ListReports mc' (process_operations_from c (suc i) ops mc'))
    → ListReports mc (
        bind_to
          (λ out. process_operations_from c (suc i) ops >>= λ outs. pure (out ∷ outs))
          (at_index i x))
then-ListReports c i ops mc (ok out, mc') h rest =
    go (process_operations_from c (suc i) ops mc') (rest mc')
  where
    go :
        (y : Outcome ProcessTransListError (List ProcessOperationOutput) × MutualCredit)
        → ListReports mc' y
        → ListReports mc (bind_to (λ outs. pure (out ∷ outs)) y)
    go (ok outs, mc'') k = replay-append out.mc_mutations (all_reported outs) mc mc' h ∙ k
    go (err e, mc'') k = tt
    go (panic, mc'') k = tt
then-ListReports c i ops mc (err e, mc') h rest = tt
then-ListReports c i ops mc (panic, mc') h rest = tt

-- A list of operations that is accepted: replaying all reported mutations from the old state gives
-- the new state.
pub process_operations_from-ListReports :
    (c : Crypto) (i : ℕ) (ops : List FriendTcOp) (mc : MutualCredit)
    → ListReports mc (process_operations_from c i ops mc)
unfolding process_operations_from replay
process_operations_from-ListReports c i [] mc = refl
process_operations_from-ListReports c i (op ∷ ops) mc =
    then-ListReports c i ops mc (process_operation c op mc) (process_operation-Reports c op mc)
      (λ mc'. process_operations_from-ListReports c (suc i) ops mc')

pub process_operations_list-ListReports :
    (c : Crypto) (ops : List FriendTcOp) (mc : MutualCredit)
    → ListReports mc (process_operations_list c ops mc)
unfolding process_operations_list
process_operations_list-ListReports c ops mc = process_operations_from-ListReports c 0 ops mc
