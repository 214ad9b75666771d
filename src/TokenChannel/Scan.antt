-- ===== src/TokenChannel/Scan.antt =====
-- The loop over the outputs replays the reported mutations on the mutual credit that is checked, and
-- hands on those mutations. Applied to the channel, they do the same.
use mathlib.Core.List.{map, map-append, append_assoc, append-nil}
use offst.Prelude.{
  ◌≡◌, refl, sym, ◌∙◌, List, [], ◌∷◌, ◌++◌, Option, none, some, arith, Option-cases, inl, inr,
}
use offst.Messages.{is_open}
use offst.MutualCredit.{MutualCredit, McMutation, mutate, set_stage}
use offst.MutualCredit.Incoming.{ProcessOperationOutput}
use offst.MutualCredit.Replay.{replay, split_replay, all_reported}
use offst.TokenChannel.{
  TokenChannel, TcDirection, TcOutgoing, TcMutation, SetDirection, mutate_channel, MoveTokenHashed,
}
use offst.TokenChannel.Receive.{
  Scan, scan_mutations, scan_outputs, remote_requests_after, push_message,
}

-- The flag follows the requests status of the friend.
mutate_remote :
    (m : McMutation) (mc mc' : MutualCredit)
    → mutate m mc ≡ some mc'
    → remote_requests_after m (is_open mc.requests_status.remote)
      ≡ is_open mc'.requests_status.remote
unfolding mutate set_stage
mutate_remote (McMutation.set_local_requests_status s) mc mc' h = ground arith
mutate_remote _ mc mc' h = ground arith

module _ {B : Type 0} where
  -- The scan after mutations that lead to `mc`.
  abbrev pub Scanned : List McMutation → MutualCredit → Scan B → Scan B → Type 0
  Scanned ms mc s s' =
      (s'.check_mutual_credit ≡ mc)
      × (s'.mutations ≡ s.mutations ++ map TcMutation.mc_mutation ms)
      × (s'.final_remote_requests ≡ is_open mc.requests_status.remote)

  scan_mutations_lem :
      (ms : List McMutation) (s : Scan B) (mc : MutualCredit)
      → replay ms s.check_mutual_credit ≡ some mc
      → s.final_remote_requests ≡ is_open s.check_mutual_credit.requests_status.remote
      → (s' : Scan B) × (scan_mutations ms s ≡ some s') × Scanned ms mc s s'
  unfolding scan_mutations replay
  scan_mutations_lem [] s mc h f =
      (s, refl, (ground arith, sym (append-nil s.mutations), ground arith))
  scan_mutations_lem (m ∷ ms) s mc h f = elim (Option-cases (mutate m s.check_mutual_credit)) [
    | inl e ↦ absurd (cc (rw (e, replay) at h))
    | inr (mc', e) ↦
        let next : Scan B = record s {
          mutations = s.mutations ++ TcMutation.mc_mutation m ∷ [];
          check_mutual_credit = mc';
          final_remote_requests = remote_requests_after m s.final_remote_requests;
        } in
        let (s', done, (c, l, r)) =
          scan_mutations_lem ms next mc (rw (e, replay) at h)
            (rw f (mutate_remote m s.check_mutual_credit mc' e)) in
        (
          s',
          rw (e, scan_mutations) done,
          (
            c,
            l
                ∙ append_assoc s.mutations (TcMutation.mc_mutation m ∷ [])
                    (map TcMutation.mc_mutation ms),
            r,
          ),
        )
  ]

  pub scan_outputs_lem :
      (outs : List ProcessOperationOutput) (s : Scan B) (mc : MutualCredit)
      → replay (all_reported outs) s.check_mutual_credit ≡ some mc
      → s.final_remote_requests ≡ is_open s.check_mutual_credit.requests_status.remote
      → (s' : Scan B) × (scan_outputs outs s ≡ some s') × Scanned (all_reported outs) mc s s'
  unfolding scan_outputs replay
  scan_outputs_lem [] s mc h f =
      (s, refl, (ground arith, sym (append-nil s.mutations), ground arith))
  scan_outputs_lem (out ∷ outs) s mc h f =
      let (mc1, first, rest) =
        split_replay out.mc_mutations (all_reported outs) s.check_mutual_credit mc h in
      let with_message : Scan B = record s {
        incoming_messages = push_message s.incoming_messages out.incoming_message;
      } in
      let (s1, done1, (c1, l1, r1)) =
        scan_mutations_lem out.mc_mutations with_message mc1 first f in
      let (s2, done2, (c2, l2, r2)) = scan_outputs_lem outs s1 mc (rw c1 rest) (rw (r1, c1) refl) in
      (s2, rw (done1, scan_outputs) done2, (c2, simp (l2, l1, append_assoc, map-append) refl, r2))

  -- The mutations of a channel in order; `none` where one panics.
  unfoldable pub apply_channel : List (TcMutation B) → TokenChannel B → Option (TokenChannel B)
  apply_channel [] tc = some tc
  apply_channel (m ∷ ms) tc = elim (mutate_channel m tc) [
    | none ↦ none
    | some tc' ↦ apply_channel ms tc'
  ]

  -- On an outgoing channel the mutations of a received token turn the direction.
  pub apply_channel_turns :
      (ms : List McMutation) (t : TcOutgoing B) (h : MoveTokenHashed) (mc : MutualCredit)
      → replay ms t.mutual_credit ≡ some mc
      → apply_channel
          (map TcMutation.mc_mutation ms ++ TcMutation.set_direction (SetDirection.incoming h) ∷ [])
          (record { direction = TcDirection.outgoing t })
        ≡ some (record {
          direction = TcDirection.incoming (record { mutual_credit = mc; move_token_in = h });
        })
  unfolding apply_channel mutate_channel replay
  apply_channel_turns [] t h mc e = ground arith
  apply_channel_turns (m ∷ ms) t h mc e = elim (Option-cases (mutate m t.mutual_credit)) [
    | inl f ↦ absurd (cc (rw (f, replay) at e))
    | inr (mc1, f) ↦
        rw (f, apply_channel, mutate_channel)
          (apply_channel_turns ms (record t { mutual_credit = mc1 }) h mc (rw (f, replay) at e))
  ]
