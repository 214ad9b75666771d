-- ===== src/SeqMap/Cover.antt =====
-- components/index_client/src/seq_map.rs: which keys a cycle visits.
use offst.Prelude.{
  ℕ, zero, suc, ◌-◌, ◌≤◌, ◌<◌, ◌≡◌, ◌≢◌, ◌⊎◌, refl, List, [], ◌∷◌, ◌++◌, Option, none, some, length,
  arith, inl, inr, Option-cases,
}
use offst.Prelude.Dict.{Dict, get, insert, remove, get-insert, get-remove}
use offst.Crypto.{PublicKey}
use offst.Route.Valid.{Occurs}
use offst.SeqMap.{SeqMap, retain_other, update_key, remove_key, next_pair}

-- What a client may call during a cycle.
pub data Call (V : Type 0) : Type 0 where
  calls_update : PublicKey → V → Call V
  calls_remove : PublicKey → Call V
  calls_next : Call V

-- The key is among the first `p + 1` of the queue.
abbrev pub Within : PublicKey → List PublicKey → ℕ → Type 0
Within k [] p = ⊥
Within k (x ∷ xs) zero = x ≡ k
Within k (x ∷ xs) (suc p) = (x ≡ k) ⊎ Within k xs p

-- Every queued key is in the map.
abbrev pub AllIn : {V : Type 0} → List PublicKey → Dict V → Type 0
AllIn [] d = Unit {0}
AllIn {V} (x ∷ xs) d = ((v : V) × (get x d ≡ some v)) × AllIn xs d

Within-more : (k : PublicKey) (xs : List PublicKey) (p : ℕ) → Within k xs p → Within k xs (suc p)
Within-more k [] p h = absurd h
Within-more k (x ∷ xs) zero h = inl h
Within-more k (x ∷ xs) (suc p) (inl e) = inl e
Within-more k (x ∷ xs) (suc p) (inr h) = inr (Within-more k xs p h)

Within-append :
    (k : PublicKey) (xs ys : List PublicKey) (p : ℕ) → Within k xs p → Within k (xs ++ ys) p
Within-append k [] ys p h = absurd h
Within-append k (x ∷ xs) ys zero h = h
Within-append k (x ∷ xs) ys (suc p) (inl e) = inl e
Within-append k (x ∷ xs) ys (suc p) (inr h) = inr (Within-append k xs ys p h)

retain-Within :
    (k j : PublicKey) (xs : List PublicKey) (p : ℕ)
    → j ≢ k
    → Within k xs p
    → Within k (retain_other j xs) p
unfolding retain_other
retain-Within k j [] p n h = absurd h
retain-Within k j (x ∷ xs) zero n h = ground arith
retain-Within k j (x ∷ xs) (suc p) n (inl e) = ground arith
retain-Within k j (x ∷ xs) (suc p) n (inr h) =
    ground (arith, retain-Within k j xs p n h, Within-more k (retain_other j xs) p)

Within-length :
    (k : PublicKey) (xs : List PublicKey) (n : ℕ) → Occurs k xs → length xs ≤ suc n → Within k xs n
Within-length k [] n h l = absurd h
Within-length k (x ∷ xs) zero (inl e) l = e
Within-length k (x ∷ []) zero (inr h) l = absurd h
Within-length k (x ∷ y ∷ xs) zero (inr h) l = absurd (omega arith)
Within-length k (x ∷ xs) (suc n) (inl e) l = inl e
Within-length k (x ∷ xs) (suc n) (inr h) l = inr (Within-length k xs n h (omega arith))

Occurs-length : (k : PublicKey) (xs : List PublicKey) → Occurs k xs → 0 < length xs
Occurs-length k [] o = absurd o
Occurs-length k (x ∷ xs) o = omega arith

-- At the head of the queue, or one place further on in the rest.
Within-cases :
    (k x : PublicKey) (r : List PublicKey) (p : ℕ)
    → Within k (x ∷ r) p
    → (x ≡ k) ⊎ ((p' : ℕ) × (p ≡ suc p') × Within k r p')
Within-cases k x r zero h = inl h
Within-cases k x r (suc p) (inl e) = inl e
Within-cases k x r (suc p) (inr h) = inr (p, refl, h)

module _ {V : Type 0} where
  insert-AllIn :
      (k : PublicKey) (v : V) (xs : List PublicKey) (d : Dict V)
      → AllIn xs d
      → AllIn xs (insert k v d)
  insert-AllIn k v [] d h = tt
  insert-AllIn k v (x ∷ xs) d ((w, e), h) = elim (Option-cases (get x (insert k v d))) [
    | inl none_there ↦ absurd (ground (arith, get-insert k x v d, e))
    | inr found ↦ (found, insert-AllIn k v xs d h)
  ]

  retain-AllIn :
      (j : PublicKey) (xs : List PublicKey) (d : Dict V) → AllIn xs d → AllIn (retain_other j xs) d
  unfolding retain_other
  retain-AllIn j [] d h = tt
  retain-AllIn j (x ∷ xs) d (e, h) = ground (arith, retain-AllIn j xs d h, e)

  remove-AllIn :
      (j : PublicKey) (xs : List PublicKey) (d : Dict V)
      → AllIn xs d
      → AllIn (retain_other j xs) (remove j d)
  unfolding retain_other
  remove-AllIn j [] d h = tt
  remove-AllIn j (x ∷ xs) d ((w, e), h) = ground (arith, remove-AllIn j xs d h, get-remove j x d, e)

  append-AllIn :
      (k : PublicKey) (v : V) (xs : List PublicKey) (d : Dict V)
      → AllIn xs d
      → get k d ≡ some v
      → AllIn (xs ++ k ∷ []) d
  append-AllIn k v [] d h e = ((v, e), tt)
  append-AllIn k v (x ∷ xs) d (i, h) e = (i, append-AllIn k v xs d h e)

  -- The keys that the calls return by `next`, in order, with the state after the calls; `none` is a
  -- panic.
  unfoldable pub run_calls : List (Call V) → SeqMap V → Option (List PublicKey × SeqMap V)
  run_calls [] s = some ([], s)
  run_calls (Call.calls_update k v ∷ cs) s = run_calls cs (update_key k v s).1
  run_calls (Call.calls_remove k ∷ cs) s = run_calls cs (remove_key k s).1
  run_calls (Call.calls_next ∷ cs) s = elim (next_pair s) [
    | none ↦ none
    | some (none, s') ↦ run_calls cs s'
    | some (some (_, k, _), s') ↦ elim (run_calls cs s') [
      | none ↦ none
      | some (ks, s'') ↦ some (k ∷ ks, s'')
    ]
  ]

  -- No call updates or removes the key.
  abbrev pub LeavesKey : PublicKey → List (Call V) → Type 0
  LeavesKey k [] = Unit {0}
  LeavesKey k (Call.calls_update j v ∷ cs) = (j ≢ k) × LeavesKey k cs
  LeavesKey k (Call.calls_remove j ∷ cs) = (j ≢ k) × LeavesKey k cs
  LeavesKey k (Call.calls_next ∷ cs) = LeavesKey k cs

  abbrev pub count_next : List (Call V) → ℕ
  count_next [] = 0
  count_next (Call.calls_update j v ∷ cs) = count_next cs
  count_next (Call.calls_remove j ∷ cs) = count_next cs
  count_next (Call.calls_next ∷ cs) = suc (count_next cs)

  update-AllIn :
      (j : PublicKey) (v : V) (s : SeqMap V)
      → AllIn s.queue s.map
      → AllIn (update_key j v s).1.queue (update_key j v s).1.map
  unfolding update_key
  update-AllIn j v s h =
      append-AllIn j v (retain_other j s.queue) (insert j v s.map)
        (retain-AllIn j s.queue (insert j v s.map) (insert-AllIn j v s.queue s.map h))
        (ground (arith, get-insert j j v s.map))

  update-Within :
      (k j : PublicKey) (v : V) (s : SeqMap V) (p : ℕ)
      → j ≢ k
      → Within k s.queue p
      → Within k (update_key j v s).1.queue p
  unfolding update_key
  update-Within k j v s p n h =
      Within-append k (retain_other j s.queue) (j ∷ []) p (retain-Within k j s.queue p n h)

  removed :
      (j : PublicKey) (s : SeqMap V)
      → AllIn s.queue s.map
      → AllIn (remove_key j s).1.queue (remove_key j s).1.map
  unfolding remove_key
  removed j s h = remove-AllIn j s.queue s.map h

  removed-Within :
      (k j : PublicKey) (s : SeqMap V) (p : ℕ)
      → j ≢ k
      → Within k s.queue p
      → Within k (remove_key j s).1.queue p
  unfolding remove_key
  removed-Within k j s p n h = retain-Within k j s.queue p n h

  abbrev after_next : SeqMap V → PublicKey → List PublicKey → SeqMap V
  after_next s x r = record s { queue = r ++ x ∷ []; cycle_countdown = s.cycle_countdown - 1 }

  next_pair-some :
      (s : SeqMap V) (x : PublicKey) (r : List PublicKey) (v : V)
      → s.queue ≡ x ∷ r
      → get x s.map ≡ some v
      → next_pair s ≡ some (some (s.cycle_countdown - 1, x, v), after_next s x r)
  unfolding next_pair
  next_pair-some s x r v q e = rw (q, e)

  next_pair-none : (s : SeqMap V) → s.queue ≡ [] → next_pair s ≡ some (none, s)
  unfolding next_pair
  next_pair-none s q = rw q

  -- How `next` ends where every queued key is in the map.
  abbrev NextEnds : SeqMap V → Type 0
  NextEnds s =
      ((s.queue ≡ []) × (next_pair s ≡ some (none, s)))
      ⊎ ((x : PublicKey) × (r : List PublicKey) × (v : V) × (s.queue ≡ x ∷ r)
          × (next_pair s ≡ some (some (s.cycle_countdown - 1, x, v), after_next s x r))
          × AllIn (r ++ x ∷ []) s.map)

  next_ends : (s : SeqMap V) (q : List PublicKey) → s.queue ≡ q → AllIn q s.map → NextEnds s
  next_ends s [] e h = inl (e, next_pair-none s e)
  next_ends s (x ∷ r) e ((v, got), h) =
      inr (x, r, v, e, next_pair-some s x r v e got, append-AllIn x v r s.map h got)

  -- With every queued key in the map, no sequence of calls panics.
  no_panic :
      (cs : List (Call V)) (s : SeqMap V)
      → AllIn s.queue s.map
      → (ks : List PublicKey) × (s' : SeqMap V) × (run_calls cs s ≡ some (ks, s'))
  unfolding run_calls
  no_panic [] s h = ([], s, refl)
  no_panic (Call.calls_update j v ∷ cs) s h =
      no_panic cs (update_key j v s).1 (update-AllIn j v s h)
  no_panic (Call.calls_remove j ∷ cs) s h = no_panic cs (remove_key j s).1 (removed j s h)
  no_panic (Call.calls_next ∷ cs) s h = elim (next_ends s s.queue refl h) [
    | inl (e, next) ↦ let (ks, s', done) = no_panic cs s h in (ks, s', rw (run_calls, next) done)
    | inr (x, r, v, e, next, rest) ↦
        let (ks, s', done) = no_panic cs (after_next s x r) rest in
        (x ∷ ks, s', rw (run_calls, next, done))
  ]

  covers_from :
      (k : PublicKey) (p : ℕ) (cs : List (Call V)) (s : SeqMap V)
      → AllIn s.queue s.map
      → Within k s.queue p
      → LeavesKey k cs
      → p < count_next cs
      → (ks : List PublicKey) × (s' : SeqMap V) × (run_calls cs s ≡ some (ks, s')) × Occurs k ks
  unfolding run_calls
  covers_from k p [] s h w l n = absurd (omega arith)
  covers_from k p (Call.calls_update j v ∷ cs) s h w l n =
      covers_from k p cs (update_key j v s).1 (update-AllIn j v s h)
        (update-Within k j v s p (l.0) w) l.1 n
  covers_from k p (Call.calls_remove j ∷ cs) s h w l n =
      covers_from k p cs (remove_key j s).1 (removed j s h) (removed-Within k j s p l.0 w) l.1 n
  covers_from k p (Call.calls_next ∷ cs) s h w l n = elim (next_ends s s.queue refl h) [
    | inl (e, next) ↦ absurd (rw e at w)
    | inr (x, r, v, e, next, rest) ↦ elim (Within-cases k x r p (rw e at w)) [
      | inl same ↦
          let (ks, s', done) = no_panic cs (after_next s x r) rest in
          (x ∷ ks, s', rw (run_calls, next, done), inl same)
      | inr (p', less, later) ↦
          let (ks, s', done, o) =
            covers_from k p' cs (after_next s x r) rest (Within-append k r (x ∷ []) p' later) l
              (omega (arith, less)) in
          (x ∷ ks, s', rw (run_calls, next, done), inr o)
    ]
  ]

  -- From a state in which every queued key is in the map: a client that makes any calls, but neither
  -- updates nor removes one certain queued key, and calls `next` at least as often as there are queued
  -- keys at the start, meets no panic and is returned that key.
  pub cycle_covers :
      (k : PublicKey) (cs : List (Call V)) (s : SeqMap V)
      → AllIn s.queue s.map
      → Occurs k s.queue
      → LeavesKey k cs
      → length s.queue ≤ count_next cs
      → (ks : List PublicKey) × (s' : SeqMap V) × (run_calls cs s ≡ some (ks, s')) × Occurs k ks
  cycle_covers k cs s h o l n =
      covers_from k (length s.queue - 1) cs s h
        (Within-length k s.queue (length s.queue - 1) o (omega arith)) l
        (omega (arith, Occurs-length k s.queue o))
