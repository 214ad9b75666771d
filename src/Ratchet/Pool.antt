-- ===== src/Ratchet/Pool.antt =====
-- components/index_server/src/verifier/ratchet.rs: the ratchets of a pool, and what an update and a tick do to them.
use offst.Prelude.{
  ℕ, ◌-◌, ◌≤◌, ◌<◌, ◌≡◌, ◌≢◌, refl, true, List, [], ◌∷◌, Option, none, some, arith, inl, inr,
  Option-cases,
}
use offst.Prelude.Dict.{Dict, get, insert, remove, get-insert, get-remove}
use offst.Crypto.{PublicKey, Uid}
use offst.Route.Valid.{Occurs}
use offst.Ratchet.{
  Ratchet, RatchetPool, new_ratchet, update_ratchet, tick_ratchet, tick_all, remove_all, tick_pool,
  update_pool,
}

-- No node is listed twice, and every ratchet has the pool's ticks to live and no more of them left.
abbrev pub AllFrom : ℕ → Dict Ratchet → Type 0
AllFrom n [] = Unit {0}
AllFrom n ((k, r) ∷ d) =
    (get k d ≡ none) × (r.ticks_to_live ≡ n) × (r.cur_ticks_to_live ≤ n) × AllFrom n d

abbrev pub IsPool : RatchetPool → Type 0
IsPool p = AllFrom p.ratchet_ticks_to_live p.ratchets

abbrev pub ticked : Ratchet → Ratchet
ticked r = record r { cur_ticks_to_live = r.cur_ticks_to_live - 1 }

abbrev ticked_option : Option Ratchet → Option Ratchet
ticked_option none = none
ticked_option (some r) = some (ticked r)

insert-AllFrom :
    (n : ℕ) (k : PublicKey) (r : Ratchet) (d : Dict Ratchet)
    → r.ticks_to_live ≡ n
    → r.cur_ticks_to_live ≤ n
    → AllFrom n d
    → AllFrom n (insert k r d)
unfolding insert
insert-AllFrom n k r [] e l h = (refl, e, l, tt)
insert-AllFrom n k r ((j, q) ∷ d) e l h =
    ground (arith, insert-AllFrom n k r d e l h.3, get-insert k j r d)

remove-AllFrom : (n : ℕ) (k : PublicKey) (d : Dict Ratchet) → AllFrom n d → AllFrom n (remove k d)
unfolding remove
remove-AllFrom n k [] h = tt
remove-AllFrom n k ((j, q) ∷ d) h = ground (arith, remove-AllFrom n k d h.3, get-remove k j d)

remove_all-AllFrom :
    (n : ℕ) (ks : List PublicKey) (d : Dict Ratchet) → AllFrom n d → AllFrom n (remove_all ks d)
unfolding remove_all
remove_all-AllFrom n [] d h = h
remove_all-AllFrom n (k ∷ ks) d h = remove_all-AllFrom n ks (remove k d) (remove-AllFrom n k d h)

pub get-tick_all :
    (k : PublicKey) (d : Dict Ratchet) → get k (tick_all d).1 ≡ ticked_option (get k d)
unfolding tick_all
get-tick_all k [] = refl
get-tick_all k ((j, r) ∷ d) = ground (arith, get-tick_all k d)

tick_all-AllFrom : (n : ℕ) (d : Dict Ratchet) → AllFrom n d → AllFrom n (tick_all d).1
unfolding tick_all
tick_all-AllFrom n [] h = tt
tick_all-AllFrom n ((j, r) ∷ d) h = ground (arith, tick_all-AllFrom n d h.3, get-tick_all j d)

pub get-AllFrom :
    (n : ℕ) (k : PublicKey) (r : Ratchet) (d : Dict Ratchet)
    → AllFrom n d
    → get k d ≡ some r
    → (r.ticks_to_live ≡ n) × (r.cur_ticks_to_live ≤ n)
get-AllFrom n k r [] h e = cc
get-AllFrom n k r ((j, q) ∷ d) h e = ground (arith, get-AllFrom n k r d h.3)

absent_stays : (k : PublicKey) (d : Dict Ratchet) → get k d ≡ none → ¬ Occurs k (tick_all d).0
unfolding tick_all tick_ratchet
absent_stays k [] e = λ o. absurd o
absent_stays k ((j, r) ∷ d) e = ground (arith, absent_stays k d)

-- A ratchet with a tick left stays.
pub alive_stays :
    (n : ℕ) (k : PublicKey) (r : Ratchet) (d : Dict Ratchet)
    → AllFrom n d
    → get k d ≡ some r
    → 1 < r.cur_ticks_to_live
    → ¬ Occurs k (tick_all d).0
unfolding tick_all tick_ratchet
alive_stays n k r [] h e l = cc
alive_stays n k r ((j, q) ∷ d) h e l = ground (arith, alive_stays n k r d h.3, absent_stays k d)

pub get-remove_all :
    (k : PublicKey) (ks : List PublicKey) (d : Dict Ratchet)
    → ¬ Occurs k ks
    → get k (remove_all ks d) ≡ get k d
unfolding remove_all
get-remove_all k [] d o = refl
get-remove_all k (j ∷ ks) d o =
    let away : j ≢ k = λ e. o (inl e) in
    ground (arith, get-remove_all k ks (remove j d) (λ p. o (inr p)), get-remove j k d)

-- An update keeps the ticks to live and leaves no more of them.
update_ratchet_lem :
    (session : Uid) (counter : ℕ) (r : Ratchet)
    → r.cur_ticks_to_live ≤ r.ticks_to_live
    → ((update_ratchet session counter r).1.ticks_to_live ≡ r.ticks_to_live)
      × ((update_ratchet session counter r).1.cur_ticks_to_live ≤ r.ticks_to_live)
unfolding update_ratchet
update_ratchet_lem session counter r l = ground arith

pub update_known :
    (node : PublicKey) (session : Uid) (counter : ℕ) (p : RatchetPool) (r : Ratchet)
    → get node p.ratchets ≡ some r
    → update_pool node session counter p ≡ (
      (update_ratchet session counter r).0,
      record p { ratchets = insert node (update_ratchet session counter r).1 p.ratchets },
    )
unfolding update_pool
update_known node session counter p r e = rw (e, update_pool)

pub update_new :
    (node : PublicKey) (session : Uid) (counter : ℕ) (p : RatchetPool)
    → get node p.ratchets ≡ none
    → update_pool node session counter p ≡ (
      true,
      record p {
        ratchets = insert node (new_ratchet session counter p.ratchet_ticks_to_live) p.ratchets;
      },
    )
unfolding update_pool
update_new node session counter p e = rw (e, update_pool)

pub update-IsPool :
    (node : PublicKey) (session : Uid) (counter : ℕ) (p : RatchetPool)
    → IsPool p
    → IsPool (update_pool node session counter p).1
unfolding new_ratchet
update-IsPool node session counter p h = elim (Option-cases (get node p.ratchets)) [
  | inl e ↦ rw (update_new node session counter p e) (
      insert-AllFrom p.ratchet_ticks_to_live node
        (new_ratchet session counter p.ratchet_ticks_to_live) p.ratchets refl (omega arith) h)
  | inr (r, e) ↦
      let (same, small) = get-AllFrom p.ratchet_ticks_to_live node r p.ratchets h e in
      let (t, l) = update_ratchet_lem session counter r (omega (arith, same, small)) in
      rw (update_known node session counter p r e) (
        insert-AllFrom p.ratchet_ticks_to_live node (update_ratchet session counter r).1 p.ratchets
          (omega (arith, t, same)) (omega (arith, l, same)) h)
]

pub tick-IsPool : (p : RatchetPool) → IsPool p → IsPool (tick_pool p).1
unfolding tick_pool
tick-IsPool p h =
    remove_all-AllFrom p.ratchet_ticks_to_live (tick_all p.ratchets).0 (tick_all p.ratchets).1
      (tick_all-AllFrom p.ratchet_ticks_to_live p.ratchets h)
