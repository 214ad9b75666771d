-- ===== src/Verifier/Expiry.antt =====
-- components/index_server/src/verifier/hash_clock.rs: a tick is forgotten after as many ticks as the
-- clock keeps.
use offst.Prelude.{
  ℕ, suc, ◌≤◌, ◌<◌, ◌≡◌, refl, List, [], ◌∷◌, ◌++◌, Option, none, some, arith, inl, inr, ◌==◌, ltb,
  Option-cases, Bool-cases, length, length-append,
}
use offst.Prelude.Dict.{Dict, get, insert, remove, get-insert, get-remove}
use offst.Crypto.{Crypto, HashResult, RandValue}
use offst.Route.Valid.{Occurs}
use offst.Verifier.{
  HashClock, insert_tick_hash, first_recent, tick_clock, with_result, hash_hashes, expansion_of,
}

-- At most the kept number of ticks are listed, and every tick of the map is listed.
pub record IsClock (c : HashClock) : Type 0 where
  pub positive : 0 < c.last_ticks_max_len
  pub bound : length c.last_ticks ≤ c.last_ticks_max_len
  pub known :
      (h : HashResult) (e : List HashResult)
      → get h c.last_ticks_map ≡ some e
      → Occurs h c.last_ticks

Occurs-before : (h : HashResult) (xs ys : List HashResult) → Occurs h xs → Occurs h (xs ++ ys)
Occurs-before h [] ys o = absurd o
Occurs-before h (x ∷ xs) ys (inl e) = inl e
Occurs-before h (x ∷ xs) ys (inr o) = inr (Occurs-before h xs ys o)

Occurs-last : (h : HashResult) (xs : List HashResult) → Occurs h (xs ++ h ∷ [])
Occurs-last h [] = inl refl
Occurs-last h (x ∷ xs) = inr (Occurs-last h xs)

-- The map after a new tick, listed last.
known_insert :
    (h : HashResult) (ex : List HashResult) (xs : List HashResult) (d : Dict (List HashResult))
    → ((j : HashResult) (e : List HashResult) → get j d ≡ some e → Occurs j xs)
    → (j : HashResult) (e : List HashResult) → get j (insert h ex d) ≡ some e
    → Occurs j (xs ++ h ∷ [])
known_insert h ex xs d k j e g = elim (Bool-cases (h == j)) [
  | inl same ↦ let here : h ≡ j = ground arith in rw (← here) (Occurs-last h xs)
  | inr other ↦
      let old : get j d ≡ some e = ground (arith, get-insert h j ex d, g, other) in
      Occurs-before j xs (h ∷ []) (k j e old)
]

-- The map after the first tick of the list is removed from it.
known_remove :
    (x : HashResult) (xs : List HashResult) (d : Dict (List HashResult))
    → ((j : HashResult) (e : List HashResult) → get j d ≡ some e → Occurs j (x ∷ xs))
    → (j : HashResult) (e : List HashResult) → get j (remove x d) ≡ some e
    → Occurs j xs
known_remove x xs d k j e g =
    let old : get j d ≡ some e = ground (arith, get-remove x j d, g) in
    elim (k j e old) [ inl same ↦ absurd (ground (arith, get-remove x j d, g, same)) | inr o ↦ o ]

room :
    (h : HashResult) (ex : List HashResult) (c : HashClock)
    → 0 < c.last_ticks_max_len
    → length c.last_ticks < c.last_ticks_max_len
    → insert_tick_hash h ex c
      ≡ some (record c {
        last_ticks = c.last_ticks ++ h ∷ [];
        last_ticks_map = insert h ex c.last_ticks_map;
      })
unfolding insert_tick_hash
room h ex c p l = ground (arith, length-append c.last_ticks (h ∷ []))

no_room :
    (h : HashResult) (ex : List HashResult) (c : HashClock) (x : HashResult) (xs : List HashResult)
    → c.last_ticks ≡ x ∷ xs
    → length (x ∷ xs) ≡ c.last_ticks_max_len
    → insert_tick_hash h ex c
      ≡ some (record c {
        last_ticks = xs ++ h ∷ [];
        last_ticks_map = insert h ex (remove x c.last_ticks_map);
      })
unfolding insert_tick_hash
no_room h ex c x xs q l = ground (arith, length-append xs (h ∷ []))

module _ (bad : List HashResult) where
  -- The last `k` of the ticks are none of these.
  abbrev pub Recent : ℕ → List HashResult → Type 0
  Recent k [] = Unit {0}
  Recent k (x ∷ xs) = (length (x ∷ xs) ≤ k → ¬ Occurs x bad) × Recent k xs

  pub Recent-none : (xs : List HashResult) → Recent 0 xs
  Recent-none [] = tt
  Recent-none (x ∷ xs) = (λ l. absurd (omega arith), Recent-none xs)

  Recent-append :
      (k : ℕ) (h : HashResult) (xs : List HashResult)
      → ¬ Occurs h bad
      → Recent k xs
      → Recent (suc k) (xs ++ h ∷ [])
  Recent-append k h [] fresh r = (λ l. fresh, tt)
  Recent-append k h (x ∷ xs) fresh (f, r) =
      (λ l. f (omega (arith, length-append xs (h ∷ []), l)), Recent-append k h xs fresh r)

  -- How a tick goes.
  abbrev pub Inserts : HashResult → HashClock → Option HashClock → Type 0
  Inserts h c none = ⊥
  Inserts h c (some c') =
      IsClock c'
      × (c'.last_ticks_max_len ≡ c.last_ticks_max_len)
      × ((k : ℕ) → ¬ Occurs h bad → Recent k c.last_ticks → Recent (suc k) c'.last_ticks)

  not_full :
      (h : HashResult) (ex : List HashResult) (c : HashClock)
      → IsClock c
      → length c.last_ticks < c.last_ticks_max_len
      → Inserts h c (insert_tick_hash h ex c)
  not_full h ex c v l = rw (room h ex c v.positive l) (
    record {
      positive = v.positive;
      bound = omega (arith, length-append c.last_ticks (h ∷ []), l);
      known = known_insert h ex c.last_ticks c.last_ticks_map v.known;
    },
    refl,
    λ k fresh r. Recent-append k h c.last_ticks fresh r,
  )

  full :
      (h : HashResult) (ex : List HashResult) (c : HashClock) (x : HashResult)
      (xs : List HashResult)
      → IsClock c
      → c.last_ticks ≡ x ∷ xs
      → length (x ∷ xs) ≡ c.last_ticks_max_len
      → Inserts h c (insert_tick_hash h ex c)
  full h ex c x xs v q l = rw (no_room h ex c x xs q l) (
    record {
      positive = v.positive;
      bound = omega (arith, length-append xs (h ∷ []), l);
      known =
          known_insert h ex xs (remove x c.last_ticks_map)
            (known_remove x xs c.last_ticks_map (λ j e g. rw q at (v.known j e g)));
    },
    refl,
    λ k fresh r. Recent-append k h xs fresh (rw q at r).1,
  )

  insert-Inserts :
      (h : HashResult) (ex : List HashResult) (c : HashClock) (q : List HashResult)
      → c.last_ticks ≡ q
      → IsClock c
      → Inserts h c (insert_tick_hash h ex c)
  insert-Inserts h ex c [] e v = not_full h ex c v (rw e (v.positive))
  insert-Inserts h ex c (x ∷ xs) e v =
      elim (Bool-cases (ltb (length (x ∷ xs)) c.last_ticks_max_len)) [
        | inl less ↦ not_full h ex c v (rw e (ground arith))
        | inr most ↦
            let bound : length (x ∷ xs) ≤ c.last_ticks_max_len = rw e at v.bound in
            full h ex c x xs v e (ground arith)
      ]

  -- How a tick of the clock ends.
  abbrev pub Ticks : HashClock → Option (HashResult × HashClock) → Type 0
  Ticks c none = ⊥
  Ticks c (some (h, c')) = Inserts h c (some c')

  pub tick-Ticks :
      (crypto : Crypto) (rand : RandValue) (c : HashClock)
      → IsClock c
      → Ticks c (tick_clock crypto rand c)
  unfolding tick_clock with_result
  tick-Ticks crypto rand c v =
      let h = hash_hashes crypto (expansion_of crypto rand c) in
      go h (insert_tick_hash h (expansion_of crypto rand c) c)
        (insert-Inserts h (expansion_of crypto rand c) c c.last_ticks refl v)
    where
      go :
          (h : HashResult) (x : Option HashClock) → Inserts h c x → Ticks c (with_result crypto h x)
      go h none i = i
      go h (some c') i = i

  -- No listed tick is one of these, once the clock has ticked as often as it keeps.
  all_fresh :
      (k : ℕ) (xs : List HashResult)
      → length xs ≤ k
      → Recent k xs
      → (j : HashResult) → Occurs j xs
      → ¬ Occurs j bad
  all_fresh k (x ∷ xs) l (f, r) j (inl e) b = f l (rw e b)
  all_fresh k (x ∷ xs) l (f, r) j (inr o) b = all_fresh k xs (omega arith) r j o b
  all_fresh k [] l r j o b = absurd o

  none_recent :
      (hs : List HashResult) (c : HashClock)
      → ((j : HashResult) → Occurs j hs → get j c.last_ticks_map ≡ none)
      → first_recent hs c ≡ none
  unfolding first_recent
  none_recent [] c f = refl
  none_recent (h ∷ hs) c f =
      rw (f h (inl refl), first_recent) (none_recent hs c (λ j o. f j (inr o)))

  -- A clock that has ticked as often as it keeps, with other hashes, knows none of these.
  pub forgets :
      (k : ℕ) (c : HashClock)
      → IsClock c
      → c.last_ticks_max_len ≤ k
      → Recent k c.last_ticks
      → first_recent bad c ≡ none
  forgets k c v l r = none_recent bad c unknown
    where
      unknown : (j : HashResult) → Occurs j bad → get j c.last_ticks_map ≡ none
      unknown j o = elim (Option-cases (get j c.last_ticks_map)) [
        | inl e ↦ e
        | inr (x, e) ↦
            absurd (all_fresh k c.last_ticks (omega (arith, v.bound, l)) r j (v.known j x e) o)
      ]
