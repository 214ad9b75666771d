-- ===== src/Funder/Action.antt =====
-- components/funder/src/handler: a handler as an action on what it changes. An error (`?`) ends it
-- and leaves what was changed before; a panic ends it.
use offst.Prelude.{◌≡◌, refl, Bool, true, false, Option, none, some, if◌then◌else◌}
use offst.Prelude.Outcome.{Outcome, ok, err, panic}

abbrev pub Action : Type 0 → Type 0 → Type 0 → Type 0
Action S E A = S → Outcome E A × S

module _ {S E : Type 0} where
  abbrev pub pure : {A : Type 0} → A → Action S E A
  pure a s = (ok a, s)

  abbrev pub throw : {A : Type 0} → E → Action S E A
  throw e s = (err e, s)

  abbrev pub gets : {A : Type 0} → (S → A) → Action S E A
  gets f s = (ok (f s), s)

  -- `.unwrap()`, or the branch that is not `unreachable!()`, of what the state gives.
  abbrev pub unwrap_at : {A : Type 0} → S → Option A → Outcome E A × S
  unwrap_at s none = (panic, s)
  unwrap_at s (some a) = (ok a, s)

  abbrev pub gets_unwrap : {A : Type 0} → (S → Option A) → Action S E A
  gets_unwrap f s = unwrap_at s (f s)

  abbrev pub put_or_panic : S → Option S → Outcome E (Unit {0}) × S
  put_or_panic s none = (panic, s)
  put_or_panic s (some t) = (ok tt, t)

  -- A change that may panic.
  abbrev pub change : (S → Option S) → Action S E (Unit {0})
  change f s = put_or_panic s (f s)

  infixl 5 ◌>>=◌ ◌>>◌
  abbrev pub bind_to : {A B : Type 0} → (A → Action S E B) → Outcome E A × S → Outcome E B × S
  bind_to f (ok a, s) = f a s
  bind_to f (err e, s) = (err e, s)
  bind_to f (panic, s) = (panic, s)

  abbrev pub ◌>>=◌ : {A B : Type 0} → Action S E A → (A → Action S E B) → Action S E B
  ◌>>=◌ m f s = bind_to f (m s)

  abbrev pub ◌>>◌ : {A B : Type 0} → Action S E A → Action S E B → Action S E B
  m >> k = m >>= λ _. k

-- Whatever it ends with, the action keeps a property of the state.
pub record Keeps {S E A : Type 0} (P : S → Type 0) (act : Action S E A) : Type 0 where
  pub kept : (s : S) → P s → P (act s).1

module _ {S E : Type 0} {P : S → Type 0} where
  pub then-Keeps :
      {A B : Type 0} {m : Action S E A} {f : A → Action S E B}
      → Keeps P m
      → ((a : A) → Keeps P (f a))
      → Keeps P (m >>= f)
  then-Keeps {A = A} {m = m} {f = f} k l = record { kept = λ s p. after (m s) (k.kept s p) }
    where
      after : (x : Outcome E A × S) → P x.1 → P (bind_to f x).1
      after (ok a, s) p = (l a).kept s p
      after (err e, s) p = p
      after (panic, s) p = p

  -- One after the other, the first giving nothing.
  pub both-Keeps :
      {A : Type 0} {m : Action S E (Unit {0})} {n : Action S E A}
      → Keeps P m
      → Keeps P n
      → Keeps P (m >> n)
  both-Keeps k l = then-Keeps k (λ _. l)

  pub pure-Keeps : {A : Type 0} {a : A} → Keeps {E = E} P (pure a)
  pure-Keeps = record { kept = λ s p. p }

  pub gets-Keeps : {A : Type 0} (f : S → A) → Keeps {E = E} P (gets f)
  gets-Keeps f = record { kept = λ s p. p }

  pub gets_unwrap-Keeps : {A : Type 0} (f : S → Option A) → Keeps {E = E} P (gets_unwrap f)
  gets_unwrap-Keeps {A = A} f = record { kept = λ s p. same s p (f s) }
    where
      same : (s : S) → P s → (o : Option A) → P (unwrap_at {E = E} s o).1
      same s p none = p
      same s p (some a) = p

  -- A change that keeps the property where it is one.
  pub change-Keeps :
      {f : S → Option S} → ((s t : S) → P s → f s ≡ some t → P t) → Keeps {E = E} P (change f)
  change-Keeps {f = f} k = record { kept = λ s p. stored s p (f s) refl }
    where
      stored : (s : S) → P s → (o : Option S) → f s ≡ o → P (put_or_panic {E = E} s o).1
      stored s p none e = p
      stored s p (some t) e = k s t p e

  -- A change that cannot panic.
  pub alter-Keeps :
      {f : S → S} → ((s : S) → P s → P (f s)) → Keeps {E = E} P (change (λ s. some (f s)))
  alter-Keeps k = record { kept = k }

  pub if-Keeps :
      {A : Type 0} {m n : Action S E A} (b : Bool)
      → Keeps P m
      → Keeps P n
      → Keeps P (if b then m else n)
  if-Keeps true k l = k
  if-Keeps false k l = l
