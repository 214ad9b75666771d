-- ===== src/MutualCredit/Words.antt =====
-- What the checks on 128-bit words say, as facts on the parts of an integer.
use offst.Prelude.{
  ℕ, refl, ◌+◌, ◌≤◌, ◌<◌, ◌*◌, ◌≡◌, true, Option, some, none, arith, Bool-cases, inl, inr,
}
use offst.Prelude.Int.{
  ℤ, pos, negsuc, pos_part, neg_part, ◌+ℤ◌, ◌-ℤ◌, int_laws, +ℤ_parts, -ℤ_parts, parts_disjoint,
  ◌≤ℤ◌,
}
use offst.SafeArith.{fits, checked_add_unsigned, checked_sub_unsigned}
use offst.SafeArith.Exact.{exactly, checked_add_unsigned_exact, checked_sub_unsigned_exact}
use offst.Buffers.{half128}

-- Neither end of an integer lies beyond the least and the greatest word of 128 bits.
abbrev pub InRange : ℤ → Type 0
InRange a = (pos_part a < half128) × (neg_part a ≤ half128)

fits_of : (a : ℤ) → InRange a → fits half128 a ≡ true
fits_of (pos n) h = ground arith
fits_of (negsuc n) h = ground arith

-- `b` is `a + u`, and it is `a - u`.
abbrev pub IsSum : ℤ → ℤ → ℕ → Type 0
IsSum b a u = pos_part b + neg_part a ≡ pos_part a + u + neg_part b

abbrev pub IsDifference : ℤ → ℤ → ℕ → Type 0
IsDifference b a u = pos_part b + neg_part a + u ≡ pos_part a + neg_part b

-- Of a result, if there is one.
abbrev pub Holds : (ℤ → Type 0) → Option ℤ → Type 0
Holds P none = Unit {0}
Holds P (some b) = P b

range_of : (a : ℤ) → fits half128 a ≡ true → InRange a
range_of (pos n) h = ground arith
range_of (negsuc n) h = ground arith

exactly-Holds : (Q : ℤ → Type 0) (b : ℤ) → Q b → Holds (λ c. InRange c × Q c) (exactly half128 b)
exactly-Holds Q b q = elim (Bool-cases (fits half128 b)) [
  | inl word ↦ rw word (range_of b word, q)
  | inr overflow ↦ rw overflow tt
]

module _ (a : ℤ) (u : ℕ) (w : InRange a) (k : u < 2 * half128) where
  pub add_word : Holds (λ b. InRange b × IsSum b a u) (checked_add_unsigned half128 a u)
  add_word =
      rw (checked_add_unsigned_exact half128 a u (omega arith) (fits_of a w) k)
        (exactly-Holds (λ b. IsSum b a u) (a +ℤ pos u) (omega (arith, +ℤ_parts a (pos u))))

  pub sub_word : Holds (λ b. InRange b × IsDifference b a u) (checked_sub_unsigned half128 a u)
  sub_word =
      rw (checked_sub_unsigned_exact half128 a u (omega arith) (fits_of a w) k)
        (exactly-Holds (λ b. IsDifference b a u) (a -ℤ pos u) (omega (arith, -ℤ_parts a (pos u))))

  pub add_word_of : (b : ℤ) → InRange b → IsSum b a u → checked_add_unsigned half128 a u ≡ some b
  add_word_of b r e =
      rw (checked_add_unsigned_exact half128 a u (omega arith) (fits_of a w) k)
        (let same : a +ℤ pos u ≡ b = omega int_laws in rw (same, fits_of b r))

  pub sub_word_of :
      (b : ℤ) → InRange b → IsDifference b a u → checked_sub_unsigned half128 a u ≡ some b
  sub_word_of b r e =
      rw (checked_sub_unsigned_exact half128 a u (omega arith) (fits_of a w) k)
        (let same : a -ℤ pos u ≡ b = omega int_laws in rw (same, fits_of b r))

  -- The word is there where the integer is above the least symmetric bound, or below the greatest.
  pub sub_word_total :
      neg_part a + u < half128 + pos_part a
      → (b : ℤ) × (checked_sub_unsigned half128 a u ≡ some b) × IsDifference b a u
  sub_word_total h = (
    a -ℤ pos u,
    sub_word_of (a -ℤ pos u) (omega (arith, -ℤ_parts a (pos u), parts_disjoint (a -ℤ pos u)))
        (omega (arith, -ℤ_parts a (pos u))),
    omega (arith, -ℤ_parts a (pos u)),
  )

  pub add_word_total :
      pos_part a + u < half128 + neg_part a
      → (b : ℤ) × (checked_add_unsigned half128 a u ≡ some b) × IsSum b a u
  add_word_total h = (
    a +ℤ pos u,
    add_word_of (a +ℤ pos u) (omega (arith, +ℤ_parts a (pos u), parts_disjoint (a +ℤ pos u)))
        (omega (arith, +ℤ_parts a (pos u))),
    omega (arith, +ℤ_parts a (pos u)),
  )

-- The word is there, and the property holds of it.
abbrev pub Gives : (ℤ → Type 0) → Option ℤ → Type 0
Gives P none = ⊥
Gives P (some b) = P b

pub Gives-elim : (P : ℤ → Type 0) (o : Option ℤ) → Gives P o → (b : ℤ) × (o ≡ some b) × P b
Gives-elim P none h = absurd h
Gives-elim P (some b) h = (b, refl, h)

pub Gives-intro : (P : ℤ → Type 0) (o : Option ℤ) (b : ℤ) → o ≡ some b → P b → Gives P o
Gives-intro P o b e p = rw e p

-- The balance less the debt, plus the greatest debt that is allowed, is not negative: what
-- `queue_request_send_funds` checks.
abbrev pub HasRoom : ℤ → ℕ → ℕ → Type 0
HasRoom a u m =
    Gives (λ sub. Gives (λ room. pos 0 ≤ℤ room) (checked_add_unsigned half128 sub m))
      (checked_sub_unsigned half128 a u)

-- The balance plus the debt, less the greatest debt that is allowed, is not positive: what
-- `process_request_send_funds` checks.
abbrev pub HasNoExcess : ℤ → ℕ → ℕ → Type 0
HasNoExcess a u m =
    Gives (λ sum. Gives (λ excess. excess ≤ℤ pos 0) (checked_sub_unsigned half128 sum m))
      (checked_add_unsigned half128 a u)

module _ (a : ℤ) (u m : ℕ) (w : InRange a) (k : u < 2 * half128) (l : m < half128) where
  -- The check asks more than that the debt is within the maximum: no step may overflow.
  pub HasRoom-elim :
      HasRoom a u m
      → (neg_part a + u ≤ pos_part a + m) × (pos_part a + m < half128 + neg_part a + u)
  HasRoom-elim h =
      let (b, e, g) =
        Gives-elim (λ sub. Gives (λ room. pos 0 ≤ℤ room) (checked_add_unsigned half128 sub m))
          (checked_sub_unsigned half128 a u) h in
      let (room, f, nonneg) =
        Gives-elim (λ room. pos 0 ≤ℤ room) (checked_add_unsigned half128 b m) g in
      let less : InRange b × IsDifference b a u = rw e at (sub_word a u w k) in
      let more : InRange room × IsSum room b m = rw f at (add_word b m less.0 (omega arith)) in
      omega arith

  pub HasNoExcess-intro :
      pos_part a + u ≤ neg_part a + m
      → neg_part a + m < half128 + pos_part a + u
      → HasNoExcess a u m
  HasNoExcess-intro h g =
      let sum = a +ℤ pos u in
      let excess = sum -ℤ pos m in
      let is_sum = +ℤ_parts a (pos u) in
      let is_excess = -ℤ_parts sum (pos m) in
      let sum_range : InRange sum = omega (arith, is_sum, parts_disjoint sum, parts_disjoint a) in
      Gives-intro _ _ sum (add_word_of a u w k sum sum_range (omega (arith, is_sum))) (
        Gives-intro _ _ excess
          (sub_word_of sum m sum_range (omega arith) excess
            (omega (arith, is_sum, is_excess, parts_disjoint excess)) (omega (arith, is_excess)))
          (omega (arith, is_sum, is_excess)))

  pub HasNoExcess-elim : HasNoExcess a u m → pos_part a + u ≤ neg_part a + m
  HasNoExcess-elim h =
      let (b, e, g) =
        Gives-elim (λ sum. Gives (λ excess. excess ≤ℤ pos 0) (checked_sub_unsigned half128 sum m))
          (checked_add_unsigned half128 a u) h in
      let (excess, f, none_left) =
        Gives-elim (λ excess. excess ≤ℤ pos 0) (checked_sub_unsigned half128 b m) g in
      let more : InRange b × IsSum b a u = rw e at (add_word a u w k) in
      let less : InRange excess × IsDifference excess b m =
        rw f at (sub_word b m more.0 (omega arith)) in
      omega arith
