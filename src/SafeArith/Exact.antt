-- ===== src/SafeArith/Exact.antt =====
-- components/common/src/safe_arithmetic.rs: the operations by halves compute the exact integer.
use native.Mathlib.Nat.{mod-eq_of_lt}
use offst.Prelude.{
  ℕ, ◌+◌, ◌*◌, ◌/◌, ◌%◌, ◌<◌, ◌≡◌, true, Option, none, some, arith, ltb, if◌then◌else◌,
}
use offst.Prelude.Int.{ℤ, pos, negsuc, pos_part, neg_part, ◌+ℤ◌, ◌-ℤ◌}
use offst.SafeArith.{
  fits, half_of, rem_of, ◌>>=◌, checked_add, checked_sub, clamp, as_signed, checked_add_unsigned,
  checked_sub_unsigned, saturating_add_unsigned, saturating_sub_unsigned, safe_abs,
  checked_add_signed, checked_sub_signed, unsigned_checked_add, unsigned_checked_sub,
}

-- The halves of an unsigned word are signed words.
as_signed_small : (half n : ℕ) → n < half → as_signed half n ≡ pos n
unfolding as_signed
as_signed_small half n h = ground arith

-- What an exact signed result is.
abbrev pub exactly : ℕ → ℤ → Option ℤ
exactly half z = if fits half z then some z else none

-- Three steps in one direction stay within the bounds if the last one does.
module _ (half : ℕ) where
  add_in_steps :
      (a : ℤ) (n r : ℕ)
      → fits half a ≡ true
      → (checked_add half a (pos n) >>= λ once.
          checked_add half once (pos n) >>= λ twice. checked_add half twice (pos r))
        ≡ exactly half (a +ℤ pos (n + n + r))
  unfolding checked_add ◌+ℤ◌
  add_in_steps (pos a) n r h = ground arith
  add_in_steps (negsuc a) n r h = ground arith

  sub_in_steps :
      (a : ℤ) (n r : ℕ)
      → fits half a ≡ true
      → (checked_sub half a (pos n) >>= λ once.
          checked_sub half once (pos n) >>= λ twice. checked_sub half twice (pos r))
        ≡ exactly half (a -ℤ pos (n + n + r))
  unfolding checked_sub ◌-ℤ◌
  sub_in_steps (pos a) n r h = ground arith
  sub_in_steps (negsuc a) n r h = ground arith

  clamp_add :
      (a : ℤ) (m n : ℕ)
      → 0 < half
      → fits half a ≡ true
      → clamp half (clamp half (a +ℤ pos m) +ℤ pos n) ≡ clamp half (a +ℤ pos (m + n))
  unfolding clamp ◌+ℤ◌
  clamp_add (pos a) m n w h = ground arith
  clamp_add (negsuc a) m n w h = ground arith

  clamp_sub :
      (a : ℤ) (m n : ℕ)
      → 0 < half
      → fits half a ≡ true
      → clamp half (clamp half (a -ℤ pos m) -ℤ pos n) ≡ clamp half (a -ℤ pos (m + n))
  unfolding clamp ◌-ℤ◌
  clamp_sub (pos a) m n w h = ground arith
  clamp_sub (negsuc a) m n w h = ground arith

halves : (u : ℕ) → u / 2 + u / 2 + u % 2 ≡ u
halves u = omega arith

module _ (half : ℕ) (a : ℤ) (u : ℕ) (w : 1 < half) (h : fits half a ≡ true) (k : u < 2 * half) where
  -- Adding an unsigned word to a signed word gives the sum if the sum is a signed word, and nothing
  -- otherwise, for words of two bits or more: no step overflows on the way where the sum does not.
  pub checked_add_unsigned_exact : checked_add_unsigned half a u ≡ exactly half (a +ℤ pos u)
  unfolding checked_add_unsigned
  checked_add_unsigned_exact =
      rw (as_signed_small half (u / 2) (omega arith), as_signed_small half (u % 2) (omega arith))
        (rw (halves u) at (add_in_steps half a (u / 2) (u % 2) h))

  -- Subtracting an unsigned word from a signed word gives the difference if it is a signed word, and
  -- nothing otherwise, for words of two bits or more.
  pub checked_sub_unsigned_exact : checked_sub_unsigned half a u ≡ exactly half (a -ℤ pos u)
  unfolding checked_sub_unsigned
  checked_sub_unsigned_exact =
      rw (as_signed_small half (u / 2) (omega arith), as_signed_small half (u % 2) (omega arith))
        (rw (halves u) at (sub_in_steps half a (u / 2) (u % 2) h))

-- For words of two bits or more, the saturating sum and difference of a signed and an unsigned word
-- are the signed words nearest to the exact ones.
pub saturating_unsigned_exact :
    (half : ℕ) (a : ℤ) (u : ℕ)
    → 1 < half
    → fits half a ≡ true
    → u < 2 * half
    → (saturating_add_unsigned half a u ≡ clamp half (a +ℤ pos u))
      × (saturating_sub_unsigned half a u ≡ clamp half (a -ℤ pos u))
unfolding saturating_add_unsigned saturating_sub_unsigned
saturating_unsigned_exact half a u w h k = (
  rw (
    as_signed_small half (u / 2) (omega arith),
    as_signed_small half (u % 2) (omega arith),
    clamp_add half a (u / 2) (u / 2) (omega arith) h,
    clamp_add half a (u / 2 + u / 2) (u % 2) (omega arith) h,
    halves u,
  ),
  rw (
    as_signed_small half (u / 2) (omega arith),
    as_signed_small half (u % 2) (omega arith),
    clamp_sub half a (u / 2) (u / 2) (omega arith) h,
    clamp_sub half a (u / 2 + u / 2) (u % 2) (omega arith) h,
    halves u,
  ),
)

neg_halves :
    (n : ℕ)
    → (pos 0 -ℤ half_of (negsuc n) ≡ pos ((n + 1) / 2))
      × (pos 0 -ℤ rem_of (negsuc n) ≡ pos ((n + 1) % 2))
unfolding half_of rem_of ◌-ℤ◌
neg_halves n = ground arith

double_half : (half n : ℕ) → n < 2 * half → (n / 2 * 2 + n % 2) % (2 * half) ≡ n
double_half half n h = let e : n / 2 * 2 + n % 2 ≡ n = omega arith in rw e (mod-eq_of_lt h)

-- `safe_abs` of a signed word, the least one included, is its absolute value.
pub safe_abs_exact :
    (half : ℕ) (a : ℤ) → 0 < half → fits half a ≡ true → safe_abs half a ≡ pos_part a + neg_part a
unfolding safe_abs
safe_abs_exact half (pos a) w h = ground arith
safe_abs_exact half (negsuc a) w h =
    rw ((neg_halves a).0, (neg_halves a).1) (ground (arith, double_half half (a + 1)))

-- An exact unsigned result.
abbrev pub exactly_unsigned : ℕ → ℤ → Option ℕ
exactly_unsigned half (pos n) = if ltb n (2 * half) then some n else none
exactly_unsigned half (negsuc n) = none

-- Adding a signed word to an unsigned word, and taking one away, gives the exact result if that
-- is an unsigned word, and nothing otherwise.
pub checked_signed_exact :
    (half u : ℕ) (s : ℤ)
    → 0 < half
    → fits half s ≡ true
    → u < 2 * half
    → (checked_add_signed half u s ≡ exactly_unsigned half (pos u +ℤ s))
      × (checked_sub_signed half u s ≡ exactly_unsigned half (pos u -ℤ s))
unfolding checked_add_signed checked_sub_signed unsigned_checked_add unsigned_checked_sub ◌+ℤ◌ ◌-ℤ◌
checked_signed_exact half u (pos a) w h k = ground arith
checked_signed_exact half u (negsuc a) w h k = ground (arith, safe_abs_exact half (negsuc a) w h)
