-- ===== src/SafeArith.antt =====
-- components/common/src/safe_arithmetic.rs: arithmetic between signed and unsigned integers of one
-- width. The macros are instantiated at 8 to 128 bits; here the width is the parameter `half`,
-- which is 2 ^ (w - 1): an iw lies in [-half, half - 1], a uw in [0, 2 * half - 1]. The checked and
-- saturating operations of the primitive types, which the source calls, stand first.
pub mod Exact
pub mod Tests
use offst.Prelude.{
  ℕ, ◌+◌, ◌-◌, ◌*◌, ◌/◌, ◌%◌, ◌≡◌, Bool, ◌&&◌, Option, none, some, ltb, leb, if◌then◌else◌,
}
use offst.Prelude.Int.{ℤ, pos, negsuc, pos_part, neg_part, ◌+ℤ◌, ◌-ℤ◌, leb_ℤ, sub_ℕ}

-- Does the integer fit a signed word?
abbrev pub fits : ℕ → ℤ → Bool
fits half (pos n) = ltb n half
fits half (negsuc n) = ltb n half

-- `checked_add`, `checked_sub` of a signed word.
unfoldable pub checked_add : ℕ → ℤ → ℤ → Option ℤ
checked_add half a b = if fits half (a +ℤ b) then some (a +ℤ b) else none

unfoldable pub checked_sub : ℕ → ℤ → ℤ → Option ℤ
checked_sub half a b = if fits half (a -ℤ b) then some (a -ℤ b) else none

-- The nearest signed word.
unfoldable pub clamp : ℕ → ℤ → ℤ
clamp half (pos n) = if ltb n half then pos n else pos (half - 1)
clamp half (negsuc n) = if ltb n half then negsuc n else negsuc (half - 1)

-- `n as iw` for an unsigned word `n`.
unfoldable pub as_signed : ℕ → ℕ → ℤ
as_signed half n = if ltb n half then pos n else sub_ℕ n (2 * half)

-- `a as uw` for a signed word `a`.
abbrev pub as_unsigned : ℕ → ℤ → ℕ
as_unsigned half (pos n) = n
as_unsigned half (negsuc n) = 2 * half - (n + 1)

infixl 5 ◌>>=◌
abbrev pub ◌>>=◌ : {A B : Type 0} → Option A → (A → Option B) → Option B
none >>= f = none
some a >>= f = f a

-- `SafeSignedArithmetic::checked_add_unsigned`
unfoldable pub checked_add_unsigned : ℕ → ℤ → ℕ → Option ℤ
checked_add_unsigned half a u = do
  let u_half = as_signed half (u / 2)
  let u_rem = as_signed half (u % 2)
  once ← checked_add half a u_half
  twice ← checked_add half once u_half
  checked_add half twice u_rem

unfoldable pub checked_sub_unsigned : ℕ → ℤ → ℕ → Option ℤ
checked_sub_unsigned half a u = do
  let u_half = as_signed half (u / 2)
  let u_rem = as_signed half (u % 2)
  once ← checked_sub half a u_half
  twice ← checked_sub half once u_half
  checked_sub half twice u_rem

-- `saturating_add` of a signed word, three times.
unfoldable pub saturating_add_unsigned : ℕ → ℤ → ℕ → ℤ
saturating_add_unsigned half a u =
    let u_half = as_signed half (u / 2) in
    let u_rem = as_signed half (u % 2) in
    clamp half (clamp half (clamp half (a +ℤ u_half) +ℤ u_half) +ℤ u_rem)

unfoldable pub saturating_sub_unsigned : ℕ → ℤ → ℕ → ℤ
saturating_sub_unsigned half a u =
    let u_half = as_signed half (u / 2) in
    let u_rem = as_signed half (u % 2) in
    clamp half (clamp half (clamp half (a -ℤ u_half) -ℤ u_half) -ℤ u_rem)

-- Rust's division of signed integers goes towards zero; the remainder has the sign of the dividend.
unfoldable pub half_of : ℤ → ℤ
half_of (pos n) = pos (n / 2)
half_of (negsuc n) = sub_ℕ 0 ((n + 1) / 2)

unfoldable pub rem_of : ℤ → ℤ
rem_of (pos n) = pos (n % 2)
rem_of (negsuc n) = sub_ℕ 0 ((n + 1) % 2)

-- `safe_abs`; the arithmetic of uw wraps.
unfoldable pub safe_abs : ℕ → ℤ → ℕ
safe_abs half a =
    if leb_ℤ (pos 0) a
    then as_unsigned half a
    else (as_unsigned half (pos 0 -ℤ half_of a) * 2 + as_unsigned half (pos 0 -ℤ rem_of a))
      % (2 * half)

-- `checked_add`, `checked_sub`, `saturating_add` and `saturating_sub` of an unsigned word.
unfoldable pub unsigned_checked_add : ℕ → ℕ → ℕ → Option ℕ
unsigned_checked_add half u v = if ltb (u + v) (2 * half) then some (u + v) else none

unfoldable pub unsigned_checked_sub : ℕ → ℕ → Option ℕ
unsigned_checked_sub u v = if leb v u then some (u - v) else none

abbrev pub unsigned_saturating_add : ℕ → ℕ → ℕ → ℕ
unsigned_saturating_add half u v = if ltb (u + v) (2 * half) then u + v else 2 * half - 1

-- `-` on ℕ stops at 0, which is the least unsigned word.
abbrev pub unsigned_saturating_sub : ℕ → ℕ → ℕ
unsigned_saturating_sub u v = u - v

-- `SafeUnsignedArithmetic`
unfoldable pub checked_add_signed : ℕ → ℕ → ℤ → Option ℕ
checked_add_signed half u s =
    if leb_ℤ (pos 0) s
    then unsigned_checked_add half u (as_unsigned half s)
    else unsigned_checked_sub u (safe_abs half s)

unfoldable pub checked_sub_signed : ℕ → ℕ → ℤ → Option ℕ
checked_sub_signed half u s =
    if leb_ℤ (pos 0) s
    then unsigned_checked_sub u (as_unsigned half s)
    else unsigned_checked_add half u (safe_abs half s)

unfoldable pub saturating_add_signed : ℕ → ℕ → ℤ → ℕ
saturating_add_signed half u s =
    if leb_ℤ (pos 0) s
    then unsigned_saturating_add half u (as_unsigned half s)
    else unsigned_saturating_sub u (safe_abs half s)

unfoldable pub saturating_sub_signed : ℕ → ℕ → ℤ → ℕ
saturating_sub_signed half u s =
    if leb_ℤ (pos 0) s
    then unsigned_saturating_sub u (as_unsigned half s)
    else unsigned_saturating_add half u (safe_abs half s)
