-- ===== src/Fees.antt =====
-- components/proto/src/funder/messages.rs: `impl Rate`, the fees of a forwarded payment. `BigUint`
-- is a natural number; `to_u128` is `none` from 2 ^ 128 on.
-- components/funder/src/credit_calc.rs: the credits of a node on a route, in 32- and 128-bit words.
pub mod Payable
pub mod Telescope
pub mod Tests
use offst.Prelude.{
  ℕ, zero, suc, ◌+◌, ◌-◌, ◌*◌, ◌/◌, ◌≡◌, Bool, Option, none, some, leb, ltb, ◌==◌, if◌then◌else◌,
}
use offst.SafeArith.{unsigned_checked_add, unsigned_checked_sub, ◌>>=◌}
use offst.Buffers.{half128}

pub record Rate : Type 0 where
  pub mul : ℕ
  pub add : ℕ

-- 2 ^ 32
abbrev pub two32 : ℕ
two32 = 4294967296

abbrev pub to_u128 : ℕ → Option ℕ
to_u128 n = if ltb n (half128 + half128) then some n else none

unfoldable pub calc_fee : Rate → ℕ → Option ℕ
calc_fee rate dest_payment = to_u128 (dest_payment * rate.mul / two32 + rate.add)

-- `none` is the panic of `to_u128().unwrap()`.
unfoldable pub max_payable : Rate → ℕ → Option ℕ
max_payable rate capacity =
    if ltb capacity rate.add
    then some 0
    else to_u128 ((capacity - rate.add) * two32 / (rate.mul + two32))

-- `checked_sub` on u32 twice, then `checked_add` on u128.
unfoldable pub credits_on_success : ℕ → ℕ → ℕ → Option ℕ
credits_on_success node_index route_len dest_payment = if node_index == 0 then none else do
  nodes ← unsigned_checked_sub route_len node_index
  dist ← unsigned_checked_sub nodes 1
  unsigned_checked_add half128 dist dest_payment

unfoldable pub credits_on_failure : Option ℕ
credits_on_failure = some 0

unfoldable pub credits_to_freeze : ℕ → ℕ → ℕ → Option ℕ
unfolding credits_on_success
credits_to_freeze node_index route_len dest_payment =
    credits_on_success node_index route_len dest_payment
