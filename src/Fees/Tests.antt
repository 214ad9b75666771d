-- ===== src/Fees/Tests.antt =====
-- Tests of the fees and the credits along a route.
use offst.Prelude.{ℕ, ◌+◌, ◌*◌, ◌/◌, ◌≤◌, ◌<◌, ◌≡◌, refl, some, arith}
use offst.Fees.{Rate, max_payable, two32, credits_to_freeze, credits_on_success}
use offst.Fees.Payable.{max_payable_fits}
use offst.Fees.Telescope.{credits_telescope}

-- Half of the payment, and nothing flat.
abbrev half_rate : Rate
half_rate = record { mul = 2147483648; add = 0 }

-- One credit costs no fee and fits the capacity of one, but the answer is less.
one_less : max_payable half_rate 1 ≡ some 0
unfolding max_payable
one_less = refl

max_payable_fits_example :
    (x : ℕ) × (max_payable half_rate 100 ≡ some x)
    × (x + (x * 2147483648 / two32 + 0) ≤ 100)
    × (100 < (x + 2) + ((x + 2) * 2147483648 / two32 + 0))
max_payable_fits_example = max_payable_fits half_rate 100 (omega arith) (omega arith) (omega arith)

credits_telescope_example :
    (x : ℕ) × (credits_to_freeze 1 4 10 ≡ some (x + 1))
    × (credits_on_success 2 4 10 ≡ some x)
    × (x + 3 ≡ 10 + 4)
    × (credits_on_success 3 4 10 ≡ some 10)
credits_telescope_example = credits_telescope 1 4 10 (omega arith) (omega arith) (omega arith)
