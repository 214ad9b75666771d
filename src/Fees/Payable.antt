-- ===== src/Fees/Payable.antt =====
-- components/proto/src/funder/messages.rs: what can be paid through a capacity.
use offst.Prelude.{ℕ, ◌+◌, ◌-◌, ◌*◌, ◌/◌, ◌≤◌, ◌<◌, ◌≡◌, some, arith}
use offst.Buffers.{half128}
use offst.Fees.{Rate, max_payable, two32}

-- Dividing by `d` what is at most `x * d`.
div_bounds : (n d : ℕ) → 0 < d → (n / d * d ≤ n) × (n < n / d * d + d)
div_bounds n d h = grind arith

payable_bounds :
    (x mul c : ℕ)
    → x * (mul + two32) ≤ c * two32
    → c * two32 < x * (mul + two32) + (mul + two32)
    → mul < two32
    → (x + x * mul / two32 ≤ c) × (c < x + 2 + (x + 2) * mul / two32) × (x ≤ c)
payable_bounds x mul c low high m = omega arith

-- From a capacity of at least the flat fee, the payment that `max_payable` answers and its fee fit
-- the capacity, and a payment that is greater by two does not.
pub max_payable_fits :
    (rate : Rate) (capacity : ℕ)
    → rate.add ≤ capacity
    → rate.mul < two32
    → capacity < half128 + half128
    → (x : ℕ) × (max_payable rate capacity ≡ some x)
      × (x + (x * rate.mul / two32 + rate.add) ≤ capacity)
      × (capacity < (x + 2) + ((x + 2) * rate.mul / two32 + rate.add))
unfolding max_payable
max_payable_fits rate capacity h m c =
    let x = (capacity - rate.add) * two32 / (rate.mul + two32) in
    let d = div_bounds ((capacity - rate.add) * two32) (rate.mul + two32) (omega arith) in
    let (fits, over, small) = payable_bounds x rate.mul (capacity - rate.add) d.0 d.1 m in
    (x, ground (arith, small), omega (arith, fits), omega (arith, over))
