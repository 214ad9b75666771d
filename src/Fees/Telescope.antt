-- ===== src/Fees/Telescope.antt =====
-- components/funder/src/credit_calc.rs: the credits along a route are telescopic.
use offst.Prelude.{ℕ, ◌+◌, ◌-◌, ◌≤◌, ◌<◌, ◌≡◌, some, arith}
use offst.SafeArith.{unsigned_checked_add, unsigned_checked_sub}
use offst.Buffers.{half128}
use offst.Fees.{credits_on_success, credits_to_freeze}

-- On a route of `n` nodes, where the payment and the length do not overflow together, and for a node
-- after the first that has a successor: what is frozen on the way to it is one credit more than what
-- its successor is paid, the successor is paid one credit for each node after it and the payment,
-- and the last node is paid just the payment.
pub credits_telescope :
    (i n payment : ℕ)
    → 1 ≤ i
    → i + 1 < n
    → payment + n < half128 + half128
    → (x : ℕ) × (credits_to_freeze i n payment ≡ some (x + 1))
      × (credits_on_success (i + 1) n payment ≡ some x)
      × (x + (i + 2) ≡ payment + n)
      × (credits_on_success (n - 1) n payment ≡ some payment)
unfolding credits_to_freeze credits_on_success unsigned_checked_add unsigned_checked_sub
credits_telescope i n payment low high small =
    (n - (i + 2) + payment, ground arith, ground arith, omega arith, ground arith)
