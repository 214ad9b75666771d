-- ===== src/Graph/Capacity/Rates.antt =====
-- components/index_server/src/server.rs: `impl LinearRate for Rate`. The entries are 32-bit words.
use offst.Prelude.{ℕ, ◌+◌, ◌^◌, Option, none, some, ltb, if◌then◌else◌}
use offst.Fees.{Rate, calc_fee}
use offst.Graph.Capacity.{LinearRate}

abbrev pub checked_add_u32 : ℕ → ℕ → Option ℕ
checked_add_u32 a b = if ltb (a + b) (2 ^ 32) then some (a + b) else none

abbrev pub add_rates : Rate → Rate → Option Rate
add_rates r q = elim (checked_add_u32 r.mul q.mul) [
  | none ↦ none
  | some mul ↦ elim (checked_add_u32 r.add q.add) [
    | none ↦ none
    | some add ↦ some (record { mul = mul; add = add })
  ]
]

abbrev pub rate_rates : LinearRate Rate
rate_rates = record {
  zero_rate = record { mul = 0; add = 0 };
  calc_fee = calc_fee;
  checked_add = add_rates;
}
