-- ===== src/Oracle/Active/Bond.antt =====
-- The bond of the first window (`calc_resolution_bond` of oracle/src/data_request.rs).
use oracle_monorepo_near.Base.{
  inl, inr, none, some, Option, Option-cases, ℕ, max, ◌*◌, ◌/◌, ◌<◌, ◌≡◌, none, some, arith,
  Pair_eq, String_eq,
}
use oracle_monorepo_near.Near.{ok, checked_mul, u128_mod}
use oracle_monorepo_near.Oracle.Types.{Balance, Outcome_eq, WindowId_eq, UserMap_eq}
use oracle_monorepo_near.Oracle.Types.{ActiveDataRequest, DataRequestConfig}
use oracle_monorepo_near.Oracle.Helpers.{multiply_stake}
use oracle_monorepo_near.Oracle.Active.{calc_resolution_bond}

-- The largest of the paid fee, the validity bond and the minimal resolution bond.
abbrev pub largest_bond : DataRequestConfig → Balance
largest_bond c = max (max c.paid_fee c.validity_bond) c.min_resolution_bond

-- The multiplier in ten-thousandths, 10000 where there is none.
abbrev pub multiplier : Option ℕ → ℕ
multiplier none = 10000
multiplier (some m) = m

-- The bond of a request is the largest of the fee, the validity bond and the minimal bond, times
-- the multiplier over 10000, which counts as 10000 if there is none, rounded down; the call
-- returns if the product fits 128 bits.
pub calc_resolution_bond_lem :
    (dr : ActiveDataRequest)
    → largest_bond dr.request_config * multiplier dr.request_config.stake_multiplier < u128_mod
    → calc_resolution_bond dr
      ≡ ok (largest_bond dr.request_config * multiplier dr.request_config.stake_multiplier / 10000)
unfolding calc_resolution_bond multiply_stake checked_mul
calc_resolution_bond_lem dr small = elim (Option-cases dr.request_config.stake_multiplier) [
  | inl e ↦ rw e (ground (arith, e))
  | inr (m, e) ↦ rw e (ground (arith, e, small))
]
