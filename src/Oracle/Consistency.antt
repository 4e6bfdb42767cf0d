-- ===== src/Oracle/Consistency.antt =====
-- What holds of the whole contract between two calls: the vector `data_requests` of
-- oracle/src/lib.rs against the stakes in the storage.
pub mod Rounds
pub mod Updates
pub mod Growth
pub mod Bonds
pub mod Staking
pub mod Unstaking
pub mod Lifecycle
pub mod Lasting
pub mod Terms
pub mod Claims
pub mod Calls
pub mod Steps
pub mod History
pub mod Settlement
pub mod Withdrawals
pub mod Pricing
pub mod FairCalls
pub mod Fairness
use oracle_monorepo_near.Base.{
  ℕ, suc, ◌*◌, ◌≤◌, ◌<◌, ◌≡◌, ◌⊎◌, Option, none, some, List, [], ◌∷◌, length, get_elem?, Each,
}
use oracle_monorepo_near.Near.{ok}
use oracle_monorepo_near.Oracle.Types.{
  Balance, Outcome, ResolutionWindow, WindowId, ActiveDataRequest, DataRequest, active, finalized,
  Stakes, World,
}
use oracle_monorepo_near.Oracle.Handlers.{windows_of, get_config_id}
use oracle_monorepo_near.Oracle.Active.{windows_len, calc_resolution_bond}
use oracle_monorepo_near.Oracle.Active.Chain.{HasWindows}
use oracle_monorepo_near.Oracle.Window.Writes.{outcome_total}
use oracle_monorepo_near.Oracle.Window.Staking.{IsSound}
use oracle_monorepo_near.Oracle.Window.Claiming.{is_bonded_on}
use oracle_monorepo_near.Oracle.Finalized.Totals.{when}

-- Windows of request `id`, numbered from round `n` on.
abbrev pub AreRounds : ℕ → ℕ → List ResolutionWindow → Type 0
AreRounds id n [] = Unit
AreRounds id n (w ∷ ws) = (w.dr_id ≡ id) × (w.round ≡ n) × AreRounds id (suc n) ws

abbrev pub bond_or_zero : Option ResolutionWindow → Balance
bond_or_zero none = 0
bond_or_zero (some w) = w.bond_size

abbrev pub bond_at : Option DataRequest → ℕ → Balance
bond_at none k = 0
bond_at (some d) k = bond_or_zero (get_elem? (windows_of d) k)

-- The bond of the window under a prefix, zero where there is no such window.
abbrev pub bond_of : List DataRequest → WindowId → Balance
bond_of ds v = bond_at (get_elem? ds v.dr_id) v.round

-- The bond of a window that is bonded on the outcome, zero for another.
abbrev pub bonded_or_zero : Outcome → Option ResolutionWindow → Balance
bonded_or_zero o none = 0
bonded_or_zero o (some w) = when (is_bonded_on o w.bonded_outcome) w.bond_size

abbrev pub bonded_at : Outcome → Option DataRequest → ℕ → Balance
bonded_at o none k = 0
bonded_at o (some d) k = bonded_or_zero o (get_elem? (windows_of d) k)

abbrev pub bonded_of : List DataRequest → WindowId → Outcome → Balance
bonded_of ds v o = bonded_at o (get_elem? ds v.dr_id) v.round

-- The resolution bond of a request is not zero; it may also be too large to be computed.
abbrev pub IsPriced : ActiveDataRequest → Type 0
IsPriced dr = ¬ (calc_resolution_bond dr ≡ ok 0)

-- An active request in place `id`: its windows are in order from twice its resolution bond on, and
-- not more than the doublings of a bond that fit 128 bits. Where it has a window, its resolution bond
-- can be computed.
pub record IsActive (id : ℕ) (dr : ActiveDataRequest) : Type 0 where
  pub named : dr.id ≡ id
  pub windows :
      (bond : Balance)
      → calc_resolution_bond dr ≡ ok bond
      → HasWindows id (bond * 2) dr.final_arbitrator_triggered dr.resolution_windows
  pub rounds : AreRounds id 0 dr.resolution_windows
  pub few : windows_len dr ≤ 128
  pub bond : ((b : Balance) × (calc_resolution_bond dr ≡ ok b)) ⊎ (dr.resolution_windows ≡ [])

abbrev pub IsRequest : ℕ → DataRequest → Type 0
IsRequest id (active dr) = IsActive id dr
IsRequest id (finalized dr) = AreRounds id 0 dr.resolution_windows

-- The stakes are sound, each request is in order, and no outcome has more staked on it than the bond
-- of its window; where there is no window, nothing is staked. A window that is bonded has its whole bond
-- staked on that outcome. The configuration of each request is there.
pub record IsConsistent (w : World) : Type 0 where
  pub sound : IsSound w.storage.stakes
  pub requests : Each IsRequest w.contract.data_requests
  pub fits :
      (v : WindowId) (o : Outcome)
      → outcome_total v o w.storage.stakes ≤ bond_of w.contract.data_requests v
  pub full :
      (v : WindowId) (o : Outcome)
      → bonded_of w.contract.data_requests v o ≤ outcome_total v o w.storage.stakes
  pub known : Each (λ i d. get_config_id d < length w.contract.configs) w.contract.data_requests
