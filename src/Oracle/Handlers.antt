-- ===== src/Oracle/Handlers.antt =====
-- The handlers `dr_…` of `Contract` in oracle/src/data_request.rs.
pub mod Lifecycle
pub mod Refusals
use oracle_monorepo_near.Base.{
  ℕ, ◌-◌, Bool, not, true, false, Option, none, some, List, [], ◌∷◌, ◌++◌, ltb, leb, nat_eq,
  if◌then◌else◌, ◌==◌, String_eq, length, get_elem?, set,
}
use oracle_monorepo_near.Near.{
  Result, ok, err, ◌>>=◌, ◌>>◌, require, expect, unwrap_on_none, checked_sub, checked_add, u64_mod,
  validity_bond_not_reached, no_resolution_window, data_request_not_found, already_finalized,
  not_yet_finalized, not_enough_gas, nothing_to_claim, not_the_provider, not_a_provider_request,
}
use oracle_monorepo_near.Oracle.Types.{
  AccountId, Balance, Outcome, ResolutionWindow, NewDataRequestArgs, StakeDataRequestArgs,
  ActiveDataRequest, FinalizedDataRequest, DataRequest, active, finalized, ClaimRes, OracleConfig,
  Contract, World, Env, Storage, Promise, and_then, PromiseOrValue, value,
}
use oracle_monorepo_near.Oracle.Helpers.{refund_storage, schedule, fungible_token_transfer}
use oracle_monorepo_near.Oracle.Logger.{
  log_new_data_request, log_update_active_data_request, log_update_finalized_data_request,
}
use oracle_monorepo_near.Oracle.Window
use oracle_monorepo_near.Oracle.Active
use oracle_monorepo_near.Oracle.Guards.{
  assert_valid_outcome, assert_valid_outcome_type, assert_can_stake_on_outcome, assert_can_finalize,
  assert_final_arbitrator, assert_final_arbitrator_invoked, assert_final_arbitrator_not_invoked,
}
use oracle_monorepo_near.Oracle.Finalized
use oracle_monorepo_near.Oracle.Access.{
  on_contract, on_storage, schedule_result, get_config, last_config_id, assert_unpaused,
  assert_sender,
}
use oracle_monorepo_near.Oracle.Whitelisting.{set_outcome, assert_whitelisted, whitelist_get_expect}
use oracle_monorepo_near.Oracle.Validation.{dr_validate}

abbrev pub windows_of : DataRequest → List ResolutionWindow
windows_of (active dr) = dr.resolution_windows
windows_of (finalized dr) = dr.resolution_windows

abbrev pub get_config_id : DataRequest → ℕ
get_config_id (active dr) = dr.global_config_id
get_config_id (finalized dr) = dr.global_config_id

abbrev pub log_update : DataRequest → Storage → Storage
log_update (active dr) = log_update_active_data_request dr
log_update (finalized dr) = log_update_finalized_data_request dr

-- `DataRequest::unstake`: the struct of the window is read, its maps are written.
unfoldable pub unstake :
    Env → DataRequest → AccountId → ℕ → Outcome → Balance → Storage → Result (Balance × Storage)
unstake env dr sender round outcome amount s = do
  window ← expect (get_elem? (windows_of dr) round) no_resolution_window
  Window.unstake env window sender outcome amount s

unfoldable pub dr_get_expect : ℕ → Contract → Result DataRequest
dr_get_expect id c = expect (get_elem? c.data_requests id) data_request_not_found

abbrev pub as_active : DataRequest → Result ActiveDataRequest
as_active (active dr) = ok dr
as_active (finalized dr) = err already_finalized

abbrev pub as_finalized : DataRequest → Result FinalizedDataRequest
as_finalized (active dr) = err not_yet_finalized
as_finalized (finalized dr) = ok dr

unfoldable pub dr_get_expect_active : ℕ → Contract → Result ActiveDataRequest
dr_get_expect_active id c =
    expect (get_elem? c.data_requests id) data_request_not_found >>= as_active

unfoldable pub dr_get_expect_finalized : ℕ → Contract → Result FinalizedDataRequest
dr_get_expect_finalized id c =
    expect (get_elem? c.data_requests id) data_request_not_found >>= as_finalized

-- `data_requests.replace(id, dr)`
abbrev pub replace : ℕ → DataRequest → World → World
replace id dr = on_contract (λ c. record c { data_requests = set c.data_requests id dr })

-- `configs.get(id).unwrap()`
abbrev pub config_at : ℕ → Contract → Result OracleConfig
config_at id c = expect (get_elem? c.configs id) unwrap_on_none

unfoldable pub dr_new :
    Env → AccountId → Balance → NewDataRequestArgs → World → Result (Balance × World)
unfolding assert_unpaused get_config
dr_new env sender amount payload w = do
  assert_unpaused w.contract
  config ← get_config w.contract
  let validity_bond = config.validity_bond
  assert_whitelisted w.contract sender
  assert_sender env config.payment_token
  require (leb validity_bond amount) validity_bond_not_reached
  dr_validate env payload w.contract
  let paid_fee = amount - validity_bond
  requester ← whitelist_get_expect w.contract.whitelist sender
  config_id ← last_config_id w.contract
  dr ← Active.new requester (length w.contract.data_requests) config_id config paid_fee payload
  let logged = on_storage (log_new_data_request env dr) w
  ok (0, on_contract (λ c. record c { data_requests = c.data_requests ++ active dr ∷ [] }) logged)

unfoldable pub dr_stake :
    Env
    → AccountId
    → Balance
    → StakeDataRequestArgs
    → World
    → Result (PromiseOrValue Balance × World)
unfolding assert_unpaused dr_get_expect_active
dr_stake env sender amount payload w = do
  assert_unpaused w.contract
  dr ← dr_get_expect_active payload.id w.contract
  config ← config_at dr.global_config_id w.contract
  assert_sender env config.stake_token
  assert_final_arbitrator_not_invoked dr
  assert_can_stake_on_outcome dr payload.outcome
  assert_valid_outcome dr payload.outcome
  assert_valid_outcome_type dr payload.outcome
  (unspent_stake, dr', s) ← Active.stake env dr sender payload.outcome amount w.storage
  let logged : World = record w { storage = log_update_active_data_request dr' s }
  ok (value unspent_stake, replace payload.id (active dr') logged)

unfoldable pub dr_unstake : Env → ℕ → ℕ → Outcome → Balance → World → Result World
unfolding assert_unpaused dr_get_expect unstake fungible_token_transfer
dr_unstake env request_id resolution_round outcome amount w = do
  assert_unpaused w.contract
  let initial_storage = env.storage_usage w
  dr ← dr_get_expect request_id w.contract
  (unstaked, s) ←
      unstake env dr env.predecessor_account_id resolution_round outcome amount w.storage
  config ← config_at (get_config_id dr) w.contract
  refunded ←
      refund_storage env initial_storage env.predecessor_account_id (record w { storage = s })
  let logged = on_storage (log_update dr) refunded
  ok (
      schedule (fungible_token_transfer config.stake_token env.predecessor_account_id unstaked)
        logged)

-- The transfers of a claim: the stake first, then the fee.
unfoldable pub payout : OracleConfig → AccountId → ClaimRes → Result Promise
unfolding fungible_token_transfer
payout config account_id r =
    let stake = fungible_token_transfer config.stake_token account_id r.stake_token_payout in
    let fee = fungible_token_transfer config.payment_token account_id r.payment_token_payout in
    if ltb 0 r.payment_token_payout
    then ok (if ltb 0 r.stake_token_payout then and_then stake fee else fee)
    else (if ltb 0 r.stake_token_payout then ok stake else err nothing_to_claim)

-- The vector of windows is written in place, with what was read: see `claim_windows`.
unfoldable pub dr_claim : Env → AccountId → ℕ → World → Result World
unfolding assert_unpaused dr_get_expect_finalized payout
dr_claim env account_id request_id w = do
  assert_unpaused w.contract
  let initial_storage = env.storage_usage w
  dr ← dr_get_expect_finalized request_id w.contract
  (stake_payout, s) ← Finalized.claim env dr account_id w.storage
  config ← config_at dr.global_config_id w.contract
  let logged : World = record w { storage = log_update_finalized_data_request dr s }
  refunded ← refund_storage env initial_storage env.predecessor_account_id logged
  gas ← checked_sub env.prepaid_gas (env.used_gas refunded)
  require (leb env.consts.gas_base_transfer gas) not_enough_gas
  transfers ← payout config account_id stake_payout
  ok (schedule transfers refunded)

unfoldable pub dr_finalize : Env → ℕ → World → Result World
unfolding assert_unpaused dr_get_expect_active
dr_finalize env request_id w = do
  assert_unpaused w.contract
  let initial_storage = env.storage_usage w
  dr ← dr_get_expect_active request_id w.contract
  assert_can_finalize env dr
  final_outcome ← Active.get_final_outcome dr
  let called = schedule (set_outcome dr.requester final_outcome dr.tags) w
  config ← config_at dr.global_config_id w.contract
  let fdr = Finalized.trim_dr dr final_outcome
  let paid =
      schedule_result
        (Finalized.return_validity_bond fdr config.payment_token dr.requester.account_id
          dr.request_config.validity_bond)
        called
  let logged = on_storage (log_update_finalized_data_request fdr) paid
  refunded ← refund_storage env initial_storage env.predecessor_account_id logged
  ok (replace request_id (finalized fdr) refunded)

-- The `match` on the provider.
abbrev pub check_provider : Env → Option AccountId → Result (Unit {0})
check_provider env (some provider) =
    require (provider == env.predecessor_account_id) not_the_provider
check_provider env none = err not_a_provider_request

unfoldable pub dr_finalize_by_provider : Env → ℕ → Outcome → World → Result World
unfolding assert_unpaused dr_get_expect_active
dr_finalize_by_provider env request_id outcome w = do
  assert_unpaused w.contract
  let initial_storage = env.storage_usage w
  dr ← dr_get_expect_active request_id w.contract
  assert_valid_outcome dr outcome
  check_provider env dr.provider
  let called = schedule (set_outcome dr.requester outcome dr.tags) w
  let fdr = Finalized.trim_dr dr outcome
  let logged = on_storage (log_update_finalized_data_request fdr) called
  let replaced = replace request_id (finalized fdr) logged
  refund_storage env initial_storage env.predecessor_account_id replaced

unfoldable pub dr_final_arbitrator_finalize :
    Env → ℕ → Outcome → World → Result (PromiseOrValue Bool × World)
unfolding assert_unpaused dr_get_expect_active
dr_final_arbitrator_finalize env request_id outcome w = do
  assert_unpaused w.contract
  let initial_storage = env.storage_usage w
  dr ← dr_get_expect_active request_id w.contract
  assert_final_arbitrator env dr
  assert_valid_outcome dr outcome
  assert_final_arbitrator_invoked dr
  config ← config_at dr.global_config_id w.contract
  let called = schedule (set_outcome dr.requester outcome dr.tags) w
  let fdr = Finalized.trim_dr dr outcome
  let logged = on_storage (log_update_finalized_data_request fdr) called
  let bond =
      Finalized.return_validity_bond fdr config.payment_token dr.requester.account_id
        dr.request_config.validity_bond
  let paid = schedule_result bond logged
  let replaced = replace request_id (finalized fdr) paid
  refunded ← refund_storage env initial_storage env.predecessor_account_id replaced
  ok (bond, refunded)
