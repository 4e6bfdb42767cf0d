-- ===== src/Oracle/Examples/Requests.antt =====
-- The theorems on active requests at a request that has two windows.
use oracle_monorepo_near.Base.{
  ℕ, none, some, [], ◌∷◌, ◌*◌, ◌/◌, ◌≡◌, ◌≢◌, refl, arith, length, ◌==◌, if◌then◌else◌, String_eq,
}
use oracle_monorepo_near.Near.{
  ok, err, get, insert, checked_add, checked_mul, checked_sub, outcome_incompatible_for_round,
}
use oracle_monorepo_near.Oracle.Types.{
  Balance, Outcome, Outcome_eq, NewDataRequestArgs, ActiveDataRequest, DataRequestDataType, World,
  Storage,
}
use oracle_monorepo_near.Oracle.Logger.{
  log_resolution_window, log_outcome_to_stake, log_user_stake, log_stake_transaction,
  log_new_data_request,
}
use oracle_monorepo_near.Oracle.Helpers.{multiply_stake}
use oracle_monorepo_near.Oracle.Window
use oracle_monorepo_near.Oracle.Window.{
  write_stakes, get_user_to_outcomes, stake_on, user_stake_on, record_stakes, settle,
}
use oracle_monorepo_near.Oracle.Guards.{assert_can_stake_on_outcome}
use oracle_monorepo_near.Oracle.Access.{get_config, last_config_id, assert_unpaused, assert_sender}
use oracle_monorepo_near.Oracle.Active
use oracle_monorepo_near.Oracle.Active.{
  windows_len, calc_resolution_bond, window_to_stake, write_window, invoke_final_arbitrator,
  push_next_window, after_stake, get_final_outcome,
}
use oracle_monorepo_near.Oracle.Active.Chain.{HasWindows, last_open}
use oracle_monorepo_near.Oracle.Active.Staking.{stake-HasWindows}
use oracle_monorepo_near.Oracle.Active.Finality.{get_final_outcome-returns}
use oracle_monorepo_near.Oracle.Active.Bond.{calc_resolution_bond_lem}
use oracle_monorepo_near.Oracle.Whitelisting.{
  assert_whitelisted, whitelist_get_expect, new_no_whitelist,
}
use oracle_monorepo_near.Oracle.Validation.{dr_validate}
use oracle_monorepo_near.Oracle.Handlers.{dr_new}
use oracle_monorepo_near.Oracle.Handlers.Refusals.{dr_new-needs_sources}
use oracle_monorepo_near.Oracle.Examples.Worlds.{
  yea, nay, env, env_of, no_stakes, storage_of, bonded0, round1, request, world_of,
}

abbrev disputed : ActiveDataRequest
disputed = request (bonded0 ∷ round1 ∷ [])

disputed-HasWindows :
    HasWindows disputed.id (100 * 2) disputed.final_arbitrator_triggered disputed.resolution_windows
disputed-HasWindows =
    last_open (bonded0 ∷ []) round1 refl refl ((refl, refl, refl), (yea, refl), tt)
      (refl, refl, refl) refl

-- A stake of 450 on the other outcome fills the second window, and a third one is opened.
stepped : ℕ × ActiveDataRequest × Storage
unfolding Active.stake window_to_stake Window.stake settle record_stakes stake_on user_stake_on
    checked_sub checked_add checked_mul log_outcome_to_stake log_user_stake log_stake_transaction
    log_resolution_window write_window after_stake invoke_final_arbitrator push_next_window
    Window.new write_stakes get_user_to_outcomes get insert
stepped = elim (Active.stake env disputed "bob.near" nay 450 (storage_of no_stakes)) [
  | ok r ↦ r
  | err e ↦ (0, disputed, storage_of no_stakes)
]

stepped_windows : windows_len stepped.1 ≡ 3
unfolding stepped
stepped_windows = refl

stake-HasWindows_example :
    HasWindows disputed.id
      (100 * 2)
      stepped.1.final_arbitrator_triggered
      stepped.1.resolution_windows
    × (stepped.1.id ≡ 0)
unfolding stepped calc_resolution_bond multiply_stake
stake-HasWindows_example =
    stake-HasWindows env disputed "bob.near" nay 450 100 (storage_of no_stakes)
      {unspent = stepped.0} {dr' = stepped.1} {s' = stepped.2} refl refl (omega arith)
      disputed-HasWindows refl

get_final_outcome-returns_example :
    (o : Outcome) × (get_final_outcome disputed ≡ ok o)
    × ((p : Outcome)
        → assert_can_stake_on_outcome disputed p
          ≡ (if o == p then err outcome_incompatible_for_round else ok tt))
get_final_outcome-returns_example =
    get_final_outcome-returns disputed 200 disputed-HasWindows (omega arith)

calc_resolution_bond_lem_example : calc_resolution_bond disputed ≡ ok (100 * 10000 / 10000)
calc_resolution_bond_lem_example = calc_resolution_bond_lem disputed (omega arith)

-- A request with a description and an empty list of sources.
abbrev described : NewDataRequestArgs
described = record {
  sources = some [];
  outcomes = some ("yes" ∷ "no" ∷ []);
  challenge_period = 1000;
  description = some "d";
  tags = [];
  data_type = DataRequestDataType.string;
  provider = none;
}

made : Balance × World
unfolding dr_new get_config last_config_id assert_unpaused checked_sub checked_mul
    assert_whitelisted assert_sender dr_validate whitelist_get_expect new_no_whitelist Active.new
    log_new_data_request
made = elim (dr_new (env_of "token.near") "requester.near" 150 described (world_of disputed)) [
  | ok r ↦ r
  | err e ↦ (1, world_of disputed)
]

made_requests : length made.1.contract.data_requests ≡ 3
unfolding made
made_requests = refl

dr_new-needs_sources_example : described.sources ≢ none
unfolding made
dr_new-needs_sources_example =
    dr_new-needs_sources (env_of "token.near") "requester.near" 150 described (world_of disputed)
      {r = made} refl
