-- ===== src/Oracle/Examples/Histories.antt =====
-- A history of the contract: a request, three stakes on it, an unstake, its end and a claim.
mod Theorems
use oracle_monorepo_near.Base.{
  ℕ, zero, suc, none, some, Option, List, [], ◌∷◌, ◌+◌, ◌*◌, ◌≤◌, ◌<◌, ◌≡◌, refl, arith, String_eq,
  get_elem?, length, min, ◌-◌,
}
use oracle_monorepo_near.Near.{
  ok, err, Result, get, insert, remove, checked_add, checked_mul, checked_sub,
}
use oracle_monorepo_near.Oracle.Types.{
  AccountId, Balance, Outcome, Outcome_eq, ActiveDataRequest, DataRequest, active, finalized,
  DataRequestDataType, NewDataRequestArgs, FinalizedDataRequest, World, Env, Storage,
  PromiseOrValue, value, ClaimRes, ResolutionWindow,
}
use oracle_monorepo_near.Oracle.Logger.{
  log_oracle_config, log_new_data_request, log_resolution_window, log_outcome_to_stake,
  log_user_stake, log_stake_transaction, log_unstake_transaction, log_update_active_data_request,
  log_update_finalized_data_request, log_claim,
}
use oracle_monorepo_near.Oracle.Helpers.{
  multiply_stake, refund_storage, calc_product, fungible_token_transfer,
}
use oracle_monorepo_near.Oracle.Access.{get_config, last_config_id, assert_unpaused, assert_sender}
use oracle_monorepo_near.Oracle.Configuration
use oracle_monorepo_near.Oracle.Whitelisting
use oracle_monorepo_near.Oracle.Whitelisting.{
  assert_whitelisted, whitelist_get_expect, new_no_whitelist,
}
use oracle_monorepo_near.Oracle.Validation.{dr_validate}
use oracle_monorepo_near.Oracle.Window
use oracle_monorepo_near.Oracle.Window.{
  write_stakes, get_user_to_outcomes, stake_on, user_stake_on, record_stakes, settle,
  take_user_stake,
}
use oracle_monorepo_near.Oracle.Active
use oracle_monorepo_near.Oracle.Active.{
  calc_resolution_bond, window_to_stake, write_window, invoke_final_arbitrator, push_next_window,
  after_stake, get_final_outcome,
}
use oracle_monorepo_near.Oracle.Guards.{
  assert_can_finalize, assert_valid_outcome, assert_valid_outcome_type, assert_can_stake_on_outcome,
  assert_final_arbitrator_not_invoked, check_listed, check_type,
}
use oracle_monorepo_near.Oracle.Finalized
use oracle_monorepo_near.Oracle.Finalized.{trim_dr, claim, claim_windows, add_result, share}
use oracle_monorepo_near.Oracle.Handlers.{
  dr_new, dr_stake, dr_unstake, dr_finalize, dr_claim, dr_get_expect, dr_get_expect_active,
  dr_get_expect_finalized, unstake, payout,
}
use oracle_monorepo_near.Oracle.Consistency.{IsPriced, IsConsistent}
use oracle_monorepo_near.Oracle.Consistency.Steps.{
  empty_storage, Step, requested, staked, unstaked, timed_out, claimed, ArePriced, WerePriced,
  Reachable, created, called,
}
use oracle_monorepo_near.Oracle.Consistency.History.{
  Reachable-IsConsistent, Reachable-claims_covered,
}
use oracle_monorepo_near.Oracle.Treasury.{Account, account, flow}
use oracle_monorepo_near.Oracle.Examples.Worlds.{
  yea, nay, env, env_of, config, request, settled, round1,
}
use oracle_monorepo_near.Oracle.Views.{DataRequestSummary, get_requests, get_request_by_id}
use oracle_monorepo_near.Oracle.Views.Pages.{get_requests_lem}
use oracle_monorepo_near.Oracle.Consistency.Settlement.{dr_finalize-returns}
use oracle_monorepo_near.Oracle.Finalized.Payouts.{claim_all}
use oracle_monorepo_near.Oracle.Finalized.Totals.{correct_bonds, incorrect_bonds}

abbrev pub question : NewDataRequestArgs
question = record {
  sources = some [];
  outcomes = some ("yes" ∷ "no" ∷ []);
  challenge_period = 1000;
  description = some "d";
  tags = [];
  data_type = DataRequestDataType.string;
  provider = none;
}

abbrev pub token : Env
token = env_of "token.near"

abbrev pub later : Env
later = record env { block_timestamp = 9000 }

pub w0 : World
unfolding Configuration.new Whitelisting.new log_oracle_config
w0 = Configuration.new env none config empty_storage

pub after : World → Result (Balance × World) → World
after w (ok r) = r.1
after w (err e) = w

pub w1 : World
unfolding w0 after dr_new assert_unpaused get_config last_config_id checked_sub checked_mul
    assert_whitelisted assert_sender dr_validate whitelist_get_expect new_no_whitelist Active.new
    log_new_data_request
w1 = after w0 (dr_new token "asker.near" 200 question w0)

pub after_stake_call : World → Result (PromiseOrValue Balance × World) → World
after_stake_call w (ok r) = r.1
after_stake_call w (err e) = w

pub stake_by : AccountId → Outcome → Balance → World → World
unfolding after_stake_call dr_stake assert_unpaused dr_get_expect_active assert_sender
    assert_final_arbitrator_not_invoked assert_can_stake_on_outcome assert_valid_outcome
    check_listed assert_valid_outcome_type check_type Active.stake window_to_stake Window.stake
    settle record_stakes stake_on user_stake_on checked_sub checked_add checked_mul
    log_outcome_to_stake log_user_stake log_stake_transaction log_resolution_window write_window
    after_stake invoke_final_arbitrator push_next_window Window.new write_stakes
    get_user_to_outcomes get insert calc_resolution_bond multiply_stake
    log_update_active_data_request
stake_by a o x w = after_stake_call w (dr_stake token a x (record { id = 0; outcome = o }) w)

-- Alice fills the first bond of 200 and gets 100 back.
pub w2 : World
unfolding w1 stake_by
w2 = stake_by "alice.near" yea 300 w1

pub w3 : World
unfolding w2
w3 = stake_by "bob.near" nay 50 w2

pub after_call : World → Result World → World
after_call w (ok r) = r
after_call w (err e) = w

pub w4 : World
unfolding w3 after_call dr_unstake assert_unpaused dr_get_expect unstake Window.unstake
    record_stakes stake_on user_stake_on checked_sub log_outcome_to_stake log_user_stake
    log_unstake_transaction write_stakes get_user_to_outcomes get insert refund_storage checked_mul
    checked_add log_update_active_data_request fungible_token_transfer
w4 = after_call w3 (dr_unstake (env_of "bob.near") 0 1 nay 20 w3)

pub w5 : World
unfolding w4 dr_finalize get_final_outcome assert_can_finalize log_update_finalized_data_request
    Finalized.return_validity_bond trim_dr
w5 = after_call w4 (dr_finalize later 0 w4)

pub w6 : World
unfolding w5 dr_claim dr_get_expect_finalized claim claim_windows add_result share calc_product
    log_claim Window.claim_for take_user_stake remove payout
w6 = after_call w5 (dr_claim later "alice.near" 0 w5)

pub dispute : Reachable w4
unfolding w4
dispute =
    called
      (called
        (called
          (called (created {w = w0} env none config refl)
            (requested token "asker.near" 200 question 0 refl))
          (staked token "alice.near" 300 (record { id = 0; outcome = yea }) (value 100) refl))
        (staked token "bob.near" 50 (record { id = 0; outcome = nay }) (value 0) refl))
      (unstaked (env_of "bob.near") 0 1 nay 20 refl)

pub verdict : Reachable w5
unfolding w5
verdict = called dispute (timed_out later 0 refl)

-- The request before and after its end.
pub disputed_dr : ActiveDataRequest
unfolding w4
disputed_dr = elim (get_elem? w4.contract.data_requests 0) [
  | some (active d) ↦ d
  | some (finalized d) ↦ request []
  | none ↦ request []
]

pub second : ResolutionWindow
unfolding disputed_dr
second = elim (get_elem? disputed_dr.resolution_windows 1) [ some x ↦ x | none ↦ round1 ]

pub alice_claims : Step w5 w6
unfolding w6
alice_claims = claimed later "alice.near" 0 refl

pub history : Reachable w6
unfolding alice_claims
history = called verdict alice_claims
