-- ===== src/System/Examples.antt =====
-- A history of the token contract (token/src) and the oracle (oracle/src): Alice asks, stakes more than
-- the bond, gets the rest back, and the request is finalized.
mod Tokens
mod Theorems
use oracle_monorepo_near.Base.{
  get_elem?, ℕ, ◌+◌, ◌<◌, ◌≤◌, ◌≡◌, ◌≢◌, refl, false, true, Option, none, some, List, [], ◌∷◌, ◌++◌,
  arith, String, String_eq, ◌==◌, ==_false, sum_by, length, if◌then◌else◌,
}
use oracle_monorepo_near.Near.{
  Result, ok, err, get, insert, remove, checked_mul, checked_sub, checked_add,
}
use oracle_monorepo_near.Token.State.{
  TokenContract, Env as TokenEnv, PromiseResult, on_transfer_then_resolve, new,
}
use oracle_monorepo_near.Token.Internal.{
  internal_transfer, internal_withdraw, internal_deposit, assert_one_yocto, assert_self,
}
use oracle_monorepo_near.Token.Core.{
  ft_transfer, ft_transfer_call, ft_resolve_transfer, ft_balance_of, refund, unused_amount,
}
use oracle_monorepo_near.Token.Wrap.{near_deposit}
use oracle_monorepo_near.Token.Registration.{
  AccountStorageBalance, storage_deposit, storage_minimum_balance,
}
use oracle_monorepo_near.Token.History as TokenHistory
use oracle_monorepo_near.Oracle.Types.{
  FinalizedDataRequest, active, finalized, AccountId, Balance, Env, World, Promise, Payload,
  PromiseOrValue, value,
}
use oracle_monorepo_near.Oracle.Logger.{
  log_oracle_config, log_new_data_request, log_resolution_window, log_outcome_to_stake,
  log_user_stake, log_stake_transaction, log_unstake_transaction, log_update_active_data_request,
  log_update_finalized_data_request, log_claim,
}
use oracle_monorepo_near.Oracle.Helpers.{
  multiply_stake, refund_storage, calc_product, fungible_token_transfer,
}
use oracle_monorepo_near.Oracle.Access.{get_config, last_config_id, assert_unpaused, assert_sender}
use oracle_monorepo_near.Oracle.Configuration
use oracle_monorepo_near.Oracle.Whitelisting
use oracle_monorepo_near.Oracle.Whitelisting.{
  assert_whitelisted, whitelist_get_expect, new_no_whitelist,
}
use oracle_monorepo_near.Oracle.Validation.{dr_validate}
use oracle_monorepo_near.Oracle.Window
use oracle_monorepo_near.Oracle.Window.{
  write_stakes, get_user_to_outcomes, stake_on, user_stake_on, record_stakes, settle,
  take_user_stake,
}
use oracle_monorepo_near.Oracle.Active
use oracle_monorepo_near.Oracle.Active.{
  calc_resolution_bond, window_to_stake, write_window, invoke_final_arbitrator, push_next_window,
  after_stake, get_final_outcome,
}
use oracle_monorepo_near.Oracle.Guards.{
  assert_can_finalize, assert_valid_outcome, assert_valid_outcome_type, assert_can_stake_on_outcome,
  assert_final_arbitrator_not_invoked, check_listed, check_type,
}
use oracle_monorepo_near.Oracle.Finalized
use oracle_monorepo_near.Oracle.Finalized.{trim_dr, claim, claim_windows, add_result, share}
use oracle_monorepo_near.Oracle.Handlers.{
  dr_new, dr_stake, dr_unstake, dr_finalize, dr_claim, dr_get_expect, dr_get_expect_active,
  dr_get_expect_finalized, unstake, payout,
}
use oracle_monorepo_near.Oracle.Finalized.Payouts.{claim_all}
use oracle_monorepo_near.Oracle.Finalized.Totals.{correct_bonds, incorrect_bonds}
use oracle_monorepo_near.Oracle.Receiver.{ft_on_transfer, dispatch, ft_dr_new_callback}
use oracle_monorepo_near.Oracle.Accounts.{use_storage, get_storage_account}
use oracle_monorepo_near.Oracle.Examples.Worlds.{settled, yea, env, env_of, config}
use oracle_monorepo_near.Oracle.Examples.Histories.{question, later}
use oracle_monorepo_near.Oracle.Consistency.Steps.{empty_storage, timed_out}
use oracle_monorepo_near.System.{
  System, Transfer, Answer, unused, first, Reports, Step, transferred, received, resolved,
  oracle_called, Reachable, created, continued, IsOrderly,
}
use oracle_monorepo_near.System.Examples.Tokens.{
  ok_or, alice, oracle, by, payload_of, host, registering, none_yet, c0, c1, c2, c3, paid_for,
  token_history, asked, staked, c4, c5, c6,
}

ended : World → Result (PromiseOrValue Balance × World) → World
ended w (ok r) = r.1
ended w (err e) = w

pub v0 : World
unfolding Configuration.new Whitelisting.new log_oracle_config
v0 = Configuration.new env none config empty_storage

pub v1 : World
unfolding v0 ended ft_on_transfer dispatch ft_dr_new_callback use_storage get_storage_account dr_new
    assert_unpaused get_config last_config_id checked_sub checked_mul checked_add assert_whitelisted
    assert_sender dr_validate whitelist_get_expect new_no_whitelist Active.new log_new_data_request
    get insert
v1 = ended v0 (ft_on_transfer host alice 200 "ask" v0)

pub v2 : World
unfolding v1 dr_stake dr_get_expect_active assert_final_arbitrator_not_invoked
    assert_can_stake_on_outcome assert_valid_outcome check_listed assert_valid_outcome_type
    check_type Active.stake window_to_stake Window.stake settle record_stakes stake_on user_stake_on
    log_outcome_to_stake log_user_stake log_stake_transaction log_resolution_window write_window
    after_stake invoke_final_arbitrator push_next_window Window.new write_stakes
    get_user_to_outcomes calc_resolution_bond multiply_stake log_update_active_data_request
v2 = ended v1 (ft_on_transfer host alice 300 "yes" v1)

pub v3 : World
unfolding v2 dr_finalize get_final_outcome assert_can_finalize log_update_finalized_data_request
    Finalized.return_validity_bond trim_dr refund_storage fungible_token_transfer
v3 = ok_or v2 (dr_finalize later 0 v2)

abbrev pub answer_of : Transfer → Balance → Answer
answer_of t u = record { transfer = t; unspent = some u }

pub answered : System
answered = record {
  token = c5;
  oracle = v2;
  incoming = [];
  answers = answer_of asked 0 ∷ answer_of staked 100 ∷ [];
}

pub finished : System
finished = record { token = c6; oracle = v3; incoming = []; answers = answer_of asked 0 ∷ [] }

pub finished_dr : FinalizedDataRequest
unfolding v3
finished_dr = elim (get_elem? v3.contract.data_requests 0) [
  | some (finalized d) ↦ d
  | some (active d) ↦ settled
  | none ↦ settled
]

pub answered_history : Reachable "token.near" oracle answered
unfolding answered v2 c5
answered_history =
    continued {s' = answered}
      (continued
        {s' = record answered {
          oracle = v1;
          incoming = staked ∷ [];
          answers = answer_of asked 0 ∷ [];
        }}
        (continued
          {s' = record answered { token = c4; oracle = v1; answers = answer_of asked 0 ∷ [] }}
          (continued
            {s' = record answered { token = c4; oracle = v0; incoming = asked ∷ []; answers = [] }}
            (created {s = record answered { token = c3; oracle = v0; answers = [] }} c3 env none
              config token_history refl)
            (transferred (by alice 1 PromiseResult.not_ready) 200 "ask" 0 c4 refl refl))
          (received host [] [] asked 0 v1 refl refl refl refl))
        (transferred (by alice 1 PromiseResult.not_ready) 300 "yes" 0 c5 refl refl))
      (received host [] [] staked 100 v2 refl refl refl refl)

pub finished_history : Reachable "token.near" oracle finished
unfolding finished answered v3 c6
finished_history =
    continued {s' = finished}
      (continued {s' = record finished { oracle = v2 }} answered_history (
        resolved (by "token.near" 0 (PromiseResult.successful [])) (answer_of asked 0 ∷ []) []
          (answer_of staked 100) 200 c6 refl ([], refl, refl) refl refl))
      (oracle_called v3 (timed_out later 0 refl) refl)
