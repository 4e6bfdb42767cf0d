-- ===== src/Oracle/Logger.antt =====
-- oracle/src/logger.rs: each function appends the log line that it writes.
use oracle_monorepo_near.Base.{ℕ, List, [], ◌∷◌, ◌++◌, Bool, true, false, Option, some}
use oracle_monorepo_near.Oracle.Types.{
  AccountId, Balance, Outcome, answer, invalid, AnswerType, OracleConfig, Requester,
  ActiveDataRequest, FinalizedDataRequest, ResolutionWindow, Log, TransactionType, Env, Storage,
}
use oracle_monorepo_near.Oracle.Helpers.{ns_to_ms}
use oracle_monorepo_near.Oracle.Decimal.{codes, decimal}

-- `env::log`
abbrev pub log : Log → Storage → Storage
log l s = record s { logs = s.logs ++ l ∷ [] }

unfoldable pub log_new_data_request : Env → ActiveDataRequest → Storage → Storage
log_new_data_request env request = log (
    Log.new_data_request request.id request.sources request.description request.outcomes
      request.requester request.requester.account_id request.initial_challenge_period
      request.final_arbitrator_triggered request.request_config.paid_fee
      request.request_config.stake_multiplier request.global_config_id request.tags
      (ns_to_ms env.block_timestamp) env.block_index request.data_type)

unfoldable pub log_update_active_data_request : ActiveDataRequest → Storage → Storage
log_update_active_data_request request = log (
    Log.active_data_request request.id request.sources request.outcomes request.requester
      request.initial_challenge_period request.final_arbitrator_triggered)

unfoldable pub log_update_finalized_data_request : FinalizedDataRequest → Storage → Storage
log_update_finalized_data_request request =
    log (Log.finalized_data_request request.id request.finalized_outcome)

unfoldable pub log_oracle_config : Env → OracleConfig → ℕ → Storage → Storage
log_oracle_config env config id =
    log (Log.oracle_config id config (ns_to_ms env.block_timestamp) env.block_index)

unfoldable pub log_resolution_window : Env → ResolutionWindow → Storage → Storage
log_resolution_window env window = log (
    Log.resolution_window window.dr_id window.round window.start_time window.end_time
      window.bond_size window.bonded_outcome (ns_to_ms env.block_timestamp) env.block_index)

abbrev bool_codes : Bool → List ℕ
bool_codes true = codes "true"
bool_codes false = codes "false"

-- `format!` of the outcome, as its characters.
unfoldable pub outcome_to_id : Outcome → List ℕ
unfolding decimal
outcome_to_id (answer (AnswerType.string str_ans)) = codes "ans_str_" ++ codes str_ans
outcome_to_id (answer (AnswerType.number num_ans)) =
    codes "ans_num_"
    ++ (decimal num_ans.value
        ++ (codes "_"
            ++ (decimal num_ans.multiplier ++ (codes "_" ++ bool_codes num_ans.negative))))
outcome_to_id invalid = codes "invalid"

unfoldable pub log_outcome_to_stake : ℕ → ℕ → Outcome → Balance → Storage → Storage
log_outcome_to_stake data_request_id round outcome total_stake =
    log (Log.outcome_stake (outcome_to_id outcome) data_request_id round outcome total_stake)

unfoldable pub log_user_stake : ℕ → ℕ → AccountId → Outcome → Balance → Storage → Storage
log_user_stake data_request_id round account_id outcome total_stake =
    log
      (Log.user_stake (outcome_to_id outcome) data_request_id round outcome account_id total_stake)

unfoldable pub log_claim :
    Env → AccountId → ℕ → Balance → Balance → Balance → Balance → Balance → Storage → Storage
log_claim env account_id data_request_id correct incorrect user_correct stake_profit fee_profit s =
    log
      (Log.claim account_id data_request_id correct incorrect user_correct stake_profit fee_profit
        (ns_to_ms env.block_timestamp) env.block_index)
      (log (Log.claimed_request data_request_id correct incorrect) s)

unfoldable pub log_whitelist : Env → Requester → Bool → Storage → Storage
log_whitelist env requester active =
    log (Log.whitelist requester active (ns_to_ms env.block_timestamp) env.block_index)

unfoldable pub log_transaction :
    Env
    → TransactionType
    → AccountId
    → ℕ
    → Option ℕ
    → Balance
    → Balance
    → Option (List ℕ)
    → Storage
    → Storage
log_transaction env tx_type account_id data_request_id round input output extra_info = log (
    Log.transaction tx_type account_id data_request_id round input output extra_info
      (ns_to_ms env.block_timestamp) env.block_index)

unfoldable pub log_stake_transaction :
    Env → AccountId → ResolutionWindow → Balance → Balance → Outcome → Storage → Storage
unfolding log_transaction
log_stake_transaction env account_id window amount_in amount_out outcome =
    log_transaction env TransactionType.stake account_id window.dr_id (some window.round) amount_in
      amount_out (some (outcome_to_id outcome))

unfoldable pub log_unstake_transaction :
    Env → AccountId → ResolutionWindow → Balance → Outcome → Storage → Storage
unfolding log_transaction
log_unstake_transaction env account_id window amount_out outcome =
    log_transaction env TransactionType.unstake account_id window.dr_id (some window.round) 0
      amount_out (some (outcome_to_id outcome))
