-- ===== src/Oracle/Types/Configs.antt =====
-- Configuration of the oracle and its requesters (oracle/src/oracle_config.rs, whitelist.rs).
use oracle_monorepo_near.Base.{ℕ, String, Option}
use oracle_monorepo_near.Oracle.Types.Answers.{AccountId, Balance}

pub record FeeConfig : Type 0 where
  pub flux_market_cap : Balance
  pub total_value_staked : Balance
  pub resolution_fee_percentage : ℕ

pub record OracleConfig : Type 0 where
  pub gov : AccountId
  pub final_arbitrator : AccountId
  pub payment_token : AccountId
  pub stake_token : AccountId
  pub validity_bond : Balance
  pub max_outcomes : ℕ
  pub default_challenge_window_duration : ℕ
  pub min_initial_challenge_window_duration : ℕ
  pub final_arbitrator_invoke_amount : Balance
  pub fee : FeeConfig
  pub min_resolution_bond : Balance

pub record Requester : Type 0 where
  pub contract_name : String
  pub account_id : AccountId
  pub stake_multiplier : Option ℕ
  pub code_base_url : Option String

-- The limits that flux_sdk fixes; the contract reads them and does not define them.
pub record Consts : Type 0 where
  pub max_sources : ℕ
  pub max_tags : ℕ
  pub min_outcomes : ℕ
  pub min_period_multiplier : ℕ
  pub max_resolution_fee_percentage : ℕ
  pub gas_base_transfer : ℕ
  -- `env::STORAGE_PRICE_PER_BYTE` of near_sdk
  pub storage_price_per_byte : Balance
