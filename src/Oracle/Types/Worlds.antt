-- ===== src/Oracle/Types/Worlds.antt =====
-- What a call of the oracle reads and writes: its environment, its struct, and what stands outside
-- the struct (maps in the storage, log lines, scheduled promises).
use oracle_monorepo_near.Base.{ℕ, String, Bool, Option, List}
use oracle_monorepo_near.Near.{LookupMap}
use oracle_monorepo_near.Oracle.Types.Answers.{AccountId, Balance, Outcome, DataRequestDataType}
use oracle_monorepo_near.Oracle.Types.Configs.{OracleConfig, Requester, Consts}
use oracle_monorepo_near.Oracle.Types.Requests.{
  Source, DataRequest, WindowId, UserMap, NewDataRequestArgs, StakeDataRequestArgs,
}

pub data TransactionType : Type 0 where
  stake unstake : TransactionType

-- The log lines of logger.rs: one constructor for each JSON object, with its `params`. `date` and
-- `block_height` are the last two numbers where the object has them.
pub data Log : Type 0 where
  new_data_request :
      (id : ℕ) (sources : List Source) (description : Option String)
      (outcomes : Option (List String)) (requester : Requester) (requester_account_id : AccountId)
      (initial_challenge_period : ℕ) (final_arbitrator_triggered : Bool) (paid_fee : Balance)
      (stake_multiplier : Option ℕ) (global_config_id : ℕ) (tags : List String)
      (date block_height : ℕ) (data_type : DataRequestDataType)
      → Log
  active_data_request :
      (id : ℕ) (sources : List Source) (outcomes : Option (List String)) (requester : Requester)
      (initial_challenge_period : ℕ) (final_arbitrator_triggered : Bool)
      → Log
  finalized_data_request : (id : ℕ) (finalized_outcome : Outcome) → Log
  oracle_config : (id : ℕ) (config : OracleConfig) (date block_height : ℕ) → Log
  resolution_window :
      (dr_id round start_time end_time : ℕ) (bond_size : Balance) (bonded_outcome : Option Outcome)
      (date block_height : ℕ)
      → Log
  outcome_stake :
      (outcome_id : List ℕ) (data_request_id round : ℕ) (outcome : Outcome) (total_stake : Balance)
      → Log
  user_stake :
      (outcome_id : List ℕ) (data_request_id round : ℕ) (outcome : Outcome) (account_id : AccountId)
      (total_stake : Balance)
      → Log
  claimed_request : (id : ℕ) (total_correct_bonded_staked total_incorrect_staked : Balance) → Log
  claim :
      (account_id : AccountId) (data_request_id : ℕ)
      (total_correct_bonded_staked total_incorrect_staked user_correct_stake : Balance)
      (payout fee_profit : Balance) (date block_height : ℕ)
      → Log
  whitelist : (requester : Requester) (active : Bool) (date block_height : ℕ) → Log
  transaction :
      (tx_type : TransactionType) (account_id : AccountId) (data_request_id : ℕ) (round : Option ℕ)
      (input output : Balance) (extra_info : Option (List ℕ)) (date block_height : ℕ)
      → Log

-- The promises that a call schedules. `p.then(q)` is `and_then p q`.
pub data Promise : Type 0 where
  transfer : AccountId → Balance → Promise
  ft_transfer : (token receiver : AccountId) (amount : Balance) → Promise
  set_outcome : (contract requester : AccountId) (outcome : Outcome) (tags : List String) → Promise
  and_then : Promise → Promise → Promise

pub data PromiseOrValue (A : Type 0) : Type 0 where
  promise : Promise → PromiseOrValue A
  value : A → PromiseOrValue A

-- The stakes of every window of every data request, in the storage of the contract. A window's map
-- is the part of it under the window's prefix, so every copy of the window struct that a vector
-- hands out reads and writes the same entries.
pub record Stakes : Type 0 where
  pub outcome_to_stake : LookupMap (WindowId × Outcome) Balance
  pub user_to_outcome_to_stake : LookupMap (WindowId × AccountId) UserMap
  pub user_stakes : LookupMap (UserMap × Outcome) Balance

pub record Storage : Type 0 where
  pub stakes : Stakes
  pub logs : List Log
  pub promises : List Promise

pub record AccountStorageBalance : Type 0 where
  pub total : Balance
  pub available : Balance

-- `None` allows every requester.
abbrev pub Whitelist : Type 0
Whitelist = Option (LookupMap AccountId Requester)

pub record Contract : Type 0 where
  pub whitelist : Whitelist
  pub configs : List OracleConfig
  pub data_requests : List DataRequest
  pub accounts : LookupMap AccountId AccountStorageBalance
  pub paused : Bool

pub record World : Type 0 where
  pub contract : Contract
  pub storage : Storage

-- `Payload` of fungible_token_receiver.rs.
pub data Payload : Type 0 where
  new_data_request : NewDataRequestArgs → Payload
  stake_data_request : StakeDataRequestArgs → Payload

-- What the host tells a call (`env::…`), and the JSON decoder. The bytes that a state occupies and
-- the gas used so far are the host's to say: functions of the state that nothing is assumed of.
pub record Env : Type 0 where
  pub predecessor_account_id : AccountId
  pub block_timestamp : ℕ
  pub block_index : ℕ
  pub attached_deposit : Balance
  pub prepaid_gas : ℕ
  pub used_gas : World → ℕ
  pub storage_usage : World → ℕ
  pub consts : Consts
  pub parse_payload : String → Option Payload
