-- ===== src/Oracle/Types/Requests.antt =====
-- Resolution windows and data requests (oracle/src/resolution_window.rs, data_request.rs).
use oracle_monorepo_near.Base.{
  ℕ, String, Bool, Option, List, ◌≡◌, ◌↔◌, ◌&&◌, true, arith, Eq, ◌==◌, String_eq, nat_eq,
}
use oracle_monorepo_near.Oracle.Types.Answers.{AccountId, Balance, Outcome, DataRequestDataType}
use oracle_monorepo_near.Oracle.Types.Configs.{Requester}

-- The maps `outcome_to_stake` and `user_to_outcome_to_stake` of a window stand in the storage
-- under the prefixes `ots{dr_id}:{round}` and `utots{dr_id}:{round}`: see `Storage`.
pub record ResolutionWindow : Type 0 where
  pub dr_id : ℕ
  pub round : ℕ
  pub start_time : ℕ
  pub end_time : ℕ
  pub bond_size : Balance
  pub bonded_outcome : Option Outcome

pub record CorrectStake : Type 0 where
  pub bonded_stake : Balance
  pub user_stake : Balance

pub data WindowStakeResult : Type 0 where
  correct : CorrectStake → WindowStakeResult
  incorrect : Balance → WindowStakeResult
  no_result : WindowStakeResult

pub record Source : Type 0 where
  pub end_point : String
  pub source_path : String

pub record NewDataRequestArgs : Type 0 where
  pub sources : Option (List Source)
  pub outcomes : Option (List String)
  pub challenge_period : ℕ
  pub description : Option String
  pub tags : List String
  pub data_type : DataRequestDataType
  pub provider : Option AccountId

pub record StakeDataRequestArgs : Type 0 where
  pub id : ℕ
  pub outcome : Outcome

pub record DataRequestConfig : Type 0 where
  pub default_challenge_window_duration : ℕ
  pub final_arbitrator_invoke_amount : Balance
  pub final_arbitrator : AccountId
  pub validity_bond : Balance
  pub stake_multiplier : Option ℕ
  pub paid_fee : Balance
  pub min_resolution_bond : Balance

pub record ActiveDataRequest : Type 0 where
  pub id : ℕ
  pub sources : List Source
  pub outcomes : Option (List String)
  pub requester : Requester
  pub resolution_windows : List ResolutionWindow
  pub global_config_id : ℕ
  pub request_config : DataRequestConfig
  pub initial_challenge_period : ℕ
  pub final_arbitrator_triggered : Bool
  pub description : Option String
  pub tags : List String
  pub data_type : DataRequestDataType
  pub provider : Option AccountId

pub record FinalizedDataRequest : Type 0 where
  pub id : ℕ
  pub finalized_outcome : Outcome
  pub resolution_windows : List ResolutionWindow
  pub global_config_id : ℕ
  pub paid_fee : Balance

pub data DataRequest : Type 0 where
  active : ActiveDataRequest → DataRequest
  finalized : FinalizedDataRequest → DataRequest

pub record ClaimRes : Type 0 where
  pub payment_token_payout : Balance
  pub stake_token_payout : Balance

-- The prefix of a window's maps.
pub record WindowId : Type 0 where
  pub dr_id : ℕ
  pub round : ℕ

-- The prefix `utots:{dr_id}:{round}:{account}` of a user's map from outcomes to stakes.
pub record UserMap : Type 0 where
  pub window : WindowId
  pub account : AccountId

abbrev pub window_id_eq : WindowId → WindowId → Bool
window_id_eq v w = nat_eq v.dr_id w.dr_id && nat_eq v.round w.round

pub window_id_eq_iff : (v w : WindowId) → (window_id_eq v w ≡ true) ↔ (v ≡ w)
window_id_eq_iff v w = ground arith

instance abbrev pub WindowId_eq : Eq WindowId
WindowId_eq = record { beq = window_id_eq; beq_iff = window_id_eq_iff }

abbrev pub user_map_eq : UserMap → UserMap → Bool
user_map_eq v w = window_id_eq v.window w.window && (v.account == w.account)

pub user_map_eq_iff : (v w : UserMap) → (user_map_eq v w ≡ true) ↔ (v ≡ w)
user_map_eq_iff v w =
    ground (arith, window_id_eq_iff v.window w.window, String_eq.beq_iff v.account w.account)

instance abbrev pub UserMap_eq : Eq UserMap
UserMap_eq = record { beq = user_map_eq; beq_iff = user_map_eq_iff }
