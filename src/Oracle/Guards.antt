-- ===== src/Oracle/Guards.antt =====
-- The checks of `ActiveDataRequestView` in oracle/src/data_request.rs: each returns or panics.
pub mod Listed
use oracle_monorepo_near.Base.{
  ◌-◌, Bool, not, false, Option, none, some, List, [], ◌∷◌, ltb, leb, nat_eq, if◌then◌else◌, ◌==◌,
  ◌||◌, String, String_eq, get_elem?,
}
use oracle_monorepo_near.Near.{
  Result, ok, err, ◌>>=◌, ◌>>◌, require, expect, unwrap_on_none, incompatible_outcome,
  outcome_not_string, wrong_outcome_type, wrong_multiplier, outcome_incompatible_for_round,
  still_in_progress, only_final_arbitrator, dispute_round_not_over, not_final_arbitrator,
  arbitrator_not_invoked, arbitrator_invoked,
}
use oracle_monorepo_near.Oracle.Types.{
  Outcome, answer, invalid, AnswerType, DataRequestDataType, Outcome_eq, ActiveDataRequest, Env,
}
use oracle_monorepo_near.Oracle.Active.{windows_len}

abbrev pub contains : String → List String → Bool
contains x [] = false
contains x (y ∷ ys) = (y == x) || contains x ys

-- The `match` on the list of outcomes and the outcome.
unfoldable pub check_listed : Option (List String) → Outcome → Result (Unit {0})
check_listed (some outcomes) (answer (AnswerType.string s)) =
    require (contains s outcomes) incompatible_outcome
check_listed (some outcomes) (answer (AnswerType.number n)) = err outcome_not_string
check_listed (some outcomes) invalid = ok tt
check_listed none outcome = ok tt

unfoldable pub assert_valid_outcome : ActiveDataRequest → Outcome → Result (Unit {0})
unfolding check_listed
assert_valid_outcome dr outcome = check_listed dr.outcomes outcome

-- The `match` on the outcome and the type of the request.
unfoldable pub check_type : DataRequestDataType → Outcome → Result (Unit {0})
check_type DataRequestDataType.string (answer (AnswerType.string s)) = ok tt
check_type (DataRequestDataType.number m) (answer (AnswerType.string s)) = err wrong_outcome_type
check_type DataRequestDataType.string (answer (AnswerType.number n)) = err wrong_outcome_type
check_type (DataRequestDataType.number m) (answer (AnswerType.number n)) =
    require (nat_eq m n.multiplier) wrong_multiplier
check_type t invalid = ok tt

unfoldable pub assert_valid_outcome_type : ActiveDataRequest → Outcome → Result (Unit {0})
unfolding check_type
assert_valid_outcome_type dr outcome = check_type dr.data_type outcome

unfoldable pub assert_can_stake_on_outcome : ActiveDataRequest → Outcome → Result (Unit {0})
assert_can_stake_on_outcome dr outcome =
    if ltb 1 (windows_len dr)
    then (do
      last_window ← expect (get_elem? dr.resolution_windows (windows_len dr - 2)) unwrap_on_none
      bonded ← expect last_window.bonded_outcome unwrap_on_none
      require (not (bonded == outcome)) outcome_incompatible_for_round)
    else ok tt

unfoldable pub assert_can_finalize : Env → ActiveDataRequest → Result (Unit {0})
assert_can_finalize env dr = do
  require (ltb 0 (windows_len dr)) still_in_progress
  window ← expect (get_elem? dr.resolution_windows (windows_len dr - 1)) unwrap_on_none
  require (not dr.final_arbitrator_triggered) only_final_arbitrator
  require (leb window.end_time env.block_timestamp) dispute_round_not_over

unfoldable pub assert_final_arbitrator : Env → ActiveDataRequest → Result (Unit {0})
assert_final_arbitrator env dr =
    require (dr.request_config.final_arbitrator == env.predecessor_account_id) not_final_arbitrator

unfoldable pub assert_final_arbitrator_invoked : ActiveDataRequest → Result (Unit {0})
assert_final_arbitrator_invoked dr = require dr.final_arbitrator_triggered arbitrator_not_invoked

unfoldable pub assert_final_arbitrator_not_invoked : ActiveDataRequest → Result (Unit {0})
assert_final_arbitrator_not_invoked dr =
    require (not dr.final_arbitrator_triggered) arbitrator_invoked
