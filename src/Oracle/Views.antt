-- ===== src/Oracle/Views.antt =====
-- The views of `Contract` in oracle/src/data_request.rs, and the summaries of requests that they
-- return. A wrapper such as `U64` changes how JSON shows a number, and is left out.
pub mod Pages
use oracle_monorepo_near.Base.{
  ℕ, zero, suc, ◌+◌, ◌-◌, String, Bool, Option, none, some, List, [], ◌∷◌, map, ltb, if◌then◌else◌,
  min, true, false, length, get_elem?,
}
use oracle_monorepo_near.Near.{Result, ok, ◌>>=◌, expect, unwrap_on_none, checked_add, u64_mod}
use oracle_monorepo_near.Oracle.Types.{
  Balance, Outcome, DataRequestDataType, Requester, Source, ResolutionWindow, DataRequestConfig,
  ActiveDataRequest, FinalizedDataRequest, DataRequest, Contract,
}
use oracle_monorepo_near.Oracle.Handlers.{dr_get_expect_finalized}

pub record ResolutionWindowSummary : Type 0 where
  pub round : ℕ
  pub start_time : ℕ
  pub end_time : ℕ
  pub bond_size : Balance
  pub bonded_outcome : Option Outcome

pub record DataRequestConfigSummary : Type 0 where
  pub validity_bond : Balance
  pub paid_fee : Balance
  pub stake_multiplier : Option ℕ
  pub min_resolution_bond : Balance

pub record ActiveDataRequestSummary : Type 0 where
  pub id : ℕ
  pub description : Option String
  pub sources : List Source
  pub outcomes : Option (List String)
  pub requester : Requester
  pub resolution_windows : List ResolutionWindowSummary
  pub global_config_id : ℕ
  pub initial_challenge_period : ℕ
  pub final_arbitrator_triggered : Bool
  pub tags : List String
  pub data_type : DataRequestDataType
  pub request_config : DataRequestConfigSummary

pub record FinalizedDataRequestSummary : Type 0 where
  pub id : ℕ
  pub finalized_outcome : Outcome
  pub resolution_windows : List ResolutionWindowSummary
  pub global_config_id : ℕ
  pub paid_fee : Balance

pub data DataRequestSummary : Type 0 where
  active : ActiveDataRequestSummary → DataRequestSummary
  finalized : FinalizedDataRequestSummary → DataRequestSummary

-- The body of the loop over the windows, the same in both summaries.
unfoldable pub summarize_window : ResolutionWindow → ResolutionWindowSummary
summarize_window i = record {
  round = i.round;
  start_time = i.start_time;
  end_time = i.end_time;
  bond_size = i.bond_size;
  bonded_outcome = i.bonded_outcome;
}

unfoldable pub summarize_config : DataRequestConfig → DataRequestConfigSummary
summarize_config c = record {
  validity_bond = c.validity_bond;
  paid_fee = c.paid_fee;
  stake_multiplier = c.stake_multiplier;
  min_resolution_bond = c.min_resolution_bond;
}

-- `FinalizedDataRequest::summarize_dr`
unfoldable pub summarize_finalized : FinalizedDataRequest → FinalizedDataRequestSummary
summarize_finalized dr = record {
  id = dr.id;
  finalized_outcome = dr.finalized_outcome;
  resolution_windows = map summarize_window dr.resolution_windows;
  global_config_id = dr.global_config_id;
  paid_fee = dr.paid_fee;
}

-- `ActiveDataRequest::summarize_dr`
unfoldable pub summarize_active : ActiveDataRequest → ActiveDataRequestSummary
summarize_active dr = record {
  id = dr.id;
  description = dr.description;
  sources = dr.sources;
  outcomes = dr.outcomes;
  requester = dr.requester;
  resolution_windows = map summarize_window dr.resolution_windows;
  global_config_id = dr.global_config_id;
  initial_challenge_period = dr.initial_challenge_period;
  final_arbitrator_triggered = dr.final_arbitrator_triggered;
  tags = dr.tags;
  data_type = dr.data_type;
  request_config = summarize_config dr.request_config;
}

unfoldable pub summarize : DataRequest → DataRequestSummary
summarize (DataRequest.active d) = DataRequestSummary.active (summarize_active d)
summarize (DataRequest.finalized d) = DataRequestSummary.finalized (summarize_finalized d)

unfoldable pub dr_exists : ℕ → Contract → Bool
dr_exists id c = elim (get_elem? c.data_requests id) [ some d ↦ true | none ↦ false ]

unfoldable pub get_request_by_id : ℕ → Contract → Option DataRequestSummary
get_request_by_id id c = elim (get_elem? c.data_requests id) [
  | some d ↦ some (summarize d)
  | none ↦ none
]

unfoldable pub get_latest_request : Contract → Option DataRequestSummary
get_latest_request c =
    if ltb (length c.data_requests) 1
    then none
    else get_request_by_id (length c.data_requests - 1) c

unfoldable pub get_outcome : ℕ → Contract → Result Outcome
unfolding dr_get_expect_finalized
get_outcome dr_id c = do dr ← dr_get_expect_finalized dr_id c; ok dr.finalized_outcome

-- `.map(|index| self.data_requests.get(index).unwrap().summarize()).collect()` over `n` indices from
-- `i` on.
unfoldable pub collect_requests : ℕ → ℕ → Contract → Result (List DataRequestSummary)
collect_requests zero i c = ok []
collect_requests (suc n) i c = do
  d ← expect (get_elem? c.data_requests i) unwrap_on_none
  ds ← collect_requests n (suc i) c
  ok (summarize d ∷ ds)

-- The range ends at the smaller of `from_index + limit` and the number of requests.
unfoldable pub get_requests : ℕ → ℕ → Contract → Result (List DataRequestSummary)
get_requests from_index limit c = do
  end ← checked_add u64_mod from_index limit
  collect_requests (min end (length c.data_requests) - from_index) from_index c
