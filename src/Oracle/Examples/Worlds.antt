-- ===== src/Oracle/Examples/Worlds.antt =====
-- Concrete values for the tests.
use oracle_monorepo_near.Base.{false, none, some, List, [], ◌∷◌}
use oracle_monorepo_near.Oracle.Types.{
  AccountId, Outcome, answer, AnswerType, DataRequestDataType, OracleConfig, Requester, Consts,
  ResolutionWindow, ActiveDataRequest, FinalizedDataRequest, active, finalized, Stakes, Storage,
  Contract, World, Env,
}

abbrev pub yea : Outcome
yea = answer (AnswerType.string "yes")

abbrev pub nay : Outcome
nay = answer (AnswerType.string "no")

abbrev pub consts : Consts
consts = record {
  max_sources = 8;
  max_tags = 8;
  min_outcomes = 2;
  min_period_multiplier = 3;
  max_resolution_fee_percentage = 50000;
  gas_base_transfer = 10;
  storage_price_per_byte = 10;
}

-- The host of these tests counts no bytes and no gas.
abbrev pub env_of : AccountId → Env
env_of caller = record {
  predecessor_account_id = caller;
  block_timestamp = 5000;
  block_index = 7;
  attached_deposit = 1;
  prepaid_gas = 1000;
  used_gas = λ w. 0;
  storage_usage = λ w. 0;
  consts = consts;
  parse_payload = λ s. none;
}

abbrev pub env : Env
env = env_of "alice.near"

abbrev pub config : OracleConfig
config = record {
  gov = "gov.near";
  final_arbitrator = "judge.near";
  payment_token = "token.near";
  stake_token = "token.near";
  validity_bond = 100;
  max_outcomes = 8;
  default_challenge_window_duration = 1000;
  min_initial_challenge_window_duration = 1000;
  final_arbitrator_invoke_amount = 1000;
  fee = record {
    flux_market_cap = 50000;
    total_value_staked = 10000;
    resolution_fee_percentage = 10000;
  };
  min_resolution_bond = 100;
}

abbrev pub no_stakes : Stakes
no_stakes = record { outcome_to_stake = []; user_to_outcome_to_stake = []; user_stakes = [] }

abbrev pub storage_of : Stakes → Storage
storage_of t = record { stakes = t; logs = []; promises = [] }

abbrev pub round0 : ResolutionWindow
round0 = record {
  dr_id = 0;
  round = 0;
  start_time = 0;
  end_time = 1000;
  bond_size = 200;
  bonded_outcome = none;
}

abbrev pub bonded0 : ResolutionWindow
bonded0 = record round0 { bonded_outcome = some yea }

abbrev pub round1 : ResolutionWindow
round1 = record round0 { round = 1; bond_size = 400; end_time = 2000 }

abbrev pub bonded1 : ResolutionWindow
bonded1 = record round1 { bonded_outcome = some nay }

abbrev pub bonded2 : ResolutionWindow
bonded2 = record round1 { round = 2; bond_size = 800; bonded_outcome = some yea }

abbrev pub requester : Requester
requester = record {
  contract_name = "r";
  account_id = "requester.near";
  stake_multiplier = none;
  code_base_url = none;
}

abbrev pub request : List ResolutionWindow → ActiveDataRequest
request ws = record {
  id = 0;
  sources = [];
  outcomes = some ("yes" ∷ "no" ∷ []);
  requester = requester;
  resolution_windows = ws;
  global_config_id = 0;
  request_config = record {
    default_challenge_window_duration = 1000;
    final_arbitrator_invoke_amount = 1000;
    final_arbitrator = "judge.near";
    validity_bond = 100;
    stake_multiplier = none;
    paid_fee = 100;
    min_resolution_bond = 100;
  };
  initial_challenge_period = 1000;
  final_arbitrator_triggered = false;
  description = some "d";
  tags = [];
  data_type = DataRequestDataType.string;
  provider = some "provider.near";
}

abbrev pub settled : FinalizedDataRequest
settled = record {
  id = 0;
  finalized_outcome = yea;
  resolution_windows = bonded0 ∷ bonded1 ∷ bonded2 ∷ [];
  global_config_id = 0;
  paid_fee = 100;
}

abbrev pub contract_of : ActiveDataRequest → Contract
contract_of dr = record {
  whitelist = none;
  configs = config ∷ [];
  data_requests = active dr ∷ finalized settled ∷ [];
  accounts = [];
  paused = false;
}

abbrev pub world_of : ActiveDataRequest → World
world_of dr = record { contract = contract_of dr; storage = storage_of no_stakes }
