-- ===== src/Oracle/Active.antt =====
-- `ActiveDataRequest` of oracle/src/data_request.rs.
pub mod Chain
pub mod Rounds
pub mod Staking
pub mod Growth
pub mod Finality
pub mod Bond
use oracle_monorepo_near.Base.{
  ℕ, zero, suc, ◌-◌, ◌%◌, Bool, not, true, false, Option, none, some, List, [], ◌∷◌, ◌++◌, ltb, leb,
  nat_eq, if◌then◌else◌, ◌==◌, ◌||◌, ◌&&◌, String, String_eq, length, get_elem?, set,
}
use oracle_monorepo_near.Near.{
  Result, ok, err, ◌>>=◌, ◌>>◌, require, expect, unwrap_on_none, incompatible_outcome,
  outcome_not_string, wrong_outcome_type, wrong_multiplier, outcome_incompatible_for_round,
  still_in_progress, only_final_arbitrator, dispute_round_not_over, not_final_arbitrator,
  arbitrator_not_invoked, arbitrator_invoked, no_bonded_outcome_found, no_final_outcome, u16_mod,
}
use oracle_monorepo_near.Oracle.Types.{
  AccountId, Balance, Outcome, answer, invalid, AnswerType, DataRequestDataType, Outcome_eq,
  ResolutionWindow, Requester, OracleConfig, NewDataRequestArgs, ActiveDataRequest, Env, Storage,
}
use oracle_monorepo_near.Oracle.Helpers.{multiply_stake}
use oracle_monorepo_near.Oracle.Window

abbrev pub windows_len : ActiveDataRequest → ℕ
windows_len dr = length dr.resolution_windows

-- The first component has all fields but the windows from the arguments; no window is there yet.
unfoldable pub new :
    Requester → ℕ → ℕ → OracleConfig → Balance → NewDataRequestArgs → Result ActiveDataRequest
new requester id global_config_id config paid_fee request_data = do
  sources ← expect request_data.sources unwrap_on_none
  ok (record {
    id = id;
    sources = sources;
    outcomes = request_data.outcomes;
    requester = requester;
    resolution_windows = [];
    global_config_id = global_config_id;
    request_config = record {
      default_challenge_window_duration = config.default_challenge_window_duration;
      final_arbitrator_invoke_amount = config.final_arbitrator_invoke_amount;
      final_arbitrator = config.final_arbitrator;
      validity_bond = config.validity_bond;
      stake_multiplier = requester.stake_multiplier;
      paid_fee = paid_fee;
      min_resolution_bond = config.min_resolution_bond;
    };
    initial_challenge_period = request_data.challenge_period;
    final_arbitrator_triggered = false;
    description = request_data.description;
    tags = request_data.tags;
    data_type = request_data.data_type;
    provider = request_data.provider;
  })

unfoldable pub calc_resolution_bond : ActiveDataRequest → Result Balance
calc_resolution_bond dr =
    let c = dr.request_config in
    let base_bond = if leb c.validity_bond c.paid_fee then c.paid_fee else c.validity_bond in
    let res_bond =
      if ltb base_bond c.min_resolution_bond then c.min_resolution_bond else base_bond in
    multiply_stake res_bond c.stake_multiplier

-- The window that a stake goes to: a new one if there is none, else the last.
unfoldable pub window_to_stake :
    Env → ActiveDataRequest → Storage → Result (ResolutionWindow × Storage)
window_to_stake env dr s =
    if nat_eq (windows_len dr) 0
    then (do
      bond ← calc_resolution_bond dr
      Window.new env dr.id 0 bond dr.initial_challenge_period env.block_timestamp s)
    else (do
      window ← expect (get_elem? dr.resolution_windows (windows_len dr - 1)) unwrap_on_none
      ok (window, s))

-- The first window is pushed, another one replaces the last.
unfoldable pub write_window : ActiveDataRequest → ResolutionWindow → ActiveDataRequest
write_window dr window = record dr {
  resolution_windows =
      if nat_eq (windows_len dr) 0
      then dr.resolution_windows ++ window ∷ []
      else set dr.resolution_windows (windows_len dr - 1) window;
}

-- The second component tells whether the final arbitrator is triggered.
unfoldable pub invoke_final_arbitrator : ActiveDataRequest → Balance → ActiveDataRequest × Bool
invoke_final_arbitrator dr bond_size =
    let should_invoke = leb dr.request_config.final_arbitrator_invoke_amount bond_size in
    let dr' = if should_invoke then record dr { final_arbitrator_triggered = true } else dr in
    (dr', dr'.final_arbitrator_triggered)

-- The next window, after the bond of `window` is filled.
unfoldable pub push_next_window :
    Env → ActiveDataRequest → ResolutionWindow → Storage → Result (ActiveDataRequest × Storage)
push_next_window env dr window s = do
  let duration =
      if nat_eq (windows_len dr) 1
      then dr.initial_challenge_period
      else dr.request_config.default_challenge_window_duration
  (next, s') ←
      Window.new env dr.id (windows_len dr % u16_mod) window.bond_size duration env.block_timestamp
        s
  ok (record dr { resolution_windows = dr.resolution_windows ++ next ∷ [] }, s')

abbrev pub is_some : Option Outcome → Bool
is_some none = false
is_some (some _) = true

-- What follows the write of a window: the arbitrator or a new window, if the window is bonded.
unfoldable pub after_stake :
    Env → ActiveDataRequest → ResolutionWindow → Storage → Result (ActiveDataRequest × Storage)
unfolding invoke_final_arbitrator
after_stake env dr window s =
    if is_some window.bonded_outcome
    then (let (dr', triggered) = invoke_final_arbitrator dr window.bond_size in
        if triggered then ok (dr', s) else push_next_window env dr' window s)
    else ok (dr, s)

-- The first component is the amount that was not staked.
unfoldable pub stake :
    Env
    → ActiveDataRequest
    → AccountId
    → Outcome
    → Balance
    → Storage
    → Result (Balance × ActiveDataRequest × Storage)
stake env dr sender outcome amount s = do
  (window, s1) ← window_to_stake env dr s
  (unspent, window', s2) ← Window.stake env window sender outcome amount s1
  (dr', s3) ← after_stake env (write_window dr window') window' s2
  ok (unspent, dr', s3)

unfoldable pub get_final_outcome : ActiveDataRequest → Result Outcome
get_final_outcome dr = do
  require (leb 2 (windows_len dr)) no_bonded_outcome_found
  last_bonded_window ← expect (get_elem? dr.resolution_windows (windows_len dr - 2)) unwrap_on_none
  expect last_bonded_window.bonded_outcome no_final_outcome
