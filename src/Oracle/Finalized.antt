-- ===== src/Oracle/Finalized.antt =====
-- `FinalizedDataRequest` of oracle/src/data_request.rs.
pub mod Totals
pub mod Claims
pub mod Shares
pub mod Solvency
pub mod Payouts
pub mod Fairness
pub mod Payoff
use oracle_monorepo_near.Base.{Bool, false, List, [], ◌∷◌, nat_eq, if◌then◌else◌}
use oracle_monorepo_near.Near.{Result, ok, ◌>>=◌, checked_add, u128_mod}
use oracle_monorepo_near.Oracle.Types.{
  AccountId, Balance, Outcome, answer, invalid, ResolutionWindow, WindowStakeResult, correct,
  incorrect, no_result, ActiveDataRequest, FinalizedDataRequest, ClaimRes, Env, Storage, Stakes,
  PromiseOrValue, promise, value,
}
use oracle_monorepo_near.Oracle.Helpers.{calc_product, fungible_token_transfer}
use oracle_monorepo_near.Oracle.Logger.{log_claim}
use oracle_monorepo_near.Oracle.Window

unfoldable pub finalize : FinalizedDataRequest → Outcome → FinalizedDataRequest
finalize dr final_outcome = record dr { finalized_outcome = final_outcome }

-- `Contract::trim_dr`
unfoldable pub trim_dr : ActiveDataRequest → Outcome → FinalizedDataRequest
trim_dr dr finalized_outcome = record {
  id = dr.id;
  finalized_outcome = finalized_outcome;
  resolution_windows = dr.resolution_windows;
  global_config_id = dr.global_config_id;
  paid_fee = dr.request_config.paid_fee;
}

-- An answer gives the bond back to the requester, an invalid request does not.
unfoldable pub return_validity_bond :
    FinalizedDataRequest → AccountId → AccountId → Balance → PromiseOrValue Bool
unfolding fungible_token_transfer
return_validity_bond dr token requester validity_bond = elim dr.finalized_outcome [
  | answer _ ↦ promise (fungible_token_transfer token requester validity_bond)
  | invalid ↦ value false
]

-- The counters of `claim`.
pub record ClaimTotals : Type 0 where
  pub total_correct_staked : Balance
  pub total_incorrect_staked : Balance
  pub user_correct_stake : Balance

abbrev pub no_totals : ClaimTotals
no_totals = record { total_correct_staked = 0; total_incorrect_staked = 0; user_correct_stake = 0 }

unfoldable pub add_result : WindowStakeResult → ClaimTotals → Result ClaimTotals
add_result (correct c) n = do
  total ← checked_add u128_mod n.total_correct_staked c.bonded_stake
  user ← checked_add u128_mod n.user_correct_stake c.user_stake
  ok (record n { total_correct_staked = total; user_correct_stake = user })
add_result (incorrect x) n = do
  total ← checked_add u128_mod n.total_incorrect_staked x
  ok (record n { total_incorrect_staked = total })
add_result no_result n = ok n

-- The loop over the windows. `claim_for` leaves the window struct as it is, so `replace` writes back
-- what `get` read, and the list of windows stays.
unfoldable pub claim_windows :
    AccountId
    → Outcome
    → List ResolutionWindow
    → ClaimTotals
    → Stakes
    → Result (ClaimTotals × Stakes)
claim_windows account_id final_outcome [] n t = ok (n, t)
claim_windows account_id final_outcome (w ∷ ws) n t = do
  let (stake_state, t') = Window.claim_for w account_id final_outcome t
  n' ← add_result stake_state n
  claim_windows account_id final_outcome ws n' t'

-- `match total_correct_staked { 0 => 0, _ => calc_product(user_correct_stake, pot, …) }`
unfoldable pub share : Balance → Balance → Balance → Result Balance
share user_correct_stake pot total_correct_staked =
    if nat_eq total_correct_staked 0
    then ok 0
    else calc_product user_correct_stake pot total_correct_staked

unfoldable pub claim :
    Env → FinalizedDataRequest → AccountId → Storage → Result (ClaimRes × Storage)
claim env dr account_id s = do
  (n, t) ← claim_windows account_id dr.finalized_outcome dr.resolution_windows no_totals s.stakes
  stake_profit ← share n.user_correct_stake n.total_incorrect_staked n.total_correct_staked
  fee_profit ← share n.user_correct_stake dr.paid_fee n.total_correct_staked
  let logged =
      log_claim env account_id dr.id n.total_correct_staked n.total_incorrect_staked
        n.user_correct_stake stake_profit fee_profit (record s { stakes = t })
  stake_token_payout ← checked_add u128_mod n.user_correct_stake stake_profit
  ok (record { payment_token_payout = fee_profit; stake_token_payout = stake_token_payout }, logged)
