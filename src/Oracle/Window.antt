-- ===== src/Oracle/Window.antt =====
-- oracle/src/resolution_window.rs.
pub mod Writes
pub mod Staking
pub mod Accounts
pub mod Claiming
use oracle_monorepo_near.Base.{
  ℕ, ◌-◌, Bool, not, true, Option, none, some, ltb, leb, nat_eq, if◌then◌else◌, ◌==◌, Pair_eq,
  String_eq,
}
use oracle_monorepo_near.Near.{
  Result, ok, ◌>>=◌, ◌>>◌, require, bonded_outcome_locked, less_staked_than_amount, checked_add,
  checked_sub, checked_mul, u64_mod, u128_mod, get, insert, remove, or_zero,
}
use oracle_monorepo_near.Oracle.Types.{
  AccountId, Balance, Outcome, ResolutionWindow, WindowStakeResult, correct, incorrect, no_result,
  Outcome_eq, WindowId_eq, UserMap_eq, WindowId, UserMap, Env, Storage, Stakes,
}
use oracle_monorepo_near.Oracle.Logger.{
  log_resolution_window, log_outcome_to_stake, log_user_stake, log_stake_transaction,
  log_unstake_transaction,
}

-- The prefix of the window's maps.
abbrev pub window_id : ResolutionWindow → WindowId
window_id w = record { dr_id = w.dr_id; round = w.round }

-- `ResolutionWindowHandler::new`; its two maps are empty, so nothing is stored for them.
unfoldable pub new : Env → ℕ → ℕ → Balance → ℕ → ℕ → Storage → Result (ResolutionWindow × Storage)
new env dr_id round prev_bond challenge_period start_time s = do
  end_time ← checked_add u64_mod start_time challenge_period
  bond_size ← checked_mul u128_mod prev_bond 2
  let window : ResolutionWindow = record {
    dr_id = dr_id;
    round = round;
    start_time = start_time;
    end_time = end_time;
    bond_size = bond_size;
    bonded_outcome = none;
  }
  ok (window, log_resolution_window env window s)

-- The user's map: the one that is registered, or a new one under the user's prefix.
unfoldable pub get_user_to_outcomes : ResolutionWindow → AccountId → Stakes → UserMap
get_user_to_outcomes w sender t = elim (get (window_id w, sender) t.user_to_outcome_to_stake) [
  | some registered ↦ registered
  | none ↦ record { window = window_id w; account = sender }
]

-- `outcome_to_stake.get(outcome).unwrap_or(0)`
unfoldable pub stake_on : ResolutionWindow → Outcome → Stakes → Balance
stake_on w outcome t = or_zero (get (window_id w, outcome) t.outcome_to_stake)

-- `get_user_to_outcomes(sender).get(outcome).unwrap_or(0)`
unfoldable pub user_stake_on : ResolutionWindow → AccountId → Outcome → Stakes → Balance
user_stake_on w sender outcome t =
    or_zero (get (get_user_to_outcomes w sender t, outcome) t.user_stakes)

-- The three writes of `stake` and `unstake`.
unfoldable pub write_stakes :
    ResolutionWindow → AccountId → Outcome → Balance → Balance → Stakes → Stakes
write_stakes w sender outcome on_outcome of_user t =
    let map = get_user_to_outcomes w sender t in
    record {
      outcome_to_stake = insert (window_id w, outcome) on_outcome t.outcome_to_stake;
      user_to_outcome_to_stake = insert (window_id w, sender) map t.user_to_outcome_to_stake;
      user_stakes = insert (map, outcome) of_user t.user_stakes;
    }

-- The new stakes with the log lines of the two writes.
unfoldable pub record_stakes :
    ResolutionWindow → AccountId → Outcome → Balance → Balance → Storage → Storage
unfolding log_outcome_to_stake log_user_stake
record_stakes w sender outcome on_outcome of_user s =
    log_user_stake w.dr_id w.round sender outcome of_user (
      log_outcome_to_stake w.dr_id w.round outcome on_outcome
        (record s { stakes = write_stakes w sender outcome on_outcome of_user s.stakes }))

-- What of `amount` exceeds the open part of the bond.
abbrev pub excess : Balance → Balance → Balance
excess amount stake_open = if ltb stake_open amount then amount - stake_open else 0

-- The stake that fills the bond decides the window's outcome.
unfoldable pub settle :
    Env → ResolutionWindow → Outcome → Balance → Storage → ResolutionWindow × Storage
settle env w outcome new_stake s =
    if nat_eq new_stake w.bond_size
    then (let bonded = record w { bonded_outcome = some outcome } in
        (bonded, log_resolution_window env bonded s))
    else (w, s)

-- The first component is the amount that was not staked.
unfoldable pub stake :
    Env
    → ResolutionWindow
    → AccountId
    → Outcome
    → Balance
    → Storage
    → Result (Balance × ResolutionWindow × Storage)
stake env w sender outcome amount s = do
  let stake_on_outcome = stake_on w outcome s.stakes
  let user_stake_on_outcome = user_stake_on w sender outcome s.stakes
  stake_open ← checked_sub w.bond_size stake_on_outcome
  let unspent = excess amount stake_open
  let staked = amount - unspent
  new_stake_on_outcome ← checked_add u128_mod stake_on_outcome staked
  new_user_stake_on_outcome ← checked_add u128_mod user_stake_on_outcome staked
  let written = record_stakes w sender outcome new_stake_on_outcome new_user_stake_on_outcome s
  let logged = log_stake_transaction env sender w amount unspent outcome written
  let (w', s') = settle env w outcome new_stake_on_outcome logged
  ok (unspent, w', s')

-- `bonded_outcome.is_none() || bonded_outcome.unwrap() != outcome`
abbrev pub may_withdraw : Option Outcome → Outcome → Bool
may_withdraw none outcome = true
may_withdraw (some bonded) outcome = not (bonded == outcome)

-- The first component is the amount that was taken out.
unfoldable pub unstake :
    Env → ResolutionWindow → AccountId → Outcome → Balance → Storage → Result (Balance × Storage)
unstake env w sender outcome amount s = do
  require (may_withdraw w.bonded_outcome outcome) bonded_outcome_locked
  let user_stake_on_outcome = user_stake_on w sender outcome s.stakes
  require (leb amount user_stake_on_outcome) less_staked_than_amount
  new_stake_on_outcome ← checked_sub (stake_on w outcome s.stakes) amount
  let new_user_stake_on_outcome = user_stake_on_outcome - amount
  let written = record_stakes w sender outcome new_stake_on_outcome new_user_stake_on_outcome s
  ok (amount, log_unstake_transaction env sender w amount outcome written)

-- `outcome_to_stake.remove(bonded_outcome).unwrap_or(0)` on the user's map, if one is registered.
unfoldable pub take_user_stake : ResolutionWindow → AccountId → Outcome → Stakes → Balance × Stakes
take_user_stake w account_id bonded t =
    elim (get (window_id w, account_id) t.user_to_outcome_to_stake) [
      | some registered ↦ (
        or_zero (get (registered, bonded) t.user_stakes),
        record t { user_stakes = remove (registered, bonded) t.user_stakes },
      )
      | none ↦ (0, t)
    ]

unfoldable pub claim_for :
    ResolutionWindow → AccountId → Outcome → Stakes → WindowStakeResult × Stakes
claim_for w account_id final_outcome t = elim w.bonded_outcome [
  | some bonded ↦
      (let (taken, t') = take_user_stake w account_id bonded t in
        if bonded == final_outcome
        then (correct (record { bonded_stake = w.bond_size; user_stake = taken }), t')
        else (incorrect w.bond_size, t))
  | none ↦ (no_result, t)
]
