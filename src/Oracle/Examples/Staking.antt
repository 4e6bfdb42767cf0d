-- ===== src/Oracle/Examples/Staking.antt =====
-- The theorems on windows and rounds at concrete inputs.
use oracle_monorepo_near.Base.{
  ℕ, ◌+◌, ◌≤◌, ◌≡◌, ◌≢◌, ◌⊎◌, refl, some, none, arith, nat_eq, if◌then◌else◌, String_eq,
}
use oracle_monorepo_near.Near.{ok, err, IsOk, get, insert, sum_where, checked_sub, checked_add}
use oracle_monorepo_near.Oracle.Types.{Outcome_eq, WindowId_eq, ResolutionWindow, Stakes, Storage}
use oracle_monorepo_near.Oracle.Logger.{
  log_resolution_window, log_outcome_to_stake, log_user_stake, log_stake_transaction,
  log_unstake_transaction,
}
use oracle_monorepo_near.Oracle.Window
use oracle_monorepo_near.Oracle.Window.{
  window_id, write_stakes, get_user_to_outcomes, stake_on, user_stake_on, record_stakes, settle,
}
use oracle_monorepo_near.Oracle.Window.Writes.{outcome_total, user_stake}
use oracle_monorepo_near.Oracle.Window.Staking.{IsSound, stake-returns}
use oracle_monorepo_near.Oracle.Window.Accounts.{
  write-IsSound, stake-accounts, stake-others, stake-IsSound, unstake-accounts, unstake-others,
  unstake-IsSound,
}
use oracle_monorepo_near.Oracle.Examples.Worlds.{
  yea, env, no_stakes, storage_of, round0, bonded0, round1,
}

pub no_stakes-IsSound : IsSound no_stakes
unfolding get sum_where
no_stakes-IsSound = record {
  canonical = λ v a m h. cc;
  registered = λ v a o h. refl;
  covered = λ v o. omega arith;
}

-- Alice has 150 of 200 on `yea`.
pub partly : Stakes
unfolding write_stakes get_user_to_outcomes get insert
partly = write_stakes round0 "alice.near" yea 150 150 no_stakes

pub partly-IsSound : IsSound partly
unfolding partly
partly-IsSound = write-IsSound round0 "alice.near" yea 150 150 no_stakes no_stakes-IsSound refl

-- She stakes 80 more, of which 50 fill the bond.
staked : ℕ × ResolutionWindow × Storage
unfolding partly Window.stake settle record_stakes stake_on user_stake_on checked_sub checked_add
    log_outcome_to_stake log_user_stake log_stake_transaction log_resolution_window
staked = elim (Window.stake env round0 "alice.near" yea 80 (storage_of partly)) [
  | ok r ↦ r
  | err e ↦ (0, round0, storage_of no_stakes)
]

staked_window : staked.1 ≡ bonded0
unfolding staked
staked_window = refl

-- She takes 30 back.
unstaked : ℕ × Storage
unfolding partly Window.unstake record_stakes stake_on user_stake_on checked_sub
    log_outcome_to_stake log_user_stake log_unstake_transaction
unstaked = elim (Window.unstake env round0 "alice.near" yea 30 (storage_of partly)) [
  | ok r ↦ r
  | err e ↦ (0, storage_of no_stakes)
]

stake-accounts_example :
    (outcome_total (window_id round0) yea staked.2.stakes + staked.0
      ≡ outcome_total (window_id round0) yea partly + 80)
    × (user_stake (window_id round0) "alice.near" yea staked.2.stakes + staked.0
        ≡ user_stake (window_id round0) "alice.near" yea partly + 80)
    × (outcome_total (window_id round0) yea staked.2.stakes ≤ 200)
    × ((staked.0 ≡ 0) ⊎ (outcome_total (window_id round0) yea staked.2.stakes ≡ 200))
    × (staked.1 ≡ (
        if nat_eq (outcome_total (window_id round0) yea staked.2.stakes) 200
        then record round0 { bonded_outcome = some yea }
        else round0))
unfolding staked
stake-accounts_example =
    stake-accounts env round0 "alice.near" yea 80 (storage_of partly) partly-IsSound
      {unspent = staked.0} {w' = staked.1} {s' = staked.2} refl

stake-others_example :
    (window_id round1 ≡ window_id round0) × (yea ≡ yea)
    ⊎ (outcome_total (window_id round1) yea staked.2.stakes
        ≡ outcome_total (window_id round1) yea partly)
unfolding staked
stake-others_example =
    (stake-others env round0 "alice.near" yea 80 (storage_of partly) partly-IsSound
        {unspent = staked.0} {w' = staked.1} {s' = staked.2} refl).0
      (window_id round1) yea

stake-IsSound_example : IsSound staked.2.stakes
unfolding staked
stake-IsSound_example =
    stake-IsSound env round0 "alice.near" yea 80 (storage_of partly) partly-IsSound
      {unspent = staked.0} {w' = staked.1} {s' = staked.2} refl

unstake-accounts_example :
    (unstaked.0 ≡ 30)
    × (outcome_total (window_id round0) yea unstaked.1.stakes + 30
        ≡ outcome_total (window_id round0) yea partly)
    × (user_stake (window_id round0) "alice.near" yea unstaked.1.stakes + 30
        ≡ user_stake (window_id round0) "alice.near" yea partly)
    × (none ≢ some yea)
unfolding unstaked
unstake-accounts_example =
    unstake-accounts env round0 "alice.near" yea 30 (storage_of partly) partly-IsSound
      {taken = unstaked.0} {s' = unstaked.1} refl

unstake-others_example :
    (window_id round1 ≡ window_id round0) × (yea ≡ yea)
    ⊎ (outcome_total (window_id round1) yea unstaked.1.stakes
        ≡ outcome_total (window_id round1) yea partly)
unfolding unstaked
unstake-others_example =
    (unstake-others env round0 "alice.near" yea 30 (storage_of partly) partly-IsSound
        {taken = unstaked.0} {s' = unstaked.1} refl).0
      (window_id round1) yea

unstake-IsSound_example : IsSound unstaked.1.stakes
unfolding unstaked
unstake-IsSound_example =
    unstake-IsSound env round0 "alice.near" yea 30 (storage_of partly) partly-IsSound
      {taken = unstaked.0} {s' = unstaked.1} refl

stake-returns_example : IsOk (Window.stake env round0 "alice.near" yea 80 (storage_of partly))
unfolding partly
stake-returns_example =
    stake-returns env round0 "alice.near" yea 80 (storage_of partly) partly-IsSound (omega arith)
      (omega arith)
