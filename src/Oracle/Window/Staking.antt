-- ===== src/Oracle/Window/Staking.antt =====
-- `stake` and `unstake` of oracle/src/resolution_window.rs: what they return, what they write and
-- when they do not panic.
use oracle_monorepo_near.Base.{
  ◌+◌, ◌-◌, ◌≤◌, ◌<◌, ◌≡◌, true, none, some, arith, nat_eq, if◌then◌else◌, Pair_eq, String_eq,
}
use oracle_monorepo_near.Near.{ok, IsOk, checked_add, checked_sub, u128_mod, get, le-sum_where}
use oracle_monorepo_near.Oracle.Types.{
  AccountId, Balance, Outcome, Outcome_eq, outcome_eq_iff, window_id_eq_iff, ResolutionWindow,
  WindowId_eq, UserMap_eq, WindowId, Env, Storage, Stakes,
}
use oracle_monorepo_near.Oracle.Logger.{
  log_resolution_window, log_outcome_to_stake, log_user_stake, log_stake_transaction,
  log_unstake_transaction,
}
use oracle_monorepo_near.Oracle.Window.{
  window_id, stake_on, user_stake_on, write_stakes, record_stakes, excess, settle, stake,
  may_withdraw, unstake,
}
use oracle_monorepo_near.Oracle.Window.Writes.{
  IsCanonical, outcome_total, user_stake, users_total, user_stake_on-canonical, is_stake_in,
}

-- No outcome has less staked on it than its users hold of it.
abbrev pub IsCovered : Stakes → Type 0
IsCovered t = (v : WindowId) (o : Outcome) → users_total v o t ≤ outcome_total v o t

-- A user without a registered map has nothing staked.
abbrev pub IsRegistered : Stakes → Type 0
IsRegistered t =
    (v : WindowId) (a : AccountId) (o : Outcome)
    → get (v, a) t.user_to_outcome_to_stake ≡ none
    → user_stake v a o t ≡ 0

pub record IsSound (t : Stakes) : Type 0 where
  pub canonical : IsCanonical t
  pub registered : IsRegistered t
  pub covered : IsCovered t

-- A user's stake is part of the total of the outcome.
pub user_stake-le :
    (v : WindowId) (a : AccountId) (o : Outcome) (t : Stakes)
    → IsCovered t
    → user_stake v a o t ≤ outcome_total v o t
user_stake-le v a o t c = omega (
  arith,
  le-sum_where (is_stake_in v o) (record { window = v; account = a }, o) t.user_stakes
      (ground (arith, outcome_eq_iff o o, window_id_eq_iff v v)),
  c v o,
)

module _ (env : Env) (w : ResolutionWindow) (a : AccountId) (o : Outcome) (amount : Balance)
    (s : Storage) where
  -- The parts of a successful `stake`.
  pub stake-eq-ok :
      {unspent : Balance} {w' : ResolutionWindow} {s' : Storage}
      → stake env w a o amount s ≡ ok (unspent, w', s')
      → let on = stake_on w o s.stakes in
        let staked = amount - excess amount (w.bond_size - on) in
        (on ≤ w.bond_size)
        × (unspent ≡ excess amount (w.bond_size - on))
        × (s'.stakes
            ≡ write_stakes w a o (on + staked) (user_stake_on w a o s.stakes + staked) s.stakes)
        × (w' ≡ (
            if nat_eq (on + staked) w.bond_size then record w { bonded_outcome = some o } else w))
  unfolding stake settle record_stakes log_outcome_to_stake log_user_stake log_stake_transaction
      log_resolution_window checked_sub checked_add
  stake-eq-ok h = ground arith

  -- On sound stakes, where the total of the outcome is at most the bond and the bond fits 128
  -- bits, `stake` returns, whatever the amount.
  pub stake-returns :
      IsSound s.stakes
      → outcome_total (window_id w) o s.stakes ≤ w.bond_size
      → w.bond_size < u128_mod
      → IsOk (stake env w a o amount s)
  unfolding stake checked_sub checked_add stake_on
  stake-returns sound fits small = ground (
    arith,
    user_stake_on-canonical w a o s.stakes sound.canonical,
    user_stake-le (window_id w) a o s.stakes sound.covered,
  )

  pub unstake-eq-ok :
      {taken : Balance} {s' : Storage}
      → unstake env w a o amount s ≡ ok (taken, s')
      → (may_withdraw w.bonded_outcome o ≡ true)
        × (taken ≡ amount)
        × (amount ≤ user_stake_on w a o s.stakes)
        × (amount ≤ stake_on w o s.stakes)
        × (s'.stakes
            ≡ write_stakes w a o
                (stake_on w o s.stakes - amount)
                (user_stake_on w a o s.stakes - amount)
                s.stakes)
  unfolding unstake record_stakes log_outcome_to_stake log_user_stake log_unstake_transaction
      checked_sub
  unstake-eq-ok h = ground arith

  -- On sound stakes, `unstake` returns if the outcome is not the bonded one and the user has at
  -- least the amount on it.
  pub unstake-returns :
      IsSound s.stakes
      → may_withdraw w.bonded_outcome o ≡ true
      → amount ≤ user_stake (window_id w) a o s.stakes
      → IsOk (unstake env w a o amount s)
  unfolding unstake checked_sub stake_on
  unstake-returns sound free has = ground (
    arith,
    user_stake_on-canonical w a o s.stakes sound.canonical,
    user_stake-le (window_id w) a o s.stakes sound.covered,
  )
