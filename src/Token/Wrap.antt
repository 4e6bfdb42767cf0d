-- ===== src/Token/Wrap.antt =====
-- token/src/w_near.rs.
use oracle_monorepo_near.Base.{ltb}
use oracle_monorepo_near.Near.{
  Result, ok, ◌>>=◌, ◌>>◌, require, checked_add, checked_sub, u128_mod, deposit_not_positive,
}
use oracle_monorepo_near.Token.State.{Balance, TokenContract, Env, Promise}
use oracle_monorepo_near.Token.Internal.{assert_one_yocto, internal_deposit, internal_withdraw}

unfoldable pub near_deposit : Env → TokenContract → Result TokenContract
near_deposit env c = do
  let amount = env.attached_deposit
  require (ltb 0 amount) deposit_not_positive
  c' ← internal_deposit env.predecessor_account_id amount c
  supply ← checked_add u128_mod c'.total_supply amount
  ok (record c' { total_supply = supply })

unfoldable pub near_withdraw : Env → Balance → TokenContract → Result (Promise × TokenContract)
unfolding assert_one_yocto
near_withdraw env amount c = do
  assert_one_yocto env
  c' ← internal_withdraw env.predecessor_account_id amount c
  supply ← checked_sub c'.total_supply amount
  back ← checked_add u128_mod amount 1
  ok (Promise.transfer env.predecessor_account_id back, record c' { total_supply = supply })
