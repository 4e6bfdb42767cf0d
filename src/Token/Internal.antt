-- ===== src/Token/Internal.antt =====
-- token/src/internal.rs.
use oracle_monorepo_near.Base.{◌+◌, ◌-◌, not, ltb, leb, nat_eq, ◌==◌, String_eq}
use oracle_monorepo_near.Near.{
  Result, ok, ◌>>=◌, ◌>>◌, require, expect, u128_mod, get, insert, not_one_yocto, method_is_private,
  account_not_registered, balance_overflow, not_enough_balance, same_account,
}
use oracle_monorepo_near.Token.State.{AccountId, Balance, TokenContract, Env}

unfoldable pub assert_one_yocto : Env → Result (Unit {0})
assert_one_yocto env = require (nat_eq env.attached_deposit 1) not_one_yocto

unfoldable pub assert_self : Env → Result (Unit {0})
assert_self env = require (env.predecessor_account_id == env.current_account_id) method_is_private

abbrev pub put : AccountId → Balance → TokenContract → TokenContract
put a b c = record c { accounts = insert a b c.accounts }

-- `checked_add`: `None` on overflow.
unfoldable pub internal_deposit : AccountId → Balance → TokenContract → Result TokenContract
internal_deposit account_id amount c = do
  balance ← expect (get account_id c.accounts) account_not_registered
  require (ltb (balance + amount) u128_mod) balance_overflow
  ok (put account_id (balance + amount) c)

unfoldable pub internal_withdraw : AccountId → Balance → TokenContract → Result TokenContract
internal_withdraw account_id amount c = do
  balance ← expect (get account_id c.accounts) account_not_registered
  require (leb amount balance) not_enough_balance
  ok (put account_id (balance - amount) c)

unfoldable pub internal_transfer :
    AccountId → AccountId → Balance → TokenContract → Result TokenContract
internal_transfer sender_id receiver_id amount c = do
  require (not (sender_id == receiver_id)) same_account
  withdrawn ← internal_withdraw sender_id amount c
  internal_deposit receiver_id amount withdrawn
