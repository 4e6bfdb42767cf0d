-- ===== src/Oracle/Accounts.antt =====
-- oracle/src/storage_manager.rs.
pub mod Balances
use oracle_monorepo_near.Base.{
  ℕ, ◌-◌, ◌^◌, ◌*◌, Bool, not, true, false, Option, none, some, nat_eq, ltb, leb, if◌then◌else◌,
  String_eq,
}
use oracle_monorepo_near.Near.{
  Result, ok, ◌>>=◌, ◌>>◌, require, not_one_yocto, deposit_below_minimum, not_enough_storage,
  storage_cost_not_covered, checked_add, checked_sub, checked_mul, u128_mod, get, insert,
}
use oracle_monorepo_near.Oracle.Types.{
  AccountId, Balance, AccountStorageBalance, Contract, World, Env, Promise,
}
use oracle_monorepo_near.Oracle.Helpers.{schedule}
use oracle_monorepo_near.Oracle.Access.{on_contract}

abbrev pub storage_minimum_balance : Balance
storage_minimum_balance = 10000000000000000000000

unfoldable pub assert_one_yocto : Env → Result (Unit {0})
assert_one_yocto env = require (nat_eq env.attached_deposit 1) not_one_yocto

pub record StorageBalanceBounds : Type 0 where
  pub min : Balance
  pub max : Option Balance

unfoldable pub storage_balance_bounds : StorageBalanceBounds
storage_balance_bounds = record { min = storage_minimum_balance; max = none }

abbrev pub or_empty : Option AccountStorageBalance → AccountStorageBalance
or_empty none = record { total = 0; available = 0 }
or_empty (some account) = account

unfoldable pub get_storage_account : AccountId → Contract → AccountStorageBalance
get_storage_account account_id c = or_empty (get account_id c.accounts)

abbrev pub put_account : AccountId → AccountStorageBalance → World → World
put_account a account = on_contract (λ c. record c { accounts = insert a account c.accounts })

abbrev pub or_sender : Env → Option AccountId → AccountId
or_sender env none = env.predecessor_account_id
or_sender env (some a) = a

unfoldable pub storage_deposit :
    Env → Option AccountId → World → Result (AccountStorageBalance × World)
unfolding get_storage_account
storage_deposit env account_id w = do
  let amount = env.attached_deposit
  let id = or_sender env account_id
  let account = get_storage_account id w.contract
  require (leb storage_minimum_balance amount) deposit_below_minimum
  available ← checked_add u128_mod account.available amount
  total ← checked_add u128_mod account.total amount
  let account' : AccountStorageBalance = record { total = total; available = available }
  ok (account', put_account id account' w)

unfoldable pub storage_withdraw : Env → Balance → World → Result (AccountStorageBalance × World)
unfolding get_storage_account assert_one_yocto
storage_withdraw env amount w = do
  assert_one_yocto env
  let account_id = env.predecessor_account_id
  let account = get_storage_account account_id w.contract
  require (leb amount account.available) not_enough_storage
  let available = account.available - amount
  total ← checked_sub account.total amount
  let account' : AccountStorageBalance = record { total = total; available = available }
  ok (account', schedule (Promise.transfer account_id amount) (put_account account_id account' w))

-- `None` for an account that never paid.
unfoldable pub storage_balance_of : AccountId → Contract → Option AccountStorageBalance
storage_balance_of account_id c = get account_id c.accounts

-- The bytes that the call added are paid from the balance, those that it freed are added to it.
unfoldable pub use_storage : Env → AccountId → ℕ → Balance → World → Result World
unfolding get_storage_account
use_storage env sender_id initial_storage_usage initial_available_balance w =
    let usage = env.storage_usage w in
    let price = env.consts.storage_price_per_byte in
    let account = get_storage_account sender_id w.contract in
    if leb initial_storage_usage usage
    then (do
      cost ← checked_mul u128_mod (usage - initial_storage_usage) price
      require (leb cost initial_available_balance) storage_cost_not_covered
      let available = initial_available_balance - cost
      ok (put_account sender_id (record account { available = available }) w))
    else (do
      gain ← checked_mul u128_mod (initial_storage_usage - usage) price
      available ← checked_add u128_mod initial_available_balance gain
      ok (put_account sender_id (record account { available = available }) w))
