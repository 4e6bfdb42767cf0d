-- ===== src/Token/Registration.antt =====
-- token/src/storage_manager.rs.
use oracle_monorepo_near.Base.{Option, none, some, not, ltb, nat_eq, if◌then◌else◌, String_eq}
use oracle_monorepo_near.Near.{
  Result, ok, err, ◌>>=◌, ◌>>◌, require, expect, checked_add, checked_mul, u128_mod, get, remove,
  not_exact_minimum, already_registered, positive_balance, account_not_registered,
}
use oracle_monorepo_near.Token.State.{AccountId, Balance, TokenContract, Env, Promise}
use oracle_monorepo_near.Token.Internal.{assert_one_yocto, put}

pub record AccountStorageBalance : Type 0 where
  pub total : Balance
  pub available : Balance

abbrev pub storage_price_per_byte : Balance
storage_price_per_byte = 10000000000000000000

unfoldable pub storage_minimum_balance : TokenContract → Result Balance
storage_minimum_balance c = checked_mul u128_mod c.account_storage_usage storage_price_per_byte

abbrev pub or_sender : Env → Option AccountId → AccountId
or_sender env none = env.predecessor_account_id
or_sender env (some a) = a

-- The account is written before the test, and the panic takes the write back.
unfoldable pub storage_deposit :
    Env → Option AccountId → TokenContract → Result (AccountStorageBalance × TokenContract)
storage_deposit env account_id c = do
  let amount = env.attached_deposit
  minimum ← storage_minimum_balance c
  require (nat_eq amount minimum) not_exact_minimum
  let id = or_sender env account_id
  elim (get id c.accounts) [
    | some _ ↦ err already_registered
    | none ↦ ok (record { total = amount; available = amount }, put id 0 c)
  ]

unfoldable pub storage_withdraw :
    Env → Balance → TokenContract → Result (Promise × AccountStorageBalance × TokenContract)
unfolding assert_one_yocto
storage_withdraw env amount c = do
  assert_one_yocto env
  minimum ← storage_minimum_balance c
  require (nat_eq amount minimum) not_exact_minimum
  let account_id = env.predecessor_account_id
  balance ← expect (get account_id c.accounts) account_not_registered
  require (not (ltb 0 balance)) positive_balance
  back ← checked_add u128_mod amount 1
  let left : AccountStorageBalance = record { total = 0; available = 0 }
  ok (Promise.transfer account_id back, left, record c { accounts = remove account_id c.accounts })

-- All of the minimum is available while the account holds no tokens.
unfoldable pub storage_balance_of : AccountId → TokenContract → Result AccountStorageBalance
storage_balance_of account_id c = elim (get account_id c.accounts) [
  | some balance ↦ (do
    minimum ← storage_minimum_balance c
    ok (record { total = minimum; available = if ltb 0 balance then 0 else minimum }))
  | none ↦ ok (record { total = 0; available = 0 })
]
