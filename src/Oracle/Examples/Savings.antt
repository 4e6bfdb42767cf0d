-- ===== src/Oracle/Examples/Savings.antt =====
-- The theorems on storage accounts at concrete calls.
use oracle_monorepo_near.Base.{none, [], ◌∷◌, ◌++◌, ◌+◌, ◌≤◌, ◌≡◌, refl, arith, String_eq}
use oracle_monorepo_near.Near.{ok, err, get, insert, checked_add, checked_sub}
use oracle_monorepo_near.Oracle.Types.{World, Env, Promise, AccountStorageBalance}
use oracle_monorepo_near.Oracle.Accounts.{
  get_storage_account, storage_deposit, storage_withdraw, assert_one_yocto,
}
use oracle_monorepo_near.Oracle.Accounts.Balances.{
  AreBacked, storage_deposit_lem, storage_withdraw_lem,
}
use oracle_monorepo_near.Oracle.Examples.Worlds.{env, request, world_of}

abbrev world : World
world = world_of (request [])

abbrev saver : Env
saver = record env { attached_deposit = 20000000000000000000000 }

deposited : AccountStorageBalance × World
unfolding storage_deposit get_storage_account checked_add get insert
deposited = elim (storage_deposit saver none world) [
  | ok r ↦ r
  | err e ↦ (record { total = 0; available = 0 }, world)
]

world-AreBacked : AreBacked world.contract
unfolding get_storage_account get
world-AreBacked a = omega arith

storage_deposit_lem_example :
    (10000000000000000000000 ≤ 20000000000000000000000)
    × (deposited.0.total
        ≡ (get_storage_account "alice.near" world.contract).total + 20000000000000000000000)
    × (deposited.0.available
        ≡ (get_storage_account "alice.near" world.contract).available + 20000000000000000000000)
    × (get_storage_account "alice.near" deposited.1.contract ≡ deposited.0)
    × AreBacked deposited.1.contract
unfolding deposited
storage_deposit_lem_example =
    storage_deposit_lem saver none world {r = deposited.0} {w' = deposited.1} world-AreBacked refl

deposited-AreBacked : AreBacked deposited.1.contract
unfolding deposited
deposited-AreBacked =
    (storage_deposit_lem saver none world {r = deposited.0} {w' = deposited.1} world-AreBacked
      refl).4

withdrawn : AccountStorageBalance × World
unfolding storage_withdraw assert_one_yocto deposited checked_sub
withdrawn = elim (storage_withdraw env 5 deposited.1) [
  | ok r ↦ r
  | err e ↦ (record { total = 0; available = 0 }, world)
]

storage_withdraw_lem_example :
    (env.attached_deposit ≡ 1)
    × (withdrawn.0.available + 5
        ≡ (get_storage_account "alice.near" deposited.1.contract).available)
    × (withdrawn.0.total + 5 ≡ (get_storage_account "alice.near" deposited.1.contract).total)
    × (get_storage_account "alice.near" withdrawn.1.contract ≡ withdrawn.0)
    × (withdrawn.1.storage.promises
        ≡ deposited.1.storage.promises ++ Promise.transfer "alice.near" 5 ∷ [])
    × AreBacked withdrawn.1.contract
unfolding withdrawn
storage_withdraw_lem_example =
    storage_withdraw_lem env 5 deposited.1 {r = withdrawn.0} {w' = withdrawn.1} deposited-AreBacked
      refl
