-- ===== src/Oracle/Upgrade.antt =====
-- oracle/src/upgrade.rs.
use oracle_monorepo_near.Base.{ℕ, ◌+◌, ◌≡◌, refl, String, Option, some, List, arith, String_eq}
use oracle_monorepo_near.Near.{
  Result, ok, ◌>>=◌, ◌>>◌, >>=-eq-ok, expect, checked_sub, not_initialized,
}
use oracle_monorepo_near.Oracle.Types.{AccountId, Contract, World, Env}
use oracle_monorepo_near.Oracle.Access.{assert_gov}
use oracle_monorepo_near.Oracle.Governance.{IsGovernance, assert_gov-IsGovernance}

abbrev pub gas_for_migrate_call : ℕ
gas_for_migrate_call = 5000000000000

-- The batch of two actions that `upgrade` schedules: a deployment of the code on the account, then
-- the call of the method with the gas.
pub record UpgradeBatch : Type 0 where
  pub account : AccountId
  pub code : List ℕ
  pub method_name : String
  pub attached_gas : ℕ

-- `state` is what `state_read` finds, `code` the input of the call.
unfoldable pub upgrade : Env → AccountId → List ℕ → Option World → Result UpgradeBatch
upgrade env current_account_id code state = do
  w ← expect state not_initialized
  assert_gov env w.contract
  unused ← checked_sub env.prepaid_gas (env.used_gas w)
  attached_gas ← checked_sub unused gas_for_migrate_call
  ok (record {
    account = current_account_id;
    code = code;
    method_name = "migrate";
    attached_gas = attached_gas;
  })

unfoldable pub migrate : Option Contract → Result Contract
migrate state = expect state not_initialized

-- An upgrade that returns was called by the governance account of the current configuration; it
-- deploys the code that it was given on the contract's own account, and then calls `migrate` with
-- all gas but the gas used and 5 TGas. There, `migrate` leaves the contract as it is.
pub upgrade_lem :
    (env : Env) (current : AccountId) (code : List ℕ) (w : World) {b : UpgradeBatch}
    → upgrade env current code (some w) ≡ ok b
    → IsGovernance env w
      × (b.account ≡ current)
      × (b.code ≡ code)
      × (b.method_name ≡ "migrate")
      × (b.attached_gas + gas_for_migrate_call + env.used_gas w ≡ env.prepaid_gas)
      × (migrate (some w.contract) ≡ ok w.contract)
unfolding upgrade migrate checked_sub
upgrade_lem env current code w {b} h =
    let (_, gov, h1) = >>=-eq-ok (assert_gov env w.contract) _ h in
    let (unused, e1, h2) = >>=-eq-ok (checked_sub env.prepaid_gas (env.used_gas w)) _ h1 in
    let (gas, e2, h3) = >>=-eq-ok (checked_sub unused gas_for_migrate_call) _ h2 in
    (
      assert_gov-IsGovernance env w gov,
      ground (arith, h3),
      ground (arith, h3),
      ground (arith, h3),
      ground (arith, e1, e2, h3),
      refl,
    )
