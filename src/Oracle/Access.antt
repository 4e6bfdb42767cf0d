-- ===== src/Oracle/Access.antt =====
-- The contract's checks in oracle/src/lib.rs, `get_config` of oracle_config.rs, and how a handler
-- changes the world.
use oracle_monorepo_near.Base.{ℕ, Bool, not, ◌==◌, String_eq, length, get_elem?}
use oracle_monorepo_near.Near.{
  Result, ◌>>=◌, require, expect, unwrap_on_none, checked_sub, not_governance, oracle_is_paused,
  wrong_caller,
}
use oracle_monorepo_near.Oracle.Types.{
  AccountId, OracleConfig, Contract, World, Env, Storage, PromiseOrValue, promise, value,
}
use oracle_monorepo_near.Oracle.Helpers.{schedule}

abbrev pub on_contract : (Contract → Contract) → World → World
on_contract f w = record w { contract = f w.contract }

abbrev pub on_storage : (Storage → Storage) → World → World
on_storage f w = record w { storage = f w.storage }

-- The promise of a result that is one is scheduled, also when the result is dropped.
abbrev pub schedule_result : PromiseOrValue Bool → World → World
schedule_result (promise p) w = schedule p w
schedule_result (value b) w = w

-- `configs.len() - 1`
unfoldable pub last_config_id : Contract → Result ℕ
last_config_id c = checked_sub (length c.configs) 1

unfoldable pub get_config : Contract → Result OracleConfig
unfolding last_config_id
get_config c = do last ← last_config_id c; expect (get_elem? c.configs last) unwrap_on_none

unfoldable pub assert_gov : Env → Contract → Result (Unit {0})
unfolding get_config
assert_gov env c = do
  config ← get_config c
  require (config.gov == env.predecessor_account_id) not_governance

unfoldable pub assert_unpaused : Contract → Result (Unit {0})
assert_unpaused c = require (not c.paused) oracle_is_paused

unfoldable pub assert_sender : Env → AccountId → Result (Unit {0})
assert_sender env expected_sender =
    require (env.predecessor_account_id == expected_sender) wrong_caller
