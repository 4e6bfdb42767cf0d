-- ===== src/Oracle/Configuration.antt =====
-- oracle/src/oracle_config.rs, fee_config.rs, and `Contract::new` of lib.rs.
use oracle_monorepo_near.Base.{not, false, Option, List, [], ◌∷◌, ◌++◌, ltb, leb, set}
use oracle_monorepo_near.Near.{
  Result, ok, ◌>>=◌, ◌>>◌, require, zero_validity_bond, zero_resolution_bond, total_value_too_high,
  fee_percentage_too_high,
}
use oracle_monorepo_near.Oracle.Types.{Requester, OracleConfig, FeeConfig, World, Env, Storage}
use oracle_monorepo_near.Oracle.Helpers.{refund_storage}
use oracle_monorepo_near.Oracle.Logger.{log_oracle_config}
use oracle_monorepo_near.Oracle.Access.{
  assert_gov, get_config, last_config_id, on_contract, on_storage,
}
use oracle_monorepo_near.Oracle.Whitelisting

-- `Contract::new`, on the empty storage of a fresh account.
unfoldable pub new : Env → Option (List Requester) → OracleConfig → Storage → World
unfolding Whitelisting.new
new env initial_whitelist config s =
    let (list, s') = Whitelisting.new env initial_whitelist (log_oracle_config env config 0 s) in
    record {
      contract = record {
        whitelist = list;
        configs = config ∷ [];
        data_requests = [];
        accounts = [];
        paused = false;
      };
      storage = s';
    }

unfoldable pub set_config : Env → OracleConfig → World → Result World
unfolding assert_gov
set_config env new_config w = do
  assert_gov env w.contract
  require (ltb 0 new_config.validity_bond) zero_validity_bond
  require (ltb 0 new_config.min_resolution_bond) zero_resolution_bond
  let initial_storage = env.storage_usage w
  let pushed = on_contract (λ c. record c { configs = c.configs ++ new_config ∷ [] }) w
  last ← last_config_id pushed.contract
  let logged = on_storage (log_oracle_config env new_config last) pushed
  refund_storage env initial_storage env.predecessor_account_id logged

unfoldable pub toggle_pause : Env → World → Result World
unfolding assert_gov
toggle_pause env w = do
  assert_gov env w.contract
  ok (on_contract (λ c. record c { paused = not c.paused }) w)

unfoldable pub update_fee_config : Env → FeeConfig → World → Result World
unfolding assert_gov get_config last_config_id
update_fee_config env new_fee_config w = do
  assert_gov env w.contract
  let initial_storage = env.storage_usage w
  require (ltb new_fee_config.total_value_staked new_fee_config.flux_market_cap)
      total_value_too_high
  require (leb new_fee_config.resolution_fee_percentage env.consts.max_resolution_fee_percentage)
      fee_percentage_too_high
  config ← get_config w.contract
  let updated_config = record config { fee = new_fee_config }
  last ← last_config_id w.contract
  let replaced = on_contract (λ c. record c { configs = set c.configs last updated_config }) w
  let logged = on_storage (log_oracle_config env updated_config last) replaced
  refund_storage env initial_storage env.predecessor_account_id logged
