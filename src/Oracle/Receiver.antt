-- ===== src/Oracle/Receiver.antt =====
-- `ft_on_transfer` of oracle/src/fungible_token_receiver.rs, and `ft_dr_new_callback` of
-- requester_handler.rs, which it calls directly.
use oracle_monorepo_near.Base.{String, ◌==◌, String_eq}
use oracle_monorepo_near.Near.{
  Result, ok, ◌>>=◌, ◌>>◌, require, expect, invalid_payload, wrong_payment_token, wrong_stake_token,
}
use oracle_monorepo_near.Oracle.Types.{
  AccountId, Balance, NewDataRequestArgs, OracleConfig, Payload, World, Env, PromiseOrValue, value,
}
use oracle_monorepo_near.Oracle.Access.{get_config}
use oracle_monorepo_near.Oracle.Accounts.{get_storage_account, use_storage}
use oracle_monorepo_near.Oracle.Handlers.{dr_new, dr_stake}

unfoldable pub ft_dr_new_callback :
    Env → AccountId → Balance → NewDataRequestArgs → World → Result (PromiseOrValue Balance × World)
ft_dr_new_callback env sender amount payload w = do
  (unspent, w') ← dr_new env sender amount payload w
  ok (value unspent, w')

-- The `match` on the payload.
unfoldable pub dispatch :
    Env
    → OracleConfig
    → AccountId
    → Balance
    → Payload
    → World
    → Result (PromiseOrValue Balance × World)
unfolding ft_dr_new_callback
dispatch env config sender amount (Payload.new_data_request payload) w = do
  require (config.payment_token == env.predecessor_account_id) wrong_payment_token
  ft_dr_new_callback env sender amount payload w
dispatch env config sender amount (Payload.stake_data_request payload) w = do
  require (config.stake_token == env.predecessor_account_id) wrong_stake_token
  dr_stake env sender amount payload w

-- The result is the amount that goes back to the sender.
unfoldable pub ft_on_transfer :
    Env → AccountId → Balance → String → World → Result (PromiseOrValue Balance × World)
unfolding dispatch get_storage_account
ft_on_transfer env sender amount msg w = do
  let initial_storage_usage = env.storage_usage w
  let account = get_storage_account sender w.contract
  payload ← expect (env.parse_payload msg) invalid_payload
  config ← get_config w.contract
  (unspent, w1) ← dispatch env config sender amount payload w
  w2 ← use_storage env sender initial_storage_usage account.available w1
  ok (unspent, w2)
