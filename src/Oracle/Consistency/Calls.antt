-- ===== src/Oracle/Consistency/Calls.antt =====
-- The calls that leave the requests and the stakes alone (oracle/src/oracle_config.rs, fee_config.rs,
-- whitelist.rs, storage_manager.rs), and the receiver of tokens.
use oracle_monorepo_near.Base.{
  ℕ, ◌≤◌, ◌≡◌, Option, some, arith, Pair_eq, String, String_eq, ltb, leb, [], ◌∷◌, length,
  length-append, length-set,
}
use oracle_monorepo_near.Near.{
  ok, require, expect, >>=-eq-ok, checked_sub, checked_add, checked_mul, invalid_payload,
  total_value_too_high, fee_percentage_too_high,
}
use oracle_monorepo_near.Oracle.Types.{
  AccountId, Balance, Env, World, OracleConfig, FeeConfig, Requester, Payload, PromiseOrValue,
  AccountStorageBalance, Outcome_eq, WindowId_eq, UserMap_eq,
}
use oracle_monorepo_near.Oracle.Logger.{log_oracle_config, log_whitelist}
use oracle_monorepo_near.Oracle.Access.{assert_gov, get_config, last_config_id}
use oracle_monorepo_near.Oracle.Helpers.Refunds.{refund_storage-keeps}
use oracle_monorepo_near.Oracle.Configuration.{set_config, toggle_pause, update_fee_config}
use oracle_monorepo_near.Oracle.Whitelisting.{
  add_to_whitelist, remove_from_whitelist, check_multiplier, without_requester,
}
use oracle_monorepo_near.Oracle.Accounts.{
  storage_deposit, storage_withdraw, use_storage, get_storage_account,
}
use oracle_monorepo_near.Oracle.Governance.{set_config_lem}
use oracle_monorepo_near.Oracle.Receiver.{ft_on_transfer, dispatch}

-- The requests and the stakes of `w` are those of `w'`, which has no fewer configurations.
abbrev pub Keeps : World → World → Type 0
Keeps w w' =
    (w'.contract.data_requests ≡ w.contract.data_requests)
    × (w'.storage.stakes ≡ w.storage.stakes)
    × (length w.contract.configs ≤ length w'.contract.configs)

pub set_config-Keeps :
    (env : Env) (c : OracleConfig) (w : World) {w' : World}
    → set_config env c w ≡ ok w'
    → Keeps w w'
set_config-Keeps env c w {w'} h =
    let (_, _, _, contract, stakes) = set_config_lem env c w h in
    (
      rw contract,
      stakes,
      rw contract (omega (arith, length-append {0} w.contract.configs (c ∷ []))),
    )

pub toggle_pause-Keeps :
    (env : Env) (w : World) {w' : World} → toggle_pause env w ≡ ok w' → Keeps w w'
unfolding toggle_pause
toggle_pause-Keeps env w h =
    let (_, gov, h1) = >>=-eq-ok (assert_gov env w.contract) _ h in ground arith

pub update_fee_config-Keeps :
    (env : Env) (f : FeeConfig) (w : World) {w' : World}
    → update_fee_config env f w ≡ ok w'
    → Keeps w w'
unfolding update_fee_config log_oracle_config
update_fee_config-Keeps env f w h =
    let (_, gov, h1) = >>=-eq-ok (assert_gov env w.contract) _ h in
    let (_, low, h2) =
      >>=-eq-ok (require (ltb f.total_value_staked f.flux_market_cap) total_value_too_high) _ h1 in
    let (_, fair, h3) =
      >>=-eq-ok
        (require (leb f.resolution_fee_percentage env.consts.max_resolution_fee_percentage)
          fee_percentage_too_high)
        _ h2 in
    let (config, got, h4) = >>=-eq-ok (get_config w.contract) _ h3 in
    let (last, at, h5) = >>=-eq-ok (last_config_id w.contract) _ h4 in
    let (contract, stakes, _) = refund_storage-keeps env _ env.predecessor_account_id _ h5 in
    (
      rw contract,
      stakes,
      rw contract (omega (arith, length-set w.contract.configs last (record config { fee = f }))),
    )

pub add_to_whitelist-Keeps :
    (env : Env) (r : Requester) (w : World) {w' : World}
    → add_to_whitelist env r w ≡ ok w'
    → Keeps w w'
unfolding add_to_whitelist log_whitelist
add_to_whitelist-Keeps env r w h =
    let (_, gov, h1) = >>=-eq-ok (assert_gov env w.contract) _ h in
    let (_, positive, h2) = >>=-eq-ok (check_multiplier r.stake_multiplier) _ h1 in
    let (contract, stakes, _) = refund_storage-keeps env _ env.predecessor_account_id _ h2 in
    (rw contract, stakes, rw contract (omega arith))

pub remove_from_whitelist-Keeps :
    (env : Env) (r : Requester) (w : World) {w' : World}
    → remove_from_whitelist env r w ≡ ok w'
    → Keeps w w'
unfolding remove_from_whitelist log_whitelist
remove_from_whitelist-Keeps env r w h =
    let (_, gov, h1) = >>=-eq-ok (assert_gov env w.contract) _ h in
    let (list, removed, h2) =
      >>=-eq-ok (without_requester r.account_id w.contract.whitelist) _ h1 in
    let (contract, stakes, _) = refund_storage-keeps env _ env.predecessor_account_id _ h2 in
    (rw contract, stakes, rw contract (omega arith))

pub storage_deposit-Keeps :
    (env : Env) (to : Option AccountId) (w : World) {r : AccountStorageBalance} {w' : World}
    → storage_deposit env to w ≡ ok (r, w')
    → Keeps w w'
unfolding storage_deposit checked_add
storage_deposit-Keeps env to w h = ground arith

pub storage_withdraw-Keeps :
    (env : Env) (amount : Balance) (w : World) {r : AccountStorageBalance} {w' : World}
    → storage_withdraw env amount w ≡ ok (r, w')
    → Keeps w w'
unfolding storage_withdraw checked_sub
storage_withdraw-Keeps env amount w h = ground arith

pub use_storage-Keeps :
    (env : Env) (a : AccountId) (initial : ℕ) (before : Balance) (w : World) {w' : World}
    → use_storage env a initial before w ≡ ok w'
    → Keeps w w'
unfolding use_storage checked_mul checked_add
use_storage-Keeps env a initial before w h = ground arith

-- A message of tokens that is accepted came from the token that its payload asks for, and made a new
-- request or staked; then the sender paid for the storage.
pub ft_on_transfer-eq-ok :
    (env : Env) (a : AccountId) (x : Balance) (msg : String) (w : World)
    {r : PromiseOrValue Balance} {w' : World}
    → ft_on_transfer env a x msg w ≡ ok (r, w')
    → (payload : Payload) × (config : OracleConfig) × (w1 : World) × (env.parse_payload msg
        ≡ some payload)
      × (get_config w.contract ≡ ok config)
      × (dispatch env config a x payload w ≡ ok (r, w1))
      × (use_storage env a (env.storage_usage w) (get_storage_account a w.contract).available w1
          ≡ ok w')
unfolding ft_on_transfer
ft_on_transfer-eq-ok env a x msg w {r} {w'} h =
    let (payload, parsed, h1) = >>=-eq-ok (expect (env.parse_payload msg) invalid_payload) _ h in
    let (config, got, h2) = >>=-eq-ok (get_config w.contract) _ h1 in
    let ((u, w1), done, h3) = >>=-eq-ok (dispatch env config a x payload w) _ h2 in
    let (w2, charged, h4) =
      >>=-eq-ok
        (use_storage env a (env.storage_usage w) (get_storage_account a w.contract).available w1) _
        h3 in
    (payload, config, w1, ground arith, got, ground arith, ground arith)
