-- ===== src/Oracle/Treasury/Quiet.antt =====
-- The promises of the calls that govern the oracle, and of those of storage accounts (oracle/src).
use oracle_monorepo_near.Base.{
  ℕ, ◌≡◌, ap, [], ◌∷◌, ◌++◌, arith, ltb, leb, String_eq, Pair_eq, Option,
}
use oracle_monorepo_near.Near.{
  ok, >>=-eq-ok, checked_sub, checked_mul, checked_add, require, total_value_too_high,
  fee_percentage_too_high, zero_validity_bond, zero_resolution_bond,
}
use oracle_monorepo_near.Oracle.Types.{
  AccountId, Balance, Outcome_eq, WindowId_eq, UserMap_eq, OracleConfig, FeeConfig, Requester,
  Promise, AccountStorageBalance, Env, World,
}
use oracle_monorepo_near.Oracle.Logger.{log_oracle_config, log_whitelist}
use oracle_monorepo_near.Oracle.Access.{assert_gov, get_config, last_config_id}
use oracle_monorepo_near.Oracle.Treasury.Sent.{
  Sends, Weight, weigh_all, weigh_all-append, refund_storage-Sends,
}
use oracle_monorepo_near.Oracle.Treasury.Sends.{same-Sends}
use oracle_monorepo_near.Oracle.Configuration.{set_config, toggle_pause, update_fee_config}
use oracle_monorepo_near.Oracle.Whitelisting.{
  add_to_whitelist, remove_from_whitelist, check_multiplier, without_requester,
}
use oracle_monorepo_near.Oracle.Accounts.{storage_deposit, storage_withdraw, use_storage}

-- Governance and storage accounts send no tokens.
pub set_config-Sends :
    (g : Weight) (env : Env) (c : OracleConfig) (w : World) {w' : World}
    → set_config env c w ≡ ok w'
    → Sends g w w' 0
unfolding set_config log_oracle_config
set_config-Sends g env c w h =
    let (_, gov, h1) = >>=-eq-ok (assert_gov env w.contract) _ h in
    let (_, bond, h2) = >>=-eq-ok (require (ltb 0 c.validity_bond) zero_validity_bond) _ h1 in
    let (_, least, h3) =
      >>=-eq-ok (require (ltb 0 c.min_resolution_bond) zero_resolution_bond) _ h2 in
    let (last, at, h4) =
      >>=-eq-ok (last_config_id (record (w.contract) { configs = w.contract.configs ++ c ∷ [] })) _
        h3 in
    omega (arith, refund_storage-Sends g env _ env.predecessor_account_id _ h4)

pub toggle_pause-Sends :
    (g : Weight) (env : Env) (w : World) {w' : World} → toggle_pause env w ≡ ok w' → Sends g w w' 0
unfolding toggle_pause
toggle_pause-Sends g env w {w'} h =
    let (_, gov, h1) = >>=-eq-ok (assert_gov env w.contract) _ h in same-Sends g w w' (ground arith)

pub update_fee_config-Sends :
    (g : Weight) (env : Env) (f : FeeConfig) (w : World) {w' : World}
    → update_fee_config env f w ≡ ok w'
    → Sends g w w' 0
unfolding update_fee_config log_oracle_config
update_fee_config-Sends g env f w h =
    let (_, gov, h1) = >>=-eq-ok (assert_gov env w.contract) _ h in
    let (_, low, h2) =
      >>=-eq-ok (require (ltb f.total_value_staked f.flux_market_cap) total_value_too_high) _ h1 in
    let (_, fair, h3) =
      >>=-eq-ok
        (require (leb f.resolution_fee_percentage env.consts.max_resolution_fee_percentage)
          fee_percentage_too_high)
        _ h2 in
    let (config, got, h4) = >>=-eq-ok (get_config w.contract) _ h3 in
    let (last, at, h5) = >>=-eq-ok (last_config_id w.contract) _ h4 in
    omega (arith, refund_storage-Sends g env _ env.predecessor_account_id _ h5)

pub add_to_whitelist-Sends :
    (g : Weight) (env : Env) (r : Requester) (w : World) {w' : World}
    → add_to_whitelist env r w ≡ ok w'
    → Sends g w w' 0
unfolding add_to_whitelist log_whitelist
add_to_whitelist-Sends g env r w h =
    let (_, gov, h1) = >>=-eq-ok (assert_gov env w.contract) _ h in
    let (_, positive, h2) = >>=-eq-ok (check_multiplier r.stake_multiplier) _ h1 in
    omega (arith, refund_storage-Sends g env _ env.predecessor_account_id _ h2)

pub remove_from_whitelist-Sends :
    (g : Weight) (env : Env) (r : Requester) (w : World) {w' : World}
    → remove_from_whitelist env r w ≡ ok w'
    → Sends g w w' 0
unfolding remove_from_whitelist log_whitelist
remove_from_whitelist-Sends g env r w h =
    let (_, gov, h1) = >>=-eq-ok (assert_gov env w.contract) _ h in
    let (list, removed, h2) =
      >>=-eq-ok (without_requester r.account_id w.contract.whitelist) _ h1 in
    omega (arith, refund_storage-Sends g env _ env.predecessor_account_id _ h2)

pub storage_deposit-Sends :
    (g : Weight) (env : Env) (to : Option AccountId) (w : World) {r : AccountStorageBalance}
    {w' : World}
    → storage_deposit env to w ≡ ok (r, w')
    → Sends g w w' 0
unfolding storage_deposit checked_add
storage_deposit-Sends g env to w {r} {w'} h = same-Sends g w w' (ground arith)

pub storage_withdraw-Sends :
    (g : Weight) (env : Env) (x : Balance) (w : World) {r : AccountStorageBalance} {w' : World}
    → storage_withdraw env x w ≡ ok (r, w')
    → Sends g w w' 0
unfolding storage_withdraw checked_sub
storage_withdraw-Sends g env x w {r} {w'} h =
    let p = Promise.transfer env.predecessor_account_id x in
    let e : w'.storage.promises ≡ w.storage.promises ++ p ∷ [] = ground arith in
    omega (arith, ap (weigh_all g) e, weigh_all-append g w.storage.promises p)

pub use_storage-Sends :
    (g : Weight) (env : Env) (a : AccountId) (initial : ℕ) (before : Balance) (w : World)
    {w' : World}
    → use_storage env a initial before w ≡ ok w'
    → Sends g w w' 0
unfolding use_storage checked_mul checked_add
use_storage-Sends g env a initial before w {w'} h = same-Sends g w w' (ground arith)
