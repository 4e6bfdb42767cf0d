-- ===== src/Oracle/Consistency/Fairness.antt =====
-- Histories of the oracle (oracle/src) by the configurations and the requesters that governance sets.
use oracle_monorepo_near.Base.{
  ℕ, ◌≡◌, subst, Option, none, some, List, [], arith, String_eq, Pair_eq, append-Each, All, ◌==◌,
}
use oracle_monorepo_near.Near.{
  ok, >>=-eq-ok, require, wrong_payment_token, wrong_stake_token, checked_sub, checked_add,
  checked_mul,
}
use oracle_monorepo_near.Oracle.Types.{
  AccountId, Balance, Outcome_eq, WindowId_eq, UserMap_eq, active, OracleConfig, Requester, Env,
  World, PromiseOrValue, Payload, AccountStorageBalance,
}
use oracle_monorepo_near.Oracle.Logger.{log_oracle_config}
use oracle_monorepo_near.Oracle.Configuration
use oracle_monorepo_near.Oracle.Configuration.{set_config, toggle_pause, update_fee_config}
use oracle_monorepo_near.Oracle.Whitelisting
use oracle_monorepo_near.Oracle.Whitelisting.{
  add_to_whitelist, remove_from_whitelist, check_multiplier, with_requester, without_requester,
}
use oracle_monorepo_near.Oracle.Accounts.{storage_deposit, storage_withdraw, use_storage}
use oracle_monorepo_near.Oracle.Receiver.{dispatch}
use oracle_monorepo_near.Oracle.Handlers.{dr_new}
use oracle_monorepo_near.Oracle.Handlers.Lifecycle.{
  dr_finalize-Finalizes, dr_finalize_by_provider-Finalizes, dr_final_arbitrator_finalize-Finalizes,
}
use oracle_monorepo_near.Oracle.Consistency.Calls.{ft_on_transfer-eq-ok}
use oracle_monorepo_near.Oracle.Consistency.Unstaking.{dr_unstake-eq-ok}
use oracle_monorepo_near.Oracle.Consistency.Claims.{dr_claim-eq-ok}
use oracle_monorepo_near.Oracle.Consistency.FairCalls.{
  kept-IsFair, same-IsFair, dr_new-IsFair, dr_stake-IsFair, finalized-IsFair, set_config-IsFair,
  toggle_pause-IsFair, update_fee_config-IsFair, add_to_whitelist-IsFair,
  remove_from_whitelist-IsFair,
}
use oracle_monorepo_near.Oracle.Consistency.Pricing.{
  no_entries-AreWhole, HasBonds, IsWhole, IsFair, fair-IsPriced, insert_all-AreWhole,
}
use oracle_monorepo_near.Oracle.Consistency.Steps.{
  empty_storage, Step, tokens_received, requested, staked, unstaked, claimed, timed_out, provided,
  arbitrated, configured, toggled, fee_updated, listed, dismissed, deposited, withdrawn, WerePriced,
  Reachable, created, called,
}

-- The whitelist gains only requesters without a multiplier or with one of 10000 or more.
abbrev pub IsFairStep : {w w' : World} → Step w w' → Type 0
IsFairStep (listed env r h) = IsWhole r
IsFairStep _ = Unit

abbrev pub AreWholeIn : Option (List Requester) → Type 0
AreWholeIn none = Unit
AreWholeIn (some rs) = All IsWhole rs

abbrev pub IsFairHistory : {w : World} → Reachable w → Type 0
IsFairHistory (created env whitelist config e) = HasBonds config × AreWholeIn whitelist
IsFairHistory (called r st) = IsFairStep st × IsFairHistory r

storage_deposit-IsFair :
    (env : Env) (to : Option AccountId) (w : World) {r : AccountStorageBalance} {w' : World}
    → storage_deposit env to w ≡ ok (r, w')
    → IsFair w.contract
    → IsFair w'.contract
unfolding storage_deposit checked_add
storage_deposit-IsFair env to w {r} {w'} h =
    kept-IsFair w.contract w'.contract (ground arith) (ground arith) (ground arith)

storage_withdraw-IsFair :
    (env : Env) (amount : Balance) (w : World) {r : AccountStorageBalance} {w' : World}
    → storage_withdraw env amount w ≡ ok (r, w')
    → IsFair w.contract
    → IsFair w'.contract
unfolding storage_withdraw checked_sub
storage_withdraw-IsFair env amount w {r} {w'} h =
    kept-IsFair w.contract w'.contract (ground arith) (ground arith) (ground arith)

use_storage-IsFair :
    (env : Env) (a : AccountId) (initial : ℕ) (before : Balance) (w : World) {w' : World}
    → use_storage env a initial before w ≡ ok w'
    → IsFair w.contract
    → IsFair w'.contract
unfolding use_storage checked_mul checked_add
use_storage-IsFair env a initial before w {w'} h =
    kept-IsFair w.contract w'.contract (ground arith) (ground arith) (ground arith)

dispatch-IsFair :
    (env : Env) (config : OracleConfig) (a : AccountId) (x : Balance) (p : Payload) (w : World)
    {r : PromiseOrValue Balance} {w' : World}
    → IsFair w.contract
    → dispatch env config a x p w ≡ ok (r, w')
    → IsFair w'.contract
unfolding dispatch
dispatch-IsFair env config a x (Payload.new_data_request p) w {r} {w'} fair h =
    let (_, from, h1) =
      >>=-eq-ok (require (config.payment_token == env.predecessor_account_id) wrong_payment_token) _
        h in
    let ((u, w1), made, h2) = >>=-eq-ok (dr_new env a x p w) _ h1 in
    dr_new-IsFair env a x p w {r = u} {w' = w'} fair (ground arith)
dispatch-IsFair env config a x (Payload.stake_data_request p) w {r} {w'} fair h =
    let (_, from, h1) =
      >>=-eq-ok (require (config.stake_token == env.predecessor_account_id) wrong_stake_token) _
        h in
    dr_stake-IsFair env a x p w {r = r} fair h1

pub Step-IsFair :
    {w w' : World} (st : Step w w') → IsFairStep st → IsFair w.contract → IsFair w'.contract
Step-IsFair {w} {w'} (tokens_received env a x msg r h) whole fair =
    let (p, config, w1, _, _, done, charged) =
      ft_on_transfer-eq-ok env a x msg w {r = r} {w' = w'} h in
    use_storage-IsFair env a _ _ w1 charged (dispatch-IsFair env config a x p w {r = r} fair done)
Step-IsFair {w} (requested env a x p r h) whole fair = dr_new-IsFair env a x p w {r = r} fair h
Step-IsFair {w} (staked env a x p r h) whole fair = dr_stake-IsFair env a x p w {r = r} fair h
Step-IsFair {w} {w'} (unstaked env id n o x h) whole fair =
    let (_, _, _, _, _, _, _, same, _) = dr_unstake-eq-ok env id n o x w h in
    same-IsFair w.contract w'.contract same fair
Step-IsFair {w} {w'} (claimed env a id h) whole fair =
    let (_, _, _, _, _, same, _) = dr_claim-eq-ok env a id w h in
    same-IsFair w.contract w'.contract same fair
Step-IsFair {w} {w'} (timed_out env id h) whole fair =
    let (dr, o, _, _, _, f) = dr_finalize-Finalizes env id w h in
    finalized-IsFair w w' id dr o f fair
Step-IsFair {w} {w'} (provided env id o h) whole fair =
    let (dr, _, _, _, f) = dr_finalize_by_provider-Finalizes env id o w h in
    finalized-IsFair w w' id dr o f fair
Step-IsFair {w} {w'} (arbitrated env id o r h) whole fair =
    let (dr, _, _, _, _, _, _, _, f) =
      dr_final_arbitrator_finalize-Finalizes env id o w {r = r} {w' = w'} h in
    finalized-IsFair w w' id dr o f fair
Step-IsFair {w} (configured env c h) whole fair = set_config-IsFair env c w h fair
Step-IsFair {w} (toggled env h) whole fair = toggle_pause-IsFair env w h fair
Step-IsFair {w} (fee_updated env f h) whole fair = update_fee_config-IsFair env f w h fair
Step-IsFair {w} (listed env r h) whole fair = add_to_whitelist-IsFair env r w whole h fair
Step-IsFair {w} (dismissed env r h) whole fair = remove_from_whitelist-IsFair env r w h fair
Step-IsFair {w} {w'} (deposited env to r h) whole fair =
    storage_deposit-IsFair env to w {r = r} {w' = w'} h fair
Step-IsFair {w} {w'} (withdrawn env x r h) whole fair =
    storage_withdraw-IsFair env x w {r = r} {w' = w'} h fair

pub new-IsFair :
    (env : Env) (whitelist : Option (List Requester)) (config : OracleConfig)
    → HasBonds config
    → AreWholeIn whitelist
    → IsFair (Configuration.new env whitelist config empty_storage).contract
unfolding Configuration.new Whitelisting.new log_oracle_config
new-IsFair env none config bonds whole = record {
  configs = append-Each (λ i c. HasBonds c) [] config (λ i c h. cc) bonds;
  listed = tt;
  requests = λ i d h. cc;
}
new-IsFair env (some rs) config bonds whole = record {
  configs = append-Each (λ i c. HasBonds c) [] config (λ i c h. cc) bonds;
  listed = insert_all-AreWhole env rs [] _ whole no_entries-AreWhole;
  requests = λ i d h. cc;
}

Reachable-IsFair : {w : World} (reached : Reachable w) → IsFairHistory reached → IsFair w.contract
Reachable-IsFair (created env whitelist config e) (bonds, whole) =
    subst (λ w. IsFair w.contract) e (new-IsFair env whitelist config bonds whole)
Reachable-IsFair (called r st) (whole, fair) = Step-IsFair st whole (Reachable-IsFair r fair)

-- In a history that starts with a configuration whose validity bond and minimal resolution bond are not
-- both zero, where every requester that is put on the whitelist, at the start or later, has no
-- multiplier or one of 10000 or more: no active request has a resolution bond of zero before any call.
pub IsFairHistory-WerePriced :
    {w : World} (reached : Reachable w) → IsFairHistory reached → WerePriced reached
IsFairHistory-WerePriced (created env whitelist config e) fair = tt
IsFairHistory-WerePriced (called r st) (whole, fair) = (
  λ i dr at. fair-IsPriced dr ((Reachable-IsFair r fair).requests i (active dr) at),
  IsFairHistory-WerePriced r fair,
)
