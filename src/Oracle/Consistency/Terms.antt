-- ===== src/Oracle/Consistency/Terms.antt =====
-- Who changes the configurations, the fees, the pause and the whitelist of the oracle
-- (oracle/src/oracle_config.rs, fee_config.rs, whitelist.rs), over all its calls.
use oracle_monorepo_near.Base.{
  ℕ, ◌≡◌, refl, ◌∙◌, ◌⊎◌, inl, inr, Option, arith, String, String_eq, Pair_eq, ◌==◌,
}
use oracle_monorepo_near.Near.{
  ok, >>=-eq-ok, require, checked_sub, checked_add, checked_mul, wrong_payment_token,
  wrong_stake_token,
}
use oracle_monorepo_near.Oracle.Types.{
  AccountId, Balance, Outcome, Outcome_eq, WindowId_eq, UserMap_eq, ActiveDataRequest, OracleConfig,
  Env, World, NewDataRequestArgs, StakeDataRequestArgs, PromiseOrValue, Payload,
  AccountStorageBalance,
}
use oracle_monorepo_near.Oracle.Logger.{log_update_active_data_request}
use oracle_monorepo_near.Oracle.Access.{assert_unpaused, assert_sender}
use oracle_monorepo_near.Oracle.Guards.{
  assert_final_arbitrator_not_invoked, assert_can_stake_on_outcome, assert_valid_outcome,
  assert_valid_outcome_type,
}
use oracle_monorepo_near.Oracle.Active
use oracle_monorepo_near.Oracle.Accounts.{storage_deposit, storage_withdraw, use_storage}
use oracle_monorepo_near.Oracle.Receiver.{dispatch, ft_on_transfer}
use oracle_monorepo_near.Oracle.Handlers.{dr_new, dr_stake, dr_get_expect_active, config_at}
use oracle_monorepo_near.Oracle.Handlers.Lifecycle.{
  Finalizes, dr_finalize-Finalizes, dr_finalize_by_provider-Finalizes,
  dr_final_arbitrator_finalize-Finalizes,
}
use oracle_monorepo_near.Oracle.Governance.{
  IsGovernance, GovernanceCall, config_set, pause_toggled, whitelisted, GovernanceCall-IsGovernance,
}
use oracle_monorepo_near.Oracle.Governance
use oracle_monorepo_near.Oracle.Consistency.Calls.{ft_on_transfer-eq-ok}
use oracle_monorepo_near.Oracle.Consistency.Claims.{dr_claim-eq-ok}
use oracle_monorepo_near.Oracle.Consistency.Lifecycle.{dr_new-eq-ok}
use oracle_monorepo_near.Oracle.Consistency.Unstaking.{dr_unstake-eq-ok}
use oracle_monorepo_near.Oracle.Consistency.Steps.{
  Step, tokens_received, requested, staked, unstaked, claimed, timed_out, provided, arbitrated,
  configured, toggled, fee_updated, listed, dismissed, deposited, withdrawn, call_env,
}

-- The pause, the configurations with their fees, and the whitelist are unchanged.
pub record KeepsTerms (w w' : World) : Type 0 where
  pub paused : w'.contract.paused ≡ w.contract.paused
  pub configs : w'.contract.configs ≡ w.contract.configs
  pub whitelist : w'.contract.whitelist ≡ w.contract.whitelist

same-KeepsTerms : (w w' : World) → w'.contract ≡ w.contract → KeepsTerms w w'
same-KeepsTerms w w' e = record { paused = rw e refl; configs = rw e refl; whitelist = rw e refl }

dr_new-KeepsTerms :
    (env : Env) (a : AccountId) (x : Balance) (p : NewDataRequestArgs) (w : World) {r : Balance}
    {w' : World}
    → dr_new env a x p w ≡ ok (r, w')
    → KeepsTerms w w'
dr_new-KeepsTerms env a x p w {r} h =
    let (_, _, _, _, _, _, _, _, _, contract, _, _, _, _, _, _, _, _) =
      dr_new-eq-ok env a x p w {r = r} h in
    record { paused = rw contract refl; configs = rw contract refl; whitelist = rw contract refl }

dr_stake-KeepsTerms :
    (env : Env) (a : AccountId) (x : Balance) (p : StakeDataRequestArgs) (w : World)
    {r : PromiseOrValue Balance} {w' : World}
    → dr_stake env a x p w ≡ ok (r, w')
    → KeepsTerms w w'
unfolding dr_stake log_update_active_data_request
dr_stake-KeepsTerms env a x p w {r} {w'} h =
    let (_, unpaused, h1) = >>=-eq-ok (assert_unpaused w.contract) _ h in
    let (dr, got, h2) = >>=-eq-ok (dr_get_expect_active p.id w.contract) _ h1 in
    let (config, at, h3) = >>=-eq-ok (config_at dr.global_config_id w.contract) _ h2 in
    let (_, sent, h4) = >>=-eq-ok (assert_sender env config.stake_token) _ h3 in
    let (_, waiting, h5) = >>=-eq-ok (assert_final_arbitrator_not_invoked dr) _ h4 in
    let (_, other, h6) = >>=-eq-ok (assert_can_stake_on_outcome dr p.outcome) _ h5 in
    let (_, valid, h7) = >>=-eq-ok (assert_valid_outcome dr p.outcome) _ h6 in
    let (_, typed, h8) = >>=-eq-ok (assert_valid_outcome_type dr p.outcome) _ h7 in
    let ((unspent, dr', s), taken, h9) =
      >>=-eq-ok (Active.stake env dr a p.outcome x w.storage) _ h8 in
    record { paused = ground arith; configs = ground arith; whitelist = ground arith }

finalized-KeepsTerms :
    (w w' : World) (id : ℕ) (dr : ActiveDataRequest) (o : Outcome)
    → Finalizes w id dr o w'
    → KeepsTerms w w'
finalized-KeepsTerms w w' id dr o f = record {
  paused = rw f.others refl;
  configs = rw f.others refl;
  whitelist = rw f.others refl;
}

storage_deposit-KeepsTerms :
    (env : Env) (to : Option AccountId) (w : World) {r : AccountStorageBalance} {w' : World}
    → storage_deposit env to w ≡ ok (r, w')
    → KeepsTerms w w'
unfolding storage_deposit checked_add
storage_deposit-KeepsTerms env to w h = record {
  paused = ground arith;
  configs = ground arith;
  whitelist = ground arith;
}

storage_withdraw-KeepsTerms :
    (env : Env) (amount : Balance) (w : World) {r : AccountStorageBalance} {w' : World}
    → storage_withdraw env amount w ≡ ok (r, w')
    → KeepsTerms w w'
unfolding storage_withdraw checked_sub
storage_withdraw-KeepsTerms env amount w h = record {
  paused = ground arith;
  configs = ground arith;
  whitelist = ground arith;
}

use_storage-KeepsTerms :
    (env : Env) (a : AccountId) (initial : ℕ) (before : Balance) (w : World) {w' : World}
    → use_storage env a initial before w ≡ ok w'
    → KeepsTerms w w'
unfolding use_storage checked_mul checked_add
use_storage-KeepsTerms env a initial before w h = record {
  paused = ground arith;
  configs = ground arith;
  whitelist = ground arith;
}

dispatch-KeepsTerms :
    (env : Env) (config : OracleConfig) (a : AccountId) (x : Balance) (p : Payload) (w : World)
    {r : PromiseOrValue Balance} {w' : World}
    → dispatch env config a x p w ≡ ok (r, w')
    → KeepsTerms w w'
unfolding dispatch
dispatch-KeepsTerms env config a x (Payload.new_data_request p) w {r} {w'} h =
    let (_, from, h1) =
      >>=-eq-ok (require (config.payment_token == env.predecessor_account_id) wrong_payment_token) _
        h in
    let ((u, w1), made, h2) = >>=-eq-ok (dr_new env a x p w) _ h1 in
    dr_new-KeepsTerms env a x p w {r = u} {w' = w'} (ground arith)
dispatch-KeepsTerms env config a x (Payload.stake_data_request p) w {r} {w'} h =
    let (_, from, h1) =
      >>=-eq-ok (require (config.stake_token == env.predecessor_account_id) wrong_stake_token) _
        h in
    dr_stake-KeepsTerms env a x p w {r = r} h1

message-KeepsTerms :
    (env : Env) (a : AccountId) (x : Balance) (msg : String) (w : World)
    {r : PromiseOrValue Balance} {w' : World}
    → ft_on_transfer env a x msg w ≡ ok (r, w')
    → KeepsTerms w w'
message-KeepsTerms env a x msg w {r} {w'} h =
    let (p, config, w1, _, _, done, charged) =
      ft_on_transfer-eq-ok env a x msg w {r = r} {w' = w'} h in
    let made = dispatch-KeepsTerms env config a x p w {r = r} {w' = w1} done in
    let paid = use_storage-KeepsTerms env a _ _ w1 {w' = w'} charged in
    record {
      paused = paid.paused ∙ made.paused;
      configs = paid.configs ∙ made.configs;
      whitelist = paid.whitelist ∙ made.whitelist;
    }

-- A call that returns was made by the governance account of the current configuration, or it leaves as
-- they are the pause, every configuration with its fees, and the whitelist. Such a call is a message of
-- tokens, a request, a stake, an unstake, a claim, one of the three finalizations, or a call of
-- governance or for a storage account.
pub Step-terms : {w w' : World} (st : Step w w') → IsGovernance (call_env st) w ⊎ KeepsTerms w w'
Step-terms {w} (tokens_received env a x msg r h) = inr (message-KeepsTerms env a x msg w {r = r} h)
Step-terms {w} (requested env a x p r h) = inr (dr_new-KeepsTerms env a x p w {r = r} h)
Step-terms {w} (staked env a x p r h) = inr (dr_stake-KeepsTerms env a x p w {r = r} h)
Step-terms {w} {w'} (unstaked env id n o x h) =
    let (_, _, _, _, _, _, _, contract, _) = dr_unstake-eq-ok env id n o x w h in
    inr (same-KeepsTerms w w' contract)
Step-terms {w} {w'} (claimed env a id h) =
    let (_, _, _, _, _, contract, _) = dr_claim-eq-ok env a id w {w' = w'} h in
    inr (same-KeepsTerms w w' contract)
Step-terms {w} {w'} (timed_out env id h) =
    let (dr, o, _, _, _, f) = dr_finalize-Finalizes env id w {w' = w'} h in
    inr (finalized-KeepsTerms w w' id dr o f)
Step-terms {w} {w'} (provided env id o h) =
    let (dr, _, _, _, f) = dr_finalize_by_provider-Finalizes env id o w {w' = w'} h in
    inr (finalized-KeepsTerms w w' id dr o f)
Step-terms {w} {w'} (arbitrated env id o r h) =
    let (dr, _, _, _, _, _, _, _, f) =
      dr_final_arbitrator_finalize-Finalizes env id o w {r = r} {w' = w'} h in
    inr (finalized-KeepsTerms w w' id dr o f)
Step-terms {w} (configured env c h) = inl (GovernanceCall-IsGovernance env w (config_set c h))
Step-terms {w} (toggled env h) = inl (GovernanceCall-IsGovernance env w (pause_toggled h))
Step-terms {w} (fee_updated env f h) =
    inl (GovernanceCall-IsGovernance env w (Governance.fee_updated f h))
Step-terms {w} (listed env r h) = inl (GovernanceCall-IsGovernance env w (whitelisted r h))
Step-terms {w} (dismissed env r h) =
    inl (GovernanceCall-IsGovernance env w (Governance.dismissed r h))
Step-terms {w} (deposited env to r h) = inr (storage_deposit-KeepsTerms env to w {r = r} h)
Step-terms {w} (withdrawn env x r h) = inr (storage_withdraw-KeepsTerms env x w {r = r} h)
