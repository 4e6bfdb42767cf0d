-- ===== src/Oracle/Consistency/Lasting.antt =====
-- The number of requests and the configurations of the oracle (oracle/src) after a call.
use oracle_monorepo_near.Base.{
  ℕ, ◌≤◌, ◌≡◌, Option, [], ◌∷◌, arith, String, String_eq, Pair_eq, length, length-append,
  length-set, ◌==◌, ◌∙◌,
}
use oracle_monorepo_near.Near.{
  ok, >>=-eq-ok, require, checked_sub, checked_add, checked_mul, wrong_payment_token,
  wrong_stake_token,
}
use oracle_monorepo_near.Oracle.Types.{
  AccountId, Balance, Outcome, Outcome_eq, WindowId_eq, UserMap_eq, ActiveDataRequest, active,
  finalized, OracleConfig, Requester, Env, World, NewDataRequestArgs, StakeDataRequestArgs,
  PromiseOrValue, Payload, AccountStorageBalance,
}
use oracle_monorepo_near.Oracle.Logger.{log_whitelist}
use oracle_monorepo_near.Oracle.Access.{assert_gov}
use oracle_monorepo_near.Oracle.Helpers.Refunds.{refund_storage-keeps}
use oracle_monorepo_near.Oracle.Configuration.{toggle_pause}
use oracle_monorepo_near.Oracle.Whitelisting.{
  add_to_whitelist, remove_from_whitelist, check_multiplier, without_requester,
}
use oracle_monorepo_near.Oracle.Accounts.{storage_deposit, storage_withdraw, use_storage}
use oracle_monorepo_near.Oracle.Receiver.{dispatch, ft_on_transfer}
use oracle_monorepo_near.Oracle.Handlers.{dr_new, dr_stake}
use oracle_monorepo_near.Oracle.Handlers.Lifecycle.{Finalizes}
use oracle_monorepo_near.Oracle.Finalized.{trim_dr}
use oracle_monorepo_near.Oracle.Consistency.Calls.{ft_on_transfer-eq-ok}
use oracle_monorepo_near.Oracle.Consistency.Lifecycle.{dr_new-eq-ok}
use oracle_monorepo_near.Oracle.Consistency.Staking.{dr_stake-eq-ok}

-- No fewer requests, and the same configurations.
abbrev pub Lasts : World → World → Type 0
Lasts w w' =
    (length w.contract.data_requests ≤ length w'.contract.data_requests)
    × (w'.contract.configs ≡ w.contract.configs)

pub dr_new-Lasts :
    (env : Env) (a : AccountId) (x : Balance) (p : NewDataRequestArgs) (w : World) {r : Balance}
    {w' : World}
    → dr_new env a x p w ≡ ok (r, w')
    → Lasts w w'
dr_new-Lasts env a x p w {r} h =
    let (dr, _, _, _, _, _, _, _, _, contract, _, _, _, _, _, _, _, _) =
      dr_new-eq-ok env a x p w {r = r} h in
    (
      rw contract (omega (arith, length-append {0} w.contract.data_requests (active dr ∷ []))),
      rw contract,
    )

pub dr_stake-Lasts :
    (env : Env) (a : AccountId) (x : Balance) (p : StakeDataRequestArgs) (w : World)
    {r : PromiseOrValue Balance} {w' : World}
    → dr_stake env a x p w ≡ ok (r, w')
    → Lasts w w'
dr_stake-Lasts env a x p w {r} h =
    let (_, _, dr', _, _, _, _, replaced, _, _, _, configs, _) =
      dr_stake-eq-ok env a x p w {r = r} h in
    (rw replaced (omega (arith, length-set w.contract.data_requests p.id (active dr'))), configs)

pub finalized-Lasts :
    (w w' : World) (id : ℕ) (dr : ActiveDataRequest) (o : Outcome)
    → Finalizes w id dr o w'
    → Lasts w w'
finalized-Lasts w w' id dr o f = (
  rw f.others (omega (arith, length-set w.contract.data_requests id (finalized (trim_dr dr o)))),
  rw f.others,
)

pub toggle_pause-Lasts :
    (env : Env) (w : World) {w' : World} → toggle_pause env w ≡ ok w' → Lasts w w'
unfolding toggle_pause
toggle_pause-Lasts env w h =
    let (_, gov, h1) = >>=-eq-ok (assert_gov env w.contract) _ h in ground arith

pub add_to_whitelist-Lasts :
    (env : Env) (r : Requester) (w : World) {w' : World}
    → add_to_whitelist env r w ≡ ok w'
    → Lasts w w'
unfolding add_to_whitelist log_whitelist
add_to_whitelist-Lasts env r w h =
    let (_, gov, h1) = >>=-eq-ok (assert_gov env w.contract) _ h in
    let (_, positive, h2) = >>=-eq-ok (check_multiplier r.stake_multiplier) _ h1 in
    let (contract, _, _) = refund_storage-keeps env _ env.predecessor_account_id _ h2 in
    (rw contract (omega arith), rw contract)

pub remove_from_whitelist-Lasts :
    (env : Env) (r : Requester) (w : World) {w' : World}
    → remove_from_whitelist env r w ≡ ok w'
    → Lasts w w'
unfolding remove_from_whitelist log_whitelist
remove_from_whitelist-Lasts env r w h =
    let (_, gov, h1) = >>=-eq-ok (assert_gov env w.contract) _ h in
    let (list, removed, h2) =
      >>=-eq-ok (without_requester r.account_id w.contract.whitelist) _ h1 in
    let (contract, _, _) = refund_storage-keeps env _ env.predecessor_account_id _ h2 in
    (rw contract (omega arith), rw contract)

pub storage_deposit-Lasts :
    (env : Env) (to : Option AccountId) (w : World) {r : AccountStorageBalance} {w' : World}
    → storage_deposit env to w ≡ ok (r, w')
    → Lasts w w'
unfolding storage_deposit checked_add
storage_deposit-Lasts env to w h = ground arith

pub storage_withdraw-Lasts :
    (env : Env) (amount : Balance) (w : World) {r : AccountStorageBalance} {w' : World}
    → storage_withdraw env amount w ≡ ok (r, w')
    → Lasts w w'
unfolding storage_withdraw checked_sub
storage_withdraw-Lasts env amount w h = ground arith

use_storage-Lasts :
    (env : Env) (a : AccountId) (initial : ℕ) (before : Balance) (w : World) {w' : World}
    → use_storage env a initial before w ≡ ok w'
    → Lasts w w'
unfolding use_storage checked_mul checked_add
use_storage-Lasts env a initial before w h = ground arith

dispatch-Lasts :
    (env : Env) (config : OracleConfig) (a : AccountId) (x : Balance) (p : Payload) (w : World)
    {r : PromiseOrValue Balance} {w' : World}
    → dispatch env config a x p w ≡ ok (r, w')
    → Lasts w w'
unfolding dispatch
dispatch-Lasts env config a x (Payload.new_data_request p) w {r} {w'} h =
    let (_, from, h1) =
      >>=-eq-ok (require (config.payment_token == env.predecessor_account_id) wrong_payment_token) _
        h in
    let ((u, w1), made, h2) = >>=-eq-ok (dr_new env a x p w) _ h1 in
    dr_new-Lasts env a x p w {r = u} {w' = w'} (ground arith)
dispatch-Lasts env config a x (Payload.stake_data_request p) w {r} {w'} h =
    let (_, from, h1) =
      >>=-eq-ok (require (config.stake_token == env.predecessor_account_id) wrong_stake_token) _
        h in
    dr_stake-Lasts env a x p w {r = r} h1

pub message-Lasts :
    (env : Env) (a : AccountId) (x : Balance) (msg : String) (w : World)
    {r : PromiseOrValue Balance} {w' : World}
    → ft_on_transfer env a x msg w ≡ ok (r, w')
    → Lasts w w'
message-Lasts env a x msg w {r} {w'} h =
    let (p, config, w1, _, _, done, charged) =
      ft_on_transfer-eq-ok env a x msg w {r = r} {w' = w'} h in
    let (more, same) = dispatch-Lasts env config a x p w {r = r} {w' = w1} done in
    let (more', same') = use_storage-Lasts env a _ _ w1 {w' = w'} charged in
    (omega (arith, more, more'), same' ∙ same)
