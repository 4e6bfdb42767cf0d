-- ===== src/Oracle/Consistency/FairCalls.antt =====
-- The calls of the oracle (oracle/src) against the bonds and the multipliers that requests are made
-- with.
use oracle_monorepo_near.Base.{
  ℕ, ◌≡◌, sym, subst, arith, String_eq, Pair_eq, get_elem?-lt, set-Each, append-Each, ltb, leb,
}
use oracle_monorepo_near.Near.{
  ok, >>=-eq-ok, require, total_value_too_high, fee_percentage_too_high,
}
use oracle_monorepo_near.Oracle.Types.{
  AccountId, Balance, Outcome, Outcome_eq, WindowId_eq, UserMap_eq, ActiveDataRequest, active,
  OracleConfig, FeeConfig, Requester, Contract, Env, World, NewDataRequestArgs,
  StakeDataRequestArgs, PromiseOrValue,
}
use oracle_monorepo_near.Oracle.Logger.{log_oracle_config, log_whitelist}
use oracle_monorepo_near.Oracle.Access.{assert_gov, get_config, last_config_id}
use oracle_monorepo_near.Oracle.Helpers.Refunds.{refund_storage-keeps}
use oracle_monorepo_near.Oracle.Configuration.{set_config, toggle_pause, update_fee_config}
use oracle_monorepo_near.Oracle.Whitelisting.{
  add_to_whitelist, remove_from_whitelist, check_multiplier, without_requester,
}
use oracle_monorepo_near.Oracle.Governance.{set_config_lem}
use oracle_monorepo_near.Oracle.Handlers.{dr_new, dr_stake}
use oracle_monorepo_near.Oracle.Handlers.Lifecycle.{Finalizes}
use oracle_monorepo_near.Oracle.Consistency.Lifecycle.{dr_new-eq-ok, last_config_id-lt}
use oracle_monorepo_near.Oracle.Consistency.Staking.{dr_stake-eq-ok}
use oracle_monorepo_near.Oracle.Consistency.Pricing.{
  HasBonds, IsWhole, IsFairRequest, IsFair, with_requester-AreWhole, without_requester-AreWhole,
  listed-IsWhole, stake-request_config, get_config-there,
}

pub kept-IsFair :
    (c c' : Contract)
    → c'.configs ≡ c.configs
    → c'.whitelist ≡ c.whitelist
    → c'.data_requests ≡ c.data_requests
    → IsFair c
    → IsFair c'
kept-IsFair c c' configs list requests fair = record {
  configs = rw configs fair.configs;
  listed = rw list fair.listed;
  requests = rw requests fair.requests;
}

pub same-IsFair : (c c' : Contract) → c' ≡ c → IsFair c → IsFair c'
same-IsFair c c' e = subst IsFair (sym e)

pub dr_new-IsFair :
    (env : Env) (a : AccountId) (x : Balance) (p : NewDataRequestArgs) (w : World) {r : Balance}
    {w' : World}
    → IsFair w.contract
    → dr_new env a x p w ≡ ok (r, w')
    → IsFair w'.contract
dr_new-IsFair env a x p w {r} {w'} fair h =
    let (dr, config, got, _, _, bond, _, _, _, contract, _, _, _, _, least, requester, known, m) =
      dr_new-eq-ok env a x p w {r = r} h in
    let (i, there) = get_config-there w.contract got in
    let bonds : HasBonds config = fair.configs i config there in
    let whole : IsWhole requester = listed-IsWhole w.contract.whitelist a fair.listed known in
    rw contract (record {
      configs = fair.configs;
      listed = fair.listed;
      requests =
          append-Each (λ i d. IsFairRequest d) w.contract.data_requests (active dr) fair.requests
            (rw (bond, least) bonds, rw m whole);
    })

pub dr_stake-IsFair :
    (env : Env) (a : AccountId) (x : Balance) (p : StakeDataRequestArgs) (w : World)
    {r : PromiseOrValue Balance} {w' : World}
    → IsFair w.contract
    → dr_stake env a x p w ≡ ok (r, w')
    → IsFair w'.contract
dr_stake-IsFair env a x p w {r} {w'} fair h =
    let (dr, unspent, dr', s, at, _, done, replaced, _, _, _, configs, list) =
      dr_stake-eq-ok env a x p w {r = r} h in
    let same = stake-request_config env dr a p.outcome x w.storage {dr' = dr'} done in
    record {
      configs = rw configs fair.configs;
      listed = rw list fair.listed;
      requests = rw replaced (
          set-Each (λ i d. IsFairRequest d) w.contract.data_requests p.id (active dr')
            (get_elem?-lt w.contract.data_requests p.id at) fair.requests
            (rw same (fair.requests p.id (active dr) at)));
    }

pub finalized-IsFair :
    (w w' : World) (id : ℕ) (dr : ActiveDataRequest) (o : Outcome)
    → Finalizes w id dr o w'
    → IsFair w.contract
    → IsFair w'.contract
finalized-IsFair w w' id dr o f fair = rw f.others (record {
  configs = fair.configs;
  listed = fair.listed;
  requests =
      set-Each (λ i d. IsFairRequest d) w.contract.data_requests id _
        (get_elem?-lt w.contract.data_requests id f.was_active) fair.requests tt;
})

pub set_config-IsFair :
    (env : Env) (c : OracleConfig) (w : World) {w' : World}
    → set_config env c w ≡ ok w'
    → IsFair w.contract
    → IsFair w'.contract
set_config-IsFair env c w h fair =
    let (bond, least, _, contract, _) = set_config_lem env c w h in
    rw contract (record {
      configs =
          append-Each (λ i config. HasBonds config) w.contract.configs c fair.configs (omega arith);
      listed = fair.listed;
      requests = fair.requests;
    })

pub toggle_pause-IsFair :
    (env : Env) (w : World) {w' : World}
    → toggle_pause env w ≡ ok w'
    → IsFair w.contract
    → IsFair w'.contract
unfolding toggle_pause
toggle_pause-IsFair env w {w'} h =
    let (_, gov, h1) = >>=-eq-ok (assert_gov env w.contract) _ h in
    kept-IsFair w.contract w'.contract (ground arith) (ground arith) (ground arith)

pub update_fee_config-IsFair :
    (env : Env) (f : FeeConfig) (w : World) {w' : World}
    → update_fee_config env f w ≡ ok w'
    → IsFair w.contract
    → IsFair w'.contract
unfolding update_fee_config log_oracle_config
update_fee_config-IsFair env f w h fair =
    let (_, gov, h1) = >>=-eq-ok (assert_gov env w.contract) _ h in
    let (_, low, h2) =
      >>=-eq-ok (require (ltb f.total_value_staked f.flux_market_cap) total_value_too_high) _ h1 in
    let (_, below, h3) =
      >>=-eq-ok
        (require (leb f.resolution_fee_percentage env.consts.max_resolution_fee_percentage)
          fee_percentage_too_high)
        _ h2 in
    let (config, got, h4) = >>=-eq-ok (get_config w.contract) _ h3 in
    let (last, at, h5) = >>=-eq-ok (last_config_id w.contract) _ h4 in
    let (contract, _, _) = refund_storage-keeps env _ env.predecessor_account_id _ h5 in
    let (i, there) = get_config-there w.contract got in
    rw contract (record {
      configs =
          set-Each (λ i config. HasBonds config) w.contract.configs last (record config { fee = f })
            (last_config_id-lt w.contract at) fair.configs (fair.configs i config there);
      listed = fair.listed;
      requests = fair.requests;
    })

pub add_to_whitelist-IsFair :
    (env : Env) (r : Requester) (w : World) {w' : World}
    → IsWhole r
    → add_to_whitelist env r w ≡ ok w'
    → IsFair w.contract
    → IsFair w'.contract
unfolding add_to_whitelist log_whitelist
add_to_whitelist-IsFair env r w whole h fair =
    let (_, gov, h1) = >>=-eq-ok (assert_gov env w.contract) _ h in
    let (_, positive, h2) = >>=-eq-ok (check_multiplier r.stake_multiplier) _ h1 in
    let (contract, _, _) = refund_storage-keeps env _ env.predecessor_account_id _ h2 in
    rw contract (record {
      configs = fair.configs;
      listed = with_requester-AreWhole r w.contract.whitelist whole fair.listed;
      requests = fair.requests;
    })

pub remove_from_whitelist-IsFair :
    (env : Env) (r : Requester) (w : World) {w' : World}
    → remove_from_whitelist env r w ≡ ok w'
    → IsFair w.contract
    → IsFair w'.contract
unfolding remove_from_whitelist log_whitelist
remove_from_whitelist-IsFair env r w h fair =
    let (_, gov, h1) = >>=-eq-ok (assert_gov env w.contract) _ h in
    let (list, removed, h2) =
      >>=-eq-ok (without_requester r.account_id w.contract.whitelist) _ h1 in
    let (contract, _, _) = refund_storage-keeps env _ env.predecessor_account_id _ h2 in
    rw contract (record {
      configs = fair.configs;
      listed = without_requester-AreWhole r.account_id w.contract.whitelist removed fair.listed;
      requests = fair.requests;
    })
