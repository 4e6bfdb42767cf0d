-- ===== src/Oracle/Treasury/Sends.antt =====
-- The promises of each call of the oracle (oracle/src) against the account of the request that it is
-- about.
use oracle_monorepo_near.Base.{
  ℕ, ◌+◌, ◌≡◌, refl, ap, ◌∙◌, [], ◌∷◌, ◌++◌, arith, leb, String_eq, Pair_eq, get_elem?, some,
}
use oracle_monorepo_near.Near.{
  ok, >>=-eq-ok, checked_sub, require, expect, not_enough_gas, no_resolution_window,
}
use oracle_monorepo_near.Oracle.Types.{
  AccountId, Balance, Outcome, Outcome_eq, WindowId_eq, UserMap_eq, FinalizedDataRequest,
  DataRequest, active, finalized, ClaimRes, OracleConfig, PromiseOrValue, NewDataRequestArgs,
  StakeDataRequestArgs, Env, World, Storage,
}
use oracle_monorepo_near.Oracle.Helpers.{refund_storage, fungible_token_transfer}
use oracle_monorepo_near.Oracle.Logger.{
  log_update_active_data_request, log_update_finalized_data_request,
}
use oracle_monorepo_near.Oracle.Access.{assert_unpaused}
use oracle_monorepo_near.Oracle.Finalized.{claim}
use oracle_monorepo_near.Oracle.Handlers.{
  dr_new, dr_stake, dr_unstake, dr_claim, dr_get_expect, dr_get_expect_finalized, config_at,
  get_config_id, unstake, payout, log_update, windows_of,
}
use oracle_monorepo_near.Oracle.Consistency.Staking.{dr_stake-eq-ok}
use oracle_monorepo_near.Oracle.Consistency.Lifecycle.{dr_new-eq-ok}
use oracle_monorepo_near.Oracle.Treasury.Sent.{
  Sends, Weight, weigh_all, weigh_all-append, refund_storage-Sends, active_stake-promises,
  unstake-promises, claim-promises, payout-weighed,
}

pub same-Sends :
    (g : Weight) (w w' : World) → w'.storage.promises ≡ w.storage.promises → Sends g w w' 0
same-Sends g w w' h = rw h (omega arith)

pub dr_new-Sends :
    (g : Weight) (env : Env) (a : AccountId) (x : Balance) (p : NewDataRequestArgs) (w : World)
    {r : Balance} {w' : World}
    → dr_new env a x p w ≡ ok (r, w')
    → Sends g w w' 0
dr_new-Sends g env a x p w {r} {w'} h =
    let (_, _, _, _, _, _, _, _, _, _, _, _, same, _, _, _, _, _) =
      dr_new-eq-ok env a x p w {r = r} {w' = w'} h in
    same-Sends g w w' same

pub dr_stake-Sends :
    (g : Weight) (env : Env) (a : AccountId) (x : Balance) (p : StakeDataRequestArgs) (w : World)
    {r : PromiseOrValue Balance} {w' : World}
    → dr_stake env a x p w ≡ ok (r, w')
    → Sends g w w' 0
dr_stake-Sends g env a x p w {r} {w'} h =
    let (dr, unspent, dr', s, _, _, staked, _, _, _, same, _, _) =
      dr_stake-eq-ok env a x p w {r = r} {w' = w'} h in
    same-Sends g w w' (
      same
      ∙ active_stake-promises env dr a p.outcome x w.storage {unspent = unspent} {dr' = dr'} staked)

log_update-promises : (d : DataRequest) (s : Storage) → (log_update d s).promises ≡ s.promises
unfolding log_update_active_data_request log_update_finalized_data_request
log_update-promises (active dr) s = refl
log_update-promises (finalized dr) s = refl

pub dr_unstake-Sends :
    (g : Weight) (env : Env) (id round : ℕ) (o : Outcome) (x : Balance) (w : World) {w' : World}
    → dr_unstake env id round o x w ≡ ok w'
    → (d : DataRequest) × (config : OracleConfig) × (get_elem? w.contract.data_requests id ≡ some d)
      × (get_elem? w.contract.configs (get_config_id d) ≡ some config)
      × Sends g w w' (g config.stake_token env.predecessor_account_id x)
unfolding dr_unstake dr_get_expect unstake fungible_token_transfer
dr_unstake-Sends g env id round o x w {w'} h =
    let a = env.predecessor_account_id in
    let (_, unpaused, h1) = >>=-eq-ok (assert_unpaused w.contract) _ h in
    let (d, got, h2) = >>=-eq-ok (dr_get_expect id w.contract) _ h1 in
    let ((taken, s), unstaked, h3) = >>=-eq-ok (unstake env d a round o x w.storage) _ h2 in
    let (config, at, h4) = >>=-eq-ok (config_at (get_config_id d) w.contract) _ h3 in
    let (refunded, ref, h5) = >>=-eq-ok (refund_storage env _ a _) _ h4 in
    let (window, found, done) =
      >>=-eq-ok (expect (get_elem? (windows_of d) round) no_resolution_window) _ unstaked in
    let (same, all) = unstake-promises env window a o x w.storage {taken = taken} {s' = s} done in
    let p = fungible_token_transfer config.stake_token a taken in
    let ended : w'.storage.promises ≡ refunded.storage.promises ++ p ∷ [] =
      ground (arith, log_update-promises d refunded.storage) in
    (
      d,
      config,
      ground (arith, got),
      ground (arith, at),
      omega (
        arith,
        ap (weigh_all g) ended,
        weigh_all-append g refunded.storage.promises p,
        refund_storage-Sends g env _ a _ ref,
        ap (weigh_all g) same,
        ap (g config.stake_token a) all,
      ),
    )

pub dr_claim-Sends :
    (g : Weight) (none : (t b : AccountId) → g t b 0 ≡ 0) (env : Env) (a : AccountId) (id : ℕ)
    (w : World) {w' : World}
    → dr_claim env a id w ≡ ok w'
    → (dr : FinalizedDataRequest) × (config : OracleConfig) × (r : ClaimRes) × (s : Storage)
      × (get_elem? w.contract.data_requests id ≡ some (finalized dr))
      × (claim env dr a w.storage ≡ ok (r, s))
      × (get_elem? w.contract.configs dr.global_config_id ≡ some config)
      × Sends g w w' (
          g config.stake_token a r.stake_token_payout
          + g config.payment_token a r.payment_token_payout)
unfolding dr_claim log_update_finalized_data_request dr_get_expect_finalized
dr_claim-Sends g none env a id w {w'} h =
    let (_, unpaused, h1) = >>=-eq-ok (assert_unpaused w.contract) _ h in
    let (dr, got, h2) = >>=-eq-ok (dr_get_expect_finalized id w.contract) _ h1 in
    let ((r, s), claimed, h3) = >>=-eq-ok (claim env dr a w.storage) _ h2 in
    let (config, at, h4) = >>=-eq-ok (config_at dr.global_config_id w.contract) _ h3 in
    let (refunded, ref, h5) = >>=-eq-ok (refund_storage env _ env.predecessor_account_id _) _ h4 in
    let (gas, left, h6) = >>=-eq-ok (checked_sub env.prepaid_gas (env.used_gas refunded)) _ h5 in
    let (_, enough, h7) =
      >>=-eq-ok (require (leb env.consts.gas_base_transfer gas) not_enough_gas) _ h6 in
    let (p, paid, h8) = >>=-eq-ok (payout config a r) _ h7 in
    let ended : w'.storage.promises ≡ refunded.storage.promises ++ p ∷ [] = ground arith in
    (
      dr,
      config,
      r,
      s,
      ground (arith, got),
      claimed,
      ground (arith, at),
      omega (
        arith,
        ap (weigh_all g) ended,
        weigh_all-append g refunded.storage.promises p,
        payout-weighed g none config a r paid,
        refund_storage-Sends g env _ env.predecessor_account_id _ ref,
        ap (weigh_all g) (claim-promises env dr a w.storage {r = r} {s' = s} claimed),
      ),
    )
