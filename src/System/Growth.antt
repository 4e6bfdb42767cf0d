-- ===== src/System/Growth.antt =====
-- The requests and the configured tokens of the oracle (oracle/src) after a call.
use oracle_monorepo_near.Base.{
  ◌≤◌, ◌≡◌, arith, String, String_eq, Pair_eq, length, Each, set-Each, append-Each, ltb, leb,
}
use oracle_monorepo_near.Near.{
  ok, >>=-eq-ok, require, total_value_too_high, fee_percentage_too_high,
}
use oracle_monorepo_near.Oracle.Types.{
  AccountId, Balance, Outcome_eq, WindowId_eq, UserMap_eq, OracleConfig, FeeConfig, Env, World,
  PromiseOrValue,
}
use oracle_monorepo_near.Oracle.Logger.{log_oracle_config}
use oracle_monorepo_near.Oracle.Access.{assert_gov, get_config, last_config_id}
use oracle_monorepo_near.Oracle.Helpers.Refunds.{refund_storage-keeps}
use oracle_monorepo_near.Oracle.Configuration.{set_config, update_fee_config}
use oracle_monorepo_near.Oracle.Governance.{set_config_lem}
use oracle_monorepo_near.Oracle.Receiver.{ft_on_transfer}
use oracle_monorepo_near.Oracle.Handlers.Lifecycle.{
  dr_finalize-Finalizes, dr_finalize_by_provider-Finalizes, dr_final_arbitrator_finalize-Finalizes,
}
use oracle_monorepo_near.Oracle.Consistency.Lifecycle.{last_config_id-lt}
use oracle_monorepo_near.Oracle.Consistency.Unstaking.{dr_unstake-eq-ok}
use oracle_monorepo_near.Oracle.Consistency.Claims.{dr_claim-eq-ok}
use oracle_monorepo_near.Oracle.Consistency.Pricing.{get_config-there}
use oracle_monorepo_near.Oracle.Consistency.Steps.{
  Step, tokens_received, requested, staked, unstaked, claimed, timed_out, provided, arbitrated,
  configured, toggled, fee_updated, listed, dismissed, deposited, withdrawn,
}
use oracle_monorepo_near.System.{UsesToken, IsOutside}
use oracle_monorepo_near.Oracle.Consistency.Lasting.{
  Lasts, dr_new-Lasts, dr_stake-Lasts, finalized-Lasts, toggle_pause-Lasts, add_to_whitelist-Lasts,
  remove_from_whitelist-Lasts, storage_deposit-Lasts, storage_withdraw-Lasts, message-Lasts,
}

module _ (token_id oracle_id : AccountId) where
  -- Every configuration uses the token.
  abbrev pub UseToken : World → Type 0
  UseToken w = Each (λ i c. UsesToken token_id oracle_id c) w.contract.configs

  abbrev Grows : World → World → Type 0
  Grows w w' =
      (length w.contract.data_requests ≤ length w'.contract.data_requests)
      × (UseToken w → UseToken w')

  lasting : (w w' : World) → Lasts w w' → Grows w w'
  lasting w w' (more, same) = (more, λ all. rw same all)

  set_config-Grows :
      (env : Env) (c : OracleConfig) (w : World) {w' : World}
      → UsesToken token_id oracle_id c
      → set_config env c w ≡ ok w'
      → Grows w w'
  set_config-Grows env c w uses h =
      let (_, _, _, contract, _) = set_config_lem env c w h in
      (
        rw contract (omega arith),
        λ all.
            rw contract
              (append-Each (λ i d. UsesToken token_id oracle_id d) w.contract.configs c all uses),
      )

  update_fee_config-Grows :
      (env : Env) (f : FeeConfig) (w : World) {w' : World}
      → update_fee_config env f w ≡ ok w'
      → Grows w w'
  unfolding update_fee_config log_oracle_config
  update_fee_config-Grows env f w h =
      let (_, gov, h1) = >>=-eq-ok (assert_gov env w.contract) _ h in
      let (_, low, h2) =
        >>=-eq-ok (require (ltb f.total_value_staked f.flux_market_cap) total_value_too_high) _
          h1 in
      let (_, below, h3) =
        >>=-eq-ok
          (require (leb f.resolution_fee_percentage env.consts.max_resolution_fee_percentage)
            fee_percentage_too_high)
          _ h2 in
      let (config, got, h4) = >>=-eq-ok (get_config w.contract) _ h3 in
      let (last, at, h5) = >>=-eq-ok (last_config_id w.contract) _ h4 in
      let (contract, _, _) = refund_storage-keeps env _ env.predecessor_account_id _ h5 in
      let (i, there) = get_config-there w.contract got in
      (
        rw contract (omega arith),
        λ all. rw contract (
            set-Each (λ i d. UsesToken token_id oracle_id d) w.contract.configs last
              (record config { fee = f }) (last_config_id-lt w.contract at) all
              (all i config there)),
      )

  -- A message, or a call from outside the token contract, keeps the requests and the token.
  pub message-Grows :
      (env : Env) (a : AccountId) (x : Balance) (msg : String) (w : World)
      {r : PromiseOrValue Balance} {w' : World}
      → ft_on_transfer env a x msg w ≡ ok (r, w')
      → Grows w w'
  message-Grows env a x msg w {r} {w'} h = lasting w w' (message-Lasts env a x msg w {r = r} h)

  pub outside-Grows : {w w' : World} (st : Step w w') → IsOutside token_id oracle_id st → Grows w w'
  outside-Grows {w} {w'} (tokens_received env a x msg r h) apart =
      message-Grows env a x msg w {r = r} h
  outside-Grows {w} {w'} (requested env a x p r h) apart =
      lasting w w' (dr_new-Lasts env a x p w {r = r} h)
  outside-Grows {w} {w'} (staked env a x p r h) apart =
      lasting w w' (dr_stake-Lasts env a x p w {r = r} h)
  outside-Grows {w} {w'} (unstaked env id n o x h) apart =
      let (_, _, _, _, _, _, _, same, _) = dr_unstake-eq-ok env id n o x w h in
      (rw same (omega arith), λ all. rw same all)
  outside-Grows {w} {w'} (claimed env a id h) apart =
      let (_, _, _, _, _, same, _) = dr_claim-eq-ok env a id w h in
      (rw same (omega arith), λ all. rw same all)
  outside-Grows {w} {w'} (timed_out env id h) apart =
      let (dr, o, _, _, _, f) = dr_finalize-Finalizes env id w h in
      lasting w w' (finalized-Lasts w w' id dr o f)
  outside-Grows {w} {w'} (provided env id o h) apart =
      let (dr, _, _, _, f) = dr_finalize_by_provider-Finalizes env id o w h in
      lasting w w' (finalized-Lasts w w' id dr o f)
  outside-Grows {w} {w'} (arbitrated env id o r h) apart =
      let (dr, _, _, _, _, _, _, _, f) =
        dr_final_arbitrator_finalize-Finalizes env id o w {r = r} {w' = w'} h in
      lasting w w' (finalized-Lasts w w' id dr o f)
  outside-Grows {w} (configured env c h) uses = set_config-Grows env c w uses h
  outside-Grows {w} {w'} (toggled env h) apart = lasting w w' (toggle_pause-Lasts env w h)
  outside-Grows {w} (fee_updated env f h) apart = update_fee_config-Grows env f w h
  outside-Grows {w} {w'} (listed env r h) apart = lasting w w' (add_to_whitelist-Lasts env r w h)
  outside-Grows {w} {w'} (dismissed env r h) apart =
      lasting w w' (remove_from_whitelist-Lasts env r w h)
  outside-Grows {w} {w'} (deposited env to r h) apart =
      lasting w w' (storage_deposit-Lasts env to w {r = r} {w' = w'} h)
  outside-Grows {w} {w'} (withdrawn env x r h) apart =
      lasting w w' (storage_withdraw-Lasts env x w {r = r} {w' = w'} h)
