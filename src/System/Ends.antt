-- ===== src/System/Ends.antt =====
-- The finalized requests of the oracle (oracle/src) before and after a call.
use oracle_monorepo_near.Base.{
  ℕ, ◌≡◌, ◌≢◌, refl, sym, ap, ◌∙◌, ◌⊎◌, inl, inr, some, List, arith, get_elem?, get_elem?-lt, Each,
  set-Each, append-Each, String_eq, Pair_eq, nat-cases, ◌==◌,
}
use oracle_monorepo_near.Near.{ok, >>=-eq-ok, require, wrong_payment_token, wrong_stake_token}
use oracle_monorepo_near.Oracle.Types.{
  AccountId, Balance, Outcome, Outcome_eq, WindowId_eq, UserMap_eq, ActiveDataRequest,
  FinalizedDataRequest, DataRequest, active, finalized, OracleConfig, Payload, PromiseOrValue, Env,
  World, NewDataRequestArgs, StakeDataRequestArgs,
}
use oracle_monorepo_near.Oracle.Finalized.{trim_dr}
use oracle_monorepo_near.Oracle.Handlers.{dr_new, dr_stake}
use oracle_monorepo_near.Oracle.Handlers.Lifecycle.{
  Finalizes, dr_finalize-Finalizes, dr_finalize_by_provider-Finalizes,
  dr_final_arbitrator_finalize-Finalizes,
}
use oracle_monorepo_near.Oracle.Receiver.{dispatch}
use oracle_monorepo_near.Oracle.Consistency.Calls.{
  set_config-Keeps, toggle_pause-Keeps, update_fee_config-Keeps, add_to_whitelist-Keeps,
  remove_from_whitelist-Keeps, storage_deposit-Keeps, storage_withdraw-Keeps, use_storage-Keeps,
  ft_on_transfer-eq-ok,
}
use oracle_monorepo_near.Oracle.Consistency.Lifecycle.{dr_new-eq-ok}
use oracle_monorepo_near.Oracle.Consistency.Staking.{dr_stake-eq-ok}
use oracle_monorepo_near.Oracle.Consistency.Unstaking.{dr_unstake-eq-ok}
use oracle_monorepo_near.Oracle.Consistency.Claims.{dr_claim-eq-ok}
use oracle_monorepo_near.Oracle.Consistency.Steps.{
  Step, tokens_received, requested, staked, unstaked, claimed, timed_out, provided, arbitrated,
  configured, toggled, fee_updated, listed, dismissed, deposited, withdrawn,
}
use oracle_monorepo_near.Oracle.Treasury.{
  of_message, of_stake, of_request, claim_of, bond_in_time, bond_by_arbitrator, flow,
}
use oracle_monorepo_near.System.Flows.{
  for_request-untaken, claim_of-untaken, bond_in_time-untaken, bond_by_arbitrator-untaken,
}

-- The request in place `i` was finalized before, or was active with the fee of its finalized form.
abbrev pub WasKnown : World → ℕ → FinalizedDataRequest → Type 0
WasKnown w i dr =
    (get_elem? w.contract.data_requests i ≡ some (finalized dr))
    ⊎ ((a : ActiveDataRequest) × (get_elem? w.contract.data_requests i ≡ some (active a))
        × (a.request_config.paid_fee ≡ dr.paid_fee))

-- Where a finalized request stands in place `i`, it was known and has no new stakes.
abbrev pub Past : World → (ℕ → Balance) → ℕ → DataRequest → Type 0
Past w stakes i d =
    (dr : FinalizedDataRequest) → d ≡ finalized dr → WasKnown w i dr × (stakes i ≡ 0)

active≢finalized : (a : ActiveDataRequest) (dr : FinalizedDataRequest) → active a ≢ finalized dr
active≢finalized a dr h = cc

some_active≢finalized :
    (a : ActiveDataRequest) (dr : FinalizedDataRequest) → some (active a) ≢ some (finalized dr)
some_active≢finalized a dr h = cc

before-Past :
    (w : World) (stakes : ℕ → Balance)
    → ((i : ℕ) → stakes i ≡ 0)
    → Each (Past w stakes) w.contract.data_requests
before-Past w stakes none_new i d at dr e = (inl (at ∙ ap some e), none_new i)

same-Past :
    (w : World) (stakes : ℕ → Balance) (ds : List DataRequest)
    → ((i : ℕ) → stakes i ≡ 0)
    → ds ≡ w.contract.data_requests
    → Each (Past w stakes) ds
same-Past w stakes ds none_new same = rw same (before-Past w stakes none_new)

dr_new-Past :
    (env : Env) (a : AccountId) (x : Balance) (p : NewDataRequestArgs) (w : World) {r : Balance}
    {w' : World} (stakes : ℕ → Balance)
    → ((i : ℕ) → stakes i ≡ 0)
    → dr_new env a x p w ≡ ok (r, w')
    → Each (Past w stakes) w'.contract.data_requests
dr_new-Past env a x p w {r} stakes none_new h =
    let (new, _, _, _, _, _, _, _, _, contract, _, _, _, _, _, _, _, _) =
      dr_new-eq-ok env a x p w {r = r} h in
    rw contract (
      append-Each (Past w stakes) w.contract.data_requests (active new)
        (before-Past w stakes none_new) (λ dr e. absurd (active≢finalized new dr e)))

dr_stake-Past :
    (env : Env) (a : AccountId) (x : Balance) (p : StakeDataRequestArgs) (w : World)
    {r : PromiseOrValue Balance} {w' : World}
    → dr_stake env a x p w ≡ ok (r, w')
    → Each (Past w (λ i. (of_stake i p.id x r).staked)) w'.contract.data_requests
dr_stake-Past env a x p w {r} h =
    let ds = w.contract.data_requests in
    let (old, _, new, _, at, _, _, replaced, _, _, _, _, _) =
      dr_stake-eq-ok env a x p w {r = r} h in
    let stakes = λ (i : ℕ). (of_stake i p.id x r).staked in
    let past : Each (Past w stakes) ds = λ i d there dr e. elim (nat-cases p.id i) [
      | inl q ↦
          absurd (some_active≢finalized old dr (sym at ∙ ap (get_elem? ds) q ∙ there ∙ ap some e))
      | inr ne ↦ (inl (there ∙ ap some e), ground arith)
    ] in
    rw replaced (
      set-Each (Past w stakes) ds p.id (active new) (get_elem?-lt ds p.id at) past
        (λ dr e. absurd (active≢finalized new dr e)))

finalized-Past :
    (w w' : World) (id : ℕ) (a : ActiveDataRequest) (o : Outcome) (stakes : ℕ → Balance)
    → ((i : ℕ) → stakes i ≡ 0)
    → Finalizes w id a o w'
    → Each (Past w stakes) w'.contract.data_requests
unfolding trim_dr
finalized-Past w w' id a o stakes none_new f =
    let ds = w.contract.data_requests in
    rw f.others (
      set-Each (Past w stakes) ds id (finalized (trim_dr a o)) (get_elem?-lt ds id f.was_active)
        (before-Past w stakes none_new)
        (λ dr e. (inr (a, f.was_active, fee_of (trim_dr a o) dr e), none_new id)))
  where
    fee_of : (d dr : FinalizedDataRequest) → finalized d ≡ finalized dr → d.paid_fee ≡ dr.paid_fee
    fee_of d dr e = cc

dispatch-Past :
    (env : Env) (config : OracleConfig) (a : AccountId) (x : Balance) (p : Payload) (w : World)
    {r : PromiseOrValue Balance} {w' : World}
    → dispatch env config a x p w ≡ ok (r, w')
    → Each (Past w (λ i. (of_message i w x r p).staked)) w'.contract.data_requests
unfolding dispatch
dispatch-Past env config a x (Payload.new_data_request p) w {r} {w'} h =
    let (_, from, h1) =
      >>=-eq-ok (require (config.payment_token == env.predecessor_account_id) wrong_payment_token) _
        h in
    let ((u, w1), made, h2) = >>=-eq-ok (dr_new env a x p w) _ h1 in
    dr_new-Past env a x p w {r = u} {w' = w'} (λ i. (of_request i w x).staked) (λ i. ground arith)
      (ground arith)
dispatch-Past env config a x (Payload.stake_data_request p) w {r} {w'} h =
    let (_, from, h1) =
      >>=-eq-ok (require (config.stake_token == env.predecessor_account_id) wrong_stake_token) _
        h in
    dr_stake-Past env a x p w {r = r} h1

-- A finalized request after a call.
pub Step-Past :
    {w w' : World} (st : Step w w')
    → Each (Past w (λ i. (flow i st).staked)) w'.contract.data_requests
unfolding flow
Step-Past {w} {w'} (tokens_received env a x msg r h) =
    let (p, config, w1, parsed, _, done, charged) =
      ft_on_transfer-eq-ok env a x msg w {r = r} {w' = w'} h in
    let (same, _, _) = use_storage-Keeps env a _ _ w1 charged in
    rw (flow, parsed, same) (dispatch-Past env config a x p w {r = r} {w' = w1} done)
Step-Past {w} (requested env a x p r h) =
    dr_new-Past env a x p w {r = r} (λ i. (of_request i w x).staked) (λ i. ground arith) h
Step-Past {w} (staked env a x p r h) = dr_stake-Past env a x p w {r = r} h
Step-Past {w} {w'} (unstaked env j n o x h) =
    let (_, _, _, _, _, _, _, same, _) = dr_unstake-eq-ok env j n o x w h in
    same-Past w _ _ (λ i. ground arith) (ap (λ c. c.data_requests) same)
Step-Past {w} {w'} (claimed env a j h) =
    let (_, _, _, _, _, same, _) = dr_claim-eq-ok env a j w h in
    same-Past w _ _
      (λ i. omega (arith, for_request-untaken i j w (claim_of env a w) (claim_of-untaken env a w)))
      (ap (λ c. c.data_requests) same)
Step-Past {w} {w'} (timed_out env j h) =
    let (dr, o, _, _, _, f) = dr_finalize-Finalizes env j w h in
    finalized-Past w w' j dr o _
      (λ i. omega (arith, for_request-untaken i j w bond_in_time bond_in_time-untaken)) f
Step-Past {w} {w'} (provided env j o h) =
    let (dr, _, _, _, f) = dr_finalize_by_provider-Finalizes env j o w h in
    finalized-Past w w' j dr o _ (λ i. refl) f
Step-Past {w} {w'} (arbitrated env j o r h) =
    let (dr, _, _, _, _, _, _, _, f) =
      dr_final_arbitrator_finalize-Finalizes env j o w {r = r} {w' = w'} h in
    finalized-Past w w' j dr o _
      (λ i.
        omega
          (arith, for_request-untaken i j w (bond_by_arbitrator o) (bond_by_arbitrator-untaken o)))
      f
Step-Past {w} (configured env c h) = same-Past w _ _ (λ i. refl) (set_config-Keeps env c w h).0
Step-Past {w} (toggled env h) = same-Past w _ _ (λ i. refl) (toggle_pause-Keeps env w h).0
Step-Past {w} (fee_updated env f h) =
    same-Past w _ _ (λ i. refl) (update_fee_config-Keeps env f w h).0
Step-Past {w} (listed env r h) = same-Past w _ _ (λ i. refl) (add_to_whitelist-Keeps env r w h).0
Step-Past {w} (dismissed env r h) =
    same-Past w _ _ (λ i. refl) (remove_from_whitelist-Keeps env r w h).0
Step-Past {w} {w'} (deposited env to r h) =
    same-Past w _ _ (λ i. refl) (storage_deposit-Keeps env to w {r = r} {w' = w'} h).0
Step-Past {w} {w'} (withdrawn env x r h) =
    same-Past w _ _ (λ i. refl) (storage_withdraw-Keeps env x w {r = r} {w' = w'} h).0
