-- ===== src/Oracle/Treasury/History.antt =====
-- The account of a request over a whole history of calls of the oracle (oracle/src).
use oracle_monorepo_near.Base.{
  ℕ, ◌+◌, ◌≤◌, ◌≡◌, refl, subst, Option, none, some, List, arith, ◌==◌, String, String_eq,
}
use oracle_monorepo_near.Near.{
  ok, >>=-eq-ok, require, wrong_payment_token, wrong_stake_token, sum_where,
}
use oracle_monorepo_near.Oracle.Types.{
  AccountId, Balance, Outcome, answer, invalid, Outcome_eq, WindowId_eq, UserMap_eq,
  ActiveDataRequest, active, OracleConfig, Payload, PromiseOrValue, Env, World, Requester,
}
use oracle_monorepo_near.Oracle.Configuration
use oracle_monorepo_near.Oracle.Active.{get_final_outcome}
use oracle_monorepo_near.Oracle.Handlers.{dr_new}
use oracle_monorepo_near.Oracle.Handlers.Lifecycle.{
  Finalizes, dr_finalize-Finalizes, dr_finalize_by_provider-Finalizes,
  dr_final_arbitrator_finalize-Finalizes,
}
use oracle_monorepo_near.Oracle.Receiver.{dispatch}
use oracle_monorepo_near.Oracle.Consistency.{IsConsistent}
use oracle_monorepo_near.Oracle.Consistency.Calls.{
  Keeps, set_config-Keeps, toggle_pause-Keeps, update_fee_config-Keeps, add_to_whitelist-Keeps,
  remove_from_whitelist-Keeps, storage_deposit-Keeps, storage_withdraw-Keeps, use_storage-Keeps,
  ft_on_transfer-eq-ok,
}
use oracle_monorepo_near.Oracle.Consistency.Steps.{
  empty_storage, Step, tokens_received, requested, staked, unstaked, claimed, timed_out, provided,
  arbitrated, configured, toggled, fee_updated, listed, dismissed, deposited, withdrawn, ArePriced,
  WerePriced, Reachable, created, called,
}
use oracle_monorepo_near.Oracle.Consistency.History.{new-fresh, Reachable-IsConsistent}
use oracle_monorepo_near.Oracle.Treasury.{
  Account, nothing, plus, of_message, for_request, bond_for, bond_in_time, bond_by_arbitrator, flow,
  account,
}
use oracle_monorepo_near.Oracle.Treasury.Owed.{IsSolvent, IsSolvent-covered}
use oracle_monorepo_near.Oracle.Treasury.Stakes.{dr_stake-IsSolvent, dr_unstake-IsSolvent}
use oracle_monorepo_near.Oracle.Treasury.Requests.{dr_new-IsSolvent}
use oracle_monorepo_near.Oracle.Treasury.Claims.{dr_claim-IsSolvent}
use oracle_monorepo_near.Oracle.Treasury.Finals.{finalized-IsSolvent}

kept-IsSolvent :
    (id : ℕ) (w w' : World) (acc : Account) → Keeps w w' → IsSolvent id w acc → IsSolvent id w' acc
kept-IsSolvent id w w' acc (r, s, _) h = record {
  stakes = rw s h.stakes;
  payments = rw (r, s) h.payments;
}

plus-nothing : (acc : Account) → plus acc nothing ≡ acc
plus-nothing acc = ground arith

-- A call that moves no tokens of a request.
quiet-IsSolvent :
    (id : ℕ) (w w' : World) (acc : Account)
    → Keeps w w'
    → IsSolvent id w acc
    → IsSolvent id w' (plus acc nothing)
quiet-IsSolvent id w w' acc k h = rw plus-nothing (kept-IsSolvent id w w' acc k h)

bond_for-le :
    (dr : ActiveDataRequest) (o : Outcome) → bond_for dr o ≤ dr.request_config.validity_bond
bond_for-le dr (answer x) = omega arith
bond_for-le dr invalid = omega arith

dispatch-IsSolvent :
    (id : ℕ) (env : Env) (config : OracleConfig) (a : AccountId) (x : Balance) (p : Payload)
    (w : World) (acc : Account) {r : PromiseOrValue Balance} {w' : World}
    → ArePriced w
    → IsConsistent w
    → dispatch env config a x p w ≡ ok (r, w')
    → IsSolvent id w acc
    → IsSolvent id w' (plus acc (of_message id w x r p))
unfolding dispatch
dispatch-IsSolvent id env config a x (Payload.new_data_request p) w acc {r} {w'} bonds v h sol =
    let (_, from, h1) =
      >>=-eq-ok (require (config.payment_token == env.predecessor_account_id) wrong_payment_token) _
        h in
    let ((u, w1), made, h2) = >>=-eq-ok (dr_new env a x p w) _ h1 in
    dr_new-IsSolvent id env a x p w acc {r = u} v (ground arith) sol
dispatch-IsSolvent id env config a x (Payload.stake_data_request p) w acc {r} {w'} bonds v h sol =
    let (_, from, h1) =
      >>=-eq-ok (require (config.stake_token == env.predecessor_account_id) wrong_stake_token) _
        h in
    dr_stake-IsSolvent id env a x p w acc {r = r} bonds v h1 sol

pub bond_in_time-eq :
    (dr : ActiveDataRequest) (o : Outcome)
    → get_final_outcome dr ≡ ok o
    → bond_in_time (active dr) ≡ record nothing { bonds = bond_for dr o }
bond_in_time-eq dr o h = rw (bond_in_time, h) refl

-- A call keeps every request solvent.
module _ (id : ℕ) {w w' : World} (acc : Account) (bonds : ArePriced w) (v : IsConsistent w)
    (sol : IsSolvent id w acc) where
  message-IsSolvent :
      (env : Env) (a : AccountId) (x : Balance) (msg : String) (r : PromiseOrValue Balance)
      (p : Payload) (config : OracleConfig) (w1 : World)
      → env.parse_payload msg ≡ some p
      → dispatch env config a x p w ≡ ok (r, w1)
      → Keeps w1 w'
      → IsSolvent id w' (
          plus acc
            (elim (env.parse_payload msg) [ some q ↦ of_message id w x r q | none ↦ nothing ]))
  message-IsSolvent env a x msg r p config w1 parsed done kept = rw parsed (
      kept-IsSolvent id w1 w' (plus acc (of_message id w x r p)) kept
        (dispatch-IsSolvent id env config a x p w acc {r = r} bonds v done sol))

  timed_out-IsSolvent :
      (j : ℕ) (dr : ActiveDataRequest) (o : Outcome)
      → get_final_outcome dr ≡ ok o
      → Finalizes w j dr o w'
      → IsSolvent id w' (plus acc (for_request id j w bond_in_time))
  timed_out-IsSolvent j dr o final f =
      finalized-IsSolvent id j w w' dr o acc (for_request id j w bond_in_time) v f (λ e. rw e refl)
        (λ e. (bond_for dr o, rw (e, f.was_active) (bond_in_time-eq dr o final), bond_for-le dr o))
        sol

  arbitrated-IsSolvent :
      (j : ℕ) (dr : ActiveDataRequest) (o : Outcome)
      → Finalizes w j dr o w'
      → IsSolvent id w' (plus acc (for_request id j w (bond_by_arbitrator o)))
  arbitrated-IsSolvent j dr o f =
      finalized-IsSolvent id j w w' dr o acc (for_request id j w (bond_by_arbitrator o)) v f
        (λ e. rw e refl) (λ e. (bond_for dr o, rw (e, f.was_active) refl, bond_for-le dr o)) sol

  pub Step-IsSolvent : (st : Step w w') → IsSolvent id w' (plus acc (flow id st))
  unfolding flow
  Step-IsSolvent (tokens_received env a x msg r h) =
      let (p, config, w1, parsed, _, done, charged) =
        ft_on_transfer-eq-ok env a x msg w {r = r} {w' = w'} h in
      message-IsSolvent env a x msg r p config w1 parsed done
        (use_storage-Keeps env a _ _ w1 charged)
  Step-IsSolvent (requested env a x p r h) = dr_new-IsSolvent id env a x p w acc {r = r} v h sol
  Step-IsSolvent (staked env a x p r h) =
      dr_stake-IsSolvent id env a x p w acc {r = r} bonds v h sol
  Step-IsSolvent (unstaked env j n o x h) = dr_unstake-IsSolvent id env j n o x w acc v h sol
  Step-IsSolvent (claimed env a j h) = dr_claim-IsSolvent id env a j w acc v h sol
  Step-IsSolvent (timed_out env j h) =
      let (dr, o, _, _, final, f) = dr_finalize-Finalizes env j w {w' = w'} h in
      timed_out-IsSolvent j dr o final f
  Step-IsSolvent (provided env j o h) =
      let (dr, _, _, _, f) = dr_finalize_by_provider-Finalizes env j o w {w' = w'} h in
      finalized-IsSolvent id j w w' dr o acc nothing v f (λ e. refl) (λ e. (0, refl, omega arith))
        sol
  Step-IsSolvent (arbitrated env j o r h) =
      let (dr, _, _, _, _, _, _, _, f) =
        dr_final_arbitrator_finalize-Finalizes env j o w {r = r} {w' = w'} h in
      arbitrated-IsSolvent j dr o f
  Step-IsSolvent (configured env c h) = quiet-IsSolvent id w w' acc (set_config-Keeps env c w h) sol
  Step-IsSolvent (toggled env h) = quiet-IsSolvent id w w' acc (toggle_pause-Keeps env w h) sol
  Step-IsSolvent (fee_updated env f h) =
      quiet-IsSolvent id w w' acc (update_fee_config-Keeps env f w h) sol
  Step-IsSolvent (listed env r h) =
      quiet-IsSolvent id w w' acc (add_to_whitelist-Keeps env r w h) sol
  Step-IsSolvent (dismissed env r h) =
      quiet-IsSolvent id w w' acc (remove_from_whitelist-Keeps env r w h) sol
  Step-IsSolvent (deposited env to r h) =
      quiet-IsSolvent id w w' acc (storage_deposit-Keeps env to w {r = r} {w' = w'} h) sol
  Step-IsSolvent (withdrawn env x r h) =
      quiet-IsSolvent id w w' acc (storage_withdraw-Keeps env x w {r = r} {w' = w'} h) sol

pub new-IsSolvent :
    (id : ℕ) (env : Env) (whitelist : Option (List Requester)) (config : OracleConfig)
    → IsSolvent id (Configuration.new env whitelist config empty_storage) nothing
unfolding sum_where
new-IsSolvent id env whitelist config =
    let (requests, stakes) = new-fresh env whitelist config in
    record {
      stakes = rw stakes (omega arith);
      payments = rw requests (omega arith, omega arith, omega arith);
    }

Reachable-IsSolvent :
    (id : ℕ) {w : World} (reached : Reachable w)
    → WerePriced reached
    → IsSolvent id w (account id reached)
unfolding account
Reachable-IsSolvent id (created env whitelist config e) had =
    subst (λ w. IsSolvent id w nothing) e (new-IsSolvent id env whitelist config)
Reachable-IsSolvent id (called r st) (bonds, had) =
    Step-IsSolvent id (account id r) bonds (Reachable-IsConsistent r had)
      (Reachable-IsSolvent id r had) st

-- No request pays out more than it took in.
pub request_solvent :
    (id : ℕ) {w : World} (reached : Reachable w)
    → WerePriced reached
    → ((account id reached).unstaked + (account id reached).claimed ≤ (account id reached).staked)
      × ((account id reached).fees + (account id reached).bonds ≤ (account id reached).paid_in)
request_solvent id {w} reached had =
    IsSolvent-covered id w (account id reached) (Reachable-IsConsistent reached had)
      (Reachable-IsSolvent id reached had)
