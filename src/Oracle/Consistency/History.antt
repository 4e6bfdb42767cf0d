-- ===== src/Oracle/Consistency/History.antt =====
-- What holds after any history of calls of the oracle contract (oracle/src), from its creation.
use oracle_monorepo_near.Base.{
  ℕ, ◌+◌, ◌≤◌, ◌≡◌, refl, subst, true, Option, none, some, List, [], ◌∷◌, arith, String_eq, Pair_eq,
  get_elem?, ◌==◌,
}
use oracle_monorepo_near.Near.{
  LookupMap, insert, ok, >>=-eq-ok, get, require, wrong_payment_token, wrong_stake_token, sum_where,
}
use oracle_monorepo_near.Oracle.Types.{
  AccountId, Balance, Outcome_eq, WindowId_eq, UserMap_eq, FinalizedDataRequest, finalized,
  OracleConfig, Requester, Payload, PromiseOrValue, ClaimRes, Env, World, Storage,
}
use oracle_monorepo_near.Oracle.Logger.{log_oracle_config, log_whitelist}
use oracle_monorepo_near.Oracle.Whitelisting
use oracle_monorepo_near.Oracle.Whitelisting.{insert_all, add_to_whitelist, remove_from_whitelist}
use oracle_monorepo_near.Oracle.Configuration
use oracle_monorepo_near.Oracle.Configuration.{set_config, toggle_pause, update_fee_config}
use oracle_monorepo_near.Oracle.Receiver.{dispatch}
use oracle_monorepo_near.Oracle.Handlers.{dr_new}
use oracle_monorepo_near.Oracle.Handlers.Lifecycle.{
  dr_finalize-Finalizes, dr_finalize_by_provider-Finalizes, dr_final_arbitrator_finalize-Finalizes,
}
use oracle_monorepo_near.Oracle.Window.Staking.{IsSound}
use oracle_monorepo_near.Oracle.Finalized.Totals.{correct_bonds, incorrect_bonds}
use oracle_monorepo_near.Oracle.Finalized.Payouts.{claim_all, claim_all-covered}
use oracle_monorepo_near.Oracle.Consistency.{IsConsistent}
use oracle_monorepo_near.Oracle.Consistency.Updates.{same-IsConsistent}
use oracle_monorepo_near.Oracle.Consistency.Staking.{dr_stake-IsConsistent}
use oracle_monorepo_near.Oracle.Consistency.Unstaking.{dr_unstake-IsConsistent}
use oracle_monorepo_near.Oracle.Consistency.Lifecycle.{dr_new-IsConsistent, finalized-IsConsistent}
use oracle_monorepo_near.Oracle.Consistency.Claims.{distinct, fits, dr_claim-IsConsistent}
use oracle_monorepo_near.Oracle.Consistency.Calls.{
  Keeps, set_config-Keeps, toggle_pause-Keeps, update_fee_config-Keeps, add_to_whitelist-Keeps,
  remove_from_whitelist-Keeps, storage_deposit-Keeps, storage_withdraw-Keeps, use_storage-Keeps,
  ft_on_transfer-eq-ok,
}
use oracle_monorepo_near.Oracle.Consistency.Steps.{
  empty_storage, Step, tokens_received, requested, staked, unstaked, claimed, timed_out, provided,
  arbitrated, configured, toggled, fee_updated, listed, dismissed, deposited, withdrawn, ArePriced,
  WerePriced, Reachable, created, called,
}

kept-IsConsistent : (w w' : World) → Keeps w w' → IsConsistent w → IsConsistent w'
kept-IsConsistent w w' (r, s, c) v = same-IsConsistent w w' r s c v

dispatch-IsConsistent :
    (env : Env) (config : OracleConfig) (a : AccountId) (x : Balance) (p : Payload) (w : World)
    {r : PromiseOrValue Balance} {w' : World}
    → ArePriced w
    → IsConsistent w
    → dispatch env config a x p w ≡ ok (r, w')
    → IsConsistent w'
unfolding dispatch
dispatch-IsConsistent env config a x (Payload.new_data_request p) w {r} {w'} bonds v h =
    let (_, from, h1) =
      >>=-eq-ok (require (config.payment_token == env.predecessor_account_id) wrong_payment_token) _
        h in
    let ((u, w1), made, h2) = >>=-eq-ok (dr_new env a x p w) _ h1 in
    dr_new-IsConsistent env a x p w {r = u} v (ground arith)
dispatch-IsConsistent env config a x (Payload.stake_data_request p) w {r} {w'} bonds v h =
    let (_, from, h1) =
      >>=-eq-ok (require (config.stake_token == env.predecessor_account_id) wrong_stake_token) _
        h in
    dr_stake-IsConsistent env a x p w {r = r} bonds v h1

pub Step-IsConsistent : {w w' : World} → ArePriced w → Step w w' → IsConsistent w → IsConsistent w'
Step-IsConsistent {w} {w'} bonds (tokens_received env a x msg r h) v =
    let (p, config, w1, _, _, done, charged) =
      ft_on_transfer-eq-ok env a x msg w {r = r} {w' = w'} h in
    kept-IsConsistent w1 w' (use_storage-Keeps env a _ _ w1 charged)
      (dispatch-IsConsistent env config a x p w {r = r} bonds v done)
Step-IsConsistent {w} bonds (requested env a x p r h) v =
    dr_new-IsConsistent env a x p w {r = r} v h
Step-IsConsistent {w} bonds (staked env a x p r h) v =
    dr_stake-IsConsistent env a x p w {r = r} bonds v h
Step-IsConsistent {w} bonds (unstaked env id n o x h) v = dr_unstake-IsConsistent env id n o x w v h
Step-IsConsistent {w} bonds (claimed env a id h) v = dr_claim-IsConsistent env a id w v h
Step-IsConsistent {w} {w'} bonds (timed_out env id h) v =
    let (dr, o, _, _, _, f) = dr_finalize-Finalizes env id w h in
    finalized-IsConsistent w w' id dr o f v
Step-IsConsistent {w} {w'} bonds (provided env id o h) v =
    let (dr, _, _, _, f) = dr_finalize_by_provider-Finalizes env id o w h in
    finalized-IsConsistent w w' id dr o f v
Step-IsConsistent {w} {w'} bonds (arbitrated env id o r h) v =
    let (dr, _, _, _, _, _, _, _, f) =
      dr_final_arbitrator_finalize-Finalizes env id o w {r = r} {w' = w'} h in
    finalized-IsConsistent w w' id dr o f v
Step-IsConsistent {w} {w'} bonds (configured env c h) v =
    kept-IsConsistent w w' (set_config-Keeps env c w h) v
Step-IsConsistent {w} {w'} bonds (toggled env h) v =
    kept-IsConsistent w w' (toggle_pause-Keeps env w h) v
Step-IsConsistent {w} {w'} bonds (fee_updated env f h) v =
    kept-IsConsistent w w' (update_fee_config-Keeps env f w h) v
Step-IsConsistent {w} {w'} bonds (listed env r h) v =
    kept-IsConsistent w w' (add_to_whitelist-Keeps env r w h) v
Step-IsConsistent {w} {w'} bonds (dismissed env r h) v =
    kept-IsConsistent w w' (remove_from_whitelist-Keeps env r w h) v
Step-IsConsistent {w} {w'} bonds (deposited env to r h) v =
    kept-IsConsistent w w' (storage_deposit-Keeps env to w {r = r} {w' = w'} h) v
Step-IsConsistent {w} {w'} bonds (withdrawn env x r h) v =
    kept-IsConsistent w w' (storage_withdraw-Keeps env x w {r = r} {w' = w'} h) v

insert_all-stakes :
    (env : Env) (rs : List Requester) (m : LookupMap AccountId Requester) (s : Storage)
    → (insert_all env rs m s).1.stakes ≡ s.stakes
unfolding log_whitelist
insert_all-stakes env [] m s = refl
insert_all-stakes env (r ∷ rs) m s =
    insert_all-stakes env rs (insert r.account_id r m) (log_whitelist env r true s)

-- A fresh contract has no requests, and its storage no stakes.
pub new-fresh :
    (env : Env) (whitelist : Option (List Requester)) (config : OracleConfig)
    → ((Configuration.new env whitelist config empty_storage).contract.data_requests ≡ [])
      × ((Configuration.new env whitelist config empty_storage).storage.stakes
          ≡ empty_storage.stakes)
unfolding Configuration.new Whitelisting.new log_oracle_config
new-fresh env none config = (refl, refl)
new-fresh env (some rs) config =
    (refl, insert_all-stakes env rs [] (log_oracle_config env config 0 empty_storage))

no_stakes-IsSound : IsSound empty_storage.stakes
unfolding get sum_where
no_stakes-IsSound = record {
  canonical = λ v a m h. cc;
  registered = λ v a o h. refl;
  covered = λ v o. omega arith;
}

pub new-IsConsistent :
    (env : Env) (whitelist : Option (List Requester)) (config : OracleConfig)
    → IsConsistent (Configuration.new env whitelist config empty_storage)
unfolding get
new-IsConsistent env whitelist config =
    let (requests, stakes) = new-fresh env whitelist config in
    record {
      sound = rw stakes no_stakes-IsSound;
      requests = rw requests (λ i d h. cc);
      fits = rw (requests, stakes) (λ v o. omega arith);
      full = rw (requests, stakes) (λ v o. omega arith);
      known = rw requests (λ i d h. cc);
    }

-- In every state that a fresh contract can reach by calls that return, where no active request had a
-- resolution bond of zero before any call, the contract is consistent: the stakes are
-- sound, the windows of every request are numbered in order, active requests have bonds that double
-- from window to window and at most 128 windows, no outcome has more staked on it than the bond of its
-- window, a window that is bonded has its whole bond staked on the bonded outcome, and the
-- configuration that each request was made under is there.
pub Reachable-IsConsistent :
    {w : World} (reached : Reachable w) → WerePriced reached → IsConsistent w
Reachable-IsConsistent (created env whitelist config e) had =
    subst IsConsistent e (new-IsConsistent env whitelist config)
Reachable-IsConsistent (called r st) (bonds, had) =
    Step-IsConsistent bonds st (Reachable-IsConsistent r had)

-- In every state that a fresh contract can reach by calls that return, where no active request had a
-- resolution bond of zero before any call: claims on a finalized request that return, by
-- whomever, in whatever order and however often, pay together at most the bonds of its bonded windows
-- in stakes, and at most the fee that was paid for it in fees.
pub Reachable-claims_covered :
    {w : World} (id : ℕ) {dr : FinalizedDataRequest} (calls : List (Env × AccountId)) {r : ClaimRes}
    {s : Storage} (reached : Reachable w)
    → WerePriced reached
    → get_elem? w.contract.data_requests id ≡ some (finalized dr)
    → claim_all dr calls w.storage ≡ ok (r, s)
    → (r.stake_token_payout
        ≤ correct_bonds dr.finalized_outcome dr.resolution_windows
          + incorrect_bonds dr.finalized_outcome dr.resolution_windows)
      × (r.payment_token_payout ≤ dr.paid_fee)
Reachable-claims_covered {w} id {dr} calls {r} {s} reached had at h =
    let v = Reachable-IsConsistent reached had in
    claim_all-covered dr calls w.storage {r = r} {s' = s} (distinct w v id dr at) v.sound
      (fits w v id dr at) h
