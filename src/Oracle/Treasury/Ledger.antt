-- ===== src/Oracle/Treasury/Ledger.antt =====
-- The accounts of the requests and the promises of the oracle (oracle/src) over a whole history.
use oracle_monorepo_near.Base.{
  ℕ, ◌+◌, ◌≤◌, ◌≡◌, refl, true, ap, subst, inl, inr, none, some, Bool-cases, Option, List, [], ◌∷◌,
  arith, length, ltb, String_eq, Pair_eq,
}
use oracle_monorepo_near.Oracle.Types.{
  AccountId, Storage, OracleConfig, Requester, Env, World, Outcome_eq, WindowId_eq, UserMap_eq,
}
use oracle_monorepo_near.Near.{LookupMap, insert}
use oracle_monorepo_near.Oracle.Logger.{log_oracle_config, log_whitelist}
use oracle_monorepo_near.Oracle.Whitelisting
use oracle_monorepo_near.Oracle.Whitelisting.{insert_all}
use oracle_monorepo_near.Oracle.Configuration
use oracle_monorepo_near.Oracle.Handlers.Lifecycle.{
  dr_finalize-Finalizes, dr_finalize_by_provider-Finalizes, dr_final_arbitrator_finalize-Finalizes,
}
use oracle_monorepo_near.Oracle.Consistency.Calls.{set_config-Keeps, update_fee_config-Keeps}
use oracle_monorepo_near.Oracle.Consistency.Claims.{dr_claim-eq-ok}
use oracle_monorepo_near.Oracle.Consistency.Unstaking.{dr_unstake-eq-ok}
use oracle_monorepo_near.Oracle.Consistency.Lasting.{
  dr_new-Lasts, dr_stake-Lasts, finalized-Lasts, toggle_pause-Lasts, add_to_whitelist-Lasts,
  remove_from_whitelist-Lasts, storage_deposit-Lasts, storage_withdraw-Lasts, message-Lasts,
}
use oracle_monorepo_near.Oracle.Consistency.Steps.{
  Step, tokens_received, requested, staked, unstaked, claimed, timed_out, provided, arbitrated,
  configured, toggled, fee_updated, listed, dismissed, deposited, withdrawn, Reachable, created,
  called, WerePriced, empty_storage,
}
use oracle_monorepo_near.Oracle.Treasury.{Account, plus, flow, account}
use oracle_monorepo_near.Oracle.Treasury.Sent.{sent_all}
use oracle_monorepo_near.Oracle.Treasury.Sums.{
  sum_to, sum_to-add, sum_to-none, sum_to-one, sum_to-at,
}
use oracle_monorepo_near.Oracle.Treasury.Unpaid.{paid_out, missing-unpaid}
use oracle_monorepo_near.Oracle.Treasury.Promises.{Step-sent}
use oracle_monorepo_near.Oracle.Treasury.History.{request_solvent}

-- A call removes no request.
abbrev IsLonger : World → World → Type 0
IsLonger w w' = length w.contract.data_requests ≤ length w'.contract.data_requests

Step-IsLonger : {w w' : World} → Step w w' → IsLonger w w'
Step-IsLonger {w} {w'} (tokens_received env a x msg r h) =
    (message-Lasts env a x msg w {r = r} {w' = w'} h).0
Step-IsLonger {w} (requested env a x p r h) = (dr_new-Lasts env a x p w {r = r} h).0
Step-IsLonger {w} (staked env a x p r h) = (dr_stake-Lasts env a x p w {r = r} h).0
Step-IsLonger {w} (unstaked env id n o x h) =
    let (_, _, _, _, _, _, _, contract, _) = dr_unstake-eq-ok env id n o x w h in
    rw contract (omega arith)
Step-IsLonger {w} {w'} (claimed env a id h) =
    let (_, _, _, _, _, contract, _) = dr_claim-eq-ok env a id w {w' = w'} h in
    rw contract (omega arith)
Step-IsLonger {w} {w'} (timed_out env id h) =
    let (dr, o, _, _, _, f) = dr_finalize-Finalizes env id w {w' = w'} h in
    (finalized-Lasts w w' id dr o f).0
Step-IsLonger {w} {w'} (provided env id o h) =
    let (dr, _, _, _, f) = dr_finalize_by_provider-Finalizes env id o w {w' = w'} h in
    (finalized-Lasts w w' id dr o f).0
Step-IsLonger {w} {w'} (arbitrated env id o r h) =
    let (dr, _, _, _, _, _, _, _, f) =
      dr_final_arbitrator_finalize-Finalizes env id o w {r = r} {w' = w'} h in
    (finalized-Lasts w w' id dr o f).0
Step-IsLonger {w} (configured env c h) = rw (set_config-Keeps env c w h).0 (omega arith)
Step-IsLonger {w} (toggled env h) = (toggle_pause-Lasts env w h).0
Step-IsLonger {w} (fee_updated env f h) = rw (update_fee_config-Keeps env f w h).0 (omega arith)
Step-IsLonger {w} (listed env r h) = (add_to_whitelist-Lasts env r w h).0
Step-IsLonger {w} (dismissed env r h) = (remove_from_whitelist-Lasts env r w h).0
Step-IsLonger {w} (deposited env to r h) = (storage_deposit-Lasts env to w {r = r} h).0
Step-IsLonger {w} (withdrawn env x r h) = (storage_withdraw-Lasts env x w {r = r} h).0

-- A call sends what it pays out of the accounts of the requests that are there.
Step-paid :
    {w w' : World} (st : Step w w') (n : ℕ)
    → length w.contract.data_requests ≤ n
    → sent_all w'.storage.promises
      ≡ sent_all w.storage.promises + sum_to n (λ i. paid_out (flow i st))
Step-paid {w} st n all =
    let (id, sends, others) = Step-sent st in
    let paid : ℕ → ℕ = λ i. paid_out (flow i st) in
    elim (Bool-cases (ltb id n)) [
      | inl e ↦
          omega (arith, sends, sum_to-at n paid id (ground arith), sum_to-one n paid id others)
      | inr e ↦
          omega (arith, sends, sum_to-one n paid id others, missing-unpaid st id (ground arith))
    ]

insert_all-promises :
    (env : Env) (rs : List Requester) (m : LookupMap AccountId Requester) (s : Storage)
    → (insert_all env rs m s).1.promises ≡ s.promises
unfolding log_whitelist
insert_all-promises env [] m s = refl
insert_all-promises env (r ∷ rs) m s =
    insert_all-promises env rs (insert r.account_id r m) (log_whitelist env r true s)

-- A fresh oracle has one configuration, and nothing promised.
pub new-fresh_terms :
    (env : Env) (whitelist : Option (List Requester)) (config : OracleConfig)
    → let w = Configuration.new env whitelist config empty_storage in
      (w.storage.promises ≡ []) × (w.contract.configs ≡ config ∷ [])
unfolding Configuration.new Whitelisting.new log_oracle_config
new-fresh_terms env none config = (refl, refl)
new-fresh_terms env (some rs) config =
    (insert_all-promises env rs [] (log_oracle_config env config 0 empty_storage), refl)

plus-paid_out : (a b : Account) → paid_out (plus a b) ≡ paid_out a + paid_out b
plus-paid_out a b = omega arith

Reachable-paid :
    {w : World} (reached : Reachable w) (n : ℕ)
    → length w.contract.data_requests ≤ n
    → sent_all w.storage.promises ≡ sum_to n (λ i. paid_out (account i reached))
unfolding account
Reachable-paid (created env whitelist config e) n all =
    let unpaid = sum_to-none n (λ i. 0) (λ i l. refl) in
    let none_sent = ap sent_all (new-fresh_terms env whitelist config).0 in
    subst (λ w. sent_all w.storage.promises ≡ sum_to n (λ i. 0)) e
      (omega (arith, unpaid, none_sent))
Reachable-paid (called {w} {w'} r st) n all =
    let before = Reachable-paid r n (omega (arith, all, Step-IsLonger st)) in
    let now = Step-paid st n (omega (arith, all, Step-IsLonger st)) in
    let both =
      sum_to-add n (λ i. paid_out (account i r)) (λ i. paid_out (flow i st))
        (λ i. paid_out (plus (account i r) (flow i st)))
        (λ i. plus-paid_out (account i r) (flow i st)) in
    omega (arith, before, now, both)

-- Over every history of calls that return, from the creation of the contract on, where no active
-- request had a resolution bond of zero before any call: the tokens in the promises that the oracle
-- has scheduled are together exactly those that the accounts of its requests have paid out. In each
-- account the stake tokens paid out for unstakes and claims are together at most those that stakes in
-- the request kept, and the fees and validity bonds paid are together at most the payment tokens that
-- came with it.
pub account_solvent :
    (id : ℕ) {w : World} (reached : Reachable w)
    → WerePriced reached
    → (sent_all w.storage.promises
        ≡ sum_to (length w.contract.data_requests) (λ i. paid_out (account i reached)))
      × ((account id reached).unstaked + (account id reached).claimed ≤ (account id reached).staked)
      × ((account id reached).fees + (account id reached).bonds ≤ (account id reached).paid_in)
account_solvent id {w} reached had = (
  Reachable-paid reached (length w.contract.data_requests) (omega arith),
  (request_solvent id reached had).0,
  (request_solvent id reached had).1,
)
