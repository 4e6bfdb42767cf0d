-- ===== src/Oracle/Consistency/Lifecycle.antt =====
-- Requests that begin and end in a consistent contract (`dr_new` and the three finalizing handlers of
-- oracle/src/data_request.rs).
use oracle_monorepo_near.Base.{
  ℕ, ◌+◌, ◌-◌, ◌<◌, ◌≡◌, inr, leb, false, [], ◌∷◌, ◌++◌, arith, Pair_eq, String_eq, length,
  get_elem?-lt, set-Each, append-Each,
}
use oracle_monorepo_near.Near.{ok, checked_sub, require, validity_bond_not_reached, >>=-eq-ok}
use oracle_monorepo_near.Oracle.Types.{
  AccountId, Balance, Outcome, Outcome_eq, WindowId_eq, UserMap_eq, ActiveDataRequest, active,
  finalized, NewDataRequestArgs, Env, World, OracleConfig, Contract, Requester,
}
use oracle_monorepo_near.Oracle.Logger.{log_new_data_request}
use oracle_monorepo_near.Oracle.Access.{assert_unpaused, assert_sender, get_config, last_config_id}
use oracle_monorepo_near.Oracle.Whitelisting.{assert_whitelisted, whitelist_get_expect}
use oracle_monorepo_near.Oracle.Validation.{dr_validate}
use oracle_monorepo_near.Oracle.Handlers.{dr_new, get_config_id}
use oracle_monorepo_near.Oracle.Handlers.Lifecycle.{Finalizes}
use oracle_monorepo_near.Oracle.Finalized.{trim_dr}
use oracle_monorepo_near.Oracle.Active
use oracle_monorepo_near.Oracle.Active.{calc_resolution_bond}
use oracle_monorepo_near.Oracle.Active.Chain.{not_staked}
use oracle_monorepo_near.Oracle.Consistency.{IsActive, IsRequest, IsConsistent}
use oracle_monorepo_near.Oracle.Consistency.Updates.{
  bond_of-set, bond_of-append, bonded_of-set, bonded_of-append,
}

pub last_config_id-lt : (c : Contract) {i : ℕ} → last_config_id c ≡ ok i → i < length c.configs
unfolding last_config_id checked_sub
last_config_id-lt c h = ground arith

-- The parts of a `dr_new` that returns.
pub dr_new-eq-ok :
    (env : Env) (a : AccountId) (x : Balance) (p : NewDataRequestArgs) (w : World) {r : Balance}
    {w' : World}
    → dr_new env a x p w ≡ ok (r, w')
    → (dr : ActiveDataRequest) × (config : OracleConfig) × (get_config w.contract ≡ ok config)
      × (env.predecessor_account_id ≡ config.payment_token)
      × (config.validity_bond + dr.request_config.paid_fee ≡ x)
      × (dr.request_config.validity_bond ≡ config.validity_bond)
      × (dr.id ≡ length w.contract.data_requests)
      × (dr.resolution_windows ≡ [])
      × (dr.final_arbitrator_triggered ≡ false)
      × (w'.contract
          ≡ record (w.contract) { data_requests = w.contract.data_requests ++ active dr ∷ [] })
      × (w'.storage.stakes ≡ w.storage.stakes)
      × (r ≡ 0)
      × (w'.storage.promises ≡ w.storage.promises)
      × (dr.global_config_id < length w.contract.configs)
      × (dr.request_config.min_resolution_bond ≡ config.min_resolution_bond)
      × (requester : Requester) × (whitelist_get_expect w.contract.whitelist a ≡ ok requester)
      × (dr.request_config.stake_multiplier ≡ requester.stake_multiplier)
unfolding dr_new Active.new log_new_data_request assert_sender
dr_new-eq-ok env a x p w {r} {w'} h =
    let (_, unpaused, h1) = >>=-eq-ok (assert_unpaused w.contract) _ h in
    let (config, got, h2) = >>=-eq-ok (get_config w.contract) _ h1 in
    let (_, listed, h3) = >>=-eq-ok (assert_whitelisted w.contract a) _ h2 in
    let (_, sent, h4) = >>=-eq-ok (assert_sender env config.payment_token) _ h3 in
    let (_, enough, h5) =
      >>=-eq-ok (require (leb config.validity_bond x) validity_bond_not_reached) _ h4 in
    let (_, valid, h6) = >>=-eq-ok (dr_validate env p w.contract) _ h5 in
    let (requester, known, h7) = >>=-eq-ok (whitelist_get_expect w.contract.whitelist a) _ h6 in
    let (config_id, last, h8) = >>=-eq-ok (last_config_id w.contract) _ h7 in
    let (dr, made, h9) =
      >>=-eq-ok
        (Active.new requester (length w.contract.data_requests) config_id config
          (x - config.validity_bond) p)
        _ h8 in
    (
      dr,
      config,
      got,
      ground (arith, sent, String_eq.beq_iff env.predecessor_account_id config.payment_token),
      ground (arith, made, enough),
      ground (arith, made),
      ground (arith, made),
      ground (arith, made),
      ground (arith, made),
      ground arith,
      ground arith,
      ground arith,
      ground arith,
      ground (arith, made, last_config_id-lt w.contract last),
      ground (arith, made),
      requester,
      known,
      ground (arith, made),
    )

-- A new request keeps the contract consistent.
pub dr_new-IsConsistent :
    (env : Env) (a : AccountId) (x : Balance) (p : NewDataRequestArgs) (w : World) {r : Balance}
    {w' : World}
    → IsConsistent w
    → dr_new env a x p w ≡ ok (r, w')
    → IsConsistent w'
dr_new-IsConsistent env a x p w {r} {w'} v h =
    let ds = w.contract.data_requests in
    let (
      dr, config, _, _, _, _, named, empty, waiting, contract, stakes, _, _, in_range, _, _, _, _,
    ) =
      dr_new-eq-ok env a x p w h in
    let new : IsActive (length ds) dr = record {
      named = named;
      windows = λ b q. not_staked empty waiting;
      rounds = rw empty tt;
      few = rw empty (omega arith);
      bond = inr empty;
    } in
    record {
      sound = rw stakes v.sound;
      requests = rw contract (append-Each IsRequest ds (active dr) v.requests new);
      fits =
          λ u o. rw (contract, stakes) (omega (arith, v.fits u o, bond_of-append ds (active dr) u));
      full = λ u o.
          rw (contract, stakes)
            (omega (arith, v.full u o, bonded_of-append ds (active dr) u o empty));
      known = rw contract (
          append-Each (λ i d. get_config_id d < length w.contract.configs) ds (active dr) v.known
            in_range);
    }

-- The finalization of a request keeps the contract consistent.
pub finalized-IsConsistent :
    (w w' : World) (id : ℕ) (dr : ActiveDataRequest) (o : Outcome)
    → Finalizes w id dr o w'
    → IsConsistent w
    → IsConsistent w'
unfolding trim_dr
finalized-IsConsistent w w' id dr o f v =
    let ds = w.contract.data_requests in
    let fdr = finalized (trim_dr dr o) in
    let was : IsActive id dr = v.requests id (active dr) f.was_active in
    record {
      sound = rw f.stakes v.sound;
      requests =
          rw f.others
            (set-Each IsRequest ds id fdr (get_elem?-lt ds id f.was_active) v.requests was.rounds);
      fits = λ u p.
          rw (f.others, f.stakes)
            (omega (
              arith,
              v.fits u p,
              bond_of-set ds id (active dr) fdr u f.was_active (λ k. omega arith),
            ));
      full = λ u p.
          rw (f.others, f.stakes)
            (ground (
              arith,
              v.full u p,
              bonded_of-set ds id fdr u p (get_elem?-lt ds id f.was_active),
              f.was_active,
            ));
      known = rw f.others (
          set-Each (λ i d. get_config_id d < length w.contract.configs) ds id fdr
            (get_elem?-lt ds id f.was_active) v.known (v.known id (active dr) f.was_active));
    }
