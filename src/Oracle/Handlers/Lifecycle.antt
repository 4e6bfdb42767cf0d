-- ===== src/Oracle/Handlers/Lifecycle.antt =====
-- Finalizing a request (`dr_finalize`, `dr_finalize_by_provider`, `dr_final_arbitrator_finalize` of
-- oracle/src/data_request.rs).
use oracle_monorepo_near.Base.{
  ℕ, ◌≡◌, refl, subst, Bool, true, false, Option, none, some, arith, Pair_eq, String_eq, get_elem?,
  set, get_elem?-set_self, get_elem?-lt,
}
use oracle_monorepo_near.Near.{ok, >>=-eq-ok, ok_pair_injective}
use oracle_monorepo_near.Oracle.Types.{
  AccountId, Outcome, answer, invalid, Promise, ActiveDataRequest, active, finalized, OracleConfig,
  Contract, World, Env, PromiseOrValue, value, promise,
}
use oracle_monorepo_near.Oracle.Helpers.{refund_storage, schedule}
use oracle_monorepo_near.Oracle.Finalized
use oracle_monorepo_near.Oracle.Guards.{
  assert_valid_outcome, assert_can_finalize, assert_final_arbitrator,
  assert_final_arbitrator_invoked,
}
use oracle_monorepo_near.Oracle.Guards.Listed.{IsAllowed, assert_valid_outcome-IsAllowed}
use oracle_monorepo_near.Oracle.Access.{on_storage, schedule_result, assert_unpaused}
use oracle_monorepo_near.Oracle.Handlers.{
  dr_finalize, dr_finalize_by_provider, dr_final_arbitrator_finalize, dr_get_expect_active, replace,
  config_at, check_provider,
}
use oracle_monorepo_near.Oracle.Whitelisting.{set_outcome}
use oracle_monorepo_near.Oracle.Logger.{log_update_finalized_data_request}
use oracle_monorepo_near.Oracle.Active.{get_final_outcome}
use oracle_monorepo_near.Oracle.Finalized.{trim_dr}
use oracle_monorepo_near.Oracle.Helpers.Refunds.{refund_storage-keeps}

-- What a finalization with outcome `o` leaves: the request `id` is the finalized form of `dr`, every
-- other request, the rest of the contract and the stakes are unchanged.
pub record Finalizes (w : World) (id : ℕ) (dr : ActiveDataRequest) (o : Outcome) (w' : World)
    : Type 0 where
  pub was_active : get_elem? w.contract.data_requests id ≡ some (active dr)
  pub is_finalized : get_elem? w'.contract.data_requests id ≡ some (finalized (trim_dr dr o))
  pub stakes : w'.storage.stakes ≡ w.storage.stakes
  pub others : w'.contract ≡ record (w.contract) {
    data_requests = set w.contract.data_requests id (finalized (trim_dr dr o));
  }

replaced-Finalizes :
    (w w' : World) (id : ℕ) (dr : ActiveDataRequest) (o : Outcome)
    → get_elem? w.contract.data_requests id ≡ some (active dr)
    → w'.contract ≡ record (w.contract) {
      data_requests = set w.contract.data_requests id (finalized (trim_dr dr o));
    }
    → w'.storage.stakes ≡ w.storage.stakes
    → Finalizes w id dr o w'
replaced-Finalizes w w' id dr o was e s = record {
  was_active = was;
  is_finalized = rw e (
      get_elem?-set_self w.contract.data_requests id (finalized (trim_dr dr o))
        (get_elem?-lt w.contract.data_requests id was));
  stakes = s;
  others = e;
}

pub dr_get_expect_active-eq-ok :
    (id : ℕ) (c : Contract) {dr : ActiveDataRequest}
    → dr_get_expect_active id c ≡ ok dr
    → get_elem? c.data_requests id ≡ some (active dr)
unfolding dr_get_expect_active
dr_get_expect_active-eq-ok id c h = ground arith

schedule_result-keeps :
    (p : PromiseOrValue Bool) (w : World)
    → ((schedule_result p w).contract ≡ w.contract)
      × ((schedule_result p w).storage.stakes ≡ w.storage.stakes)
schedule_result-keeps (promise p) w = (refl, refl)
schedule_result-keeps (value b) w = (refl, refl)

-- A `dr_finalize` that returns was called while the oracle was not paused, on an active request
-- that `assert_can_finalize` lets through; it finalizes the request with the outcome of
-- `get_final_outcome`, and changes nothing else of the contract and no stake.
pub dr_finalize-Finalizes :
    (env : Env) (id : ℕ) (w : World) {w' : World}
    → dr_finalize env id w ≡ ok w'
    → (dr : ActiveDataRequest) × (o : Outcome) × (w.contract.paused ≡ false)
      × (assert_can_finalize env dr ≡ ok tt)
      × (get_final_outcome dr ≡ ok o)
      × Finalizes w id dr o w'
unfolding dr_finalize log_update_finalized_data_request
dr_finalize-Finalizes env id w {w'} h =
    let (_, unpaused, h1) = >>=-eq-ok (assert_unpaused w.contract) _ h in
    let (dr, got, h2) = >>=-eq-ok (dr_get_expect_active id w.contract) _ h1 in
    let (_, can, h3) = >>=-eq-ok (assert_can_finalize env dr) _ h2 in
    let (o, final, h4) = >>=-eq-ok (get_final_outcome dr) _ h3 in
    let (config, at, h5) = >>=-eq-ok (config_at dr.global_config_id w.contract) _ h4 in
    let (refunded, ref, h6) = >>=-eq-ok (refund_storage env _ env.predecessor_account_id _) _ h5 in
    let (contract, stakes, _) = refund_storage-keeps env _ env.predecessor_account_id _ ref in
    let bond =
      Finalized.return_validity_bond (trim_dr dr o) config.payment_token dr.requester.account_id
        dr.request_config.validity_bond in
    let called = schedule (set_outcome dr.requester o dr.tags) w in
    let (contract', stakes') = schedule_result-keeps bond called in
    let done : replace id (finalized (trim_dr dr o)) refunded ≡ w' = cc h6 in
    (
      dr,
      o,
      ground (arith, unpaused),
      can,
      final,
      replaced-Finalizes w w' id dr o (dr_get_expect_active-eq-ok id w.contract got)
          (ground (arith, done, contract, contract')) (ground (arith, done, stakes, stakes')),
    )

check_provider-eq-ok :
    (env : Env) (p : Option AccountId) {u : Unit {0}}
    → check_provider env p ≡ ok u
    → p ≡ some env.predecessor_account_id
check_provider-eq-ok env none h = cc
check_provider-eq-ok env (some a) h = ground (arith, String_eq.beq_iff a env.predecessor_account_id)

-- A `dr_finalize_by_provider` that returns was called while the oracle was not paused, by the
-- provider of an active request, with an outcome that the request allows: where it has a list of
-- outcomes, a string of the list or `Invalid`. It finalizes the request with that outcome, and changes
-- nothing else of the contract and no stake.
pub dr_finalize_by_provider-Finalizes :
    (env : Env) (id : ℕ) (o : Outcome) (w : World) {w' : World}
    → dr_finalize_by_provider env id o w ≡ ok w'
    → (dr : ActiveDataRequest) × (w.contract.paused ≡ false)
      × (dr.provider ≡ some env.predecessor_account_id)
      × IsAllowed dr.outcomes o
      × Finalizes w id dr o w'
unfolding dr_finalize_by_provider log_update_finalized_data_request
dr_finalize_by_provider-Finalizes env id o w {w'} h =
    let (_, unpaused, h1) = >>=-eq-ok (assert_unpaused w.contract) _ h in
    let (dr, got, h2) = >>=-eq-ok (dr_get_expect_active id w.contract) _ h1 in
    let (_, valid, h3) = >>=-eq-ok (assert_valid_outcome dr o) _ h2 in
    let (_, provider, h4) = >>=-eq-ok (check_provider env dr.provider) _ h3 in
    let (contract, stakes, _) = refund_storage-keeps env _ env.predecessor_account_id _ h4 in
    (
      dr,
      ground (arith, unpaused),
      check_provider-eq-ok env dr.provider provider,
      assert_valid_outcome-IsAllowed dr o valid,
      replaced-Finalizes w w' id dr o (dr_get_expect_active-eq-ok id w.contract got) contract
          stakes,
    )

-- The validity bond goes to the requester with an answer, and to nobody with `Invalid`.
abbrev pub IsReturned : ActiveDataRequest → OracleConfig → Outcome → PromiseOrValue Bool → Type 0
IsReturned dr config (answer x) r =
    r
    ≡ promise (
        Promise.ft_transfer config.payment_token dr.requester.account_id
          dr.request_config.validity_bond)
IsReturned dr config invalid r = r ≡ value false

return_validity_bond-IsReturned :
    (dr : ActiveDataRequest) (config : OracleConfig) (o : Outcome)
    → IsReturned dr config o (
        Finalized.return_validity_bond
          (trim_dr dr o)
          config.payment_token
          dr.requester.account_id
          dr.request_config.validity_bond)
unfolding Finalized.return_validity_bond trim_dr
return_validity_bond-IsReturned dr config (answer x) = refl
return_validity_bond-IsReturned dr config invalid = refl

-- A `dr_final_arbitrator_finalize` that returns was called while the oracle was not paused, by the
-- final arbitrator of an active request on which it was triggered, with an outcome that the request
-- allows: where it has a list of outcomes, a string of the list or `Invalid`. It finalizes the request
-- with that outcome, and changes nothing else of the contract and no stake. With an answer its result
-- is the transfer of the validity bond of the request to its requester, in the payment token of its
-- configuration; with `Invalid` it is false.
pub dr_final_arbitrator_finalize-Finalizes :
    (env : Env) (id : ℕ) (o : Outcome) (w : World) {r : PromiseOrValue Bool} {w' : World}
    → dr_final_arbitrator_finalize env id o w ≡ ok (r, w')
    → (dr : ActiveDataRequest) × (config : OracleConfig) × (w.contract.paused ≡ false)
      × (dr.request_config.final_arbitrator ≡ env.predecessor_account_id)
      × (dr.final_arbitrator_triggered ≡ true)
      × IsAllowed dr.outcomes o
      × (get_elem? w.contract.configs dr.global_config_id ≡ some config)
      × IsReturned dr config o r
      × Finalizes w id dr o w'
unfolding dr_final_arbitrator_finalize log_update_finalized_data_request assert_final_arbitrator
    assert_final_arbitrator_invoked
dr_final_arbitrator_finalize-Finalizes env id o w {r} {w'} h =
    let (_, unpaused, h1) = >>=-eq-ok (assert_unpaused w.contract) _ h in
    let (dr, got, h2) = >>=-eq-ok (dr_get_expect_active id w.contract) _ h1 in
    let (_, arbitrator, h3) = >>=-eq-ok (assert_final_arbitrator env dr) _ h2 in
    let (_, valid, h4) = >>=-eq-ok (assert_valid_outcome dr o) _ h3 in
    let (_, invoked, h5) = >>=-eq-ok (assert_final_arbitrator_invoked dr) _ h4 in
    let (config, at, h6) = >>=-eq-ok (config_at dr.global_config_id w.contract) _ h5 in
    let (refunded, ref, h7) = >>=-eq-ok (refund_storage env _ env.predecessor_account_id _) _ h6 in
    let (contract, stakes, _) = refund_storage-keeps env _ env.predecessor_account_id _ ref in
    let bond =
      Finalized.return_validity_bond (trim_dr dr o) config.payment_token dr.requester.account_id
        dr.request_config.validity_bond in
    let logged =
      on_storage (log_update_finalized_data_request (trim_dr dr o))
        (schedule (set_outcome dr.requester o dr.tags) w) in
    let (contract', stakes') = schedule_result-keeps bond logged in
    let (same, done) = ok_pair_injective bond r refunded w' h7 in
    (
      dr,
      config,
      ground (arith, unpaused),
      ground (
        arith,
        arbitrator,
        String_eq.beq_iff dr.request_config.final_arbitrator env.predecessor_account_id,
      ),
      ground (arith, invoked),
      assert_valid_outcome-IsAllowed dr o valid,
      ground (arith, at),
      subst (IsReturned dr config o) same (return_validity_bond-IsReturned dr config o),
      replaced-Finalizes w w' id dr o (dr_get_expect_active-eq-ok id w.contract got)
          (ground (arith, done, contract, contract')) (ground (arith, done, stakes, stakes')),
    )
