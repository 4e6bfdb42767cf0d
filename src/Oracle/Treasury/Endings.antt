-- ===== src/Oracle/Treasury/Endings.antt =====
-- The promises of the calls that finalize a request (oracle/src/data_request.rs).
use oracle_monorepo_near.Base.{ℕ, ◌≡◌, ap, arith, Bool, String_eq, Pair_eq, get_elem?, some}
use oracle_monorepo_near.Near.{ok, >>=-eq-ok, ok_pair_injective}
use oracle_monorepo_near.Oracle.Types.{
  AccountId, Outcome, Outcome_eq, WindowId_eq, UserMap_eq, ActiveDataRequest, active, finalized,
  OracleConfig, PromiseOrValue, Env, World,
}
use oracle_monorepo_near.Oracle.Helpers.{refund_storage, schedule}
use oracle_monorepo_near.Oracle.Logger.{log_update_finalized_data_request}
use oracle_monorepo_near.Oracle.Access.{assert_unpaused, on_storage, schedule_result}
use oracle_monorepo_near.Oracle.Active.{get_final_outcome}
use oracle_monorepo_near.Oracle.Guards.{
  assert_can_finalize, assert_valid_outcome, assert_final_arbitrator,
  assert_final_arbitrator_invoked,
}
use oracle_monorepo_near.Oracle.Whitelisting.{set_outcome}
use oracle_monorepo_near.Oracle.Finalized
use oracle_monorepo_near.Oracle.Finalized.{claim, trim_dr}
use oracle_monorepo_near.Oracle.Handlers.{
  dr_finalize, dr_finalize_by_provider, dr_final_arbitrator_finalize, dr_get_expect_active,
  config_at, check_provider, replace,
}
use oracle_monorepo_near.Oracle.Handlers.Lifecycle.{dr_get_expect_active-eq-ok}
use oracle_monorepo_near.Oracle.Treasury.Sent.{
  Sends, Weight, returned, weigh_all, weigh_all-append, refund_storage-Sends,
  return_validity_bond-Sends,
}

-- A finalization schedules the call of the requester, the validity bond if it goes back, and a refund.
finalization-Sends :
    (g : Weight) (env : Env) (dr : ActiveDataRequest) (o : Outcome) (token : AccountId)
    (w w' : World) (initial : ℕ) {refunded : World}
    → let called = schedule (set_outcome dr.requester o dr.tags) w in
      let bond =
        Finalized.return_validity_bond
          (trim_dr dr o)
          token
          dr.requester.account_id
          dr.request_config.validity_bond in
      refund_storage env initial env.predecessor_account_id (
          on_storage
            (log_update_finalized_data_request (trim_dr dr o))
            (schedule_result bond called))
        ≡ ok refunded
      → w'.storage ≡ refunded.storage
      → Sends g w w' (returned g dr o token dr.requester.account_id)
unfolding log_update_finalized_data_request set_outcome
finalization-Sends g env dr o token w w' initial {refunded} ref same =
    let called = schedule (set_outcome dr.requester o dr.tags) w in
    omega (
      arith,
      ap (λ s. weigh_all g s.promises) same,
      refund_storage-Sends g env initial env.predecessor_account_id _ ref,
      return_validity_bond-Sends g dr o token dr.requester.account_id called,
      weigh_all-append g w.storage.promises (set_outcome dr.requester o dr.tags),
    )

pub dr_finalize-Sends :
    (g : Weight) (env : Env) (id : ℕ) (w : World) {w' : World}
    → dr_finalize env id w ≡ ok w'
    → (dr : ActiveDataRequest) × (config : OracleConfig) × (o : Outcome) × (get_elem?
          w.contract.data_requests id
        ≡ some (active dr))
      × (get_final_outcome dr ≡ ok o)
      × (get_elem? w.contract.configs dr.global_config_id ≡ some config)
      × Sends g w w' (returned g dr o config.payment_token dr.requester.account_id)
unfolding dr_finalize
dr_finalize-Sends g env id w {w'} h =
    let (_, unpaused, h1) = >>=-eq-ok (assert_unpaused w.contract) _ h in
    let (dr, got, h2) = >>=-eq-ok (dr_get_expect_active id w.contract) _ h1 in
    let (_, can, h3) = >>=-eq-ok (assert_can_finalize env dr) _ h2 in
    let (o, final, h4) = >>=-eq-ok (get_final_outcome dr) _ h3 in
    let (config, at, h5) = >>=-eq-ok (config_at dr.global_config_id w.contract) _ h4 in
    let (refunded, ref, h6) = >>=-eq-ok (refund_storage env _ env.predecessor_account_id _) _ h5 in
    let done : replace id (finalized (trim_dr dr o)) refunded ≡ w' = cc h6 in
    (
      dr,
      config,
      o,
      dr_get_expect_active-eq-ok id w.contract got,
      final,
      ground (arith, at),
      finalization-Sends g env dr o config.payment_token w w' (env.storage_usage w) ref
          (ground (arith, done)),
    )

pub dr_finalize_by_provider-Sends :
    (g : Weight) (env : Env) (id : ℕ) (o : Outcome) (w : World) {w' : World}
    → dr_finalize_by_provider env id o w ≡ ok w'
    → Sends g w w' 0
unfolding dr_finalize_by_provider log_update_finalized_data_request set_outcome
dr_finalize_by_provider-Sends g env id o w {w'} h =
    let (_, unpaused, h1) = >>=-eq-ok (assert_unpaused w.contract) _ h in
    let (dr, got, h2) = >>=-eq-ok (dr_get_expect_active id w.contract) _ h1 in
    let (_, valid, h3) = >>=-eq-ok (assert_valid_outcome dr o) _ h2 in
    let (_, provider, h4) = >>=-eq-ok (check_provider env dr.provider) _ h3 in
    omega (
      arith,
      refund_storage-Sends g env _ env.predecessor_account_id _ h4,
      weigh_all-append g w.storage.promises (set_outcome dr.requester o dr.tags),
    )

pub dr_final_arbitrator_finalize-Sends :
    (g : Weight) (env : Env) (id : ℕ) (o : Outcome) (w : World) {r : PromiseOrValue Bool}
    {w' : World}
    → dr_final_arbitrator_finalize env id o w ≡ ok (r, w')
    → (dr : ActiveDataRequest) × (config : OracleConfig) × (get_elem? w.contract.data_requests id
        ≡ some (active dr))
      × (get_elem? w.contract.configs dr.global_config_id ≡ some config)
      × Sends g w w' (returned g dr o config.payment_token dr.requester.account_id)
unfolding dr_final_arbitrator_finalize log_update_finalized_data_request set_outcome
dr_final_arbitrator_finalize-Sends g env id o w {r} {w'} h =
    let (_, unpaused, h1) = >>=-eq-ok (assert_unpaused w.contract) _ h in
    let (dr, got, h2) = >>=-eq-ok (dr_get_expect_active id w.contract) _ h1 in
    let (_, arbitrator, h3) = >>=-eq-ok (assert_final_arbitrator env dr) _ h2 in
    let (_, valid, h4) = >>=-eq-ok (assert_valid_outcome dr o) _ h3 in
    let (_, invoked, h5) = >>=-eq-ok (assert_final_arbitrator_invoked dr) _ h4 in
    let (config, at, h6) = >>=-eq-ok (config_at dr.global_config_id w.contract) _ h5 in
    let (refunded, ref, h7) = >>=-eq-ok (refund_storage env _ env.predecessor_account_id _) _ h6 in
    let logged =
      on_storage (log_update_finalized_data_request (trim_dr dr o))
        (schedule (set_outcome dr.requester o dr.tags) w) in
    let bond =
      Finalized.return_validity_bond (trim_dr dr o) config.payment_token dr.requester.account_id
        dr.request_config.validity_bond in
    let (_, done) = ok_pair_injective bond r refunded w' h7 in
    (
      dr,
      config,
      dr_get_expect_active-eq-ok id w.contract got,
      ground (arith, at),
      omega (
        arith,
        ap (λ x. weigh_all g x.storage.promises) done,
        refund_storage-Sends g env _ env.predecessor_account_id _ ref,
        return_validity_bond-Sends g dr o config.payment_token dr.requester.account_id logged,
        weigh_all-append g w.storage.promises (set_outcome dr.requester o dr.tags),
      ),
    )
