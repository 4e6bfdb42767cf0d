-- ===== src/Oracle/Consistency/Settlement.antt =====
-- When `dr_finalize` of oracle/src/data_request.rs returns.
use oracle_monorepo_near.Base.{
  ℕ, ◌+◌, ◌-◌, ◌*◌, ◌≤◌, ◌<◌, ◌≡◌, refl, sym, ◌∙◌, inl, inr, false, Bool-cases, some, ltb, arith,
  Pair_eq, String_eq, get_elem?, get_elem?-there, length, ap, if◌then◌else◌, subst,
}
use native.Mathlib.Nat.{mul-le-mul_right}
use oracle_monorepo_near.Near.{ok, >>=-of-ok, checked_mul, checked_add, u128_mod}
use oracle_monorepo_near.Oracle.Types.{
  AccountId, Outcome, ResolutionWindow, ActiveDataRequest, active, finalized, Balance, Env, World,
  Promise,
}
use oracle_monorepo_near.Oracle.Helpers.{refund_storage, schedule}
use oracle_monorepo_near.Oracle.Access.{on_storage, schedule_result, assert_unpaused}
use oracle_monorepo_near.Oracle.Guards.{assert_can_finalize}
use oracle_monorepo_near.Oracle.Active.{windows_len, calc_resolution_bond, get_final_outcome}
use oracle_monorepo_near.Oracle.Active.Finality.{get_final_outcome-returns}
use oracle_monorepo_near.Oracle.Finalized
use oracle_monorepo_near.Oracle.Finalized.{trim_dr}
use oracle_monorepo_near.Oracle.Whitelisting.{set_outcome}
use oracle_monorepo_near.Oracle.Logger.{log_update_finalized_data_request}
use oracle_monorepo_near.Oracle.Handlers.{dr_finalize, dr_get_expect_active, config_at, replace}
use oracle_monorepo_near.Oracle.Handlers.Lifecycle.{dr_finalize-Finalizes}
use oracle_monorepo_near.Oracle.Consistency.{IsActive, IsConsistent}

-- What the caller attached pays for the bytes that a call from `w` on adds, whatever it does, and does
-- not overflow with the price of all bytes in use.
abbrev pub PaysStorage : Env → World → Type 0
PaysStorage env w =
    ((w' : World)
      → (env.storage_usage w' - env.storage_usage w) * env.consts.storage_price_per_byte
        ≤ env.attached_deposit)
    × (env.attached_deposit + env.storage_usage w * env.consts.storage_price_per_byte < u128_mod)

pub refund_storage-returns :
    (env : Env) (a : AccountId) (w w' : World)
    → PaysStorage env w
    → (w'' : World) × (refund_storage env (env.storage_usage w) a w' ≡ ok w'')
unfolding refund_storage checked_mul checked_add
refund_storage-returns env a w w' (pays, small) =
    let price = env.consts.storage_price_per_byte in
    let used = env.storage_usage w in
    let now = env.storage_usage w' in
    let freed : (used - now) * price ≤ used * price = mul-le-mul_right price (omega arith) in
    elim (Bool-cases (ltb used now)) [
      | inl e ↦ (
        (if ltb 0 (env.attached_deposit - (now - used) * price)
            then schedule (Promise.transfer a (env.attached_deposit - (now - used) * price)) w'
            else w'),
        ground (arith, pays w'),
      )
      | inr e ↦ (
        (if ltb 0 (env.attached_deposit + (used - now) * price)
            then schedule (Promise.transfer a (env.attached_deposit + (used - now) * price)) w'
            else w'),
        ground arith,
      )
    ]

assert_can_finalize-returns :
    (env : Env) (dr : ActiveDataRequest) {last : ResolutionWindow}
    → dr.final_arbitrator_triggered ≡ false
    → 1 < windows_len dr
    → get_elem? dr.resolution_windows (windows_len dr - 1) ≡ some last
    → last.end_time ≤ env.block_timestamp
    → assert_can_finalize env dr ≡ ok tt
unfolding assert_can_finalize
assert_can_finalize-returns env dr waiting disputed at over = ground arith

active_injective : (d d' : ActiveDataRequest) → some (active d) ≡ some (active d') → d ≡ d'
active_injective d d' h = cc

disputed_bond :
    (id : ℕ) (dr : ActiveDataRequest)
    → IsActive id dr
    → 1 < windows_len dr
    → (bond : Balance) × (calc_resolution_bond dr ≡ ok bond)
disputed_bond id dr was disputed = elim was.bond [
  | inl known ↦ known
  | inr empty ↦ absurd (omega (arith, ap length empty))
]

-- In a consistent contract that is not paused: for an active request with two or more windows, of which
-- the last is over, and no final arbitrator triggered, dr_finalize returns, where the deposit pays for
-- the storage, and finalizes the request with an outcome.
pub dr_finalize-returns :
    (env : Env) (id : ℕ) (w : World) {dr : ActiveDataRequest} {last : ResolutionWindow}
    → IsConsistent w
    → w.contract.paused ≡ false
    → get_elem? w.contract.data_requests id ≡ some (active dr)
    → dr.final_arbitrator_triggered ≡ false
    → 1 < windows_len dr
    → get_elem? dr.resolution_windows (windows_len dr - 1) ≡ some last
    → last.end_time ≤ env.block_timestamp
    → PaysStorage env w
    → (w' : World) × (o : Outcome) × (dr_finalize env id w ≡ ok w')
      × (get_elem? w'.contract.data_requests id ≡ some (finalized (trim_dr dr o)))
unfolding dr_finalize dr_get_expect_active assert_unpaused
dr_finalize-returns env id w {dr} {last} v running at waiting disputed last_at over pays =
    let was : IsActive id dr = v.requests id (active dr) at in
    let (bond, b) = disputed_bond id dr was disputed in
    let (config, known) = get_elem?-there w.contract.configs _ (v.known id (active dr) at) in
    let (o, final, _) =
      get_final_outcome-returns dr (bond * 2) (rw was.named (was.windows bond b)) disputed in
    let can = assert_can_finalize-returns env dr {last = last} waiting disputed last_at over in
    let fdr = trim_dr dr o in
    let bond_back =
      Finalized.return_validity_bond fdr config.payment_token dr.requester.account_id
        dr.request_config.validity_bond in
    let called = schedule (set_outcome dr.requester o dr.tags) w in
    let logged =
      on_storage (log_update_finalized_data_request fdr) (schedule_result bond_back called) in
    let (refunded, ref) = refund_storage-returns env env.predecessor_account_id w logged pays in
    let w' = replace id (finalized fdr) refunded in
    let done : dr_finalize env id w ≡ ok w' =
      >>=-of-ok (assert_unpaused w.contract) _ (ground arith)
      ∙ >>=-of-ok (dr_get_expect_active id w.contract) _ {first = dr} (rw at refl)
      ∙ >>=-of-ok (assert_can_finalize env dr) _ can
      ∙ >>=-of-ok (get_final_outcome dr) _ final
      ∙ >>=-of-ok (config_at dr.global_config_id w.contract) _ {first = config} (rw known refl)
      ∙ >>=-of-ok (refund_storage env (env.storage_usage w) env.predecessor_account_id logged) _
          ref in
    let (dr', o', _, _, _, f) = dr_finalize-Finalizes env id w {w' = w'} done in
    let same : dr' ≡ dr = active_injective dr' dr (sym f.was_active ∙ at) in
    (
      w',
      o',
      done,
      subst (λ d. get_elem? w'.contract.data_requests id ≡ some (finalized (trim_dr d o'))) same
          f.is_finalized,
    )
