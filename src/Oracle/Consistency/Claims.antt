-- ===== src/Oracle/Consistency/Claims.antt =====
-- Claims in a consistent contract (`dr_claim` of oracle/src/data_request.rs).
use oracle_monorepo_near.Base.{ℕ, ◌≡◌, some, arith, Pair_eq, String_eq, get_elem?, leb}
use oracle_monorepo_near.Near.{ok, require, not_enough_gas, checked_sub, >>=-eq-ok}
use oracle_monorepo_near.Oracle.Types.{
  AccountId, Outcome_eq, WindowId_eq, UserMap_eq, FinalizedDataRequest, finalized, ClaimRes, Env,
  World, Storage,
}
use oracle_monorepo_near.Oracle.Logger.{log_update_finalized_data_request}
use oracle_monorepo_near.Oracle.Access.{assert_unpaused}
use oracle_monorepo_near.Oracle.Helpers.{refund_storage}
use oracle_monorepo_near.Oracle.Helpers.Refunds.{refund_storage-keeps}
use oracle_monorepo_near.Oracle.Handlers.{dr_claim, dr_get_expect_finalized, config_at, payout}
use oracle_monorepo_near.Oracle.Finalized.{claim, no_totals}
use oracle_monorepo_near.Oracle.Finalized.Claims.{claim_windows-Claimed}
use oracle_monorepo_near.Oracle.Finalized.Solvency.{claim-eq-ok}
use oracle_monorepo_near.Oracle.Finalized.Payouts.{FitsBonds}
use oracle_monorepo_near.Oracle.Finalized.Totals.{IsDistinct}
use oracle_monorepo_near.Oracle.Consistency.{AreRounds, IsConsistent}
use oracle_monorepo_near.Oracle.Consistency.Rounds.{AreRounds-IsDistinct, fits-All}

-- A finalized request in a consistent contract has windows with different prefixes, whose stakes fit
-- the bonds.
module _ (w : World) (v : IsConsistent w) (id : ℕ) (dr : FinalizedDataRequest)
    (at : get_elem? w.contract.data_requests id ≡ some (finalized dr)) where
  rounds : AreRounds id 0 dr.resolution_windows
  rounds = v.requests id (finalized dr) at

  pub distinct : IsDistinct dr.resolution_windows
  distinct = AreRounds-IsDistinct id 0 dr.resolution_windows rounds

  pub fits : FitsBonds dr.finalized_outcome dr.resolution_windows w.storage.stakes
  fits =
      fits-All id 0 dr.finalized_outcome dr.resolution_windows w.storage.stakes rounds
        (λ k. ground (arith, v.fits (record { dr_id = id; round = k }) dr.finalized_outcome, at))

-- The parts of a `dr_claim` that returns.
pub dr_claim-eq-ok :
    (env : Env) (a : AccountId) (id : ℕ) (w : World) {w' : World}
    → dr_claim env a id w ≡ ok w'
    → (dr : FinalizedDataRequest) × (r : ClaimRes) × (s : Storage) × (get_elem?
          w.contract.data_requests id
        ≡ some (finalized dr))
      × (claim env dr a w.storage ≡ ok (r, s))
      × (w'.contract ≡ w.contract)
      × (w'.storage.stakes ≡ s.stakes)
unfolding dr_claim log_update_finalized_data_request dr_get_expect_finalized
dr_claim-eq-ok env a id w {w'} h =
    let (_, unpaused, h1) = >>=-eq-ok (assert_unpaused w.contract) _ h in
    let (dr, got, h2) = >>=-eq-ok (dr_get_expect_finalized id w.contract) _ h1 in
    let ((r, s), claimed, h3) = >>=-eq-ok (claim env dr a w.storage) _ h2 in
    let (config, at, h4) = >>=-eq-ok (config_at dr.global_config_id w.contract) _ h3 in
    let (refunded, ref, h5) = >>=-eq-ok (refund_storage env _ env.predecessor_account_id _) _ h4 in
    let (contract, stakes, _) = refund_storage-keeps env _ env.predecessor_account_id _ ref in
    let (gas, left, h6) = >>=-eq-ok (checked_sub env.prepaid_gas (env.used_gas refunded)) _ h5 in
    let (_, enough, h7) =
      >>=-eq-ok (require (leb env.consts.gas_base_transfer gas) not_enough_gas) _ h6 in
    let (transfers, paid, h8) = >>=-eq-ok (payout config a r) _ h7 in
    (dr, r, s, ground (arith, got), claimed, ground (arith, contract), ground (arith, stakes))

-- A claim keeps the contract consistent.
pub dr_claim-IsConsistent :
    (env : Env) (a : AccountId) (id : ℕ) (w : World) {w' : World}
    → IsConsistent w
    → dr_claim env a id w ≡ ok w'
    → IsConsistent w'
dr_claim-IsConsistent env a id w {w'} v h =
    let (dr, r, s, at, claimed, contract, stakes) = dr_claim-eq-ok env a id w h in
    let d = distinct w v id dr at in
    let (n, _, loop, _, _, _) = claim-eq-ok env dr a w.storage {r = r} {s' = s} claimed in
    let c =
      claim_windows-Claimed a dr.finalized_outcome dr.resolution_windows no_totals w.storage.stakes
        {n' = n} {t' = s.stakes} d v.sound loop in
    record {
      sound = rw stakes c.sound;
      requests = rw contract v.requests;
      fits = λ u p. rw (contract, stakes, c.totals) (v.fits u p);
      full = λ u p. rw (contract, stakes, c.totals) (v.full u p);
      known = rw contract v.known;
    }
