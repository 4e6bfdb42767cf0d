-- ===== src/Oracle/Finalized/Solvency.antt =====
-- Solvency of the claims on a finalized request (`claim` in oracle/src/data_request.rs): what one
-- claim pays against the stakes that it removes.
use oracle_monorepo_near.Base.{◌+◌, ◌*◌, ◌≤◌, ◌≡◌, inl, inr, ◌∙◌, arith, Pair_eq, String_eq}
use oracle_monorepo_near.Near.{ok, Result-cases, checked_add}
use oracle_monorepo_near.Oracle.Types.{
  AccountId, Balance, Outcome_eq, WindowId_eq, UserMap_eq, Env, Storage, Stakes,
}
use oracle_monorepo_near.Oracle.Logger.{log_claim}
use oracle_monorepo_near.Oracle.Types.{FinalizedDataRequest, ClaimRes}
use oracle_monorepo_near.Oracle.Window.Staking.{IsSound}
use oracle_monorepo_near.Oracle.Finalized.{ClaimTotals, no_totals, claim_windows, share, claim}
use oracle_monorepo_near.Oracle.Finalized.Totals.{
  correct_bonds, incorrect_bonds, user_correct, users_correct, IsDistinct,
}
use oracle_monorepo_near.Oracle.Finalized.Claims.{claim_windows-Claimed}
use oracle_monorepo_near.Oracle.Finalized.Shares.{share-eq-ok}

-- The parts of a claim that returns.
pub claim-eq-ok :
    (env : Env) (dr : FinalizedDataRequest) (a : AccountId) (s : Storage) {r : ClaimRes}
    {s' : Storage}
    → claim env dr a s ≡ ok (r, s')
    → (n : ClaimTotals) × (stake_profit : Balance) × (claim_windows a dr.finalized_outcome
          dr.resolution_windows no_totals s.stakes
        ≡ ok (n, s'.stakes))
      × (share n.user_correct_stake n.total_incorrect_staked n.total_correct_staked
          ≡ ok stake_profit)
      × (share n.user_correct_stake dr.paid_fee n.total_correct_staked ≡ ok r.payment_token_payout)
      × (r.stake_token_payout ≡ n.user_correct_stake + stake_profit)
unfolding claim checked_add log_claim
claim-eq-ok env dr a s {r} {s'} h =
    elim (Result-cases
      (claim_windows a dr.finalized_outcome dr.resolution_windows no_totals s.stakes)) [
        | inl (e, q) ↦ absurd (ground arith)
        | inr ((n, t), q) ↦
            elim (Result-cases
              (share n.user_correct_stake n.total_incorrect_staked n.total_correct_staked)) [
                | inl (e, p) ↦ absurd (ground arith)
                | inr (profit, p) ↦
                    elim (Result-cases
                      (share n.user_correct_stake dr.paid_fee n.total_correct_staked)) [
                        | inl (e, o) ↦ absurd (ground arith)
                        | inr (fee, o) ↦ (n, profit, ground arith, p, ground arith, ground arith)
                      ]
              ]
      ]

-- What one claim pays, in terms of the user's correct stake.
pub record Pays (a : AccountId) (dr : FinalizedDataRequest) (t : Stakes) (r : ClaimRes)
    (t' : Stakes) : Type 0 where
  pub stake_share :
      r.stake_token_payout * correct_bonds dr.finalized_outcome dr.resolution_windows
      ≤ user_correct a dr.finalized_outcome dr.resolution_windows t
        * (correct_bonds dr.finalized_outcome dr.resolution_windows
            + incorrect_bonds dr.finalized_outcome dr.resolution_windows)
  pub fee_share :
      r.payment_token_payout * correct_bonds dr.finalized_outcome dr.resolution_windows
      ≤ user_correct a dr.finalized_outcome dr.resolution_windows t * dr.paid_fee
  pub nothing_correct :
      correct_bonds dr.finalized_outcome dr.resolution_windows ≡ 0
      → (r.stake_token_payout ≡ user_correct a dr.finalized_outcome dr.resolution_windows t)
        × (r.payment_token_payout ≡ 0)
  pub at_least : user_correct a dr.finalized_outcome dr.resolution_windows t ≤ r.stake_token_payout
  pub sound : IsSound t'
  pub taken : user_correct a dr.finalized_outcome dr.resolution_windows t' ≡ 0
  pub left :
      users_correct dr.finalized_outcome dr.resolution_windows t'
        + user_correct a dr.finalized_outcome dr.resolution_windows t
      ≤ users_correct dr.finalized_outcome dr.resolution_windows t

pub claim-Pays :
    (env : Env) (dr : FinalizedDataRequest) (a : AccountId) (s : Storage) {r : ClaimRes}
    {s' : Storage}
    → IsDistinct dr.resolution_windows
    → IsSound s.stakes
    → claim env dr a s ≡ ok (r, s')
    → Pays a dr s.stakes r s'.stakes
claim-Pays env dr a s {r} {s'} distinct sound h =
    let f = dr.finalized_outcome in
    let ws = dr.resolution_windows in
    let (n, profit, loop, p, o, sum) = claim-eq-ok env dr a s h in
    let c = claim_windows-Claimed a f ws no_totals s.stakes distinct sound loop in
    let (p1, p2) =
      share-eq-ok n.user_correct_stake n.total_incorrect_staked n.total_correct_staked p in
    let (o1, o2) = share-eq-ok n.user_correct_stake dr.paid_fee n.total_correct_staked o in
    let cb : n.total_correct_staked ≡ correct_bonds f ws = omega (arith, c.correct_total) in
    let ib : n.total_incorrect_staked ≡ incorrect_bonds f ws = omega (arith, c.incorrect_total) in
    let uc : n.user_correct_stake ≡ user_correct a f ws s.stakes = omega (arith, c.user_total) in
    record {
      stake_share = rw (sum, ← cb, ← ib, ← uc) (omega arith);
      fee_share = rw (← cb, ← uc) o1;
      nothing_correct = λ z. (omega (arith, p2 (cb ∙ z)), o2 (cb ∙ z));
      at_least = omega arith;
      sound = c.sound;
      taken = c.taken;
      left = c.paid;
    }
