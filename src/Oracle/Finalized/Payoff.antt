-- ===== src/Oracle/Finalized/Payoff.antt =====
-- `claim` of oracle/src/data_request.rs against the payout in plain arithmetic.
use oracle_monorepo_near.Base.{
  suc, zero, ◌+◌, ◌*◌, ◌/◌, ◌^◌, ◌≤◌, ◌<◌, ◌≡◌, inl, inr, refl, List, [], ◌∷◌, arith, Pair_eq,
  String_eq, Bool-cases,
}
use native.Mathlib.Nat.{div-le_of_le-mul, mul-le-mul_right}
use oracle_monorepo_near.Near.{ok, checked_add, checked_add-of-lt, checked_mul, u128_mod}
use oracle_monorepo_near.Oracle.Types.{
  AccountId, Balance, Outcome, Outcome_eq, outcome_eq_iff, window_id_eq_iff, ResolutionWindow,
  WindowId_eq, UserMap_eq, Env, Storage, Stakes, FinalizedDataRequest, ClaimRes,
}
use oracle_monorepo_near.Oracle.Logger.{log_claim}
use oracle_monorepo_near.Oracle.Helpers.{calc_product}
use oracle_monorepo_near.Oracle.Window.{window_id, claim_for}
use oracle_monorepo_near.Oracle.Window.Writes.{user_stake}
use oracle_monorepo_near.Oracle.Window.Staking.{IsSound}
use oracle_monorepo_near.Oracle.Window.Claiming.{
  take_user_stake-sum, claim_for-IsSound, claim_for-result, is_bonded_on, is_bonded_off,
}
use oracle_monorepo_near.Oracle.Finalized.{
  ClaimTotals, no_totals, add_result, claim_windows, share, claim,
}
use oracle_monorepo_near.Oracle.Finalized.Totals.{
  when, correct_bonds, incorrect_bonds, user_correct, users_correct, IsDistinct,
  claim_for-user_correct, add_result-claim_for,
}
use oracle_monorepo_near.Oracle.Finalized.Claims.{claim_windows-Claimed}
use oracle_monorepo_near.Oracle.Finalized.Shares.{product_lt}
use oracle_monorepo_near.Oracle.Finalized.Payouts.{FitsBonds, users_correct-le}

-- The part of a pot that a stake in a total gets, rounded down; nothing of an empty total.
abbrev pub part_of : Balance → Balance → Balance → Balance
part_of stake pot zero = 0
part_of stake pot (suc total) = stake * pot / suc total

-- What a user with the stake `u` on the final outcome is to be paid.
unfoldable pub payoff : FinalizedDataRequest → Balance → ClaimRes
payoff dr u = record {
  payment_token_payout =
      part_of u dr.paid_fee (correct_bonds dr.finalized_outcome dr.resolution_windows);
  stake_token_payout =
      u
      + part_of u (incorrect_bonds dr.finalized_outcome dr.resolution_windows)
          (correct_bonds dr.finalized_outcome dr.resolution_windows);
}

share_lem :
    (u pot total : Balance)
    → u ≤ total
    → total < u128_mod
    → pot < u128_mod
    → (share u pot total ≡ ok (part_of u pot total)) × (part_of u pot total ≤ pot)
unfolding share calc_product checked_mul
share_lem u pot zero part small fits = (refl, omega arith)
share_lem u pot (suc total) part small fits =
    let wide : u * pot < 2 ^ 256 = product_lt u pot (omega arith) fits in
    let bound : u * pot / suc total ≤ pot =
      div-le_of_le-mul (suc total) (mul-le-mul_right pot part) in
    (ground arith, bound)

add_result-returns :
    (w : ResolutionWindow) (a : AccountId) (f : Outcome) (t : Stakes) (n : ClaimTotals)
    → IsSound t
    → n.total_correct_staked + when (is_bonded_on f w.bonded_outcome) w.bond_size < u128_mod
    → n.total_incorrect_staked + when (is_bonded_off f w.bonded_outcome) w.bond_size < u128_mod
    → n.user_correct_stake + when (is_bonded_on f w.bonded_outcome) (user_stake (window_id w) a f t)
      < u128_mod
    → (n' : ClaimTotals) × (add_result (claim_for w a f t).0 n ≡ ok n')
unfolding add_result checked_add
add_result-returns w a f t n sound c i u =
    rw (claim_for-result w a f t sound) (elim (Bool-cases (is_bonded_on f w.bonded_outcome)) [
      | inl e ↦ rw e (
        record n {
          total_correct_staked = n.total_correct_staked + w.bond_size;
          user_correct_stake = n.user_correct_stake + user_stake (window_id w) a f t;
        },
        rw
            (
              checked_add-of-lt u128_mod n.total_correct_staked w.bond_size (rw e at c),
              checked_add-of-lt u128_mod n.user_correct_stake (user_stake (window_id w) a f t)
                  (rw e at u),
            )
            refl,
      )
      | inr e ↦ rw e (elim (Bool-cases (is_bonded_off f w.bonded_outcome)) [
        | inl k ↦ rw k (
          record n { total_incorrect_staked = n.total_incorrect_staked + w.bond_size },
          rw (checked_add-of-lt u128_mod n.total_incorrect_staked w.bond_size (rw k at i)) refl,
        )
        | inr k ↦ rw k (n, refl)
      ])
    ])

-- A pass returns where the counters at its end are 128-bit numbers.
claim_windows-returns :
    (a : AccountId) (f : Outcome) (ws : List ResolutionWindow) (n : ClaimTotals) (t : Stakes)
    → IsDistinct ws
    → IsSound t
    → n.total_correct_staked + correct_bonds f ws < u128_mod
    → n.total_incorrect_staked + incorrect_bonds f ws < u128_mod
    → n.user_correct_stake + user_correct a f ws t < u128_mod
    → (n' : ClaimTotals) × (t' : Stakes) × (claim_windows a f ws n t ≡ ok (n', t'))
unfolding claim_windows
claim_windows-returns a f [] n t distinct sound c i u = (n, t, refl)
claim_windows-returns a f (w ∷ ws) n t distinct sound c i u =
    let (n1, added) =
      add_result-returns w a f t n sound (omega (arith, c)) (omega (arith, i)) (omega (arith, u)) in
    let t1 = (claim_for w a f t).1 in
    let (c1, i1, u1) = add_result-claim_for w a f t n n1 sound added in
    let same = claim_for-user_correct w a f t sound ws distinct.0 in
    let (n', t', rest) =
      claim_windows-returns a f ws n1 t1 distinct.1 (claim_for-IsSound w a f t sound)
        (omega (arith, c, c1)) (omega (arith, i, i1)) (omega (arith, u, u1, same)) in
    (n', t', rw (added, rest) refl)

user_correct-le :
    (a : AccountId) (f : Outcome) (ws : List ResolutionWindow) (t : Stakes)
    → IsSound t
    → user_correct a f ws t ≤ users_correct f ws t
user_correct-le a f [] t sound = omega arith
user_correct-le a f (w ∷ ws) t sound = ground (
  arith,
  user_correct-le a f ws t sound,
  take_user_stake-sum w a f t sound (window_id w) f,
  outcome_eq_iff f f,
  window_id_eq_iff (window_id w) (window_id w),
)

-- On windows with different prefixes, with sound stakes of which no window bonded on the final outcome
-- has more than its bond, with bonds that together are a 128-bit number and a fee that is one too, a
-- claim returns. It pays the user's stake on the final outcome in the windows bonded on it, with that
-- stake's part, rounded down, of the bonds on other outcomes and of the fee.
pub claim-payoff :
    (env : Env) (dr : FinalizedDataRequest) (a : AccountId) (s : Storage)
    → IsDistinct dr.resolution_windows
    → IsSound s.stakes
    → FitsBonds dr.finalized_outcome dr.resolution_windows s.stakes
    → correct_bonds dr.finalized_outcome dr.resolution_windows
        + incorrect_bonds dr.finalized_outcome dr.resolution_windows
      < u128_mod
    → dr.paid_fee < u128_mod
    → (s' : Storage) × (claim env dr a s
        ≡ ok (payoff dr (user_correct a dr.finalized_outcome dr.resolution_windows s.stakes), s'))
unfolding claim payoff
claim-payoff env dr a s distinct sound fits small fee =
    let f = dr.finalized_outcome in
    let ws = dr.resolution_windows in
    let all = users_correct-le f ws s.stakes sound fits in
    let one = user_correct-le a f ws s.stakes sound in
    let (n, t, loop) =
      claim_windows-returns a f ws no_totals s.stakes distinct sound (omega arith) (omega arith)
        (omega arith) in
    let c = claim_windows-Claimed a f ws no_totals s.stakes distinct sound loop in
    let cb : n.total_correct_staked ≡ correct_bonds f ws = omega (arith, c.correct_total) in
    let ib : n.total_incorrect_staked ≡ incorrect_bonds f ws = omega (arith, c.incorrect_total) in
    let uc : n.user_correct_stake ≡ user_correct a f ws s.stakes = omega (arith, c.user_total) in
    let (p, pl) =
      share_lem (user_correct a f ws s.stakes) (incorrect_bonds f ws) (correct_bonds f ws)
        (omega arith) (omega arith) (omega arith) in
    let (o, ol) =
      share_lem (user_correct a f ws s.stakes) dr.paid_fee (correct_bonds f ws) (omega arith)
        (omega arith) fee in
    let u = user_correct a f ws s.stakes in
    (
      log_claim env a dr.id (correct_bonds f ws) (incorrect_bonds f ws) u
          (part_of u (incorrect_bonds f ws) (correct_bonds f ws))
          (part_of u dr.paid_fee (correct_bonds f ws)) (record s { stakes = t }),
      rw
          (
            loop,
            cb,
            ib,
            uc,
            p,
            o,
            checked_add-of-lt u128_mod (user_correct a f ws s.stakes)
                (part_of (user_correct a f ws s.stakes) (incorrect_bonds f ws) (correct_bonds f ws))
                (omega arith),
          )
          refl,
    )
