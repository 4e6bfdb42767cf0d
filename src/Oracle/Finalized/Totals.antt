-- ===== src/Oracle/Finalized/Totals.antt =====
-- The loop of `claim` in oracle/src/data_request.rs: the totals that it collects over the windows of
-- a finalized request, and what it takes out of the stakes.
use oracle_monorepo_near.Base.{
  ℕ, ◌+◌, ◌≤◌, ◌≡◌, inl, inr, refl, Bool, false, ◌&&◌, List, [], ◌∷◌, arith, if◌then◌else◌,
  Bool-cases, Option-cases, ◌==◌, Pair_eq, String_eq, sum_by, All,
}
use oracle_monorepo_near.Near.{ok, checked_add}
use oracle_monorepo_near.Oracle.Types.{
  AccountId, Balance, Outcome, Outcome_eq, ResolutionWindow, WindowId_eq, UserMap_eq, WindowId,
  Stakes,
}
use oracle_monorepo_near.Oracle.Window.{window_id, claim_for}
use oracle_monorepo_near.Oracle.Window.Writes.{user_stake, users_total}
use oracle_monorepo_near.Oracle.Window.Staking.{IsSound}
use oracle_monorepo_near.Oracle.Window.Claiming.{
  is_bonded_on, is_bonded_off, take_user_stake-user, take_user_stake-sum, take_user_stake-maps,
  claim_for-stakes, claim_for-result,
}
use oracle_monorepo_near.Oracle.Finalized.{ClaimTotals, add_result}

abbrev pub when : Bool → ℕ → ℕ
when b n = if b then n else 0

-- The bonds of the windows that were bonded on the final outcome, and on another one.
abbrev pub correct_bonds : Outcome → List ResolutionWindow → Balance
correct_bonds f = sum_by (λ w. when (is_bonded_on f w.bonded_outcome) w.bond_size)

abbrev pub incorrect_bonds : Outcome → List ResolutionWindow → Balance
incorrect_bonds f = sum_by (λ w. when (is_bonded_off f w.bonded_outcome) w.bond_size)

-- What a user, and what all users, have on the final outcome in the windows bonded on it.
abbrev pub user_correct : AccountId → Outcome → List ResolutionWindow → Stakes → Balance
user_correct a f ws t =
    sum_by (λ w. when (is_bonded_on f w.bonded_outcome) (user_stake (window_id w) a f t)) ws

abbrev pub users_correct : Outcome → List ResolutionWindow → Stakes → Balance
users_correct f ws t =
    sum_by (λ w. when (is_bonded_on f w.bonded_outcome) (users_total (window_id w) f t)) ws

-- No two windows share a prefix.
abbrev pub IsDistinct : List ResolutionWindow → Type 0
IsDistinct [] = Unit
IsDistinct (w ∷ ws) = All (λ x. (window_id x == window_id w) ≡ false) ws × IsDistinct ws

-- Each counter after one window.
pub add_result-claim_for :
    (w : ResolutionWindow) (a : AccountId) (f : Outcome) (t : Stakes) (n n' : ClaimTotals)
    → IsSound t
    → add_result (claim_for w a f t).0 n ≡ ok n'
    → (n'.total_correct_staked
        ≡ n.total_correct_staked + when (is_bonded_on f w.bonded_outcome) w.bond_size)
      × (n'.total_incorrect_staked
          ≡ n.total_incorrect_staked + when (is_bonded_off f w.bonded_outcome) w.bond_size)
      × (n'.user_correct_stake
          ≡ n.user_correct_stake
            + when (is_bonded_on f w.bonded_outcome) (user_stake (window_id w) a f t))
unfolding add_result checked_add
add_result-claim_for w a f t n n' sound =
    rw (claim_for-result w a f t sound) (elim (Option-cases w.bonded_outcome) [
      | inl e ↦ rw e (λ h. ground arith)
      | inr (b, e) ↦ rw e (λ h. ground arith)
    ])

-- The stakes after one window.
module _ (w : ResolutionWindow) (a : AccountId) (f : Outcome) (t : Stakes) (sound : IsSound t) where
  pub claim_for-user :
      (v : WindowId) (b : AccountId) (p : Outcome)
      → user_stake v b p (claim_for w a f t).1 ≡ (
          if is_bonded_on f w.bonded_outcome && (((v == window_id w) && (b == a)) && (p == f))
          then 0
          else user_stake v b p t)
  claim_for-user v b p =
      rw (claim_for-stakes w a f t sound) (elim (Bool-cases (is_bonded_on f w.bonded_outcome)) [
        | inl e ↦ rw e ((take_user_stake-user w a f t sound).1 v b p)
        | inr e ↦ rw e
      ])

  pub claim_for-sum :
      (v : WindowId) (p : Outcome)
      → users_total v p (claim_for w a f t).1
          + when
              (is_bonded_on f w.bonded_outcome && ((v == window_id w) && (p == f)))
              (user_stake (window_id w) a f t)
        ≤ users_total v p t
  claim_for-sum v p =
      rw (claim_for-stakes w a f t sound) (elim (Bool-cases (is_bonded_on f w.bonded_outcome)) [
        | inl e ↦ rw e (take_user_stake-sum w a f t sound v p)
        | inr e ↦ rw e (omega arith)
      ])

  pub claim_for-outcome_to_stake : (claim_for w a f t).1.outcome_to_stake ≡ t.outcome_to_stake
  claim_for-outcome_to_stake =
      rw (claim_for-stakes w a f t sound) (elim (Bool-cases (is_bonded_on f w.bonded_outcome)) [
        | inl e ↦ rw e ((take_user_stake-maps w a f t sound).0)
        | inr e ↦ rw e
      ])

  -- Windows under other prefixes keep what the user has in them.
  pub claim_for-user_correct :
      (ws : List ResolutionWindow)
      → All (λ x. (window_id x == window_id w) ≡ false) ws
      → user_correct a f ws (claim_for w a f t).1 ≡ user_correct a f ws t
  claim_for-user_correct [] d = refl
  claim_for-user_correct (x ∷ ws) d =
      ground (arith, claim_for-user (window_id x) a f, claim_for-user_correct ws d.1)

  pub claim_for-users_correct :
      (ws : List ResolutionWindow) → users_correct f ws (claim_for w a f t).1 ≤ users_correct f ws t
  claim_for-users_correct [] = omega arith
  claim_for-users_correct (x ∷ ws) =
      ground (arith, claim_for-sum (window_id x) f, claim_for-users_correct ws)
