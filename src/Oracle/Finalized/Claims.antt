-- ===== src/Oracle/Finalized/Claims.antt =====
-- A whole pass of `claim` (oracle/src/data_request.rs) over the windows of a finalized request.
use oracle_monorepo_near.Base.{
  ◌+◌, ◌≤◌, ◌≡◌, ◌⊎◌, inl, refl, subst, ◌∙◌, List, [], ◌∷◌, arith, Pair_eq, String_eq,
}
use oracle_monorepo_near.Near.{ok, >>=-eq-ok}
use oracle_monorepo_near.Oracle.Types.{
  AccountId, Outcome, Outcome_eq, outcome_eq_iff, window_id_eq_iff, ResolutionWindow, WindowId_eq,
  UserMap_eq, WindowId, Stakes,
}
use oracle_monorepo_near.Oracle.Window.{window_id, claim_for}
use oracle_monorepo_near.Oracle.Window.Writes.{user_stake, users_total}
use oracle_monorepo_near.Oracle.Window.Staking.{IsSound}
use oracle_monorepo_near.Oracle.Window.Claiming.{claim_for-IsSound}
use oracle_monorepo_near.Oracle.Finalized.{ClaimTotals, add_result, claim_windows}
use oracle_monorepo_near.Oracle.Finalized.Totals.{
  correct_bonds, incorrect_bonds, user_correct, users_correct, IsDistinct, add_result-claim_for,
  claim_for-user, claim_for-sum, claim_for-outcome_to_stake, claim_for-user_correct,
  claim_for-users_correct,
}

-- What a pass from the counters `n` and the stakes `t` to `n'` and `t'` has done.
pub record Claimed (a : AccountId) (f : Outcome) (ws : List ResolutionWindow) (n : ClaimTotals)
    (t : Stakes) (n' : ClaimTotals) (t' : Stakes) : Type 0 where
  pub correct_total : n'.total_correct_staked ≡ n.total_correct_staked + correct_bonds f ws
  pub incorrect_total : n'.total_incorrect_staked ≡ n.total_incorrect_staked + incorrect_bonds f ws
  pub user_total : n'.user_correct_stake ≡ n.user_correct_stake + user_correct a f ws t
  pub sound : IsSound t'
  pub totals : t'.outcome_to_stake ≡ t.outcome_to_stake
  pub taken : user_correct a f ws t' ≡ 0
  pub paid : users_correct f ws t' + user_correct a f ws t ≤ users_correct f ws t
  pub sums : (v : WindowId) (p : Outcome) → users_total v p t' ≤ users_total v p t
  pub users :
      (v : WindowId) (b : AccountId) (p : Outcome)
      → (user_stake v b p t' ≡ user_stake v b p t) ⊎ ((b ≡ a) × (user_stake v b p t' ≡ 0))

no_windows-Claimed :
    (a : AccountId) (f : Outcome) (n : ClaimTotals) (t : Stakes)
    → IsSound t
    → Claimed a f [] n t n t
no_windows-Claimed a f n t s = record {
  correct_total = omega arith;
  incorrect_total = omega arith;
  user_total = omega arith;
  sound = s;
  totals = refl;
  taken = refl;
  paid = omega arith;
  sums = λ v p. omega arith;
  users = λ v b p. inl refl;
}

pub claim_windows-Claimed :
    (a : AccountId) (f : Outcome) (ws : List ResolutionWindow) (n : ClaimTotals) (t : Stakes)
    {n' : ClaimTotals} {t' : Stakes}
    → IsDistinct ws
    → IsSound t
    → claim_windows a f ws n t ≡ ok (n', t')
    → Claimed a f ws n t n' t'
unfolding claim_windows
claim_windows-Claimed a f [] n t {n'} {t'} d s h =
    let p : n ≡ n' = cc in
    let q : t ≡ t' = cc in
    subst (λ m. Claimed a f [] n t m t') p
      (subst (λ u. Claimed a f [] n t n u) q (no_windows-Claimed a f n t s))
claim_windows-Claimed a f (w ∷ ws) n t {n'} {t'} d s h =
    let t1 = (claim_for w a f t).1 in
    let (n1, added, rest) =
      >>=-eq-ok (add_result (claim_for w a f t).0 n) (λ m. claim_windows a f ws m t1) h in
    let s1 = claim_for-IsSound w a f t s in
    let r = claim_windows-Claimed a f ws n1 t1 {n' = n'} {t' = t'} d.1 s1 rest in
    let (c1, c2, c3) = add_result-claim_for w a f t n n1 s added in
    record {
      correct_total = omega (arith, r.correct_total);
      incorrect_total = omega (arith, r.incorrect_total);
      user_total = omega (arith, r.user_total, claim_for-user_correct w a f t s ws d.0);
      sound = r.sound;
      totals = r.totals ∙ claim_for-outcome_to_stake w a f t s;
      taken = ground (
        arith,
        r.taken,
        r.users (window_id w) a f,
        claim_for-user w a f t s (window_id w) a f,
        outcome_eq_iff f f,
        String_eq.beq_iff a a,
        window_id_eq_iff (window_id w) (window_id w),
      );
      paid = ground (
        arith,
        r.paid,
        r.sums (window_id w) f,
        claim_for-sum w a f t s (window_id w) f,
        claim_for-user_correct w a f t s ws d.0,
        claim_for-users_correct w a f t s ws,
        outcome_eq_iff f f,
        window_id_eq_iff (window_id w) (window_id w),
      );
      sums = λ v p. omega (arith, r.sums v p, claim_for-sum w a f t s v p);
      users = λ v b p.
          ground (arith, r.users v b p, claim_for-user w a f t s v b p, String_eq.beq_iff b a);
    }
