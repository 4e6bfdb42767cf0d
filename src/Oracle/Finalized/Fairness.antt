-- ===== src/Oracle/Finalized/Fairness.antt =====
-- One user's claim against another's, and against a second one (`claim` in
-- oracle/src/data_request.rs).
use oracle_monorepo_near.Base.{
  ℕ, zero, suc, ◌+◌, ◌*◌, ◌≤◌, ◌≡◌, ◌≢◌, refl, ◌∙◌, List, [], ◌∷◌, arith, Pair_eq, String_eq,
}
use oracle_monorepo_near.Near.{ok}
use oracle_monorepo_near.Oracle.Types.{
  AccountId, Outcome, Outcome_eq, ResolutionWindow, WindowId_eq, UserMap_eq, WindowId, Env, Storage,
  Stakes,
}
use oracle_monorepo_near.Oracle.Types.{FinalizedDataRequest, ClaimRes}
use oracle_monorepo_near.Oracle.Window.{window_id}
use oracle_monorepo_near.Oracle.Window.Writes.{user_stake}
use oracle_monorepo_near.Oracle.Window.Staking.{IsSound}
use oracle_monorepo_near.Oracle.Finalized.{no_totals, claim}
use oracle_monorepo_near.Oracle.Finalized.Totals.{correct_bonds, user_correct, IsDistinct}
use oracle_monorepo_near.Oracle.Finalized.Claims.{claim_windows-Claimed}
use oracle_monorepo_near.Oracle.Finalized.Solvency.{claim-Pays, claim-eq-ok}

zero_of_mul : (x c : ℕ) → x * suc c ≤ 0 → x ≡ 0
zero_of_mul zero c h = refl
zero_of_mul (suc x) c h = absurd (omega arith)

nothing :
    (x y c i fee : ℕ) {u : ℕ}
    → u ≡ 0
    → x * c ≤ u * (c + i)
    → y * c ≤ u * fee
    → (c ≡ 0 → (x ≡ u) × (y ≡ 0))
    → (x ≡ 0) × (y ≡ 0)
nothing x y zero i fee z sx sy empty = let (e, f) = empty refl in (e ∙ z, f)
nothing x y (suc c) i fee z sx sy empty =
    (zero_of_mul x c (omega (arith, rw z at sx)), zero_of_mul y c (omega (arith, rw z at sy)))

-- After a claim that returns, on windows with different prefixes and sound stakes, a second one by
-- the same user pays nothing if it returns.
pub claim_twice :
    (env env' : Env) (dr : FinalizedDataRequest) (a : AccountId) (s : Storage) {r r' : ClaimRes}
    {s' s'' : Storage}
    → IsDistinct dr.resolution_windows
    → IsSound s.stakes
    → claim env dr a s ≡ ok (r, s')
    → claim env' dr a s' ≡ ok (r', s'')
    → (r'.stake_token_payout ≡ 0) × (r'.payment_token_payout ≡ 0)
claim_twice env env' dr a s {r} {r'} {s'} {s''} distinct sound h h' =
    let one = claim-Pays env dr a s {r = r} {s' = s'} distinct sound h in
    let two = claim-Pays env' dr a s' {r = r'} {s' = s''} distinct one.sound h' in
    nothing r'.stake_token_payout r'.payment_token_payout
      (correct_bonds dr.finalized_outcome dr.resolution_windows) _ dr.paid_fee one.taken
      two.stake_share two.fee_share two.nothing_correct

user_correct_others :
    (b : AccountId) (f : Outcome) (ws : List ResolutionWindow) (t t' : Stakes)
    → ((v : WindowId) → user_stake v b f t' ≡ user_stake v b f t)
    → user_correct b f ws t' ≡ user_correct b f ws t
user_correct_others b f [] t t' h = refl
user_correct_others b f (w ∷ ws) t t' h =
    ground (arith, h (window_id w), user_correct_others b f ws t t' h)

-- On windows with different prefixes and sound stakes, what a claim pays is the same before and
-- after the claim of another user, where all three return.
pub claim_order :
    (env env' env'' : Env) (dr : FinalizedDataRequest) (a b : AccountId) (s : Storage)
    {r p p' : ClaimRes} {s' u u' : Storage}
    → b ≢ a
    → IsDistinct dr.resolution_windows
    → IsSound s.stakes
    → claim env dr a s ≡ ok (r, s')
    → claim env' dr b s ≡ ok (p, u)
    → claim env'' dr b s' ≡ ok (p', u')
    → p' ≡ p
claim_order env env' env'' dr a b s {r} {p} {p'} {s'} {u} {u'} apart distinct sound h k k' =
    let f = dr.finalized_outcome in
    let ws = dr.resolution_windows in
    let (n, x, loop, _, _, _) = claim-eq-ok env dr a s h in
    let c = claim_windows-Claimed a f ws no_totals s.stakes distinct sound loop in
    let same = user_correct_others b f ws s.stakes s'.stakes (λ v. ground (arith, c.users v b f)) in
    let (m, y, loop1, p1, o1, sum1) = claim-eq-ok env' dr b s k in
    let (m', y', loop2, p2, o2, sum2) = claim-eq-ok env'' dr b s' k' in
    let d = claim_windows-Claimed b f ws no_totals s.stakes distinct sound loop1 in
    let d' = claim_windows-Claimed b f ws no_totals s'.stakes distinct c.sound loop2 in
    let cb : m'.total_correct_staked ≡ m.total_correct_staked =
      omega (arith, d.correct_total, d'.correct_total) in
    let ib : m'.total_incorrect_staked ≡ m.total_incorrect_staked =
      omega (arith, d.incorrect_total, d'.incorrect_total) in
    let uc : m'.user_correct_stake ≡ m.user_correct_stake =
      omega (arith, d.user_total, d'.user_total, same) in
    ground (arith, p1, o1, sum1, rw (cb, ib, uc) at p2, rw (cb, uc) at o2, sum2, uc)
