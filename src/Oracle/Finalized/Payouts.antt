-- ===== src/Oracle/Finalized/Payouts.antt =====
-- All claims on a finalized request together (`claim` in oracle/src/data_request.rs).
use oracle_monorepo_near.Base.{
  ℕ, zero, suc, ◌+◌, ◌*◌, ◌≤◌, ◌≡◌, inl, inr, refl, true, List, [], ◌∷◌, arith, Pair_eq, String_eq,
  All,
}
use oracle_monorepo_near.Near.{Result, ok, Result-cases, ◌>>=◌}
use oracle_monorepo_near.Oracle.Types.{
  AccountId, Balance, Outcome, Outcome_eq, ResolutionWindow, WindowId_eq, UserMap_eq, Env, Storage,
  Stakes,
}
use native.Mathlib.Nat.{mul-le-mul_right, le_of_mul-le-mul_right}
use oracle_monorepo_near.Oracle.Types.{FinalizedDataRequest, ClaimRes}
use oracle_monorepo_near.Oracle.Window.{window_id}
use oracle_monorepo_near.Oracle.Window.Writes.{outcome_total}
use oracle_monorepo_near.Oracle.Window.Staking.{IsSound}
use oracle_monorepo_near.Oracle.Window.Claiming.{is_bonded_on}
use oracle_monorepo_near.Oracle.Finalized.{claim}
use oracle_monorepo_near.Oracle.Finalized.Totals.{
  correct_bonds, incorrect_bonds, user_correct, users_correct, IsDistinct,
}
use oracle_monorepo_near.Oracle.Finalized.Solvency.{claim-Pays}

-- Claims one after the other, each by some user in some environment, with the sums of what they pay.
unfoldable pub claim_all :
    FinalizedDataRequest → List (Env × AccountId) → Storage → Result (ClaimRes × Storage)
claim_all dr [] s = ok (record { payment_token_payout = 0; stake_token_payout = 0 }, s)
claim_all dr ((env, a) ∷ calls) s = do
  (r, s1) ← claim env dr a s
  (rest, s2) ← claim_all dr calls s1
  ok (
    record {
      payment_token_payout = r.payment_token_payout + rest.payment_token_payout;
      stake_token_payout = r.stake_token_payout + rest.stake_token_payout;
    },
    s2,
  )

-- No window bonded on the final outcome has more staked on it than its bond.
abbrev pub FitsBonds : Outcome → List ResolutionWindow → Stakes → Type 0
FitsBonds f ws t =
    All
      (λ w. is_bonded_on f w.bonded_outcome ≡ true → outcome_total (window_id w) f t ≤ w.bond_size)
      ws

pub users_correct-le :
    (f : Outcome) (ws : List ResolutionWindow) (t : Stakes)
    → IsSound t
    → FitsBonds f ws t
    → users_correct f ws t ≤ correct_bonds f ws
users_correct-le f [] t sound fits = omega arith
users_correct-le f (w ∷ ws) t sound fits =
    ground (arith, sound.covered (window_id w) f, users_correct-le f ws t sound fits.1, fits.0)

-- The stake of the users that have claimed, from `t` to `t'`, is at most `u`.
record Shared (dr : FinalizedDataRequest) (t : Stakes) (r : ClaimRes) (t' : Stakes) (u : Balance)
    : Type 0 where
  sound : IsSound t'
  left :
      users_correct dr.finalized_outcome dr.resolution_windows t' + u
      ≤ users_correct dr.finalized_outcome dr.resolution_windows t
  stake_share :
      r.stake_token_payout * correct_bonds dr.finalized_outcome dr.resolution_windows
      ≤ u
        * (correct_bonds dr.finalized_outcome dr.resolution_windows
            + incorrect_bonds dr.finalized_outcome dr.resolution_windows)
  fee_share :
      r.payment_token_payout * correct_bonds dr.finalized_outcome dr.resolution_windows
      ≤ u * dr.paid_fee
  nothing_correct :
      correct_bonds dr.finalized_outcome dr.resolution_windows ≡ 0
      → (r.stake_token_payout ≡ u) × (r.payment_token_payout ≡ 0)

claim_all-Shared :
    (dr : FinalizedDataRequest) (calls : List (Env × AccountId)) (s : Storage) {r : ClaimRes}
    {s' : Storage}
    → IsDistinct dr.resolution_windows
    → IsSound s.stakes
    → claim_all dr calls s ≡ ok (r, s')
    → (u : Balance) × Shared dr s.stakes r s'.stakes u
unfolding claim_all
claim_all-Shared dr [] s {r} {s'} distinct sound h =
    let stake : r.stake_token_payout ≡ 0 = ground arith in
    let fee : r.payment_token_payout ≡ 0 = ground arith in
    let same : s ≡ s' = ground arith in
    (
      0,
      record {
        sound = rw (← same) sound;
        left = rw (← same) (omega arith);
        stake_share = rw stake (omega arith);
        fee_share = rw fee (omega arith);
        nothing_correct = λ z. (stake, fee);
      },
    )
claim_all-Shared dr ((env, a) ∷ calls) s {r} {s'} distinct sound h =
    elim (Result-cases (claim env dr a s)) [
      | inl (e, q) ↦ absurd (ground arith)
      | inr ((r1, s1), q) ↦ elim (Result-cases (claim_all dr calls s1)) [
        | inl (e, p) ↦ absurd (ground arith)
        | inr ((r2, s2), p) ↦
            (let one = claim-Pays env dr a s {r = r1} {s' = s1} distinct sound q in
              let (u, more) =
                claim_all-Shared dr calls s1 {r = r2} {s' = s2} distinct one.sound p in
              let stake : r.stake_token_payout ≡ r1.stake_token_payout + r2.stake_token_payout =
                ground arith in
              let fee : r.payment_token_payout ≡ r1.payment_token_payout + r2.payment_token_payout =
                ground arith in
              let same : s2 ≡ s' = ground arith in
              (
                user_correct a dr.finalized_outcome dr.resolution_windows s.stakes + u,
                record {
                  sound = rw (← same) more.sound;
                  left = rw (← same) (omega (arith, one.left, more.left));
                  stake_share = rw stake (omega (arith, one.stake_share, more.stake_share));
                  fee_share = rw fee (omega (arith, one.fee_share, more.fee_share));
                  nothing_correct = λ z. (
                    omega (arith, stake, (one.nothing_correct z).0, (more.nothing_correct z).0),
                    omega (arith, fee, (one.nothing_correct z).1, (more.nothing_correct z).1),
                  );
                },
              ))
      ]
    ]

-- Shares of at most `c` parts in `c` are at most the whole.
pub cover :
    (x y c i u fee : ℕ)
    → u ≤ c
    → x * c ≤ u * (c + i)
    → y * c ≤ u * fee
    → (c ≡ 0 → (x ≡ u) × (y ≡ 0))
    → (x ≤ c + i) × (y ≤ fee)
cover x y zero i u fee part sx sy empty =
    let (e, f) = empty refl in (omega (arith, e), omega (arith, f))
cover x y (suc c) i u fee part sx sy empty =
    let s1 : x * suc c ≤ (suc c + i) * suc c =
      omega (arith, sx, mul-le-mul_right (suc c + i) part) in
    let s2 : y * suc c ≤ fee * suc c = omega (arith, sy, mul-le-mul_right fee part) in
    (
      le_of_mul-le-mul_right {k = suc c} s1 (omega arith),
      le_of_mul-le-mul_right {k = suc c} s2 (omega arith),
    )

-- Claims that return on a finalized request, by whomever, in whatever order and however often: if
-- its windows have different prefixes, the stakes are sound and no window bonded on the final
-- outcome has more staked on it than its bond, then all stake payouts together are at most the
-- bonds of the bonded windows, and all fee payouts together are at most the fee that was paid for
-- the request.
pub claim_all-covered :
    (dr : FinalizedDataRequest) (calls : List (Env × AccountId)) (s : Storage) {r : ClaimRes}
    {s' : Storage}
    → IsDistinct dr.resolution_windows
    → IsSound s.stakes
    → FitsBonds dr.finalized_outcome dr.resolution_windows s.stakes
    → claim_all dr calls s ≡ ok (r, s')
    → (r.stake_token_payout
        ≤ correct_bonds dr.finalized_outcome dr.resolution_windows
          + incorrect_bonds dr.finalized_outcome dr.resolution_windows)
      × (r.payment_token_payout ≤ dr.paid_fee)
claim_all-covered dr calls s {r} {s'} distinct sound fits h =
    let f = dr.finalized_outcome in
    let ws = dr.resolution_windows in
    let (u, m) = claim_all-Shared dr calls s {r = r} {s' = s'} distinct sound h in
    let all : users_correct f ws s.stakes ≤ correct_bonds f ws =
      users_correct-le f ws s.stakes sound fits in
    let part : u ≤ correct_bonds f ws = omega (arith, m.left, all) in
    cover r.stake_token_payout r.payment_token_payout (correct_bonds f ws) (incorrect_bonds f ws) u
      dr.paid_fee part m.stake_share m.fee_share m.nothing_correct
