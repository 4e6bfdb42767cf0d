-- ===== src/Oracle/Examples/Claims.antt =====
-- The theorems on claims at a request with three windows, bonded on `yea`, `nay` and `yea`.
use oracle_monorepo_near.Base.{◌+◌, ◌≤◌, ◌≡◌, refl, [], ◌∷◌, arith, ==_false, String_eq}
use oracle_monorepo_near.Near.{ok, err, get, insert, remove, checked_add, checked_mul}
use oracle_monorepo_near.Oracle.Types.{AccountId, Outcome_eq, ClaimRes, Stakes, Storage}
use oracle_monorepo_near.Oracle.Logger.{log_claim}
use oracle_monorepo_near.Oracle.Helpers.{calc_product}
use oracle_monorepo_near.Oracle.Window
use oracle_monorepo_near.Oracle.Window.{
  window_id, write_stakes, get_user_to_outcomes, take_user_stake,
}
use oracle_monorepo_near.Oracle.Window.Staking.{IsSound}
use oracle_monorepo_near.Oracle.Window.Accounts.{write-IsSound}
use oracle_monorepo_near.Oracle.Finalized.{claim, claim_windows, add_result, share}
use oracle_monorepo_near.Oracle.Finalized.Totals.{
  IsDistinct, correct_bonds, incorrect_bonds, user_correct,
}
use oracle_monorepo_near.Oracle.Finalized.Payouts.{FitsBonds, claim_all, claim_all-covered}
use oracle_monorepo_near.Oracle.Finalized.Payoff.{payoff, claim-payoff}
use oracle_monorepo_near.Oracle.Finalized.Fairness.{claim_twice, claim_order}
use oracle_monorepo_near.Oracle.Examples.Worlds.{
  yea, nay, env, no_stakes, storage_of, bonded0, bonded1, bonded2, settled,
}
use oracle_monorepo_near.Oracle.Examples.Staking.{no_stakes-IsSound}

stakes0 : Stakes
unfolding write_stakes get_user_to_outcomes get insert
stakes0 = write_stakes bonded0 "alice.near" yea 200 200 no_stakes

stakes1 : Stakes
unfolding stakes0
stakes1 = write_stakes bonded1 "bob.near" nay 400 400 stakes0

stakes2 : Stakes
unfolding stakes1
stakes2 = write_stakes bonded2 "carol.near" yea 800 800 stakes1

stakes2-IsSound : IsSound stakes2
unfolding stakes2
stakes2-IsSound =
    write-IsSound bonded2 "carol.near" yea 800 800 stakes1
      (write-IsSound bonded1 "bob.near" nay 400 400 stakes0
        (write-IsSound bonded0 "alice.near" yea 200 200 no_stakes no_stakes-IsSound refl) refl)
      refl

settled-IsDistinct : IsDistinct settled.resolution_windows
settled-IsDistinct = ground arith

stakes2-FitsBonds : FitsBonds yea settled.resolution_windows stakes2
unfolding stakes2
stakes2-FitsBonds = ground arith

-- A claim, or nothing paid where it panics.
claimed : AccountId → Storage → ClaimRes × Storage
unfolding claim claim_windows add_result share calc_product checked_mul checked_add log_claim
    Window.claim_for take_user_stake get remove
claimed a s = elim (claim env settled a s) [
  | ok r ↦ r
  | err e ↦ (record { payment_token_payout = 0; stake_token_payout = 0 }, s)
]

alice : ClaimRes × Storage
unfolding claimed stakes2
alice = claimed "alice.near" (storage_of stakes2)

alice_again : ClaimRes × Storage
unfolding alice
alice_again = claimed "alice.near" alice.1

carol : ClaimRes × Storage
unfolding alice
carol = claimed "carol.near" alice.1

carol_first : ClaimRes × Storage
unfolding claimed stakes2
carol_first = claimed "carol.near" (storage_of stakes2)

-- Alice has 200 of the 1000 correct, and so gets a fifth of the 400 incorrect and of the fee.
alice_payout : alice.0 ≡ record { payment_token_payout = 20; stake_token_payout = 280 }
unfolding alice
alice_payout = refl

claim_all-covered_example :
    (1400
      ≤ correct_bonds yea settled.resolution_windows
        + incorrect_bonds yea settled.resolution_windows)
    × (100 ≤ settled.paid_fee)
unfolding claim_all carol
claim_all-covered_example =
    claim_all-covered settled
      ((env, "alice.near") ∷ (env, "carol.near") ∷ (env, "bob.near") ∷ (env, "alice.near") ∷ [])
      (storage_of stakes2) {r = record { payment_token_payout = 100; stake_token_payout = 1400 }}
      settled-IsDistinct stakes2-IsSound stakes2-FitsBonds refl

claim_twice_example :
    (alice_again.0.stake_token_payout ≡ 0) × (alice_again.0.payment_token_payout ≡ 0)
unfolding alice_again
claim_twice_example =
    claim_twice env env settled "alice.near" (storage_of stakes2) {r = alice.0} {r' = alice_again.0}
      {s' = alice.1} {s'' = alice_again.1} settled-IsDistinct stakes2-IsSound refl refl

claim_order_example : carol.0 ≡ carol_first.0
unfolding carol carol_first
claim_order_example =
    claim_order env env env settled "alice.near" "carol.near" (storage_of stakes2) {r = alice.0}
      {p = carol_first.0} {p' = carol.0} {s' = alice.1} {u = carol_first.1} {u' = carol.1}
      (==_false refl) settled-IsDistinct stakes2-IsSound refl refl refl

claim-payoff_example :
    (s' : Storage) × (claim env settled "alice.near" (storage_of stakes2)
      ≡ ok (payoff settled (user_correct "alice.near" yea settled.resolution_windows stakes2), s'))
claim-payoff_example =
    claim-payoff env settled "alice.near" (storage_of stakes2) settled-IsDistinct stakes2-IsSound
      stakes2-FitsBonds (omega arith) (omega arith)

-- The payoff of a stake of 200 of the 1000 on the final outcome.
alice_payoff : payoff settled 200 ≡ record { payment_token_payout = 20; stake_token_payout = 280 }
unfolding payoff
alice_payoff = refl
