-- ===== src/System/Claims.antt =====
-- When `dr_claim` of oracle/src/data_request.rs returns, in a system with the token contract
-- (token/src).
use oracle_monorepo_near.Base.{
  ℕ, ◌+◌, ◌≤◌, ◌<◌, ◌≡◌, refl, ◌∙◌, false, ◌⊎◌, inl, inr, some, List, [], ◌∷◌, ◌++◌, arith,
  get_elem?, get_elem?-there, String_eq, Pair_eq, ltb, leb, Bool-cases,
}
use oracle_monorepo_near.Near.{ok, ◌>>=◌, ◌>>◌, >>=-of-ok, checked_sub, require, not_enough_gas}
use oracle_monorepo_near.Oracle.Types.{
  AccountId, Balance, Outcome_eq, WindowId_eq, UserMap_eq, FinalizedDataRequest, finalized,
  OracleConfig, Promise, ClaimRes, Env, World,
}
use oracle_monorepo_near.Oracle.Helpers.{refund_storage, schedule, fungible_token_transfer}
use oracle_monorepo_near.Oracle.Access.{assert_unpaused}
use oracle_monorepo_near.Oracle.Logger.{log_update_finalized_data_request}
use oracle_monorepo_near.Oracle.Handlers.{dr_claim, dr_get_expect_finalized, config_at, payout}
use oracle_monorepo_near.Oracle.Finalized
use oracle_monorepo_near.Oracle.Finalized.Totals.{user_correct}
use oracle_monorepo_near.Oracle.Finalized.Payoff.{payoff, claim-payoff}
use oracle_monorepo_near.Oracle.Consistency.{IsConsistent}
use oracle_monorepo_near.Oracle.Consistency.Claims.{distinct, fits}
use oracle_monorepo_near.Oracle.Consistency.Settlement.{PaysStorage, refund_storage-returns}
use oracle_monorepo_near.Oracle.Treasury.Owed.{finalized_bonds-le}
use oracle_monorepo_near.System.{System, Reachable, IsOrderly}
use oracle_monorepo_near.System.Histories.{Reachable-IsFunded}

-- The gas of the call covers what it uses, whatever it does, and the transfer that follows.
abbrev pub HasGas : Env → Type 0
HasGas env = (w : World) → env.used_gas w + env.consts.gas_base_transfer ≤ env.prepaid_gas

-- The transfers of a claim to `a`: of stake tokens, then of payment tokens if there is a fee.
abbrev pub IsPayment : OracleConfig → AccountId → ClaimRes → Promise → Type 0
IsPayment config a r p =
    ((r.payment_token_payout ≡ 0)
      × (p ≡ Promise.ft_transfer config.stake_token a r.stake_token_payout))
    ⊎ ((0 < r.payment_token_payout)
        × (p
            ≡ Promise.and_then (Promise.ft_transfer config.stake_token a r.stake_token_payout)
                (Promise.ft_transfer config.payment_token a r.payment_token_payout)))

payout-returns :
    (config : OracleConfig) (a : AccountId) (r : ClaimRes)
    → 0 < r.stake_token_payout
    → (p : Promise) × (payout config a r ≡ ok p) × IsPayment config a r p
unfolding payout fungible_token_transfer
payout-returns config a r positive =
    let stake = Promise.ft_transfer config.stake_token a r.stake_token_payout in
    let fee = Promise.ft_transfer config.payment_token a r.payment_token_payout in
    elim (Bool-cases (ltb 0 r.payment_token_payout)) [
      | inl e ↦ (Promise.and_then stake fee, ground arith, inr (ground arith, refl))
      | inr e ↦ (stake, ground arith, inl (ground arith, refl))
    ]

-- The end of a claim, after the refund.
gas_left :
    (env : Env) (config : OracleConfig) (a : AccountId) (r : ClaimRes) (w : World) (p : Promise)
    → env.used_gas w + env.consts.gas_base_transfer ≤ env.prepaid_gas
    → payout config a r ≡ ok p
    → (do
      gas ← checked_sub env.prepaid_gas (env.used_gas w)
      require (leb env.consts.gas_base_transfer gas) not_enough_gas
      transfers ← payout config a r
      ok (schedule transfers w))
      ≡ ok (schedule p w)
unfolding checked_sub
gas_left env config a r w p enough paid = ground (arith, paid)

payoff-positive :
    (dr : FinalizedDataRequest) (u : Balance) → 0 < u → 0 < (payoff dr u).stake_token_payout
unfolding payoff
payoff-positive dr u positive = omega arith

-- In every state that any reachable token contract and a fresh oracle reach by orderly receipts, while
-- the oracle is not paused: a claim for a user with stake on the outcome of a finalized request, in the
-- windows bonded on it, returns, where the deposit pays for the storage and the gas is enough. It
-- schedules a transfer of stake tokens to that user, and after it one of payment tokens if there is a
-- fee, in the tokens of the configuration of the request and of what `payoff` says: that stake, with
-- its parts, rounded down, of the bonds on other outcomes and of the fee.
pub dr_claim-returns :
    (token_id oracle_id : AccountId) {s : System} (reached : Reachable token_id oracle_id s)
    (env : Env) (a : AccountId) (id : ℕ) {dr : FinalizedDataRequest}
    → IsOrderly token_id oracle_id reached
    → s.oracle.contract.paused ≡ false
    → get_elem? s.oracle.contract.data_requests id ≡ some (finalized dr)
    → 0 < user_correct a dr.finalized_outcome dr.resolution_windows s.oracle.storage.stakes
    → PaysStorage env s.oracle
    → HasGas env
    → (w : World) × (config : OracleConfig) × (p : Promise) × (before : List Promise) × (dr_claim
          env a id s.oracle
        ≡ ok w)
      × (get_elem? s.oracle.contract.configs dr.global_config_id ≡ some config)
      × IsPayment config a
          (payoff dr
            (user_correct a dr.finalized_outcome dr.resolution_windows s.oracle.storage.stakes))
          p
      × (w.storage.promises ≡ before ++ p ∷ [])
unfolding dr_claim assert_unpaused dr_get_expect_finalized
dr_claim-returns token_id oracle_id {s} reached env a id {dr} orderly running at positive pays gas =
    let w = s.oracle in
    let funded = Reachable-IsFunded token_id oracle_id reached orderly in
    let v : IsConsistent w = funded.settled.consistent in
    let (small, fee) = funded.bounded id (finalized dr) at dr refl in
    let bonds = finalized_bonds-le w v id dr at in
    let u = user_correct a dr.finalized_outcome dr.resolution_windows w.storage.stakes in
    let (t, claimed) =
      claim-payoff env dr a w.storage (distinct w v id dr at) v.sound (fits w v id dr at)
        (omega (arith, small, bonds)) fee in
    let (config, known) =
      get_elem?-there w.contract.configs dr.global_config_id (v.known id (finalized dr) at) in
    let logged : World = record w { storage = log_update_finalized_data_request dr t } in
    let (refunded, ref) = refund_storage-returns env env.predecessor_account_id w logged pays in
    let (p, paid, payment) =
      payout-returns config a (payoff dr u) (payoff-positive dr u positive) in
    (
      schedule p refunded,
      config,
      p,
      refunded.storage.promises,
      >>=-of-ok (assert_unpaused w.contract) _ (ground arith)
          ∙ >>=-of-ok (dr_get_expect_finalized id w.contract) _ {first = dr} (rw at refl)
          ∙ >>=-of-ok (Finalized.claim env dr a w.storage) _ claimed
          ∙ >>=-of-ok (config_at dr.global_config_id w.contract) _ {first = config} (rw known refl)
          ∙ >>=-of-ok (refund_storage env (env.storage_usage w) env.predecessor_account_id logged) _
              ref
          ∙ gas_left env config a (payoff dr u) refunded p (gas refunded) paid,
      known,
      payment,
      refl,
    )
