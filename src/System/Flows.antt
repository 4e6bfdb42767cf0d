-- ===== src/System/Flows.antt =====
-- The tokens that a call of the oracle (oracle/src) takes in and pays out, over all requests.
use oracle_monorepo_near.Base.{
  ℕ, ◌+◌, ◌≡◌, refl, ◌∙◌, inl, inr, Bool-cases, none, some, arith, nat_eq, get_elem?, String_eq,
  Pair_eq, ◌==◌, Each, Option,
}
use oracle_monorepo_near.Near.{
  ok, >>=-eq-ok, require, wrong_payment_token, wrong_stake_token, Result-cases,
}
use oracle_monorepo_near.Oracle.Types.{
  AccountId, Balance, Outcome_eq, WindowId_eq, UserMap_eq, DataRequest, active, finalized,
  OracleConfig, Payload, PromiseOrValue, Env, World, StakeDataRequestArgs,
}
use oracle_monorepo_near.Oracle.Access.{assert_unpaused, assert_sender}
use oracle_monorepo_near.Oracle.Finalized.{claim}
use oracle_monorepo_near.Oracle.Active.{get_final_outcome}
use oracle_monorepo_near.Oracle.Handlers.{dr_stake, dr_get_expect_active, config_at}
use oracle_monorepo_near.Oracle.Receiver.{dispatch}
use oracle_monorepo_near.Oracle.Consistency.Calls.{ft_on_transfer-eq-ok}
use oracle_monorepo_near.Oracle.Consistency.Lifecycle.{dr_new-eq-ok}
use oracle_monorepo_near.Oracle.Consistency.Pricing.{get_config-there}
use oracle_monorepo_near.Oracle.Consistency.Steps.{
  Step, tokens_received, requested, staked, unstaked, claimed, timed_out, provided, arbitrated,
  configured, toggled, fee_updated, listed, dismissed, deposited, withdrawn,
}
use oracle_monorepo_near.Oracle.Treasury.{
  Account, nothing, for_request, claim_of, bond_in_time, bond_by_arbitrator, flow,
}
use oracle_monorepo_near.System.{UsesToken, IsOutside}

abbrev pub taken_in : Account → Balance
taken_in acc = acc.staked + acc.paid_in

pub for_request-untaken :
    (id j : ℕ) (w : World) (f : DataRequest → Account)
    → ((d : DataRequest) → taken_in (f d) ≡ 0)
    → taken_in (for_request id j w f) ≡ 0
for_request-untaken id j w f none_in = elim (Bool-cases (nat_eq j id)) [
  | inr e ↦ rw e (omega arith)
  | inl e ↦ rw e (option_untaken (get_elem? w.contract.data_requests j))
]
  where
    option_untaken :
        (d : Option DataRequest) → taken_in (elim d [ some x ↦ f x | none ↦ nothing ]) ≡ 0
    option_untaken none = omega arith
    option_untaken (some d) = none_in d

pub claim_of-untaken :
    (env : Env) (a : AccountId) (w : World) (d : DataRequest) → taken_in (claim_of env a w d) ≡ 0
claim_of-untaken env a w (active dr) = omega arith
claim_of-untaken env a w (finalized dr) = elim (Result-cases (claim env dr a w.storage)) [
  | inl (e, h) ↦ rw (claim_of, h) (omega arith)
  | inr (r, h) ↦ rw (claim_of, h) (omega arith)
]

pub bond_in_time-untaken : (d : DataRequest) → taken_in (bond_in_time d) ≡ 0
bond_in_time-untaken (finalized dr) = omega arith
bond_in_time-untaken (active dr) = elim (Result-cases (get_final_outcome dr)) [
  | inl (e, h) ↦ rw (bond_in_time, h) (omega arith)
  | inr (o, h) ↦ rw (bond_in_time, h) (omega arith)
]

pub bond_by_arbitrator-untaken : (o : _) (d : DataRequest) → taken_in (bond_by_arbitrator o d) ≡ 0
bond_by_arbitrator-untaken o (active dr) = omega arith
bond_by_arbitrator-untaken o (finalized dr) = omega arith

-- A stake that returns was called by the account of the stake token of the request's configuration.
dr_stake-sender :
    (env : Env) (a : AccountId) (x : Balance) (p : StakeDataRequestArgs) (w : World)
    {r : PromiseOrValue Balance} {w' : World}
    → dr_stake env a x p w ≡ ok (r, w')
    → (i : ℕ) × (config : OracleConfig) × (get_elem? w.contract.configs i ≡ some config)
      × (env.predecessor_account_id ≡ config.stake_token)
unfolding dr_stake assert_sender
dr_stake-sender env a x p w {r} {w'} h =
    let (_, unpaused, h1) = >>=-eq-ok (assert_unpaused w.contract) _ h in
    let (dr, got, h2) = >>=-eq-ok (dr_get_expect_active p.id w.contract) _ h1 in
    let (config, at, h3) = >>=-eq-ok (config_at dr.global_config_id w.contract) _ h2 in
    let (_, called, h4) = >>=-eq-ok (assert_sender env config.stake_token) _ h3 in
    (
      dr.global_config_id,
      config,
      ground arith,
      ground (arith, called, String_eq.beq_iff env.predecessor_account_id config.stake_token),
    )

-- No call that comes from outside the token contract takes tokens in.
module _ (token_id : AccountId) (oracle_id : AccountId) where
  dispatch-sender :
      (env : Env) (config : OracleConfig) (a : AccountId) (x : Balance) (p : Payload) (w : World)
      {r : PromiseOrValue Balance} {w' : World}
      → UsesToken token_id oracle_id config
      → dispatch env config a x p w ≡ ok (r, w')
      → env.predecessor_account_id ≡ token_id
  unfolding dispatch
  dispatch-sender env config a x (Payload.new_data_request p) w (payment, stake) h =
      let (_, from, _) =
        >>=-eq-ok (require (config.payment_token == env.predecessor_account_id) wrong_payment_token)
          _ h in
      ground (arith, from, String_eq.beq_iff config.payment_token env.predecessor_account_id)
  dispatch-sender env config a x (Payload.stake_data_request p) w (payment, stake) h =
      let (_, from, _) =
        >>=-eq-ok (require (config.stake_token == env.predecessor_account_id) wrong_stake_token) _
          h in
      ground (arith, from, String_eq.beq_iff config.stake_token env.predecessor_account_id)

  pub outside-untaken :
      {w w' : World} (st : Step w w')
      → Each (λ i c. UsesToken token_id oracle_id c) w.contract.configs
      → IsOutside token_id oracle_id st
      → (id : ℕ) → taken_in (flow id st) ≡ 0
  unfolding flow
  outside-untaken {w} {w'} (tokens_received env a x msg r h) tokens apart id =
      let (p, config, w1, _, got, done, _) =
        ft_on_transfer-eq-ok env a x msg w {r = r} {w' = w'} h in
      let (i, there) = get_config-there w.contract got in
      absurd (apart (dispatch-sender env config a x p w {r = r} (tokens i config there) done))
  outside-untaken {w} (requested env a x p r h) tokens apart id =
      let (_, config, got, called, _, _, _, _, _, _, _, _, _, _, _, _, _, _) =
        dr_new-eq-ok env a x p w {r = r} h in
      let (i, there) = get_config-there w.contract got in
      absurd (apart (called ∙ (tokens i config there).0))
  outside-untaken {w} (staked env a x p r h) tokens apart id =
      let (i, config, there, called) = dr_stake-sender env a x p w {r = r} h in
      absurd (apart (called ∙ (tokens i config there).1))
  outside-untaken (unstaked env j n o x h) tokens apart id = ground arith
  outside-untaken {w} (claimed env a j h) tokens apart id =
      for_request-untaken id j w (claim_of env a w) (claim_of-untaken env a w)
  outside-untaken {w} (timed_out env j h) tokens apart id =
      for_request-untaken id j w bond_in_time bond_in_time-untaken
  outside-untaken (provided env j o h) tokens apart id = refl
  outside-untaken {w} (arbitrated env j o r h) tokens apart id =
      for_request-untaken id j w (bond_by_arbitrator o) (bond_by_arbitrator-untaken o)
  outside-untaken (configured env c h) tokens apart id = refl
  outside-untaken (toggled env h) tokens apart id = refl
  outside-untaken (fee_updated env f h) tokens apart id = refl
  outside-untaken (listed env r h) tokens apart id = refl
  outside-untaken (dismissed env r h) tokens apart id = refl
  outside-untaken (deposited env to r h) tokens apart id = refl
  outside-untaken (withdrawn env x r h) tokens apart id = refl
