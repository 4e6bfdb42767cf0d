-- ===== src/Oracle/Treasury/Paid.antt =====
-- The transfers of the calls of the oracle (oracle/src) that pay: to whom, and of which tokens.
use oracle_monorepo_near.Base.{
  ℕ, ◌+◌, ◌≡◌, refl, ap, ◌∙◌, ◌⊎◌, inr, Bool, true, Option, none, some, nat_eq, arith, get_elem?,
  String_eq,
}
use oracle_monorepo_near.Near.{ok}
use oracle_monorepo_near.Oracle.Types.{
  AccountId, Balance, Outcome, answer, invalid, Outcome_eq, WindowId_eq, UserMap_eq,
  ActiveDataRequest, ClaimRes, DataRequest, active, finalized, OracleConfig, PromiseOrValue, Env,
  World,
}
use oracle_monorepo_near.Oracle.Handlers.{
  dr_unstake, dr_claim, dr_finalize, dr_final_arbitrator_finalize, get_config_id,
}
use oracle_monorepo_near.Oracle.Consistency.Steps.{
  Step, unstaked, claimed, timed_out, arbitrated, call_env,
}
use oracle_monorepo_near.Oracle.Treasury.{
  Account, nothing, for_request, of_claim, bond_for, claim_of, bond_in_time, bond_by_arbitrator,
  flow,
}
use oracle_monorepo_near.Oracle.Treasury.Sent.{Weight, Sends, returned}
use oracle_monorepo_near.Oracle.Treasury.Sends.{dr_unstake-Sends, dr_claim-Sends}
use oracle_monorepo_near.Oracle.Treasury.Endings.{
  dr_finalize-Sends, dr_final_arbitrator_finalize-Sends,
}
use oracle_monorepo_near.Oracle.Treasury.History.{bond_in_time-eq}
use oracle_monorepo_near.Oracle.Treasury.Claims.{claim_of-eq}
use oracle_monorepo_near.Oracle.Treasury.Unpaid.{paid_out}

this_request :
    (j : ℕ) (w : World) (f : DataRequest → Account) {d : DataRequest}
    → get_elem? w.contract.data_requests j ≡ some d
    → for_request j j w f ≡ f d
this_request j w f h = let e : nat_eq j j ≡ true = ground arith in rw (e, h) refl

-- The configuration that request `id` was made under.
abbrev pub config_of : ℕ → World → Option OracleConfig
config_of id w = elim (get_elem? w.contract.data_requests id) [
  | some d ↦ get_elem? w.contract.configs (get_config_id d)
  | none ↦ none
]

abbrev asker : AccountId → DataRequest → AccountId
asker a (active dr) = dr.requester.account_id
asker a (finalized dr) = a

abbrev pub requester_of : AccountId → ℕ → World → AccountId
requester_of a id w = elim (get_elem? w.contract.data_requests id) [ some d ↦ asker a d | none ↦ a ]

config_of-at :
    (id : ℕ) (w : World) (d : DataRequest)
    → get_elem? w.contract.data_requests id ≡ some d
    → config_of id w ≡ get_elem? w.contract.configs (get_config_id d)
config_of-at id w d at = rw (config_of, at) refl

requester_of-at :
    (a : AccountId) (id : ℕ) (w : World) (d : DataRequest)
    → get_elem? w.contract.data_requests id ≡ some d
    → requester_of a id w ≡ asker a d
requester_of-at a id w d at = rw (requester_of, at) refl

-- Whom a call pays: a claim its user, the end of a request the requester, any other call its caller.
abbrev pub payee : {w w' : World} → Step w w' → AccountId
payee (claimed env a id h) = a
payee {w} (timed_out env id h) = requester_of env.predecessor_account_id id w
payee {w} (arbitrated env id o r h) = requester_of env.predecessor_account_id id w
payee st = (call_env st).predecessor_account_id

-- What an account has paid counts for: stake tokens for unstakes and claims, payment tokens for fees
-- and validity bonds.
abbrev pub counted : Weight → OracleConfig → Account → AccountId → ℕ
counted g config acc b =
    g config.stake_token b (acc.unstaked + acc.claimed)
    + g config.payment_token b (acc.fees + acc.bonds)

-- A call pays nothing and sends nothing, or sends what it pays in the account of `id` to the payee.
abbrev pub IsPaid : Weight → ℕ → {w w' : World} → Step w w' → Type 0
IsPaid g id {w} {w'} st =
    ((paid_out (flow id st) ≡ 0) × Sends g w w' 0)
    ⊎ ((config : OracleConfig) × (config_of id w ≡ some config)
        × Sends g w w' (counted g config (flow id st) (payee st)))

module _ (g : Weight) (none_of : (t b : AccountId) → g t b 0 ≡ 0) where
  -- Where a call paid the account `acc` out of the request `d` to `b`.
  paid :
      {w w' : World} (st : Step w w') (id : ℕ) (d : DataRequest) (config : OracleConfig)
      (acc : Account) (b : AccountId)
      → get_elem? w.contract.data_requests id ≡ some d
      → get_elem? w.contract.configs (get_config_id d) ≡ some config
      → flow id st ≡ acc
      → payee st ≡ b
      → Sends g w w' (counted g config acc b)
      → IsPaid g id st
  paid {w} st id d config acc b at known same to sends =
      inr (config, config_of-at id w d at ∙ known, rw (same, to) sends)

  counted-unstaked :
      (config : OracleConfig) (x : Balance) (b : AccountId)
      → counted g config (record nothing { unstaked = x }) b ≡ g config.stake_token b x
  counted-unstaked config x b =
      let sum : x + 0 ≡ x = omega arith in
      omega (arith, none_of config.payment_token b, ap (g config.stake_token b) sum)

  counted-bond :
      (config : OracleConfig) (dr : ActiveDataRequest) (o : Outcome)
      → counted g config (record nothing { bonds = bond_for dr o }) dr.requester.account_id
        ≡ returned g dr o config.payment_token dr.requester.account_id
  counted-bond config dr (answer x) =
      let b = dr.requester.account_id in
      let sum : 0 + dr.request_config.validity_bond ≡ dr.request_config.validity_bond =
        omega arith in
      omega (arith, none_of config.stake_token b, ap (g config.payment_token b) sum)
  counted-bond config dr invalid =
      let b = dr.requester.account_id in
      omega (arith, none_of config.stake_token b, none_of config.payment_token b)

  counted-claim :
      (config : OracleConfig) (r : ClaimRes) (b : AccountId)
      → counted g config (of_claim r) b
        ≡ g config.stake_token b r.stake_token_payout
          + g config.payment_token b r.payment_token_payout
  counted-claim config r b =
      let stake : 0 + r.stake_token_payout ≡ r.stake_token_payout = omega arith in
      let fee : r.payment_token_payout + 0 ≡ r.payment_token_payout = omega arith in
      omega (arith, ap (g config.stake_token b) stake, ap (g config.payment_token b) fee)

  pub unstaked-IsPaid :
      (env : Env) (id n : ℕ) (o : Outcome) (x : Balance) (w : World) {w' : World}
      (h : dr_unstake env id n o x w ≡ ok w')
      → IsPaid g id (unstaked env id n o x h)
  unfolding flow
  unstaked-IsPaid env id n o x w h =
      let b = env.predecessor_account_id in
      let (d, config, at, known, sends) = dr_unstake-Sends g env id n o x w h in
      let here : nat_eq id id ≡ true = ground arith in
      paid (unstaked env id n o x h) id d config (record nothing { unstaked = x }) b at known
        (rw here refl) refl (omega (arith, sends, counted-unstaked config x b))

  pub claimed-IsPaid :
      (env : Env) (a : AccountId) (id : ℕ) (w : World) {w' : World}
      (h : dr_claim env a id w ≡ ok w')
      → IsPaid g id (claimed env a id h)
  unfolding flow
  claimed-IsPaid env a id w {w'} h =
      let (dr, config, r, s, at, done, known, sends) =
        dr_claim-Sends g none_of env a id w {w' = w'} h in
      paid (claimed env a id h) id (finalized dr) config (of_claim r) a at known
        (this_request id w (claim_of env a w) at ∙ claim_of-eq env a w dr r s done) refl
        (omega (arith, sends, counted-claim config r a))

  pub timed_out-IsPaid :
      (env : Env) (id : ℕ) (w : World) {w' : World} (h : dr_finalize env id w ≡ ok w')
      → IsPaid g id (timed_out env id h)
  unfolding flow
  timed_out-IsPaid env id w {w'} h =
      let (dr, config, o, at, final, known, sends) = dr_finalize-Sends g env id w {w' = w'} h in
      paid (timed_out env id h) id (active dr) config (record nothing { bonds = bond_for dr o })
        dr.requester.account_id at known
        (this_request id w bond_in_time at ∙ bond_in_time-eq dr o final)
        (requester_of-at env.predecessor_account_id id w (active dr) at)
        (omega (arith, sends, counted-bond config dr o))

  pub arbitrated-IsPaid :
      (env : Env) (id : ℕ) (o : Outcome) (w : World) {r : PromiseOrValue Bool} {w' : World}
      (h : dr_final_arbitrator_finalize env id o w ≡ ok (r, w'))
      → IsPaid g id (arbitrated env id o r h)
  unfolding flow
  arbitrated-IsPaid env id o w {r} {w'} h =
      let (dr, config, at, known, sends) =
        dr_final_arbitrator_finalize-Sends g env id o w {r = r} {w' = w'} h in
      paid (arbitrated env id o r h) id (active dr) config
        (record nothing { bonds = bond_for dr o }) dr.requester.account_id at known
        (this_request id w (bond_by_arbitrator o) at)
        (requester_of-at env.predecessor_account_id id w (active dr) at)
        (omega (arith, sends, counted-bond config dr o))
