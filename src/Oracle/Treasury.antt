-- ===== src/Oracle/Treasury.antt =====
-- The tokens that the oracle (oracle/src) takes in and pays out for one request, over a history of
-- calls.
pub mod Totals
pub mod Owed
pub mod Stakes
pub mod Requests
pub mod Claims
pub mod Finals
pub mod Sent
pub mod Sums
pub mod Sends
pub mod Endings
pub mod Quiet
pub mod Unpaid
pub mod Paid
pub mod Promises
pub mod History
pub mod Ledger
use oracle_monorepo_near.Base.{ℕ, ◌+◌, ◌-◌, none, some, if◌then◌else◌, nat_eq, get_elem?, length}
use oracle_monorepo_near.Near.{ok, err}
use oracle_monorepo_near.Oracle.Types.{
  AccountId, Balance, Outcome, answer, invalid, ActiveDataRequest, DataRequest, active, finalized,
  ClaimRes, Payload, Promise, PromiseOrValue, promise, value, Env, World,
}
use oracle_monorepo_near.Oracle.Active.{get_final_outcome}
use oracle_monorepo_near.Oracle.Finalized.{claim}
use oracle_monorepo_near.Oracle.Consistency.Steps.{
  Step, tokens_received, requested, staked, unstaked, claimed, timed_out, provided, arbitrated,
  configured, toggled, fee_updated, listed, dismissed, deposited, withdrawn, Reachable, created,
  called,
}

-- Stake tokens: taken in by stakes, paid out by unstakes and by claims. Payment tokens: taken in with
-- the request, paid out as fees by claims and as validity bond at the end.
pub record Account : Type 0 where
  pub staked : Balance
  pub unstaked : Balance
  pub claimed : Balance
  pub paid_in : Balance
  pub fees : Balance
  pub bonds : Balance

abbrev pub nothing : Account
nothing = record { staked = 0; unstaked = 0; claimed = 0; paid_in = 0; fees = 0; bonds = 0 }

abbrev pub plus : Account → Account → Account
plus a b = record {
  staked = a.staked + b.staked;
  unstaked = a.unstaked + b.unstaked;
  claimed = a.claimed + b.claimed;
  paid_in = a.paid_in + b.paid_in;
  fees = a.fees + b.fees;
  bonds = a.bonds + b.bonds;
}

-- What a call that answers `r` to the token contract keeps of the amount.
abbrev pub kept_of : Balance → PromiseOrValue Balance → Balance
kept_of x (value unspent) = x - unspent
kept_of x (promise p) = x

abbrev pub of_stake : ℕ → ℕ → Balance → PromiseOrValue Balance → Account
of_stake id j x r = if nat_eq j id then record nothing { staked = kept_of x r } else nothing

abbrev pub of_request : ℕ → World → Balance → Account
of_request id w x =
    if nat_eq (length w.contract.data_requests) id then record nothing { paid_in = x } else nothing

abbrev pub of_unstake : ℕ → ℕ → Balance → Account
of_unstake id j x = if nat_eq j id then record nothing { unstaked = x } else nothing

abbrev pub of_claim : ClaimRes → Account
of_claim r = record nothing { claimed = r.stake_token_payout; fees = r.payment_token_payout }

abbrev pub claim_of : Env → AccountId → World → DataRequest → Account
claim_of env a w (finalized dr) = elim (claim env dr a w.storage) [
  | ok r ↦ of_claim r.0
  | err e ↦ nothing
]
claim_of env a w (active dr) = nothing

-- The validity bond goes back with an answer and stays with the verdict `Invalid`.
abbrev pub bond_for : ActiveDataRequest → Outcome → Balance
bond_for dr (answer x) = dr.request_config.validity_bond
bond_for dr invalid = 0

abbrev pub bond_in_time : DataRequest → Account
bond_in_time (active dr) = elim (get_final_outcome dr) [
  | ok o ↦ record nothing { bonds = bond_for dr o }
  | err e ↦ nothing
]
bond_in_time (finalized dr) = nothing

abbrev pub bond_by_arbitrator : Outcome → DataRequest → Account
bond_by_arbitrator o (active dr) = record nothing { bonds = bond_for dr o }
bond_by_arbitrator o (finalized dr) = nothing

abbrev pub of_message : ℕ → World → Balance → PromiseOrValue Balance → Payload → Account
of_message id w x r (Payload.new_data_request p) = of_request id w x
of_message id w x r (Payload.stake_data_request p) = of_stake id p.id x r

-- What happens to request `j` in the world `w` counts for the account of `id` if these are the same.
abbrev pub for_request : ℕ → ℕ → World → (DataRequest → Account) → Account
for_request id j w f =
    if nat_eq j id
    then (elim (get_elem? w.contract.data_requests j) [ some d ↦ f d | none ↦ nothing ])
    else nothing

-- The tokens of one call for request `id`.
unfoldable pub flow : ℕ → {w w' : World} → Step w w' → Account
flow id {w} (tokens_received env a x msg r h) = elim (env.parse_payload msg) [
  | some p ↦ of_message id w x r p
  | none ↦ nothing
]
flow id {w} (requested env a x p r h) = of_request id w x
flow id {w} (staked env a x p r h) = of_stake id p.id x r
flow id {w} (unstaked env j n o x h) = of_unstake id j x
flow id {w} (claimed env a j h) = for_request id j w (claim_of env a w)
flow id {w} (timed_out env j h) = for_request id j w bond_in_time
flow id {w} (provided env j o h) = nothing
flow id {w} (arbitrated env j o r h) = for_request id j w (bond_by_arbitrator o)
flow id {w} (configured env c h) = nothing
flow id {w} (toggled env h) = nothing
flow id {w} (fee_updated env f h) = nothing
flow id {w} (listed env r h) = nothing
flow id {w} (dismissed env r h) = nothing
flow id {w} (deposited env to r h) = nothing
flow id {w} (withdrawn env x r h) = nothing

-- The account of request `id` after a history.
unfoldable pub account : ℕ → {w : World} → Reachable w → Account
account id (created env whitelist config e) = nothing
account id (called reached st) = plus (account id reached) (flow id st)
