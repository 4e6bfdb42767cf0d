-- ===== src/Oracle/Treasury/Unpaid.antt =====
-- What a call of the oracle (oracle/src) pays out of the accounts of requests, and where it pays
-- nothing.
use oracle_monorepo_near.Base.{
  ℕ, ◌+◌, ◌≤◌, ◌≡◌, ◌≢◌, refl, inl, inr, Bool-cases, nat_eq, arith, get_elem?-lt, get_elem?-none,
  length, String_eq, Pair_eq,
}
use oracle_monorepo_near.Oracle.Types.{
  Balance, DataRequest, Payload, PromiseOrValue, World, Outcome_eq, WindowId_eq, UserMap_eq,
}
use oracle_monorepo_near.Oracle.Consistency.Calls.{ft_on_transfer-eq-ok}
use oracle_monorepo_near.Oracle.Consistency.Unstaking.{dr_unstake-eq-ok}
use oracle_monorepo_near.Oracle.Consistency.Steps.{
  Step, tokens_received, requested, staked, unstaked, claimed, timed_out, provided, arbitrated,
  configured, toggled, fee_updated, listed, dismissed, deposited, withdrawn,
}
use oracle_monorepo_near.Oracle.Treasury.{
  Account, of_message, of_stake, of_request, for_request, claim_of, bond_in_time,
  bond_by_arbitrator, flow,
}

-- All that an account has paid, of either token.
abbrev pub paid_out : Account → Balance
paid_out acc = acc.unstaked + acc.claimed + acc.fees + acc.bonds

pub of_stake-unpaid :
    (id j : ℕ) (x : Balance) (r : PromiseOrValue Balance) → paid_out (of_stake id j x r) ≡ 0
of_stake-unpaid id j x r = elim (Bool-cases (nat_eq j id)) [
  | inl e ↦ rw e (omega arith)
  | inr e ↦ rw e (omega arith)
]

pub of_request-unpaid : (id : ℕ) (w : World) (x : Balance) → paid_out (of_request id w x) ≡ 0
of_request-unpaid id w x = ground arith

pub of_message-unpaid :
    (id : ℕ) (w : World) (x : Balance) (r : PromiseOrValue Balance) (p : Payload)
    → paid_out (of_message id w x r p) ≡ 0
of_message-unpaid id w x r (Payload.new_data_request p) = of_request-unpaid id w x
of_message-unpaid id w x r (Payload.stake_data_request p) = of_stake-unpaid id p.id x r

-- What happens to one request counts for no other.
pub other_request :
    (j : ℕ) (w : World) (f : DataRequest → Account) (i : ℕ)
    → i ≢ j
    → paid_out (for_request i j w f) ≡ 0
other_request j w f i apart = elim (Bool-cases (nat_eq j i)) [
  | inl e ↦ absurd (apart (ground arith))
  | inr e ↦ rw e (omega arith)
]

for_request-missing :
    (id j : ℕ) (w : World) (f : DataRequest → Account)
    → length w.contract.data_requests ≤ id
    → paid_out (for_request id j w f) ≡ 0
for_request-missing id j w f far = elim (Bool-cases (nat_eq j id)) [
  | inr e ↦ rw e (omega arith)
  | inl e ↦
      (let same : j ≡ id = ground arith in
        rw (e, same, get_elem?-none w.contract.data_requests id far) (omega arith))
]

-- A call pays nothing for a request that is not there yet.
pub missing-unpaid :
    {w w' : World} (st : Step w w') (id : ℕ)
    → length w.contract.data_requests ≤ id
    → paid_out (flow id st) ≡ 0
unfolding flow
missing-unpaid {w} {w'} (tokens_received env a x msg r h) id far =
    let (p, _, _, parsed, _, _, _) = ft_on_transfer-eq-ok env a x msg w {r = r} {w' = w'} h in
    rw (flow, parsed) (of_message-unpaid id w x r p)
missing-unpaid {w} (requested env a x p r h) id far = of_request-unpaid id w x
missing-unpaid (staked env a x p r h) id far = of_stake-unpaid id p.id x r
missing-unpaid {w} (unstaked env j n o x h) id far =
    let (_, _, _, _, at, _, _, _, _) = dr_unstake-eq-ok env j n o x w h in
    let below = get_elem?-lt w.contract.data_requests j at in ground (arith, below, far)
missing-unpaid {w} (claimed env a j h) id far = for_request-missing id j w (claim_of env a w) far
missing-unpaid {w} (timed_out env j h) id far = for_request-missing id j w bond_in_time far
missing-unpaid (provided env j o h) id far = refl
missing-unpaid {w} (arbitrated env j o r h) id far =
    for_request-missing id j w (bond_by_arbitrator o) far
missing-unpaid (configured env c h) id far = refl
missing-unpaid (toggled env h) id far = refl
missing-unpaid (fee_updated env f h) id far = refl
missing-unpaid (listed env r h) id far = refl
missing-unpaid (dismissed env r h) id far = refl
missing-unpaid (deposited env to r h) id far = refl
missing-unpaid (withdrawn env x r h) id far = refl
