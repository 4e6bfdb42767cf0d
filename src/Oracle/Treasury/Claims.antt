-- ===== src/Oracle/Treasury/Claims.antt =====
-- Claims in the account of a request (`dr_claim` of oracle/src/data_request.rs).
use oracle_monorepo_near.Base.{
  ℕ, ◌+◌, ◌≡◌, refl, sym, ap, subst, ◌∙◌, inl, inr, true, Bool-cases, some, arith, nat_eq,
  get_elem?, Pair_eq, String_eq,
}
use oracle_monorepo_near.Near.{ok, sum_where}
use oracle_monorepo_near.Oracle.Types.{
  AccountId, Balance, Outcome_eq, WindowId_eq, UserMap_eq, FinalizedDataRequest, ClaimRes,
  DataRequest, finalized, Env, World, Storage,
}
use oracle_monorepo_near.Oracle.Handlers.{dr_claim}
use oracle_monorepo_near.Oracle.Finalized.{claim, no_totals}
use oracle_monorepo_near.Oracle.Finalized.Totals.{user_correct}
use oracle_monorepo_near.Oracle.Finalized.Claims.{claim_windows-Claimed}
use oracle_monorepo_near.Oracle.Finalized.Solvency.{Pays, claim-Pays, claim-eq-ok}
use oracle_monorepo_near.Oracle.Consistency.{IsConsistent}
use oracle_monorepo_near.Oracle.Consistency.Claims.{distinct, dr_claim-eq-ok}
use oracle_monorepo_near.Oracle.Treasury.{Account, nothing, plus, of_claim, claim_of, for_request}
use oracle_monorepo_near.Oracle.Treasury.Totals.{request_total, is_in_request}
use oracle_monorepo_near.Oracle.Treasury.Owed.{
  IsShared, IsSolvent, IsOwed-IsSolvent, IsSolvent-IsOwed, others-IsSolvent,
}

for_this :
    (id j : ℕ) (w : World) (f : DataRequest → Account) {d : DataRequest}
    → nat_eq j id ≡ true
    → get_elem? w.contract.data_requests j ≡ some d
    → for_request id j w f ≡ f d
for_this id j w f e at = rw (e, at) refl

pub claim_of-eq :
    (env : Env) (a : AccountId) (w : World) (dr : FinalizedDataRequest) (r : ClaimRes) (s : Storage)
    → claim env dr a w.storage ≡ ok (r, s)
    → claim_of env a w (finalized dr) ≡ of_claim r
claim_of-eq env a w dr r s h = rw (claim_of, h) refl

-- What a claim pays adds to what was paid.
paid-IsShared :
    (a : AccountId) (dr : FinalizedDataRequest) (s s' : Storage) (r : ClaimRes) (acc : Account)
    (u : Balance)
    → Pays a dr s.stakes r s'.stakes
    → IsShared dr s.stakes acc u
    → IsShared dr s'.stakes
        (plus acc (of_claim r))
        (u + user_correct a dr.finalized_outcome dr.resolution_windows s.stakes)
paid-IsShared a dr s s' r acc u one h = record {
  left = omega (arith, h.left, one.left);
  stake_share = omega (arith, h.stake_share, one.stake_share);
  fee_share = omega (arith, h.fee_share, one.fee_share);
  nothing_correct = λ z. (
    omega (arith, (h.nothing_correct z).0, (one.nothing_correct z).0),
    omega (arith, (h.nothing_correct z).1, (one.nothing_correct z).1),
  );
}

own_claim-IsSolvent :
    (id : ℕ) (env : Env) (a : AccountId) (dr : FinalizedDataRequest) (r : ClaimRes) (s : Storage)
    (w w' : World) (acc : Account)
    → IsConsistent w
    → get_elem? w.contract.data_requests id ≡ some (finalized dr)
    → claim env dr a w.storage ≡ ok (r, s)
    → w'.contract ≡ w.contract
    → w'.storage.stakes ≡ s.stakes
    → request_total id w'.storage.stakes ≡ request_total id w.storage.stakes
    → IsSolvent id w acc
    → IsSolvent id w' (plus acc (of_claim r))
own_claim-IsSolvent id env a dr r s w w' acc v at claimed contract stakes total sol =
    let ((u, shared), paid) = IsSolvent-IsOwed id w acc at sol in
    let pays =
      claim-Pays env dr a w.storage {r = r} {s' = s} (distinct w v id dr at) v.sound claimed in
    IsOwed-IsSolvent id w' (plus acc (of_claim r))
      (ap (λ k. get_elem? k.data_requests id) contract ∙ at) (omega (arith, sol.stakes, total))
      (rw stakes ((_, paid-IsShared a dr w.storage s r acc u pays shared), omega (arith, paid)))

-- A claim that returns pays a share.
pub dr_claim-IsSolvent :
    (id : ℕ) (env : Env) (a : AccountId) (j : ℕ) (w : World) (acc : Account) {w' : World}
    → IsConsistent w
    → dr_claim env a j w ≡ ok w'
    → IsSolvent id w acc
    → IsSolvent id w' (plus acc (for_request id j w (claim_of env a w)))
dr_claim-IsSolvent id env a j w acc {w'} v h sol =
    let (dr, r, s, at, claimed, contract, stakes) = dr_claim-eq-ok env a j w {w' = w'} h in
    let (n, _, loop, _, _, _) = claim-eq-ok env dr a w.storage {r = r} {s' = s} claimed in
    let c =
      claim_windows-Claimed a dr.finalized_outcome dr.resolution_windows no_totals w.storage.stakes
        {n' = n} {t' = s.stakes} (distinct w v j dr at) v.sound loop in
    let total : request_total id w'.storage.stakes ≡ request_total id w.storage.stakes =
      ap (request_total id) stakes ∙ ap (sum_where (is_in_request id)) c.totals in
    elim (Bool-cases (nat_eq j id)) [
      | inl e ↦
          (let own : j ≡ id = ground arith in
            let here = ap (get_elem? w.contract.data_requests) (sym own) ∙ at in
            let more : for_request id j w (claim_of env a w) ≡ of_claim r =
              for_this id j w (claim_of env a w) e at ∙ claim_of-eq env a w dr r s claimed in
            subst (λ q. IsSolvent id w' (plus acc q)) (sym more)
              (own_claim-IsSolvent id env a dr r s w w' acc v here claimed contract stakes total
                sol))
      | inr e ↦
          (let more : for_request id j w (claim_of env a w) ≡ nothing = rw e refl in
            subst (λ q. IsSolvent id w' (plus acc q)) (sym more)
              (others-IsSolvent id w w' acc nothing v
                (ap (λ k. get_elem? k.data_requests id) contract)
                (omega arith, omega arith, omega arith) (λ u p here. rw stakes (c.sums u p))
                (omega (arith, sol.stakes, total)) sol))
    ]
