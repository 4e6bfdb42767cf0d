-- ===== src/Oracle/Treasury/Finals.antt =====
-- Finalizations in the account of a request (the three finalizing handlers of
-- oracle/src/data_request.rs).
use oracle_monorepo_near.Base.{
  ℕ, ◌≤◌, ◌≡◌, ◌≢◌, sym, ap, subst, ◌∙◌, inl, inr, true, false, Bool-cases, arith, nat_eq,
  get_elem?, get_elem?-set_ne, Pair_eq, String_eq,
}
use oracle_monorepo_near.Oracle.Types.{
  Balance, Outcome, Outcome_eq, WindowId_eq, UserMap_eq, ActiveDataRequest, finalized, World,
}
use oracle_monorepo_near.Oracle.Handlers.Lifecycle.{Finalizes}
use oracle_monorepo_near.Oracle.Finalized.{trim_dr}
use oracle_monorepo_near.Oracle.Finalized.Payouts.{users_correct-le}
use oracle_monorepo_near.Oracle.Consistency.{IsConsistent}
use oracle_monorepo_near.Oracle.Consistency.Claims.{fits}
use oracle_monorepo_near.Oracle.Consistency.Lifecycle.{finalized-IsConsistent}
use oracle_monorepo_near.Oracle.Treasury.{Account, nothing, plus}
use oracle_monorepo_near.Oracle.Treasury.Owed.{
  IsSolvent, IsOwed-IsSolvent, IsSolvent-IsOwed, others-IsSolvent,
}

-- A request that ends owes its fee, and nothing is claimed yet.
ended-IsSolvent :
    (id : ℕ) (w w' : World) (dr : ActiveDataRequest) (o : Outcome) (acc : Account) (y : Balance)
    → IsConsistent w
    → Finalizes w id dr o w'
    → y ≤ dr.request_config.validity_bond
    → IsSolvent id w acc
    → IsSolvent id w' (plus acc (record nothing { bonds = y }))
unfolding trim_dr
ended-IsSolvent id w w' dr o acc y v f small sol =
    let v' = finalized-IsConsistent w w' id dr o f v in
    let (unpaid, paid) = IsSolvent-IsOwed id w acc f.was_active sol in
    let all =
      users_correct-le o dr.resolution_windows w'.storage.stakes v'.sound
        (fits w' v' id (trim_dr dr o) f.is_finalized) in
    IsOwed-IsSolvent id w' (plus acc (record nothing { bonds = y })) f.is_finalized
      (ground (arith, sol.stakes, f.stakes))
      (
        (
          0,
          record {
            left = omega (arith, all);
            stake_share = rw (unpaid.0) (omega arith);
            fee_share = rw (unpaid.1) (omega arith);
            nothing_correct = λ z. (omega arith, omega arith);
          },
        ),
        omega (arith, paid, small, unpaid.2),
      )

-- A finalization pays back the validity bond at most.
pub finalized-IsSolvent :
    (id j : ℕ) (w w' : World) (dr : ActiveDataRequest) (o : Outcome) (acc more : Account)
    → IsConsistent w
    → Finalizes w j dr o w'
    → (nat_eq j id ≡ false → more ≡ nothing)
    → (nat_eq j id ≡ true
        → (y : Balance) × (more ≡ record nothing { bonds = y })
          × (y ≤ dr.request_config.validity_bond))
    → IsSolvent id w acc
    → IsSolvent id w' (plus acc more)
finalized-IsSolvent id j w w' dr o acc more v f other own sol = elim (Bool-cases (nat_eq j id)) [
  | inl e ↦
      (let same : j ≡ id = ground arith in
        let (y, is, small) = own e in
        subst (λ q. IsSolvent id w' (plus acc q)) (sym is)
          (ended-IsSolvent id w w' dr o acc y v (subst (λ k. Finalizes w k dr o w') same f) small
            sol))
  | inr e ↦
      (let apart : j ≢ id = λ q. ground arith in
        subst (λ q. IsSolvent id w' (plus acc q)) (sym (other e))
          (others-IsSolvent id w w' acc nothing v
            (ap (λ k. get_elem? k.data_requests id) f.others
              ∙ get_elem?-set_ne w.contract.data_requests (finalized (trim_dr dr o)) apart)
            (omega arith, omega arith, omega arith) (λ u p here. rw f.stakes (omega arith))
            (ground (arith, sol.stakes, f.stakes)) sol))
]
