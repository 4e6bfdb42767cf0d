-- ===== src/Oracle/Treasury/Requests.antt =====
-- New requests in the account of a request (`dr_new` of oracle/src/data_request.rs).
use oracle_monorepo_near.Base.{
  ℕ, zero, suc, ◌≡◌, refl, ap, ◌∙◌, inl, inr, Bool-cases, none, some, arith, nat_eq, if◌then◌else◌,
  get_elem?, length, Pair_eq, String_eq, List, [], ◌∷◌, ◌++◌,
}
use oracle_monorepo_near.Near.{ok}
use oracle_monorepo_near.Oracle.Types.{
  AccountId, Balance, Outcome_eq, WindowId_eq, UserMap_eq, DataRequest, active, NewDataRequestArgs,
  Env, World,
}
use oracle_monorepo_near.Oracle.Handlers.{dr_new}
use oracle_monorepo_near.Oracle.Consistency.{IsConsistent}
use oracle_monorepo_near.Oracle.Consistency.Lifecycle.{dr_new-eq-ok}
use oracle_monorepo_near.Oracle.Treasury.{Account, plus, of_request}
use oracle_monorepo_near.Oracle.Treasury.Owed.{
  IsSolvent, IsOwed-IsSolvent, IsSolvent-IsOwed, others-IsSolvent,
}

get_elem?-append_new :
    (ds : List DataRequest) (d : DataRequest) (i : ℕ)
    → get_elem? (ds ++ d ∷ []) i ≡ (if nat_eq (length ds) i then some d else get_elem? ds i)
get_elem?-append_new [] d zero = refl
get_elem?-append_new [] d (suc i) = ground arith
get_elem?-append_new (x ∷ ds) d zero = ground arith
get_elem?-append_new (x ∷ ds) d (suc i) = ground (arith, get_elem?-append_new ds d i)

get_elem?-length : (ds : List DataRequest) → get_elem? ds (length ds) ≡ none
get_elem?-length [] = refl
get_elem?-length (x ∷ ds) = get_elem?-length ds

-- A new request is paid for.
pub dr_new-IsSolvent :
    (id : ℕ) (env : Env) (a : AccountId) (x : Balance) (p : NewDataRequestArgs) (w : World)
    (acc : Account) {r : Balance} {w' : World}
    → IsConsistent w
    → dr_new env a x p w ≡ ok (r, w')
    → IsSolvent id w acc
    → IsSolvent id w' (plus acc (of_request id w x))
dr_new-IsSolvent id env a x p w acc {r} {w'} v h sol =
    let ds = w.contract.data_requests in
    let (dr, config, _, _, price, bond, _, _, _, contract, stakes, _, _, _, _, _, _, _) =
      dr_new-eq-ok env a x p w {r = r} {w' = w'} h in
    let at : get_elem? w'.contract.data_requests id
        ≡ (if nat_eq (length ds) id then some (active dr) else get_elem? ds id) =
      ap (λ c. get_elem? c.data_requests id) contract ∙ get_elem?-append_new ds (active dr) id in
    elim (Bool-cases (nat_eq (length ds) id)) [
      | inl e ↦
          (let none_yet : get_elem? ds id ≡ none = ground (arith, get_elem?-length ds) in
            let owed = IsSolvent-IsOwed id w acc none_yet sol in
            IsOwed-IsSolvent id w' (plus acc (of_request id w x))
              (at ∙ ap (λ b. if b then some (active dr) else get_elem? ds id) e)
              (ground (arith, sol.stakes, stakes)) (ground (arith, owed)))
      | inr e ↦
          others-IsSolvent id w w' acc (of_request id w x) v
            (at ∙ ap (λ b. if b then some (active dr) else get_elem? ds id) e) (ground arith)
            (λ u q here. rw stakes (omega arith)) (ground (arith, sol.stakes, stakes)) sol
    ]
