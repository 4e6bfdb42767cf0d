-- ===== src/Oracle/Treasury/Stakes.antt =====
-- Stakes and unstakes in the account of a request (`dr_stake` and `dr_unstake` of
-- oracle/src/data_request.rs).
use oracle_monorepo_near.Base.{
  ℕ, ◌+◌, ◌-◌, ◌≡◌, ◌≢◌, refl, sym, ap, subst, ◌∙◌, inl, inr, Bool-cases, some, arith, nat_eq,
  if◌then◌else◌, get_elem?, get_elem?-set_self, get_elem?-set_ne, get_elem?-lt, set, Pair_eq,
  String_eq,
}
use oracle_monorepo_near.Near.{ok}
use oracle_monorepo_near.Oracle.Types.{
  AccountId, Balance, Outcome, Outcome_eq, WindowId_eq, UserMap_eq, ActiveDataRequest, active,
  StakeDataRequestArgs, Env, World, Storage, PromiseOrValue, value,
}
use oracle_monorepo_near.Oracle.Handlers.{dr_stake, dr_unstake}
use oracle_monorepo_near.Oracle.Window.Writes.{users_total}
use oracle_monorepo_near.Oracle.Window.Staking.{IsSound}
use oracle_monorepo_near.Oracle.Active.Growth.{Staked, stake-Staked}
use oracle_monorepo_near.Oracle.Consistency.{IsPriced, IsActive, IsConsistent}
use oracle_monorepo_near.Oracle.Consistency.Staking.{dr_stake-eq-ok, stake-bond}
use oracle_monorepo_near.Oracle.Consistency.Unstaking.{dr_unstake-eq-ok, request_window}
use oracle_monorepo_near.Oracle.Treasury.{Account, plus, of_stake, of_unstake}
use oracle_monorepo_near.Oracle.Treasury.Totals.{
  request_total, stake-request_total, unstake-request_total, stake-users_total, unstake-users_total,
}
use oracle_monorepo_near.Oracle.Treasury.Owed.{
  IsSolvent, IsOwed-IsSolvent, IsSolvent-IsOwed, others-IsSolvent,
}

Staked-IsSolvent :
    (id j : ℕ) (env : Env) (dr dr' : ActiveDataRequest) (a : AccountId) (o : Outcome)
    (x unspent : Balance) (w w' : World) (s : Storage) (acc : Account)
    → IsConsistent w
    → get_elem? w.contract.data_requests j ≡ some (active dr)
    → Staked env dr a o x w.storage unspent dr' s
    → w'.contract.data_requests ≡ set w.contract.data_requests j (active dr')
    → w'.storage.stakes ≡ s.stakes
    → IsSolvent id w acc
    → IsSolvent id w' (plus acc (of_stake id j x (value unspent)))
Staked-IsSolvent id j env dr dr' a o x unspent w w' s acc v at g replaced stakes sol =
    let ds = w.contract.data_requests in
    let was : IsActive j dr = v.requests j (active dr) at in
    let place : g.window.dr_id ≡ j = g.of_request ∙ was.named in
    let sound : IsSound g.chosen.stakes = rw g.same v.sound in
    let moved = stake-request_total env g.window a o x g.chosen id g.done in
    let kept_total : request_total id w'.storage.stakes ≡ request_total id g.staked.stakes =
      rw (stakes, g.kept) refl in
    let chosen_total : request_total id g.chosen.stakes ≡ request_total id w.storage.stakes =
      ap (request_total id) g.same in
    let total : request_total id w'.storage.stakes
        ≡ request_total id w.storage.stakes + (if nat_eq j id then x - unspent else 0) =
      ground (arith, kept_total, chosen_total, moved, place) in
    let more = of_stake id j x (value unspent) in
    elim (Bool-cases (nat_eq j id)) [
      | inl e ↦
          (let own : j ≡ id = ground arith in
            let owed = IsSolvent-IsOwed id w acc (ap (get_elem? ds) (sym own) ∙ at) sol in
            IsOwed-IsSolvent id w' (plus acc more)
              (ap (λ rs. get_elem? rs id) replaced
                ∙ ap (get_elem? (set ds j (active dr'))) (sym own)
                ∙ get_elem?-set_self ds j (active dr') (get_elem?-lt ds j at))
              (ground (arith, sol.stakes, total)) (rw g.config (ground (arith, owed))))
      | inr e ↦
          (let apart : j ≢ id = λ q. ground arith in
            others-IsSolvent id w w' acc more v
              (ap (λ rs. get_elem? rs id) replaced ∙ get_elem?-set_ne ds (active dr') apart)
              (ground arith)
              (λ u p here. omega (
                arith,
                stake-users_total env g.window a o x g.chosen id sound g.done
                    (λ q. apart (sym place ∙ q)) u p here,
                ap (users_total u p) stakes,
                ap (users_total u p) g.kept,
                ap (users_total u p) g.same,
              ))
              (ground (arith, sol.stakes, total)) sol)
    ]

-- A stake in a request that is priced keeps every request solvent.
pub dr_stake-IsSolvent :
    (id : ℕ) (env : Env) (a : AccountId) (x : Balance) (p : StakeDataRequestArgs) (w : World)
    (acc : Account) {r : PromiseOrValue Balance} {w' : World}
    → ((i : ℕ) (dr : ActiveDataRequest)
        → get_elem? w.contract.data_requests i ≡ some (active dr)
        → IsPriced dr)
    → IsConsistent w
    → dr_stake env a x p w ≡ ok (r, w')
    → IsSolvent id w acc
    → IsSolvent id w' (plus acc (of_stake id p.id x r))
dr_stake-IsSolvent id env a x p w acc {r} {w'} priced v h sol =
    let (dr, unspent, dr', s, at, waiting, staked, replaced, stakes, answered, _, _, _) =
      dr_stake-eq-ok env a x p w {r = r} {w' = w'} h in
    let was : IsActive p.id dr = v.requests p.id (active dr) at in
    let (bond, b, positive) =
      stake-bond env dr a p.outcome x w.storage (priced p.id dr at) was staked in
    let g =
      stake-Staked env dr a p.outcome x bond w.storage {unspent = unspent} {dr' = dr'} {s' = s} b
        positive waiting was.few (rw was.named (was.windows bond b)) staked in
    subst (λ q. IsSolvent id w' (plus acc (of_stake id p.id x q))) (sym answered)
      (Staked-IsSolvent id p.id env dr dr' a p.outcome x unspent w w' s acc v at g replaced stakes
        sol)

-- An unstake keeps every request solvent.
pub dr_unstake-IsSolvent :
    (id : ℕ) (env : Env) (j round : ℕ) (o : Outcome) (x : Balance) (w : World) (acc : Account)
    {w' : World}
    → IsConsistent w
    → dr_unstake env j round o x w ≡ ok w'
    → IsSolvent id w acc
    → IsSolvent id w' (plus acc (of_unstake id j x))
dr_unstake-IsSolvent id env j round o x w acc {w'} v h sol =
    let a = env.predecessor_account_id in
    let (d, window, taken, s, at, found, done, contract, stakes) =
      dr_unstake-eq-ok env j round o x w h in
    let (place, _) = request_window v j round d window at found in
    let moved = unstake-request_total env window a o x w.storage id {taken = taken} {s' = s} done in
    let total : request_total id w'.storage.stakes + (if nat_eq j id then x else 0)
        ≡ request_total id w.storage.stakes =
      rw (stakes, ← place) moved in
    others-IsSolvent id w w' acc (of_unstake id j x) v
      (ap (λ c. get_elem? c.data_requests id) contract) (ground arith)
      (λ u p here. rw stakes (
        unstake-users_total env window a o x w.storage id v.sound {taken = taken} {s' = s} done u
          p))
      (ground (arith, sol.stakes, total)) sol
