-- ===== src/Oracle/Consistency/Bonds.antt =====
-- What is staked against the bonds, after a stake (`dr_stake` of oracle/src/data_request.rs).
use oracle_monorepo_near.Base.{
  ℕ, ◌≤◌, ◌≡◌, ap, ◌∙◌, inl, inr, some, List, arith, Pair_eq, String_eq, get_elem?, set,
  get_elem?-lt,
}
use oracle_monorepo_near.Oracle.Types.{
  AccountId, Balance, Outcome, Outcome_eq, outcome_eq_iff, WindowId, WindowId_eq, UserMap_eq,
  ActiveDataRequest, DataRequest, active, Storage, Env,
}
use oracle_monorepo_near.Oracle.Window.{window_id}
use oracle_monorepo_near.Oracle.Window.Writes.{outcome_total}
use oracle_monorepo_near.Oracle.Window.Staking.{IsSound}
use oracle_monorepo_near.Oracle.Window.Accounts.{stake-accounts, stake-others, stake-grows}
use oracle_monorepo_near.Oracle.Active.Growth.{Staked}
use oracle_monorepo_near.Oracle.Consistency.{bond_of, bonded_or_zero, bonded_of}
use oracle_monorepo_near.Oracle.Consistency.Updates.{bond_of-set, bond_of-set_self, bonded_of-set}
use oracle_monorepo_near.Oracle.Consistency.Growth.{Grows-le, Grows-there, Grows-bonded}

-- What is staked fits the bonds after a stake.
pub Staked-fits :
    (env : Env) (dr dr' : ActiveDataRequest) (id : ℕ) (a : AccountId) (o : Outcome)
    (x unspent : Balance) (s s' : Storage) (ds : List DataRequest)
    → Staked env dr a o x s unspent dr' s'
    → IsSound s.stakes
    → get_elem? ds id ≡ some (active dr)
    → dr.id ≡ id
    → ((v : WindowId) (p : Outcome) → outcome_total v p s.stakes ≤ bond_of ds v)
    → (v : WindowId) (p : Outcome)
    → outcome_total v p s'.stakes ≤ bond_of (set ds id (active dr')) v
Staked-fits env dr dr' id a o x unspent s s' ds g sound at named fits v p =
    let chosen_sound : IsSound g.chosen.stakes = rw g.same sound in
    let accounts = stake-accounts env g.window a o x g.chosen chosen_sound g.done in
    let others = stake-others env g.window a o x g.chosen chosen_sound g.done in
    elim (others.0 v p) [
      | inl (here, same) ↦
          (let place : v.dr_id ≡ id = rw here (g.of_request ∙ named) in
            rw (bond_of-set_self ds id (active dr') v (get_elem?-lt ds id at) place) (
              ground (
                arith,
                accounts,
                here,
                same,
                g.kept,
                Grows-there g.window dr.resolution_windows dr'.resolution_windows g.grows,
              )))
      | inr kept ↦ omega (
        arith,
        kept,
        ap (outcome_total v p) g.same,
        ap (outcome_total v p) g.kept,
        fits v p,
        bond_of-set ds id (active dr) (active dr') v at
            (λ k. Grows-le g.window dr.resolution_windows dr'.resolution_windows k g.grows),
      )
    ]

-- A bonded window is full after a stake.
pub Staked-full :
    (env : Env) (dr dr' : ActiveDataRequest) (id : ℕ) (a : AccountId) (o : Outcome)
    (x unspent : Balance) (s s' : Storage) (ds : List DataRequest)
    → Staked env dr a o x s unspent dr' s'
    → IsSound s.stakes
    → get_elem? ds id ≡ some (active dr)
    → dr.id ≡ id
    → ((v : WindowId) (p : Outcome) → bonded_of ds v p ≤ outcome_total v p s.stakes)
    → (v : WindowId) (p : Outcome)
    → bonded_of (set ds id (active dr')) v p ≤ outcome_total v p s'.stakes
Staked-full env dr dr' id a o x unspent s s' ds g sound at named full v p =
    let chosen_sound : IsSound g.chosen.stakes = rw g.same sound in
    let accounts = stake-accounts env g.window a o x g.chosen chosen_sound g.done in
    let before_le : outcome_total v p s.stakes ≤ outcome_total v p s'.stakes = omega (
      arith,
      stake-grows env g.window a o x g.chosen chosen_sound g.done v p,
      ap (outcome_total v p) g.same,
      ap (outcome_total v p) g.kept,
    ) in
    elim (bonded_of-set ds id (active dr') v p (get_elem?-lt ds id at)) [
      | inr kept ↦ omega (arith, kept, before_le, full v p)
      | inl (place, e) ↦
          elim (Grows-bonded g.window dr.resolution_windows dr'.resolution_windows p v.round
            g.grows) [
              | inl (here, q) ↦
                  (let is_window : window_id g.window ≡ v =
                      ground (arith, here, g.of_request, place, named) in
                    ground (
                      arith,
                      e,
                      q,
                      accounts,
                      g.is_written,
                      g.unbonded,
                      is_window,
                      g.kept,
                      outcome_eq_iff o p,
                    ))
              | inr le ↦
                  (let was : bonded_of ds v p
                        ≡ bonded_or_zero p (get_elem? dr.resolution_windows v.round) =
                      rw (place, at) in
                    omega (arith, e, le, was, before_le, full v p))
            ]
    ]
