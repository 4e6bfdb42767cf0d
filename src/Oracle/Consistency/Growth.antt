-- ===== src/Oracle/Consistency/Growth.antt =====
-- The bonds of a request that a stake has changed (oracle/src/data_request.rs).
use oracle_monorepo_near.Base.{
  ℕ, zero, suc, ◌≤◌, ◌≡◌, refl, sym, ap, ◌∙◌, ◌⊎◌, inl, inr, none, some, List, [], ◌∷◌, ◌++◌, arith,
  Pair_eq, String_eq, length, get_elem?, All,
}
use oracle_monorepo_near.Oracle.Types.{
  Outcome, Outcome_eq, ResolutionWindow, WindowId_eq, UserMap_eq,
}
use oracle_monorepo_near.Oracle.Active.Growth.{Grows}
use oracle_monorepo_near.Oracle.Consistency.{bond_or_zero, bonded_or_zero}
use oracle_monorepo_near.Oracle.Consistency.Rounds.{bond-grows, bond-there}

pub Grows-le :
    (w : ResolutionWindow) (ws ws' : List ResolutionWindow) (k : ℕ)
    → Grows w ws ws'
    → bond_or_zero (get_elem? ws k) ≤ bond_or_zero (get_elem? ws' k)
Grows-le w ws ws' k g = elim g.from [
  | inl (e, _) ↦ rw e (omega arith)
  | inr e ↦ rw (e, g.to) (bond-grows g.before g.rest w g.written k g.same_bond)
]

pub Grows-there :
    (w : ResolutionWindow) (ws ws' : List ResolutionWindow)
    → Grows w ws ws'
    → w.bond_size ≡ bond_or_zero (get_elem? ws' w.round)
Grows-there w ws ws' g =
    rw (g.to, g.place) (sym (bond-there g.before g.rest g.written ∙ g.same_bond))

open-zero :
    (p : Outcome) (rest : List ResolutionWindow) (k : ℕ)
    → All (λ x. x.bonded_outcome ≡ none) rest
    → bonded_or_zero p (get_elem? rest k) ≡ 0
open-zero p [] k open_rest = refl
open-zero p (x ∷ rest) zero open_rest = rw open_rest.0
open-zero p (x ∷ rest) (suc k) open_rest = open-zero p rest k open_rest.1

written-bonded :
    (p : Outcome) (before rest : List ResolutionWindow) (w w' : ResolutionWindow) (k : ℕ)
    → All (λ x. x.bonded_outcome ≡ none) rest
    → (k ≡ length before)
        × (bonded_or_zero p (get_elem? (before ++ w' ∷ rest) k) ≡ bonded_or_zero p (some w'))
      ⊎ (bonded_or_zero p (get_elem? (before ++ w' ∷ rest) k)
          ≤ bonded_or_zero p (get_elem? (before ++ w ∷ []) k))
written-bonded p [] rest w w' zero o = inl (refl, refl)
written-bonded p [] rest w w' (suc k) o = inr (omega (arith, open-zero p rest k o))
written-bonded p (x ∷ before) rest w w' zero o = inr (omega arith)
written-bonded p (x ∷ before) rest w w' (suc k) o = elim (written-bonded p before rest w w' k o) [
  | inl (e, q) ↦ inl (omega arith, q)
  | inr le ↦ inr le
]

first-bonded :
    (p : Outcome) (rest : List ResolutionWindow) (w : ResolutionWindow) (k : ℕ)
    → All (λ x. x.bonded_outcome ≡ none) rest
    → (k ≡ 0) × (bonded_or_zero p (get_elem? (w ∷ rest) k) ≡ bonded_or_zero p (some w))
      ⊎ (bonded_or_zero p (get_elem? (w ∷ rest) k) ≡ 0)
first-bonded p rest w zero o = inl (refl, refl)
first-bonded p rest w (suc k) o = inr (open-zero p rest k o)

-- Only the window of the stake can be bonded by it.
pub Grows-bonded :
    (w : ResolutionWindow) (ws ws' : List ResolutionWindow) (p : Outcome) (k : ℕ)
    (g : Grows w ws ws')
    → (k ≡ w.round) × (bonded_or_zero p (get_elem? ws' k) ≡ bonded_or_zero p (some g.written))
      ⊎ (bonded_or_zero p (get_elem? ws' k) ≤ bonded_or_zero p (get_elem? ws k))
Grows-bonded w ws ws' p k g = elim (written-bonded p g.before g.rest w g.written k g.open_rest) [
  | inl (there, e) ↦
      inl (omega (arith, there, g.place), ap (λ vs. bonded_or_zero p (get_elem? vs k)) g.to ∙ e)
  | inr le ↦ elim g.from [
    | inl (e, nothing) ↦ elim (first-bonded p g.rest g.written k g.open_rest) [
      | inl (z, q) ↦ inl (
        omega (arith, z, g.place, ap length nothing),
        ap (λ vs. bonded_or_zero p (get_elem? vs k))
              (g.to ∙ ap (λ vs. vs ++ g.written ∷ g.rest) nothing)
            ∙ q,
      )
      | inr z ↦ inr (
          omega (
            arith,
            z,
            ap (λ vs. bonded_or_zero p (get_elem? vs k))
                (g.to ∙ ap (λ vs. vs ++ g.written ∷ g.rest) nothing),
          ))
    ]
    | inr e ↦ inr (rw (e, g.to) le)
  ]
]
