-- ===== src/Oracle/Active/Finality.antt =====
-- The outcome of a disputed request and the outcome that may not be staked on again
-- (oracle/src/data_request.rs).
use oracle_monorepo_near.Base.{
  ℕ, zero, suc, ◌+◌, ◌-◌, ◌*◌, ◌<◌, ◌≡◌, refl, ap, Bool, some, List, [], ◌∷◌, ◌++◌, arith,
  if◌then◌else◌, ◌==◌, Pair_eq, String_eq, length, get_elem?, length-append,
}
use oracle_monorepo_near.Near.{ok, err}
use oracle_monorepo_near.Oracle.Types.{
  Balance, Outcome, Outcome_eq, ResolutionWindow, WindowId_eq, UserMap_eq,
}
use oracle_monorepo_near.Near.{outcome_incompatible_for_round}
use oracle_monorepo_near.Oracle.Types.{ActiveDataRequest}
use oracle_monorepo_near.Oracle.Active.{windows_len, get_final_outcome}
use oracle_monorepo_near.Oracle.Guards.{assert_can_stake_on_outcome}
use oracle_monorepo_near.Oracle.Active.Chain.{
  IsBonded, AreBonded, HasWindows, not_staked, last_open, arbitrated,
}

AreBonded-get :
    (id n i : ℕ) (bond : Balance) (ws : List ResolutionWindow)
    → AreBonded id n bond ws
    → i < length ws
    → (w : ResolutionWindow) × (get_elem? ws i ≡ some w) × IsBonded w
AreBonded-get id n i bond [] h lt = absurd (omega arith)
AreBonded-get id n zero bond (w ∷ ws) h lt = (w, refl, h.1)
AreBonded-get id n (suc i) bond (w ∷ ws) h lt =
    AreBonded-get id (suc n) i (bond * 2) ws h.2 (omega arith)

get_elem?-append :
    (ws vs : List ResolutionWindow) (i : ℕ) {w : ResolutionWindow}
    → get_elem? ws i ≡ some w
    → get_elem? (ws ++ vs) i ≡ some w
get_elem?-append [] vs i h = cc
get_elem?-append (x ∷ ws) vs zero h = h
get_elem?-append (x ∷ ws) vs (suc i) h = get_elem?-append ws vs i h

get_elem?-last_but_one :
    (ws before : List ResolutionWindow) (w v : ResolutionWindow)
    → ws ≡ before ++ w ∷ []
    → get_elem? before (length before - 1) ≡ some v
    → get_elem? ws (length ws - 2) ≡ some v
get_elem?-last_but_one ws before w v e found =
    let idx : length ws - 2 ≡ length before - 1 =
      omega (arith, length-append {0} before (w ∷ []), ap length e) in
    rw idx (rw e (get_elem?-append before (w ∷ []) (length before - 1) found))

-- The window before the last is bonded.
pub IsBonded-before_last :
    (id : ℕ) (bond : Balance) (triggered : Bool) (ws : List ResolutionWindow)
    → HasWindows id bond triggered ws
    → 1 < length ws
    → (w : ResolutionWindow) × (get_elem? ws (length ws - 2) ≡ some w) × IsBonded w
IsBonded-before_last id bond triggered ws (not_staked e _) lt = absurd (omega (arith, ap length e))
IsBonded-before_last id bond triggered ws (last_open before w e _ closed _ _) lt =
    let len : length ws ≡ length before + 1 =
      omega (arith, length-append {0} before (w ∷ []), ap length e) in
    let (v, found, bonded) =
      AreBonded-get id 0 (length before - 1) bond before closed (omega (arith, len)) in
    (v, get_elem?-last_but_one ws before w v e found, bonded)
IsBonded-before_last id bond triggered ws (arbitrated _ closed) lt =
    AreBonded-get id 0 (length ws - 2) bond ws closed (omega arith)

-- With its windows in order, a request of two or more windows has a final outcome, and this is the
-- one outcome that can not be staked on in the last window.
pub get_final_outcome-returns :
    (dr : ActiveDataRequest) (bond : Balance)
    → HasWindows dr.id bond dr.final_arbitrator_triggered dr.resolution_windows
    → 1 < windows_len dr
    → (o : Outcome) × (get_final_outcome dr ≡ ok o)
      × ((p : Outcome)
          → assert_can_stake_on_outcome dr p
            ≡ (if o == p then err outcome_incompatible_for_round else ok tt))
unfolding get_final_outcome assert_can_stake_on_outcome
get_final_outcome-returns dr bond windows lt =
    let (w, found, (o, bonded)) =
      IsBonded-before_last dr.id bond dr.final_arbitrator_triggered dr.resolution_windows windows
        lt in
    (o, ground (arith, found, bonded), λ p. ground (arith, found, bonded))
