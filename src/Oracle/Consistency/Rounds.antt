-- ===== src/Oracle/Consistency/Rounds.antt =====
-- The numbers of the windows of a request and their bonds by number (oracle/src/data_request.rs).
use oracle_monorepo_near.Base.{
  ℕ, zero, suc, ◌+◌, ◌*◌, ◌≤◌, ◌<◌, ◌≡◌, refl, true, false, List, [], ◌∷◌, ◌++◌, arith, ◌==◌,
  Pair_eq, String_eq, length, get_elem?, All,
}
use oracle_monorepo_near.Oracle.Types.{
  Balance, Outcome, ResolutionWindow, WindowId_eq, Outcome_eq, Stakes,
}
use oracle_monorepo_near.Oracle.Window.{window_id}
use oracle_monorepo_near.Oracle.Window.Writes.{outcome_total}
use oracle_monorepo_near.Oracle.Window.Claiming.{is_bonded_on}
use oracle_monorepo_near.Oracle.Active.Chain.{
  AreBonded, HasWindows, not_staked, last_open, arbitrated,
}
use oracle_monorepo_near.Oracle.Finalized.Totals.{IsDistinct}
use oracle_monorepo_near.Oracle.Consistency.{AreRounds, bond_or_zero}

AreRounds-ne :
    (id m n : ℕ) (ws : List ResolutionWindow) (w : ResolutionWindow)
    → w.round ≡ m
    → m < n
    → AreRounds id n ws
    → All (λ x. (window_id x == window_id w) ≡ false) ws
AreRounds-ne id m n [] w e lt r = tt
AreRounds-ne id m n (x ∷ ws) w e lt r =
    (ground (arith, r.1), AreRounds-ne id m (suc n) ws w e (omega arith) r.2)

pub AreRounds-IsDistinct :
    (id n : ℕ) (ws : List ResolutionWindow) → AreRounds id n ws → IsDistinct ws
AreRounds-IsDistinct id n [] r = tt
AreRounds-IsDistinct id n (w ∷ ws) r =
    (AreRounds-ne id n (suc n) ws w r.1 (omega arith) r.2, AreRounds-IsDistinct id (suc n) ws r.2)

pub AreRounds-append :
    (id n : ℕ) (ws vs : List ResolutionWindow)
    → AreRounds id n ws
    → AreRounds id (n + length ws) vs
    → AreRounds id n (ws ++ vs)
AreRounds-append id n [] vs r s = ground (arith, s)
AreRounds-append id n (w ∷ ws) vs r s =
    (r.0, r.1, AreRounds-append id (suc n) ws vs r.2 (ground (arith, s)))

AreBonded-AreRounds :
    (id n : ℕ) (bond : Balance) (ws : List ResolutionWindow)
    → AreBonded id n bond ws
    → AreRounds id n ws
AreBonded-AreRounds id n bond [] h = tt
AreBonded-AreRounds id n bond (w ∷ ws) h =
    (h.0.0, h.0.1, AreBonded-AreRounds id (suc n) (bond * 2) ws h.2)

pub HasWindows-AreRounds :
    (id : ℕ) (bond : Balance) {t : _} (ws : List ResolutionWindow)
    → HasWindows id bond t ws
    → AreRounds id 0 ws
HasWindows-AreRounds id bond ws (not_staked e _) = rw e tt
HasWindows-AreRounds id bond ws (last_open before w e _ closed round _) = rw e (
    AreRounds-append id 0 before (w ∷ []) (AreBonded-AreRounds id 0 bond before closed)
      (ground (arith, round)))
HasWindows-AreRounds id bond ws (arbitrated _ closed) = AreBonded-AreRounds id 0 bond ws closed

-- Another window with the same bond, and more windows after it, leave no bond smaller.
pub bond-grows :
    (before rest : List ResolutionWindow) (w w' : ResolutionWindow) (k : ℕ)
    → w'.bond_size ≡ w.bond_size
    → bond_or_zero (get_elem? (before ++ w ∷ []) k)
      ≤ bond_or_zero (get_elem? (before ++ w' ∷ rest) k)
bond-grows [] rest w w' zero e = omega (arith, e)
bond-grows [] rest w w' (suc k) e = omega arith
bond-grows (x ∷ before) rest w w' zero e = omega arith
bond-grows (x ∷ before) rest w w' (suc k) e = bond-grows before rest w w' k e

pub bond-there :
    (before rest : List ResolutionWindow) (w : ResolutionWindow)
    → bond_or_zero (get_elem? (before ++ w ∷ rest) (length before)) ≡ w.bond_size
bond-there [] rest w = refl
bond-there (x ∷ before) rest w = bond-there before rest w

-- What fits the bonds by number fits the bond of each window.
pub fits-All :
    (id n : ℕ) (f : Outcome) (ws : List ResolutionWindow) (t : Stakes)
    → AreRounds id n ws
    → ((k : ℕ)
        → outcome_total (record { dr_id = id; round = n + k }) f t ≤ bond_or_zero (get_elem? ws k))
    → All
        (λ w.
          is_bonded_on f w.bonded_outcome ≡ true → outcome_total (window_id w) f t ≤ w.bond_size)
        ws
fits-All id n f [] t r h = tt
fits-All id n f (w ∷ ws) t r h = (
  λ b. ground (arith, h 0, r.0, r.1),
  fits-All id (suc n) f ws t r.2 (λ k. ground (arith, h (suc k))),
)
