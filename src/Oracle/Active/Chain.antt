-- ===== src/Oracle/Active/Chain.antt =====
-- The windows of an active request (oracle/src/data_request.rs): when they are in
-- order.
use oracle_monorepo_near.Base.{
  ℕ, zero, suc, ◌+◌, ◌*◌, ◌^◌, ◌≤◌, ◌<◌, ◌≡◌, refl, Bool, true, false, none, some, List, [], ◌∷◌,
  ◌++◌, arith, Pair_eq, String_eq, length, get_elem?, set, All,
}
use oracle_monorepo_near.Near.{u128_mod}
use oracle_monorepo_near.Oracle.Types.{
  Balance, Outcome, Outcome_eq, ResolutionWindow, WindowId_eq, UserMap_eq,
}
use native.Mathlib.Nat.{pow-suc}

abbrev pub IsBonded : ResolutionWindow → Type 0
IsBonded w = (o : Outcome) × (w.bonded_outcome ≡ some o)

-- The window of a request, of a round and with a bond.
abbrev pub IsRound : ℕ → ℕ → Balance → ResolutionWindow → Type 0
IsRound id n bond w = (w.dr_id ≡ id) × (w.round ≡ n) × (w.bond_size ≡ bond)

-- Bonded windows from round `n` on, the first with the bond `bond`.
abbrev pub AreBonded : ℕ → ℕ → Balance → List ResolutionWindow → Type 0
AreBonded id n bond [] = Unit
AreBonded id n bond (w ∷ ws) = IsRound id n bond w × IsBonded w × AreBonded id (suc n) (bond * 2) ws

-- The bond of the window after them.
abbrev pub bond_after : Balance → List ResolutionWindow → Balance
bond_after bond [] = bond
bond_after bond (w ∷ ws) = bond_after (bond * 2) ws

-- The windows of request `id` with first bond `bond`: none yet; bonded ones and an open last one; or,
-- once the final arbitrator is triggered, bonded ones only.
pub data HasWindows (id : ℕ) (bond : Balance) (triggered : Bool) (ws : List ResolutionWindow)
    : Type 0 where
  not_staked : ws ≡ [] → triggered ≡ false → HasWindows id bond triggered ws
  last_open :
      (before : List ResolutionWindow) (w : ResolutionWindow)
      → ws ≡ before ++ w ∷ []
      → triggered ≡ false
      → AreBonded id 0 bond before
      → IsRound id (length before) (bond_after bond before) w
      → w.bonded_outcome ≡ none
      → HasWindows id bond triggered ws
  arbitrated : triggered ≡ true → AreBonded id 0 bond ws → HasWindows id bond triggered ws

pub AreBonded-append :
    (id n : ℕ) (bond : Balance) (ws : List ResolutionWindow) (w : ResolutionWindow)
    → AreBonded id n bond ws
    → IsRound id (n + length ws) (bond_after bond ws) w
    → IsBonded w
    → AreBonded id n bond (ws ++ w ∷ [])
AreBonded-append id n bond [] w h r b = (ground arith, b, tt)
AreBonded-append id n bond (x ∷ ws) w h r b =
    (h.0, h.1, AreBonded-append id (suc n) (bond * 2) ws w h.2 (ground arith) b)

pub bond_after-append :
    (bond : Balance) (ws : List ResolutionWindow) (w : ResolutionWindow)
    → bond_after bond (ws ++ w ∷ []) ≡ bond_after bond ws * 2
bond_after-append bond [] w = refl
bond_after-append bond (x ∷ ws) w = bond_after-append (bond * 2) ws w

-- The last element of `ws ++ w ∷ []`, and the list with another last element.
pub get_last :
    (ws : List ResolutionWindow) (w : ResolutionWindow)
    → get_elem? (ws ++ w ∷ []) (length ws) ≡ some w
get_last [] w = refl
get_last (x ∷ ws) w = get_last ws w

pub set_last :
    (ws : List ResolutionWindow) (w v : ResolutionWindow)
    → set (ws ++ w ∷ []) (length ws) v ≡ ws ++ v ∷ []
set_last [] w v = refl
set_last (x ∷ ws) w v = rw (set_last ws w v)

-- At most as many windows as doublings of the first bond fit a balance.
pub length-AreBonded :
    (id n k : ℕ) (bond : Balance) (ws : List ResolutionWindow)
    → AreBonded id n bond ws
    → All (λ w. w.bond_size < u128_mod) ws
    → u128_mod ≤ bond * 2 ^ k
    → length ws ≤ k
length-AreBonded id n k bond [] h small big = omega arith
length-AreBonded id n zero bond (w ∷ ws) h small big = absurd (omega (arith, h.0, small.0))
length-AreBonded id n (suc k) bond (w ∷ ws) h small big = omega (
  arith,
  length-AreBonded id (suc n) k (bond * 2) ws h.2 small.1 (omega (arith, simp pow-suc at big)),
)
