-- ===== src/Oracle/Consistency/Updates.antt =====
-- Writes of one request in the vector of requests (oracle/src/data_request.rs), and what they leave of
-- the consistency of the contract.
use oracle_monorepo_near.Base.{
  ℕ, zero, suc, ◌≤◌, ◌<◌, ◌≡◌, ◌≢◌, sym, ◌⊎◌, inl, inr, some, List, [], ◌∷◌, ◌++◌, arith, Pair_eq,
  String_eq, length, get_elem?, nat-cases, set, get_elem?-set_self, get_elem?-set_ne, get_elem?-lt,
}
use oracle_monorepo_near.Oracle.Types.{
  Outcome, Outcome_eq, WindowId, WindowId_eq, UserMap_eq, DataRequest, World,
}
use oracle_monorepo_near.Oracle.Handlers.{windows_of}
use oracle_monorepo_near.Oracle.Consistency.{bond_at, bond_of, bonded_at, bonded_of, IsConsistent}

-- Nothing that the invariant reads has changed.
pub same-IsConsistent :
    (w w' : World)
    → w'.contract.data_requests ≡ w.contract.data_requests
    → w'.storage.stakes ≡ w.storage.stakes
    → length w.contract.configs ≤ length w'.contract.configs
    → IsConsistent w
    → IsConsistent w'
same-IsConsistent w w' r s c v = record {
  sound = rw s v.sound;
  requests = rw r v.requests;
  fits = rw (r, s) v.fits;
  full = rw (r, s) v.full;
  known = rw r (λ i d at. omega (arith, v.known i d at));
}

pub bond_of-set_self :
    (ds : List DataRequest) (i : ℕ) (d : DataRequest) (v : WindowId)
    → i < length ds
    → v.dr_id ≡ i
    → bond_of (set ds i d) v ≡ bond_at (some d) v.round
bond_of-set_self ds i d v lt e = rw (e, get_elem?-set_self ds i d lt)

pub bond_of-set_ne :
    (ds : List DataRequest) (i : ℕ) (d : DataRequest) (v : WindowId)
    → v.dr_id ≢ i
    → bond_of (set ds i d) v ≡ bond_of ds v
bond_of-set_ne ds i d v ne = rw (get_elem?-set_ne ds d (λ e. ne (sym e)))

-- A request with no smaller bonds takes the place of another.
pub bond_of-set :
    (ds : List DataRequest) (i : ℕ) (d d' : DataRequest) (v : WindowId)
    → get_elem? ds i ≡ some d
    → ((k : ℕ) → bond_at (some d) k ≤ bond_at (some d') k)
    → bond_of ds v ≤ bond_of (set ds i d') v
bond_of-set ds i d d' v at grows = elim (nat-cases v.dr_id i) [
  | inl e ↦ rw (bond_of-set_self ds i d' v (get_elem?-lt ds i at) e) (rw (e, at) (grows v.round))
  | inr ne ↦ rw (bond_of-set_ne ds i d' v ne) (omega arith)
]

-- What a write makes of the bonded windows.
pub bonded_of-set :
    (ds : List DataRequest) (i : ℕ) (d' : DataRequest) (v : WindowId) (o : Outcome)
    → i < length ds
    → (v.dr_id ≡ i) × (bonded_of (set ds i d') v o ≡ bonded_at o (some d') v.round)
      ⊎ (bonded_of (set ds i d') v o ≡ bonded_of ds v o)
bonded_of-set ds i d' v o lt = elim (nat-cases v.dr_id i) [
  | inl e ↦ inl (e, rw (e, get_elem?-set_self ds i d' lt))
  | inr ne ↦ inr (rw (get_elem?-set_ne ds d' (λ e. ne (sym e))))
]

-- A new request at the end.
pub bond_of-append :
    (ds : List DataRequest) (d : DataRequest) (v : WindowId)
    → bond_of ds v ≤ bond_of (ds ++ d ∷ []) v
bond_of-append ds d v = at_append ds d v.dr_id v.round
  where
    at_append :
        (ds : List DataRequest) (d : DataRequest) (i k : ℕ)
        → bond_at (get_elem? ds i) k ≤ bond_at (get_elem? (ds ++ d ∷ []) i) k
    at_append [] d i k = omega arith
    at_append (x ∷ ds) d zero k = omega arith
    at_append (x ∷ ds) d (suc i) k = at_append ds d i k

-- A new request that has no windows yet.
pub bonded_of-append :
    (ds : List DataRequest) (d : DataRequest) (v : WindowId) (o : Outcome)
    → windows_of d ≡ []
    → bonded_of (ds ++ d ∷ []) v o ≤ bonded_of ds v o
bonded_of-append ds d v o e = at_append ds v.dr_id v.round
  where
    at_append :
        (ds : List DataRequest) (i k : ℕ)
        → bonded_at o (get_elem? (ds ++ d ∷ []) i) k ≤ bonded_at o (get_elem? ds i) k
    at_append [] zero k = rw e (omega arith)
    at_append [] (suc i) k = omega arith
    at_append (x ∷ ds) zero k = omega arith
    at_append (x ∷ ds) (suc i) k = at_append ds i k
