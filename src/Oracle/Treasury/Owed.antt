-- ===== src/Oracle/Treasury/Owed.antt =====
-- What the oracle (oracle/src) still owes for one request, against the account of its tokens.
use oracle_monorepo_near.Base.{
  ℕ, suc, ◌+◌, ◌*◌, ◌≤◌, ◌≡◌, refl, sym, subst, Option, none, some, List, [], ◌∷◌, arith, get_elem?,
  All, Pair_eq, String_eq,
}
use oracle_monorepo_near.Oracle.Types.{
  Balance, Outcome, Outcome_eq, outcome_eq_iff, ResolutionWindow, WindowId, WindowId_eq, UserMap_eq,
  FinalizedDataRequest, DataRequest, active, finalized, Stakes, World,
}
use oracle_monorepo_near.Oracle.Window.{window_id}
use oracle_monorepo_near.Oracle.Window.Writes.{users_total, outcome_total}
use oracle_monorepo_near.Oracle.Finalized.Totals.{correct_bonds, incorrect_bonds, users_correct}
use oracle_monorepo_near.Oracle.Finalized.Payouts.{cover}
use oracle_monorepo_near.Oracle.Consistency.{AreRounds, IsConsistent, bonded_or_zero}
use oracle_monorepo_near.Oracle.Consistency.Rounds.{AreRounds-IsDistinct}
use oracle_monorepo_near.Oracle.Treasury.{Account, plus}
use oracle_monorepo_near.Oracle.Treasury.Totals.{request_total, IsFull, full_bonds-le}

-- The users that have claimed on a finalized request had at most `u` of the correct stake, and were
-- paid at most their shares.
pub record IsShared (dr : FinalizedDataRequest) (t : Stakes) (acc : Account) (u : Balance)
    : Type 0 where
  pub left :
      users_correct dr.finalized_outcome dr.resolution_windows t + u
      ≤ correct_bonds dr.finalized_outcome dr.resolution_windows
  pub stake_share :
      acc.claimed * correct_bonds dr.finalized_outcome dr.resolution_windows
      ≤ u
        * (correct_bonds dr.finalized_outcome dr.resolution_windows
            + incorrect_bonds dr.finalized_outcome dr.resolution_windows)
  pub fee_share :
      acc.fees * correct_bonds dr.finalized_outcome dr.resolution_windows ≤ u * dr.paid_fee
  pub nothing_correct :
      correct_bonds dr.finalized_outcome dr.resolution_windows ≡ 0
      → (acc.claimed ≡ u) × (acc.fees ≡ 0)

-- Nothing was paid out yet.
abbrev pub IsUnpaid : Account → Type 0
IsUnpaid acc = (acc.claimed ≡ 0) × (acc.fees ≡ 0) × (acc.bonds ≡ 0)

-- Of the payment tokens, an active request has its validity bond and fee, a finalized one its fee.
abbrev pub IsOwed : Option DataRequest → Stakes → Account → Type 0
IsOwed none t acc = IsUnpaid acc
IsOwed (some (active dr)) t acc =
    IsUnpaid acc × (dr.request_config.validity_bond + dr.request_config.paid_fee ≤ acc.paid_in)
IsOwed (some (finalized dr)) t acc =
    ((u : Balance) × IsShared dr t acc u) × (acc.bonds + dr.paid_fee ≤ acc.paid_in)

-- The stake tokens that were taken in and not given back by unstakes are those staked on outcomes.
pub record IsSolvent (id : ℕ) (w : World) (acc : Account) : Type 0 where
  pub stakes : acc.staked ≡ acc.unstaked + request_total id w.storage.stakes
  pub payments : IsOwed (get_elem? w.contract.data_requests id) w.storage.stakes acc

pub users_correct-grows :
    (id n : ℕ) (f : Outcome) (ws : List ResolutionWindow) (t t' : Stakes)
    → AreRounds id n ws
    → ((v : WindowId) (p : Outcome) → v.dr_id ≡ id → users_total v p t' ≤ users_total v p t)
    → users_correct f ws t' ≤ users_correct f ws t
users_correct-grows id n f [] t t' r less = omega arith
users_correct-grows id n f (w ∷ ws) t t' r less =
    ground (arith, less (window_id w) f r.0, users_correct-grows id (suc n) f ws t t' r.2 less)

-- A call that pays nothing of it and adds to no user's stake in it leaves a request owed.
pub IsOwed-keeps :
    (id : ℕ) (d : Option DataRequest) (t t' : Stakes) (acc more : Account)
    → IsUnpaid more
    → ((v : WindowId) (p : Outcome) → v.dr_id ≡ id → users_total v p t' ≤ users_total v p t)
    → ((dr : FinalizedDataRequest) → d ≡ some (finalized dr) → AreRounds id 0 dr.resolution_windows)
    → IsOwed d t acc
    → IsOwed d t' (plus acc more)
IsOwed-keeps id none t t' acc more free less rounds h = omega arith
IsOwed-keeps id (some (active dr)) t t' acc more free less rounds h = omega arith
IsOwed-keeps id (some (finalized dr)) t t' acc more free less rounds ((u, h), paid) =
    let stake : acc.claimed + more.claimed ≡ acc.claimed = omega arith in
    let fee : acc.fees + more.fees ≡ acc.fees = omega arith in
    (
      (
        u,
        record {
          left = omega (
            arith,
            h.left,
            users_correct-grows id 0 dr.finalized_outcome dr.resolution_windows t t'
                (rounds dr refl) less,
          );
          stake_share = rw stake h.stake_share;
          fee_share = rw fee h.fee_share;
          nothing_correct = λ z. (
            omega (arith, stake, (h.nothing_correct z).0),
            omega (arith, fee, (h.nothing_correct z).1),
          );
        },
      ),
      omega arith,
    )

-- The bonds of a finalized request of a consistent contract are staked.
module _ (w : World) (v : IsConsistent w) (id : ℕ) (dr : FinalizedDataRequest)
    (at : get_elem? w.contract.data_requests id ≡ some (finalized dr)) where
  named : (n : ℕ) (ws : List ResolutionWindow) → AreRounds id n ws → All (λ x. x.dr_id ≡ id) ws
  named n [] r = tt
  named n (x ∷ ws) r = (r.0, named (suc n) ws r.2)

  IsFull-from :
      (n : ℕ) (ws : List ResolutionWindow)
      → AreRounds id n ws
      → ((k : ℕ) (p : Outcome)
          → bonded_or_zero p (get_elem? ws k)
            ≤ outcome_total (record { dr_id = id; round = n + k }) p w.storage.stakes)
      → All (IsFull w.storage.stakes.outcome_to_stake) ws
  IsFull-from n [] r h = tt
  IsFull-from n (x ∷ ws) r h = (
    λ o e. ground (arith, h 0 o, r.0, r.1, outcome_eq_iff o o),
    IsFull-from (suc n) ws r.2 (λ k p. ground (arith, h (suc k) p)),
  )

  pub finalized_bonds-le :
      correct_bonds dr.finalized_outcome dr.resolution_windows
        + incorrect_bonds dr.finalized_outcome dr.resolution_windows
      ≤ request_total id w.storage.stakes
  finalized_bonds-le =
      let rounds = v.requests id (finalized dr) at in
      full_bonds-le id dr.finalized_outcome dr.resolution_windows w.storage.stakes.outcome_to_stake
        (named 0 dr.resolution_windows rounds)
        (AreRounds-IsDistinct id 0 dr.resolution_windows rounds)
        (IsFull-from 0 dr.resolution_windows rounds
          (λ k p. ground (arith, v.full (record { dr_id = id; round = k }) p, at)))

-- A request that is owed has not paid out more than it took in.
IsOwed-covered :
    (id : ℕ) (w : World) (acc : Account) (d : Option DataRequest)
    → IsConsistent w
    → get_elem? w.contract.data_requests id ≡ d
    → IsOwed d w.storage.stakes acc
    → (acc.claimed ≤ request_total id w.storage.stakes) × (acc.fees + acc.bonds ≤ acc.paid_in)
IsOwed-covered id w acc none v at h = (omega arith, omega arith)
IsOwed-covered id w acc (some (active dr)) v at h = (omega arith, omega arith)
IsOwed-covered id w acc (some (finalized dr)) v at ((u, h), paid) =
    let c = correct_bonds dr.finalized_outcome dr.resolution_windows in
    let i = incorrect_bonds dr.finalized_outcome dr.resolution_windows in
    let (stake, fee) =
      cover acc.claimed acc.fees c i u dr.paid_fee (omega (arith, h.left)) h.stake_share h.fee_share
        h.nothing_correct in
    (omega (arith, stake, finalized_bonds-le w v id dr at), omega (arith, fee))

pub IsSolvent-covered :
    (id : ℕ) (w : World) (acc : Account)
    → IsConsistent w
    → IsSolvent id w acc
    → (acc.unstaked + acc.claimed ≤ acc.staked) × (acc.fees + acc.bonds ≤ acc.paid_in)
IsSolvent-covered id w acc v h =
    let (stake, fee) =
      IsOwed-covered id w acc (get_elem? w.contract.data_requests id) v refl h.payments in
    (omega (arith, h.stakes, stake), fee)

-- What a request is owed gives its solvency, and back.
pub IsOwed-IsSolvent :
    (id : ℕ) (w : World) (acc : Account) {d : Option DataRequest}
    → get_elem? w.contract.data_requests id ≡ d
    → acc.staked ≡ acc.unstaked + request_total id w.storage.stakes
    → IsOwed d w.storage.stakes acc
    → IsSolvent id w acc
IsOwed-IsSolvent id w acc at total owed = record {
  stakes = total;
  payments = subst (λ d. IsOwed d w.storage.stakes acc) (sym at) owed;
}

pub IsSolvent-IsOwed :
    (id : ℕ) (w : World) (acc : Account) {d : Option DataRequest}
    → get_elem? w.contract.data_requests id ≡ d
    → IsSolvent id w acc
    → IsOwed d w.storage.stakes acc
IsSolvent-IsOwed id w acc at h = subst (λ d. IsOwed d w.storage.stakes acc) at h.payments

-- A call that leaves a request as it is, pays nothing of it and adds to no user's stake in it.
pub others-IsSolvent :
    (id : ℕ) (w w' : World) (acc more : Account)
    → IsConsistent w
    → get_elem? w'.contract.data_requests id ≡ get_elem? w.contract.data_requests id
    → IsUnpaid more
    → ((v : WindowId) (p : Outcome)
        → v.dr_id ≡ id
        → users_total v p w'.storage.stakes ≤ users_total v p w.storage.stakes)
    → acc.staked + more.staked ≡ acc.unstaked + more.unstaked + request_total id w'.storage.stakes
    → IsSolvent id w acc
    → IsSolvent id w' (plus acc more)
others-IsSolvent id w w' acc more v at free less total h =
    IsOwed-IsSolvent id w' (plus acc more) at total (
      IsOwed-keeps id (get_elem? w.contract.data_requests id) w.storage.stakes w'.storage.stakes acc
        more free less (λ dr e. v.requests id (finalized dr) e) h.payments)
