-- ===== src/System/Funds.antt =====
-- The balance of the oracle in the token contract (token/src) against all that the oracle (oracle/src)
-- still has to pay.
use oracle_monorepo_near.Base.{
  ◌<◌, Each, ℕ, ◌+◌, ◌≤◌, ◌≡◌, refl, arith, List, length, sum_by, Option, none, some, get_elem?,
  get_elem?-lt, inl, inr,
}
use oracle_monorepo_near.Near.{u128_mod}
use oracle_monorepo_near.Token.Core.{ft_balance_of}
use oracle_monorepo_near.Token.Supply.{IsBacked}
use oracle_monorepo_near.Token.Bounds.{Fits, one_balance}
use oracle_monorepo_near.Oracle.Types.{
  ActiveDataRequest, AccountId, Balance, DataRequest, active, finalized, FinalizedDataRequest,
  Promise, Stakes, World,
}
use oracle_monorepo_near.Oracle.Consistency.{IsConsistent}
use oracle_monorepo_near.Oracle.Consistency.Updates.{same-IsConsistent}
use oracle_monorepo_near.Oracle.Consistency.Pricing.{IsFair, fair-IsPriced}
use oracle_monorepo_near.Oracle.Consistency.Steps.{Step, ArePriced}
use oracle_monorepo_near.Oracle.Consistency.History.{Step-IsConsistent}
use oracle_monorepo_near.Oracle.Consistency.Fairness.{IsFairStep, Step-IsFair}
use oracle_monorepo_near.Oracle.Treasury.{Account, plus, flow}
use oracle_monorepo_near.Oracle.Treasury.Owed.{IsOwed, IsSolvent, IsSolvent-covered}
use oracle_monorepo_near.Oracle.Treasury.Totals.{request_total}
use oracle_monorepo_near.Oracle.Treasury.History.{Step-IsSolvent}
use oracle_monorepo_near.Oracle.Treasury.Sent.{sent_all}
use oracle_monorepo_near.Oracle.Treasury.Unpaid.{paid_out}
use oracle_monorepo_near.System.{System, unused, with_promises}
use oracle_monorepo_near.Oracle.Treasury.Sums.{sum_to, sum_to-add, sum_to-le, sum_to-at}
use oracle_monorepo_near.System.Ends.{Step-Past}
use oracle_monorepo_near.System.Flows.{taken_in}
use oracle_monorepo_near.System.Growth.{UseToken}

-- What is on its way: moved to the oracle and not yet answered, to be given back, and promised.
abbrev pub pending : System → Balance
pending s =
    sum_by (λ t. t.amount) s.incoming + sum_by unused s.answers + sent_all s.oracle.storage.promises

-- The oracle alone: fair terms, consistent requests, and an account of each request that is solvent.
pub record IsSettled (w : World) (accounts : ℕ → Account) : Type 0 where
  pub fair : IsFair w.contract
  pub consistent : IsConsistent w
  pub solvent : (id : ℕ) → IsSolvent id w (accounts id)

pub IsSettled-ArePriced : (w : World) {accounts : ℕ → Account} → IsSettled w accounts → ArePriced w
IsSettled-ArePriced w v i dr at = fair-IsPriced dr (v.fair.requests i (active dr) at)

abbrev pub after : (ℕ → Account) → {w w' : World} → Step w w' → ℕ → Account
after accounts st id = plus (accounts id) (flow id st)

pub Step-IsSettled :
    {w w' : World} (accounts : ℕ → Account) (st : Step w w')
    → IsFairStep st
    → IsSettled w accounts
    → IsSettled w' (after accounts st)
Step-IsSettled {w} accounts st fair v =
    let priced = IsSettled-ArePriced w v in
    record {
      fair = Step-IsFair st fair v.fair;
      consistent = Step-IsConsistent priced st v.consistent;
      solvent = λ id. Step-IsSolvent id (accounts id) priced v.consistent (v.solvent id) st;
    }

pub with_promises-IsSettled :
    (w : World) (ps : List Promise) (accounts : ℕ → Account)
    → IsSettled w accounts
    → IsSettled (with_promises ps w) accounts
with_promises-IsSettled w ps accounts v = record {
  fair = v.fair;
  consistent = same-IsConsistent w (with_promises ps w) refl refl (omega arith) v.consistent;
  solvent = λ id. record { stakes = (v.solvent id).stakes; payments = (v.solvent id).payments };
}

-- What the requests took in is what they paid out, what is on its way, and no more than the balance.
abbrev pub AreFunded : AccountId → System → (ℕ → Account) → Type 0
AreFunded oracle_id s accounts =
    (n : ℕ)
    → length s.oracle.contract.data_requests ≤ n
    → sum_to n (λ i. taken_in (accounts i)) + pending s
      ≤ ft_balance_of oracle_id s.token + sum_to n (λ i. paid_out (accounts i))

-- The stakes on each finalized request, and its fee, are 128-bit numbers.
abbrev pub IsBounded : World → ℕ → DataRequest → Type 0
IsBounded w i d =
    (dr : FinalizedDataRequest)
    → d ≡ finalized dr
    → (request_total i w.storage.stakes < u128_mod) × (dr.paid_fee < u128_mod)

pub record IsFunded (token_id oracle_id : AccountId) (s : System) : Type 0 where
  pub accounts : ℕ → Account
  pub settled : IsSettled s.oracle accounts
  pub tokens : UseToken token_id oracle_id s.oracle
  pub backed : IsBacked s.token
  pub fits : Fits s.token
  pub funds : AreFunded oracle_id s accounts
  pub bounded : Each (IsBounded s.oracle) s.oracle.contract.data_requests

-- What an active request holds: the stakes on it, its validity bond and its fee.
abbrev pub held_by : Balance → Option DataRequest → Balance
held_by stakes (some (active dr)) =
    stakes + dr.request_config.validity_bond + dr.request_config.paid_fee
held_by stakes (some (finalized dr)) = 0
held_by stakes none = 0

abbrev pub held : World → ℕ → Balance
held w id = held_by (request_total id w.storage.stakes) (get_elem? w.contract.data_requests id)

IsOwed-held :
    (d : Option DataRequest) (t : Stakes) (acc : Account) (stakes : Balance)
    → acc.staked ≡ acc.unstaked + stakes
    → IsOwed d t acc
    → (acc.unstaked + acc.claimed ≤ acc.staked) × (acc.fees + acc.bonds ≤ acc.paid_in)
    → paid_out acc + held_by stakes d ≤ taken_in acc
IsOwed-held none t acc stakes total owed covered = omega arith
IsOwed-held (some (active dr)) t acc stakes total ((c, f, b), bond) covered = omega arith
IsOwed-held (some (finalized dr)) t acc stakes total owed covered = omega arith

-- The balance of the oracle covers all that is on its way, and what the active requests hold.
pub IsFunded-covered :
    (token_id oracle_id : AccountId) (s : System)
    → IsFunded token_id oracle_id s
    → pending s + sum_to (length s.oracle.contract.data_requests) (held s.oracle)
      ≤ ft_balance_of oracle_id s.token
IsFunded-covered token_id oracle_id s v =
    let n = length s.oracle.contract.data_requests in
    let solvent = λ (i : ℕ).
      IsOwed-held (get_elem? s.oracle.contract.data_requests i) s.oracle.storage.stakes
        (v.accounts i) (request_total i s.oracle.storage.stakes) (v.settled.solvent i).stakes
        (v.settled.solvent i).payments
        (IsSolvent-covered i s.oracle (v.accounts i) v.settled.consistent (v.settled.solvent i)) in
    let less =
      sum_to-le n (λ i. paid_out (v.accounts i) + held s.oracle i) (λ i. taken_in (v.accounts i))
        solvent in
    let split =
      sum_to-add n (λ i. paid_out (v.accounts i)) (held s.oracle)
        (λ i. paid_out (v.accounts i) + held s.oracle i) (λ i. refl) in
    omega (arith, v.funds n (omega arith), less, split)

-- The accounts after a call of the oracle.
pub after-taken :
    (n : ℕ) (accounts : ℕ → Account) {w w' : World} (st : Step w w')
    → sum_to n (λ i. taken_in (after accounts st i))
      ≡ sum_to n (λ i. taken_in (accounts i)) + sum_to n (λ i. taken_in (flow i st))
after-taken n accounts st =
    sum_to-add n (λ i. taken_in (accounts i)) (λ i. taken_in (flow i st)) _ (λ i. omega arith)

pub after-paid :
    (n : ℕ) (accounts : ℕ → Account) {w w' : World} (st : Step w w')
    → sum_to n (λ i. paid_out (after accounts st i))
      ≡ sum_to n (λ i. paid_out (accounts i)) + sum_to n (λ i. paid_out (flow i st))
after-paid n accounts st =
    sum_to-add n (λ i. paid_out (accounts i)) (λ i. paid_out (flow i st)) _ (λ i. omega arith)

-- The stakes on an active request, its bond and its fee together fit 128 bits.
IsFunded-active :
    (token_id oracle_id : AccountId) (s : System) (i : ℕ) {dr : ActiveDataRequest}
    → IsFunded token_id oracle_id s
    → get_elem? s.oracle.contract.data_requests i ≡ some (active dr)
    → request_total i s.oracle.storage.stakes + dr.request_config.paid_fee < u128_mod
IsFunded-active token_id oracle_id s i {dr} v at =
    let ds = s.oracle.contract.data_requests in
    let this : held s.oracle i
        ≡ request_total i s.oracle.storage.stakes
          + dr.request_config.validity_bond
          + dr.request_config.paid_fee =
      rw at refl in
    omega (
      arith,
      this,
      sum_to-at (length ds) (held s.oracle) i (get_elem?-lt ds i at),
      IsFunded-covered token_id oracle_id s v,
      one_balance oracle_id s.token v.backed,
      v.fits,
    )

-- A call leaves the stakes on finalized requests bounded.
pub Step-IsBounded :
    (token_id oracle_id : AccountId) (s : System) (v : IsFunded token_id oracle_id s) {w : World}
    (st : Step s.oracle w)
    → IsFairStep st
    → Each (IsBounded w) w.contract.data_requests
Step-IsBounded token_id oracle_id s v st fair i d at dr e =
    let (known, none_new) = Step-Past st i d at dr e in
    let now = ((Step-IsSettled v.accounts st fair v.settled).solvent i).stakes in
    let before = (v.settled.solvent i).stakes in
    elim known [
      | inl was ↦
          (let (stakes, fee) = v.bounded i (finalized dr) was dr refl in
            (omega (arith, now, before, none_new, stakes), fee))
      | inr (a, was, same) ↦
          (let small = IsFunded-active token_id oracle_id s i v was in
            (omega (arith, now, before, none_new, small), omega (arith, small, same)))
    ]
