-- ===== src/Oracle/Consistency/Staking.antt =====
-- Stakes of a consistent contract (`dr_stake` of oracle/src/data_request.rs).
use oracle_monorepo_near.Base.{
  ℕ, zero, suc, ◌*◌, ◌<◌, ◌≡◌, refl, sym, ap, ◌∙◌, inl, inr, false, some, arith, Pair_eq, String_eq,
  get_elem?, set, get_elem?-lt, length, set-Each,
}
use oracle_monorepo_near.Near.{ok, >>=-eq-ok}
use oracle_monorepo_near.Oracle.Types.{
  AccountId, Balance, Outcome, Outcome_eq, WindowId_eq, UserMap_eq, ActiveDataRequest, active,
  StakeDataRequestArgs, Storage, Env, World, PromiseOrValue, value,
}
use oracle_monorepo_near.Oracle.Logger.{log_update_active_data_request}
use oracle_monorepo_near.Oracle.Access.{assert_unpaused, assert_sender}
use oracle_monorepo_near.Oracle.Guards.{
  assert_valid_outcome, assert_valid_outcome_type, assert_can_stake_on_outcome,
  assert_final_arbitrator_not_invoked,
}
use oracle_monorepo_near.Oracle.Handlers.{config_at, get_config_id, dr_get_expect_active, dr_stake}
use oracle_monorepo_near.Oracle.Handlers.Lifecycle.{dr_get_expect_active-eq-ok}
use oracle_monorepo_near.Oracle.Window
use oracle_monorepo_near.Oracle.Window.{window_id}
use oracle_monorepo_near.Oracle.Window.Accounts.{stake-IsSound}
use oracle_monorepo_near.Oracle.Active.{calc_resolution_bond, window_to_stake}
use oracle_monorepo_near.Oracle.Active
use oracle_monorepo_near.Oracle.Active.Staking.{stake-HasWindows, active_stake-eq-ok}
use oracle_monorepo_near.Oracle.Active.Growth.{Staked, stake-Staked}
use oracle_monorepo_near.Oracle.Consistency.{IsPriced, IsActive, IsRequest, IsConsistent}
use oracle_monorepo_near.Oracle.Consistency.Rounds.{HasWindows-AreRounds}
use oracle_monorepo_near.Oracle.Consistency.Bonds.{Staked-fits, Staked-full}

-- The parts of a `dr_stake` that returns.
pub dr_stake-eq-ok :
    (env : Env) (a : AccountId) (x : Balance) (p : StakeDataRequestArgs) (w : World)
    {r : PromiseOrValue Balance} {w' : World}
    → dr_stake env a x p w ≡ ok (r, w')
    → (dr : ActiveDataRequest) × (unspent : Balance) × (dr' : ActiveDataRequest) × (s : Storage)
      × (get_elem? w.contract.data_requests p.id ≡ some (active dr))
      × (dr.final_arbitrator_triggered ≡ false)
      × (Active.stake env dr a p.outcome x w.storage ≡ ok (unspent, dr', s))
      × (w'.contract.data_requests ≡ set w.contract.data_requests p.id (active dr'))
      × (w'.storage.stakes ≡ s.stakes)
      × (r ≡ value unspent)
      × (w'.storage.promises ≡ s.promises)
      × (w'.contract.configs ≡ w.contract.configs)
      × (w'.contract.whitelist ≡ w.contract.whitelist)
unfolding dr_stake assert_final_arbitrator_not_invoked log_update_active_data_request
dr_stake-eq-ok env a x p w {r} {w'} h =
    let (_, unpaused, h1) = >>=-eq-ok (assert_unpaused w.contract) _ h in
    let (dr, got, h2) = >>=-eq-ok (dr_get_expect_active p.id w.contract) _ h1 in
    let (config, at, h3) = >>=-eq-ok (config_at dr.global_config_id w.contract) _ h2 in
    let (_, sent, h4) = >>=-eq-ok (assert_sender env config.stake_token) _ h3 in
    let (_, waiting, h5) = >>=-eq-ok (assert_final_arbitrator_not_invoked dr) _ h4 in
    let (_, other, h6) = >>=-eq-ok (assert_can_stake_on_outcome dr p.outcome) _ h5 in
    let (_, valid, h7) = >>=-eq-ok (assert_valid_outcome dr p.outcome) _ h6 in
    let (_, typed, h8) = >>=-eq-ok (assert_valid_outcome_type dr p.outcome) _ h7 in
    let ((unspent, dr', s), staked, h9) =
      >>=-eq-ok (Active.stake env dr a p.outcome x w.storage) _ h8 in
    (
      dr,
      unspent,
      dr',
      s,
      dr_get_expect_active-eq-ok p.id w.contract got,
      ground (arith, waiting),
      staked,
      ground arith,
      ground arith,
      ground arith,
      ground arith,
      ground arith,
      ground arith,
    )

positive_unless : (n : ℕ) → ¬ (n ≡ 0) → 0 < n
positive_unless zero h = absurd (h refl)
positive_unless (suc n) h = omega arith

calc_resolution_bond-config :
    (dr dr' : ActiveDataRequest)
    → dr'.request_config ≡ dr.request_config
    → calc_resolution_bond dr' ≡ calc_resolution_bond dr
unfolding calc_resolution_bond
calc_resolution_bond-config dr dr' e = rw e

-- A request that took a stake has a resolution bond, which is not zero where the request is priced.
pub stake-bond :
    (env : Env) (dr : ActiveDataRequest) (a : AccountId) (o : Outcome) (x : Balance) (s : Storage)
    {id : ℕ} {unspent : Balance} {dr' : ActiveDataRequest} {s' : Storage}
    → IsPriced dr
    → IsActive id dr
    → Active.stake env dr a o x s ≡ ok (unspent, dr', s')
    → (bond : Balance) × (calc_resolution_bond dr ≡ ok bond) × (0 < bond)
unfolding window_to_stake
stake-bond env dr a o x s priced was h =
    let positive = λ (b : Balance) (e : calc_resolution_bond dr ≡ ok b).
      positive_unless b (λ z. priced (e ∙ ap ok z)) in
    elim was.bond [
      | inl (b, e) ↦ (b, e, positive b e)
      | inr empty ↦
          (let (w, _, s1, _, chosen, _, _) = active_stake-eq-ok env dr a o x s h in
            let (b, e, _) =
              >>=-eq-ok (calc_resolution_bond dr)
                (λ b. Window.new env dr.id 0 b dr.initial_challenge_period env.block_timestamp s)
                {last = (w, s1)} (ground (arith, chosen, empty)) in
            (b, e, positive b e))
    ]

Staked-IsActive :
    (env : Env) (dr dr' : ActiveDataRequest) (id : ℕ) (a : AccountId) (o : Outcome)
    (x unspent bond : Balance) (s s' : Storage)
    → calc_resolution_bond dr ≡ ok bond
    → dr.final_arbitrator_triggered ≡ false
    → Staked env dr a o x s unspent dr' s'
    → IsActive id dr
    → Active.stake env dr a o x s ≡ ok (unspent, dr', s')
    → IsActive id dr'
Staked-IsActive env dr dr' id a o x unspent bond s s' b waiting g v h =
    let keeps = λ (c : Balance) (q : calc_resolution_bond dr ≡ ok c).
      stake-HasWindows env dr a o x c s {unspent = unspent} {dr' = dr'} {s' = s'} q waiting
        (omega (arith, v.few)) (rw v.named (v.windows c q)) h in
    record {
      named = (keeps bond b).1 ∙ v.named;
      windows = λ c q.
          rw (← v.named) ((keeps c (sym (calc_resolution_bond-config dr dr' g.config) ∙ q)).0);
      rounds =
          rw (← v.named)
            (HasWindows-AreRounds dr.id (bond * 2) dr'.resolution_windows (keeps bond b).0);
      few = g.few;
      bond = inl (bond, calc_resolution_bond-config dr dr' g.config ∙ b);
    }

-- A stake in a request that is priced keeps the contract consistent.
pub dr_stake-IsConsistent :
    (env : Env) (a : AccountId) (x : Balance) (p : StakeDataRequestArgs) (w : World)
    {r : PromiseOrValue Balance} {w' : World}
    → ((i : ℕ) (dr : ActiveDataRequest)
        → get_elem? w.contract.data_requests i ≡ some (active dr)
        → IsPriced dr)
    → IsConsistent w
    → dr_stake env a x p w ≡ ok (r, w')
    → IsConsistent w'
dr_stake-IsConsistent env a x p w {r} {w'} priced v h =
    let ds = w.contract.data_requests in
    let (dr, unspent, dr', s, at, waiting, staked, replaced, stakes, _, _, configs, _) =
      dr_stake-eq-ok env a x p w h in
    let was : IsActive p.id dr = v.requests p.id (active dr) at in
    let (bond, b, positive) =
      stake-bond env dr a p.outcome x w.storage (priced p.id dr at) was staked in
    let g =
      stake-Staked env dr a p.outcome x bond w.storage {unspent = unspent} {dr' = dr'} {s' = s} b
        positive waiting was.few (rw was.named (was.windows bond b)) staked in
    let after =
      Staked-IsActive env dr dr' p.id a p.outcome x unspent bond w.storage s b waiting g was
        staked in
    record {
      sound =
          rw (stakes, g.kept)
            (stake-IsSound env g.window a p.outcome x g.chosen (rw g.same v.sound) g.done);
      requests =
          rw replaced
            (set-Each IsRequest ds p.id (active dr') (get_elem?-lt ds p.id at) v.requests after);
      fits =
          rw (replaced, stakes)
            (Staked-fits env dr dr' p.id a p.outcome x unspent w.storage s ds g v.sound at was.named
              v.fits);
      full =
          rw (replaced, stakes)
            (Staked-full env dr dr' p.id a p.outcome x unspent w.storage s ds g v.sound at was.named
              v.full);
      known =
          rw (replaced, configs)
            (set-Each (λ i d. get_config_id d < length w.contract.configs) ds p.id (active dr')
              (get_elem?-lt ds p.id at) v.known (rw g.config_id (v.known p.id (active dr) at)));
    }
