-- ===== src/Oracle/Consistency/Unstaking.antt =====
-- Unstakes of a consistent contract (`dr_unstake` of oracle/src/data_request.rs).
use oracle_monorepo_near.Base.{
  ℕ, zero, suc, ◌+◌, ◌≤◌, ◌≡◌, ◌≢◌, refl, inl, inr, some, List, [], ◌∷◌, arith, Option-cases,
  Pair_eq, String_eq, get_elem?,
}
use oracle_monorepo_near.Near.{
  ok, expect, no_resolution_window, data_request_not_found, expect-eq-ok, >>=-eq-ok,
}
use oracle_monorepo_near.Oracle.Types.{
  Balance, Outcome, Outcome_eq, outcome_eq_iff, ResolutionWindow, WindowId, WindowId_eq, UserMap_eq,
  DataRequest, active, finalized, Storage, Env, World,
}
use oracle_monorepo_near.Oracle.Logger.{
  log_update_active_data_request, log_update_finalized_data_request,
}
use oracle_monorepo_near.Oracle.Access.{assert_unpaused}
use oracle_monorepo_near.Oracle.Helpers.{refund_storage}
use oracle_monorepo_near.Oracle.Helpers.Refunds.{refund_storage-keeps}
use oracle_monorepo_near.Oracle.Handlers.{
  windows_of, config_at, dr_unstake, dr_get_expect, unstake, log_update, get_config_id,
}
use oracle_monorepo_near.Oracle.Window
use oracle_monorepo_near.Oracle.Window.{window_id}
use oracle_monorepo_near.Oracle.Window.Writes.{outcome_total}
use oracle_monorepo_near.Oracle.Window.Accounts.{unstake-accounts, unstake-others, unstake-IsSound}
use oracle_monorepo_near.Oracle.Consistency.{
  AreRounds, bonded_or_zero, bonded_of, IsActive, IsConsistent,
}

log_update-stakes : (d : DataRequest) (s : Storage) → (log_update d s).stakes ≡ s.stakes
unfolding log_update_active_data_request log_update_finalized_data_request
log_update-stakes (active dr) s = refl
log_update-stakes (finalized dr) s = refl

-- The parts of a `dr_unstake` that returns.
pub dr_unstake-eq-ok :
    (env : Env) (id round : ℕ) (o : Outcome) (x : Balance) (w : World) {w' : World}
    → dr_unstake env id round o x w ≡ ok w'
    → (d : DataRequest) × (window : ResolutionWindow) × (taken : Balance) × (s : Storage)
      × (get_elem? w.contract.data_requests id ≡ some d)
      × (get_elem? (windows_of d) round ≡ some window)
      × (Window.unstake env window env.predecessor_account_id o x w.storage ≡ ok (taken, s))
      × (w'.contract ≡ w.contract)
      × (w'.storage.stakes ≡ s.stakes)
unfolding dr_unstake dr_get_expect unstake
dr_unstake-eq-ok env id round o x w {w'} h =
    let (_, unpaused, h1) = >>=-eq-ok (assert_unpaused w.contract) _ h in
    let (d, got, h2) = >>=-eq-ok (dr_get_expect id w.contract) _ h1 in
    let ((taken, s), unstaked, h3) =
      >>=-eq-ok (unstake env d env.predecessor_account_id round o x w.storage) _ h2 in
    let (config, at, h4) = >>=-eq-ok (config_at (get_config_id d) w.contract) _ h3 in
    let (refunded, ref, h5) = >>=-eq-ok (refund_storage env _ env.predecessor_account_id _) _ h4 in
    let (contract, stakes, _) = refund_storage-keeps env _ env.predecessor_account_id _ ref in
    let (window, found, done) =
      >>=-eq-ok (expect (get_elem? (windows_of d) round) no_resolution_window) _ unstaked in
    (
      d,
      window,
      taken,
      s,
      expect-eq-ok (get_elem? w.contract.data_requests id) data_request_not_found got,
      expect-eq-ok (get_elem? (windows_of d) round) no_resolution_window found,
      done,
      ground (arith, contract),
      ground (arith, stakes, log_update-stakes d refunded.storage),
    )

AreRounds-get :
    (id n : ℕ) (ws : List ResolutionWindow) (k : ℕ) {window : ResolutionWindow}
    → AreRounds id n ws
    → get_elem? ws k ≡ some window
    → (window.dr_id ≡ id) × (window.round ≡ n + k)
AreRounds-get id n [] k r h = absurd (ground arith)
AreRounds-get id n (x ∷ ws) zero r h = ground (arith, r)
AreRounds-get id n (x ∷ ws) (suc k) r h = ground (arith, AreRounds-get id (suc n) ws k r.2 h)

-- A window of a consistent contract has the prefix of its place.
pub request_window :
    {w : World} (v : IsConsistent w) (id round : ℕ) (d : DataRequest) (window : ResolutionWindow)
    → get_elem? w.contract.data_requests id ≡ some d
    → get_elem? (windows_of d) round ≡ some window
    → (window.dr_id ≡ id) × (window.round ≡ round)
request_window v id round (active dr) window at found =
    let was : IsActive id dr = v.requests id (active dr) at in
    ground (arith, AreRounds-get id 0 dr.resolution_windows round was.rounds found)
request_window v id round (finalized dr) window at found =
    ground (
      arith,
      AreRounds-get id 0 dr.resolution_windows round (v.requests id (finalized dr) at) found,
    )

not_bonded :
    (o : Outcome) (w : ResolutionWindow) → w.bonded_outcome ≢ some o → bonded_or_zero o (some w) ≡ 0
not_bonded o w h = elim (Option-cases w.bonded_outcome) [
  | inl e ↦ rw e
  | inr (b, e) ↦ ground (arith, e, outcome_eq_iff b o)
]

-- An unstake keeps the contract consistent.
pub dr_unstake-IsConsistent :
    (env : Env) (id round : ℕ) (o : Outcome) (x : Balance) (w : World) {w' : World}
    → IsConsistent w
    → dr_unstake env id round o x w ≡ ok w'
    → IsConsistent w'
dr_unstake-IsConsistent env id round o x w {w'} v h =
    let a = env.predecessor_account_id in
    let (d, window, taken, s, at, found, done, contract, stakes) =
      dr_unstake-eq-ok env id round o x w h in
    let accounts =
      unstake-accounts env window a o x w.storage v.sound {taken = taken} {s' = s} done in
    let others = unstake-others env window a o x w.storage v.sound {taken = taken} {s' = s} done in
    let less = λ (u : WindowId) (p : Outcome).
      let this : outcome_total u p s.stakes ≤ outcome_total u p w.storage.stakes =
        ground (arith, others.0 u p, accounts) in
      this in
    record {
      sound =
          rw stakes
            (unstake-IsSound env window a o x w.storage v.sound {taken = taken} {s' = s} done);
      requests = rw contract v.requests;
      known = rw contract v.known;
      fits = λ u p. rw (contract, stakes) (omega (arith, less u p, v.fits u p));
      full = λ u p.
          rw (contract, stakes)
            (elim (others.0 u p) [
              | inl (here, same) ↦
                  (let (named, numbered) = request_window v id round d window at found in
                    let there : bonded_of w.contract.data_requests u p
                        ≡ bonded_or_zero p (some window) =
                      rw (here, named, numbered, at, found) in
                    let free : bonded_or_zero p (some window) ≡ 0 =
                      not_bonded p window (rw same accounts.3) in
                    omega (arith, there, free))
              | inr kept ↦ omega (arith, kept, v.full u p)
            ]);
    }
