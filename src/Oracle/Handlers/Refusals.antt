-- ===== src/Oracle/Handlers/Refusals.antt =====
-- What the handlers of oracle/src/data_request.rs refuse.
use oracle_monorepo_near.Base.{
  ℕ, ◌≡◌, ◌≢◌, true, false, none, some, arith, Pair_eq, String_eq, get_elem?,
}
use oracle_monorepo_near.Near.{ok, err, oracle_is_paused, already_finalized}
use oracle_monorepo_near.Oracle.Types.{
  AccountId, Balance, Outcome, NewDataRequestArgs, StakeDataRequestArgs, FinalizedDataRequest,
  finalized, World, Env,
}
use oracle_monorepo_near.Oracle.Active
use oracle_monorepo_near.Oracle.Handlers.{
  dr_new, dr_stake, dr_unstake, dr_claim, dr_finalize, dr_finalize_by_provider,
  dr_final_arbitrator_finalize,
}

-- While the oracle is paused each of the seven handlers on requests panics with that reason,
-- whatever its arguments.
pub paused-refuses :
    (env : Env) (w : World)
    → w.contract.paused ≡ true
    → ((a : AccountId) (x : Balance) (p : NewDataRequestArgs)
        → dr_new env a x p w ≡ err oracle_is_paused)
      × ((a : AccountId) (x : Balance) (p : StakeDataRequestArgs)
          → dr_stake env a x p w ≡ err oracle_is_paused)
      × ((id round : ℕ) (o : Outcome) (x : Balance)
          → dr_unstake env id round o x w ≡ err oracle_is_paused)
      × ((a : AccountId) (id : ℕ) → dr_claim env a id w ≡ err oracle_is_paused)
      × ((id : ℕ) → dr_finalize env id w ≡ err oracle_is_paused)
      × ((id : ℕ) (o : Outcome) → dr_finalize_by_provider env id o w ≡ err oracle_is_paused)
      × ((id : ℕ) (o : Outcome) → dr_final_arbitrator_finalize env id o w ≡ err oracle_is_paused)
unfolding dr_new dr_stake dr_unstake dr_claim dr_finalize dr_finalize_by_provider
    dr_final_arbitrator_finalize
paused-refuses env w h = (
  λ a x p. rw h,
  λ a x p. rw h,
  λ id round o x. rw h,
  λ a id. rw h,
  λ id. rw h,
  λ id o. rw h,
  λ id o. rw h,
)

-- While the oracle is not paused, a finalized request takes no stake and is not finalized again:
-- the four handlers panic with that reason.
pub finalized-refuses :
    (env : Env) (w : World) (id : ℕ) (f : FinalizedDataRequest)
    → w.contract.paused ≡ false
    → get_elem? w.contract.data_requests id ≡ some (finalized f)
    → ((a : AccountId) (x : Balance) (o : Outcome)
        → dr_stake env a x (record { id = id; outcome = o }) w ≡ err already_finalized)
      × (dr_finalize env id w ≡ err already_finalized)
      × ((o : Outcome) → dr_finalize_by_provider env id o w ≡ err already_finalized)
      × ((o : Outcome) → dr_final_arbitrator_finalize env id o w ≡ err already_finalized)
unfolding dr_stake dr_finalize dr_finalize_by_provider dr_final_arbitrator_finalize
finalized-refuses env w id f h e = (λ a x o. rw (h, e), rw (h, e), λ o. rw (h, e), λ o. rw (h, e))

-- A `dr_new` that returns was given a list of sources.
pub dr_new-needs_sources :
    (env : Env) (a : AccountId) (x : Balance) (p : NewDataRequestArgs) (w : World)
    {r : Balance × World}
    → dr_new env a x p w ≡ ok r
    → p.sources ≢ none
unfolding dr_new Active.new
dr_new-needs_sources env a x p w h e = ground (arith, e)
