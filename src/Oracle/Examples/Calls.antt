-- ===== src/Oracle/Examples/Calls.antt =====
-- The theorems on the handlers at concrete calls.
use oracle_monorepo_near.Base.{
  ℕ, Bool, true, false, some, [], ◌∷◌, ◌+◌, ◌-◌, ◌*◌, ◌≡◌, refl, ltb, if◌then◌else◌, String_eq,
  get_elem?,
}
use oracle_monorepo_near.Near.{
  ok, err, get, checked_add, checked_mul, oracle_is_paused, already_finalized,
}
use oracle_monorepo_near.Oracle.Types.{
  AccountId, Balance, Outcome, NewDataRequestArgs, StakeDataRequestArgs, ActiveDataRequest,
  OracleConfig, World, Promise, PromiseOrValue, value,
}
use oracle_monorepo_near.Oracle.Logger.{log_update_finalized_data_request}
use oracle_monorepo_near.Oracle.Helpers.{schedule, refund_storage}
use oracle_monorepo_near.Oracle.Helpers.Refunds.{refund_storage-eq-ok}
use oracle_monorepo_near.Oracle.Active.{get_final_outcome}
use oracle_monorepo_near.Oracle.Guards.{
  assert_can_finalize, assert_valid_outcome, assert_final_arbitrator,
  assert_final_arbitrator_invoked,
}
use oracle_monorepo_near.Oracle.Finalized
use oracle_monorepo_near.Oracle.Finalized.{trim_dr}
use oracle_monorepo_near.Oracle.Handlers.{
  dr_new, dr_stake, dr_unstake, dr_claim, dr_finalize, dr_finalize_by_provider,
  dr_final_arbitrator_finalize,
}
use oracle_monorepo_near.Oracle.Handlers.Lifecycle.{
  IsReturned, Finalizes, dr_finalize-Finalizes, dr_finalize_by_provider-Finalizes,
  dr_final_arbitrator_finalize-Finalizes,
}
use oracle_monorepo_near.Oracle.Guards.Listed.{IsAllowed}
use oracle_monorepo_near.Oracle.Handlers.Refusals.{paused-refuses, finalized-refuses}
use oracle_monorepo_near.Oracle.Examples.Worlds.{
  nay, env, env_of, settled, request, bonded0, round1, world_of,
}

abbrev waiting : ActiveDataRequest
waiting = request (bonded0 ∷ round1 ∷ [])

abbrev world : World
world = world_of waiting

abbrev arbitrated : ActiveDataRequest
arbitrated = record waiting { final_arbitrator_triggered = true }

abbrev arbitrated_world : World
arbitrated_world = world_of arbitrated

abbrev paused_world : World
paused_world = record world { contract = record (world.contract) { paused = true } }

finalized_by_time : World
unfolding dr_finalize get get_final_outcome assert_can_finalize refund_storage checked_add
    checked_mul log_update_finalized_data_request Finalized.return_validity_bond Finalized.finalize
    trim_dr
finalized_by_time = elim (dr_finalize env 0 world) [ ok w ↦ w | err e ↦ world ]

dr_finalize-Finalizes_example :
    (dr : ActiveDataRequest) × (o : Outcome) × (false ≡ false)
    × (assert_can_finalize env dr ≡ ok tt)
    × (get_final_outcome dr ≡ ok o)
    × Finalizes world 0 dr o finalized_by_time
unfolding finalized_by_time
dr_finalize-Finalizes_example = dr_finalize-Finalizes env 0 world {w' = finalized_by_time} refl

finalized_by_provider : World
unfolding dr_finalize_by_provider assert_valid_outcome refund_storage checked_add checked_mul
    log_update_finalized_data_request Finalized.finalize trim_dr
finalized_by_provider = elim (dr_finalize_by_provider (env_of "provider.near") 0 nay world) [
  | ok w ↦ w
  | err e ↦ world
]

dr_finalize_by_provider-Finalizes_example :
    (dr : ActiveDataRequest) × (false ≡ false)
    × (dr.provider ≡ some "provider.near")
    × IsAllowed dr.outcomes nay
    × Finalizes world 0 dr nay finalized_by_provider
unfolding finalized_by_provider
dr_finalize_by_provider-Finalizes_example =
    dr_finalize_by_provider-Finalizes (env_of "provider.near") 0 nay world
      {w' = finalized_by_provider} refl

judged : PromiseOrValue Bool × World
unfolding dr_final_arbitrator_finalize assert_valid_outcome assert_final_arbitrator
    assert_final_arbitrator_invoked refund_storage checked_add checked_mul
    log_update_finalized_data_request Finalized.return_validity_bond Finalized.finalize trim_dr
judged = elim (dr_final_arbitrator_finalize (env_of "judge.near") 0 nay arbitrated_world) [
  | ok r ↦ r
  | err e ↦ (value false, world)
]

dr_final_arbitrator_finalize-Finalizes_example :
    (dr : ActiveDataRequest) × (c : OracleConfig) × (false ≡ false)
    × (dr.request_config.final_arbitrator ≡ "judge.near")
    × (dr.final_arbitrator_triggered ≡ true)
    × IsAllowed dr.outcomes nay
    × (get_elem? arbitrated_world.contract.configs dr.global_config_id ≡ some c)
    × IsReturned dr c nay judged.0
    × Finalizes arbitrated_world 0 dr nay judged.1
unfolding judged
dr_final_arbitrator_finalize-Finalizes_example =
    dr_final_arbitrator_finalize-Finalizes (env_of "judge.near") 0 nay arbitrated_world
      {r = judged.0} {w' = judged.1} refl

paused-refuses_example :
    ((a : AccountId) (x : Balance) (p : NewDataRequestArgs)
      → dr_new env a x p paused_world ≡ err oracle_is_paused)
    × ((a : AccountId) (x : Balance) (p : StakeDataRequestArgs)
        → dr_stake env a x p paused_world ≡ err oracle_is_paused)
    × ((id round : ℕ) (o : Outcome) (x : Balance)
        → dr_unstake env id round o x paused_world ≡ err oracle_is_paused)
    × ((a : AccountId) (id : ℕ) → dr_claim env a id paused_world ≡ err oracle_is_paused)
    × ((id : ℕ) → dr_finalize env id paused_world ≡ err oracle_is_paused)
    × ((id : ℕ) (o : Outcome)
        → dr_finalize_by_provider env id o paused_world ≡ err oracle_is_paused)
    × ((id : ℕ) (o : Outcome)
        → dr_final_arbitrator_finalize env id o paused_world ≡ err oracle_is_paused)
paused-refuses_example = paused-refuses env paused_world refl

finalized-refuses_example :
    ((a : AccountId) (x : Balance) (o : Outcome)
      → dr_stake env a x (record { id = 1; outcome = o }) world ≡ err already_finalized)
    × (dr_finalize env 1 world ≡ err already_finalized)
    × ((o : Outcome) → dr_finalize_by_provider env 1 o world ≡ err already_finalized)
    × ((o : Outcome) → dr_final_arbitrator_finalize env 1 o world ≡ err already_finalized)
finalized-refuses_example = finalized-refuses env world 1 settled refl refl

refund_storage-eq-ok_example :
    (refund : Balance) × (refund + (0 - 3) * 10 ≡ 1 + (3 - 0) * 10)
    × (schedule (Promise.transfer "alice.near" 31) world
        ≡ (if ltb 0 refund then schedule (Promise.transfer "alice.near" refund) world else world))
unfolding refund_storage checked_add checked_mul
refund_storage-eq-ok_example =
    refund_storage-eq-ok env 3 "alice.near" world
      {w' = schedule (Promise.transfer "alice.near" 31) world} refl
