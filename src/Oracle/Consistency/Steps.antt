-- ===== src/Oracle/Consistency/Steps.antt =====
-- The calls of the oracle contract (oracle/src) as steps, and its histories.
use oracle_monorepo_near.Base.{
  ℕ, ◌≡◌, Bool, Option, some, List, [], String, String_eq, Pair_eq, get_elem?,
}
use oracle_monorepo_near.Near.{ok}
use oracle_monorepo_near.Oracle.Types.{
  AccountId, Balance, Outcome, Outcome_eq, WindowId_eq, UserMap_eq, ActiveDataRequest, active,
  NewDataRequestArgs, StakeDataRequestArgs, OracleConfig, FeeConfig, Requester,
  AccountStorageBalance, PromiseOrValue, Env, World, Storage,
}
use oracle_monorepo_near.Oracle.Whitelisting.{add_to_whitelist, remove_from_whitelist}
use oracle_monorepo_near.Oracle.Configuration
use oracle_monorepo_near.Oracle.Configuration.{set_config, toggle_pause, update_fee_config}
use oracle_monorepo_near.Oracle.Accounts.{storage_deposit, storage_withdraw}
use oracle_monorepo_near.Oracle.Receiver.{ft_on_transfer}
use oracle_monorepo_near.Oracle.Handlers.{
  dr_new, dr_stake, dr_unstake, dr_claim, dr_finalize, dr_finalize_by_provider,
  dr_final_arbitrator_finalize,
}
use oracle_monorepo_near.Oracle.Consistency.{IsPriced}

-- The storage of an account that has no contract yet.
abbrev pub empty_storage : Storage
empty_storage = record {
  stakes = record { outcome_to_stake = []; user_to_outcome_to_stake = []; user_stakes = [] };
  logs = [];
  promises = [];
}

-- One call that returned. A call that panics leaves the state alone and is no step.
pub data Step (w w' : World) : Type 0 where
  tokens_received :
      (env : Env) (a : AccountId) (x : Balance) (msg : String) (r : PromiseOrValue Balance)
      → ft_on_transfer env a x msg w ≡ ok (r, w')
      → Step w w'
  requested :
      (env : Env) (a : AccountId) (x : Balance) (p : NewDataRequestArgs) (r : Balance)
      → dr_new env a x p w ≡ ok (r, w')
      → Step w w'
  staked :
      (env : Env) (a : AccountId) (x : Balance) (p : StakeDataRequestArgs)
      (r : PromiseOrValue Balance)
      → dr_stake env a x p w ≡ ok (r, w')
      → Step w w'
  unstaked :
      (env : Env) (id round : ℕ) (o : Outcome) (x : Balance)
      → dr_unstake env id round o x w ≡ ok w'
      → Step w w'
  claimed : (env : Env) (a : AccountId) (id : ℕ) → dr_claim env a id w ≡ ok w' → Step w w'
  timed_out : (env : Env) (id : ℕ) → dr_finalize env id w ≡ ok w' → Step w w'
  provided :
      (env : Env) (id : ℕ) (o : Outcome) → dr_finalize_by_provider env id o w ≡ ok w' → Step w w'
  arbitrated :
      (env : Env) (id : ℕ) (o : Outcome) (r : PromiseOrValue Bool)
      → dr_final_arbitrator_finalize env id o w ≡ ok (r, w')
      → Step w w'
  configured : (env : Env) (c : OracleConfig) → set_config env c w ≡ ok w' → Step w w'
  toggled : (env : Env) → toggle_pause env w ≡ ok w' → Step w w'
  fee_updated : (env : Env) (f : FeeConfig) → update_fee_config env f w ≡ ok w' → Step w w'
  listed : (env : Env) (r : Requester) → add_to_whitelist env r w ≡ ok w' → Step w w'
  dismissed : (env : Env) (r : Requester) → remove_from_whitelist env r w ≡ ok w' → Step w w'
  deposited :
      (env : Env) (to : Option AccountId) (r : AccountStorageBalance)
      → storage_deposit env to w ≡ ok (r, w')
      → Step w w'
  withdrawn :
      (env : Env) (x : Balance) (r : AccountStorageBalance)
      → storage_withdraw env x w ≡ ok (r, w')
      → Step w w'

-- The environment of a call.
abbrev pub call_env : {w w' : World} → Step w w' → Env
call_env (tokens_received env a x msg r h) = env
call_env (requested env a x p r h) = env
call_env (staked env a x p r h) = env
call_env (unstaked env id round o x h) = env
call_env (claimed env a id h) = env
call_env (timed_out env id h) = env
call_env (provided env id o h) = env
call_env (arbitrated env id o r h) = env
call_env (configured env c h) = env
call_env (toggled env h) = env
call_env (fee_updated env f h) = env
call_env (listed env r h) = env
call_env (dismissed env r h) = env
call_env (deposited env to r h) = env
call_env (withdrawn env x r h) = env

-- No active request has a resolution bond of zero.
abbrev pub ArePriced : World → Type 0
ArePriced w =
    (i : ℕ) (dr : ActiveDataRequest)
    → get_elem? w.contract.data_requests i ≡ some (active dr)
    → IsPriced dr

-- The histories of a fresh contract, by the state that they reach.
pub data Reachable : World → Type 0 where
  created :
      {w : World} (env : Env) (whitelist : Option (List Requester)) (config : OracleConfig)
      → Configuration.new env whitelist config empty_storage ≡ w
      → Reachable w
  called : {w w' : World} → Reachable w → Step w w' → Reachable w'

-- No active request had a resolution bond of zero before any call of the history.
abbrev pub WerePriced : {w : World} → Reachable w → Type 0
WerePriced (created env whitelist config e) = Unit
WerePriced (called {w} r st) = ArePriced w × WerePriced r
