-- ===== src/Oracle/Consistency/Withdrawals.antt =====
-- When `dr_unstake` of oracle/src/data_request.rs returns.
use oracle_monorepo_near.Base.{
  ℕ, ◌≤◌, ◌≡◌, ◌≢◌, refl, ap, ◌∙◌, inl, inr, true, false, Option, none, some, List, [], ◌∷◌, ◌++◌,
  arith, get_elem?, get_elem?-there, Pair_eq, String_eq, ◌==◌, ne→==,
}
use oracle_monorepo_near.Near.{ok, >>=-of-ok, Result-cases}
use oracle_monorepo_near.Oracle.Types.{
  Balance, Outcome, Outcome_eq, WindowId_eq, UserMap_eq, ResolutionWindow, DataRequest,
  OracleConfig, Promise, Env, World,
}
use oracle_monorepo_near.Oracle.Helpers.{refund_storage, schedule, fungible_token_transfer}
use oracle_monorepo_near.Oracle.Access.{on_storage, assert_unpaused}
use oracle_monorepo_near.Oracle.Window
use oracle_monorepo_near.Oracle.Window.{window_id, may_withdraw}
use oracle_monorepo_near.Oracle.Window.Writes.{user_stake}
use oracle_monorepo_near.Oracle.Window.Staking.{unstake-returns}
use oracle_monorepo_near.Oracle.Window.Accounts.{unstake-accounts}
use oracle_monorepo_near.Oracle.Handlers.{
  dr_unstake, unstake, dr_get_expect, get_config_id, config_at, log_update, windows_of,
}
use oracle_monorepo_near.Oracle.Consistency.{IsConsistent}
use oracle_monorepo_near.Oracle.Consistency.Unstaking.{request_window}
use oracle_monorepo_near.Oracle.Consistency.Settlement.{PaysStorage, refund_storage-returns}

may_withdraw-other :
    (bonded : Option Outcome) (o : Outcome) → bonded ≢ some o → may_withdraw bonded o ≡ true
unfolding may_withdraw
may_withdraw-other none o other = refl
may_withdraw-other (some b) o other =
    let apart : (b == o) ≡ false = ne→== (λ (e : b ≡ o). other (ap some e)) in rw apart refl

-- In a consistent contract that is not paused: a caller who has at least the amount staked on an outcome
-- in a window of a request, active or finalized, which is not bonded on that outcome, can take it out
-- again where the deposit pays for the storage. dr_unstake returns, and schedules the transfer of the
-- amount, in the stake token of the request's configuration, to the caller.
pub dr_unstake-returns :
    (env : Env) (id round : ℕ) (o : Outcome) (x : Balance) (w : World) {d : DataRequest}
    {window : ResolutionWindow}
    → IsConsistent w
    → w.contract.paused ≡ false
    → get_elem? w.contract.data_requests id ≡ some d
    → get_elem? (windows_of d) round ≡ some window
    → window.bonded_outcome ≢ some o
    → x
      ≤ user_stake
          (record { dr_id = id; round = round })
          env.predecessor_account_id
          o
          w.storage.stakes
    → PaysStorage env w
    → (w' : World) × (config : OracleConfig) × (before : List Promise) × (dr_unstake env id round o
          x w
        ≡ ok w')
      × (get_elem? w.contract.configs (get_config_id d) ≡ some config)
      × (w'.storage.promises
          ≡ before ++ Promise.ft_transfer config.stake_token env.predecessor_account_id x ∷ [])
unfolding dr_unstake dr_get_expect unstake assert_unpaused fungible_token_transfer
dr_unstake-returns env id round o x w {d} {window} v running at found free has pays =
    let a = env.predecessor_account_id in
    let (named, numbered) = request_window v id round d window at found in
    let place : window_id window ≡ record { dr_id = id; round = round } =
      ground (arith, named, numbered) in
    let (config, known) = get_elem?-there w.contract.configs (get_config_id d) (v.known id d at) in
    let allowed = may_withdraw-other window.bonded_outcome o free in
    elim (Result-cases (Window.unstake env window a o x w.storage)) [
      | inl (e, panics) ↦ absurd (
          ground (
            arith,
            panics,
            unstake-returns env window a o x w.storage v.sound allowed (rw place has),
          ))
      | inr ((taken, s), done) ↦
          (let all : taken ≡ x =
              (unstake-accounts env window a o x w.storage v.sound {taken = taken} {s' = s}
                done).0 in
            let (refunded, ref) = refund_storage-returns env a w (record w { storage = s }) pays in
            let logged = on_storage (log_update d) refunded in
            (
              schedule (fungible_token_transfer config.stake_token a taken) logged,
              config,
              logged.storage.promises,
              >>=-of-ok (assert_unpaused w.contract) _ (ground arith)
                  ∙ >>=-of-ok (dr_get_expect id w.contract) _ {first = d} (rw at refl)
                  ∙ >>=-of-ok (unstake env d a round o x w.storage) _ (rw (found, done) refl)
                  ∙ >>=-of-ok (config_at (get_config_id d) w.contract) _ {first = config}
                      (rw known refl)
                  ∙ >>=-of-ok
                      (refund_storage env (env.storage_usage w) a (record w { storage = s })) _ ref,
              known,
              rw all refl,
            ))
    ]
