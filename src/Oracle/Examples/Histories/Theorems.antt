-- ===== src/Oracle/Examples/Histories/Theorems.antt =====
-- The theorems on histories at the history of Oracle/Examples/Histories.antt.
use oracle_monorepo_near.Oracle.Consistency.Withdrawals.{dr_unstake-returns}
use oracle_monorepo_near.Oracle.Examples.Worlds.{nay, env_of}
use oracle_monorepo_near.Base.{
  [], ◌∷◌, ◌++◌, ℕ, some, List, ◌+◌, ◌≤◌, ◌<◌, ◌≡◌, refl, arith, String_eq, get_elem?, length, min,
  ◌-◌, ◌≢◌, ◌⊎◌,
}
use oracle_monorepo_near.Near.{ok}
use oracle_monorepo_near.Oracle.Types.{
  AccountId, OracleConfig, Promise, active, Outcome, Outcome_eq, finalized, World,
}
use oracle_monorepo_near.Oracle.Helpers.{multiply_stake}
use oracle_monorepo_near.Oracle.Active.{calc_resolution_bond}
use oracle_monorepo_near.Oracle.Finalized.{trim_dr}
use oracle_monorepo_near.Oracle.Handlers.{dr_unstake, dr_finalize}
use oracle_monorepo_near.Oracle.Consistency.{IsConsistent}
use oracle_monorepo_near.Oracle.Consistency.Steps.{WerePriced, call_env}
use oracle_monorepo_near.Oracle.Consistency.Fairness.{IsFairHistory, IsFairHistory-WerePriced}
use oracle_monorepo_near.Oracle.Consistency.History.{Reachable-IsConsistent}
use oracle_monorepo_near.Oracle.Treasury.{account, flow}
use oracle_monorepo_near.Oracle.Treasury.Sent.{sent_all}
use oracle_monorepo_near.Oracle.Treasury.Sums.{sum_to}
use oracle_monorepo_near.Oracle.Treasury.Unpaid.{paid_out}
use oracle_monorepo_near.Oracle.Treasury.Paid.{payee, config_of}
use oracle_monorepo_near.Oracle.Consistency.Terms.{KeepsTerms, Step-terms}
use oracle_monorepo_near.Oracle.Governance.{IsGovernance}
use oracle_monorepo_near.Oracle.Treasury.Promises.{tokens_to, due, Step-Sends}
use oracle_monorepo_near.Oracle.Treasury.Ledger.{account_solvent}
use oracle_monorepo_near.Oracle.Views.{DataRequestSummary, get_requests, get_request_by_id}
use oracle_monorepo_near.Oracle.Views.Pages.{get_requests_lem}
use oracle_monorepo_near.Oracle.Consistency.Settlement.{dr_finalize-returns}
use oracle_monorepo_near.Oracle.Examples.Histories.{
  later, w4, w5, w6, dispute, verdict, disputed_dr, second, alice_claims, history,
}

-- All but what Bob did not take out again was paid out.
history_account :
    account 0 history
    ≡ record { staked = 250; unstaked = 20; claimed = 200; paid_in = 200; fees = 100; bonds = 100 }
unfolding account flow history alice_claims verdict dispute
history_account = refl

dispute-IsFair : IsFairHistory dispute
unfolding dispute
dispute-IsFair = (tt, (tt, (tt, (tt, (omega arith, tt)))))

verdict-IsFair : IsFairHistory verdict
unfolding verdict
verdict-IsFair = (tt, dispute-IsFair)

history-IsFair : IsFairHistory history
unfolding history
history-IsFair = (tt, verdict-IsFair)

dispute-WerePriced : WerePriced dispute
dispute-WerePriced = IsFairHistory-WerePriced dispute dispute-IsFair

history-WerePriced : WerePriced history
history-WerePriced = IsFairHistory-WerePriced history history-IsFair

IsFairHistory-WerePriced_example : WerePriced history
IsFairHistory-WerePriced_example = IsFairHistory-WerePriced history history-IsFair

account_solvent_example :
    (sent_all w6.storage.promises
      ≡ sum_to (length w6.contract.data_requests) (λ i. paid_out (account i history)))
    × (20 + 200 ≤ 250)
    × (100 + 100 ≤ 200)
unfolding account flow history alice_claims verdict dispute
account_solvent_example = account_solvent 0 history history-WerePriced

Reachable-IsConsistent_example : IsConsistent w6
Reachable-IsConsistent_example = Reachable-IsConsistent history history-WerePriced

dr_finalize-returns_example :
    (w' : World) × (o : Outcome) × (dr_finalize later 0 w4 ≡ ok w')
    × (get_elem? w'.contract.data_requests 0 ≡ some (finalized (trim_dr disputed_dr o)))
unfolding w4 calc_resolution_bond multiply_stake disputed_dr second
dr_finalize-returns_example =
    dr_finalize-returns later 0 w4 {dr = disputed_dr} {last = second}
      (Reachable-IsConsistent dispute dispute-WerePriced) refl refl refl (omega arith) refl
      (omega arith) ((λ w'. omega arith), omega arith)

get_requests_lem_example :
    (ds : List DataRequestSummary) × (get_requests 0 5 w6.contract ≡ ok ds)
    × (length ds ≡ min 5 (length w6.contract.data_requests - 0))
    × ((k : ℕ) → k < length ds → get_elem? ds k ≡ get_request_by_id (0 + k) w6.contract)
get_requests_lem_example = get_requests_lem 0 5 w6.contract (omega arith)

Step-Sends_example :
    (id : ℕ) × ((token b : AccountId)
      → tokens_to token b w6
        ≡ tokens_to token b w5
          + due token b (config_of id w5) (flow id alice_claims) (payee alice_claims))
    × ((j : ℕ) → j ≢ id → paid_out (flow j alice_claims) ≡ 0)
Step-Sends_example = Step-Sends alice_claims

Step-terms_example : IsGovernance (call_env alice_claims) w5 ⊎ KeepsTerms w5 w6
Step-terms_example = Step-terms alice_claims

dr_unstake-returns_example :
    (w : World) × (c : OracleConfig) × (before : List Promise) × (dr_unstake
        (env_of "bob.near")
        0
        1
        nay
        10
        w4
      ≡ ok w)
    × (get_elem? w4.contract.configs 0 ≡ some c)
    × (w.storage.promises ≡ before ++ Promise.ft_transfer c.stake_token "bob.near" 10 ∷ [])
unfolding w4 disputed_dr second
dr_unstake-returns_example =
    dr_unstake-returns (env_of "bob.near") 0 1 nay 10 w4 {d = active disputed_dr} {window = second}
      (Reachable-IsConsistent dispute dispute-WerePriced) refl refl refl (λ e. cc) (omega arith)
      ((λ w. omega arith), omega arith)
