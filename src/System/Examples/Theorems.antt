-- ===== src/System/Examples/Theorems.antt =====
-- The theorems on the token contract (token/src) and the oracle (oracle/src) together, at one history.
use oracle_monorepo_near.Base.{
  List, ◌++◌, get_elem?, ◌+◌, ◌≤◌, ◌≡◌, refl, some, [], ◌∷◌, arith, ==_false, String_eq, sum_by,
  length,
}
use oracle_monorepo_near.Near.{ok, get}
use oracle_monorepo_near.Token.State.{TokenContract, PromiseResult}
use oracle_monorepo_near.Token.Core.{ft_transfer, ft_resolve_transfer, ft_balance_of}
use oracle_monorepo_near.Oracle.Types.{Balance, Promise, answer, AnswerType}
use oracle_monorepo_near.Oracle.Whitelisting.{set_outcome, new_no_whitelist}
use oracle_monorepo_near.Oracle.Helpers.{fungible_token_transfer}
use oracle_monorepo_near.Oracle.Treasury.Sent.{sent_all}
use oracle_monorepo_near.System.{unused, IsOrderly}
use oracle_monorepo_near.Oracle.Treasury.Sums.{sum_to}
use oracle_monorepo_near.System.Funds.{held}
use oracle_monorepo_near.System.Histories.{balance_covers}
use oracle_monorepo_near.System.Payments.{promised_transfer-returns}
use oracle_monorepo_near.System.Refunds.{answer_resolved}
use oracle_monorepo_near.System.Claims.{IsPayment, dr_claim-returns}
use oracle_monorepo_near.Oracle.Types.{OracleConfig, World}
use oracle_monorepo_near.Oracle.Handlers.{dr_claim}
use oracle_monorepo_near.Oracle.Finalized.Payoff.{payoff}
use oracle_monorepo_near.Oracle.Examples.Histories.{later}
use oracle_monorepo_near.System.Examples.Tokens.{alice, oracle, by, asked, staked, c5, c6}
use oracle_monorepo_near.System.Examples.{
  finished_dr, answer_of, v3, answered, finished, answered_history, finished_history,
}

answered-IsOrderly : IsOrderly "token.near" oracle answered_history
unfolding answered_history
answered-IsOrderly = (tt, (tt, (tt, (tt, ((refl, refl), omega arith, tt)))))

finished-IsOrderly : IsOrderly "token.near" oracle finished_history
unfolding finished_history
finished-IsOrderly = (tt, (tt, answered-IsOrderly))

balance_covers_example :
    sum_by (λ t. t.amount) answered.incoming
      + sum_by unused answered.answers
      + sent_all answered.oracle.storage.promises
      + sum_to (length answered.oracle.contract.data_requests) (held answered.oracle)
    ≤ ft_balance_of oracle answered.token
balance_covers_example = balance_covers "token.near" oracle answered_history answered-IsOrderly

answer_resolved_example :
    (used : Balance) × (c : TokenContract) × (ft_resolve_transfer
        (by "token.near" 0 (PromiseResult.successful []))
        alice
        oracle
        300
        c5
      ≡ ok (used, c))
    × (get alice c.accounts ≡ some 600)
    × (used + 100 ≡ 300)
    × (ft_balance_of oracle c + 100 ≡ ft_balance_of oracle c5)
unfolding answered c5
answer_resolved_example =
    answer_resolved "token.near" oracle answered_history
      (by "token.near" 0 (PromiseResult.successful [])) (answer_of asked 0 ∷ []) []
      (answer_of staked 100) 500 answered-IsOrderly refl ([], refl, refl) refl (==_false refl) refl

promised_transfer-returns_example :
    (c : TokenContract) × (ft_transfer (by oracle 1 PromiseResult.not_ready) alice 100 c6 ≡ ok c)
    × (ft_balance_of alice c ≡ 600 + 100)
    × (ft_balance_of oracle c + 100 ≡ ft_balance_of oracle c6)
unfolding finished v3 c6 set_outcome new_no_whitelist fungible_token_transfer
promised_transfer-returns_example =
    promised_transfer-returns "token.near" oracle finished_history
      (by oracle 1 PromiseResult.not_ready)
      (Promise.set_outcome alice alice (answer (AnswerType.string "yes")) [] ∷ [])
      (Promise.transfer alice 1 ∷ []) (Promise.ft_transfer "token.near" alice 100) alice 100 600
      finished-IsOrderly refl refl (omega arith) (==_false refl) refl refl refl

dr_claim-returns_example :
    (w : World) × (c : OracleConfig) × (p : Promise) × (before : List Promise) × (dr_claim later
        alice 0 finished.oracle
      ≡ ok w)
    × (get_elem? finished.oracle.contract.configs 0 ≡ some c)
    × IsPayment c alice (payoff finished_dr 200) p
    × (w.storage.promises ≡ before ++ p ∷ [])
unfolding finished v3 finished_dr
dr_claim-returns_example =
    dr_claim-returns "token.near" oracle finished_history later alice 0 {dr = finished_dr}
      finished-IsOrderly refl refl (omega arith) ((λ w. omega arith), omega arith)
      (λ w. omega arith)
