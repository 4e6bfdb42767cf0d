-- ===== src/System/Running.antt =====
-- The promises of the oracle (oracle/src), and calls by others, against the balance of the oracle.
use oracle_monorepo_near.Base.{ℕ, ◌≡◌, ap, List, ◌∷◌, ◌++◌, arith, String_eq}
use oracle_monorepo_near.Near.{ok}
use oracle_monorepo_near.Token.State.{TokenContract, Env as TokenEnv}
use oracle_monorepo_near.Token.Core.{ft_transfer}
use oracle_monorepo_near.Token.Calls.{ft_transfer-IsBacked}
use oracle_monorepo_near.Token.Transfers.{internal_transfer_moves}
use oracle_monorepo_near.Token.Moves.{ft_transfer-eq-ok}
use oracle_monorepo_near.Token.Bounds.{Step-Fits}
use oracle_monorepo_near.Token.History as TokenHistory
use oracle_monorepo_near.Token.History.{Step-IsBacked}
use oracle_monorepo_near.Oracle.Types.{AccountId, Balance, World, Promise}
use oracle_monorepo_near.Oracle.Consistency.Steps.{Step as OracleStep, listed}
use oracle_monorepo_near.Oracle.Consistency.Fairness.{IsFairStep}
use oracle_monorepo_near.Oracle.Treasury.{flow}
use oracle_monorepo_near.Oracle.Treasury.Sent.{sent, sent_all}
use oracle_monorepo_near.System.{System, IsOutside, IsForeign, with_promises, first, left, onto}
use oracle_monorepo_near.Oracle.Treasury.Sums.{sum_to-none}
use oracle_monorepo_near.System.Queues.{sent_all-next}
use oracle_monorepo_near.System.Balances.{foreign-keeps}
use oracle_monorepo_near.System.Flows.{taken_in, outside-untaken}
use oracle_monorepo_near.System.Messages.{sends-paid}
use oracle_monorepo_near.System.Growth.{outside-Grows}
use oracle_monorepo_near.System.Funds.{
  IsFunded, Step-IsSettled, Step-IsBounded, with_promises-IsSettled, after, after-taken, after-paid,
}

outside-IsFairStep :
    (token_id oracle_id : AccountId) {w w' : World} (st : OracleStep w w')
    → IsOutside token_id oracle_id st
    → IsFairStep st
outside-IsFairStep token_id oracle_id (listed env r h) whole = whole
outside-IsFairStep token_id oracle_id _ apart = tt

module _ (token_id oracle_id : AccountId) (s : System) (v : IsFunded token_id oracle_id s) where
  pub paid-IsFunded :
      (env : TokenEnv) (before later : List Promise) (p : Promise) (receiver : AccountId)
      (x : Balance) (c : TokenContract)
      → s.oracle.storage.promises ≡ before ++ p ∷ later
      → first p ≡ Promise.ft_transfer token_id receiver x
      → env.predecessor_account_id ≡ oracle_id
      → ft_transfer env receiver x s.token ≡ ok c
      → IsFunded token_id oracle_id
          (record s { token = c; oracle = with_promises (before ++ onto (left p) later) s.oracle })
  paid-IsFunded env before later p receiver x c waiting starts own h =
      let (_, gives, _, _, _) =
        internal_transfer_moves env.predecessor_account_id receiver x s.token
          (ft_transfer-eq-ok env receiver x s.token h) in
      record {
        accounts = v.accounts;
        bounded = v.bounded;
        settled = with_promises-IsSettled s.oracle _ v.accounts v.settled;
        tokens = v.tokens;
        backed = ft_transfer-IsBacked env receiver x s.token v.backed h;
        fits = Step-Fits (TokenHistory.transfer env receiver x h) v.fits;
        funds = λ n all. omega (
          arith,
          v.funds n all,
          rw own at gives,
          ap sent_all waiting,
          sent_all-next before later p,
          ap sent starts,
        );
      }

  pub passed-IsFunded :
      (before later : List Promise) (p : Promise)
      → s.oracle.storage.promises ≡ before ++ p ∷ later
      → IsFunded token_id oracle_id
          (record s { oracle = with_promises (before ++ onto (left p) later) s.oracle })
  passed-IsFunded before later p waiting = record {
    accounts = v.accounts;
    bounded = v.bounded;
    settled = with_promises-IsSettled s.oracle _ v.accounts v.settled;
    tokens = v.tokens;
    backed = v.backed;
    fits = v.fits;
    funds =
        λ n all. omega (arith, v.funds n all, ap sent_all waiting, sent_all-next before later p);
  }

  pub oracle_called-IsFunded :
      (w : World) (st : OracleStep s.oracle w)
      → IsOutside token_id oracle_id st
      → IsFunded token_id oracle_id (record s { oracle = w })
  oracle_called-IsFunded w st apart =
      let (more, token) = outside-Grows token_id oracle_id st apart in
      let none_in = λ (n : ℕ).
        sum_to-none n (λ i. taken_in (flow i st))
          (λ i l. outside-untaken token_id oracle_id st v.tokens apart i) in
      record {
        accounts = after v.accounts st;
        bounded =
            Step-IsBounded token_id oracle_id s v st
              (outside-IsFairStep token_id oracle_id st apart);
        settled =
            Step-IsSettled v.accounts st (outside-IsFairStep token_id oracle_id st apart) v.settled;
        tokens = token v.tokens;
        backed = v.backed;
        fits = v.fits;
        funds = λ n all. omega (
          arith,
          v.funds n (omega arith),
          more,
          after-taken n v.accounts st,
          after-paid n v.accounts st,
          none_in n,
          sends-paid st n (omega arith),
        );
      }

  pub token_called-IsFunded :
      (c : TokenContract) (st : TokenHistory.Step s.token c)
      → IsForeign token_id oracle_id st
      → IsFunded token_id oracle_id (record s { token = c })
  token_called-IsFunded c st apart = record {
    accounts = v.accounts;
    bounded = v.bounded;
    settled = v.settled;
    tokens = v.tokens;
    backed = Step-IsBacked st v.backed;
    fits = Step-Fits st v.fits;
    funds = λ n all. omega (arith, v.funds n all, foreign-keeps token_id oracle_id st apart);
  }
