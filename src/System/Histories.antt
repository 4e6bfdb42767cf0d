-- ===== src/System/Histories.antt =====
-- Histories of the token contract (token/src) and the oracle (oracle/src) together.
use oracle_monorepo_near.Base.{
  ◌+◌, ◌≤◌, refl, sym, subst, Option, List, [], arith, length, sum_by, append-Each, String_eq,
}
use oracle_monorepo_near.Token.State.{TokenContract}
use oracle_monorepo_near.Token.Core.{ft_balance_of}
use oracle_monorepo_near.Token.History as TokenHistory
use oracle_monorepo_near.Token.History.{Reachable-IsBacked}
use oracle_monorepo_near.Token.Bounds.{Reachable-Fits}
use oracle_monorepo_near.Oracle.Types.{AccountId, Env, OracleConfig, Requester}
use oracle_monorepo_near.Oracle.Configuration
use oracle_monorepo_near.Oracle.Consistency.Steps.{empty_storage}
use oracle_monorepo_near.Oracle.Consistency.History.{new-fresh, new-IsConsistent}
use oracle_monorepo_near.Oracle.Consistency.Pricing.{HasBonds}
use oracle_monorepo_near.Oracle.Consistency.Fairness.{AreWholeIn, new-IsFair}
use oracle_monorepo_near.Oracle.Treasury.Ledger.{new-fresh_terms}
use oracle_monorepo_near.Oracle.Treasury.{nothing}
use oracle_monorepo_near.Oracle.Treasury.History.{new-IsSolvent}
use oracle_monorepo_near.Oracle.Treasury.Sent.{sent_all}
use oracle_monorepo_near.System.{
  System, unused, Step, transferred, received, refused, resolved, paid, passed, oracle_called,
  token_called, Reachable, created, continued, UsesToken, IsOrderlyStep, IsOrderly,
}
use oracle_monorepo_near.Oracle.Treasury.Sums.{sum_to, sum_to-none}
use oracle_monorepo_near.System.Funds.{IsFunded, IsFunded-covered, held}
use oracle_monorepo_near.System.Exchange.{
  transferred-IsFunded, received-IsFunded, refused-IsFunded, resolved-IsFunded,
}
use oracle_monorepo_near.System.Running.{
  paid-IsFunded, passed-IsFunded, oracle_called-IsFunded, token_called-IsFunded,
}

module _ (token_id oracle_id : AccountId) where
  created-IsFunded :
      (c : TokenContract) (env : Env) (whitelist : Option (List Requester)) (config : OracleConfig)
      → TokenHistory.Reachable c
      → UsesToken token_id oracle_id config
      → HasBonds config
      → AreWholeIn whitelist
      → IsFunded token_id oracle_id (record {
        token = c;
        oracle = Configuration.new env whitelist config empty_storage;
        incoming = [];
        answers = [];
      })
  created-IsFunded c env whitelist config reached uses bonds whole =
      let (promises, configs) = new-fresh_terms env whitelist config in
      record {
        accounts = λ i. nothing;
        settled = record {
          fair = new-IsFair env whitelist config bonds whole;
          consistent = new-IsConsistent env whitelist config;
          solvent = λ id. new-IsSolvent id env whitelist config;
        };
        tokens =
            rw configs
              (append-Each (λ i d. UsesToken token_id oracle_id d) [] config (λ i d h. cc) uses);
        bounded = rw (new-fresh env whitelist config).0 (λ i d h. cc);
        backed = Reachable-IsBacked reached;
        fits = Reachable-Fits reached;
        funds = λ n all. rw promises (omega (arith, sum_to-none n (λ i. 0) (λ i l. refl)));
      }

  Step-IsFunded :
      {s s' : System} (st : Step token_id oracle_id s s')
      → IsOrderlyStep token_id oracle_id st
      → IsFunded token_id oracle_id s
      → IsFunded token_id oracle_id s'
  Step-IsFunded {s} (transferred env x msg gas c h e) orderly v =
      subst (IsFunded token_id oracle_id) (sym e)
        (transferred-IsFunded token_id oracle_id s v env x msg gas c h)
  Step-IsFunded {s} (received env before later t unspent w waiting called h e) orderly v =
      subst (IsFunded token_id oracle_id) (sym e)
        (received-IsFunded token_id oracle_id s v env before later t unspent w waiting h)
  Step-IsFunded {s} (refused env before later t panic waiting called h e) orderly v =
      subst (IsFunded token_id oracle_id) (sym e)
        (refused-IsFunded token_id oracle_id s v before later t waiting)
  Step-IsFunded {s} (resolved env before later a used c waiting reports h e) orderly v =
      subst (IsFunded token_id oracle_id) (sym e)
        (resolved-IsFunded token_id oracle_id s v env before later a used c waiting reports h)
  Step-IsFunded {s} (paid env before later p receiver x c waiting starts own h e) orderly v =
      subst (IsFunded token_id oracle_id) (sym e)
        (paid-IsFunded token_id oracle_id s v env before later p receiver x c waiting starts own h)
  Step-IsFunded {s} (passed before later p waiting e) orderly v =
      subst (IsFunded token_id oracle_id) (sym e)
        (passed-IsFunded token_id oracle_id s v before later p waiting)
  Step-IsFunded {s} (oracle_called w st e) orderly v =
      subst (IsFunded token_id oracle_id) (sym e)
        (oracle_called-IsFunded token_id oracle_id s v w st orderly)
  Step-IsFunded {s} (token_called c st e) orderly v =
      subst (IsFunded token_id oracle_id) (sym e)
        (token_called-IsFunded token_id oracle_id s v c st orderly)

  pub Reachable-IsFunded :
      {s : System} (reached : Reachable token_id oracle_id s)
      → IsOrderly token_id oracle_id reached
      → IsFunded token_id oracle_id s
  Reachable-IsFunded (created c env whitelist config r e) (uses, bonds, whole) =
      subst (IsFunded token_id oracle_id) (sym e)
        (created-IsFunded c env whitelist config r uses bonds whole)
  Reachable-IsFunded (continued r st) (orderly, before) =
      Step-IsFunded st orderly (Reachable-IsFunded r before)

  -- In every state that any reachable token contract and a fresh oracle reach by receipts that are
  -- orderly: the oracle's balance in the token contract covers, together, what was moved to it and not
  -- yet answered, what its answers give back, what its promises still send, and, for each active
  -- request, the stakes on it, its validity bond and its fee. In an orderly history every configuration
  -- of the oracle uses this token, the validity bond and the minimal resolution bond of the first one
  -- are not both zero, listed requesters have no multiplier or one of 10000 or more, only
  -- `ft_transfer_call` makes the token contract call the oracle, and the oracle calls the token contract
  -- by its promises alone.
  pub balance_covers :
      {s : System} (reached : Reachable token_id oracle_id s)
      → IsOrderly token_id oracle_id reached
      → sum_by (λ t. t.amount) s.incoming
          + sum_by unused s.answers
          + sent_all s.oracle.storage.promises
          + sum_to (length s.oracle.contract.data_requests) (held s.oracle)
        ≤ ft_balance_of oracle_id s.token
  balance_covers {s} reached orderly =
      IsFunded-covered token_id oracle_id s (Reachable-IsFunded reached orderly)
