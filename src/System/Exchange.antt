-- ===== src/System/Exchange.antt =====
-- The receipts of a transfer from the token contract (token/src) to the oracle (oracle/src), against
-- the balance of the oracle.
use oracle_monorepo_near.Base.{
  ℕ, ◌≡◌, ap, none, some, List, [], ◌∷◌, ◌++◌, arith, sum_by, String, String_eq,
}
use oracle_monorepo_near.Near.{ok}
use oracle_monorepo_near.Token.State.{TokenContract, Env as TokenEnv, on_transfer_then_resolve}
use oracle_monorepo_near.Token.Core.{ft_transfer_call, ft_resolve_transfer}
use oracle_monorepo_near.Token.Calls.{ft_transfer_call-IsBacked, ft_resolve_transfer-IsBacked}
use oracle_monorepo_near.Token.Transfers.{internal_transfer_moves}
use oracle_monorepo_near.Token.Moves.{ft_transfer_call-eq-ok}
use oracle_monorepo_near.Token.Bounds.{Step-Fits, ft_resolve_transfer-Fits}
use oracle_monorepo_near.Token.History as TokenHistory
use oracle_monorepo_near.Token.History.{Step-IsBacked}
use oracle_monorepo_near.Oracle.Types.{AccountId, Balance, Env, World, value}
use oracle_monorepo_near.Oracle.Receiver.{ft_on_transfer}
use oracle_monorepo_near.Oracle.Consistency.Steps.{Step as OracleStep, tokens_received}
use oracle_monorepo_near.System.{System, Transfer, Answer, unused, Reports}
use oracle_monorepo_near.System.Queues.{sum_by-append, sum_by-taken}
use oracle_monorepo_near.System.Messages.{message-kept, sends-paid}
use oracle_monorepo_near.System.Growth.{message-Grows}
use oracle_monorepo_near.System.Funds.{
  IsFunded, Step-IsSettled, Step-IsBounded, after, after-taken, after-paid,
}
use oracle_monorepo_near.System.Resolutions.{ft_resolve_transfer-takes}

module _ (token_id oracle_id : AccountId) (s : System) (v : IsFunded token_id oracle_id s) where
  pub transferred-IsFunded :
      (env : TokenEnv) (x : Balance) (msg : String) (gas : ℕ) (c : TokenContract)
      → ft_transfer_call env oracle_id x msg s.token
        ≡ ok (on_transfer_then_resolve env.predecessor_account_id oracle_id x msg gas, c)
      → IsFunded token_id oracle_id (record s {
        token = c;
        incoming =
            s.incoming
            ++ record { sender = env.predecessor_account_id; amount = x; msg = msg } ∷ [];
      })
  transferred-IsFunded env x msg gas c h =
      let (_, _, gets, _, _) =
        internal_transfer_moves env.predecessor_account_id oracle_id x s.token
          (ft_transfer_call-eq-ok env oracle_id x msg s.token h) in
      let t : Transfer = record { sender = env.predecessor_account_id; amount = x; msg = msg } in
      record {
        accounts = v.accounts;
        bounded = v.bounded;
        settled = v.settled;
        tokens = v.tokens;
        backed = ft_transfer_call-IsBacked env oracle_id x msg s.token v.backed h;
        fits = Step-Fits (TokenHistory.transfer_call env oracle_id x msg (_, h)) v.fits;
        funds = λ n all. omega (
          arith,
          v.funds n all,
          gets,
          sum_by-append (λ (q : Transfer). q.amount) s.incoming (t ∷ []),
        );
      }

  pub received-IsFunded :
      (env : Env) (before later : List Transfer) (t : Transfer) (unspent : Balance) (w : World)
      → s.incoming ≡ before ++ t ∷ later
      → ft_on_transfer env t.sender t.amount t.msg s.oracle ≡ ok (value unspent, w)
      → IsFunded token_id oracle_id (record s {
        oracle = w;
        incoming = before ++ later;
        answers = s.answers ++ record { transfer = t; unspent = some unspent } ∷ [];
      })
  received-IsFunded env before later t unspent w waiting h =
      let st : OracleStep s.oracle w =
        tokens_received env t.sender t.amount t.msg (value unspent) h in
      let (more, token) =
        message-Grows token_id oracle_id env t.sender t.amount t.msg s.oracle {r = value unspent}
          h in
      let answer : Answer = record { transfer = t; unspent = some unspent } in
      record {
        accounts = after v.accounts st;
        bounded = Step-IsBounded token_id oracle_id s v st tt;
        settled = Step-IsSettled v.accounts st tt v.settled;
        tokens = token v.tokens;
        backed = v.backed;
        fits = v.fits;
        funds = λ n all. omega (
          arith,
          v.funds n (omega arith),
          more,
          after-taken n v.accounts st,
          after-paid n v.accounts st,
          message-kept env t.sender t.amount unspent t.msg s.oracle w n h,
          sends-paid st n (omega arith),
          ap (sum_by (λ (q : Transfer). q.amount)) waiting,
          sum_by-taken (λ (q : Transfer). q.amount) before later t,
          sum_by-append unused s.answers (answer ∷ []),
        );
      }

  pub refused-IsFunded :
      (before later : List Transfer) (t : Transfer)
      → s.incoming ≡ before ++ t ∷ later
      → IsFunded token_id oracle_id (record s {
        incoming = before ++ later;
        answers = s.answers ++ record { transfer = t; unspent = none } ∷ [];
      })
  refused-IsFunded before later t waiting =
      let answer : Answer = record { transfer = t; unspent = none } in
      record {
        accounts = v.accounts;
        bounded = v.bounded;
        settled = v.settled;
        tokens = v.tokens;
        backed = v.backed;
        fits = v.fits;
        funds = λ n all. omega (
          arith,
          v.funds n all,
          ap (sum_by (λ (q : Transfer). q.amount)) waiting,
          sum_by-taken (λ (q : Transfer). q.amount) before later t,
          sum_by-append unused s.answers (answer ∷ []),
        );
      }

  pub resolved-IsFunded :
      (env : TokenEnv) (before later : List Answer) (a : Answer) (used : Balance)
      (c : TokenContract)
      → s.answers ≡ before ++ a ∷ later
      → Reports env a.unspent
      → ft_resolve_transfer env a.transfer.sender oracle_id a.transfer.amount s.token ≡ ok (used, c)
      → IsFunded token_id oracle_id (record s { token = c; answers = before ++ later })
  resolved-IsFunded env before later a used c waiting reports h = record {
    accounts = v.accounts;
    bounded = v.bounded;
    settled = v.settled;
    tokens = v.tokens;
    backed =
        ft_resolve_transfer-IsBacked env a.transfer.sender oracle_id a.transfer.amount s.token
          {used = used} v.backed h;
    fits =
        ft_resolve_transfer-Fits env a.transfer.sender oracle_id a.transfer.amount s.token
          {used = used} h v.fits;
    funds = λ n all. omega (
      arith,
      v.funds n all,
      ft_resolve_transfer-takes env a.transfer.sender oracle_id a.transfer.amount a.unspent s.token
          {used = used} reports h,
      ap (sum_by unused) waiting,
      sum_by-taken unused before later a,
    );
  }
