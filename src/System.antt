-- ===== src/System.antt =====
-- The token contract (token/src) and the oracle (oracle/src) as one system: each contract's calls, and
-- the receipts by which `ft_transfer_call`, `ft_on_transfer` and `ft_resolve_transfer` follow each
-- other and the promises of the oracle reach the token contract.
pub mod Queues
pub mod Balances
pub mod Flows
pub mod Messages
pub mod Ends
pub mod Growth
pub mod Funds
pub mod Resolutions
pub mod Exchange
pub mod Running
pub mod Histories
pub mod Payments
pub mod Refunds
pub mod Claims
mod Examples
use oracle_monorepo_near.Base.{ℕ, ◌≡◌, ◌≢◌, min, Option, none, some, List, [], ◌∷◌, ◌++◌, String}
use oracle_monorepo_near.Near.{Panic, ok, err}
use oracle_monorepo_near.Token.State.{
  TokenContract, Env as TokenEnv, failed as call_failed, successful, on_transfer_then_resolve,
}
use oracle_monorepo_near.Token.Core.{
  ft_transfer, ft_transfer_call, ft_resolve_transfer, parsed_or_all,
}
use oracle_monorepo_near.Token.History as TokenHistory
use oracle_monorepo_near.Oracle.Types.{
  AccountId, Balance, Env, World, Promise, value, OracleConfig, Requester,
}
use oracle_monorepo_near.Oracle.Configuration
use oracle_monorepo_near.Oracle.Receiver.{ft_on_transfer}
use oracle_monorepo_near.Oracle.Consistency.Steps.{
  empty_storage, Step as OracleStep, tokens_received, requested, staked, configured, listed,
}
use oracle_monorepo_near.Oracle.Consistency.Pricing.{HasBonds, IsWhole}
use oracle_monorepo_near.Oracle.Consistency.Fairness.{AreWholeIn}

-- Tokens that were moved to the oracle, for which it has not been called yet.
pub record Transfer : Type 0 where
  pub sender : AccountId
  pub amount : Balance
  pub msg : String

-- What the oracle answered to a transfer, for which the token contract has not been called back yet:
-- the amount that goes back, or nothing where the call failed.
pub record Answer : Type 0 where
  pub transfer : Transfer
  pub unspent : Option Balance

-- The promises of the oracle that were not run yet are those of its storage.
pub record System : Type 0 where
  pub token : TokenContract
  pub oracle : World
  pub incoming : List Transfer
  pub answers : List Answer

-- What of the transfer goes back.
abbrev pub unused : Answer → Balance
unused a = parsed_or_all a.transfer.amount a.unspent

-- The call that a promise begins with, and what is left of the promise after it.
abbrev pub first : Promise → Promise
first (Promise.and_then p q) = first p
first (Promise.transfer a x) = Promise.transfer a x
first (Promise.ft_transfer t a x) = Promise.ft_transfer t a x
first (Promise.set_outcome c a o tags) = Promise.set_outcome c a o tags

abbrev pub before_next : Option Promise → Promise → Promise
before_next none q = q
before_next (some p) q = Promise.and_then p q

abbrev pub left : Promise → Option Promise
left (Promise.and_then p q) = some (before_next (left p) q)
left (Promise.transfer a x) = none
left (Promise.ft_transfer t a x) = none
left (Promise.set_outcome c a o tags) = none

abbrev pub onto : Option Promise → List Promise → List Promise
onto none ps = ps
onto (some p) ps = p ∷ ps

abbrev pub with_promises : List Promise → World → World
with_promises ps w = record w { storage = record (w.storage) { promises = ps } }

-- What the host tells the token contract of the answer.
abbrev pub Reports : TokenEnv → Option Balance → Type 0
Reports env (some u) =
    (bytes : List ℕ) × (env.promise_result ≡ successful bytes) × (env.parse_amount bytes ≡ some u)
Reports env none = env.promise_result ≡ call_failed

-- The accounts of the two contracts.
module _ (token_id oracle_id : AccountId) where
  -- One receipt. A call that panics leaves its contract alone: where nothing follows it, it is no step.
  pub data Step (s s' : System) : Type 0 where
    transferred :
        (env : TokenEnv) (x : Balance) (msg : String) (gas : ℕ) (c : TokenContract)
        → ft_transfer_call env oracle_id x msg s.token
          ≡ ok (on_transfer_then_resolve env.predecessor_account_id oracle_id x msg gas, c)
        → s' ≡ record s {
          token = c;
          incoming =
              s.incoming
              ++ record { sender = env.predecessor_account_id; amount = x; msg = msg } ∷ [];
        }
        → Step s s'
    received :
        (env : Env) (before after : List Transfer) (t : Transfer) (unspent : Balance) (w : World)
        → s.incoming ≡ before ++ t ∷ after
        → env.predecessor_account_id ≡ token_id
        → ft_on_transfer env t.sender t.amount t.msg s.oracle ≡ ok (value unspent, w)
        → s' ≡ record s {
          oracle = w;
          incoming = before ++ after;
          answers = s.answers ++ record { transfer = t; unspent = some unspent } ∷ [];
        }
        → Step s s'
    refused :
        (env : Env) (before after : List Transfer) (t : Transfer) (e : Panic)
        → s.incoming ≡ before ++ t ∷ after
        → env.predecessor_account_id ≡ token_id
        → ft_on_transfer env t.sender t.amount t.msg s.oracle ≡ err e
        → s' ≡ record s {
          incoming = before ++ after;
          answers = s.answers ++ record { transfer = t; unspent = none } ∷ [];
        }
        → Step s s'
    resolved :
        (env : TokenEnv) (before after : List Answer) (a : Answer) (used : Balance)
        (c : TokenContract)
        → s.answers ≡ before ++ a ∷ after
        → Reports env a.unspent
        → ft_resolve_transfer env a.transfer.sender oracle_id a.transfer.amount s.token
          ≡ ok (used, c)
        → s' ≡ record s { token = c; answers = before ++ after }
        → Step s s'
    paid :
        (env : TokenEnv) (before after : List Promise) (p : Promise) (receiver : AccountId)
        (x : Balance) (c : TokenContract)
        → s.oracle.storage.promises ≡ before ++ p ∷ after
        → first p ≡ Promise.ft_transfer token_id receiver x
        → env.predecessor_account_id ≡ oracle_id
        → ft_transfer env receiver x s.token ≡ ok c
        → s'
          ≡ record s { token = c; oracle = with_promises (before ++ onto (left p) after) s.oracle }
        → Step s s'
    -- A call of another contract, or a transfer that panicked.
    passed :
        (before after : List Promise) (p : Promise)
        → s.oracle.storage.promises ≡ before ++ p ∷ after
        → s' ≡ record s { oracle = with_promises (before ++ onto (left p) after) s.oracle }
        → Step s s'
    -- Any other call of the oracle, and of the token contract.
    oracle_called :
        (w : World) (st : OracleStep s.oracle w) → s' ≡ record s { oracle = w } → Step s s'
    token_called :
        (c : TokenContract) (st : TokenHistory.Step s.token c)
        → s' ≡ record s { token = c }
        → Step s s'

  -- From any state of the token contract and a fresh oracle on.
  pub data Reachable : System → Type 0 where
    created :
        {s : System} (c : TokenContract) (env : Env) (whitelist : Option (List Requester))
        (config : OracleConfig)
        → TokenHistory.Reachable c
        → s ≡ record {
          token = c;
          oracle = Configuration.new env whitelist config empty_storage;
          incoming = [];
          answers = [];
        }
        → Reachable s
    continued : {s s' : System} → Reachable s → Step s s' → Reachable s'

  -- The configuration takes payments and stakes in this token.
  abbrev pub UsesToken : OracleConfig → Type 0
  UsesToken c = (c.payment_token ≡ token_id) × (c.stake_token ≡ token_id)

  -- Only receipts of `ft_transfer_call` come from the account of the token contract; governance keeps
  -- to this token, and to requesters with no multiplier or one of 10000 or more.
  abbrev pub IsOutside : {w w' : World} → OracleStep w w' → Type 0
  IsOutside (tokens_received env a x msg r h) = env.predecessor_account_id ≢ token_id
  IsOutside (requested env a x p r h) = env.predecessor_account_id ≢ token_id
  IsOutside (staked env a x p r h) = env.predecessor_account_id ≢ token_id
  IsOutside (configured env c h) = UsesToken c
  IsOutside (listed env r h) = IsWhole r
  IsOutside _ = Unit

  -- The oracle calls the token contract by its promises only, and what is moved to it with a call is
  -- among the transfers of the system.
  abbrev pub IsForeign : {c c' : TokenContract} → TokenHistory.Step c c' → Type 0
  IsForeign (TokenHistory.transfer env b x h) = env.predecessor_account_id ≢ oracle_id
  IsForeign (TokenHistory.transfer_call env b x msg h) =
      (env.predecessor_account_id ≢ oracle_id) × (b ≢ oracle_id)
  IsForeign (TokenHistory.resolve_transfer env a b x used h) = b ≢ oracle_id
  IsForeign (TokenHistory.withdraw env x h) = env.predecessor_account_id ≢ oracle_id
  IsForeign (TokenHistory.unregister env x h) = env.predecessor_account_id ≢ oracle_id
  IsForeign _ = Unit

  abbrev pub IsOrderlyStep : {s s' : System} → Step s s' → Type 0
  IsOrderlyStep (oracle_called w st e) = IsOutside st
  IsOrderlyStep (token_called c st e) = IsForeign st
  IsOrderlyStep _ = Unit

  -- The first configuration uses the token and has a bond, and all that follows is orderly.
  abbrev pub IsOrderly : {s : System} → Reachable s → Type 0
  IsOrderly (created c env whitelist config r e) =
      UsesToken config × HasBonds config × AreWholeIn whitelist
  IsOrderly (continued r st) = IsOrderlyStep st × IsOrderly r
