-- ===== src/System/Examples/Tokens.antt =====
-- The token contract (token/src) in the history of the tests.
use oracle_monorepo_near.Base.{
  refl, false, Option, none, some, [], String, String_eq, ◌==◌, if◌then◌else◌,
}
use oracle_monorepo_near.Near.{
  Result, ok, err, get, insert, remove, checked_mul, checked_sub, checked_add,
}
use oracle_monorepo_near.Token.State.{TokenContract, Env as TokenEnv, PromiseResult, new}
use oracle_monorepo_near.Token.Internal.{
  internal_transfer, internal_withdraw, internal_deposit, assert_self,
}
use oracle_monorepo_near.Token.Core.{ft_transfer_call, ft_resolve_transfer, refund, unused_amount}
use oracle_monorepo_near.Token.Wrap.{near_deposit}
use oracle_monorepo_near.Token.Registration.{
  AccountStorageBalance, storage_deposit, storage_minimum_balance,
}
use oracle_monorepo_near.Token.History as TokenHistory
use oracle_monorepo_near.Oracle.Types.{AccountId, Balance, Env, Payload}
use oracle_monorepo_near.Oracle.Examples.Worlds.{yea, env_of}
use oracle_monorepo_near.Oracle.Examples.Histories.{question}
use oracle_monorepo_near.System.{Transfer}

abbrev pub ok_or {ℓ} : {A : Type ℓ} → A → Result A → A
ok_or d (ok x) = x
ok_or d (err e) = d

abbrev pub alice : AccountId
alice = "alice.near"

abbrev pub oracle : AccountId
oracle = "oracle.near"

-- The host of the token contract: what is attached, and an answer of 100.
abbrev pub by : AccountId → Balance → PromiseResult → TokenEnv
by caller attached result = record {
  predecessor_account_id = caller;
  current_account_id = "token.near";
  attached_deposit = attached;
  prepaid_gas = 30000000000000;
  promise_result = result;
  parse_amount = λ bytes. some 100;
}

abbrev pub payload_of : String → Option Payload
payload_of msg =
    if msg == "ask"
    then some (Payload.new_data_request question)
    else some (Payload.stake_data_request (record { id = 0; outcome = yea }))

abbrev pub host : Env
host = record (env_of "token.near") { parse_payload = payload_of }

abbrev pub registering : TokenEnv
registering = by alice 1000000000000000000000 PromiseResult.not_ready

abbrev pub none_yet : TokenContract
none_yet = record { accounts = []; total_supply = 0; account_storage_usage = 100 }

pub c0 : TokenContract
unfolding new insert remove
c0 = ok_or none_yet (new false 100)

pub c1 : TokenContract
unfolding c0 storage_deposit storage_minimum_balance get insert checked_mul
c1 = elim (storage_deposit registering (some oracle) c0) [ ok r ↦ r.1 | err e ↦ none_yet ]

pub c2 : TokenContract
unfolding c1
c2 = elim (storage_deposit registering none c1) [ ok r ↦ r.1 | err e ↦ none_yet ]

pub c3 : TokenContract
unfolding c2 near_deposit internal_deposit checked_add
c3 = ok_or none_yet (near_deposit (by alice 1000 PromiseResult.not_ready) c2)

abbrev pub paid_for : AccountStorageBalance
paid_for = record { total = 1000000000000000000000; available = 1000000000000000000000 }

pub token_history : TokenHistory.Reachable c3
unfolding c3
token_history =
    TokenHistory.called {c' = c3}
      (TokenHistory.called {c' = c2}
        (TokenHistory.called {c' = c1} (TokenHistory.created {c = c0} false 100 refl)
          (TokenHistory.register registering (some oracle) (paid_for, refl)))
        (TokenHistory.register registering none (paid_for, refl)))
      (TokenHistory.deposit (by alice 1000 PromiseResult.not_ready) refl)

abbrev pub asked : Transfer
asked = record { sender = alice; amount = 200; msg = "ask" }

abbrev pub staked : Transfer
staked = record { sender = alice; amount = 300; msg = "yes" }

pub c4 : TokenContract
unfolding c3 ft_transfer_call internal_transfer internal_withdraw checked_sub
c4 = elim (ft_transfer_call (by alice 1 PromiseResult.not_ready) oracle 200 "ask" c3) [
  | ok r ↦ r.1
  | err e ↦ none_yet
]

unfoldable pub c5 : TokenContract
unfolding c4
c5 = elim (ft_transfer_call (by alice 1 PromiseResult.not_ready) oracle 300 "yes" c4) [
  | ok r ↦ r.1
  | err e ↦ none_yet
]

-- Alice gets 100 of the 300 back.
unfoldable pub c6 : TokenContract
unfolding c5 ft_resolve_transfer unused_amount refund assert_self
c6 =
    elim (ft_resolve_transfer (by "token.near" 0 (PromiseResult.successful [])) alice oracle 300
      c5) [ ok r ↦ r.1 | err e ↦ none_yet ]
