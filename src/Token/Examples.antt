-- ===== src/Token/Examples.antt =====
-- The theorems on the token contract (token/src) at small states.
use oracle_monorepo_near.Base.{
  false, none, some, [], ◌∷◌, ◌+◌, ◌≡◌, ◌≢◌, refl, ◌⊎◌, arith, ==_false, String_eq,
}
use oracle_monorepo_near.Near.{ok, err, get, insert, remove, checked_add, checked_sub, checked_mul}
use oracle_monorepo_near.Token.State.{
  AccountId, Balance, TokenContract, Promise, PromiseResult, Env, new,
}
use oracle_monorepo_near.Token.Internal.{internal_deposit, internal_withdraw, internal_transfer}
use oracle_monorepo_near.Token.Registration.{storage_deposit, storage_minimum_balance}
use oracle_monorepo_near.Token.Core.{ft_balance_of, refund, unused_amount, ft_resolve_transfer}
use oracle_monorepo_near.Token.Wrap.{near_deposit, near_withdraw}
use oracle_monorepo_near.Token.Supply.{IsBacked}
use oracle_monorepo_near.Token.History.{created, called, Step, Reachable-IsBacked}
use oracle_monorepo_near.Token.Transfers.{
  internal_transfer_moves, near_withdraw-near_deposit, ft_resolve_transfer_moves,
}

abbrev env_of : AccountId → Balance → PromiseResult → Env
env_of caller attached result = record {
  predecessor_account_id = caller;
  current_account_id = "token.near";
  attached_deposit = attached;
  prepaid_gas = 1000;
  promise_result = result;
  parse_amount = λ bytes. some 4;
}

abbrev alice : AccountId
alice = "alice.near"

abbrev bob : AccountId
bob = "bob.near"

abbrev two : TokenContract
two = record {
  accounts = (alice, 10) ∷ (bob, 3) ∷ [];
  total_supply = 13;
  account_storage_usage = 1;
}

moved : TokenContract
unfolding internal_transfer internal_deposit internal_withdraw get insert checked_add checked_sub
moved = elim (internal_transfer alice bob 4 two) [ ok c ↦ c | err e ↦ two ]

internal_transfer_moves_example :
    (alice ≢ bob)
    × (ft_balance_of alice moved + 4 ≡ ft_balance_of alice two)
    × (ft_balance_of bob moved ≡ ft_balance_of bob two + 4)
    × ((x : AccountId) → (x ≡ alice) ⊎ (x ≡ bob) ⊎ (get x moved.accounts ≡ get x two.accounts))
    × (moved.total_supply ≡ 13)
unfolding moved
internal_transfer_moves_example = internal_transfer_moves alice bob 4 two {c' = moved} refl

deposited : TokenContract
unfolding near_deposit internal_deposit get insert checked_add
deposited = elim (near_deposit (env_of bob 5 PromiseResult.not_ready) two) [
  | ok c ↦ c
  | err e ↦ two
]

near_withdraw-near_deposit_example :
    (c : TokenContract) × (near_withdraw (env_of bob 1 PromiseResult.not_ready) 5 deposited
      ≡ ok (Promise.transfer bob 6, c))
    × ((x : AccountId) → get x c.accounts ≡ get x two.accounts)
    × (c.total_supply ≡ 13)
unfolding deposited
near_withdraw-near_deposit_example =
    near_withdraw-near_deposit (env_of bob 5 PromiseResult.not_ready)
      (env_of bob 1 PromiseResult.not_ready) two {c' = deposited} refl refl refl (omega arith)

-- Bob used 6 of the 10 that alice sent, but has only 3 left of them.
resolved : Balance × TokenContract
unfolding ft_resolve_transfer refund unused_amount get insert checked_add checked_sub
resolved =
    elim (ft_resolve_transfer (env_of "token.near" 0 (PromiseResult.successful [])) alice bob 10
      two) [ ok r ↦ r | err e ↦ (0, two) ]

ft_resolve_transfer_moves_example :
    (ft_balance_of bob resolved.1 + 3 ≡ ft_balance_of bob two)
    × ((get alice resolved.1.accounts ≡ some 13)
        × (resolved.0 + 3 ≡ 10)
        × (resolved.1.total_supply ≡ 13))
unfolding resolved ft_balance_of
ft_resolve_transfer_moves_example =
    ft_resolve_transfer_moves (env_of "token.near" 0 (PromiseResult.successful [])) alice bob 10 4
      two {used = resolved.0} {c' = resolved.1} (==_false refl) refl refl

fresh : TokenContract
unfolding new insert remove
fresh = elim (new false 100) [ ok c ↦ c | err e ↦ two ]

registered : TokenContract
unfolding fresh storage_deposit storage_minimum_balance get insert checked_mul
registered =
    elim (storage_deposit (env_of bob 1000000000000000000000 PromiseResult.not_ready) none fresh) [
      | ok r ↦ r.1
      | err e ↦ two
    ]

wrapped : TokenContract
unfolding registered near_deposit internal_deposit checked_add
wrapped = elim (near_deposit (env_of bob 5 PromiseResult.not_ready) registered) [
  | ok c ↦ c
  | err e ↦ two
]

Reachable-IsBacked_example : IsBacked wrapped
unfolding wrapped
Reachable-IsBacked_example = Reachable-IsBacked (
    called {c' = wrapped}
      (called {c' = registered} (created {c = fresh} false 100 refl) (
        Step.register (env_of bob 1000000000000000000000 PromiseResult.not_ready) none
          (record { total = 1000000000000000000000; available = 1000000000000000000000 }, refl)))
      (Step.deposit (env_of bob 5 PromiseResult.not_ready) refl))
