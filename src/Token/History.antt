-- ===== src/Token/History.antt =====
-- Any history of calls of the token contract (token/src), from its creation.
use oracle_monorepo_near.Base.{ℕ, ◌≡◌, Bool, Option, arith, String, String_eq}
use oracle_monorepo_near.Near.{ok, insert, remove, sum_where}
use oracle_monorepo_near.Token.State.{AccountId, Balance, TokenContract, Env, new}
use oracle_monorepo_near.Token.Core.{ft_transfer, ft_transfer_call, ft_resolve_transfer}
use oracle_monorepo_near.Token.Wrap.{near_deposit, near_withdraw}
use oracle_monorepo_near.Token.Registration.{storage_deposit, storage_withdraw}
use oracle_monorepo_near.Token.Supply.{IsBacked}
use oracle_monorepo_near.Token.Calls.{
  near_deposit-IsBacked, near_withdraw-IsBacked, ft_transfer-IsBacked, ft_transfer_call-IsBacked,
  ft_resolve_transfer-IsBacked, storage_deposit-IsBacked, storage_withdraw-IsBacked,
}

-- One call that returned. A call that panics leaves the state alone and is no step.
pub data Step (c c' : TokenContract) : Type 0 where
  transfer :
      (env : Env) (receiver : AccountId) (amount : Balance)
      → ft_transfer env receiver amount c ≡ ok c'
      → Step c c'
  transfer_call :
      (env : Env) (receiver : AccountId) (amount : Balance) (msg : String)
      → ((p : _) × (ft_transfer_call env receiver amount msg c ≡ ok (p, c')))
      → Step c c'
  resolve_transfer :
      (env : Env) (sender receiver : AccountId) (amount used : Balance)
      → ft_resolve_transfer env sender receiver amount c ≡ ok (used, c')
      → Step c c'
  deposit : (env : Env) → near_deposit env c ≡ ok c' → Step c c'
  withdraw :
      (env : Env) (amount : Balance)
      → ((p : _) × (near_withdraw env amount c ≡ ok (p, c')))
      → Step c c'
  register :
      (env : Env) (a : Option AccountId)
      → ((r : _) × (storage_deposit env a c ≡ ok (r, c')))
      → Step c c'
  unregister :
      (env : Env) (amount : Balance)
      → ((p : _) × (r : _) × (storage_withdraw env amount c ≡ ok (p, r, c')))
      → Step c c'

-- The states that a fresh contract can reach.
pub data Reachable : TokenContract → Type 0 where
  created :
      {c : TokenContract} (state_exists : Bool) (measured : ℕ)
      → new state_exists measured ≡ ok c
      → Reachable c
  called : {c c' : TokenContract} → Reachable c → Step c c' → Reachable c'

pub Step-IsBacked : {c c' : TokenContract} → Step c c' → IsBacked c → IsBacked c'
Step-IsBacked {c} (transfer env r x h) v = ft_transfer-IsBacked env r x c v h
Step-IsBacked {c} (transfer_call env r x msg h) v = ft_transfer_call-IsBacked env r x msg c v h.1
Step-IsBacked {c} (resolve_transfer env s r x used h) v =
    ft_resolve_transfer-IsBacked env s r x c v h
Step-IsBacked {c} (deposit env h) v = near_deposit-IsBacked env c v h
Step-IsBacked {c} (withdraw env x h) v = near_withdraw-IsBacked env x c v h.1
Step-IsBacked {c} (register env a h) v = storage_deposit-IsBacked env a c v h.1
Step-IsBacked {c} (unregister env x h) v = storage_withdraw-IsBacked env x c v h.2

new-IsBacked :
    (state_exists : Bool) (measured : ℕ) {c : TokenContract}
    → new state_exists measured ≡ ok c
    → IsBacked c
unfolding new insert remove sum_where
new-IsBacked state_exists measured h = ground arith

-- In every state that a fresh token contract can reach by calls that return, no account has two
-- entries and the balances add up to the total supply.
pub Reachable-IsBacked : {c : TokenContract} → Reachable c → IsBacked c
Reachable-IsBacked (created state_exists measured h) = new-IsBacked state_exists measured h
Reachable-IsBacked (called r st) = Step-IsBacked st (Reachable-IsBacked r)
