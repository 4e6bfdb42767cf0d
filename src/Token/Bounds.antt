-- ===== src/Token/Bounds.antt =====
-- The bounds of balances and of the supply of the token contract (token/src/lib.rs).
use oracle_monorepo_near.Base.{
  refl, ◌+◌, ◌≤◌, ◌<◌, ◌≡◌, ◌≢◌, sym, inl, inr, arith, String_eq, ne→==,
}
use oracle_monorepo_near.Near.{
  Result-cases, ok, get, get-remove, remove, checked_add, checked_sub, u128_mod, le-sum_where,
  sum_where-remove,
}
use oracle_monorepo_near.Token.State.{AccountId, Balance, TokenContract, Env, Promise, new}
use oracle_monorepo_near.Token.Internal.{internal_transfer, internal_withdraw}
use oracle_monorepo_near.Token.Core.{ft_resolve_transfer, ft_balance_of, refund}
use oracle_monorepo_near.Token.Wrap.{near_deposit, near_withdraw}
use oracle_monorepo_near.Token.Registration.{storage_deposit, storage_withdraw}
use oracle_monorepo_near.Token.Supply.{
  any_account, IsBacked, internal_transfer-Shifts, internal_withdraw-Shifts,
}
use oracle_monorepo_near.Token.Moves.{ft_transfer-eq-ok, ft_transfer_call-eq-ok}
use oracle_monorepo_near.Token.History.{
  Step, transfer, transfer_call, resolve_transfer, deposit, withdraw, register, unregister,
  Reachable, created, called,
}

-- The supply fits 128 bits.
abbrev pub Fits : TokenContract → Type 0
Fits c = c.total_supply < u128_mod

internal_transfer-Fits :
    (a b : AccountId) (x : Balance) (c : TokenContract) {c' : TokenContract}
    → internal_transfer a b x c ≡ ok c'
    → Fits c
    → Fits c'
internal_transfer-Fits a b x c h small = ground (arith, internal_transfer-Shifts a b x c h)

pub ft_resolve_transfer-Fits :
    (env : Env) (a b : AccountId) (x : Balance) (c : TokenContract) {used : Balance}
    {c' : TokenContract}
    → ft_resolve_transfer env a b x c ≡ ok (used, c')
    → Fits c
    → Fits c'
unfolding ft_resolve_transfer refund checked_add checked_sub
ft_resolve_transfer-Fits env a b x c h small = ground arith

near_deposit-Fits :
    (env : Env) (c : TokenContract) {c' : TokenContract} → near_deposit env c ≡ ok c' → Fits c'
unfolding near_deposit checked_add
near_deposit-Fits env c h = ground arith

near_withdraw-Fits :
    (env : Env) (x : Balance) (c : TokenContract) {p : Promise} {c' : TokenContract}
    → near_withdraw env x c ≡ ok (p, c')
    → Fits c
    → Fits c'
unfolding near_withdraw checked_sub checked_add
near_withdraw-Fits env x c h small =
    elim (Result-cases (internal_withdraw env.predecessor_account_id x c)) [
      | inl (e, panics) ↦ absurd (ground arith)
      | inr (m, done) ↦ ground (arith, internal_withdraw-Shifts env.predecessor_account_id x c done)
    ]

pub Step-Fits : {c c' : TokenContract} → Step c c' → Fits c → Fits c'
unfolding storage_deposit storage_withdraw checked_add
Step-Fits {c} (transfer env b x h) small =
    internal_transfer-Fits env.predecessor_account_id b x c (ft_transfer-eq-ok env b x c h) small
Step-Fits {c} (transfer_call env b x msg (p, h)) small =
    internal_transfer-Fits env.predecessor_account_id b x c (ft_transfer_call-eq-ok env b x msg c h)
      small
Step-Fits {c} (resolve_transfer env a b x used h) small =
    ft_resolve_transfer-Fits env a b x c {used = used} h small
Step-Fits {c} (deposit env h) small = near_deposit-Fits env c h
Step-Fits {c} (withdraw env x (p, h)) small = near_withdraw-Fits env x c {p = p} h small
Step-Fits {c} (register env a (r, h)) small = ground arith
Step-Fits {c} (unregister env x (p, r, h)) small = ground arith

pub Reachable-Fits : {c : TokenContract} → Reachable c → Fits c
unfolding new
Reachable-Fits (created state_exists measured h) = ground arith
Reachable-Fits (called r st) = Step-Fits st (Reachable-Fits r)

-- Two accounts hold together at most the supply.
pub two_balances :
    (a b : AccountId) (c : TokenContract)
    → a ≢ b
    → IsBacked c
    → ft_balance_of a c + ft_balance_of b c ≤ c.total_supply
unfolding ft_balance_of
two_balances a b c apart v =
    let other : get b (remove a c.accounts) ≡ get b c.accounts =
      rw (get-remove, ne→== (λ (e : b ≡ a). apart (sym e))) in
    ground (
      arith,
      other,
      v.supply,
      sum_where-remove any_account a c.accounts,
      le-sum_where any_account b (remove a c.accounts),
    )

pub one_balance :
    (a : AccountId) (c : TokenContract) → IsBacked c → ft_balance_of a c ≤ c.total_supply
unfolding ft_balance_of
one_balance a c v = omega (arith, v.supply, le-sum_where any_account a c.accounts refl)
