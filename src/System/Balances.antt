-- ===== src/System/Balances.antt =====
-- The balance of one account, and the supply, over calls of the token contract (token/src) that are
-- made by others.
use oracle_monorepo_near.Base.{
  ◌+◌, ◌-◌, ◌≤◌, ◌≡◌, ◌≢◌, sym, Option, inl, inr, arith, Option-cases, Bool-cases, String_eq, min,
  ltb, ne→==,
}
use oracle_monorepo_near.Near.{
  Result-cases, ok, get, or_zero, get-insert, get-insert_ne, get-remove, checked_add, checked_sub,
}
use oracle_monorepo_near.Token.State.{AccountId, Balance, TokenContract, Env, Promise}
use oracle_monorepo_near.Token.Internal.{
  put, internal_transfer, internal_deposit, internal_withdraw,
}
use oracle_monorepo_near.Token.Core.{ft_resolve_transfer, ft_balance_of, refund, unused_amount}
use oracle_monorepo_near.Token.Wrap.{near_deposit, near_withdraw}
use oracle_monorepo_near.Token.Registration.{
  AccountStorageBalance, storage_deposit, storage_withdraw, storage_minimum_balance, or_sender,
}
use oracle_monorepo_near.Token.Transfers.{internal_transfer_moves}
use oracle_monorepo_near.Token.Moves.{ft_transfer-eq-ok, ft_transfer_call-eq-ok}
use oracle_monorepo_near.Token.History.{
  Step, transfer, transfer_call, resolve_transfer, deposit, withdraw, register, unregister,
}
use oracle_monorepo_near.System.{IsForeign}

pub internal_transfer-keeps :
    (a b o : AccountId) (x : Balance) (c : TokenContract) {c' : TokenContract}
    → a ≢ o
    → internal_transfer a b x c ≡ ok c'
    → ft_balance_of o c ≤ ft_balance_of o c'
unfolding ft_balance_of
internal_transfer-keeps a b o x c {c'} apart h =
    let (_, _, gets, third, _) = internal_transfer_moves a b x c h in
    elim (third o) [
      | inl e ↦ absurd (apart (sym e))
      | inr (inl e) ↦ rw e (omega (arith, gets))
      | inr (inr e) ↦ rw e (omega arith)
    ]

refund-keeps :
    (a b o : AccountId) (x u : Balance) (c : TokenContract) {used : Balance} {c' : TokenContract}
    → b ≢ o
    → refund a b x u c ≡ ok (used, c')
    → ft_balance_of o c ≤ ft_balance_of o c'
unfolding refund ft_balance_of checked_add checked_sub
refund-keeps a b o x u c {used} {c'} apart h =
    let kept = or_zero (get b c.accounts) - min (or_zero (get b c.accounts)) u in
    let taken = put b kept c in
    let same = get-insert_ne o b kept c.accounts (ne→== (λ e. apart (sym e))) in
    elim (Option-cases (get a taken.accounts)) [
      | inl gone ↦ ground (arith, same)
      | inr (v, there) ↦ ground (
        arith,
        same,
        String_eq.beq_iff o a,
        get-insert o a (v + min (or_zero (get b c.accounts)) u) taken.accounts,
      )
    ]

ft_resolve_transfer-keeps :
    (env : Env) (a b o : AccountId) (x : Balance) (c : TokenContract) {used : Balance}
    {c' : TokenContract}
    → b ≢ o
    → ft_resolve_transfer env a b x c ≡ ok (used, c')
    → ft_balance_of o c ≤ ft_balance_of o c'
unfolding ft_resolve_transfer
ft_resolve_transfer-keeps env a b o x c {used} {c'} apart h =
    elim (Result-cases (unused_amount env x)) [
      | inl (e, panics) ↦ absurd (ground arith)
      | inr (u, known) ↦ elim (Bool-cases (ltb 0 u)) [
        | inl some_left ↦ refund-keeps a b o x u c {used = used} {c' = c'} apart (ground arith)
        | inr none_left ↦ ground arith
      ]
    ]

near_deposit-keeps :
    (env : Env) (o : AccountId) (c : TokenContract) {c' : TokenContract}
    → near_deposit env c ≡ ok c'
    → ft_balance_of o c ≤ ft_balance_of o c'
unfolding near_deposit internal_deposit ft_balance_of checked_add
near_deposit-keeps env o c h =
    let a = env.predecessor_account_id in
    elim (Option-cases (get a c.accounts)) [
      | inl gone ↦ absurd (ground arith)
      | inr (v, there) ↦
          ground
            (arith, String_eq.beq_iff o a, get-insert o a (v + env.attached_deposit) c.accounts)
    ]

near_withdraw-keeps :
    (env : Env) (o : AccountId) (x : Balance) (c : TokenContract) {p : Promise} {c' : TokenContract}
    → env.predecessor_account_id ≢ o
    → near_withdraw env x c ≡ ok (p, c')
    → ft_balance_of o c ≤ ft_balance_of o c'
unfolding near_withdraw internal_withdraw ft_balance_of checked_add checked_sub
near_withdraw-keeps env o x c apart h =
    let a = env.predecessor_account_id in
    elim (Option-cases (get a c.accounts)) [
      | inl gone ↦ absurd (ground arith)
      | inr (v, there) ↦
          ground (arith, get-insert_ne o a (v - x) c.accounts (ne→== (λ e. apart (sym e))))
    ]

storage_deposit-keeps :
    (env : Env) (a : Option AccountId) (o : AccountId) (c : TokenContract)
    {r : AccountStorageBalance} {c' : TokenContract}
    → storage_deposit env a c ≡ ok (r, c')
    → ft_balance_of o c ≤ ft_balance_of o c'
unfolding storage_deposit ft_balance_of
storage_deposit-keeps env a o c h = elim (Result-cases (storage_minimum_balance c)) [
  | inl (e, panics) ↦ absurd (ground arith)
  | inr (minimum, known) ↦
      ground
        (arith, String_eq.beq_iff o (or_sender env a), get-insert o (or_sender env a) 0 c.accounts)
]

storage_withdraw-keeps :
    (env : Env) (o : AccountId) (x : Balance) (c : TokenContract) {p : Promise}
    {r : AccountStorageBalance} {c' : TokenContract}
    → env.predecessor_account_id ≢ o
    → storage_withdraw env x c ≡ ok (p, r, c')
    → ft_balance_of o c ≤ ft_balance_of o c'
unfolding storage_withdraw ft_balance_of checked_add
storage_withdraw-keeps env o x c apart h =
    let a = env.predecessor_account_id in
    let kept = get-remove o a c.accounts in
    let other = ne→== (λ (e : o ≡ a). apart (sym e)) in
    elim (Result-cases (storage_minimum_balance c)) [
      | inl (e, panics) ↦ absurd (ground arith)
      | inr (minimum, known) ↦ elim (Option-cases (get a c.accounts)) [
        | inl gone ↦ absurd (ground arith)
        | inr (v, there) ↦ ground (arith, kept, other)
      ]
    ]

-- A call that is not made by an account, nor resolves a transfer to it, does not lower its balance.
pub foreign-keeps :
    (token_id o : AccountId) {c c' : TokenContract} (st : Step c c')
    → IsForeign token_id o st
    → ft_balance_of o c ≤ ft_balance_of o c'
foreign-keeps t o {c} (transfer env b x h) apart =
    internal_transfer-keeps env.predecessor_account_id b o x c apart (ft_transfer-eq-ok env b x c h)
foreign-keeps t o {c} (transfer_call env b x msg h) (apart, _) =
    internal_transfer-keeps env.predecessor_account_id b o x c apart
      (ft_transfer_call-eq-ok env b x msg c h.1)
foreign-keeps t o {c} (resolve_transfer env a b x used h) apart =
    ft_resolve_transfer-keeps env a b o x c {used = used} apart h
foreign-keeps t o {c} (deposit env h) apart = near_deposit-keeps env o c h
foreign-keeps t o {c} (withdraw env x h) apart = near_withdraw-keeps env o x c apart h.1
foreign-keeps t o {c} (register env a h) apart = storage_deposit-keeps env a o c h.1
foreign-keeps t o {c} (unregister env x h) apart =
    storage_withdraw-keeps env o x c {p = h.0} apart h.2
