-- ===== src/Token/Calls.antt =====
-- The supply invariant of the token contract (token/src), call by call.
use oracle_monorepo_near.Base.{
  ◌+◌, ◌-◌, ◌≡◌, refl, Option, inl, inr, arith, Option-cases, String, String_eq, min,
}
use oracle_monorepo_near.Near.{
  ok, Result-cases, get, or_zero, sum_where-remove_unique, remove-IsUnique, checked_add,
  checked_sub,
}
use oracle_monorepo_near.Token.State.{AccountId, Balance, TokenContract, Env, Promise}
use oracle_monorepo_near.Token.Internal.{
  put, internal_deposit, internal_withdraw, internal_transfer,
}
use oracle_monorepo_near.Token.Core.{
  ft_transfer, ft_transfer_call, ft_resolve_transfer, refund, unused_amount,
}
use oracle_monorepo_near.Token.Wrap.{near_deposit, near_withdraw}
use oracle_monorepo_near.Token.Registration.{
  storage_deposit, storage_withdraw, storage_minimum_balance, AccountStorageBalance, or_sender,
}
use oracle_monorepo_near.Token.Supply.{
  IsBacked, any_account, put-Shifts, internal_deposit-Shifts, internal_withdraw-Shifts,
  internal_transfer-Shifts,
}

pub near_deposit-IsBacked :
    (env : Env) (c : TokenContract) {c' : TokenContract}
    → IsBacked c
    → near_deposit env c ≡ ok c'
    → IsBacked c'
unfolding near_deposit checked_add
near_deposit-IsBacked env c v h =
    elim (Result-cases (internal_deposit env.predecessor_account_id env.attached_deposit c)) [
      | inl (e, failed) ↦ ground arith
      | inr (m, done) ↦
          ground
            (arith, internal_deposit-Shifts env.predecessor_account_id env.attached_deposit c done)
    ]

pub near_withdraw-IsBacked :
    (env : Env) (amount : Balance) (c : TokenContract) {p : Promise} {c' : TokenContract}
    → IsBacked c
    → near_withdraw env amount c ≡ ok (p, c')
    → IsBacked c'
unfolding near_withdraw checked_sub checked_add
near_withdraw-IsBacked env amount c v h =
    elim (Result-cases (internal_withdraw env.predecessor_account_id amount c)) [
      | inl (e, failed) ↦ ground arith
      | inr (m, done) ↦
          ground (arith, internal_withdraw-Shifts env.predecessor_account_id amount c done)
    ]

pub ft_transfer-IsBacked :
    (env : Env) (receiver : AccountId) (amount : Balance) (c : TokenContract) {c' : TokenContract}
    → IsBacked c
    → ft_transfer env receiver amount c ≡ ok c'
    → IsBacked c'
unfolding ft_transfer
ft_transfer-IsBacked env receiver amount c v h =
    elim (Result-cases (internal_transfer env.predecessor_account_id receiver amount c)) [
      | inl (e, failed) ↦ ground arith
      | inr (m, done) ↦
          ground (arith, internal_transfer-Shifts env.predecessor_account_id receiver amount c done)
    ]

pub ft_transfer_call-IsBacked :
    (env : Env) (receiver : AccountId) (amount : Balance) (msg : String) (c : TokenContract)
    {p : Promise} {c' : TokenContract}
    → IsBacked c
    → ft_transfer_call env receiver amount msg c ≡ ok (p, c')
    → IsBacked c'
unfolding ft_transfer_call checked_sub
ft_transfer_call-IsBacked env receiver amount msg c v h =
    elim (Result-cases (internal_transfer env.predecessor_account_id receiver amount c)) [
      | inl (e, failed) ↦ ground arith
      | inr (m, done) ↦
          ground (arith, internal_transfer-Shifts env.predecessor_account_id receiver amount c done)
    ]

refund-IsBacked :
    (sender receiver : AccountId) (amount unused : Balance) (c : TokenContract) {used : Balance}
    {c' : TokenContract}
    → IsBacked c
    → refund sender receiver amount unused c ≡ ok (used, c')
    → IsBacked c'
unfolding refund checked_add checked_sub
refund-IsBacked sender receiver amount unused c v h =
    let held = or_zero (get receiver c.accounts) in
    let r = min held unused in
    let taken = put receiver (held - r) c in
    elim (Option-cases (get sender taken.accounts)) [
      | inl gone ↦ ground (arith, put-Shifts receiver (held - r) c)
      | inr (b, there) ↦
          ground (arith, put-Shifts receiver (held - r) c, put-Shifts sender (b + r) taken)
    ]

pub ft_resolve_transfer-IsBacked :
    (env : Env) (sender receiver : AccountId) (amount : Balance) (c : TokenContract)
    {used : Balance} {c' : TokenContract}
    → IsBacked c
    → ft_resolve_transfer env sender receiver amount c ≡ ok (used, c')
    → IsBacked c'
unfolding ft_resolve_transfer
ft_resolve_transfer-IsBacked env sender receiver amount c {used} {c'} v h =
    elim (Result-cases (unused_amount env amount)) [
      | inl (e, failed) ↦ ground arith
      | inr (unused, known) ↦
          ground (arith, refund-IsBacked sender receiver amount unused c {used = used} {c' = c'})
    ]

pub storage_deposit-IsBacked :
    (env : Env) (a : Option AccountId) (c : TokenContract) {r : AccountStorageBalance}
    {c' : TokenContract}
    → IsBacked c
    → storage_deposit env a c ≡ ok (r, c')
    → IsBacked c'
unfolding storage_deposit
storage_deposit-IsBacked env a c v h = elim (Result-cases (storage_minimum_balance c)) [
  | inl (e, failed) ↦ ground arith
  | inr (minimum, known) ↦ ground (arith, put-Shifts (or_sender env a) 0 c)
]

pub storage_withdraw-IsBacked :
    (env : Env) (amount : Balance) (c : TokenContract) {p : Promise} {r : AccountStorageBalance}
    {c' : TokenContract}
    → IsBacked c
    → storage_withdraw env amount c ≡ ok (p, r, c')
    → IsBacked c'
unfolding storage_withdraw checked_add
storage_withdraw-IsBacked env amount c v h =
    let a = env.predecessor_account_id in
    elim (Result-cases (storage_minimum_balance c)) [
      | inl (e, failed) ↦ ground arith
      | inr (minimum, known) ↦ ground (
        arith,
        remove-IsUnique a c.accounts v.unique,
        sum_where-remove_unique any_account a c.accounts refl v.unique,
      )
    ]
