-- ===== src/Token/Moves.antt =====
-- The calls of token/src/fungible_token_core.rs that move tokens, down to the transfer inside.
use oracle_monorepo_near.Base.{String, ◌≡◌, ap, some, inl, inr, arith, String_eq}
use oracle_monorepo_near.Near.{Result-cases, ok, get, or_zero, checked_sub}
use oracle_monorepo_near.Token.State.{AccountId, Balance, TokenContract, Env, Promise}
use oracle_monorepo_near.Token.Internal.{internal_transfer}
use oracle_monorepo_near.Token.Core.{ft_transfer, ft_transfer_call, ft_balance_of}

pub ft_transfer-eq-ok :
    (env : Env) (b : AccountId) (x : Balance) (c : TokenContract) {c' : TokenContract}
    → ft_transfer env b x c ≡ ok c'
    → internal_transfer env.predecessor_account_id b x c ≡ ok c'
unfolding ft_transfer
ft_transfer-eq-ok env b x c h = ground arith

pub ft_transfer_call-eq-ok :
    (env : Env) (b : AccountId) (x : Balance) (msg : String) (c : TokenContract) {p : Promise}
    {c' : TokenContract}
    → ft_transfer_call env b x msg c ≡ ok (p, c')
    → internal_transfer env.predecessor_account_id b x c ≡ ok c'
unfolding ft_transfer_call checked_sub
ft_transfer_call-eq-ok env b x msg c h =
    elim (Result-cases (internal_transfer env.predecessor_account_id b x c)) [
      | inl (e, panics) ↦ absurd (ground arith)
      | inr (m, done) ↦ ground arith
    ]

pub balance_of-get :
    (a : AccountId) (c : TokenContract) {v : Balance}
    → get a c.accounts ≡ some v
    → ft_balance_of a c ≡ v
unfolding ft_balance_of
balance_of-get a c h = ap or_zero h
