-- ===== src/System/Resolutions.antt =====
-- What `ft_resolve_transfer` of token/src/fungible_token_core.rs takes from the receiver of a transfer.
use oracle_monorepo_near.Base.{
  ◌+◌, ◌-◌, ◌≤◌, ◌≡◌, refl, Option, none, some, inl, inr, arith, String_eq, min, ltb, Bool-cases,
  Option-cases,
}
use oracle_monorepo_near.Near.{ok, get, or_zero, get-insert, checked_add, checked_sub}
use oracle_monorepo_near.Token.State.{TokenContract, Env as TokenEnv}
use oracle_monorepo_near.Token.Internal.{put}
use oracle_monorepo_near.Token.Core.{
  ft_resolve_transfer, ft_balance_of, refund, unused_amount, parsed_or_all,
}
use oracle_monorepo_near.Oracle.Types.{AccountId, Balance}
use oracle_monorepo_near.System.{Reports}

refund-takes :
    (a b : AccountId) (x u : Balance) (c : TokenContract) {used : Balance} {c' : TokenContract}
    → refund a b x u c ≡ ok (used, c')
    → ft_balance_of b c ≤ ft_balance_of b c' + u
unfolding refund ft_balance_of checked_add checked_sub
refund-takes a b x u c {used} {c'} h =
    let kept = or_zero (get b c.accounts) - min (or_zero (get b c.accounts)) u in
    let taken = put b kept c in
    let here = get-insert b b kept c.accounts in
    elim (Option-cases (get a taken.accounts)) [
      | inl gone ↦ ground (arith, here, String_eq.beq_iff b b)
      | inr (v, there) ↦ ground (
        arith,
        here,
        String_eq.beq_iff b b,
        String_eq.beq_iff b a,
        get-insert b a (v + min (or_zero (get b c.accounts)) u) taken.accounts,
      )
    ]

pub reported :
    (env : TokenEnv) (x : Balance) (answer : Option Balance)
    → Reports env answer
    → unused_amount env x ≡ ok (parsed_or_all x answer)
unfolding unused_amount
reported env x none failure = rw failure refl
reported env x (some u) (bytes, got, parsed) = rw (got, parsed) refl

-- A resolution takes no more from the receiver than what the answer says is unused.
pub ft_resolve_transfer-takes :
    (env : TokenEnv) (a b : AccountId) (x : Balance) (answer : Option Balance) (c : TokenContract)
    {used : Balance} {c' : TokenContract}
    → Reports env answer
    → ft_resolve_transfer env a b x c ≡ ok (used, c')
    → ft_balance_of b c ≤ ft_balance_of b c' + parsed_or_all x answer
unfolding ft_resolve_transfer unused_amount
ft_resolve_transfer-takes env a b x answer c {used} {c'} reports h =
    let u = parsed_or_all x answer in
    let known : unused_amount env x ≡ ok u = reported env x answer reports in
    elim (Bool-cases (ltb 0 u)) [
      | inl some_left ↦ refund-takes a b x u c {used = used} {c' = c'} (ground arith)
      | inr none_left ↦ ground arith
    ]
