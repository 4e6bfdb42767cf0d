-- ===== src/System/Refunds.antt =====
-- What goes back to the sender of a transfer to the oracle (oracle/src), by `ft_resolve_transfer` of
-- token/src/fungible_token_core.rs.
use oracle_monorepo_near.Base.{
  ◌+◌, ◌-◌, ◌≤◌, ◌<◌, ◌≡◌, ◌≢◌, ap, some, List, ◌∷◌, ◌++◌, inl, inr, arith, String_eq, Bool-cases,
  ne→==, sum_by, ltb, min,
}
use oracle_monorepo_near.Near.{ok, get, or_zero, get-insert_ne, checked_add, u128_mod}
use oracle_monorepo_near.Token.State.{TokenContract, Env as TokenEnv}
use oracle_monorepo_near.Token.Internal.{put, assert_self}
use oracle_monorepo_near.Token.Core.{ft_resolve_transfer, ft_balance_of, refund, unused_amount}
use oracle_monorepo_near.Token.Transfers.{ft_resolve_transfer_moves}
use oracle_monorepo_near.Token.Moves.{balance_of-get}
use oracle_monorepo_near.Token.Bounds.{two_balances}
use oracle_monorepo_near.Oracle.Types.{AccountId, Balance}
use oracle_monorepo_near.System.{Answer, unused, Reports, System, Reachable, IsOrderly}
use oracle_monorepo_near.System.Queues.{sum_by-taken}
use oracle_monorepo_near.System.Resolutions.{reported}
use oracle_monorepo_near.System.Funds.{IsFunded-covered}
use oracle_monorepo_near.System.Histories.{Reachable-IsFunded}

-- A resolution returns where the receiver still has the unused amount and the sender, another account,
-- has room for it.
ft_resolve_transfer-returns :
    (env : TokenEnv) (a b : AccountId) (x u v : Balance) (c : TokenContract)
    → env.predecessor_account_id ≡ env.current_account_id
    → unused_amount env x ≡ ok u
    → a ≢ b
    → get a c.accounts ≡ some v
    → u ≤ ft_balance_of b c
    → v + u < u128_mod
    → (used : Balance) × (c' : TokenContract) × (ft_resolve_transfer env a b x c ≡ ok (used, c'))
unfolding ft_resolve_transfer refund ft_balance_of checked_add assert_self
ft_resolve_transfer-returns env a b x u v c self known apart there enough room =
    let held = or_zero (get b c.accounts) in
    let taken = put b (held - min held u) c in
    elim (Bool-cases (ltb 0 u)) [
      | inl some_left ↦ (
        x - min held u,
        put a (v + min held u) taken,
        ground (
          arith,
          String_eq.beq_iff env.predecessor_account_id env.current_account_id,
          get-insert_ne a b (held - min held u) c.accounts (ne→== apart),
        ),
      )
      | inr none_left ↦ (
        x,
        c,
        ground (arith, String_eq.beq_iff env.predecessor_account_id env.current_account_id),
      )
    ]

-- In every state that any reachable token contract and a fresh oracle reach by orderly receipts: where
-- the oracle answered a transfer, or failed on it, and the sender is another account that is still
-- registered, the call back of the token contract, which the host tells that answer, returns. The
-- sender gets back the whole unused amount, the oracle's balance falls by it, and the rest of the
-- transfer is reported as used.
pub answer_resolved :
    (token_id oracle_id : AccountId) {s : System} (reached : Reachable token_id oracle_id s)
    (env : TokenEnv) (before after : List Answer) (a : Answer) (v : Balance)
    → IsOrderly token_id oracle_id reached
    → s.answers ≡ before ++ a ∷ after
    → Reports env a.unspent
    → env.predecessor_account_id ≡ env.current_account_id
    → a.transfer.sender ≢ oracle_id
    → get a.transfer.sender s.token.accounts ≡ some v
    → (used : Balance) × (c : TokenContract) × (ft_resolve_transfer env a.transfer.sender oracle_id
          a.transfer.amount s.token
        ≡ ok (used, c))
      × (get a.transfer.sender c.accounts ≡ some (v + unused a))
      × (used + unused a ≡ a.transfer.amount)
      × (ft_balance_of oracle_id c + unused a ≡ ft_balance_of oracle_id s.token)
answer_resolved token_id oracle_id {s} reached env before after a v orderly waiting reports self
      apart there =
    let funded = Reachable-IsFunded token_id oracle_id reached orderly in
    let sender = a.transfer.sender in
    let x = a.transfer.amount in
    let enough : unused a ≤ ft_balance_of oracle_id s.token = omega (
      arith,
      IsFunded-covered token_id oracle_id s funded,
      ap (sum_by unused) waiting,
      sum_by-taken unused before after a,
    ) in
    let has : ft_balance_of sender s.token ≡ v = balance_of-get sender s.token there in
    let room : v + unused a < u128_mod = omega (
      arith,
      has,
      enough,
      two_balances sender oracle_id s.token apart funded.backed,
      funded.fits,
    ) in
    let known = reported env x a.unspent reports in
    let (used, c, done) =
      ft_resolve_transfer-returns env sender oracle_id x (unused a) v s.token self known apart there
        enough room in
    let (gives, gets) =
      ft_resolve_transfer_moves env sender oracle_id x (unused a) s.token {used = used} apart known
        done in
    let whole : min (ft_balance_of oracle_id s.token) (unused a) ≡ unused a = omega arith in
    let (now, rest, _) = rw (there, whole) at gets in (used, c, done, now, rest, rw whole at gives)
