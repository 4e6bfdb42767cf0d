-- ===== src/System/Payments.antt =====
-- The transfers that the oracle (oracle/src) has promised, run by the token contract (token/src).
use oracle_monorepo_near.Base.{
  ◌+◌, ◌-◌, ◌≤◌, ◌<◌, ◌≡◌, ◌≢◌, sym, ap, some, List, ◌∷◌, ◌++◌, inl, inr, arith, String_eq,
  Option-cases, ne→==,
}
use oracle_monorepo_near.Near.{ok, get, get-insert_ne, u128_mod}
use oracle_monorepo_near.Token.State.{TokenContract, Env as TokenEnv}
use oracle_monorepo_near.Token.Internal.{
  internal_transfer, internal_withdraw, internal_deposit, put,
}
use oracle_monorepo_near.Token.Core.{ft_transfer, ft_balance_of}
use oracle_monorepo_near.Token.Transfers.{internal_transfer_moves}
use oracle_monorepo_near.Token.Moves.{ft_transfer-eq-ok, balance_of-get}
use oracle_monorepo_near.Token.Bounds.{two_balances}
use oracle_monorepo_near.Oracle.Types.{AccountId, Balance, Promise}
use oracle_monorepo_near.Oracle.Treasury.Sent.{sent, sent_all}
use oracle_monorepo_near.System.{System, first, Reachable, IsOrderly}
use oracle_monorepo_near.System.Queues.{sent_all-next}
use oracle_monorepo_near.System.Funds.{IsFunded-covered}
use oracle_monorepo_near.System.Histories.{Reachable-IsFunded}

-- A transfer to another account that is registered returns, where the sender has the amount and the
-- receiver's new balance fits 128 bits.
ft_transfer-returns :
    (env : TokenEnv) (b : AccountId) (x v : Balance) (c : TokenContract)
    → env.attached_deposit ≡ 1
    → b ≢ env.predecessor_account_id
    → get b c.accounts ≡ some v
    → 0 < x
    → x ≤ ft_balance_of env.predecessor_account_id c
    → v + x < u128_mod
    → (c' : TokenContract) × (ft_transfer env b x c ≡ ok c')
unfolding ft_transfer internal_transfer internal_withdraw internal_deposit ft_balance_of
ft_transfer-returns env b x v c one apart there positive enough small =
    let a = env.predecessor_account_id in
    elim (Option-cases (get a c.accounts)) [
      | inl gone ↦ absurd (ground arith)
      | inr (u, e) ↦ (
        put b (v + x) (put a (u - x) c),
        ground (
          arith,
          get-insert_ne b a (u - x) c.accounts (ne→== apart),
          ne→== apart,
          ne→== (λ (q : a ≡ b). apart (sym q)),
        ),
      )
    ]

-- In every state that any reachable token contract and a fresh oracle reach by orderly receipts: where
-- a promise of the oracle begins with the transfer of some tokens of the token contract to another
-- account, which is registered there, the token contract runs it, called by the oracle with one
-- yoctoNEAR: `ft_transfer` returns, and moves the amount from the oracle to that account.
pub promised_transfer-returns :
    (token_id oracle_id : AccountId) {s : System} (reached : Reachable token_id oracle_id s)
    (env : TokenEnv) (before after : List Promise) (p : Promise) (receiver : AccountId)
    (x v : Balance)
    → IsOrderly token_id oracle_id reached
    → s.oracle.storage.promises ≡ before ++ p ∷ after
    → first p ≡ Promise.ft_transfer token_id receiver x
    → 0 < x
    → receiver ≢ oracle_id
    → get receiver s.token.accounts ≡ some v
    → env.predecessor_account_id ≡ oracle_id
    → env.attached_deposit ≡ 1
    → (c : TokenContract) × (ft_transfer env receiver x s.token ≡ ok c)
      × (ft_balance_of receiver c ≡ v + x)
      × (ft_balance_of oracle_id c + x ≡ ft_balance_of oracle_id s.token)
promised_transfer-returns token_id oracle_id {s} reached env before after p receiver x v orderly
      waiting starts positive apart there own one =
    let funded = Reachable-IsFunded token_id oracle_id reached orderly in
    let enough : x ≤ ft_balance_of oracle_id s.token = omega (
      arith,
      IsFunded-covered token_id oracle_id s funded,
      ap sent_all waiting,
      sent_all-next before after p,
      ap sent starts,
    ) in
    let has : ft_balance_of receiver s.token ≡ v = balance_of-get receiver s.token there in
    let room : v + x < u128_mod = omega (
      arith,
      has,
      enough,
      two_balances receiver oracle_id s.token apart funded.backed,
      funded.fits,
    ) in
    let (c, done) =
      ft_transfer-returns env receiver x v s.token one (rw own apart) there positive (rw own enough)
        room in
    let (_, gives, gets, _, _) =
      internal_transfer_moves env.predecessor_account_id receiver x s.token
        (ft_transfer-eq-ok env receiver x s.token done) in
    (c, done, omega (arith, gets, has), rw own at gives)
