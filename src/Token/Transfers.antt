-- ===== src/Token/Transfers.antt =====
-- What a transfer and its resolution move (token/src/internal.rs, fungible_token_core.rs, w_near.rs).
use oracle_monorepo_near.Base.{
  ◌+◌, ◌-◌, ◌≤◌, ◌<◌, ◌≡◌, ◌≢◌, refl, sym, false, Option, none, some, inl, inr, arith, Option-cases,
  Bool-cases, String_eq, min, ◌==◌, ==_false, ==_true, ◌⊎◌, ne→==,
}
use oracle_monorepo_near.Near.{
  ok, get, or_zero, get-insert, get-insert_self, get-insert_ne, checked_add, checked_sub, u128_mod,
}
use oracle_monorepo_near.Token.State.{AccountId, Balance, TokenContract, Env, Promise}
use oracle_monorepo_near.Token.Internal.{
  put, internal_deposit, internal_withdraw, internal_transfer,
}
use oracle_monorepo_near.Token.Core.{ft_resolve_transfer, refund, unused_amount, ft_balance_of}
use oracle_monorepo_near.Token.Wrap.{near_deposit, near_withdraw}

-- The two balances that a transfer finds, and the two writes that it makes.
internal_transfer-eq-ok :
    (a b : AccountId) (amount : Balance) (c : TokenContract) {c' : TokenContract}
    → internal_transfer a b amount c ≡ ok c'
    → (u : Balance) × (v : Balance) × ((a == b) ≡ false)
      × ((b == a) ≡ false)
      × (get a c.accounts ≡ some u)
      × (get b c.accounts ≡ some v)
      × (amount ≤ u)
      × (v + amount < u128_mod)
      × (c' ≡ put b (v + amount) (put a (u - amount) c))
unfolding internal_transfer internal_withdraw internal_deposit
internal_transfer-eq-ok a b amount c h = elim (Option-cases (get a c.accounts)) [
  | inl missing ↦ absurd (ground arith)
  | inr (u, e) ↦ elim (Option-cases (get b c.accounts)) [
    | inl missing ↦ absurd (
        ground (
          arith,
          String_eq.beq_iff a b,
          String_eq.beq_iff b a,
          get-insert b a (u - amount) c.accounts,
        ))
    | inr (v, f) ↦ (
      u,
      v,
      ground (arith, String_eq.beq_iff a b),
      ground (arith, String_eq.beq_iff a b, String_eq.beq_iff b a),
      e,
      f,
      ground arith,
      ground (
        arith,
        String_eq.beq_iff a b,
        String_eq.beq_iff b a,
        get-insert b a (u - amount) c.accounts,
      ),
      ground (
        arith,
        String_eq.beq_iff a b,
        String_eq.beq_iff b a,
        get-insert b a (u - amount) c.accounts,
      ),
    )
  ]
]

untouched :
    (x a b : AccountId) (m n : Balance) (c : TokenContract)
    → (x ≡ a) ⊎ (x ≡ b) ⊎ (get x (put b n (put a m c)).accounts ≡ get x c.accounts)
untouched x a b m n c = elim (Bool-cases (x == a)) [
  | inl e ↦ inl (==_true e)
  | inr e ↦ elim (Bool-cases (x == b)) [
    | inl f ↦ inr (inl (==_true f))
    | inr f ↦ inr (inr (rw (get-insert_ne x b _ _ f, get-insert_ne x a _ _ e)))
  ]
]

-- A transfer that returns takes the amount from the sender and gives it to the receiver, another
-- account, and leaves every third account and the supply alone.
pub internal_transfer_moves :
    (a b : AccountId) (amount : Balance) (c : TokenContract) {c' : TokenContract}
    → internal_transfer a b amount c ≡ ok c'
    → (a ≢ b)
      × (ft_balance_of a c' + amount ≡ ft_balance_of a c)
      × (ft_balance_of b c' ≡ ft_balance_of b c + amount)
      × ((x : AccountId) → (x ≡ a) ⊎ (x ≡ b) ⊎ (get x c'.accounts ≡ get x c.accounts))
      × (c'.total_supply ≡ c.total_supply)
unfolding ft_balance_of
internal_transfer_moves a b amount c h =
    let (u, v, apart, apart', e, f, enough, fits, writes) =
      internal_transfer-eq-ok a b amount c h in
    rw writes (
      ==_false apart,
      rw (get-insert_ne a b _ _ apart, get-insert_self) (ground arith),
      rw get-insert_self (ground arith),
      (λ x. untouched x a b _ _ c),
      refl,
    )

near_deposit-eq-ok :
    (env : Env) (c : TokenContract) {c' : TokenContract}
    → near_deposit env c ≡ ok c'
    → let a = env.predecessor_account_id in
      let amount = env.attached_deposit in
      (v : Balance) × (get a c.accounts ≡ some v)
      × (0 < amount)
      × (c' ≡ record (put a (v + amount) c) { total_supply = c.total_supply + amount })
unfolding near_deposit internal_deposit checked_add
near_deposit-eq-ok env c h = elim (Option-cases (get env.predecessor_account_id c.accounts)) [
  | inl missing ↦ absurd (ground arith)
  | inr (v, e) ↦ (v, e, ground arith, ground arith)
]

-- After a `near_deposit` that returns, a `near_withdraw` of the same amount by the same account
-- with one yoctoNEAR attached returns, if the amount and that one fit 128 bits: it pays back the
-- amount with the attached yoctoNEAR, and restores every balance and the supply.
pub near_withdraw-near_deposit :
    (env env' : Env) (c : TokenContract) {c' : TokenContract}
    → near_deposit env c ≡ ok c'
    → env'.predecessor_account_id ≡ env.predecessor_account_id
    → env'.attached_deposit ≡ 1
    → env.attached_deposit + 1 < u128_mod
    → (c'' : TokenContract) × (near_withdraw env' env.attached_deposit c'
        ≡ ok (Promise.transfer env.predecessor_account_id (env.attached_deposit + 1), c''))
      × ((x : AccountId) → get x c''.accounts ≡ get x c.accounts)
      × (c''.total_supply ≡ c.total_supply)
unfolding near_withdraw internal_withdraw checked_add checked_sub
near_withdraw-near_deposit env env' c {c'} h same one small =
    let a = env.predecessor_account_id in
    let (v, e, positive, writes) = near_deposit-eq-ok env c h in
    (
      record (put a v c') { total_supply = c.total_supply },
      rw writes (ground (arith, get-insert_self a (v + env.attached_deposit) c.accounts)),
      (λ x. rw (writes, get-insert, get-insert) (ground (arith, e, String_eq.beq_iff x a))),
      refl,
    )

unused_amount-le :
    (env : Env) (amount : Balance) {u : Balance} → unused_amount env amount ≡ ok u → u ≤ amount
unfolding unused_amount
unused_amount-le env amount h = ground arith

-- How a resolution ends for a sender with a balance and for one without an account.
abbrev SenderGets :
    Option Balance
    → (back amount used : Balance) → Option Balance
    → (before after : Balance) → Type 0
SenderGets (some b) back amount used now before after =
    (now ≡ some (b + back)) × (used + back ≡ amount) × (after ≡ before)
SenderGets none back amount used now before after =
    (now ≡ none) × (used ≡ amount) × (after + back ≡ before)

-- A resolution that returns for a sender and another account as receiver: with `u` unused, the
-- receiver gives back `u`, or all that it still has. That goes to the sender, and the rest of the
-- amount is reported as used; or, if the sender has no account any more, it is burnt from the
-- supply, and the whole amount is reported as used.
pub ft_resolve_transfer_moves :
    (env : Env) (sender receiver : AccountId) (amount u : Balance) (c : TokenContract)
    {used : Balance} {c' : TokenContract}
    → sender ≢ receiver
    → unused_amount env amount ≡ ok u
    → ft_resolve_transfer env sender receiver amount c ≡ ok (used, c')
    → let back = min (ft_balance_of receiver c) u in
      (ft_balance_of receiver c' + back ≡ ft_balance_of receiver c)
      × SenderGets
          (get sender c.accounts)
          back
          amount
          used
          (get sender c'.accounts)
          c.total_supply
          c'.total_supply
unfolding ft_resolve_transfer ft_balance_of refund checked_add checked_sub
ft_resolve_transfer_moves env sender receiver amount u c {used} {c'} apart known h =
    let held = or_zero (get receiver c.accounts) in
    let left = held - min held u in
    let taken = put receiver left c in
    elim (Option-cases (get sender c.accounts)) [
      | inl gone ↦ rw gone (
          ground (
            arith,
            unused_amount-le env amount known,
            get-insert_self receiver left c.accounts,
            get-insert_ne sender receiver left c.accounts (ne→== apart),
          ))
      | inr (b, there) ↦ rw there (
          ground (
            arith,
            unused_amount-le env amount known,
            get-insert_self receiver left c.accounts,
            get-insert_ne sender receiver left c.accounts (ne→== apart),
            get-insert_self sender (b + min held u) taken.accounts,
            get-insert_ne receiver sender (b + min held u) taken.accounts
                (ne→== (λ e. apart (sym e))),
          ))
    ]
