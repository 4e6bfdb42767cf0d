-- ===== src/Oracle/Accounts/Balances.antt =====
-- The storage accounts of oracle/src/storage_manager.rs.
use oracle_monorepo_near.Base.{
  ℕ, ◌+◌, ◌-◌, ◌*◌, ◌≤◌, ◌≡◌, subst, Option, [], ◌∷◌, ◌++◌, arith, if◌then◌else◌, ◌==◌, Pair_eq,
  String_eq,
}
use oracle_monorepo_near.Near.{ok, checked_sub, checked_add, checked_mul}
use oracle_monorepo_near.Oracle.Types.{AccountId, Balance, Contract, World, Env, Promise}
use oracle_monorepo_near.Oracle.Helpers.{schedule}
use oracle_monorepo_near.Near.{get-insert}
use oracle_monorepo_near.Oracle.Types.{AccountStorageBalance}
use oracle_monorepo_near.Oracle.Accounts.{
  get_storage_account, or_sender, storage_deposit, storage_withdraw, use_storage, put_account,
  storage_minimum_balance,
}

-- No account has more available than it has in total.
abbrev pub AreBacked : Contract → Type 0
AreBacked c =
    (a : AccountId) → (get_storage_account a c).available ≤ (get_storage_account a c).total

put_account-get :
    (a b : AccountId) (x : AccountStorageBalance) (w : World)
    → get_storage_account b (put_account a x w).contract
      ≡ (if b == a then x else get_storage_account b w.contract)
unfolding get_storage_account
put_account-get a b x w = rw get-insert (ground arith)

put_account-AreBacked :
    (a : AccountId) (x : AccountStorageBalance) (w : World)
    → AreBacked w.contract
    → x.available ≤ x.total
    → AreBacked (put_account a x w).contract
put_account-AreBacked a x w v h b = rw (put_account-get a b x w) (ground (arith, v b))

-- Where no account has more available than in total, a storage deposit that returns is at least
-- the minimum and is added to both balances of the account that is named, or of the caller; the
-- account's new balances are the result, and again no account has more available than in total.
pub storage_deposit_lem :
    (env : Env) (to : Option AccountId) (w : World) {r : AccountStorageBalance} {w' : World}
    → AreBacked w.contract
    → storage_deposit env to w ≡ ok (r, w')
    → let a = or_sender env to in
      (storage_minimum_balance ≤ env.attached_deposit)
      × (r.total ≡ (get_storage_account a w.contract).total + env.attached_deposit)
      × (r.available ≡ (get_storage_account a w.contract).available + env.attached_deposit)
      × (get_storage_account a w'.contract ≡ r)
      × AreBacked w'.contract
unfolding storage_deposit checked_add
storage_deposit_lem env to w {r} {w'} v h =
    let a = or_sender env to in
    let made : put_account a r w ≡ w' = ground arith in
    (
      ground arith,
      ground arith,
      ground arith,
      ground (arith, made, put_account-get a a r w, String_eq.beq_iff a a),
      subst (λ u. AreBacked u.contract) made (put_account-AreBacked a r w v (ground (arith, v a))),
    )

-- Where no account has more available than in total, a withdrawal that returns had exactly one
-- yoctoNEAR attached and takes at most what is available; the amount is taken from both balances
-- of the caller and sent to the caller, and again no account has more available than in total.
pub storage_withdraw_lem :
    (env : Env) (amount : Balance) (w : World) {r : AccountStorageBalance} {w' : World}
    → AreBacked w.contract
    → storage_withdraw env amount w ≡ ok (r, w')
    → let a = env.predecessor_account_id in
      (env.attached_deposit ≡ 1)
      × (r.available + amount ≡ (get_storage_account a w.contract).available)
      × (r.total + amount ≡ (get_storage_account a w.contract).total)
      × (get_storage_account a w'.contract ≡ r)
      × (w'.storage.promises ≡ w.storage.promises ++ Promise.transfer a amount ∷ [])
      × AreBacked w'.contract
unfolding storage_withdraw checked_sub
storage_withdraw_lem env amount w {r} {w'} v h =
    let a = env.predecessor_account_id in
    let made : schedule (Promise.transfer a amount) (put_account a r w) ≡ w' = ground arith in
    (
      ground arith,
      ground arith,
      ground arith,
      ground (arith, made, put_account-get a a r w, String_eq.beq_iff a a),
      ground (arith, made),
      subst (λ u. AreBacked u.contract) made (put_account-AreBacked a r w v (ground (arith, v a))),
    )

-- Where no account has more available than in total, a call that did not free storage charges the
-- sender the price of the bytes that it added: where the available balance before was at most the
-- total, the charge is at most that balance, which becomes the rest of it, the total stays, and
-- again no account has more available than in total.
pub use_storage_lem :
    (env : Env) (a : AccountId) (initial : ℕ) (before : Balance) (w : World) {w' : World}
    → AreBacked w.contract
    → before ≤ (get_storage_account a w.contract).total
    → initial ≤ env.storage_usage w
    → use_storage env a initial before w ≡ ok w'
    → let x = get_storage_account a w'.contract in
      (x.available + (env.storage_usage w - initial) * env.consts.storage_price_per_byte ≡ before)
      × (x.total ≡ (get_storage_account a w.contract).total)
      × AreBacked w'.contract
unfolding use_storage checked_mul
use_storage_lem env a initial before w {w'} v covered more h =
    let cost = (env.storage_usage w - initial) * env.consts.storage_price_per_byte in
    let x : AccountStorageBalance = record (get_storage_account a w.contract) {
      available = before - cost;
    } in
    let made : put_account a x w ≡ w' = ground arith in
    let paid : cost ≤ before = ground arith in
    let now : get_storage_account a w'.contract ≡ x =
      ground (arith, made, put_account-get a a x w, String_eq.beq_iff a a) in
    (
      ground (arith, now, paid),
      ground (arith, now),
      subst (λ u. AreBacked u.contract) made (put_account-AreBacked a x w v (omega arith)),
    )
