-- ===== src/Token/Supply.antt =====
-- The balances of the token contract (token/src/lib.rs) against its `total_supply`, and how each
-- internal function shifts them.
use oracle_monorepo_near.Base.{
  ◌+◌, ◌-◌, ◌≡◌, refl, Bool, true, false, inl, inr, arith, Option-cases, Bool-cases, String_eq,
  ◌==◌,
}
use oracle_monorepo_near.Near.{
  ok, >>=-eq-ok, get, or_zero, sum_where, sum_where-insert, IsUnique, insert-IsUnique,
}
use oracle_monorepo_near.Token.State.{AccountId, Balance, TokenContract}
use oracle_monorepo_near.Token.Internal.{
  put, internal_deposit, internal_withdraw, internal_transfer,
}

abbrev pub any_account : AccountId → Bool
any_account a = true

abbrev pub sum_of_balances : TokenContract → Balance
sum_of_balances c = sum_where any_account c.accounts

pub record IsBacked (c : TokenContract) : Type 0 where
  pub unique : IsUnique c.accounts
  pub supply : sum_of_balances c ≡ c.total_supply

-- The accounts of `c'` are sound if those of `c` are, and hold `up` more and `down` less.
abbrev pub Shifts : TokenContract → Balance → Balance → TokenContract → Type 0
Shifts c up down c' =
    (IsUnique c.accounts → IsUnique c'.accounts)
    × (sum_of_balances c' + down ≡ sum_of_balances c + up)
    × (c'.total_supply ≡ c.total_supply)
    × (c'.account_storage_usage ≡ c.account_storage_usage)

pub put-Shifts :
    (a : AccountId) (b : Balance) (c : TokenContract)
    → Shifts c b (or_zero (get a c.accounts)) (put a b c)
put-Shifts a b c =
    (insert-IsUnique a b c.accounts, sum_where-insert any_account a b c.accounts refl, refl, refl)

pub internal_deposit-Shifts :
    (a : AccountId) (amount : Balance) (c : TokenContract) {c' : TokenContract}
    → internal_deposit a amount c ≡ ok c'
    → Shifts c amount 0 c'
unfolding internal_deposit
internal_deposit-Shifts a amount c h = elim (Option-cases (get a c.accounts)) [
  | inl e ↦ ground arith
  | inr (b, e) ↦ ground (arith, put-Shifts a (b + amount) c)
]

pub internal_withdraw-Shifts :
    (a : AccountId) (amount : Balance) (c : TokenContract) {c' : TokenContract}
    → internal_withdraw a amount c ≡ ok c'
    → Shifts c 0 amount c'
unfolding internal_withdraw
internal_withdraw-Shifts a amount c h = elim (Option-cases (get a c.accounts)) [
  | inl e ↦ ground arith
  | inr (b, e) ↦ ground (arith, put-Shifts a (b - amount) c)
]

pub internal_transfer-eq-ok :
    (a b : AccountId) (amount : Balance) (c : TokenContract) {c' : TokenContract}
    → internal_transfer a b amount c ≡ ok c'
    → (m : TokenContract) × ((a == b) ≡ false)
      × (internal_withdraw a amount c ≡ ok m)
      × (internal_deposit b amount m ≡ ok c')
unfolding internal_transfer
internal_transfer-eq-ok a b amount c h = elim (Bool-cases (a == b)) [
  | inl same ↦ absurd (ground arith)
  | inr apart ↦
      (let (m, w, d) =
          >>=-eq-ok (internal_withdraw a amount c) (internal_deposit b amount) (rw apart at h) in
        (m, apart, w, d))
]

pub internal_transfer-Shifts :
    (a b : AccountId) (amount : Balance) (c : TokenContract) {c' : TokenContract}
    → internal_transfer a b amount c ≡ ok c'
    → Shifts c 0 0 c'
internal_transfer-Shifts a b amount c h =
    let (m, apart, w, d) = internal_transfer-eq-ok a b amount c h in
    ground (arith, internal_withdraw-Shifts a amount c w, internal_deposit-Shifts b amount m d)
