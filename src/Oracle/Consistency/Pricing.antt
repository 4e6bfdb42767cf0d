-- ===== src/Oracle/Consistency/Pricing.antt =====
-- What keeps the resolution bonds of requests above zero: the bonds of the configurations
-- (oracle/src/oracle_config.rs) and the multipliers of the requesters (oracle/src/whitelist.rs).
use oracle_monorepo_near.Base.{
  ℕ, ◌+◌, ◌*◌, ◌≤◌, ◌<◌, ◌≡◌, inl, inr, Bool-cases, Option-cases, none, some, List, [], ◌∷◌, ◌==◌,
  arith, String_eq, Pair_eq, get_elem?, Each, All,
}
use native.Mathlib.Nat.{mul-le-mul}
use oracle_monorepo_near.Near.{
  LookupMap, get, insert, remove, get-insert, get-remove, ok, >>=-eq-ok, checked_mul,
}
use oracle_monorepo_near.Oracle.Types.{
  AccountId, Balance, Outcome, Outcome_eq, WindowId_eq, UserMap_eq, ActiveDataRequest, DataRequest,
  active, finalized, OracleConfig, Requester, Contract, Env, Storage, Whitelist,
}
use oracle_monorepo_near.Oracle.Helpers.{multiply_stake}
use oracle_monorepo_near.Oracle.Access.{get_config, last_config_id}
use oracle_monorepo_near.Oracle.Whitelisting.{
  with_requester, without_requester, whitelist_get_expect, new_no_whitelist, insert_all,
}
use oracle_monorepo_near.Oracle.Active
use oracle_monorepo_near.Oracle.Active.{calc_resolution_bond, write_window}
use oracle_monorepo_near.Oracle.Active.Bond.{largest_bond, multiplier}
use oracle_monorepo_near.Oracle.Active.Staking.{active_stake-eq-ok}
use oracle_monorepo_near.Oracle.Active.Growth.{after_stake-rest}
use oracle_monorepo_near.Oracle.Consistency.{IsPriced}

-- A configuration in which the validity bond and the minimal resolution bond are not both zero.
abbrev pub HasBonds : OracleConfig → Type 0
HasBonds c = 0 < c.validity_bond + c.min_resolution_bond

-- A requester without a multiplier, or with one of 10000 or more.
abbrev pub IsWhole : Requester → Type 0
IsWhole r = 10000 ≤ multiplier r.stake_multiplier

abbrev pub IsFairRequest : DataRequest → Type 0
IsFairRequest (active dr) =
    (0 < dr.request_config.validity_bond + dr.request_config.min_resolution_bond)
    × (10000 ≤ multiplier dr.request_config.stake_multiplier)
IsFairRequest (finalized dr) = Unit

abbrev pub AreWhole : Whitelist → Type 0
AreWhole none = Unit
AreWhole (some m) = (a : AccountId) (r : Requester) → get a m ≡ some r → IsWhole r

pub record IsFair (c : Contract) : Type 0 where
  pub configs : Each (λ i config. HasBonds config) c.configs
  pub listed : AreWhole c.whitelist
  pub requests : Each (λ i d. IsFairRequest d) c.data_requests

largest_positive :
    (dr : ActiveDataRequest)
    → 0 < dr.request_config.validity_bond + dr.request_config.min_resolution_bond
    → 1 ≤ largest_bond dr.request_config
largest_positive dr h = omega arith

pub fair-IsPriced : (dr : ActiveDataRequest) → IsFairRequest (active dr) → IsPriced dr
unfolding calc_resolution_bond multiply_stake checked_mul
fair-IsPriced dr (bonds, whole) zero =
    let big : 1 * 10000
        ≤ largest_bond dr.request_config * multiplier dr.request_config.stake_multiplier =
      mul-le-mul (largest_positive dr bonds) whole in
    elim (Option-cases dr.request_config.stake_multiplier) [
      | inl e ↦ ground (arith, zero, e, bonds)
      | inr (m, e) ↦ ground (arith, zero, e, big, bonds)
    ]

pub no_entries-AreWhole : AreWhole (some [])
unfolding get
no_entries-AreWhole = λ a r h. cc

-- The writes of the whitelist.
insert-AreWhole :
    (r : Requester) (m : LookupMap AccountId Requester)
    → IsWhole r
    → AreWhole (some m)
    → AreWhole (some (insert r.account_id r m))
insert-AreWhole r m whole all = λ a q h. elim (Bool-cases (a == r.account_id)) [
  | inl e ↦ ground (arith, h, get-insert a r.account_id r m, e, whole)
  | inr e ↦ all a q (ground (arith, h, get-insert a r.account_id r m, e))
]

pub with_requester-AreWhole :
    (r : Requester) (list : Whitelist)
    → IsWhole r
    → AreWhole list
    → AreWhole (with_requester r list)
with_requester-AreWhole r (some m) whole all = insert-AreWhole r m whole all
with_requester-AreWhole r none whole all = insert-AreWhole r [] whole no_entries-AreWhole

pub without_requester-AreWhole :
    (a : AccountId) (list : Whitelist) {list' : Whitelist}
    → without_requester a list ≡ ok list'
    → AreWhole list
    → AreWhole list'
without_requester-AreWhole a (some m) {list'} h all =
    let is : some (remove a m) ≡ list' = ground arith in
    rw (← is) (λ b q at. elim (Bool-cases (b == a)) [
      | inl e ↦ absurd (ground (arith, at, get-remove b a m, e))
      | inr e ↦ all b q (ground (arith, at, get-remove b a m, e))
    ])
without_requester-AreWhole a none h all = absurd (ground (arith, h))

pub listed-IsWhole :
    (list : Whitelist) (a : AccountId) {r : Requester}
    → AreWhole list
    → whitelist_get_expect list a ≡ ok r
    → IsWhole r
unfolding whitelist_get_expect new_no_whitelist
listed-IsWhole none a all h = ground (arith, h)
listed-IsWhole (some m) a {r} all h = all a r (ground (arith, h))

pub insert_all-AreWhole :
    (env : Env) (rs : List Requester) (m : LookupMap AccountId Requester) (s : Storage)
    → All IsWhole rs
    → AreWhole (some m)
    → AreWhole (some (insert_all env rs m s).0)
insert_all-AreWhole env [] m s whole all = all
insert_all-AreWhole env (r ∷ rs) m s (first, others) all =
    insert_all-AreWhole env rs (insert r.account_id r m) _ others (insert-AreWhole r m first all)

-- A stake leaves the configuration of its request alone.
pub stake-request_config :
    (env : Env) (dr : ActiveDataRequest) (a : AccountId) (o : Outcome) (x : Balance) (s : Storage)
    {unspent : Balance} {dr' : ActiveDataRequest} {s' : Storage}
    → Active.stake env dr a o x s ≡ ok (unspent, dr', s')
    → dr'.request_config ≡ dr.request_config
unfolding write_window
stake-request_config env dr a o x s {unspent} {dr'} {s'} h =
    let (w, w', s1, s2, _, _, ended) = active_stake-eq-ok env dr a o x s h in
    let (_, _, _, config, _, _) =
      after_stake-rest env (write_window dr w') w' s2 {d' = dr'} {s' = s'} ended in
    ground (arith, config)

pub get_config-there :
    (c : Contract) {config : OracleConfig}
    → get_config c ≡ ok config
    → (i : ℕ) × (get_elem? c.configs i ≡ some config)
unfolding get_config last_config_id
get_config-there c h = let (i, at, h1) = >>=-eq-ok (last_config_id c) _ h in (i, ground (arith, h1))
