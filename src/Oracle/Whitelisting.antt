-- ===== src/Oracle/Whitelisting.antt =====
-- oracle/src/whitelist.rs, and the `Requester` functions of requester_handler.rs.
use oracle_monorepo_near.Base.{
  ℕ, Bool, true, false, Option, none, some, List, [], ◌∷◌, String, String_eq, ltb,
}
use oracle_monorepo_near.Near.{
  Result, ok, err, ◌>>=◌, ◌>>◌, require, expect, unwrap_on_none, not_whitelisted,
  requester_not_whitelisted, zero_stake_multiplier, uninitiated_whitelist, LookupMap, get, insert,
  remove,
}
use oracle_monorepo_near.Oracle.Types.{
  AccountId, Requester, Whitelist, Outcome, Contract, World, Env, Storage, Promise,
}
use oracle_monorepo_near.Oracle.Helpers.{refund_storage}
use oracle_monorepo_near.Oracle.Logger.{log_whitelist}
use oracle_monorepo_near.Oracle.Access.{assert_gov, on_contract, on_storage}

unfoldable pub new_no_whitelist : AccountId → Requester
new_no_whitelist account_id = record {
  contract_name = "";
  account_id = account_id;
  stake_multiplier = none;
  code_base_url = none;
}

-- The call of the requester's contract.
unfoldable pub set_outcome : Requester → Outcome → List String → Promise
set_outcome r outcome tags = Promise.set_outcome r.account_id r.account_id outcome tags

abbrev pub insert_all :
    Env
    → List Requester
    → LookupMap AccountId Requester
    → Storage
    → LookupMap AccountId Requester × Storage
insert_all env [] m s = (m, s)
insert_all env (r ∷ rs) m s =
    insert_all env rs (insert r.account_id r m) (log_whitelist env r true s)

-- `Whitelist::new`
unfoldable pub new : Env → Option (List Requester) → Storage → Whitelist × Storage
new env (some initial_whitelist) s =
    let (m, s') = insert_all env initial_whitelist [] s in (some m, s')
new env none s = (none, s)

abbrev pub has_key : Option Requester → Bool
has_key none = false
has_key (some r) = true

unfoldable pub contains : Whitelist → AccountId → Result Bool
contains list requester = do m ← expect list unwrap_on_none; ok (has_key (get requester m))

unfoldable pub get_stake_multiplier : Whitelist → AccountId → Result (Option ℕ)
get_stake_multiplier (some m) requester = do
  r ← expect (get requester m) requester_not_whitelisted
  ok r.stake_multiplier
get_stake_multiplier none requester = ok none

unfoldable pub whitelist_get_expect : Whitelist → AccountId → Result Requester
unfolding new_no_whitelist
whitelist_get_expect (some m) requester = expect (get requester m) requester_not_whitelisted
whitelist_get_expect none requester = ok (new_no_whitelist requester)

unfoldable pub assert_whitelisted : Contract → AccountId → Result (Unit {0})
unfolding contains
assert_whitelisted c requester = elim c.whitelist [
  | some m ↦ (contains (some m) requester >>= λ listed. require listed not_whitelisted)
  | none ↦ ok tt
]

abbrev pub check_multiplier : Option ℕ → Result (Unit {0})
check_multiplier (some m) = require (ltb 0 m) zero_stake_multiplier
check_multiplier none = ok tt

-- The first entry makes a whitelist where there was none.
abbrev pub with_requester : Requester → Whitelist → Whitelist
with_requester r (some m) = some (insert r.account_id r m)
with_requester r none = some (insert r.account_id r [])

unfoldable pub add_to_whitelist : Env → Requester → World → Result World
unfolding assert_gov
add_to_whitelist env new_requester w = do
  assert_gov env w.contract
  check_multiplier new_requester.stake_multiplier
  let initial_storage = env.storage_usage w
  let listed =
      on_contract (λ c. record c { whitelist = with_requester new_requester c.whitelist }) w
  let logged = on_storage (log_whitelist env new_requester true) listed
  refund_storage env initial_storage env.predecessor_account_id logged

abbrev pub without_requester : AccountId → Whitelist → Result Whitelist
without_requester a (some m) = ok (some (remove a m))
without_requester a none = err uninitiated_whitelist

unfoldable pub remove_from_whitelist : Env → Requester → World → Result World
unfolding assert_gov
remove_from_whitelist env requester w = do
  assert_gov env w.contract
  let initial_storage = env.storage_usage w
  let logged = on_storage (log_whitelist env requester false) w
  list ← without_requester requester.account_id w.contract.whitelist
  let removed = on_contract (λ c. record c { whitelist = list }) logged
  refund_storage env initial_storage env.predecessor_account_id removed
