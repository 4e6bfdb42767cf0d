-- ===== src/Token/Core.antt =====
-- token/src/fungible_token_core.rs. The text lines of `env::log` are left out.
use oracle_monorepo_near.Base.{
  ℕ, ◌-◌, String, Option, none, some, ltb, if◌then◌else◌, min, String_eq,
}
use oracle_monorepo_near.Near.{
  Result, ok, err, ◌>>=◌, ◌>>◌, checked_sub, checked_add, u128_mod, get, or_zero, unreachable,
}
use oracle_monorepo_near.Token.State.{
  AccountId, Balance, TokenContract, Env, not_ready, failed, successful, Promise,
  on_transfer_then_resolve,
}
use oracle_monorepo_near.Token.Internal.{assert_one_yocto, assert_self, internal_transfer, put}

-- 25 TGas and `GAS_FOR_RESOLVE_TRANSFER`.
abbrev pub gas_for_ft_transfer_call : ℕ
gas_for_ft_transfer_call = 30000000000000

unfoldable pub ft_transfer : Env → AccountId → Balance → TokenContract → Result TokenContract
unfolding assert_one_yocto
ft_transfer env receiver_id amount c = do
  assert_one_yocto env
  internal_transfer env.predecessor_account_id receiver_id amount c

unfoldable pub ft_transfer_call :
    Env → AccountId → Balance → String → TokenContract → Result (Promise × TokenContract)
unfolding assert_one_yocto
ft_transfer_call env receiver_id amount msg c = do
  assert_one_yocto env
  let sender_id = env.predecessor_account_id
  c' ← internal_transfer sender_id receiver_id amount c
  gas ← checked_sub env.prepaid_gas gas_for_ft_transfer_call
  ok (on_transfer_then_resolve sender_id receiver_id amount msg gas, c')

unfoldable pub ft_total_supply : TokenContract → Balance
ft_total_supply c = c.total_supply

unfoldable pub ft_balance_of : AccountId → TokenContract → Balance
ft_balance_of account_id c = or_zero (get account_id c.accounts)

-- What the receiver reports as unused, at most the amount; all of it if the call failed.
abbrev pub parsed_or_all : Balance → Option Balance → Balance
parsed_or_all amount (some unused) = min amount unused
parsed_or_all amount none = amount

unfoldable pub unused_amount : Env → Balance → Result Balance
unused_amount env amount = elim env.promise_result [
  | not_ready ↦ err unreachable
  | successful value ↦ ok (parsed_or_all amount (env.parse_amount value))
  | failed ↦ ok amount
]

-- The refund goes to the sender, or is burnt if the sender's account is gone. The first component
-- is the amount that the receiver used.
unfoldable pub refund :
    AccountId → AccountId → Balance → Balance → TokenContract → Result (Balance × TokenContract)
refund sender_id receiver_id amount unused c =
    let receiver_balance = or_zero (get receiver_id c.accounts) in
    let refund_amount = min receiver_balance unused in
    let taken = put receiver_id (receiver_balance - refund_amount) c in
    if ltb 0 receiver_balance
    then elim (get sender_id taken.accounts) [
      | some sender_balance ↦ (do
        sum ← checked_add u128_mod sender_balance refund_amount
        ok (amount - refund_amount, put sender_id sum taken))
      | none ↦ (do
        supply ← checked_sub taken.total_supply refund_amount
        ok (amount, record taken { total_supply = supply }))
    ]
    else ok (amount, c)

unfoldable pub ft_resolve_transfer :
    Env → AccountId → AccountId → Balance → TokenContract → Result (Balance × TokenContract)
unfolding assert_self unused_amount
ft_resolve_transfer env sender_id receiver_id amount c = do
  assert_self env
  unused ← unused_amount env amount
  if ltb 0 unused then refund sender_id receiver_id amount unused c else ok (amount, c)
