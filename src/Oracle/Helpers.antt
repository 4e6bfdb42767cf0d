-- ===== src/Oracle/Helpers.antt =====
-- oracle/src/helpers.rs, and `fungible_token_transfer` of fungible_token.rs.
pub mod Refunds
use oracle_monorepo_near.Base.{
  ℕ, ◌+◌, ◌-◌, ◌*◌, ◌/◌, ◌^◌, ◌++◌, [], ◌∷◌, Option, none, some, ltb, leb, nat_eq, if◌then◌else◌,
}
use oracle_monorepo_near.Near.{
  Result, ok, err, ◌>>=◌, ◌>>◌, require, division_by_zero, arithmetic_overflow,
  attached_deposit_too_small, checked_add, checked_mul, u128_mod,
}
use oracle_monorepo_near.Oracle.Types.{AccountId, Balance, Env, World, Storage, Promise}

-- `as_u128` of the crate uint panics where the value has more than 128 bits.
abbrev pub as_u128 : ℕ → Result ℕ
as_u128 n = if ltb n u128_mod then ok n else err arithmetic_overflow

unfoldable pub calc_product : ℕ → ℕ → ℕ → Result ℕ
calc_product a b divisor = do
  product ← checked_mul (2 ^ 256) a b
  if nat_eq divisor 0 then err division_by_zero else as_u128 (product / divisor)

-- A scheduled promise is the last of the world's promises.
abbrev pub schedule_in : Promise → Storage → Storage
schedule_in p s = record s { promises = s.promises ++ p ∷ [] }

abbrev pub schedule : Promise → World → World
schedule p w = record w { storage = schedule_in p w.storage }

-- The refund of a call that used more storage, and of one that freed storage or used none.
abbrev pub refund_after_use : Env → ℕ → Result ℕ
refund_after_use env used = do
  required_deposit ← checked_mul u128_mod used env.consts.storage_price_per_byte
  require (leb required_deposit env.attached_deposit) attached_deposit_too_small
  ok (env.attached_deposit - required_deposit)

abbrev pub refund_after_release : Env → ℕ → Result ℕ
refund_after_release env released = do
  freed ← checked_mul u128_mod released env.consts.storage_price_per_byte
  checked_add u128_mod env.attached_deposit freed

unfoldable pub refund_storage : Env → ℕ → AccountId → World → Result World
refund_storage env initial_storage sender_id w = do
  let current_storage = env.storage_usage w
  refund_amount ←
      (if ltb initial_storage current_storage
        then refund_after_use env (current_storage - initial_storage)
        else refund_after_release env (initial_storage - current_storage))
  ok (if ltb 0 refund_amount then schedule (Promise.transfer sender_id refund_amount) w else w)

unfoldable pub ns_to_ms : ℕ → ℕ
ns_to_ms ns_timestamp = ns_timestamp / 1000000

unfoldable pub multiply_stake : ℕ → Option ℕ → Result ℕ
multiply_stake stake (some m) = do product ← checked_mul u128_mod stake m; ok (product / 10000)
multiply_stake stake none = ok stake

unfoldable pub fungible_token_transfer : AccountId → AccountId → Balance → Promise
fungible_token_transfer token_account_id receiver_id value =
    Promise.ft_transfer token_account_id receiver_id value
