-- ===== src/Oracle/Helpers/Refunds.antt =====
-- The refund of oracle/src/helpers.rs.
use oracle_monorepo_near.Base.{
  ℕ, ◌+◌, ◌-◌, ◌*◌, ◌≡◌, inl, inr, arith, ltb, if◌then◌else◌, Bool-cases, Pair_eq, String_eq,
}
use oracle_monorepo_near.Near.{ok, checked_add, checked_mul}
use oracle_monorepo_near.Oracle.Types.{AccountId, Balance, World, Env, Promise}
use oracle_monorepo_near.Oracle.Helpers.{refund_storage, schedule}

-- A refund that returns pays out of the attached deposit what is left of it after the added
-- storage is paid for, or the deposit with the price of the freed storage, by a promise if that is
-- not zero, and changes nothing else.
pub refund_storage-eq-ok :
    (env : Env) (initial : ℕ) (a : AccountId) (w : World) {w' : World}
    → refund_storage env initial a w ≡ ok w'
    → (refund : Balance) × (refund
          + (env.storage_usage w - initial) * env.consts.storage_price_per_byte
        ≡ env.attached_deposit
          + (initial - env.storage_usage w) * env.consts.storage_price_per_byte)
      × (w' ≡ (if ltb 0 refund then schedule (Promise.transfer a refund) w else w))
unfolding refund_storage checked_mul checked_add
refund_storage-eq-ok env initial a w h = elim (Bool-cases (ltb initial (env.storage_usage w))) [
  | inl more ↦ (
    env.attached_deposit - (env.storage_usage w - initial) * env.consts.storage_price_per_byte,
    ground arith,
    ground arith,
  )
  | inr less ↦ (
    env.attached_deposit + (initial - env.storage_usage w) * env.consts.storage_price_per_byte,
    ground arith,
    ground arith,
  )
]

pub refund_storage-keeps :
    (env : Env) (initial : ℕ) (a : AccountId) (w : World) {w' : World}
    → refund_storage env initial a w ≡ ok w'
    → (w'.contract ≡ w.contract)
      × (w'.storage.stakes ≡ w.storage.stakes)
      × (w'.storage.logs ≡ w.storage.logs)
refund_storage-keeps env initial a w h =
    let (refund, _, e) = refund_storage-eq-ok env initial a w h in ground (arith, e)
