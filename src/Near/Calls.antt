-- ===== src/Near/Calls.antt =====
-- A contract call returns, or panics and leaves no trace of its changes. One constructor for each
-- `assert!`, `expect`, `panic!` and checked operation of oracle/src and token/src.
use oracle_monorepo_near.Base.{◌≡◌, refl, ◌⊎◌, inl, inr, Bool, true, false, Option, none, some}

pub data Panic : Type 0 where
  -- the language: overflow-checks = true, `unwrap` on `None`, division by zero
  arithmetic_overflow unwrap_on_none division_by_zero unreachable : Panic
  -- oracle/src/lib.rs, helpers.rs
  not_governance oracle_is_paused wrong_caller attached_deposit_too_small : Panic
  -- oracle/src/callback_args.rs
  description_missing too_many_sources challenge_too_short challenge_too_long : Panic
  too_many_tags invalid_outcome_list : Panic
  -- oracle/src/data_request.rs
  no_resolution_window no_bonded_outcome_found no_final_outcome incompatible_outcome : Panic
  outcome_not_string wrong_outcome_type wrong_multiplier outcome_incompatible_for_round : Panic
  still_in_progress only_final_arbitrator dispute_round_not_over not_final_arbitrator : Panic
  arbitrator_not_invoked arbitrator_invoked validity_bond_not_reached not_enough_gas : Panic
  nothing_to_claim not_the_provider not_a_provider_request data_request_not_found : Panic
  already_finalized not_yet_finalized : Panic
  -- oracle/src/resolution_window.rs
  bonded_outcome_locked less_staked_than_amount : Panic
  -- oracle/src/storage_manager.rs
  not_one_yocto deposit_below_minimum not_enough_storage storage_cost_not_covered : Panic
  -- oracle/src/whitelist.rs, oracle_config.rs, fee_config.rs, fungible_token_receiver.rs
  not_whitelisted requester_not_whitelisted zero_stake_multiplier uninitiated_whitelist : Panic
  zero_validity_bond zero_resolution_bond total_value_too_high fee_percentage_too_high : Panic
  invalid_payload wrong_payment_token wrong_stake_token : Panic
  -- oracle/src/upgrade.rs
  not_initialized : Panic
  -- token/src
  account_not_registered balance_overflow not_enough_balance same_account method_is_private : Panic
  deposit_not_positive not_exact_minimum already_registered positive_balance : Panic
  already_initialized : Panic

pub data Result {ℓ} (A : Type ℓ) : Type ℓ where
  ok : A → Result A
  err : Panic → Result A

-- `assert!(test, …)`
abbrev pub require : Bool → Panic → Result (Unit {0})
require true e = ok tt
require false e = err e

-- `option.expect(…)`
abbrev pub expect {ℓ} : {A : Type ℓ} → Option A → Panic → Result A
expect none e = err e
expect (some a) e = ok a

infixl 5 ◌>>=◌
abbrev pub ◌>>=◌ {ℓ κ} : {A : Type ℓ} {B : Type κ} → Result A → (A → Result B) → Result B
err panic >>= rest = err panic
ok a >>= rest = rest a

-- What came before the rest of a call that returns, returned too.
pub >>=-eq-ok {ℓ κ} :
    {A : Type ℓ} {B : Type κ} (call : Result A) (rest : A → Result B) {last : B}
    → (call >>= rest) ≡ ok last
    → (first : A) × (call ≡ ok first) × (rest first ≡ ok last)
>>=-eq-ok (err panic) rest returns = cc
>>=-eq-ok (ok first) rest returns = (first, refl, returns)

-- A chain whose first call returns goes on with what it returned.
pub >>=-of-ok {ℓ κ} :
    {A : Type ℓ} {B : Type κ} (call : Result A) (rest : A → Result B) {first : A}
    → call ≡ ok first
    → (call >>= rest) ≡ rest first
>>=-of-ok call rest returns = rw returns refl

infixl 5 ◌>>◌
abbrev pub ◌>>◌ {ℓ} : {B : Type ℓ} → Result (Unit {0}) → Result B → Result B
m >> k = m >>= λ _. k

pub require-eq-ok : (b : Bool) (e : Panic) {u : Unit {0}} → require b e ≡ ok u → b ≡ true
require-eq-ok true e h = refl
require-eq-ok false e h = cc

pub expect-eq-ok {ℓ} :
    {A : Type ℓ} (o : Option A) (e : Panic) {a : A} → expect o e ≡ ok a → o ≡ some a
expect-eq-ok none e h = cc
expect-eq-ok (some a) e h = cc

abbrev pub IsOk {ℓ} : {A : Type ℓ} → Result A → Type 0
IsOk (ok a) = Unit
IsOk (err e) = ⊥

pub Result-cases {ℓ} :
    {A : Type ℓ} (r : Result A) → ((e : Panic) × (r ≡ err e)) ⊎ ((a : A) × (r ≡ ok a))
Result-cases (ok a) = inr (a, refl)
Result-cases (err e) = inl (e, refl)

pub ok_pair_injective :
    {A B : Type 0} (a c : A) (b d : B)
    → ◌≡◌ {A = Result (A × B)} (ok (a, b)) (ok (c, d))
    → (a ≡ c) × (b ≡ d)
ok_pair_injective a c b d h = (cc, cc)
