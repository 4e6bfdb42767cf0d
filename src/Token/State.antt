-- ===== src/Token/State.antt =====
-- The struct `TokenContract` of token/src/lib.rs, and what a call reads and schedules.
use oracle_monorepo_near.Base.{ℕ, String, Bool, not, Option, List, [], String_eq}
use oracle_monorepo_near.Near.{
  Result, ok, ◌>>◌, require, LookupMap, insert, remove, already_initialized,
}

abbrev pub AccountId : Type 0
AccountId = String

abbrev pub Balance : Type 0
Balance = ℕ

pub record TokenContract : Type 0 where
  pub accounts : LookupMap AccountId Balance
  pub total_supply : Balance
  pub account_storage_usage : ℕ

pub data PromiseResult : Type 0 where
  not_ready failed : PromiseResult
  successful : (value : List ℕ) → PromiseResult

-- What the host tells a call; `parse_amount` is the JSON decoder of a `U128`.
pub record Env : Type 0 where
  pub predecessor_account_id : AccountId
  pub current_account_id : AccountId
  pub attached_deposit : Balance
  pub prepaid_gas : ℕ
  pub promise_result : PromiseResult
  pub parse_amount : List ℕ → Option Balance

-- `on_transfer_then_resolve` is the call of the receiver followed by the callback.
pub data Promise : Type 0 where
  transfer : AccountId → Balance → Promise
  on_transfer_then_resolve :
      (sender receiver : AccountId) (amount : Balance) (msg : String) (gas : ℕ) → Promise

-- The name of the temporary account, 64 letters `a`.
abbrev tmp_account_id : AccountId
tmp_account_id = "aaaaaaaaaaaaaaaaaaaaaaaaaaaaaaaaaaaaaaaaaaaaaaaaaaaaaaaaaaaaaaaa"

-- `TokenContract::new`: the host says whether a state exists and how many bytes the temporary
-- account took.
unfoldable pub new : Bool → ℕ → Result TokenContract
new state_exists measured = do
  require (not state_exists) already_initialized
  ok (record {
    accounts = remove tmp_account_id (insert tmp_account_id 0 []);
    total_supply = 0;
    account_storage_usage = measured;
  })
