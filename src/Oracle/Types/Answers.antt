-- ===== src/Oracle/Types/Answers.antt =====
-- Outcomes and their equality (oracle/src/data_request.rs, logger.rs).
use oracle_monorepo_near.Base.{
  ℕ, String, ◌≡◌, ◌↔◌, Bool, true, false, ◌&&◌, arith, nat_eq, Eq, ◌==◌, String_eq,
}

abbrev pub AccountId : Type 0
AccountId = String

-- u128
abbrev pub Balance : Type 0
Balance = ℕ

pub record AnswerNumberType : Type 0 where
  pub value : ℕ
  pub multiplier : ℕ
  pub negative : Bool

pub data AnswerType : Type 0 where
  string : String → AnswerType
  number : AnswerNumberType → AnswerType

pub data Outcome : Type 0 where
  answer : AnswerType → Outcome
  invalid : Outcome

pub data DataRequestDataType : Type 0 where
  string : DataRequestDataType
  number : ℕ → DataRequestDataType

abbrev bool_eq : Bool → Bool → Bool
bool_eq true b = b
bool_eq false true = false
bool_eq false false = true

abbrev pub outcome_eq : Outcome → Outcome → Bool
outcome_eq invalid invalid = true
outcome_eq (answer (AnswerType.string s)) (answer (AnswerType.string t)) = s == t
outcome_eq (answer (AnswerType.number m)) (answer (AnswerType.number n)) =
    nat_eq m.value n.value && (nat_eq m.multiplier n.multiplier && bool_eq m.negative n.negative)
outcome_eq _ _ = false

pub outcome_eq_iff : (o p : Outcome) → (outcome_eq o p ≡ true) ↔ (o ≡ p)
outcome_eq_iff invalid invalid = ground arith
outcome_eq_iff invalid (answer a) = ground arith
outcome_eq_iff (answer (AnswerType.string s)) invalid = ground arith
outcome_eq_iff (answer (AnswerType.number s)) invalid = ground arith
outcome_eq_iff (answer (AnswerType.string s)) (answer (AnswerType.string t)) =
    ground (arith, String_eq.beq_iff s t)
outcome_eq_iff (answer (AnswerType.number m)) (answer (AnswerType.number n)) = ground arith
outcome_eq_iff (answer (AnswerType.string s)) (answer (AnswerType.number n)) = ground arith
outcome_eq_iff (answer (AnswerType.number m)) (answer (AnswerType.string t)) = ground arith

instance abbrev pub Outcome_eq : Eq Outcome
Outcome_eq = record { beq = outcome_eq; beq_iff = outcome_eq_iff }
