-- ===== src/Oracle/Guards/Listed.antt =====
-- Which outcomes the list of a request allows, for `assert_valid_outcome` of
-- oracle/src/data_request.rs.
use oracle_monorepo_near.Base.{
  ℕ, suc, ◌≡◌, inl, inr, true, Bool-cases, Option, none, some, List, [], ◌∷◌, arith, ◌==◌, String,
  String_eq, get_elem?,
}
use oracle_monorepo_near.Near.{ok}
use oracle_monorepo_near.Oracle.Types.{
  Outcome, answer, invalid, AnswerType, Outcome_eq, ActiveDataRequest,
}
use oracle_monorepo_near.Oracle.Guards.{contains, check_listed, assert_valid_outcome}

-- Without a list every outcome is allowed. A list allows its strings, no number, and `Invalid`.
abbrev pub IsAllowed : Option (List String) → Outcome → Type 0
IsAllowed none o = Unit
IsAllowed (some outcomes) (answer (AnswerType.string s)) = (i : ℕ) × (get_elem? outcomes i ≡ some s)
IsAllowed (some outcomes) (answer (AnswerType.number n)) = ⊥
IsAllowed (some outcomes) invalid = Unit

contains-at :
    (s : String) (xs : List String) → contains s xs ≡ true → (i : ℕ) × (get_elem? xs i ≡ some s)
contains-at s [] h = absurd (ground arith)
contains-at s (x ∷ xs) h = elim (Bool-cases (x == s)) [
  | inl e ↦ (0, ground (arith, String_eq.beq_iff x s))
  | inr e ↦ (let (i, at) = contains-at s xs (ground arith) in (suc i, at))
]

check_listed-IsAllowed :
    (list : Option (List String)) (o : Outcome) {u : Unit {0}}
    → check_listed list o ≡ ok u
    → IsAllowed list o
unfolding check_listed
check_listed-IsAllowed none o h = tt
check_listed-IsAllowed (some outcomes) (answer (AnswerType.string s)) h =
    contains-at s outcomes (ground arith)
check_listed-IsAllowed (some outcomes) (answer (AnswerType.number n)) h = absurd (ground arith)
check_listed-IsAllowed (some outcomes) invalid h = tt

pub assert_valid_outcome-IsAllowed :
    (dr : ActiveDataRequest) (o : Outcome) {u : Unit {0}}
    → assert_valid_outcome dr o ≡ ok u
    → IsAllowed dr.outcomes o
unfolding assert_valid_outcome
assert_valid_outcome-IsAllowed dr o h = check_listed-IsAllowed dr.outcomes o h
