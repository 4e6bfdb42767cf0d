-- ===== src/Oracle/Validation.antt =====
-- oracle/src/callback_args.rs. `len() as u8` keeps the length modulo 256.
use oracle_monorepo_near.Base.{
  ℕ, ◌%◌, Bool, not, true, Option, none, some, List, leb, nat_eq, ◌&&◌, ◌||◌, length, String,
}
use oracle_monorepo_near.Near.{
  Result, ◌>>=◌, ◌>>◌, require, description_missing, too_many_sources, challenge_too_short,
  challenge_too_long, too_many_tags, invalid_outcome_list, checked_mul, u8_mod, u64_mod,
}
use oracle_monorepo_near.Oracle.Types.{Source, NewDataRequestArgs, Contract, Env}
use oracle_monorepo_near.Oracle.Access.{get_config}

-- `sources.as_ref().unwrap_or(&vec![]).len() as u8`
abbrev pub sources_len : Option (List Source) → ℕ
sources_len none = 0
sources_len (some sources) = length sources % u8_mod

abbrev pub is_described : NewDataRequestArgs → Bool
is_described a = elim a.description [
  | none ↦ not (nat_eq (sources_len a.sources) 0)
  | some _ ↦ true
]

abbrev pub is_outcome_list_ok : ℕ → ℕ → Option (List String) → Bool
is_outcome_list_ok min_outcomes max_outcomes none = true
is_outcome_list_ok min_outcomes max_outcomes (some outcomes) =
    leb (length outcomes % u8_mod) max_outcomes && leb min_outcomes (length outcomes % u8_mod)

unfoldable pub dr_validate : Env → NewDataRequestArgs → Contract → Result (Unit {0})
unfolding get_config
dr_validate env data_request c = do
  config ← get_config c
  let challenge_period = data_request.challenge_period
  require (is_described data_request) description_missing
  require (leb (sources_len data_request.sources) env.consts.max_sources) too_many_sources
  require (leb config.min_initial_challenge_window_duration challenge_period) challenge_too_short
  longest ←
      checked_mul u64_mod config.default_challenge_window_duration env.consts.min_period_multiplier
  require (leb challenge_period longest) challenge_too_long
  require
      (nat_eq (length data_request.tags) 0
        || leb (length data_request.tags % u8_mod) env.consts.max_tags)
      too_many_tags
  require (is_outcome_list_ok env.consts.min_outcomes config.max_outcomes data_request.outcomes)
      invalid_outcome_list
