-- ===== src/Oracle/Governance.antt =====
-- Who may change the configuration (oracle/src/oracle_config.rs, fee_config.rs, whitelist.rs), and
-- what a new configuration leaves.
use oracle_monorepo_near.Base.{
  ◌-◌, ◌<◌, ◌≡◌, inl, inr, refl, some, List, [], ◌∷◌, ◌++◌, arith, ltb, Pair_eq, String_eq, length,
  get_elem?,
}
use oracle_monorepo_near.Near.{ok, Result-cases, >>=-eq-ok, require, checked_sub}
use oracle_monorepo_near.Oracle.Types.{Requester, OracleConfig, FeeConfig, World, Env}
use oracle_monorepo_near.Oracle.Access.{get_config, assert_gov, last_config_id}
use oracle_monorepo_near.Base.{length-append}
use oracle_monorepo_near.Oracle.Logger.{log_oracle_config}
use oracle_monorepo_near.Oracle.Configuration.{set_config, toggle_pause, update_fee_config}
use oracle_monorepo_near.Oracle.Whitelisting.{add_to_whitelist, remove_from_whitelist}
use oracle_monorepo_near.Oracle.Helpers.Refunds.{refund_storage-keeps}

-- The caller is the governance account of the current configuration.
abbrev pub IsGovernance : Env → World → Type 0
IsGovernance env w =
    (c : OracleConfig) × (get_config w.contract ≡ ok c) × (c.gov ≡ env.predecessor_account_id)

pub assert_gov-IsGovernance :
    (env : Env) (w : World) {u : Unit {0}} → assert_gov env w.contract ≡ ok u → IsGovernance env w
unfolding assert_gov
assert_gov-IsGovernance env w h = elim (Result-cases (get_config w.contract)) [
  | inl (e, q) ↦ absurd (ground arith)
  | inr (c, q) ↦ (c, q, ground (arith, String_eq.beq_iff c.gov env.predecessor_account_id))
]

-- A call that returned, of one of the five handlers that change the configuration, the fees, the
-- pause or the whitelist.
pub data GovernanceCall (env : Env) (w w' : World) : Type 0 where
  config_set : (c : OracleConfig) → set_config env c w ≡ ok w' → GovernanceCall env w w'
  pause_toggled : toggle_pause env w ≡ ok w' → GovernanceCall env w w'
  fee_updated : (f : FeeConfig) → update_fee_config env f w ≡ ok w' → GovernanceCall env w w'
  whitelisted : (r : Requester) → add_to_whitelist env r w ≡ ok w' → GovernanceCall env w w'
  dismissed : (r : Requester) → remove_from_whitelist env r w ≡ ok w' → GovernanceCall env w w'

-- Each of the five handlers that returns was called by the governance account of the current
-- configuration.
pub GovernanceCall-IsGovernance :
    (env : Env) (w : World) {w' : World} → GovernanceCall env w w' → IsGovernance env w
unfolding set_config toggle_pause update_fee_config add_to_whitelist remove_from_whitelist
GovernanceCall-IsGovernance env w (config_set c h) =
    assert_gov-IsGovernance env w (>>=-eq-ok (assert_gov env w.contract) _ h).1
GovernanceCall-IsGovernance env w (pause_toggled h) =
    assert_gov-IsGovernance env w (>>=-eq-ok (assert_gov env w.contract) _ h).1
GovernanceCall-IsGovernance env w (fee_updated f h) =
    assert_gov-IsGovernance env w (>>=-eq-ok (assert_gov env w.contract) _ h).1
GovernanceCall-IsGovernance env w (whitelisted r h) =
    assert_gov-IsGovernance env w (>>=-eq-ok (assert_gov env w.contract) _ h).1
GovernanceCall-IsGovernance env w (dismissed r h) =
    assert_gov-IsGovernance env w (>>=-eq-ok (assert_gov env w.contract) _ h).1

get_elem?-append_last {ℓ} :
    {A : Type ℓ} (xs : List A) (x : A) → get_elem? (xs ++ x ∷ []) (length xs) ≡ some x
get_elem?-append_last [] x = refl
get_elem?-append_last (y ∷ xs) x = get_elem?-append_last xs x

current :
    (cs : List OracleConfig) (c : OracleConfig)
    → get_elem? (cs ++ c ∷ []) (length (cs ++ c ∷ []) - 1) ≡ some c
current cs c =
    let idx : length (cs ++ c ∷ []) - 1 ≡ length cs =
      omega (arith, length-append {0} cs (c ∷ [])) in
    rw idx (get_elem?-append_last cs c)

-- A `set_config` that returns has positive bonds in the new configuration and makes it the current
-- one, by adding it after the earlier ones; nothing else of the contract and no stake changes.
pub set_config_lem :
    (env : Env) (config : OracleConfig) (w : World) {w' : World}
    → set_config env config w ≡ ok w'
    → (0 < config.validity_bond)
      × (0 < config.min_resolution_bond)
      × (get_config w'.contract ≡ ok config)
      × (w'.contract ≡ record (w.contract) { configs = w.contract.configs ++ config ∷ [] })
      × (w'.storage.stakes ≡ w.storage.stakes)
unfolding set_config last_config_id get_config log_oracle_config checked_sub
set_config_lem env config w {w'} h =
    let (_, gov, h1) = >>=-eq-ok (assert_gov env w.contract) _ h in
    let (_, bond, h2) = >>=-eq-ok (require (ltb 0 config.validity_bond) _) _ h1 in
    let (_, least, h3) = >>=-eq-ok (require (ltb 0 config.min_resolution_bond) _) _ h2 in
    let (last, at, h4) =
      >>=-eq-ok (checked_sub (length (w.contract.configs ++ config ∷ [])) 1) _ h3 in
    let (contract, stakes, _) = refund_storage-keeps env _ env.predecessor_account_id _ h4 in
    (
      ground (arith, bond),
      ground (arith, least),
      ground (
        arith,
        contract,
        length-append {0} w.contract.configs (config ∷ []),
        current w.contract.configs config,
      ),
      contract,
      stakes,
    )
