-- ===== src/Oracle/Treasury/Promises.antt =====
-- The tokens in the promises of a call of the oracle (oracle/src) are those of its account.
use oracle_monorepo_near.Base.{
  ℕ, ◌+◌, ◌≤◌, ◌≡◌, ◌≢◌, refl, inl, inr, Option, none, some, arith, String_eq, ◌==◌, ◌&&◌,
  if◌then◌else◌, Pair_eq,
}
use oracle_monorepo_near.Near.{ok, >>=-eq-ok, require, wrong_payment_token, wrong_stake_token}
use oracle_monorepo_near.Oracle.Types.{
  AccountId, Balance, Outcome_eq, WindowId_eq, UserMap_eq, OracleConfig, Payload, PromiseOrValue,
  Env, World,
}
use oracle_monorepo_near.Oracle.Handlers.{dr_new}
use oracle_monorepo_near.Oracle.Receiver.{dispatch}
use oracle_monorepo_near.Oracle.Consistency.Calls.{ft_on_transfer-eq-ok}
use oracle_monorepo_near.Oracle.Consistency.Steps.{
  Step, tokens_received, requested, staked, unstaked, claimed, timed_out, provided, arbitrated,
  configured, toggled, fee_updated, listed, dismissed, deposited, withdrawn,
}
use oracle_monorepo_near.Oracle.Treasury.{Account, claim_of, bond_in_time, bond_by_arbitrator, flow}
use oracle_monorepo_near.Oracle.Treasury.Sent.{
  Weight, Sends, weigh_all, amount, sent_all, sent_all-weighed,
}
use oracle_monorepo_near.Oracle.Treasury.Sends.{dr_new-Sends, dr_stake-Sends}
use oracle_monorepo_near.Oracle.Treasury.Endings.{dr_finalize_by_provider-Sends}
use oracle_monorepo_near.Oracle.Treasury.Quiet.{
  set_config-Sends, toggle_pause-Sends, update_fee_config-Sends, add_to_whitelist-Sends,
  remove_from_whitelist-Sends, storage_deposit-Sends, storage_withdraw-Sends, use_storage-Sends,
}
use oracle_monorepo_near.Oracle.Treasury.Paid.{
  IsPaid, payee, config_of, counted, unstaked-IsPaid, claimed-IsPaid, timed_out-IsPaid,
  arbitrated-IsPaid,
}
use oracle_monorepo_near.Oracle.Treasury.Unpaid.{
  paid_out, of_message-unpaid, of_request-unpaid, of_stake-unpaid, other_request,
}

dispatch-Sends :
    (g : Weight) (env : Env) (config : OracleConfig) (a : AccountId) (x : Balance) (p : Payload)
    (w : World) {r : PromiseOrValue Balance} {w' : World}
    → dispatch env config a x p w ≡ ok (r, w')
    → Sends g w w' 0
unfolding dispatch
dispatch-Sends g env config a x (Payload.new_data_request p) w {r} {w'} h =
    let (_, from, h1) =
      >>=-eq-ok (require (config.payment_token == env.predecessor_account_id) wrong_payment_token) _
        h in
    let ((u, w1), made, h2) = >>=-eq-ok (dr_new env a x p w) _ h1 in
    dr_new-Sends g env a x p w {r = u} {w' = w'} (ground arith)
dispatch-Sends g env config a x (Payload.stake_data_request p) w {r} {w'} h =
    let (_, from, h1) =
      >>=-eq-ok (require (config.stake_token == env.predecessor_account_id) wrong_stake_token) _
        h in
    dr_stake-Sends g env a x p w {r = r} {w' = w'} h1

-- The tokens of contract `token` that the promises of a state send to account `b`.
abbrev pub to_account : AccountId → AccountId → Weight
to_account token b t a x = if (t == token) && (a == b) then x else 0

abbrev pub tokens_to : AccountId → AccountId → World → Balance
tokens_to token b w = weigh_all (to_account token b) w.storage.promises

-- What an account paid to `payee` is of the tokens of `token` to `b`: unstakes and claims in the stake
-- token, fees and validity bonds in the payment token.
abbrev pub due : AccountId → AccountId → Option OracleConfig → Account → AccountId → Balance
due token b (some config) acc payee =
    if payee == b
    then (if config.stake_token == token then acc.unstaked + acc.claimed else 0)
      + (if config.payment_token == token then acc.fees + acc.bonds else 0)
    else 0
due token b none acc payee = 0

due-le :
    (token b : AccountId) (c : Option OracleConfig) (acc : Account) (a : AccountId)
    → due token b c acc a ≤ paid_out acc
due-le token b (some config) acc a = ground arith
due-le token b none acc a = omega arith

counted-due :
    (token b : AccountId) (config : OracleConfig) (acc : Account) (a : AccountId)
    → counted (to_account token b) config acc a ≡ due token b (some config) acc a
counted-due token b config acc a = ground arith

-- What a call pays in the account of one request it sends, and in the others it pays nothing.
Step-IsPaid :
    {w w' : World} (st : Step w w')
    → (id : ℕ) × ((g : Weight) → ((t b : AccountId) → g t b 0 ≡ 0) → IsPaid g id st)
      × ((j : ℕ) → j ≢ id → paid_out (flow j st) ≡ 0)
unfolding flow
Step-IsPaid {w} {w'} (tokens_received env a x msg r h) =
    let (p, config, w1, parsed, _, done, charged) =
      ft_on_transfer-eq-ok env a x msg w {r = r} {w' = w'} h in
    let call : Step w w' = tokens_received env a x msg r h in
    let unpaid : (j : ℕ) → paid_out (flow j call) ≡ 0 =
      λ j. rw (flow, parsed) (of_message-unpaid j w x r p) in
    (
      0,
      λ g z. inl (
        unpaid 0,
        omega (
          arith,
          dispatch-Sends g env config a x p w {r = r} {w' = w1} done,
          use_storage-Sends g env a _ _ w1 charged,
        ),
      ),
      λ j apart. unpaid j,
    )
Step-IsPaid {w} (requested env a x p r h) = (
  0,
  λ g z. inl (of_request-unpaid 0 w x, dr_new-Sends g env a x p w {r = r} h),
  λ j apart. of_request-unpaid j w x,
)
Step-IsPaid {w} (staked env a x p r h) = (
  0,
  λ g z. inl (of_stake-unpaid 0 p.id x r, dr_stake-Sends g env a x p w {r = r} h),
  λ j apart. of_stake-unpaid j p.id x r,
)
Step-IsPaid {w} (unstaked env id n o x h) =
    (id, λ g z. unstaked-IsPaid g z env id n o x w h, λ j apart. ground arith)
Step-IsPaid {w} {w'} (claimed env a id h) =
    (id, λ g z. claimed-IsPaid g z env a id w {w' = w'} h, other_request id w (claim_of env a w))
Step-IsPaid {w} {w'} (timed_out env id h) =
    (id, λ g z. timed_out-IsPaid g z env id w {w' = w'} h, other_request id w bond_in_time)
Step-IsPaid {w} (provided env id o h) =
    (0, λ g z. inl (refl, dr_finalize_by_provider-Sends g env id o w h), λ j apart. refl)
Step-IsPaid {w} {w'} (arbitrated env id o r h) = (
  id,
  λ g z. arbitrated-IsPaid g z env id o w {r = r} {w' = w'} h,
  other_request id w (bond_by_arbitrator o),
)
Step-IsPaid {w} (configured env c h) =
    (0, λ g z. inl (refl, set_config-Sends g env c w h), λ j apart. refl)
Step-IsPaid {w} (toggled env h) =
    (0, λ g z. inl (refl, toggle_pause-Sends g env w h), λ j apart. refl)
Step-IsPaid {w} (fee_updated env f h) =
    (0, λ g z. inl (refl, update_fee_config-Sends g env f w h), λ j apart. refl)
Step-IsPaid {w} (listed env r h) =
    (0, λ g z. inl (refl, add_to_whitelist-Sends g env r w h), λ j apart. refl)
Step-IsPaid {w} (dismissed env r h) =
    (0, λ g z. inl (refl, remove_from_whitelist-Sends g env r w h), λ j apart. refl)
Step-IsPaid {w} (deposited env to r h) =
    (0, λ g z. inl (refl, storage_deposit-Sends g env to w {r = r} h), λ j apart. refl)
Step-IsPaid {w} (withdrawn env x r h) =
    (0, λ g z. inl (refl, storage_withdraw-Sends g env x w {r = r} h), λ j apart. refl)

-- Of every fungible token, to every account, a call that returns sends by its promises exactly what
-- it pays in the account of one request: unstakes and claims in the stake token, fees and validity
-- bonds in the payment token of the configuration of that request, a claim to its user, a validity
-- bond to the requester, all else to the caller. In the account of every other request it pays
-- nothing. Such a call is a message of tokens, a request, a stake, an unstake, a claim, one of the
-- three finalizations, or a call of governance or for a storage account.
pub Step-Sends :
    {w w' : World} (st : Step w w')
    → (id : ℕ) × ((token b : AccountId)
        → tokens_to token b w'
          ≡ tokens_to token b w + due token b (config_of id w) (flow id st) (payee st))
      × ((j : ℕ) → j ≢ id → paid_out (flow j st) ≡ 0)
Step-Sends {w} {w'} st =
    let (id, sends, others) = Step-IsPaid st in
    (
      id,
      λ token b. elim (sends (to_account token b) (λ t a. ground arith)) [
        | inl (unpaid, same) ↦
            omega (arith, unpaid, same, due-le token b (config_of id w) (flow id st) (payee st))
        | inr (config, known, paid) ↦
            rw known (omega (arith, paid, counted-due token b config (flow id st) (payee st)))
      ],
      others,
    )

-- The amounts of all tokens to all accounts together.
pub Step-sent :
    {w w' : World} (st : Step w w')
    → (id : ℕ) × (sent_all w'.storage.promises
        ≡ sent_all w.storage.promises + paid_out (flow id st))
      × ((j : ℕ) → j ≢ id → paid_out (flow j st) ≡ 0)
Step-sent {w} {w'} st =
    let (id, sends, others) = Step-IsPaid st in
    let before = sent_all-weighed w.storage.promises in
    let after = sent_all-weighed w'.storage.promises in
    (
      id,
      elim (sends amount (λ t a. refl)) [
        | inl (unpaid, same) ↦ omega (arith, unpaid, same, before, after)
        | inr (config, known, paid) ↦ omega (arith, paid, before, after)
      ],
      others,
    )
