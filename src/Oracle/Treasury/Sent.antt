-- ===== src/Oracle/Treasury/Sent.antt =====
-- The tokens in the promises that the oracle (oracle/src) schedules, call by call.
use oracle_monorepo_near.Base.{
  ℕ, ◌+◌, ◌≡◌, refl, List, [], ◌∷◌, ◌++◌, arith, sum_by, ltb, nat_eq, ◌∙◌, Bool-cases, inl, inr,
  String_eq, Pair_eq,
}
use oracle_monorepo_near.Near.{ok, >>=-eq-ok, checked_sub, checked_mul, checked_add, u128_mod}
use oracle_monorepo_near.Oracle.Types.{
  AccountId, Balance, Outcome, answer, invalid, Outcome_eq, WindowId_eq, UserMap_eq,
  ResolutionWindow, ActiveDataRequest, FinalizedDataRequest, ClaimRes, OracleConfig, Promise, Env,
  World, Storage,
}
use oracle_monorepo_near.Oracle.Helpers.{refund_storage, fungible_token_transfer}
use oracle_monorepo_near.Oracle.Helpers.Refunds.{refund_storage-eq-ok}
use oracle_monorepo_near.Oracle.Logger.{
  log_resolution_window, log_outcome_to_stake, log_user_stake, log_stake_transaction,
  log_unstake_transaction, log_claim,
}
use oracle_monorepo_near.Oracle.Access.{schedule_result}
use oracle_monorepo_near.Oracle.Window
use oracle_monorepo_near.Oracle.Window.{settle, record_stakes}
use oracle_monorepo_near.Oracle.Active
use oracle_monorepo_near.Oracle.Active.{
  windows_len, window_to_stake, write_window, push_next_window, invoke_final_arbitrator,
  after_stake, calc_resolution_bond,
}
use oracle_monorepo_near.Oracle.Active.Staking.{active_stake-eq-ok}
use oracle_monorepo_near.Oracle.Finalized
use oracle_monorepo_near.Oracle.Finalized.{no_totals, claim_windows, share, claim, trim_dr}
use oracle_monorepo_near.Oracle.Handlers.{payout}

-- Fungible tokens of a promise. A transfer of NEAR has none.
abbrev pub sent : Promise → Balance
sent (Promise.transfer a x) = 0
sent (Promise.ft_transfer token a x) = x
sent (Promise.set_outcome contract requester o tags) = 0
sent (Promise.and_then p q) = sent p + sent q

abbrev pub sent_all : List Promise → Balance
sent_all = sum_by sent

-- What a transfer of a token to a receiver counts for.
abbrev pub Weight : Type 0
Weight = AccountId → AccountId → Balance → ℕ

-- The transfers of a promise, each counted by `g`.
abbrev pub weigh : Weight → Promise → ℕ
weigh g (Promise.transfer a x) = 0
weigh g (Promise.ft_transfer token a x) = g token a x
weigh g (Promise.set_outcome contract requester o tags) = 0
weigh g (Promise.and_then p q) = weigh g p + weigh g q

abbrev pub weigh_all : Weight → List Promise → ℕ
weigh_all g = sum_by (weigh g)

abbrev pub amount : Weight
amount token a x = x

pub sent-weighed : (p : Promise) → weigh amount p ≡ sent p
sent-weighed (Promise.transfer a x) = refl
sent-weighed (Promise.ft_transfer token a x) = refl
sent-weighed (Promise.set_outcome contract requester o tags) = refl
sent-weighed (Promise.and_then p q) = omega (arith, sent-weighed p, sent-weighed q)

pub sent_all-weighed : (ps : List Promise) → weigh_all amount ps ≡ sent_all ps
sent_all-weighed [] = refl
sent_all-weighed (p ∷ ps) = omega (arith, sent-weighed p, sent_all-weighed ps)

-- From `w` to `w'`, transfers that count for `x` were scheduled.
abbrev pub Sends : Weight → World → World → ℕ → Type 0
Sends g w w' x = weigh_all g w'.storage.promises ≡ weigh_all g w.storage.promises + x

pub weigh_all-append :
    (g : Weight) (ps : List Promise) (p : Promise)
    → weigh_all g (ps ++ p ∷ []) ≡ weigh_all g ps + weigh g p
weigh_all-append g [] p = omega arith
weigh_all-append g (q ∷ ps) p = omega (arith, weigh_all-append g ps p)

pub refund_storage-Sends :
    (g : Weight) (env : Env) (initial : ℕ) (a : AccountId) (w : World) {w' : World}
    → refund_storage env initial a w ≡ ok w'
    → Sends g w w' 0
refund_storage-Sends g env initial a w h =
    let (refund, _, e) = refund_storage-eq-ok env initial a w h in
    elim (Bool-cases (ltb 0 refund)) [
      | inl q ↦
          rw (e, q)
            (omega (arith, weigh_all-append g w.storage.promises (Promise.transfer a refund)))
      | inr q ↦ rw (e, q) (omega arith)
    ]

-- A stake schedules nothing.
window_to_stake-promises :
    (env : Env) (dr : ActiveDataRequest) (s : Storage) {w : ResolutionWindow} {s' : Storage}
    → window_to_stake env dr s ≡ ok (w, s')
    → s'.promises ≡ s.promises
unfolding window_to_stake Window.new log_resolution_window checked_mul checked_add
window_to_stake-promises env dr s h = elim (Bool-cases (nat_eq (windows_len dr) 0)) [
  | inl e ↦ (let (bond, b, h1) = >>=-eq-ok (calc_resolution_bond dr) _ (rw e at h) in ground arith)
  | inr e ↦ ground arith
]

stake-promises :
    (env : Env) (w : ResolutionWindow) (a : AccountId) (o : Outcome) (x : Balance) (s : Storage)
    {unspent : Balance} {w' : ResolutionWindow} {s' : Storage}
    → Window.stake env w a o x s ≡ ok (unspent, w', s')
    → s'.promises ≡ s.promises
unfolding Window.stake settle record_stakes log_outcome_to_stake log_user_stake
    log_stake_transaction log_resolution_window checked_sub checked_add
stake-promises env w a o x s h = ground arith

push_next_window-promises :
    (env : Env) (d : ActiveDataRequest) (w : ResolutionWindow) (s : Storage)
    {d' : ActiveDataRequest} {s' : Storage}
    → push_next_window env d w s ≡ ok (d', s')
    → s'.promises ≡ s.promises
unfolding push_next_window Window.new log_resolution_window checked_mul checked_add
push_next_window-promises env d w s h = ground arith

after_stake-promises :
    (env : Env) (d : ActiveDataRequest) (w : ResolutionWindow) (s : Storage)
    {d' : ActiveDataRequest} {s' : Storage}
    → after_stake env d w s ≡ ok (d', s')
    → s'.promises ≡ s.promises
unfolding after_stake
after_stake-promises env d w s {d'} {s'} h = ground (
  arith,
  push_next_window-promises env (invoke_final_arbitrator d w.bond_size).0 w s {d' = d'} {s' = s'},
)

pub active_stake-promises :
    (env : Env) (dr : ActiveDataRequest) (a : AccountId) (o : Outcome) (x : Balance) (s : Storage)
    {unspent : Balance} {dr' : ActiveDataRequest} {s' : Storage}
    → Active.stake env dr a o x s ≡ ok (unspent, dr', s')
    → s'.promises ≡ s.promises
active_stake-promises env dr a o x s {unspent} {dr'} {s'} h =
    let (w, w', s1, s2, chosen, staked, ended) = active_stake-eq-ok env dr a o x s h in
    after_stake-promises env (write_window dr w') w' s2 {d' = dr'} {s' = s'} ended
    ∙ stake-promises env w a o x s1 staked
    ∙ window_to_stake-promises env dr s chosen

pub unstake-promises :
    (env : Env) (w : ResolutionWindow) (a : AccountId) (o : Outcome) (x : Balance) (s : Storage)
    {taken : Balance} {s' : Storage}
    → Window.unstake env w a o x s ≡ ok (taken, s')
    → (s'.promises ≡ s.promises) × (taken ≡ x)
unfolding Window.unstake record_stakes log_outcome_to_stake log_user_stake log_unstake_transaction
    checked_sub
unstake-promises env w a o x s h = ground arith

pub claim-promises :
    (env : Env) (dr : FinalizedDataRequest) (a : AccountId) (s : Storage) {r : ClaimRes}
    {s' : Storage}
    → claim env dr a s ≡ ok (r, s')
    → s'.promises ≡ s.promises
unfolding claim log_claim
claim-promises env dr a s h =
    let ((n, t), loop, h1) =
      >>=-eq-ok (claim_windows a dr.finalized_outcome dr.resolution_windows no_totals s.stakes) _
        h in
    let (profit, p, h2) =
      >>=-eq-ok (share n.user_correct_stake n.total_incorrect_staked n.total_correct_staked) _ h1 in
    let (fee, o, h3) =
      >>=-eq-ok (share n.user_correct_stake dr.paid_fee n.total_correct_staked) _ h2 in
    let (sum, q, h4) = >>=-eq-ok (checked_add u128_mod n.user_correct_stake profit) _ h3 in
    ground arith

-- A claim sends its two payouts, whichever of them is not zero: stake tokens and payment tokens.
pub payout-weighed :
    (g : Weight) (none : (t a : AccountId) → g t a 0 ≡ 0) (config : OracleConfig) (a : AccountId)
    (r : ClaimRes) {p : Promise}
    → payout config a r ≡ ok p
    → weigh g p
      ≡ g config.stake_token a r.stake_token_payout
        + g config.payment_token a r.payment_token_payout
unfolding payout fungible_token_transfer
payout-weighed g none config a r h =
    let stake : r.stake_token_payout ≡ 0 → g config.stake_token a r.stake_token_payout ≡ 0 =
      λ e. rw e (none config.stake_token a) in
    let fee : r.payment_token_payout ≡ 0 → g config.payment_token a r.payment_token_payout ≡ 0 =
      λ e. rw e (none config.payment_token a) in
    ground (arith, stake, fee)

-- The validity bond goes back with an answer.
abbrev pub returned : Weight → ActiveDataRequest → Outcome → AccountId → AccountId → ℕ
returned g dr (answer x) token a = g token a dr.request_config.validity_bond
returned g dr invalid token a = 0

pub return_validity_bond-Sends :
    (g : Weight) (dr : ActiveDataRequest) (o : Outcome) (token a : AccountId) (w : World)
    → Sends g w
        (schedule_result
          (Finalized.return_validity_bond (trim_dr dr o) token a dr.request_config.validity_bond)
          w)
        (returned g dr o token a)
unfolding Finalized.return_validity_bond trim_dr
return_validity_bond-Sends g dr (answer x) token a w =
    weigh_all-append g w.storage.promises
      (Promise.ft_transfer token a dr.request_config.validity_bond)
return_validity_bond-Sends g dr invalid token a w = omega arith
