-- ===== src/Oracle/Active/Staking.antt =====
-- `ActiveDataRequest::stake` of oracle/src/data_request.rs from the choice of the window to the next one.
use oracle_monorepo_near.Base.{
  ◌+◌, ◌-◌, ◌*◌, ◌≤◌, ◌<◌, ◌≡◌, ◌⊎◌, inl, inr, refl, ap, subst, false, none, some, List, [], ◌∷◌,
  ◌++◌, arith, nat_eq, Option-cases, Pair_eq, String_eq, length, get_elem?, length-append,
}
use oracle_monorepo_near.Near.{Result, ok, >>=-eq-ok}
use oracle_monorepo_near.Oracle.Types.{
  AccountId, Balance, Outcome, Outcome_eq, ResolutionWindow, WindowId_eq, UserMap_eq, Env, Storage,
}
use oracle_monorepo_near.Near.{u16_mod}
use oracle_monorepo_near.Oracle.Types.{ActiveDataRequest}
use oracle_monorepo_near.Oracle.Window
use oracle_monorepo_near.Oracle.Window.{window_id}
use oracle_monorepo_near.Oracle.Window.Staking.{stake-eq-ok as window_stake-eq-ok}
use oracle_monorepo_near.Oracle.Active.{
  windows_len, calc_resolution_bond, window_to_stake, write_window, after_stake, stake,
}
use oracle_monorepo_near.Oracle.Active.Rounds.{new-eq-ok, after_stake-bonded}
use oracle_monorepo_near.Oracle.Active.Chain.{
  IsRound, AreBonded, bond_after, HasWindows, not_staked, last_open, arbitrated, get_last, set_last,
}

-- The window that a stake goes to follows the bonded ones, and a write of it ends the list.
pub record Target (dr : ActiveDataRequest) (bond : Balance) (w : ResolutionWindow) (s s1 : Storage)
    : Type 0 where
  pub before : List ResolutionWindow
  pub closed : AreBonded dr.id 0 bond before
  pub round : IsRound dr.id (length before) (bond_after bond before) w
  pub unbonded : w.bonded_outcome ≡ none
  pub short : length before ≤ windows_len dr
  pub shape :
      (dr.resolution_windows ≡ []) × (before ≡ []) ⊎ (dr.resolution_windows ≡ before ++ w ∷ [])
  pub written : (v : ResolutionWindow) → (write_window dr v).resolution_windows ≡ before ++ v ∷ []
  pub same : s1.stakes ≡ s.stakes

first_window-Target :
    (env : Env) (dr : ActiveDataRequest) (bond : Balance) (s : Storage) {w : ResolutionWindow}
    {s1 : Storage}
    → calc_resolution_bond dr ≡ ok bond
    → dr.resolution_windows ≡ []
    → window_to_stake env dr s ≡ ok (w, s1)
    → Target dr (bond * 2) w s s1
unfolding window_to_stake write_window
first_window-Target env dr bond s {w} {s1} b e h =
    let made : Window.new env dr.id 0 bond dr.initial_challenge_period env.block_timestamp s
        ≡ ok (w, s1) =
      rw (ap length e, b) at h in
    let (round, unbonded, _, _, _, same) =
      new-eq-ok env dr.id 0 bond dr.initial_challenge_period env.block_timestamp s {w = w} {s' = s1}
        made in
    record {
      before = [];
      closed = tt;
      round = round;
      unbonded = unbonded;
      short = omega arith;
      shape = inl (e, refl);
      written = λ v. rw e;
      same = same;
    }

last_window-Target :
    (env : Env) (dr : ActiveDataRequest) (bond : Balance) (before : List ResolutionWindow)
    (v : ResolutionWindow) (s : Storage) {w : ResolutionWindow} {s1 : Storage}
    → dr.resolution_windows ≡ before ++ v ∷ []
    → AreBonded dr.id 0 bond before
    → IsRound dr.id (length before) (bond_after bond before) v
    → v.bonded_outcome ≡ none
    → window_to_stake env dr s ≡ ok (w, s1)
    → Target dr bond w s s1
unfolding window_to_stake write_window
last_window-Target env dr bond before v s {w} {s1} e closed round unbonded h =
    let len : windows_len dr ≡ length before + 1 =
      omega (arith, length-append {0} before (v ∷ []), ap length e) in
    let idx : windows_len dr - 1 ≡ length before = omega (arith, len) in
    let found : get_elem? dr.resolution_windows (windows_len dr - 1) ≡ some v =
      rw idx (rw e (get_last before v)) in
    let some_left : nat_eq (windows_len dr) 0 ≡ false = ground (arith, len) in
    let picked : ◌≡◌ {A = Result (ResolutionWindow × Storage)} (ok (v, s)) (ok (w, s1)) =
      rw (some_left, found) at h in
    let target : Target dr bond v s s = record {
      before = before;
      closed = closed;
      round = round;
      unbonded = unbonded;
      short = omega (arith, len);
      shape = inr e;
      written = λ x. rw (some_left, idx) (rw e (set_last before v x));
      same = refl;
    } in
    let is_w : v ≡ w = cc picked in
    let is_s : s ≡ s1 = cc picked in
    subst (λ x. Target dr bond x s s1) is_w (subst (λ u. Target dr bond v s u) is_s target)

pub windows-Target :
    (env : Env) (dr : ActiveDataRequest) (bond : Balance) (s : Storage) {w : ResolutionWindow}
    {s1 : Storage}
    → calc_resolution_bond dr ≡ ok bond
    → dr.final_arbitrator_triggered ≡ false
    → HasWindows dr.id (bond * 2) dr.final_arbitrator_triggered dr.resolution_windows
    → window_to_stake env dr s ≡ ok (w, s1)
    → Target dr (bond * 2) w s s1
windows-Target env dr bond s b waiting (not_staked e _) h = first_window-Target env dr bond s b e h
windows-Target env dr bond s b waiting (last_open before v e _ closed round unbonded) h =
    last_window-Target env dr (bond * 2) before v s e closed round unbonded h
windows-Target env dr bond s b waiting (arbitrated t _) h = absurd (ground arith)

-- The three parts of a stake that returns.
pub active_stake-eq-ok :
    (env : Env) (dr : ActiveDataRequest) (a : AccountId) (o : Outcome) (amount : Balance)
    (s : Storage) {unspent : Balance} {dr' : ActiveDataRequest} {s' : Storage}
    → stake env dr a o amount s ≡ ok (unspent, dr', s')
    → (w : ResolutionWindow) × (w' : ResolutionWindow) × (s1 : Storage) × (s2 : Storage)
      × (window_to_stake env dr s ≡ ok (w, s1))
      × (Window.stake env w a o amount s1 ≡ ok (unspent, w', s2))
      × (after_stake env (write_window dr w') w' s2 ≡ ok (dr', s'))
unfolding stake
active_stake-eq-ok env dr a o amount s {unspent} {dr'} {s'} h =
    let ((w, s1), chosen, rest) = >>=-eq-ok (window_to_stake env dr s) _ h in
    let ((u, w', s2), staked, rest2) = >>=-eq-ok (Window.stake env w a o amount s1) _ rest in
    let ((dr2, s3), ended, last) = >>=-eq-ok (after_stake env (write_window dr w') w' s2) _ rest2 in
    (w, w', s1, s2, chosen, ground arith, ground arith)

-- What a stake on the target leaves.
staked-HasWindows :
    (env : Env) (dr dr' : ActiveDataRequest) (a : AccountId) (o : Outcome) (amount bond : Balance)
    (w w' : ResolutionWindow) (s s1 s2 s' : Storage) (unspent : Balance)
    → dr.final_arbitrator_triggered ≡ false
    → windows_len dr + 1 < u16_mod
    → Target dr bond w s s1
    → Window.stake env w a o amount s1 ≡ ok (unspent, w', s2)
    → after_stake env (write_window dr w') w' s2 ≡ ok (dr', s')
    → HasWindows dr.id bond dr'.final_arbitrator_triggered dr'.resolution_windows
      × (dr'.id ≡ dr.id)
      × (s'.stakes ≡ s2.stakes)
unfolding write_window after_stake
staked-HasWindows env dr dr' a o amount bond w w' s s1 s2 s' unspent waiting short g staked ended =
    let (_, _, _, form) = window_stake-eq-ok env w a o amount s1 staked in
    elim (Option-cases w'.bonded_outcome) [
      | inl unfilled ↦
          (let same : w' ≡ w = ground (arith, form) in
            let kept : write_window dr w' ≡ dr' = ground arith in
            let windows : HasWindows dr.id bond (write_window dr w').final_arbitrator_triggered
                (write_window dr w').resolution_windows =
              last_open g.before w' (g.written w') waiting g.closed (ground (arith, same, g.round))
                unfilled in
            (
              subst (λ d. HasWindows dr.id bond d.final_arbitrator_triggered d.resolution_windows)
                  kept windows,
              ground (arith, kept),
              ground arith,
            ))
      | inr (p, filled) ↦
          (let (windows, id, stakes, _) =
              after_stake-bonded env (write_window dr w') g.before w' bond s2 (g.written w') waiting
                (omega (arith, g.short)) g.closed (ground (arith, form, g.round)) (p, filled)
                ended in
            (windows, id, stakes))
    ]

-- A stake that returns keeps the windows of a request in order: while the request has fewer than 2
-- ^ 16 - 1 windows and the final arbitrator is not triggered, a request whose windows are numbered
-- in order, bonded up to the last and with bonds that double from twice the resolution bond on has
-- such windows afterwards, and the same id.
pub stake-HasWindows :
    (env : Env) (dr : ActiveDataRequest) (a : AccountId) (o : Outcome) (amount bond : Balance)
    (s : Storage) {unspent : Balance} {dr' : ActiveDataRequest} {s' : Storage}
    → calc_resolution_bond dr ≡ ok bond
    → dr.final_arbitrator_triggered ≡ false
    → windows_len dr + 1 < u16_mod
    → HasWindows dr.id (bond * 2) dr.final_arbitrator_triggered dr.resolution_windows
    → stake env dr a o amount s ≡ ok (unspent, dr', s')
    → HasWindows dr.id (bond * 2) dr'.final_arbitrator_triggered dr'.resolution_windows
      × (dr'.id ≡ dr.id)
stake-HasWindows env dr a o amount bond s {unspent} {dr'} {s'} b waiting short windows h =
    let (w, w', s1, s2, chosen, staked, ended) = active_stake-eq-ok env dr a o amount s h in
    let (kept, id, _) =
      staked-HasWindows env dr dr' a o amount (bond * 2) w w' s s1 s2 s' unspent waiting short
        (windows-Target env dr bond s b waiting windows chosen) staked ended in
    (kept, id)
