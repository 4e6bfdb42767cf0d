-- ===== src/Oracle/Active/Growth.antt =====
-- How `ActiveDataRequest::stake` of oracle/src/data_request.rs changes the list of windows.
use oracle_monorepo_near.Base.{
  ℕ, zero, suc, ◌*◌, ◌^◌, ◌≤◌, ◌<◌, ◌≡◌, ◌⊎◌, inl, inr, refl, ap, false, none, List, [], ◌∷◌, ◌++◌,
  arith, Bool-cases, Option-cases, Pair_eq, String_eq, length, length-append, All,
}
use mathlib.Core.List.{append_assoc, append-nil}
use native.Mathlib.Nat.{pow-suc}
use oracle_monorepo_near.Near.{ok, >>=-eq-ok, u128_mod}
use oracle_monorepo_near.Oracle.Types.{
  AccountId, Balance, Outcome, Outcome_eq, ResolutionWindow, WindowId_eq, UserMap_eq, Env, Storage,
  ActiveDataRequest,
}
use oracle_monorepo_near.Oracle.Window
use oracle_monorepo_near.Oracle.Window.Staking.{stake-eq-ok as window_stake-eq-ok}
use oracle_monorepo_near.Oracle.Active.{
  windows_len, calc_resolution_bond, write_window, invoke_final_arbitrator, push_next_window,
  after_stake, stake,
}
use oracle_monorepo_near.Oracle.Active.Rounds.{new-eq-ok}
use oracle_monorepo_near.Oracle.Active.Chain.{bond_after, bond_after-append, HasWindows}
use oracle_monorepo_near.Oracle.Active.Staking.{windows-Target, active_stake-eq-ok}

bond_after-le : (bond : Balance) (ws : List ResolutionWindow) → bond ≤ bond_after bond ws
bond_after-le bond [] = omega arith
bond_after-le bond (w ∷ ws) = omega (arith, bond_after-le (bond * 2) ws)

-- A bond that fits 128 bits is doubled less often than a bond that does not.
length-lt :
    (k : ℕ) (bond : Balance) (ws : List ResolutionWindow)
    → bond_after bond ws < u128_mod
    → u128_mod ≤ bond * 2 ^ k
    → length ws < k
length-lt zero bond ws small big = absurd (omega (arith, bond_after-le bond ws))
length-lt (suc k) bond [] small big = omega arith
length-lt (suc k) bond (w ∷ ws) small big =
    omega (arith, length-lt k (bond * 2) ws small (omega (arith, simp pow-suc at big)))

-- What comes after the windows: nothing, or a window with twice the bond, which fits 128 bits.
abbrev pub IsNext : Balance → List ResolutionWindow → Type 0
IsNext bond rest =
    (rest ≡ [])
    ⊎ ((next : ResolutionWindow) × (rest ≡ next ∷ [])
        × (next.bonded_outcome ≡ none)
        × (next.bond_size ≡ bond * 2)
        × (next.bond_size < u128_mod))

push_next_window-rest :
    (env : Env) (d : ActiveDataRequest) (w : ResolutionWindow) (s : Storage)
    {d' : ActiveDataRequest} {s' : Storage}
    → push_next_window env d w s ≡ ok (d', s')
    → (next : ResolutionWindow) × (d'
        ≡ record d { resolution_windows = d.resolution_windows ++ next ∷ [] })
      × (next.bonded_outcome ≡ none)
      × (next.bond_size ≡ w.bond_size * 2)
      × (next.bond_size < u128_mod)
      × (s'.stakes ≡ s.stakes)
unfolding push_next_window
push_next_window-rest env d w s h =
    let ((next, s1), made, rest) = >>=-eq-ok (Window.new env d.id _ w.bond_size _ _ s) _ h in
    let (round, unbonded, _, _, small, same) = new-eq-ok env d.id _ w.bond_size _ _ s made in
    (next, ground arith, unbonded, round.2, small, ground (arith, same))

invoke_final_arbitrator-keeps :
    (d : ActiveDataRequest) (bond : Balance)
    → ((invoke_final_arbitrator d bond).0.resolution_windows ≡ d.resolution_windows)
      × ((invoke_final_arbitrator d bond).0.request_config ≡ d.request_config)
      × ((invoke_final_arbitrator d bond).0.global_config_id ≡ d.global_config_id)
unfolding invoke_final_arbitrator
invoke_final_arbitrator-keeps d bond = ground arith

pub after_stake-rest :
    (env : Env) (d : ActiveDataRequest) (w : ResolutionWindow) (s : Storage)
    {d' : ActiveDataRequest} {s' : Storage}
    → after_stake env d w s ≡ ok (d', s')
    → (rest : List ResolutionWindow) × (d'.resolution_windows ≡ d.resolution_windows ++ rest)
      × IsNext w.bond_size rest
      × (d'.request_config ≡ d.request_config)
      × (d'.global_config_id ≡ d.global_config_id)
      × (s'.stakes ≡ s.stakes)
unfolding after_stake
after_stake-rest env d w s {d'} {s'} h =
    let d1 = (invoke_final_arbitrator d w.bond_size).0 in
    let kept = invoke_final_arbitrator-keeps d w.bond_size in
    elim (Option-cases w.bonded_outcome) [
      | inl e ↦ (
        [],
        ground (arith, append-nil d.resolution_windows),
        inl refl,
        ground arith,
        ground arith,
        ground arith,
      )
      | inr (o, e) ↦ elim (Bool-cases (invoke_final_arbitrator d w.bond_size).1) [
        | inl triggered ↦ (
          [],
          ground (arith, append-nil d.resolution_windows),
          inl refl,
          ground arith,
          ground arith,
          ground arith,
        )
        | inr goes_on ↦
            (let (next, made, unbonded, double, small, same) =
                push_next_window-rest env d1 w s {d' = d'} {s' = s'} (ground arith) in
              (
                next ∷ [],
                ground (arith, made),
                inr (next, refl, unbonded, double, small),
                ground (arith, made),
                ground (arith, made),
                same,
              ))
      ]
    ]

-- A stake on the window `w` of a request leaves its windows as they were up to that one, which it
-- replaces or adds, with the same bond.
pub record Grows (w : ResolutionWindow) (ws ws' : List ResolutionWindow) : Type 0 where
  pub before : List ResolutionWindow
  pub written : ResolutionWindow
  pub rest : List ResolutionWindow
  pub from : (ws ≡ []) × (before ≡ []) ⊎ (ws ≡ before ++ w ∷ [])
  pub to : ws' ≡ before ++ written ∷ rest
  pub same_bond : written.bond_size ≡ w.bond_size
  pub place : w.round ≡ length before
  pub open_rest : All (λ x. x.bonded_outcome ≡ none) rest

-- Everything that a stake on an active request does.
pub record Staked (env : Env) (dr : ActiveDataRequest) (a : AccountId) (o : Outcome)
    (amount : Balance) (s : Storage) (unspent : Balance) (dr' : ActiveDataRequest) (s' : Storage)
    : Type 0 where
  pub window : ResolutionWindow
  pub window' : ResolutionWindow
  pub chosen : Storage
  pub staked : Storage
  pub same : chosen.stakes ≡ s.stakes
  pub done : Window.stake env window a o amount chosen ≡ ok (unspent, window', staked)
  pub kept : s'.stakes ≡ staked.stakes
  pub of_request : window.dr_id ≡ dr.id
  pub unbonded : window.bonded_outcome ≡ none
  pub grows : Grows window dr.resolution_windows dr'.resolution_windows
  pub is_written : grows.written ≡ window'
  pub config : dr'.request_config ≡ dr.request_config
  pub config_id : dr'.global_config_id ≡ dr.global_config_id
  pub few : windows_len dr' ≤ 128

IsNext-open :
    (bond : Balance) (rest : List ResolutionWindow)
    → IsNext bond rest
    → All (λ x. x.bonded_outcome ≡ none) rest
IsNext-open bond rest (inl none_left) = rw none_left tt
IsNext-open bond rest (inr (next, one, unbonded, _, _)) = rw one (unbonded, tt)

length-from :
    (ws before : List ResolutionWindow) (w : ResolutionWindow)
    → (ws ≡ []) × (before ≡ []) ⊎ (ws ≡ before ++ w ∷ [])
    → length ws ≤ 128
    → length before < 128
length-from ws before w (inl (_, e)) few = rw e (omega arith)
length-from ws before w (inr e) few = omega (arith, ap length e, length-append {0} before (w ∷ []))

length-grown :
    (before rest : List ResolutionWindow) (w : ResolutionWindow) (bond : Balance)
    → 0 < bond
    → w.bond_size ≡ bond_after bond before
    → length before < 128
    → IsNext w.bond_size rest
    → length (before ++ w ∷ rest) ≤ 128
length-grown before rest w bond positive e short (inl none_left) =
    rw none_left (omega (arith, length-append {0} before (w ∷ [])))
length-grown before rest w bond positive e short (inr (next, one, _, double, small)) =
    let fits : bond_after bond (before ++ w ∷ []) < u128_mod =
      omega (arith, bond_after-append bond before w, double, small, e) in
    rw one (
      omega (
        arith,
        length-lt 128 bond (before ++ w ∷ []) fits (omega arith),
        length-append {0} before (w ∷ []),
        length-append {0} before (w ∷ next ∷ []),
      ))

pub stake-Staked :
    (env : Env) (dr : ActiveDataRequest) (a : AccountId) (o : Outcome) (amount bond : Balance)
    (s : Storage) {unspent : Balance} {dr' : ActiveDataRequest} {s' : Storage}
    → calc_resolution_bond dr ≡ ok bond
    → 0 < bond
    → dr.final_arbitrator_triggered ≡ false
    → windows_len dr ≤ 128
    → HasWindows dr.id (bond * 2) dr.final_arbitrator_triggered dr.resolution_windows
    → stake env dr a o amount s ≡ ok (unspent, dr', s')
    → Staked env dr a o amount s unspent dr' s'
unfolding write_window
stake-Staked env dr a o amount bond s {unspent} {dr'} {s'} b positive waiting few windows h =
    let (w, w', s1, s2, chosen, staked, ended) = active_stake-eq-ok env dr a o amount s h in
    let g = windows-Target env dr bond s b waiting windows chosen in
    let (_, _, _, form) = window_stake-eq-ok env w a o amount s1 staked in
    let (rest, longer, next, config, config_id, kept) =
      after_stake-rest env (write_window dr w') w' s2 {d' = dr'} {s' = s'} ended in
    let bond_kept : w'.bond_size ≡ w.bond_size = ground (arith, form) in
    let to : dr'.resolution_windows ≡ g.before ++ w' ∷ rest =
      rw (longer, g.written w') (append_assoc g.before (w' ∷ []) rest) in
    record {
      window = w;
      window' = w';
      chosen = s1;
      staked = s2;
      same = g.same;
      done = staked;
      kept = kept;
      of_request = g.round.0;
      unbonded = g.unbonded;
      grows = record {
        before = g.before;
        written = w';
        rest = rest;
        from = g.shape;
        to = to;
        same_bond = bond_kept;
        place = g.round.1;
        open_rest = IsNext-open w'.bond_size rest next;
      };
      is_written = refl;
      config = ground (arith, config);
      config_id = ground (arith, config_id);
      few = rw to (
          length-grown g.before rest w' (bond * 2) (omega arith)
            (omega (arith, bond_kept, g.round.2))
            (length-from dr.resolution_windows g.before w g.shape few) next);
    }
