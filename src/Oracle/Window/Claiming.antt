-- ===== src/Oracle/Window/Claiming.antt =====
-- `claim_for` of oracle/src/resolution_window.rs: what one window pays, and what it takes out of the
-- stakes.
use oracle_monorepo_near.Base.{
  ◌+◌, ◌≤◌, ◌≡◌, inl, inr, refl, sym, Bool, not, false, ◌&&◌, Option, none, some, arith,
  if◌then◌else◌, Bool-cases, Option-cases, ◌==◌, Pair_eq, String_eq,
}
use oracle_monorepo_near.Near.{get, get-remove, sum_where, sum_where-remove, sum_where-remove_ne}
use oracle_monorepo_near.Oracle.Types.{
  AccountId, Outcome, Outcome_eq, outcome_eq_iff, window_id_eq_iff, ResolutionWindow, correct,
  incorrect, no_result, WindowId_eq, UserMap_eq, WindowId, UserMap, Stakes,
}
use oracle_monorepo_near.Oracle.Window.{window_id, take_user_stake, claim_for}
use oracle_monorepo_near.Oracle.Window.Writes.{user_stake, users_total, is_stake_in}
use oracle_monorepo_near.Oracle.Window.Staking.{IsSound}

-- The window is bonded on the outcome; it is bonded on another one.
abbrev pub is_bonded_on : Outcome → Option Outcome → Bool
is_bonded_on f none = false
is_bonded_on f (some b) = b == f

abbrev pub is_bonded_off : Outcome → Option Outcome → Bool
is_bonded_off f none = false
is_bonded_off f (some b) = not (b == f)

module _ (w : ResolutionWindow) (a : AccountId) (o : Outcome) (t : Stakes) (sound : IsSound t) where
  -- A claim takes the user's whole stake out of the map, and says how much it was.
  pub take_user_stake-user :
      ((take_user_stake w a o t).0 ≡ user_stake (window_id w) a o t)
      × ((v : WindowId) (b : AccountId) (p : Outcome)
          → user_stake v b p (take_user_stake w a o t).1
            ≡ (if ((v == window_id w) && (b == a)) && (p == o) then 0 else user_stake v b p t))
  unfolding take_user_stake get
  take_user_stake-user = elim (Option-cases (get (window_id w, a) t.user_to_outcome_to_stake)) [
    | inl e ↦
        rw (e, take_user_stake)
          (
            sym (sound.registered (window_id w) a o e),
            λ v b p. ground (
              arith,
              sound.registered (window_id w) a o e,
              window_id_eq_iff v (window_id w),
              String_eq.beq_iff b a,
              outcome_eq_iff p o,
            ),
          )
    | inr (m, e) ↦
        rw (e, take_user_stake, sound.canonical (window_id w) a m e)
          (refl, λ v b p. rw get-remove (ground arith))
  ]

  pub take_user_stake-sum :
      (v : WindowId) (p : Outcome)
      → users_total v p (take_user_stake w a o t).1
          + (if (v == window_id w) && (p == o) then user_stake (window_id w) a o t else 0)
        ≤ users_total v p t
  unfolding take_user_stake sum_where
  take_user_stake-sum v p = elim (Option-cases (get (window_id w, a) t.user_to_outcome_to_stake)) [
    | inl e ↦ rw (e, take_user_stake) (ground (arith, sound.registered (window_id w) a o e))
    | inr (m, e) ↦
        rw (e, take_user_stake, sound.canonical (window_id w) a m e)
          (let k : UserMap × Outcome = (record { window = window_id w; account = a }, o) in
            ground (
              arith,
              outcome_eq_iff p o,
              outcome_eq_iff o p,
              window_id_eq_iff v (window_id w),
              window_id_eq_iff (window_id w) v,
              sum_where-remove (is_stake_in v p) k t.user_stakes,
              sum_where-remove_ne (is_stake_in v p) k t.user_stakes,
            ))
  ]

  pub take_user_stake-maps :
      ((take_user_stake w a o t).1.outcome_to_stake ≡ t.outcome_to_stake)
      × ((take_user_stake w a o t).1.user_to_outcome_to_stake ≡ t.user_to_outcome_to_stake)
  unfolding take_user_stake
  take_user_stake-maps = ground arith

  pub take_user_stake-IsSound : IsSound (take_user_stake w a o t).1
  take_user_stake-IsSound = record {
    canonical = rw take_user_stake-maps.1 sound.canonical;
    registered = λ v b p h. ground (
      arith,
      take_user_stake-user.1 v b p,
      sound.registered v b p (rw take_user_stake-maps.1 at h),
    );
    covered = λ v p.
        rw take_user_stake-maps.0 (ground (arith, take_user_stake-sum v p, sound.covered v p));
  }

-- A window claimed for `a` under the final outcome `f`.
module _ (w : ResolutionWindow) (a : AccountId) (f : Outcome) (t : Stakes) (sound : IsSound t) where
  abbrev pub is_correct : Bool
  is_correct = is_bonded_on f w.bonded_outcome

  pub claim_for-stakes :
      (claim_for w a f t).1 ≡ (if is_correct then (take_user_stake w a f t).1 else t)
  unfolding claim_for
  claim_for-stakes = elim (Option-cases w.bonded_outcome) [
    | inl e ↦ rw e
    | inr (b, e) ↦ rw e (ground (arith, outcome_eq_iff b f))
  ]

  -- What a window reports: the bond and the user's stake if it is bonded on the final outcome, the
  -- bond if on another outcome, nothing if it is not bonded.
  pub claim_for-result : (claim_for w a f t).0 ≡ (
      if is_correct
      then correct
          (record { bonded_stake = w.bond_size; user_stake = user_stake (window_id w) a f t })
      else (if is_bonded_off f w.bonded_outcome then incorrect w.bond_size else no_result))
  unfolding claim_for
  claim_for-result = elim (Option-cases w.bonded_outcome) [
    | inl e ↦ rw e
    | inr (b, e) ↦ rw e (ground (arith, outcome_eq_iff b f, (take_user_stake-user w a f t sound).0))
  ]

  pub claim_for-IsSound : IsSound (claim_for w a f t).1
  claim_for-IsSound = rw claim_for-stakes (elim (Bool-cases is_correct) [
    | inl e ↦ rw e (take_user_stake-IsSound w a f t sound)
    | inr e ↦ rw e sound
  ])
