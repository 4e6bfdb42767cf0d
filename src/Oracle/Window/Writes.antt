-- ===== src/Oracle/Window/Writes.antt =====
-- What the writes of oracle/src/resolution_window.rs do to the stakes: a reading of the three maps,
-- and the maps after a write, a stake, an unstake and a claim.
use oracle_monorepo_near.Base.{
  ◌+◌, ◌≡◌, ◌⊎◌, inl, inr, Bool, ◌&&◌, some, arith, if◌then◌else◌, Option-cases, ◌==◌, Pair_eq,
  String_eq,
}
use oracle_monorepo_near.Near.{
  get, or_zero, get-insert, sum_where, sum_where-insert, sum_where-insert_ne,
}
use oracle_monorepo_near.Oracle.Types.{
  AccountId, Balance, Outcome, Outcome_eq, outcome_eq_iff, window_id_eq_iff, ResolutionWindow,
  WindowId_eq, UserMap_eq, WindowId, UserMap, Stakes,
}
use oracle_monorepo_near.Oracle.Window.{
  window_id, get_user_to_outcomes, user_stake_on, write_stakes,
}

-- Every registered map of a user is the one under the user's prefix.
abbrev pub IsCanonical : Stakes → Type 0
IsCanonical t =
    (v : WindowId) (a : AccountId) (m : UserMap)
    → get (v, a) t.user_to_outcome_to_stake ≡ some m
    → m ≡ record { window = v; account = a }

-- What is staked on an outcome, by a user, and by all users together.
abbrev pub outcome_total : WindowId → Outcome → Stakes → Balance
outcome_total v o t = or_zero (get (v, o) t.outcome_to_stake)

abbrev pub user_stake : WindowId → AccountId → Outcome → Stakes → Balance
user_stake v a o t = or_zero (get (record { window = v; account = a }, o) t.user_stakes)

abbrev pub is_stake_in : WindowId → Outcome → UserMap × Outcome → Bool
is_stake_in v o k = (k.0.window == v) && (k.1 == o)

abbrev pub users_total : WindowId → Outcome → Stakes → Balance
users_total v o t = sum_where (is_stake_in v o) t.user_stakes

pub get_user_to_outcomes-canonical :
    (w : ResolutionWindow) (a : AccountId) (t : Stakes)
    → IsCanonical t
    → get_user_to_outcomes w a t ≡ record { window = window_id w; account = a }
unfolding get_user_to_outcomes
get_user_to_outcomes-canonical w a t c =
    elim (Option-cases (get (window_id w, a) t.user_to_outcome_to_stake)) [
      | inl e ↦ rw (e, get_user_to_outcomes)
      | inr (m, e) ↦ rw (e, get_user_to_outcomes) (c (window_id w) a m e)
    ]

pub user_stake_on-canonical :
    (w : ResolutionWindow) (a : AccountId) (o : Outcome) (t : Stakes)
    → IsCanonical t
    → user_stake_on w a o t ≡ user_stake (window_id w) a o t
unfolding user_stake_on
user_stake_on-canonical w a o t c = rw (get_user_to_outcomes-canonical w a t c)

-- The maps after the three writes.
module _ (w : ResolutionWindow) (a : AccountId) (o : Outcome) (x y : Balance) (t : Stakes)
    (c : IsCanonical t) where
  pub outcome_total-write :
      (v : WindowId) (p : Outcome)
      → outcome_total v p (write_stakes w a o x y t)
        ≡ (if (v == window_id w) && (p == o) then x else outcome_total v p t)
  unfolding write_stakes
  outcome_total-write v p = rw get-insert (ground arith)

  pub user_stake-write :
      (v : WindowId) (b : AccountId) (p : Outcome)
      → user_stake v b p (write_stakes w a o x y t)
        ≡ (if ((v == window_id w) && (b == a)) && (p == o) then y else user_stake v b p t)
  unfolding write_stakes
  user_stake-write v b p = rw (get_user_to_outcomes-canonical w a t c, get-insert) (ground arith)

  pub user_map-write :
      (v : WindowId) (b : AccountId)
      → get (v, b) (write_stakes w a o x y t).user_to_outcome_to_stake ≡ (
          if (v == window_id w) && (b == a)
          then some (record { window = window_id w; account = a })
          else get (v, b) t.user_to_outcome_to_stake)
  unfolding write_stakes
  user_map-write v b = rw (get_user_to_outcomes-canonical w a t c, get-insert)

  pub write-IsCanonical : IsCanonical (write_stakes w a o x y t)
  unfolding write_stakes
  write-IsCanonical v b m =
      rw (get_user_to_outcomes-canonical w a t c, get-insert)
        (ground (arith, c v b m, window_id_eq_iff v (window_id w), String_eq.beq_iff b a))

  -- The sum over the users and the total of an outcome move together.
  pub users_total-write :
      (v : WindowId) (p : Outcome)
      → x + user_stake (window_id w) a o t ≡ y + outcome_total (window_id w) o t
      → users_total v p (write_stakes w a o x y t) + outcome_total v p t
        ≡ users_total v p t + outcome_total v p (write_stakes w a o x y t)
  unfolding write_stakes
  users_total-write v p h =
      let m : UserMap = record { window = window_id w; account = a } in
      rw (get_user_to_outcomes-canonical w a t c, get-insert)
        (ground (
          arith,
          outcome_eq_iff p o,
          outcome_eq_iff o p,
          window_id_eq_iff v (window_id w),
          window_id_eq_iff (window_id w) v,
          sum_where-insert (is_stake_in v p) (m, o) y t.user_stakes,
          sum_where-insert_ne (is_stake_in v p) (m, o) y t.user_stakes,
        ))

  pub outcome_total-write_self : outcome_total (window_id w) o (write_stakes w a o x y t) ≡ x
  outcome_total-write_self =
      rw outcome_total-write
        (ground (arith, window_id_eq_iff (window_id w) (window_id w), outcome_eq_iff o o))

  pub user_stake-write_self : user_stake (window_id w) a o (write_stakes w a o x y t) ≡ y
  user_stake-write_self = rw user_stake-write (
      ground (
        arith,
        window_id_eq_iff (window_id w) (window_id w),
        String_eq.beq_iff a a,
        outcome_eq_iff o o,
      ))

  pub outcome_total-write_ne :
      (v : WindowId) (p : Outcome)
      → (v ≡ window_id w) × (p ≡ o)
        ⊎ (outcome_total v p (write_stakes w a o x y t) ≡ outcome_total v p t)
  outcome_total-write_ne v p =
      ground (arith, outcome_total-write v p, window_id_eq_iff v (window_id w), outcome_eq_iff p o)

  pub user_stake-write_ne :
      (v : WindowId) (b : AccountId) (p : Outcome)
      → (v ≡ window_id w) × (b ≡ a) × (p ≡ o)
        ⊎ (user_stake v b p (write_stakes w a o x y t) ≡ user_stake v b p t)
  user_stake-write_ne v b p = ground (
    arith,
    user_stake-write v b p,
    window_id_eq_iff v (window_id w),
    String_eq.beq_iff b a,
    outcome_eq_iff p o,
  )
