-- ===== src/Oracle/Treasury/Totals.antt =====
-- What is staked on all outcomes of a request together (the maps of oracle/src/resolution_window.rs).
use oracle_monorepo_near.Base.{
  ℕ, ◌+◌, ◌-◌, ◌≤◌, ◌≡◌, ◌≢◌, inl, inr, false, Bool, some, List, [], ◌∷◌, arith, ◌==◌, nat_eq,
  Pair_eq, String_eq, All, Option-cases, if◌then◌else◌, Bool-cases,
}
use oracle_monorepo_near.Near.{
  LookupMap, ok, get, remove, or_zero, get-remove, sum_where, sum_where-insert, sum_where-insert_ne,
  sum_where-remove,
}
use oracle_monorepo_near.Oracle.Types.{
  AccountId, Balance, Outcome, Outcome_eq, outcome_eq_iff, window_id_eq_iff, ResolutionWindow,
  WindowId, WindowId_eq, UserMap_eq, Stakes, Storage, Env,
}
use oracle_monorepo_near.Oracle.Window.{
  window_id, write_stakes, stake, unstake, stake_on, user_stake_on, excess,
}
use oracle_monorepo_near.Oracle.Window.Writes.{
  outcome_total, users_total, users_total-write, user_stake_on-canonical, outcome_total-write,
  outcome_total-write_ne,
}
use oracle_monorepo_near.Oracle.Window.Staking.{IsSound, stake-eq-ok, unstake-eq-ok}
use oracle_monorepo_near.Oracle.Finalized.Totals.{correct_bonds, incorrect_bonds, IsDistinct}

abbrev pub is_in_request : ℕ → WindowId × Outcome → Bool
is_in_request id k = nat_eq k.0.dr_id id

abbrev pub request_total : ℕ → Stakes → Balance
request_total id t = sum_where (is_in_request id) t.outcome_to_stake

-- A write moves the total of its own request only.
module _ (w : ResolutionWindow) (a : AccountId) (o : Outcome) (x y : Balance) (t : Stakes) where
  pub request_total-write :
      request_total w.dr_id (write_stakes w a o x y t) + outcome_total (window_id w) o t
      ≡ request_total w.dr_id t + x
  unfolding write_stakes
  request_total-write =
      sum_where-insert (is_in_request w.dr_id) (window_id w, o) x t.outcome_to_stake (ground arith)

  pub request_total-write_ne :
      (id : ℕ) → w.dr_id ≢ id → request_total id (write_stakes w a o x y t) ≡ request_total id t
  unfolding write_stakes
  request_total-write_ne id ne =
      sum_where-insert_ne (is_in_request id) (window_id w, o) x t.outcome_to_stake (ground arith)

-- The outcome a window is bonded on takes its part of the total.
abbrev pub IsFull : LookupMap (WindowId × Outcome) Balance → ResolutionWindow → Type 0
IsFull m w =
    (o : Outcome) → w.bonded_outcome ≡ some o → w.bond_size ≤ or_zero (get (window_id w, o) m)

-- Windows with different prefixes whose bonds are all full have their bonds in the total.
pub full_bonds-le :
    (id : ℕ) (f : Outcome) (ws : List ResolutionWindow) (m : LookupMap (WindowId × Outcome) Balance)
    → All (λ w. w.dr_id ≡ id) ws
    → IsDistinct ws
    → All (IsFull m) ws
    → correct_bonds f ws + incorrect_bonds f ws ≤ sum_where (is_in_request id) m
full_bonds-le id f [] m named distinct full = omega arith
full_bonds-le id f (w ∷ ws) m named distinct full = elim (Option-cases w.bonded_outcome) [
  | inl e ↦ rw e (omega (arith, full_bonds-le id f ws m named.1 distinct.1 full.1))
  | inr (o, e) ↦
      (let left = remove (window_id w, o) m in
        let rest =
          full_bonds-le id f ws left named.1 distinct.1 (still_full w o ws m distinct.0 full.1) in
        let this : w.bond_size ≤ or_zero (get (window_id w, o) m) = full.0 o e in
        let taken =
          sum_where-remove (is_in_request id) (window_id w, o) m (ground (arith, named.0)) in
        rw e (ground (arith, rest, this, taken)))
]
  where
    still_full :
        (w : ResolutionWindow) (o : Outcome) (ws : List ResolutionWindow)
        (m : LookupMap (WindowId × Outcome) Balance)
        → All (λ x. (window_id x == window_id w) ≡ false) ws
        → All (IsFull m) ws
        → All (IsFull (remove (window_id w, o) m)) ws
    still_full w o [] m apart full = tt
    still_full w o (x ∷ ws) m apart full = (
      λ p e. rw get-remove (ground (arith, full.0 p e, apart.0)),
      still_full w o ws m apart.1 full.1,
    )

-- A stake adds to the total of its own request what it spends, an unstake takes out its amount.
module _ (env : Env) (w : ResolutionWindow) (a : AccountId) (o : Outcome) (amount : Balance)
    (s : Storage) (id : ℕ) where
  pub stake-request_total :
      {unspent : Balance} {w' : ResolutionWindow} {s' : Storage}
      → stake env w a o amount s ≡ ok (unspent, w', s')
      → request_total id s'.stakes
        ≡ request_total id s.stakes + (if nat_eq w.dr_id id then amount - unspent else 0)
  unfolding stake_on
  stake-request_total h =
      let (fits, left, stakes, _) = stake-eq-ok env w a o amount s h in
      let on = stake_on w o s.stakes in
      let x = on + (amount - excess amount (w.bond_size - on)) in
      let y = user_stake_on w a o s.stakes + (amount - excess amount (w.bond_size - on)) in
      rw stakes (elim (Bool-cases (nat_eq w.dr_id id)) [
        | inl e ↦
            (let same : w.dr_id ≡ id = ground arith in
              ground (arith, request_total-write w a o x y s.stakes, same))
        | inr e ↦ ground (arith, request_total-write_ne w a o x y s.stakes id (λ q. ground arith))
      ])

  pub unstake-request_total :
      {taken : Balance} {s' : Storage}
      → unstake env w a o amount s ≡ ok (taken, s')
      → request_total id s'.stakes + (if nat_eq w.dr_id id then amount else 0)
        ≡ request_total id s.stakes
  unfolding stake_on
  unstake-request_total h =
      let (_, _, _, there, stakes) = unstake-eq-ok env w a o amount s h in
      let x = stake_on w o s.stakes - amount in
      let y = user_stake_on w a o s.stakes - amount in
      rw stakes (elim (Bool-cases (nat_eq w.dr_id id)) [
        | inl e ↦
            (let same : w.dr_id ≡ id = ground arith in
              ground (arith, request_total-write w a o x y s.stakes, same))
        | inr e ↦ ground (arith, request_total-write_ne w a o x y s.stakes id (λ q. ground arith))
      ])

  -- A stake leaves what users have in other requests.
  pub stake-users_total :
      IsSound s.stakes
      → {unspent : Balance} {w' : ResolutionWindow} {s' : Storage}
      → stake env w a o amount s ≡ ok (unspent, w', s')
      → w.dr_id ≢ id
      → (v : WindowId) (p : Outcome) → v.dr_id ≡ id
      → users_total v p s'.stakes ≤ users_total v p s.stakes
  unfolding stake_on
  stake-users_total sound h apart v p here =
      let (fits, left, stakes, _) = stake-eq-ok env w a o amount s h in
      let on = stake_on w o s.stakes in
      let x = on + (amount - excess amount (w.bond_size - on)) in
      let y = user_stake_on w a o s.stakes + (amount - excess amount (w.bond_size - on)) in
      let canonical = user_stake_on-canonical w a o s.stakes sound.canonical in
      rw stakes (
        ground (
          arith,
          users_total-write w a o x y s.stakes sound.canonical v p (omega arith),
          outcome_total-write_ne w a o x y s.stakes sound.canonical v p,
        ))

  -- An unstake adds to no user's stake.
  pub unstake-users_total :
      IsSound s.stakes
      → {taken : Balance} {s' : Storage} → unstake env w a o amount s ≡ ok (taken, s')
      → (v : WindowId) (p : Outcome) → users_total v p s'.stakes ≤ users_total v p s.stakes
  unfolding stake_on
  unstake-users_total sound h v p =
      let (_, _, has, there, stakes) = unstake-eq-ok env w a o amount s h in
      let x = stake_on w o s.stakes - amount in
      let y = user_stake_on w a o s.stakes - amount in
      let canonical = user_stake_on-canonical w a o s.stakes sound.canonical in
      rw stakes (
        ground (
          arith,
          users_total-write w a o x y s.stakes sound.canonical v p (omega arith),
          outcome_total-write w a o x y s.stakes sound.canonical v p,
          window_id_eq_iff v (window_id w),
          outcome_eq_iff p o,
        ))
