-- ===== src/Oracle/Window/Accounts.antt =====
-- The accounts of a resolution window (oracle/src/resolution_window.rs): what a stake and an unstake
-- add to or take from the totals, and that the stakes stay sound.
use oracle_monorepo_near.Base.{
  ◌+◌, ◌-◌, ◌≤◌, ◌≡◌, ◌≢◌, ◌⊎◌, some, arith, nat_eq, if◌then◌else◌, Pair_eq, String_eq,
}
use oracle_monorepo_near.Near.{ok}
use oracle_monorepo_near.Oracle.Types.{
  AccountId, Balance, Outcome, Outcome_eq, outcome_eq_iff, window_id_eq_iff, ResolutionWindow,
  WindowId_eq, UserMap_eq, WindowId, Env, Storage, Stakes,
}
use oracle_monorepo_near.Oracle.Window.{
  window_id, stake_on, user_stake_on, write_stakes, excess, stake, unstake,
}
use oracle_monorepo_near.Oracle.Window.Writes.{
  IsCanonical, outcome_total, user_stake, user_stake_on-canonical, user_stake-write, user_map-write,
  outcome_total-write, outcome_total-write_self, user_stake-write_self, outcome_total-write_ne,
  user_stake-write_ne, write-IsCanonical, users_total-write,
}
use oracle_monorepo_near.Oracle.Window.Staking.{IsRegistered, IsSound, stake-eq-ok, unstake-eq-ok}

write-IsRegistered :
    (w : ResolutionWindow) (a : AccountId) (o : Outcome) (x y : Balance) (t : Stakes)
    → IsCanonical t
    → IsRegistered t
    → IsRegistered (write_stakes w a o x y t)
write-IsRegistered w a o x y t c r v b p h =
    rw (user_stake-write w a o x y t c) (ground (arith, r v b p, user_map-write w a o x y t c v b))

-- Sound before a write that keeps the difference between a user's stake and the total, sound after.
pub write-IsSound :
    (w : ResolutionWindow) (a : AccountId) (o : Outcome) (x y : Balance) (t : Stakes)
    → IsSound t
    → x + user_stake (window_id w) a o t ≡ y + outcome_total (window_id w) o t
    → IsSound (write_stakes w a o x y t)
write-IsSound w a o x y t sound h = record {
  canonical = write-IsCanonical w a o x y t sound.canonical;
  registered = write-IsRegistered w a o x y t sound.canonical sound.registered;
  covered =
      λ v p. omega (arith, users_total-write w a o x y t sound.canonical v p h, sound.covered v p);
}

module _ (env : Env) (w : ResolutionWindow) (a : AccountId) (o : Outcome) (amount : Balance)
    (s : Storage) (sound : IsSound s.stakes) where
  module _ {unspent : Balance} {w' : ResolutionWindow} {s' : Storage}
      (done : stake env w a o amount s ≡ ok (unspent, w', s')) where
    -- On sound stakes, a stake that returns tops the outcome up to the bond at most: the total of
    -- the outcome and the stake of the user grow by what is spent, the rest of the amount is
    -- returned as unspent and is zero unless the total reaches the bond, and the outcome becomes
    -- the bonded one exactly when the total reaches the bond.
    pub stake-accounts :
        let v = window_id w in
        (outcome_total v o s'.stakes + unspent ≡ outcome_total v o s.stakes + amount)
        × (user_stake v a o s'.stakes + unspent ≡ user_stake v a o s.stakes + amount)
        × (outcome_total v o s'.stakes ≤ w.bond_size)
        × ((unspent ≡ 0) ⊎ (outcome_total v o s'.stakes ≡ w.bond_size))
        × (w' ≡ (
            if nat_eq (outcome_total v o s'.stakes) w.bond_size
            then record w { bonded_outcome = some o }
            else w))
    unfolding stake_on
    stake-accounts =
        let (open_bond, left, stakes, window) = stake-eq-ok env w a o amount s done in
        let canonical = user_stake_on-canonical w a o s.stakes sound.canonical in
        let on = stake_on w o s.stakes in
        let staked = amount - excess amount (w.bond_size - on) in
        let y = user_stake_on w a o s.stakes + staked in
        rw stakes (
          ground (
            arith,
            outcome_total-write_self w a o (on + staked) y s.stakes sound.canonical,
            user_stake-write_self w a o (on + staked) y s.stakes sound.canonical,
          ))

    -- A stake makes no total smaller.
    pub stake-grows :
        (v : WindowId) (p : Outcome) → outcome_total v p s.stakes ≤ outcome_total v p s'.stakes
    unfolding stake_on
    stake-grows v p =
        let (open_bond, left, stakes, window) = stake-eq-ok env w a o amount s done in
        let on = stake_on w o s.stakes in
        let staked = amount - excess amount (w.bond_size - on) in
        let y = user_stake_on w a o s.stakes + staked in
        rw stakes (
          ground (
            arith,
            outcome_total-write w a o (on + staked) y s.stakes sound.canonical v p,
            window_id_eq_iff v (window_id w),
            outcome_eq_iff p o,
          ))

    -- On sound stakes, a stake that returns changes the total of no other outcome or window, and
    -- no other stake of any user.
    pub stake-others :
        ((v : WindowId) (p : Outcome)
          → (v ≡ window_id w) × (p ≡ o)
            ⊎ (outcome_total v p s'.stakes ≡ outcome_total v p s.stakes))
        × ((v : WindowId) (b : AccountId) (p : Outcome)
            → (v ≡ window_id w) × (b ≡ a) × (p ≡ o)
              ⊎ (user_stake v b p s'.stakes ≡ user_stake v b p s.stakes))
    stake-others =
        let (_, _, stakes, _) = stake-eq-ok env w a o amount s done in
        rw stakes (
          λ v p. outcome_total-write_ne _ _ _ _ _ _ sound.canonical v p,
          λ v b p. user_stake-write_ne _ _ _ _ _ _ sound.canonical v b p,
        )

    -- A stake that returns keeps sound stakes sound: the stakes of the users on an outcome add up
    -- to at most its total, a registered map has the prefix of its window and user, and a user
    -- without one has nothing staked.
    pub stake-IsSound : IsSound s'.stakes
    unfolding stake_on
    stake-IsSound =
        let (_, _, stakes, _) = stake-eq-ok env w a o amount s done in
        let canonical = user_stake_on-canonical w a o s.stakes sound.canonical in
        rw stakes (write-IsSound w a o _ _ s.stakes sound (omega arith))

  module _ {taken : Balance} {s' : Storage}
      (done : unstake env w a o amount s ≡ ok (taken, s')) where
    -- On sound stakes, an unstake that returns takes the whole amount from the total of the
    -- outcome and from the stake of the user, who had that much, and not from the bonded outcome.
    pub unstake-accounts :
        let v = window_id w in
        (taken ≡ amount)
        × (outcome_total v o s'.stakes + amount ≡ outcome_total v o s.stakes)
        × (user_stake v a o s'.stakes + amount ≡ user_stake v a o s.stakes)
        × (w.bonded_outcome ≢ some o)
    unfolding stake_on
    unstake-accounts =
        let (free, same, has, there, stakes) = unstake-eq-ok env w a o amount s done in
        let canonical = user_stake_on-canonical w a o s.stakes sound.canonical in
        let x = stake_on w o s.stakes - amount in
        let y = user_stake_on w a o s.stakes - amount in
        rw stakes (
          ground (
            arith,
            outcome_eq_iff o o,
            outcome_total-write_self w a o x y s.stakes sound.canonical,
            user_stake-write_self w a o x y s.stakes sound.canonical,
          ))

    -- On sound stakes, an unstake that returns changes the total of no other outcome or window,
    -- and no other stake of any user.
    pub unstake-others :
        ((v : WindowId) (p : Outcome)
          → (v ≡ window_id w) × (p ≡ o)
            ⊎ (outcome_total v p s'.stakes ≡ outcome_total v p s.stakes))
        × ((v : WindowId) (b : AccountId) (p : Outcome)
            → (v ≡ window_id w) × (b ≡ a) × (p ≡ o)
              ⊎ (user_stake v b p s'.stakes ≡ user_stake v b p s.stakes))
    unstake-others =
        let (_, _, _, _, stakes) = unstake-eq-ok env w a o amount s done in
        rw stakes (
          λ v p. outcome_total-write_ne _ _ _ _ _ _ sound.canonical v p,
          λ v b p. user_stake-write_ne _ _ _ _ _ _ sound.canonical v b p,
        )

    -- An unstake that returns keeps sound stakes sound: the stakes of the users on an outcome add
    -- up to at most its total, a registered map has the prefix of its window and user, and a user
    -- without one has nothing staked.
    pub unstake-IsSound : IsSound s'.stakes
    unfolding stake_on
    unstake-IsSound =
        let (_, _, has, there, stakes) = unstake-eq-ok env w a o amount s done in
        let canonical = user_stake_on-canonical w a o s.stakes sound.canonical in
        rw stakes (write-IsSound w a o _ _ s.stakes sound (omega arith))
