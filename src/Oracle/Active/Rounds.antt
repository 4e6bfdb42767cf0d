-- ===== src/Oracle/Active/Rounds.antt =====
-- The windows after a bonded one in `ActiveDataRequest::stake` of oracle/src/data_request.rs.
use oracle_monorepo_near.Base.{
  ℕ, ◌+◌, ◌*◌, ◌%◌, ◌<◌, ◌≡◌, inl, inr, refl, sym, ap, ◌∙◌, true, false, none, List, [], ◌∷◌, ◌++◌,
  arith, leb, Bool-cases, Pair_eq, String_eq, length, length-append,
}
use oracle_monorepo_near.Near.{ok, >>=-eq-ok, checked_add, checked_mul, u128_mod}
use oracle_monorepo_near.Oracle.Types.{
  Balance, Outcome_eq, ResolutionWindow, WindowId_eq, UserMap_eq, Env, Storage,
}
use oracle_monorepo_near.Oracle.Logger.{log_resolution_window}
use oracle_monorepo_near.Near.{u16_mod}
use oracle_monorepo_near.Oracle.Types.{ActiveDataRequest}
use oracle_monorepo_near.Oracle.Window
use oracle_monorepo_near.Oracle.Window.{window_id}
use oracle_monorepo_near.Oracle.Active.{
  windows_len, invoke_final_arbitrator, push_next_window, after_stake,
}
use oracle_monorepo_near.Oracle.Active.Chain.{
  IsBonded, IsRound, AreBonded, bond_after, HasWindows, last_open, arbitrated, AreBonded-append,
  bond_after-append,
}

-- What `ResolutionWindowHandler::new` makes.
pub new-eq-ok :
    (env : Env) (dr_id round : ℕ) (prev_bond : Balance) (period start : ℕ) (s : Storage)
    {w : ResolutionWindow} {s' : Storage}
    → Window.new env dr_id round prev_bond period start s ≡ ok (w, s')
    → IsRound dr_id round (prev_bond * 2) w
      × (w.bonded_outcome ≡ none)
      × (w.start_time ≡ start)
      × (w.end_time ≡ start + period)
      × (w.bond_size < u128_mod)
      × (s'.stakes ≡ s.stakes)
unfolding Window.new checked_add checked_mul log_resolution_window
new-eq-ok env dr_id round prev_bond period start s h = ground arith

push_next_window-eq-ok :
    (env : Env) (dr : ActiveDataRequest) (w : ResolutionWindow) (s : Storage)
    {dr' : ActiveDataRequest} {s' : Storage}
    → push_next_window env dr w s ≡ ok (dr', s')
    → (next : ResolutionWindow) × (dr'
        ≡ record dr { resolution_windows = dr.resolution_windows ++ next ∷ [] })
      × IsRound dr.id (windows_len dr % u16_mod) (w.bond_size * 2) next
      × (next.bonded_outcome ≡ none)
      × (s'.stakes ≡ s.stakes)
unfolding push_next_window
push_next_window-eq-ok env dr w s h =
    let ((next, s1), made, rest) = >>=-eq-ok (Window.new env dr.id _ w.bond_size _ _ s) _ h in
    let (round, unbonded, _, _, _, same) = new-eq-ok env dr.id _ w.bond_size _ _ s made in
    (next, ground arith, round, unbonded, ground (arith, same))

-- A new window after a bonded one.
next-HasWindows :
    (dr dr' : ActiveDataRequest) (before : List ResolutionWindow) (w next : ResolutionWindow)
    (bond : Balance)
    → dr' ≡ record dr { resolution_windows = dr.resolution_windows ++ next ∷ [] }
    → dr.resolution_windows ≡ before ++ w ∷ []
    → dr.final_arbitrator_triggered ≡ false
    → length before + 1 < u16_mod
    → AreBonded dr.id 0 bond before
    → IsRound dr.id (length before) (bond_after bond before) w
    → IsBonded w
    → IsRound dr.id (windows_len dr % u16_mod) (w.bond_size * 2) next
    → next.bonded_outcome ≡ none
    → HasWindows dr.id bond dr'.final_arbitrator_triggered dr'.resolution_windows
      × (dr'.id ≡ dr.id)
      × (dr'.final_arbitrator_triggered ≡ false)
next-HasWindows dr dr' before w next bond made e waiting short closed round bonded made_round
      unbonded =
    let len : windows_len dr ≡ length before + 1 =
      omega (arith, length-append {0} before (w ∷ []), ap length e) in
    let open_round : IsRound dr.id (length (before ++ w ∷ [])) (bond_after bond (before ++ w ∷ []))
        next =
      (
        made_round.0,
        omega (arith, made_round.1, len, length-append {0} before (w ∷ [])),
        omega (arith, made_round.2, bond_after-append bond before w, round.2),
      ) in
    rw made (
      last_open (before ++ w ∷ []) next (rw e) waiting
          (AreBonded-append dr.id 0 bond before w closed (ground arith) bonded) open_round unbonded,
      refl,
      waiting,
    )

-- The bonded window ends the round: the final arbitrator is triggered where its bond reaches the
-- invocation amount, and else the next window opens.
pub after_stake-bonded :
    (env : Env) (dr : ActiveDataRequest) (before : List ResolutionWindow) (w : ResolutionWindow)
    (bond : Balance) (s : Storage) {dr' : ActiveDataRequest} {s' : Storage}
    → dr.resolution_windows ≡ before ++ w ∷ []
    → dr.final_arbitrator_triggered ≡ false
    → length before + 1 < u16_mod
    → AreBonded dr.id 0 bond before
    → IsRound dr.id (length before) (bond_after bond before) w
    → IsBonded w
    → after_stake env dr w s ≡ ok (dr', s')
    → HasWindows dr.id bond dr'.final_arbitrator_triggered dr'.resolution_windows
      × (dr'.id ≡ dr.id)
      × (s'.stakes ≡ s.stakes)
      × (dr'.final_arbitrator_triggered
          ≡ leb dr.request_config.final_arbitrator_invoke_amount w.bond_size)
unfolding after_stake invoke_final_arbitrator
after_stake-bonded env dr before w bond s {dr'} {s'} e waiting short closed round bonded h =
    elim (Bool-cases (leb dr.request_config.final_arbitrator_invoke_amount w.bond_size)) [
      | inl big ↦
          (let same : dr' ≡ record dr { final_arbitrator_triggered = true } = ground arith in
            let kept : s' ≡ s = ground arith in
            rw (same, kept)
              (
                arbitrated refl
                    (rw e (AreBonded-append dr.id 0 bond before w closed (ground arith) bonded)),
                refl,
                refl,
                sym big,
              ))
      | inr small ↦
          (let pushed : push_next_window env dr w s ≡ ok (dr', s') = ground arith in
            let (next, made, made_round, unbonded, same) =
              push_next_window-eq-ok env dr w s pushed in
            let (windows, id, flag) =
              next-HasWindows dr dr' before w next bond made e waiting short closed round bonded
                made_round unbonded in
            (windows, id, same, flag ∙ sym small))
    ]
