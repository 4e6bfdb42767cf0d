-- ===== src/System/Messages.antt =====
-- What the oracle (oracle/src) keeps of the tokens of a message, and sends by its promises, against the
-- accounts of its requests.
use oracle_monorepo_near.Base.{
  ℕ, ◌+◌, ◌-◌, ◌≤◌, ◌≡◌, ◌≢◌, inl, inr, Bool-cases, arith, length, ◌==◌, String_eq, Pair_eq, String,
  ltb,
}
use oracle_monorepo_near.Near.{ok, >>=-eq-ok, require, wrong_payment_token}
use oracle_monorepo_near.Oracle.Types.{AccountId, Balance, OracleConfig, Payload, value, Env, World}
use oracle_monorepo_near.Oracle.Consistency.Calls.{ft_on_transfer-eq-ok}
use oracle_monorepo_near.Oracle.Receiver.{dispatch, ft_on_transfer}
use oracle_monorepo_near.Oracle.Handlers.{dr_new}
use oracle_monorepo_near.Oracle.Consistency.Lifecycle.{dr_new-eq-ok}
use oracle_monorepo_near.Oracle.Consistency.Steps.{Step, tokens_received}
use oracle_monorepo_near.Oracle.Treasury.{of_message, of_stake, of_request, flow}
use oracle_monorepo_near.Oracle.Treasury.Sent.{sent_all}
use oracle_monorepo_near.Oracle.Treasury.Promises.{Step-sent}
use oracle_monorepo_near.Oracle.Treasury.Unpaid.{paid_out, missing-unpaid}
use oracle_monorepo_near.Oracle.Treasury.Sums.{sum_to, sum_to-one, sum_to-at}
use oracle_monorepo_near.System.Flows.{taken_in}

of_request-taken : (w : World) (x i : ℕ) → taken_in (of_request i w x) ≤ x
of_request-taken w x i = ground arith

of_stake-taken : (j x u i : ℕ) → taken_in (of_stake i j x (value u)) ≤ x - u
of_stake-taken j x u i = ground arith

-- The request that a message is for.
abbrev pub target : World → Payload → ℕ
target w (Payload.new_data_request p) = length w.contract.data_requests
target w (Payload.stake_data_request p) = p.id

of_message-others :
    (w : World) (x u : Balance) (p : Payload) (j : ℕ)
    → j ≢ target w p
    → taken_in (of_message j w x (value u) p) ≡ 0
of_message-others w x u (Payload.new_data_request p) j apart = ground arith
of_message-others w x u (Payload.stake_data_request p) j apart = ground arith

dispatch-kept :
    (env : Env) (config : OracleConfig) (a : AccountId) (x u : Balance) (p : Payload) (w w' : World)
    (i : ℕ)
    → dispatch env config a x p w ≡ ok (value u, w')
    → taken_in (of_message i w x (value u) p) ≤ x - u
unfolding dispatch
dispatch-kept env config a x u (Payload.new_data_request p) w w' i h =
    let (_, from, h1) =
      >>=-eq-ok (require (config.payment_token == env.predecessor_account_id) wrong_payment_token) _
        h in
    let ((v, w1), made, h2) = >>=-eq-ok (dr_new env a x p w) _ h1 in
    let (_, _, _, _, _, _, _, _, _, _, _, zero, _, _, _, _, _, _) =
      dr_new-eq-ok env a x p w {r = v} made in
    let nothing_left : u ≡ 0 = ground (arith, h2, zero) in
    omega (arith, of_request-taken w x i, nothing_left)
dispatch-kept env config a x u (Payload.stake_data_request p) w w' i h = of_stake-taken p.id x u i

-- The requests take in no more than the oracle keeps of a message.
pub message-kept :
    (env : Env) (a : AccountId) (x u : Balance) (msg : String) (w w' : World) (n : ℕ)
    (h : ft_on_transfer env a x msg w ≡ ok (value u, w'))
    → sum_to n (λ i. taken_in (flow i (tokens_received env a x msg (value u) h))) ≤ x - u
unfolding flow
message-kept env a x u msg w w' n h =
    let (p, config, w1, parsed, _, done, _) =
      ft_on_transfer-eq-ok env a x msg w {r = value u} {w' = w'} h in
    let one =
      sum_to-one n (λ i. taken_in (of_message i w x (value u) p)) (target w p)
        (of_message-others w x u p) in
    rw (flow, parsed) (omega (arith, one, dispatch-kept env config a x u p w w1 (target w p) done))

-- What a call sends was paid out of the accounts of the requests that are there.
pub sends-paid :
    {w w' : World} (st : Step w w') (n : ℕ)
    → length w.contract.data_requests ≤ n
    → sent_all w'.storage.promises
      ≤ sent_all w.storage.promises + sum_to n (λ i. paid_out (flow i st))
sends-paid {w} st n all =
    let (i, sends, _) = Step-sent st in
    elim (Bool-cases (ltb i n)) [
      | inl e ↦ omega (arith, sends, sum_to-at n (λ j. paid_out (flow j st)) i (ground arith))
      | inr e ↦ omega (arith, sends, missing-unpaid st i (ground arith))
    ]
