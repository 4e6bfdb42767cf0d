-- ===== src/System/Queues.antt =====
-- The amounts in the queues of receipts between the token contract (token/src) and the oracle
-- (oracle/src).
use oracle_monorepo_near.Base.{
  ℕ, ◌+◌, ◌≡◌, refl, Option, none, some, List, [], ◌∷◌, ◌++◌, arith, sum_by,
}
use oracle_monorepo_near.Oracle.Types.{Balance, Promise}
use oracle_monorepo_near.Oracle.Treasury.Sent.{sent, sent_all}
use oracle_monorepo_near.System.{first, before_next, left, onto}

module _ {ℓ} {A : Type ℓ} (f : A → ℕ) where
  pub sum_by-append : (xs ys : List A) → sum_by f (xs ++ ys) ≡ sum_by f xs + sum_by f ys
  sum_by-append [] ys = omega arith
  sum_by-append (x ∷ xs) ys = omega (arith, sum_by-append xs ys)

  pub sum_by-taken :
      (before after : List A) (x : A)
      → sum_by f (before ++ x ∷ after) ≡ sum_by f (before ++ after) + f x
  sum_by-taken before after x =
      omega (arith, sum_by-append before (x ∷ after), sum_by-append before after)

abbrev pub sent_left : Option Promise → Balance
sent_left none = 0
sent_left (some p) = sent p

sent-before_next :
    (p : Option Promise) (q : Promise) → sent (before_next p q) ≡ sent_left p + sent q
sent-before_next none q = omega arith
sent-before_next (some p) q = refl

-- A promise is its first call and what is left.
pub sent-first : (p : Promise) → sent p ≡ sent (first p) + sent_left (left p)
sent-first (Promise.and_then p q) = omega (arith, sent-first p, sent-before_next (left p) q)
sent-first (Promise.transfer a x) = refl
sent-first (Promise.ft_transfer t a x) = omega arith
sent-first (Promise.set_outcome c a o tags) = refl

sent_all-onto :
    (p : Option Promise) (ps : List Promise) → sent_all (onto p ps) ≡ sent_left p + sent_all ps
sent_all-onto none ps = omega arith
sent_all-onto (some p) ps = refl

-- When the first call of a promise is made, its tokens leave the queue.
pub sent_all-next :
    (before after : List Promise) (p : Promise)
    → sent_all (before ++ p ∷ after) ≡ sent_all (before ++ onto (left p) after) + sent (first p)
sent_all-next before after p = omega (
  arith,
  sum_by-append sent before (p ∷ after),
  sum_by-append sent before (onto (left p) after),
  sent_all-onto (left p) after,
  sent-first p,
)
