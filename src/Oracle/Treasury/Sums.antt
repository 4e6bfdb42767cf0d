-- ===== src/Oracle/Treasury/Sums.antt =====
-- Sums over the requests of the oracle (oracle/src) by their numbers.
use oracle_monorepo_near.Base.{
  ℕ, zero, suc, ◌+◌, ◌≤◌, ◌<◌, ◌≡◌, ◌≢◌, refl, inl, inr, arith, nat-cases,
}

abbrev pub sum_to : ℕ → (ℕ → ℕ) → ℕ
sum_to zero f = 0
sum_to (suc n) f = sum_to n f + f n

pub sum_to-add :
    (n : ℕ) (f g h : ℕ → ℕ) → ((i : ℕ) → h i ≡ f i + g i) → sum_to n h ≡ sum_to n f + sum_to n g
sum_to-add zero f g h e = refl
sum_to-add (suc n) f g h e = omega (arith, sum_to-add n f g h e, e n)

pub sum_to-le : (n : ℕ) (f g : ℕ → ℕ) → ((i : ℕ) → f i ≤ g i) → sum_to n f ≤ sum_to n g
sum_to-le zero f g le = omega arith
sum_to-le (suc n) f g le = omega (arith, sum_to-le n f g le, le n)

pub sum_to-none : (n : ℕ) (f : ℕ → ℕ) → ((i : ℕ) → i < n → f i ≡ 0) → sum_to n f ≡ 0
sum_to-none zero f none = refl
sum_to-none (suc n) f none =
    omega (arith, sum_to-none n f (λ i l. none i (omega arith)), none n (omega arith))

-- Where one number alone counts.
pub sum_to-one : (n : ℕ) (f : ℕ → ℕ) (i : ℕ) → ((j : ℕ) → j ≢ i → f j ≡ 0) → sum_to n f ≤ f i
sum_to-one zero f i others = omega arith
sum_to-one (suc n) f i others = elim (nat-cases n i) [
  | inl e ↦ rw e (omega (arith, sum_to-none i f (λ j l. others j (λ q. omega arith))))
  | inr ne ↦ omega (arith, sum_to-one n f i others, others n ne)
]

pub sum_to-at : (n : ℕ) (f : ℕ → ℕ) (i : ℕ) → i < n → f i ≤ sum_to n f
sum_to-at zero f i l = absurd (omega arith)
sum_to-at (suc n) f i l = elim (nat-cases n i) [
  | inl e ↦ rw e (omega arith)
  | inr ne ↦ omega (arith, sum_to-at n f i (omega arith))
]
