-- ===== src/Oracle/Finalized/Shares.antt =====
-- The division of a pot by stake: `calc_product` of oracle/src/helpers.rs and its use in `claim`
-- (oracle/src/data_request.rs).
use oracle_monorepo_near.Base.{
  ℕ, ◌+◌, ◌*◌, ◌/◌, ◌^◌, ◌≤◌, ◌<◌, ◌≡◌, inl, inr, arith, nat_eq, Bool-cases,
}
use native.Mathlib.Nat.{div-mul-le_self, lt-div-mul-add, div-le_of_le-mul, mul-le-mul_right}
use oracle_monorepo_near.Near.{ok, checked_mul, u128_mod}
use oracle_monorepo_near.Oracle.Helpers.{calc_product}
use oracle_monorepo_near.Oracle.Finalized.{share}

-- A `calc_product` that returns has a positive divisor, and its result is the product over the
-- divisor, rounded down, and fits 128 bits.
pub calc_product-eq-ok :
    (a b d : ℕ) {q : ℕ}
    → calc_product a b d ≡ ok q
    → (0 < d) × (q * d ≤ a * b) × (a * b < q * d + d) × (q < u128_mod)
unfolding calc_product checked_mul
calc_product-eq-ok a b d h =
    let pos : 0 < d = ground arith in
    ground (arith, div-mul-le_self (a * b) d, lt-div-mul-add {a = a * b} pos)

pub product_lt : (a b : ℕ) → a < u128_mod → b < u128_mod → a * b < 2 ^ 256
product_lt a b h k =
    let bound : a ≤ 340282366920938463463374607431768211455 = omega arith in
    omega (arith, mul-le-mul_right b bound)

-- For a share of a positive total, where the total and the amount to share fit 128 bits,
-- `calc_product` returns, at most that amount.
pub calc_product-returns :
    (a b d : ℕ)
    → a ≤ d
    → 0 < d
    → d < u128_mod
    → b < u128_mod
    → (q : ℕ) × (calc_product a b d ≡ ok q) × (q ≤ b)
unfolding calc_product checked_mul
calc_product-returns a b d part pos dm bm =
    let wide : a * b < 2 ^ 256 = product_lt a b (omega arith) bm in
    let small : a * b / d ≤ b = div-le_of_le-mul d (mul-le-mul_right b part) in
    (a * b / d, ground arith, small)

-- A share never exceeds its part of the pot, and is nothing where no stake was correct.
pub share-eq-ok :
    (u pot total : ℕ) {q : ℕ}
    → share u pot total ≡ ok q
    → (q * total ≤ u * pot) × ((total ≡ 0) → q ≡ 0)
unfolding share
share-eq-ok u pot total {q} h = elim (Bool-cases (nat_eq total 0)) [
  | inl e ↦ ground arith
  | inr e ↦ ground (arith, calc_product-eq-ok u pot total {q = q} (ground arith))
]
