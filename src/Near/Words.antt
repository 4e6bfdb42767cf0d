-- ===== src/Near/Words.antt =====
-- Unsigned machine integers: `+`, `-` and `*` panic on overflow (overflow-checks = true in
-- Cargo.toml), `as` truncates.
use oracle_monorepo_near.Base.{ℕ, ◌+◌, ◌-◌, ◌*◌, ◌^◌, ◌<◌, ◌≡◌, arith, ltb, leb, if◌then◌else◌}
use oracle_monorepo_near.Near.Calls.{arithmetic_overflow, Result, ok, err}

abbrev pub u8_mod : ℕ
u8_mod = 2 ^ 8

abbrev pub u16_mod : ℕ
u16_mod = 2 ^ 16

abbrev pub u64_mod : ℕ
u64_mod = 2 ^ 64

abbrev pub u128_mod : ℕ
u128_mod = 2 ^ 128

-- `a + b` in a type of values below `m`.
unfoldable pub checked_add : ℕ → ℕ → ℕ → Result ℕ
checked_add m a b = if ltb (a + b) m then ok (a + b) else err arithmetic_overflow

-- `a - b` in an unsigned type.
unfoldable pub checked_sub : ℕ → ℕ → Result ℕ
checked_sub a b = if leb b a then ok (a - b) else err arithmetic_overflow

unfoldable pub checked_mul : ℕ → ℕ → ℕ → Result ℕ
checked_mul m a b = if ltb (a * b) m then ok (a * b) else err arithmetic_overflow

pub checked_add-of-lt : (m a b : ℕ) → a + b < m → checked_add m a b ≡ ok (a + b)
unfolding checked_add
checked_add-of-lt m a b h = ground arith
