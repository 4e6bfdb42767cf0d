-- ===== src/Base/Equality.antt =====
-- Boolean equality of keys, as an interface.
use Prim.Native.Nat.{ℕ}
use Prim.Native.String.{String}
use mathlib.Core.Path.{◌≡◌, refl}
use mathlib.Core.Logic.{◌≢◌, ◌↔◌}
use mathlib.Core.Bool.{Bool, true, false, ◌&&◌}
use text.Mathlib.Text.{◌==◌ as str_eq}
use text.Mathlib.TextEquality.{eq_iff}
use native.Mathlib.Omega.{arith}
use oracle_monorepo_near.Base.Tests.{nat_eq}

pub record Eq {ℓ} (A : Type ℓ) : Type ℓ where
  pub beq : A → A → Bool
  pub beq_iff : (a b : A) → (beq a b ≡ true) ↔ (a ≡ b)

pub nat_eq_iff : (a b : ℕ) → (nat_eq a b ≡ true) ↔ (a ≡ b)
nat_eq_iff a b = ground arith

instance abbrev pub ℕ_eq : Eq ℕ
ℕ_eq = record { beq = nat_eq; beq_iff = nat_eq_iff }

instance abbrev pub String_eq : Eq String
String_eq = record { beq = str_eq; beq_iff = eq_iff }

infix 50 ◌==◌
abbrev pub ◌==◌ {ℓ} : {A : Type ℓ} ⦃e : Eq A⦄ → A → A → Bool
◌==◌ ⦃e⦄ = e.beq

module _ {ℓ} {A : Type ℓ} ⦃e : Eq A⦄ where
  pub ==_refl : (a : A) → (a == a) ≡ true
  ==_refl a = (e.beq_iff a a).1 refl

  pub ==_true : {a b : A} → (a == b) ≡ true → a ≡ b
  ==_true {a} {b} h = (e.beq_iff a b).0 h

  pub ==_false : {a b : A} → (a == b) ≡ false → a ≢ b
  ==_false {a} {b} h p = cc ((e.beq_iff a b).1 p)

  pub ne→== : {a b : A} → a ≢ b → (a == b) ≡ false
  ne→== {a} {b} h = ground (arith, e.beq_iff a b)

module _ {ℓ κ} {A : Type ℓ} {B : Type κ} ⦃ea : Eq A⦄ ⦃eb : Eq B⦄ where
  abbrev pub pair_eq : A × B → A × B → Bool
  pair_eq p q = ea.beq p.0 q.0 && eb.beq p.1 q.1

  pub pair_eq_iff : (p q : A × B) → (pair_eq p q ≡ true) ↔ (p ≡ q)
  pair_eq_iff p q = ground (arith, ea.beq_iff p.0 q.0, eb.beq_iff p.1 q.1)

  instance abbrev pub Pair_eq : Eq (A × B)
  Pair_eq = record { beq = pair_eq; beq_iff = pair_eq_iff }
