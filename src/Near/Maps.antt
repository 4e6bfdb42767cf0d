-- ===== src/Near/Maps.antt =====
-- A persistent `LookupMap` as the list of its entries: a write replaces the entry of its key or
-- adds one at the end.
use oracle_monorepo_near.Base.{
  ℕ, ◌+◌, ◌≤◌, ◌≡◌, refl, Bool, true, false, Option, none, some, List, [], ◌∷◌, arith,
  if◌then◌else◌, Eq, ◌==◌, ==_refl,
}

abbrev pub LookupMap {ℓ κ} : Type ℓ → Type κ → Type (ℓ ⊔ κ)
LookupMap K V = List (K × V)

-- `map.get(key).unwrap_or(0)`
abbrev pub or_zero : Option ℕ → ℕ
or_zero none = 0
or_zero (some n) = n

module _ {ℓ κ} {K : Type ℓ} {V : Type κ} ⦃e : Eq K⦄ where
  unfoldable pub get : K → LookupMap K V → Option V
  get k [] = none
  get k (x ∷ m) = if k == x.0 then some x.1 else get k m

  unfoldable pub insert : K → V → LookupMap K V → LookupMap K V
  insert k v [] = (k, v) ∷ []
  insert k v (x ∷ m) = if k == x.0 then (k, v) ∷ m else x ∷ insert k v m

  unfoldable pub remove : K → LookupMap K V → LookupMap K V
  remove k [] = []
  remove k (x ∷ m) = let rest = remove k m in if k == x.0 then rest else x ∷ rest

  pub get-insert :
      (j k : K) (v : V) (m : LookupMap K V)
      → get j (insert k v m) ≡ (if j == k then some v else get j m)
  unfolding get insert
  get-insert j k v [] = refl
  get-insert j k v (x ∷ m) =
      ground (arith, e.beq_iff j k, e.beq_iff k x.0, e.beq_iff j x.0, get-insert j k v m)

  pub get-remove :
      (j k : K) (m : LookupMap K V) → get j (remove k m) ≡ (if j == k then none else get j m)
  unfolding get remove
  get-remove j k [] = ground arith
  get-remove j k (x ∷ m) =
      ground (arith, e.beq_iff j k, e.beq_iff k x.0, e.beq_iff j x.0, get-remove j k m)

  pub get-insert_self : (k : K) (v : V) (m : LookupMap K V) → get k (insert k v m) ≡ some v
  get-insert_self k v m = rw (get-insert, ==_refl k)

  pub get-insert_ne :
      (j k : K) (v : V) (m : LookupMap K V) → (j == k) ≡ false → get j (insert k v m) ≡ get j m
  get-insert_ne j k v m h = rw (get-insert, h)

-- The sum of the balances whose key passes a test.
module _ {ℓ} {K : Type ℓ} ⦃e : Eq K⦄ (p : K → Bool) where
  unfoldable pub sum_where : LookupMap K ℕ → ℕ
  sum_where [] = 0
  sum_where (x ∷ m) = (if p x.0 then x.1 else 0) + sum_where m

  pub sum_where-insert :
      (k : K) (v : ℕ) (m : LookupMap K ℕ)
      → p k ≡ true
      → sum_where (insert k v m) + or_zero (get k m) ≡ sum_where m + v
  unfolding get insert sum_where
  sum_where-insert k v [] h = ground arith
  sum_where-insert k v (x ∷ m) h = ground (arith, e.beq_iff k x.0, sum_where-insert k v m h)

  pub sum_where-insert_ne :
      (k : K) (v : ℕ) (m : LookupMap K ℕ) → p k ≡ false → sum_where (insert k v m) ≡ sum_where m
  unfolding get insert sum_where
  sum_where-insert_ne k v [] h = ground arith
  sum_where-insert_ne k v (x ∷ m) h = ground (arith, e.beq_iff k x.0, sum_where-insert_ne k v m h)

  pub sum_where-remove :
      (k : K) (m : LookupMap K ℕ)
      → p k ≡ true
      → sum_where (remove k m) + or_zero (get k m) ≤ sum_where m
  unfolding get remove sum_where
  sum_where-remove k [] h = omega arith
  sum_where-remove k (x ∷ m) h = ground (arith, e.beq_iff k x.0, sum_where-remove k m h)

  pub sum_where-remove_ne :
      (k : K) (m : LookupMap K ℕ) → p k ≡ false → sum_where (remove k m) ≡ sum_where m
  unfolding remove sum_where
  sum_where-remove_ne k [] h = refl
  sum_where-remove_ne k (x ∷ m) h = ground (arith, e.beq_iff k x.0, sum_where-remove_ne k m h)

  pub le-sum_where : (k : K) (m : LookupMap K ℕ) → p k ≡ true → or_zero (get k m) ≤ sum_where m
  le-sum_where k m h = omega (arith, sum_where-remove k m h)

-- No key has two entries.
module _ {ℓ} {K : Type ℓ} ⦃e : Eq K⦄ where
  abbrev pub IsUnique : LookupMap K ℕ → Type 0
  IsUnique [] = Unit
  IsUnique (x ∷ m) = (get x.0 m ≡ none) × IsUnique m

  pub insert-IsUnique : (k : K) (v : ℕ) (m : LookupMap K ℕ) → IsUnique m → IsUnique (insert k v m)
  unfolding get insert
  insert-IsUnique k v [] u = (refl, tt)
  insert-IsUnique k v (x ∷ m) u =
      ground
        (arith, e.beq_iff k x.0, e.beq_iff x.0 k, get-insert x.0 k v m, insert-IsUnique k v m u.1)

  pub remove-IsUnique : (k : K) (m : LookupMap K ℕ) → IsUnique m → IsUnique (remove k m)
  unfolding get remove
  remove-IsUnique k [] u = tt
  remove-IsUnique k (x ∷ m) u =
      ground (arith, e.beq_iff k x.0, e.beq_iff x.0 k, get-remove x.0 k m, remove-IsUnique k m u.1)

  remove_absent : (k : K) (m : LookupMap K ℕ) → get k m ≡ none → remove k m ≡ m
  unfolding get remove
  remove_absent k [] h = refl
  remove_absent k (x ∷ m) h = ground (arith, remove_absent k m)

  pub sum_where-remove_unique :
      (p : K → Bool) (k : K) (m : LookupMap K ℕ)
      → p k ≡ true
      → IsUnique m
      → sum_where p (remove k m) + or_zero (get k m) ≡ sum_where p m
  unfolding get remove sum_where
  sum_where-remove_unique p k [] h u = refl
  sum_where-remove_unique p k (x ∷ m) h u =
      ground (arith, e.beq_iff k x.0, remove_absent k m, sum_where-remove_unique p k m h u.1)
