-- ===== src/Prelude/Sort.antt =====
-- `sort.Slice` by a strict order. The package promises a sorted permutation and no more; where the
-- order tells all elements apart there is one such list, and insertion finds it.
pub mod Laws
use mathlib.Core.Bool.{Bool, true, false}
use mathlib.Core.Path.{◌≡◌}
use mathlib.Core.List.{List, [], ◌∷◌}
use stammtisch.Prelude.Tests.{if◌then◌else◌}
use stammtisch.Prelude.Lists.{All}

module _ {ℓ} {A : Type ℓ} where
  unfoldable pub place : (A → A → Bool) → A → List A → List A
  place less a [] = a ∷ []
  place less a (x ∷ xs) = let rest = place less a xs in if less x a then x ∷ rest else a ∷ x ∷ xs

  unfoldable pub sort : (A → A → Bool) → List A → List A
  unfolding place
  sort less [] = []
  sort less (x ∷ xs) = place less x (sort less xs)

  -- No element comes before one that stands ahead of it.
  abbrev pub IsSorted : (A → A → Bool) → List A → Type 0
  IsSorted less [] = Unit
  IsSorted less (x ∷ xs) = All (λ y. less y x ≡ false) xs × IsSorted less xs

-- A strict order that tells apart all elements with a property.
pub record IsStrictOn {ℓ} {A : Type ℓ} (P : A → Type ℓ) (less : A → A → Bool) : Type ℓ where
  pub asym : (a b : A) → less a b ≡ true → less b a ≡ false
  pub trans : (a b c : A) → less a b ≡ true → less b c ≡ true → less a c ≡ true
  pub connected : (a b : A) → P a → P b → less a b ≡ false → less b a ≡ false → a ≡ b
