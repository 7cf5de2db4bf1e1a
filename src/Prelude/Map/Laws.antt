-- ===== src/Prelude/Map/Laws.antt =====
-- What a lookup finds after an insertion and a deletion, and that keys stay unique.
use mathlib.Core.List.{[], ◌∷◌}
use mathlib.Core.Logic.{ite}
use mathlib.Core.Option.{none, some}
use mathlib.Core.Path.{◌≡◌}
use native.Mathlib.Omega.{arith}
use stammtisch.Prelude.Map.Defs.{
  Key, FinMap, ◌≟◌, lookup, delete, insert, IsFunctional, remove_where,
}
use mathlib.Core.Bool.{Bool}
use mathlib.Core.Path.{ap}
use stammtisch.Prelude.Tests.{if◌then◌else◌}

module _ {ℓ} {K V : Type ℓ} ⦃key : Key K⦄ where
  pub lookup-delete :
      (j k : K) (m : FinMap K V) → lookup j (delete k m) ≡ ite (k ≟ j) none (lookup j m)
  unfolding lookup delete
  lookup-delete j k [] = ground arith
  lookup-delete j k ((i, v) ∷ m) = ground (arith, lookup-delete j k m)

  pub lookup-insert :
      (j k : K) (v : V) (m : FinMap K V)
      → lookup j (insert k v m) ≡ ite (k ≟ j) (some v) (lookup j m)
  unfolding lookup insert
  lookup-insert j k v m = ground (arith, lookup-delete j k m)

  pub delete-IsFunctional : (k : K) (m : FinMap K V) → IsFunctional m → IsFunctional (delete k m)
  unfolding delete
  delete-IsFunctional k [] u = tt
  delete-IsFunctional k ((j, v) ∷ m) u =
      ground (arith, delete-IsFunctional k m u.1, lookup-delete j k m)

  pub insert-IsFunctional :
      (k : K) (v : V) (m : FinMap K V) → IsFunctional m → IsFunctional (insert k v m)
  unfolding insert
  insert-IsFunctional k v m u = ground (arith, delete-IsFunctional k m u, lookup-delete k k m)

  pub delete_absent : (k : K) (m : FinMap K V) → lookup k m ≡ none → delete k m ≡ m
  unfolding lookup delete
  delete_absent k [] h = ground arith
  delete_absent k ((j, v) ∷ m) h = ground (arith, delete_absent k m)

  pub lookup-remove_where :
      (p : K → Bool) (j : K) (m : FinMap K V)
      → lookup j (remove_where p m) ≡ (if p j then none else lookup j m)
  unfolding lookup remove_where
  lookup-remove_where p j [] = ground arith
  lookup-remove_where p j ((k, v) ∷ m) = ground (arith, lookup-remove_where p j m, ap p)

  pub remove_where-IsFunctional :
      (p : K → Bool) (m : FinMap K V) → IsFunctional m → IsFunctional (remove_where p m)
  unfolding remove_where
  remove_where-IsFunctional p [] u = tt
  remove_where-IsFunctional p ((k, v) ∷ m) u =
      ground (arith, remove_where-IsFunctional p m u.1, lookup-remove_where p k m)
