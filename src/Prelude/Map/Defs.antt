-- ===== src/Prelude/Map/Defs.antt =====
-- Maps and their operations.
use Prim.Native.Nat.{ℕ, ◌+◌}
use mathlib.Core.Bool.{Bool, false}
use mathlib.Core.List.{List, [], ◌∷◌}
use mathlib.Core.Logic.{ite}
use mathlib.Core.Option.{Option, none, some}
use mathlib.Core.Path.{◌≡◌}
use stammtisch.Prelude.Tests.{if◌then◌else◌}

-- A comparable type, which Go asks of a map's key.
pub record Key {ℓ} (K : Type ℓ) : Type ℓ where
  pub same : Discrete K

infix 50 ◌≟◌
abbrev pub ◌≟◌ {ℓ} : {K : Type ℓ} ⦃key : Key K⦄ → Discrete K
◌≟◌ ⦃key⦄ = key.same

abbrev pub FinMap {ℓ} : Type ℓ → Type ℓ → Type ℓ
FinMap K V = List (K × V)

abbrev pub or_false : Option Bool → Bool
or_false none = false
or_false (some b) = b

module _ {ℓ} {K V : Type ℓ} ⦃key : Key K⦄ where
  unfoldable pub lookup : K → FinMap K V → Option V
  lookup k [] = none
  lookup k ((j, v) ∷ m) = ite (j ≟ k) (some v) (lookup k m)

  unfoldable pub delete : K → FinMap K V → FinMap K V
  delete k [] = []
  delete k ((j, v) ∷ m) = let rest = delete k m in ite (j ≟ k) rest ((j, v) ∷ rest)

  unfoldable pub insert : K → V → FinMap K V → FinMap K V
  unfolding delete
  insert k v m = (k, v) ∷ delete k m

  -- `for k := range m { if … { delete(m, k) } }`.
  unfoldable pub remove_where : (K → Bool) → FinMap K V → FinMap K V
  remove_where p [] = []
  remove_where p ((k, v) ∷ m) = let rest = remove_where p m in if p k then rest else (k, v) ∷ rest

  -- Every key stands once.
  abbrev pub IsFunctional : FinMap K V → Type ℓ
  IsFunctional [] = Unit
  IsFunctional ((k, v) ∷ m) = (lookup k m ≡ none) × IsFunctional m

-- How many values of a map pass a test.
unfoldable pub count_where {ℓ} : {K V : Type ℓ} → (V → Bool) → FinMap K V → ℕ
count_where p [] = 0
count_where p ((k, v) ∷ m) = (if p v then 1 else 0) + count_where p m

abbrev pub tally {κ} : {V : Type κ} → (V → Bool) → Option V → ℕ
tally p none = 0
tally p (some v) = if p v then 1 else 0

-- `m[k]` on a map of booleans.
unfoldable pub is_set : {K : Type 0} ⦃key : Key K⦄ → K → FinMap K Bool → Bool
unfolding lookup
is_set k m = or_false (lookup k m)
