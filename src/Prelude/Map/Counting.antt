-- ===== src/Prelude/Map/Counting.antt =====
-- How an insertion and a deletion move the number of values that pass a test.
use Prim.Native.Nat.{◌+◌}
use mathlib.Core.Bool.{Bool}
use mathlib.Core.List.{[], ◌∷◌, Permᴰ}
use mathlib.Core.Option.{some}
use mathlib.Core.Path.{◌≡◌, refl, ap, ap₂, ◌∙◌}
use native.Mathlib.Omega.{arith}
use stammtisch.Prelude.Map.Defs.{
  Key, FinMap, lookup, delete, insert, IsFunctional, count_where, tally,
}
use stammtisch.Prelude.Map.Laws.{delete_absent}

module _ {ℓ} {K V : Type ℓ} ⦃key : Key K⦄ where
  pub count_where-delete :
      (p : V → Bool) (k : K) (m : FinMap K V)
      → IsFunctional m
      → count_where p (delete k m) + tally p (lookup k m) ≡ count_where p m
  unfolding lookup delete count_where
  count_where-delete p k [] u = ground arith
  count_where-delete p k ((j, v) ∷ m) u =
      ground (arith, count_where-delete p k m u.1, delete_absent j m u.0)

  pub count_where-insert :
      (p : V → Bool) (k : K) (v : V) (m : FinMap K V)
      → IsFunctional m
      → count_where p (insert k v m) + tally p (lookup k m) ≡ count_where p m + tally p (some v)
  unfolding insert count_where
  count_where-insert p k v m u = omega (arith, count_where-delete p k m u)

module _ {ℓ} {K V : Type ℓ} where
  -- The order of the entries does not matter to how many pass.
  pub count_where-perm :
      (p : V → Bool) {m n : FinMap K V} → Permᴰ m n → count_where p m ≡ count_where p n
  unfolding count_where
  count_where-perm p Permᴰ.nil = refl
  count_where-perm p (Permᴰ.cons e r) =
      ap₂ (λ (x : K × V) y. tally p (some x.1) + y) e (count_where-perm p r)
  count_where-perm p (Permᴰ.swap {a} {b} {a'} {b'} {l} e f) =
      omega
        (arith, ap (λ (x : K × V). tally p (some x.1)) e, ap (λ (x : K × V). tally p (some x.1)) f)
  count_where-perm p (Permᴰ.trans r s) = count_where-perm p r ∙ count_where-perm p s
