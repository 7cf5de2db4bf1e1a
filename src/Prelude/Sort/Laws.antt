-- ===== src/Prelude/Sort/Laws.antt =====
-- Sorting permutes, sorts, and gives one answer whatever the order in which elements arrive.
use mathlib.Core.Bool.{Bool, false}
use mathlib.Core.List.{List, [], ◌∷◌}
use mathlib.Core.List.{Permᴰ}
use mathlib.Core.List.Permᴰ
use mathlib.Core.Logic.{inl, inr}
use mathlib.Core.Path.{◌≡◌, refl, ap, ap₂, ◌∙◌, subst}
use native.Mathlib.Omega.{arith}
use stammtisch.Prelude.Tests.{Bool-cases}
use stammtisch.Prelude.Lists.{All}
use stammtisch.Prelude.Sort.{place, sort, IsSorted, IsStrictOn}

pub All-perm {ℓ κ} :
    {A : Type ℓ} (P : A → Type κ) {xs ys : List A} → Permᴰ xs ys → All P xs → All P ys
All-perm P Permᴰ.nil p = p
All-perm P (Permᴰ.cons e r) p = (subst P e p.0, All-perm P r p.1)
All-perm P (Permᴰ.swap e f) p = (subst P f p.1.0, (subst P e p.0, p.1.1))
All-perm P (Permᴰ.trans r s) p = All-perm P s (All-perm P r p)

module _ {ℓ} {A : Type ℓ} {P : A → Type ℓ} {less : A → A → Bool} (o : IsStrictOn P less) where
  irrefl : (a : A) → less a a ≡ false
  irrefl a = elim (Bool-cases (less a a)) [ inl h ↦ o.asym a a h | inr h ↦ h ]

  -- What is not before `x`, where `x` is not before `a`, is not before `a`.
  not_before_trans :
      (y x a : A) → P y → P x → less y x ≡ false → less x a ≡ false → less y a ≡ false
  not_before_trans y x a py px h k = elim (Bool-cases (less x y)) [
    | inl f ↦ elim (Bool-cases (less y a)) [ inl g ↦ ground (arith, o.trans x y a f g) | inr g ↦ g ]
    | inr f ↦ rw (o.connected y x py px h f) k
  ]

  place_comm :
      (a b : A) (l : List A)
      → P a
      → P b
      → All P l
      → place less a (place less b l) ≡ place less b (place less a l)
  unfolding place
  place_comm a b [] pa pb q = ground (arith, o.asym a b, o.connected a b pa pb)
  place_comm a b (x ∷ l) pa pb q = ground (
    arith,
    o.asym a b,
    o.connected a b pa pb,
    o.trans x a b,
    o.trans x b a,
    place_comm a b l pa pb q.1,
  )

  All-place : (a : A) (l : List A) → P a → All P l → All P (place less a l)
  unfolding place
  All-place a [] pa q = (pa, tt)
  All-place a (x ∷ l) pa q = ground (arith, All-place a l pa q.1)

  pub All-sort : (l : List A) → All P l → All P (sort less l)
  unfolding sort
  All-sort [] q = tt
  All-sort (x ∷ l) q = All-place x (sort less l) q.0 (All-sort l q.1)

  -- `a` stays not behind all of a list when an element that `a` is not behind is placed in it.
  All-place_before :
      (c a : A) (l : List A)
      → less a c ≡ false
      → All (λ y. less y c ≡ false) l
      → All (λ y. less y c ≡ false) (place less a l)
  unfolding place
  All-place_before c a [] h q = (h, tt)
  All-place_before c a (x ∷ l) h q = ground (arith, All-place_before c a l h q.1)

  All-not_before :
      (x a : A) (l : List A)
      → P x
      → All P l
      → less x a ≡ false
      → All (λ y. less y x ≡ false) l
      → All (λ y. less y a ≡ false) l
  All-not_before x a [] px p h q = tt
  All-not_before x a (y ∷ l) px p h q =
      (not_before_trans y x a p.0 px q.0 h, All-not_before x a l px p.1 h q.1)

  place-IsSorted :
      (a : A) (l : List A) → P a → All P l → IsSorted less l → IsSorted less (place less a l)
  unfolding place
  place-IsSorted a [] pa p s = (tt, tt)
  place-IsSorted a (x ∷ l) pa p s = elim (Bool-cases (less x a)) [
    | inl h ↦ rw h (All-place_before x a l (o.asym x a h) s.0, place-IsSorted a l pa p.1 s.1)
    | inr h ↦ rw h ((h, All-not_before x a l p.0 p.1 h s.0), s)
  ]

  -- The result is sorted.
  pub sort-IsSorted : (l : List A) → All P l → IsSorted less (sort less l)
  unfolding sort
  sort-IsSorted [] p = tt
  sort-IsSorted (x ∷ l) p =
      place-IsSorted x (sort less l) p.0 (All-sort l p.1) (sort-IsSorted l p.1)

  -- The result does not depend on the order in which the elements come.
  pub sort-perm_eq : {xs ys : List A} → Permᴰ xs ys → All P xs → sort less xs ≡ sort less ys
  unfolding sort
  sort-perm_eq Permᴰ.nil p = refl
  sort-perm_eq (Permᴰ.cons e r) p = ap₂ (place less) e (sort-perm_eq r p.1)
  sort-perm_eq (Permᴰ.swap {a} {b} {l = l} e f) p =
      place_comm a b (sort less l) p.0 p.1.0 (All-sort l p.1.1)
      ∙ ap₂ (place less) f (ap (λ z. place less z (sort less l)) e)
  sort-perm_eq (Permᴰ.trans r s) p = sort-perm_eq r p ∙ sort-perm_eq s (All-perm P r p)

module _ {ℓ} {A : Type ℓ} (less : A → A → Bool) where
  place-perm : (a : A) (l : List A) → Permᴰ (place less a l) (a ∷ l)
  unfolding place
  place-perm a [] = Permᴰ.refl (a ∷ [])
  place-perm a (x ∷ l) = elim (Bool-cases (less x a)) [
    | inl h ↦ rw h (Permᴰ.trans (Permᴰ.cons refl (place-perm a l)) (Permᴰ.swap refl refl))
    | inr h ↦ rw h (Permᴰ.refl (a ∷ x ∷ l))
  ]

  -- The result holds the same elements, each as often.
  pub sort-perm : (l : List A) → Permᴰ (sort less l) l
  unfolding sort
  sort-perm [] = Permᴰ.nil
  sort-perm (x ∷ l) = Permᴰ.trans (place-perm x (sort less l)) (Permᴰ.cons refl (sort-perm l))
