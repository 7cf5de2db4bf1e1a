-- ===== src/Prelude/Lists.antt =====
-- Lists measured by native numbers, under the library's names, and predicates over them.
use Prim.Native.Nat.{ℕ, zero, suc, ◌+◌, ◌-◌, ◌≤◌}
use mathlib.Core.Path.{◌≡◌, refl, ap, ◌∙◌, sym, subst}
use mathlib.Core.Logic.{◌↔◌, ◌⊎◌, inl, inr}
use mathlib.Core.List.{List, [], ◌∷◌, ◌++◌, Permᴰ}
use mathlib.Core.List.Permᴰ
use native.Mathlib.Omega.{arith}

module _ {ℓ} {A : Type ℓ} where
  abbrev pub length : List A → ℕ
  length [] = 0
  length (x ∷ xs) = suc (length xs)

  abbrev pub take : ℕ → List A → List A
  take zero xs = []
  take (suc n) [] = []
  take (suc n) (x ∷ xs) = x ∷ take n xs

  abbrev pub drop : ℕ → List A → List A
  drop zero xs = xs
  drop (suc n) [] = []
  drop (suc n) (x ∷ xs) = drop n xs

  pub length-append : (xs ys : List A) → length (xs ++ ys) ≡ length xs + length ys
  length-append [] ys = omega arith
  length-append (x ∷ xs) ys = omega (arith, length-append xs ys)

  pub take-append : (xs ys : List A) → take (length xs) (xs ++ ys) ≡ xs
  take-append [] ys = refl
  take-append (x ∷ xs) ys = ap (◌∷◌ x) (take-append xs ys)

  pub drop-append : (xs ys : List A) → drop (length xs) (xs ++ ys) ≡ ys
  drop-append [] ys = refl
  drop-append (x ∷ xs) ys = drop-append xs ys

  pub take-append-drop : (n : ℕ) (xs : List A) → take n xs ++ drop n xs ≡ xs
  take-append-drop zero xs = refl
  take-append-drop (suc n) [] = refl
  take-append-drop (suc n) (x ∷ xs) = ap (◌∷◌ x) (take-append-drop n xs)

  pub length-take : (n : ℕ) (xs : List A) → n ≤ length xs → length (take n xs) ≡ n
  length-take zero xs h = refl
  length-take (suc n) [] h = elim h [ ]
  length-take (suc n) (x ∷ xs) h = ap suc (length-take n xs (omega arith))

  -- A predicate by recursion computes to tuples, which the tactics read and build.
  abbrev pub All {κ} : (A → Type κ) → List A → Type κ
  All P [] = Unit
  All P (x ∷ xs) = P x × All P xs

  pub All-append {κ} : (P : A → Type κ) (xs ys : List A) → All P xs → All P ys → All P (xs ++ ys)
  All-append P [] ys hx hy = hy
  All-append P (x ∷ xs) ys hx hy = (hx.0, All-append P xs ys hx.1 hy)

-- Membership is kept at the types of data, where it computes to a sum.
module _ {A : Type 0} where
  -- An element stands in a list.
  abbrev pub In : A → List A → Type 0
  In a [] = ⊥
  In a (x ∷ xs) = (a ≡ x) ⊎ In a xs

  -- Every element stands once.
  abbrev pub IsDistinct : List A → Type 0
  IsDistinct [] = Unit
  IsDistinct (x ∷ xs) = (¬ In x xs) × IsDistinct xs

  pub In-perm : (a : A) {xs ys : List A} → Permᴰ xs ys → In a xs → In a ys
  In-perm a Permᴰ.nil h = h
  In-perm a (Permᴰ.cons e r) (inl h) = inl (h ∙ e)
  In-perm a (Permᴰ.cons e r) (inr h) = inr (In-perm a r h)
  In-perm a (Permᴰ.swap e f) (inl h) = inr (inl (h ∙ e))
  In-perm a (Permᴰ.swap e f) (inr (inl h)) = inl (h ∙ f)
  In-perm a (Permᴰ.swap e f) (inr (inr h)) = inr (inr h)
  In-perm a (Permᴰ.trans r s) h = In-perm a s (In-perm a r h)

  pub IsDistinct-perm : {xs ys : List A} → Permᴰ xs ys → IsDistinct xs → IsDistinct ys
  IsDistinct-perm Permᴰ.nil d = d
  IsDistinct-perm (Permᴰ.cons {l₁ = xs} e r) d =
      ((λ h. d.0 (rw e (In-perm _ (Permᴰ.symm r) h))), IsDistinct-perm r d.1)
  IsDistinct-perm (Permᴰ.swap {a} {b} {a'} {b'} {l} e f) d =
      ((λ h. swapped_head h), ((λ h. d.0 (inr (subst (λ x. In x l) (sym e) h))), d.1.1))
    where
      swapped_head : In a' (b' ∷ l) → ⊥
      swapped_head (inl h) = d.0 (inl (e ∙ sym h ∙ sym f))
      swapped_head (inr h) = d.1.0 (subst (λ x. In x l) (sym f) h)
  IsDistinct-perm (Permᴰ.trans r s) d = IsDistinct-perm s (IsDistinct-perm r d)

  pub In-++ : (x : A) (xs ys : List A) → In x (xs ++ ys) ↔ (In x xs ⊎ In x ys)
  In-++ x [] ys = ground arith
  In-++ x (y ∷ xs) ys = ground (arith, In-++ x xs ys)

  pub In-append : (x y : A) (xs : List A) → In x (xs ++ y ∷ []) ↔ (In x xs ⊎ (x ≡ y))
  In-append x y [] = ground arith
  In-append x y (z ∷ xs) = ground (arith, In-append x y xs)

  pub IsDistinct-append :
      (y : A) (xs : List A) → IsDistinct xs → ¬ In y xs → IsDistinct (xs ++ y ∷ [])
  IsDistinct-append y [] d n = ground arith
  IsDistinct-append y (z ∷ xs) d n = ground (arith, IsDistinct-append y xs d.1, In-append z y xs)

  pub All-In {κ} : (P : A → Type κ) (xs : List A) (a : A) → All P xs → In a xs → P a
  All-In P [] a h i = absurd i
  All-In P (x ∷ xs) a h (inl e) = subst P (sym e) h.0
  All-In P (x ∷ xs) a h (inr i) = All-In P xs a h.1 i

  pub All-of_In {κ} : (P : A → Type κ) (xs : List A) → ((a : A) → In a xs → P a) → All P xs
  All-of_In P [] h = tt
  All-of_In P (x ∷ xs) h = (h x (inl refl), All-of_In P xs (λ a i. h a (inr i)))

module _ {ℓ} {A : Type ℓ} where
  pub length-perm : {xs ys : List A} → Permᴰ xs ys → length xs ≡ length ys
  length-perm Permᴰ.nil = refl
  length-perm (Permᴰ.cons e r) = ap suc (length-perm r)
  length-perm (Permᴰ.swap e f) = refl
  length-perm (Permᴰ.trans r s) = length-perm r ∙ length-perm s

  pub length-drop : (n : ℕ) (xs : List A) → length (drop n xs) ≡ length xs - n
  length-drop zero xs = omega arith
  length-drop (suc n) [] = omega arith
  length-drop (suc n) (x ∷ xs) = omega (arith, length-drop n xs)

  pub All-drop {κ} : (P : A → Type κ) (n : ℕ) (xs : List A) → All P xs → All P (drop n xs)
  All-drop P zero xs h = h
  All-drop P (suc n) [] h = tt
  All-drop P (suc n) (x ∷ xs) h = All-drop P n xs h.1
