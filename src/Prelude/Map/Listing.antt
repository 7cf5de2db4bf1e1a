-- ===== src/Prelude/Map/Listing.antt =====
-- Two maps with the same lookups hold the same entries, so a sorted listing of them is the same.
use mathlib.Core.List.{List, [], ◌∷◌, Permᴰ}
use mathlib.Core.List.Permᴰ
use mathlib.Core.Logic.{if_pos, if_neg}
use mathlib.Core.Option.{Option, none, some}
use mathlib.Core.Path.{◌≡◌, refl, ap, sym, ◌∙◌, subst, subst₂}
use mathlib.Core.Logic.{inl, inr}
use stammtisch.Prelude.Tests.{Option-cases}
use stammtisch.Prelude.Lists.{In}
use native.Mathlib.Omega.{arith}
use stammtisch.Prelude.Map.Defs.{Key, FinMap, ◌≟◌, lookup, delete, IsFunctional}
use stammtisch.Prelude.Map.Laws.{lookup-delete, delete-IsFunctional, delete_absent}

abbrev pub push_some {ℓ} : {B : Type ℓ} → Option B → List B → List B
push_some none rest = rest
push_some (some b) rest = b ∷ rest

-- `for k, v := range m { if … { found = append(found, …) } }`: the entry decides what is appended.
unfoldable pub gather {ℓ} : {K V B : Type ℓ} → (K → V → Option B) → FinMap K V → List B
gather f [] = []
gather f ((k, v) ∷ m) = push_some (f k v) (gather f m)

module _ {ℓ} {B : Type ℓ} where
  push_some-swap :
      (o p : Option B) (l : List B)
      → Permᴰ (push_some o (push_some p l)) (push_some p (push_some o l))
  push_some-swap none p l = Permᴰ.refl _
  push_some-swap (some b) none l = Permᴰ.refl _
  push_some-swap (some b) (some c) l = Permᴰ.swap refl refl

  push_some-perm : (o : Option B) {l r : List B} → Permᴰ l r → Permᴰ (push_some o l) (push_some o r)
  push_some-perm none p = p
  push_some-perm (some b) p = Permᴰ.cons refl p

module _ {ℓ} {K V B : Type ℓ} (f : K → V → Option B) where
  -- The order of the walk changes the order of what is appended and nothing else.
  pub gather-perm : {m n : FinMap K V} → Permᴰ m n → Permᴰ (gather f m) (gather f n)
  unfolding gather
  gather-perm Permᴰ.nil = Permᴰ.refl _
  gather-perm (Permᴰ.cons {a} {l₁} {l₂} e r) =
      subst (λ x. Permᴰ (gather f (a ∷ l₁)) (gather f (x ∷ l₂))) e
        (push_some-perm (f a.0 a.1) (gather-perm r))
  gather-perm (Permᴰ.swap {a} {b} {l = l} e g) =
      subst₂ (λ x y. Permᴰ (gather f (a ∷ b ∷ l)) (gather f (y ∷ x ∷ l))) e g
        (push_some-swap (f a.0 a.1) (f b.0 b.1) (gather f l))
  gather-perm (Permᴰ.trans r s) = Permᴰ.trans (gather-perm r) (gather-perm s)

module _ {ℓ} {K V : Type ℓ} ⦃key : Key K⦄ where
  delete-perm :
      (k : K) (v : V) (m : FinMap K V)
      → IsFunctional m
      → lookup k m ≡ some v
      → Permᴰ ((k, v) ∷ delete k m) m
  unfolding lookup delete
  delete-perm k v [] u h = ground arith
  delete-perm k v ((j, w) ∷ m) u h = elim (j ≟ k) [
    | yes e ↦
        rw (if_pos (j ≟ k) e, delete_absent k m (rw (← e) u.0))
          (Permᴰ.cons (ground arith) (Permᴰ.refl m))
    | no e ↦ rw (if_neg (j ≟ k) e) (
        Permᴰ.trans (Permᴰ.swap refl refl) (Permᴰ.cons refl (delete-perm k v m u.1 (ground arith))))
  ]

  pub perm-of_lookup :
      (m n : FinMap K V)
      → IsFunctional m
      → IsFunctional n
      → ((k : K) → lookup k m ≡ lookup k n)
      → Permᴰ m n
  unfolding lookup
  perm-of_lookup [] [] u w h = Permᴰ.nil
  perm-of_lookup [] ((k, v) ∷ n) u w h = ground (arith, h k)
  perm-of_lookup ((k, v) ∷ m) n u w h =
      Permᴰ.trans
        (Permᴰ.cons refl (perm-of_lookup m (delete k n) u.1 (delete-IsFunctional k n w) rest))
        (delete-perm k v n w found)
    where
      found : lookup k n ≡ some v
      found = ground (arith, h k)

      rest : (j : K) → lookup j m ≡ lookup j (delete k n)
      rest j = ground (arith, h j, lookup-delete j k n, u.0)

-- What a walk appends comes of an entry, and what an entry appends is there.
module _ {K V B : Type 0} ⦃key : Key K⦄ (f : K → V → Option B) where
  pub In-gather :
      (b : B) (m : FinMap K V)
      → IsFunctional m
      → In b (gather f m)
      → (k : K) × (v : V) × (lookup k m ≡ some v) × (f k v ≡ some b)
  unfolding gather lookup
  In-gather b [] u i = absurd i
  In-gather b ((k, v) ∷ m) u i = elim (Option-cases (f k v)) [
    | inl e ↦ let (j, w, g, h) = In-gather b m u.1 (rw e at i) in (j, w, ground (arith, u.0), h)
    | inr (c, e) ↦ elim (rw e at i) [
      | inl same ↦ (k, v, ground arith, e ∙ ap some (sym same))
      | inr rest ↦ let (j, w, g, h) = In-gather b m u.1 rest in (j, w, ground (arith, u.0), h)
    ]
  ]

  pub gather-In :
      (b : B) (k : K) (v : V) (m : FinMap K V)
      → lookup k m ≡ some v
      → f k v ≡ some b
      → In b (gather f m)
  unfolding gather lookup
  gather-In b k v [] g h = ground arith
  gather-In b k v ((j, w) ∷ m) g h = ground (arith, gather-In b k v m)
