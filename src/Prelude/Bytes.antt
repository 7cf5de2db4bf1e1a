-- ===== src/Prelude/Bytes.antt =====
-- Go strings as lists of bytes, their equality and their order.
use Prim.Native.Nat.{ℕ}
use Prim.Native.Char.{code}
use Prim.Native.String.{String}
use mathlib.Core.Bool.{Bool, true, false}
use mathlib.Core.List.{List, [], ◌∷◌, ◌++◌}
use mathlib.Core.Path.{◌≡◌, refl}
use mathlib.Core.Logic.{◌≢◌}
use native.Mathlib.Decide.{ℕ_discrete}
use native.Mathlib.Omega.{arith}
use stammtisch.Prelude.Tests.{ltb, ◌==◌, if◌then◌else◌}
use stammtisch.Prelude.Lists.{All}
use stammtisch.Prelude.Map.{Key}

abbrev pub Bytes : Type 0
Bytes = List ℕ

-- The bytes of a literal that is ASCII.
abbrev pub bytes : String → Bytes
bytes String.[] = []
bytes (String.◌∷◌ c s) = code c ∷ bytes s

unfoldable pub Bytes-discrete : Discrete Bytes
Bytes-discrete = hlevel ℕ_discrete

instance abbrev pub bytes_key : Key Bytes
bytes_key = record { same = Bytes-discrete }

-- `s == ""`.
abbrev pub is_empty : Bytes → Bool
is_empty [] = true
is_empty (b ∷ s) = false

-- `s < t` on Go strings: bytewise, and a proper prefix comes first.
unfoldable pub before : Bytes → Bytes → Bool
before s [] = false
before [] (c ∷ t) = true
before (b ∷ s) (c ∷ t) =
    let rest = before s t in if ltb b c then true else if ltb c b then false else rest

pub before_irrefl : (s : Bytes) → before s s ≡ false
unfolding before
before_irrefl [] = ground arith
before_irrefl (b ∷ s) = ground (arith, before_irrefl s)

pub before_trans : (s t u : Bytes) → before s t ≡ true → before t u ≡ true → before s u ≡ true
unfolding before
before_trans s [] u h k = ground arith
before_trans s (c ∷ t) [] h k = ground arith
before_trans [] (c ∷ t) (d ∷ u) h k = ground arith
before_trans (b ∷ s) (c ∷ t) (d ∷ u) h k = ground (arith, before_trans s t u)

-- Two strings, neither of which comes before the other, are one.
pub before_connected : (s t : Bytes) → before s t ≡ false → before t s ≡ false → s ≡ t
unfolding before
before_connected [] [] h k = ground arith
before_connected [] (c ∷ t) h k = ground arith
before_connected (b ∷ s) [] h k = ground arith
before_connected (b ∷ s) (c ∷ t) h k = ground (arith, before_connected s t)

-- `strings.Split` by a separator of one byte: one field more than there are separators.
abbrev pub onto_first : ℕ → List Bytes → List Bytes
onto_first c [] = (c ∷ []) ∷ []
onto_first c (field ∷ fields) = (c ∷ field) ∷ fields

unfoldable pub split : ℕ → Bytes → List Bytes
split d [] = [] ∷ []
split d (c ∷ s) = let rest = split d s in if c == d then [] ∷ rest else onto_first c rest

pub split_last : (d : ℕ) (a : Bytes) → All (λ c. c ≢ d) a → split d a ≡ a ∷ []
unfolding split
split_last d [] h = refl
split_last d (c ∷ a) h = ground (arith, h.0, split_last d a h.1)

pub split-append : (d : ℕ) (a b : Bytes) → All (λ c. c ≢ d) a → split d (a ++ d ∷ b) ≡ a ∷ split d b
unfolding split
split-append d [] b h = ground arith
split-append d (c ∷ a) b h = ground (arith, h.0, split-append d a b h.1)
