-- ===== src/Prelude/Spaces.antt =====
-- `strings.TrimSpace`: the runes of `unicode.IsSpace`, as their bytes in UTF-8, off both ends. Each of
-- them is a whole rune, so a string that ends in its bytes ends in the rune. The fuel is the length, of
-- which a turn takes a byte at least.
use Prim.Native.Nat.{ℕ, zero, suc}
use mathlib.Core.List.{List, [], ◌∷◌, reverse}
use mathlib.Core.Option.{Option, none, some}
use stammtisch.Prelude.Tests.{◌==◌, if◌then◌else◌}
use stammtisch.Prelude.Lists.{length}
use stammtisch.Prelude.Bytes.{Bytes}

-- The last byte of the spaces of three bytes that begin with 226 and 128.
abbrev general_spaces : Bytes
general_spaces =
    128 ∷ 129 ∷ 130 ∷ 131 ∷ 132 ∷ 133 ∷ 134 ∷ 135 ∷ 136 ∷ 137 ∷ 138 ∷ 168 ∷ 169 ∷ 175 ∷ []

general : Bytes → List Bytes
general [] = []
general (b ∷ rest) = (226 ∷ 128 ∷ b ∷ []) ∷ general rest

spaces : List Bytes
unfolding general
spaces =
    (9 ∷ [])
    ∷ (10 ∷ [])
    ∷ (11 ∷ [])
    ∷ (12 ∷ [])
    ∷ (13 ∷ [])
    ∷ (32 ∷ [])
    ∷ (194 ∷ 133 ∷ [])
    ∷ (194 ∷ 160 ∷ [])
    ∷ (225 ∷ 154 ∷ 128 ∷ [])
    ∷ (226 ∷ 129 ∷ 159 ∷ [])
    ∷ (227 ∷ 128 ∷ 128 ∷ [])
    ∷ general general_spaces

reversed : List Bytes → List Bytes
reversed [] = []
reversed (s ∷ rest) = reverse s ∷ reversed rest

-- What follows a prefix.
after : Bytes → Bytes → Option Bytes
after [] s = some s
after (p ∷ prefix) [] = none
after (p ∷ prefix) (b ∷ s) = let rest = after prefix s in if b == p then rest else none

abbrev or_else : Option Bytes → Option Bytes → Option Bytes
or_else none o = o
or_else (some s) o = some s

-- What follows the first of the prefixes that there is.
after_any : List Bytes → Bytes → Option Bytes
unfolding after
after_any [] s = none
after_any (prefix ∷ rest) s = or_else (after prefix s) (after_any rest s)

trim_prefixes : ℕ → List Bytes → Bytes → Bytes
unfolding after_any
trim_prefixes zero prefixes s = s
trim_prefixes (suc fuel) prefixes s = elim (after_any prefixes s) [
  | none ↦ s
  | some rest ↦ trim_prefixes fuel prefixes rest
]

unfoldable pub trim_space : Bytes → Bytes
unfolding spaces reversed trim_prefixes
trim_space s =
    let front = trim_prefixes (length s) spaces s in
    reverse (trim_prefixes (length front) (reversed spaces) (reverse front))
