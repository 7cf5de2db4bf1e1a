-- ===== src/Orchestration/EntityId.antt =====
-- internal/orchestration/id.go. `for _, r := range s` walks runes; the test that it makes holds of a
-- rune below 0x80 only, and such a rune is one byte of its own, so walking the bytes decides the same.
pub mod RoundTrip
pub mod Order
mod Examples
use stammtisch.Prelude.{
  ℕ, ◌≡◌, ◌≢◌, ◌<◌, Bool, true, false, ◌&&◌, ◌||◌, List, [], ◌∷◌, ◌++◌, Option, none, some, Result,
  ok, err, ◌>>=◌, ◌>>◌, fail_if, if◌then◌else◌, ltb, leb, ◌==◌, All,
}
use stammtisch.Prelude.Bytes.{Bytes, Bytes-discrete, is_empty, before}
use stammtisch.Prelude.Map.{Key}

pub record EntityId : Type 0 where
  pub local : Bytes
  pub host : Bytes

unfoldable pub EntityId-discrete : Discrete EntityId
EntityId-discrete = hlevel Bytes-discrete

instance abbrev pub id_key : Key EntityId
id_key = record { same = EntityId-discrete }

-- The three refusals of a part, and that of a text with no separator.
pub data IdError : Type 0 where
  empty_part separator_in_part control_in_part no_separator : IdError

abbrev pub at_sign : ℕ
at_sign = b'@'

-- `strings.Contains(s, "@")`.
unfoldable pub contains_at : Bytes → Bool
contains_at [] = false
contains_at (b ∷ s) = b == at_sign || contains_at s

-- A byte that is a control character, a space or 0x7f stands in the text.
unfoldable pub has_control : Bytes → Bool
has_control [] = false
has_control (b ∷ s) = leb b b' ' || b == 0x7f || has_control s

pub check_id_part : Bytes → Result IdError (Unit {0})
unfolding contains_at has_control
check_id_part s = do
  fail_if (is_empty s) empty_part
  fail_if (contains_at s) separator_in_part
  fail_if (has_control s) control_in_part
  ok tt

pub new_id : Bytes → Bytes → Result IdError EntityId
unfolding check_id_part
new_id local host = do
  check_id_part local
  check_id_part host
  ok (record { local = local; host = host })

-- `strings.Cut(s, "@")`: the text before the first separator and the text behind it.
pub cut : Bytes → Option (Bytes × Bytes)
cut [] = none
cut (b ∷ s) =
    let rest = cut s in
    if b == at_sign
    then some ([], s)
    else elim rest [ none ↦ none | some (before, after) ↦ some (b ∷ before, after) ]

pub parse_id : Bytes → Result IdError EntityId
unfolding new_id cut
parse_id s = elim (cut s) [ none ↦ err no_separator | some (local, host) ↦ new_id local host ]

unfoldable pub is_zero : EntityId → Bool
is_zero id = is_empty id.local && is_empty id.host

unfoldable pub to_string : EntityId → Bytes
unfolding is_zero
to_string id = if is_zero id then [] else id.local ++ at_sign ∷ id.host

abbrev pub zero_id : EntityId
zero_id = record { local = []; host = [] }

-- What the rest of the package relies on in an identifier that a constructor returned.
abbrev pub IsPart : Bytes → Type 0
IsPart s = (s ≢ []) × All (λ b. (b ≢ b'@') × (32 < b) × (b ≢ 127)) s

pub record IsValid (id : EntityId) : Type 0 where
  pub local_part : IsPart id.local
  pub host_part : IsPart id.host

-- `found[i].String() < found[j].String()`, by which every listing is ordered.
unfoldable pub id_before : EntityId → EntityId → Bool
unfolding to_string
id_before a b = before (to_string a) (to_string b)
