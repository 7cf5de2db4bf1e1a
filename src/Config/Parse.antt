-- ===== src/Config/Parse.antt =====
-- `Parse` and `Report` of internal/config/config.go.
pub mod Lines
pub mod Accepted
mod Examples
use stammtisch.Prelude.{
  ℕ, zero, suc, ◌+◌, ◌-◌, ◌*◌, ◌≤◌, is_some, Option-cases, Bool, true, false, not, ◌&&◌, ◌||◌, List,
  [], ◌∷◌, ◌++◌, Option, none, some, Result, ok, err, ◌>>=◌, ◌>>◌, fail_if, holds, leb, ltb, ◌==◌,
  if◌then◌else◌,
}
use stammtisch.Prelude.Int.{ℤ, pos, negsuc, ltb_ℤ}
use stammtisch.Prelude.Bytes.{split, Bytes, bytes_key, bytes, is_empty}
use stammtisch.Prelude.Spaces.{trim_space}
use stammtisch.Prelude.Map.{FinMap, ◌≟◌, lookup, insert}
use stammtisch.Orchestration.Clock.{Duration}
use stammtisch.Config.{
  Readers, Config, ConfigError, no_equals, no_key, no_value, unknown_key, set_again, not_set,
  refused, Setting, settings, setting_name, fallback, apply_setting, has_prefix, declared_setting,
}

-- `strings.TrimSuffix(line, "\r")`.
abbrev pub unless_last : ℕ → Bytes → Bytes → Bytes
unless_last b [] rest = if b == 13 then [] else b ∷ rest
unless_last b (c ∷ s) rest = b ∷ rest

trim_return : Bytes → Bytes
trim_return [] = []
trim_return (b ∷ s) = unless_last b s (trim_return s)

-- `strings.Cut(line, "=")`.
abbrev pub cut_after : ℕ → Option (Bytes × Bytes) → Option (Bytes × Bytes)
cut_after b none = none
cut_after b (some (key, raw)) = some (b ∷ key, raw)

cut_equals : Bytes → Option (Bytes × Bytes)
cut_equals [] = none
cut_equals (b ∷ s) = let rest = cut_equals s in if b == b'=' then some ([], s) else cut_after b rest

-- The lines on which the keys were set, and their values.
abbrev pub Entries : Type 0
Entries = FinMap Bytes ℕ × FinMap Bytes Bytes

abbrev pub unless_seen : ℕ → Bytes → Option ℕ → Result ConfigError (Unit {0})
unless_seen number key none = ok tt
unless_seen number key (some first) = err (set_again number key first)

read_pair : ℕ → Entries → Bytes → Bytes → Result ConfigError Entries
unfolding declared_setting
read_pair number (seen, values) key raw = do
  fail_if (is_empty key) (no_key number)
  fail_if (is_empty raw) (no_value number key)
  fail_if (not (is_some (declared_setting key))) (unknown_key number key)
  unless_seen number key (lookup key seen)
  ok (insert key number seen, insert key raw values)

read_entry : ℕ → Entries → Bytes → Option (Bytes × Bytes) → Result ConfigError Entries
unfolding read_pair
read_entry number entries line none = err (no_equals number)
read_entry number entries line (some (key, raw)) =
    read_pair number entries (trim_space key) (trim_space raw)

is_skipped : Bytes → Bool
unfolding has_prefix
is_skipped line = is_empty line || has_prefix line (bytes "#")

read_line : ℕ → Entries → Bytes → Result ConfigError Entries
unfolding is_skipped read_entry cut_equals trim_return
read_line number entries text =
    let line = trim_space (trim_return text) in
    if is_skipped line then ok entries else read_entry number entries line (cut_equals line)

-- The lines from a number on.
pub read_lines : ℕ → Entries → List Bytes → Result ConfigError Entries
unfolding read_line
read_lines number entries [] = ok entries
read_lines number entries (line ∷ lines) =
    read_line number entries line >>= λ entries'. read_lines (suc number) entries' lines

abbrev pub applied : Setting → Bytes → Option Config → Result ConfigError Config
applied s raw none = err (refused (setting_name s) raw)
applied s raw (some c) = ok c

apply_value : Readers → Setting → Config → Option Bytes → Result ConfigError Config
unfolding apply_setting
apply_value readers s c (some raw) = applied s raw (apply_setting readers s c raw)
apply_value readers s c none =
    if is_empty (fallback s)
    then err (not_set (setting_name s))
    else applied s (fallback s) (
        apply_setting readers s (record c { defaulted = c.defaulted ++ setting_name s ∷ [] })
          (fallback s))

apply_settings : Readers → FinMap Bytes Bytes → Config → List Setting → Result ConfigError Config
unfolding apply_value
apply_settings readers values c [] = ok c
apply_settings readers values c (s ∷ rest) =
    apply_value readers s c (lookup (setting_name s) values) >>= λ c'.
    apply_settings readers values c' rest

pub empty_config : Config
empty_config = record {
  grace_period = pos 0;
  resume_window = pos 0;
  resume_breadth = pos 0;
  store_path = [];
  log_destination = [];
  defaulted = [];
}

pub parse_config : Readers → Bytes → Result ConfigError Config
unfolding read_lines apply_settings empty_config
parse_config readers text = read_lines 1 ([], []) (split 10 text) >>= λ (seen, values).
    apply_settings readers values empty_config settings

report_line : Bytes → Option Setting → Option Bytes
report_line name none = none
report_line name (some s) = some (
    bytes "configuration: "
    ++ name
    ++ bytes " is not set, and this run uses the default "
    ++ fallback s)

abbrev both : Option Bytes → Option (List Bytes) → Option (List Bytes)
both none lines = none
both (some line) none = none
both (some line) (some lines) = some (line ∷ lines)

-- Absent where the source would read through a nil pointer.
report_lines : List Bytes → Option (List Bytes)
unfolding report_line declared_setting
report_lines [] = some []
report_lines (name ∷ names) = both (report_line name (declared_setting name)) (report_lines names)

pub report : Config → Option (List Bytes)
unfolding report_lines
report c = report_lines c.defaulted
