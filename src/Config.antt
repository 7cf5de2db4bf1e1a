-- ===== src/Config.antt =====
-- internal/config/config.go: the settings. `Parse` is in a module of its own. The text of an error is
-- left out but for the line and the names that it gives. `time.ParseDuration` is an argument, whose
-- answer is absent on an error.
pub mod Parse
use stammtisch.Prelude.{
  ℕ, zero, suc, ◌+◌, ◌-◌, ◌*◌, ◌≤◌, is_some, Option-cases, Bool, true, false, not, ◌&&◌, ◌||◌, List,
  [], ◌∷◌, ◌++◌, Option, none, some, Result, ok, err, ◌>>=◌, ◌>>◌, fail_if, holds, leb, ltb, ◌==◌,
  if◌then◌else◌,
}
use stammtisch.Prelude.Int.{ℤ, pos, negsuc, ltb_ℤ}
use stammtisch.Prelude.Bytes.{split, Bytes, bytes_key, bytes, is_empty}
use stammtisch.Prelude.Map.{FinMap, ◌≟◌, lookup, insert}
use stammtisch.Orchestration.Clock.{Duration}

-- The packages outside.
pub record Readers : Type 0 where
  pub parse_duration : Bytes → Option Duration

pub record Config : Type 0 where
  pub grace_period : Duration
  pub resume_window : Duration
  pub resume_breadth : ℤ
  pub store_path : Bytes
  pub log_destination : Bytes
  pub defaulted : List Bytes

pub data ConfigError : Type 0 where
  no_equals no_key : (line : ℕ) → ConfigError
  no_value unknown_key : (line : ℕ) (key : Bytes) → ConfigError
  set_again : (line : ℕ) (key : Bytes) (first : ℕ) → ConfigError
  not_set : (key : Bytes) → ConfigError
  refused : (key raw : Bytes) → ConfigError

-- `strconv.Atoi`: a sign and digits, within 64 bits.
abbrev pub is_digit : ℕ → Bool
is_digit b = leb b'0' b && leb b b'9'

digits_from : ℕ → Bytes → Option ℕ
digits_from n [] = some n
digits_from n (b ∷ s) =
    let rest = digits_from (n * 10 + (b - b'0')) s in if is_digit b then rest else none

natural : Bytes → Option ℕ
unfolding digits_from
natural [] = none
natural (b ∷ s) = digits_from 0 (b ∷ s)

abbrev pub largest_int : ℕ
largest_int = 9223372036854775807

positive_int : Option ℕ → Option ℤ
positive_int none = none
positive_int (some n) = if leb n largest_int then some (pos n) else none

negative_int : Option ℕ → Option ℤ
negative_int none = none
negative_int (some zero) = some (pos 0)
negative_int (some (suc n)) = if leb n largest_int then some (negsuc n) else none

pub atoi : Bytes → Option ℤ
unfolding natural positive_int negative_int
atoi [] = none
atoi (b ∷ s) =
    if b == b'-'
    then negative_int (natural s)
    else if b == b'+'
    then positive_int (natural s)
    else positive_int (natural (b ∷ s))

-- `strings.HasPrefix`.
unfoldable pub has_prefix : Bytes → Bytes → Bool
has_prefix s [] = true
has_prefix [] (c ∷ p) = false
has_prefix (b ∷ s) (c ∷ p) = let rest = has_prefix s p in if b == c then rest else false

positive : Option Duration → Option Duration
positive none = none
positive (some d) = if ltb_ℤ (pos 0) d then some d else none

pub positive_duration : Readers → Bytes → Option Duration
unfolding positive
positive_duration readers raw = positive (readers.parse_duration raw)

-- `apply` of the settings, in the order in which they are declared. What is absent is refused.
abbrev pub set_grace : Config → Option Duration → Option Config
set_grace c none = none
set_grace c (some d) = some (record c { grace_period = d })

abbrev pub set_window : Config → Option Duration → Option Config
set_window c none = none
set_window c (some d) = some (record c { resume_window = d })

abbrev pub set_breadth : Config → Option ℤ → Option Config
set_breadth c none = none
set_breadth c (some n) = if ltb_ℤ (pos 0) n then some (record c { resume_breadth = n }) else none

pub data Setting : Type 0 where
  grace_period_setting resume_window_setting resume_breadth_setting store_path_setting
        log_destination_setting :
      Setting

unfoldable pub apply_setting : Readers → Setting → Config → Bytes → Option Config
unfolding positive_duration atoi has_prefix
apply_setting readers grace_period_setting c raw = set_grace c (positive_duration readers raw)
apply_setting readers resume_window_setting c raw = set_window c (positive_duration readers raw)
apply_setting readers resume_breadth_setting c raw = set_breadth c (atoi raw)
apply_setting readers store_path_setting c raw =
    if holds (raw ≟ bytes ":memory:") || has_prefix raw (bytes "file:")
    then none
    else some (record c { store_path = raw })
apply_setting readers log_destination_setting c raw =
    if holds (raw ≟ bytes "stdout") || holds (raw ≟ bytes "stderr")
    then some (record c { log_destination = raw })
    else none

abbrev pub settings : List Setting
settings =
    grace_period_setting ∷ resume_window_setting ∷ resume_breadth_setting ∷ store_path_setting
    ∷ log_destination_setting ∷ []

abbrev pub setting_name : Setting → Bytes
setting_name grace_period_setting = bytes "grace-period"
setting_name resume_window_setting = bytes "resume-window"
setting_name resume_breadth_setting = bytes "resume-breadth"
setting_name store_path_setting = bytes "store-path"
setting_name log_destination_setting = bytes "log-destination"

-- The empty string means that the key is required.
abbrev pub fallback : Setting → Bytes
fallback grace_period_setting = bytes "30s"
fallback resume_window_setting = bytes "30s"
fallback resume_breadth_setting = bytes "64"
fallback store_path_setting = []
fallback log_destination_setting = bytes "stdout"

-- `declaredSetting`.
find_setting : Bytes → List Setting → Option Setting
find_setting name [] = none
find_setting name (s ∷ rest) =
    let later = find_setting name rest in if holds (setting_name s ≟ name) then some s else later

pub declared_setting : Bytes → Option Setting
unfolding find_setting
declared_setting name = find_setting name settings
