-- ===== src/Config/Parse/Accepted.antt =====
-- What a configuration that internal/config/config.go accepts is.
use stammtisch.Prelude.{
  ◌≡◌, ◌≢◌, ◌↔◌, ◌⊎◌, inl, inr, refl, ◌∙◌, true, false, List, [], ◌∷◌, ◌++◌, Option, none, some, ok,
  arith, is_some, ℕ_discrete, Option-cases, Result-cases, All,
}
use stammtisch.Prelude.Int.{ℤ, pos, ◌<ℤ◌, ◌≤ℤ◌}
use stammtisch.Prelude.Bytes.{Bytes, Bytes-discrete, bytes_key, bytes, split}
use stammtisch.Prelude.Map.{FinMap, lookup}
use stammtisch.Orchestration.Clock.{Duration}
use stammtisch.Config.{
  Readers, Config, Setting, settings, setting_name, fallback, apply_setting, has_prefix,
  declared_setting, find_setting, positive_duration, positive, atoi, positive_int, negative_int,
  largest_int, grace_period_setting, resume_window_setting, resume_breadth_setting,
  store_path_setting, log_destination_setting,
}
use stammtisch.Config.Parse.Lines.{Written, read_lines-ok}
use stammtisch.Config.Parse.{
  Entries, parse_config, read_lines, apply_settings, apply_value, empty_config, report,
  report_lines, report_line,
}

-- The values that the settings allow.
pub record IsAccepted (c : Config) : Type 0 where
  pub grace_holds : pos 0 <ℤ c.grace_period
  pub window_holds : pos 0 <ℤ c.resume_window
  pub breadth_holds : (pos 0 <ℤ c.resume_breadth) × (c.resume_breadth ≤ℤ pos largest_int)
  pub not_in_memory : c.store_path ≢ bytes ":memory:"
  pub not_a_uri : has_prefix c.store_path (bytes "file:") ≡ false
  pub a_stream : (c.log_destination ≡ bytes "stdout") ⊎ (c.log_destination ≡ bytes "stderr")

-- The raw value that a setting takes, from the file or from the default.
abbrev pub value_of : Setting → Option Bytes → Bytes
value_of s none = fallback s
value_of s (some raw) = raw

atoi_range : (s : Bytes) (n : ℤ) → atoi s ≡ some n → n ≤ℤ pos largest_int
unfolding atoi positive_int negative_int
atoi_range [] n h = ground (arith, h)
atoi_range (b ∷ s) n h = ground (arith, h)

-- The names of the settings that take their default, in the order of the settings.
abbrev pub unset : FinMap Bytes Bytes → List Setting → List Bytes
unset values [] = []
unset values (s ∷ rest) = elim (lookup (setting_name s) values) [
  | none ↦ setting_name s ∷ unset values rest
  | some raw ↦ unset values rest
]

-- The names of the defaults that were taken before a setting, and with it.
abbrev noted : Setting → Option Bytes → List Bytes → List Bytes
noted s none names = names ++ setting_name s ∷ []
noted s (some raw) names = names

apply_value-ok :
    (readers : Readers) (s : Setting) (c c' : Config) (o : Option Bytes)
    → apply_value readers s c o ≡ ok c'
    → apply_setting readers s (record c { defaulted = noted s o c.defaulted }) (value_of s o)
      ≡ some c'
unfolding apply_value
apply_value-ok readers s c c' none h = ground (arith, h)
apply_value-ok readers s c c' (some raw) h = ground (arith, h)

-- What each setting says of the configuration after it.
abbrev pub Reads : Readers → Setting → Config → Bytes → Type 0
Reads readers grace_period_setting c raw = positive_duration readers raw ≡ some c.grace_period
Reads readers resume_window_setting c raw = positive_duration readers raw ≡ some c.resume_window
Reads readers resume_breadth_setting c raw =
    (atoi raw ≡ some c.resume_breadth) × (pos 0 <ℤ c.resume_breadth)
Reads readers store_path_setting c raw =
    (raw ≡ c.store_path) × (raw ≢ bytes ":memory:") × (has_prefix raw (bytes "file:") ≡ false)
Reads readers log_destination_setting c raw =
    (raw ≡ c.log_destination) × ((raw ≡ bytes "stdout") ⊎ (raw ≡ bytes "stderr"))

-- What a setting leaves.
abbrev Others : Setting → Config → Config → Type 0
Others grace_period_setting c c' =
    (c'.resume_window ≡ c.resume_window)
    × (c'.resume_breadth ≡ c.resume_breadth)
    × (c'.store_path ≡ c.store_path)
    × (c'.log_destination ≡ c.log_destination)
Others resume_window_setting c c' =
    (c'.grace_period ≡ c.grace_period)
    × (c'.resume_breadth ≡ c.resume_breadth)
    × (c'.store_path ≡ c.store_path)
    × (c'.log_destination ≡ c.log_destination)
Others resume_breadth_setting c c' =
    (c'.grace_period ≡ c.grace_period)
    × (c'.resume_window ≡ c.resume_window)
    × (c'.store_path ≡ c.store_path)
    × (c'.log_destination ≡ c.log_destination)
Others store_path_setting c c' =
    (c'.grace_period ≡ c.grace_period)
    × (c'.resume_window ≡ c.resume_window)
    × (c'.resume_breadth ≡ c.resume_breadth)
    × (c'.log_destination ≡ c.log_destination)
Others log_destination_setting c c' =
    (c'.grace_period ≡ c.grace_period)
    × (c'.resume_window ≡ c.resume_window)
    × (c'.resume_breadth ≡ c.resume_breadth)
    × (c'.store_path ≡ c.store_path)

apply_setting-Reads :
    (readers : Readers) (s : Setting) (c c' : Config) (names : List Bytes) (raw : Bytes)
    → apply_setting readers s (record c { defaulted = names }) raw ≡ some c'
    → Reads readers s c' raw × (c'.defaulted ≡ names) × Others s c c'
unfolding apply_setting
apply_setting-Reads readers grace_period_setting c c' names raw h =
    elim (Option-cases (positive_duration readers raw)) [
      | inl e ↦ ground (arith, h, e)
      | inr (d, e) ↦ ground (arith, h, e)
    ]
apply_setting-Reads readers resume_window_setting c c' names raw h =
    elim (Option-cases (positive_duration readers raw)) [
      | inl e ↦ ground (arith, h, e)
      | inr (d, e) ↦ ground (arith, h, e)
    ]
apply_setting-Reads readers resume_breadth_setting c c' names raw h =
    elim (Option-cases (atoi raw)) [
      | inl e ↦ ground (arith, h, e)
      | inr (n, e) ↦ ground (arith, h, e)
    ]
apply_setting-Reads readers store_path_setting c c' names raw h = ground (arith, h)
apply_setting-Reads readers log_destination_setting c c' names raw h = ground (arith, h)

-- The value of a setting in the entries.
abbrev pub raw_value : FinMap Bytes Bytes → Setting → Bytes
raw_value values s = value_of s (lookup (setting_name s) values)

-- One turn of the loop over the settings.
turn-ok :
    (readers : Readers) (values : FinMap Bytes Bytes) (s : Setting) (rest : List Setting)
    (c c' : Config)
    → apply_settings readers values c (s ∷ rest) ≡ ok c'
    → (next : Config) × Reads readers s next (raw_value values s)
      × (next.defaulted ≡ noted s (lookup (setting_name s) values) c.defaulted)
      × Others s c next
      × (apply_settings readers values next rest ≡ ok c')
unfolding apply_settings
turn-ok readers values s rest c c' h =
    elim (Result-cases (apply_value readers s c (lookup (setting_name s) values))) [
      | inl (next, e) ↦
          let taken = apply_value-ok readers s c next (lookup (setting_name s) values) e in
          let (says, names, others) =
            apply_setting-Reads readers s c next _ (raw_value values s) taken in
          (next, says, names, others, ground (arith, h, e))
      | inr (x, e) ↦ ground (arith, h, e)
    ]

-- What the loop over the settings accepts is what the entries say: each field is the reading of its
-- value, and the defaults that were taken are noted in the order of the settings.
apply_settings-ok :
    (readers : Readers) (values : FinMap Bytes Bytes) (c : Config)
    → apply_settings readers values empty_config settings ≡ ok c
    → All (λ s. Reads readers s c (raw_value values s)) settings
      × (c.defaulted ≡ unset values settings)
unfolding empty_config apply_settings
apply_settings-ok readers values c h =
    let last = log_destination_setting ∷ [] in
    let paths = store_path_setting ∷ last in
    let breadth = resume_breadth_setting ∷ paths in
    let windows = resume_window_setting ∷ breadth in
    let (c1, r1, d1, o1, h1) =
      turn-ok readers values grace_period_setting windows empty_config c h in
    let (c2, r2, d2, o2, h2) = turn-ok readers values resume_window_setting breadth c1 c h1 in
    let (c3, r3, d3, o3, h3) = turn-ok readers values resume_breadth_setting paths c2 c h2 in
    let (c4, r4, d4, o4, h4) = turn-ok readers values store_path_setting last c3 c h3 in
    let (c5, r5, d5, o5, h5) = turn-ok readers values log_destination_setting [] c4 c h4 in
    let end : c5 ≡ c = ground (arith, h5) in
    (
      (
        ground (arith, end, r1, o2, o3, o4, o5),
        (
          ground (arith, end, r2, o3, o4, o5),
          (
            ground (arith, end, r3, o4, o5),
            (ground (arith, end, r4, o5), (ground (arith, end, r5), tt)),
          ),
        ),
      ),
      ground (arith, end, d1, d2, d3, d4, d5),
    )

parse-parts :
    (readers : Readers) (text : Bytes) (c : Config)
    → parse_config readers text ≡ ok c
    → (entries : Entries) × (read_lines 1 ([], []) (split 10 text) ≡ ok entries)
      × (apply_settings readers entries.1 empty_config settings ≡ ok c)
unfolding parse_config
parse-parts readers text c h = elim (Result-cases (read_lines 1 ([], []) (split 10 text))) [
  | inl (entries, e) ↦ (entries, e, ground (arith, h, e))
  | inr (x, e) ↦ ground (arith, h, e)
]

-- A text that is accepted sets each key to one value, the one that some line of it writes. Each field
-- of the configuration is the reading of the value of its key, or of the default where no line sets the
-- key, and what took its default is noted in the order of the settings.
pub parse_config-ok :
    (readers : Readers) (text : Bytes) (c : Config)
    → parse_config readers text ≡ ok c
    → (values : FinMap Bytes Bytes) × ((key raw : Bytes)
        → (lookup key values ≡ some raw) ↔ Written key raw (split 10 text))
      × All (λ s. Reads readers s c (raw_value values s)) settings
      × (c.defaulted ≡ unset values settings)
unfolding lookup
parse_config-ok readers text c h =
    let (entries, e, k) = parse-parts readers text c h in
    let (fields, names) = apply_settings-ok readers entries.1 c k in
    (
      entries.1,
      (λ key raw.
          ground (arith, read_lines-ok 1 ([], []) entries (split 10 text) key raw (λ j. refl) e)),
      fields,
      names,
    )

declared_setting-setting_name : (s : Setting) → declared_setting (setting_name s) ≡ some s
unfolding declared_setting find_setting Bytes-discrete ℕ_discrete
declared_setting-setting_name grace_period_setting = refl
declared_setting-setting_name resume_window_setting = refl
declared_setting-setting_name resume_breadth_setting = refl
declared_setting-setting_name store_path_setting = refl
declared_setting-setting_name log_destination_setting = refl

report_lines-unset :
    (values : FinMap Bytes Bytes) (l : List Setting)
    → is_some (report_lines (unset values l)) ≡ true
unfolding report_lines report_line
report_lines-unset values [] = refl
report_lines-unset values (s ∷ rest) =
    ground (arith, declared_setting-setting_name s, report_lines-unset values rest)

positive_holds :
    (readers : Readers) (raw : Bytes) (d : Duration)
    → positive_duration readers raw ≡ some d
    → pos 0 <ℤ d
unfolding positive_duration positive
positive_holds readers raw d h = ground (arith, h)

-- Whatever is accepted, both periods are positive, the breadth is positive and fits 64 bits, the store is
-- neither the database in memory nor a URI, the log goes to one of the two streams; and the report on it
-- never names a setting that is not declared.
pub parse_config-IsAccepted :
    (readers : Readers) (text : Bytes) (c : Config)
    → parse_config readers text ≡ ok c
    → IsAccepted c × (is_some (report c) ≡ true)
unfolding report
parse_config-IsAccepted readers text c h =
    let (values, written, (grace, (window, (breadth, (path, (stream, _))))), names) =
      parse_config-ok readers text c h in
    (
      record {
        grace_holds = positive_holds readers _ c.grace_period grace;
        window_holds = positive_holds readers _ c.resume_window window;
        breadth_holds = (breadth.1, atoi_range _ c.resume_breadth breadth.0);
        not_in_memory = λ e. path.1 (path.0 ∙ e);
        not_a_uri = ground (arith, path);
        a_stream = ground (arith, stream);
      },
      rw names (report_lines-unset values settings),
    )
