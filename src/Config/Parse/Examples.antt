-- ===== src/Config/Parse/Examples.antt =====
-- Runs of internal/config/config.go.
use stammtisch.Prelude.{
  ◌≡◌, ◌↔◌, refl, true, [], ◌∷◌, ◌++◌, none, some, ok, err, All, holds, is_some, if◌then◌else◌,
  ℕ_discrete,
}
use stammtisch.Prelude.Int.{pos}
use stammtisch.Prelude.Bytes.{Bytes, Bytes-discrete, bytes_key, bytes, split}
use stammtisch.Prelude.Spaces.{trim_space}
use stammtisch.Prelude.Map.{FinMap, ◌≟◌, lookup, insert, delete}
use stammtisch.Config.{
  Readers, Config, settings, apply_setting, has_prefix, declared_setting, find_setting,
  positive_duration, positive, atoi, natural, positive_int, digits_from, set_again, not_set,
}
use stammtisch.Config.Parse.{
  parse_config, read_lines, read_line, read_entry, read_pair, is_skipped, cut_equals, trim_return,
  apply_settings, apply_value, empty_config, report,
}
use stammtisch.Config.Parse.Lines.{Written}
use stammtisch.Config.Parse.Accepted.{
  Reads, raw_value, unset, IsAccepted, parse_config-ok, parse_config-IsAccepted,
}

abbrev plain : Readers
plain = record {
  parse_duration = λ s. if holds (s ≟ bytes "30s") then some (pos 30_000_000_000) else none;
}

abbrev newline : Bytes
newline = 10 ∷ []

abbrev text : Bytes
text = bytes "# store" ++ newline ++ bytes "store-path = db" ++ newline ++ bytes "resume-breadth=7"

abbrev read_back : Config
read_back = record {
  grace_period = pos 30_000_000_000;
  resume_window = pos 30_000_000_000;
  resume_breadth = pos 7;
  store_path = bytes "db";
  log_destination = bytes "stdout";
  defaulted = bytes "grace-period" ∷ bytes "resume-window" ∷ bytes "log-destination" ∷ [];
}

text_read : parse_config plain text ≡ ok read_back
unfolding parse_config read_lines read_line read_entry read_pair is_skipped cut_equals trim_return
    apply_settings apply_value empty_config apply_setting has_prefix declared_setting find_setting
    positive_duration positive atoi natural positive_int digits_from split lookup insert delete
    trim_space Bytes-discrete ℕ_discrete
text_read = refl

set_twice :
    parse_config plain (bytes "store-path=a" ++ newline ++ bytes "store-path=b")
    ≡ err (set_again 2 (bytes "store-path") 1)
unfolding parse_config read_lines read_line read_entry read_pair is_skipped cut_equals trim_return
    has_prefix declared_setting find_setting split lookup insert delete trim_space Bytes-discrete
    ℕ_discrete
set_twice = refl

nothing_set : parse_config plain [] ≡ err (not_set (bytes "store-path"))
unfolding parse_config read_lines read_line is_skipped trim_return apply_settings apply_value
    empty_config apply_setting has_prefix positive_duration positive atoi natural positive_int
    digits_from split lookup trim_space Bytes-discrete ℕ_discrete
nothing_set = refl

parse_config-ok_example :
    (values : FinMap Bytes Bytes) × ((key raw : Bytes)
      → (lookup key values ≡ some raw) ↔ Written key raw (split 10 text))
    × All (λ s. Reads plain s read_back (raw_value values s)) settings
    × (read_back.defaulted ≡ unset values settings)
parse_config-ok_example = parse_config-ok plain text read_back text_read

parse_config-IsAccepted_example : IsAccepted read_back × (is_some (report read_back) ≡ true)
parse_config-IsAccepted_example = parse_config-IsAccepted plain text read_back text_read
