-- ===== src/Orchestration/EntityId/Examples.antt =====
-- Runs of internal/orchestration/id.go.
use stammtisch.Prelude.{◌≡◌, ◌↔◌, refl, ok, err}
use stammtisch.Prelude.Bytes.{bytes}
use stammtisch.Orchestration.EntityId.{
  IsValid, parse_id, to_string, new_id, cut, check_id_part, contains_at, has_control,
  separator_in_part, no_separator,
}
use stammtisch.Orchestration.EntityId.RoundTrip.{parse_id_iff}
use stammtisch.Orchestration.Sample.{alice}

parsed : parse_id (bytes "a@h") ≡ ok alice
unfolding parse_id cut new_id check_id_part contains_at has_control
parsed = refl

parses_two_separators : parse_id (bytes "a@h@x") ≡ err separator_in_part
unfolding parse_id cut new_id check_id_part contains_at has_control
parses_two_separators = refl

parses_none : parse_id (bytes "alice") ≡ err no_separator
unfolding parse_id cut
parses_none = refl

parse_id_iff_example :
    (parse_id (bytes "a@h") ≡ ok alice) ↔ ((to_string alice ≡ bytes "a@h") × IsValid alice)
parse_id_iff_example = parse_id_iff (bytes "a@h") alice
