-- ===== src/Logging/Examples.antt =====
-- Runs of internal/logging/logging.go.
use stammtisch.Prelude.{
  ◌≡◌, ◌≢◌, ◌↔◌, inl, inr, refl, Bool, true, false, List, [], ◌∷◌, ◌++◌, some, ok, err, In, All,
  arith, ltb, if◌then◌else◌, ℕ_discrete,
}
use stammtisch.Prelude.Int.{pos}
use stammtisch.Prelude.Bytes.{Bytes, bytes, split}
use stammtisch.Prelude.Decimal.{itoa}
use stammtisch.Prelude.Map.{FinMap, lookup, insert, delete}
use stammtisch.Orchestration.Clock.{Time}
use stammtisch.Logging.{
  Identifier, contains_at, check_part, cut_at, identifier_of, new_identifier, event_name, LogKey,
  log_key, key_name, declared_keys, LogField, identifier_field, space, count, Log, add_field,
  add_fields, line_of, write_keys, record_given, record_event, unknown_event,
}
use stammtisch.Logging.Lines.{IsToken, IsOneLine, entries_of}
use stammtisch.Logging.Recorded.{IsMade, record_event-line}

plain : Bytes → Bool
plain [] = true
plain (b ∷ s) = let rest = plain s in if ltb 32 b then rest else false

plain-IsToken : (s : Bytes) → plain s ≡ true → IsToken s
unfolding plain
plain-IsToken [] h = tt
plain-IsToken (b ∷ s) h = ground (arith, h, plain-IsToken s)

abbrev stamp : Time → Bytes
stamp t = bytes "now"

abbrev home : Identifier
home = record { text = bytes "s@h" }

home_made : new_identifier plain (bytes "s@h") ≡ ok home
unfolding new_identifier identifier_of cut_at check_part contains_at plain
home_made = refl

abbrev fields : List LogField
fields = count (pos 3) ∷ space home ∷ []

fields-AreMade : All (IsMade plain) fields
fields-AreMade = (inr (inr (inl (pos 3, refl))), (inl (bytes "s@h", home, home_made, inl refl), tt))

abbrev quiet : Log
quiet = record { written = []; writable = true }

-- The time, the event, the space and the count, whatever order the fields are given in.
abbrev told : Log
told = record {
  written = bytes "at=now event=member-left space=s@h count=3" ++ 10 ∷ [];
  writable = true;
}

told_by : record_event stamp (pos 1) quiet 11 fields ≡ (told, ok tt)
unfolding record_event record_given add_fields add_field line_of write_keys event_name key_name
    space count identifier_field itoa lookup insert delete ℕ_discrete
told_by = refl

nothing_told : record_event stamp (pos 1) quiet 13 fields ≡ (quiet, err unknown_event)
unfolding record_event event_name
nothing_told = refl

record_event-line_example :
    (line : Bytes) × (given : FinMap LogKey Bytes) × (told.written
      ≡ quiet.written ++ (line ++ 10 ∷ []))
    × IsOneLine line
    × (split 32 line ≡ entries_of given declared_keys)
    × (lookup 1 given ≡ some (stamp (pos 1)))
    × (lookup 2 given ≡ some (event_name 11))
    × ((k : LogKey) (v : Bytes)
        → k ≢ 1
        → k ≢ 2
        → (lookup k given ≡ some v) ↔ In (record { k = k; v = v }) fields)
record_event-line_example =
    record_event-line plain stamp (pos 1) quiet told 11 fields plain-IsToken
      (
        (ground arith, ground arith),
        ((ground arith, ground arith), ((ground arith, ground arith), tt)),
      )
      fields-AreMade told_by
