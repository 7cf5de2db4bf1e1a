-- ===== src/Logging.antt =====
-- internal/logging/logging.go. The time on the clock is an argument, and so are the format of a time and
-- the test that a string of runes has none that is a space or does not print. The lock guards the write
-- alone and is left out.
pub mod Lines
pub mod Recorded
mod Examples
use stammtisch.Prelude.{
  ℕ, zero, suc, ◌+◌, ◌/◌, Bool, true, false, not, List, [], ◌∷◌, ◌++◌, Option, none, some, Result,
  ok, err, ◌>>=◌, ◌>>◌, fail_if, is_some, length, ltb, ◌==◌, if◌then◌else◌, ℕ_discrete,
}
use stammtisch.Prelude.Int.{ℤ, pos, negsuc}
use stammtisch.Prelude.Bytes.{Bytes, bytes, is_empty}
use stammtisch.Prelude.Decimal.{itoa}
use stammtisch.Prelude.Map.{Key, FinMap, lookup, insert}
use stammtisch.Orchestration.Clock.{Time, Duration}

abbrev pub max_identifier_length : ℕ
max_identifier_length = 128

pub data LogError : Type 0 where
  too_long no_separator empty_part separator_in_part space_in_part : LogError
  unknown_event nameless_field given_twice not_written : LogError

pub record Identifier : Type 0 where
  pub text : Bytes

contains_at : Bytes → Bool
contains_at [] = false
contains_at (b ∷ s) = let rest = contains_at s in if b == b'@' then true else rest

pub check_part : (Bytes → Bool) → Bytes → Result LogError (Unit {0})
unfolding contains_at
check_part prints s =
    fail_if (is_empty s) empty_part
    >> fail_if (contains_at s) separator_in_part
    >> fail_if (not (prints s)) space_in_part

-- `strings.Cut(s, "@")`.
abbrev pub cut_after : ℕ → Option (Bytes × Bytes) → Option (Bytes × Bytes)
cut_after b none = none
cut_after b (some (local, host)) = some (b ∷ local, host)

cut_at : Bytes → Option (Bytes × Bytes)
cut_at [] = none
cut_at (b ∷ s) = let rest = cut_at s in if b == b'@' then some ([], s) else cut_after b rest

identifier_of : (Bytes → Bool) → Bytes → Option (Bytes × Bytes) → Result LogError Identifier
identifier_of prints s none = err no_separator
identifier_of prints s (some (local, host)) =
    check_part prints local >> check_part prints host >> ok (record { text = s })

pub new_identifier : (Bytes → Bool) → Bytes → Result LogError Identifier
unfolding identifier_of cut_at
new_identifier prints s =
    fail_if (ltb max_identifier_length (length s)) too_long >> identifier_of prints s (cut_at s)

-- A uint8.
abbrev pub Event : Type 0
Event = ℕ

unfoldable pub event_name : Event → Bytes
event_name e =
    if e == 1
    then bytes "protocol-agreed"
    else if e == 2
    then bytes "protocol-refused"
    else if e == 3
    then bytes "session-opened"
    else if e == 4
    then bytes "session-refused"
    else if e == 5
    then bytes "session-closed"
    else if e == 6
    then bytes "client-attached"
    else if e == 7
    then bytes "client-detached"
    else if e == 8
    then bytes "channel-subscribed"
    else if e == 9
    then bytes "channel-unsubscribed"
    else if e == 10
    then bytes "member-entered"
    else if e == 11
    then bytes "member-left"
    else if e == 12
    then bytes "presence-delivered"
    else []

abbrev pub LogKey : Type 0
LogKey = ℕ

instance abbrev pub log_key : Key LogKey
log_key = record { same = ℕ_discrete }

unfoldable pub key_name : LogKey → Bytes
key_name k =
    if k == 1
    then bytes "at"
    else if k == 2
    then bytes "event"
    else if k == 3
    then bytes "space"
    else if k == 4
    then bytes "channel"
    else if k == 5
    then bytes "member"
    else if k == 6
    then bytes "client"
    else if k == 7
    then bytes "version"
    else if k == 8
    then bytes "count"
    else if k == 9
    then bytes "held"
    else []

abbrev pub declared_keys : List LogKey
declared_keys = 1 ∷ 2 ∷ 3 ∷ 4 ∷ 5 ∷ 6 ∷ 7 ∷ 8 ∷ 9 ∷ []

pub record LogField : Type 0 where
  pub k : LogKey
  pub v : Bytes

pub identifier_field : LogKey → Identifier → LogField
identifier_field k id =
    if is_empty id.text then record { k = 0; v = [] } else record { k = k; v = id.text }

pub space : Identifier → LogField
space = identifier_field 3

pub channel : Identifier → LogField
channel = identifier_field 4

pub member : Identifier → LogField
member = identifier_field 5

pub client : Identifier → LogField
client = identifier_field 6

pub version : ℕ → LogField
version v = record { k = 7; v = itoa (pos v) }

pub count : ℤ → LogField
count n = record { k = 8; v = itoa n }

negated : ℕ → ℤ
negated zero = pos 0
negated (suc m) = negsuc m

-- To the nearest millisecond, half of one away from zero, in milliseconds. That the rounding of Go saturates at the ends
-- of 64 bits is left out.
milliseconds : Duration → ℤ
unfolding negated
milliseconds (pos n) = pos ((n + 500_000) / 1_000_000)
milliseconds (negsuc n) = negated ((suc n + 500_000) / 1_000_000)

pub held : Duration → LogField
unfolding milliseconds
held d = record { k = 9; v = itoa (milliseconds d) ++ bytes "ms" }

-- What has been written, and whether more can be.
pub record Log : Type 0 where
  pub written : Bytes
  pub writable : Bool

add_field : FinMap LogKey Bytes → LogField → Result LogError (FinMap LogKey Bytes)
add_field given f =
    fail_if (f.k == 0) nameless_field
    >> fail_if (is_some (lookup f.k given)) given_twice
    >> ok (insert f.k f.v given)

add_fields : FinMap LogKey Bytes → List LogField → Result LogError (FinMap LogKey Bytes)
unfolding add_field
add_fields given [] = ok given
add_fields given (f ∷ fields) = add_field given f >>= λ given'. add_fields given' fields

-- The loop that writes the keys onto the buffer.
abbrev pub entry_of : LogKey → Bytes → Bytes
entry_of k v = key_name k ++ b'=' ∷ v

abbrev write_key : Bytes → LogKey → Option Bytes → Bytes
write_key b k none = b
write_key b k (some v) = if is_empty b then entry_of k v else b ++ 32 ∷ entry_of k v

pub write_keys : FinMap LogKey Bytes → List LogKey → Bytes → Bytes
write_keys given [] b = b
write_keys given (k ∷ keys) b = write_keys given keys (write_key b k (lookup k given))

pub line_of : (Time → Bytes) → Time → Event → FinMap LogKey Bytes → Bytes
unfolding write_keys
line_of stamp now e given =
    write_keys (insert 2 (event_name e) (insert 1 (stamp now) given)) declared_keys []

abbrev write_line : Log → Bytes → Log × Result LogError (Unit {0})
write_line l line =
    if l.writable
    then (record l { written = l.written ++ (line ++ 10 ∷ []) }, ok tt)
    else (l, err not_written)

record_given :
    (Time → Bytes)
    → Time
    → Log
    → Event
    → Result LogError (FinMap LogKey Bytes)
    → Log × Result LogError (Unit {0})
unfolding line_of
record_given stamp now l e (err x) = (l, err x)
record_given stamp now l e (ok given) = write_line l (line_of stamp now e given)

pub record_event :
    (Time → Bytes) → Time → Log → Event → List LogField → Log × Result LogError (Unit {0})
unfolding record_given add_fields event_name
record_event stamp now l e fields =
    if is_empty (event_name e)
    then (l, err unknown_event)
    else record_given stamp now l e (add_fields [] fields)
