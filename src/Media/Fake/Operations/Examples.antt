-- ===== src/Media/Fake/Operations/Examples.antt =====
-- Runs of internal/media/fake/fake.go.
use stammtisch.Prelude.{
  ◌≡◌, ◌≢◌, ◌↔◌, refl, true, false, not, ◌&&◌, ◌||◌, ltb, List, [], ◌∷◌, ◌++◌, some, ok, is_ok,
  holds, ℕ_discrete, arith,
}
use stammtisch.Prelude.Int.{pos}
use stammtisch.Prelude.Bytes.{Bytes, Bytes-discrete, bytes_key, bytes, before}
use stammtisch.Prelude.Map.{lookup, insert, delete, is_set, ◌≟◌, gather}
use stammtisch.Prelude.Sort.{sort, place}
use stammtisch.Media.{
  Source, Source-discrete, source_key, Speaking, not_permitted, allows, valid_room, valid_member,
  valid_kind, kind_name,
}
use stammtisch.Media.Fake.{
  Fake, MediaRoom, Subscription-discrete, subscription_key, Seat-discrete, seat_key, new_fake,
  new_room, begin, record_call, find_member, publishing, admitted, is_published, subscribed,
}
use stammtisch.Media.Fake.Operations.{
  attempt, answer, create_room, create_room_body, admit_member, admit_member_body, admit_member_in,
  refuses_some, publish_source, publish_source_body, publish_source_in, subscribe, subscribe_body,
  subscribe_in, revoke_member, revoke_member_body, revoke_member_in, drain_room, read_room,
  speakers, speaking_before, speaking_state, speaking_state_body,
}
use stammtisch.Media.Fake.Operations.Requests.{
  asks_create, asks_admit, asks_publish, asks_subscribe, asks_drain, perform, op_of, MediaStep,
  requests, media_step, media_run,
}
use stammtisch.Media.Fake.Operations.Sound.{IsSound}
use stammtisch.Media.Fake.Operations.Invariant.{media_run-IsSound}
use stammtisch.Media.Fake.Operations.Log.{logged, perform-refused}
use stammtisch.Media.Fake.Operations.Revoke.{revoke_member-gone}
use stammtisch.Media.Fake.Operations.Drain.{drain_room-closes}

abbrev room : Bytes
room = bytes "r"

abbrev ann : Bytes
ann = bytes "a"

abbrev ben : Bytes
ben = bytes "b"

abbrev mic : Source
mic = record { member = ann; kind = 1 }

-- Ann may publish audio and subscribe, and Ben may subscribe only.
abbrev asked : List MediaStep
asked =
    requests (pos 1) false (asks_create room)
    ∷ requests (pos 2) false (asks_admit room ann 5)
    ∷ requests (pos 3) false (asks_admit room ben 4)
    ∷ requests (pos 4) false (asks_publish room ann 1)
    ∷ requests (pos 5) false (asks_subscribe room ben mic)
    ∷ []

abbrev met : MediaRoom
met = record new_room {
  members = (ben, 4) ∷ (ann, 5) ∷ [];
  sources = (mic, true) ∷ [];
  subscribers = (record { subscriber = ben; source = mic }, true) ∷ [];
}

abbrev unit : Fake
unit = media_run ltb new_fake asked

met_in_unit : lookup room unit.rooms ≡ some met
unfolding media_run media_step perform create_room create_room_body admit_member admit_member_body
    admit_member_in refuses_some publish_source publish_source_body publish_source_in subscribe
    subscribe_body subscribe_in attempt answer begin record_call find_member publishing valid_room
    valid_member valid_kind kind_name allows new_fake new_room lookup insert delete is_set
    Bytes-discrete Source-discrete Subscription-discrete Seat-discrete ℕ_discrete
met_in_unit = refl

media_run-IsSound_example : IsSound met
media_run-IsSound_example = media_run-IsSound ltb asked room met met_in_unit

-- Ben may not publish.
met_unit : Fake
met_unit = record new_fake { rooms = (room, met) ∷ [] }

refused_ben : (perform ltb (pos 6) false met_unit (asks_publish room ben 1)).1 ≡ some not_permitted
unfolding perform publish_source publish_source_body publish_source_in attempt answer begin
    record_call find_member publishing valid_kind kind_name allows new_fake new_room lookup is_set
    Bytes-discrete Source-discrete ℕ_discrete met_unit
refused_ben = refl

not_a_drain : op_of (asks_publish room ben 1) ≢ op_of (asks_drain room)
not_a_drain e = ground (arith, e)

perform-refused_example :
    (perform ltb (pos 6) false met_unit (asks_publish room ben 1)).0 ≡ record met_unit {
      calls = met_unit.calls ++ logged (asks_publish room ben 1) (some not_permitted) ∷ [];
    }
perform-refused_example =
    perform-refused ltb (pos 6) false met_unit (asks_publish room ben 1) not_permitted not_a_drain
      refused_ben

revoked_ann : (revoke_member false met_unit room ann).1 ≡ ok tt
unfolding revoke_member revoke_member_body revoke_member_in attempt answer begin record_call
    new_fake new_room lookup Bytes-discrete ℕ_discrete met_unit
revoked_ann = refl

revoke_member-gone_example :
    let after = (revoke_member false met_unit room ann).0 in
    let here = holds (room ≟ room) in
    (admitted after room ben ≡ (not (here && holds (ann ≟ ben)) && admitted met_unit room ben))
    × (is_published after room mic
        ≡ (not (here && holds (ann ≟ ann)) && is_published met_unit room mic))
    × (subscribed after room ben mic ≡ (
        not (here && (holds (ann ≟ ben) || holds (ann ≟ ann))) && subscribed met_unit room ben mic))
revoke_member-gone_example = revoke_member-gone false met_unit room ann room ben mic revoked_ann

met_found : lookup room met_unit.rooms ≡ some met
unfolding lookup Bytes-discrete ℕ_discrete met_unit
met_found = refl

reached : met_unit.unreachable ≡ false
unfolding met_unit new_fake
reached = refl

drain_room-closes_example :
    let after =
      media_run ltb
        (drain_room false met_unit room).0
        (requests (pos 7) false (asks_admit room (bytes "c") 4) ∷ []) in
    (admitted after room (bytes "c") ≡ true → admitted met_unit room (bytes "c") ≡ true)
    × (is_ok (admit_member false after room (bytes "c") 4).1 ≡ false)
    × ((is_ok (drain_room false met_unit room).1 ≡ true) ↔ (met.members ≡ []))
drain_room-closes_example =
    drain_room-closes ltb met_unit room met
      (requests (pos 7) false (asks_admit room (bytes "c") 4) ∷ []) (bytes "c") 4 false met_found
      reached (tt, tt)

abbrev met_report : List Speaking
met_report =
    record { member = ann; speaking = false } ∷ record { member = ben; speaking = false } ∷ []

reported :
    speaking_state false met_unit room ≡ ((speaking_state false met_unit room).0, ok met_report)
unfolding speaking_state speaking_state_body read_room speakers speaking_before sort place before
    gather attempt answer begin record_call new_fake new_room lookup is_set Bytes-discrete
    ℕ_discrete met_unit
reported = refl
