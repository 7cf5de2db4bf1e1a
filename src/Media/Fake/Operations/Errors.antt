-- ===== src/Media/Fake/Operations/Errors.antt =====
-- How the methods of internal/media/fake/fake.go fail: with which errors, and what a refused request
-- leaves behind.
use stammtisch.Prelude.{◌≡◌, List, [], ◌∷◌, ◌++◌, Option, none, some, In, ◌⊎◌}
use stammtisch.Media.{
  MediaError, unavailable, cancelled, internal, invalid_identity, no_such_room, no_such_member,
  no_such_source, no_such_subscription, not_permitted, not_observable, source_already_published,
  room_limit_reached, member_already_admitted, permissions_not_expressible, gain_not_supported,
  gain_out_of_range, drain_deadline_exceeded, MediaOp, op_create_room, op_destroy_room,
  op_admit_member, op_revoke_member, op_publish_source, op_unpublish_source, op_subscribe,
  op_unsubscribe, op_set_subscriber_gain, op_speaking_state, op_hop_metrics, op_drain_room,
  documented, kind_name,
}
use stammtisch.Media.Fake.{Fake}
use stammtisch.Media.Fake.Operations.Requests.{
  Request, asks_publish, asks_unpublish, asks_subscribe, asks_unsubscribe, op_of,
}

-- The errors that any method may end in.
abbrev pub common : List MediaError
common = unavailable ∷ cancelled ∷ internal ∷ []

-- The lists of docs/decisions/media-plane-port.md, which says that an error outside an operation's list
-- cannot come out of it. They are not those of internal/media/port.go: they have no invalid identity
-- for the four operations on sources.
abbrev pub recorded : MediaOp → List MediaError
recorded op_create_room = room_limit_reached ∷ invalid_identity ∷ []
recorded op_destroy_room = invalid_identity ∷ []
recorded op_admit_member =
    no_such_room ∷ member_already_admitted ∷ permissions_not_expressible ∷ invalid_identity ∷ []
recorded op_revoke_member = no_such_room ∷ []
recorded op_publish_source =
    no_such_room ∷ no_such_member ∷ not_permitted ∷ source_already_published ∷ []
recorded op_unpublish_source = no_such_room ∷ no_such_member ∷ not_permitted ∷ []
recorded op_subscribe = no_such_room ∷ no_such_member ∷ no_such_source ∷ not_permitted ∷ []
recorded op_unsubscribe = no_such_room ∷ no_such_member ∷ no_such_source ∷ not_permitted ∷ []
recorded op_set_subscriber_gain = gain_not_supported ∷ no_such_subscription ∷ gain_out_of_range ∷ []
recorded op_speaking_state = no_such_room ∷ not_observable ∷ []
recorded op_hop_metrics = no_such_room ∷ not_observable ∷ []
recorded op_drain_room = no_such_room ∷ drain_deadline_exceeded ∷ []

-- The request is about a source of a kind that has no name, which is one the package does not define.
abbrev pub AsksUndefined : Request → Type 0
AsksUndefined (asks_publish id member kind) = kind_name kind ≡ []
AsksUndefined (asks_unpublish id member kind) = kind_name kind ≡ []
AsksUndefined (asks_subscribe id s x) = kind_name x.kind ≡ []
AsksUndefined (asks_unsubscribe id s x) = kind_name x.kind ≡ []
AsksUndefined _ = ⊥

abbrev pub FailsAs : Request → Option MediaError → Type 0
FailsAs r none = Unit
FailsAs r (some e) =
    In e (common ++ documented (op_of r))
    × (In e (common ++ recorded (op_of r)) ⊎ ((e ≡ invalid_identity) × AsksUndefined r))
