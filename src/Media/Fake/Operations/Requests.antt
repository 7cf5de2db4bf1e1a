-- ===== src/Media/Fake/Operations/Requests.antt =====
-- The twelve methods of internal/media/fake/fake.go as requests, the knobs of its tests, and runs of
-- both: what a caller may do to the unit, in any order.
use stammtisch.Prelude.{Bool, List, [], ◌∷◌, Option, none, some, Result, ok, err}
use stammtisch.Prelude.Int.{ℤ}
use stammtisch.Prelude.Bytes.{Bytes}
use stammtisch.Orchestration.Clock.{Time}
use stammtisch.Media.{
  SourceKind, Source, Capability, Capabilities, Gain, Hop, MediaError, MediaOp, op_create_room,
  op_destroy_room, op_admit_member, op_revoke_member, op_publish_source, op_unpublish_source,
  op_subscribe, op_unsubscribe, op_set_subscriber_gain, op_speaking_state, op_hop_metrics,
  op_drain_room,
}
use stammtisch.Media.Fake.{
  Fake, set_room_limit, set_gain_supported, set_gain_range, set_observable, set_speaking, set_hop,
  set_unreachable, fail_room_creation, time_out_admission, never_deliver_source, drop_subscription,
  refuse_capability,
}
use stammtisch.Media.Fake.Operations.{
  Answer, create_room, destroy_room, admit_member, revoke_member, publish_source, unpublish_source,
  subscribe, unsubscribe, set_subscriber_gain, speaking_state, hop_metrics, drain_room,
}

-- A call of a method, with its arguments.
pub data Request : Type 0 where
  asks_create asks_destroy asks_speaking asks_hops asks_drain : Bytes → Request
  asks_admit : (id member : Bytes) (caps : Capabilities) → Request
  asks_revoke : (id member : Bytes) → Request
  asks_publish asks_unpublish : (id member : Bytes) (kind : SourceKind) → Request
  asks_subscribe asks_unsubscribe : (id subscriber : Bytes) (source : Source) → Request
  asks_gain : (id subscriber : Bytes) (source : Source) (gain : Gain) → Request

abbrev pub op_of : Request → MediaOp
op_of (asks_create id) = op_create_room
op_of (asks_destroy id) = op_destroy_room
op_of (asks_speaking id) = op_speaking_state
op_of (asks_hops id) = op_hop_metrics
op_of (asks_drain id) = op_drain_room
op_of (asks_admit id member caps) = op_admit_member
op_of (asks_revoke id member) = op_revoke_member
op_of (asks_publish id member kind) = op_publish_source
op_of (asks_unpublish id member kind) = op_unpublish_source
op_of (asks_subscribe id subscriber source) = op_subscribe
op_of (asks_unsubscribe id subscriber source) = op_unsubscribe
op_of (asks_gain id subscriber source gain) = op_set_subscriber_gain

-- The error of an answer, with the unit after it.
abbrev pub failure_of : {A : Type 0} → Result MediaError A → Option MediaError
failure_of (ok a) = none
failure_of (err e) = some e

abbrev pub outcome : {A : Type 0} → Answer A → Fake × Option MediaError
outcome (f, r) = (f, failure_of r)

-- A request at a time, with the caller's context live or ended.
unfoldable pub perform :
    (Gain → Gain → Bool) → Time → Bool → Fake → Request → Fake × Option MediaError
perform less now ended f (asks_create id) = outcome (create_room ended f id)
perform less now ended f (asks_destroy id) = outcome (destroy_room ended f id)
perform less now ended f (asks_speaking id) = outcome (speaking_state ended f id)
perform less now ended f (asks_hops id) = outcome (hop_metrics now ended f id)
perform less now ended f (asks_drain id) = outcome (drain_room ended f id)
perform less now ended f (asks_admit id member caps) = outcome (admit_member ended f id member caps)
perform less now ended f (asks_revoke id member) = outcome (revoke_member ended f id member)
perform less now ended f (asks_publish id member kind) =
    outcome (publish_source ended f id member kind)
perform less now ended f (asks_unpublish id member kind) =
    outcome (unpublish_source ended f id member kind)
perform less now ended f (asks_subscribe id subscriber source) =
    outcome (subscribe ended f id subscriber source)
perform less now ended f (asks_unsubscribe id subscriber source) =
    outcome (unsubscribe ended f id subscriber source)
perform less now ended f (asks_gain id subscriber source gain) =
    outcome (set_subscriber_gain less ended f id subscriber source gain)

-- What happens to the unit: a request, or a knob that a test turns.
pub data MediaStep : Type 0 where
  requests : (now : Time) (ended : Bool) (r : Request) → MediaStep
  limits_rooms : ℤ → MediaStep
  supports_gain can_observe cannot_be_reached : Bool → MediaStep
  ranges_gain : (low high : Gain) → MediaStep
  speaks : (id member : Bytes) (speaking : Bool) → MediaStep
  hops : (now : Time) (id : Bytes) (hop : Hop) → MediaStep
  fails_creation : (id : Bytes) (fails : Bool) → MediaStep
  times_out : (id member : Bytes) (times_out : Bool) → MediaStep
  never_delivers : (source : Source) (never : Bool) → MediaStep
  drops : (id subscriber : Bytes) (source : Source) → MediaStep
  cannot_express : (c : Capability) (refused : Bool) → MediaStep

unfoldable pub media_step : (Gain → Gain → Bool) → Fake → MediaStep → Fake
media_step less f (requests now ended r) = (perform less now ended f r).0
media_step less f (limits_rooms n) = set_room_limit f n
media_step less f (supports_gain b) = set_gain_supported f b
media_step less f (can_observe b) = set_observable f b
media_step less f (cannot_be_reached b) = set_unreachable f b
media_step less f (ranges_gain low high) = set_gain_range f low high
media_step less f (speaks id member b) = set_speaking f id member b
media_step less f (hops now id hop) = set_hop now f id hop
media_step less f (fails_creation id b) = fail_room_creation f id b
media_step less f (times_out id member b) = time_out_admission f id member b
media_step less f (never_delivers source b) = never_deliver_source f source b
media_step less f (drops id subscriber source) = drop_subscription f id subscriber source
media_step less f (cannot_express c b) = refuse_capability f c b

unfoldable pub media_run : (Gain → Gain → Bool) → Fake → List MediaStep → Fake
unfolding media_step
media_run less f [] = f
media_run less f (s ∷ rest) = media_run less (media_step less f s) rest
