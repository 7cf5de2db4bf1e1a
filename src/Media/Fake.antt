-- ===== src/Media/Fake.antt =====
-- internal/media/fake/fake.go: the media unit in memory, and the knobs of a test on it. Every method
-- returns the unit after it. The state of the caller's context and the time on the clock are the
-- arguments `is_cancelled` and `now`; the order of two gains, which are float64, is the argument
-- `less`. The lock guards each method as a whole and is left out.
pub mod Operations
use stammtisch.Prelude.{
  ℕ, suc, Bool, true, false, not, ◌&&◌, ◌||◌, List, [], ◌∷◌, ◌++◌, Option, none, some, Result, ok,
  err, ◌>>=◌, ◌>>◌, fail_if, holds, is_some, length, leb, ltb, ◌==◌, if◌then◌else◌,
}
use stammtisch.Prelude.Int.{ℤ, pos, negsuc, ltb_ℤ}
use stammtisch.Prelude.Bytes.{Bytes, Bytes-discrete, bytes_key, bytes, before, is_empty}
use stammtisch.Prelude.Decimal.{itoa}
use stammtisch.Prelude.Map.{Key, FinMap, ◌≟◌, lookup, insert, delete, gather, is_set, remove_where}
use stammtisch.Prelude.{ℕ_discrete}
use stammtisch.Prelude.Sort.{sort}
use stammtisch.Orchestration.Clock.{Time}
use stammtisch.Media.{
  SourceKind, video, Source, Source-discrete, source_key, Capability, Capabilities, allows,
  may_publish_audio, may_publish_video, may_subscribe, Credential, new_credential, Gain, Speaking,
  Hop, MediaError, unavailable, cancelled, room_limit_reached, no_such_room,
  member_already_admitted, permissions_not_expressible, no_such_member, not_permitted,
  source_already_published, no_such_source, gain_not_supported, no_such_subscription,
  gain_out_of_range, not_observable, drain_deadline_exceeded, MediaOp, op_create_room,
  op_destroy_room, op_admit_member, op_revoke_member, op_publish_source, op_unpublish_source,
  op_subscribe, op_unsubscribe, op_set_subscriber_gain, op_speaking_state, op_hop_metrics,
  op_drain_room, valid_room, valid_member, valid_kind,
}

pub record MediaCall : Type 0 where
  pub op : MediaOp
  pub room : Bytes
  pub member : Bytes
  pub source : Source
  pub gain : Gain
  pub caps : Capabilities
  pub failure : Option MediaError

pub record Subscription : Type 0 where
  pub subscriber : Bytes
  pub source : Source

unfoldable pub Subscription-discrete : Discrete Subscription
Subscription-discrete = hlevel (Bytes-discrete, Source-discrete)

instance abbrev pub subscription_key : Key Subscription
subscription_key = record { same = Subscription-discrete }

pub record Seat : Type 0 where
  pub room : Bytes
  pub member : Bytes

unfoldable pub Seat-discrete : Discrete Seat
Seat-discrete = hlevel Bytes-discrete

instance abbrev pub seat_key : Key Seat
seat_key = record { same = Seat-discrete }

instance abbrev pub capability_key : Key ℕ
capability_key = record { same = ℕ_discrete }

pub record MediaRoom : Type 0 where
  pub members : FinMap Bytes Capabilities
  pub sources : FinMap Source Bool
  pub subscribers : FinMap Subscription Bool
  pub speaking : FinMap Bytes Bool
  pub hops : FinMap Bytes Hop
  pub draining : Bool

pub record Fake : Type 0 where
  pub calls : List MediaCall
  pub rooms : FinMap Bytes MediaRoom
  pub minted : ℕ
  pub room_limit : ℤ
  pub gain_supported : Bool
  pub lowest_gain : Gain
  pub highest_gain : Gain
  pub observable : Bool
  pub unreachable : Bool
  pub admission_times_out : FinMap Seat Bool
  pub room_creation_fails : FinMap Bytes Bool
  pub source_never_arrives : FinMap Source Bool
  pub caps_not_expressible : FinMap ℕ Bool

-- `New` with a clock; without one it is an error, which is the only one. The gains are 0 and 4.
pub new_fake : Fake
new_fake = record {
  calls = [];
  rooms = [];
  minted = 0;
  room_limit = negsuc 0;
  gain_supported = false;
  lowest_gain = 0;
  highest_gain = 0x4010000000000000;
  observable = true;
  unreachable = false;
  admission_times_out = [];
  room_creation_fails = [];
  source_never_arrives = [];
  caps_not_expressible = [];
}

pub new_room : MediaRoom
new_room = record {
  members = [];
  sources = [];
  subscribers = [];
  speaking = [];
  hops = [];
  draining = false;
}

-- What a test may ask without it being a call.
with_room : {A : Type 0} → A → (MediaRoom → A) → Option MediaRoom → A
with_room a f none = a
with_room a f (some r) = f r

pub subscribed : Fake → Bytes → Bytes → Source → Bool
unfolding with_room
subscribed f id subscriber source =
    with_room false
      (λ r. is_set (record { subscriber = subscriber; source = source }) r.subscribers)
      (lookup id f.rooms)

pub is_published : Fake → Bytes → Source → Bool
unfolding with_room
is_published f id source = with_room false (λ r. is_set source r.sources) (lookup id f.rooms)

pub admitted : Fake → Bytes → Bytes → Bool
unfolding with_room
admitted f id member = with_room false (λ r. is_some (lookup member r.members)) (lookup id f.rooms)

-- The knobs. What is written through the pointer of a room is written to the unit's map.
abbrev pub put_room : Fake → Bytes → MediaRoom → Fake
put_room f id r = record f { rooms = insert id r f.rooms }

pub set_room_limit : Fake → ℤ → Fake
set_room_limit f n = record f { room_limit = n }

pub set_gain_supported : Fake → Bool → Fake
set_gain_supported f b = record f { gain_supported = b }

pub set_gain_range : Fake → Gain → Gain → Fake
set_gain_range f low high = record f { lowest_gain = low; highest_gain = high }

pub set_observable : Fake → Bool → Fake
set_observable f b = record f { observable = b }

pub set_speaking : Fake → Bytes → Bytes → Bool → Fake
unfolding with_room
set_speaking f id member speaking =
    with_room f (λ r. put_room f id (record r { speaking = insert member speaking r.speaking }))
      (lookup id f.rooms)

pub set_hop : Time → Fake → Bytes → Hop → Fake
unfolding with_room
set_hop now f id hop =
    with_room f
      (λ r.
        put_room f id
          (record r { hops = insert hop.member (record hop { observed = now }) r.hops }))
      (lookup id f.rooms)

pub set_unreachable : Fake → Bool → Fake
set_unreachable f b = record f { unreachable = b }

pub fail_room_creation : Fake → Bytes → Bool → Fake
fail_room_creation f id b = record f { room_creation_fails = insert id b f.room_creation_fails }

pub time_out_admission : Fake → Bytes → Bytes → Bool → Fake
time_out_admission f id member b = record f {
  admission_times_out = insert (record { room = id; member = member }) b f.admission_times_out;
}

pub never_deliver_source : Fake → Source → Bool → Fake
never_deliver_source f source b = record f {
  source_never_arrives = insert source b f.source_never_arrives;
}

pub drop_subscription : Fake → Bytes → Bytes → Source → Fake
unfolding with_room
drop_subscription f id subscriber source =
    with_room f
      (λ r. put_room f id (record r {
        subscribers = delete (record { subscriber = subscriber; source = source }) r.subscribers;
      }))
      (lookup id f.rooms)

pub refuse_capability : Fake → Capability → Bool → Fake
refuse_capability f c b = record f { caps_not_expressible = insert c b f.caps_not_expressible }

-- `begin`: the errors that stop any method.
pub begin : Bool → Fake → Option MediaError
begin is_cancelled f =
    if is_cancelled then some cancelled else if f.unreachable then some unavailable else none

-- `record`.
pub record_call : Fake → MediaCall → Fake
record_call f call = record f { calls = f.calls ++ call ∷ [] }

-- `memberOf`.
pub find_member : Bytes → Option MediaRoom → Result MediaError (MediaRoom × Capabilities)
find_member member none = err no_such_room
find_member member (some r) = elim (lookup member r.members) [
  | none ↦ err no_such_member
  | some caps ↦ ok (r, caps)
]

pub publishing : SourceKind → Capability
publishing kind = if kind == video then may_publish_video else may_publish_audio
