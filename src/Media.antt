-- ===== src/Media.antt =====
-- internal/media/port.go: what the media plane is asked and what it may answer. The text of an error
-- is left out. A float64 is its 64 bits, and a uint8 a number below 256.
pub mod Fake
use Prim.Native.Nat.{bit_and, bit_or}
use stammtisch.Prelude.{
  ℕ, Bool, true, not, List, [], ◌∷◌, Result, ok, err, ◌==◌, fail_if, if◌then◌else◌,
}
use stammtisch.Prelude.Int.{ℤ}
use stammtisch.Prelude.Map.{Key}
use stammtisch.Prelude.{ℕ_discrete}
use stammtisch.Prelude.Bytes.{Bytes, Bytes-discrete, bytes, is_empty}
use stammtisch.Orchestration.Clock.{Time, Duration}

abbrev pub SourceKind : Type 0
SourceKind = ℕ

abbrev pub audio : SourceKind
audio = 1

abbrev pub video : SourceKind
video = 2

unfoldable pub kind_name : SourceKind → Bytes
kind_name k = if k == audio then bytes "audio" else if k == video then bytes "video" else []

pub record Source : Type 0 where
  pub member : Bytes
  pub kind : SourceKind

unfoldable pub Source-discrete : Discrete Source
Source-discrete = hlevel (Bytes-discrete, ℕ_discrete)

instance abbrev pub source_key : Key Source
source_key = record { same = Source-discrete }

abbrev pub Capability : Type 0
Capability = ℕ

abbrev pub Capabilities : Type 0
Capabilities = ℕ

abbrev pub may_publish_audio : Capability
may_publish_audio = 1

abbrev pub may_publish_video : Capability
may_publish_video = 2

abbrev pub may_subscribe : Capability
may_subscribe = 4

pub allows : Capabilities → Capability → Bool
allows s c = not (bit_and s c == 0)

pub with_capability : Capabilities → Capability → Capabilities
with_capability s c = bit_or s c

pub record Credential : Type 0 where
  pub opaque : Bytes

pub new_credential : Bytes → Credential
new_credential opaque = record { opaque = opaque }

pub is_no_credential : Credential → Bool
is_no_credential c = is_empty c.opaque

-- The bits of a float64: a gain, and the loss of a hop. The order of two gains is an argument of the
-- operation that compares them.
abbrev pub Float : Type 0
Float = ℕ

abbrev pub Gain : Type 0
Gain = Float

pub record Speaking : Type 0 where
  pub member : Bytes
  pub speaking : Bool

pub record Hop : Type 0 where
  pub member : Bytes
  pub delay : Duration
  pub loss : Float
  pub observed : Time

pub data MediaError : Type 0 where
  unavailable cancelled internal : MediaError
  room_limit_reached invalid_identity no_such_room member_already_admitted
        permissions_not_expressible no_such_member not_permitted source_already_published
        no_such_source gain_not_supported no_such_subscription gain_out_of_range not_observable
        drain_deadline_exceeded :
      MediaError

-- The methods of `Port`, in its order.
pub data MediaOp : Type 0 where
  op_create_room op_destroy_room op_admit_member op_revoke_member op_publish_source
        op_unpublish_source op_subscribe op_unsubscribe op_set_subscriber_gain op_speaking_state
        op_hop_metrics op_drain_room :
      MediaOp

abbrev pub operations : List MediaOp
operations =
    op_create_room ∷ op_destroy_room ∷ op_admit_member ∷ op_revoke_member ∷ op_publish_source
    ∷ op_unpublish_source ∷ op_subscribe ∷ op_unsubscribe ∷ op_set_subscriber_gain
    ∷ op_speaking_state ∷ op_hop_metrics ∷ op_drain_room ∷ []

-- The errors that the comments of the interface list for each method, beside the three that any may
-- return. The decision record docs/decisions/media-plane-port.md has lists of its own, which lack the
-- invalid identity for publish, unpublish, subscribe and unsubscribe.
abbrev pub documented : MediaOp → List MediaError
documented op_create_room = room_limit_reached ∷ invalid_identity ∷ []
documented op_destroy_room = invalid_identity ∷ []
documented op_admit_member =
    no_such_room ∷ member_already_admitted ∷ permissions_not_expressible ∷ invalid_identity ∷ []
documented op_revoke_member = no_such_room ∷ []
documented op_publish_source =
    no_such_room ∷ no_such_member ∷ not_permitted ∷ source_already_published ∷ invalid_identity ∷ []
documented op_unpublish_source = no_such_room ∷ no_such_member ∷ invalid_identity ∷ []
documented op_subscribe =
    no_such_room ∷ no_such_member ∷ no_such_source ∷ not_permitted ∷ invalid_identity ∷ []
documented op_unsubscribe = no_such_room ∷ no_such_member ∷ invalid_identity ∷ []
documented op_set_subscriber_gain =
    gain_not_supported ∷ no_such_subscription ∷ gain_out_of_range ∷ []
documented op_speaking_state = no_such_room ∷ not_observable ∷ []
documented op_hop_metrics = no_such_room ∷ not_observable ∷ []
documented op_drain_room = no_such_room ∷ drain_deadline_exceeded ∷ []

pub valid_room : Bytes → Result MediaError (Unit {0})
valid_room room = fail_if (is_empty room) invalid_identity

pub valid_member : Bytes → Result MediaError (Unit {0})
valid_member member = fail_if (is_empty member) invalid_identity

pub valid_kind : SourceKind → Result MediaError (Unit {0})
valid_kind kind = fail_if (is_empty (kind_name kind)) invalid_identity
