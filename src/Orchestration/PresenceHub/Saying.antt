-- ===== src/Orchestration/PresenceHub/Saying.antt =====
-- The member updates that `Apply` of internal/orchestration/presence_hub.go leaves for `Flush`, against
-- the presence of the members before and after each report.
use stammtisch.Prelude.{
  ◌≡◌, ◌≢◌, refl, true, false, List, [], ◌∷◌, Option, none, some, arith, holds, if◌then◌else◌, not,
  ◌||◌, ◌&&◌,
}
use stammtisch.Prelude.Map.{◌≟◌, lookup}
use stammtisch.Orchestration.EntityId.{EntityId, id_key, is_zero, zero_id}
use stammtisch.Orchestration.Presence.{
  Presence, Presence-discrete, zero_presence, PresenceReport, PresenceChange, Projection, moved,
  apply_leave, apply_in, published,
}
use stammtisch.Orchestration.Presence as Projections
use stammtisch.Orchestration.PresenceHub.{MemberUpdate, left_update, joined_update}

abbrev pub or_before : Option MemberUpdate → Option MemberUpdate → Option MemberUpdate
or_before (some u) before = some u
or_before none before = before

-- What there is to say of a member in a channel, of whom it was known `before` and is known `now`:
-- nothing where nothing changed, that they are present where they are in the channel now, and that
-- they are absent where they were in it.
abbrev pub said_of : EntityId → EntityId → Option Presence → Option Presence → Option MemberUpdate
said_of channel member none none = none
said_of channel member none (some now) =
    if holds (now.channel ≟ channel)
    then some (record { channel = channel; member = member; present = true; now = now })
    else none
said_of channel member (some was) none =
    if holds (was.channel ≟ channel)
    then some (record { channel = channel; member = member; present = false; now = zero_presence })
    else none
said_of channel member (some was) (some now) =
    if holds (Presence-discrete was now)
    then none
    else if holds (now.channel ≟ channel)
    then some (record { channel = channel; member = member; present = true; now = now })
    else if holds (was.channel ≟ channel)
    then some (record { channel = channel; member = member; present = false; now = zero_presence })
    else none

abbrev pub said : Projection → Projection → EntityId → EntityId → Option MemberUpdate
said p q channel member = said_of channel member (lookup member p.present) (lookup member q.present)

-- The last that there was to say of a member in a channel, over a run of reports.
abbrev pub last_said : Projection → List PresenceReport → EntityId → EntityId → Option MemberUpdate
last_said p [] channel member = none
last_said p (r ∷ rs) channel member =
    or_before (last_said (Projections.apply p r).0 rs channel member)
      (said p (Projections.apply p r).0 channel member)

-- What a change says, in the order of `Apply`.
abbrev pub says : PresenceChange → EntityId → EntityId → Option MemberUpdate
says change channel member =
    if not (holds (change.member ≟ member))
    then none
    else if holds (change.joined ≟ channel) && (not (moved change) || not (is_zero change.joined))
    then some (joined_update change)
    else if holds (change.left ≟ channel) && (moved change && not (is_zero change.left))
    then some (left_update change)
    else none

-- A change that is answered says what there is to say, of every member and channel.
abbrev pub IsToldTrue :
    Projection → EntityId → EntityId → Projection × Option PresenceChange → Type 0
IsToldTrue p channel member (q, none) = said p q channel member ≡ none
IsToldTrue p channel member (q, some change) = said p q channel member ≡ says change channel member

pub said_of-same :
    (channel member : EntityId) (o : Option Presence) → said_of channel member o o ≡ none
said_of-same channel member none = refl
said_of-same channel member (some was) = ground arith

pub says_other :
    (change : PresenceChange) (channel member : EntityId)
    → change.member ≢ member
    → says change channel member ≡ none
says_other change channel member n = ground (arith, n)

says_gone :
    (channel member nowhere : EntityId) (was : Presence)
    → is_zero was.channel ≡ false
    → is_zero nowhere ≡ true
    → was.channel ≢ nowhere
    → said_of channel member (some was) none
      ≡ says
          (record { member = member; left = was.channel; joined = nowhere; now = zero_presence })
          channel
          member
unfolding moved
says_gone channel member nowhere was z y n = ground arith

-- What is said of a member who leaves, who comes, and of whom something else is known.
pub says_left :
    (channel member : EntityId) (was : Presence)
    → is_zero was.channel ≡ false
    → said_of channel member (some was) none
      ≡ says
          (record { member = member; left = was.channel; joined = zero_id; now = zero_presence })
          channel
          member
unfolding is_zero
says_left channel member was z = says_gone channel member zero_id was z refl (ground arith)

pub says_joined :
    (channel member : EntityId) (now : Presence)
    → is_zero now.channel ≡ false
    → said_of channel member none (some now)
      ≡ says
          (record { member = member; left = zero_id; joined = now.channel; now = now })
          channel
          member
unfolding moved is_zero
says_joined channel member now z = ground arith

pub says_changed :
    (channel member : EntityId) (was now : Presence)
    → is_zero was.channel ≡ false
    → is_zero now.channel ≡ false
    → was ≢ now
    → said_of channel member (some was) (some now)
      ≡ says
          (record { member = member; left = was.channel; joined = now.channel; now = now })
          channel
          member
unfolding moved is_zero
says_changed channel member was now y z n = ground arith
