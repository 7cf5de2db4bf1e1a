-- ===== src/Orchestration/Domain/Moves.antt =====
-- Where members are, as a partial function, and the operations of internal/orchestration/domain.go on it.
use mathlib.Core.Option
use stammtisch.Prelude.{
  ◌≡◌, Option, some, none, ok, err, is_ok, arith, is_some, true, false, inl, inr, ite, Option-cases,
  if◌then◌else◌, ◌||◌, not,
}
use stammtisch.Prelude.Map.{
  FinMap, ◌≟◌, lookup, insert, delete, lookup-insert, lookup-delete, delete_absent,
}
use stammtisch.Orchestration.Domain.Invariant.{IsWellFormed}
use stammtisch.Orchestration.EntityId.{EntityId, id_key, is_zero}
use stammtisch.Orchestration.Domain.{
  Room, Occupancy, Space, enter, leave, switch, already_occupies, step, Call, adds, opens, closes,
  enters, leaves, switches, add_channel, open_room, close_room,
}

-- The abstract view: the channel that a member is in.
abbrev pub where_is : Space → EntityId → Option EntityId
where_is s member = Option.map (λ o. o.channel) (lookup member s.occupancies)

delete-delete : (k : EntityId) (m : FinMap EntityId Occupancy) → delete k (delete k m) ≡ delete k m
delete-delete k m = delete_absent k (delete k m) (ground (arith, lookup-delete k k m))

-- A switch gives the answer that leaving and then entering gives: the same occupancy and space, or the
-- same refusal. What a refusal leaves behind is not in the answer.
switch-enter :
    (s : Space) (member channel : EntityId)
    → switch s member channel ≡ enter (leave s member) member channel
unfolding switch enter leave insert
switch-enter s member channel =
    ground (arith, lookup-delete member member s.occupancies, delete-delete member s.occupancies)

abbrev pub leave_then_enter : Space → EntityId → EntityId → Space
leave_then_enter s member channel = step (step s (leaves member)) (enters member channel)

-- A switch to a channel that the space does not hold, or of no member, leaves everybody where they
-- were, and any other switch moves the one member to the channel and nobody else.
pub where_is-switch :
    (s : Space) (member channel other : EntityId)
    → where_is (step s (switches member channel)) other ≡ (
        if is_zero member || not (is_some (lookup channel s.channels))
        then where_is s other
        else ite (member ≟ other) (some channel) (where_is s other))
unfolding step switch
where_is-switch s member channel other = ground (
  arith,
  lookup-insert other member (record { member = member; channel = channel }) s.occupancies,
)

where_is-left :
    (s : Space) (member channel : EntityId)
    → is_ok (enter (leave s member) member channel) ≡ false
    → where_is (leave_then_enter s member channel) member ≡ none
unfolding step enter leave
where_is-left s member channel h = ground (arith, lookup-delete member member s.occupancies)

-- A switch and leaving followed by entering give the same answer. Where that is an occupancy, they
-- leave the same space, with the member in the channel. Where it is a refusal, leaving and then
-- entering has taken the member out, and the switch has changed nothing.
pub switch_atomic :
    (s : Space) (member channel : EntityId)
    → (switch s member channel ≡ enter (leave s member) member channel)
      × (is_ok (switch s member channel) ≡ true
          → (step s (switches member channel) ≡ leave_then_enter s member channel)
            × (where_is (step s (switches member channel)) member ≡ some channel))
      × (is_ok (switch s member channel) ≡ false
          → (step s (switches member channel) ≡ s)
            × (where_is (leave_then_enter s member channel) member ≡ none))
unfolding step switch
switch_atomic s member channel =
    let same = switch-enter s member channel in
    (
      same,
      λ h. (ground arith, ground (arith, where_is-switch s member channel member)),
      λ h. (ground arith, where_is-left s member channel (ground arith)),
    )

abbrev pub IsSwitch : Call → Type 0
IsSwitch (switches member channel) = Unit {0}
IsSwitch _ = ⊥

-- No call but a switch takes a member who is in a channel into another one.
pub where_is-step_stays :
    (s : Space) (c : Call) (m a b : EntityId)
    → ¬ IsSwitch c
    → where_is s m ≡ some a
    → where_is (step s c) m ≡ some b
    → a ≡ b
unfolding step add_channel open_room close_room enter leave
where_is-step_stays s (adds id space name always_on) m a b n h k = ground arith
where_is-step_stays s (opens channel) m a b n h k = ground arith
where_is-step_stays s (closes channel) m a b n h k = ground arith
where_is-step_stays s (enters member channel) m a b n h k =
    ground
      (arith, lookup-insert m member (record { member = member; channel = channel }) s.occupancies)
where_is-step_stays s (leaves member) m a b n h k =
    ground (arith, lookup-delete m member s.occupancies)
where_is-step_stays s (switches member channel) m a b n h k = absurd (n tt)

-- Opening a room again gives the room that is there, and changes nothing.
pub open_room-again :
    (s t : Space) (channel : EntityId) (r : Room)
    → open_room s channel ≡ ok (t, r)
    → open_room t channel ≡ ok (t, r)
unfolding open_room
open_room-again s t channel r h =
    ground (arith, lookup-insert channel channel (record { channel = channel }) s.rooms)

-- While a member is in a channel, entering any channel is refused, that one included.
pub enter-occupied :
    (s : Space) (member channel a : EntityId)
    → IsWellFormed s
    → where_is s member ≡ some a
    → is_some (lookup channel s.channels) ≡ true
    → enter s member channel ≡ err already_occupies
unfolding enter
enter-occupied s member channel a v h k = elim (Option-cases (lookup member s.occupancies)) [
  | inl e ↦ ground arith
  | inr (o, e) ↦ ground (arith, v.occupancy_ok member o)
]
