-- ===== src/Orchestration/Domain/Invariant.antt =====
-- What holds of a space of internal/orchestration/domain.go between two calls.
use stammtisch.Prelude.{◌≡◌, ◌≢◌, refl, false, List, [], ◌∷◌, none, some, ok, arith, is_some, true}
use stammtisch.Prelude.Map.{
  lookup, insert, IsFunctional, lookup-insert, lookup-delete, insert-IsFunctional,
  delete-IsFunctional,
}
use stammtisch.Orchestration.EntityId.{EntityId, id_key, is_zero}
use stammtisch.Orchestration.Domain.{
  Channel, Room, Occupancy, Space, new_channel, new_space, add_channel, open_room, close_room,
  enter, leave, switch, after_with, Call, adds, opens, closes, enters, leaves, switches, step, run,
}

-- The types of the three maps keep their promises: a channel stands under its own identifier, is
-- named and belongs to this space; a room stands under the channel that it backs, which is held; an
-- occupancy stands under its member and names a held channel.
pub record IsWellFormed (s : Space) : Type 0 where
  pub named : is_zero s.id ≡ false
  pub one_channel : IsFunctional s.channels
  pub one_room : IsFunctional s.rooms
  pub one_occupancy : IsFunctional s.occupancies
  pub channel_ok :
      (k : EntityId) (c : Channel)
      → lookup k s.channels ≡ some c
      → (c.id ≡ k) × (c.space ≡ s.id) × (is_zero k ≡ false) × (c.name ≢ [])
  pub room_ok :
      (k : EntityId) (r : Room)
      → lookup k s.rooms ≡ some r
      → (r.channel ≡ k) × (is_some (lookup k s.channels) ≡ true)
  pub occupancy_ok :
      (k : EntityId) (o : Occupancy)
      → lookup k s.occupancies ≡ some o
      → (o.member ≡ k) × (is_zero k ≡ false) × (is_some (lookup o.channel s.channels) ≡ true)

add-IsWellFormed :
    (s : Space) (c : Channel)
    → IsWellFormed s
    → is_zero c.id ≡ false
    → c.space ≡ s.id
    → c.name ≢ []
    → lookup c.id s.channels ≡ none
    → IsWellFormed (record s { channels = insert c.id c s.channels })
add-IsWellFormed s c v z e n h = record {
  named = v.named;
  one_channel = insert-IsFunctional c.id c s.channels v.one_channel;
  one_room = v.one_room;
  one_occupancy = v.one_occupancy;
  channel_ok = λ k d f. ground (arith, lookup-insert k c.id c s.channels, v.channel_ok k d);
  room_ok = λ k r f. ground (arith, lookup-insert k c.id c s.channels, v.room_ok k r);
  occupancy_ok =
      λ k o f. ground (arith, lookup-insert o.channel c.id c s.channels, v.occupancy_ok k o);
}

rooms-IsWellFormed :
    (s : Space) (channel : EntityId) (r : Room)
    → IsWellFormed s
    → r.channel ≡ channel
    → is_some (lookup channel s.channels) ≡ true
    → IsWellFormed (record s { rooms = insert channel r s.rooms })
rooms-IsWellFormed s channel r v e h = record {
  named = v.named;
  one_channel = v.one_channel;
  one_room = insert-IsFunctional channel r s.rooms v.one_room;
  one_occupancy = v.one_occupancy;
  channel_ok = v.channel_ok;
  room_ok = λ k q f. ground (arith, lookup-insert k channel r s.rooms, v.room_ok k q);
  occupancy_ok = v.occupancy_ok;
}

close-IsWellFormed :
    (s : Space) (channel : EntityId) → IsWellFormed s → IsWellFormed (close_room s channel)
unfolding close_room
close-IsWellFormed s channel v = record {
  named = v.named;
  one_channel = v.one_channel;
  one_room = delete-IsFunctional channel s.rooms v.one_room;
  one_occupancy = v.one_occupancy;
  channel_ok = v.channel_ok;
  room_ok = λ k q f. ground (arith, lookup-delete k channel s.rooms, v.room_ok k q);
  occupancy_ok = v.occupancy_ok;
}

occupy-IsWellFormed :
    (s : Space) (member channel : EntityId)
    → IsWellFormed s
    → is_zero member ≡ false
    → is_some (lookup channel s.channels) ≡ true
    → IsWellFormed (record s {
      occupancies = insert member (record { member = member; channel = channel }) s.occupancies;
    })
occupy-IsWellFormed s member channel v z h = record {
  named = v.named;
  one_channel = v.one_channel;
  one_room = v.one_room;
  one_occupancy = insert-IsFunctional member _ s.occupancies v.one_occupancy;
  channel_ok = v.channel_ok;
  room_ok = v.room_ok;
  occupancy_ok = λ k o f. ground (
    arith,
    lookup-insert k member (record { member = member; channel = channel }) s.occupancies,
    v.occupancy_ok k o,
  );
}

leave-IsWellFormed :
    (s : Space) (member : EntityId) → IsWellFormed s → IsWellFormed (leave s member)
unfolding leave
leave-IsWellFormed s member v = record {
  named = v.named;
  one_channel = v.one_channel;
  one_room = v.one_room;
  one_occupancy = delete-IsFunctional member s.occupancies v.one_occupancy;
  channel_ok = v.channel_ok;
  room_ok = v.room_ok;
  occupancy_ok = λ k o f. ground (arith, lookup-delete k member s.occupancies, v.occupancy_ok k o);
}

open-IsWellFormed :
    (s : Space) (channel : EntityId)
    → IsWellFormed s
    → IsWellFormed (after_with s (open_room s channel))
unfolding open_room
open-IsWellFormed s channel v =
    ground (arith, rooms-IsWellFormed s channel (record { channel = channel }) v refl)

-- Every call keeps the space well formed, and so the at-most-one rules hold in it.
pub step-IsWellFormed : (s : Space) (c : Call) → IsWellFormed s → IsWellFormed (step s c)
unfolding step new_channel add_channel enter switch
step-IsWellFormed s (adds id space name always_on) v = ground (
  arith,
  add-IsWellFormed s (record { id = id; space = space; name = name; always_on = always_on }) v,
)
step-IsWellFormed s (opens channel) v = open-IsWellFormed s channel v
step-IsWellFormed s (closes channel) v = close-IsWellFormed s channel v
step-IsWellFormed s (enters member channel) v =
    ground (arith, occupy-IsWellFormed s member channel v)
step-IsWellFormed s (leaves member) v = leave-IsWellFormed s member v
step-IsWellFormed s (switches member channel) v =
    ground (arith, occupy-IsWellFormed s member channel v)

run-IsWellFormed : (s : Space) (cs : List Call) → IsWellFormed s → IsWellFormed (run s cs)
unfolding run
run-IsWellFormed s [] v = v
run-IsWellFormed s (c ∷ cs) v = run-IsWellFormed (step s c) cs (step-IsWellFormed s c v)

new_space-IsWellFormed : (id : EntityId) (s : Space) → new_space id ≡ ok s → IsWellFormed s
unfolding new_space lookup
new_space-IsWellFormed id s h = record {
  named = ground arith;
  one_channel = ground arith;
  one_room = ground arith;
  one_occupancy = ground arith;
  channel_ok = λ k c f. ground arith;
  room_ok = λ k c f. ground arith;
  occupancy_ok = λ k c f. ground arith;
}

-- After any history of calls on a new space, each key of its maps stands once, a channel stands
-- under its own identifier, is named and belongs to this space, a room stands under a channel that
-- the space holds, and an occupancy under its own named member, in a channel that the space holds.
pub run-new_space-IsWellFormed :
    (id : EntityId) (s : Space) (cs : List Call) → new_space id ≡ ok s → IsWellFormed (run s cs)
run-new_space-IsWellFormed id s cs h = run-IsWellFormed s cs (new_space-IsWellFormed id s h)
