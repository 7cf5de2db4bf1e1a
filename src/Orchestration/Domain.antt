-- ===== src/Orchestration/Domain.antt =====
-- internal/orchestration/domain.go. A method that mutates `*Space` returns the new space; where it
-- fails it returns the refusal alone, and the space is the one that the caller still has. The six
-- operations on a space are also a step function over a history of calls.
pub mod Invariant
pub mod Moves
pub mod Listing
mod Examples
use stammtisch.Prelude.{
  ℕ, ◌≡◌, ◌≢◌, Bool, true, false, List, [], ◌∷◌, Option, none, some, Result, ok, err, ◌>>=◌, ◌>>◌,
  if◌then◌else◌, fail_if, holds, is_some, not, length, map,
}
use stammtisch.Prelude.Bytes.{Bytes, is_empty}
use stammtisch.Prelude.Map.{FinMap, ◌≟◌, lookup, insert, delete, gather}
use stammtisch.Prelude.Sort.{sort}
use stammtisch.Orchestration.EntityId.{EntityId, id_key, is_zero, id_before}

-- The messages that wrap `ErrInvariant`.
pub data Refusal : Type 0 where
  channel_without_id channel_without_space channel_without_name room_without_channel
        space_without_id no_channel foreign_channel channel_taken channel_not_held
        occupancy_without_member already_occupies :
      Refusal

pub record Channel : Type 0 where
  pub id : EntityId
  pub space : EntityId
  pub name : Bytes
  pub always_on : Bool

pub new_channel : EntityId → EntityId → Bytes → Bool → Result Refusal Channel
new_channel id space name always_on = do
  fail_if (is_zero id) channel_without_id
  fail_if (is_zero space) channel_without_space
  fail_if (is_empty name) channel_without_name
  ok (record { id = id; space = space; name = name; always_on = always_on })

pub record Room : Type 0 where
  pub channel : EntityId

pub new_room : EntityId → Result Refusal Room
new_room channel = do
  fail_if (is_zero channel) room_without_channel
  ok (record { channel = channel })

pub record Occupancy : Type 0 where
  pub member : EntityId
  pub channel : EntityId

-- The rooms are keyed by the channel, the occupancies by the member.
pub record Space : Type 0 where
  pub id : EntityId
  pub channels : FinMap EntityId Channel
  pub rooms : FinMap EntityId Room
  pub occupancies : FinMap EntityId Occupancy

pub new_space : EntityId → Result Refusal Space
new_space id = do
  fail_if (is_zero id) space_without_id
  ok (record { id = id; channels = []; rooms = []; occupancies = [] })

-- A nil channel is `none`.
pub add_channel : Space → Option Channel → Result Refusal Space
add_channel s none = err no_channel
add_channel s (some c) = do
  fail_if (not (holds (c.space ≟ s.id))) foreign_channel
  fail_if (is_some (lookup c.id s.channels)) channel_taken
  ok (record s { channels = insert c.id c s.channels })

-- The channel with an identifier; how many there are.
pub get_channel : Space → EntityId → Option Channel
get_channel s id = lookup id s.channels

pub count_channels : Space → ℕ
count_channels s = length s.channels

-- A room that is already there is returned, and no second one is made.
reopen : Space → EntityId → Option Room → Result Refusal (Space × Room)
unfolding new_room
reopen s channel (some r) = ok (s, r)
reopen s channel none = do
  r ← new_room channel
  ok (record s { rooms = insert channel r s.rooms }, r)

pub open_room : Space → EntityId → Result Refusal (Space × Room)
unfolding reopen
open_room s channel = do
  fail_if (not (is_some (lookup channel s.channels))) channel_not_held
  reopen s channel (lookup channel s.rooms)

pub close_room : Space → EntityId → Space
close_room s channel = record s { rooms = delete channel s.rooms }

pub get_room : Space → EntityId → Option Room
get_room s channel = lookup channel s.rooms

pub enter : Space → EntityId → EntityId → Result Refusal (Space × Occupancy)
enter s member channel = do
  fail_if (is_zero member) occupancy_without_member
  fail_if (not (is_some (lookup channel s.channels))) channel_not_held
  fail_if (is_some (lookup member s.occupancies)) already_occupies
  let o : Occupancy = record { member = member; channel = channel }
  ok (record s { occupancies = insert member o s.occupancies }, o)

pub leave : Space → EntityId → Space
leave s member = record s { occupancies = delete member s.occupancies }

pub switch : Space → EntityId → EntityId → Result Refusal (Space × Occupancy)
switch s member channel = do
  fail_if (is_zero member) occupancy_without_member
  fail_if (not (is_some (lookup channel s.channels))) channel_not_held
  let o : Occupancy = record { member = member; channel = channel }
  ok (record s { occupancies = insert member o s.occupancies }, o)

pub get_occupancy : Space → EntityId → Option Occupancy
get_occupancy s member = lookup member s.occupancies

-- The loop over the map collects the keys of the occupancies of the channel; then they are sorted.
collect : EntityId → FinMap EntityId Occupancy → List EntityId
unfolding gather
collect channel = gather (λ member o. if holds (o.channel ≟ channel) then some member else none)

pub occupants : Space → EntityId → List EntityId
unfolding collect
occupants s channel = sort id_before (collect channel s.occupancies)

-- A call on a space. A channel reaches `AddChannel` only from its constructor.
pub data Call : Type 0 where
  adds : EntityId → EntityId → Bytes → Bool → Call
  opens closes leaves : EntityId → Call
  enters switches : EntityId → EntityId → Call

-- The space after a call: where it is refused, the space before it.
abbrev after : Space → Result Refusal Space → Space
after s (ok t) = t
after s (err e) = s

abbrev after_with {ℓ} : {A : Type ℓ} → Space → Result Refusal (Space × A) → Space
after_with s (ok (t, a)) = t
after_with s (err e) = s

pub step : Space → Call → Space
step s (adds id space name always_on) =
    after s (new_channel id space name always_on >>= λ c. add_channel s (some c))
step s (opens channel) = after_with s (open_room s channel)
step s (closes channel) = close_room s channel
step s (enters member channel) = after_with s (enter s member channel)
step s (leaves member) = leave s member
step s (switches member channel) = after_with s (switch s member channel)

pub run : Space → List Call → Space
run s [] = s
run s (c ∷ cs) = run (step s c) cs
