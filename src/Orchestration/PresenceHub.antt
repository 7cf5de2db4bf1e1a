-- ===== src/Orchestration/PresenceHub.antt =====
-- internal/orchestration/presence_hub.go. A message is built by appending; a client's set and the
-- pending channels are maps that the hub alone holds, so a write through a pointer is a write to the
-- hub. `flush` returns `none` where Go would follow the nil pointer of an attached client that the map
-- lacks. The list `changed` carries the pending entry that was just looked up, for the map does not
-- change while a message is built.
pub mod Filing
pub mod Invariant
pub mod Fanout
pub mod Due
pub mod Deliveries
pub mod Flushing
pub mod Pending
pub mod History
pub mod Saying
pub mod Telling
pub mod Waiting
mod Examples
use stammtisch.Prelude.{
  ℕ, Bool, true, false, not, ◌||◌, List, [], ◌∷◌, ◌++◌, Option, none, some, Result, ok, err, ◌>>◌,
  fail_if, holds, is_some, if◌then◌else◌, map,
}
use stammtisch.Prelude.Bytes.{Bytes, is_empty, bytes_key}
use stammtisch.Prelude.Map.{FinMap, ◌≟◌, lookup, insert, delete, gather}
use stammtisch.Prelude.Sort.{sort}
use stammtisch.Orchestration.EntityId.{EntityId, id_key, is_zero, id_before}
use stammtisch.Orchestration.Permission.{Grantor, Principal, see_channel, channel_subject, allow}
use stammtisch.Orchestration.Presence.{
  Presence, PresenceReport, PresenceChange, Projection, new_projection, zero_presence, moved, count,
  occupants,
}
use stammtisch.Orchestration.Presence as Projections

-- The messages that wrap `ErrInvariant`, and the two errors of their own.
pub data HubError : Type 0 where
  hub_without_space hub_without_grantor channel_without_id channel_taken client_without_id
        client_taken client_without_principal no_such_client no_such_channel :
      HubError

pub record CountUpdate : Type 0 where
  pub channel : EntityId
  pub count : ℕ

pub record MemberUpdate : Type 0 where
  pub channel : EntityId
  pub member : EntityId
  pub present : Bool
  pub now : Presence

pub record Message : Type 0 where
  pub snapshot : Bool
  pub counts : List CountUpdate
  pub members : List MemberUpdate

unfoldable pub is_empty_message : Message → Bool
is_empty_message m = elim m.counts [
  | [] ↦ elim m.members [ [] ↦ true | u ∷ rest ↦ false ]
  | u ∷ rest ↦ false
]

pub record Delivery : Type 0 where
  pub client : Bytes
  pub message : Message

pub record Client : Type 0 where
  pub viewer : Principal
  pub subscribed : FinMap EntityId Bool

pub record PendingChannel : Type 0 where
  pub count_moved : Bool
  pub members : FinMap EntityId MemberUpdate

pub record Hub : Type 0 where
  pub space : EntityId
  pub grants : Grantor
  pub channels : List EntityId
  pub known : FinMap EntityId Bool
  pub projection : Projection
  pub clients : FinMap Bytes Client
  pub attached : List Bytes
  pub pending : FinMap EntityId PendingChannel

pub new_hub : EntityId → Option Grantor → Result HubError Hub
new_hub space none = do fail_if (is_zero space) hub_without_space; err hub_without_grantor
new_hub space (some grants) = do
  fail_if (is_zero space) hub_without_space
  ok (record {
    space = space;
    grants = grants;
    channels = [];
    known = [];
    projection = new_projection;
    clients = [];
    attached = [];
    pending = [];
  })

-- `m[k]` on a map of booleans.
unfoldable pub flag : EntityId → FinMap EntityId Bool → Bool
flag k m = elim (lookup k m) [ none ↦ false | some b ↦ b ]

pub add_channel : Hub → EntityId → Result HubError Hub
unfolding flag
add_channel h channel = do
  fail_if (is_zero channel) channel_without_id
  fail_if (flag channel h.known) channel_taken
  ok (record h { known = insert channel true h.known; channels = h.channels ++ channel ∷ [] })

pub visible : Hub → Client → EntityId → Bool
unfolding flag
visible h c channel =
    if not (flag channel h.known)
    then false
    else allow (some h.grants) c.viewer see_channel (channel_subject h.space channel)

-- The loop of `Attach` over the channels.
visible_counts : Hub → Client → List EntityId → List CountUpdate
visible_counts h c [] = []
visible_counts h c (channel ∷ channels) =
    let rest = visible_counts h c channels in
    if visible h c channel
    then record { channel = channel; count = count h.projection channel } ∷ rest
    else rest

pub attach : Hub → Bytes → Principal → Result HubError (Hub × Message)
unfolding visible_counts
attach h id viewer = do
  fail_if (is_empty id) client_without_id
  fail_if (is_some (lookup id h.clients)) client_taken
  fail_if (is_zero viewer.id) client_without_principal
  let c : Client = record { viewer = viewer; subscribed = [] }
  let h' : Hub = record h { clients = insert id c h.clients; attached = h.attached ++ id ∷ [] }
  ok (h', record { snapshot = true; counts = visible_counts h' c h.channels; members = [] })

-- The loop of `Detach`: the first occurrence goes.
pub drop_client : Bytes → List Bytes → List Bytes
drop_client id [] = []
drop_client id (x ∷ attached) =
    let rest = drop_client id attached in if holds (x ≟ id) then attached else x ∷ rest

pub detach : Hub → Bytes → Hub
unfolding drop_client
detach h id =
    if not (is_some (lookup id h.clients))
    then h
    else record h { clients = delete id h.clients; attached = drop_client id h.attached }

present_update : EntityId → Presence → MemberUpdate
present_update channel pr = record {
  channel = channel;
  member = pr.member;
  present = true;
  now = pr;
}

subscribe_client : Hub → Bytes → EntityId → Option Client → Result HubError (Hub × Message)
unfolding present_update
subscribe_client h id channel none = err no_such_client
subscribe_client h id channel (some c) = do
  fail_if (not (visible h c channel)) no_such_channel
  let c' : Client = record c { subscribed = insert channel true c.subscribed }
  ok (
    record h { clients = insert id c' h.clients },
    record {
      snapshot = true;
      counts = record { channel = channel; count = count h.projection channel } ∷ [];
      members = map (present_update channel) (occupants h.projection channel);
    },
  )

pub subscribe : Hub → Bytes → EntityId → Result HubError (Hub × Message)
unfolding subscribe_client
subscribe h id channel = subscribe_client h id channel (lookup id h.clients)

unsubscribe_client : Hub → Bytes → EntityId → Option Client → Hub
unsubscribe_client h id channel none = h
unsubscribe_client h id channel (some c) =
    let c' : Client = record c { subscribed = delete channel c.subscribed } in
    record h { clients = insert id c' h.clients }

pub unsubscribe : Hub → Bytes → EntityId → Hub
unfolding unsubscribe_client
unsubscribe h id channel = unsubscribe_client h id channel (lookup id h.clients)

abbrev pending_or_new : Option PendingChannel → PendingChannel
pending_or_new none = record { count_moved = false; members = [] }
pending_or_new (some p) = p

-- `pendingFor(channel)`, and the writes that go through its pointer.
pub note_update :
    FinMap EntityId PendingChannel → Bool → MemberUpdate → FinMap EntityId PendingChannel
note_update pending count_moved u =
    let p = pending_or_new (lookup u.channel pending) in
    insert u.channel
      (record { count_moved = p.count_moved || count_moved; members = insert u.member u p.members })
      pending

abbrev left_update : PresenceChange → MemberUpdate
left_update change = record {
  channel = change.left;
  member = change.member;
  present = false;
  now = zero_presence;
}

abbrev joined_update : PresenceChange → MemberUpdate
joined_update change = record {
  channel = change.joined;
  member = change.member;
  present = true;
  now = change.now;
}

-- A move: out of the channel left, then into the channel joined.
note_move : FinMap EntityId PendingChannel → PresenceChange → FinMap EntityId PendingChannel
note_move pending change =
    let p =
      (if not (is_zero change.left)
        then note_update pending true (left_update change)
        else pending) in
    if not (is_zero change.joined) then note_update p true (joined_update change) else p

pub note_change : FinMap EntityId PendingChannel → PresenceChange → FinMap EntityId PendingChannel
unfolding note_move
note_change pending change =
    if moved change
    then note_move pending change
    else note_update pending false (joined_update change)

pub after_change : Hub → Projection × Option PresenceChange → Hub × Bool
unfolding note_change
after_change h (projection, none) = (record h { projection = projection }, false)
after_change h (projection, some change) =
    (record h { projection = projection; pending = note_change h.pending change }, true)

pub apply : Hub → PresenceReport → Hub × Bool
unfolding after_change
apply h r = after_change h (Projections.apply h.projection r)

-- The pending channels in the hub's order.
pub changed : FinMap EntityId PendingChannel → List EntityId → List (EntityId × PendingChannel)
changed pending [] = []
changed pending (channel ∷ channels) =
    let rest = changed pending channels in
    elim (lookup channel pending) [ none ↦ rest | some p ↦ (channel, p) ∷ rest ]

pub update_before : MemberUpdate → MemberUpdate → Bool
update_before a b = id_before a.member b.member

pub sorted_member_updates : FinMap EntityId MemberUpdate → List MemberUpdate
unfolding gather
sorted_member_updates members = sort update_before (gather (λ member u. some u) members)

-- What one channel adds to a client's message, and the loop over the changed channels.
add_channel_to : Hub → Client → EntityId × PendingChannel → Message → Message
add_channel_to h c (channel, p) msg = if not (visible h c channel) then msg else record msg {
  counts =
      (if p.count_moved
        then msg.counts ++ record { channel = channel; count = count h.projection channel } ∷ []
        else msg.counts);
  members =
      (if flag channel c.subscribed
        then msg.members ++ sorted_member_updates p.members
        else msg.members);
}

message_from : Hub → Client → List (EntityId × PendingChannel) → Message → Message
unfolding add_channel_to
message_from h c [] msg = msg
message_from h c (e ∷ entries) msg = message_from h c entries (add_channel_to h c e msg)

abbrev no_message : Message
no_message = record { snapshot = false; counts = []; members = [] }

pub message_for : Hub → Client → Message
unfolding message_from changed
message_for h c = message_from h c (changed h.pending h.channels) no_message

-- The loop of `Flush` over the attached clients.
pub deliver : Hub → List Bytes → Option (List Delivery)
deliver h [] = some []
deliver h (id ∷ ids) =
    let rest = deliver h ids in
    elim (lookup id h.clients) [
      | none ↦ none
      | some c ↦
          let msg = message_for h c in
          elim rest [
            | none ↦ none
            | some out ↦
                some (
                  if is_empty_message msg then out else record { client = id; message = msg } ∷ out)
          ]
    ]

pub flush : Hub → Option (Hub × List Delivery)
unfolding deliver
flush h = elim h.pending [
  | [] ↦ some (h, [])
  | e ∷ pending ↦ elim (deliver h h.attached) [
    | none ↦ none
    | some out ↦ some (record h { pending = [] }, out)
  ]
]

-- A call on the hub.
pub data HubCall : Type 0 where
  holds_channel : EntityId → HubCall
  attaches : Bytes → Principal → HubCall
  detaches : Bytes → HubCall
  subscribes unsubscribes : Bytes → EntityId → HubCall
  reports : PresenceReport → HubCall
  flushes : HubCall

abbrev kept {ℓ} : {A : Type ℓ} → Hub → Result HubError (Hub × A) → Hub
kept h (ok (q, a)) = q
kept h (err e) = h

abbrev kept_hub : Hub → Result HubError Hub → Hub
kept_hub h (ok q) = q
kept_hub h (err e) = h

abbrev flushed : Hub → Option (Hub × List Delivery) → Hub
flushed h none = h
flushed h (some (q, out)) = q

-- The hub after a call: where it is refused, the hub before it.
pub hub_step : Hub → HubCall → Hub
hub_step h (holds_channel channel) = kept_hub h (add_channel h channel)
hub_step h (attaches id viewer) = kept h (attach h id viewer)
hub_step h (detaches id) = detach h id
hub_step h (subscribes id channel) = kept h (subscribe h id channel)
hub_step h (unsubscribes id channel) = unsubscribe h id channel
hub_step h (reports r) = (apply h r).0
hub_step h flushes = flushed h (flush h)

pub hub_run : Hub → List HubCall → Hub
hub_run h [] = h
hub_run h (c ∷ cs) = hub_run (hub_step h c) cs
