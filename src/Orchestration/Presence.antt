-- ===== src/Orchestration/Presence.antt =====
-- internal/orchestration/presence.go: the projection that the fan-out is derived from. `Apply`
-- returns the new projection and, where Go returns `true`, the change. A sequence number is a uint64
-- that is only compared. A count is an int that never passes the number of entries of a map, so it
-- does not wrap.
pub mod Counts
pub mod Register
pub mod Convergence
pub mod Listing
pub mod Changes
pub mod Passing
mod Examples
use stammtisch.Prelude.{
  ℕ, ◌+◌, ◌-◌, ◌≡◌, Bool, true, false, not, ◌&&◌, ◌||◌, List, [], ◌∷◌, Option, none, some, holds,
  leb, ◌==◌, if◌then◌else◌,
}
use stammtisch.Prelude.Int.{ℤ, pos, ℤ-discrete, ltb_ℤ}
use stammtisch.Prelude.Map.{Key, FinMap, ◌≟◌, lookup, insert, delete, gather}
use stammtisch.Prelude.Sort.{sort}
use stammtisch.Orchestration.Clock.{Time, unix}
use stammtisch.Orchestration.EntityId.{
  EntityId, EntityId-discrete, id_key, zero_id, is_zero, id_before,
}

pub record Presence : Type 0 where
  pub channel : EntityId
  pub member : EntityId
  pub since_unix : ℤ
  pub self_muted : Bool

unfoldable pub Presence-discrete : Discrete Presence
Presence-discrete = hlevel (EntityId-discrete, ℤ-discrete)

pub record PresenceReport : Type 0 where
  pub member : EntityId
  pub seq : ℕ
  pub channel : EntityId
  pub since : Time
  pub self_muted : Bool

pub record PresenceChange : Type 0 where
  pub member : EntityId
  pub left : EntityId
  pub joined : EntityId
  pub now : Presence

abbrev pub zero_presence : Presence
zero_presence = record {
  channel = zero_id;
  member = zero_id;
  since_unix = pos 0;
  self_muted = false;
}

unfoldable pub moved : PresenceChange → Bool
moved c = not (holds (EntityId-discrete c.left c.joined))

pub record Projection : Type 0 where
  pub seq : FinMap EntityId ℕ
  pub present : FinMap EntityId Presence
  pub counts : FinMap EntityId ℕ

unfoldable pub new_projection : Projection
new_projection = record { seq = []; present = []; counts = [] }

-- `p.counts[channel]`, which is 0 where there is no entry.
abbrev count_or_zero : Option ℕ → ℕ
count_or_zero none = 0
count_or_zero (some n) = n

unfoldable pub count_in : FinMap EntityId ℕ → EntityId → ℕ
count_in counts channel = count_or_zero (lookup channel counts)

unfoldable pub increment : FinMap EntityId ℕ → EntityId → FinMap EntityId ℕ
unfolding count_in
increment counts channel = insert channel (count_in counts channel + 1) counts

unfoldable pub decrement : FinMap EntityId ℕ → EntityId → FinMap EntityId ℕ
unfolding count_in
decrement counts channel =
    if leb (count_in counts channel) 1
    then delete channel counts
    else insert channel (count_in counts channel - 1) counts

unfoldable pub published : PresenceReport → Presence
published r = record {
  channel = r.channel;
  member = r.member;
  since_unix = unix r.since;
  self_muted = r.self_muted;
}

-- The sequence number already held is at or past the report's.
stale : Option ℕ → ℕ → Bool
stale none n = false
stale (some held) n = leb n held

-- A report that says the member is in no channel.
unfoldable pub apply_leave :
    Projection → PresenceReport → Option Presence → Projection × Option PresenceChange
apply_leave p r none = (p, none)
apply_leave p r (some was) = (
  record p { present = delete r.member p.present; counts = decrement p.counts was.channel },
  some (record { member = r.member; left = was.channel; joined = zero_id; now = zero_presence }),
)

-- A report that says which channel the member is in.
unfoldable pub apply_in :
    Projection → PresenceReport → Option Presence → Projection × Option PresenceChange
unfolding published
apply_in p r none = (
  record p {
    present = insert r.member (published r) p.present;
    counts = increment p.counts r.channel;
  },
  some (record { member = r.member; left = zero_id; joined = r.channel; now = published r }),
)
apply_in p r (some was) = if holds (Presence-discrete was (published r)) then (p, none) else (
  record p {
    present = insert r.member (published r) p.present;
    counts =
        (if holds (was.channel ≟ r.channel)
          then p.counts
          else increment (decrement p.counts was.channel) r.channel);
  },
  some (record { member = r.member; left = was.channel; joined = r.channel; now = published r }),
)

unfoldable pub apply : Projection → PresenceReport → Projection × Option PresenceChange
unfolding stale apply_leave apply_in
apply p r =
    if is_zero r.member || r.seq == 0
    then (p, none)
    else if stale (lookup r.member p.seq) r.seq
    then (p, none)
    else let seen = record p { seq = insert r.member r.seq p.seq } in
      let was = lookup r.member p.present in
      if is_zero r.channel then apply_leave seen r was else apply_in seen r was

unfoldable pub run : Projection → List PresenceReport → Projection
run p [] = p
run p (r ∷ rs) = run (apply p r).0 rs

unfoldable pub count : Projection → EntityId → ℕ
unfolding count_in
count p channel = count_in p.counts channel

unfoldable pub where_is : Projection → EntityId → Option Presence
where_is p member = lookup member p.present

-- Longest present first, then in the order of the identifiers.
unfoldable pub presence_before : Presence → Presence → Bool
presence_before a b =
    if holds (ℤ-discrete a.since_unix b.since_unix)
    then id_before a.member b.member
    else ltb_ℤ a.since_unix b.since_unix

collect : EntityId → FinMap EntityId Presence → List Presence
unfolding gather
collect channel = gather (λ member pr. if holds (pr.channel ≟ channel) then some pr else none)

unfoldable pub occupants : Projection → EntityId → List Presence
unfolding collect
occupants p channel = sort presence_before (collect channel p.present)
