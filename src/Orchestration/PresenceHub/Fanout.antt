-- ===== src/Orchestration/PresenceHub/Fanout.antt =====
-- The message that `Flush` of internal/orchestration/presence_hub.go builds for one client.
use mathlib.Core.List.Permᴰ
use stammtisch.Prelude.{
  refl, subst, In-++, ◌≡◌, ◌↔◌, Bool, true, false, List, [], ◌∷◌, none, some, arith, inl, inr, ◌⊎◌,
  In, In-perm, Option-cases,
}
use stammtisch.Prelude.Map.{FinMap, lookup, gather}
use stammtisch.Prelude.Map.{In-gather, gather-In}
use stammtisch.Prelude.Sort.Laws.{sort-perm}
use stammtisch.Orchestration.EntityId.{EntityId, id_key}
use stammtisch.Orchestration.Presence.{count}
use stammtisch.Orchestration.PresenceHub.{
  CountUpdate, MemberUpdate, Message, Client, PendingChannel, Hub, visible, flag, changed,
  update_before, sorted_member_updates, add_channel_to, message_from, no_message, message_for,
}
use stammtisch.Orchestration.PresenceHub.Invariant.{IsWellFormed}
use stammtisch.Orchestration.PresenceHub.Filing.{IsFiled, lookup-IsFiled}

-- Whether the count of a channel has moved in this interval, and what was reported of its members.
abbrev pub has_moved : Hub → EntityId → Bool
has_moved h channel = elim (lookup channel h.pending) [ none ↦ false | some p ↦ p.count_moved ]

abbrev pub updates_in : Hub → EntityId → List MemberUpdate
updates_in h channel = elim (lookup channel h.pending) [
  | none ↦ []
  | some p ↦ sorted_member_updates p.members
]

-- What one channel adds.
abbrev AddsCount : Hub → Client → EntityId → CountUpdate → Type 0
AddsCount h c channel u =
    (u.channel ≡ channel)
    × (visible h c channel ≡ true)
    × (has_moved h channel ≡ true)
    × (u.count ≡ count h.projection channel)

abbrev AddsMember : Hub → Client → EntityId → MemberUpdate → Type 0
AddsMember h c channel u =
    (visible h c channel ≡ true) × (flag channel c.subscribed ≡ true) × In u (updates_in h channel)

counts-add_channel_to :
    (h : Hub) (c : Client) (channel : EntityId) (p : PendingChannel) (msg : Message)
    (u : CountUpdate)
    → lookup channel h.pending ≡ some p
    → In u (add_channel_to h c (channel, p) msg).counts
      ↔ (In u msg.counts ⊎ AddsCount h c channel u)
unfolding add_channel_to
counts-add_channel_to h c channel p msg u e = ground (
  arith,
  In-++ u msg.counts (record { channel = channel; count = count h.projection channel } ∷ []),
)

members-add_channel_to :
    (h : Hub) (c : Client) (channel : EntityId) (p : PendingChannel) (msg : Message)
    (u : MemberUpdate)
    → lookup channel h.pending ≡ some p
    → In u (add_channel_to h c (channel, p) msg).members
      ↔ (In u msg.members ⊎ AddsMember h c channel u)
unfolding add_channel_to
members-add_channel_to h c channel p msg u e =
    ground (arith, In-++ u msg.members (sorted_member_updates p.members))

counts-message_from :
    (h : Hub) (c : Client) (channels : List EntityId) (msg : Message) (u : CountUpdate)
    → In u (message_from h c (changed h.pending channels) msg).counts
      ↔ (In u msg.counts ⊎ (In u.channel channels × AddsCount h c u.channel u))
unfolding message_from changed
counts-message_from h c [] msg u = ground arith
counts-message_from h c (channel ∷ channels) msg u =
    elim (Option-cases (lookup channel h.pending)) [
      | inl e ↦ ground (arith, counts-message_from h c channels msg u)
      | inr (p, e) ↦ ground (
        arith,
        counts-message_from h c channels (add_channel_to h c (channel, p) msg) u,
        counts-add_channel_to h c channel p msg u e,
      )
    ]

pub In-sorted :
    (channel : EntityId) (u : MemberUpdate) (members : FinMap EntityId MemberUpdate)
    → IsFiled channel members
    → In u (sorted_member_updates members)
    → (u.channel ≡ channel) × (lookup u.member members ≡ some u)
unfolding sorted_member_updates
In-sorted channel u members f i =
    let all = gather (λ member w. some w) members in
    let (k, w, g, e) =
      In-gather (λ member w. some w) u members f.0 (In-perm u (sort-perm update_before all) i) in
    ground (arith, lookup-IsFiled channel k w members f.1 g, g, e)

pub sorted-In :
    (u : MemberUpdate) (members : FinMap EntityId MemberUpdate)
    → lookup u.member members ≡ some u
    → In u (sorted_member_updates members)
unfolding sorted_member_updates
sorted-In u members g =
    let all = gather (λ member w. some w) members in
    In-perm u (Permᴰ.symm (sort-perm update_before all))
      (gather-In (λ member w. some w) u u.member u members g refl)

pub updates_in-lookup :
    (h : Hub) (channel : EntityId) (p : PendingChannel)
    → lookup channel h.pending ≡ some p
    → updates_in h channel ≡ sorted_member_updates p.members
updates_in-lookup h channel p e = ground (arith, e)

-- What waits in a hub is filed under its channel, so it is listed there.
updates_in-channel :
    (h : Hub) (channel : EntityId) (u : MemberUpdate)
    → IsWellFormed h
    → In u (updates_in h channel)
    → u.channel ≡ channel
updates_in-channel h channel u v i = elim (Option-cases (lookup channel h.pending)) [
  | inl e ↦ ground arith
  | inr (p, e) ↦
      (In-sorted channel u p.members (v.filed channel p e)
        (subst (In u) (updates_in-lookup h channel p e) i)).0
]

members-message_from :
    (h : Hub) (c : Client) (channels : List EntityId) (msg : Message) (u : MemberUpdate)
    → IsWellFormed h
    → In u (message_from h c (changed h.pending channels) msg).members
      ↔ (In u msg.members ⊎ (In u.channel channels × AddsMember h c u.channel u))
unfolding message_from changed
members-message_from h c [] msg u v = ground arith
members-message_from h c (channel ∷ channels) msg u v =
    elim (Option-cases (lookup channel h.pending)) [
      | inl e ↦ ground (arith, members-message_from h c channels msg u v)
      | inr (p, e) ↦ ground (
        arith,
        members-message_from h c channels (add_channel_to h c (channel, p) msg) u v,
        members-add_channel_to h c channel p msg u e,
        updates_in-channel h channel u v,
      )
    ]

-- A client's message carries a count for exactly the channels of the hub whose count has moved and
-- which its viewer may see, and it is the count that the projection holds.
pub counts-message_for :
    (h : Hub) (c : Client) (u : CountUpdate)
    → In u (message_for h c).counts ↔ (
        In u.channel h.channels
        × (visible h c u.channel ≡ true)
        × (has_moved h u.channel ≡ true)
        × (u.count ≡ count h.projection u.channel))
unfolding message_for
counts-message_for h c u = ground (arith, counts-message_from h c h.channels no_message u)

-- The same in the terms of the loop: the listed updates of the channels that it tells of.
pub members-message_for :
    (h : Hub) (c : Client) (u : MemberUpdate)
    → IsWellFormed h
    → In u (message_for h c).members ↔ (
        In u.channel h.channels
        × (visible h c u.channel ≡ true)
        × (flag u.channel c.subscribed ≡ true)
        × In u (updates_in h u.channel))
unfolding message_for
members-message_for h c u v = ground (arith, members-message_from h c h.channels no_message u v)
