-- ===== src/Orchestration/PresenceHub/Due.antt =====
-- What a client is due of the interval that `Flush` of internal/orchestration/presence_hub.go ends.
use stammtisch.Prelude.{subst, sym, ◌≡◌, ◌↔◌, Bool, true, some, arith, inl, inr, In, Option-cases}
use stammtisch.Prelude.Map.{FinMap, lookup}
use stammtisch.Orchestration.Permission.{allow, see_channel, channel_subject}
use stammtisch.Orchestration.EntityId.{EntityId, id_key}
use stammtisch.Orchestration.Presence.{count}
use stammtisch.Orchestration.PresenceHub.{
  CountUpdate, MemberUpdate, Client, PendingChannel, Hub, visible, flag, message_for,
}
use stammtisch.Orchestration.PresenceHub.Invariant.{IsWellFormed}
use stammtisch.Orchestration.PresenceHub.Fanout.{
  updates_in, In-sorted, sorted-In, updates_in-lookup, counts-message_for, members-message_for,
}

-- The viewer of a client may see a channel, as `Allow` decides.
abbrev pub SeesChannel : Hub → Client → EntityId → Type 0
SeesChannel h c channel =
    allow (some h.grants) c.viewer see_channel (channel_subject h.space channel) ≡ true

-- An update that the hub holds for its channel and its member.
abbrev pub IsWaiting : Hub → MemberUpdate → Type 0
IsWaiting h u =
    (p : PendingChannel) × (lookup u.channel h.pending ≡ some p)
    × (lookup u.member p.members ≡ some u)

-- What a client is due: counts that have moved, and updates that wait.
abbrev pub DueCount : Hub → Client → CountUpdate → Type 0
DueCount h c u =
    In u.channel h.channels
    × SeesChannel h c u.channel
    × ((p : PendingChannel) × (lookup u.channel h.pending ≡ some p) × (p.count_moved ≡ true))
    × (u.count ≡ count h.projection u.channel)

abbrev pub DueMember : Hub → Client → MemberUpdate → Type 0
DueMember h c u =
    In u.channel h.channels
    × SeesChannel h c u.channel
    × (lookup u.channel c.subscribed ≡ some true)
    × IsWaiting h u

updates_in-IsWaiting :
    (h : Hub) (u : MemberUpdate) → IsWellFormed h → In u (updates_in h u.channel) ↔ IsWaiting h u
updates_in-IsWaiting h u v = elim (Option-cases (lookup u.channel h.pending)) [
  | inl e ↦ ground arith
  | inr (p, e) ↦ (
    (λ i. (
      p,
      e,
      (In-sorted u.channel u p.members (v.filed u.channel p e)
          (subst (In u) (updates_in-lookup h u.channel p e) i)).1,
    )),
    (λ (q, f, g).
        subst (In u) (sym (updates_in-lookup h u.channel p e))
          (sorted-In u p.members (ground arith))),
  )
]

-- On a channel of the hub, the lookup and `Allow` decide as `Allow` alone.
visible-SeesChannel :
    (h : Hub) (c : Client) (channel : EntityId)
    → IsWellFormed h
    → In channel h.channels
    → (visible h c channel ≡ true) ↔ SeesChannel h c channel
unfolding visible
visible-SeesChannel h c channel v i = ground (arith, v.held channel)

flag-lookup :
    (k : EntityId) (m : FinMap EntityId Bool) → (flag k m ≡ true) ↔ (lookup k m ≡ some true)
unfolding flag
flag-lookup k m = ground arith

-- In a well-formed hub, a message carries exactly the counts that are due.
pub message_for-DueCount :
    (h : Hub) (c : Client) (u : CountUpdate)
    → IsWellFormed h
    → In u (message_for h c).counts ↔ DueCount h c u
message_for-DueCount h c u v =
    let seen = visible-SeesChannel h c u.channel v in
    let all = counts-message_for h c u in
    (
      (λ i. let (a, b, m, e) = all.0 i in (a, (seen a).0 b, ground arith, e)),
      (λ (a, b, m, e). all.1 (a, (seen a).1 b, ground arith, e)),
    )

-- In a well-formed hub, a client's message carries exactly the member updates that the hub holds for
-- their channel and member, where the channel is one of the hub's, the grants let the client's viewer
-- see it, and the client is subscribed to it.
pub message_for-DueMember :
    (h : Hub) (c : Client) (u : MemberUpdate)
    → IsWellFormed h
    → In u (message_for h c).members ↔ DueMember h c u
message_for-DueMember h c u v =
    let seen = visible-SeesChannel h c u.channel v in
    let wait = updates_in-IsWaiting h u v in
    let all = members-message_for h c u v in
    (
      (λ i.
          let (a, b, f, w) = all.0 i in
          (a, (seen a).0 b, (flag-lookup u.channel c.subscribed).0 f, wait.0 w)),
      (λ (a, b, f, w). all.1 (a, (seen a).1 b, (flag-lookup u.channel c.subscribed).1 f, wait.1 w)),
    )
