-- ===== src/Orchestration/PresenceHub/Waiting.antt =====
-- The updates that wait in the hub of internal/orchestration/presence_hub.go, over runs of reports.
use stammtisch.Prelude.{
  ◌≡◌, ◌↔◌, refl, sym, ap, ◌∙◌, subst, Bool, true, false, List, [], ◌∷◌, Option, none, some, arith,
  inl, inr, holds, if◌then◌else◌, Option-cases, not, In, ◌||◌, ◌&&◌,
}
use stammtisch.Prelude.Map.{FinMap, ◌≟◌, lookup, insert, lookup-insert}
use stammtisch.Orchestration.EntityId.{EntityId, id_key, is_zero}
use stammtisch.Orchestration.Presence.{
  Presence, Presence-discrete, zero_presence, PresenceReport, PresenceChange, Projection, moved,
  apply_leave, apply_in, published,
}
use stammtisch.Orchestration.Presence as Projections
use stammtisch.Orchestration.PresenceHub.{
  MemberUpdate, PendingChannel, Hub, Client, note_update, left_update, joined_update, note_move,
  note_change, after_change, apply, message_for,
}
use stammtisch.Orchestration.PresenceHub.Pending.{report_all}
use stammtisch.Orchestration.PresenceHub.History.{
  apply-projection, report_all-IsWellFormed, report_all-IsAfter, SeesChannel-after,
}
use stammtisch.Orchestration.PresenceHub.Due.{SeesChannel, IsWaiting, message_for-DueMember}
use stammtisch.Orchestration.PresenceHub.Invariant.{IsWellFormed, apply-IsWellFormed}
use stammtisch.Orchestration.PresenceHub.Saying.{or_before, said, last_said, says, IsToldTrue}
use stammtisch.Orchestration.PresenceHub.Telling.{apply-IsToldTrue}

-- The update that waits for a member under a channel.
abbrev pub waiting : FinMap EntityId PendingChannel → EntityId → EntityId → Option MemberUpdate
waiting pending channel member = elim (lookup channel pending) [
  | none ↦ none
  | some p ↦ lookup member p.members
]

lookup_empty : (member : EntityId) → lookup {V = MemberUpdate} member [] ≡ none
unfolding lookup
lookup_empty member = refl

waiting-note_update :
    (pending : FinMap EntityId PendingChannel) (b : Bool) (u : MemberUpdate)
    (channel member : EntityId)
    → waiting (note_update pending b u) channel member ≡ (
        if holds (u.channel ≟ channel) && holds (u.member ≟ member)
        then some u
        else waiting pending channel member)
unfolding note_update
waiting-note_update pending b u channel member = elim (Option-cases (lookup u.channel pending)) [
  | inl e ↦ ground (
    arith,
    lookup-insert channel u.channel (record { count_moved = b; members = insert u.member u [] })
        pending,
    lookup_empty member,
    lookup-insert {V = MemberUpdate} member u.member u [],
  )
  | inr (q, e) ↦ ground (
    arith,
    lookup-insert channel u.channel
        (record { count_moved = q.count_moved || b; members = insert u.member u q.members })
        pending,
    lookup-insert member u.member u q.members,
  )
]

waiting-note_change :
    (pending : FinMap EntityId PendingChannel) (change : PresenceChange) (channel member : EntityId)
    → waiting (note_change pending change) channel member
      ≡ or_before (says change channel member) (waiting pending channel member)
unfolding note_change note_move
waiting-note_change pending change channel member =
    let p =
      if not (is_zero change.left)
      then note_update pending true (left_update change)
      else pending in
    ground (
      arith,
      waiting-note_update pending true (left_update change) channel member,
      waiting-note_update pending false (joined_update change) channel member,
      waiting-note_update p true (joined_update change) channel member,
    )

after_change-waiting :
    (h : Hub) (a : Projection × Option PresenceChange) (channel member : EntityId)
    → IsToldTrue h.projection channel member a
    → waiting (after_change h a).0.pending channel member
      ≡ or_before (said h.projection a.0 channel member) (waiting h.pending channel member)
unfolding after_change
after_change-waiting h (q, none) channel member e =
    sym (ap (λ o. or_before o (waiting h.pending channel member)) e)
after_change-waiting h (q, some change) channel member e =
    waiting-note_change h.pending change channel member
    ∙ sym (ap (λ o. or_before o (waiting h.pending channel member)) e)

apply-waiting :
    (h : Hub) (r : PresenceReport) (channel member : EntityId)
    → IsWellFormed h
    → waiting (apply h r).0.pending channel member
      ≡ or_before
          (said h.projection (Projections.apply h.projection r).0 channel member)
          (waiting h.pending channel member)
unfolding apply
apply-waiting h r channel member v =
    after_change-waiting h (Projections.apply h.projection r) channel member
      (apply-IsToldTrue h.projection r channel member v.counted)

or_before_assoc :
    (a b c : Option MemberUpdate) → or_before a (or_before b c) ≡ or_before (or_before a b) c
or_before_assoc none b c = refl
or_before_assoc (some u) b c = refl

or_before-none : (o : Option MemberUpdate) → or_before o none ≡ o
or_before-none none = refl
or_before-none (some u) = refl

-- What waits after a run of reports is the last that there was to say, or what waited before.
pub report_all-waiting :
    (h : Hub) (rs : List PresenceReport) (channel member : EntityId)
    → IsWellFormed h
    → waiting (report_all h rs).pending channel member
      ≡ or_before (last_said h.projection rs channel member) (waiting h.pending channel member)
report_all-waiting h [] channel member v = refl
report_all-waiting h (r ∷ rs) channel member v =
    let q = (Projections.apply h.projection r).0 in
    report_all-waiting (apply h r).0 rs channel member (apply-IsWellFormed h r v)
    ∙ ap (or_before (last_said (apply h r).0.projection rs channel member))
        (apply-waiting h r channel member v)
    ∙ ap
        (λ p.
          or_before (last_said p rs channel member)
            (or_before (said h.projection q channel member) (waiting h.pending channel member)))
        (apply-projection h r)
    ∙ or_before_assoc (last_said q rs channel member) (said h.projection q channel member)
        (waiting h.pending channel member)

waiting-IsWaiting :
    (h : Hub) (u : MemberUpdate) → IsWaiting h u ↔ (waiting h.pending u.channel u.member ≡ some u)
waiting-IsWaiting h u = elim (Option-cases (lookup u.channel h.pending)) [
  | inl e ↦ ground (arith, e)
  | inr (p, e) ↦ ((λ (q, f, g). ground (arith, e, f, g)), λ m. (p, e, ground (arith, e, m)))
]

-- In a well-formed hub where nothing waits, any reports make a client's message carry exactly the
-- member updates of those channels of the hub that the grants let its viewer see and that it is
-- subscribed to, each of which is the last there was to say of its member in its channel: that they are
-- there and how, where a report changed what is known of them and put them there, or that they are
-- absent, where it took them out.
pub members-report_all :
    (h : Hub) (rs : List PresenceReport) (c : Client) (u : MemberUpdate)
    → IsWellFormed h
    → h.pending ≡ []
    → In u (message_for (report_all h rs) c).members ↔ (
        In u.channel h.channels
        × SeesChannel h c u.channel
        × (lookup u.channel c.subscribed ≡ some true)
        × (last_said h.projection rs u.channel u.member ≡ some u))
unfolding lookup
members-report_all h rs c u v e =
    let due = message_for-DueMember (report_all h rs) c u (report_all-IsWellFormed h rs v) in
    let w = report_all-IsAfter h rs in
    let sees = SeesChannel-after h rs (report_all h rs) c u.channel w in
    let held = waiting-IsWaiting (report_all h rs) u in
    let last : waiting (report_all h rs).pending u.channel u.member
        ≡ last_said h.projection rs u.channel u.member =
      report_all-waiting h rs u.channel u.member v
      ∙ ap
          (λ p.
            or_before (last_said h.projection rs u.channel u.member) (waiting p u.channel u.member))
          e
      ∙ or_before-none (last_said h.projection rs u.channel u.member) in
    (
      (λ i.
          let (a, b, s, x) = due.0 i in
          (subst (In u.channel) w.same_channels a, sees.0 b, s, sym last ∙ held.0 x)),
      (λ (a, b, s, x).
          due.1 (subst (In u.channel) (sym w.same_channels) a, sees.1 b, s, held.1 (last ∙ x))),
    )
