-- ===== src/Orchestration/PresenceHub/Pending.antt =====
-- The marks that `Apply` of internal/orchestration/presence_hub.go leaves on the channels.
use stammtisch.Prelude.{
  ◌≡◌, ◌≢◌, refl, sym, ap, ◌∙◌, Bool, true, false, List, [], ◌∷◌, Option, none, some, arith, inl,
  inr, ◌⊎◌, holds, if◌then◌else◌, Option-cases, not, In, subst, ℕ_discrete, ◌||◌, ◌&&◌,
}
use stammtisch.Prelude.Map.{FinMap, ◌≟◌, lookup, insert, lookup-insert}
use stammtisch.Orchestration.EntityId.{EntityId, id_key, is_zero}
use stammtisch.Orchestration.Presence.{
  PresenceReport, PresenceChange, Projection, moved, count, count_in,
}
use stammtisch.Orchestration.Presence as Projections
use stammtisch.Orchestration.Presence.Changes.{Touches, IsAnswered, apply-IsAnswered}
use stammtisch.Orchestration.PresenceHub.{
  MemberUpdate, PendingChannel, Hub, note_update, left_update, joined_update, note_move,
  note_change, after_change, apply, Client, visible, message_for,
}
use stammtisch.Orchestration.PresenceHub.Invariant.{IsWellFormed, apply-IsWellFormed}
use stammtisch.Orchestration.PresenceHub.Fanout.{has_moved, counts-message_for}

abbrev pub count_moves : FinMap EntityId PendingChannel → EntityId → Bool
count_moves pending channel = elim (lookup channel pending) [
  | none ↦ false
  | some p ↦ p.count_moved
]

pub count_moves-note_update :
    (pending : FinMap EntityId PendingChannel) (b : Bool) (u : MemberUpdate) (c : EntityId)
    → count_moves (note_update pending b u) c
      ≡ (count_moves pending c || (holds (u.channel ≟ c) && b))
unfolding note_update
count_moves-note_update pending b u c = elim (Option-cases (lookup u.channel pending)) [
  | inl e ↦ ground (
    arith,
    lookup-insert c u.channel (record { count_moved = b; members = insert u.member u [] }) pending,
  )
  | inr (q, e) ↦ ground (
    arith,
    lookup-insert c u.channel
        (record { count_moved = q.count_moved || b; members = insert u.member u q.members })
        pending,
  )
]

count_moves-note_change :
    (pending : FinMap EntityId PendingChannel) (change : PresenceChange) (c : EntityId)
    → (count_moves pending c ≡ true) ⊎ Touches c change
    → count_moves (note_change pending change) c ≡ true
unfolding note_change note_move
count_moves-note_change pending change c h =
    let p =
      if not (is_zero change.left)
      then note_update pending true (left_update change)
      else pending in
    ground (
      arith,
      count_moves-note_update pending true (left_update change) c,
      count_moves-note_update pending false (joined_update change) c,
      count_moves-note_update p true (joined_update change) c,
    )

after_change-has_moved :
    (h : Hub) (r : Projection × Option PresenceChange) (c : EntityId)
    → IsAnswered h.projection c r
    → (has_moved h c ≡ true) ⊎ (count_in r.0.counts c ≢ count_in h.projection.counts c)
    → has_moved (after_change h r).0 c ≡ true
unfolding after_change
after_change-has_moved h (q, none) c a w = ground (arith, a, w)
after_change-has_moved h (q, some change) c a w =
    count_moves-note_change h.pending change c (ground (arith, a, w))

pub after_change-projection :
    (h : Hub) (r : Projection × Option PresenceChange) → (after_change h r).0.projection ≡ r.0
unfolding after_change
after_change-projection h (q, none) = refl
after_change-projection h (q, some change) = refl

-- A report that changes the count of a channel marks the channel as moved, and a mark stays until the
-- interval ends, so no change of a count is lost to the clients, however many reports there are.
pub apply-has_moved :
    (h : Hub) (r : PresenceReport) (c : EntityId)
    → IsWellFormed h
    → (has_moved h c ≡ true) ⊎ (count (apply h r).0.projection c ≢ count h.projection c)
    → has_moved (apply h r).0 c ≡ true
unfolding apply count
apply-has_moved h r c v w =
    let a = Projections.apply h.projection r in
    let same = after_change-projection h a in
    after_change-has_moved h a c (apply-IsAnswered h.projection r c v.counted)
      (elim w [ inl m ↦ inl m | inr n ↦ inr (λ e. n (ap (λ p. count_in p.counts c) same ∙ e)) ])

abbrev pub report_all : Hub → List PresenceReport → Hub
report_all h [] = h
report_all h (r ∷ rs) = report_all (apply h r).0 rs

report_all-has_moved :
    (h : Hub) (rs : List PresenceReport) (c : EntityId)
    → IsWellFormed h
    → (has_moved h c ≡ true) ⊎ (count (report_all h rs).projection c ≢ count h.projection c)
    → has_moved (report_all h rs) c ≡ true
unfolding report_all
report_all-has_moved h [] c v (inl m) = m
report_all-has_moved h [] c v (inr n) = absurd (n refl)
report_all-has_moved h (r ∷ rs) c v (inl m) =
    report_all-has_moved (apply h r).0 rs c (apply-IsWellFormed h r v)
      (inl (apply-has_moved h r c v (inl m)))
report_all-has_moved h (r ∷ rs) c v (inr n) =
    report_all-has_moved (apply h r).0 rs c (apply-IsWellFormed h r v)
      (elim (ℕ_discrete (count (apply h r).0.projection c) (count h.projection c)) [
        | yes e ↦ inr (λ f. n (f ∙ e))
        | no d ↦ inl (apply-has_moved h r c v (inr d))
      ])

after_change-channels :
    (h : Hub) (r : Projection × Option PresenceChange) → (after_change h r).0.channels ≡ h.channels
unfolding after_change
after_change-channels h (q, none) = refl
after_change-channels h (q, some change) = refl

report_all-channels : (h : Hub) (rs : List PresenceReport) → (report_all h rs).channels ≡ h.channels
unfolding report_all apply
report_all-channels h [] = refl
report_all-channels h (r ∷ rs) =
    report_all-channels (apply h r).0 rs
    ∙ after_change-channels h (Projections.apply h.projection r)

-- However many reports a well-formed hub takes, a client whose viewer may see a channel of the hub
-- is told the count of the channel at the end, if that count is not what it was at the beginning.
pub report_all-counts :
    (h : Hub) (rs : List PresenceReport) (viewer : Client) (c : EntityId)
    → IsWellFormed h
    → In c h.channels
    → visible (report_all h rs) viewer c ≡ true
    → count (report_all h rs).projection c ≢ count h.projection c
    → In
        (record { channel = c; count = count (report_all h rs).projection c })
        (message_for (report_all h rs) viewer).counts
report_all-counts h rs viewer c v i s n =
    (counts-message_for (report_all h rs) viewer
        (record { channel = c; count = count (report_all h rs).projection c })).1
      (
        subst (In c) (sym (report_all-channels h rs)) i,
        s,
        report_all-has_moved h rs c v (inr n),
        refl,
      )
