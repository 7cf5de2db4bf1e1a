-- ===== src/Orchestration/PresenceHub/History.antt =====
-- What `Apply` of internal/orchestration/presence_hub.go leaves for `Flush` to say, against the places
-- of the members before and after each report.
use stammtisch.Prelude.{
  ◌≡◌, ◌↔◌, refl, sym, ap, ◌∙◌, true, false, List, [], ◌∷◌, Option, none, some, arith, inl, inr,
  ◌⊎◌, if◌then◌else◌, Option-cases, not, In, subst,
}
use stammtisch.Prelude.Map.{FinMap, lookup}
use stammtisch.Orchestration.EntityId.{EntityId, id_key, is_zero}
use stammtisch.Orchestration.Presence.{
  PresenceReport, PresenceChange, Projection, moved, count, run,
}
use stammtisch.Orchestration.Presence as Projections
use stammtisch.Orchestration.Presence.Passing.{Passes, IsPassed, IsTrue, apply-IsTrue}
use stammtisch.Orchestration.Presence.Changes.{Touches}
use stammtisch.Orchestration.PresenceHub.{
  CountUpdate, PendingChannel, Hub, Client, note_update, left_update, joined_update, note_move,
  note_change, after_change, apply, message_for,
}
use stammtisch.Orchestration.PresenceHub.Invariant.{IsWellFormed, apply-IsWellFormed}
use stammtisch.Orchestration.PresenceHub.Due.{SeesChannel, message_for-DueCount}
use stammtisch.Orchestration.PresenceHub.Pending.{
  count_moves, count_moves-note_update, after_change-projection, report_all,
}

-- A change marks the channels that it touches and no others.
count_moves-note_change_iff :
    (pending : FinMap EntityId PendingChannel) (change : PresenceChange) (c : EntityId)
    → (count_moves (note_change pending change) c ≡ true)
      ↔ ((count_moves pending c ≡ true) ⊎ Touches c change)
unfolding note_change note_move
count_moves-note_change_iff pending change c =
    let p =
      if not (is_zero change.left)
      then note_update pending true (left_update change)
      else pending in
    ground (
      arith,
      count_moves-note_update pending true (left_update change) c,
      count_moves-note_update pending false (joined_update change) c,
      count_moves-note_update p true (joined_update change) c,
    )

after_change_iff :
    (h : Hub) (a : Projection × Option PresenceChange) (member c : EntityId)
    → IsTrue h.projection member c a
    → (count_moves (after_change h a).0.pending c ≡ true)
      ↔ ((count_moves h.pending c ≡ true) ⊎ Passes h.projection a.0 member c)
unfolding after_change
after_change_iff h (q, none) member c w =
    ((λ m. inl m), λ m. elim m [ inl x ↦ x | inr x ↦ absurd (w x) ])
after_change_iff h (q, some change) member c w =
    let marked = count_moves-note_change_iff h.pending change c in
    (
      (λ m. elim (marked.0 m) [ inl x ↦ inl x | inr x ↦ inr (w.1 x) ]),
      λ m. marked.1 (elim m [ inl x ↦ inl x | inr x ↦ inr (w.0 x) ]),
    )

pub apply-projection :
    (h : Hub) (r : PresenceReport) → (apply h r).0.projection ≡ (Projections.apply h.projection r).0
unfolding apply
apply-projection h r = after_change-projection h (Projections.apply h.projection r)

apply_iff :
    (h : Hub) (r : PresenceReport) (c : EntityId)
    → IsWellFormed h
    → (count_moves (apply h r).0.pending c ≡ true) ↔ (
        (count_moves h.pending c ≡ true)
        ⊎ Passes h.projection (Projections.apply h.projection r).0 r.member c)
unfolding apply
apply_iff h r c v =
    after_change_iff h (Projections.apply h.projection r) r.member c
      (apply-IsTrue h.projection r c v.counted)

report_all_iff :
    (h : Hub) (rs : List PresenceReport) (c : EntityId)
    → IsWellFormed h
    → (count_moves (report_all h rs).pending c ≡ true)
      ↔ ((count_moves h.pending c ≡ true) ⊎ IsPassed h.projection rs c)
report_all_iff h [] c v = ((λ m. inl m), λ m. elim m [ inl x ↦ x | inr x ↦ absurd x ])
report_all_iff h (r ∷ rs) c v =
    let now = apply_iff h r c v in
    let later : (count_moves (report_all h (r ∷ rs)).pending c ≡ true) ↔ (
        (count_moves (apply h r).0.pending c ≡ true)
        ⊎ IsPassed (Projections.apply h.projection r).0 rs c) =
      subst
        (λ p.
          (count_moves (report_all h (r ∷ rs)).pending c ≡ true)
          ↔ ((count_moves (apply h r).0.pending c ≡ true) ⊎ IsPassed p rs c))
        (apply-projection h r) (report_all_iff (apply h r).0 rs c (apply-IsWellFormed h r v)) in
    ground (arith, now, later)

-- What reports leave as it was, and the projection that they make.
pub record IsAfter (h : Hub) (rs : List PresenceReport) (q : Hub) : Type 0 where
  pub same_channels : q.channels ≡ h.channels
  pub same_space : q.space ≡ h.space
  pub same_grants : q.grants ≡ h.grants
  pub ran : q.projection ≡ run h.projection rs

apply-fields :
    (h : Hub) (r : PresenceReport)
    → ((apply h r).0.channels ≡ h.channels)
      × ((apply h r).0.space ≡ h.space)
      × ((apply h r).0.grants ≡ h.grants)
unfolding apply after_change
apply-fields h r = ground arith

pub report_all-IsAfter : (h : Hub) (rs : List PresenceReport) → IsAfter h rs (report_all h rs)
unfolding run
report_all-IsAfter h [] = record {
  same_channels = refl;
  same_space = refl;
  same_grants = refl;
  ran = refl;
}
report_all-IsAfter h (r ∷ rs) =
    let w = report_all-IsAfter (apply h r).0 rs in
    let (c, s, g) = apply-fields h r in
    record {
      same_channels = w.same_channels ∙ c;
      same_space = w.same_space ∙ s;
      same_grants = w.same_grants ∙ g;
      ran = w.ran ∙ ap (λ p. run p rs) (apply-projection h r);
    }

pub report_all-IsWellFormed :
    (h : Hub) (rs : List PresenceReport) → IsWellFormed h → IsWellFormed (report_all h rs)
report_all-IsWellFormed h [] v = v
report_all-IsWellFormed h (r ∷ rs) v =
    report_all-IsWellFormed (apply h r).0 rs (apply-IsWellFormed h r v)

pub SeesChannel-after :
    (h : Hub) (rs : List PresenceReport) (q : Hub) (c : Client) (channel : EntityId)
    → IsAfter h rs q
    → SeesChannel q c channel ↔ SeesChannel h c channel
SeesChannel-after h rs q c channel w = rw (w.same_space, w.same_grants) ((λ x. x), λ x. x)

marked_entry :
    (pending : FinMap EntityId PendingChannel) (channel : EntityId)
    → count_moves pending channel ≡ true
    → (p : PendingChannel) × (lookup channel pending ≡ some p) × (p.count_moved ≡ true)
marked_entry pending channel m = elim (Option-cases (lookup channel pending)) [
  | inl e ↦ ground (arith, m, e)
  | inr (p, e) ↦ (p, e, ground (arith, m, e))
]

none_marked :
    (pending : FinMap EntityId PendingChannel) (channel : EntityId)
    → pending ≡ []
    → ¬ (count_moves pending channel ≡ true)
unfolding lookup
none_marked pending channel e m = ground (arith, sym (ap (λ p. count_moves p channel) e) ∙ m)

-- In a well-formed hub where nothing waits, any reports make a client's message carry a count for
-- exactly the channels of the hub that the grants let its viewer see and that some report took a member
-- out of or into, by the places before and after it; and it is the count after all of the reports.
pub counts-report_all :
    (h : Hub) (rs : List PresenceReport) (c : Client) (u : CountUpdate)
    → IsWellFormed h
    → h.pending ≡ []
    → In u (message_for (report_all h rs) c).counts ↔ (
        In u.channel h.channels
        × SeesChannel h c u.channel
        × IsPassed h.projection rs u.channel
        × (u.count ≡ count (run h.projection rs) u.channel))
counts-report_all h rs c u v e =
    let due = message_for-DueCount (report_all h rs) c u (report_all-IsWellFormed h rs v) in
    let w = report_all-IsAfter h rs in
    let marked = report_all_iff h rs u.channel v in
    let sees = SeesChannel-after h rs (report_all h rs) c u.channel w in
    let counts = ap (λ p. count p u.channel) w.ran in
    (
      (λ i.
          let (a, b, (p, f, m), k) = due.0 i in
          (
            subst (In u.channel) w.same_channels a,
            sees.0 b,
            elim (marked.0 (ground (arith, f, m))) [
              | inl x ↦ absurd (none_marked h.pending u.channel e x)
              | inr x ↦ x
            ],
            k ∙ counts,
          )),
      (λ (a, b, x, k). due.1 (
        subst (In u.channel) (sym w.same_channels) a,
        sees.1 b,
        marked_entry (report_all h rs).pending u.channel (marked.1 (inr x)),
        k ∙ sym counts,
      )),
    )
