-- ===== src/Orchestration/Presence/Changes.antt =====
-- The change that `Apply` of internal/orchestration/presence.go answers, and the counts.
use stammtisch.Prelude.{
  ◌≡◌, refl, true, false, Option, none, some, arith, Option-cases, inl, inr, ◌⊎◌,
}
use stammtisch.Prelude.Map.{lookup, insert}
use stammtisch.Orchestration.EntityId.{EntityId, id_key, is_zero}
use stammtisch.Orchestration.Presence.{
  PresenceReport, PresenceChange, Projection, count_in, decrement, apply_leave, apply_in, apply,
  moved,
}
use stammtisch.Orchestration.Presence.Counts.{
  IsCounted, count_in-increment, count_in-decrement, seen-IsCounted,
}

-- A change moves a member out of a channel or into it.
abbrev pub Touches : EntityId → PresenceChange → Type 0
Touches c change =
    (moved change ≡ true)
    × (((change.left ≡ c) × (is_zero change.left ≡ false))
        ⊎ ((change.joined ≡ c) × (is_zero change.joined ≡ false)))

-- The count of a channel stays, or the change that is answered touches it.
abbrev pub IsAnswered : Projection → EntityId → Projection × Option PresenceChange → Type 0
IsAnswered p c (q, none) = count_in q.counts c ≡ count_in p.counts c
IsAnswered p c (q, some change) = (count_in q.counts c ≡ count_in p.counts c) ⊎ Touches c change

leave-IsAnswered :
    (p : Projection) (r : PresenceReport) (c : EntityId)
    → IsCounted p
    → IsAnswered p c (apply_leave p r (lookup r.member p.present))
unfolding apply_leave moved is_zero
leave-IsAnswered p r c v = elim (Option-cases (lookup r.member p.present)) [
  | inl e ↦ rw e refl
  | inr (was, e) ↦
      rw e (ground (arith, v.present_ok r.member was e, count_in-decrement p.counts was.channel c))
]

in-IsAnswered :
    (p : Projection) (r : PresenceReport) (c : EntityId)
    → is_zero r.channel ≡ false
    → IsCounted p
    → IsAnswered p c (apply_in p r (lookup r.member p.present))
unfolding apply_in moved is_zero
in-IsAnswered p r c z v = elim (Option-cases (lookup r.member p.present)) [
  | inl e ↦ rw e (ground (arith, count_in-increment p.counts r.channel c))
  | inr (was, e) ↦ rw e (
      ground (
        arith,
        v.present_ok r.member was e,
        count_in-increment (decrement p.counts was.channel) r.channel c,
        count_in-decrement p.counts was.channel c,
      ))
]

pub apply-IsAnswered :
    (p : Projection) (r : PresenceReport) (c : EntityId) → IsCounted p → IsAnswered p c (apply p r)
unfolding apply
apply-IsAnswered p r c v =
    let seen = record p { seq = insert r.member r.seq p.seq } in
    let w = seen-IsCounted p r v in
    ground (
      arith,
      leave-IsAnswered seen r c w,
      λ (z : is_zero r.channel ≡ false). in-IsAnswered seen r c z w,
    )
