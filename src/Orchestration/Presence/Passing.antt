-- ===== src/Orchestration/Presence/Passing.antt =====
-- Where a member is before and after `Apply` of internal/orchestration/presence.go, against the change
-- that it answers.
use mathlib.Core.Option
use stammtisch.Prelude.{
  ◌≡◌, ◌≢◌, ◌↔◌, refl, false, List, [], ◌∷◌, Option, none, some, arith, Option-cases, inl, inr, ◌⊎◌,
}
use stammtisch.Prelude.Map.{lookup, insert, lookup-insert, lookup-delete}
use stammtisch.Orchestration.EntityId.{EntityId, id_key, is_zero}
use stammtisch.Orchestration.Presence.{
  PresenceReport, PresenceChange, Projection, moved, apply, apply_leave, apply_in, published,
}
use stammtisch.Orchestration.Presence.Counts.{IsCounted, seen-IsCounted}
use stammtisch.Orchestration.Presence.Changes.{Touches}

-- The channel that a member is in.
abbrev pub place : Projection → EntityId → Option EntityId
place p member = Option.map (λ pr. pr.channel) (lookup member p.present)

-- Between two projections the member goes out of the channel or into it.
abbrev pub Passes : Projection → Projection → EntityId → EntityId → Type 0
Passes p q member c =
    (place p member ≢ place q member) × ((place p member ≡ some c) ⊎ (place q member ≡ some c))

-- One of the reports takes its member out of the channel or into it.
abbrev pub IsPassed : Projection → List PresenceReport → EntityId → Type 0
IsPassed p [] c = ⊥
IsPassed p (r ∷ rs) c = Passes p (apply p r).0 r.member c ⊎ IsPassed (apply p r).0 rs c

-- What is answered says whether the member passed.
abbrev pub IsTrue : Projection → EntityId → EntityId → Projection × Option PresenceChange → Type 0
IsTrue p member c (q, none) = ¬ Passes p q member c
IsTrue p member c (q, some change) = Passes p q member c ↔ Touches c change

leave-IsTrue :
    (p : Projection) (r : PresenceReport) (c : EntityId)
    → IsCounted p
    → IsTrue p r.member c (apply_leave p r (lookup r.member p.present))
unfolding apply_leave moved is_zero
leave-IsTrue p r c v = elim (Option-cases (lookup r.member p.present)) [
  | inl e ↦ rw e (λ h. h.0 refl)
  | inr (was, e) ↦
      rw e (ground (arith, v.present_ok r.member was e, lookup-delete r.member r.member p.present))
]

in-IsTrue :
    (p : Projection) (r : PresenceReport) (c : EntityId)
    → is_zero r.channel ≡ false
    → IsCounted p
    → IsTrue p r.member c (apply_in p r (lookup r.member p.present))
unfolding apply_in moved is_zero
in-IsTrue p r c z v = elim (Option-cases (lookup r.member p.present)) [
  | inl e ↦ rw e (ground (arith, lookup-insert r.member r.member (published r) p.present))
  | inr (was, e) ↦ rw e (
      ground (
        arith,
        v.present_ok r.member was e,
        lookup-insert r.member r.member (published r) p.present,
      ))
]

pub apply-IsTrue :
    (p : Projection) (r : PresenceReport) (c : EntityId)
    → IsCounted p
    → IsTrue p r.member c (apply p r)
unfolding apply
apply-IsTrue p r c v =
    let seen = record p { seq = insert r.member r.seq p.seq } in
    let w = seen-IsCounted p r v in
    ground
      (arith, leave-IsTrue seen r c w, λ (z : is_zero r.channel ≡ false). in-IsTrue seen r c z w)
