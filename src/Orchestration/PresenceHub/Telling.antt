-- ===== src/Orchestration/PresenceHub/Telling.antt =====
-- The change that `Apply` of internal/orchestration/presence.go answers says what there is to say.
use stammtisch.Prelude.{
  ◌≡◌, ◌≢◌, sym, ap, ◌∙◌, subst, false, Option, none, some, arith, inl, inr, holds, Option-cases,
  Bool-cases,
}
use stammtisch.Prelude.Map.{◌≟◌, lookup, insert, delete, lookup-insert, lookup-delete}
use stammtisch.Orchestration.EntityId.{EntityId, id_key, is_zero, zero_id}
use stammtisch.Orchestration.Presence.{
  Presence, Presence-discrete, zero_presence, PresenceReport, PresenceChange, Projection, moved,
  apply_leave, apply_in, published,
}
use stammtisch.Orchestration.Presence as Projections
use stammtisch.Orchestration.Presence.Counts.{IsCounted, seen-IsCounted}
use stammtisch.Orchestration.PresenceHub.Saying.{
  said_of, said, says, IsToldTrue, said_of-same, says_other, says_left, says_joined, says_changed,
}

-- A change that says what there is to say of its own member says what there is to say of everybody, if
-- nothing else becomes known of the others.
told_by :
    (p q : Projection) (change : PresenceChange) (channel member : EntityId)
    (before now : Option Presence)
    → lookup change.member p.present ≡ before
    → lookup change.member q.present ≡ now
    → (change.member ≢ member → lookup member q.present ≡ lookup member p.present)
    → said_of channel change.member before now ≡ says change channel change.member
    → said p q channel member ≡ says change channel member
told_by p q change channel member before now a b o h = elim (change.member ≟ member) [
  | yes f ↦ subst (λ m. said p q channel m ≡ says change channel m) f (rw (a, b) h)
  | no n ↦
      ap (said_of channel member (lookup member p.present)) (o n)
      ∙ said_of-same channel member (lookup member p.present)
      ∙ sym (says_other change channel member n)
]

leave-IsToldTrue :
    (p : Projection) (r : PresenceReport) (channel member : EntityId)
    → IsCounted p
    → IsToldTrue p channel member (apply_leave p r (lookup r.member p.present))
unfolding apply_leave
leave-IsToldTrue p r channel member v = elim (Option-cases (lookup r.member p.present)) [
  | inl e ↦ rw e (said_of-same channel member (lookup member p.present))
  | inr (was, e) ↦ rw e (
      told_by p (record p { present = delete r.member p.present })
        (record { member = r.member; left = was.channel; joined = zero_id; now = zero_presence })
        channel member (some was) none e (ground (arith, lookup-delete r.member r.member p.present))
        (λ n. ground (arith, n, lookup-delete member r.member p.present))
        (says_left channel r.member was (v.present_ok r.member was e).1))
]

says_came :
    (p : Projection) (r : PresenceReport) (channel : EntityId)
    → is_zero r.channel ≡ false
    → said_of channel r.member none (some (published r))
      ≡ says
          (record { member = r.member; left = zero_id; joined = r.channel; now = published r })
          channel
          r.member
unfolding published
says_came p r channel z = says_joined channel r.member (published r) z

says_moved :
    (p : Projection) (r : PresenceReport) (was : Presence) (channel : EntityId)
    → is_zero was.channel ≡ false
    → is_zero r.channel ≡ false
    → holds (Presence-discrete was (published r)) ≡ false
    → said_of channel r.member (some was) (some (published r))
      ≡ says
          (record { member = r.member; left = was.channel; joined = r.channel; now = published r })
          channel
          r.member
unfolding published
says_moved p r was channel y z b = says_changed channel r.member was (published r) y z (λ e.
    elim (Presence-discrete was (published r)) as (λ d. holds d ≡ false → ⊥) [
      | yes f ↦ λ h. ground (arith, h)
      | no n ↦ λ h. n e
    ]
      b)

in-IsToldTrue :
    (p : Projection) (r : PresenceReport) (channel member : EntityId)
    → is_zero r.channel ≡ false
    → IsCounted p
    → IsToldTrue p channel member (apply_in p r (lookup r.member p.present))
unfolding apply_in
in-IsToldTrue p r channel member z v =
    let now = published r in
    let other : r.member ≢ member
        → lookup member (insert r.member now p.present) ≡ lookup member p.present =
      λ n. ground (arith, n, lookup-insert member r.member now p.present) in
    let own : lookup r.member (insert r.member now p.present) ≡ some now =
      ground (arith, lookup-insert r.member r.member now p.present) in
    elim (Option-cases (lookup r.member p.present)) [
      | inl e ↦ rw e (
          told_by p (record p { present = insert r.member now p.present }) _ channel member none
            (some now) e own other (says_came p r channel z))
      | inr (was, e) ↦ elim (Bool-cases (holds (Presence-discrete was now))) [
        | inl b ↦ rw (e, b) (said_of-same channel member (lookup member p.present))
        | inr b ↦
            rw (e, b)
              (told_by p (record p { present = insert r.member now p.present }) _ channel member
                (some was) (some now) e own other
                (says_moved p r was channel (v.present_ok r.member was e).1 z b))
      ]
    ]

IsToldTrue-seen :
    (p : Projection) (r : PresenceReport) (channel member : EntityId)
    (a : Projection × Option PresenceChange)
    → IsToldTrue (record p { seq = insert r.member r.seq p.seq }) channel member a
    → IsToldTrue p channel member a
IsToldTrue-seen p r channel member (q, none) h = h
IsToldTrue-seen p r channel member (q, some change) h = h

-- `Apply` leaves the projection alone, or takes the member out, or in.
apply_cases :
    (P : Projection × Option PresenceChange → Type 0) (p : Projection) (r : PresenceReport)
    → P (p, none)
    → P (apply_leave (record p { seq = insert r.member r.seq p.seq }) r (lookup r.member p.present))
    → (is_zero r.channel ≡ false
        → P (
            apply_in
              (record p { seq = insert r.member r.seq p.seq })
              r
              (lookup r.member p.present)))
    → P (Projections.apply p r)
unfolding Projections.apply
apply_cases P p r a b c = ground (arith, a, b, c)

pub apply-IsToldTrue :
    (p : Projection) (r : PresenceReport) (channel member : EntityId)
    → IsCounted p
    → IsToldTrue p channel member (Projections.apply p r)
apply-IsToldTrue p r channel member v =
    let seen = record p { seq = insert r.member r.seq p.seq } in
    let w = seen-IsCounted p r v in
    let was = lookup r.member p.present in
    apply_cases (IsToldTrue p channel member) p r
      (said_of-same channel member (lookup member p.present))
      (IsToldTrue-seen p r channel member (apply_leave seen r was)
        (leave-IsToldTrue seen r channel member w))
      (λ z.
        IsToldTrue-seen p r channel member (apply_in seen r was)
          (in-IsToldTrue seen r channel member z w))
