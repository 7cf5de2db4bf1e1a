-- ===== src/Media/Fake/Operations/Revoke.antt =====
-- Revoking a member in internal/media/fake/fake.go takes all that is the member's, and nothing else.
use stammtisch.Prelude.{
  ◌≡◌, holds, Bool, not, ◌||◌, ◌&&◌, Option, none, some, ok, arith, Option-cases, inl, inr, ite,
}
use stammtisch.Prelude.Bytes.{Bytes, bytes_key}
use stammtisch.Prelude.Map.{lookup, is_set, lookup-insert, lookup-delete, lookup-remove_where, ◌≟◌}
use stammtisch.Media.{Source, source_key}
use stammtisch.Media.Fake.{
  Fake, MediaRoom, subscription_key, with_room, subscribed, is_published, admitted, begin,
  record_call,
}
use stammtisch.Media.Fake.Operations.{
  answer, attempt, is_of, without_member, revoke_member, revoke_member_body, revoke_member_in,
}

-- The three questions, of a room that is there or not.
room_after : Bytes → Option MediaRoom → Option MediaRoom
room_after member none = none
room_after member (some r) = some (without_member member r)

revoked-rooms :
    (ended : Bool) (f : Fake) (id j member : Bytes)
    → (revoke_member ended f id member).1 ≡ ok tt
    → lookup j (revoke_member ended f id member).0.rooms
      ≡ ite (id ≟ j) (room_after member (lookup id f.rooms)) (lookup j f.rooms)
unfolding revoke_member attempt answer begin record_call revoke_member_body revoke_member_in
    room_after
revoked-rooms ended f id j member h = elim (Option-cases (lookup id f.rooms)) [
  | inl e ↦ ground (arith, e)
  | inr (r, e) ↦ ground (arith, e, lookup-insert j id (without_member member r) f.rooms)
]

-- After a revocation that succeeds, nobody is admitted, publishing or subscribed who was not before,
-- and exactly what is of the member in that room has gone: the admission, the member's sources, and
-- the subscriptions by the member or to one of the member's sources.
pub revoke_member-gone :
    (ended : Bool) (f : Fake) (id member : Bytes) (j other : Bytes) (s : Source)
    → (revoke_member ended f id member).1 ≡ ok tt
    → let f' = (revoke_member ended f id member).0 in
      let here = holds (id ≟ j) in
      (admitted f' j other ≡ (not (here && holds (member ≟ other)) && admitted f j other))
      × (is_published f' j s ≡ (not (here && holds (member ≟ s.member)) && is_published f j s))
      × (subscribed f' j other s ≡ (
          not (here && (holds (member ≟ other) || holds (member ≟ s.member)))
          && subscribed f j other s))
unfolding admitted is_published subscribed with_room room_after without_member is_of is_set
revoke_member-gone ended f id member j other s h = elim (Option-cases (lookup id f.rooms)) [
  | inl e ↦ ground (arith, e, revoked-rooms ended f id j member h)
  | inr (r, e) ↦ ground (
    arith,
    e,
    revoked-rooms ended f id j member h,
    lookup-delete other member r.members,
    lookup-remove_where (λ (t : Source). holds (t.member ≟ member)) s r.sources,
    lookup-remove_where (is_of member) (record { subscriber = other; source = s }) r.subscribers,
  )
]
