-- ===== src/Media/Fake/Operations/Listing.antt =====
-- What internal/media/fake/fake.go reports of the members of a room.
use mathlib.Core.List.Permᴰ
use stammtisch.Prelude.{
  ◌≡◌, ◌↔◌, subst, sym, Bool, true, false, List, Option, some, ok, arith, In, In-perm, All-of_In,
  Option-cases, inl, inr, is_some,
}
use stammtisch.Prelude.Bytes.{
  Bytes, bytes_key, before, before_irrefl, before_trans, before_connected,
}
use stammtisch.Prelude.Map.{lookup, is_set, In-gather, gather-In}
use stammtisch.Prelude.Sort.{sort, IsSorted, IsStrictOn}
use stammtisch.Prelude.Sort.Laws.{sort-perm, sort-IsSorted}
use stammtisch.Media.{Speaking, Capabilities}
use stammtisch.Media.Fake.{Fake, MediaRoom, with_room, admitted, begin}
use stammtisch.Media.Fake.Operations.{
  answer, attempt, speakers, speaking_before, speaking_state, speaking_state_body, read_room,
}
use stammtisch.Media.Fake.Operations.Sound.{IsSound}

before_asym : (a b : Bytes) → before a b ≡ true → before b a ≡ false
before_asym a b h = ground (arith, before_trans a b a h, before_irrefl a)

speaking_before-IsStrictOn :
    (r : MediaRoom)
    → IsStrictOn (λ (x : Speaking). x.speaking ≡ is_set x.member r.speaking) speaking_before
unfolding speaking_before
speaking_before-IsStrictOn r = record {
  asym = λ a b h. before_asym a.member b.member h;
  trans = λ a b c h k. before_trans a.member b.member c.member h k;
  connected = λ a b p q h k. ground (arith, before_connected a.member b.member h k);
}

In-speakers :
    (r : MediaRoom) (x : Speaking)
    → IsSound r
    → In x (speakers r)
      ↔ ((is_some (lookup x.member r.members) ≡ true) × (x.speaking ≡ is_set x.member r.speaking))
unfolding speakers
In-speakers r x v =
    let entry : Bytes → Capabilities → Option Speaking =
      λ member caps. some (record { member = member; speaking = is_set member r.speaking }) in
    (
      (λ i.
          let (member, caps, found, same) = In-gather entry x r.members v.members_once i in
          ground (arith, found, same)),
      (λ h. elim (Option-cases (lookup x.member r.members)) [
        | inl n ↦ ground (arith, h)
        | inr (caps, e) ↦ gather-In entry x x.member caps r.members e (ground (arith, h))
      ]),
    )

-- Where the unit can observe the speakers of a room, it reports exactly the members that are admitted, in
-- the order of the identifiers, with the flag that was last written for the member and no without one.
pub speaking_state-listed :
    (f g : Fake) (id : Bytes) (r : MediaRoom) (ended : Bool) (report : List Speaking) (x : Speaking)
    → lookup id f.rooms ≡ some r
    → IsSound r
    → speaking_state ended f id ≡ (g, ok report)
    → (In x report ↔ ((admitted f id x.member ≡ true) × (x.speaking ≡ is_set x.member r.speaking)))
      × IsSorted speaking_before report
unfolding speaking_state speaking_state_body read_room attempt answer begin admitted with_room
speaking_state-listed f g id r ended report x e v h =
    let told : report ≡ sort speaking_before (speakers r) = ground (arith, e) in
    let found = sort-perm speaking_before (speakers r) in
    let iff = In-speakers r x v in
    (
      (
        (λ i. ground (arith, e, iff.0 (In-perm x found (subst (In x) told i)))),
        (λ k.
            subst (In x) (sym told) (In-perm x (Permᴰ.symm found) (iff.1 (ground (arith, e, k))))),
      ),
      subst (IsSorted speaking_before) (sym told) (
          sort-IsSorted (speaking_before-IsStrictOn r) (speakers r)
            (All-of_In _ _ (λ y i. ((In-speakers r y v).0 i).1))),
    )
