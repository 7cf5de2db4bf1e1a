-- ===== src/Orchestration/Presence/Listing.antt =====
-- The listing of a channel of internal/orchestration/presence.go.
use mathlib.Core.List.{Permᴰ}
use mathlib.Core.List.Permᴰ
use stammtisch.Prelude.{
  ◌≡◌, ◌↔◌, refl, sym, ◌∙◌, List, [], ◌∷◌, none, some, arith, In, In-perm, length, length-perm,
}
use stammtisch.Prelude.Map.{FinMap, lookup, IsFunctional, count_where}
use stammtisch.Prelude.Sort.Laws.{sort-perm}
use stammtisch.Orchestration.EntityId.{EntityId, id_key, IsValid}
use stammtisch.Orchestration.Presence.{
  Presence, Projection, where_is, count, presence_before, collect, occupants,
}
use stammtisch.Orchestration.Presence.Counts.{in_channel, IsCounted}

length-collect :
    (c : EntityId) (m : FinMap EntityId Presence)
    → length (collect c m) ≡ count_where (in_channel c) m
unfolding collect count_where
length-collect c [] = refl
length-collect c ((k, pr) ∷ m) = ground (arith, length-collect c m)

-- The list of a channel is as long as the count that is pushed for it.
pub length-occupants :
    (p : Projection) (c : EntityId) → IsCounted p → length (occupants p c) ≡ count p c
unfolding occupants count
length-occupants p c v =
    length-perm (sort-perm presence_before (collect c p.present))
    ∙ length-collect c p.present
    ∙ sym (v.counted c)

-- Every value of a map stands under its member's identifier.
abbrev IsKeyed : FinMap EntityId Presence → Type 0
IsKeyed m = (k : EntityId) (pr : Presence) → lookup k m ≡ some pr → pr.member ≡ k

IsKeyed-tail :
    (k : EntityId) (q : Presence) (m : FinMap EntityId Presence)
    → lookup k m ≡ none
    → IsKeyed ((k, q) ∷ m)
    → IsKeyed m
unfolding lookup
IsKeyed-tail k q m u w j r h = ground (arith, w j r)

In-collect :
    (c : EntityId) (pr : Presence) (m : FinMap EntityId Presence)
    → IsFunctional m
    → IsKeyed m
    → In pr (collect c m) ↔ ((lookup pr.member m ≡ some pr) × (pr.channel ≡ c))
unfolding collect lookup
In-collect c pr [] u w = ground arith
In-collect c pr ((k, q) ∷ m) u w =
    ground (arith, w k q, In-collect c pr m u.1 (IsKeyed-tail k q m u.0 w))

-- Where the counts are right, the list of a channel holds exactly the presences of the members who
-- are in the channel.
pub occupants-held :
    (p : Projection) (c : EntityId) (pr : Presence)
    → IsCounted p
    → In pr (occupants p c) ↔ ((where_is p pr.member ≡ some pr) × (pr.channel ≡ c))
unfolding occupants where_is
occupants-held p c pr v =
    let found = sort-perm presence_before (collect c p.present) in
    let iff = In-collect c pr p.present v.one_presence (λ k q h. (v.present_ok k q h).0) in
    ((λ h. iff.0 (In-perm pr found h)), (λ h. In-perm pr (Permᴰ.symm found) (iff.1 h)))

-- A presence that the projection holds for a member with a valid identifier.
record IsHeld (p : Projection) (pr : Presence) : Type 0 where
  named : IsValid pr.member
  held : where_is p pr.member ≡ some pr
