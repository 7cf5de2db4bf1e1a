-- ===== src/Orchestration/Domain/Listing.antt =====
-- The listing of a channel of internal/orchestration/domain.go.
use mathlib.Core.List.{Permᴰ}
use mathlib.Core.List.Permᴰ
use mathlib.Core.Option
use stammtisch.Prelude.{
  ◌≡◌, ◌↔◌, [], ◌∷◌, Option, some, arith, All, In, IsDistinct, In-perm, IsDistinct-perm,
}
use stammtisch.Prelude.Map.{FinMap, lookup, IsFunctional, gather-perm, perm-of_lookup}
use stammtisch.Prelude.Sort.{IsSorted}
use stammtisch.Prelude.Sort.Laws.{sort-perm, sort-perm_eq, sort-IsSorted, All-perm}
use stammtisch.Orchestration.EntityId.{EntityId, id_key, IsValid, id_before}
use stammtisch.Orchestration.EntityId.Order.{id_before-IsStrictOn}
use stammtisch.Orchestration.Domain.{Occupancy, Space, collect, occupants, get_occupancy}
use stammtisch.Orchestration.Domain.Invariant.{IsWellFormed}
use stammtisch.Orchestration.Domain.Moves.{where_is}

where_held : EntityId → FinMap EntityId Occupancy → Option EntityId
where_held k m = Option.map (λ o. o.channel) (lookup k m)

-- The loop collects exactly the members whose occupancy names the channel, each once.
collect-where :
    (channel k : EntityId) (m : FinMap EntityId Occupancy)
    → IsFunctional m
    → In k (collect channel m) ↔ (where_held k m ≡ some channel)
unfolding collect lookup where_held
collect-where channel k [] u = ((λ h. absurd h), (λ h. ground arith))
collect-where channel k ((j, o) ∷ m) u = ground (arith, collect-where channel k m u.1)

collect-IsDistinct :
    (channel : EntityId) (m : FinMap EntityId Occupancy)
    → IsFunctional m
    → IsDistinct (collect channel m)
unfolding collect where_held
collect-IsDistinct channel [] u = tt
collect-IsDistinct channel ((j, o) ∷ m) u =
    ground (arith, collect-where channel j m u.1, collect-IsDistinct channel m u.1)

collect-perm :
    (channel : EntityId) {m n : FinMap EntityId Occupancy}
    → Permᴰ m n
    → Permᴰ (collect channel m) (collect channel n)
unfolding collect
collect-perm channel r = gather-perm _ r

-- In a well-formed space, a member stands in a channel's list exactly when that is where the member
-- is, and nobody stands there twice.
pub occupants-where :
    (s : Space) (channel member : EntityId)
    → IsWellFormed s
    → (In member (occupants s channel) ↔ (where_is s member ≡ some channel))
      × IsDistinct (occupants s channel)
unfolding occupants where_held
occupants-where s channel member v =
    let found = sort-perm id_before (collect channel s.occupancies) in
    let iff = collect-where channel member s.occupancies v.one_occupancy in
    (
      ((λ h. iff.0 (In-perm member found h)), (λ h. In-perm member (Permᴰ.symm found) (iff.1 h))),
      IsDistinct-perm (Permᴰ.symm found) (collect-IsDistinct channel s.occupancies v.one_occupancy),
    )

-- Nobody is listed in two channels.
pub occupants_disjoint :
    (s : Space) (a b member : EntityId)
    → IsWellFormed s
    → In member (occupants s a)
    → In member (occupants s b)
    → a ≡ b
occupants_disjoint s a b member v h k =
    cc ((occupants-where s a member v).0.0 h, (occupants-where s b member v).0.0 k)

-- Two well-formed spaces that answer every question about an occupancy alike list a channel whose
-- members have valid identifiers alike, in the order of the identifiers: the order in which the
-- runtime walks the map leaves no trace.
pub occupants-eq :
    (s t : Space) (channel : EntityId)
    → IsWellFormed s
    → IsWellFormed t
    → All IsValid (occupants s channel)
    → ((member : EntityId) → get_occupancy s member ≡ get_occupancy t member)
    → (occupants s channel ≡ occupants t channel) × IsSorted id_before (occupants s channel)
unfolding occupants get_occupancy
occupants-eq s t channel v w valid same =
    let named = All-perm IsValid (sort-perm id_before (collect channel s.occupancies)) valid in
    (
      sort-perm_eq id_before-IsStrictOn
          (collect-perm channel
            (perm-of_lookup s.occupancies t.occupancies v.one_occupancy w.one_occupancy same))
          named,
      sort-IsSorted id_before-IsStrictOn (collect channel s.occupancies) named,
    )
