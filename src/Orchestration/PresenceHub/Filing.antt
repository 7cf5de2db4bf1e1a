-- ===== src/Orchestration/PresenceHub/Filing.antt =====
-- The pending channels of internal/orchestration/presence_hub.go.
use stammtisch.Prelude.{
  ◌≡◌, refl, Bool, true, false, [], ◌∷◌, none, some, arith, inl, inr, All, if◌then◌else◌,
  Option-cases, not, ◌||◌,
}
use stammtisch.Prelude.Bytes.{bytes_key}
use stammtisch.Prelude.Map.{
  FinMap, lookup, insert, delete, lookup-insert, lookup-delete, IsFunctional, delete-IsFunctional,
}
use stammtisch.Orchestration.EntityId.{EntityId, id_key, is_zero}
use stammtisch.Orchestration.Presence.{PresenceChange, moved}
use stammtisch.Orchestration.PresenceHub.{
  MemberUpdate, PendingChannel, note_update, left_update, joined_update, note_move, note_change,
}

-- Every update that waits under a channel is about that channel and about the member it is kept for,
-- and there is one for a member at most.
abbrev pub IsFiled : EntityId → FinMap EntityId MemberUpdate → Type 0
IsFiled channel members =
    IsFunctional members × All (λ e. (e.1.channel ≡ channel) × (e.1.member ≡ e.0)) members

-- The pending channels, each with what is about it.
abbrev pub AreFiled : FinMap EntityId PendingChannel → Type 0
AreFiled pending =
    (channel : EntityId) (p : PendingChannel)
    → lookup channel pending ≡ some p
    → IsFiled channel p.members

delete-All :
    (P : EntityId × MemberUpdate → Type 0) (k : EntityId) (members : FinMap EntityId MemberUpdate)
    → All P members
    → All P (delete k members)
unfolding delete
delete-All P k [] f = tt
delete-All P k ((j, u) ∷ members) f = ground (arith, delete-All P k members f.1)

insert-IsFiled :
    (channel : EntityId) (u : MemberUpdate) (members : FinMap EntityId MemberUpdate)
    → u.channel ≡ channel
    → IsFiled channel members
    → IsFiled channel (insert u.member u members)
unfolding insert
insert-IsFiled channel u members e f = (
  (lookup-delete-same, delete-IsFunctional u.member members f.0),
  ((e, refl), delete-All (λ x. (x.1.channel ≡ channel) × (x.1.member ≡ x.0)) u.member members f.1),
)
  where
    lookup-delete-same : lookup u.member (delete u.member members) ≡ none
    lookup-delete-same = ground (arith, lookup-delete u.member u.member members)

-- What the map holds for a member is about the member and the channel.
pub lookup-IsFiled :
    (channel member : EntityId) (u : MemberUpdate) (members : FinMap EntityId MemberUpdate)
    → All (λ e. (e.1.channel ≡ channel) × (e.1.member ≡ e.0)) members
    → lookup member members ≡ some u
    → (u.channel ≡ channel) × (u.member ≡ member)
unfolding lookup
lookup-IsFiled channel member u [] f h = ground arith
lookup-IsFiled channel member u ((k, w) ∷ members) f h =
    ground (arith, lookup-IsFiled channel member u members f.1)

note_update-AreFiled :
    (pending : FinMap EntityId PendingChannel) (count_moved : Bool) (u : MemberUpdate)
    → AreFiled pending
    → AreFiled (note_update pending count_moved u)
unfolding note_update
note_update-AreFiled pending count_moved u f channel p h =
    elim (Option-cases (lookup u.channel pending)) [
      | inl e ↦ ground (
        arith,
        f channel p,
        lookup-insert channel u.channel
            (record { count_moved = count_moved; members = insert u.member u [] }) pending,
        insert-IsFiled u.channel u [],
      )
      | inr (q, e) ↦ ground (
        arith,
        f channel p,
        lookup-insert channel u.channel
            (record {
              count_moved = q.count_moved || count_moved;
              members = insert u.member u q.members;
            })
            pending,
        insert-IsFiled u.channel u q.members refl (f u.channel q e),
      )
    ]

AreFiled-if :
    (b : Bool) (p q : FinMap EntityId PendingChannel)
    → AreFiled p
    → AreFiled q
    → AreFiled (if b then p else q)
AreFiled-if true p q f g = f
AreFiled-if false p q f g = g

note_move-AreFiled :
    (pending : FinMap EntityId PendingChannel) (change : PresenceChange)
    → AreFiled pending
    → AreFiled (note_move pending change)
unfolding note_move
note_move-AreFiled pending change f =
    let left = note_update pending true (left_update change) in
    let p = if not (is_zero change.left) then left else pending in
    let g =
      AreFiled-if (not (is_zero change.left)) left pending
        (note_update-AreFiled pending true (left_update change) f) f in
    AreFiled-if (not (is_zero change.joined)) (note_update p true (joined_update change)) p
      (note_update-AreFiled p true (joined_update change) g) g

pub note_change-AreFiled :
    (pending : FinMap EntityId PendingChannel) (change : PresenceChange)
    → AreFiled pending
    → AreFiled (note_change pending change)
unfolding note_change
note_change-AreFiled pending change f =
    AreFiled-if (moved change) (note_move pending change)
      (note_update pending false (joined_update change)) (note_move-AreFiled pending change f)
      (note_update-AreFiled pending false (joined_update change) f)
