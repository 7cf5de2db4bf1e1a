-- ===== src/Orchestration/Resume/Register.antt =====
-- The parts of the register of internal/orchestration/resume.go.
use mathlib.Core.Option
use stammtisch.Prelude.{
  ◌≡◌, ◌≢◌, ◌↔◌, refl, subst, true, List, [], ◌∷◌, arith, ◌⊎◌, In, IsDistinct, is_some,
}
use stammtisch.Prelude.Bytes.{Bytes, bytes_key}
use stammtisch.Prelude.Int.{ℤ}
use stammtisch.Prelude.Map.{
  FinMap, lookup, insert, IsFunctional, lookup-insert, insert-IsFunctional,
}
use stammtisch.Orchestration.EntityId.{EntityId, id_key}
use stammtisch.Orchestration.Resume.{
  ChannelSet, Suspension, add_all, note_one, note_all, drop_first,
}

-- Forgetting a session takes it out of the order and leaves the others.
pub In-drop_first :
    (session x : Bytes) (order : List Bytes)
    → IsDistinct order
    → In x (drop_first session order) ↔ (In x order × (x ≢ session))
unfolding drop_first
In-drop_first session x [] d = ground arith
In-drop_first session x (y ∷ order) d =
    ground (arith, In-drop_first session x order d.1, λ (e : x ≡ y). subst (λ z. In z order) e)

pub IsDistinct-drop_first :
    (session : Bytes) (order : List Bytes)
    → IsDistinct order
    → IsDistinct (drop_first session order)
unfolding drop_first
IsDistinct-drop_first session [] d = tt
IsDistinct-drop_first session (y ∷ order) d =
    ground (arith, IsDistinct-drop_first session order d.1, In-drop_first session y order d.1)

-- A batch reaches every suspension.
pub lookup-note_all :
    (breadth : ℤ) (channels : List EntityId) (session : Bytes) (held : FinMap Bytes Suspension)
    → lookup session (note_all breadth channels held)
      ≡ Option.map (note_one breadth channels) (lookup session held)
unfolding note_all lookup
lookup-note_all breadth channels session [] = refl
lookup-note_all breadth channels session ((k, s) ∷ held) =
    ground (arith, lookup-note_all breadth channels session held)

pub note_all-IsFunctional :
    (breadth : ℤ) (channels : List EntityId) (held : FinMap Bytes Suspension)
    → IsFunctional held
    → IsFunctional (note_all breadth channels held)
unfolding note_all
note_all-IsFunctional breadth channels [] u = tt
note_all-IsFunctional breadth channels ((k, s) ∷ held) u = ground (
  arith,
  note_all-IsFunctional breadth channels held u.1,
  lookup-note_all breadth channels k held,
)

-- A set of missed channels holds what it held and the batch.
pub lookup-add_all :
    (c : EntityId) (channels : List EntityId) (missed : ChannelSet)
    → (is_some (lookup c (add_all channels missed)) ≡ true)
      ↔ ((is_some (lookup c missed) ≡ true) ⊎ In c channels)
unfolding add_all
lookup-add_all c [] missed = ground arith
lookup-add_all c (d ∷ channels) missed =
    ground (arith, lookup-add_all c channels (insert d true missed), lookup-insert c d true missed)

pub add_all-IsFunctional :
    (channels : List EntityId) (missed : ChannelSet)
    → IsFunctional missed
    → IsFunctional (add_all channels missed)
unfolding add_all
add_all-IsFunctional [] missed u = u
add_all-IsFunctional (d ∷ channels) missed u =
    add_all-IsFunctional channels (insert d true missed) (insert-IsFunctional d true missed u)
