-- ===== src/Orchestration/Permission/Sets.antt =====
-- The permission sets of internal/orchestration/permission.go.
use stammtisch.Prelude.{◌≡◌, ◌↔◌, true, List, [], ◌∷◌, arith, In, is_some, if◌then◌else◌, ◌⊎◌}
use stammtisch.Prelude.Map.{FinMap, lookup, insert, lookup-insert}
use stammtisch.Orchestration.Permission.{
  Permission, permission_key, declared, keep_declared, new_permission_set, has, see_channel,
  undeclared,
}

-- The declared permissions are the seven constants: no other value of the type is one.
abbrev pub IsDeclared : Permission → Type 0
IsDeclared (undeclared n) = ⊥
IsDeclared p = Unit

declared_iff : (p : Permission) → (declared p ≡ true) ↔ IsDeclared p
unfolding declared
declared_iff see_channel = ground arith
declared_iff (undeclared n) = ground arith
declared_iff _ = ground arith

has-keep_declared :
    (granted : List Permission) (held : FinMap Permission (Unit {0})) (p : Permission)
    → (is_some (lookup p (keep_declared granted held)) ≡ true)
      ↔ ((is_some (lookup p held) ≡ true) ⊎ ((In p granted) × (declared p ≡ true)))
unfolding keep_declared
has-keep_declared [] held p = ground arith
has-keep_declared (q ∷ granted) held p = ground (
  arith,
  has-keep_declared granted (if declared q then insert q tt held else held) p,
  lookup-insert p q tt held,
)

-- A set built from grants holds exactly the grants that are declared permissions.
pub has-new_permission_set :
    (granted : List Permission) (p : Permission)
    → (has (new_permission_set granted) p ≡ true) ↔ (In p granted × IsDeclared p)
unfolding has new_permission_set lookup
has-new_permission_set granted p = ground (arith, has-keep_declared granted [] p, declared_iff p)
