-- ===== src/Store/Names.antt =====
-- The names of permissions, of internal/store/store.go, written and read.
use stammtisch.Prelude.{◌≡◌, ◌↔◌, ◌⊎◌, ok, err, arith}
use stammtisch.Prelude.Bytes.{bytes_key}
use stammtisch.Orchestration.Permission.{Permission, permission_name, see_channel, undeclared}
use stammtisch.Orchestration.Permission.Sets.{IsDeclared}
use stammtisch.Store.{parse_permission, invalid}

-- What the name of a permission is read as.
pub parse_permission-cases :
    (p : Permission)
    → ((parse_permission (permission_name p) ≡ ok p) × IsDeclared p)
      ⊎ ((parse_permission (permission_name p) ≡ err invalid) × ¬ IsDeclared p)
unfolding parse_permission
parse_permission-cases see_channel = ground arith
parse_permission-cases (undeclared n) = ground arith
parse_permission-cases _ = ground arith

-- The name of a permission is read as that permission, exactly where it is declared.
pub parse_permission-name :
    (p : Permission) → (parse_permission (permission_name p) ≡ ok p) ↔ IsDeclared p
parse_permission-name p = ground (arith, parse_permission-cases p)
