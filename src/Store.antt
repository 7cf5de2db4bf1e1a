-- ===== src/Store.antt =====
-- internal/store/store.go: the checks that every store makes, the names of permissions and the range
-- of a gain. The text of an error is left out.
pub mod Memory
pub mod Names
use stammtisch.Prelude.{
  ℕ, ◌≡◌, Bool, true, false, not, ◌||◌, List, [], ◌∷◌, Result, ok, err, fail_if, holds,
  if◌then◌else◌,
}
use stammtisch.Prelude.Int.{ℤ, pos, ltb_ℤ}
use stammtisch.Prelude.Bytes.{Bytes, bytes_key}
use stammtisch.Prelude.Map.{◌≟◌}
use stammtisch.Orchestration.EntityId.{EntityId, is_zero, to_string}
use stammtisch.Orchestration.Permission.{
  Permission, permissions, permission_name, Subject, about_channel,
}

-- `ErrNotFound` and `ErrInvalid`.
pub data StoreError : Type 0 where
  not_found invalid : StoreError

abbrev pub min_gain : ℤ
min_gain = pos 0

abbrev pub default_gain : ℤ
default_gain = pos 100

abbrev pub max_gain : ℤ
max_gain = pos 200

-- The loop of `ParsePermission` over the declared permissions.
find_permission : Bytes → List Permission → Result StoreError Permission
find_permission name [] = err invalid
find_permission name (p ∷ rest) =
    let later = find_permission name rest in
    if holds (permission_name p ≟ name) then ok p else later

pub parse_permission : Bytes → Result StoreError Permission
unfolding find_permission
parse_permission name = find_permission name permissions

pub check_gain : ℤ → Result StoreError (Unit {0})
check_gain percent = fail_if (ltb_ℤ percent min_gain || ltb_ℤ max_gain percent) invalid

pub check_pair : EntityId → EntityId → Result StoreError (Unit {0})
check_pair a b = fail_if (is_zero a || is_zero b) invalid

unfoldable pub subject_channel : Subject → Bytes
subject_channel s = if not (about_channel s) then [] else to_string s.channel
