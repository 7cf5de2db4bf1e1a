-- ===== src/Orchestration/Permission.antt =====
-- internal/orchestration/permission.go and always_on.go. `Permission` is a Go int: its seven
-- constants are constructors, and `undeclared n` is any other value n. A map used as a set is a map
-- into `Unit`, and the nil map of a zero `PermissionSet` is `none`. A nil `Grantor` is `none`.
pub mod Decision
pub mod Sets
mod Examples
use stammtisch.Prelude.{
  ◌++◌, ℕ, ◌≡◌, Bool, true, false, not, ◌&&◌, ◌||◌, List, [], ◌∷◌, Option, none, some, Result, ok,
  err, ◌>>=◌, ◌>>◌, fail_if, holds, is_some, if◌then◌else◌,
}
use stammtisch.Prelude.Int.{ℤ, pos, ℤ-discrete}
use stammtisch.Prelude.Bytes.{Bytes, bytes}
use stammtisch.Prelude.Bytes.{Bytes, bytes}
use stammtisch.Prelude.Decimal.{itoa}
use stammtisch.Prelude.Map.{Key, FinMap, ◌≟◌, lookup, insert}
use stammtisch.Orchestration.EntityId.{EntityId, zero_id, is_zero}
use stammtisch.Orchestration.Domain.{Channel}

pub data Permission : Type 0 where
  see_channel join_channel speak_in_channel mute_member move_member manage_channel manage_space :
      Permission
  undeclared : ℤ → Permission

unfoldable pub Permission-discrete : Discrete Permission
Permission-discrete = hlevel ℤ-discrete

instance abbrev pub permission_key : Key Permission
permission_key = record { same = Permission-discrete }

abbrev pub permissions : List Permission
permissions =
    see_channel ∷ join_channel ∷ speak_in_channel ∷ mute_member ∷ move_member ∷ manage_channel
    ∷ manage_space ∷ []

-- `String`.
abbrev pub permission_name : Permission → Bytes
permission_name see_channel = bytes "see-channel"
permission_name join_channel = bytes "join-channel"
permission_name speak_in_channel = bytes "speak-in-channel"
permission_name mute_member = bytes "mute-member"
permission_name move_member = bytes "move-member"
permission_name manage_channel = bytes "manage-channel"
permission_name manage_space = bytes "manage-space"
permission_name (undeclared n) = bytes "undeclared-permission(" ++ itoa n ++ b')' ∷ []

pub data PrincipalKind : Type 0 where
  kind_person kind_bot : PrincipalKind

pub record Principal : Type 0 where
  pub id : EntityId
  pub kind : PrincipalKind

abbrev pub person : EntityId → Principal
person id = record { id = id; kind = kind_person }

abbrev pub bot : EntityId → Principal
bot id = record { id = id; kind = kind_bot }

pub record Subject : Type 0 where
  pub space : EntityId
  pub channel : EntityId

abbrev pub space_subject : EntityId → Subject
space_subject space = record { space = space; channel = zero_id }

abbrev pub channel_subject : EntityId → EntityId → Subject
channel_subject space channel = record { space = space; channel = channel }

-- The second result of `Subject.Channel`.
abbrev pub about_channel : Subject → Bool
about_channel s = not (is_zero s.channel)

pub record PermissionSet : Type 0 where
  pub held : Option (FinMap Permission (Unit {0}))

-- The loop of `declared` over the permissions.
one_of : Permission → List Permission → Bool
one_of p [] = false
one_of p (known ∷ rest) = holds (p ≟ known) || one_of p rest

unfoldable pub declared : Permission → Bool
unfolding one_of
declared p = one_of p permissions

keep_declared : List Permission → FinMap Permission (Unit {0}) → FinMap Permission (Unit {0})
keep_declared [] held = held
keep_declared (p ∷ granted) held =
    keep_declared granted (if declared p then insert p tt held else held)

unfoldable pub new_permission_set : List Permission → PermissionSet
unfolding keep_declared
new_permission_set granted = record { held = some (keep_declared granted []) }

held_has : Permission → Option (FinMap Permission (Unit {0})) → Bool
held_has p none = false
held_has p (some held) = is_some (lookup p held)

unfoldable pub has : PermissionSet → Permission → Bool
unfolding held_has
has s p = held_has p s.held

-- What a principal has been granted on a subject. Who answers is a parameter wherever one is used.
abbrev pub Grantor : Type 0
Grantor = Principal → Subject → PermissionSet

-- The switch of `Allow`, with what was granted on the subject.
decide_on : Permission → Bool → PermissionSet → Bool
decide_on manage_space about held = if about then false else has held manage_space
decide_on see_channel about held = if not about then false else has held see_channel
decide_on (undeclared n) about held = false
decide_on perm about held =
    if not about then false else if not (has held see_channel) then false else has held perm

unfoldable pub allow : Option Grantor → Principal → Permission → Subject → Bool
unfolding decide_on
allow none p perm s = false
allow (some g) p perm s =
    if is_zero p.id || is_zero s.space then false else decide_on perm (about_channel s) (g p s)

-- always_on.go. The channel is the one that the caller holds, written in place.
pub data AlwaysOnError : Type 0 where
  invariant not_permitted : AlwaysOnError

pub set_always_on :
    Option Grantor → Principal → Option Channel → Bool → Result AlwaysOnError Channel
set_always_on g actor none on = err invariant
set_always_on g actor (some c) on = do
  fail_if (not (allow g actor manage_channel (channel_subject c.space c.id))) not_permitted
  ok (record c { always_on = on })
