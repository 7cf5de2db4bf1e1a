-- ===== src/Orchestration/Permission/Examples.antt =====
-- Runs of internal/orchestration/permission.go and always_on.go.
use stammtisch.Prelude.{◌≡◌, ◌↔◌, refl, true, false, [], ◌∷◌, some, List}
use stammtisch.Prelude.Bytes.{bytes}
use stammtisch.Prelude.Map.{lookup, insert, delete}
use stammtisch.Orchestration.EntityId.{is_zero}
use stammtisch.Orchestration.Domain.{Channel}
use stammtisch.Orchestration.Permission.{
  Permission, Permission-discrete, Subject, Grantor, new_permission_set, has, allow, person,
  see_channel, speak_in_channel, manage_channel, channel_subject, declared,
}
use stammtisch.Orchestration.Permission.Decision.{Rule, allow_iff}
use stammtisch.Orchestration.Sample.{alice, home, lobby}

abbrev spoken : List Permission
spoken = see_channel ∷ speak_in_channel ∷ []

-- Everybody may see and speak everywhere.
abbrev open_house : Grantor
open_house p s = new_permission_set spoken

-- Everybody may manage besides.
abbrev wide_house : Grantor
wide_house p s = new_permission_set (manage_channel ∷ spoken)

abbrev at_lobby : Subject
at_lobby = channel_subject home lobby

may_speak : allow (some open_house) (person alice) speak_in_channel at_lobby ≡ true
unfolding allow has new_permission_set declared lookup insert delete is_zero Permission-discrete
may_speak = refl

may_not_manage : allow (some open_house) (person alice) manage_channel at_lobby ≡ false
unfolding allow has new_permission_set declared lookup insert delete is_zero Permission-discrete
may_not_manage = refl

lobby-IsNamed : is_zero lobby ≡ false
unfolding is_zero
lobby-IsNamed = refl

allow_iff_example : (allow (some open_house) (person alice) speak_in_channel at_lobby ≡ true) ↔ (
    (is_zero alice ≡ false)
    × (is_zero home ≡ false)
    × Rule (new_permission_set spoken) at_lobby speak_in_channel)
allow_iff_example = allow_iff open_house (person alice) speak_in_channel at_lobby

abbrev the_lobby : Channel
the_lobby = record { id = lobby; space = home; name = bytes "lobby"; always_on = false }
