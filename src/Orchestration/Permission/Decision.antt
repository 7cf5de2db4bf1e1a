-- ===== src/Orchestration/Permission/Decision.antt =====
-- `Allow` of internal/orchestration/permission.go, against rules that are written without it.
use stammtisch.Prelude.{
  ◌≡◌, ◌↔◌, refl, Bool, true, false, Option, some, none, arith, not, ok, err, ◌⊎◌,
}
use stammtisch.Orchestration.EntityId.{EntityId, is_zero}
use stammtisch.Orchestration.Domain.{Channel}
use stammtisch.Orchestration.Permission.{
  Permission, Principal, Subject, PermissionSet, Grantor, has, decide_on, allow, person, bot,
  set_always_on, see_channel, manage_channel, manage_space, undeclared, channel_subject,
  not_permitted,
}
use stammtisch.Orchestration.Permission.Sets.{IsDeclared}

-- The permissions that act inside a channel that one can see.
abbrev pub Acts : Permission → Type 0
Acts see_channel = ⊥
Acts manage_space = ⊥
Acts (undeclared n) = ⊥
Acts _ = Unit

-- The rules: a space is managed by a grant on the space itself; a channel is seen by a grant on the
-- channel; and anything else in a channel takes its own grant and that of seeing the channel.
pub data Rule (held : PermissionSet) (s : Subject) : Permission → Type 0 where
  on_space :
      {p : Permission}
      → p ≡ manage_space
      → is_zero s.channel ≡ true
      → has held manage_space ≡ true
      → Rule held s p
  on_sight :
      {p : Permission}
      → p ≡ see_channel
      → is_zero s.channel ≡ false
      → has held see_channel ≡ true
      → Rule held s p
  in_channel :
      {p : Permission}
      → Acts p
      → is_zero s.channel ≡ false
      → has held see_channel ≡ true
      → has held p ≡ true
      → Rule held s p

decide_on-Rule :
    (held : PermissionSet) (s : Subject) (perm : Permission)
    → decide_on perm (not (is_zero s.channel)) held ≡ true
    → Rule held s perm
unfolding decide_on
decide_on-Rule held s manage_space h = on_space refl (ground arith) (ground arith)
decide_on-Rule held s see_channel h = on_sight refl (ground arith) (ground arith)
decide_on-Rule held s (undeclared n) h = ground arith
decide_on-Rule held s _ h = in_channel tt (ground arith) (ground arith) (ground arith)

decide_on-Acts :
    (held : PermissionSet) (perm : Permission)
    → Acts perm
    → has held see_channel ≡ true
    → has held perm ≡ true
    → decide_on perm true held ≡ true
unfolding decide_on
decide_on-Acts held see_channel a h k = absurd a
decide_on-Acts held manage_space a h k = absurd a
decide_on-Acts held (undeclared n) a h k = absurd a
decide_on-Acts held _ a h k = ground arith

Rule-decide_on :
    (held : PermissionSet) (s : Subject) (perm : Permission)
    → Rule held s perm
    → decide_on perm (not (is_zero s.channel)) held ≡ true
unfolding decide_on
Rule-decide_on held s perm (on_space e z h) = rw (e, z) (ground arith)
Rule-decide_on held s perm (on_sight e z h) = rw (e, z) (ground arith)
Rule-decide_on held s perm (in_channel a z h k) = rw z (decide_on-Acts held perm a h k)

-- With a grantor, `Allow` answers yes exactly where a named principal asks about a named space and
-- a rule applies to what was granted: a space is managed by a grant on the space, a channel is seen
-- by a grant on the channel, and to act in a channel takes its own grant and that of seeing the
-- channel.
pub allow_iff :
    (g : Grantor) (p : Principal) (perm : Permission) (s : Subject)
    → (allow (some g) p perm s ≡ true)
      ↔ ((is_zero p.id ≡ false) × (is_zero s.space ≡ false) × Rule (g p s) s perm)
unfolding allow
allow_iff g p perm s = (
  (λ h. (ground arith, ground arith, decide_on-Rule (g p s) s perm (ground arith))),
  (λ h. ground (arith, Rule-decide_on (g p s) s perm h.2)),
)

-- A person and a bot to whom the same is granted are answered alike.
pub allow-person-bot :
    (g : Grantor) (id : EntityId) (perm : Permission) (s : Subject)
    → g (person id) s ≡ g (bot id) s
    → allow (some g) (person id) perm s ≡ allow (some g) (bot id) perm s
unfolding allow
allow-person-bot g id perm s e = rw e

-- A yes on a channel comes with a yes to seeing the channel, and only a declared permission is
-- answered yes there.
pub allow_sees :
    (g : Option Grantor) (p : Principal) (perm : Permission) (s : Subject)
    → is_zero s.channel ≡ false
    → allow g p perm s ≡ true
    → (allow g p see_channel s ≡ true) × IsDeclared perm
unfolding allow
allow_sees none p perm s z h = ground arith
allow_sees (some g) p see_channel s z h = ground arith
allow_sees (some g) p _ s z h = ground arith

-- Further grants never turn a yes into a no.
pub allow_mono :
    (g k : Grantor) (p : Principal) (perm : Permission) (s : Subject)
    → ((q : Permission) → has (g p s) q ≡ true → has (k p s) q ≡ true)
    → allow (some g) p perm s ≡ true
    → allow (some k) p perm s ≡ true
unfolding allow
allow_mono g k p see_channel s m h = ground (arith, m see_channel)
allow_mono g k p perm s m h = ground (arith, m see_channel, m perm)

-- On a channel, the always-on flag is set to what was asked, and nothing else of the channel
-- changes, where the actor may manage the channel; where not, the answer is that it is not
-- permitted.
pub set_always_on_iff :
    (g : Option Grantor) (actor : Principal) (c : Channel) (on : Bool)
    → ((allow g actor manage_channel (channel_subject c.space c.id) ≡ true)
        × (set_always_on g actor (some c) on ≡ ok (record c { always_on = on })))
      ⊎ ((allow g actor manage_channel (channel_subject c.space c.id) ≡ false)
          × (set_always_on g actor (some c) on ≡ err not_permitted))
unfolding set_always_on
set_always_on_iff g actor c on = ground arith
