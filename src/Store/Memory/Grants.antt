-- ===== src/Store/Memory/Grants.antt =====
-- The grants of internal/store/memory.go, against the history of calls that wrote them.
use stammtisch.Prelude.{
  ◌≡◌, ◌↔◌, sym, ap, ◌∙◌, true, false, List, [], ◌∷◌, some, ok, arith, ◌⊎◌, In, All, is_some, subst,
}
use stammtisch.Prelude.Bytes.{bytes_key}
use stammtisch.Prelude.Map.{FinMap, lookup, insert, lookup-insert}
use stammtisch.Orchestration.EntityId.{EntityId, is_zero, to_string}
use stammtisch.Orchestration.EntityId.Order.{IsIdent, to_string-injective_ident}
use stammtisch.Orchestration.Permission.{
  Permission, permissions, permission_name, Principal, Subject, PermissionSet, has, see_channel,
  undeclared,
}
use stammtisch.Orchestration.Permission.Sets.{IsDeclared, has-new_permission_set}
use stammtisch.Orchestration.Permission.{allow}
use stammtisch.Orchestration.Permission.Decision.{
  Acts, Rule, on_space, on_sight, in_channel, allow_iff,
}
use stammtisch.Store.{parse_permission, subject_channel}
use stammtisch.Store.Names.{parse_permission-name, parse_permission-cases}
use stammtisch.Store.Memory.{
  GrantKey, grant_key, Memory, new_memory, key_of, check_granted, write_granted, grant, held_of,
  granted, StoreCall, puts_channel, puts_member, grants_to, sets_gain, store_step, store_run,
  put_channel, put_member, set_gain,
}

-- A subject as its constructors make one.
pub record IsSubject (s : Subject) : Type 0 where
  pub of_space : IsIdent s.space
  pub of_channel : IsIdent s.channel

-- What a history of calls has granted: some call granted it, to a principal and about a space that
-- have a name, with declared permissions only.
abbrev pub Holds : List StoreCall → EntityId → Subject → Permission → Type 0
Holds [] id s p = ⊥
Holds (grants_to q t granted ∷ cs) id s p =
    ((q ≡ id)
      × (t ≡ s)
      × In p granted
      × (is_zero q ≡ false)
      × (is_zero t.space ≡ false)
      × All IsDeclared granted)
    ⊎ Holds cs id s p
Holds (_ ∷ cs) id s p = Holds cs id s p

-- The identifiers of the calls that grant.
abbrev pub AreIdents : List StoreCall → Type 0
AreIdents [] = Unit
AreIdents (grants_to q t granted ∷ cs) = IsIdent q × IsSubject t × AreIdents cs
AreIdents (_ ∷ cs) = AreIdents cs

name_injective :
    (p q : Permission) → IsDeclared p → IsDeclared q → permission_name p ≡ permission_name q → p ≡ q
name_injective p q d e h =
    cc ((parse_permission-name p).1 d, (parse_permission-name q).1 e, ap parse_permission h)

subject_channel-to_string : (s : Subject) → subject_channel s ≡ to_string s.channel
unfolding subject_channel to_string
subject_channel-to_string s = ground arith

key_of-injective :
    (q id : EntityId) (t s : Subject) (p r : Permission)
    → IsIdent q
    → IsIdent id
    → IsSubject t
    → IsSubject s
    → IsDeclared p
    → IsDeclared r
    → key_of q t p ≡ key_of id s r
    → (q ≡ id) × (t ≡ s) × (p ≡ r)
key_of-injective q id t s p r iq ii it is dp dr e =
    let channels =
      sym (subject_channel-to_string t)
      ∙ ap (λ (k : GrantKey). k.channel) e
      ∙ subject_channel-to_string s in
    let same_space =
      to_string-injective_ident t.space s.space it.of_space is.of_space
        (ap (λ (k : GrantKey). k.space) e) in
    let same_channel =
      to_string-injective_ident t.channel s.channel it.of_channel is.of_channel channels in
    (
      to_string-injective_ident q id iq ii (ap (λ (k : GrantKey). k.principal) e),
      ground arith,
      name_injective p r dp dr (ap (λ (k : GrantKey). k.permission) e),
    )

key_of-same :
    (q id : EntityId) (t s : Subject) (p r : Permission)
    → q ≡ id
    → t ≡ s
    → p ≡ r
    → key_of q t p ≡ key_of id s r
key_of-same q id t s p r e f g = cc

check_granted_iff :
    (granted : List Permission) → (check_granted granted ≡ ok tt) ↔ All IsDeclared granted
unfolding check_granted
check_granted_iff [] = ground arith
check_granted_iff (p ∷ granted) =
    ground (arith, parse_permission-cases p, check_granted_iff granted)

lookup-write_granted :
    (q id : EntityId) (t s : Subject) (ps : List Permission) (r : Permission)
    (grants : FinMap GrantKey (Unit {0}))
    → IsIdent q
    → IsIdent id
    → IsSubject t
    → IsSubject s
    → IsDeclared r
    → All IsDeclared ps
    → (is_some (lookup (key_of id s r) (write_granted q t ps grants)) ≡ true)
      ↔ ((is_some (lookup (key_of id s r) grants) ≡ true) ⊎ ((q ≡ id) × (t ≡ s) × In r ps))
unfolding write_granted
lookup-write_granted q id t s [] r grants iq ii it is dr ds = ground arith
lookup-write_granted q id t s (p ∷ ps) r grants iq ii it is dr ds = ground (
  arith,
  lookup-write_granted q id t s ps r (insert (key_of q t p) tt grants) iq ii it is dr ds.1,
  lookup-insert (key_of id s r) (key_of q t p) tt grants,
  key_of-injective q id t s p r iq ii it is ds.0 dr,
  key_of-same q id t s p r,
)

-- One call writes the grants that it holds.
step-Holds :
    (m : Memory) (c : StoreCall) (id : EntityId) (s : Subject) (r : Permission)
    → AreIdents (c ∷ [])
    → IsIdent id
    → IsSubject s
    → IsDeclared r
    → (is_some (lookup (key_of id s r) (store_step m c).grants) ≡ true)
      ↔ ((is_some (lookup (key_of id s r) m.grants) ≡ true) ⊎ Holds (c ∷ []) id s r)
unfolding store_step put_channel put_member set_gain grant
step-Holds m (puts_channel c) id s r v ii is d = ground arith
step-Holds m (puts_member space member) id s r v ii is d = ground arith
step-Holds m (sets_gain listener speaker percent) id s r v ii is d = ground arith
step-Holds m (grants_to q t ps) id s r v ii is d =
    ground
      (arith, check_granted_iff ps, lookup-write_granted q id t s ps r m.grants v.0 ii v.1 is d)

Holds-cons :
    (c : StoreCall) (cs : List StoreCall) (id : EntityId) (s : Subject) (r : Permission)
    → Holds (c ∷ cs) id s r ↔ (Holds (c ∷ []) id s r ⊎ Holds cs id s r)
Holds-cons (grants_to q t ps) cs id s r = ground arith
Holds-cons _ cs id s r = ground arith

AreIdents-cons :
    (c : StoreCall) (cs : List StoreCall) → AreIdents (c ∷ cs) → AreIdents (c ∷ []) × AreIdents cs
AreIdents-cons (grants_to q t ps) cs v = ((v.0, v.1, tt), v.2)
AreIdents-cons _ cs v = (tt, v)

run-Holds :
    (m : Memory) (cs : List StoreCall) (id : EntityId) (s : Subject) (r : Permission)
    → AreIdents cs
    → IsIdent id
    → IsSubject s
    → IsDeclared r
    → (is_some (lookup (key_of id s r) (store_run m cs).grants) ≡ true)
      ↔ ((is_some (lookup (key_of id s r) m.grants) ≡ true) ⊎ Holds cs id s r)
unfolding store_run
run-Holds m [] id s r v ii is d = ground arith
run-Holds m (c ∷ cs) id s r v ii is d =
    let (now, later) = AreIdents-cons c cs v in
    ground (
      arith,
      run-Holds (store_step m c) cs id s r later ii is d,
      step-Holds m c id s r now ii is d,
      Holds-cons c cs id s r,
    )

In-held_of :
    (m : Memory) (id : EntityId) (s : Subject) (r : Permission) (ps : List Permission)
    → In r (held_of m id s ps) ↔ (In r ps × (is_some (lookup (key_of id s r) m.grants) ≡ true))
unfolding held_of
In-held_of m id s r [] = ground arith
In-held_of m id s r (p ∷ ps) = ground (arith, In-held_of m id s r ps, ap (key_of id s))

In-permissions : (p : Permission) → IsDeclared p → In p permissions
In-permissions see_channel d = ground arith
In-permissions (undeclared n) d = absurd d
In-permissions _ d = ground arith

-- The store answers exactly with what the history of calls has granted.
pub granted-store_run :
    (cs : List StoreCall) (p : Principal) (s : Subject) (r : Permission)
    → AreIdents cs
    → IsIdent p.id
    → IsSubject s
    → (has (granted (store_run new_memory cs) p s) r ≡ true) ↔ (IsDeclared r × Holds cs p.id s r)
unfolding granted new_memory lookup
granted-store_run cs p s r v ip is =
    let m = store_run new_memory cs in
    let held = held_of m p.id s permissions in
    ground (
      arith,
      has-new_permission_set held r,
      In-held_of m p.id s r permissions,
      In-permissions r,
      λ (d : IsDeclared r). run-Holds new_memory cs p.id s r v ip is d,
    )

Acts-IsDeclared : (r : Permission) → Acts r → IsDeclared r
Acts-IsDeclared see_channel a = tt
Acts-IsDeclared (undeclared n) a = absurd a
Acts-IsDeclared _ a = tt

Rule-Acts :
    (held : PermissionSet) (s : Subject) (r : Permission)
    → Acts r
    → Rule held s r
    → (is_zero s.channel ≡ false) × (has held see_channel ≡ true) × (has held r ≡ true)
Rule-Acts held s r a (on_space e z h) = absurd (subst Acts e a)
Rule-Acts held s r a (on_sight e z h) = absurd (subst Acts e a)
Rule-Acts held s r a (in_channel b z h k) = (z, h, k)

-- For a permission that acts in a channel, `Allow` asked of the store answers yes exactly where a
-- principal and a space are named, the subject is a channel, and the history of calls has granted, on
-- that channel, both the permission and seeing the channel.
pub allow-store_run :
    (cs : List StoreCall) (p : Principal) (r : Permission) (s : Subject)
    → AreIdents cs
    → IsIdent p.id
    → IsSubject s
    → Acts r
    → (allow (some (granted (store_run new_memory cs))) p r s ≡ true) ↔ (
        (is_zero p.id ≡ false)
        × (is_zero s.space ≡ false)
        × (is_zero s.channel ≡ false)
        × Holds cs p.id s see_channel
        × Holds cs p.id s r)
allow-store_run cs p r s v ip is a =
    let g = granted (store_run new_memory cs) in
    let sees = granted-store_run cs p s see_channel v ip is in
    let acts = granted-store_run cs p s r v ip is in
    let iff = allow_iff g p r s in
    (
      (λ h.
          let (named, spaced, rule) = iff.0 h in
          let (z, w, x) = Rule-Acts (g p s) s r a rule in
          (named, spaced, z, (sees.0 w).1, (acts.0 x).1)),
      (λ (named, spaced, z, w, x).
          iff.1 (named, spaced, in_channel a z (sees.1 (tt, w)) (acts.1 (Acts-IsDeclared r a, x)))),
    )
