-- ===== src/Store/Memory/Members.antt =====
-- The members of internal/store/memory.go, and their listing.
use mathlib.Core.List.Permᴰ
use stammtisch.Prelude.{
  ◌≡◌, ◌↔◌, refl, sym, ap, ◌∙◌, List, [], ◌∷◌, Option, some, arith, inl, inr, ◌⊎◌, holds,
  if◌then◌else◌, Option-cases, In, In-perm, All-of_In,
}
use stammtisch.Prelude.Bytes.{Bytes, bytes_key}
use stammtisch.Prelude.Map.{
  FinMap, ◌≟◌, lookup, insert, IsFunctional, lookup-insert, insert-IsFunctional, In-gather,
  gather-In,
}
use stammtisch.Prelude.Sort.{IsSorted}
use stammtisch.Prelude.Sort.Laws.{sort-perm, sort-IsSorted}
use stammtisch.Orchestration.EntityId.{EntityId, IsValid, id_key, to_string, id_before}
use stammtisch.Orchestration.EntityId.Order.{
  to_string-injective, is_zero-IsValid, id_before-IsStrictOn,
}
use stammtisch.Store.Memory.Channels.{AreNamed, AreNamed-cons}
use stammtisch.Store.{check_pair}
use stammtisch.Store.Memory.{
  Memory, new_memory, put_channel, members_of, put_member, collect_members, list_members, grant,
  set_gain, StoreCall, puts_channel, puts_member, grants_to, sets_gain, store_step, store_run,
}

-- What a history of calls has recorded of the members of a space.
abbrev pub Belongs : List StoreCall → EntityId → EntityId → Type 0
Belongs [] space member = ⊥
Belongs (puts_member s m ∷ cs) space member = ((s ≡ space) × (m ≡ member)) ⊎ Belongs cs space member
Belongs (_ ∷ cs) space member = Belongs cs space member

-- The members of each space stand under their own printed identifiers, which are valid.
record AreMembers (m : Memory) : Type 0 where
  one_member :
      (key : Bytes) (held : FinMap Bytes EntityId)
      → lookup key m.members ≡ some held
      → IsFunctional held
  member_ok :
      (key k : Bytes) (held : FinMap Bytes EntityId) (x : EntityId)
      → lookup key m.members ≡ some held
      → lookup k held ≡ some x
      → (to_string x ≡ k) × IsValid x

members_of-IsFunctional :
    (m : Memory) (space : EntityId) → AreMembers m → IsFunctional (members_of m space)
unfolding members_of
members_of-IsFunctional m space f = elim (Option-cases (lookup (to_string space) m.members)) [
  | inl e ↦ ground (arith, e)
  | inr (held, e) ↦ ground (arith, e, f.one_member (to_string space) held e)
]

member_of-IsValid :
    (m : Memory) (space : EntityId) (k : Bytes) (x : EntityId)
    → AreMembers m
    → lookup k (members_of m space) ≡ some x
    → (to_string x ≡ k) × IsValid x
unfolding members_of lookup
member_of-IsValid m space k x f h = elim (Option-cases (lookup (to_string space) m.members)) [
  | inl e ↦ ground (arith, e)
  | inr (held, e) ↦ ground (arith, e, f.member_ok (to_string space) k held x e)
]

put-AreMembers :
    (m : Memory) (s x : EntityId)
    → IsValid x
    → AreMembers m
    → AreMembers (record m {
      members = insert (to_string s) (insert (to_string x) x (members_of m s)) m.members;
    })
put-AreMembers m s x v f =
    let held = insert (to_string x) x (members_of m s) in
    record {
      one_member = λ key q h. ground (
        arith,
        lookup-insert key (to_string s) held m.members,
        f.one_member key q,
        insert-IsFunctional (to_string x) x (members_of m s) (members_of-IsFunctional m s f),
      );
      member_ok = λ key k q y h g. ground (
        arith,
        lookup-insert key (to_string s) held m.members,
        lookup-insert k (to_string x) x (members_of m s),
        f.member_ok key k q y,
        member_of-IsValid m s k y f,
      );
    }

kept-AreMembers : (m n : Memory) → n.members ≡ m.members → AreMembers m → AreMembers n
kept-AreMembers m n e f = record {
  one_member = λ key q h. f.one_member key q (ap (lookup key) (sym e) ∙ h);
  member_ok = λ key k q y h g. f.member_ok key k q y (ap (lookup key) (sym e) ∙ h) g;
}

step-AreMembers :
    (m : Memory) (c : StoreCall) → AreNamed (c ∷ []) → AreMembers m → AreMembers (store_step m c)
unfolding store_step put_channel put_member grant set_gain
step-AreMembers m (puts_channel c) v f = kept-AreMembers m _ (ground arith) f
step-AreMembers m (puts_member space member) v f =
    ground (arith, f, put-AreMembers m space member v.1 f)
step-AreMembers m (grants_to q t ps) v f = kept-AreMembers m _ (ground arith) f
step-AreMembers m (sets_gain a b percent) v f = kept-AreMembers m _ (ground arith) f

-- Whether the store has recorded a member of a space.
abbrev recorded : Memory → EntityId → EntityId → Option EntityId
recorded m space x = lookup (to_string x) (members_of m space)

put-members_of :
    (m : Memory) (s x space : EntityId)
    → IsValid s
    → IsValid space
    → members_of
        (record m {
          members = insert (to_string s) (insert (to_string x) x (members_of m s)) m.members;
        })
        space
      ≡ (if holds (s ≟ space) then insert (to_string x) x (members_of m s) else members_of m space)
unfolding members_of
put-members_of m s x space v w = ground (
  arith,
  lookup-insert (to_string space) (to_string s) (insert (to_string x) x (members_of m s)) m.members,
  to_string-injective s space v w,
)

members_of-same :
    (m n : Memory) (space : EntityId)
    → n.members ≡ m.members
    → members_of n space ≡ members_of m space
unfolding members_of
members_of-same m n space e = ground (arith, ap (lookup (to_string space)) e)

step-Belongs :
    (m : Memory) (c : StoreCall) (space x : EntityId)
    → AreNamed (c ∷ [])
    → IsValid space
    → IsValid x
    → (recorded (store_step m c) space x ≡ some x)
      ↔ ((recorded m space x ≡ some x) ⊎ Belongs (c ∷ []) space x)
unfolding store_step put_channel put_member grant set_gain check_pair
step-Belongs m (puts_channel c) space x v w y =
    ground (arith, members_of-same m (store_step m (puts_channel c)) space (ground arith))
step-Belongs m (puts_member s z) space x v w y = ground (
  arith,
  is_zero-IsValid s v.0,
  is_zero-IsValid z v.1,
  put-members_of m s z space v.0 w,
  lookup-insert (to_string x) (to_string z) z (members_of m s),
  to_string-injective z x v.1 y,
)
step-Belongs m (grants_to q t ps) space x v w y =
    ground (arith, members_of-same m (store_step m (grants_to q t ps)) space (ground arith))
step-Belongs m (sets_gain a b percent) space x v w y =
    ground (arith, members_of-same m (store_step m (sets_gain a b percent)) space (ground arith))

Belongs-cons :
    (c : StoreCall) (cs : List StoreCall) (space x : EntityId)
    → Belongs (c ∷ cs) space x ↔ (Belongs (c ∷ []) space x ⊎ Belongs cs space x)
Belongs-cons (puts_member s z) cs space x = ground arith
Belongs-cons _ cs space x = ground arith

run-Belongs :
    (m : Memory) (cs : List StoreCall) (space x : EntityId)
    → AreNamed cs
    → IsValid space
    → IsValid x
    → AreMembers m
    → ((recorded (store_run m cs) space x ≡ some x)
        ↔ ((recorded m space x ≡ some x) ⊎ Belongs cs space x))
      × AreMembers (store_run m cs)
unfolding store_run
run-Belongs m [] space x v w y f = (ground arith, f)
run-Belongs m (c ∷ cs) space x v w y f =
    let (now, later) = AreNamed-cons c cs v in
    let (iff, g) = run-Belongs (store_step m c) cs space x later w y (step-AreMembers m c now f) in
    (ground (arith, iff, step-Belongs m c space x now w y, Belongs-cons c cs space x), g)

In-collect_members :
    (held : FinMap Bytes EntityId) (x : EntityId)
    → IsFunctional held
    → ((k : Bytes) (y : EntityId) → lookup k held ≡ some y → (to_string y ≡ k) × IsValid y)
    → In x (collect_members held) ↔ (lookup (to_string x) held ≡ some x)
unfolding collect_members
In-collect_members held x u ok_at = (
  (λ i.
      let (k, y, g, h) = In-gather (λ (k : Bytes) (y : EntityId). some y) x held u i in
      ground (arith, ok_at k y g)),
  (λ h. gather-In (λ (k : Bytes) (y : EntityId). some y) x (to_string x) x held h refl),
)

new_memory-AreMembers : AreMembers new_memory
unfolding new_memory lookup
new_memory-AreMembers = record {
  one_member = λ key held h. ground arith;
  member_ok = λ key k held x h g. ground arith;
}

-- After any history of calls with valid identifiers, the listing of a space holds exactly the members
-- that a call has recorded there, in the order of the identifiers.
pub list_members-store_run :
    (cs : List StoreCall) (space x : EntityId)
    → AreNamed cs
    → IsValid space
    → IsValid x
    → (In x (list_members (store_run new_memory cs) space) ↔ Belongs cs space x)
      × IsSorted id_before (list_members (store_run new_memory cs) space)
unfolding list_members new_memory lookup members_of
list_members-store_run cs space x v w y =
    let m = store_run new_memory cs in
    let (iff, f) = run-Belongs new_memory cs space x v w y new_memory-AreMembers in
    let held = members_of m space in
    let at = member_of-IsValid m space in
    let found = sort-perm id_before (collect_members held) in
    let listed = In-collect_members held x (members_of-IsFunctional m space f) (λ k z. at k z f) in
    (
      (
        (λ i. ground (arith, iff.0 (listed.0 (In-perm x found i)))),
        (λ b. In-perm x (Permᴰ.symm found) (listed.1 (iff.1 (inr b)))),
      ),
      sort-IsSorted id_before-IsStrictOn (collect_members held) (
          All-of_In IsValid _ (λ z i.
            (at (to_string z) z f (
              (In-collect_members held z (members_of-IsFunctional m space f) (λ k a. at k a f)).0
                i)).1)),
    )
