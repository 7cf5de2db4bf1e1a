-- ===== src/Store/Memory.antt =====
-- internal/store/memory.go. A method that changes the store returns the new one; where it fails it
-- returns the error alone, and the store is the one before. In Go the stored channel is the caller's
-- own pointer; a write through it is a `put_channel` of the changed value here. The lock guards each
-- method as a whole, and the context is not read, so both are left out.
pub mod Grants
pub mod Gains
pub mod Channels
pub mod Members
mod Examples
use stammtisch.Prelude.{
  ℕ, ◌≡◌, Bool, true, false, not, ◌||◌, List, [], ◌∷◌, Option, none, some, Result, ok, err, ◌>>=◌,
  ◌>>◌, fail_if, holds, is_some, if◌then◌else◌,
}
use stammtisch.Prelude.Int.{ℤ, pos, ℤ-discrete}
use stammtisch.Prelude.Bytes.{Bytes, Bytes-discrete, bytes_key}
use stammtisch.Prelude.Map.{Key, FinMap, ◌≟◌, lookup, insert, delete, gather}
use stammtisch.Prelude.Sort.{sort}
use stammtisch.Orchestration.EntityId.{EntityId, id_key, is_zero, to_string, id_before}
use stammtisch.Orchestration.Domain.{Channel}
use stammtisch.Orchestration.Permission.{
  Permission, permissions, permission_name, Principal, Subject, PermissionSet, new_permission_set,
}
use stammtisch.Store.{
  StoreError, not_found, invalid, default_gain, parse_permission, check_gain, check_pair,
  subject_channel,
}

pub record GrantKey : Type 0 where
  pub principal : Bytes
  pub space : Bytes
  pub channel : Bytes
  pub permission : Bytes

pub record GainKey : Type 0 where
  pub listener : Bytes
  pub speaker : Bytes

unfoldable pub GrantKey-discrete : Discrete GrantKey
GrantKey-discrete = hlevel Bytes-discrete

unfoldable pub GainKey-discrete : Discrete GainKey
GainKey-discrete = hlevel Bytes-discrete

instance abbrev pub grant_key : Key GrantKey
grant_key = record { same = GrantKey-discrete }

instance abbrev pub gain_key : Key GainKey
gain_key = record { same = GainKey-discrete }

-- The members of a space stand under its printed identifier, each under their own.
pub record Memory : Type 0 where
  pub channels : FinMap Bytes Channel
  pub members : FinMap Bytes (FinMap Bytes EntityId)
  pub grants : FinMap GrantKey (Unit {0})
  pub gains : FinMap GainKey ℤ

pub new_memory : Memory
new_memory = record { channels = []; members = []; grants = []; gains = [] }

pub put_channel : Memory → Option Channel → Result StoreError Memory
put_channel m none = err invalid
put_channel m (some c) = ok (record m { channels = insert (to_string c.id) c m.channels })

found_or : Option Channel → Result StoreError Channel
found_or none = err not_found
found_or (some c) = ok c

pub get_channel : Memory → EntityId → Result StoreError Channel
unfolding found_or
get_channel m id = found_or (lookup (to_string id) m.channels)

pub channel_before : Channel → Channel → Bool
channel_before c d = id_before c.id d.id

collect_channels : EntityId → FinMap Bytes Channel → List Channel
unfolding gather
collect_channels space = gather (λ key c. if holds (c.space ≟ space) then some c else none)

pub channels_in_space : Memory → EntityId → List Channel
unfolding collect_channels
channels_in_space m space = sort channel_before (collect_channels space m.channels)

-- `m.members[space]`, where a missing map reads as an empty one.
pub members_of : Memory → EntityId → FinMap Bytes EntityId
members_of m space = elim (lookup (to_string space) m.members) [ none ↦ [] | some held ↦ held ]

pub put_member : Memory → EntityId → EntityId → Result StoreError Memory
put_member m space member = do
  check_pair space member
  let held = insert (to_string member) member (members_of m space)
  ok (record m { members = insert (to_string space) held m.members })

collect_members : FinMap Bytes EntityId → List EntityId
unfolding gather
collect_members = gather (λ key member. some member)

pub list_members : Memory → EntityId → List EntityId
unfolding collect_members
list_members m space = sort id_before (collect_members (members_of m space))

abbrev pub key_of : EntityId → Subject → Permission → GrantKey
key_of principal subject p = record {
  principal = to_string principal;
  space = to_string subject.space;
  channel = subject_channel subject;
  permission = permission_name p;
}

-- The two loops of `Grant`: every permission is checked before any is written.
check_granted : List Permission → Result StoreError (Unit {0})
check_granted [] = ok tt
check_granted (p ∷ granted) =
    let later = check_granted granted in (parse_permission (permission_name p) >>= λ known. later)

write_granted :
    EntityId → Subject → List Permission → FinMap GrantKey (Unit {0}) → FinMap GrantKey (Unit {0})
write_granted principal subject [] grants = grants
write_granted principal subject (p ∷ granted) grants =
    write_granted principal subject granted (insert (key_of principal subject p) tt grants)

pub grant : Memory → EntityId → Subject → List Permission → Result StoreError Memory
unfolding check_granted write_granted
grant m principal subject granted = do
  fail_if (is_zero principal) invalid
  fail_if (is_zero subject.space) invalid
  check_granted granted
  ok (record m { grants = write_granted principal subject granted m.grants })

-- The loop of `Granted` over the declared permissions.
held_of : Memory → EntityId → Subject → List Permission → List Permission
held_of m principal subject [] = []
held_of m principal subject (p ∷ rest) =
    let later = held_of m principal subject rest in
    if is_some (lookup (key_of principal subject p) m.grants) then p ∷ later else later

pub granted : Memory → Principal → Subject → PermissionSet
unfolding held_of
granted m p s = new_permission_set (held_of m p.id s permissions)

abbrev pub gain_of : EntityId → EntityId → GainKey
gain_of listener speaker = record { listener = to_string listener; speaker = to_string speaker }

pub set_gain : Memory → EntityId → EntityId → ℤ → Result StoreError Memory
set_gain m listener speaker percent = do
  check_pair listener speaker
  check_gain percent
  ok (record m {
    gains =
        (if holds (ℤ-discrete percent default_gain)
          then delete (gain_of listener speaker) m.gains
          else insert (gain_of listener speaker) percent m.gains);
  })

pub get_gain : Memory → EntityId → EntityId → ℤ
get_gain m listener speaker = elim (lookup (gain_of listener speaker) m.gains) [
  | none ↦ default_gain
  | some percent ↦ percent
]

-- A call that may change the store, and the store after it: where it is refused, the one before.
pub data StoreCall : Type 0 where
  puts_channel : Channel → StoreCall
  puts_member : EntityId → EntityId → StoreCall
  grants_to : EntityId → Subject → List Permission → StoreCall
  sets_gain : EntityId → EntityId → ℤ → StoreCall

abbrev kept_store : Memory → Result StoreError Memory → Memory
kept_store m (ok n) = n
kept_store m (err e) = m

pub store_step : Memory → StoreCall → Memory
store_step m (puts_channel c) = kept_store m (put_channel m (some c))
store_step m (puts_member space member) = kept_store m (put_member m space member)
store_step m (grants_to principal subject granted) =
    kept_store m (grant m principal subject granted)
store_step m (sets_gain listener speaker percent) =
    kept_store m (set_gain m listener speaker percent)

pub store_run : Memory → List StoreCall → Memory
store_run m [] = m
store_run m (c ∷ cs) = store_run (store_step m c) cs
