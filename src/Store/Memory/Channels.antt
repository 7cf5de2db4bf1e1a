-- ===== src/Store/Memory/Channels.antt =====
-- The channels of internal/store/memory.go, and their listing.
use mathlib.Core.List.Permᴰ
use stammtisch.Prelude.{
  ◌≡◌, ◌↔◌, sym, ap, ◌∙◌, List, [], ◌∷◌, some, ok, arith, holds, if◌then◌else◌, In, In-perm,
  All-of_In, subst,
}
use stammtisch.Prelude.Bytes.{Bytes, bytes_key}
use stammtisch.Prelude.Map.{
  ◌≟◌, lookup, insert, IsFunctional, lookup-insert, insert-IsFunctional, In-gather, gather-In,
}
use stammtisch.Prelude.Sort.{IsSorted, IsStrictOn}
use stammtisch.Prelude.Sort.Laws.{sort-perm, sort-IsSorted}
use stammtisch.Orchestration.EntityId.{EntityId, IsValid, id_key, to_string}
use stammtisch.Orchestration.EntityId.Order.{
  IsIdent, to_string-injective_ident, id_before-IsStrictOn,
}
use stammtisch.Orchestration.Domain.{Channel}
use stammtisch.Store.Memory.{
  Memory, new_memory, put_channel, get_channel, found_or, channel_before, collect_channels,
  channels_in_space, put_member, grant, set_gain, StoreCall, puts_channel, puts_member, grants_to,
  sets_gain, store_step, store_run,
}

-- A channel that is written is read back under its identifier, and no other channel is touched.
pub get_channel-put_channel :
    (m n : Memory) (c : Channel) (id : EntityId)
    → IsIdent c.id
    → IsIdent id
    → put_channel m (some c) ≡ ok n
    → get_channel n id ≡ (if holds (c.id ≟ id) then ok c else get_channel m id)
unfolding put_channel get_channel
get_channel-put_channel m n c id v w h = ground (
  arith,
  lookup-insert (to_string id) (to_string c.id) c m.channels,
  to_string-injective_ident c.id id v w,
)

-- The channels and the members that a history of calls writes have valid identifiers.
abbrev pub AreNamed : List StoreCall → Type 0
AreNamed [] = Unit
AreNamed (puts_channel c ∷ cs) = IsValid c.id × AreNamed cs
AreNamed (puts_member space member ∷ cs) = IsValid space × IsValid member × AreNamed cs
AreNamed (_ ∷ cs) = AreNamed cs

-- A channel stands under its own printed identifier, which is valid.
record AreFiled (m : Memory) : Type 0 where
  one_channel : IsFunctional m.channels
  channel_ok :
      (k : Bytes) (c : Channel) → lookup k m.channels ≡ some c → (to_string c.id ≡ k) × IsValid c.id

pub AreNamed-cons :
    (c : StoreCall) (cs : List StoreCall) → AreNamed (c ∷ cs) → AreNamed (c ∷ []) × AreNamed cs
AreNamed-cons (puts_channel c) cs v = ((v.0, tt), v.1)
AreNamed-cons (puts_member space member) cs v = ((v.0, v.1, tt), v.2)
AreNamed-cons _ cs v = (tt, v)

put-AreFiled :
    (m : Memory) (c : Channel)
    → IsValid c.id
    → AreFiled m
    → AreFiled (record m { channels = insert (to_string c.id) c m.channels })
put-AreFiled m c v f = record {
  one_channel = insert-IsFunctional (to_string c.id) c m.channels f.one_channel;
  channel_ok =
      λ k d h. ground (arith, lookup-insert k (to_string c.id) c m.channels, f.channel_ok k d);
}

kept-AreFiled : (m n : Memory) → n.channels ≡ m.channels → AreFiled m → AreFiled n
kept-AreFiled m n e f = record {
  one_channel = subst IsFunctional (sym e) f.one_channel;
  channel_ok = λ k c h. f.channel_ok k c (ap (lookup k) (sym e) ∙ h);
}

step-AreFiled :
    (m : Memory) (c : StoreCall) → AreNamed (c ∷ []) → AreFiled m → AreFiled (store_step m c)
unfolding store_step put_channel put_member grant set_gain
step-AreFiled m (puts_channel c) v f = put-AreFiled m c v.0 f
step-AreFiled m (puts_member space member) v f = kept-AreFiled m _ (ground arith) f
step-AreFiled m (grants_to q t ps) v f = kept-AreFiled m _ (ground arith) f
step-AreFiled m (sets_gain a b percent) v f = kept-AreFiled m _ (ground arith) f

run-AreFiled :
    (m : Memory) (cs : List StoreCall) → AreNamed cs → AreFiled m → AreFiled (store_run m cs)
unfolding store_run
run-AreFiled m [] v f = f
run-AreFiled m (c ∷ cs) v f =
    let (now, later) = AreNamed-cons c cs v in
    run-AreFiled (store_step m c) cs later (step-AreFiled m c now f)

new_memory-AreFiled : AreFiled new_memory
unfolding new_memory lookup
new_memory-AreFiled = record { one_channel = tt; channel_ok = λ k c h. ground arith }

channel_before-IsStrictOn :
    (m : Memory)
    → AreFiled m
    → IsStrictOn (λ c. lookup (to_string c.id) m.channels ≡ some c) channel_before
unfolding channel_before
channel_before-IsStrictOn m f = record {
  asym = λ c d. id_before-IsStrictOn.asym c.id d.id;
  trans = λ c d e. id_before-IsStrictOn.trans c.id d.id e.id;
  connected = λ c d v w h k.
      let same =
        id_before-IsStrictOn.connected c.id d.id (f.channel_ok _ c v).1 (f.channel_ok _ d w).1 h
          k in
      ground (arith, v, w, same);
}

In-collect_channels :
    (m : Memory) (space : EntityId) (c : Channel)
    → AreFiled m
    → In c (collect_channels space m.channels)
      ↔ ((lookup (to_string c.id) m.channels ≡ some c) × (c.space ≡ space))
unfolding collect_channels
In-collect_channels m space c f = (
  (λ i.
      let (k, d, g, h) = In-gather _ c m.channels f.one_channel i in
      ground (arith, f.channel_ok k d g)),
  (λ h. gather-In _ c (to_string c.id) c m.channels h.0 (ground (arith, h.1))),
)

-- After any history of calls with valid identifiers, the listing of a space holds exactly the channels
-- of that space that are read back under their identifiers, in the order of the identifiers.
pub channels_in_space-store_run :
    (cs : List StoreCall) (space : EntityId) (c : Channel)
    → AreNamed cs
    → (In c (channels_in_space (store_run new_memory cs) space)
        ↔ ((get_channel (store_run new_memory cs) c.id ≡ ok c) × (c.space ≡ space)))
      × IsSorted channel_before (channels_in_space (store_run new_memory cs) space)
unfolding channels_in_space get_channel found_or
channels_in_space-store_run cs space c v =
    let m = store_run new_memory cs in
    let f = run-AreFiled new_memory cs v new_memory-AreFiled in
    let found = sort-perm channel_before (collect_channels space m.channels) in
    let iff = In-collect_channels m space c f in
    (
      (
        (λ i. ground (arith, iff.0 (In-perm c found i))),
        (λ h. In-perm c (Permᴰ.symm found) (iff.1 (ground (arith, h.0), h.1))),
      ),
      sort-IsSorted (channel_before-IsStrictOn m f) (collect_channels space m.channels)
          (All-of_In _ _ (λ d i. ((In-collect_channels m space d f).0 i).0)),
    )
