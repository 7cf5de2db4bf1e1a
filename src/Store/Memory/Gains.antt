-- ===== src/Store/Memory/Gains.antt =====
-- The gains of internal/store/memory.go.
use stammtisch.Prelude.{
  is_ok, ◌↔◌, ◌≡◌, ◌≢◌, refl, ap, true, false, ◌&&◌, List, [], ◌∷◌, some, ok, arith, inl, inr,
  holds, if◌then◌else◌, Option-cases,
}
use stammtisch.Prelude.Int.{ℤ, ◌≤ℤ◌}
use stammtisch.Prelude.Map.{◌≟◌, lookup, lookup-insert, lookup-delete}
use stammtisch.Orchestration.EntityId.{EntityId, id_key, is_zero}
use stammtisch.Orchestration.EntityId.Order.{IsIdent, to_string-injective_ident}
use stammtisch.Store.{default_gain, min_gain, max_gain, check_gain, check_pair}
use stammtisch.Store.Memory.{
  GainKey, gain_key, Memory, new_memory, gain_of, set_gain, get_gain, StoreCall, puts_channel,
  puts_member, grants_to, sets_gain, store_step, store_run, put_channel, put_member, grant,
}

gain_of-injective :
    (a b c d : EntityId)
    → IsIdent a
    → IsIdent b
    → IsIdent c
    → IsIdent d
    → gain_of a b ≡ gain_of c d
    → (a ≡ c) × (b ≡ d)
gain_of-injective a b c d v w x y e = (
  to_string-injective_ident a c v x (ap (λ (k : GainKey). k.listener) e),
  to_string-injective_ident b d w y (ap (λ (k : GainKey). k.speaker) e),
)

gain_of-same : (a b c d : EntityId) → a ≡ c → b ≡ d → gain_of a b ≡ gain_of c d
gain_of-same a b c d e f = cc

-- A setting that is accepted is the one that is read for that listener and that speaker, the default
-- included, and no other pair's setting moves.
pub get_gain-set_gain :
    (m n : Memory) (a b c d : EntityId) (percent : ℤ)
    → IsIdent a
    → IsIdent b
    → IsIdent c
    → IsIdent d
    → set_gain m a b percent ≡ ok n
    → get_gain n c d ≡ (if holds (a ≟ c) && holds (b ≟ d) then percent else get_gain m c d)
unfolding set_gain get_gain
get_gain-set_gain m n a b c d percent v w x y h = ground (
  arith,
  lookup-insert (gain_of c d) (gain_of a b) percent m.gains,
  lookup-delete (gain_of c d) (gain_of a b) m.gains,
  gain_of-injective a b c d v w x y,
  gain_of-same a b c d,
)

-- A setting is accepted exactly for two named identifiers and a gain within the range.
pub set_gain_iff :
    (m : Memory) (a b : EntityId) (percent : ℤ)
    → (is_ok (set_gain m a b percent) ≡ true)
      ↔ ((is_zero a ≡ false) × (is_zero b ≡ false) × (min_gain ≤ℤ percent) × (percent ≤ℤ max_gain))
unfolding set_gain check_pair check_gain
set_gain_iff m a b percent = ground arith

-- Every row is within the range, and none holds the default.
abbrev pub AreRanged : Memory → Type 0
AreRanged m =
    (k : GainKey) (v : ℤ)
    → lookup k m.gains ≡ some v
    → (min_gain ≤ℤ v) × (v ≤ℤ max_gain) × (v ≢ default_gain)

step-AreRanged : (m : Memory) (c : StoreCall) → AreRanged m → AreRanged (store_step m c)
unfolding store_step put_channel put_member grant set_gain check_pair check_gain
step-AreRanged m (puts_channel c) r k v h = ground (arith, r k v)
step-AreRanged m (puts_member space member) r k v h = ground (arith, r k v)
step-AreRanged m (grants_to q t ps) r k v h = ground (arith, r k v)
step-AreRanged m (sets_gain a b percent) r k v h = ground (
  arith,
  r k v,
  lookup-insert k (gain_of a b) percent m.gains,
  lookup-delete k (gain_of a b) m.gains,
)

run-AreRanged : (m : Memory) (cs : List StoreCall) → AreRanged m → AreRanged (store_run m cs)
unfolding store_run
run-AreRanged m [] r = r
run-AreRanged m (c ∷ cs) r = run-AreRanged (store_step m c) cs (step-AreRanged m c r)

new_memory-AreRanged : AreRanged new_memory
unfolding new_memory lookup
new_memory-AreRanged k v h = ground arith

-- After any history of calls, every gain that is read is 0 to 200 percent, and no row of the store
-- holds the default.
pub get_gain-le-max_gain :
    (cs : List StoreCall) (a b : EntityId)
    → (min_gain ≤ℤ get_gain (store_run new_memory cs) a b)
      × (get_gain (store_run new_memory cs) a b ≤ℤ max_gain)
      × ((k : GainKey) → lookup k (store_run new_memory cs).gains ≢ some default_gain)
unfolding get_gain
get_gain-le-max_gain cs a b =
    let m = store_run new_memory cs in
    let r = run-AreRanged new_memory cs new_memory-AreRanged in
    elim (Option-cases (lookup (gain_of a b) m.gains)) [
      | inl e ↦ (ground arith, ground arith, (λ k h. (r k default_gain h).2 refl))
      | inr (v, e) ↦ (
        ground (arith, r (gain_of a b) v e),
        ground (arith, r (gain_of a b) v e),
        (λ k h. (r k default_gain h).2 refl),
      )
    ]
