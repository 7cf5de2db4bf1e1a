-- ===== src/Orchestration/EntityId/RoundTrip.antt =====
-- `String` and `ParseID` of internal/orchestration/id.go, against each other.
use stammtisch.Prelude.{
  ap, sym, ◌∙◌, ◌≡◌, ◌≢◌, ◌<◌, ◌↔◌, false, [], ◌∷◌, ◌++◌, some, ok, arith, Option-cases, inl, inr,
  All,
}
use stammtisch.Prelude.Bytes.{Bytes}
use stammtisch.Orchestration.EntityId.{
  EntityId, IsPart, IsValid, check_id_part, contains_at, has_control, new_id, cut, parse_id,
  to_string,
}

contains_at-of_part :
    (s : Bytes)
    → All (λ b. (b ≢ b'@') × (32 < b) × (b ≢ 127)) s
    → (contains_at s ≡ false) × (has_control s ≡ false)
unfolding contains_at has_control
contains_at-of_part [] h = ground arith
contains_at-of_part (b ∷ s) h = ground (arith, contains_at-of_part s)

part-of_tests :
    (s : Bytes)
    → contains_at s ≡ false
    → has_control s ≡ false
    → All (λ b. (b ≢ b'@') × (32 < b) × (b ≢ 127)) s
unfolding contains_at has_control
part-of_tests [] h k = tt
part-of_tests (b ∷ s) h k = ground (arith, part-of_tests s)

-- A part is accepted exactly when it is not empty and holds no separator, space or control byte.
pub check_id_part_iff : (s : Bytes) → (check_id_part s ≡ ok tt) ↔ IsPart s
unfolding check_id_part
check_id_part_iff [] = ground arith
check_id_part_iff (b ∷ s) = ground (arith, contains_at-of_part (b ∷ s), part-of_tests (b ∷ s))

new_id_valid :
    (local host : Bytes)
    → IsPart local
    → IsPart host
    → new_id local host ≡ ok (record { local = local; host = host })
unfolding new_id
new_id_valid local host h k = ground (arith, check_id_part_iff local, check_id_part_iff host)

new_id-eq_ok :
    (local host : Bytes) (id : EntityId)
    → new_id local host ≡ ok id
    → (id ≡ record { local = local; host = host }) × IsPart local × IsPart host
unfolding new_id
new_id-eq_ok local host id h = ground (arith, check_id_part_iff local, check_id_part_iff host)

cut-part :
    (local rest : Bytes)
    → contains_at local ≡ false
    → cut (local ++ b'@' ∷ rest) ≡ some (local, rest)
unfolding cut contains_at
cut-part [] rest h = ground arith
cut-part (b ∷ local) rest h = ground (arith, cut-part local rest)

cut-eq_some :
    (s : Bytes) {local rest : Bytes} → cut s ≡ some (local, rest) → s ≡ local ++ b'@' ∷ rest
unfolding cut
cut-eq_some [] h = ground arith
cut-eq_some (b ∷ s) {local} {rest} h = elim (Option-cases (cut s)) [
  | inl e ↦ ground arith
  | inr ((l, r), e) ↦ ground (arith, cut-eq_some s e)
]

-- A valid identifier, printed and parsed, is the identifier again.
pub parse_id-to_string : (id : EntityId) → IsValid id → parse_id (to_string id) ≡ ok id
unfolding parse_id to_string
parse_id-to_string id v = ground (
  arith,
  contains_at-of_part id.local,
  cut-part id.local id.host,
  new_id_valid id.local id.host v.local_part v.host_part,
)

-- What the parser accepts is the print of its result, which is valid.
pub to_string-parse_id :
    (s : Bytes) (id : EntityId) → parse_id s ≡ ok id → (to_string id ≡ s) × IsValid id
unfolding parse_id to_string
to_string-parse_id s id h = elim (Option-cases (cut s)) [
  | inl e ↦ ground arith
  | inr ((l, r), e) ↦ ground (arith, cut-eq_some s e, new_id-eq_ok l r id)
]

-- A string parses to an identifier exactly where it is the print of that identifier, and the identifier
-- is valid.
pub parse_id_iff :
    (s : Bytes) (id : EntityId) → (parse_id s ≡ ok id) ↔ ((to_string id ≡ s) × IsValid id)
parse_id_iff s id =
    (to_string-parse_id s id, λ (e, v). ap parse_id (sym e) ∙ parse_id-to_string id v)
