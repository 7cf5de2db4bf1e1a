-- ===== src/Logging/Recorded.antt =====
-- What a record of internal/logging/logging.go says, and that no value of a field can say more.
use stammtisch.Prelude.{
  ◌≡◌, ◌≢◌, ◌↔◌, ◌⊎◌, inl, inr, sym, subst, ℕ, ◌≤◌, ◌==◌, Bool, true, List, [], ◌∷◌, ◌++◌, some, ok,
  arith, In, All-In, All, All-append, Option-cases, Result-cases, Bool-cases,
}
use stammtisch.Prelude.Int.{ℤ, pos, negsuc}
use stammtisch.Prelude.Bytes.{Bytes, bytes, is_empty, split}
use stammtisch.Prelude.Decimal.{itoa, itoa_least, itoa-negative_least}
use stammtisch.Prelude.Map.{FinMap, lookup, insert, lookup-insert}
use stammtisch.Orchestration.Clock.{Time, Duration}
use stammtisch.Logging.{
  Identifier, check_part, cut_at, identifier_of, new_identifier, Event, event_name, LogKey, log_key,
  declared_keys, LogField, identifier_field, space, channel, member, client, version, count, held,
  milliseconds, add_field, add_fields, write_keys, line_of, Log, record_given, record_event,
}
use stammtisch.Logging.Lines.{
  IsToken, AreTokens, IsOneLine, entries_of, line-split, write_keys-IsOneLine,
}

-- A field that a constructor returned, for an identifier that its constructor returned.
abbrev pub IsMade : (Bytes → Bool) → LogField → Type 0
IsMade prints f =
    ((s : Bytes) × (id : Identifier) × (new_identifier prints s ≡ ok id)
      × ((f ≡ space id) ⊎ ((f ≡ channel id) ⊎ ((f ≡ member id) ⊎ (f ≡ client id)))))
    ⊎ (((v : ℕ) × (f ≡ version v)) ⊎ (((n : ℤ) × (f ≡ count n)) ⊎ ((d : Duration) × (f ≡ held d))))

IsToken-of_digits : (s : Bytes) → All (λ b. b'-' ≤ b) s → IsToken s
IsToken-of_digits [] h = tt
IsToken-of_digits (b ∷ s) h = ((ground (arith, h.0), ground (arith, h.0)), IsToken-of_digits s h.1)

weaken : (s : Bytes) → All (λ b. b'0' ≤ b) s → All (λ b. b'-' ≤ b) s
weaken [] h = tt
weaken (b ∷ s) h = (omega (arith, h.0), weaken s h.1)

itoa-IsToken : (n : ℤ) → IsToken (itoa n)
itoa-IsToken (pos n) = IsToken-of_digits (itoa (pos n)) (weaken (itoa (pos n)) (itoa_least n))
itoa-IsToken (negsuc n) = IsToken-of_digits (itoa (negsuc n)) (itoa-negative_least n)

cut_at-eq_some : (s local host : Bytes) → cut_at s ≡ some (local, host) → s ≡ local ++ b'@' ∷ host
unfolding cut_at
cut_at-eq_some [] local host h = ground (arith, h)
cut_at-eq_some (b ∷ s) local host h = elim (Option-cases (cut_at s)) [
  | inl e ↦ ground (arith, h, e)
  | inr ((l, r), e) ↦ ground (arith, h, e, cut_at-eq_some s l r e)
]

new_identifier-IsToken :
    (prints : Bytes → Bool) (s : Bytes) (id : Identifier)
    → ((t : Bytes) → prints t ≡ true → IsToken t)
    → new_identifier prints s ≡ ok id
    → IsToken id.text
unfolding new_identifier identifier_of check_part
new_identifier-IsToken prints s id p h = elim (Option-cases (cut_at s)) [
  | inl e ↦ ground (arith, h, e)
  | inr ((local, host), e) ↦
      let same : id.text ≡ local ++ b'@' ∷ host =
        ground (arith, h, e, cut_at-eq_some s local host e) in
      let first : prints local ≡ true = ground (arith, h, e) in
      let second : prints host ≡ true = ground (arith, h, e) in
      subst IsToken (sym same) (
        All-append (λ b. (b ≢ 32) × (b ≢ 10)) local (b'@' ∷ host) (p local first)
          ((ground arith, ground arith), p host second))
]

identifier_field-IsToken :
    (k : LogKey) (id : Identifier) → IsToken id.text → IsToken (identifier_field k id).v
unfolding identifier_field
identifier_field-IsToken k id h = elim (Bool-cases (is_empty id.text)) [
  | inl e ↦ rw e tt
  | inr e ↦ rw e h
]

held-IsToken : (d : Duration) → IsToken (held d).v
unfolding held
held-IsToken d =
    All-append (λ b. (b ≢ 32) × (b ≢ 10)) (itoa (milliseconds d)) (bytes "ms")
      (itoa-IsToken (milliseconds d)) (ground arith)

made-IsToken :
    (prints : Bytes → Bool) (f : LogField)
    → ((t : Bytes) → prints t ≡ true → IsToken t)
    → IsMade prints f
    → IsToken f.v
unfolding space channel member client version count
made-IsToken prints f p (inl (s, id, h, which)) =
    let whole = new_identifier-IsToken prints s id p h in
    elim which [
      | inl e ↦ subst (λ x. IsToken x.v) (sym e) (identifier_field-IsToken 3 id whole)
      | inr (inl e) ↦ subst (λ x. IsToken x.v) (sym e) (identifier_field-IsToken 4 id whole)
      | inr (inr (inl e)) ↦ subst (λ x. IsToken x.v) (sym e) (identifier_field-IsToken 5 id whole)
      | inr (inr (inr e)) ↦ subst (λ x. IsToken x.v) (sym e) (identifier_field-IsToken 6 id whole)
    ]
made-IsToken prints f p (inr (inl (v, e))) = subst (λ x. IsToken x.v) (sym e) (itoa-IsToken (pos v))
made-IsToken prints f p (inr (inr (inl (n, e)))) = subst (λ x. IsToken x.v) (sym e) (itoa-IsToken n)
made-IsToken prints f p (inr (inr (inr (d, e)))) = subst (λ x. IsToken x.v) (sym e) (held-IsToken d)

-- The loop over the fields keeps each of them under its key.
add_fields-lookup :
    (given last : FinMap LogKey Bytes) (fields : List LogField) (k : LogKey) (v : Bytes)
    → add_fields given fields ≡ ok last
    → (lookup k last ≡ some v) ↔ ((lookup k given ≡ some v) ⊎ In (record { k = k; v = v }) fields)
unfolding add_fields add_field
add_fields-lookup given last [] k v h = ground (arith, h)
add_fields-lookup given last (f ∷ fields) k v h = elim (Option-cases (lookup f.k given)) [
  | inr (w, e) ↦ ground (arith, h, e)
  | inl e ↦
      let next = insert f.k f.v given in
      let rest : add_fields next fields ≡ ok last = ground (arith, h, e) in
      ground (arith, e, lookup-insert k f.k f.v given, add_fields-lookup next last fields k v rest)
]

insert-AreTokens :
    (k : LogKey) (v : Bytes) (given : FinMap LogKey Bytes)
    → IsToken v
    → AreTokens given
    → AreTokens (insert k v given)
insert-AreTokens k v given t all j w h = elim (Bool-cases (k == j)) [
  | inl e ↦ subst IsToken (ground (arith, h, e, lookup-insert j k v given)) t
  | inr e ↦ all j w (ground (arith, h, e, lookup-insert j k v given))
]

-- The fields that were given.
fields-AreTokens :
    (prints : Bytes → Bool) (fields : List LogField) (base : FinMap LogKey Bytes)
    → ((t : Bytes) → prints t ≡ true → IsToken t)
    → All (IsMade prints) fields
    → add_fields [] fields ≡ ok base
    → AreTokens base
unfolding lookup
fields-AreTokens prints fields base p m r k v h =
    let given : In (record { k = k; v = v }) fields =
      ground (arith, h, add_fields-lookup [] base fields k v r) in
    made-IsToken prints _ p (All-In (IsMade prints) fields _ m given)

event_name-IsToken : (e : Event) → IsToken (event_name e)
unfolding event_name
event_name-IsToken e = ground arith

-- A record of fields that the constructors made is written as one line, whatever the identifiers in it
-- are. Taken apart at its spaces, the line is an entry for the time, an entry for the event and an entry
-- for each field that was given, in the order in which the keys are declared, and nothing else.
pub record_event-line :
    (prints : Bytes → Bool) (stamp : Time → Bytes) (now : Time) (l l' : Log) (e : Event)
    (fields : List LogField)
    → ((t : Bytes) → prints t ≡ true → IsToken t)
    → IsToken (stamp now)
    → All (IsMade prints) fields
    → record_event stamp now l e fields ≡ (l', ok tt)
    → (line : Bytes) × (given : FinMap LogKey Bytes) × (l'.written ≡ l.written ++ (line ++ 10 ∷ []))
      × IsOneLine line
      × (split 32 line ≡ entries_of given declared_keys)
      × (lookup 1 given ≡ some (stamp now))
      × (lookup 2 given ≡ some (event_name e))
      × ((k : LogKey) (v : Bytes)
          → k ≢ 1
          → k ≢ 2
          → (lookup k given ≡ some v) ↔ In (record { k = k; v = v }) fields)
unfolding record_event record_given line_of lookup
record_event-line prints stamp now l l' e fields p s m h =
    elim (Result-cases (add_fields [] fields)) [
      | inr (x, r) ↦ ground (arith, h, r)
      | inl (base, r) ↦
          let stamped = insert 1 (stamp now) base in
          let given = insert 2 (event_name e) stamped in
          let named = event_name-IsToken e in
          let found = λ (k : LogKey) (v : Bytes). add_fields-lookup [] base fields k v r in
          let tokens : AreTokens given =
            insert-AreTokens 2 (event_name e) stamped named
              (insert-AreTokens 1 (stamp now) base s (fields-AreTokens prints fields base p m r)) in
          let at : lookup 1 given ≡ some (stamp now) =
            ground (
              arith,
              lookup-insert 1 1 (stamp now) base,
              lookup-insert 1 2 (event_name e) stamped,
            ) in
          (
            write_keys given declared_keys [],
            given,
            ground (arith, h, r),
            write_keys-IsOneLine given declared_keys [] tokens tt,
            line-split given (stamp now) tokens at,
            at,
            ground (arith, lookup-insert 2 2 (event_name e) stamped),
            (λ k v n1 n2. ground (
              arith,
              found k v,
              n1,
              n2,
              lookup-insert k 1 (stamp now) base,
              lookup-insert k 2 (event_name e) stamped,
            )),
          )
    ]
