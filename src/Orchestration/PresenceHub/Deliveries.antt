-- ===== src/Orchestration/PresenceHub/Deliveries.antt =====
-- The loop of `Flush` of internal/orchestration/presence_hub.go over the attached clients.
use stammtisch.Prelude.{
  ◌≡◌, ◌≢◌, refl, subst, sym, ap, ◌∙◌, true, false, List, [], ◌∷◌, some, arith, inl, inr, ◌⊎◌, In,
  IsDistinct, map, is_some, if◌then◌else◌, Option-cases, Bool-cases,
}
use stammtisch.Prelude.Bytes.{Bytes, bytes_key}
use stammtisch.Prelude.Map.{lookup}
use stammtisch.Orchestration.EntityId.{EntityId, id_key}
use stammtisch.Orchestration.PresenceHub.{
  Delivery, Client, Hub, changed, message_from, no_message, message_for, is_empty_message, deliver,
  flush,
}
use stammtisch.Orchestration.PresenceHub.Invariant.{IsWellFormed}

-- A delivery is the message of an attached client, and says something.
pub record IsDue (h : Hub) (d : Delivery) (c : Client) : Type 0 where
  pub client_of : lookup d.client h.clients ≡ some c
  pub message_of : d.message ≡ message_for h c
  pub not_empty : is_empty_message d.message ≡ false

-- What a loop over clients delivers: at most one message to each, in order, and all that is due.
abbrev Delivers : Hub → List Bytes → List Delivery → Type 0
Delivers h ids out =
    IsDistinct (map (λ d. d.client) out)
    × ((d : Delivery) → In d out → In d.client ids × ((c : Client) × IsDue h d c))
    × ((d : Delivery) (c : Client) → In d.client ids → IsDue h d c → In d out)

no_client :
    (out : List Delivery) (id : Bytes)
    → ((d : Delivery) → In d out → d.client ≢ id)
    → ¬ In id (map (λ d. d.client) out)
no_client [] id h i = i
no_client (d ∷ out) id h (inl e) = h d (inl refl) (sym e)
no_client (d ∷ out) id h (inr i) = no_client out id (λ x k. h x (inr k)) i

-- One client is due at most one delivery.
IsDue-unique :
    (h : Hub) (d : Delivery) (b c : Client) (id : Bytes)
    → lookup id h.clients ≡ some c
    → d.client ≡ id
    → IsDue h d b
    → (d ≡ record { client = id; message = message_for h c })
      × (is_empty_message (message_for h c) ≡ false)
IsDue-unique h d b c id e i q =
    let same : b ≡ c = ground (arith, q.client_of) in
    let said = q.message_of ∙ ap (message_for h) same in
    (ground arith, sym (ap is_empty_message said) ∙ q.not_empty)

told_next :
    (h : Hub) (id : Bytes) (ids : List Bytes) (c : Client) (out : List Delivery)
    → ¬ In id ids
    → lookup id h.clients ≡ some c
    → is_empty_message (message_for h c) ≡ false
    → Delivers h ids out
    → Delivers h (id ∷ ids) (record { client = id; message = message_for h c } ∷ out)
told_next h id ids c out n e x (distinct, sound, full) = (
  (no_client out id (λ d i k. n (subst (λ y. In y ids) k (sound d i).0)), distinct),
  (λ d i. elim i [
    | inl f ↦ (
      inl (ap (λ y. y.client) f),
      (
        c,
        record {
          client_of = ap (λ y. lookup y.client h.clients) f ∙ e;
          message_of = ap (λ y. y.message) f;
          not_empty = ap (λ y. is_empty_message y.message) f ∙ x;
        },
      ),
    )
    | inr k ↦ (inr (sound d k).0, (sound d k).1)
  ]),
  (λ d b i q. elim i [
    | inl f ↦ inl (IsDue-unique h d b c id e f q).0
    | inr k ↦ inr (full d b k q)
  ]),
)

passed_next :
    (h : Hub) (id : Bytes) (ids : List Bytes) (c : Client) (out : List Delivery)
    → lookup id h.clients ≡ some c
    → is_empty_message (message_for h c) ≡ true
    → Delivers h ids out
    → Delivers h (id ∷ ids) out
passed_next h id ids c out e x (distinct, sound, full) = (
  distinct,
  (λ d i. (inr (sound d i).0, (sound d i).1)),
  (λ d b i q. elim i [
    | inl f ↦ ground (arith, IsDue-unique h d b c id e f q)
    | inr k ↦ full d b k q
  ]),
)

deliver_cons :
    (h : Hub) (id : Bytes) (ids : List Bytes) (c : Client) (out : List Delivery)
    → ¬ In id ids
    → lookup id h.clients ≡ some c
    → Delivers h ids out
    → Delivers h (id ∷ ids) (
        if is_empty_message (message_for h c)
        then out
        else record { client = id; message = message_for h c } ∷ out)
deliver_cons h id ids c out n e v = elim (Bool-cases (is_empty_message (message_for h c))) [
  | inl x ↦ rw x (passed_next h id ids c out e x v)
  | inr x ↦ rw x (told_next h id ids c out n e x v)
]

deliver_lem :
    (h : Hub) (ids : List Bytes)
    → IsDistinct ids
    → ((id : Bytes) → In id ids → is_some (lookup id h.clients) ≡ true)
    → (out : List Delivery) × (deliver h ids ≡ some out) × Delivers h ids out
unfolding deliver
deliver_lem h [] d known = ([], refl, (tt, (λ x i. absurd i), (λ x c i. absurd i)))
deliver_lem h (id ∷ ids) d known =
    let (out, e, v) = deliver_lem h ids d.1 (λ x i. known x (inr i)) in
    elim (Option-cases (lookup id h.clients)) [
      | inl f ↦ ground (arith, known id (inl refl))
      | inr (c, f) ↦ (
        (if is_empty_message (message_for h c)
            then out
            else record { client = id; message = message_for h c } ∷ out),
        ground (arith, e, f),
        deliver_cons h id ids c out d.0 f v,
      )
    ]

changed_nothing : (channels : List EntityId) → changed [] channels ≡ []
unfolding changed lookup
changed_nothing [] = refl
changed_nothing (c ∷ channels) = changed_nothing channels

-- Where nothing waits, no client is due anything.
message_for_nothing : (h : Hub) (c : Client) → h.pending ≡ [] → message_for h c ≡ no_message
unfolding message_for message_from
message_for_nothing h c e =
    ap (λ p. message_from h c (changed p h.channels) no_message) e
    ∙ ap (λ l. message_from h c l no_message) (changed_nothing h.channels)

nothing-IsDue : (h : Hub) (d : Delivery) (c : Client) → h.pending ≡ [] → ¬ IsDue h d c
unfolding is_empty_message
nothing-IsDue h d c e q = ground (arith, q.message_of, q.not_empty, message_for_nothing h c e)

pub List-cases :
    {A : Type 0} (xs : List A) → (xs ≡ []) ⊎ ((x : A) × (rest : List A) × (xs ≡ x ∷ rest))
List-cases [] = inl refl
List-cases (x ∷ xs) = inr (x, xs, refl)

-- In the code's own terms, what goes out is exactly what is due.
pub flush-IsDue :
    (h : Hub)
    → IsWellFormed h
    → (out : List Delivery) × (flush h ≡ some (record h { pending = [] }, out))
      × IsDistinct (map (λ d. d.client) out)
      × ((d : Delivery) → In d out → In d.client h.attached × ((c : Client) × IsDue h d c))
      × ((d : Delivery) (c : Client) → In d.client h.attached → IsDue h d c → In d out)
unfolding flush
flush-IsDue h v =
    let (out, e, said) = deliver_lem h h.attached v.one_client (λ id. (v.listed id).0) in
    elim (List-cases h.pending) [
      | inl n ↦ (
        [],
        ground (arith, n),
        tt,
        (λ d i. absurd i),
        (λ d c i q. absurd (nothing-IsDue h d c n q)),
      )
      | inr (x, rest, n) ↦ (out, ground (arith, n, e), said.0, said.1, said.2)
    ]
