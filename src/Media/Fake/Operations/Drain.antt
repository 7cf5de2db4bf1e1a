-- ===== src/Media/Fake/Operations/Drain.antt =====
-- Draining a room of internal/media/fake/fake.go: from then on nobody enters it, until it is destroyed.
use stammtisch.Prelude.{
  ◌≡◌, ◌≢◌, ◌↔◌, refl, ◌∙◌, Bool, true, false, not, ◌||◌, ◌&&◌, List, [], ◌∷◌, Option, none, some,
  is_ok, arith, is_some, Option-cases, inl, inr,
}
use stammtisch.Prelude.Bytes.{Bytes, bytes_key}
use stammtisch.Prelude.Map.{FinMap, lookup, insert, delete, lookup-insert, lookup-delete}
use stammtisch.Orchestration.Clock.{Time}
use stammtisch.Media.{source_key, Gain, Source, Capabilities}
use stammtisch.Media.Fake.{
  Fake, MediaRoom, MediaCall, put_room, new_room, Subscription, subscription_key, find_member,
  with_room, admitted, begin, record_call, set_room_limit, set_gain_supported, set_gain_range,
  set_observable, set_speaking, set_hop, set_unreachable, fail_room_creation, time_out_admission,
  never_deliver_source, drop_subscription, refuse_capability,
}
use stammtisch.Media.Fake.Operations.{
  Answer, answer, attempt, create_room, create_room_body, destroy_room, destroy_room_body,
  admit_member, admit_member_body, admit_member_in, without_member, without_source, revoke_member,
  revoke_member_body, revoke_member_in, publish_source, publish_source_body, publish_source_in,
  unpublish_source, unpublish_source_body, subscribe, subscribe_body, subscribe_in, unsubscribe,
  unsubscribe_body, set_subscriber_gain, set_subscriber_gain_body, speaking_state,
  speaking_state_body, hop_metrics, hop_metrics_body, read_room, drain_room, drain_room_body,
  drain_room_in,
}
use stammtisch.Media.Fake.Operations.Requests.{
  Request, asks_create, asks_destroy, asks_speaking, asks_hops, asks_drain, asks_admit, asks_revoke,
  asks_publish, asks_unpublish, asks_subscribe, asks_unsubscribe, asks_gain, perform, MediaStep,
  requests, speaks, hops, drops, media_step, media_run,
}
use stammtisch.Media.Fake.Operations.Invariant.{attempt-rooms}

-- A room that is draining, where nobody named `m` is who was not before.
closed : Bool → Bytes → Option MediaRoom → Bool
closed was m none = false
closed was m (some r) = r.draining && (was || not (is_some (lookup m r.members)))

abbrev StaysClosed : Bool → Bytes → Bytes → Fake → Fake → Type 0
StaysClosed was m id f g =
    closed was m (lookup id f.rooms) ≡ true → closed was m (lookup id g.rooms) ≡ true

abbrev pub Spares : Bytes → MediaStep → Type 0
Spares id (requests now ended (asks_destroy j)) = j ≢ id
Spares id _ = Unit

abbrev pub AllSpare : Bytes → List MediaStep → Type 0
AllSpare id [] = Unit
AllSpare id (s ∷ steps) = Spares id s × AllSpare id steps

module _ (was : Bool) (m id : Bytes) where
  attempt-StaysClosed :
      {A : Type 0} (ended : Bool) (call : MediaCall) (f : Fake) (body : Answer A)
      → StaysClosed was m id f body.0
      → StaysClosed was m id f (attempt ended call f body).0
  attempt-StaysClosed ended call f body h c = ground (arith, attempt-rooms ended call f body, h c)

  put-StaysClosed :
      (j : Bytes) (r q : MediaRoom) (rooms : FinMap Bytes MediaRoom)
      → lookup j rooms ≡ some r
      → (closed was m (some r) ≡ true → closed was m (some q) ≡ true)
      → closed was m (lookup id rooms) ≡ true
      → closed was m (lookup id (insert j q rooms)) ≡ true
  unfolding closed
  put-StaysClosed j r q rooms e h c = ground (arith, h, lookup-insert id j q rooms)

  create_room-StaysClosed : (f : Fake) (j : Bytes) → StaysClosed was m id f (create_room_body f j).0
  unfolding create_room_body closed
  create_room-StaysClosed f j c = ground (arith, lookup-insert id j new_room f.rooms)

  destroy_room-StaysClosed :
      (f : Fake) (j : Bytes) → j ≢ id → StaysClosed was m id f (destroy_room_body f j).0
  unfolding destroy_room_body
  destroy_room-StaysClosed f j n c = ground (arith, lookup-delete id j f.rooms)

  admit_member-StaysClosed :
      (f : Fake) (j member : Bytes) (caps : Capabilities)
      → StaysClosed was m id f (admit_member_body f j member caps).0
  unfolding admit_member_body admit_member_in closed
  admit_member-StaysClosed f j member caps c = elim (Option-cases (lookup j f.rooms)) [
    | inl e ↦ ground (arith, e)
    | inr (r, e) ↦
        ground (
          arith,
          e,
          lookup-insert id j (record r { members = insert member caps r.members }) f.rooms,
        )
  ]

  revoke_member-StaysClosed :
      (f : Fake) (j member : Bytes) → StaysClosed was m id f (revoke_member_body f j member).0
  unfolding revoke_member_body revoke_member_in without_member closed
  revoke_member-StaysClosed f j member c = elim (Option-cases (lookup j f.rooms)) [
    | inl e ↦ ground (arith, e)
    | inr (r, e) ↦ ground (
      arith,
      e,
      put-StaysClosed j r (without_member member r) f.rooms e
          (λ h. ground (arith, lookup-delete m member r.members)) c,
    )
  ]

  drain_room-StaysClosed : (f : Fake) (j : Bytes) → StaysClosed was m id f (drain_room_body f j).0
  unfolding drain_room_body drain_room_in closed
  drain_room-StaysClosed f j c = elim (Option-cases (lookup j f.rooms)) [
    | inl e ↦ ground (arith, e)
    | inr (r, e) ↦ ground (arith, e, lookup-insert id j (record r { draining = true }) f.rooms)
  ]

  publish_source-StaysClosed :
      (f : Fake) (j : Bytes) (s : Source) → StaysClosed was m id f (publish_source_body f j s).0
  unfolding publish_source_body publish_source_in find_member closed
  publish_source-StaysClosed f j s c = elim (Option-cases (lookup j f.rooms)) [
    | inl e ↦ ground (arith, e)
    | inr (r, e) ↦
        ground
          (arith, e, lookup-insert id j (record r { sources = insert s true r.sources }) f.rooms)
  ]

  unpublish_source-StaysClosed :
      (f : Fake) (j : Bytes) (s : Source) → StaysClosed was m id f (unpublish_source_body f j s).0
  unfolding unpublish_source_body without_source find_member closed
  unpublish_source-StaysClosed f j s c = elim (Option-cases (lookup j f.rooms)) [
    | inl e ↦ ground (arith, e)
    | inr (r, e) ↦ ground (arith, e, lookup-insert id j (without_source s r) f.rooms)
  ]

  subscribe-StaysClosed :
      (f : Fake) (j : Bytes) (x : Subscription) → StaysClosed was m id f (subscribe_body f j x).0
  unfolding subscribe_body subscribe_in find_member closed
  subscribe-StaysClosed f j x c = elim (Option-cases (lookup j f.rooms)) [
    | inl e ↦ ground (arith, e)
    | inr (r, e) ↦ ground (
      arith,
      e,
      lookup-insert id j (record r { subscribers = insert x true r.subscribers }) f.rooms,
    )
  ]

  unsubscribe-StaysClosed :
      (f : Fake) (j : Bytes) (x : Subscription) → StaysClosed was m id f (unsubscribe_body f j x).0
  unfolding unsubscribe_body find_member closed
  unsubscribe-StaysClosed f j x c = elim (Option-cases (lookup j f.rooms)) [
    | inl e ↦ ground (arith, e)
    | inr (r, e) ↦
        ground
          (arith, e, lookup-insert id j (record r { subscribers = delete x r.subscribers }) f.rooms)
  ]

  perform-StaysClosed :
      (less : Gain → Gain → Bool) (now : Time) (ended : Bool) (f : Fake) (r : Request)
      → Spares id (requests now ended r)
      → StaysClosed was m id f (perform less now ended f r).0
  unfolding perform create_room destroy_room admit_member revoke_member publish_source
      unpublish_source subscribe unsubscribe set_subscriber_gain set_subscriber_gain_body
      speaking_state speaking_state_body hop_metrics hop_metrics_body read_room drain_room
  perform-StaysClosed less now ended f (asks_create j) n =
      attempt-StaysClosed ended _ f _ (create_room-StaysClosed f j)
  perform-StaysClosed less now ended f (asks_destroy j) n =
      attempt-StaysClosed ended _ f _ (destroy_room-StaysClosed f j n)
  perform-StaysClosed less now ended f (asks_speaking j) n =
      attempt-StaysClosed ended _ f (speaking_state_body f j) (λ c. ground (arith, c))
  perform-StaysClosed less now ended f (asks_hops j) n =
      attempt-StaysClosed ended _ f (hop_metrics_body now f j) (λ c. ground (arith, c))
  perform-StaysClosed less now ended f (asks_drain j) n =
      attempt-StaysClosed ended _ f _ (drain_room-StaysClosed f j)
  perform-StaysClosed less now ended f (asks_admit j member caps) n =
      attempt-StaysClosed ended _ f _ (admit_member-StaysClosed f j member caps)
  perform-StaysClosed less now ended f (asks_revoke j member) n =
      attempt-StaysClosed ended _ f _ (revoke_member-StaysClosed f j member)
  perform-StaysClosed less now ended f (asks_publish j member kind) n =
      attempt-StaysClosed ended _ f _
        (publish_source-StaysClosed f j (record { member = member; kind = kind }))
  perform-StaysClosed less now ended f (asks_unpublish j member kind) n =
      attempt-StaysClosed ended _ f _
        (unpublish_source-StaysClosed f j (record { member = member; kind = kind }))
  perform-StaysClosed less now ended f (asks_subscribe j s x) n =
      attempt-StaysClosed ended _ f _
        (subscribe-StaysClosed f j (record { subscriber = s; source = x }))
  perform-StaysClosed less now ended f (asks_unsubscribe j s x) n =
      attempt-StaysClosed ended _ f _
        (unsubscribe-StaysClosed f j (record { subscriber = s; source = x }))
  perform-StaysClosed less now ended f (asks_gain j s x gain) n =
      attempt-StaysClosed ended _ f
        (set_subscriber_gain_body less f j (record { subscriber = s; source = x }) gain)
        (λ c. ground (arith, c))

  in_room-StaysClosed :
      (f : Fake) (j : Bytes) (write : MediaRoom → MediaRoom)
      → ((r : MediaRoom) → closed was m (some r) ≡ true → closed was m (some (write r)) ≡ true)
      → StaysClosed was m id f (with_room f (λ r. put_room f j (write r)) (lookup j f.rooms))
  unfolding with_room
  in_room-StaysClosed f j write h c = elim (Option-cases (lookup j f.rooms)) [
    | inl e ↦ ground (arith, e, c)
    | inr (r, e) ↦ ground (arith, e, put-StaysClosed j r (write r) f.rooms e (h r) c)
  ]

  media_step-StaysClosed :
      (less : Gain → Gain → Bool) (f : Fake) (s : MediaStep)
      → Spares id s
      → StaysClosed was m id f (media_step less f s)
  unfolding media_step set_room_limit set_gain_supported set_gain_range set_observable set_speaking
      set_hop set_unreachable fail_room_creation time_out_admission never_deliver_source
      drop_subscription refuse_capability closed
  media_step-StaysClosed less f (requests now ended r) n = perform-StaysClosed less now ended f r n
  media_step-StaysClosed less f (speaks j member b) n = in_room-StaysClosed f j _ (λ r c. c)
  media_step-StaysClosed less f (hops now j hop) n = in_room-StaysClosed f j _ (λ r c. c)
  media_step-StaysClosed less f (drops j subscriber source) n = in_room-StaysClosed f j _ (λ r c. c)
  media_step-StaysClosed less f _ n = λ c. c

  media_run-StaysClosed :
      (less : Gain → Gain → Bool) (f : Fake) (steps : List MediaStep)
      → AllSpare id steps
      → StaysClosed was m id f (media_run less f steps)
  unfolding media_run
  media_run-StaysClosed less f [] n c = c
  media_run-StaysClosed less f (s ∷ steps) n c =
      media_run-StaysClosed less (media_step less f s) steps n.1
        (media_step-StaysClosed less f s n.0 c)

closed-admitted :
    (was : Bool) (g : Fake) (id m : Bytes)
    → closed was m (lookup id g.rooms) ≡ true
    → admitted g id m ≡ true
    → was ≡ true
unfolding closed admitted with_room
closed-admitted was g id m c h = ground arith

closed-admit_member :
    (was : Bool) (g : Fake) (id m : Bytes) (caps : Capabilities) (ended : Bool)
    → closed was m (lookup id g.rooms) ≡ true
    → is_ok (admit_member ended g id m caps).1 ≡ false
unfolding closed admit_member admit_member_body admit_member_in attempt answer
closed-admit_member was g id m caps ended c = ground arith

drain_room_empty :
    (f : Fake) (id : Bytes) (r : MediaRoom)
    → lookup id f.rooms ≡ some r
    → f.unreachable ≡ false
    → (is_ok (drain_room false f id).1 ≡ true) ↔ (r.members ≡ [])
unfolding drain_room drain_room_body drain_room_in attempt answer begin
drain_room_empty f id r e u =
    elim r.members as (λ x. r.members ≡ x → (is_ok (drain_room false f id).1 ≡ true) ↔ (x ≡ [])) [
      | [] ↦ λ k. ground (arith, e, u, k)
      | x ∷ xs ↦ λ k. ground (arith, e, u, k)
    ]
      refl

drained-closed :
    (f : Fake) (id m : Bytes) (r : MediaRoom)
    → lookup id f.rooms ≡ some r
    → f.unreachable ≡ false
    → closed (is_some (lookup m r.members)) m (lookup id (drain_room false f id).0.rooms) ≡ true
unfolding drain_room drain_room_body drain_room_in attempt answer begin record_call closed
drained-closed f id m r e u =
    ground (arith, e, u, lookup-insert id id (record r { draining = true }) f.rooms)

admitted-lookup :
    (f : Fake) (id m : Bytes) (r : MediaRoom)
    → lookup id f.rooms ≡ some r
    → admitted f id m ≡ is_some (lookup m r.members)
unfolding admitted with_room
admitted-lookup f id m r e = ground (arith, e)

-- Once a drain has reached a room that is there, whatever is asked of the unit short of destroying the
-- room, nobody is in the room who was not when it was drained, and every admission to it is refused.
-- A drain that reaches its room succeeds exactly where nobody is in it.
pub drain_room-closes :
    (less : Gain → Gain → Bool) (f : Fake) (id : Bytes) (r : MediaRoom) (steps : List MediaStep)
    (m : Bytes) (caps : Capabilities) (ended : Bool)
    → lookup id f.rooms ≡ some r
    → f.unreachable ≡ false
    → AllSpare id steps
    → let f' = media_run less (drain_room false f id).0 steps in
      (admitted f' id m ≡ true → admitted f id m ≡ true)
      × (is_ok (admit_member ended f' id m caps).1 ≡ false)
      × ((is_ok (drain_room false f id).1 ≡ true) ↔ (r.members ≡ []))
drain_room-closes less f id r steps m caps ended e u n =
    let was = is_some (lookup m r.members) in
    let after =
      media_run-StaysClosed was m id less (drain_room false f id).0 steps n
        (drained-closed f id m r e u) in
    (
      (λ h. admitted-lookup f id m r e ∙ closed-admitted was _ id m after h),
      closed-admit_member was _ id m caps ended after,
      drain_room_empty f id r e u,
    )
