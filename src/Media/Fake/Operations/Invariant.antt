-- ===== src/Media/Fake/Operations/Invariant.antt =====
-- What holds of every room of internal/media/fake/fake.go, whatever is asked of the unit.
use stammtisch.Prelude.{
  ◌≡◌, refl, sym, ◌⊎◌, Bool, true, List, [], ◌∷◌, some, ok, err, arith, Option-cases, Result-cases,
  inl, inr, subst,
}
use stammtisch.Prelude.Bytes.{Bytes, bytes_key}
use stammtisch.Prelude.Map.{
  FinMap, lookup, insert, delete, is_set, lookup-insert, lookup-delete, ◌≟◌,
}
use stammtisch.Orchestration.Clock.{Time}
use stammtisch.Media.{allows, may_subscribe, source_key, Gain, Source, Capabilities, valid_kind}
use stammtisch.Media.Fake.{
  put_room, with_room, new_fake, new_room, set_room_limit, set_gain_supported, set_gain_range,
  set_observable, set_speaking, set_hop, set_unreachable, fail_room_creation, time_out_admission,
  never_deliver_source, drop_subscription, refuse_capability, Subscription, subscription_key,
  publishing, Fake, MediaRoom, MediaCall, begin, record_call, find_member,
}
use stammtisch.Media.Fake.Operations.{
  without_member, without_source, Answer, answer, attempt, create_room, create_room_body,
  destroy_room, destroy_room_body, admit_member, admit_member_body, admit_member_in, revoke_member,
  revoke_member_body, revoke_member_in, publish_source, publish_source_body, publish_source_in,
  unpublish_source, unpublish_source_body, subscribe, subscribe_body, subscribe_in, unsubscribe,
  unsubscribe_body, set_subscriber_gain, set_subscriber_gain_body, speaking_state,
  speaking_state_body, hop_metrics, hop_metrics_body, read_room, drain_room, drain_room_body,
  drain_room_in,
}
use stammtisch.Media.Fake.Operations.Requests.{
  Request, asks_create, asks_destroy, asks_speaking, asks_hops, asks_drain, asks_admit, asks_revoke,
  asks_publish, asks_unpublish, asks_subscribe, asks_unsubscribe, asks_gain, perform, MediaStep,
  requests, speaks, hops, drops, media_step, media_run,
}
use stammtisch.Media.Fake.Operations.Sound.{
  IsSound, AllSound, new_room-IsSound, admit-IsSound, revoke-IsSound, publish-IsSound,
  unpublish-IsSound, subscribe-IsSound, unsubscribe-IsSound, beside-IsSound,
}

-- The unit after a room was written, and after one was closed.
put-AllSound :
    (id : Bytes) (r : MediaRoom) (rooms : FinMap Bytes MediaRoom)
    → IsSound r
    → AllSound rooms
    → AllSound (insert id r rooms)
put-AllSound id r rooms v all j q h = elim (id ≟ j) [
  | yes e ↦ subst IsSound (ground (arith, lookup-insert j id r rooms)) v
  | no n ↦ all j q (ground (arith, lookup-insert j id r rooms))
]

delete-AllSound :
    (id : Bytes) (rooms : FinMap Bytes MediaRoom) → AllSound rooms → AllSound (delete id rooms)
delete-AllSound id rooms all j q h = all j q (ground (arith, lookup-delete j id rooms))

abbrev Kept : Fake → Fake → Type 0
Kept f g = AllSound f.rooms → AllSound g.rooms

pub attempt-rooms :
    {A : Type 0} (ended : Bool) (call : MediaCall) (f : Fake) (body : Answer A)
    → ((attempt ended call f body).0.rooms ≡ f.rooms)
      ⊎ ((attempt ended call f body).0.rooms ≡ body.0.rooms)
unfolding attempt answer begin record_call
attempt-rooms ended call f (g, ok a) = ground arith
attempt-rooms ended call f (g, err e) = ground arith

attempt-Kept :
    {A : Type 0} (ended : Bool) (call : MediaCall) (f : Fake) (body : Answer A)
    → Kept f body.0
    → Kept f (attempt ended call f body).0
attempt-Kept ended call f body h all = elim (attempt-rooms ended call f body) [
  | inl e ↦ subst AllSound (sym e) all
  | inr e ↦ subst AllSound (sym e) (h all)
]

create_room-Kept : (f : Fake) (id : Bytes) → Kept f (create_room_body f id).0
unfolding create_room_body
create_room-Kept f id all j r h =
    ground (arith, all j r, put-AllSound id new_room f.rooms new_room-IsSound all j r)

destroy_room-Kept : (f : Fake) (id : Bytes) → Kept f (destroy_room_body f id).0
unfolding destroy_room_body
destroy_room-Kept f id all j r h = ground (arith, all j r, delete-AllSound id f.rooms all j r)

admit_member-Kept :
    (f : Fake) (id member : Bytes) (caps : Capabilities)
    → Kept f (admit_member_body f id member caps).0
unfolding admit_member_body admit_member_in
admit_member-Kept f id member caps all j q h = elim (Option-cases (lookup id f.rooms)) [
  | inl e ↦ ground (arith, all j q)
  | inr (r, e) ↦ elim (Option-cases (lookup member r.members)) [
    | inl n ↦ ground (
      arith,
      e,
      n,
      all j q,
      put-AllSound id (record r { members = insert member caps r.members }) f.rooms
          (admit-IsSound member caps r n (all id r e)) all j q,
    )
    | inr (old, n) ↦ ground (arith, e, n, all j q)
  ]
]

revoke_member-Kept : (f : Fake) (id member : Bytes) → Kept f (revoke_member_body f id member).0
unfolding revoke_member_body revoke_member_in
revoke_member-Kept f id member all j q h = elim (Option-cases (lookup id f.rooms)) [
  | inl e ↦ ground (arith, all j q)
  | inr (r, e) ↦ ground (
    arith,
    e,
    all j q,
    put-AllSound id (without_member member r) f.rooms (revoke-IsSound member r (all id r e)) all j
        q,
  )
]

publish_source-Kept : (f : Fake) (id : Bytes) (s : Source) → Kept f (publish_source_body f id s).0
unfolding publish_source_body publish_source_in find_member
publish_source-Kept f id s all j q h = elim (Option-cases (lookup id f.rooms)) [
  | inl e ↦ ground (arith, e, all j q)
  | inr (r, e) ↦ elim (Option-cases (lookup s.member r.members)) [
    | inl n ↦ ground (arith, e, n, all j q)
    | inr (caps, n) ↦ ground (
      arith,
      e,
      n,
      all j q,
      Result-cases (valid_kind s.kind),
      (λ (may : allows caps (publishing s.kind) ≡ true) (kind : valid_kind s.kind ≡ ok tt).
          put-AllSound id (record r { sources = insert s true r.sources }) f.rooms
            (publish-IsSound s caps r n may kind (all id r e)) all j q),
    )
  ]
]

unpublish_source-Kept :
    (f : Fake) (id : Bytes) (s : Source) → Kept f (unpublish_source_body f id s).0
unfolding unpublish_source_body find_member
unpublish_source-Kept f id s all j q h = elim (Option-cases (lookup id f.rooms)) [
  | inl e ↦ ground (arith, e, all j q)
  | inr (r, e) ↦ elim (Option-cases (lookup s.member r.members)) [
    | inl n ↦ ground (arith, e, n, all j q)
    | inr (caps, n) ↦ ground (
      arith,
      e,
      n,
      all j q,
      put-AllSound id (without_source s r) f.rooms (unpublish-IsSound s r (all id r e)) all j q,
    )
  ]
]

subscribe-Kept : (f : Fake) (id : Bytes) (x : Subscription) → Kept f (subscribe_body f id x).0
unfolding subscribe_body subscribe_in find_member
subscribe-Kept f id x all j q h = elim (Option-cases (lookup id f.rooms)) [
  | inl e ↦ ground (arith, e, all j q)
  | inr (r, e) ↦ elim (Option-cases (lookup x.subscriber r.members)) [
    | inl n ↦ ground (arith, e, n, all j q)
    | inr (caps, n) ↦ ground (
      arith,
      e,
      n,
      all j q,
      (λ (may : allows caps may_subscribe ≡ true) (there : is_set x.source r.sources ≡ true).
          put-AllSound id (record r { subscribers = insert x true r.subscribers }) f.rooms
            (subscribe-IsSound x caps r n may there (all id r e)) all j q),
    )
  ]
]

unsubscribe-Kept : (f : Fake) (id : Bytes) (x : Subscription) → Kept f (unsubscribe_body f id x).0
unfolding unsubscribe_body find_member
unsubscribe-Kept f id x all j q h = elim (Option-cases (lookup id f.rooms)) [
  | inl e ↦ ground (arith, e, all j q)
  | inr (r, e) ↦ elim (Option-cases (lookup x.subscriber r.members)) [
    | inl n ↦ ground (arith, e, n, all j q)
    | inr (caps, n) ↦ ground (
      arith,
      e,
      n,
      all j q,
      put-AllSound id (record r { subscribers = delete x r.subscribers }) f.rooms
          (unsubscribe-IsSound x r (all id r e)) all j q,
    )
  ]
]

drain_room-Kept : (f : Fake) (id : Bytes) → Kept f (drain_room_body f id).0
unfolding drain_room_body drain_room_in
drain_room-Kept f id all j q h = elim (Option-cases (lookup id f.rooms)) [
  | inl e ↦ ground (arith, e, all j q)
  | inr (r, e) ↦
      let r' = record r { draining = true } in
      ground (
        arith,
        e,
        all j q,
        put-AllSound id r' f.rooms (beside-IsSound r r' refl refl refl (all id r e)) all j q,
      )
]

perform-Kept :
    (less : Gain → Gain → Bool) (now : Time) (ended : Bool) (f : Fake) (r : Request)
    → Kept f (perform less now ended f r).0
unfolding perform create_room destroy_room admit_member revoke_member publish_source
    unpublish_source subscribe unsubscribe set_subscriber_gain set_subscriber_gain_body
    speaking_state speaking_state_body hop_metrics hop_metrics_body read_room drain_room
perform-Kept less now ended f (asks_create id) = attempt-Kept ended _ f _ (create_room-Kept f id)
perform-Kept less now ended f (asks_destroy id) = attempt-Kept ended _ f _ (destroy_room-Kept f id)
perform-Kept less now ended f (asks_speaking id) =
    attempt-Kept ended _ f (speaking_state_body f id) (λ all j q h. ground (arith, all j q))
perform-Kept less now ended f (asks_hops id) =
    attempt-Kept ended _ f (hop_metrics_body now f id) (λ all j q h. ground (arith, all j q))
perform-Kept less now ended f (asks_drain id) = attempt-Kept ended _ f _ (drain_room-Kept f id)
perform-Kept less now ended f (asks_admit id member caps) =
    attempt-Kept ended _ f _ (admit_member-Kept f id member caps)
perform-Kept less now ended f (asks_revoke id member) =
    attempt-Kept ended _ f _ (revoke_member-Kept f id member)
perform-Kept less now ended f (asks_publish id member kind) =
    attempt-Kept ended _ f _ (publish_source-Kept f id (record { member = member; kind = kind }))
perform-Kept less now ended f (asks_unpublish id member kind) =
    attempt-Kept ended _ f _ (unpublish_source-Kept f id (record { member = member; kind = kind }))
perform-Kept less now ended f (asks_subscribe id s x) =
    attempt-Kept ended _ f _ (subscribe-Kept f id (record { subscriber = s; source = x }))
perform-Kept less now ended f (asks_unsubscribe id s x) =
    attempt-Kept ended _ f _ (unsubscribe-Kept f id (record { subscriber = s; source = x }))
perform-Kept less now ended f (asks_gain id s x gain) =
    attempt-Kept ended _ f
      (set_subscriber_gain_body less f id (record { subscriber = s; source = x }) gain)
      (λ all j q h. ground (arith, all j q))

-- A knob that writes a room writes its speakers, its hops or takes a subscription away.
in_room-Kept :
    (f : Fake) (id : Bytes) (write : MediaRoom → MediaRoom)
    → ((r : MediaRoom) → IsSound r → IsSound (write r))
    → Kept f (with_room f (λ r. put_room f id (write r)) (lookup id f.rooms))
unfolding with_room
in_room-Kept f id write sound all j q h = elim (Option-cases (lookup id f.rooms)) [
  | inl e ↦ ground (arith, e, all j q)
  | inr (r, e) ↦ ground (arith, e, put-AllSound id (write r) f.rooms (sound r (all id r e)) all j q)
]

media_step-Kept :
    (less : Gain → Gain → Bool) (f : Fake) (s : MediaStep) → Kept f (media_step less f s)
unfolding media_step set_room_limit set_gain_supported set_gain_range set_observable set_speaking
    set_hop set_unreachable fail_room_creation time_out_admission never_deliver_source
    drop_subscription refuse_capability
media_step-Kept less f (requests now ended r) = perform-Kept less now ended f r
media_step-Kept less f (speaks id member b) =
    in_room-Kept f id _ (λ r v. beside-IsSound r _ refl refl refl v)
media_step-Kept less f (hops now id hop) =
    in_room-Kept f id _ (λ r v. beside-IsSound r _ refl refl refl v)
media_step-Kept less f (drops id subscriber source) =
    in_room-Kept f id _
      (λ r v. unsubscribe-IsSound (record { subscriber = subscriber; source = source }) r v)
media_step-Kept less f _ = λ all. all

run-AllSound :
    (less : Gain → Gain → Bool) (f : Fake) (steps : List MediaStep)
    → AllSound f.rooms
    → AllSound (media_run less f steps).rooms
unfolding media_run
run-AllSound less f [] all = all
run-AllSound less f (s ∷ steps) all =
    run-AllSound less (media_step less f s) steps (media_step-Kept less f s all)

-- In every room of a unit that started new, after any requests and any turn of the knobs, nobody is in
-- the member table twice, a source is published only by a member who is admitted and may publish its kind, which is one there is, and a
-- subscription is held only by an admitted member who may subscribe, to a source that is published.
pub media_run-IsSound :
    (less : Gain → Gain → Bool) (steps : List MediaStep) (id : Bytes) (r : MediaRoom)
    → lookup id (media_run less new_fake steps).rooms ≡ some r
    → IsSound r
unfolding new_fake lookup
media_run-IsSound less steps = run-AllSound less new_fake steps (λ id r h. ground (arith, h))
