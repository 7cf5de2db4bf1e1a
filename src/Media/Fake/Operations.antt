-- ===== src/Media/Fake/Operations.antt =====
-- The twelve methods of the port, as internal/media/fake/fake.go implements them. What a method does
-- once it has begun is its `_body`; `attempt` stops it where the unit or the caller does, and writes
-- the call down with the error that it ended in.
pub mod Requests
pub mod Errors
pub mod Invariant
pub mod Revoke
pub mod Drain
pub mod Listing
pub mod Sound
pub mod Log
mod Examples
use stammtisch.Prelude.{
  ℕ, suc, Bool, true, false, not, ◌&&◌, ◌||◌, List, [], ◌∷◌, ◌++◌, Option, none, some, Result, ok,
  err, ◌>>=◌, ◌>>◌, fail_if, holds, is_some, length, leb, ltb, ◌==◌, if◌then◌else◌,
}
use stammtisch.Prelude.Int.{ℤ, pos, negsuc, ltb_ℤ}
use stammtisch.Prelude.Bytes.{Bytes, bytes_key, bytes, before, is_empty}
use stammtisch.Prelude.Decimal.{itoa}
use stammtisch.Prelude.Map.{FinMap, ◌≟◌, lookup, insert, delete, gather, is_set, remove_where}
use stammtisch.Prelude.Sort.{sort}
use stammtisch.Orchestration.Clock.{Time}
use stammtisch.Media.{
  SourceKind, Source, source_key, Capability, Capabilities, allows, may_subscribe, Credential,
  new_credential, Gain, Speaking, Hop, MediaError, cancelled, room_limit_reached, no_such_room,
  member_already_admitted, permissions_not_expressible, no_such_member, not_permitted,
  source_already_published, no_such_source, gain_not_supported, no_such_subscription,
  gain_out_of_range, not_observable, drain_deadline_exceeded, MediaOp, op_create_room,
  op_destroy_room, op_admit_member, op_revoke_member, op_publish_source, op_unpublish_source,
  op_subscribe, op_unsubscribe, op_set_subscriber_gain, op_speaking_state, op_hop_metrics,
  op_drain_room, valid_room, valid_member, valid_kind,
}
use stammtisch.Media.Fake.{
  Fake, MediaRoom, MediaCall, Subscription, subscription_key, Seat, seat_key, capability_key,
  new_room, put_room, begin, record_call, find_member, publishing,
}

-- The unit after a method, and what the caller gets.
abbrev pub Answer : Type 0 → Type 0
Answer A = Fake × Result MediaError A

abbrev pub refuse : {A : Type 0} → Fake → MediaError → Answer A
refuse f e = (f, err e)

-- The checks that come first, and what follows where they pass.
abbrev pub checked : {A B : Type 0} → Fake → Result MediaError A → (A → Answer B) → Answer B
checked f (ok a) go = go a
checked f (err e) go = refuse f e

pub answer : {A : Type 0} → MediaCall → Answer A → Answer A
answer call (f, ok a) = (record_call f call, ok a)
answer call (f, err e) = (record_call f (record call { failure = some e }), err e)

pub attempt : {A : Type 0} → Bool → MediaCall → Fake → Answer A → Answer A
unfolding answer
attempt is_cancelled call f body = elim (begin is_cancelled f) [
  | none ↦ answer call body
  | some e ↦ answer call (refuse f e)
]

abbrev pub no_source : Source
no_source = record { member = []; kind = 0 }

abbrev pub call_of : MediaOp → Bytes → Bytes → Source → MediaCall
call_of op id member source = record {
  op = op;
  room = id;
  member = member;
  source = source;
  gain = 0;
  caps = 0;
  failure = none;
}

pub create_room_body : Fake → Bytes → Answer (Unit {0})
create_room_body f id = checked f (valid_room id) λ valid.
    if is_some (lookup id f.rooms)
    then (f, ok tt)
    else if is_set id f.room_creation_fails
    then refuse f room_limit_reached
    else if not (ltb_ℤ f.room_limit (pos 0)) && not (ltb_ℤ (pos (length f.rooms)) f.room_limit)
    then refuse f room_limit_reached
    else (put_room f id new_room, ok tt)

pub create_room : Bool → Fake → Bytes → Answer (Unit {0})
create_room is_cancelled f id =
    attempt is_cancelled (call_of op_create_room id [] no_source) f (create_room_body f id)

-- The answer says whether the room was already gone.
pub destroy_room_body : Fake → Bytes → Answer Bool
destroy_room_body f id =
    checked f (valid_room id)
      λ valid. (record f { rooms = delete id f.rooms }, ok (not (is_some (lookup id f.rooms))))

pub destroy_room : Bool → Fake → Bytes → Answer Bool
destroy_room is_cancelled f id =
    attempt is_cancelled (call_of op_destroy_room id [] no_source) f (destroy_room_body f id)

-- The loop over the capabilities that the unit cannot express.
pub refuses_some : Capabilities → FinMap ℕ Bool → Bool
refuses_some caps [] = false
refuses_some caps ((c, refused) ∷ rest) = refused && allows caps c || refuses_some caps rest

abbrev pub minted_credential : Fake → Bytes → Bytes → Credential
minted_credential f id member =
    new_credential
      (bytes "fake-" ++ id ++ bytes "-" ++ member ++ bytes "-" ++ itoa (pos (suc f.minted)))

admit_member_in : Fake → Bytes → Bytes → Capabilities → Option MediaRoom → Answer Credential
admit_member_in f id member caps none = refuse f no_such_room
admit_member_in f id member caps (some r) =
    if is_some (lookup member r.members)
    then refuse f member_already_admitted
    else if refuses_some caps f.caps_not_expressible
    then refuse f permissions_not_expressible
    else if r.draining
    then refuse f no_such_room
    else (
      record (put_room f id (record r { members = insert member caps r.members })) {
        minted = suc f.minted;
      },
      ok (minted_credential f id member),
    )

pub admit_member_body : Fake → Bytes → Bytes → Capabilities → Answer Credential
unfolding admit_member_in
admit_member_body f id member caps = checked f (valid_room id >> valid_member member) λ valid.
    if is_set (record { room = id; member = member }) f.admission_times_out
    then refuse f cancelled
    else admit_member_in f id member caps (lookup id f.rooms)

pub admit_member : Bool → Fake → Bytes → Bytes → Capabilities → Answer Credential
admit_member is_cancelled f id member caps =
    attempt is_cancelled (record (call_of op_admit_member id member no_source) { caps = caps }) f
      (admit_member_body f id member caps)

pub is_of : Bytes → Subscription → Bool
is_of member s = holds (s.subscriber ≟ member) || holds (s.source.member ≟ member)

pub without_member : Bytes → MediaRoom → MediaRoom
unfolding is_of
without_member member r = record r {
  members = delete member r.members;
  speaking = delete member r.speaking;
  hops = delete member r.hops;
  sources = remove_where (λ s. holds (s.member ≟ member)) r.sources;
  subscribers = remove_where (is_of member) r.subscribers;
}

revoke_member_in : Fake → Bytes → Bytes → Option MediaRoom → Answer (Unit {0})
revoke_member_in f id member none = refuse f no_such_room
revoke_member_in f id member (some r) = (put_room f id (without_member member r), ok tt)

pub revoke_member_body : Fake → Bytes → Bytes → Answer (Unit {0})
unfolding revoke_member_in
revoke_member_body f id member = revoke_member_in f id member (lookup id f.rooms)

pub revoke_member : Bool → Fake → Bytes → Bytes → Answer (Unit {0})
revoke_member is_cancelled f id member =
    attempt is_cancelled (call_of op_revoke_member id member no_source) f
      (revoke_member_body f id member)

publish_source_in : Fake → Bytes → Source → MediaRoom × Capabilities → Answer (Unit {0})
publish_source_in f id source (r, caps) =
    if not (allows caps (publishing source.kind))
    then refuse f not_permitted
    else if is_set source r.sources
    then refuse f source_already_published
    else if not (is_set source f.source_never_arrives)
    then (put_room f id (record r { sources = insert source true r.sources }), ok tt)
    else (f, ok tt)

pub publish_source_body : Fake → Bytes → Source → Answer (Unit {0})
unfolding publish_source_in
publish_source_body f id source =
    checked f (valid_kind source.kind >> find_member source.member (lookup id f.rooms))
      (publish_source_in f id source)

pub publish_source : Bool → Fake → Bytes → Bytes → SourceKind → Answer (Unit {0})
publish_source is_cancelled f id member kind =
    let source : Source = record { member = member; kind = kind } in
    attempt is_cancelled (call_of op_publish_source id member source) f
      (publish_source_body f id source)

pub without_source : Source → MediaRoom → MediaRoom
without_source source r = record r {
  sources = delete source r.sources;
  subscribers = remove_where (λ s. holds (s.source ≟ source)) r.subscribers;
}

pub unpublish_source_body : Fake → Bytes → Source → Answer (Unit {0})
unfolding without_source
unpublish_source_body f id source =
    checked f (valid_kind source.kind >> find_member source.member (lookup id f.rooms))
      λ (r, caps). (put_room f id (without_source source r), ok tt)

pub unpublish_source : Bool → Fake → Bytes → Bytes → SourceKind → Answer (Unit {0})
unpublish_source is_cancelled f id member kind =
    let source : Source = record { member = member; kind = kind } in
    attempt is_cancelled (call_of op_unpublish_source id member source) f
      (unpublish_source_body f id source)

subscribe_in : Fake → Bytes → Subscription → MediaRoom × Capabilities → Answer (Unit {0})
subscribe_in f id s (r, caps) =
    if not (is_some (lookup s.source.member r.members))
    then refuse f no_such_member
    else if not (allows caps may_subscribe)
    then refuse f not_permitted
    else if not (is_set s.source r.sources)
    then refuse f no_such_source
    else (put_room f id (record r { subscribers = insert s true r.subscribers }), ok tt)

pub subscribe_body : Fake → Bytes → Subscription → Answer (Unit {0})
unfolding subscribe_in
subscribe_body f id s =
    checked f (valid_kind s.source.kind >> find_member s.subscriber (lookup id f.rooms))
      (subscribe_in f id s)

pub subscribe : Bool → Fake → Bytes → Bytes → Source → Answer (Unit {0})
subscribe is_cancelled f id subscriber source =
    attempt is_cancelled (call_of op_subscribe id subscriber source) f
      (subscribe_body f id (record { subscriber = subscriber; source = source }))

pub unsubscribe_body : Fake → Bytes → Subscription → Answer (Unit {0})
unsubscribe_body f id s =
    checked f (valid_kind s.source.kind >> find_member s.subscriber (lookup id f.rooms))
      λ (r, caps). (put_room f id (record r { subscribers = delete s r.subscribers }), ok tt)

pub unsubscribe : Bool → Fake → Bytes → Bytes → Source → Answer (Unit {0})
unsubscribe is_cancelled f id subscriber source =
    attempt is_cancelled (call_of op_unsubscribe id subscriber source) f
      (unsubscribe_body f id (record { subscriber = subscriber; source = source }))

-- `!ok || !r.subscribers[…]`.
is_subscribed_in : Subscription → Option MediaRoom → Bool
is_subscribed_in s none = false
is_subscribed_in s (some r) = is_set s r.subscribers

pub set_subscriber_gain_body :
    (Gain → Gain → Bool) → Fake → Bytes → Subscription → Gain → Answer (Unit {0})
unfolding is_subscribed_in
set_subscriber_gain_body less f id s gain =
    if not f.gain_supported
    then refuse f gain_not_supported
    else if not (is_subscribed_in s (lookup id f.rooms))
    then refuse f no_such_subscription
    else if less gain f.lowest_gain || less f.highest_gain gain
    then refuse f gain_out_of_range
    else (f, ok tt)

pub set_subscriber_gain :
    (Gain → Gain → Bool) → Bool → Fake → Bytes → Bytes → Source → Gain → Answer (Unit {0})
set_subscriber_gain less is_cancelled f id subscriber source gain =
    attempt is_cancelled
      (record (call_of op_set_subscriber_gain id subscriber source) { gain = gain }) f
      (set_subscriber_gain_body less f id (record { subscriber = subscriber; source = source })
        gain)

speakers : MediaRoom → List Speaking
unfolding gather
speakers r =
    gather (λ member caps. some (record { member = member; speaking = is_set member r.speaking }))
      r.members

pub speaking_before : Speaking → Speaking → Bool
speaking_before a b = before a.member b.member

-- What a method that only reads a room answers.
read_room : {A : Type 0} → Fake → Option MediaRoom → (MediaRoom → A) → Answer A
read_room f none go = refuse f no_such_room
read_room f (some r) go = if not f.observable then refuse f not_observable else (f, ok (go r))

pub speaking_state_body : Fake → Bytes → Answer (List Speaking)
unfolding speakers read_room
speaking_state_body f id = read_room f (lookup id f.rooms) λ r. sort speaking_before (speakers r)

pub speaking_state : Bool → Fake → Bytes → Answer (List Speaking)
speaking_state is_cancelled f id =
    attempt is_cancelled (call_of op_speaking_state id [] no_source) f (speaking_state_body f id)

-- A hop that no test has set is observed now, and its other figures are zero.
hop_of : Time → Bytes → Option Hop → Hop
hop_of now member (some hop) = hop
hop_of now member none = record { member = member; delay = pos 0; loss = 0; observed = now }

hops_of : Time → MediaRoom → List Hop
unfolding gather hop_of
hops_of now r = gather (λ member caps. some (hop_of now member (lookup member r.hops))) r.members

pub hop_before : Hop → Hop → Bool
hop_before a b = before a.member b.member

pub hop_metrics_body : Time → Fake → Bytes → Answer (List Hop)
unfolding hops_of read_room
hop_metrics_body now f id = read_room f (lookup id f.rooms) λ r. sort hop_before (hops_of now r)

pub hop_metrics : Time → Bool → Fake → Bytes → Answer (List Hop)
hop_metrics now is_cancelled f id =
    attempt is_cancelled (call_of op_hop_metrics id [] no_source) f (hop_metrics_body now f id)

-- The room stops admitting whether or not it is empty.
drain_room_in : Fake → Bytes → Option MediaRoom → Answer (Unit {0})
drain_room_in f id none = refuse f no_such_room
drain_room_in f id (some r) =
    let f' = put_room f id (record r { draining = true }) in
    if ltb 0 (length r.members) then refuse f' drain_deadline_exceeded else (f', ok tt)

pub drain_room_body : Fake → Bytes → Answer (Unit {0})
unfolding drain_room_in
drain_room_body f id = drain_room_in f id (lookup id f.rooms)

pub drain_room : Bool → Fake → Bytes → Answer (Unit {0})
drain_room is_cancelled f id =
    attempt is_cancelled (call_of op_drain_room id [] no_source) f (drain_room_body f id)
