-- ===== src/Media/Fake/Operations/Log.antt =====
-- The call log of internal/media/fake/fake.go, and what a refused request leaves behind.
use stammtisch.Prelude.{◌≡◌, ◌≢◌, refl, Bool, [], ◌∷◌, ◌++◌, Option, none, some, ok, err, arith}
use stammtisch.Orchestration.Clock.{Time}
use stammtisch.Media.{Gain, MediaError, op_drain_room, valid_room, valid_member, valid_kind}
use stammtisch.Media.Fake.{Fake, MediaCall, begin, record_call, find_member}
use stammtisch.Media.Fake.Operations.{
  Answer, answer, attempt, create_room, create_room_body, destroy_room, destroy_room_body,
  admit_member, admit_member_body, admit_member_in, revoke_member, revoke_member_body,
  revoke_member_in, publish_source, publish_source_body, publish_source_in, unpublish_source,
  unpublish_source_body, subscribe, subscribe_body, subscribe_in, unsubscribe, unsubscribe_body,
  set_subscriber_gain, set_subscriber_gain_body, speaking_state, speaking_state_body, hop_metrics,
  hop_metrics_body, read_room, drain_room, drain_room_body, drain_room_in,
}
use stammtisch.Media.Fake.Operations.Requests.{
  Request, asks_create, asks_destroy, asks_speaking, asks_hops, asks_drain, asks_admit, asks_revoke,
  asks_publish, asks_unpublish, asks_subscribe, asks_unsubscribe, asks_gain, perform, op_of,
  outcome,
}

-- What the log says of a request and its outcome.
abbrev pub logged : Request → Option MediaError → MediaCall
logged (asks_create id) failure = record {
  op = op_of (asks_create id);
  room = id;
  member = [];
  source = record { member = []; kind = 0 };
  gain = 0;
  caps = 0;
  failure = failure;
}
logged (asks_destroy id) failure = record {
  op = op_of (asks_destroy id);
  room = id;
  member = [];
  source = record { member = []; kind = 0 };
  gain = 0;
  caps = 0;
  failure = failure;
}
logged (asks_speaking id) failure = record {
  op = op_of (asks_speaking id);
  room = id;
  member = [];
  source = record { member = []; kind = 0 };
  gain = 0;
  caps = 0;
  failure = failure;
}
logged (asks_hops id) failure = record {
  op = op_of (asks_hops id);
  room = id;
  member = [];
  source = record { member = []; kind = 0 };
  gain = 0;
  caps = 0;
  failure = failure;
}
logged (asks_drain id) failure = record {
  op = op_of (asks_drain id);
  room = id;
  member = [];
  source = record { member = []; kind = 0 };
  gain = 0;
  caps = 0;
  failure = failure;
}
logged (asks_admit id member caps) failure = record {
  op = op_of (asks_admit id member caps);
  room = id;
  member = member;
  source = record { member = []; kind = 0 };
  gain = 0;
  caps = caps;
  failure = failure;
}
logged (asks_revoke id member) failure = record {
  op = op_of (asks_revoke id member);
  room = id;
  member = member;
  source = record { member = []; kind = 0 };
  gain = 0;
  caps = 0;
  failure = failure;
}
logged (asks_publish id member kind) failure = record {
  op = op_of (asks_publish id member kind);
  room = id;
  member = member;
  source = (record { member = member; kind = kind });
  gain = 0;
  caps = 0;
  failure = failure;
}
logged (asks_unpublish id member kind) failure = record {
  op = op_of (asks_unpublish id member kind);
  room = id;
  member = member;
  source = (record { member = member; kind = kind });
  gain = 0;
  caps = 0;
  failure = failure;
}
logged (asks_subscribe id s x) failure = record {
  op = op_of (asks_subscribe id s x);
  room = id;
  member = s;
  source = x;
  gain = 0;
  caps = 0;
  failure = failure;
}
logged (asks_unsubscribe id s x) failure = record {
  op = op_of (asks_unsubscribe id s x);
  room = id;
  member = s;
  source = x;
  gain = 0;
  caps = 0;
  failure = failure;
}
logged (asks_gain id s x gain) failure = record {
  op = op_of (asks_gain id s x gain);
  room = id;
  member = s;
  source = x;
  gain = gain;
  caps = 0;
  failure = failure;
}

attempt-calls :
    {A : Type 0} (ended : Bool) (call : MediaCall) (f : Fake) (body : Answer A)
    → call.failure ≡ none
    → body.0.calls ≡ f.calls
    → (attempt ended call f body).0.calls
      ≡ f.calls ++ record call { failure = (outcome (attempt ended call f body)).1 } ∷ []
unfolding attempt answer begin record_call
attempt-calls ended call f (g, ok a) c h = ground arith
attempt-calls ended call f (g, err e) c h = ground arith

-- A request writes one call down behind those that were written before: the method with its
-- arguments, and the error that it ended in.
pub perform-calls :
    (less : Gain → Gain → Bool) (now : Time) (ended : Bool) (f : Fake) (r : Request)
    → (perform less now ended f r).0.calls ≡ f.calls ++ logged r (perform less now ended f r).1 ∷ []
unfolding perform valid_room valid_member valid_kind find_member create_room create_room_body
    destroy_room destroy_room_body admit_member admit_member_body admit_member_in revoke_member
    revoke_member_body revoke_member_in publish_source publish_source_body publish_source_in
    unpublish_source unpublish_source_body subscribe subscribe_body subscribe_in unsubscribe
    unsubscribe_body set_subscriber_gain set_subscriber_gain_body speaking_state speaking_state_body
    hop_metrics hop_metrics_body read_room drain_room drain_room_body drain_room_in
perform-calls less now ended f (asks_create id) =
    attempt-calls ended (logged (asks_create id) none) f (create_room_body f id) refl (ground arith)
perform-calls less now ended f (asks_destroy id) =
    attempt-calls ended (logged (asks_destroy id) none) f (destroy_room_body f id) refl
      (ground arith)
perform-calls less now ended f (asks_speaking id) =
    attempt-calls ended (logged (asks_speaking id) none) f (speaking_state_body f id) refl
      (ground arith)
perform-calls less now ended f (asks_hops id) =
    attempt-calls ended (logged (asks_hops id) none) f (hop_metrics_body now f id) refl
      (ground arith)
perform-calls less now ended f (asks_drain id) =
    attempt-calls ended (logged (asks_drain id) none) f (drain_room_body f id) refl (ground arith)
perform-calls less now ended f (asks_admit id member caps) =
    attempt-calls ended (logged (asks_admit id member caps) none) f
      (admit_member_body f id member caps) refl (ground arith)
perform-calls less now ended f (asks_revoke id member) =
    attempt-calls ended (logged (asks_revoke id member) none) f (revoke_member_body f id member)
      refl (ground arith)
perform-calls less now ended f (asks_publish id member kind) =
    attempt-calls ended (logged (asks_publish id member kind) none) f
      (publish_source_body f id (record { member = member; kind = kind })) refl (ground arith)
perform-calls less now ended f (asks_unpublish id member kind) =
    attempt-calls ended (logged (asks_unpublish id member kind) none) f
      (unpublish_source_body f id (record { member = member; kind = kind })) refl (ground arith)
perform-calls less now ended f (asks_subscribe id s x) =
    attempt-calls ended (logged (asks_subscribe id s x) none) f
      (subscribe_body f id (record { subscriber = s; source = x })) refl (ground arith)
perform-calls less now ended f (asks_unsubscribe id s x) =
    attempt-calls ended (logged (asks_unsubscribe id s x) none) f
      (unsubscribe_body f id (record { subscriber = s; source = x })) refl (ground arith)
perform-calls less now ended f (asks_gain id s x gain) =
    attempt-calls ended (logged (asks_gain id s x gain) none) f
      (set_subscriber_gain_body less f id (record { subscriber = s; source = x }) gain) refl
      (ground arith)

-- A body that refuses leaves the unit as it is.
attempt-refused :
    {A : Type 0} (ended : Bool) (call : MediaCall) (f : Fake) (body : Answer A) (e : MediaError)
    → ((x : MediaError) → body.1 ≡ err x → body.0 ≡ f)
    → (outcome (attempt ended call f body)).1 ≡ some e
    → (attempt ended call f body).0
      ≡ record f { calls = f.calls ++ record call { failure = some e } ∷ [] }
unfolding attempt answer begin record_call
attempt-refused ended call f (g, ok a) e k h = ground arith
attempt-refused ended call f (g, err x) e k h = ground (arith, k x)

-- A request that is refused changes nothing but the log, unless it is a drain, which closes the room
-- also where members are still in it.
pub perform-refused :
    (less : Gain → Gain → Bool) (now : Time) (ended : Bool) (f : Fake) (r : Request)
    (e : MediaError)
    → op_of r ≢ op_drain_room
    → (perform less now ended f r).1 ≡ some e
    → (perform less now ended f r).0 ≡ record f { calls = f.calls ++ logged r (some e) ∷ [] }
unfolding perform valid_room valid_member valid_kind find_member create_room create_room_body
    destroy_room destroy_room_body admit_member admit_member_body admit_member_in revoke_member
    revoke_member_body revoke_member_in publish_source publish_source_body publish_source_in
    unpublish_source unpublish_source_body subscribe subscribe_body subscribe_in unsubscribe
    unsubscribe_body set_subscriber_gain set_subscriber_gain_body speaking_state speaking_state_body
    hop_metrics hop_metrics_body read_room drain_room drain_room_body drain_room_in
perform-refused less now ended f (asks_create id) e n h =
    attempt-refused ended (logged (asks_create id) none) f (create_room_body f id) e (ground arith)
      h
perform-refused less now ended f (asks_destroy id) e n h =
    attempt-refused ended (logged (asks_destroy id) none) f (destroy_room_body f id) e
      (ground arith) h
perform-refused less now ended f (asks_speaking id) e n h =
    attempt-refused ended (logged (asks_speaking id) none) f (speaking_state_body f id) e
      (ground arith) h
perform-refused less now ended f (asks_hops id) e n h =
    attempt-refused ended (logged (asks_hops id) none) f (hop_metrics_body now f id) e
      (ground arith) h
perform-refused less now ended f (asks_drain id) e n h = absurd (n refl)
perform-refused less now ended f (asks_admit id member caps) e n h =
    attempt-refused ended (logged (asks_admit id member caps) none) f
      (admit_member_body f id member caps) e (ground arith) h
perform-refused less now ended f (asks_revoke id member) e n h =
    attempt-refused ended (logged (asks_revoke id member) none) f (revoke_member_body f id member) e
      (ground arith) h
perform-refused less now ended f (asks_publish id member kind) e n h =
    attempt-refused ended (logged (asks_publish id member kind) none) f
      (publish_source_body f id (record { member = member; kind = kind })) e (ground arith) h
perform-refused less now ended f (asks_unpublish id member kind) e n h =
    attempt-refused ended (logged (asks_unpublish id member kind) none) f
      (unpublish_source_body f id (record { member = member; kind = kind })) e (ground arith) h
perform-refused less now ended f (asks_subscribe id s x) e n h =
    attempt-refused ended (logged (asks_subscribe id s x) none) f
      (subscribe_body f id (record { subscriber = s; source = x })) e (ground arith) h
perform-refused less now ended f (asks_unsubscribe id s x) e n h =
    attempt-refused ended (logged (asks_unsubscribe id s x) none) f
      (unsubscribe_body f id (record { subscriber = s; source = x })) e (ground arith) h
perform-refused less now ended f (asks_gain id s x gain) e n h =
    attempt-refused ended (logged (asks_gain id s x gain) none) f
      (set_subscriber_gain_body less f id (record { subscriber = s; source = x }) gain) e
      (ground arith) h
