-- ===== src/Orchestration/PresenceHub/Examples.antt =====
-- Runs of internal/orchestration/presence_hub.go.
use stammtisch.Prelude.{
  ℕ_discrete, ◌≢◌, inl, arith, ◌≡◌, ◌↔◌, refl, true, false, List, [], ◌∷◌, some, ok, In, IsDistinct,
  map,
}
use stammtisch.Prelude.Int.{pos}
use stammtisch.Prelude.Bytes.{Bytes, Bytes-discrete, bytes, bytes_key}
use stammtisch.Prelude.Map.{lookup, insert, delete}
use stammtisch.Orchestration.EntityId.{EntityId-discrete, id_key, is_zero}
use stammtisch.Orchestration.Clock.{unix}
use stammtisch.Orchestration.Permission.{
  has, declared, Permission-discrete, allow, Grantor, new_permission_set, see_channel, person,
}
use stammtisch.Orchestration.Presence.Passing.{IsPassed}
use stammtisch.Orchestration.Presence.{
  PresenceReport, run, new_projection, count, count_in, increment,
}
use stammtisch.Orchestration.Presence as Projections
use stammtisch.Orchestration.PresenceHub.{
  add_channel, attach, hub_step, apply, after_change, CountUpdate, MemberUpdate, Delivery, Client,
  Hub, HubCall, holds_channel, attaches, subscribes, reports, new_hub, hub_run, flush, visible,
  flag, message_for,
}
use stammtisch.Orchestration.PresenceHub.Invariant.{IsWellFormed, hub_run-new_hub-IsWellFormed}
use stammtisch.Orchestration.PresenceHub.Due.{SeesChannel}
use stammtisch.Orchestration.PresenceHub.Flushing.{
  IsSaid, HasDue, IsAboutVisible, flush_lem, flush-IsAboutVisible,
}
use stammtisch.Orchestration.PresenceHub.History.{counts-report_all}
use stammtisch.Orchestration.PresenceHub.Saying.{last_said}
use stammtisch.Orchestration.PresenceHub.Waiting.{members-report_all}
use stammtisch.Orchestration.PresenceHub.Pending.{report_all, report_all-counts}
use stammtisch.Orchestration.Sample.{alice, bob, lobby, home}

abbrev all_see : Grantor
all_see p s = new_permission_set (see_channel ∷ [])

abbrev start : Hub
start = record {
  space = home;
  grants = all_see;
  channels = [];
  known = [];
  projection = new_projection;
  clients = [];
  attached = [];
  pending = [];
}

started : new_hub home (some all_see) ≡ ok start
unfolding new_hub is_zero
started = refl

abbrev bob_enters : PresenceReport
bob_enters = record { member = bob; seq = 1; channel = lobby; since = pos 0; self_muted = false }

abbrev evening : List HubCall
evening =
    holds_channel lobby
    ∷ attaches (bytes "c1") (person alice)
    ∷ subscribes (bytes "c1") lobby
    ∷ reports bob_enters
    ∷ []

abbrev busy : Hub
busy = hub_run start evening

hub_run-new_hub-IsWellFormed_example : IsWellFormed (hub_run start evening)
hub_run-new_hub-IsWellFormed_example =
    hub_run-new_hub-IsWellFormed home all_see start evening started

busy-IsWellFormed : IsWellFormed busy
busy-IsWellFormed = hub_run-new_hub-IsWellFormed home all_see start evening started

flush-IsAboutVisible_example :
    (q : Hub) × (out : List Delivery) × (flush busy ≡ some (q, out))
    × ((d : Delivery)
        → In d out
        → (c : Client) × (lookup d.client busy.clients ≡ some c) × IsAboutVisible busy c d.message)
flush-IsAboutVisible_example = flush-IsAboutVisible home all_see start evening started

flush_lem_example :
    (out : List Delivery) × (flush busy ≡ some (record busy { pending = [] }, out))
    × IsDistinct (map (λ d. d.client) out)
    × ((d : Delivery)
        → In d out
        → In d.client busy.attached
          × ((c : Client) × (lookup d.client busy.clients ≡ some c)
              × IsSaid busy c d.message
              × HasDue busy c))
    × ((id : Bytes) (c : Client)
        → In id busy.attached
        → lookup id busy.clients ≡ some c
        → HasDue busy c
        → (d : Delivery) × In d out × (d.client ≡ id))
flush_lem_example = flush_lem busy busy-IsWellFormed

abbrev watching : Client
watching = record { viewer = person alice; subscribed = (lobby, true) ∷ [] }

abbrev bob_there : MemberUpdate
bob_there = record {
  channel = lobby;
  member = bob;
  present = true;
  now = record { channel = lobby; member = bob; since_unix = pos 0; self_muted = false };
}

abbrev quiet : Hub
quiet = hub_run start (holds_channel lobby ∷ attaches (bytes "c1") (person alice) ∷ [])

quiet-IsWellFormed : IsWellFormed quiet
quiet-IsWellFormed =
    hub_run-new_hub-IsWellFormed home all_see start
      (holds_channel lobby ∷ attaches (bytes "c1") (person alice) ∷ []) started

abbrev one_in_lobby : CountUpdate
one_in_lobby = record { channel = lobby; count = 1 }

none_waits : quiet.pending ≡ []
unfolding hub_run hub_step add_channel attach flag lookup insert delete is_zero
none_waits = refl

lobby_listed : In lobby quiet.channels
unfolding hub_run hub_step add_channel attach flag lookup insert delete is_zero
lobby_listed = inl refl

sees_lobby : visible (report_all quiet (bob_enters ∷ [])) watching lobby ≡ true
unfolding hub_run hub_step add_channel attach flag lookup insert delete is_zero report_all apply
    after_change visible allow Projections.apply new_projection EntityId-discrete Bytes-discrete
    ℕ_discrete has new_permission_set declared Permission-discrete
sees_lobby = refl

counts_one : count (report_all quiet (bob_enters ∷ [])).projection lobby ≡ 1
unfolding hub_run hub_step add_channel attach flag lookup insert delete is_zero report_all apply
    after_change count Projections.apply new_projection increment EntityId-discrete Bytes-discrete
    ℕ_discrete
counts_one = refl

counted_none : count quiet.projection lobby ≡ 0
unfolding hub_run hub_step add_channel attach flag lookup insert delete is_zero count count_in
    new_projection
counted_none = refl

count_moves :
    count (report_all quiet (bob_enters ∷ [])).projection lobby ≢ count quiet.projection lobby
count_moves = ground (arith, counts_one, counted_none)

report_all-counts_example :
    In
      (record {
        channel = lobby;
        count = count (report_all quiet (bob_enters ∷ [])).projection lobby;
      })
      (message_for (report_all quiet (bob_enters ∷ [])) watching).counts
report_all-counts_example =
    report_all-counts quiet (bob_enters ∷ []) watching lobby quiet-IsWellFormed lobby_listed
      sees_lobby count_moves

-- A hub that nothing waits in, before Bob's report.
counts-report_all_example :
    In one_in_lobby (message_for (report_all quiet (bob_enters ∷ [])) watching).counts ↔ (
      In lobby quiet.channels
      × SeesChannel quiet watching lobby
      × IsPassed quiet.projection (bob_enters ∷ []) lobby
      × (1 ≡ count (run quiet.projection (bob_enters ∷ [])) lobby))
counts-report_all_example =
    counts-report_all quiet (bob_enters ∷ []) watching one_in_lobby quiet-IsWellFormed none_waits

members-report_all_example :
    In bob_there (message_for (report_all quiet (bob_enters ∷ [])) watching).members ↔ (
      In lobby quiet.channels
      × SeesChannel quiet watching lobby
      × (lookup lobby watching.subscribed ≡ some true)
      × (last_said quiet.projection (bob_enters ∷ []) lobby bob ≡ some bob_there))
members-report_all_example =
    members-report_all quiet (bob_enters ∷ []) watching bob_there quiet-IsWellFormed none_waits

-- The last there was to say of Bob in the lobby is that he is there.
bob_is_said : last_said quiet.projection (bob_enters ∷ []) lobby bob ≡ some bob_there
unfolding hub_run hub_step add_channel attach flag lookup insert delete is_zero Projections.apply
    new_projection EntityId-discrete Bytes-discrete ℕ_discrete unix
bob_is_said = refl
