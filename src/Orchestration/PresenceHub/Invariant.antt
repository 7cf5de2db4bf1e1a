-- ===== src/Orchestration/PresenceHub/Invariant.antt =====
-- What holds of a hub of internal/orchestration/presence_hub.go between two calls.
use stammtisch.Prelude.{
  ◌≡◌, ◌≢◌, ◌↔◌, subst, true, false, List, [], ◌∷◌, ◌++◌, Option, none, some, ok, arith, inl, inr,
  In, IsDistinct, In-append, IsDistinct-append, is_some, Option-cases,
}
use stammtisch.Prelude.Bytes.{Bytes, bytes_key}
use stammtisch.Prelude.Map.{FinMap, lookup, insert, delete, lookup-insert, lookup-delete}
use stammtisch.Orchestration.EntityId.{EntityId, id_key}
use stammtisch.Orchestration.Permission.{Grantor}
use stammtisch.Orchestration.Presence.{
  Presence, PresenceReport, PresenceChange, Projection, new_projection, moved,
}
use stammtisch.Orchestration.Presence as Projections
use stammtisch.Orchestration.Presence.Counts.{IsCounted, apply-IsCounted, new_projection-IsCounted}
use stammtisch.Orchestration.PresenceHub.{
  Client, PendingChannel, Hub, HubCall, holds_channel, attaches, detaches, subscribes, unsubscribes,
  reports, flushes, flag, new_hub, add_channel, attach, detach, drop_client, subscribe,
  subscribe_client, unsubscribe, unsubscribe_client, note_change, after_change, apply, flush,
  hub_step, hub_run, kept, flushed,
}
use stammtisch.Orchestration.PresenceHub.Filing.{IsFiled, AreFiled, note_change-AreFiled}

-- The counts are right; the attached clients are those that the hub knows, each once; the channels are
-- those that the hub holds, each once; and what waits under a channel is about it.
pub record IsWellFormed (h : Hub) : Type 0 where
  pub counted : IsCounted h.projection
  pub one_client : IsDistinct h.attached
  pub listed : (id : Bytes) → In id h.attached ↔ (is_some (lookup id h.clients) ≡ true)
  pub one_channel : IsDistinct h.channels
  pub held : (channel : EntityId) → In channel h.channels ↔ (flag channel h.known ≡ true)
  pub filed :
      (channel : EntityId) (p : PendingChannel)
      → lookup channel h.pending ≡ some p
      → IsFiled channel p.members

In-drop_client :
    (id x : Bytes) (attached : List Bytes)
    → IsDistinct attached
    → In x (drop_client id attached) ↔ (In x attached × (x ≢ id))
unfolding drop_client
In-drop_client id x [] d = ground arith
In-drop_client id x (y ∷ attached) d =
    ground (arith, In-drop_client id x attached d.1, λ (e : x ≡ y). subst (λ z. In z attached) e)

IsDistinct-drop_client :
    (id : Bytes) (attached : List Bytes)
    → IsDistinct attached
    → IsDistinct (drop_client id attached)
unfolding drop_client
IsDistinct-drop_client id [] d = tt
IsDistinct-drop_client id (y ∷ attached) d =
    ground (arith, IsDistinct-drop_client id attached d.1, In-drop_client id y attached d.1)

add-IsWellFormed :
    (h : Hub) (channel : EntityId)
    → flag channel h.known ≡ false
    → IsWellFormed h
    → IsWellFormed
        (record h { known = insert channel true h.known; channels = h.channels ++ channel ∷ [] })
unfolding flag
add-IsWellFormed h channel n v = record {
  counted = v.counted;
  one_client = v.one_client;
  listed = v.listed;
  one_channel = IsDistinct-append channel h.channels v.one_channel (ground (arith, v.held channel));
  held = λ c.
      ground
        (arith, v.held c, In-append c channel h.channels, lookup-insert c channel true h.known);
  filed = v.filed;
}

attach-IsWellFormed :
    (h : Hub) (id : Bytes) (c : Client)
    → lookup id h.clients ≡ none
    → IsWellFormed h
    → IsWellFormed (record h { clients = insert id c h.clients; attached = h.attached ++ id ∷ [] })
attach-IsWellFormed h id c n v = record {
  counted = v.counted;
  one_client = IsDistinct-append id h.attached v.one_client (ground (arith, v.listed id));
  listed =
      λ x. ground (arith, v.listed x, In-append x id h.attached, lookup-insert x id c h.clients);
  one_channel = v.one_channel;
  held = v.held;
  filed = v.filed;
}

detach-IsWellFormed :
    (h : Hub) (id : Bytes)
    → IsWellFormed h
    → IsWellFormed
        (record h { clients = delete id h.clients; attached = drop_client id h.attached })
detach-IsWellFormed h id v = record {
  counted = v.counted;
  one_client = IsDistinct-drop_client id h.attached v.one_client;
  listed = λ x. ground (
    arith,
    v.listed x,
    In-drop_client id x h.attached v.one_client,
    lookup-delete x id h.clients,
  );
  one_channel = v.one_channel;
  held = v.held;
  filed = v.filed;
}

-- A client that is attached is written to.
client-IsWellFormed :
    (h : Hub) (id : Bytes) (b c : Client)
    → lookup id h.clients ≡ some b
    → IsWellFormed h
    → IsWellFormed (record h { clients = insert id c h.clients })
client-IsWellFormed h id b c e v = record {
  counted = v.counted;
  one_client = v.one_client;
  listed = λ x. ground (arith, v.listed x, v.listed id, lookup-insert x id c h.clients);
  one_channel = v.one_channel;
  held = v.held;
  filed = v.filed;
}

report-IsWellFormed :
    (h : Hub) (projection : Projection) (pending : FinMap EntityId PendingChannel)
    → IsCounted projection
    → AreFiled pending
    → IsWellFormed h
    → IsWellFormed (record h { projection = projection; pending = pending })
report-IsWellFormed h projection pending c f v = record {
  counted = c;
  one_client = v.one_client;
  listed = v.listed;
  one_channel = v.one_channel;
  held = v.held;
  filed = f;
}

after_change-IsWellFormed :
    (h : Hub) (r : Projection × Option PresenceChange)
    → IsCounted r.0
    → IsWellFormed h
    → IsWellFormed (after_change h r).0
unfolding after_change
after_change-IsWellFormed h (projection, none) c v =
    report-IsWellFormed h projection h.pending c v.filed v
after_change-IsWellFormed h (projection, some change) c v =
    report-IsWellFormed h projection (note_change h.pending change) c
      (note_change-AreFiled h.pending change v.filed) v

pub apply-IsWellFormed :
    (h : Hub) (r : PresenceReport) → IsWellFormed h → IsWellFormed (apply h r).0
unfolding apply
apply-IsWellFormed h r v =
    after_change-IsWellFormed h (Projections.apply h.projection r)
      (apply-IsCounted h.projection r v.counted) v

subscribe-IsWellFormed :
    (h : Hub) (id : Bytes) (channel : EntityId)
    → IsWellFormed h
    → IsWellFormed (kept h (subscribe h id channel))
unfolding subscribe subscribe_client
subscribe-IsWellFormed h id channel v = elim (Option-cases (lookup id h.clients)) [
  | inl e ↦ rw e v
  | inr (c, e) ↦ ground (
    arith,
    v,
    e,
    client-IsWellFormed h id c (record c { subscribed = insert channel true c.subscribed }) e v,
  )
]

unsubscribe-IsWellFormed :
    (h : Hub) (id : Bytes) (channel : EntityId)
    → IsWellFormed h
    → IsWellFormed (unsubscribe h id channel)
unfolding unsubscribe unsubscribe_client
unsubscribe-IsWellFormed h id channel v = elim (Option-cases (lookup id h.clients)) [
  | inl e ↦ rw e v
  | inr (c, e) ↦
      rw e (client-IsWellFormed h id c (record c { subscribed = delete channel c.subscribed }) e v)
]

flush-IsWellFormed : (h : Hub) → IsWellFormed h → IsWellFormed (flushed h (flush h))
unfolding flush lookup
flush-IsWellFormed h v =
    let w = report-IsWellFormed h h.projection [] v.counted (λ c p e. ground arith) v in
    ground (arith, v, w)

-- Every call on the hub, accepted or refused, keeps it well formed.
pub hub_step-IsWellFormed : (h : Hub) (c : HubCall) → IsWellFormed h → IsWellFormed (hub_step h c)
unfolding hub_step add_channel attach detach
hub_step-IsWellFormed h (holds_channel channel) v = ground (arith, v, add-IsWellFormed h channel)
hub_step-IsWellFormed h (attaches id viewer) v =
    ground (arith, v, attach-IsWellFormed h id (record { viewer = viewer; subscribed = [] }))
hub_step-IsWellFormed h (detaches id) v = ground (arith, v, detach-IsWellFormed h id v)
hub_step-IsWellFormed h (subscribes id channel) v = subscribe-IsWellFormed h id channel v
hub_step-IsWellFormed h (unsubscribes id channel) v = unsubscribe-IsWellFormed h id channel v
hub_step-IsWellFormed h (reports r) v = apply-IsWellFormed h r v
hub_step-IsWellFormed h flushes v = flush-IsWellFormed h v

hub_run-IsWellFormed : (h : Hub) (cs : List HubCall) → IsWellFormed h → IsWellFormed (hub_run h cs)
unfolding hub_run
hub_run-IsWellFormed h [] v = v
hub_run-IsWellFormed h (c ∷ cs) v =
    hub_run-IsWellFormed (hub_step h c) cs (hub_step-IsWellFormed h c v)

new_hub-IsWellFormed :
    (space : EntityId) (grants : Grantor) (h : Hub)
    → new_hub space (some grants) ≡ ok h
    → IsWellFormed h
unfolding new_hub lookup flag
new_hub-IsWellFormed space grants h e =
    let none_held : IsWellFormed (record {
      space = space;
      grants = grants;
      channels = [];
      known = [];
      projection = new_projection;
      clients = [];
      attached = [];
      pending = [];
    }) =
      record {
        counted = new_projection-IsCounted;
        one_client = tt;
        listed = λ id. ground arith;
        one_channel = tt;
        held = λ c. ground arith;
        filed = λ c p i. ground arith;
      } in
    subst IsWellFormed (ground arith) none_held

-- After any history of calls on a new hub, its counts are the numbers of members present, the clients
-- in its order are those in its map, each once, so are its channels, and every update that waits is
-- filed under the channel and the member that it is about.
pub hub_run-new_hub-IsWellFormed :
    (space : EntityId) (grants : Grantor) (h : Hub) (cs : List HubCall)
    → new_hub space (some grants) ≡ ok h
    → IsWellFormed (hub_run h cs)
hub_run-new_hub-IsWellFormed space grants h cs e =
    hub_run-IsWellFormed h cs (new_hub-IsWellFormed space grants h e)
