-- ===== src/Orchestration/PresenceHub/Flushing.antt =====
-- The deliveries of `Flush` of internal/orchestration/presence_hub.go.
use stammtisch.Prelude.{
  ◌≡◌, refl, subst, sym, ap, ◌∙◌, true, false, List, [], ◌∷◌, some, ok, arith, inl, inr, ◌⊎◌, ◌↔◌,
  In, IsDistinct, map,
}
use stammtisch.Prelude.Bytes.{Bytes, bytes_key}
use stammtisch.Prelude.Map.{lookup}
use stammtisch.Orchestration.EntityId.{EntityId, id_key}
use stammtisch.Orchestration.Permission.{Grantor, allow, see_channel, channel_subject}
use stammtisch.Orchestration.PresenceHub.{
  CountUpdate, MemberUpdate, Message, Delivery, Client, Hub, HubCall, PendingChannel,
  add_channel_to, visible, changed, message_from, no_message, message_for, is_empty_message, flush,
  new_hub, hub_run,
}
use stammtisch.Orchestration.PresenceHub.Invariant.{IsWellFormed, hub_run-new_hub-IsWellFormed}
use stammtisch.Orchestration.PresenceHub.Due.{
  SeesChannel, DueCount, DueMember, message_for-DueCount, message_for-DueMember,
}
use stammtisch.Orchestration.PresenceHub.Fanout.{counts-message_for, members-message_for}
use stammtisch.Orchestration.PresenceHub.Deliveries.{List-cases, flush-IsDue}

-- A message of the interval says exactly what its client is due.
abbrev pub IsSaid : Hub → Client → Message → Type 0
IsSaid h c msg =
    (msg.snapshot ≡ false)
    × ((u : CountUpdate) → In u msg.counts ↔ DueCount h c u)
    × ((u : MemberUpdate) → In u msg.members ↔ DueMember h c u)

abbrev pub HasDue : Hub → Client → Type 0
HasDue h c = ((u : CountUpdate) × DueCount h c u) ⊎ ((u : MemberUpdate) × DueMember h c u)

snapshot-message_from :
    (h : Hub) (c : Client) (entries : List (EntityId × PendingChannel)) (msg : Message)
    → (message_from h c entries msg).snapshot ≡ msg.snapshot
unfolding message_from add_channel_to
snapshot-message_from h c [] msg = refl
snapshot-message_from h c ((channel, p) ∷ entries) msg =
    ground (arith, snapshot-message_from h c entries (add_channel_to h c (channel, p) msg))

message_for-IsSaid : (h : Hub) (c : Client) → IsWellFormed h → IsSaid h c (message_for h c)
unfolding message_for
message_for-IsSaid h c v = (
  snapshot-message_from h c (changed h.pending h.channels) no_message,
  (λ u. message_for-DueCount h c u v),
  (λ u. message_for-DueMember h c u v),
)

-- A message is dropped only where it has neither counts nor member updates.
is_empty_message_lem :
    (msg : Message)
    → is_empty_message msg ≡ false
    → ((u : CountUpdate) × In u msg.counts) ⊎ ((u : MemberUpdate) × In u msg.members)
unfolding is_empty_message
is_empty_message_lem msg e = elim (List-cases msg.counts) [
  | inr (u, rest, f) ↦ inl (u, subst (In u) (sym f) (inl refl))
  | inl f ↦ elim (List-cases msg.members) [
    | inr (u, rest, g) ↦ inr (u, subst (In u) (sym g) (inl refl))
    | inl g ↦ ground arith
  ]
]

In-not_empty :
    (msg : Message)
    → ((u : CountUpdate) × In u msg.counts) ⊎ ((u : MemberUpdate) × In u msg.members)
    → is_empty_message msg ≡ false
unfolding is_empty_message
In-not_empty msg (inl (u, i)) = ground arith
In-not_empty msg (inr (u, i)) = ground arith

HasDue-is_empty_message :
    (h : Hub) (c : Client)
    → IsWellFormed h
    → (is_empty_message (message_for h c) ≡ false) ↔ HasDue h c
HasDue-is_empty_message h c v =
    let (_, counts, members) = message_for-IsSaid h c v in
    (
      (λ e. elim (is_empty_message_lem (message_for h c) e) [
        | inl (u, i) ↦ inl (u, (counts u).0 i)
        | inr (u, i) ↦ inr (u, (members u).0 i)
      ]),
      (λ due. In-not_empty (message_for h c) (elim due [
        | inl (u, i) ↦ inl (u, (counts u).1 i)
        | inr (u, i) ↦ inr (u, (members u).1 i)
      ])),
    )

-- Ending the interval in a well-formed hub never meets a client that the map lacks. Nothing waits
-- afterwards and nothing else of the hub changes. At most one message goes out to a client. Each goes
-- to a client that is attached and is due something, is no snapshot, and says exactly what is due: the
-- current count of each channel that the client's viewer may see and whose count is marked as moved, and
-- each waiting update of a member of a channel that the viewer may see and the client is subscribed to.
-- Every attached client that is due a count or a member update gets a message.
pub flush_lem :
    (h : Hub)
    → IsWellFormed h
    → (out : List Delivery) × (flush h ≡ some (record h { pending = [] }, out))
      × IsDistinct (map (λ d. d.client) out)
      × ((d : Delivery)
          → In d out
          → In d.client h.attached
            × ((c : Client) × (lookup d.client h.clients ≡ some c)
                × IsSaid h c d.message
                × HasDue h c))
      × ((id : Bytes) (c : Client)
          → In id h.attached
          → lookup id h.clients ≡ some c
          → HasDue h c
          → (d : Delivery) × In d out × (d.client ≡ id))
flush_lem h v =
    let (out, e, one, sound, full) = flush-IsDue h v in
    (
      out,
      e,
      one,
      (λ d i.
          let (attached, (c, q)) = sound d i in
          (
            attached,
            (
              c,
              q.client_of,
              subst (IsSaid h c) (sym q.message_of) (message_for-IsSaid h c v),
              (HasDue-is_empty_message h c v).0
                  (sym (ap is_empty_message q.message_of) ∙ q.not_empty),
            ),
          )),
      (λ id c i f due.
          let d : Delivery = record { client = id; message = message_for h c } in
          (
            d,
            full d c i (record {
              client_of = f;
              message_of = refl;
              not_empty = (HasDue-is_empty_message h c v).1 due;
            }),
            refl,
          )),
    )

visible-allow :
    (h : Hub) (c : Client) (channel : EntityId)
    → visible h c channel ≡ true
    → allow (some h.grants) c.viewer see_channel (channel_subject h.space channel) ≡ true
unfolding visible
visible-allow h c channel e = ground arith

-- Every channel that a message names is one that the client's viewer may see.
abbrev pub IsAboutVisible : Hub → Client → Message → Type 0
IsAboutVisible h c msg =
    ((u : CountUpdate) → In u msg.counts → SeesChannel h c u.channel)
    × ((u : MemberUpdate) → In u msg.members → SeesChannel h c u.channel)

message_for-IsAboutVisible :
    (h : Hub) (c : Client) → IsWellFormed h → IsAboutVisible h c (message_for h c)
message_for-IsAboutVisible h c v = (
  (λ u i. visible-allow h c u.channel ((counts-message_for h c u).0 i).1),
  (λ u i. visible-allow h c u.channel ((members-message_for h c u v).0 i).1),
)

-- Nobody is told of what they may not see: whatever was called on a new hub before, ending the interval
-- goes through, and each message that goes out is to a client of the hub and names, for counts and for
-- members, only channels that the grants let that client's viewer see at that moment.
pub flush-IsAboutVisible :
    (space : EntityId) (grants : Grantor) (start : Hub) (cs : List HubCall)
    → new_hub space (some grants) ≡ ok start
    → (q : Hub) × (out : List Delivery) × (flush (hub_run start cs) ≡ some (q, out))
      × ((d : Delivery)
          → In d out
          → (c : Client) × (lookup d.client (hub_run start cs).clients ≡ some c)
            × IsAboutVisible (hub_run start cs) c d.message)
flush-IsAboutVisible space grants start cs e =
    let h = hub_run start cs in
    let v = hub_run-new_hub-IsWellFormed space grants start cs e in
    let (out, f, _, sound, _) = flush-IsDue h v in
    (
      record h { pending = [] },
      out,
      f,
      (λ d i.
          let (c, due) = (sound d i).1 in
          (
            c,
            due.client_of,
            subst (IsAboutVisible h c) (sym due.message_of) (message_for-IsAboutVisible h c v),
          )),
    )
