-- ===== src/Orchestration/Presence/Counts.antt =====
-- The counts of internal/orchestration/presence.go.
use stammtisch.Prelude.{
  ℕ, ◌+◌, ◌-◌, ◌<◌, ◌≡◌, refl, Bool, false, List, [], ◌∷◌, none, some, arith, holds, if◌then◌else◌,
  Option-cases, inl, inr,
}
use stammtisch.Prelude.Map.{
  FinMap, ◌≟◌, lookup, insert, IsFunctional, lookup-insert, lookup-delete, insert-IsFunctional,
  delete-IsFunctional, count_where, count_where-insert, count_where-delete,
}
use stammtisch.Orchestration.EntityId.{EntityId, id_key, is_zero}
use stammtisch.Orchestration.Presence.{
  Presence, PresenceReport, Projection, new_projection, count_in, increment, decrement, published,
  apply_leave, apply_in, apply, run, count,
}

abbrev pub in_channel : EntityId → Presence → Bool
in_channel channel pr = holds (pr.channel ≟ channel)

pub count_in-increment :
    (counts : FinMap EntityId ℕ) (channel c : EntityId)
    → count_in (increment counts channel) c
      ≡ count_in counts c + (if holds (channel ≟ c) then 1 else 0)
unfolding count_in increment
count_in-increment counts channel c =
    ground (arith, lookup-insert c channel (count_in counts channel + 1) counts)

pub count_in-decrement :
    (counts : FinMap EntityId ℕ) (channel c : EntityId)
    → count_in (decrement counts channel) c
      ≡ count_in counts c - (if holds (channel ≟ c) then 1 else 0)
unfolding count_in decrement
count_in-decrement counts channel c = ground (
  arith,
  lookup-insert c channel (count_in counts channel - 1) counts,
  lookup-delete c channel counts,
)

-- Each channel's count is the number of members present in it; a member stands once, under their own
-- identifier and in a real channel; and an empty channel has no entry.
pub record IsCounted (p : Projection) : Type 0 where
  pub one_presence : IsFunctional p.present
  pub counted : (c : EntityId) → count_in p.counts c ≡ count_where (in_channel c) p.present
  pub present_ok :
      (m : EntityId) (pr : Presence)
      → lookup m p.present ≡ some pr
      → (pr.member ≡ m) × (is_zero pr.channel ≡ false)
  pub no_zero : (c : EntityId) (n : ℕ) → lookup c p.counts ≡ some n → 0 < n

increment-no_zero :
    (counts : FinMap EntityId ℕ) (channel : EntityId)
    → ((c : EntityId) (n : ℕ) → lookup c counts ≡ some n → 0 < n)
    → (c : EntityId) (n : ℕ) → lookup c (increment counts channel) ≡ some n
    → 0 < n
unfolding increment
increment-no_zero counts channel h c n e =
    ground (arith, h c n, lookup-insert c channel (count_in counts channel + 1) counts)

decrement-no_zero :
    (counts : FinMap EntityId ℕ) (channel : EntityId)
    → ((c : EntityId) (n : ℕ) → lookup c counts ≡ some n → 0 < n)
    → (c : EntityId) (n : ℕ) → lookup c (decrement counts channel) ≡ some n
    → 0 < n
unfolding decrement
decrement-no_zero counts channel h c n e = ground (
  arith,
  h c n,
  lookup-insert c channel (count_in counts channel - 1) counts,
  lookup-delete c channel counts,
)

leave-IsCounted :
    (p : Projection) (r : PresenceReport)
    → IsCounted p
    → IsCounted (apply_leave p r (lookup r.member p.present)).0
unfolding apply_leave
leave-IsCounted p r v = elim (Option-cases (lookup r.member p.present)) [
  | inl e ↦ rw e v
  | inr (was, e) ↦ rw e (record {
    one_presence = delete-IsFunctional r.member p.present v.one_presence;
    counted = λ c. ground (
      arith,
      count_in-decrement p.counts was.channel c,
      v.counted c,
      count_where-delete (in_channel c) r.member p.present v.one_presence,
    );
    present_ok = λ m pr h. ground (arith, v.present_ok m pr, lookup-delete m r.member p.present);
    no_zero = decrement-no_zero p.counts was.channel v.no_zero;
  })
]

join-IsCounted :
    (p : Projection) (r : PresenceReport)
    → is_zero r.channel ≡ false
    → lookup r.member p.present ≡ none
    → IsCounted p
    → IsCounted (record p {
      present = insert r.member (published r) p.present;
      counts = increment p.counts r.channel;
    })
unfolding published
join-IsCounted p r z e v = record {
  one_presence = insert-IsFunctional r.member (published r) p.present v.one_presence;
  counted = λ c. ground (
    arith,
    count_in-increment p.counts r.channel c,
    v.counted c,
    count_where-insert (in_channel c) r.member (published r) p.present v.one_presence,
  );
  present_ok =
      λ m pr h. ground (arith, v.present_ok m pr, lookup-insert m r.member (published r) p.present);
  no_zero = increment-no_zero p.counts r.channel v.no_zero;
}

stay-IsCounted :
    (p : Projection) (r : PresenceReport) (was : Presence)
    → is_zero r.channel ≡ false
    → lookup r.member p.present ≡ some was
    → was.channel ≡ r.channel
    → IsCounted p
    → IsCounted (record p { present = insert r.member (published r) p.present })
unfolding published
stay-IsCounted p r was z e same v = record {
  one_presence = insert-IsFunctional r.member (published r) p.present v.one_presence;
  counted = λ c. ground (
    arith,
    v.counted c,
    count_where-insert (in_channel c) r.member (published r) p.present v.one_presence,
  );
  present_ok =
      λ m pr h. ground (arith, v.present_ok m pr, lookup-insert m r.member (published r) p.present);
  no_zero = v.no_zero;
}

move-IsCounted :
    (p : Projection) (r : PresenceReport) (was : Presence)
    → is_zero r.channel ≡ false
    → lookup r.member p.present ≡ some was
    → IsCounted p
    → IsCounted (record p {
      present = insert r.member (published r) p.present;
      counts = increment (decrement p.counts was.channel) r.channel;
    })
unfolding published
move-IsCounted p r was z e v = record {
  one_presence = insert-IsFunctional r.member (published r) p.present v.one_presence;
  counted = λ c. ground (
    arith,
    count_in-increment (decrement p.counts was.channel) r.channel c,
    count_in-decrement p.counts was.channel c,
    v.counted c,
    count_where-delete (in_channel c) r.member p.present v.one_presence,
    count_where-insert (in_channel c) r.member (published r) p.present v.one_presence,
  );
  present_ok =
      λ m pr h. ground (arith, v.present_ok m pr, lookup-insert m r.member (published r) p.present);
  no_zero = increment-no_zero _ r.channel (decrement-no_zero p.counts was.channel v.no_zero);
}

in-IsCounted :
    (p : Projection) (r : PresenceReport)
    → is_zero r.channel ≡ false
    → IsCounted p
    → IsCounted (apply_in p r (lookup r.member p.present)).0
unfolding apply_in
in-IsCounted p r z v = elim (Option-cases (lookup r.member p.present)) [
  | inl e ↦ rw e (join-IsCounted p r z e v)
  | inr (was, e) ↦ rw e (ground (arith, stay-IsCounted p r was z e, move-IsCounted p r was z e v))
]

pub seen-IsCounted :
    (p : Projection) (r : PresenceReport)
    → IsCounted p
    → IsCounted (record p { seq = insert r.member r.seq p.seq })
seen-IsCounted p r v = record {
  one_presence = v.one_presence;
  counted = v.counted;
  present_ok = v.present_ok;
  no_zero = v.no_zero;
}

-- Every report, accepted or refused, keeps the counts right.
pub apply-IsCounted : (p : Projection) (r : PresenceReport) → IsCounted p → IsCounted (apply p r).0
unfolding apply
apply-IsCounted p r v =
    let seen = record p { seq = insert r.member r.seq p.seq } in
    let w = seen-IsCounted p r v in ground (arith, leave-IsCounted seen r w, in-IsCounted seen r)

pub run-IsCounted : (p : Projection) (rs : List PresenceReport) → IsCounted p → IsCounted (run p rs)
unfolding run
run-IsCounted p [] v = v
run-IsCounted p (r ∷ rs) v = run-IsCounted (apply p r).0 rs (apply-IsCounted p r v)

pub new_projection-IsCounted : IsCounted new_projection
unfolding new_projection count_in lookup count_where
new_projection-IsCounted = record {
  one_presence = tt;
  counted = λ c. refl;
  present_ok = λ m pr h. ground arith;
  no_zero = λ c n h. ground arith;
}

-- After any reports at all, in any order, a channel's count is the number of members present in it.
pub count-run :
    (rs : List PresenceReport) (c : EntityId)
    → count (run new_projection rs) c ≡ count_where (in_channel c) (run new_projection rs).present
unfolding count
count-run rs c = (run-IsCounted new_projection rs new_projection-IsCounted).counted c
