-- ===== src/Media/Fake/Operations/Sound.antt =====
-- What holds of every room of internal/media/fake/fake.go, and what keeps it.
use stammtisch.Prelude.{◌≡◌, holds, Bool, true, false, Option, none, some, ok, arith, subst}
use stammtisch.Prelude.Bytes.{Bytes, bytes_key}
use stammtisch.Prelude.Map.{
  FinMap, IsFunctional, insert-IsFunctional, delete-IsFunctional, lookup, insert, delete, is_set,
  lookup-insert, lookup-delete, lookup-remove_where, ◌≟◌,
}
use stammtisch.Media.{
  allows, Capability, may_subscribe, source_key, Source, Capabilities, valid_kind,
}
use stammtisch.Media.Fake.{new_room, Subscription, subscription_key, publishing, MediaRoom}
use stammtisch.Media.Fake.Operations.{is_of, without_member, without_source}

-- Whether an entry of the member table carries a capability.
abbrev pub can : Capability → Option Capabilities → Bool
can c none = false
can c (some caps) = allows caps c

-- Nobody stands in the member table twice. A source is published by a member who is admitted, may publish its kind, and names a kind there is.
-- A subscription is held by a member who is admitted and may subscribe, to a source that is published.
pub record IsSound (r : MediaRoom) : Type 0 where
  pub members_once : IsFunctional r.members
  pub published :
      (s : Source)
      → is_set s r.sources ≡ true
      → (can (publishing s.kind) (lookup s.member r.members) ≡ true) × (valid_kind s.kind ≡ ok tt)
  pub subscribed :
      (x : Subscription)
      → is_set x r.subscribers ≡ true
      → (can may_subscribe (lookup x.subscriber r.members) ≡ true)
        × (is_set x.source r.sources ≡ true)

abbrev pub AllSound : FinMap Bytes MediaRoom → Type 0
AllSound rooms = (id : Bytes) (r : MediaRoom) → lookup id rooms ≡ some r → IsSound r

pub new_room-IsSound : IsSound new_room
unfolding new_room is_set lookup
new_room-IsSound = record {
  members_once = tt;
  published = λ s h. ground arith;
  subscribed = λ x h. ground arith;
}

pub admit-IsSound :
    (member : Bytes) (caps : Capabilities) (r : MediaRoom)
    → lookup member r.members ≡ none
    → IsSound r
    → IsSound (record r { members = insert member caps r.members })
unfolding is_set
admit-IsSound member caps r n v = record {
  members_once = insert-IsFunctional member caps r.members v.members_once;
  published = λ s h. ground (arith, v.published s h, lookup-insert s.member member caps r.members);
  subscribed =
      λ x h. ground (arith, v.subscribed x h, lookup-insert x.subscriber member caps r.members);
}

pub revoke-IsSound :
    (member : Bytes) (r : MediaRoom) → IsSound r → IsSound (without_member member r)
unfolding without_member is_of is_set
revoke-IsSound member r v = record {
  members_once = delete-IsFunctional member r.members v.members_once;
  published = λ s h. ground (
    arith,
    v.published s,
    lookup-delete s.member member r.members,
    lookup-remove_where (λ s. holds (s.member ≟ member)) s r.sources,
  );
  subscribed = λ x h. ground (
    arith,
    v.subscribed x,
    lookup-delete x.subscriber member r.members,
    lookup-remove_where (is_of member) x r.subscribers,
    lookup-remove_where (λ s. holds (s.member ≟ member)) x.source r.sources,
  );
}

pub publish-IsSound :
    (s : Source) (caps : Capabilities) (r : MediaRoom)
    → lookup s.member r.members ≡ some caps
    → allows caps (publishing s.kind) ≡ true
    → valid_kind s.kind ≡ ok tt
    → IsSound r
    → IsSound (record r { sources = insert s true r.sources })
unfolding is_set
publish-IsSound s caps r found may kind v = record {
  members_once = v.members_once;
  published = λ t h. ground (arith, v.published t, lookup-insert t s true r.sources);
  subscribed = λ x h. ground (arith, v.subscribed x h, lookup-insert x.source s true r.sources);
}

pub unpublish-IsSound : (s : Source) (r : MediaRoom) → IsSound r → IsSound (without_source s r)
unfolding without_source is_set
unpublish-IsSound s r v = record {
  members_once = v.members_once;
  published = λ t h. ground (arith, v.published t, lookup-delete t s r.sources);
  subscribed = λ x h. ground (
    arith,
    v.subscribed x,
    lookup-remove_where (λ (y : Subscription). holds (y.source ≟ s)) x r.subscribers,
    lookup-delete x.source s r.sources,
  );
}

pub subscribe-IsSound :
    (x : Subscription) (caps : Capabilities) (r : MediaRoom)
    → lookup x.subscriber r.members ≡ some caps
    → allows caps may_subscribe ≡ true
    → is_set x.source r.sources ≡ true
    → IsSound r
    → IsSound (record r { subscribers = insert x true r.subscribers })
unfolding is_set
subscribe-IsSound x caps r found may there v = record {
  members_once = v.members_once;
  published = v.published;
  subscribed = λ y h. ground (arith, v.subscribed y, lookup-insert y x true r.subscribers);
}

pub unsubscribe-IsSound :
    (x : Subscription) (r : MediaRoom)
    → IsSound r
    → IsSound (record r { subscribers = delete x r.subscribers })
unfolding is_set
unsubscribe-IsSound x r v = record {
  members_once = v.members_once;
  published = v.published;
  subscribed = λ y h. ground (arith, v.subscribed y, lookup-delete y x r.subscribers);
}

-- What is written beside the members, the sources and the subscriptions.
pub beside-IsSound :
    (r q : MediaRoom)
    → r.members ≡ q.members
    → r.sources ≡ q.sources
    → r.subscribers ≡ q.subscribers
    → IsSound r
    → IsSound q
beside-IsSound r q a b c v = record {
  members_once = subst IsFunctional a v.members_once;
  published = λ s h. ground (arith, v.published s);
  subscribed = λ x h. ground (arith, v.subscribed x);
}
