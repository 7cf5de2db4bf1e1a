-- ===== src/Auth/Sessions/Tokens.antt =====
-- What a token of internal/auth/session.go buys, and for how long.
use stammtisch.Prelude.{
  ◌≡◌, ◌≢◌, ◌↔◌, sym, ◌∙◌, true, false, [], ◌∷◌, Option, none, some, ok, err, arith, holds, is_some,
  is_ok, Option-cases, Bool-cases, inl, inr, if◌then◌else◌,
}
use stammtisch.Prelude.Int.{ltb_ℤ, ◌-ℤ◌, +ℤ_parts, -ℤ_parts}
use stammtisch.Prelude.Bytes.{is_empty, Bytes, bytes_key}
use stammtisch.Prelude.Map.{
  FinMap, IsFunctional, ◌≟◌, lookup, insert, lookup-insert, insert-IsFunctional,
}
use stammtisch.Orchestration.Clock.{Time, add_time}
use stammtisch.Auth.{Primitives, session_expired}
use stammtisch.Auth.Sessions.{
  Session, Sessions, new_sessions, token_lifetime, digest, drawn_session, open_session, open_drawn,
  lookup_session, revoke, revoke_in,
}

before_expiry :
    (now later : Time)
    → ltb_ℤ later (add_time now token_lifetime) ≡ ltb_ℤ (later -ℤ now) token_lifetime
unfolding add_time
before_expiry now later = ground (arith, +ℤ_parts now token_lifetime, -ℤ_parts later now)

-- A session that was opened is the owner's, and its token finds it as long as the clock reads less than
-- a lifetime after it did then, and is reported as expired from there on. A token with another digest
-- finds what it found before.
pub lookup_session-open_session :
    (prim : Primitives) (raw : Bytes) (now later : Time) (s s' : Sessions)
    (owner token other : Bytes) (session : Session)
    → open_session prim (some raw) now s owner ≡ (s', ok (session, token))
    → (session.owner ≡ owner)
      × (lookup_session prim later s' other ≡ (
          if holds (digest prim token ≟ digest prim other)
          then (if ltb_ℤ (later -ℤ now) token_lifetime then ok session else err session_expired)
          else lookup_session prim later s other))
unfolding open_session open_drawn lookup_session
lookup_session-open_session prim raw now later s s' owner token other session h =
    let (fresh, drawn) = drawn_session prim raw now owner in
    ground (
      arith,
      before_expiry now later,
      lookup-insert (digest prim other) (digest prim drawn) fresh s.held,
    )

-- Each digest stands once, and so does each identifier.
pub record IsWellKept (s : Sessions) : Type 0 where
  pub once : IsFunctional s.held
  pub one_id :
      (k j : Bytes) (a b : Session)
      → lookup k s.held ≡ some a
      → lookup j s.held ≡ some b
      → a.id ≡ b.id
      → k ≡ j

OneId : FinMap Bytes Session → Bytes → Type 0
OneId m id =
    (k j : Bytes) (a b : Session)
    → lookup k m ≡ some a
    → lookup j m ≡ some b
    → a.id ≡ id
    → b.id ≡ id
    → k ≡ j

OneId-rest :
    (key id : Bytes) (session : Session) (rest : FinMap Bytes Session)
    → lookup key rest ≡ none
    → OneId ((key, session) ∷ rest) id
    → OneId rest id
unfolding OneId lookup
OneId-rest key id session rest u o k j a b e f g h =
    let there : (i : Bytes) (c : Session)
        → lookup i rest ≡ some c
        → lookup i ((key, session) ∷ rest) ≡ some c =
      λ i c x. ground (arith, u) in
    o k j a b (there k a e) (there j b f) g h

unless_id : Bytes → Option Session → Option Session
unless_id id none = none
unless_id id (some a) = if holds (a.id ≟ id) then none else some a

lookup-revoke_in :
    (id k : Bytes) (m : FinMap Bytes Session)
    → IsFunctional m
    → OneId m id
    → lookup k (revoke_in id m).0 ≡ unless_id id (lookup k m)
unfolding revoke_in lookup unless_id OneId
lookup-revoke_in id k [] u o = ground arith
lookup-revoke_in id k ((key, session) ∷ rest) u o = elim (Option-cases (lookup k rest)) [
  | inl n ↦ ground (arith, n, lookup-revoke_in id k rest u.1 (OneId-rest key id session rest u.0 o))
  | inr (a, e) ↦
      let clash : key ≢ k → session.id ≡ id → a.id ≢ id =
        λ n f g. n (o key k session a (ground arith) (ground (arith, e, n)) f g) in
      ground (
        arith,
        e,
        u.0,
        clash,
        lookup-revoke_in id k rest u.1 (OneId-rest key id session rest u.0 o),
      )
]

revoke_in-IsFunctional :
    (id : Bytes) (m : FinMap Bytes Session)
    → IsFunctional m
    → OneId m id
    → IsFunctional (revoke_in id m).0
unfolding revoke_in lookup unless_id
revoke_in-IsFunctional id [] u o = tt
revoke_in-IsFunctional id ((key, session) ∷ rest) u o =
    let o' = OneId-rest key id session rest u.0 o in
    ground (arith, lookup-revoke_in id key rest u.1 o', revoke_in-IsFunctional id rest u.1 o')

revoke_in-found :
    (id : Bytes) (m : FinMap Bytes Session)
    → (revoke_in id m).1 ≡ true
    → IsFunctional m
    → (k : Bytes) × (a : Session) × (lookup k m ≡ some a) × (a.id ≡ id)
unfolding revoke_in lookup
revoke_in-found id [] h u = ground arith
revoke_in-found id ((key, session) ∷ rest) h u = elim (session.id ≟ id) [
  | yes e ↦ (key, session, ground arith, e)
  | no n ↦
      let (k, a, e, f) = revoke_in-found id rest (ground (arith, h, n)) u.1 in
      (k, a, ground (arith, u.0, e), f)
]

revoke_in-finds :
    (id k : Bytes) (a : Session) (m : FinMap Bytes Session)
    → lookup k m ≡ some a
    → a.id ≡ id
    → (revoke_in id m).1 ≡ true
unfolding revoke_in lookup
revoke_in-finds id k a [] e f = ground arith
revoke_in-finds id k a ((key, session) ∷ rest) e f = ground (arith, revoke_in-finds id k a rest)

IsWellKept-OneId : (s : Sessions) (id : Bytes) → IsWellKept s → OneId s.held id
unfolding OneId
IsWellKept-OneId s id v k j a b e f g h = v.one_id k j a b e f (g ∙ sym h)

-- Revoking an identifier ends the session that has it, and no other: a token finds a session
-- afterwards exactly where it found the same one before, under another identifier. The answer says
-- whether some session had the identifier. Each identifier stands once before and after.
pub lookup_session-revoke :
    (prim : Primitives) (now : Time) (s : Sessions) (id token : Bytes) (a : Session)
    → IsWellKept s
    → ((lookup_session prim now (revoke s id).0 token ≡ ok a)
        ↔ ((lookup_session prim now s token ≡ ok a) × (a.id ≢ id)))
      × (((revoke s id).1 ≡ true)
          ↔ ((k : Bytes) × (b : Session) × (lookup k s.held ≡ some b) × (b.id ≡ id)))
      × IsWellKept (revoke s id).0
unfolding lookup_session revoke unless_id
lookup_session-revoke prim now s id token a v =
    let o = IsWellKept-OneId s id v in
    let gone = λ (k : Bytes). lookup-revoke_in id k s.held v.once o in
    (
      ground (arith, gone (digest prim token)),
      (
        (λ h. revoke_in-found id s.held h v.once),
        (λ (k, b, e, f). revoke_in-finds id k b s.held e f),
      ),
      record {
        once = revoke_in-IsFunctional id s.held v.once o;
        one_id = λ k j b c e f g.
            v.one_id k j b c (ground (arith, gone k, e)) (ground (arith, gone j, f)) g;
      },
    )

-- Opening a session keeps each identifier unique where the identifier that is drawn is not in use.
pub open_session-IsWellKept :
    (prim : Primitives) (raw : Bytes) (now : Time) (s : Sessions) (owner : Bytes)
    → ((k : Bytes) (a : Session)
        → lookup k s.held ≡ some a
        → a.id ≢ (drawn_session prim raw now owner).0.id)
    → IsWellKept s
    → IsWellKept (open_session prim (some raw) now s owner).0
unfolding open_session open_drawn
open_session-IsWellKept prim raw now s owner fresh v =
    let (session, token) = drawn_session prim raw now owner in
    let key = digest prim token in
    elim (Bool-cases (is_empty owner)) [
      | inl e ↦ rw e v
      | inr e ↦ rw e (record {
        once = insert-IsFunctional key session s.held v.once;
        one_id = λ k j a b f g h. ground (
          arith,
          f,
          g,
          h,
          lookup-insert k key session s.held,
          lookup-insert j key session s.held,
          fresh k a,
          fresh j b,
          v.one_id k j a b,
        );
      })
    ]

-- Opening fails without an owner, or without bytes, and in no other case.
pub open_session_iff :
    (prim : Primitives) (drawn : Option Bytes) (now : Time) (s : Sessions) (name : Bytes)
    → (is_ok (open_session prim drawn now s name).1 ≡ true)
      ↔ ((is_empty name ≡ false) × (is_some drawn ≡ true))
unfolding open_session open_drawn
open_session_iff prim drawn now s name = ground arith

pub open_session_drawn :
    (prim : Primitives) (raw : Bytes) (now : Time) (s : Sessions) (owner : Bytes)
    → is_empty owner ≡ false
    → let (session, token) = drawn_session prim raw now owner in
      open_session prim (some raw) now s owner
      ≡ (record s { held = insert (digest prim token) session s.held }, ok (session, token))
unfolding open_session open_drawn
open_session_drawn prim raw now s owner n = ground (arith, n)

pub new_sessions-IsWellKept : IsWellKept new_sessions
unfolding new_sessions lookup
new_sessions-IsWellKept = record { once = tt; one_id = λ k j a b e f g. ground (arith, e) }
