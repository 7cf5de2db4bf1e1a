-- ===== src/Auth/Sessions.antt =====
-- internal/auth/session.go. The reading of the clock is an argument, and so are the bytes that
-- `randRead` draws, absent when it fails. The lock guards each method as a whole and is left out. The
-- walks go through the map in the order of its list.
pub mod Tokens
pub mod Owners
use stammtisch.Prelude.{
  ℕ, ◌*◌, Bool, true, false, not, List, [], ◌∷◌, Option, none, some, Result, ok, err, holds, take,
  drop, if◌then◌else◌,
}
use stammtisch.Prelude.Int.{pos, ltb_ℤ, ℤ-discrete}
use stammtisch.Prelude.Bytes.{Bytes, bytes_key, before, is_empty}
use stammtisch.Prelude.Map.{FinMap, ◌≟◌, lookup, insert, gather}
use stammtisch.Prelude.Sort.{sort}
use stammtisch.Orchestration.Clock.{Time, Duration, add_time, before_time, nanoseconds}
use stammtisch.Auth.{Primitives, AuthError, no_such_session, session_expired, no_owner, cannot_draw}

abbrev pub token_lifetime : Duration
token_lifetime = pos 900_000_000_000

abbrev pub token_bytes : ℕ
token_bytes = 32

pub record Session : Type 0 where
  pub id : Bytes
  pub owner : Bytes
  pub opened : Time
  pub expires : Time

-- The sessions under the digests of their tokens.
pub record Sessions : Type 0 where
  pub held : FinMap Bytes Session

unfoldable pub new_sessions : Sessions
new_sessions = record { held = [] }

unfoldable pub digest : Primitives → Bytes → Bytes
digest prim token = prim.encode (prim.sum token)

-- What is opened with the bytes that were drawn, and its token.
abbrev pub drawn_session : Primitives → Bytes → Time → Bytes → Session × Bytes
drawn_session prim raw now owner = (
  record {
    id = prim.encode (drop token_bytes raw);
    owner = owner;
    opened = now;
    expires = add_time now token_lifetime;
  },
  prim.encode (take token_bytes raw),
)

open_drawn :
    Primitives
    → Option Bytes
    → Time
    → Sessions
    → Bytes
    → Sessions × Result AuthError (Session × Bytes)
unfolding digest
open_drawn prim none now s owner = (s, err cannot_draw)
open_drawn prim (some raw) now s owner =
    let (session, token) = drawn_session prim raw now owner in
    (record s { held = insert (digest prim token) session s.held }, ok (session, token))

pub open_session :
    Primitives
    → Option Bytes
    → Time
    → Sessions
    → Bytes
    → Sessions × Result AuthError (Session × Bytes)
unfolding open_drawn
open_session prim drawn now s owner =
    if is_empty owner then (s, err no_owner) else open_drawn prim drawn now s owner

abbrev live : Time → Option Session → Result AuthError Session
live now none = err no_such_session
live now (some session) =
    if not (before_time now session.expires) then err session_expired else ok session

pub lookup_session : Primitives → Time → Sessions → Bytes → Result AuthError Session
unfolding digest
lookup_session prim now s token = live now (lookup (digest prim token) s.held)

-- The walk that stops at the first session with the identifier, and deletes it.
revoke_in : Bytes → FinMap Bytes Session → FinMap Bytes Session × Bool
revoke_in id [] = ([], false)
revoke_in id ((key, session) ∷ rest) =
    let (rest', revoked) = revoke_in id rest in
    if holds (session.id ≟ id) then (rest, true) else ((key, session) ∷ rest', revoked)

pub revoke : Sessions → Bytes → Sessions × Bool
unfolding revoke_in
revoke s id = let (held, revoked) = revoke_in id s.held in (record s { held = held }, revoked)

pub session_before : Session → Session → Bool
session_before a b =
    if holds (ℤ-discrete a.opened b.opened) then before a.id b.id else before_time a.opened b.opened

abbrev owned : Bytes → Bytes → Session → Option Session
owned owner key session = if holds (session.owner ≟ owner) then some session else none

pub list : Sessions → Bytes → List Session
unfolding session_before gather
list s owner = sort session_before (gather (owned owner) s.held)
