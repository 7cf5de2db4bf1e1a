-- ===== src/Auth/Authenticate/Gate.antt =====
-- Who gets a session of internal/auth/authenticate.go, and whom it lets through the gate of
-- internal/signalling/conn.go.
use stammtisch.Prelude.{
  ◌≡◌, ◌↔◌, refl, ◌⊎◌, inl, inr, true, false, Option, some, Result, ok, err, arith, is_some, is_ok,
  Result-cases,
}
use stammtisch.Prelude.Int.{ltb_ℤ, ◌-ℤ◌}
use stammtisch.Prelude.Bytes.{Bytes, is_empty}
use stammtisch.Orchestration.Clock.{Time}
use stammtisch.Signalling.Frame.{Frame, kind_authenticate}
use stammtisch.Signalling.Conn.{Conn, read_frame, mark_authenticated}
use stammtisch.Signalling.Conn.Gate.{read_frame-ok, authenticated-read_frame}
use stammtisch.Auth.{Primitives, AuthError, no_such_account, authentication}
use stammtisch.Auth.Credential.{argon_key_len, salt_len, matches}
use stammtisch.Auth.Credential.RoundTrip.{IsFaithful, matches-stored_form}
use stammtisch.Auth.Sessions.{Session, Sessions, token_lifetime, open_session, lookup_session}
use stammtisch.Auth.Sessions.Tokens.{lookup_session-open_session, open_session_iff}
use stammtisch.Auth.Authenticate.{
  decoy, zeroes, stored_or_decoy, after_match, after_lookup, authenticate, admitted, admit_found,
  admit_read, admit,
}

-- Authentication succeeds exactly where an account of the name is held, the credential matches what is
-- stored for it, the name is not empty and bytes for a token were drawn.
pub authenticate_iff :
    (prim : Primitives) (drawn : Option Bytes) (now : Time)
    (accounts : Bytes → Result AuthError Bytes) (s : Sessions) (name credential : Bytes)
    → (is_ok (authenticate prim drawn now accounts s name credential).1 ≡ true) ↔ (
        (stored : Bytes) × (accounts name ≡ ok stored)
        × (matches prim stored credential ≡ ok true)
        × (is_empty name ≡ false)
        × (is_some drawn ≡ true))
unfolding authenticate stored_or_decoy after_lookup after_match
authenticate_iff prim drawn now accounts s name credential = (
  (λ h. elim (Result-cases (accounts name)) [
    | inl (stored, e) ↦ (
      stored,
      e,
      ground (arith, h, e),
      ground (arith, h, e, open_session_iff prim drawn now s name),
      ground (arith, h, e, open_session_iff prim drawn now s name),
    )
    | inr (x, e) ↦ ground (arith, h, e)
  ]),
  (λ (stored, e, m, n, d). ground (arith, e, m, n, d, open_session_iff prim drawn now s name)),
)

-- An unknown name and a wrong credential get one answer, and neither opens a session.
pub authenticate-alike :
    (prim : Primitives) (drawn : Option Bytes) (now : Time)
    (accounts : Bytes → Result AuthError Bytes) (s : Sessions) (name credential : Bytes)
    → IsFaithful prim
    → (accounts name ≡ err no_such_account)
      ⊎ ((stored : Bytes) × (accounts name ≡ ok stored)
          × (matches prim stored credential ≡ ok false))
    → authenticate prim drawn now accounts s name credential ≡ (s, err authentication)
unfolding authenticate stored_or_decoy after_lookup after_match decoy
authenticate-alike prim drawn now accounts s name credential v (inl e) = ground (
  arith,
  e,
  matches-stored_form prim (zeroes salt_len) (zeroes argon_key_len) credential v refl refl,
)
authenticate-alike prim drawn now accounts s name credential v (inr (stored, e, m)) =
    ground (arith, e, m)

-- An admission opens the gate of a connection that is not authenticated exactly where the next frame
-- is read, is the authentication frame, and carries a token of a session that is live; the answer is
-- then that session.
pub admit_iff :
    (prim : Primitives) (now : Time) (c : Conn) (s : Sessions)
    → c.authenticated ≡ false
    → ((admit prim now c s).0.authenticated ≡ true) ↔ (
        (f : Frame) × (session : Session) × ((read_frame c).1 ≡ ok f)
        × (f.kind ≡ kind_authenticate)
        × (lookup_session prim now s f.payload ≡ ok session)
        × ((admit prim now c s).1 ≡ admitted session))
unfolding admit admit_read admit_found mark_authenticated
admit_iff prim now c s h = (
  (λ o. elim (Result-cases (read_frame c).1) [
    | inl (f, e) ↦
        let (is_known, allowed, same) = read_frame-ok c (read_frame c).0 f (ground (arith, e)) in
        elim (Result-cases (lookup_session prim now s f.payload)) [
          | inl (session, k) ↦ (f, session, e, ground (arith, allowed, h), k, ground (arith, e, k))
          | inr (x, k) ↦ ground (arith, o, e, k, same, h)
        ]
    | inr (x, e) ↦ ground (arith, o, e, authenticated-read_frame c, h)
  ]),
  (λ (f, session, e, k, l, a). ground (arith, e, l)),
)

-- A credential that matches opens a session.
pub authenticate_matched :
    (prim : Primitives) (drawn : Option Bytes) (now : Time)
    (accounts : Bytes → Result AuthError Bytes) (s : Sessions) (name credential stored : Bytes)
    → accounts name ≡ ok stored
    → matches prim stored credential ≡ ok true
    → authenticate prim drawn now accounts s name credential ≡ open_session prim drawn now s name
unfolding authenticate stored_or_decoy after_lookup after_match
authenticate_matched prim drawn now accounts s name credential stored e m = ground (arith, e, m)

-- A session that authentication opens is admitted with its token, on a connection whose next frame
-- carries it, as long as the clock reads less than a lifetime after it did then.
pub authenticate-admit :
    (prim : Primitives) (raw : Bytes) (now later : Time) (accounts : Bytes → Result AuthError Bytes)
    (s s' : Sessions) (name credential token : Bytes) (session : Session) (c : Conn) (f : Frame)
    → authenticate prim (some raw) now accounts s name credential ≡ (s', ok (session, token))
    → (read_frame c).1 ≡ ok f
    → f.payload ≡ token
    → ltb_ℤ (later -ℤ now) token_lifetime ≡ true
    → ((admit prim later c s').1 ≡ admitted session)
      × ((admit prim later c s').0.authenticated ≡ true)
      × (session.owner ≡ name)
unfolding authenticate stored_or_decoy after_lookup after_match admit admit_read admit_found
    mark_authenticated
authenticate-admit prim raw now later accounts s s' name credential token session c f h r p l =
    let opened : open_session prim (some raw) now s name ≡ (s', ok (session, token)) =
      ground (arith, h) in
    let (owner, found) =
      lookup_session-open_session prim raw now later s s' name token token session opened in
    let same : lookup_session prim later s' f.payload ≡ ok session = ground (arith, p, l, found) in
    (ground (arith, r, same), ground (arith, r, same), owner)
