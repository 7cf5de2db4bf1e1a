-- ===== src/Auth/Authenticate.antt =====
-- internal/auth/authenticate.go. An `Accounts` is a function of the name.
pub mod Gate
use stammtisch.Prelude.{
  Bool, true, false, not, ◌||◌, ◌∷◌, [], List, ℕ, zero, suc, Option, Result, ok, err, if◌then◌else◌,
}
use stammtisch.Prelude.Bytes.{Bytes}
use stammtisch.Orchestration.Clock.{Time}
use stammtisch.Signalling.Frame.{Frame}
use stammtisch.Signalling.Conn.{Conn, ConnError, read_frame, mark_authenticated}
use stammtisch.Auth.{Primitives, AuthError, no_such_account, account_unreadable, authentication}
use stammtisch.Auth.Credential.{stored_form, argon_costs, argon_key_len, salt_len, matches}
use stammtisch.Auth.Sessions.{Session, Sessions, open_session, lookup_session}

-- `make([]byte, n)`.
abbrev pub zeroes : ℕ → Bytes
zeroes zero = []
zeroes (suc n) = 0 ∷ zeroes n

pub decoy : Primitives → Bytes
unfolding stored_form
decoy prim =
    stored_form argon_costs (prim.encode (zeroes salt_len)) (prim.encode (zeroes argon_key_len))

-- The credential that a name is checked against, and whether the name is known.
stored_or_decoy : Primitives → Result AuthError Bytes → Result AuthError (Bytes × Bool)
unfolding decoy
stored_or_decoy prim (ok stored) = ok (stored, true)
stored_or_decoy prim (err no_such_account) = ok (decoy prim, false)
stored_or_decoy prim (err _) = err account_unreadable

after_match :
    Primitives
    → Option Bytes
    → Time
    → Sessions
    → Bytes
    → Bool
    → Result AuthError Bool
    → Sessions × Result AuthError (Session × Bytes)
after_match prim drawn now s name is_known (err e) = (s, err e)
after_match prim drawn now s name is_known (ok matched) =
    if not is_known || not matched
    then (s, err authentication)
    else open_session prim drawn now s name

after_lookup :
    Primitives
    → Option Bytes
    → Time
    → Sessions
    → Bytes
    → Bytes
    → Result AuthError (Bytes × Bool)
    → Sessions × Result AuthError (Session × Bytes)
unfolding after_match
after_lookup prim drawn now s name credential (err e) = (s, err e)
after_lookup prim drawn now s name credential (ok (stored, is_known)) =
    after_match prim drawn now s name is_known (matches prim stored credential)

pub authenticate :
    Primitives
    → Option Bytes
    → Time
    → (Bytes → Result AuthError Bytes)
    → Sessions
    → Bytes
    → Bytes
    → Sessions × Result AuthError (Session × Bytes)
unfolding stored_or_decoy after_lookup
authenticate prim drawn now accounts s name credential =
    after_lookup prim drawn now s name credential (stored_or_decoy prim (accounts name))

-- What an admission ends in: a session, or the error of the connection or of the sessions.
pub data Admission : Type 0 where
  admitted : Session → Admission
  by_conn : ConnError → Admission
  by_sessions : AuthError → Admission

admit_found : Conn → Result AuthError Session → Conn × Admission
admit_found c (err e) = (c, by_sessions e)
admit_found c (ok session) = (mark_authenticated c, admitted session)

admit_read : Primitives → Time → Sessions → Conn × Result ConnError Frame → Conn × Admission
unfolding admit_found
admit_read prim now s (c, err e) = (c, by_conn e)
admit_read prim now s (c, ok frame) = admit_found c (lookup_session prim now s frame.payload)

pub admit : Primitives → Time → Conn → Sessions → Conn × Admission
unfolding admit_read
admit prim now c s = admit_read prim now s (read_frame c)
