-- ===== src/Auth/Examples.antt =====
-- Runs of internal/auth, with plain functions in the place of the packages outside.
use stammtisch.Prelude.{
  ℕ, zero, suc, ◌+◌, ◌-◌, ◌≡◌, ◌≢◌, ◌↔◌, inr, refl, subst, ap, ◌∙◌, ◌++◌, true, false, [], ◌∷◌,
  none, some, Result, ok, err, All, holds, length, arith, if◌then◌else◌, ℕ_discrete,
}
use stammtisch.Prelude.Int.{pos, ltb_ℤ, ◌-ℤ◌}
use stammtisch.Prelude.Bytes.{Bytes, Bytes-discrete, bytes_key, bytes}
use stammtisch.Prelude.Map.{◌≟◌, lookup, insert}
use stammtisch.Signalling.Frame.{Frame, kind_authenticate, buffer}
use stammtisch.Signalling.Frame.RoundTrip.{IsFrame}
use stammtisch.Signalling.Conn.Gate.{read_frame-buffer}
use stammtisch.Signalling.Conn.{Conn, read_frame}
use stammtisch.Auth.{Primitives, AuthError, no_such_account, authentication, session_expired}
use stammtisch.Auth.Credential.{
  argon_costs, argon_version, stored_form, version_field, cost_field, store, matches,
}
use stammtisch.Auth.Credential.RoundTrip.{IsFaithful, matches-store}
use stammtisch.Auth.Sessions.{
  drawn_session, Session, Sessions, new_sessions, token_lifetime, digest, open_session,
  lookup_session, revoke,
}
use stammtisch.Auth.Sessions.Tokens.{
  IsWellKept, new_sessions-IsWellKept, open_session_drawn, open_session-IsWellKept,
  lookup_session-open_session, lookup_session-revoke,
}
use stammtisch.Auth.Authenticate.{authenticate, admit, admitted}
use stammtisch.Auth.Authenticate.Gate.{
  authenticate_matched, authenticate-alike, admit_iff, authenticate-admit,
}

shift : Bytes → Bytes
shift [] = []
shift (c ∷ s) = (c + 100) ∷ shift s

unshift : Bytes → Bytes
unshift [] = []
unshift (c ∷ s) = (c - 100) ∷ unshift s

unshift-shift : (s : Bytes) → unshift (shift s) ≡ s
unfolding shift unshift
unshift-shift [] = refl
unshift-shift (c ∷ s) = ground (arith, unshift-shift s)

shift_no_dollar : (s : Bytes) → All (λ c. c ≢ b'$') (shift s)
unfolding shift
shift_no_dollar [] = tt
shift_no_dollar (c ∷ s) = (λ e. ground (arith, e), shift_no_dollar s)

pad : ℕ → Bytes → Bytes
pad zero s = []
pad (suc n) [] = 0 ∷ pad n []
pad (suc n) (c ∷ s) = c ∷ pad n s

length-pad : (n : ℕ) (s : Bytes) → length (pad n s) ≡ n
unfolding pad
length-pad zero s = refl
length-pad (suc n) [] = ground (arith, length-pad n [])
length-pad (suc n) (c ∷ s) = ground (arith, length-pad n s)

abbrev plain : Primitives
plain = record {
  encode = shift;
  decode = λ s. some (unshift s);
  sum = λ s. s;
  id_key = λ credential salt p n. pad n credential;
  scan_version = λ s. if holds (s ≟ version_field argon_version) then some argon_version else none;
  scan_costs = λ s. if holds (s ≟ cost_field argon_costs) then some argon_costs else none;
}

plain-IsFaithful : IsFaithful plain
plain-IsFaithful = record {
  decode-encode = λ b. ground (arith, unshift-shift b);
  no_dollar = shift_no_dollar;
  scans_version = ground arith;
  scans_costs = ground arith;
  key_length = λ credential salt p n. length-pad n credential;
}

abbrev secret : Bytes
secret = bytes "rosebud"

abbrev salt : Bytes
salt = pad 16 (bytes "salt")

abbrev record_of_ann : Bytes
record_of_ann = stored_form argon_costs (shift salt) (shift (pad 32 secret))

stored_secret : store plain (some salt) secret ≡ ok record_of_ann
unfolding store
stored_secret = refl

matches-store_example :
    matches plain record_of_ann (bytes "roseb")
    ≡ ok (holds (pad 32 (bytes "roseb") ≟ pad 32 secret))
matches-store_example =
    matches-store plain salt secret (bytes "roseb") record_of_ann plain-IsFaithful
      (length-pad 16 (bytes "salt")) stored_secret

right_secret : matches plain record_of_ann secret ≡ ok true
unfolding pad Bytes-discrete ℕ_discrete
right_secret =
    matches-store plain salt secret secret record_of_ann plain-IsFaithful
      (length-pad 16 (bytes "salt")) stored_secret

wrong_guess : matches plain record_of_ann (bytes "guess") ≡ ok false
unfolding pad Bytes-discrete ℕ_discrete
wrong_guess =
    matches-store plain salt secret (bytes "guess") record_of_ann plain-IsFaithful
      (length-pad 16 (bytes "salt")) stored_secret

-- One account.
abbrev ann : Bytes
ann = bytes "ann"

abbrev accounts : Bytes → Result AuthError Bytes
accounts name = if holds (name ≟ ann) then ok record_of_ann else err no_such_account

ann_known : accounts ann ≡ ok record_of_ann
unfolding Bytes-discrete ℕ_discrete
ann_known = refl

authenticate-alike_example :
    authenticate plain none (pos 5) accounts new_sessions ann (bytes "guess")
    ≡ (new_sessions, err authentication)
authenticate-alike_example =
    authenticate-alike plain none (pos 5) accounts new_sessions ann (bytes "guess") plain-IsFaithful
      (inr (record_of_ann, ann_known, wrong_guess))

-- Ann's session, opened at 5.
abbrev raw : Bytes
raw = pad 48 (bytes "xy")

abbrev opened : Session × Bytes
opened = drawn_session plain raw (pos 5) ann

abbrev with_ann : Sessions
with_ann = record { held = insert (digest plain opened.1) opened.0 [] }

opened_ann : open_session plain (some raw) (pos 5) new_sessions ann ≡ (with_ann, ok opened)
unfolding new_sessions
opened_ann = open_session_drawn plain raw (pos 5) new_sessions ann refl

lookup_session-open_session_example :
    (opened.0.owner ≡ ann)
    × (lookup_session plain (pos 9) with_ann opened.1 ≡ (
        if holds (digest plain opened.1 ≟ digest plain opened.1)
        then (if ltb_ℤ (pos 9 -ℤ pos 5) token_lifetime then ok opened.0 else err session_expired)
        else lookup_session plain (pos 9) new_sessions opened.1))
lookup_session-open_session_example =
    lookup_session-open_session plain raw (pos 5) (pos 9) new_sessions with_ann ann opened.1
      opened.1 opened.0 opened_ann

no_sessions : (k : Bytes) (a : Session) → lookup k new_sessions.held ≡ some a → a.id ≢ opened.0.id
unfolding new_sessions lookup
no_sessions k a e = ground (arith, e)

with_ann-IsWellKept : IsWellKept with_ann
with_ann-IsWellKept =
    subst IsWellKept (ap (λ x. x.0) opened_ann) (
      open_session-IsWellKept plain raw (pos 5) new_sessions ann no_sessions
        new_sessions-IsWellKept)

lookup_session-revoke_example :
    ((lookup_session plain (pos 9) (revoke with_ann (bytes "no")).0 opened.1 ≡ ok opened.0) ↔ (
      (lookup_session plain (pos 9) with_ann opened.1 ≡ ok opened.0) × (opened.0.id ≢ bytes "no")))
    × (((revoke with_ann (bytes "no")).1 ≡ true)
        ↔ ((k : Bytes) × (b : Session) × (lookup k with_ann.held ≡ some b) × (b.id ≡ bytes "no")))
    × IsWellKept (revoke with_ann (bytes "no")).0
lookup_session-revoke_example =
    lookup_session-revoke plain (pos 9) with_ann (bytes "no") opened.1 opened.0 with_ann-IsWellKept

-- Ann comes back with her token.
abbrev token_frame : Frame
token_frame = record { kind = kind_authenticate; payload = opened.1 }

abbrev caller : Conn
caller = record {
  stream = record { incoming = buffer token_frame ++ []; outgoing = []; writable = true };
  authenticated = false;
  refused = none;
}

token_length : length opened.1 ≡ 32
unfolding pad shift
token_length = refl

token_frame-IsFrame : IsFrame token_frame
token_frame-IsFrame = record { not_reserved = ground arith; bounded = ground (arith, token_length) }

caller_read : (read_frame caller).1 ≡ ok token_frame
caller_read = read_frame-buffer caller token_frame [] refl token_frame-IsFrame refl refl

admit_iff_example : ((admit plain (pos 9) caller with_ann).0.authenticated ≡ true) ↔ (
    (f : Frame) × (session : Session) × ((read_frame caller).1 ≡ ok f)
    × (f.kind ≡ kind_authenticate)
    × (lookup_session plain (pos 9) with_ann f.payload ≡ ok session)
    × ((admit plain (pos 9) caller with_ann).1 ≡ admitted session))
admit_iff_example = admit_iff plain (pos 9) caller with_ann refl

ann_authenticated :
    authenticate plain (some raw) (pos 5) accounts new_sessions ann secret ≡ (with_ann, ok opened)
ann_authenticated =
    authenticate_matched plain (some raw) (pos 5) accounts new_sessions ann secret record_of_ann
      ann_known right_secret
    ∙ opened_ann

in_time : ltb_ℤ (pos 9 -ℤ pos 5) token_lifetime ≡ true
unfolding ◌-ℤ◌
in_time = refl

authenticate-admit_example :
    ((admit plain (pos 9) caller with_ann).1 ≡ admitted opened.0)
    × ((admit plain (pos 9) caller with_ann).0.authenticated ≡ true)
    × (opened.0.owner ≡ ann)
authenticate-admit_example =
    authenticate-admit plain raw (pos 5) (pos 9) accounts new_sessions with_ann ann secret opened.1
      opened.0 caller token_frame ann_authenticated caller_read refl in_time
