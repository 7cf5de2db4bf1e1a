-- ===== src/Signalling/Conn.antt =====
-- internal/signalling/conn.go, with `Kind.Known` of negotiation.go. A method returns the connection
-- after it and its answer. A refusal is kept with the kind that it names.
pub mod Gate
mod Examples
use stammtisch.Prelude.{
  ℕ, zero, suc, ◌≡◌, Bool, true, false, not, ◌&&◌, ◌||◌, List, [], ◌∷◌, Option, none, some, Result,
  ok, err, ◌==◌, if◌then◌else◌,
}
use stammtisch.Signalling.Stream.{Stream}
use stammtisch.Signalling.Fields.{FieldError}
use stammtisch.Signalling.Frame.{
  Frame, FrameError, Kind, kind_authenticate, kind_space_state, decode, encode,
}

abbrev pub kind_hello : Kind
kind_hello = 3

abbrev pub kind_version_agreed : Kind
kind_version_agreed = 4

abbrev pub kind_version_refused : Kind
kind_version_refused = 5

-- What a connection answers instead of a frame or a version.
pub data ConnError : Type 0 where
  framing : FrameError → ConnError
  malformed : FieldError → ConnError
  unauthenticated unknown_message hello_expected : Kind → ConnError
  version_unsupported : ℕ → ConnError

unfoldable pub known : Kind → Bool
known k =
    k == kind_authenticate
    || k == kind_space_state
    || k == kind_hello
    || k == kind_version_agreed
    || k == kind_version_refused

pub record Conn : Type 0 where
  pub stream : Stream
  pub authenticated : Bool
  pub refused : Option ConnError

pub new_conn : Stream → Conn
new_conn stream = record { stream = stream; authenticated = false; refused = none }

unfoldable pub mark_authenticated : Conn → Conn
mark_authenticated c = record c { authenticated = true }

-- The stream once a frame has been taken off it.
abbrev pub read_to : Conn → List ℕ → Conn
read_to c rest = record c { stream = record (c.stream) { incoming = rest } }

abbrev refuse : Conn → ConnError → Conn × Result ConnError Frame
refuse c e = (record c { refused = some e }, err e)

-- The gate, and the message set.
admit_frame : Conn → Frame → Conn × Result ConnError Frame
unfolding known
admit_frame c f =
    if not c.authenticated && not (f.kind == kind_authenticate)
    then refuse c (unauthenticated f.kind)
    else if not (known f.kind)
    then refuse c (unknown_message f.kind)
    else (c, ok f)

after_decode : Conn → Result FrameError Frame × List ℕ → Conn × Result ConnError Frame
unfolding admit_frame
after_decode c (err e, rest) = (read_to c rest, err (framing e))
after_decode c (ok f, rest) = admit_frame (read_to c rest) f

read_unless : Conn → Option ConnError → Conn × Result ConnError Frame
unfolding after_decode
read_unless c (some e) = (c, err e)
read_unless c none = after_decode c (decode c.stream.incoming)

pub read_frame : Conn → Conn × Result ConnError Frame
unfolding read_unless
read_frame c = read_unless c c.refused

abbrev pub written : Conn → Result FrameError Stream → Conn × Result ConnError (Unit {0})
written c (err e) = (c, err (framing e))
written c (ok stream) = (record c { stream = stream }, ok tt)

pub write_frame : Conn → Frame → Conn × Result ConnError (Unit {0})
write_frame c f = written c (encode c.stream f)

-- What a caller gets who reads `n` times.
pub reads : ℕ → Conn → List (Result ConnError Frame)
reads zero c = []
reads (suc n) c = let (c', r) = read_frame c in r ∷ reads n c'
