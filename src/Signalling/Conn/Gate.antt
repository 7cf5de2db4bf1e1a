-- ===== src/Signalling/Conn/Gate.antt =====
-- The gate of internal/signalling/conn.go.
use stammtisch.Prelude.{ℕ, zero, suc, ◌≡◌, ◌⊎◌, true, false, none, Result, ok, err, arith, All}
use stammtisch.Prelude.{ap, ◌++◌}
use stammtisch.Prelude.Bytes.{Bytes}
use stammtisch.Signalling.Frame.{Frame, Kind, buffer, decode}
use stammtisch.Signalling.Frame.RoundTrip.{IsFrame, decode-buffer}
use stammtisch.Signalling.Conn.{
  Conn, ConnError, unauthenticated, unknown_message, known, read_frame, reads, mark_authenticated,
  kind_authenticate,
}

-- A frame that is handed on is of a known kind, and before the peer has authenticated it is the
-- authentication frame; and reading never opens the gate.
pub read_frame-ok :
    (c d : Conn) (f : Frame)
    → read_frame c ≡ (d, ok f)
    → (known f.kind ≡ true)
      × ((c.authenticated ≡ true) ⊎ (f.kind ≡ kind_authenticate))
      × (d.authenticated ≡ c.authenticated)
unfolding read_frame
read_frame-ok c d f h = ground arith

pub authenticated-read_frame : (c : Conn) → (read_frame c).0.authenticated ≡ c.authenticated
unfolding read_frame
authenticated-read_frame c = ground arith

-- Once a frame is refused, for the gate or for an unknown kind, reading again gives the same error
-- and leaves the connection as it is, and so does the error stay where the gate has been opened in
-- between.
pub read_frame-refused :
    (c d : Conn) (k : Kind) (e : ConnError)
    → (e ≡ unauthenticated k) ⊎ (e ≡ unknown_message k)
    → c.refused ≡ none
    → read_frame c ≡ (d, err e)
    → (read_frame d ≡ (d, err e)) × ((read_frame (mark_authenticated d)).1 ≡ err e)
unfolding read_frame mark_authenticated
read_frame-refused c d k e h n r = ground arith

abbrev pub IsCredential : Result ConnError Frame → Type 0
IsCredential (ok f) = f.kind ≡ kind_authenticate
IsCredential (err e) = Unit {0}

read_frame-IsCredential : (c : Conn) → c.authenticated ≡ false → IsCredential (read_frame c).1
unfolding read_frame
read_frame-IsCredential c h = ground arith

-- However often a connection is read before its peer has authenticated, whatever the peer sends, no
-- frame but an authentication frame is handed on.
pub reads-IsCredential : (n : ℕ) (c : Conn) → c.authenticated ≡ false → All IsCredential (reads n c)
unfolding reads
reads-IsCredential zero c h = tt
reads-IsCredential (suc n) c h = (
  read_frame-IsCredential c h,
  reads-IsCredential n (read_frame c).0 (rw (authenticated-read_frame c) h),
)

-- The authentication frame that a peer writes is handed on, to a connection that has refused nothing.
pub read_frame-buffer :
    (c : Conn) (f : Frame) (rest : Bytes)
    → c.refused ≡ none
    → IsFrame f
    → f.kind ≡ kind_authenticate
    → c.stream.incoming ≡ buffer f ++ rest
    → (read_frame c).1 ≡ ok f
unfolding read_frame
read_frame-buffer c f rest n v k e = ground (arith, n, k, ap decode e, decode-buffer f rest v)
