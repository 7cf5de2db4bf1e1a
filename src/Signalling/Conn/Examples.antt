-- ===== src/Signalling/Conn/Examples.antt =====
-- Runs of internal/signalling/conn.go.
use stammtisch.Prelude.{◌≡◌, refl, true, false, [], ◌∷◌, none, err, All}
use stammtisch.Signalling.Stream.{uint32, read_full}
use stammtisch.Signalling.Frame.{decode, check_header, read_payload}
use stammtisch.Signalling.Conn.{Conn, read_frame, reads, unauthenticated}
use stammtisch.Signalling.Conn.Gate.{IsCredential, reads-IsCredential}

-- A space state, one byte long, and then an authentication frame, from a peer that is not known yet.
abbrev fresh : Conn
fresh = record {
  stream = record {
    incoming = 0 ∷ 0 ∷ 0 ∷ 1 ∷ 2 ∷ 9 ∷ 0 ∷ 0 ∷ 0 ∷ 0 ∷ 1 ∷ [];
    outgoing = [];
    writable = true;
  };
  authenticated = false;
  refused = none;
}

abbrev after_first : Conn
after_first = (read_frame fresh).0

first_read : read_frame fresh ≡ (after_first, err (unauthenticated 2))
unfolding read_frame decode check_header read_payload uint32 read_full
first_read = refl

reads-IsCredential_example : All IsCredential (reads 2 fresh)
reads-IsCredential_example = reads-IsCredential 2 fresh refl
