-- ===== src/Signalling/Negotiation/Examples.antt =====
-- Runs of the negotiation of internal/signalling/negotiation.go.
use stammtisch.Prelude.{◌≡◌, refl, true, false, [], ◌∷◌, ◌++◌, none, ok, err, arith}
use stammtisch.Signalling.Frame.{buffer}
use stammtisch.Signalling.Conn.{Conn, version_unsupported}
use stammtisch.Signalling.Negotiation.{
  Version, hello, agreement, refusal, refusal_reason, negotiate, agreed_version, refused_versions,
}
use stammtisch.Signalling.Negotiation.Exchange.{
  IsSupported, answered, negotiate-supported, negotiate-unsupported,
}

-- A peer that proposes a version and has sent one byte more.
abbrev proposing : Version → Conn
proposing v = record {
  stream = record { incoming = buffer (hello v) ++ 7 ∷ []; outgoing = []; writable = true };
  authenticated = false;
  refused = none;
}

negotiate-supported_example :
    (negotiate (proposing 1) ≡ (answered (proposing 1) (7 ∷ []) (agreement 1), ok 1))
    × (agreed_version (agreement 1) ≡ ok 1)
negotiate-supported_example = negotiate-supported (proposing 1) 1 (7 ∷ []) (ground arith) refl refl

newer_is_not : ¬ IsSupported 2
newer_is_not h = omega (arith, h.1)

negotiate-unsupported_example :
    (negotiate (proposing 2)
      ≡ (answered (proposing 2) (7 ∷ []) refusal, err (version_unsupported 2)))
    × (refused_versions refusal ≡ ok (1, 1, refusal_reason))
negotiate-unsupported_example =
    negotiate-unsupported (proposing 2) 2 (7 ∷ []) (omega arith) newer_is_not refl refl
