-- ===== src/Signalling/Negotiation/Exchange.antt =====
-- Both halves of the negotiation of internal/signalling/negotiation.go, over the bytes between them.
use stammtisch.Prelude.{ℕ, ◌≡◌, ◌≤◌, ◌<◌, true, [], ◌∷◌, ◌++◌, ok, err, arith}
use stammtisch.Prelude.Bytes.{Bytes}
use stammtisch.Signalling.Stream.{put_uint16}
use stammtisch.Signalling.Fields.{encode_fields, decode_fields, version_field, text_field}
use stammtisch.Signalling.Fields.RoundTrip.{IsField, decode_fields-encode, version_of-put}
use stammtisch.Signalling.Frame.{Frame, buffer}
use stammtisch.Signalling.Frame.RoundTrip.{IsFrame, decode-buffer, encode_lem}
use stammtisch.Signalling.Conn.{Conn, version_unsupported, known}
use stammtisch.Signalling.Negotiation.{
  Version, hello, agreement, refusal, refusal_reason, agreed_version, refused_versions, proposal,
  negotiate, version_field_of, refusal_fields, min_supported_version, max_supported_version,
}

version-IsField : (id : ℕ) (v : Version) → id < 65536 → IsField (version_field_of id v)
unfolding put_uint16
version-IsField id v h = record { id_fits = h; value_fits = omega arith }

one_field :
    (id : ℕ) (v : Version)
    → id < 65536
    → decode_fields (encode_fields (version_field_of id v ∷ [])) ≡ ok (version_field_of id v ∷ [])
one_field id v h = decode_fields-encode _ (version-IsField id v h, tt)

-- A client that reads an acceptance has the version that the server put in it.
pub agreed_version-agreement : (v : Version) → v < 65536 → agreed_version (agreement v) ≡ ok v
unfolding agreed_version agreement version_field
agreed_version-agreement v h = rw (one_field 1 v (omega arith), version_of-put v h)

-- A client that reads the refusal has both ends of the range and the sentence.
pub refused_versions-refusal : refused_versions refusal ≡ ok (1, 1, refusal_reason)
unfolding refused_versions refusal version_field text_field
refused_versions-refusal = rw (
  decode_fields-encode (refusal_fields) (
    version-IsField 1 1 (omega arith),
    (
      version-IsField 2 1 (omega arith),
      (record { id_fits = omega arith; value_fits = omega arith }, tt),
    ),
  ),
  version_of-put 1 (omega arith),
)

proposal-hello : (v : Version) → v < 65536 → proposal (hello v) ≡ ok v
unfolding proposal hello known version_field
proposal-hello v h = rw (one_field 1 v (omega arith), version_of-put v h)

hello-IsFrame : (v : Version) → IsFrame (hello v)
unfolding hello encode_fields put_uint16
hello-IsFrame v = record { not_reserved = omega arith; bounded = omega arith }

agreement-IsFrame : (v : Version) → IsFrame (agreement v)
unfolding agreement encode_fields put_uint16
agreement-IsFrame v = record { not_reserved = omega arith; bounded = omega arith }

refusal-IsFrame : IsFrame refusal
unfolding refusal encode_fields put_uint16
refusal-IsFrame = record { not_reserved = omega arith; bounded = omega arith }

abbrev pub IsSupported : Version → Type 0
IsSupported v = (min_supported_version ≤ v) × (v ≤ max_supported_version)

-- The connection once a hello has been taken off it and an answer written.
abbrev pub answered : Conn → Bytes → Frame → Conn
answered c rest f = record c {
  stream = record (c.stream) { incoming = rest; outgoing = c.stream.outgoing ++ buffer f };
}

-- Where the peer sends a hello with a supported version, whatever follows it, and can be written
-- to, the server sends the acceptance of that version and speaks it, what follows the hello is left
-- on the stream, and a client reads the acceptance as the version.
pub negotiate-supported :
    (c : Conn) (v : Version) (rest : Bytes)
    → IsSupported v
    → c.stream.writable ≡ true
    → c.stream.incoming ≡ buffer (hello v) ++ rest
    → (negotiate c ≡ (answered c rest (agreement v), ok v)) × (agreed_version (agreement v) ≡ ok v)
unfolding negotiate
negotiate-supported c v rest s w e = (
  rw (e, decode-buffer (hello v) rest (hello-IsFrame v), proposal-hello v (omega arith))
      (ground (
        arith,
        encode_lem (record (c.stream) { incoming = rest }) (agreement v) (agreement-IsFrame v) w,
      )),
  agreed_version-agreement v (omega arith),
)

-- Where the peer sends a hello with a version of 16 bits that is not supported and can be written
-- to, the server sends the refusal before it gives up, and a client reads from the refusal both
-- ends of the supported range and the reason.
pub negotiate-unsupported :
    (c : Conn) (v : Version) (rest : Bytes)
    → v < 65536
    → ¬ IsSupported v
    → c.stream.writable ≡ true
    → c.stream.incoming ≡ buffer (hello v) ++ rest
    → (negotiate c ≡ (answered c rest refusal, err (version_unsupported v)))
      × (refused_versions refusal
          ≡ ok (min_supported_version, max_supported_version, refusal_reason))
unfolding negotiate
negotiate-unsupported c v rest h s w e = (
  rw (e, decode-buffer (hello v) rest (hello-IsFrame v), proposal-hello v h)
      (ground
        (arith, encode_lem (record (c.stream) { incoming = rest }) refusal refusal-IsFrame w)),
  refused_versions-refusal,
)
