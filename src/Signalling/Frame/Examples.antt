-- ===== src/Signalling/Frame/Examples.antt =====
-- Runs of internal/signalling/frame.go.
use stammtisch.Prelude.{◌↔◌, ◌≡◌, refl, true, [], ◌∷◌, ◌++◌, ok, arith, All}
use stammtisch.Prelude.Bytes.{Bytes}
use stammtisch.Signalling.Stream.{Stream, uint32, read_full}
use stammtisch.Signalling.Frame.{Frame, decode, check_header, buffer, encode}
use stammtisch.Signalling.Frame.RoundTrip.{IsByte, IsFrame, decode_iff}

abbrev short : Frame
short = record { kind = 1; payload = 7 ∷ 8 ∷ [] }

abbrev wire : Bytes
wire = 0 ∷ 0 ∷ 0 ∷ 2 ∷ 1 ∷ 7 ∷ 8 ∷ 5 ∷ []

short-IsFrame : IsFrame short
short-IsFrame = record { not_reserved = omega arith; bounded = omega arith }

wire_read : decode wire ≡ (ok short, 5 ∷ [])
unfolding decode check_header uint32 read_full
wire_read = refl

wire-AreBytes : All IsByte wire
wire-AreBytes = ground arith

abbrev quiet : Stream
quiet = record { incoming = []; outgoing = 9 ∷ []; writable = true }

abbrev written : Stream
written = record quiet { outgoing = 9 ∷ buffer short }

frame_goes_out : encode quiet short ≡ ok written
unfolding encode
frame_goes_out = refl

decode_iff_example :
    (decode wire ≡ (ok short, 5 ∷ [])) ↔ (IsFrame short × (wire ≡ buffer short ++ 5 ∷ []))
decode_iff_example = decode_iff wire (5 ∷ []) short wire-AreBytes
