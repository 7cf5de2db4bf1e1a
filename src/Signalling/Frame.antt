-- ===== src/Signalling/Frame.antt =====
-- internal/signalling/frame.go. A kind is a uint8. `Decode` answers with what is left of the stream,
-- also where it fails. The allocation of the payload is left out.
pub mod RoundTrip
mod Examples
use stammtisch.Prelude.{
  ℕ, ◌≡◌, ◌<◌, Bool, true, false, List, [], ◌∷◌, ◌++◌, Option, none, some, Result, ok, err, length,
  drop, ltb, ◌==◌, if◌then◌else◌,
}
use stammtisch.Prelude.Bytes.{Bytes}
use stammtisch.Signalling.Stream.{Stream, read_full, put_uint32, uint32}

abbrev pub Kind : Type 0
Kind = ℕ

abbrev pub kind_reserved : Kind
kind_reserved = 0

abbrev pub kind_authenticate : Kind
kind_authenticate = 1

abbrev pub kind_space_state : Kind
kind_space_state = 2

-- 64 << 10.
abbrev pub max_payload_size : ℕ
max_payload_size = 65536

abbrev pub header_size : ℕ
header_size = 5

pub data FrameError : Type 0 where
  header_unread payload_unread frame_too_large reserved_kind write_failed : FrameError

pub record Frame : Type 0 where
  pub kind : Kind
  pub payload : Bytes

unfoldable pub read_payload : Kind → Option (Bytes × Bytes) → Result FrameError Frame × Bytes
read_payload kind none = (err payload_unread, [])
read_payload kind (some (payload, rest)) = (ok (record { kind = kind; payload = payload }), rest)

-- The two tests on the header come before anything of the payload is read.
unfoldable pub check_header : ℕ → Kind → Bytes → Result FrameError Frame × Bytes
unfolding read_payload
check_header declared kind rest =
    if ltb max_payload_size declared
    then (err frame_too_large, rest)
    else if kind == kind_reserved
    then (err reserved_kind, rest)
    else read_payload kind (read_full declared rest)

unfoldable pub decode : Bytes → Result FrameError Frame × Bytes
unfolding check_header
decode (a ∷ b ∷ c ∷ d ∷ kind ∷ rest) = check_header (uint32 a b c d) kind rest
decode _ = (err header_unread, [])

-- The buffer that `Encode` hands to its one `Write`.
pub buffer : Frame → Bytes
buffer f = put_uint32 (length f.payload) ++ f.kind ∷ f.payload

pub encode : Stream → Frame → Result FrameError Stream
unfolding buffer
encode s f =
    if ltb max_payload_size (length f.payload)
    then err frame_too_large
    else if f.kind == kind_reserved
    then err reserved_kind
    else if s.writable
    then ok (record s { outgoing = s.outgoing ++ buffer f })
    else err write_failed
