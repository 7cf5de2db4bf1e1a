-- ===== src/Signalling/Frame/RoundTrip.antt =====
-- `Encode` and `Decode` of internal/signalling/frame.go, against each other.
use mathlib.Core.List.{append-nil}
use stammtisch.Prelude.{
  ap, ◌∙◌, ◌↔◌, ℕ, ◌≡◌, ◌≢◌, ◌≤◌, ◌<◌, refl, true, [], ◌∷◌, ◌++◌, some, ok, err, length, arith, All,
  take-append, drop-append, take-append-drop, length-append, length-take,
}
use stammtisch.Prelude.Bytes.{Bytes}
use stammtisch.Signalling.Stream.{Stream, read_full, put_uint32, uint32, uint32-put, put-uint32}
use stammtisch.Signalling.Frame.{
  Kind, Frame, frame_too_large, max_payload_size, check_header, decode, buffer, encode,
}

-- What this package will write and read: any kind but 0, which is the zero Kind that no frame bears,
-- whether or not the package declares it, and a payload that is not too long.
pub record IsFrame (f : Frame) : Type 0 where
  pub not_reserved : f.kind ≢ 0
  pub bounded : length f.payload ≤ max_payload_size

read_full-append : (xs ys : Bytes) → read_full (length xs) (xs ++ ys) ≡ some (xs, ys)
unfolding read_full
read_full-append xs ys = ground (arith, length-append xs ys, take-append xs ys, drop-append xs ys)

-- A frame of any kind but 0, no longer than the largest payload, is read back from the bytes that are
-- written for it, whatever follows them, and what follows is left.
pub decode-buffer :
    (f : Frame) (rest : Bytes) → IsFrame f → decode (buffer f ++ rest) ≡ (ok f, rest)
unfolding decode buffer put_uint32
decode-buffer f rest v =
    rw (uint32-put (length f.payload) (omega (arith, v.bounded)))
      (ground (arith, v.not_reserved, v.bounded, read_full-append f.payload rest))

abbrev pub IsByte : ℕ → Type 0
IsByte b = b < 256

read_full-eq_some :
    (n : ℕ) (s xs ys : Bytes) → read_full n s ≡ some (xs, ys) → (s ≡ xs ++ ys) × (length xs ≡ n)
unfolding read_full
read_full-eq_some n s xs ys h = ground (arith, take-append-drop n s, length-take n s)

check_header-eq_ok :
    (declared : ℕ) (kind : Kind) (s rest : Bytes) (f : Frame)
    → check_header declared kind s ≡ (ok f, rest)
    → IsFrame f × (declared ≡ length f.payload) × (kind ≡ f.kind) × (s ≡ f.payload ++ rest)
unfolding check_header
check_header-eq_ok declared kind s rest f h =
    ground (arith, read_full-eq_some declared s f.payload rest)

-- A frame that is read from bytes is one that may be written, and what was read of the stream are
-- the bytes that are written for it: no two runs of bytes are one frame.
pub buffer-decode :
    (s rest : Bytes) (f : Frame)
    → All IsByte s
    → decode s ≡ (ok f, rest)
    → IsFrame f × (s ≡ buffer f ++ rest)
unfolding decode buffer
buffer-decode (a ∷ b ∷ c ∷ d ∷ kind ∷ s) rest f q h =
    let (v, declared, same, e) = check_header-eq_ok (uint32 a b c d) kind s rest f h in
    let (ha, (hb, (hc, (hd, _)))) = q in
    (v, rw (← declared, put-uint32 a b c d ha hb hc hd, same, e) refl)
buffer-decode _ rest f q h = ground arith

-- A header that declares too much costs the five bytes of the header: nothing else is read.
pub decode_oversized :
    (a b c d kind : ℕ) (rest : Bytes)
    → max_payload_size < uint32 a b c d
    → decode (a ∷ b ∷ c ∷ d ∷ kind ∷ rest) ≡ (err frame_too_large, rest)
unfolding decode
decode_oversized a b c d kind rest h = ground arith

encode-IsFrame : (s t : Stream) (f : Frame) → encode s f ≡ ok t → IsFrame f
unfolding encode
encode-IsFrame s t f h = ground arith

-- `Encode` refuses what `Decode` would, and otherwise writes the frame whole.
pub encode-decode :
    (s t : Stream) (f : Frame)
    → encode s f ≡ ok t
    → IsFrame f × (t.outgoing ≡ s.outgoing ++ buffer f) × (decode (buffer f) ≡ (ok f, []))
unfolding encode
encode-decode s t f h =
    let v = encode-IsFrame s t f h in
    (v, ground arith, rw (append-nil (buffer f)) at (decode-buffer f [] v))

-- A frame that may be written is written, where the stream takes it.
pub encode_lem :
    (s : Stream) (f : Frame)
    → IsFrame f
    → s.writable ≡ true
    → encode s f ≡ ok (record s { outgoing = s.outgoing ++ buffer f })
unfolding encode
encode_lem s f v w = ground (arith, v.not_reserved, v.bounded)

-- On a run of bytes, a frame is read and a rest is left exactly where the frame is of a kind other than
-- 0, declared by the package or not, and no longer than the largest payload, and the run is the bytes
-- that are written for it and the rest.
pub decode_iff :
    (s rest : Bytes) (f : Frame)
    → All IsByte s
    → (decode s ≡ (ok f, rest)) ↔ (IsFrame f × (s ≡ buffer f ++ rest))
decode_iff s rest f q = (buffer-decode s rest f q, λ (v, e). ap decode e ∙ decode-buffer f rest v)
