-- ===== src/Signalling/Negotiation.antt =====
-- internal/signalling/negotiation.go: the hello, its two answers, and the server's half.
pub mod Exchange
mod Examples
use stammtisch.Prelude.{
  ℕ, ◌≡◌, Bool, true, false, not, ◌||◌, List, [], ◌∷◌, Result, ok, err, ◌>>=◌, ◌>>◌, fail_if, ltb,
  ◌==◌, if◌then◌else◌,
}
use stammtisch.Prelude.Bytes.{Bytes, bytes}
use stammtisch.Signalling.Stream.{Stream, put_uint16}
use stammtisch.Signalling.Fields.{
  Field, FieldError, wrong_kind, encode_fields, decode_fields, version_field, text_field,
}
use stammtisch.Signalling.Frame.{Frame, FrameError, decode, encode}
use stammtisch.Signalling.Conn.{
  Conn, ConnError, framing, malformed, unknown_message, hello_expected, version_unsupported, known,
  kind_hello, kind_version_agreed, kind_version_refused, read_to, written,
}

-- A uint16.
abbrev pub Version : Type 0
Version = ℕ

abbrev pub min_supported_version : Version
min_supported_version = 1

abbrev pub max_supported_version : Version
max_supported_version = 1

-- The identifiers of the fields, each scoped to its message.
abbrev pub field_proposed_version : ℕ
field_proposed_version = 1

abbrev pub field_agreed_version : ℕ
field_agreed_version = 1

abbrev pub field_lowest_supported : ℕ
field_lowest_supported = 1

abbrev pub field_highest_supported : ℕ
field_highest_supported = 2

abbrev pub field_reason : ℕ
field_reason = 3

abbrev version_field_of : ℕ → Version → Field
version_field_of id v = record { id = id; value = put_uint16 v }

pub hello : Version → Frame
hello proposed = record {
  kind = kind_hello;
  payload = encode_fields (version_field_of field_proposed_version proposed ∷ []);
}

pub agreement : Version → Frame
agreement agreed = record {
  kind = kind_version_agreed;
  payload = encode_fields (version_field_of field_agreed_version agreed ∷ []);
}

-- The sentence with the two numbers put in.
abbrev pub refusal_reason : Bytes
refusal_reason = bytes "this server speaks protocol versions 1 to 1"

abbrev refusal_fields : List Field
refusal_fields =
    version_field_of field_lowest_supported min_supported_version
    ∷ version_field_of field_highest_supported max_supported_version
    ∷ record { id = field_reason; value = refusal_reason }
    ∷ []

pub refusal : Frame
refusal = record { kind = kind_version_refused; payload = encode_fields refusal_fields }

pub agreed_version : Frame → Result FieldError Version
agreed_version f = do
  fail_if (not (f.kind == kind_version_agreed)) wrong_kind
  fields ← decode_fields f.payload
  version_field fields field_agreed_version

pub refused_versions : Frame → Result FieldError (Version × Version × Bytes)
refused_versions f = do
  fail_if (not (f.kind == kind_version_refused)) wrong_kind
  fields ← decode_fields f.payload
  lowest ← version_field fields field_lowest_supported
  highest ← version_field fields field_highest_supported
  reason ← text_field fields field_reason
  ok (lowest, highest, reason)

abbrev or_malformed {ℓ} : {A : Type ℓ} → Result FieldError A → Result ConnError A
or_malformed (ok a) = ok a
or_malformed (err e) = err (malformed e)

-- What the first frame proposes.
proposal : Frame → Result ConnError Version
proposal f = do
  fail_if (not (known f.kind)) (unknown_message f.kind)
  fail_if (not (f.kind == kind_hello)) (hello_expected f.kind)
  fields ← or_malformed (decode_fields f.payload)
  or_malformed (version_field fields field_proposed_version)

abbrev then_answer :
    Conn × Result ConnError (Unit {0}) → Result ConnError Version → Conn × Result ConnError Version
then_answer (c, err e) r = (c, err e)
then_answer (c, ok done) r = (c, r)

-- A proposal outside the range is told so before the error is returned.
reply : Conn → Result ConnError Version → Conn × Result ConnError Version
reply c (err e) = (c, err e)
reply c (ok proposed) =
    if ltb proposed min_supported_version || ltb max_supported_version proposed
    then then_answer (written c (encode c.stream refusal)) (err (version_unsupported proposed))
    else then_answer (written c (encode c.stream (agreement proposed))) (ok proposed)

negotiate_from : Conn → Result FrameError Frame × Bytes → Conn × Result ConnError Version
unfolding proposal reply
negotiate_from c (err e, rest) = (read_to c rest, err (framing e))
negotiate_from c (ok f, rest) = reply (read_to c rest) (proposal f)

pub negotiate : Conn → Conn × Result ConnError Version
unfolding negotiate_from
negotiate c = negotiate_from c (decode c.stream.incoming)
