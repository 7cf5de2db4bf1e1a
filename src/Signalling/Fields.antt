-- ===== src/Signalling/Fields.antt =====
-- internal/signalling/negotiation.go, the fields of a payload. The loop of `decodeFields` takes fuel:
-- each turn reads four bytes at least, so the length of the payload is enough.
pub mod RoundTrip
mod Examples
use stammtisch.Prelude.{
  ℕ, suc, zero, ◌%◌, ◌≡◌, Bool, true, false, List, [], ◌∷◌, ◌++◌, Result, ok, err, ◌>>=◌, length,
  take, drop, ltb, ◌==◌, if◌then◌else◌,
}
use stammtisch.Prelude.Bytes.{Bytes}
use stammtisch.Signalling.Stream.{put_uint16, uint16}

pub record Field : Type 0 where
  pub id : ℕ
  pub value : Bytes

-- What `ErrMalformedMessage` is wrapped around; `out_of_fuel` is no answer of the program.
pub data FieldError : Type 0 where
  trailing_bytes value_cut_short version_width field_absent wrong_kind out_of_fuel : FieldError

-- The identifier and the length are uint16.
unfoldable pub encode_field : Field → Bytes
encode_field f = put_uint16 f.id ++ put_uint16 (length f.value % 65536) ++ f.value

unfoldable pub encode_fields : List Field → Bytes
unfolding encode_field
encode_fields [] = []
encode_fields (f ∷ fields) = encode_field f ++ encode_fields fields

-- One turn of the loop, given what the turns after it make of the rest.
abbrev pub turn : ℕ → ℕ → Bytes → Result FieldError (List Field) → Result FieldError (List Field)
turn id n rest more =
    if ltb (length rest) n
    then err value_cut_short
    else (more >>= λ fields. ok (record { id = id; value = take n rest } ∷ fields))

pub decode_from : ℕ → Bytes → Result FieldError (List Field)
decode_from fuel [] = ok []
decode_from (suc fuel) (a ∷ b ∷ c ∷ d ∷ rest) =
    let more = decode_from fuel (drop (uint16 c d) rest) in turn (uint16 a b) (uint16 c d) rest more
decode_from (suc fuel) _ = err trailing_bytes
decode_from zero _ = err out_of_fuel

pub decode_fields : Bytes → Result FieldError (List Field)
unfolding decode_from
decode_fields payload = decode_from (length payload) payload

pub version_of : Bytes → Result FieldError ℕ
version_of (a ∷ b ∷ []) = ok (uint16 a b)
version_of _ = err version_width

-- The first field with the identifier, read as a version.
unfoldable pub version_field : List Field → ℕ → Result FieldError ℕ
unfolding version_of
version_field [] id = err field_absent
version_field (f ∷ fields) id =
    let rest = version_field fields id in if f.id == id then version_of f.value else rest

-- The first field with the identifier, read as text.
unfoldable pub text_field : List Field → ℕ → Result FieldError Bytes
text_field [] id = err field_absent
text_field (f ∷ fields) id =
    let rest = text_field fields id in if f.id == id then ok f.value else rest
