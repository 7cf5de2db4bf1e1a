-- ===== src/Signalling/Fields/Examples.antt =====
-- Runs of the fields of internal/signalling/negotiation.go.
use stammtisch.Prelude.{◌≡◌, ◌≢◌, refl, [], ◌∷◌, ok, err, arith, All, List}
use stammtisch.Prelude.Bytes.{Bytes}
use stammtisch.Signalling.Stream.{uint16}
use stammtisch.Signalling.Fields.{
  Field, encode_fields, decode_fields, decode_from, out_of_fuel, value_cut_short,
}
use stammtisch.Signalling.Fields.RoundTrip.{IsField, decode_fields-encode, decode_fields-ends}
use stammtisch.Signalling.Frame.RoundTrip.{IsByte}

abbrev two_fields : List Field
two_fields = record { id = 1; value = 0 ∷ 1 ∷ [] } ∷ record { id = 300; value = [] } ∷ []

abbrev laid_out : Bytes
laid_out = 0 ∷ 1 ∷ 0 ∷ 2 ∷ 0 ∷ 1 ∷ 1 ∷ 44 ∷ 0 ∷ 0 ∷ []

two_fields-AreFields : All IsField two_fields
two_fields-AreFields = (
  record { id_fits = omega arith; value_fits = omega arith },
  (record { id_fits = omega arith; value_fits = omega arith }, tt),
)

decode_fields-encode_example : decode_fields (encode_fields two_fields) ≡ ok two_fields
decode_fields-encode_example = decode_fields-encode two_fields two_fields-AreFields

laid_out_read : decode_fields laid_out ≡ ok two_fields
unfolding decode_fields decode_from uint16
laid_out_read = refl

laid_out-AreBytes : All IsByte laid_out
laid_out-AreBytes = ground arith

decode_fields-ends_example : decode_fields (0 ∷ 1 ∷ 0 ∷ 9 ∷ []) ≢ err out_of_fuel
decode_fields-ends_example = decode_fields-ends (0 ∷ 1 ∷ 0 ∷ 9 ∷ [])

cut_short : decode_fields (0 ∷ 1 ∷ 0 ∷ 9 ∷ []) ≡ err value_cut_short
unfolding decode_fields decode_from uint16
cut_short = refl
