-- ===== src/Signalling/Fields/RoundTrip.antt =====
-- The fields of internal/signalling/negotiation.go, laid out and walked.
use stammtisch.Prelude.{
  ℕ, suc, zero, ◌%◌, ◌≡◌, ◌≢◌, ◌≤◌, ◌<◌, refl, List, [], ◌∷◌, ◌++◌, Result, ok, err, ◌>>=◌, length,
  take, drop, arith, All, take-append, drop-append, take-append-drop, length-append, length-take,
  length-drop, All-drop,
}
use stammtisch.Prelude.Bytes.{Bytes}
use stammtisch.Signalling.Stream.{put_uint16, uint16, uint16-put, put-uint16}
use stammtisch.Signalling.Fields.{
  Field, FieldError, version_of, turn, out_of_fuel, encode_fields, decode_from, decode_fields,
}
use stammtisch.Signalling.Frame.RoundTrip.{IsByte}

-- What fits the two bytes of an identifier and of a length.
pub record IsField (f : Field) : Type 0 where
  pub id_fits : f.id < 65536
  pub value_fits : length f.value < 65536

turn-ends :
    (id n : ℕ) (rest : Bytes) (more : Result FieldError (List Field))
    → (n ≤ length rest → more ≢ err out_of_fuel)
    → turn id n rest more ≢ err out_of_fuel
turn-ends id n rest (ok fields) h e = ground arith
turn-ends id n rest (err x) h e = ground arith

-- Enough fuel: the walk never stops for want of it, so it has an answer for every payload.
decode_from-fuel : (fuel : ℕ) (s : Bytes) → length s ≤ fuel → decode_from fuel s ≢ err out_of_fuel
unfolding decode_from
decode_from-fuel zero [] h = λ e. cc
decode_from-fuel (suc fuel) [] h = λ e. cc
decode_from-fuel zero (a ∷ s) h = elim h [ ]
decode_from-fuel (suc fuel) (a ∷ b ∷ c ∷ d ∷ s) h =
    let n = uint16 c d in
    turn-ends (uint16 a b) n s _
      (λ k. decode_from-fuel fuel (drop n s) (omega (arith, length-drop n s)))
decode_from-fuel (suc fuel) _ h = λ e. cc

-- For no payload does the walk over the fields stop for want of fuel: it has an answer of the
-- program's own for every payload.
pub decode_fields-ends : (s : Bytes) → decode_fields s ≢ err out_of_fuel
unfolding decode_fields
decode_fields-ends s = decode_from-fuel (length s) s (omega arith)

turn-append :
    (f : Field) (rest : Bytes) (more : Result FieldError (List Field))
    → turn f.id (length f.value) (f.value ++ rest) more ≡ (more >>= λ fields. ok (f ∷ fields))
turn-append f rest more = ground (arith, length-append f.value rest, take-append f.value rest)

decode_from-encode :
    (fuel : ℕ) (fields : List Field)
    → All IsField fields
    → length (encode_fields fields) ≤ fuel
    → decode_from fuel (encode_fields fields) ≡ ok fields
unfolding decode_from encode_fields put_uint16
decode_from-encode zero [] v h = refl
decode_from-encode (suc fuel) [] v h = refl
decode_from-encode zero (f ∷ fields) v h = elim h [ ]
decode_from-encode (suc fuel) (f ∷ fields) v h =
    let short : length f.value % 65536 ≡ length f.value = omega (arith, v.0.value_fits) in
    rw
      (
        short,
        uint16-put f.id v.0.id_fits,
        uint16-put (length f.value) v.0.value_fits,
        drop-append f.value (encode_fields fields),
        decode_from-encode fuel fields v.1
            (omega (arith, length-append f.value (encode_fields fields))),
      )
      (turn-append f (encode_fields fields) (ok fields))

-- Fields whose identifier and length fit 16 bits are read back as they were laid out, in order,
-- unknown identifiers included.
pub decode_fields-encode :
    (fields : List Field) → All IsField fields → decode_fields (encode_fields fields) ≡ ok fields
unfolding decode_fields
decode_fields-encode fields v = decode_from-encode _ fields v (omega arith)

turn-eq_ok :
    (id n : ℕ) (s : Bytes) (more : Result FieldError (List Field)) (fields : List Field)
    → turn id n s more ≡ ok fields
    → (rest : List Field) × (more ≡ ok rest)
      × (n ≤ length s)
      × (fields ≡ record { id = id; value = take n s } ∷ rest)
turn-eq_ok id n s (ok rest) fields h = (rest, refl, ground arith, ground arith)
turn-eq_ok id n s (err e) fields h = ground arith

width : (c d : ℕ) → c < 256 → d < 256 → uint16 c d % 65536 ≡ uint16 c d
unfolding uint16
width c d h k = omega arith

encode-decode_from :
    (fuel : ℕ) (s : Bytes) (fields : List Field)
    → All IsByte s
    → decode_from fuel s ≡ ok fields
    → encode_fields fields ≡ s
unfolding decode_from encode_fields
encode-decode_from fuel [] fields q h = ground arith
encode-decode_from (suc fuel) (a ∷ b ∷ c ∷ d ∷ s) fields q h =
    let (ha, (hb, (hc, (hd, hs)))) = q in
    let (more, e, len, is) = turn-eq_ok (uint16 a b) (uint16 c d) s _ fields h in
    let tail =
      encode-decode_from fuel (drop (uint16 c d) s) more (All-drop IsByte (uint16 c d) s hs) e in
    rw (
      is,
      tail,
      length-take (uint16 c d) s len,
      width c d hc hd,
      put-uint16 a b ha hb,
      put-uint16 c d hc hd,
      take-append-drop (uint16 c d) s,
    )
encode-decode_from (suc fuel) _ fields q h = ground arith
encode-decode_from zero _ fields q h = ground arith

-- A payload of bytes that is accepted is the layout of what it was read as: nothing in it is skipped.
pub encode-decode_fields :
    (s : Bytes) (fields : List Field)
    → All IsByte s
    → decode_fields s ≡ ok fields
    → encode_fields fields ≡ s
unfolding decode_fields
encode-decode_fields s fields q h = encode-decode_from (length s) s fields q h

-- A version that is written as a field's value is read from it.
pub version_of-put : (v : ℕ) → v < 65536 → version_of (put_uint16 v) ≡ ok v
unfolding version_of put_uint16
version_of-put v h = rw (uint16-put v h)
