-- ===== src/Auth/Credential/RoundTrip.antt =====
-- What is stored by internal/auth/credential.go is read back.
use stammtisch.Prelude.{
  ℕ, ◌≡◌, ◌≢◌, ◌≤◌, ◌==◌, ap, ◌∙◌, true, false, [], ◌∷◌, some, ok, arith, holds, length, is_ok, All,
  All-append,
}
use stammtisch.Prelude.Int.{pos}
use stammtisch.Prelude.Bytes.{split, split_last, split-append, Bytes, bytes_key, bytes}
use stammtisch.Prelude.Decimal.{itoa, itoa_least}
use stammtisch.Prelude.Map.{◌≟◌}
use stammtisch.Auth.{Primitives, Params}
use stammtisch.Auth.Credential.{
  argon_costs, argon_key_len, argon_version, salt_len, version_field, cost_field, stored_form,
  store, parse, parse_fields, matches,
}

-- What the packages outside promise. `RawStdEncoding` decodes what it encodes, and its alphabet has no
-- dollar sign. The formats scan what the same formats print. A key is as long as is asked for.
pub record IsFaithful (prim : Primitives) : Type 0 where
  pub decode-encode : (b : Bytes) → prim.decode (prim.encode b) ≡ some b
  pub no_dollar : (b : Bytes) → All (λ c. c ≢ b'$') (prim.encode b)
  pub scans_version : prim.scan_version (version_field argon_version) ≡ some argon_version
  pub scans_costs : prim.scan_costs (cost_field argon_costs) ≡ some argon_costs
  pub key_length :
      (credential salt : Bytes) (p : Params) (n : ℕ) → length (prim.id_key credential salt p n) ≡ n

All-no_dollar : (s : Bytes) → All (λ c. b'0' ≤ c) s → All (λ c. c ≢ b'$') s
All-no_dollar [] h = tt
All-no_dollar (c ∷ s) h = (λ e. ground (arith, h.0, e), All-no_dollar s h.1)

number_no_dollar : (n : ℕ) → All (λ c. c ≢ b'$') (itoa (pos n))
number_no_dollar n = All-no_dollar (itoa (pos n)) (itoa_least n)

version_no_dollar : (n : ℕ) → All (λ c. c ≢ b'$') (version_field n)
unfolding version_field
version_no_dollar n = (ground arith, (ground arith, number_no_dollar n))

cost_no_dollar : (p : Params) → All (λ c. c ≢ b'$') (cost_field p)
unfolding cost_field
cost_no_dollar p =
    let threads =
      All-append (λ c. c ≢ b'$') (bytes ",p=") _ (ground arith) (number_no_dollar p.threads) in
    let time = All-append (λ c. c ≢ b'$') (itoa (pos p.time)) _ (number_no_dollar p.time) threads in
    let costs = All-append (λ c. c ≢ b'$') (bytes ",t=") _ (ground arith) time in
    let memory =
      All-append (λ c. c ≢ b'$') (itoa (pos p.memory)) _ (number_no_dollar p.memory) costs in
    All-append (λ c. c ≢ b'$') (bytes "m=") _ (ground arith) memory

-- The six fields.
split-stored_form :
    (p : Params) (salt key : Bytes)
    → All (λ c. c ≢ b'$') salt
    → All (λ c. c ≢ b'$') key
    → split b'$' (stored_form p salt key)
      ≡ [] ∷ bytes "argon2id" ∷ version_field argon_version ∷ cost_field p ∷ salt ∷ key ∷ []
unfolding stored_form
split-stored_form p salt key s k =
    split-append b'$' [] _ tt
    ∙ ap (◌∷◌ []) (
        split-append b'$' (bytes "argon2id") _ (ground arith)
        ∙ ap (◌∷◌ (bytes "argon2id")) (
            split-append b'$' (version_field argon_version) _ (version_no_dollar argon_version)
            ∙ ap (◌∷◌ (version_field argon_version)) (
                split-append b'$' (cost_field p) _ (cost_no_dollar p)
                ∙ ap (◌∷◌ (cost_field p))
                    (split-append b'$' salt key s ∙ ap (◌∷◌ salt) (split_last b'$' key k)))))

parse-stored_form :
    (prim : Primitives) (salt key : Bytes)
    → IsFaithful prim
    → (length salt == 0) ≡ false
    → (length key == 0) ≡ false
    → parse prim (stored_form argon_costs (prim.encode salt) (prim.encode key))
      ≡ ok (argon_costs, salt, key)
unfolding parse parse_fields
parse-stored_form prim salt key v a b =
    rw
      (split-stored_form argon_costs (prim.encode salt) (prim.encode key) (v.no_dollar salt)
        (v.no_dollar key))
      (ground
        (arith, v.scans_version, v.scans_costs, v.decode-encode salt, v.decode-encode key, a, b))

-- A credential that was stored is matched by a credential exactly where the two give one key under the
-- salt that was drawn, so it is matched by itself, and asking is never an error.
pub matches-store :
    (prim : Primitives) (salt credential other stored : Bytes)
    → IsFaithful prim
    → length salt ≡ salt_len
    → store prim (some salt) credential ≡ ok stored
    → matches prim stored other
      ≡ ok (
          holds (
            prim.id_key other salt argon_costs argon_key_len
            ≟ prim.id_key credential salt argon_costs argon_key_len))
unfolding store matches
matches-store prim salt credential other stored v s h =
    let key = prim.id_key credential salt argon_costs argon_key_len in
    let long = v.key_length credential salt argon_costs argon_key_len in
    ground (
      arith,
      h,
      s,
      long,
      parse-stored_form prim salt key v (ground (arith, s)) (ground (arith, long)),
    )

-- A stored form is always an answer.
pub matches-stored_form :
    (prim : Primitives) (salt key other : Bytes)
    → IsFaithful prim
    → (length salt == 0) ≡ false
    → (length key == 0) ≡ false
    → is_ok (matches prim (stored_form argon_costs (prim.encode salt) (prim.encode key)) other)
      ≡ true
unfolding matches
matches-stored_form prim salt key other v a b =
    ground (arith, parse-stored_form prim salt key v a b)
