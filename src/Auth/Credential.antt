-- ===== src/Auth/Credential.antt =====
-- internal/auth/credential.go. The bytes that `randRead` draws are an argument, absent when it fails.
pub mod RoundTrip
use stammtisch.Prelude.{
  ℕ, ◌^◌, ◌%◌, Bool, true, false, not, ◌||◌, List, [], ◌∷◌, ◌++◌, Option, none, some, Result, ok,
  err, ◌>>=◌, ◌>>◌, fail_if, holds, length, ◌==◌, if◌then◌else◌,
}
use stammtisch.Prelude.Int.{pos}
use stammtisch.Prelude.Bytes.{split, Bytes, bytes_key, bytes, is_empty}
use stammtisch.Prelude.Decimal.{itoa}
use stammtisch.Prelude.Map.{◌≟◌}
use stammtisch.Auth.{Primitives, Params, AuthError, cannot_draw, malformed_credential}

abbrev pub argon_costs : Params
argon_costs = record { memory = 65536; time = 3; threads = 4 }

abbrev pub argon_key_len : ℕ
argon_key_len = 32

abbrev pub salt_len : ℕ
salt_len = 16

-- `argon2.Version`.
abbrev pub argon_version : ℕ
argon_version = 19

unfoldable pub version_field : ℕ → Bytes
version_field v = bytes "v=" ++ itoa (pos v)

unfoldable pub cost_field : Params → Bytes
cost_field p =
    bytes "m="
    ++ (itoa (pos p.memory)
        ++ (bytes ",t=" ++ (itoa (pos p.time) ++ (bytes ",p=" ++ itoa (pos p.threads)))))

-- `"$argon2id$v=%d$m=%d,t=%d,p=%d$%s$%s"`.
unfoldable pub stored_form : Params → Bytes → Bytes → Bytes
stored_form p salt key =
    let keys = b'$' ∷ (salt ++ b'$' ∷ key) in
    let costs = b'$' ∷ (cost_field p ++ keys) in
    b'$' ∷ (bytes "argon2id" ++ b'$' ∷ (version_field argon_version ++ costs))

unfoldable pub store : Primitives → Option Bytes → Bytes → Result AuthError Bytes
unfolding stored_form
store prim none credential = err cannot_draw
store prim (some salt) credential = ok (
    stored_form argon_costs (prim.encode salt)
      (prim.encode (prim.id_key credential salt argon_costs argon_key_len)))

-- An error of a package outside, which `parse` turns into its own.
abbrev pub need : {A : Type 0} → Option A → Result AuthError A
need none = err malformed_credential
need (some a) = ok a

parse_fields : Primitives → List Bytes → Result AuthError (Params × Bytes × Bytes)
parse_fields prim (first ∷ variant ∷ version ∷ costs ∷ salt ∷ key ∷ []) =
    fail_if (not (is_empty first)) malformed_credential
    >> fail_if (not (holds (variant ≟ bytes "argon2id"))) malformed_credential
    >> (need (prim.scan_version version) >>= λ v.
        fail_if (not (v == argon_version)) malformed_credential
        >> (need (prim.scan_costs costs) >>= λ p.
            fail_if (p.memory == 0 || p.time == 0 || p.threads == 0) malformed_credential
            >> (need (prim.decode salt) >>= λ s. need (prim.decode key) >>= λ k.
                fail_if (length s == 0 || length k == 0) malformed_credential >> ok (p, s, k))))
parse_fields prim _ = err malformed_credential

pub parse : Primitives → Bytes → Result AuthError (Params × Bytes × Bytes)
unfolding parse_fields
parse prim stored = parse_fields prim (split b'$' stored)

pub matches : Primitives → Bytes → Bytes → Result AuthError Bool
matches prim stored credential = parse prim stored >>= λ (params, salt, key).
    ok (holds (prim.id_key credential salt params (length key % 2 ^ 32) ≟ key))
