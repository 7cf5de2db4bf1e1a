-- ===== src/Auth.antt =====
-- internal/auth: what the package asks of the packages outside the repository, and its errors. The
-- detail of an error is left out.
pub mod Credential
pub mod Sessions
pub mod Authenticate
mod Examples
use stammtisch.Prelude.{ℕ, Option}
use stammtisch.Prelude.Bytes.{Bytes}

-- The costs of a stored credential: a uint32, a uint32 and a uint8.
pub record Params : Type 0 where
  pub memory : ℕ
  pub time : ℕ
  pub threads : ℕ

-- `base64.RawStdEncoding`, `sha256.Sum256`, `argon2.IDKey` on credential, salt, costs and length, and
-- the two formats of `fmt.Sscanf`, "v=%d" and "m=%d,t=%d,p=%d", whose answer is absent on an error.
pub record Primitives : Type 0 where
  pub encode : Bytes → Bytes
  pub decode : Bytes → Option Bytes
  pub sum : Bytes → Bytes
  pub id_key : Bytes → Bytes → Params → ℕ → Bytes
  pub scan_version : Bytes → Option ℕ
  pub scan_costs : Bytes → Option Params

pub data AuthError : Type 0 where
  no_such_session session_expired : AuthError
  no_owner cannot_draw malformed_credential no_such_account account_unreadable authentication :
      AuthError
