-- ===== src/Signalling/Stream.antt =====
-- The `io.ReadWriter` of a connection, and the big-endian integers of `encoding/binary`. A stream is
-- what the peer has sent and is still to be read, what was written, and whether a write succeeds.
-- `io.ReadFull` fails where fewer bytes are left than it was asked for, and has then read them all.
use stammtisch.Prelude.{
  ℕ, ◌+◌, ◌*◌, ◌/◌, ◌%◌, ◌<◌, ◌≡◌, Bool, [], ◌∷◌, Option, none, some, arith, length, take, drop,
  ltb, if◌then◌else◌,
}
use stammtisch.Prelude.Bytes.{Bytes}

pub record Stream : Type 0 where
  pub incoming : Bytes
  pub outgoing : Bytes
  pub writable : Bool

unfoldable pub read_full : ℕ → Bytes → Option (Bytes × Bytes)
read_full n s = if ltb (length s) n then none else some (take n s, drop n s)

-- `PutUint16` and `Uint16`.
unfoldable pub put_uint16 : ℕ → Bytes
put_uint16 n = n / 256 % 256 ∷ n % 256 ∷ []

unfoldable pub uint16 : ℕ → ℕ → ℕ
uint16 a b = a * 256 + b

-- `PutUint32` and `Uint32`.
unfoldable pub put_uint32 : ℕ → Bytes
put_uint32 n = n / 16777216 % 256 ∷ n / 65536 % 256 ∷ n / 256 % 256 ∷ n % 256 ∷ []

unfoldable pub uint32 : ℕ → ℕ → ℕ → ℕ → ℕ
uint32 a b c d = a * 16777216 + b * 65536 + c * 256 + d

pub uint16-put : (n : ℕ) → n < 65536 → uint16 (n / 256 % 256) (n % 256) ≡ n
unfolding uint16
uint16-put n h = omega arith

pub put-uint16 : (a b : ℕ) → a < 256 → b < 256 → put_uint16 (uint16 a b) ≡ a ∷ b ∷ []
unfolding put_uint16 uint16
put-uint16 a b h k = ground arith

pub uint32-put :
    (n : ℕ)
    → n < 4294967296
    → uint32 (n / 16777216 % 256) (n / 65536 % 256) (n / 256 % 256) (n % 256) ≡ n
unfolding uint32
uint32-put n h = omega arith

pub put-uint32 :
    (a b c d : ℕ)
    → a < 256
    → b < 256
    → c < 256
    → d < 256
    → put_uint32 (uint32 a b c d) ≡ a ∷ b ∷ c ∷ d ∷ []
unfolding put_uint32 uint32
put-uint32 a b c d h i j k = ground arith
