-- ===== src/Prelude/Decimal.antt =====
-- Go's `%d` and `strconv.Itoa`: the decimal digits of an integer. The fuel is the number itself, of
-- which a turn leaves a tenth.
use Prim.Native.Nat.{ℕ, zero, suc, ◌+◌, ◌/◌, ◌%◌, ◌≤◌}
use mathlib.Core.List.{[], ◌∷◌}
use stammtisch.Prelude.Tests.{ltb, if◌then◌else◌}
use stammtisch.Prelude.Bytes.{Bytes}
use stammtisch.Prelude.Lists.{All}
use native.Mathlib.Omega.{arith}
use stammtisch.Prelude.Int.{ℤ, pos, negsuc}

digits_onto : ℕ → ℕ → Bytes → Bytes
digits_onto zero n acc = (n + b'0') ∷ acc
digits_onto (suc fuel) n acc =
    let rest = digits_onto fuel (n / 10) ((n % 10 + b'0') ∷ acc) in
    if ltb n 10 then (n + b'0') ∷ acc else rest

unfoldable pub itoa : ℤ → Bytes
unfolding digits_onto
itoa (pos n) = digits_onto n n []
itoa (negsuc n) = b'-' ∷ digits_onto (suc n) (suc n) []

-- No digit is less than that of zero.
digits_onto_least :
    (fuel n : ℕ) (acc : Bytes)
    → All (λ c. b'0' ≤ c) acc
    → All (λ c. b'0' ≤ c) (digits_onto fuel n acc)
unfolding digits_onto
digits_onto_least zero n acc h = (ground arith, h)
digits_onto_least (suc fuel) n acc h =
    ground (arith, h, digits_onto_least fuel (n / 10) ((n % 10 + b'0') ∷ acc) (ground arith, h))

pub itoa_least : (n : ℕ) → All (λ c. b'0' ≤ c) (itoa (pos n))
unfolding itoa
itoa_least n = digits_onto_least n n [] tt

All-weaken : (s : Bytes) → All (λ c. b'0' ≤ c) s → All (λ c. b'-' ≤ c) s
All-weaken [] h = tt
All-weaken (c ∷ s) h = (omega (arith, h.0), All-weaken s h.1)

pub itoa-negative_least : (n : ℕ) → All (λ c. b'-' ≤ c) (itoa (negsuc n))
unfolding itoa
itoa-negative_least n = (
  omega arith,
  All-weaken (digits_onto (suc n) (suc n) []) (digits_onto_least (suc n) (suc n) [] tt),
)
