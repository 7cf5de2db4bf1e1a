-- ===== src/Orchestration/Clock.antt =====
-- internal/orchestration/clock.go and grace.go. A `time.Time` is the number of nanoseconds since the
-- Unix epoch, and a `time.Duration` a number of nanoseconds; both may be negative. Reading the clock
-- is an argument `now` of each operation, so a clock that advances between two calls is a larger `now`.
-- The mutexes of the fakes guard each method as a whole and are left out.
mod Examples
pub mod Laws
use stammtisch.Prelude.{
  ℕ, suc, ◌+◌, ◌/◌, ◌≡◌, Bool, true, false, not, ◌++◌, ◌∷◌, Option, none, some, if◌then◌else◌,
}
use stammtisch.Prelude.Int.{ℤ, pos, negsuc, ◌+ℤ◌, ◌-ℤ◌, ◌<ℤ◌, ltb_ℤ}

abbrev pub Time : Type 0
Time = ℤ

abbrev pub Duration : Type 0
Duration = ℤ

abbrev pub nanoseconds : ℕ
nanoseconds = 1_000_000_000

-- `Time.Unix`: whole seconds, rounded down.
unfoldable pub unix : Time → ℤ
unix (pos n) = pos (n / nanoseconds)
unix (negsuc n) = negsuc (n / nanoseconds)

-- `Time.Add` and `Time.Before`.
unfoldable pub add_time : Time → Duration → Time
unfolding ◌+ℤ◌
add_time t d = t +ℤ d

abbrev pub before_time : Time → Time → Bool
before_time = ltb_ℤ

-- `FakeClock`: the time that it stands at. `none` is the panic on a negative step.
pub advance : Time → Duration → Option Time
unfolding add_time
advance now d = if ltb_ℤ d (pos 0) then none else some (add_time now d)

pub record Grace : Type 0 where
  pub deadline : Time

unfoldable pub new_grace : Time → Duration → Grace
unfolding add_time
new_grace now d = record { deadline = add_time now d }

unfoldable pub expired : Time → Grace → Bool
expired now g = not (before_time now g.deadline)

pub remaining : Time → Grace → Duration
remaining now g = let left = g.deadline -ℤ now in if ltb_ℤ (pos 0) left then left else pos 0

pub extend : Time → Duration → Grace → Grace
unfolding add_time
extend now d g = record g { deadline = add_time now d }
