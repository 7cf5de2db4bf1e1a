-- ===== src/Orchestration/Clock/Examples.antt =====
-- Runs of internal/orchestration/grace.go.
use stammtisch.Prelude.{◌≡◌, refl, true, some}
use stammtisch.Prelude.Int.{pos, ◌+ℤ◌}
use stammtisch.Orchestration.Clock.{Grace, expired, advance, add_time}

abbrev ten : Grace
ten = record { deadline = pos 10 }

advanced : advance (pos 10) (pos 5) ≡ some (pos 15)
unfolding advance ◌+ℤ◌ add_time
advanced = refl

over : expired (pos 10) ten ≡ true
unfolding expired
over = refl
