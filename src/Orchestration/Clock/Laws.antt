-- ===== src/Orchestration/Clock/Laws.antt =====
-- The end of a grace period, of internal/orchestration/grace.go.
use stammtisch.Prelude.{◌≡◌, ◌↔◌, true, some, arith}
use stammtisch.Prelude.Int.{pos, ◌-ℤ◌, ◌≤ℤ◌, +ℤ_parts, -ℤ_parts}
use stammtisch.Orchestration.Clock.{Time, Duration, Grace, new_grace, expired, remaining, advance}

-- A period is over exactly when its whole length has passed since it was started.
pub expired-new_grace :
    (start now : Time) (d : Duration)
    → (expired now (new_grace start d) ≡ true) ↔ (d ≤ℤ (now -ℤ start))
unfolding expired new_grace
expired-new_grace start now d = ground (arith, +ℤ_parts start d, -ℤ_parts now start)

-- A period is over exactly when nothing of it remains.
pub expired-remaining :
    (now : Time) (g : Grace) → (expired now g ≡ true) ↔ (remaining now g ≡ pos 0)
unfolding expired remaining
expired-remaining now g = ground (arith, -ℤ_parts g.deadline now)

-- Once over, a period stays over as the clock advances.
pub expired-advance :
    (now later : Time) (d : Duration) (g : Grace)
    → advance now d ≡ some later
    → expired now g ≡ true
    → expired later g ≡ true
unfolding expired advance
expired-advance now later d g a h = ground (arith, +ℤ_parts now d)
