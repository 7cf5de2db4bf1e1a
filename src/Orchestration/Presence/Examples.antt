-- ===== src/Orchestration/Presence/Examples.antt =====
-- Runs of internal/orchestration/presence.go.
use mathlib.Core.List.{Permᴰ}
use stammtisch.Prelude.{ℕ, ◌≡◌, refl, false, List, [], ◌∷◌, some, arith, inl, inr}
use stammtisch.Prelude.Int.{pos}
use stammtisch.Prelude.Map.{count_where}
use stammtisch.Orchestration.EntityId.{EntityId, is_zero}
use stammtisch.Orchestration.Presence.{
  PresenceReport, Projection, new_projection, apply, run, count, where_is,
}
use stammtisch.Orchestration.Presence.Counts.{
  IsCounted, in_channel, count-run, run-IsCounted, new_projection-IsCounted,
}
use stammtisch.Orchestration.Presence.Register.{
  Represents, IsReport, hear, silence, apply-Represents, new_projection-Represents, presence_of,
}
use stammtisch.Orchestration.Presence.Convergence.{
  IsSequenced, IsHighest, run-perm, where_is-highest,
}
use stammtisch.Orchestration.Sample.{alice, bob, lobby, hall}

abbrev report : EntityId → ℕ → EntityId → PresenceReport
report member seq channel = record {
  member = member;
  seq = seq;
  channel = channel;
  since = pos 0;
  self_muted = false;
}

abbrev enters : PresenceReport
enters = report alice 1 lobby

abbrev moves : PresenceReport
moves = report alice 2 hall

abbrev bob_enters : PresenceReport
bob_enters = report bob 1 lobby

abbrev in_order : List PresenceReport
in_order = enters ∷ moves ∷ bob_enters ∷ []

abbrev crossed : List PresenceReport
crossed = moves ∷ enters ∷ bob_enters ∷ []

crossing : Permᴰ in_order crossed
crossing = Permᴰ.swap refl refl

in_order-IsSequenced : IsSequenced in_order
in_order-IsSequenced r s i j e f = ground arith

moves-IsReport : IsReport moves
unfolding is_zero
moves-IsReport = ground arith

moves-IsHighest : IsHighest moves in_order
moves-IsHighest = ground arith

abbrev after_all : Projection
after_all = run new_projection in_order

after_all-IsCounted : IsCounted after_all
after_all-IsCounted = run-IsCounted new_projection in_order new_projection-IsCounted

run-perm_example :
    ((m : EntityId)
      → where_is (run new_projection in_order) m ≡ where_is (run new_projection crossed) m)
    × ((c : EntityId)
        → count (run new_projection in_order) c ≡ count (run new_projection crossed) c)
run-perm_example = run-perm in_order crossed crossing in_order-IsSequenced

where_is-highest_example : where_is (run new_projection in_order) alice ≡ presence_of (some moves)
where_is-highest_example =
    where_is-highest moves in_order moves-IsReport moves-IsHighest (inr (inl refl))

count-run_example :
    count (run new_projection in_order) lobby
    ≡ count_where (in_channel lobby) (run new_projection in_order).present
count-run_example = count-run in_order lobby

apply-Represents_example : Represents (apply new_projection enters).0 (hear silence enters)
apply-Represents_example = apply-Represents new_projection silence enters new_projection-Represents
