-- ===== src/Orchestration/Domain/Examples.antt =====
-- Runs of internal/orchestration/domain.go.
use stammtisch.Prelude.{
  ◌≡◌, refl, true, false, List, [], ◌∷◌, none, some, ok, is_ok, All, ℕ_discrete,
}
use stammtisch.Prelude.Bytes.{bytes, Bytes-discrete, before}
use stammtisch.Prelude.Map.{lookup, insert, delete, gather}
use stammtisch.Prelude.Sort.{sort, place}
use stammtisch.Orchestration.EntityId.{EntityId-discrete, IsValid, id_key, is_zero, id_before}
use stammtisch.Orchestration.Domain.{
  Space, Call, adds, opens, enters, switches, new_space, step, run, enter, leave, switch, open_room,
  occupants, new_channel, add_channel,
}
use stammtisch.Orchestration.Domain.Invariant.{IsWellFormed, run-new_space-IsWellFormed}
use stammtisch.Orchestration.Domain.Moves.{where_is, leave_then_enter, switch_atomic}
use stammtisch.Orchestration.Sample.{alice, bob, lobby, hall, home, alice-IsValid, bob-IsValid}

abbrev empty_home : Space
empty_home = record { id = home; channels = []; rooms = []; occupancies = [] }

made : new_space home ≡ ok empty_home
unfolding new_space is_zero
made = refl

abbrev opening : List Call
opening =
    adds lobby home (bytes "lobby") true
    ∷ adds hall home (bytes "hall") false
    ∷ opens lobby
    ∷ enters bob lobby
    ∷ enters alice lobby
    ∷ []

abbrev open_home : Space
open_home = run empty_home opening

run-new_space-IsWellFormed_example : IsWellFormed (run empty_home opening)
run-new_space-IsWellFormed_example = run-new_space-IsWellFormed home empty_home opening made

home-IsWellFormed : IsWellFormed open_home
home-IsWellFormed = run-new_space-IsWellFormed home empty_home opening made

switch_atomic_example :
    (switch open_home alice hall ≡ enter (leave open_home alice) alice hall)
    × (is_ok (switch open_home alice hall) ≡ true
        → (step open_home (switches alice hall) ≡ leave_then_enter open_home alice hall)
          × (where_is (step open_home (switches alice hall)) alice ≡ some hall))
    × (is_ok (switch open_home alice hall) ≡ false
        → (step open_home (switches alice hall) ≡ open_home)
          × (where_is (leave_then_enter open_home alice hall) alice ≡ none))
switch_atomic_example = switch_atomic open_home alice hall

alice_is : where_is open_home alice ≡ some lobby
unfolding run step new_channel add_channel open_room enter lookup insert delete is_zero
    EntityId-discrete Bytes-discrete ℕ_discrete
alice_is = refl

alice_stays : where_is (step open_home (enters alice hall)) alice ≡ some lobby
unfolding run step new_channel add_channel open_room enter lookup insert delete is_zero
    EntityId-discrete Bytes-discrete ℕ_discrete
alice_stays = refl

listed : occupants open_home lobby ≡ alice ∷ bob ∷ []
unfolding occupants run step new_channel add_channel open_room enter lookup insert delete is_zero
    gather sort place id_before before EntityId-discrete Bytes-discrete ℕ_discrete
listed = refl

both-AreValid : All IsValid (occupants open_home lobby)
both-AreValid = rw listed (alice-IsValid, (bob-IsValid, tt))
