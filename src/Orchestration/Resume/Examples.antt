-- ===== src/Orchestration/Resume/Examples.antt =====
-- Runs of internal/orchestration/resume.go.
use stammtisch.Prelude.{
  ◌≡◌, ◌↔◌, ◌≤◌, refl, true, false, List, [], ◌∷◌, some, none, ok, In, IsDistinct, arith,
  if◌then◌else◌, ℕ_discrete,
}
use stammtisch.Prelude.Int.{pos, ◌+ℤ◌}
use stammtisch.Prelude.Bytes.{Bytes, bytes, bytes_key, Bytes-discrete}
use stammtisch.Prelude.Map.{lookup, insert, delete, gather}
use stammtisch.Prelude.Sort.{sort}
use stammtisch.Orchestration.Clock.{new_grace, expired, add_time}
use stammtisch.Orchestration.EntityId.{EntityId, EntityId-discrete, is_zero}
use stammtisch.Orchestration.Resume.{
  ResumeTicket, ResumeAnswer, Suspension, Resumptions, new_resumptions, suspend, resume, reap,
  forget, drop_first, answer, sorted_ids, ids,
}
use stammtisch.Orchestration.Resume.Invariant.{
  IsWellFormed, new_resumptions-IsWellFormed, suspend-IsWellFormed,
}
use stammtisch.Orchestration.Resume.Reaping.{leavers, is_over, reap_lem}
use stammtisch.Orchestration.Resume.Told.{publish_all, all_of}
use stammtisch.Orchestration.Resume.Difference.{resume-difference}
use stammtisch.Orchestration.Sample.{alice, lobby, hall}

abbrev session : Bytes
session = bytes "s1"

-- Ten nanoseconds, and two channels.
abbrev empty_register : Resumptions
empty_register = record { window = pos 10; breadth = pos 2; revision = 0; held = []; order = [] }

made : new_resumptions true (pos 10) (pos 2) ≡ ok empty_register
unfolding new_resumptions
made = refl

empty-IsWellFormed : IsWellFormed empty_register
empty-IsWellFormed = new_resumptions-IsWellFormed true (pos 10) (pos 2) empty_register made

abbrev alice_away : Suspension
alice_away = record {
  member = alice;
  grace = record { deadline = pos 15 };
  from = 0;
  missed = some [];
}

abbrev one_away : Resumptions
one_away = record empty_register { held = (session, alice_away) ∷ []; order = session ∷ [] }

alice_suspends : suspend (pos 5) empty_register session alice ≡ ok one_away
unfolding suspend is_zero lookup insert delete new_grace add_time ◌+ℤ◌
alice_suspends = refl

one_away-IsWellFormed : IsWellFormed one_away
one_away-IsWellFormed =
    suspend-IsWellFormed (pos 5) empty_register one_away session alice alice_suspends
      empty-IsWellFormed

abbrev ticket : ResumeTicket
ticket = record { session = session; folded = 0 }

abbrev batches : List (List EntityId)
batches = (lobby ∷ hall ∷ []) ∷ (hall ∷ []) ∷ []

is_inside : expired (pos 14) (new_grace (pos 5) (pos 10)) ≡ false
unfolding expired new_grace add_time ◌+ℤ◌
is_inside = refl

was_published : 0 ≤ (publish_all one_away batches).revision
was_published = omega arith

abbrev both : List EntityId
both = lobby ∷ hall ∷ []

both-IsDistinct : IsDistinct both
both-IsDistinct = ground arith

both_named : (c : EntityId) → In c both ↔ In c (all_of batches)
both_named c = ground arith

-- The batches name two channels three times, and the breadth is two.
resume-difference_example :
    (q : Resumptions) × (a : ResumeAnswer) × (resume
        (pos 14)
        (publish_all one_away batches)
        ticket
        alice
      ≡ ok (q, a))
    × (a.member ≡ alice)
    × (a.full ≡ false)
    × (a.full ≡ false → (c : EntityId) → In c a.missed ↔ In c both)
resume-difference_example =
    resume-difference (pos 5) (pos 14) empty_register one_away ticket alice batches both refl
      alice_suspends is_inside (omega arith) was_published both-IsDistinct both_named

abbrev nothing_missed : ResumeAnswer
nothing_missed = record { member = alice; missed = []; full = false }

alice_resumes : resume (pos 14) one_away ticket alice ≡ ok (empty_register, nothing_missed)
unfolding resume lookup delete expired forget drop_first answer sorted_ids ids gather sort
    EntityId-discrete Bytes-discrete ℕ_discrete
alice_resumes = refl

alice_is_held : lookup session one_away.held ≡ some alice_away
unfolding lookup Bytes-discrete ℕ_discrete
alice_is_held = refl

is_late : expired (pos 15) alice_away.grace ≡ true
unfolding expired
is_late = refl

reap_lem_example :
    (q : Resumptions) × (reap (pos 15) one_away
      ≡ some (q, leavers (pos 15) one_away.held one_away.order))
    × IsWellFormed q
    × ((s : Bytes)
        → lookup s q.held
          ≡ (if is_over (pos 15) (lookup s one_away.held) then none else lookup s one_away.held))
reap_lem_example = reap_lem (pos 15) one_away one_away-IsWellFormed
