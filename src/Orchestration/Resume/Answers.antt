-- ===== src/Orchestration/Resume/Answers.antt =====
-- `Resume` of internal/orchestration/resume.go: which tickets are accepted.
use stammtisch.Prelude.{is_ok, ◌≤◌, ◌≡◌, ◌↔◌, true, false, List, [], ◌∷◌, some, arith, In, ok, err}
use stammtisch.Prelude.Bytes.{Bytes, bytes_key}
use stammtisch.Prelude.Map.{FinMap, lookup, lookup-delete}
use stammtisch.Orchestration.Clock.{Time, expired}
use stammtisch.Orchestration.EntityId.{EntityId, id_key}
use stammtisch.Orchestration.Resume.{
  no_suspension, resume_window_passed, ResumeTicket, ResumeAnswer, Suspension, Resumptions, resume,
}
use stammtisch.Orchestration.Resume.Invariant.{IsWellFormed}
use stammtisch.Orchestration.Resume.Reaping.{leavers}

-- A ticket for a held session is accepted exactly inside the window, from the member that the place
-- is held for, and with a revision that was published.
pub resume_iff :
    (now : Time) (r : Resumptions) (t : ResumeTicket) (member : EntityId) (s : Suspension)
    → lookup t.session r.held ≡ some s
    → (is_ok (resume now r t member) ≡ true)
      ↔ ((expired now s.grace ≡ false) × (s.member ≡ member) × (t.folded ≤ r.revision))
unfolding resume
resume_iff now r t member s h = ground arith

-- In the register that an accepted ticket leaves behind, any ticket for the same session, from
-- anybody, is answered that there is no suspension.
pub resume_once :
    (now later : Time) (r q : Resumptions) (t u : ResumeTicket) (m n : EntityId) (a : ResumeAnswer)
    → resume now r t m ≡ ok (q, a)
    → u.session ≡ t.session
    → resume later q u n ≡ err no_suspension
unfolding resume
resume_once now later r q t u m n a h e = ground (arith, lookup-delete u.session t.session r.held)

In-leavers :
    (now : Time) (held : FinMap Bytes Suspension) (sessions : List Bytes) (x : Bytes)
    (s : Suspension)
    → lookup x held ≡ some s
    → expired now s.grace ≡ true
    → In x sessions
    → In s.member (leavers now held sessions)
unfolding leavers
In-leavers now held [] x s h o i = absurd i
In-leavers now held (y ∷ sessions) x s h o i = ground (arith, In-leavers now held sessions x s h o)

-- In a well-formed register, a ticket that comes after the window is refused, whoever brings it,
-- and the leave is still owed: the member is among those whom a reaping at that time reports.
pub resume_late :
    (now : Time) (r : Resumptions) (t : ResumeTicket) (member : EntityId) (s : Suspension)
    → IsWellFormed r
    → lookup t.session r.held ≡ some s
    → expired now s.grace ≡ true
    → (resume now r t member ≡ err resume_window_passed) × In s.member (leavers now r.held r.order)
unfolding resume
resume_late now r t member s v h o = (
  ground arith,
  In-leavers now r.held r.order t.session s h o (ground (arith, v.listed t.session)),
)
