-- ===== src/Orchestration/Resume/Reaping.antt =====
-- `Reap` of internal/orchestration/resume.go, against a description that walks nothing.
use stammtisch.Prelude.{
  ◌≡◌, refl, sym, ap, subst, ◌∙◌, Bool, true, false, List, [], ◌∷◌, ◌++◌, Option, none, some, arith,
  inl, inr, In, IsDistinct, is_some, if◌then◌else◌, ite, Option-cases, Bool-cases,
}
use mathlib.Core.List.{append-nil, append_assoc}
use stammtisch.Prelude.Bytes.{Bytes, bytes_key}
use stammtisch.Prelude.Map.{FinMap, ◌≟◌, lookup, lookup-delete}
use stammtisch.Orchestration.Clock.{Time, expired}
use stammtisch.Orchestration.EntityId.{EntityId}
use stammtisch.Orchestration.Resume.{Suspension, Resumptions, forget, reap_each, reap}
use stammtisch.Orchestration.Resume.Invariant.{IsWellFormed, forget-IsWellFormed}

-- A suspension whose window has run out.
abbrev pub is_over : Time → Option Suspension → Bool
is_over now none = false
is_over now (some s) = expired now s.grace

-- The members of the suspensions that are over, in the order of the sessions.
unfoldable pub leavers : Time → FinMap Bytes Suspension → List Bytes → List EntityId
leavers now held [] = []
leavers now held (session ∷ sessions) =
    let rest = leavers now held sessions in
    elim (lookup session held) [
      | none ↦ rest
      | some s ↦ if expired now s.grace then s.member ∷ rest else rest
    ]

forget_over : Time → FinMap Bytes Suspension → List Bytes → Resumptions → Resumptions
forget_over now held [] r = r
forget_over now held (session ∷ sessions) r =
    forget_over now held sessions
      (if is_over now (lookup session held) then forget r session else r)

-- The sessions that are still to be walked are held as they were when the walk began.
abbrev Agrees : FinMap Bytes Suspension → List Bytes → Resumptions → Type 0
Agrees held sessions r =
    (x : Bytes)
    → In x sessions
    → (lookup x r.held ≡ lookup x held) × (is_some (lookup x held) ≡ true)

lookup-forget :
    (r : Resumptions) (session x : Bytes)
    → lookup x (forget r session).held ≡ ite (session ≟ x) none (lookup x r.held)
unfolding forget
lookup-forget r session x = lookup-delete x session r.held

Agrees-next :
    (now : Time) (held : FinMap Bytes Suspension) (session : Bytes) (sessions : List Bytes)
    (r : Resumptions)
    → ¬ In session sessions
    → Agrees held (session ∷ sessions) r
    → Agrees held sessions (if is_over now (lookup session held) then forget r session else r)
Agrees-next now held session sessions r n a x i = ground (
  arith,
  a x (inr i),
  lookup-forget r session x,
  λ (e : session ≡ x). n (subst (λ y. In y sessions) (sym e) i),
)

leavers-cons :
    (now : Time) (held : FinMap Bytes Suspension) (session : Bytes) (sessions : List Bytes)
    (s : Suspension)
    → lookup session held ≡ some s
    → leavers now held (session ∷ sessions) ≡ (
        if expired now s.grace
        then s.member ∷ leavers now held sessions
        else leavers now held sessions)
unfolding leavers
leavers-cons now held session sessions s q = ground arith

reap_each-eq :
    (now : Time) (held : FinMap Bytes Suspension) (sessions : List Bytes) (r : Resumptions)
    (gone : List EntityId)
    → IsDistinct sessions
    → Agrees held sessions r
    → reap_each now sessions (r, gone)
      ≡ some (forget_over now held sessions r, gone ++ leavers now held sessions)
unfolding reap_each forget_over
reap_each-eq now held [] r gone d a = unfold leavers in rw append-nil
reap_each-eq now held (session ∷ sessions) r gone d a = elim (Option-cases (lookup session held)) [
  | inl q ↦ ground (arith, a session (inl refl))
  | inr (s, q) ↦
      let next = Agrees-next now held session sessions r d.0 a in
      let here = (a session (inl refl)).0 ∙ q in
      let listed = leavers-cons now held session sessions s q in
      elim (Bool-cases (expired now s.grace)) [
        | inl over ↦
            let rest =
              reap_each-eq now held sessions (forget r session) (gone ++ s.member ∷ []) d.1
                (rw (q, over) at next) in
            rw (listed, here, q, over)
              (rest
                ∙ ap (λ l. some (forget_over now held sessions (forget r session), l))
                    (append_assoc gone (s.member ∷ []) (leavers now held sessions)))
        | inr left ↦
            let rest = reap_each-eq now held sessions r gone d.1 (rw (q, left) at next) in
            rw (listed, here, q, left) rest
      ]
]

forget_over-IsWellFormed :
    (now : Time) (held : FinMap Bytes Suspension) (sessions : List Bytes) (r : Resumptions)
    → IsWellFormed r
    → IsWellFormed (forget_over now held sessions r)
unfolding forget_over
forget_over-IsWellFormed now held [] r v = v
forget_over-IsWellFormed now held (session ∷ sessions) r v =
    forget_over-IsWellFormed now held sessions _
      (ground (arith, v, forget-IsWellFormed r session v))

lookup-forget_over :
    (now : Time) (held : FinMap Bytes Suspension) (sessions : List Bytes) (r : Resumptions)
    (x : Bytes)
    → (In x sessions
        → is_over now (lookup x held) ≡ true
        → lookup x (forget_over now held sessions r).held ≡ none)
      × (is_over now (lookup x held) ≡ false
          → lookup x (forget_over now held sessions r).held ≡ lookup x r.held)
      × (lookup x r.held ≡ none → lookup x (forget_over now held sessions r).held ≡ none)
unfolding forget_over
lookup-forget_over now held [] r x = ground arith
lookup-forget_over now held (session ∷ sessions) r x = ground (
  arith,
  lookup-forget_over now held sessions
      (if is_over now (lookup session held) then forget r session else r) x,
  lookup-forget r session x,
)

-- Reaping a well-formed register never meets a session that is not held. It reports one leave for
-- each suspension whose window has run out, in the order in which they suspended, and what it
-- leaves is well formed and holds every other suspension as it was, and none that has run out.
pub reap_lem :
    (now : Time) (r : Resumptions)
    → IsWellFormed r
    → (q : Resumptions) × (reap now r ≡ some (q, leavers now r.held r.order))
      × IsWellFormed q
      × ((session : Bytes)
          → lookup session q.held
            ≡ (if is_over now (lookup session r.held) then none else lookup session r.held))
unfolding reap
reap_lem now r v = (
  forget_over now r.held r.order r,
  reap_each-eq now r.held r.order r [] v.distinct (λ x i. (refl, (v.listed x).0 i)),
  forget_over-IsWellFormed now r.held r.order r v,
  λ session. ground (arith, v.listed session, lookup-forget_over now r.held r.order r session),
)
