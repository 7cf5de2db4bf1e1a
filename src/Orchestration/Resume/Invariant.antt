-- ===== src/Orchestration/Resume/Invariant.antt =====
-- What holds of the register of internal/orchestration/resume.go between two calls.
use stammtisch.Prelude.{
  In-append, IsDistinct-append, ℕ, ◌≡◌, ◌↔◌, refl, subst, Bool, true, false, List, [], ◌∷◌, ◌++◌,
  Option, none, some, arith, inl, inr, In, IsDistinct, is_some, ok, Option-cases, length,
}
use stammtisch.Prelude.Bytes.{Bytes, bytes_key}
use stammtisch.Prelude.Int.{ℤ, pos, ltb_ℤ}
use stammtisch.Prelude.Map.{
  lookup, insert, IsFunctional, lookup-insert, lookup-delete, insert-IsFunctional,
  delete-IsFunctional,
}
use stammtisch.Orchestration.Clock.{Time, Duration, new_grace}
use stammtisch.Orchestration.EntityId.{EntityId, id_key, is_zero}
use stammtisch.Orchestration.Resume.{
  ResumeTicket, ResumeAnswer, ChannelSet, Suspension, Resumptions, new_resumptions, note_missed,
  note_all, published, suspend, forget, resume,
}
use stammtisch.Orchestration.Resume.Register.{
  In-drop_first, IsDistinct-drop_first, lookup-note_all, note_all-IsFunctional,
  add_all-IsFunctional,
}

-- What a suspension can still say is a set that has not passed the breadth.
abbrev pub IsWithin : ℤ → Option ChannelSet → Type 0
IsWithin breadth none = Unit
IsWithin breadth (some missed) = IsFunctional missed × (ltb_ℤ breadth (pos (length missed)) ≡ false)

-- The order lists the held sessions, each once, and each holds a place for somebody and names no more
-- channels than it may.
pub record IsWellFormed (r : Resumptions) : Type 0 where
  pub positive : ltb_ℤ (pos 0) r.breadth ≡ true
  pub functional : IsFunctional r.held
  pub distinct : IsDistinct r.order
  pub listed : (session : Bytes) → In session r.order ↔ (is_some (lookup session r.held) ≡ true)
  pub suspended :
      (session : Bytes) (s : Suspension)
      → lookup session r.held ≡ some s
      → (is_zero s.member ≡ false) × IsWithin r.breadth s.missed

note_missed-IsWithin :
    (breadth : ℤ) (channels : List EntityId) (missed : Option ChannelSet)
    → IsWithin breadth missed
    → IsWithin breadth (note_missed breadth channels missed)
unfolding note_missed
note_missed-IsWithin breadth channels none w = tt
note_missed-IsWithin breadth channels (some missed) w =
    ground (arith, add_all-IsFunctional channels missed w.0)

note-IsWellFormed :
    (r : Resumptions) (channels : List EntityId) (revision : ℕ)
    → IsWellFormed r
    → IsWellFormed (record r { revision = revision; held = note_all r.breadth channels r.held })
note-IsWellFormed r channels revision v = record {
  positive = v.positive;
  functional = note_all-IsFunctional r.breadth channels r.held v.functional;
  distinct = v.distinct;
  listed = λ session.
      ground (arith, v.listed session, lookup-note_all r.breadth channels session r.held);
  suspended = λ session s h. elim (Option-cases (lookup session r.held)) [
    | inl e ↦ ground (arith, lookup-note_all r.breadth channels session r.held)
    | inr (q, e) ↦ ground (
      arith,
      lookup-note_all r.breadth channels session r.held,
      v.suspended session q e,
      note_missed-IsWithin r.breadth channels q.missed (v.suspended session q e).1,
    )
  ];
}

-- A batch keeps the register well formed.
pub published-IsWellFormed :
    (r : Resumptions) (channels : List EntityId)
    → IsWellFormed r
    → IsWellFormed (published r channels).0
unfolding published
published-IsWellFormed r [] v = v
published-IsWellFormed r (c ∷ channels) v = note-IsWellFormed r (c ∷ channels) _ v

pub forget-IsWellFormed :
    (r : Resumptions) (session : Bytes) → IsWellFormed r → IsWellFormed (forget r session)
unfolding forget
forget-IsWellFormed r session v = record {
  positive = v.positive;
  functional = delete-IsFunctional session r.held v.functional;
  distinct = IsDistinct-drop_first session r.order v.distinct;
  listed = λ x. ground (
    arith,
    v.listed x,
    In-drop_first session x r.order v.distinct,
    lookup-delete x session r.held,
  );
  suspended = λ x s h. ground (arith, v.suspended x s, lookup-delete x session r.held);
}

hold-IsWellFormed :
    (r : Resumptions) (session : Bytes) (s : Suspension)
    → lookup session r.held ≡ none
    → is_zero s.member ≡ false
    → s.missed ≡ some []
    → IsWellFormed r
    → IsWellFormed (record r { held = insert session s r.held; order = r.order ++ session ∷ [] })
hold-IsWellFormed r session s e z m v = record {
  positive = v.positive;
  functional = insert-IsFunctional session s r.held v.functional;
  distinct = IsDistinct-append session r.order v.distinct (ground (arith, v.listed session));
  listed = λ x.
      ground (arith, v.listed x, In-append x session r.order, lookup-insert x session s r.held);
  suspended =
      λ x q h. ground (arith, v.suspended x q, v.positive, lookup-insert x session s r.held);
}

-- A suspension that is accepted keeps the register well formed.
pub suspend-IsWellFormed :
    (now : Time) (r t : Resumptions) (session : Bytes) (member : EntityId)
    → suspend now r session member ≡ ok t
    → IsWellFormed r
    → IsWellFormed t
unfolding suspend
suspend-IsWellFormed now r t session member h v =
    let s : Suspension = record {
      member = member;
      grace = new_grace now r.window;
      from = r.revision;
      missed = some [];
    } in
    let e : is_zero member ≡ false = ground arith in
    let f : lookup session r.held ≡ none = ground arith in
    subst IsWellFormed (ground arith) (hold-IsWellFormed r session s f e refl v)

-- So does a ticket that is accepted.
pub resume-IsWellFormed :
    (now : Time) (r t : Resumptions) (ticket : ResumeTicket) (member : EntityId) (a : ResumeAnswer)
    → resume now r ticket member ≡ ok (t, a)
    → IsWellFormed r
    → IsWellFormed t
unfolding resume
resume-IsWellFormed now r t ticket member a h v =
    subst IsWellFormed (ground arith) (forget-IsWellFormed r ticket.session v)

pub new_resumptions-IsWellFormed :
    (clock : Bool) (window : Duration) (breadth : ℤ) (r : Resumptions)
    → new_resumptions clock window breadth ≡ ok r
    → IsWellFormed r
unfolding new_resumptions lookup
new_resumptions-IsWellFormed clock window breadth r h = record {
  positive = ground arith;
  functional = ground arith;
  distinct = ground arith;
  listed = λ session. ground arith;
  suspended = λ session s k. ground arith;
}
