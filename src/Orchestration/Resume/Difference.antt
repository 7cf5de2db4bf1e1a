-- ===== src/Orchestration/Resume/Difference.antt =====
-- The answer of `Resume` of internal/orchestration/resume.go, against the batches that were published.
use stammtisch.Prelude.{
  ℕ, ◌≤◌, ◌≡◌, ◌↔◌, ltb, refl, ap, ◌∙◌, true, false, List, [], ◌∷◌, Option, none, some, arith, inl,
  inr, ◌⊎◌, In, IsDistinct, Bool-cases, ok, length,
}
use stammtisch.Prelude.Bytes.{Bytes, bytes_key}
use stammtisch.Prelude.Int.{ℤ, pos, ltb_ℤ}
use stammtisch.Prelude.Map.{lookup, lookup-insert}
use stammtisch.Orchestration.Clock.{Time, expired, new_grace}
use stammtisch.Orchestration.EntityId.{EntityId, id_key}
use stammtisch.Orchestration.Resume.{
  ResumeTicket, ResumeAnswer, ChannelSet, Suspension, Resumptions, published, suspend, forget,
  answer, resume, ids,
}
use stammtisch.Orchestration.Resume.Told.{
  publish_all, all_of, Names, IsBrief, IsToldOf, publish_all-told, In-sorted_ids, In-ids,
  length-ids, length_subset,
}

-- An answer is everything, or a difference that names what was told from a revision held on.
answer_exact :
    (s : Suspension) (folded : ℕ) (missed : Option ChannelSet) (told : List EntityId)
    → Names missed told
    → ((answer s folded missed).full ≡ true)
      ⊎ ((s.from ≤ folded) × ((c : EntityId) → In c (answer s folded missed).missed ↔ In c told))
unfolding answer
answer_exact s folded none told n = inl refl
answer_exact s folded (some missed) told n = elim (Bool-cases (ltb folded s.from)) [
  | inl e ↦ rw e (inl refl)
  | inr e ↦ rw e (inr (ground arith, (λ c. ground (arith, n c, In-sorted_ids c missed))))
]

resume-answer :
    (now : Time) (r q : Resumptions) (t : ResumeTicket) (member : EntityId) (a : ResumeAnswer)
    (s : Suspension)
    → lookup t.session r.held ≡ some s
    → resume now r t member ≡ ok (q, a)
    → (a ≡ answer s t.folded s.missed) × (s.member ≡ member)
unfolding resume
resume-answer now r q t member a s e h = ground arith

answer-member :
    (s : Suspension) (folded : ℕ) (missed : Option ChannelSet)
    → (answer s folded missed).member ≡ s.member
unfolding answer
answer-member s folded none = refl
answer-member s folded (some missed) = ground arith

suspend-held :
    (now : Time) (r t : Resumptions) (session : Bytes) (member : EntityId)
    → ltb_ℤ (pos 0) r.breadth ≡ true
    → suspend now r session member ≡ ok t
    → (s : Suspension) × (lookup session t.held ≡ some s)
      × (s.member ≡ member)
      × (s.grace ≡ new_grace now r.window)
      × (s.from ≡ r.revision)
      × IsToldOf t.breadth s [] s
unfolding suspend
suspend-held now r t session member some_room h =
    let s : Suspension = record {
      member = member;
      grace = new_grace now r.window;
      from = r.revision;
      missed = some [];
    } in
    (
      s,
      ground (arith, lookup-insert session session s r.held),
      refl,
      refl,
      refl,
      record {
        same_member = refl;
        same_grace = refl;
        same_from = refl;
        names = λ c. unfold lookup in ground arith;
        brief = (tt, ground (arith, some_room, h));
      },
    )

breadth-publish_all :
    (r : Resumptions) (batches : List (List EntityId)) → (publish_all r batches).breadth ≡ r.breadth
unfolding publish_all published
breadth-publish_all r [] = refl
breadth-publish_all r ([] ∷ batches) = breadth-publish_all r batches
breadth-publish_all r ((c ∷ batch) ∷ batches) =
    breadth-publish_all (published r (c ∷ batch)).0 batches

breadth-suspend :
    (now : Time) (r t : Resumptions) (session : Bytes) (member : EntityId)
    → suspend now r session member ≡ ok t
    → t.breadth ≡ r.breadth
unfolding suspend
breadth-suspend now r t session member h = ground arith

answer_full :
    (breadth : ℤ) (s : Suspension) (folded : ℕ) (missed : Option ChannelSet)
    (told names : List EntityId)
    → s.from ≤ folded
    → IsDistinct names
    → ((c : EntityId) → In c names ↔ In c told)
    → Names missed told
    → IsBrief breadth missed told
    → (answer s folded missed).full ≡ ltb_ℤ breadth (pos (length names))
unfolding answer
answer_full breadth s folded none told names h d same n (xs, e, i, b) =
    ground (arith, b, length_subset xs names e (λ c k. (same c).1 (i c k)))
answer_full breadth s folded (some missed) told names h d same n (u, b) =
    let fits =
      length_subset names (ids missed) d (λ c k. (In-ids c missed).1 ((n c).1 ((same c).0 k))) in
    ground (arith, b, fits, length-ids missed)

resume_accepts :
    (now : Time) (r : Resumptions) (t : ResumeTicket) (s : Suspension)
    → lookup t.session r.held ≡ some s
    → expired now s.grace ≡ false
    → t.folded ≤ r.revision
    → resume now r t s.member ≡ ok (forget r t.session, answer s t.folded s.missed)
unfolding resume
resume_accepts now r t s h k e = ground arith

-- A client that drops, and comes back inside the window with a revision that was published and is
-- not before its suspension, is accepted as its own member, where the breadth is positive, as the
-- constructor demands. The answer says that everything follows exactly if the batches published
-- meanwhile name more different channels than the breadth, however often each is named; otherwise it
-- is a difference, which names exactly those channels.
pub resume-difference :
    (now later : Time) (r t : Resumptions) (ticket : ResumeTicket) (member : EntityId)
    (batches : List (List EntityId)) (names : List EntityId)
    → ltb_ℤ (pos 0) r.breadth ≡ true
    → suspend now r ticket.session member ≡ ok t
    → expired later (new_grace now r.window) ≡ false
    → r.revision ≤ ticket.folded
    → ticket.folded ≤ (publish_all t batches).revision
    → IsDistinct names
    → ((c : EntityId) → In c names ↔ In c (all_of batches))
    → (q : Resumptions) × (a : ResumeAnswer) × (resume later (publish_all t batches) ticket member
        ≡ ok (q, a))
      × (a.member ≡ member)
      × (a.full ≡ ltb_ℤ r.breadth (pos (length names)))
      × (a.full ≡ false → (c : EntityId) → In c a.missed ↔ In c names)
resume-difference now later r t ticket member batches names room h w old new distinct same =
    let (s, e, is, grace, from, n) = suspend-held now r t ticket.session member room h in
    let (p, f, m) = publish_all-told t batches [] ticket.session s s e n in
    let kept = breadth-publish_all t batches ∙ breadth-suspend now r t ticket.session member h in
    let held = m.same_from ∙ from in
    let mine = m.same_member ∙ is in
    let inside = ap (expired later) (m.same_grace ∙ grace) ∙ w in
    let told = answer_exact p ticket.folded p.missed (all_of batches) m.names in
    let full =
      answer_full (publish_all t batches).breadth p ticket.folded p.missed (all_of batches) names
        (rw held old) distinct same m.names m.brief in
    (
      forget (publish_all t batches) ticket.session,
      answer p ticket.folded p.missed,
      rw (← mine) (resume_accepts later (publish_all t batches) ticket p f inside new),
      answer-member p ticket.folded p.missed ∙ mine,
      full ∙ ap (λ b. ltb_ℤ b (pos (length names))) kept,
      λ part c. elim told [
        | inl g ↦ ground (arith, g, part)
        | inr (_, i) ↦ ground (arith, i c, same c)
      ],
    )
