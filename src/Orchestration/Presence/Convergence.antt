-- ===== src/Orchestration/Presence/Convergence.antt =====
-- The reports of internal/orchestration/presence.go, in different orders.
use mathlib.Core.List.{Permᴰ}
use mathlib.Core.List.Permᴰ
use stammtisch.Prelude.{
  ◌≤◌, ◌<◌, ◌≡◌, refl, sym, ap, ◌∙◌, false, List, [], ◌∷◌, Option, none, some, arith, inl, inr, ◌⊎◌,
  In, In-perm, All, fun_ext, subst,
}
use stammtisch.Prelude.Map.{lookup, perm-of_lookup, count_where-perm}
use stammtisch.Orchestration.EntityId.{EntityId, id_key}
use stammtisch.Orchestration.Presence.{
  PresenceReport, Projection, new_projection, apply, run, where_is, count,
}
use stammtisch.Orchestration.Presence.Counts.{
  in_channel, run-IsCounted, new_projection-IsCounted, count-run,
}
use stammtisch.Orchestration.Presence.Register.{
  Register, IsReport, presence_of, hear, hear_all, silence, run-Represents,
  new_projection-Represents, past, apply-seq,
}

-- One member's sequence numbers are each used for one report.
abbrev pub IsSequenced : List PresenceReport → Type 0
IsSequenced rs =
    (r s : PresenceReport) → In r rs → In s rs → r.member ≡ s.member → r.seq ≡ s.seq → r ≡ s

hear_comm :
    (reg : Register) (r s : PresenceReport) (m : EntityId)
    → (r.member ≡ s.member → r.seq ≡ s.seq → r ≡ s)
    → hear (hear reg r) s m ≡ hear (hear reg s) r m
unfolding hear
hear_comm reg r s m h = ground arith

-- Order does not matter to what has been heard.
hear_all-perm :
    (reg : Register) {rs ss : List PresenceReport}
    → Permᴰ rs ss
    → IsSequenced rs
    → hear_all reg rs ≡ hear_all reg ss
unfolding hear_all
hear_all-perm reg Permᴰ.nil q = refl
hear_all-perm reg (Permᴰ.cons {a} {b} {l₂ = l} e p) q =
    hear_all-perm (hear reg a) p (λ r s i j. q r s (inr i) (inr j))
    ∙ ap (λ x. hear_all (hear reg x) l) e
hear_all-perm reg (Permᴰ.swap {a} {b} {a'} {b'} {l} e f) q =
    ap (λ g. hear_all g l) (fun_ext (λ m. hear_comm reg a b m (q a b (inl refl) (inr (inl refl)))))
    ∙ ap (λ x. hear_all (hear (hear reg x) a) l) f
    ∙ ap (λ x. hear_all (hear (hear reg a') x) l) e
hear_all-perm reg (Permᴰ.trans p p') q =
    hear_all-perm reg p q
    ∙ hear_all-perm reg p'
        (λ r s i j. q r s (In-perm r (Permᴰ.symm p) i) (In-perm s (Permᴰ.symm p) j))

pub where_is-hear_all :
    (rs : List PresenceReport) (m : EntityId)
    → where_is (run new_projection rs) m ≡ presence_of (hear_all silence rs m)
unfolding where_is
where_is-hear_all rs m =
    (run-Represents new_projection silence rs new_projection-Represents).places m

pub where_is-perm :
    (rs ss : List PresenceReport) (m : EntityId)
    → Permᴰ rs ss
    → IsSequenced rs
    → where_is (run new_projection rs) m ≡ where_is (run new_projection ss) m
where_is-perm rs ss m p q =
    where_is-hear_all rs m
    ∙ ap (λ reg. presence_of (reg m)) (hear_all-perm silence p q)
    ∙ sym (where_is-hear_all ss m)

pub present-perm :
    (rs ss : List PresenceReport)
    → Permᴰ rs ss
    → IsSequenced rs
    → Permᴰ (run new_projection rs).present (run new_projection ss).present
unfolding where_is
present-perm rs ss p q =
    perm-of_lookup _ _ (run-IsCounted new_projection rs new_projection-IsCounted).one_presence
      (run-IsCounted new_projection ss new_projection-IsCounted).one_presence
      (λ m. where_is-perm rs ss m p q)

-- Two servers that hear the same reports in different orders, where no member uses a sequence
-- number for two different reports, agree on where everybody is and on every count.
pub run-perm :
    (rs ss : List PresenceReport)
    → Permᴰ rs ss
    → IsSequenced rs
    → ((m : EntityId) → where_is (run new_projection rs) m ≡ where_is (run new_projection ss) m)
      × ((c : EntityId) → count (run new_projection rs) c ≡ count (run new_projection ss) c)
run-perm rs ss p q = (
  (λ m. where_is-perm rs ss m p q),
  (λ c.
      count-run rs c
      ∙ count_where-perm (in_channel c) (present-perm rs ss p q)
      ∙ sym (count-run ss c)),
)

abbrev pub IsHighest : PresenceReport → List PresenceReport → Type 0
IsHighest r rs = All (λ s. s.member ≡ r.member → (s.seq < r.seq) ⊎ (s ≡ r)) rs

-- Nothing is held that is at or past a report.
abbrev IsBehind : PresenceReport → Option PresenceReport → Type 0
IsBehind r none = Unit
IsBehind r (some s) = s.seq < r.seq

hear-keeps :
    (reg : Register) (r s : PresenceReport)
    → (s.member ≡ r.member → (s.seq < r.seq) ⊎ (s ≡ r))
    → reg r.member ≡ some r
    → hear reg s r.member ≡ some r
unfolding hear
hear-keeps reg r s h e = ground arith

hear-IsBehind :
    (reg : Register) (r s : PresenceReport)
    → (s.member ≡ r.member → (s.seq < r.seq) ⊎ (s ≡ r))
    → IsBehind r (reg r.member)
    → IsBehind r (hear reg s r.member) ⊎ (hear reg s r.member ≡ some r)
unfolding hear
hear-IsBehind reg r s h b = ground arith

hear_self :
    (reg : Register) (r : PresenceReport)
    → IsReport r
    → IsBehind r (reg r.member)
    → hear reg r r.member ≡ some r
unfolding hear
hear_self reg r v b = ground arith

hear_all-keeps :
    (reg : Register) (r : PresenceReport) (rs : List PresenceReport)
    → IsHighest r rs
    → reg r.member ≡ some r
    → hear_all reg rs r.member ≡ some r
unfolding hear_all
hear_all-keeps reg r [] h e = e
hear_all-keeps reg r (s ∷ rs) h e = hear_all-keeps (hear reg s) r rs h.1 (hear-keeps reg r s h.0 e)

hear_all-finds :
    (reg : Register) (r : PresenceReport) (rs : List PresenceReport)
    → IsReport r
    → IsHighest r rs
    → IsBehind r (reg r.member)
    → In r rs
    → hear_all reg rs r.member ≡ some r
unfolding hear_all
hear_all-finds reg r [] v h b i = absurd i
hear_all-finds reg r (s ∷ rs) v h b (inl e) =
    hear_all-keeps (hear reg s) r rs h.1
      (subst (λ x. hear reg x r.member ≡ some r) e (hear_self reg r v b))
hear_all-finds reg r (s ∷ rs) v h b (inr i) = elim (hear-IsBehind reg r s h.0 b) [
  | inl b' ↦ hear_all-finds (hear reg s) r rs v h.1 b' i
  | inr e ↦ hear_all-keeps (hear reg s) r rs h.1 e
]

-- Where a report that names a member and has a sequence number is among the reports, and every
-- other report of that member has a lower one, the member is where that report says, in whatever
-- order the reports came: in its channel, or nowhere.
pub where_is-highest :
    (r : PresenceReport) (rs : List PresenceReport)
    → IsReport r
    → IsHighest r rs
    → In r rs
    → where_is (run new_projection rs) r.member ≡ presence_of (some r)
where_is-highest r rs v h i =
    where_is-hear_all rs r.member ∙ ap presence_of (hear_all-finds silence r rs v h tt i)

apply-held :
    (p : Projection) (s : PresenceReport)
    → past (lookup s.member p.seq) s.seq ≡ false
    → apply p s ≡ (p, none)
unfolding apply
apply-held p s h = ground arith

apply-past :
    (p : Projection) (r s : PresenceReport)
    → IsReport r
    → s.member ≡ r.member
    → s.seq ≤ r.seq
    → past (lookup s.member (apply p r).0.seq) s.seq ≡ false
apply-past p r s v e h = ground (arith, apply-seq p r s.member)

-- Once a report has been heard, accepted or not, the same report and any older one of the member
-- change nothing and are answered with no change.
pub apply_replay :
    (p : Projection) (r s : PresenceReport)
    → IsReport r
    → s.member ≡ r.member
    → s.seq ≤ r.seq
    → apply (apply p r).0 s ≡ ((apply p r).0, none)
apply_replay p r s v e h = apply-held (apply p r).0 s (apply-past p r s v e h)
