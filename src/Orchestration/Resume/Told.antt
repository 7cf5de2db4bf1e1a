-- ===== src/Orchestration/Resume/Told.antt =====
-- What `Published` of internal/orchestration/resume.go records of a suspension.
use mathlib.Core.List.{Permᴰ, append-nil, append_assoc}
use mathlib.Core.List.Permᴰ
use stammtisch.Prelude.{
  In-++, refl, subst, false, IsDistinct, length-perm, ◌≤◌, ◌≡◌, ◌↔◌, true, List, [], ◌∷◌, ◌++◌,
  Option, none, some, arith, inl, inr, In, In-perm, is_some, Bool-cases, length,
}
use stammtisch.Prelude.Bytes.{Bytes, bytes_key}
use stammtisch.Prelude.Int.{ℤ, pos, ltb_ℤ}
use stammtisch.Prelude.Map.{IsFunctional, lookup}
use stammtisch.Prelude.Sort.Laws.{sort-perm}
use stammtisch.Orchestration.EntityId.{EntityId, id_key, id_before}
use stammtisch.Orchestration.Resume.{
  ChannelSet, Suspension, Resumptions, add_all, note_missed, note_one, published, ids, sorted_ids,
}
use stammtisch.Orchestration.Resume.Register.{lookup-note_all, lookup-add_all, add_all-IsFunctional}

unfoldable pub publish_all : Resumptions → List (List EntityId) → Resumptions
publish_all r [] = r
publish_all r (batch ∷ batches) = publish_all (published r batch).0 batches

abbrev pub all_of : List (List EntityId) → List EntityId
all_of [] = []
all_of (batch ∷ batches) = batch ++ all_of batches

-- What a suspension can still say, against the channels that it was told of.
abbrev pub Names : Option ChannelSet → List EntityId → Type 0
Names none told = Unit
Names (some missed) told = (c : EntityId) → (is_some (lookup c missed) ≡ true) ↔ In c told

Names-note :
    (breadth : ℤ) (batch told : List EntityId) (missed : Option ChannelSet)
    → Names missed told
    → Names (note_missed breadth batch missed) (told ++ batch)
unfolding note_missed
Names-note breadth batch told none n = tt
Names-note breadth batch told (some missed) n =
    elim (Bool-cases (ltb_ℤ breadth (pos (length (add_all batch missed))))) [
      | inl e ↦ rw e tt
      | inr e ↦ rw e (λ c. ground (arith, lookup-add_all c batch missed, In-++ c told batch, n c))
    ]

split-In :
    (x : EntityId) (ys : List EntityId) → In x ys → (rest : List EntityId) × Permᴰ (x ∷ rest) ys
split-In x [] i = absurd i
split-In x (y ∷ ys) (inl e) = (ys, Permᴰ.cons e (Permᴰ.refl ys))
split-In x (y ∷ ys) (inr i) =
    let (rest, p) = split-In x ys i in
    (y ∷ rest, Permᴰ.trans (Permᴰ.swap refl refl) (Permᴰ.cons refl p))

-- Distinct elements of a list are no more than the list has.
pub length_subset :
    (xs ys : List EntityId)
    → IsDistinct xs
    → ((c : EntityId) → In c xs → In c ys)
    → length xs ≤ length ys
length_subset [] ys d h = omega arith
length_subset (x ∷ xs) ys d h =
    let (rest, p) = split-In x ys (h x (inl refl)) in
    let shorter = length_subset xs rest d.1 (λ c i. elim (In-perm c (Permᴰ.symm p) (h c (inr i))) [
      | inl e ↦ absurd (d.0 (subst (λ y. In y xs) e i))
      | inr k ↦ k
    ]) in
    omega (arith, length-perm p, shorter)

pub In-ids : (c : EntityId) (set : ChannelSet) → In c (ids set) ↔ (is_some (lookup c set) ≡ true)
unfolding ids lookup
In-ids c [] = ground arith
In-ids c ((k, b) ∷ set) = ground (arith, In-ids c set)

ids-IsDistinct : (set : ChannelSet) → IsFunctional set → IsDistinct (ids set)
unfolding ids
ids-IsDistinct [] u = tt
ids-IsDistinct ((k, b) ∷ set) u =
    ((λ i. ground (arith, u.0, (In-ids k set).0 i)), ids-IsDistinct set u.1)

pub length-ids : (set : ChannelSet) → length (ids set) ≡ length set
unfolding ids
length-ids [] = refl
length-ids ((k, b) ∷ set) = ground (arith, length-ids set)

-- The set is given up only once more different channels than the breadth were told, and while it is
-- kept it has each channel once and no more of them than the breadth.
abbrev pub IsBrief : ℤ → Option ChannelSet → List EntityId → Type 0
IsBrief breadth none told =
    (xs : List EntityId) × IsDistinct xs
    × ((c : EntityId) → In c xs → In c told)
    × (ltb_ℤ breadth (pos (length xs)) ≡ true)
IsBrief breadth (some missed) told =
    IsFunctional missed × (ltb_ℤ breadth (pos (length missed)) ≡ false)

IsBrief-note :
    (breadth : ℤ) (batch told : List EntityId) (missed : Option ChannelSet)
    → Names missed told
    → IsBrief breadth missed told
    → IsBrief breadth (note_missed breadth batch missed) (told ++ batch)
unfolding note_missed
IsBrief-note breadth batch told none n (xs, d, h, b) =
    (xs, d, (λ c i. (In-++ c told batch).1 (inl (h c i))), b)
IsBrief-note breadth batch told (some missed) n (u, b) =
    let set = add_all batch missed in
    let v = add_all-IsFunctional batch missed u in
    elim (Bool-cases (ltb_ℤ breadth (pos (length set)))) [
      | inr e ↦ rw e (v, e)
      | inl e ↦ rw e (
        ids set,
        ids-IsDistinct set v,
        (λ c i.
            ground
              (arith, (In-ids c set).0 i, lookup-add_all c batch missed, In-++ c told batch, n c)),
        rw (length-ids set) e,
      )
    ]

-- A suspension and one that it has become by being told of more.
pub record IsToldOf (breadth : ℤ) (s : Suspension) (told : List EntityId) (q : Suspension)
    : Type 0 where
  pub same_member : q.member ≡ s.member
  pub same_grace : q.grace ≡ s.grace
  pub same_from : q.from ≡ s.from
  pub names : Names q.missed told
  pub brief : IsBrief breadth q.missed told

published-told :
    (r : Resumptions) (batch told : List EntityId) (session : Bytes) (s q : Suspension)
    → lookup session r.held ≡ some q
    → IsToldOf r.breadth s told q
    → (p : Suspension) × (lookup session (published r batch).0.held ≡ some p)
      × IsToldOf (published r batch).0.breadth s (told ++ batch) p
unfolding published
published-told r [] told session s q h n = (q, h, rw (append-nil told) n)
published-told r (c ∷ batch) told session s q h n = (
  note_one r.breadth (c ∷ batch) q,
  ground (arith, lookup-note_all r.breadth (c ∷ batch) session r.held),
  record {
    same_member = n.same_member;
    same_grace = n.same_grace;
    same_from = n.same_from;
    names = Names-note r.breadth (c ∷ batch) told q.missed n.names;
    brief = IsBrief-note r.breadth (c ∷ batch) told q.missed n.names n.brief;
  },
)

pub publish_all-told :
    (r : Resumptions) (batches : List (List EntityId)) (told : List EntityId) (session : Bytes)
    (s q : Suspension)
    → lookup session r.held ≡ some q
    → IsToldOf r.breadth s told q
    → (p : Suspension) × (lookup session (publish_all r batches).held ≡ some p)
      × IsToldOf (publish_all r batches).breadth s (told ++ all_of batches) p
unfolding publish_all
publish_all-told r [] told session s q h n = (q, h, rw (append-nil told) n)
publish_all-told r (batch ∷ batches) told session s q h n =
    let (p, e, m) = published-told r batch told session s q h n in
    let (p', e', m') =
      publish_all-told (published r batch).0 batches (told ++ batch) session s p e m in
    (p', e', rw (← append_assoc told batch (all_of batches)) m')

pub In-sorted_ids :
    (c : EntityId) (set : ChannelSet) → In c (sorted_ids set) ↔ (is_some (lookup c set) ≡ true)
unfolding sorted_ids
In-sorted_ids c set =
    let found = sort-perm id_before (ids set) in
    (
      (λ h. (In-ids c set).0 (In-perm c found h)),
      (λ h. In-perm c (Permᴰ.symm found) ((In-ids c set).1 h)),
    )
