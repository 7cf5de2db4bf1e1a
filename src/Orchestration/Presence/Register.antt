-- ===== src/Orchestration/Presence/Register.antt =====
-- The abstract view of a projection: for each member the report with the highest sequence number.
use stammtisch.Prelude.{
  ℕ, ◌≡◌, refl, ◌≢◌, Bool, true, false, List, [], ◌∷◌, Option, none, some, arith, holds,
  if◌then◌else◌, inl, inr, not, ◌&&◌, ◌==◌, ltb, ◌⊎◌, In,
}
use stammtisch.Prelude.Map.{◌≟◌, lookup, lookup-insert, lookup-delete}
use stammtisch.Orchestration.EntityId.{EntityId, id_key, is_zero}
use stammtisch.Orchestration.Presence.{
  Presence, PresenceReport, Projection, new_projection, published, apply, run,
}

-- What has been heard of each member: the last report that counted.
abbrev pub Register : Type 0
Register = EntityId → Option PresenceReport

abbrev pub seq_of : Option PresenceReport → Option ℕ
seq_of none = none
seq_of (some r) = some r.seq

abbrev pub presence_of : Option PresenceReport → Option Presence
presence_of none = none
presence_of (some r) = if is_zero r.channel then none else some (published r)

abbrev pub IsReport : PresenceReport → Type 0
IsReport r = (is_zero r.member ≡ false) × (r.seq ≢ 0)

-- A report counts if it names a member, has a sequence number, and that is past the one held.
abbrev pub past : Option ℕ → ℕ → Bool
past none n = true
past (some held) n = ltb held n

abbrev pub newer : Option ℕ → PresenceReport → Bool
newer held r = not (is_zero r.member) && not (r.seq == 0) && past held r.seq

-- A report that is newer replaces what was heard of its member.
unfoldable pub hear : Register → PresenceReport → Register
hear reg r m = if holds (r.member ≟ m) && newer (seq_of (reg m)) r then some r else reg m

unfoldable pub hear_all : Register → List PresenceReport → Register
hear_all reg [] = reg
hear_all reg (r ∷ rs) = hear_all (hear reg r) rs

abbrev pub silence : Register
silence m = none

-- A projection stands for a register: it holds its sequence numbers and what its reports say.
pub record Represents (p : Projection) (reg : Register) : Type 0 where
  pub seqs : (m : EntityId) → lookup m p.seq ≡ seq_of (reg m)
  pub places : (m : EntityId) → lookup m p.present ≡ presence_of (reg m)

pub apply-seq :
    (p : Projection) (r : PresenceReport) (m : EntityId)
    → lookup m (apply p r).0.seq ≡ (
        if holds (r.member ≟ m) && newer (lookup r.member p.seq) r
        then some r.seq
        else lookup m p.seq)
unfolding apply
apply-seq p r m = ground (arith, lookup-insert m r.member r.seq p.seq)

apply-present :
    (p : Projection) (r : PresenceReport) (m : EntityId)
    → lookup m (apply p r).0.present ≡ (
        if holds (r.member ≟ m) && newer (lookup r.member p.seq) r
        then presence_of (some r)
        else lookup m p.present)
unfolding apply
apply-present p r m =
    ground
      (arith, lookup-insert m r.member (published r) p.present, lookup-delete m r.member p.present)

-- The projection refines a register that holds the newest report of each member: where it stands
-- for a register, applying a report gives one that stands for the register that has heard the
-- report.
pub apply-Represents :
    (p : Projection) (reg : Register) (r : PresenceReport)
    → Represents p reg
    → Represents (apply p r).0 (hear reg r)
unfolding hear
apply-Represents p reg r v = record {
  seqs = λ m. ground (arith, apply-seq p r m, v.seqs m, v.seqs r.member);
  places = λ m. ground (arith, apply-present p r m, v.places m, v.seqs m, v.seqs r.member);
}

pub run-Represents :
    (p : Projection) (reg : Register) (rs : List PresenceReport)
    → Represents p reg
    → Represents (run p rs) (hear_all reg rs)
unfolding run hear_all
run-Represents p reg [] v = v
run-Represents p reg (r ∷ rs) v =
    run-Represents (apply p r).0 (hear reg r) rs (apply-Represents p reg r v)

pub new_projection-Represents : Represents new_projection silence
unfolding new_projection lookup
new_projection-Represents = record { seqs = λ m. refl; places = λ m. refl }

hear-source :
    (reg : Register) (r s : PresenceReport) (m : EntityId)
    → hear reg s m ≡ some r
    → ((s ≡ r) × (r.member ≡ m)) ⊎ (reg m ≡ some r)
unfolding hear
hear-source reg r s m h = ground arith

-- What has been heard of a member was reported of that member.
pub hear_all-source :
    (reg : Register) (r : PresenceReport) (rs : List PresenceReport) (m : EntityId)
    → hear_all reg rs m ≡ some r
    → (In r rs × (r.member ≡ m)) ⊎ (reg m ≡ some r)
unfolding hear_all
hear_all-source reg r [] m h = inr h
hear_all-source reg r (s ∷ rs) m h = elim (hear_all-source (hear reg s) r rs m h) [
  | inl (i, e) ↦ inl (inr i, e)
  | inr e ↦ ground (arith, hear-source reg r s m e)
]
