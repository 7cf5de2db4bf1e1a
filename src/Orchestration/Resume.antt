-- ===== src/Orchestration/Resume.antt =====
-- internal/orchestration/resume.go: the register of suspended clients. Reading the clock is the
-- argument `now`; a nil set of missed channels is `none`; `reap` returns `none` where Go would follow
-- a nil pointer. A refused call leaves the register that the caller has.
pub mod Register
pub mod Invariant
pub mod Reaping
pub mod Answers
pub mod Told
pub mod Difference
mod Examples
use stammtisch.Prelude.{
  ℕ, ◌+◌, ◌%◌, ◌^◌, ◌≡◌, Bool, true, false, not, List, [], ◌∷◌, ◌++◌, Option, none, some, Result,
  ok, err, ◌>>=◌, ◌>>◌, fail_if, holds, is_some, length, ltb, if◌then◌else◌,
}
use stammtisch.Prelude.Int.{ℤ, pos, ltb_ℤ}
use stammtisch.Prelude.Bytes.{Bytes, is_empty, bytes_key}
use stammtisch.Prelude.Map.{FinMap, ◌≟◌, lookup, insert, delete, gather}
use stammtisch.Prelude.Sort.{sort}
use stammtisch.Orchestration.Clock.{Time, Duration, Grace, new_grace, expired}
use stammtisch.Orchestration.EntityId.{EntityId, id_key, is_zero, id_before}

-- 30 seconds, and 64 channels: what a server passes to the constructor.
abbrev pub resume_window : Duration
resume_window = pos 30_000_000_000

abbrev pub resume_missed_channels : ℤ
resume_missed_channels = pos 64

-- The messages that wrap `ErrInvariant`, and the four refusals of a ticket.
pub data ResumeError : Type 0 where
  no_clock window_not_positive breadth_not_positive no_session no_member already_suspended :
      ResumeError
  no_suspension resume_window_passed resume_not_yours resume_ahead : ResumeError

pub record ResumeTicket : Type 0 where
  pub session : Bytes
  pub folded : ℕ

pub record ResumeAnswer : Type 0 where
  pub member : EntityId
  pub missed : List EntityId
  pub full : Bool

-- A set of channels: a map whose values are all `true`.
abbrev pub ChannelSet : Type 0
ChannelSet = FinMap EntityId Bool

pub record Suspension : Type 0 where
  pub member : EntityId
  pub grace : Grace
  pub from : ℕ
  pub missed : Option ChannelSet

pub record Resumptions : Type 0 where
  pub window : Duration
  pub breadth : ℤ
  pub revision : ℕ
  pub held : FinMap Bytes Suspension
  pub order : List Bytes

-- The first argument says whether a clock was given.
pub new_resumptions : Bool → Duration → ℤ → Result ResumeError Resumptions
new_resumptions clock window breadth = do
  fail_if (not clock) no_clock
  fail_if (not (ltb_ℤ (pos 0) window)) window_not_positive
  fail_if (not (ltb_ℤ (pos 0) breadth)) breadth_not_positive
  ok (record { window = window; breadth = breadth; revision = 0; held = []; order = [] })

-- `s.missed[channel] = true` for every channel of a batch.
pub add_all : List EntityId → ChannelSet → ChannelSet
add_all [] missed = missed
add_all (channel ∷ channels) missed = add_all channels (insert channel true missed)

-- The set, given up where it has grown past the breadth.
pub within : ℤ → ChannelSet → Option ChannelSet
within breadth missed = if ltb_ℤ breadth (pos (length missed)) then none else some missed

pub note_missed : ℤ → List EntityId → Option ChannelSet → Option ChannelSet
unfolding add_all within
note_missed breadth channels none = none
note_missed breadth channels (some missed) = within breadth (add_all channels missed)

abbrev pub note_one : ℤ → List EntityId → Suspension → Suspension
note_one breadth channels s = record s { missed = note_missed breadth channels s.missed }

pub note_all : ℤ → List EntityId → FinMap Bytes Suspension → FinMap Bytes Suspension
note_all breadth channels [] = []
note_all breadth channels ((session, s) ∷ held) =
    (session, note_one breadth channels s) ∷ note_all breadth channels held

-- The revision is a uint64.
pub published : Resumptions → List EntityId → Resumptions × ℕ
published r [] = (r, r.revision)
published r (channel ∷ channels) =
    let next : ℕ = (r.revision + 1) % 2 ^ 64 in
    (record r { revision = next; held = note_all r.breadth (channel ∷ channels) r.held }, next)

pub suspend : Time → Resumptions → Bytes → EntityId → Result ResumeError Resumptions
suspend now r session member = do
  fail_if (is_empty session) no_session
  fail_if (is_zero member) no_member
  fail_if (is_some (lookup session r.held)) already_suspended
  let s : Suspension = record {
    member = member;
    grace = new_grace now r.window;
    from = r.revision;
    missed = some [];
  }
  ok (record r { held = insert session s r.held; order = r.order ++ session ∷ [] })

pub is_held : Resumptions → Bytes → Bool
is_held r session = is_some (lookup session r.held)

-- The loop of `forget`: the first occurrence goes.
pub drop_first : Bytes → List Bytes → List Bytes
drop_first session [] = []
drop_first session (x ∷ order) =
    let rest = drop_first session order in if holds (x ≟ session) then order else x ∷ rest

pub forget : Resumptions → Bytes → Resumptions
unfolding drop_first
forget r session = record r { held = delete session r.held; order = drop_first session r.order }

-- The loop over the set collects its keys.
pub ids : ChannelSet → List EntityId
unfolding gather
ids = gather (λ id present. some id)

pub sorted_ids : ChannelSet → List EntityId
unfolding ids
sorted_ids set = sort id_before (ids set)

-- The switch on what the register can still say.
answer : Suspension → ℕ → Option ChannelSet → ResumeAnswer
unfolding sorted_ids
answer s folded none = record { member = s.member; missed = []; full = true }
answer s folded (some missed) =
    if ltb folded s.from
    then record { member = s.member; missed = []; full = true }
    else record { member = s.member; missed = sorted_ids missed; full = false }

resume_held :
    Time
    → Resumptions
    → ResumeTicket
    → EntityId
    → Option Suspension
    → Result ResumeError (Resumptions × ResumeAnswer)
unfolding answer forget
resume_held now r t member none = err no_suspension
resume_held now r t member (some s) = do
  fail_if (expired now s.grace) resume_window_passed
  fail_if (not (holds (s.member ≟ member))) resume_not_yours
  fail_if (ltb r.revision t.folded) resume_ahead
  ok (forget r t.session, answer s t.folded s.missed)

pub resume :
    Time → Resumptions → ResumeTicket → EntityId → Result ResumeError (Resumptions × ResumeAnswer)
unfolding resume_held
resume now r t member = resume_held now r t member (lookup t.session r.held)

-- One turn of the loop of `Reap`, and the loop over a copy of the order.
reap_one :
    Time
    → Bytes
    → Resumptions × List EntityId
    → Option Suspension
    → Option (Resumptions × List EntityId)
unfolding forget
reap_one now session (r, gone) none = none
reap_one now session (r, gone) (some s) =
    if expired now s.grace then some (forget r session, gone ++ s.member ∷ []) else some (r, gone)

abbrev and_then {ℓ κ} : {A : Type ℓ} {B : Type κ} → Option A → (A → Option B) → Option B
and_then none f = none
and_then (some a) f = f a

reap_each : Time → List Bytes → Resumptions × List EntityId → Option (Resumptions × List EntityId)
unfolding reap_one
reap_each now [] acc = some acc
reap_each now (session ∷ sessions) acc =
    and_then (reap_one now session acc (lookup session acc.0.held)) (reap_each now sessions)

pub reap : Time → Resumptions → Option (Resumptions × List EntityId)
unfolding reap_each
reap now r = reap_each now r.order (r, [])
