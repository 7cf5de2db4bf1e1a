-- ===== src/Auth/Sessions/Owners.antt =====
-- What the owner of sessions of internal/auth/session.go is shown.
use mathlib.Core.List.Permᴰ
use stammtisch.Prelude.{◌≡◌, ◌↔◌, true, false, some, arith, In, In-perm, All-of_In}
use stammtisch.Prelude.Int.{eq_of_parts}
use stammtisch.Prelude.Bytes.{Bytes, bytes_key, before_irrefl, before_trans, before_connected}
use stammtisch.Prelude.Map.{lookup, gather, In-gather, gather-In}
use stammtisch.Prelude.Sort.{IsSorted, IsStrictOn}
use stammtisch.Prelude.Sort.Laws.{sort-perm, sort-IsSorted}
use stammtisch.Auth.Sessions.{Session, Sessions, session_before, owned, list}
use stammtisch.Auth.Sessions.Tokens.{IsWellKept}

-- Held under some digest.
abbrev pub Held : Sessions → Session → Type 0
Held s a = (k : Bytes) × (lookup k s.held ≡ some a)

session_before_asym : (a b : Session) → session_before a b ≡ true → session_before b a ≡ false
unfolding session_before
session_before_asym a b h =
    ground (arith, before_trans a.id b.id a.id, before_irrefl a.id, eq_of_parts a.opened b.opened)

session_before_trans :
    (a b c : Session)
    → session_before a b ≡ true
    → session_before b c ≡ true
    → session_before a c ≡ true
unfolding session_before
session_before_trans a b c h k =
    ground (arith, before_trans a.id b.id c.id, eq_of_parts a.opened c.opened)

session_before_connected :
    (a b : Session) → session_before a b ≡ false → session_before b a ≡ false → a.id ≡ b.id
unfolding session_before
session_before_connected a b h k =
    ground (arith, before_connected a.id b.id, eq_of_parts a.opened b.opened)

session_before-IsStrictOn : (s : Sessions) → IsWellKept s → IsStrictOn (Held s) session_before
session_before-IsStrictOn s v = record {
  asym = session_before_asym;
  trans = session_before_trans;
  connected = λ a b (k, e) (j, f) h g.
      let same = v.one_id k j a b e f (session_before_connected a b h g) in
      ground (arith, e, f, same);
}

In-owned :
    (s : Sessions) (owner : Bytes) (a : Session)
    → IsWellKept s
    → In a (gather (owned owner) s.held) ↔ (Held s a × (a.owner ≡ owner))
In-owned s owner a v = (
  (λ i.
      let (k, b, e, f) = In-gather (owned owner) a s.held v.once i in
      ((k, ground (arith, e, f)), ground (arith, f))),
  (λ (h, o). gather-In (owned owner) a h.0 a s.held h.1 (ground (arith, o))),
)

-- An owner is shown exactly the sessions that are held and are the owner's, the expired among them, the
-- oldest first.
pub list_iff :
    (s : Sessions) (owner : Bytes) (a : Session)
    → IsWellKept s
    → (In a (list s owner) ↔ (Held s a × (a.owner ≡ owner)))
      × IsSorted session_before (list s owner)
unfolding list
list_iff s owner a v =
    let found = sort-perm session_before (gather (owned owner) s.held) in
    let iff = In-owned s owner a v in
    (
      ((λ i. iff.0 (In-perm a found i)), (λ h. In-perm a (Permᴰ.symm found) (iff.1 h))),
      sort-IsSorted (session_before-IsStrictOn s v) (gather (owned owner) s.held)
          (All-of_In _ _ (λ b i. ((In-owned s owner b v).0 i).0)),
    )
