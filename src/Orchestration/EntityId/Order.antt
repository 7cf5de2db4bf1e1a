-- ===== src/Orchestration/EntityId/Order.antt =====
-- The order by which the listings of internal/orchestration are sorted, on identifiers.
use stammtisch.Prelude.{◌≢◌, ◌∙◌, sym, ap, ◌⊎◌, inl, inr, [], ◌≡◌, ap, true, false, arith}
use stammtisch.Prelude.Sort.{IsStrictOn}
use stammtisch.Prelude.Bytes.{before_irrefl, before_trans, before_connected}
use stammtisch.Orchestration.EntityId.{
  EntityId, IsValid, to_string, parse_id, id_before, is_zero, cut,
}
use stammtisch.Orchestration.EntityId.RoundTrip.{parse_id-to_string}

-- Two valid identifiers with one print are one.
pub to_string-injective :
    (a b : EntityId) → IsValid a → IsValid b → to_string a ≡ to_string b → a ≡ b
to_string-injective a b v w e = cc (parse_id-to_string a v, parse_id-to_string b w, ap parse_id e)

pub before_asym : (a b : EntityId) → id_before a b ≡ true → id_before b a ≡ false
unfolding id_before
before_asym a b h =
    ground
      (arith, before_irrefl (to_string a), before_trans (to_string a) (to_string b) (to_string a))

-- `String() < String()` is a strict order on identifiers, and total on valid ones.
pub id_before-IsStrictOn : IsStrictOn IsValid id_before
unfolding id_before
id_before-IsStrictOn = record {
  asym = before_asym;
  trans = λ a b c. before_trans (to_string a) (to_string b) (to_string c);
  connected = λ a b v w h k. to_string-injective a b v w (before_connected _ _ h k);
}

-- An identifier that a constructor returned, or the zero value.
abbrev pub IsIdent : EntityId → Type 0
IsIdent id = IsValid id ⊎ (is_zero id ≡ true)

to_string_zero : (id : EntityId) → is_zero id ≡ true → to_string id ≡ []
unfolding to_string
to_string_zero id z = ground arith

to_string-IsValid : (id : EntityId) → IsValid id → to_string id ≢ []
unfolding parse_id cut
to_string-IsValid id v e = ground (arith, parse_id-to_string id v, ap parse_id e)

is_zero-eq : (a b : EntityId) → is_zero a ≡ true → is_zero b ≡ true → a ≡ b
unfolding is_zero
is_zero-eq a b h k = ground arith

-- Two identifiers with one print are one, the zero value included.
pub to_string-injective_ident :
    (a b : EntityId) → IsIdent a → IsIdent b → to_string a ≡ to_string b → a ≡ b
to_string-injective_ident a b (inl v) (inl w) e = to_string-injective a b v w e
to_string-injective_ident a b (inl v) (inr z) e =
    absurd (to_string-IsValid a v (e ∙ to_string_zero b z))
to_string-injective_ident a b (inr z) (inl w) e =
    absurd (to_string-IsValid b w (sym e ∙ to_string_zero a z))
to_string-injective_ident a b (inr y) (inr z) e = is_zero-eq a b y z

pub is_zero-IsValid : (id : EntityId) → IsValid id → is_zero id ≡ false
unfolding is_zero
is_zero-IsValid id v = ground (arith, v.local_part.0)
