-- ===== src/Logging/Lines.antt =====
-- The line that internal/logging/logging.go writes, and what can be read off it.
use mathlib.Core.List.{append-nil, append_assoc}
use stammtisch.Prelude.{
  ◌≡◌, ◌≢◌, inl, inr, refl, sym, ℕ, ◌==◌, false, List, [], ◌∷◌, ◌++◌, none, some, arith, All,
  All-append, Option-cases, Bool-cases,
}
use stammtisch.Prelude.Bytes.{Bytes, is_empty, split, split_last}
use stammtisch.Prelude.Map.{FinMap, lookup}
use stammtisch.Logging.{LogKey, log_key, key_name, declared_keys, entry_of, write_keys}

-- Bytes that neither separate two fields nor end a line.
abbrev pub IsToken : Bytes → Type 0
IsToken = All (λ b. (b ≢ 32) × (b ≢ 10))

-- The entries of a map under some keys, in the order of the keys.
abbrev pub entries_of : FinMap LogKey Bytes → List LogKey → List Bytes
entries_of given [] = []
entries_of given (k ∷ keys) = elim (lookup k given) [
  | none ↦ entries_of given keys
  | some v ↦ entry_of k v ∷ entries_of given keys
]

split_cons : (d : ℕ) (s : Bytes) → (f : Bytes) × (fs : List Bytes) × (split d s ≡ f ∷ fs)
unfolding split
split_cons d [] = ([], [], refl)
split_cons d (c ∷ s) =
    let (f, fs, e) = split_cons d s in
    elim (Bool-cases (c == d)) [
      | inl h ↦ ([], split d s, ground (arith, h))
      | inr h ↦ (c ∷ f, fs, ground (arith, h, e))
    ]

split_between : (d : ℕ) (s t : Bytes) → split d (s ++ d ∷ t) ≡ split d s ++ split d t
unfolding split
split_between d [] t = ground arith
split_between d (c ∷ s) t =
    let (f, fs, e) = split_cons d s in ground (arith, e, split_between d s t)

token_only : (s : Bytes) → IsToken s → All (λ b. b ≢ 32) s
token_only [] h = tt
token_only (b ∷ s) h = (h.0.0, token_only s h.1)

name-IsToken : (k : LogKey) → IsToken (key_name k)
unfolding key_name
name-IsToken k = ground arith

abbrev pub AreTokens : FinMap LogKey Bytes → Type 0
AreTokens given = (k : LogKey) (v : Bytes) → lookup k given ≡ some v → IsToken v

AreTokens-lookup :
    (given : FinMap LogKey Bytes) (k : LogKey) (v : Bytes)
    → AreTokens given
    → lookup k given ≡ some v
    → IsToken v
AreTokens-lookup given k v h e = h k v e

entry-IsToken : (k : LogKey) (v : Bytes) → IsToken v → IsToken (entry_of k v)
entry-IsToken k v h =
    All-append (λ b. (b ≢ 32) × (b ≢ 10)) (key_name k) (b'=' ∷ v) (name-IsToken k)
      ((ground arith, ground arith), h)

append_not_empty : (s t : Bytes) (c : ℕ) → is_empty (s ++ c ∷ t) ≡ false
append_not_empty [] t c = refl
append_not_empty (b ∷ s) t c = refl

-- Writing the keys onto a buffer appends their entries to its fields.
write_keys-split :
    (given : FinMap LogKey Bytes) (keys : List LogKey) (b : Bytes)
    → AreTokens given
    → is_empty b ≡ false
    → split 32 (write_keys given keys b) ≡ split 32 b ++ entries_of given keys
unfolding write_keys
write_keys-split given [] b v n = sym (append-nil (split 32 b))
write_keys-split given (k ∷ keys) b v n = elim (Option-cases (lookup k given)) [
  | inl e ↦ ground (arith, e, write_keys-split given keys b v n)
  | inr (w, e) ↦
      let entry = entry_of k w in
      let whole = split_last 32 entry (token_only entry (entry-IsToken k w (v k w e))) in
      let b' = b ++ 32 ∷ entry in
      ground (
        arith,
        e,
        n,
        whole,
        split_between 32 b entry,
        write_keys-split given keys b' v (append_not_empty b entry 32),
        append_assoc (split 32 b) (entry ∷ []) (entries_of given keys),
      )
]

entry_not_empty : (k : LogKey) (v : Bytes) → is_empty (entry_of k v) ≡ false
entry_not_empty k v = append_not_empty (key_name k) v b'='

-- The whole line, where the first key of all, the time, has a value.
pub line-split :
    (given : FinMap LogKey Bytes) (at : Bytes)
    → AreTokens given
    → lookup 1 given ≡ some at
    → split 32 (write_keys given declared_keys []) ≡ entries_of given declared_keys
unfolding write_keys
line-split given at v e =
    let entry = entry_of 1 at in
    let rest : List LogKey = 2 ∷ 3 ∷ 4 ∷ 5 ∷ 6 ∷ 7 ∷ 8 ∷ 9 ∷ [] in
    let whole =
      split_last 32 entry
        (token_only entry (entry-IsToken 1 at (AreTokens-lookup given 1 at v e))) in
    ground (arith, e, whole, write_keys-split given rest entry v (entry_not_empty 1 at))

-- No line feed stands in what is written.
abbrev pub IsOneLine : Bytes → Type 0
IsOneLine = All (λ b. b ≢ 10)

IsToken-IsOneLine : (s : Bytes) → IsToken s → IsOneLine s
IsToken-IsOneLine [] h = tt
IsToken-IsOneLine (b ∷ s) h = (h.0.1, IsToken-IsOneLine s h.1)

pub write_keys-IsOneLine :
    (given : FinMap LogKey Bytes) (keys : List LogKey) (b : Bytes)
    → AreTokens given
    → IsOneLine b
    → IsOneLine (write_keys given keys b)
unfolding write_keys
write_keys-IsOneLine given [] b v h = h
write_keys-IsOneLine given (k ∷ keys) b v h = elim (Option-cases (lookup k given)) [
  | inl e ↦ rw e (write_keys-IsOneLine given keys b v h)
  | inr (w, e) ↦
      let entry =
        IsToken-IsOneLine (entry_of k w) (entry-IsToken k w (AreTokens-lookup given k w v e)) in
      elim (Bool-cases (is_empty b)) [
        | inl n ↦ rw (e, n) (write_keys-IsOneLine given keys (entry_of k w) v entry)
        | inr n ↦
            rw (e, n)
              (write_keys-IsOneLine given keys (b ++ 32 ∷ entry_of k w) v
                (All-append (λ c. c ≢ 10) b (32 ∷ entry_of k w) h (ground arith, entry)))
      ]
]
