-- ===== src/Config/Parse/Lines.antt =====
-- What the lines of a configuration that internal/config/config.go accepts say.
use stammtisch.Prelude.{
  ◌≡◌, ◌↔◌, ◌⊎◌, inl, inr, ℕ, suc, true, List, [], ◌∷◌, Option, none, some, ok, arith, is_some,
  Option-cases, Result-cases, Bool-cases, if◌then◌else◌,
}
use stammtisch.Prelude.Bytes.{Bytes, bytes_key}
use stammtisch.Prelude.Spaces.{trim_space}
use stammtisch.Prelude.Map.{FinMap, lookup, insert, lookup-insert}
use stammtisch.Config.{declared_setting}
use stammtisch.Config.Parse.{
  Entries, read_pair, read_entry, is_skipped, read_line, read_lines, cut_equals, trim_return,
}

abbrev trimmed : Option (Bytes × Bytes) → Option (Bytes × Bytes)
trimmed none = none
trimmed (some (key, raw)) = some (trim_space key, trim_space raw)

-- The key and the value of a line; none for a comment or an empty line.
pub entry_in : Bytes → Option (Bytes × Bytes)
unfolding is_skipped cut_equals trim_return
entry_in text =
    let line = trim_space (trim_return text) in
    if is_skipped line then none else trimmed (cut_equals line)

abbrev pub Written : Bytes → Bytes → List Bytes → Type 0
Written key raw [] = ⊥
Written key raw (line ∷ lines) = (entry_in line ≡ some (key, raw)) ⊎ Written key raw lines

read_pair-ok :
    (number : ℕ) (seen : FinMap Bytes ℕ) (values : FinMap Bytes Bytes) (key raw : Bytes)
    (next : Entries)
    → read_pair number (seen, values) key raw ≡ ok next
    → (lookup key seen ≡ none)
      × (is_some (declared_setting key) ≡ true)
      × (next ≡ (insert key number seen, insert key raw values))
unfolding read_pair
read_pair-ok number seen values key raw next h = ground (arith, h)

read_line-ok :
    (number : ℕ) (seen : FinMap Bytes ℕ) (values : FinMap Bytes Bytes) (text : Bytes)
    (next : Entries)
    → read_line number (seen, values) text ≡ ok next
    → ((entry_in text ≡ none) × (next ≡ (seen, values)))
      ⊎ ((key : Bytes) × (raw : Bytes) × (entry_in text ≡ some (key, raw))
          × (lookup key seen ≡ none)
          × (next ≡ (insert key number seen, insert key raw values)))
unfolding read_line entry_in read_entry
read_line-ok number seen values text next h =
    let line = trim_space (trim_return text) in
    elim (Bool-cases (is_skipped line)) [
      | inl e ↦ inl (ground (arith, h, e))
      | inr e ↦ elim (Option-cases (cut_equals line)) [
        | inl n ↦ ground (arith, h, e, n)
        | inr ((key, raw), n) ↦
            let k = trim_space key in
            let r = trim_space raw in
            let (fresh, declared, same) =
              read_pair-ok number seen values k r next (ground (arith, h, e, n)) in
            inr (k, r, ground (arith, e, n), fresh, same)
      ]
    ]

-- The two maps have the same keys.
abbrev pub AreSeen : Entries → Type 0
AreSeen (seen, values) = (k : Bytes) → is_some (lookup k seen) ≡ is_some (lookup k values)

pub read_lines-ok :
    (number : ℕ) (entries last : Entries) (lines : List Bytes) (key raw : Bytes)
    → AreSeen entries
    → read_lines number entries lines ≡ ok last
    → (lookup key last.1 ≡ some raw) ↔ ((lookup key entries.1 ≡ some raw) ⊎ Written key raw lines)
unfolding read_lines
read_lines-ok number entries last [] key raw v h = ground (arith, h)
read_lines-ok number entries last (line ∷ lines) key raw v h =
    elim (Result-cases (read_line number entries line)) [
      | inr (x, e) ↦ ground (arith, h, e)
      | inl (next, e) ↦
          let rest : read_lines (suc number) next lines ≡ ok last = ground (arith, h, e) in
          elim (read_line-ok number entries.0 entries.1 line next e) [
            | inl (n, same) ↦ ground (
              arith,
              n,
              same,
              read_lines-ok (suc number) next last lines key raw (λ k. ground (arith, same, v k))
                  rest,
            )
            | inr (k, r, n, fresh, same) ↦
                let v' : AreSeen next = λ j. ground (
                  arith,
                  same,
                  v j,
                  lookup-insert j k number entries.0,
                  lookup-insert j k r entries.1,
                ) in
                ground (
                  arith,
                  n,
                  same,
                  fresh,
                  v k,
                  lookup-insert key k r entries.1,
                  read_lines-ok (suc number) next last lines key raw v' rest,
                )
          ]
    ]
