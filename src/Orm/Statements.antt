-- ===== src/Orm/Statements.antt =====
-- The statements match the values that are bound to them.
use project_collection.Base.{
  ℕ, suc, ◌≡◌, refl, ap, true, false, List, [], ◌∷◌, length, if◌then◌else◌, Bool-cases, inl, inr,
}
use project_collection.Base.Text.{Text, codes, text_eq}
use project_collection.Orm.{Column, Row}
use project_collection.Orm.Sql.{
  output_args, update_columns, update_args, named_columns, written_values, placeholder,
  default_word,
}

-- How many of the texts are a question mark.
abbrev pub placeholders : List Text → ℕ
placeholders [] = 0
placeholders (t ∷ ts) =
    let rest = placeholders ts in if text_eq t placeholder then suc rest else rest

question : text_eq placeholder placeholder ≡ true
unfolding codes text_eq
question = refl

no_question : text_eq default_word placeholder ≡ false
unfolding codes text_eq
no_question = refl

-- An insertion writes one value for each column that it names, with a question mark for each value
-- that `outputArgs` binds; an update sets one column for each value that `updateArgs` binds.
pub statements_match :
    (columns : List Column) (row : Row)
    → (length (written_values columns row) ≡ length (named_columns columns row))
      × (placeholders (written_values columns row) ≡ length (output_args columns row))
      × (length (update_columns columns row) ≡ length (update_args columns row))
unfolding written_values named_columns output_args update_columns update_args
statements_match [] row = (refl, refl, refl)
statements_match (c ∷ cs) [] = (refl, refl, refl)
statements_match (c ∷ cs) (f ∷ row) =
    let (a, b, d) = statements_match cs row in
    elim (Bool-cases c.is_auto) [
      | inl auto ↦ (rw auto (ap suc a), rw (auto, no_question) b, rw auto d)
      | inr given ↦ elim (Bool-cases f.dirty) [
        | inl marked ↦ (
          elim (Bool-cases c.has_default) [
            | inl d ↦ rw (given, marked, d) (ap suc a)
            | inr n ↦ rw (given, marked, n) (ap suc a)
          ],
          rw (given, marked, question) (ap suc b),
          rw (given, marked) (ap suc d),
        )
        | inr clean ↦ elim (Bool-cases c.has_default) [
          | inl default ↦ (
            rw (given, clean, default) (ap suc a),
            rw (given, clean, default, no_question) b,
            rw (given, clean) d,
          )
          | inr bare ↦ (rw (given, clean, bare) a, rw (given, clean, bare) b, rw (given, clean) d)
        ]
      ]
    ]
