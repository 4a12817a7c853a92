-- ===== src/Orm/Update.antt =====
-- An update by JSON of a row that was read from the database.
use project_collection.Base.{
  ℕ, ◌+◌, ◌≡◌, refl, Bool, true, false, not, ◌&&◌, ltb, List, [], ◌∷◌, Option, none, some, length,
  drop, if◌then◌else◌, Bool-cases, inl, inr,
}
use project_collection.Base.Text.{Text}
use project_collection.Common.{ok, Json, Fields, member, is_member}
use project_collection.Orm.{
  Column, Field, Row, new_row, is_null, keep, mark, read_member, update_by_json,
}
use project_collection.Orm.Values.{Kind, Reads, bind, has_type}
use project_collection.Orm.Validation.{
  is_too_long, key_message, valid_json_of_field, validate_json_for_update,
}
use project_collection.Orm.Sql.{update_columns}
use project_collection.Orm.Result.{Result, of_cell, of_names, of_cells, of_result}
use project_collection.Orm.Laws.{IsReads}
use project_collection.Orm.Validated.{stored, or_else-none}

-- A member for each column, and none is marked.
abbrev pub IsClean : List Column → Row → Type 0
IsClean [] [] = Unit
IsClean (c ∷ cs) (f ∷ row) = (f.dirty ≡ false) × IsClean cs row
IsClean _ _ = ⊥

-- The columns that an object changes.
abbrev pub changed : List Column → Fields → List Text
changed [] fs = []
changed (c ∷ cs) fs =
    let rest = changed cs fs in
    if not c.is_auto && (not c.is_primary && is_member c.name fs) then c.name ∷ rest else rest

-- A column whose member is missing or null keeps its value.
abbrev pub Keeps : List Column → Fields → Row → Row → Type 0
Keeps (c ∷ cs) fs (old ∷ row) (f ∷ rest) =
    (is_null (member c.name fs) ≡ true → f.value ≡ old.value) × Keeps cs fs row rest
Keeps _ fs row rest = Unit

new_row-IsClean : (cs : List Column) → IsClean cs (new_row cs)
new_row-IsClean [] = tt
new_row-IsClean (c ∷ cs) = (refl, new_row-IsClean cs)

of_cell_clean :
    (r : Reads) (result : Result) (kind : Kind) (cell : Option Text)
    → (of_cell r result kind cell).dirty ≡ false
of_cell_clean r result kind none = refl
of_cell_clean r result kind (some s) = refl

of_names-IsClean :
    (r : Reads) (result : Result) (cs : List Column) → IsClean cs (of_names r result cs)
unfolding of_names
of_names-IsClean r result [] = tt
of_names-IsClean r result (c ∷ cs) =
    (of_cell_clean r result c.kind (result.named c.name), of_names-IsClean r result cs)

of_cells-IsClean :
    (r : Reads) (result : Result) (cs : List Column) (cells : List (Option Text))
    → IsClean cs (of_cells r result cs cells)
unfolding of_cells
of_cells-IsClean r result [] [] = tt
of_cells-IsClean r result [] (cell ∷ cells) = tt
of_cells-IsClean r result (c ∷ cs) [] = new_row-IsClean (c ∷ cs)
of_cells-IsClean r result (c ∷ cs) (cell ∷ cells) =
    (of_cell_clean r result c.kind cell, of_cells-IsClean r result cs cells)

-- A row that was read from the database has no mark.
of_result-IsClean :
    (r : Reads) (cs : List Column) (result : Result) (offset : Option ℕ)
    → IsClean cs (of_result r cs result offset)
unfolding of_result
of_result-IsClean r cs result none = of_names-IsClean r result cs
of_result-IsClean r cs result (some n) =
    elim (Bool-cases (ltb (length result.cells) (n + length cs))) [
      | inl few ↦ rw few (new_row-IsClean cs)
      | inr enough ↦ rw enough (of_cells-IsClean r result cs (drop n result.cells))
    ]

and_false : (b : Bool) → (b && false) ≡ false
and_false true = refl
and_false false = refl

module _ (r : Reads) (laws : IsReads r) where
  -- A member that is valid for an update is read and marks its column; null keeps the value.
  taken :
      (c : Column) (name : Text) (j : Json) (old : Field)
      → valid_json_of_field r c name j false ≡ none
      → (f : Field) × (read_member r c.kind j old ≡ ok f)
        × (f.dirty ≡ true)
        × (is_null j ≡ true → f.value ≡ old.value)
  unfolding valid_json_of_field read_member
  taken c name j old valid = elim (Bool-cases (is_null j)) [
    | inl null_here ↦ (record old { dirty = true }, rw null_here refl, refl, λ h. refl)
    | inr filled ↦ elim (Bool-cases (has_type r c.kind j)) [
      | inr other ↦ (let refused = rw (filled, and_false c.is_auto, other) at valid in cc)
      | inl typed ↦ elim (Bool-cases (is_too_long c j)) [
        | inl long ↦ (let refused = rw (filled, and_false c.is_auto, typed, long) at valid in cc)
        | inr short ↦
            let (o, got, bounds, late) = stored r laws c c.kind j refl typed short in
            (
              record { value = keep o old.value; dirty = true },
              rw (filled, got) refl,
              refl,
              λ h. cc,
            )
      ]
    ]
  ]

  -- One column of an update.
  column_taken :
      (c : Column) (fs : Fields) (old : Field)
      → (old.dirty ≡ false)
      → (if is_member c.name fs
          then valid_json_of_field r c c.name (member c.name fs) false
          else if c.is_primary
          then some key_message
          else none)
        ≡ none
      → (f : Field) × ((if is_member c.name fs
            then bind (read_member r c.kind (member c.name fs) old) (λ f. ok (mark c old.dirty f))
            else ok old)
          ≡ ok f)
        × (f.dirty ≡ (not c.is_primary && is_member c.name fs))
        × (is_null (member c.name fs) ≡ true → f.value ≡ old.value)
  column_taken c fs old clean valid = elim (Bool-cases (is_member c.name fs)) [
    | inl there ↦
        let (f, got, marks, keeps) = taken c c.name (member c.name fs) old (rw there at valid) in
        elim (Bool-cases c.is_primary) [
          | inl key ↦ (
            record f { dirty = old.dirty },
            rw (there, got, key) refl,
            rw (clean, key) refl,
            keeps,
          )
          | inr plain ↦ (f, rw (there, got, plain) refl, rw (marks, plain, there) refl, keeps)
        ]
    | inr absent ↦
        (old, rw absent refl, rw (clean, absent, and_false (not c.is_primary)) refl, λ h. refl)
  ]

  clean_updated :
      (cs : List Column) (fs : Fields) (row : Row)
      → IsClean cs row
      → validate_json_for_update r cs fs ≡ none
      → (rest : Row) × (update_by_json r cs fs row ≡ ok rest)
        × (update_columns cs rest ≡ changed cs fs)
        × Keeps cs fs row rest
  unfolding validate_json_for_update update_by_json update_columns
  clean_updated [] fs [] clean valid = ([], refl, refl, tt)
  clean_updated (c ∷ cs) fs (old ∷ row) clean valid =
      let (first, later) = or_else-none _ _ valid in
      let (f, got, marks, keeps) = column_taken c fs old clean.0 first in
      let (rest, done, names, all_keep) = clean_updated cs fs row clean.1 later in
      (f ∷ rest, rw (got, done) refl, rw (marks, names) refl, (keeps, all_keep))
  clean_updated [] fs (old ∷ row) clean valid = absurd clean
  clean_updated (c ∷ cs) fs [] clean valid = absurd clean

  -- A JSON object that passes the validation for an update is taken by `updateByJson` without an
  -- exception. For a row read from the database, the statement then sets exactly the columns that the
  -- object names, other than keys and generated columns; a column whose member is missing or null
  -- keeps its value.
  pub update_by_json-validated :
      (columns : List Column) (fs : Fields) (result : Result) (offset : Option ℕ)
      → validate_json_for_update r columns fs ≡ none
      → (row : Row) × (update_by_json r columns fs (of_result r columns result offset) ≡ ok row)
        × (update_columns columns row ≡ changed columns fs)
        × Keeps columns fs (of_result r columns result offset) row
  update_by_json-validated columns fs result offset valid =
      clean_updated columns fs (of_result r columns result offset)
        (of_result-IsClean r columns result offset) valid
