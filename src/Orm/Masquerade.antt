-- ===== src/Orm/Masquerade.antt =====
-- The functions with a vector of names, given the columns' own names.
use project_collection.Base.{
  ◌≡◌, refl, true, false, ◌==◌, List, [], ◌∷◌, map, length, length-map, ==_iff,
}
use project_collection.Base.Text.{Text}
use project_collection.Common.{Fields}
use project_collection.Orm.{
  Column, Row, is_blank, of_json, of_named, of_masqueraded_json, update_by_json, update_named,
  update_by_masqueraded_json,
}
use project_collection.Orm.Values.{Reads}
use project_collection.Orm.Validation.{
  validate_json_for_creation, validate_named_for_creation, validate_masqueraded_json_for_creation,
  validate_json_for_update, validate_named_for_update, validate_masqueraded_json_for_update,
}

abbrev pub names_of : List Column → List Text
names_of = map λ c. c.name

abbrev pub HaveNames : List Column → Type 0
HaveNames [] = Unit
HaveNames (c ∷ cs) = (is_blank c.name ≡ false) × HaveNames cs

same_length : (cs : List Column) → (length (names_of cs) == length cs) ≡ true
same_length cs = (==_iff _ _).1 (length-map cs λ c. c.name)

of_named-names :
    (r : Reads) (cs : List Column) (fs : Fields)
    → HaveNames cs
    → of_named r (names_of cs) cs fs ≡ of_json r cs fs
unfolding of_named of_json
of_named-names r [] fs h = refl
of_named-names r (c ∷ cs) fs h = rw (h.0, of_named-names r cs fs h.1) refl

update_named-names :
    (r : Reads) (cs : List Column) (fs : Fields) (row : Row)
    → HaveNames cs
    → update_named r (names_of cs) cs fs row ≡ update_by_json r cs fs row
unfolding update_named update_by_json
update_named-names r [] fs row h = refl
update_named-names r (c ∷ cs) fs [] h = refl
update_named-names r (c ∷ cs) fs (f ∷ row) h = rw (h.0, update_named-names r cs fs row h.1) refl

creation_names :
    (r : Reads) (cs : List Column) (fs : Fields)
    → HaveNames cs
    → validate_named_for_creation r (names_of cs) cs fs ≡ validate_json_for_creation r cs fs
unfolding validate_named_for_creation validate_json_for_creation
creation_names r [] fs h = refl
creation_names r (c ∷ cs) fs h = rw (h.0, creation_names r cs fs h.1) refl

update_names :
    (r : Reads) (cs : List Column) (fs : Fields)
    → HaveNames cs
    → validate_named_for_update r (names_of cs) cs fs ≡ validate_json_for_update r cs fs
unfolding validate_named_for_update validate_json_for_update
update_names r [] fs h = refl
update_names r (c ∷ cs) fs h = rw (h.0, update_names r cs fs h.1) refl

-- With the columns' own names, the functions that take a vector of names are those that take none:
-- the constructor, the update and both validations.
pub masquerade_by_own_names :
    (r : Reads) (columns : List Column) (fs : Fields) (row : Row)
    → HaveNames columns
    → (of_masqueraded_json r (names_of columns) columns fs ≡ of_json r columns fs)
      × (update_by_masqueraded_json r (names_of columns) columns fs row
          ≡ update_by_json r columns fs row)
      × (validate_masqueraded_json_for_creation r (names_of columns) columns fs
          ≡ validate_json_for_creation r columns fs)
      × (validate_masqueraded_json_for_update r (names_of columns) columns fs
          ≡ validate_json_for_update r columns fs)
unfolding of_masqueraded_json update_by_masqueraded_json validate_masqueraded_json_for_creation
    validate_masqueraded_json_for_update
masquerade_by_own_names r cs fs row h = (
  rw (same_length cs) (of_named-names r cs fs h),
  rw (same_length cs) (update_named-names r cs fs row h),
  rw (same_length cs) (creation_names r cs fs h),
  rw (same_length cs) (update_names r cs fs h),
)
