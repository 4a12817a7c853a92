-- ===== src/Orm/Validation.antt =====
-- The validation of a JSON object before it makes or changes a row. A result of none is `true`, and
-- a text is the message of `false`.
use project_collection.Base.{
  ℕ, Bool, true, false, not, ◌&&◌, ◌==◌, ltb, List, [], ◌∷◌, ◌++◌, Option, none, some, length,
  get_elem?, if◌then◌else◌,
}
use project_collection.Base.Text.{Text, codes, digits}
use project_collection.Common.{Json, str, Fields, member, is_member}
use project_collection.Orm.{Column, is_null, is_blank}
use project_collection.Orm.Values.{Kind, text, Reads, has_type}

abbrev pub is_text_kind : Kind → Bool
is_text_kind text = true
is_text_kind _ = false

-- The limit of a `varchar`.
abbrev pub is_too_long : Column → Json → Bool
is_too_long c (str s) = is_text_kind c.kind && (ltb 0 c.size && ltb c.size (length s))
is_too_long c _ = false

abbrev pub null_message : Text → Text
null_message name = codes "The " ++ (name ++ codes " column cannot be null")

abbrev length_message : Text → ℕ → Text
length_message name size =
    codes "String length exceeds limit for the "
    ++ (name ++ (codes " field (the maximum value is " ++ (digits size ++ codes ")")))

-- `validJsonOfField`: a case for each column.
unfoldable pub valid_json_of_field : Reads → Column → Text → Json → Bool → Option Text
unfolding codes
valid_json_of_field r c name j for_creation =
    if is_null j
    then (if c.not_null then some (null_message name) else none)
    else if c.is_auto && for_creation
    then some (codes "The automatic primary key cannot be set")
    else if not (has_type r c.kind j)
    then some (codes "Type error in the " ++ (name ++ codes " field"))
    else if is_too_long c j
    then some (length_message name c.size)
    else none

-- `validJsonOfField` by the column's index.
abbrev valid_at : Reads → Option Column → Text → Json → Bool → Option Text
valid_at r none name j for_creation = some (codes "Internal error in the server")
valid_at r (some c) name j for_creation = valid_json_of_field r c name j for_creation

unfoldable pub valid_json_of_index : Reads → List Column → ℕ → Text → Json → Bool → Option Text
unfolding valid_json_of_field
valid_json_of_index r columns index name j for_creation =
    valid_at r (get_elem? columns index) name j for_creation

-- The first message, if there is one.
abbrev pub or_else : Option Text → Option Text → Option Text
or_else none rest = rest
or_else (some e) rest = some e

unfoldable pub validate_json_for_creation : Reads → List Column → Fields → Option Text
unfolding valid_json_of_field
validate_json_for_creation r [] fs = none
validate_json_for_creation r (c ∷ cs) fs =
    or_else
      (if is_member c.name fs
        then valid_json_of_field r c c.name (member c.name fs) true
        else if c.required
        then some (null_message c.name)
        else none)
      (validate_json_for_creation r cs fs)

unfoldable pub validate_named_for_creation : Reads → List Text → List Column → Fields → Option Text
unfolding valid_json_of_field
validate_named_for_creation r (n ∷ ns) (c ∷ cs) fs =
    or_else
      (if is_blank n
        then none
        else if is_member n fs
        then valid_json_of_field r c n (member n fs) true
        else if c.required
        then some (null_message n)
        else none)
      (validate_named_for_creation r ns cs fs)
validate_named_for_creation r _ _ fs = none

abbrev bad_vector : Text
bad_vector = codes "Bad masquerading vector"

unfoldable pub validate_masqueraded_json_for_creation :
    Reads → List Text → List Column → Fields → Option Text
unfolding validate_named_for_creation
validate_masqueraded_json_for_creation r names columns fs =
    if length names == length columns
    then validate_named_for_creation r names columns fs
    else some bad_vector

abbrev pub key_message : Text
key_message = codes "The value of primary key must be set in the json object for update"

unfoldable pub validate_json_for_update : Reads → List Column → Fields → Option Text
unfolding valid_json_of_field
validate_json_for_update r [] fs = none
validate_json_for_update r (c ∷ cs) fs =
    or_else
      (if is_member c.name fs
        then valid_json_of_field r c c.name (member c.name fs) false
        else if c.is_primary
        then some key_message
        else none)
      (validate_json_for_update r cs fs)

unfoldable pub validate_named_for_update : Reads → List Text → List Column → Fields → Option Text
unfolding valid_json_of_field
validate_named_for_update r (n ∷ ns) (c ∷ cs) fs =
    or_else
      (if not (is_blank n) && is_member n fs
        then valid_json_of_field r c n (member n fs) false
        else if c.is_primary
        then some key_message
        else none)
      (validate_named_for_update r ns cs fs)
validate_named_for_update r _ _ fs = none

unfoldable pub validate_masqueraded_json_for_update :
    Reads → List Text → List Column → Fields → Option Text
unfolding validate_named_for_update
validate_masqueraded_json_for_update r names columns fs =
    if length names == length columns
    then validate_named_for_update r names columns fs
    else some bad_vector
