-- ===== src/Orm.antt =====
-- The model classes that drogon_ctl generates from the tables: models/*.cc of the user center and
-- source/models/*.cc of hmdp. Each class is its table of columns (Orm/Tables), and what the classes
-- do with their columns, one after the other, is here.
pub mod Values
pub mod Validation
pub mod Sql
pub mod Result
pub mod Laws
pub mod RoundTrip
pub mod Validated
pub mod Setters
pub mod Statements
pub mod Masquerade
pub mod Tables
pub mod Access
pub mod Classes
pub mod Update
pub mod Memory
mod Tests
use project_collection.Base.{
  ℕ, Bool, true, false, not, ◌&&◌, ◌||◌, ◌==◌, ltb, List, [], ◌∷◌, ◌++◌, Option, none, some, length,
  map, if◌then◌else◌,
}
use project_collection.Base.Int.{ℤ, pos}
use project_collection.Base.Text.{Text, codes, digits}
use project_collection.Common.{
  Outcome, ok, raised, std_exception, Json, null, str, Fields, obj, end, field, member, is_member,
  set_member,
}
use Values.{Value, Kind, text, Reads, bind, json_of_value, read_value, has_type}

-- The metadata of a column: its name, the type of its member, the length of a `varchar` (0 for other
-- types), whether its value is generated, whether it is the primary key, and whether it cannot be
-- null; whether a new row must have it, and whether an insertion names it with `default` when it is
-- not marked.
pub record Column : Type 0 where
  pub name : Text
  pub kind : Kind
  pub size : ℕ
  pub is_auto : Bool
  pub is_primary : Bool
  pub not_null : Bool
  pub required : Bool
  pub has_default : Bool

abbrev pub column : Text → Kind → ℕ → Bool → Bool → Bool → Bool → Bool → Column
column name kind size is_auto is_primary not_null required has_default = record {
  name = name;
  kind = kind;
  size = size;
  is_auto = is_auto;
  is_primary = is_primary;
  not_null = not_null;
  required = required;
  has_default = has_default;
}

-- A member of an object, with its dirty flag; an object has one for each column.
pub record Field : Type 0 where
  pub value : Option Value
  pub dirty : Bool

abbrev pub Row : Type 0
Row = List Field

abbrev pub unset : Field
unset = record { value = none; dirty = false }

abbrev pub new_row : List Column → Row
new_row columns = map (λ c. unset) columns

abbrev pub is_null : Json → Bool
is_null null = true
is_null _ = false

abbrev keep : Option Value → Option Value → Option Value
keep none old = old
keep (some v) old = some v

-- A member that is null marks the column and sets nothing; so does a time that cannot be read.
unfoldable pub read_member : Reads → Kind → Json → Field → Outcome Field
read_member r k j f =
    if is_null j
    then ok (record f { dirty = true })
    else bind (read_value r k j) λ v. ok (record { value = keep v f.value; dirty = true })

abbrev pub is_blank : Text → Bool
is_blank [] = true
is_blank (_ ∷ _) = false

-- The constructor from a JSON object: `T(const Json::Value &)`.
unfoldable pub of_json : Reads → List Column → Fields → Outcome Row
unfolding read_member
of_json r [] fs = ok []
of_json r (c ∷ cs) fs =
    bind (if is_member c.name fs then read_member r c.kind (member c.name fs) unset else ok unset)
      λ f. bind (of_json r cs fs) λ row. ok (f ∷ row)

unfoldable pub of_named : Reads → List Text → List Column → Fields → Outcome Row
unfolding read_member
of_named r (n ∷ ns) (c ∷ cs) fs =
    bind
      (if not (is_blank n) && is_member n fs
        then read_member r c.kind (member n fs) unset
        else ok unset)
      λ f. bind (of_named r ns cs fs) λ row. ok (f ∷ row)
of_named r ns [] fs = ok []
of_named r [] (c ∷ cs) fs = ok (new_row (c ∷ cs))

-- The constructor with a vector of names to read instead of the columns'.
unfoldable pub of_masqueraded_json : Reads → List Text → List Column → Fields → Outcome Row
unfolding of_named
of_masqueraded_json r names columns fs =
    if length names == length columns then of_named r names columns fs else ok (new_row columns)

-- The primary key is read, and not marked.
abbrev pub mark : Column → Bool → Field → Field
mark c was f = if c.is_primary then record f { dirty = was } else f

-- `updateByJson`: what an exception leaves half done is not kept here.
unfoldable pub update_by_json : Reads → List Column → Fields → Row → Outcome Row
unfolding read_member
update_by_json r (c ∷ cs) fs (old ∷ row) =
    bind
      (if is_member c.name fs
        then bind (read_member r c.kind (member c.name fs) old) (λ f. ok (mark c old.dirty f))
        else ok old)
      λ f. bind (update_by_json r cs fs row) λ rest. ok (f ∷ rest)
update_by_json r _ fs row = ok row

unfoldable pub update_named : Reads → List Text → List Column → Fields → Row → Outcome Row
unfolding read_member
update_named r (n ∷ ns) (c ∷ cs) fs (old ∷ row) =
    bind
      (if not (is_blank n) && is_member n fs
        then bind (read_member r c.kind (member n fs) old) (λ f. ok (mark c old.dirty f))
        else ok old)
      λ f. bind (update_named r ns cs fs row) λ rest. ok (f ∷ rest)
update_named r _ _ fs row = ok row

-- `updateByMasqueradedJson`
unfoldable pub update_by_masqueraded_json :
    Reads → List Text → List Column → Fields → Row → Outcome Row
unfolding update_named
update_by_masqueraded_json r names columns fs row =
    if length names == length columns then update_named r names columns fs row else ok row

-- `toJson`: a column that is not set is null.
unfoldable pub to_json : Reads → List Column → Row → Fields
to_json r (c ∷ cs) (f ∷ row) = field c.name (json_of_value r f.value) (to_json r cs row)
to_json r _ _ = end

unfoldable pub to_named : Reads → List Text → Row → Fields → Fields
to_named r (n ∷ ns) (f ∷ row) fs =
    to_named r ns row (if is_blank n then fs else set_member n (json_of_value r f.value) fs)
to_named r _ _ fs = fs

-- `toMasqueradedJson`: with a vector of another length it is `toJson`.
unfoldable pub to_masqueraded_json : Reads → List Text → List Column → Row → Fields
unfolding to_named to_json
to_masqueraded_json r names columns row =
    if length names == length columns then to_named r names row end else to_json r columns row
