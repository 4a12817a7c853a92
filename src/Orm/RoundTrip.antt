-- ===== src/Orm/RoundTrip.antt =====
-- `toJson` and back by the constructor.
use project_collection.Base.{◌≡◌, refl, true, false, List, [], ◌∷◌, Option, none, some, map, arith}
use project_collection.Base.Text.{Text, text_eq, text_eq_refl}
use project_collection.Common.{ok, Json, Fields, field, member, is_member}
use project_collection.Orm.{Column, Field, Row, unset, read_member, of_json, to_json}
use project_collection.Orm.Values.{
  Value, number, string, bits, date, Kind, uint64, int64, uint32, int32, uint8, int8, text, double,
  timestamp, day, Reads, read_value, json_of_value,
}
use project_collection.Orm.Laws.{
  IsReads, InRange, unsigned_32, unsigned_8, signed_32, signed_8, Int32-Int64, Int8-Int64,
}

-- No later column has the name of an earlier one.
abbrev pub IsFresh : Text → List Column → Type 0
IsFresh n [] = Unit
IsFresh n (c ∷ cs) = (text_eq n c.name ≡ false) × IsFresh n cs

abbrev pub IsDistinct : List Column → Type 0
IsDistinct [] = Unit
IsDistinct (c ∷ cs) = IsFresh c.name cs × IsDistinct cs

-- An unset member, or a value of the column's kind.
abbrev pub FitsValue : Reads → Kind → Option Value → Type 0
FitsValue r kind none = Unit
FitsValue r kind (some v) = InRange r kind v

abbrev pub Fits : Reads → List Column → Row → Type 0
Fits r [] [] = Unit
Fits r (c ∷ cs) (f ∷ row) = FitsValue r c.kind f.value × Fits r cs row
Fits r _ _ = ⊥

abbrev pub marked : Field → Field
marked f = record f { dirty = true }

module _ (r : Reads) (laws : IsReads r) where
  -- A value is read back from what is printed for it.
  read-json :
      (kind : Kind) (v : Value)
      → InRange r kind v
      → read_value r kind (json_of_value r (some v)) ≡ ok (some v)
  unfolding read_value json_of_value
  read-json uint64 (number z) h = rw (laws.uint64_int z h) refl
  read-json int64 (number z) h = rw (laws.int64_int z h) refl
  read-json uint32 (number z) h = rw (laws.uint64_int z (omega arith), unsigned_32 z h) refl
  read-json int32 (number z) h = rw (laws.int64_int z (Int32-Int64 z h), signed_32 z h) refl
  read-json uint8 (number z) h = rw (laws.uint64_int z (omega arith), unsigned_8 z h) refl
  read-json int8 (number z) h = rw (laws.int64_int z (Int8-Int64 z h), signed_8 z h) refl
  read-json text (string s) h = rw (laws.string_str s) refl
  read-json double (bits b) h = rw (laws.double_real b) refl
  read-json timestamp (date t) h = rw (laws.string_str (r.print_date t), h) refl
  read-json day (date t) h = rw (laws.string_str (r.print_date t), h) refl
  read-json _ _ h = absurd h

  -- Reading a member where a column was printed gives its value.
  read_printed :
      (kind : Kind) (o : Option Value)
      → FitsValue r kind o
      → read_member r kind (json_of_value r o) unset ≡ ok (record { value = o; dirty = true })
  unfolding read_member json_of_value
  read_printed kind none h = refl
  read_printed kind (some (number z)) h = rw (read-json kind (number z) h) refl
  read_printed kind (some (string s)) h = rw (read-json kind (string s) h) refl
  read_printed kind (some (bits b)) h = rw (read-json kind (bits b) h) refl
  read_printed kind (some (date t)) h = rw (read-json kind (date t) h) refl

  -- The object has each column's value under its name.
  abbrev Agrees : List Column → Row → Fields → Type 0
  Agrees [] [] fs = Unit
  Agrees (c ∷ cs) (f ∷ row) fs =
      (is_member c.name fs ≡ true) × (member c.name fs ≡ json_of_value r f.value) × Agrees cs row fs
  Agrees _ _ fs = ⊥

  Agrees-field :
      (cs : List Column) (row : Row) (fs : Fields) (n : Text) (v : Json)
      → IsFresh n cs
      → Agrees cs row fs
      → Agrees cs row (field n v fs)
  unfolding is_member member
  Agrees-field [] [] fs n v fresh h = tt
  Agrees-field (c ∷ cs) (f ∷ row) fs n v fresh h =
      (rw fresh.0 h.0, rw fresh.0 h.1, Agrees-field cs row fs n v fresh.1 h.2)
  Agrees-field [] (f ∷ row) fs n v fresh h = h
  Agrees-field (c ∷ cs) [] fs n v fresh h = h

  Agrees-to_json :
      (cs : List Column) (row : Row)
      → IsDistinct cs
      → Fits r cs row
      → Agrees cs row (to_json r cs row)
  unfolding to_json is_member member
  Agrees-to_json [] [] d h = tt
  Agrees-to_json (c ∷ cs) (f ∷ row) d h = (
    rw (text_eq_refl c.name) refl,
    rw (text_eq_refl c.name) refl,
    Agrees-field cs row (to_json r cs row) c.name (json_of_value r f.value) d.0
        (Agrees-to_json cs row d.1 h.1),
  )
  Agrees-to_json [] (f ∷ row) d h = absurd h
  Agrees-to_json (c ∷ cs) [] d h = absurd h

  of_json_agreeing :
      (cs : List Column) (row : Row) (fs : Fields)
      → Fits r cs row
      → Agrees cs row fs
      → of_json r cs fs ≡ ok (map marked row)
  unfolding of_json
  of_json_agreeing [] [] fs h a = refl
  of_json_agreeing (c ∷ cs) (f ∷ row) fs h a =
      rw (a.0, a.1, read_printed c.kind f.value h.0, of_json_agreeing cs row fs h.1 a.2) refl
  of_json_agreeing [] (f ∷ row) fs h a = absurd h
  of_json_agreeing (c ∷ cs) [] fs h a = absurd h

  -- For columns of different names, a row whose values are within the bounds of the columns' kinds, and
  -- whose dates are read back from their printed text (a timestamp at midnight is not), comes back
  -- from its JSON, with every column marked.
  pub of_json-to_json :
      (columns : List Column) (row : Row)
      → IsDistinct columns
      → Fits r columns row
      → of_json r columns (to_json r columns row) ≡ ok (map marked row)
  of_json-to_json columns row distinct h =
      of_json_agreeing columns row (to_json r columns row) h (Agrees-to_json columns row distinct h)
