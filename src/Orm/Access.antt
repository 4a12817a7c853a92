-- ===== src/Orm/Access.antt =====
-- The getters and setters of a class, by the column's index: `getValueOf…` reads a default for a
-- member that is not set, and a setter marks its column.
use project_collection.Base.{ℕ, zero, suc, true, List, [], ◌∷◌, Option, none, some, if◌then◌else◌}
use project_collection.Base.Int.{ℤ, pos}
use project_collection.Base.Text.{Text}
use project_collection.Models.{number_of, text_of}
use project_collection.Orm.{Column, Row}
use project_collection.Orm.Values.{
  Value, number, string, bits, date, Kind, text, double, timestamp, day,
}

-- `getX`: the shared pointer.
abbrev pub value_at : ℕ → Row → Option Value
value_at index [] = none
value_at zero (f ∷ row) = f.value
value_at (suc index) (f ∷ row) = value_at index row

abbrev number_in : Option Value → Option ℤ
number_in (some (number z)) = some z
number_in _ = none

abbrev string_in : Option Value → Option Text
string_in (some (string s)) = some s
string_in _ = none

abbrev bits_in : Option Value → Option ℕ
bits_in (some (bits b)) = some b
bits_in _ = none

abbrev pub number_column : ℕ → Row → Option ℤ
number_column index row = number_in (value_at index row)

abbrev or_zero_bits : Option ℕ → ℕ
or_zero_bits none = 0
or_zero_bits (some b) = b

-- `getValueOfX` of a number, a text and a double.
abbrev pub number_at : ℕ → Row → ℤ
number_at index row = number_of (number_in (value_at index row))

abbrev pub text_at : ℕ → Row → Text
text_at index row = text_of (string_in (value_at index row))

abbrev pub double_at : ℕ → Row → ℕ
double_at index row = or_zero_bits (bits_in (value_at index row))

-- `Date::roundDay` of trantor, for a column that is a day.
abbrev pub rounded : (ℤ → ℤ) → Kind → Value → Value
rounded round_day day (date t) = date (round_day t)
rounded round_day _ v = v

-- What every setter does with its column: the member and its mark.
unfoldable pub mark_at : ℕ → Option Value → Row → Row
mark_at index o [] = []
mark_at zero o (f ∷ row) = record { value = o; dirty = true } ∷ row
mark_at (suc index) o (f ∷ row) = f ∷ mark_at index o row

-- The value of a member that is not set.
abbrev default_of : Kind → Value
default_of text = string []
default_of double = bits 0
default_of timestamp = date (pos 0)
default_of day = date (pos 0)
default_of _ = number (pos 0)

abbrev value_or : Kind → Option Value → Value
value_or kind none = default_of kind
value_or kind (some v) = v

-- What a class has for a column: `getX`, `getValueOfX`, `setX`, and `setXToNull` where the column can
-- be null.
pub record Accessor : Type 0 where
  pub shared : Row → Option Value
  pub value_of : Row → Value
  pub set : Value → Row → Row
  pub set_to_null : Option (Row → Row)

-- `round_day` is `Date::roundDay` of trantor.
unfoldable pub accessor : (ℤ → ℤ) → ℕ → Column → Accessor
unfolding mark_at
accessor round_day index c = record {
  shared = value_at index;
  value_of = λ row. value_or c.kind (value_at index row);
  set = λ v. mark_at index (some (rounded round_day c.kind v));
  set_to_null = if c.not_null then none else some (mark_at index none);
}

unfoldable pub accessors : (ℤ → ℤ) → ℕ → List Column → List Accessor
unfolding accessor
accessors round_day index [] = []
accessors round_day index (c ∷ cs) = accessor round_day index c ∷ accessors round_day (suc index) cs
