-- ===== src/Orm/Result.antt =====
-- The constructor from a row of a query's result, by the columns' names or by position.
use project_collection.Base.{
  ℕ, ◌+◌, false, ltb, List, [], ◌∷◌, Option, none, some, length, drop, if◌then◌else◌,
}
use project_collection.Base.Text.{Text}
use project_collection.Orm.{Column, Field, Row, unset, new_row}
use project_collection.Orm.Values.{
  Value, date, Kind, timestamp, day, Reads, read_time, dated, in_micros,
}

-- drogon's row: its cells by name and in order, and the conversion `as<T>`. A cell that is null is
-- none.
pub record Result : Type 0 where
  pub named : Text → Option Text
  pub cells : List (Option Text)
  pub as_value : Kind → Text → Value

-- Dates come as texts.
unfoldable pub cell_value : Reads → Result → Kind → Text → Option Value
cell_value r row timestamp s = dated (read_time r s)
cell_value r row day s = some (date (in_micros (r.scan_day s)))
cell_value r row kind s = some (row.as_value kind s)

abbrev pub of_cell : Reads → Result → Kind → Option Text → Field
of_cell r row kind none = unset
of_cell r row kind (some s) = record { value = cell_value r row kind s; dirty = false }

unfoldable pub of_names : Reads → Result → List Column → Row
of_names r row [] = []
of_names r row (c ∷ cs) = of_cell r row c.kind (row.named c.name) ∷ of_names r row cs

unfoldable pub of_cells : Reads → Result → List Column → List (Option Text) → Row
of_cells r row (c ∷ cs) (cell ∷ cells) = of_cell r row c.kind cell ∷ of_cells r row cs cells
of_cells r row cs [] = new_row cs
of_cells r row [] cells = []

-- A negative offset is none. With too few cells the object stays empty.
unfoldable pub of_result : Reads → List Column → Result → Option ℕ → Row
unfolding of_names of_cells
of_result r columns row none = of_names r row columns
of_result r columns row (some offset) =
    if ltb (length row.cells) (offset + length columns)
    then new_row columns
    else of_cells r row columns (drop offset row.cells)
