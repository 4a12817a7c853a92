-- ===== src/Orm/Sql.antt =====
-- What an object gives to the statements that drogon's mapper builds: the columns and the values.
use project_collection.Base.{
  Bool, true, false, not, ◌&&◌, ◌||◌, List, [], ◌∷◌, ◌++◌, Option, some, if◌then◌else◌,
}
use project_collection.Base.Int.{ℤ}
use project_collection.Base.Text.{Text, codes}
use project_collection.Orm.{Column, Row}
use project_collection.Orm.Values.{Value, number}

-- `insertColumns`: an insertion names every column that is not generated.
unfoldable pub insert_columns : List Column → List Text
insert_columns [] = []
insert_columns (c ∷ cs) = if c.is_auto then insert_columns cs else c.name ∷ insert_columns cs

-- The values of the columns that are marked and not generated; none is `nullptr`.
unfoldable pub output_args : List Column → Row → List (Option Value)
output_args (c ∷ cs) (f ∷ row) =
    if not c.is_auto && f.dirty then f.value ∷ output_args cs row else output_args cs row
output_args _ _ = []

unfoldable pub update_columns : List Column → Row → List Text
update_columns (c ∷ cs) (f ∷ row) =
    if not c.is_auto && f.dirty then c.name ∷ update_columns cs row else update_columns cs row
update_columns _ _ = []

unfoldable pub update_args : List Column → Row → List (Option Value)
update_args (c ∷ cs) (f ∷ row) =
    if not c.is_auto && f.dirty then f.value ∷ update_args cs row else update_args cs row
update_args _ _ = []

-- `updateId`: the generated key is set, and not marked.
unfoldable pub update_id : List Column → ℤ → Row → Row
update_id (c ∷ cs) id (f ∷ row) =
    (if c.is_auto then record f { value = some (number id) } else f) ∷ update_id cs id row
update_id _ id row = row

-- The columns that an insertion names, and what it writes for each of them.
unfoldable pub named_columns : List Column → Row → List Text
named_columns (c ∷ cs) (f ∷ row) =
    if c.is_auto || c.has_default || f.dirty
    then c.name ∷ named_columns cs row
    else named_columns cs row
named_columns _ _ = []

abbrev pub placeholder : Text
placeholder = codes "?"

abbrev pub default_word : Text
default_word = codes "default"

unfoldable pub written_values : List Column → Row → List Text
written_values (c ∷ cs) (f ∷ row) =
    if not c.is_auto && f.dirty
    then placeholder ∷ written_values cs row
    else if c.is_auto || c.has_default
    then default_word ∷ written_values cs row
    else written_values cs row
written_values _ _ = []

abbrev pub with_commas : List Text → Text
with_commas [] = []
with_commas (t ∷ ts) = t ++ (codes "," ++ with_commas ts)

-- The last character, where there is one, gives way to a text.
abbrev pub close_with : Text → Text → Text
close_with [] t = []
close_with (c ∷ []) t = t
close_with (c ∷ d ∷ s) t = c ∷ close_with (d ∷ s) t

abbrev is_nothing : List Text → Bool
is_nothing [] = true
is_nothing (_ ∷ _) = false

-- `sqlForInserting`: the statement.
unfoldable pub sql_for_inserting : Text → List Column → Row → Text
unfolding named_columns written_values
sql_for_inserting table columns row =
    (if is_nothing (named_columns columns row)
      then codes "insert into " ++ (table ++ codes " () values (")
      else close_with
          (codes "insert into "
            ++ (table ++ (codes " (" ++ with_commas (named_columns columns row))))
          (codes ")")
        ++ codes " values (")
    ++ (if is_nothing (named_columns columns row)
        then with_commas (written_values columns row)
        else close_with (with_commas (written_values columns row)) [])
    ++ codes ")"

-- Its out parameter `needSelection`: the row must be read back for a key or a default.
unfoldable pub need_selection : List Column → Row → Bool
need_selection (c ∷ cs) (f ∷ row) =
    let rest = need_selection cs row in
    if c.is_auto || (c.has_default && not f.dirty) then true else rest
need_selection _ _ = false
