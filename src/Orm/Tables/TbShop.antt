-- ===== src/Orm/Tables/TbShop.antt =====
-- drogon/hmdp-cpp-backend/src/hmdp/source/models/TbShop.cc and drogon/hmdp-cpp-backend/src/hmdp/include/models/TbShop.h.
use project_collection.Base.{ℕ, Bool, true, false, List, [], ◌∷◌, Option}
use project_collection.Base.Int.{ℤ}
use project_collection.Base.Text.{Text, codes}
use project_collection.Common.{Outcome, Json, Fields}
use project_collection.Orm
use project_collection.Orm.Access
use project_collection.Orm.Access.{Accessor}
use project_collection.Orm.{Column, column, Row}
use project_collection.Orm.Values.{uint64, uint32, text, double, timestamp, Value, Reads}
use project_collection.Orm.Validation
use project_collection.Orm.Sql
use project_collection.Orm.Result
use project_collection.Orm.Result.{Result}

abbrev pub table_name : Text
table_name = codes "tb_shop"

-- `metaData_`, with what a new row must have and the columns that an insertion fills by default.
unfoldable pub columns : List Column
columns =
    column (codes "id") uint64 8 true true true false false
    ∷ column (codes "name") text 128 false false true true false
    ∷ column (codes "type_id") uint64 8 false false true true false
    ∷ column (codes "images") text 1024 false false true true false
    ∷ column (codes "area") text 128 false false false false false
    ∷ column (codes "address") text 255 false false true true false
    ∷ column (codes "x") double 8 false false true true false
    ∷ column (codes "y") double 8 false false true true false
    ∷ column (codes "avg_price") uint64 8 false false false false false
    ∷ column (codes "sold") uint32 4 false false true true false
    ∷ column (codes "comments") uint32 4 false false true true false
    ∷ column (codes "score") uint32 4 false false true true false
    ∷ column (codes "open_hours") text 32 false false false false false
    ∷ column (codes "create_time") timestamp 0 false false false false true
    ∷ column (codes "update_time") timestamp 0 false false false false true
    ∷ []

unfoldable pub of_json : Reads → Fields → Outcome Row
of_json r fs = Orm.of_json r columns fs

unfoldable pub of_masqueraded_json : Reads → List Text → Fields → Outcome Row
of_masqueraded_json r names fs = Orm.of_masqueraded_json r names columns fs

unfoldable pub update_by_json : Reads → Fields → Row → Outcome Row
update_by_json r fs row = Orm.update_by_json r columns fs row

unfoldable pub update_by_masqueraded_json : Reads → List Text → Fields → Row → Outcome Row
update_by_masqueraded_json r names fs row = Orm.update_by_masqueraded_json r names columns fs row

unfoldable pub to_json : Reads → Row → Fields
to_json r row = Orm.to_json r columns row

unfoldable pub to_masqueraded_json : Reads → List Text → Row → Fields
to_masqueraded_json r names row = Orm.to_masqueraded_json r names columns row

unfoldable pub validate_json_for_creation : Reads → Fields → Option Text
validate_json_for_creation r fs = Validation.validate_json_for_creation r columns fs

unfoldable pub validate_masqueraded_json_for_creation : Reads → List Text → Fields → Option Text
validate_masqueraded_json_for_creation r names fs =
    Validation.validate_masqueraded_json_for_creation r names columns fs

unfoldable pub validate_json_for_update : Reads → Fields → Option Text
validate_json_for_update r fs = Validation.validate_json_for_update r columns fs

unfoldable pub validate_masqueraded_json_for_update : Reads → List Text → Fields → Option Text
validate_masqueraded_json_for_update r names fs =
    Validation.validate_masqueraded_json_for_update r names columns fs

unfoldable pub valid_json_of_field : Reads → ℕ → Text → Json → Bool → Option Text
valid_json_of_field r index name j for_creation =
    Validation.valid_json_of_index r columns index name j for_creation

unfoldable pub of_result : Reads → Result → Option ℕ → Row
of_result r row offset = Result.of_result r columns row offset

unfoldable pub accessors : (ℤ → ℤ) → List Accessor
accessors round_day = Access.accessors round_day 0 columns

unfoldable pub insert_columns : List Text
insert_columns = Sql.insert_columns columns

unfoldable pub output_args : Row → List (Option Value)
output_args row = Sql.output_args columns row

unfoldable pub update_columns : Row → List Text
update_columns row = Sql.update_columns columns row

unfoldable pub update_args : Row → List (Option Value)
update_args row = Sql.update_args columns row

unfoldable pub update_id : ℤ → Row → Row
update_id id row = Sql.update_id columns id row

unfoldable pub sql_for_inserting : Row → Text
sql_for_inserting row = Sql.sql_for_inserting table_name columns row

unfoldable pub need_selection : Row → Bool
need_selection row = Sql.need_selection columns row
