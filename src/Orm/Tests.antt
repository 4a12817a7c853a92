-- ===== src/Orm/Tests.antt =====
-- Rows of three tables, read, printed and validated.
use project_collection.Base.{◌%◌, ◌≡◌, ◌≢◌, refl, true, false, [], ◌∷◌, none, some, map, arith}
use project_collection.Base.Int.{ℤ, pos, ◌+ℤ◌}
use project_collection.Base.Text.{codes, text_eq, digits, digits_value, atol}
use project_collection.Common.{ok, int, str, Fields, end, field, is_member, member}
use project_collection.Orm.{
  Column, column, Field, Row, of_json, to_json, read_member, update_by_json, unset,
}
use project_collection.Orm.Values.{Value, number, date, uint8, day, has_type, read_time}
use project_collection.Orm.Validation.{
  valid_json_of_field, validate_json_for_creation, validate_json_for_update,
}
use project_collection.Orm.Sql.{update_columns}
use project_collection.Orm.Result.{Result, of_result}
use project_collection.Orm.RoundTrip.{Fits, marked, of_json-to_json}
use project_collection.Orm.Validated.{AreSound, of_json-validated, tinyint_truncated}
use project_collection.Orm.Update.{changed, Keeps, update_by_json-validated}
use project_collection.Orm.Access.{Accessor, accessor, accessors}
use project_collection.Orm.Setters.{Sets, SetsNull, accessors-update_columns}
use project_collection.Orm.Tables.TbUserInfo
use project_collection.Orm.Classes.{
  columns_of, seckill_voucher, user_info, columns_of-IsDistinct, columns_of-IsProper,
}
use project_collection.Orm.Memory.{plain, plain-IsReads}
use project_collection.Orm.Tables.TbSeckillVoucher

abbrev held : Value → Field
held v = record { value = some v; dirty = false }

-- Ten items of voucher 7, on sale from second 100 to second 200.
abbrev sale : Row
sale =
    held (number (pos 7))
    ∷ held (number (pos 10))
    ∷ unset
    ∷ held (date (pos 100000000))
    ∷ held (date (pos 200000000))
    ∷ unset
    ∷ []

sale-Fits : Fits plain (columns_of seckill_voucher) sale
unfolding TbSeckillVoucher.columns read_time codes digits atol digits_value ◌+ℤ◌
sale-Fits =
    ((omega arith, omega arith), ((omega arith, omega arith), (tt, (refl, (refl, (tt, tt))))))

of_json-to_json_example :
    of_json plain (columns_of seckill_voucher) (to_json plain (columns_of seckill_voucher) sale)
    ≡ ok (map marked sale)
of_json-to_json_example =
    of_json-to_json plain plain-IsReads (columns_of seckill_voucher) sale
      (columns_of-IsDistinct seckill_voucher) sale-Fits

abbrev request : Fields
request =
    field (codes "voucher_id") (int (pos 7))
      (field (codes "stock") (int (pos 10)) (field (codes "begin_time") (str (codes "100")) end))

request_passes : validate_json_for_creation plain (columns_of seckill_voucher) request ≡ none
unfolding TbSeckillVoucher.columns validate_json_for_creation valid_json_of_field has_type is_member
    member codes text_eq
request_passes = refl

of_json-validated_example :
    (row : Row) × (of_json plain (columns_of seckill_voucher) request ≡ ok row)
    × AreSound plain plain-IsReads (columns_of seckill_voucher) row
of_json-validated_example =
    of_json-validated plain plain-IsReads (columns_of seckill_voucher) request
      (columns_of-IsProper seckill_voucher) request_passes

abbrev in_stock : Row
in_stock = map marked sale

-- What a query found: only the key and the stock.
abbrev found : Result
found = record {
  named = λ n. some (codes "7");
  cells = some (codes "7") ∷ some (codes "10") ∷ [];
  as_value = λ k s. number (atol s);
}

abbrev change : Fields
change = field (codes "voucher_id") (int (pos 7)) (field (codes "stock") (int (pos 9)) end)

change_passes : validate_json_for_update plain (columns_of seckill_voucher) change ≡ none
unfolding TbSeckillVoucher.columns validate_json_for_update valid_json_of_field has_type is_member
    member codes text_eq
change_passes = refl

update_by_json-validated_example :
    (row : Row) × (update_by_json plain
        (columns_of seckill_voucher)
        change
        (of_result plain (columns_of seckill_voucher) found none)
      ≡ ok row)
    × (update_columns (columns_of seckill_voucher) row
        ≡ changed (columns_of seckill_voucher) change)
    × Keeps
        (columns_of seckill_voucher)
        change
        (of_result plain (columns_of seckill_voucher) found none)
        row
update_by_json-validated_example =
    update_by_json-validated plain plain-IsReads (columns_of seckill_voucher) change found none
      change_passes

changed_stock : changed (columns_of seckill_voucher) change ≡ codes "stock" ∷ []
unfolding TbSeckillVoucher.columns is_member codes text_eq
changed_stock = refl

-- The column `gender` of TbUserInfo.
abbrev gender : Column
gender = column (codes "gender") uint8 1 false false false false true

tinyint_truncated_example :
    (valid_json_of_field plain gender (codes "gender") (int (pos 257)) true ≡ none)
    × (read_member plain gender.kind (int (pos 257)) unset
        ≡ ok (record { value = some (number (pos (257 % 256))); dirty = true }))
    × (257 % 256 ≢ 257)
tinyint_truncated_example =
    tinyint_truncated plain plain-IsReads gender (codes "gender") 257 refl refl (omega arith)
      (omega arith)

-- The column `birthday` of TbUserInfo.
abbrev birthday : Column
birthday = column (codes "birthday") day 0 false false false false false

abbrev round_down : ℤ → ℤ
round_down t = pos 0

abbrev birthday_accessor : Accessor
birthday_accessor = accessor round_down 6 birthday

abbrev no_info : Row
no_info = unset ∷ unset ∷ unset ∷ unset ∷ unset ∷ unset ∷ unset ∷ unset ∷ unset ∷ unset ∷ unset ∷ []

accessors-update_columns_example :
    Sets
      (columns_of user_info)
      6
      birthday
      (some (date (pos 0)))
      no_info
      (birthday_accessor.set (date (pos 5)) no_info)
    × (birthday_accessor.value_of (birthday_accessor.set (date (pos 5)) no_info) ≡ date (pos 0))
    × SetsNull (columns_of user_info) 6 birthday no_info birthday_accessor.set_to_null
unfolding TbUserInfo.columns accessors
accessors-update_columns_example =
    accessors-update_columns round_down (columns_of user_info) 6 birthday birthday_accessor
      (date (pos 5)) no_info refl refl refl
      (refl, (refl, (refl, (refl, (refl, (refl, (refl, (refl, (refl, (refl, (refl, tt)))))))))))
