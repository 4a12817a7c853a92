-- ===== src/Controllers/Vouchers.antt =====
-- source/controllers/VoucherController.cc, from the parsed request to the JSON answer.
mod Tests
use project_collection.Base.{ℕ, ◌∙◌, ap, List, [], ◌∷◌, none, ◌⊎◌}
use project_collection.Base.Int.{ℤ, pos, ◌≤ℤ◌}
use project_collection.Base.Text.{Text}
use project_collection.Common.{
  Outcome, raised, Action, pure, try_catch, ◌>>=◌, ◌>>◌, business, business_with, params_error,
  Json, int, obj, respond, make_success_json, make_list_json,
}
use project_collection.Redis.{Redis, IsRedis, lift}
use project_collection.Models.{TbSeckillVoucher, TbUser, is_number}
use project_collection.Database.{Mapper, IsReader, select}
use project_collection.VoucherOrder.{Clock, create_voucher_order, seckill_voucher}
use project_collection.VoucherOrder.Backing.{Store, World}
use project_collection.VoucherOrder.Window.{IsOpen, seckill_voucher_window}
use project_collection.Orm.{Row}
use project_collection.Orm.Access.{number_at}
use project_collection.Orm.Values.{Reads}
use project_collection.Orm.Tables.TbVoucher
use project_collection.VoucherService.{
  SaleTerms, tb_voucher_of, add_seckill_voucher, add_voucher, query_voucher_of_shop,
}
use project_collection.Controllers.{answer_error}

module _ {Server Db : Type 0} (redis : Redis Server) (vouchers : Mapper Row Db)
    (sales : Mapper TbSeckillVoucher Db) (reads : Reads) (from_db_string_local : Text → ℤ) where
  unfoldable pub add_seckill_answer : Json → Action (World Server Db) Json
  add_seckill_answer body =
      try_catch
        (do
          voucher ← lift (tb_voucher_of reads body)
          stored ← add_seckill_voucher redis vouchers sales reads from_db_string_local voucher body
          pure (make_success_json int (number_at 0 stored)))
        answer_error

  unfoldable pub add_voucher_answer : Json → Action (World Server Db) Json
  add_voucher_answer body =
      try_catch
        (do
          voucher ← lift (tb_voucher_of reads body)
          stored ← add_voucher redis vouchers sales reads from_db_string_local voucher
          pure (make_success_json int (number_at 0 stored)))
        answer_error

  unfoldable pub vouchers_answer : ℤ → Action (World Server Db) Json
  vouchers_answer shop_id =
      try_catch
        (do
          found ← query_voucher_of_shop redis vouchers sales reads from_db_string_local shop_id
          pure (make_list_json (λ v. obj (TbVoucher.to_json reads v)) found))
        answer_error

module _ {Server Db : Type 0} (redis : Redis Server) (vouchers : Mapper Row Db)
    (sales : Mapper TbSeckillVoucher Db) (reads : Reads) (from_db_string_local : Text → ℤ)
    (answers : IsRedis redis) (body : Json) (voucher stored : Row) (terms : SaleTerms)
    (w : World Server Db) where
  abbrev sold : Outcome Row × World Server Db
  sold = add_seckill_voucher redis vouchers sales reads from_db_string_local voucher body w

  abbrev pub answered : Outcome Json × World Server Db
  answered = add_seckill_answer redis vouchers sales reads from_db_string_local body w

  -- The database between the two insertions.
  abbrev between : Db
  between = (vouchers.insert voucher w.db).1
