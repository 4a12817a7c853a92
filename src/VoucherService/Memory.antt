-- ===== src/VoucherService/Memory.antt =====
-- Vouchers and their sales in memory, and a request for a sale.
use project_collection.Base.{◌≡◌, refl, List, [], ◌∷◌, ◌++◌, true, none, some}
use project_collection.Base.Int.{pos}
use project_collection.Base.Text.{codes, text_eq, atol, digits_value}
use project_collection.Common.{
  Action, ok, raised, drogon_db_exception, Json, int, str, obj, field, end, get, is_member, member,
}
use project_collection.Redis.{Keys}
use project_collection.Models.{TbSeckillVoucher, TbVoucherOrder}
use project_collection.Database.{Mapper}
use project_collection.Database.Memory.{reader}
use project_collection.VoucherOrder.Backing.{World, Store}
use project_collection.Orm
use project_collection.Orm.{Row, Field, unset, read_member}
use project_collection.Orm.Values.{number, read_value}
use project_collection.Orm.Memory.{plain}
use project_collection.Orm.Tables.TbVoucher
use project_collection.VoucherService.{SaleTerms, tb_voucher_of, terms_of}

pub record Shelf : Type 0 where
  pub voucher_rows : List Row
  pub sale_rows : List TbSeckillVoucher

-- The row with the next id in its first column.
abbrev keyed : Row → Row
keyed [] = []
keyed (f ∷ row) = record f { value = some (number (pos 3)) } ∷ row

abbrev pub vouchers : Mapper Row Shelf
vouchers =
    reader (λ d. d.voucher_rows)
      (λ v d. (ok (keyed v), record d { voucher_rows = d.voucher_rows ++ keyed v ∷ [] }))

abbrev pub sales : Mapper TbSeckillVoucher Shelf
sales = reader (λ d. d.sale_rows) (λ v d. (ok v, record d { sale_rows = d.sale_rows ++ v ∷ [] }))

abbrev no_order : TbVoucherOrder → Action Shelf TbVoucherOrder
no_order o d = (raised (drogon_db_exception (codes "closed")), d)

abbrev pub shelf_store : Store Shelf
shelf_store = record {
  vouchers = sales;
  orders = reader (λ d. []) no_order;
  execute_sql = λ q d. (ok 0, d);
}

abbrev pub body : Json
body = obj (
    field (codes "shop_id") (int (pos 1)) (
      field (codes "stock") (int (pos 100)) (
        field (codes "begin_time") (str (codes "10"))
          (field (codes "end_time") (str (codes "90")) end))))

abbrev pub coupon : Row
coupon =
    unset
    ∷ record { value = some (number (pos 1)); dirty = true }
    ∷ unset
    ∷ unset
    ∷ unset
    ∷ unset
    ∷ unset
    ∷ unset
    ∷ unset
    ∷ unset
    ∷ unset
    ∷ []

abbrev pub stored : Row
stored = keyed coupon

abbrev pub terms : SaleTerms
terms = record { stock = pos 100; begin_time = pos 10; end_time = pos 90 }

pub body_read : tb_voucher_of plain body ≡ ok coupon
unfolding tb_voucher_of TbVoucher.of_json TbVoucher.columns Orm.of_json read_member read_value
    is_member member codes text_eq
body_read = refl

pub terms_read : terms_of plain atol body ≡ ok terms
unfolding terms_of get member codes text_eq atol digits_value
terms_read = refl

abbrev pub start : World Keys Shelf
start = record { server = λ k. none; db = record { voucher_rows = []; sale_rows = [] } }
