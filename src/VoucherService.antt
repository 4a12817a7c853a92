-- ===== src/VoucherService.antt =====
-- drogon/hmdp-cpp-backend/src/hmdp/source/services/VoucherServiceImpl.cc: vouchers and their sales.
pub mod Sale
pub mod Memory
use project_collection.Base.{ℕ, Bool, true, List, ◌++◌, Option, none, some}
use project_collection.Base.Int.{ℤ, pos}
use project_collection.Base.Text.{Text, codes, to_string}
use project_collection.Common.{
  Outcome, ok, raised, std_exception, Action, pure, ◌>>=◌, ◌>>◌, Json, null, obj, end, get,
}
use project_collection.Redis.{Redis, set, execute_string, lift}
use project_collection.Models.{TbSeckillVoucher, number_of, is_number}
use project_collection.Database.{Mapper}
use project_collection.Orm.{Row}
use project_collection.Orm.Access.{number_at, number_column}
use project_collection.Orm.Values.{Reads, bind, signed}
use project_collection.Orm.Tables.TbVoucher
use project_collection.VoucherOrder.Backing.{World, at_server, at_db}

-- SECKILL_STOCK_KEY
abbrev pub seckill_stock_key : ℤ → Text
seckill_stock_key id = codes "seckill:stock:" ++ to_string id

-- The members that the request adds to a voucher.
pub record SaleTerms : Type 0 where
  pub stock : ℤ
  pub begin_time : ℤ
  pub end_time : ℤ

-- The constructor of TbVoucher, on any value.
unfoldable pub tb_voucher_of : Reads → Json → Outcome Row
unfolding TbVoucher.of_json
tb_voucher_of r (obj fs) = TbVoucher.of_json r fs
tb_voucher_of r null = TbVoucher.of_json r end
tb_voucher_of r _ = raised (std_exception (codes "requires objectValue or nullValue"))

-- `from_db_string_local` is `trantor::Date::fromDbStringLocal`; the stock becomes an `int32_t`.
unfoldable pub terms_of : Reads → (Text → ℤ) → Json → Outcome SaleTerms
terms_of r from_db_string_local body = bind (r.as_int64 (get (codes "stock") body)) λ stock.
    bind (r.as_string (get (codes "begin_time") body)) λ begins.
      bind (r.as_string (get (codes "end_time") body)) λ ends. ok (record {
        stock = signed 2147483648 4294967296 stock;
        begin_time = from_db_string_local begins;
        end_time = from_db_string_local ends;
      })

-- The row as the program hands it to the insertion; the times of creation and of the last update are
-- left to the table.
abbrev pub new_sale : Row → SaleTerms → TbSeckillVoucher
new_sale voucher terms = record {
  voucher_id = some (number_at 0 voucher);
  stock = some terms.stock;
  create_time = none;
  begin_time = some terms.begin_time;
  end_time = some terms.end_time;
  update_time = none;
}

module _ {Server Db : Type 0} (redis : Redis Server) (vouchers : Mapper Row Db)
    (sales : Mapper TbSeckillVoucher Db) (reads : Reads) (from_db_string_local : Text → ℤ) where
  -- `insert` fills in the id of its argument, which the caller sees: the result is the voucher.
  unfoldable pub add_seckill_voucher : Row → Json → Action (World Server Db) Row
  add_seckill_voucher voucher body = do
    stored ← at_db (vouchers.insert voucher)
    terms ← lift (terms_of reads from_db_string_local body)
    at_db (sales.insert (new_sale stored terms))
    at_server (
        execute_string redis (
          set (seckill_stock_key (number_at 0 stored))
            (to_string (number_of (new_sale stored terms).stock)) true 0))
    pure stored

  unfoldable pub add_voucher : Row → Action (World Server Db) Row
  add_voucher voucher = do stored ← at_db (vouchers.insert voucher); pure stored

  unfoldable pub query_voucher_of_shop : ℤ → Action (World Server Db) (List Row)
  query_voucher_of_shop shop_id = do
    vouchers ← at_db (vouchers.find_by (λ v. is_number (number_column 1 v) shop_id))
    pure vouchers
