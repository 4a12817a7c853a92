-- ===== src/Controllers/Vouchers/Tests.antt =====
-- A voucher is put on sale.
use project_collection.Base.Text.{Text, atol}
use project_collection.Redis.Memory.{memory, memory-IsRedis}
use project_collection.Orm.Memory.{plain}
use project_collection.VoucherService.Memory.{
  Shelf, vouchers, sales, body, coupon, stored, terms, start,
}
use project_collection.VoucherOrder.Backing.{World}
use project_collection.Redis.{Keys}
use project_collection.Controllers.Vouchers.{answered}

abbrev after : World Keys Shelf
after = (answered memory vouchers sales plain atol memory-IsRedis body coupon stored terms start).1
