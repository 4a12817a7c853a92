-- ===== src/VoucherOrder/Backing.antt =====
-- The tables tb_seckill_voucher and tb_voucher_order as the order service reaches them, through two
-- mappers and through the session pool of Poco::Data.
use project_collection.Base.{ℕ}
use project_collection.Base.Text.{Text}
use project_collection.Common.{Action}
use project_collection.Models.{TbSeckillVoucher, TbVoucherOrder}
use project_collection.Database.{Mapper}

-- `execute_sql` runs a statement and returns the number of rows that it changed.
pub record Store (Db : Type 0) : Type 0 where
  pub vouchers : Mapper TbSeckillVoucher Db
  pub orders : Mapper TbVoucherOrder Db
  pub execute_sql : Text → Action Db ℕ

-- What the service reads and writes: the Redis server and the database.
pub record World (Server Db : Type 0) : Type 0 where
  pub server : Server
  pub db : Db

module _ {Server Db A : Type 0} where
  abbrev pub at_server : Action Server A → Action (World Server Db) A
  at_server m w = ((m w.server).0, record w { server = (m w.server).1 })

  abbrev pub at_db : Action Db A → Action (World Server Db) A
  at_db m w = ((m w.db).0, record w { db = (m w.db).1 })
