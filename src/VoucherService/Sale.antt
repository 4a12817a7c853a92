-- ===== src/VoucherService/Sale.antt =====
-- A new sale in the two tables and in Redis.
use project_collection.Base.{◌≡◌, refl, true, none, some}
use project_collection.Base.Int.{ℤ}
use project_collection.Base.Text.{Text, to_string}
use project_collection.Common.{Json, ok, raised, Exception}
use project_collection.Redis.{Redis, IsRedis, Command, Entry, string, set, put}
use project_collection.Models.{TbSeckillVoucher}
use project_collection.Database.{Mapper}
use project_collection.Orm.{Row}
use project_collection.Orm.Access.{number_at}
use project_collection.Orm.Values.{Reads}
use project_collection.VoucherOrder.Backing.{World}
use project_collection.VoucherService.{
  SaleTerms, terms_of, new_sale, seckill_stock_key, add_seckill_voucher,
}

abbrev pub stock_entry : SaleTerms → Entry
stock_entry terms = record { content = string (to_string terms.stock); expires = none }

module _ {Server Db : Type 0} (redis : Redis Server) (vouchers : Mapper Row Db)
    (sales : Mapper TbSeckillVoucher Db) (reads : Reads) (from_db_string_local : Text → ℤ)
    (answers : IsRedis redis) (voucher stored : Row) (body : Json) (w : World Server Db)
    (inserted : (vouchers.insert voucher w.db).0 ≡ ok stored) where
  -- The database between the two insertions.
  abbrev pub with_voucher : Db
  with_voucher = (vouchers.insert voucher w.db).1

  -- With both rows inserted, the sale row has the id that the database gave to the voucher, and the
  -- stock stands in Redis under that id, without an expiry; no other key changes.
  pub add_seckill_voucher_stores :
      (terms : SaleTerms) (s : TbSeckillVoucher)
      → terms_of reads from_db_string_local body ≡ ok terms
      → (sales.insert (new_sale stored terms) with_voucher).0 ≡ ok s
      → ((add_seckill_voucher redis vouchers sales reads from_db_string_local voucher body w).0
          ≡ ok stored)
        × ((add_seckill_voucher redis vouchers sales reads from_db_string_local voucher body w).1.db
            ≡ (sales.insert (new_sale stored terms) with_voucher).1)
        × ((j : Text)
            → redis.keys
                (add_seckill_voucher redis vouchers sales reads from_db_string_local voucher body
                  w).1.server
                j
              ≡ put
                  (seckill_stock_key (number_at 0 stored))
                  (some (stock_entry terms))
                  (redis.keys w.server)
                  j)
  unfolding add_seckill_voucher
  add_seckill_voucher_stores terms s read both = (
    rw (inserted, read, both, answers.replies writes w.server, answers.string_simple) refl,
    rw (inserted, read, both, answers.replies writes w.server, answers.string_simple) refl,
    λ j.
        rw (inserted, read, both, answers.replies writes w.server, answers.string_simple)
          (answers.effects writes w.server j),
  )
    where
      writes : Command
      writes = set (seckill_stock_key (number_at 0 stored)) (to_string terms.stock) true 0

  -- Where the second insertion fails, its exception is thrown, the voucher row stays without a sale
  -- row, and Redis is as it was.
  pub add_seckill_voucher_half :
      (terms : SaleTerms) (e : Exception)
      → terms_of reads from_db_string_local body ≡ ok terms
      → (sales.insert (new_sale stored terms) with_voucher).0 ≡ raised e
      → ((add_seckill_voucher redis vouchers sales reads from_db_string_local voucher body w).0
          ≡ raised e)
        × ((add_seckill_voucher redis vouchers sales reads from_db_string_local voucher body
              w).1.server
            ≡ w.server)
        × ((add_seckill_voucher redis vouchers sales reads from_db_string_local voucher body w).1.db
            ≡ (sales.insert (new_sale stored terms) with_voucher).1)
  unfolding add_seckill_voucher
  add_seckill_voucher_half terms e read second = (
    rw (inserted, read, second) refl,
    rw (inserted, read, second) refl,
    rw (inserted, read, second) refl,
  )

  -- Where the stock or a date of the request cannot be read, the exception comes after the first
  -- insertion: the voucher row stays without a sale row, and Redis is as it was.
  pub add_seckill_voucher_unread :
      (e : Exception)
      → terms_of reads from_db_string_local body ≡ raised e
      → ((add_seckill_voucher redis vouchers sales reads from_db_string_local voucher body w).0
          ≡ raised e)
        × ((add_seckill_voucher redis vouchers sales reads from_db_string_local voucher body
              w).1.server
            ≡ w.server)
        × ((add_seckill_voucher redis vouchers sales reads from_db_string_local voucher body w).1.db
            ≡ with_voucher)
  unfolding add_seckill_voucher
  add_seckill_voucher_unread e unread =
      (rw (inserted, unread) refl, rw (inserted, unread) refl, rw (inserted, unread) refl)
