-- ===== src/ShopService/Expiry/Refresh.antt =====
-- A refresh, and the requests that meet what it wrote.
use project_collection.Base.{ℕ, suc, ◌≡◌, Bool, true, false, List, Option}
use project_collection.Base.Int.{ℤ}
use project_collection.Base.Text.{Text}
use project_collection.Common.{Outcome, ok, str}
use project_collection.Redis.{Redis, IsRedis, Entry, hash, hget, hmset, del, insert_all}
use project_collection.Database.{Mapper, IsReader}
use project_collection.VoucherOrder.Backing.{World}
use project_collection.Orm.{Row}
use project_collection.Orm.Values.{Reads}
use project_collection.Orm.Laws.{IsReads}
use project_collection.Orm.Tables.TbShop
use project_collection.ShopService.{cache_shop_key, lock_shop_key, origin_data_key}
use project_collection.ShopService.Texts.{Styled}
use project_collection.ShopService.Maps.{IsTexts}
use project_collection.ShopService.Steps.{asking, locking_shop}
use project_collection.ShopService.Expiry.{
  Dates, Service, Readings, expire_time_key, is_blank, set_with_logical_expire,
  query_with_logical_expire,
}
use project_collection.ShopService.Expiry.Entries.{expiring_pairs}

-- The printed text of a time is read back as a text, and its date as `read_as`: without fractions of
-- a second, and, as the text has no zone, with the local time taken for Greenwich time.
pub record IsDates (json : Styled) (dates : Dates) : Type 0 where
  pub read_as : ℤ → ℤ
  pub back :
      (t : ℤ) → json.parse (json.styled (str (dates.format t))) ≡ (true, str (dates.format t))
  pub scanned : (t : ℤ) → dates.scan (json.styled (str (dates.format t))) ≡ ok (read_as t)
  pub shown : (t : ℤ) → is_blank (str (dates.format t)) ≡ false

module _ {Server Db : Type 0} (redis : Redis Server) (shops : Mapper Row Db) (reads : Reads)
    (json : Styled) (dates : Dates) (answers : IsRedis redis) (finds : IsReader shops)
    (laws : IsReads reads) (texts : IsTexts reads) (times : IsDates json dates) (id : ℤ) (s : Row)
    (t : ℤ) (old : List (Text × Text)) (life : Option ℕ) where
  abbrev pairs : List (Text × Text)
  pairs = expiring_pairs reads json dates laws texts s t

  abbrev pub expiring_entry : Entry
  expiring_entry = record { content = hash (insert_all pairs old); expires = life }

  abbrev filled : World Server Db → World Server Db
  filled w = record w { server = (redis.send (hmset (cache_shop_key id) pairs) w.server).1 }

  abbrev looked : Text → World Server Db → World Server Db
  looked name w = record w {
    server = (redis.send (hget (cache_shop_key id) name) (asking redis id w).server).1;
  }

  abbrev unlocked : World Server Db → World Server Db
  unlocked w = record w {
    server = (redis.send (del (lock_shop_key id)) (locking_shop redis id w).server).1;
  }

  abbrev read_both : World Server Db → World Server Db
  read_both w = looked expire_time_key (looked origin_data_key w)

  -- What a request leaves, by whether the entry is fresh.
  abbrev left : Bool → Service Server Db → Service Server Db
  left true v = record v { world = read_both v.world; cur_id = id }
  left false v = record v {
    world = unlocked (read_both v.world);
    cur_id = id;
    pending = suc v.pending;
  }

module _ {Server Db : Type 0} (redis : Redis Server) (shops : Mapper Row Db) (reads : Reads)
    (json : Styled) (dates : Dates) (answers : IsRedis redis) (finds : IsReader shops)
    (laws : IsReads reads) (texts : IsTexts reads) (times : IsDates json dates)
    (v : Service Server Db) (s : Row) (start : ℤ) (c : Readings) (later : Db) where
  abbrev pub refreshed : Outcome (Unit {0}) × Service Server Db
  refreshed = set_with_logical_expire redis shops reads json dates start v

  abbrev pub asked : Outcome Row × Service Server Db
  asked =
      query_with_logical_expire redis shops reads json dates c true v.cur_id
        (record refreshed.1 { world = record refreshed.1.world { db = later } })
