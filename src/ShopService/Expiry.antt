-- ===== src/ShopService/Expiry.antt =====
-- queryWithLogicalExpire of ShopServiceImpl.cc: an entry with its expiry in the text, refreshed by a
-- thread; with include/common/RedisData.h.
pub mod Entries
pub mod Refresh
pub mod Stray
mod Tests
use project_collection.Base.{ℕ, suc, Bool, true, false, ◌||◌, if◌then◌else◌}
use project_collection.Base.Int.{ℤ, pos, ◌+ℤ◌, ltb_ℤ}
use project_collection.Base.Text.{Text, codes}
use project_collection.Base.{[], ◌∷◌}
use project_collection.Common.{
  Outcome, ok, Action, pure, throw, throw_if, try_catch, ◌>>=◌, ◌>>◌, params_error, system_error,
  Json, str, obj, Fields, set_member,
}
use project_collection.Redis.{Redis, hmset, execute_string, lift}
use project_collection.Database.{Mapper}
use project_collection.VoucherOrder.Backing.{World, at_server}
use project_collection.UserService.{cache_failure}
use project_collection.Orm.{Row}
use project_collection.Orm.Values.{Reads, bind}
use project_collection.Orm.Tables.TbShop
use project_collection.ShopService.{
  cache_shop_key, lock_shop_key, origin_data_key, query_shop_cache, query_db_by_id, try_lock_shop,
  unlock_shop,
}
use project_collection.ShopService.Texts.{Styled, convert_json_to_map, tb_shop_of}

-- `DateTimeFormatter::format` of a local time with SORTABLE_FORMAT, and `DateTimeParser::parse` with
-- the same format, in microseconds. The text names no zone.
pub record Dates : Type 0 where
  pub format : ℤ → Text
  pub scan : Text → Outcome ℤ

-- REDIS_DATA_EXPIRETIME_KEY
abbrev pub expire_time_key : Text
expire_time_key = codes "ExpireTime"

-- `originData == ""`, which null is not.
abbrev pub is_blank : Json → Bool
is_blank (str []) = true
is_blank _ = false

-- The service with its members: the id that a refresh reads, and whether the cache was built; and
-- the refreshes that were started and have not run.
pub record Service (Server Db : Type 0) : Type 0 where
  pub world : World Server Db
  pub cur_id : ℤ
  pub is_logical_expire : Bool
  pub pending : ℕ

abbrev pub at_world :
    {Server Db A : Type 0} → Action (World Server Db) A → Action (Service Server Db) A
at_world m s = ((m s.world).0, record s { world = (m s.world).1 })

-- What `LocalDateTime now` gives in the building of the cache and in the test of the expiry.
pub record Readings : Type 0 where
  pub built : ℤ
  pub now : ℤ

-- CACHE_SHOP_TTL in microseconds.
abbrev pub half_minute : ℤ
half_minute = pos 30000000

abbrev set_current_id : {Server Db : Type 0} → ℤ → Action (Service Server Db) (Unit {0})
set_current_id id s = (ok tt, record s { cur_id = id })

-- `_threadPoolPtr->start(ra)`
abbrev pub start_refresh : {Server Db : Type 0} → Bool → Action (Service Server Db) (Unit {0})
start_refresh true s = (ok tt, record s { pending = suc s.pending })
start_refresh false s = throw system_error (codes "逻辑过期独立线程执行异常") s

module _ (reads : Reads) (json : Styled) (dates : Dates) where
  -- `RedisData::toJsonStr`
  unfoldable pub to_json_str : Row → ℤ → Fields
  unfolding set_member TbShop.to_json
  to_json_str shop time = set_member expire_time_key (str (json.styled (str (dates.format time)))) (
      set_member origin_data_key (str (json.styled (obj (TbShop.to_json reads shop))))
        (TbShop.to_json reads shop))

  -- `RedisData::fromJsonStr`
  unfoldable pub from_json_str : Json → Json → Outcome (Row × ℤ)
  unfolding tb_shop_of
  from_json_str origin_data expire_time =
      bind (tb_shop_of reads origin_data)
        λ shop. bind (dates.scan (json.styled expire_time)) λ time. ok (shop, time)

module _ {Server Db : Type 0} (redis : Redis Server) (shops : Mapper Row Db) (reads : Reads)
    (json : Styled) (dates : Dates) where
  unfoldable pub write_expiring : ℤ → Row → ℤ → Action (World Server Db) (Unit {0})
  unfolding to_json_str convert_json_to_map
  write_expiring id shop time = do
    m ← lift (convert_json_to_map reads (to_json_str reads json dates shop time))
    at_server (execute_string redis (hmset (cache_shop_key id) m))
    pure tt

  -- What a refresh does when it runs, at `now`.
  unfoldable pub set_with_logical_expire : ℤ → Action (Service Server Db) (Unit {0})
  unfolding write_expiring query_db_by_id
  set_with_logical_expire now s =
      at_world
        (do
          shop ← query_db_by_id redis shops reads json s.cur_id
          write_expiring s.cur_id shop (now +ℤ half_minute))
        s

  unfoldable pub build_logical_expire_cache : ℤ → ℤ → Action (Service Server Db) (Unit {0})
  unfolding write_expiring query_db_by_id
  build_logical_expire_cache id now s =
      if s.is_logical_expire
      then (ok tt, s)
      else at_world (do shop ← query_db_by_id redis shops reads json id; write_expiring id shop now)
          (record s { is_logical_expire = true })

  -- The lock is held while the refresh is started, not while it runs.
  unfoldable pub expired : Bool → ℤ → Action (Service Server Db) (Unit {0})
  unfolding try_lock_shop unlock_shop
  expired has_thread id = do
    is_lock ← at_world (try_lock_shop redis shops reads json (lock_shop_key id))
    (if is_lock
        then (do
          start_refresh has_thread
          at_world (unlock_shop redis shops reads json (lock_shop_key id)))
        else pure tt)

  -- What the cache has of a shop, and its expiry.
  unfoldable pub stored_shop : ℤ → Action (World Server Db) (Row × ℤ)
  unfolding query_shop_cache from_json_str
  stored_shop id = do
    origin_data ← query_shop_cache redis shops reads json (cache_shop_key id) origin_data_key
    expire_time ← query_shop_cache redis shops reads json (cache_shop_key id) expire_time_key
    throw_if (is_blank origin_data || is_blank expire_time) params_error (codes "商铺ID缓存不存在")
    lift (from_json_str reads json dates origin_data expire_time)

  unfoldable pub served : Readings → Bool → ℤ → Row × ℤ → Action (Service Server Db) Row
  unfolding expired
  served c has_thread id (shop, time) =
      if ltb_ℤ c.now time then pure shop else (do expired has_thread id; pure shop)

  -- `has_thread` tells whether the pool has a thread for the refresh.
  unfoldable pub query_with_logical_expire : Readings → Bool → ℤ → Action (Service Server Db) Row
  unfolding build_logical_expire_cache stored_shop served
  query_with_logical_expire c has_thread id =
      try_catch
        (do
          set_current_id id
          build_logical_expire_cache id c.built
          stored ← at_world (stored_shop id)
          served c has_thread id stored)
        cache_failure
