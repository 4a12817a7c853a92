-- ===== src/ShopService.antt =====
-- drogon/hmdp-cpp-backend/src/hmdp/source/services/ShopServiceImpl.cc: shops behind a cache in Redis.
-- The JSON of source/utils/CommonUtils.cpp that it is written with is in ShopService/Texts.
mod Keys
pub mod Texts
pub mod Maps
pub mod Pairs
pub mod Steps
pub mod Cache
pub mod Rebuild
pub mod Missing
pub mod Mutex
pub mod Places
pub mod Search
pub mod Expiry
pub mod Memory
mod Tests
use project_collection.Base.{
  ℕ, zero, suc, Bool, true, false, not, ◌==◌, List, [], ◌∷◌, ◌++◌, none, some, length,
  if◌then◌else◌,
}
use project_collection.Base.Int.{ℤ, pos, leb_ℤ}
use project_collection.Base.Text.{Text, codes, text_eq, to_string}
use project_collection.Common.{
  Outcome, ok, raised, Action, pure, raise, throw, throw_if, try_catch, ◌>>=◌, ◌>>◌, Exception,
  drogon_db_exception, std_exception, params_error, db_error, Json, null, str, obj, set_member,
}
use project_collection.Redis.{
  Redis, set, exists, del, expire, hget, hmset, execute_int64, execute_string, execute_bulk, lift,
}
use project_collection.Models.{eqb_ℤ}
use project_collection.Database.{Mapper}
use project_collection.VoucherOrder.Backing.{World, at_server, at_db}
use project_collection.UserService.{cache_failure}
use project_collection.Orm.{Row}
use project_collection.Orm.Values.{Reads, signed}
use project_collection.Orm.Tables.TbShop
use mathlib.Core.Option
use mathlib.Core.Option.{Option}
pub use Keys.*
use Texts.{Styled, convert_json_to_map, tb_shop_of}

-- `BulkString::value()` throws on nil.
abbrev pub bulk_value : {W : Type 0} → Option Text → Action W Text
bulk_value none = raise (std_exception (codes "Null value"))
bulk_value (some s) = pure s

-- `catch (DrogonDbException &e)`
abbrev pub db_exception : {W A : Type 0} → Exception → Action W A
db_exception (drogon_db_exception m) = throw db_error (codes "DrogonDbException:" ++ m)
db_exception e = raise e

abbrev pub or_load : {W A : Type 0} → Option A → Action W A → Action W A
or_load none load = load
or_load (some a) load = pure a

abbrev no_shop : Text
no_shop = codes "商铺ID不存在"

pub data CacheType : Type 0 where
  default chche_penetrate chche_avalanche chche_breakdown : CacheType

module _ {Server Db : Type 0} (redis : Redis Server) (shops : Mapper Row Db) (reads : Reads)
    (json : Styled) where
  unfoldable pub query_shop_cache : Text → Text → Action (World Server Db) Json
  query_shop_cache key name = do
    n ← at_server (execute_int64 redis (exists key))
    (if eqb_ℤ n (pos 1)
        then (do
          result ← at_server (execute_bulk redis (hget key name))
          text ← bulk_value result
          pure (json.parse text).1)
        else pure null)

  -- The object with its own text as one more member, as the map for HMSET.
  unfoldable pub shop_map : Text → Row → Outcome (List (Text × Text))
  unfolding TbShop.to_json set_member convert_json_to_map
  shop_map name shop = convert_json_to_map reads (
      set_member name (str (json.styled (obj (TbShop.to_json reads shop))))
        (TbShop.to_json reads shop))

  unfoldable pub write_shop_cache : Text → Text → Row → ℕ → Action (World Server Db) (Unit {0})
  unfolding shop_map
  write_shop_cache key name shop expire_time = do
    m ← lift (shop_map name shop)
    at_server (execute_string redis (hmset key m))
    at_server (execute_int64 redis (expire key expire_time))
    pure tt

  -- SET answers `OK`, which is no bulk string.
  unfoldable pub write_null_cache : Text → ℕ → Action (World Server Db) (Unit {0})
  write_null_cache key expire_time = do
    at_server (execute_bulk redis (set key [] true expire_time))
    pure tt

  unfoldable pub query_db_by_id : ℤ → Action (World Server Db) Row
  query_db_by_id id = try_catch (at_db (shops.find_one (is_shop id))) db_exception

  -- `if (!value.isNull())`: an empty text stands for a shop that is not there.
  unfoldable pub in_cache : Json → Action (World Server Db) (Option Row)
  unfolding tb_shop_of
  in_cache null = pure none
  in_cache (str []) = throw params_error no_shop
  in_cache value = do shop ← lift (tb_shop_of reads value); pure (some shop)

  -- The end of both strategies: what the database has is cached.
  unfoldable pub write_found : Text → Row → Action (World Server Db) Row
  unfolding write_null_cache write_shop_cache
  write_found key shop =
      if leb_ℤ (value_of_id shop) (pos 0)
      then (do write_null_cache key cache_null_ttl; throw params_error no_shop)
      else (do write_shop_cache key origin_data_key shop cache_shop_ttl; pure shop)

  unfoldable pub query_with_pass_through : ℤ → Action (World Server Db) Row
  unfolding query_shop_cache in_cache query_db_by_id write_found
  query_with_pass_through id =
      try_catch
        (do
          value ← query_shop_cache (cache_shop_key id) origin_data_key
          found ← in_cache value
          or_load found (do shop ← query_db_by_id id; write_found (cache_shop_key id) shop))
        cache_failure

  unfoldable pub try_lock_shop : Text → Action (World Server Db) Bool
  try_lock_shop key = do
    result ← at_server (execute_string redis (set key (codes "1") false lock_shop_ttl))
    pure (text_eq result (codes "OK"))

  unfoldable pub unlock_shop : Text → Action (World Server Db) (Unit {0})
  unlock_shop key = do at_server (execute_int64 redis (del key)); pure tt

  -- With the lock.
  unfoldable pub rebuild : ℤ → Action (World Server Db) Row
  unfolding query_db_by_id write_found unlock_shop
  rebuild id = do
    shop ← query_db_by_id id
    stored ← write_found (cache_shop_key id) shop
    unlock_shop (lock_shop_key id)
    pure stored

  -- One round of `queryWithMutex`; `again` is the call after a sleep.
  unfoldable pub mutex_round :
      Action (World Server Db) (Option Row) → ℤ → Action (World Server Db) (Option Row)
  unfolding query_shop_cache in_cache try_lock_shop rebuild
  mutex_round again id =
      try_catch
        (do
          value ← query_shop_cache (cache_shop_key id) origin_data_key
          found ← in_cache value
          or_load (Option.map some found) (do
            is_lock ← try_lock_shop (lock_shop_key id)
            (if not is_lock then again else (do shop ← rebuild id; pure (some shop)))))
        cache_failure

  -- On fuel, which bounds the rounds of waiting for the lock; none is running out of it.
  unfoldable pub query_with_mutex : ℕ → ℤ → Action (World Server Db) (Option Row)
  unfolding mutex_round
  query_with_mutex zero id = pure none
  query_with_mutex (suc n) id = mutex_round (query_with_mutex n id) id

  -- In `getById` a text that is not JSON is as good as none.
  unfoldable pub parsed_shop : Text → Action (World Server Db) (Option Row)
  unfolding tb_shop_of
  parsed_shop text =
      if (json.parse text).0
      then (do shop ← lift (tb_shop_of reads (json.parse text).1); pure (some shop))
      else pure none

  unfoldable pub cached_shop : Text → Action (World Server Db) (Option Row)
  unfolding parsed_shop
  cached_shop shop_key = do
    n ← at_server (execute_int64 redis (exists shop_key))
    (if eqb_ℤ n (pos 1)
        then (do
          result ← at_server (execute_bulk redis (hget shop_key origin_data_key))
          text ← bulk_value result
          parsed_shop text)
        else pure none)

  -- The rest of `getById`, when the cache has no shop.
  unfoldable pub load_shop : ℤ → Action (World Server Db) Row
  unfolding shop_map
  load_shop id = do
    shop ← at_db (shops.find_one (is_shop id))
    throw_if (leb_ℤ (value_of_id shop) (pos 0)) params_error
        (codes "商铺ID: " ++ to_string id ++ codes " 不存在")
    m ← lift (shop_map origin_data_key shop)
    at_server (execute_string redis (hmset (cache_shop_key id) m))
    pure shop

  unfoldable pub get_by_id : ℤ → Action (World Server Db) Row
  unfolding cached_shop load_shop
  get_by_id id = do
    throw_if (leb_ℤ id (pos 0)) params_error (codes "入参中的商铺ID不合法")
    found ← cached_shop (cache_shop_key id)
    or_load found (load_shop id)

  -- For an avalanche the function has no body and returns nothing, which is none here.
  unfoldable pub query_by_id : ℕ → ℤ → CacheType → Action (World Server Db) (Option Row)
  unfolding get_by_id query_with_pass_through query_with_mutex
  query_by_id n id default = do shop ← get_by_id id; pure (some shop)
  query_by_id n id chche_penetrate = do shop ← query_with_pass_through id; pure (some shop)
  query_by_id n id chche_avalanche = pure none
  query_by_id n id chche_breakdown = query_with_mutex n id

  unfoldable pub save : Row → Action (World Server Db) ℤ
  save shop = do
    ret ← at_db (shops.find_by (is_shop (value_of_id shop)))
    throw_if (length ret == 1) params_error
        (codes "新增商铺id:" ++ to_string (value_of_id shop) ++ codes "已存在,添加失败")
    at_db (shops.insert shop)
    pure (pos 0)

  -- The id is unsigned; `long` makes it signed.
  unfoldable pub update : Row → Action (World Server Db) ℤ
  update shop = do
    let id = signed 9223372036854775808 18446744073709551616 (value_of_id shop)
    throw_if (leb_ℤ id (pos 0)) params_error (codes "要更新的商铺ID不存在")
    at_db (shops.update shop)
    at_server (execute_int64 redis (del (cache_shop_key id)))
    pure (pos 0)
